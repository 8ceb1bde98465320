-- ===== src/Pool/Path/Laws.antt =====
-- What a selected path is.
use plex_postgresql.Prelude.{
  ℕ, true, [], ◌∷◌, ◌++◌, Option, none, some, ◌≡◌, refl, ap, arith, inl, inr, Bool-cases,
  Option-cases, sym,
}
use plex_postgresql.Prelude.Bytes.{
  Bytes, ends_with, strip_suffix, strip_suffix_sound, ends_with-append,
}
use plex_postgresql.Pool.Path.{
  library_name, blobs_name, is_library_db, is_blobs_db, is_nil, select_library_pool_path,
  resolve_selected_pool_path,
}

-- Where a selected path comes from: the request itself, the library beside a requested blobs
-- database, or, for a request without a path, the library that was seen first.
pub data Source (cached : Option Bytes) (raw selected : Bytes) : Type 0 where
  requested : selected ≡ raw → Source cached raw selected
  beside :
      (front : Bytes)
      → raw ≡ front ++ blobs_name
      → selected ≡ front ++ library_name
      → Source cached raw selected
  remembered : raw ≡ [] → cached ≡ some selected → Source cached raw selected

nil_of_is_nil : (s : Bytes) → is_nil s ≡ true → s ≡ []
nil_of_is_nil [] h = refl
nil_of_is_nil (c ∷ s) h = cc

-- The whole of what is known of a selected path.
abbrev pub Selected : Option Bytes → Bytes → Bytes → Type 0
Selected cached raw selected = (is_library_db selected ≡ true) × Source cached raw selected

of_nothing :
    (cached : Option Bytes) {selected : Bytes}
    → resolve_selected_pool_path cached [] ≡ some selected
    → Selected cached [] selected
unfolding resolve_selected_pool_path select_library_pool_path is_library_db is_blobs_db ends_with
of_nothing none h = absurd (let q = h in cc)
of_nothing (some p) {selected} h = elim (Bool-cases (ends_with library_name p)) [
  | inl lib ↦
      let q : p ≡ selected = (let e = rw (lib, lib) at h in ground (arith, e)) in
      (rw (← q) lib, remembered refl (ap some q))
  | inr other ↦ absurd (let q = rw other at h in cc)
]

of_path :
    (cached : Option Bytes) (c : ℕ) (s : Bytes) {selected : Bytes}
    → resolve_selected_pool_path cached (c ∷ s) ≡ some selected
    → Selected cached (c ∷ s) selected
unfolding resolve_selected_pool_path select_library_pool_path
of_path cached c s {selected} h = elim (Bool-cases (is_library_db (c ∷ s))) [
  | inl lib ↦
      let q : c ∷ s ≡ selected = (let e = rw (lib, lib) at h in ground (arith, e)) in
      (rw (← q) lib, requested (sym q))
  | inr other ↦ elim (Bool-cases (is_blobs_db (c ∷ s))) [
    | inr neither ↦ absurd (let q = rw (other, neither) at h in cc)
    | inl blobs ↦ elim (Option-cases (strip_suffix blobs_name (c ∷ s))) [
      | inl no_front ↦ absurd (let q = rw (other, blobs, no_front) at h in cc)
      | inr (front, found) ↦
          let lib : is_library_db (front ++ library_name) ≡ true =
            (unfold is_library_db in ends_with-append front library_name) in
          let q : front ++ library_name ≡ selected =
            (let e = rw (other, blobs, found, lib) at h in ground (arith, e)) in
          (rw (← q) lib, beside front (strip_suffix_sound blobs_name (c ∷ s) found) (sym q))
    ]
  ]
]

-- A selected path names the library, and it is the one that the request means.
pub resolve_sound :
    (cached : Option Bytes) (raw : Bytes) {selected : Bytes}
    → resolve_selected_pool_path cached raw ≡ some selected
    → Selected cached raw selected
resolve_sound cached [] h = of_nothing cached h
resolve_sound cached (c ∷ s) h = of_path cached c s h
