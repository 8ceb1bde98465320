-- ===== src/Helpers/Library.antt =====
-- db_interpose_helpers/pure_helpers.rs: the two tests for the library's files agree.
use plex_postgresql.Prelude.{
  ℕ, ◌-◌, Bool, true, false, not, ◌&&◌, ◌||◌, [], ◌∷◌, ◌++◌, ◌==◌, ltb, length, take, all, ◌≡◌,
  refl, sym, ◌∙◌, ap, arith, inl, inr, Bool-cases, length-append,
}
use plex_postgresql.Prelude.Bytes.{
  Bytes, codes, beq, beq_iff, contains, starts_with, ends_with, ascii_lower,
}
use plex_postgresql.Preprocess.{to_ascii_lowercase}
use plex_postgresql.Helpers.{contains_ascii_icase, is_library_db_path, is_library_or_blobs_db_path}

-- No character of the text is `e`.
abbrev without : ℕ → Bytes → Bool
without e t = all (λ c. not (e == c)) t

starts_with-without :
    (pat : Bytes) (e : ℕ) (t : Bytes) → without e t ≡ true → starts_with (pat ++ e ∷ []) t ≡ false
unfolding starts_with
starts_with-without [] e [] h = refl
starts_with-without [] e (c ∷ t) h = ground (arith, h)
starts_with-without (p ∷ pat) e [] h = refl
starts_with-without (p ∷ pat) e (c ∷ t) h =
    let ih = starts_with-without pat e t (ground (arith, h)) in ground (arith, ih)

starts_with-tail :
    (pat : Bytes) (e : ℕ) (s t : Bytes)
    → without e t ≡ true
    → starts_with (pat ++ e ∷ []) (s ++ t) ≡ starts_with (pat ++ e ∷ []) s
unfolding starts_with
starts_with-tail [] e [] t h = starts_with-without [] e t h
starts_with-tail (p ∷ pat) e [] t h = starts_with-without (p ∷ pat) e t h
starts_with-tail [] e (c ∷ s) t h = refl
starts_with-tail (p ∷ pat) e (c ∷ s) t h = rw (starts_with-tail pat e s t h) refl

contains-without :
    (pat : Bytes) (e : ℕ) (t : Bytes) → without e t ≡ true → contains (pat ++ e ∷ []) t ≡ false
unfolding contains
contains-without pat e [] h = starts_with-without pat e [] h
contains-without pat e (c ∷ t) h =
    let ih = contains-without pat e t (ground (arith, h)) in
    rw (starts_with-without pat e (c ∷ t) h, ih) refl

-- A word that ends in a character that a tail lacks is found in front of the tail, or not at all.
contains-tail :
    (pat : Bytes) (e : ℕ) (s t : Bytes)
    → without e t ≡ true
    → contains (pat ++ e ∷ []) (s ++ t) ≡ contains (pat ++ e ∷ []) s
unfolding contains
contains-tail pat e [] t h = contains-without pat e t h ∙ sym (starts_with-without pat e [] refl)
contains-tail pat e (c ∷ s) t h =
    rw (starts_with-tail pat e (c ∷ s) t h, contains-tail pat e s t h) refl

to_ascii_lowercase-append :
    (s t : Bytes) → to_ascii_lowercase (s ++ t) ≡ to_ascii_lowercase s ++ to_ascii_lowercase t
unfolding to_ascii_lowercase
to_ascii_lowercase-append [] t = refl
to_ascii_lowercase-append (c ∷ s) t = ap (λ r. ascii_lower c ∷ r) (to_ascii_lowercase-append s t)

ends_with-front :
    (suffix s : Bytes) → ends_with suffix s ≡ true → (front : Bytes) × (s ≡ front ++ suffix)
unfolding ends_with
ends_with-front suffix [] h = ([], (beq_iff [] suffix).0 h)
ends_with-front suffix (c ∷ s) h = elim (Bool-cases (beq (c ∷ s) suffix)) [
  | inl whole ↦ ([], (beq_iff (c ∷ s) suffix).0 whole)
  | inr longer ↦
      let q = rw longer at h in
      let (front, same) = ends_with-front suffix s q in (c ∷ front, ap (λ r. c ∷ r) same)
]

take-front : (front tail : Bytes) → take (length front) (front ++ tail) ≡ front
take-front [] tail = refl
take-front (c ∷ front) tail = ap (λ r. c ∷ r) (take-front front tail)

-- Four characters that are cut off do not matter to a word that ends in a b, where they have none.
cut-same :
    (front tail pat : Bytes)
    → length tail ≡ 4
    → without 98 (to_ascii_lowercase tail) ≡ true
    → contains_ascii_icase (take (length (front ++ tail) - 4) (front ++ tail)) (pat ++ 98 ∷ [])
      ≡ contains_ascii_icase (front ++ tail) (pat ++ 98 ∷ [])
cut-same front tail pat four none_of =
    let sized : length (front ++ tail) - 4 ≡ length front =
      omega (arith, length-append front tail, four) in
    rw (sized, take-front front tail, to_ascii_lowercase-append front tail)
      (sym (contains-tail pat 98 (to_ascii_lowercase front) (to_ascii_lowercase tail) none_of))

path-same :
    (path pat : Bytes)
    → (ends_with (codes "-wal") path || ends_with (codes "-shm") path) ≡ true
    → contains_ascii_icase (take (length path - 4) path) (pat ++ 98 ∷ [])
      ≡ contains_ascii_icase path (pat ++ 98 ∷ [])
unfolding to_ascii_lowercase ascii_lower
path-same path pat h = elim (Bool-cases (ends_with (codes "-wal") path)) [
  | inl wal ↦
      let (front, same) = ends_with-front (codes "-wal") path wal in
      rw same (cut-same front (codes "-wal") pat refl refl)
  | inr other ↦
      let (front, same) = ends_with-front (codes "-shm") path (ground (arith, h, other)) in
      rw same (cut-same front (codes "-shm") pat refl refl)
]

-- The two tests for the files that PostgreSQL serves agree on every path: the one cuts off -wal or -shm
-- before it looks, and the other does not.
pub is_library_db_path-same :
    (path : Bytes) → is_library_db_path path ≡ is_library_or_blobs_db_path path
unfolding is_library_db_path is_library_or_blobs_db_path
is_library_db_path-same path =
    elim (Bool-cases
      (ltb 4 (length path) && (ends_with (codes "-wal") path || ends_with (codes "-shm") path))) [
        | inr kept ↦ rw kept refl
        | inl cut ↦
            let tail : (ends_with (codes "-wal") path || ends_with (codes "-shm") path) ≡ true =
              ground (arith, cut) in
            let library : contains_ascii_icase (take (length path - 4) path)
                  (codes "com.plexapp.plugins.library.db")
                ≡ contains_ascii_icase path (codes "com.plexapp.plugins.library.db") =
              path-same path (codes "com.plexapp.plugins.library.d") tail in
            let blobs : contains_ascii_icase (take (length path - 4) path)
                  (codes "com.plexapp.plugins.library.blobs.db")
                ≡ contains_ascii_icase path (codes "com.plexapp.plugins.library.blobs.db") =
              path-same path (codes "com.plexapp.plugins.library.blobs.d") tail in
            rw (cut, library, blobs) refl
      ]
