-- ===== src/Helpers/Guide.antt =====
-- db_interpose_helpers/pure_helpers.rs: the schema of a guide is a plain name.
use plex_postgresql.Prelude.{
  and_then, ℕ, ◌+◌, ◌-◌, Bool, true, false, ◌&&◌, ◌||◌, List, [], ◌∷◌, ◌++◌, map, Option, none,
  some, if◌then◌else◌, ◌==◌, leb, ltb, length, drop, take, all, ◌≡◌, refl, sym, subst, ◌∙◌, ap,
  arith, inl, inr, Bool-cases, Option-cases, length-append,
}
use plex_postgresql.Prelude.Bytes.{
  Bytes, codes, beq, beq_iff, is_digit, ascii_lower, strip_suffix, strip_prefix,
}
use plex_postgresql.Preprocess.{to_ascii_lowercase, length-to_ascii_lowercase}
use plex_postgresql.Helpers.{
  cons_part, split_on, remove_all, is_ascii_hexdigit, is_uuid, is_provider, dvr_of, load_of,
  guide_dvr_for_path, epg_schema_for_path, strip_first, last_part,
}

-- A digit or a small letter up to f.
abbrev pub is_lower_hex : ℕ → Bool
is_lower_hex b = is_digit b || (leb 97 b && leb b 102)

concat : List Bytes → Bytes
concat [] = []
concat (g ∷ gs) = g ++ concat gs

total : List ℕ → ℕ
total [] = 0
total (n ∷ ns) = n + total ns

concat-cons_part : (c : ℕ) (gs : List Bytes) → concat (cons_part c gs) ≡ c ∷ concat gs
unfolding concat
concat-cons_part c [] = refl
concat-cons_part c (g ∷ gs) = refl

concat-split_on : (sep : ℕ) (s : Bytes) → concat (split_on sep s) ≡ remove_all sep s
unfolding split_on remove_all concat
concat-split_on sep [] = refl
concat-split_on sep (c ∷ s) = elim (Bool-cases (c == sep)) [
  | inl here ↦ rw here (concat-split_on sep s)
  | inr other ↦
      rw other (concat-cons_part c (split_on sep s) ∙ ap (λ r. c ∷ r) (concat-split_on sep s))
]

length-concat : (gs : List Bytes) → length (concat gs) ≡ total (map length gs)
unfolding concat total
length-concat [] = refl
length-concat (g ∷ gs) = length-append g (concat gs) ∙ ap (λ n. length g + n) (length-concat gs)

all-append : (p : ℕ → Bool) (s t : Bytes) → all p s ≡ true → all p t ≡ true → all p (s ++ t) ≡ true
all-append p [] t h k = k
all-append p (c ∷ s) t h k =
    let rest = all-append p s t (ground (arith, h)) k in ground (arith, h, rest)

all-concat : (p : ℕ → Bool) (gs : List Bytes) → all (all p) gs ≡ true → all p (concat gs) ≡ true
unfolding concat
all-concat p [] h = refl
all-concat p (g ∷ gs) h =
    all-append p g (concat gs) (ground (arith, h)) (all-concat p gs (ground (arith, h)))

lower-hex :
    (s : Bytes) → all is_ascii_hexdigit s ≡ true → all is_lower_hex (to_ascii_lowercase s) ≡ true
unfolding to_ascii_lowercase ascii_lower
lower-hex [] h = refl
lower-hex (c ∷ s) h = let rest = lower-hex s (ground (arith, h)) in ground (arith, h, rest)

-- Thirty-two hexadecimal digits.
abbrev pub IsDvr : Bytes → Type 0
IsDvr dvr = (length dvr ≡ 32) × (all is_lower_hex dvr ≡ true)

is_uuid-IsDvr :
    (uuid : Bytes) → is_uuid uuid ≡ true → IsDvr (to_ascii_lowercase (remove_all 45 uuid))
unfolding total
is_uuid-IsDvr uuid h =
    let lengths : beq (map length (split_on 45 uuid)) (8 ∷ 4 ∷ 4 ∷ 4 ∷ 12 ∷ []) ≡ true =
      ground (arith, h) in
    let hex : all (all is_ascii_hexdigit) (split_on 45 uuid) ≡ true = ground (arith, h) in
    let same = concat-split_on 45 uuid in
    (
      length-to_ascii_lowercase (remove_all 45 uuid)
          ∙ ap length (sym same)
          ∙ length-concat (split_on 45 uuid)
          ∙ ap total
              ((beq_iff (map length (split_on 45 uuid)) (8 ∷ 4 ∷ 4 ∷ 4 ∷ 12 ∷ [])).0 lengths),
      lower-hex (remove_all 45 uuid) (
          subst (λ s. all is_ascii_hexdigit s ≡ true) same
            (all-concat is_ascii_hexdigit (split_on 45 uuid) hex)),
    )

dvr_of-IsDvr :
    (stem : Bytes) (load : Bool) (dvr : Bytes) (l : Bool)
    → dvr_of stem load ≡ some (dvr, l)
    → IsDvr dvr
dvr_of-IsDvr stem load dvr l h = elim (Bool-cases (ltb (length stem) 38)) [
  | inl short ↦ absurd (let q = rw short at h in cc)
  | inr long ↦
      elim (Bool-cases (
        is_provider (strip_suffix (codes "-") (take (length stem - 36) stem))
        && is_uuid (drop (length stem - 36) stem))) [
          | inl good ↦
              let q = rw (long, good) at h in
              let one : to_ascii_lowercase (remove_all 45 (drop (length stem - 36) stem)) ≡ dvr =
                ground (arith, q) in
              subst IsDvr one (is_uuid-IsDvr (drop (length stem - 36) stem) (ground (arith, good)))
          | inr bad ↦ absurd (let q = rw (long, bad) at h in cc)
        ]
]

load_of-IsDvr :
    (stem : Bytes) (o : Option Bytes) (dvr : Bytes) (l : Bool)
    → load_of stem o ≡ some (dvr, l)
    → IsDvr dvr
load_of-IsDvr stem none dvr l h = dvr_of-IsDvr stem false dvr l h
load_of-IsDvr stem (some stripped) dvr l h = dvr_of-IsDvr stripped true dvr l h

stem-IsDvr :
    (o : Option Bytes) (dvr : Bytes) (l : Bool)
    → and_then o (λ stem. load_of stem (strip_suffix (codes "-loading") stem)) ≡ some (dvr, l)
    → IsDvr dvr
stem-IsDvr none dvr l h = absurd (let q = h in cc)
stem-IsDvr (some stem) dvr l h = load_of-IsDvr stem (strip_suffix (codes "-loading") stem) dvr l h

name-IsDvr :
    (o : Option Bytes) (dvr : Bytes) (l : Bool)
    → and_then o (λ rest.
      and_then
        (strip_suffix (codes ".db") rest)
        (λ stem. load_of stem (strip_suffix (codes "-loading") stem)))
      ≡ some (dvr, l)
    → IsDvr dvr
name-IsDvr none dvr l h = absurd (let q = h in cc)
name-IsDvr (some rest) dvr l h = stem-IsDvr (strip_suffix (codes ".db") rest) dvr l h

-- The schema that a guide's path names is "epg_", 32 hexadecimal digits in small letters, and "_next" for
-- the file of a load: nothing else of the path gets into the name.
pub epg_schema_for_path-IsDvr :
    (path schema : Bytes)
    → epg_schema_for_path path ≡ some schema
    → (dvr : Bytes) × (load : Bool) × IsDvr dvr
      × (guide_dvr_for_path path ≡ some (dvr, load))
      × (schema ≡ codes "epg_" ++ (dvr ++ (if load then codes "_next" else [])))
unfolding epg_schema_for_path
epg_schema_for_path-IsDvr path schema h = elim (Option-cases (guide_dvr_for_path path)) [
  | inl other ↦ absurd (let q = rw other at h in cc)
  | inr ((dvr, load), found) ↦
      let q = rw found at h in
      (
        dvr,
        load,
        name-IsDvr
            (strip_prefix (codes "tv.plex.providers.epg.") (
              last_part 47 (strip_first (codes "-wal" ∷ codes "-shm" ∷ codes "-journal" ∷ []) path)
                (strip_first (codes "-wal" ∷ codes "-shm" ∷ codes "-journal" ∷ []) path)))
            dvr load (unfold guide_dvr_for_path in found),
        found,
        ground (arith, q),
      )
]
