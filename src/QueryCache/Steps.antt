-- ===== src/QueryCache/Steps.antt =====
-- rust/plex-pg-core/src/pg_query_cache.rs: sequences of the calls that a thread makes on its cache,
-- and what one write does to the entries.
use plex_postgresql.Prelude.{
  ℕ, suc, ◌+◌, Bool, List, [], ◌∷◌, Option, some, ◌≡◌, ◌∙◌, subst, ap, arith, inl, inr, ◌==◌,
  ==_iff, Bool-cases, get_elem?, set, get_elem?-set_self, get_elem?-set_ne, lt_of_get_elem?,
  ℕ_discrete,
}
use plex_postgresql.QueryCache.{
  QueryCache, CachedResult, lookup, invalidate, release, position, write,
}
use plex_postgresql.QueryCache.Store.{QueryResult, store}

pub data Call : Type 0 where
  looks_up : (key : ℕ) → (now : ℕ) → Call
  stores : (key : ℕ) → (r : QueryResult) → (now : ℕ) → (created : ℕ) → Call
  invalidates : (key : ℕ) → Call
  releases : (place : Option ℕ) → Call

unfoldable pub call : Bool → QueryCache → Call → QueryCache
call enabled cache (looks_up key now) = (lookup enabled cache key now).0
call enabled cache (stores key r now created) = store enabled cache key r now created
call enabled cache (invalidates key) = invalidate enabled cache key
call enabled cache (releases place) = release enabled cache place

unfoldable pub calls : Bool → QueryCache → List Call → QueryCache
calls enabled cache [] = cache
calls enabled cache (c ∷ cs) = calls enabled (call enabled cache c) cs

-- What `position` finds stands at that place, under that key.
position_from :
    (key : ℕ) (es : List CachedResult) (i j : ℕ) (e : CachedResult)
    → position key es i ≡ some (j, e)
    → (n : ℕ) × (j ≡ i + n) × (get_elem? es n ≡ some e) × (e.cache_key ≡ key)
unfolding position
position_from key [] i j e h = cc
position_from key (x ∷ es) i j e h = elim (Bool-cases (x.cache_key == key)) [
  | inl same ↦
      let q = rw same at h in
      let at_i : j ≡ i = ground (arith, q) in
      let one : x ≡ e = ground (arith, q) in
      (0, omega arith, ap some one, rw (← one) ((==_iff x.cache_key key).0 same))
  | inr other ↦
      let (n, a, b, c) = position_from key es (i + 1) j e (rw other at h) in
      (suc n, omega arith, b, c)
]

pub position_sound :
    (key : ℕ) (es : List CachedResult) (j : ℕ) (e : CachedResult)
    → position key es 0 ≡ some (j, e)
    → (get_elem? es j ≡ some e) × (e.cache_key ≡ key)
position_sound key es j e h =
    let (n, a, b, c) = position_from key es 0 j e h in
    (subst (λ k. get_elem? es k ≡ some e) (omega arith) b, c)

-- The entry at a place after a write of another entry.
pub write_cases :
    (P : CachedResult → Type 0) (cache : QueryCache) (j i : ℕ) (x e y : CachedResult)
    → get_elem? cache.entries i ≡ some e
    → get_elem? cache.entries j ≡ some y
    → P e
    → (y ≡ e → P x)
    → (e' : CachedResult) × (get_elem? (write cache j x).entries i ≡ some e') × P e'
write_cases P cache j i x e y h hj p f = elim (ℕ_discrete j i) [
  | yes here ↦
      let q = subst (λ k. get_elem? cache.entries k ≡ some y) here hj in
      let one : y ≡ e = ground (arith, h, q) in
      (
        x,
        subst (λ k. get_elem? (set cache.entries j x) k ≡ some x) here
            (get_elem?-set_self cache.entries j x (lt_of_get_elem? cache.entries j hj)),
        f one,
      )
  | no away ↦ (e, get_elem?-set_ne cache.entries j i x away ∙ h, p)
]
