-- ===== src/Pool/Release/Frees.antt =====
-- pg_client/pool_runtime.rs: what closing a handle does, and what it leaves alone.
use plex_postgresql.Prelude.{
  ◌⊎◌, inl, inr, Bool-cases, Option-cases, ℕ, ◌<◌, true, false, ◌&&◌, ltb, Option, none, some, List,
  [], ◌∷◌, zero, suc, ◌≡◌, refl, sym, ap, ◌∙◌, subst, arith, get_elem?, set, get_elem?-set_self,
  get_elem?-set_ne, lt_of_get_elem?, ℕ_discrete,
}
use plex_postgresql.Prelude.Map.{find, find-remove, remove}
use plex_postgresql.Pool.Slot.{Slot, new_slot, is_ready, release, threads_equal}
use plex_postgresql.Pool.TlsCache
use plex_postgresql.Pool.Registry.{unregister}
use plex_postgresql.Pool.Manager.{PoolManager, pool_size, slot_at}
use plex_postgresql.Pool.Host.{Host, IsHost}
use plex_postgresql.Pool.Acquire.{State, visit}
use plex_postgresql.Pool.Acquire.Sound.{slot_at-some}
use plex_postgresql.Pool.Release.{release_slot, release_slot_of, pool_release_for_db}
use plex_postgresql.Pool.Release.Laws.{settled-KeepsAll}

set-none : (slots : List Slot) (i : ℕ) (x : Slot) → get_elem? slots i ≡ none → set slots i x ≡ slots
set-none [] i x e = refl
set-none (s ∷ slots) zero x e = cc
set-none (s ∷ slots) (suc i) x e = ap (λ r. s ∷ r) (set-none slots i x e)

-- Written back as it was, a slot changes nothing.
set_same :
    (slots : List Slot) (i j : ℕ) → get_elem? (set slots i (slot_at slots i)) j ≡ get_elem? slots j
set_same slots i j = elim (Option-cases (get_elem? slots i)) [
  | inl outside ↦ ap (λ r. get_elem? r j) (set-none slots i (slot_at slots i) outside)
  | inr (s, here) ↦ elim (ℕ_discrete i j) [
    | no other ↦ get_elem?-set_ne slots i j _ other
    | yes same ↦
        subst (λ k. get_elem? (set slots i (slot_at slots i)) k ≡ get_elem? slots k) same
          (get_elem?-set_self slots i _ (lt_of_get_elem? slots i here)
            ∙ ap some (slot_at-some slots i here)
            ∙ sym here)
  ]
]

-- A ready slot of the thread that was `before` is given back, with its connection.
abbrev pub GivenBack : ℕ → Option Slot → Option Slot → Type 0
GivenBack thread before after =
    (s : Slot) × (before ≡ some s)
    × (is_ready s.state ≡ true)
    × (threads_equal s.owner_thread thread ≡ true)
    × (after ≡ some (release s))

module _ (h : Host) (law : IsHost h) (thread : ℕ) where
  -- What giving back the slot at `place` does to the others, to the connections and to the rest.
  abbrev Gives : Option ℕ → State h → State h → Type 0
  Gives place st after =
      ((j : ℕ)
        → (get_elem? after.pm.slots j ≡ get_elem? st.pm.slots j)
          ⊎ ((place ≡ some j)
              × GivenBack thread (get_elem? st.pm.slots j) (get_elem? after.pm.slots j)))
      × ((c : ℕ) → h.Live st.world c → h.Live after.world c)
      × (after.pm ≡ record (st.pm) { slots = after.pm.slots })

  visit-Gives : (i : ℕ) (st : State h) → Gives (some i) st (visit h (release_slot h thread) i st).0
  unfolding visit release_slot
  visit-Gives i st = elim (Option-cases (get_elem? st.pm.slots i)) [
    | inl outside ↦
        let off : (threads_equal new_slot.owner_thread thread && is_ready new_slot.state) ≡ false =
          unfold new_slot in ground arith in
        rw (outside, off)
          (λ j. inl (ap (λ r. get_elem? r j) (set-none st.pm.slots i _ outside)), λ c l. l, refl)
    | inr (s, here) ↦ elim (Bool-cases (threads_equal s.owner_thread thread && is_ready s.state)) [
      | inr other ↦
          rw (here, other)
            (
              λ j. inl (
                  subst (λ x. get_elem? (set st.pm.slots i x) j ≡ get_elem? st.pm.slots j)
                    (slot_at-some st.pm.slots i here) (set_same st.pm.slots i j)),
              λ c l. l,
              refl,
            )
      | inl mine ↦
          rw (here, mine)
            (
              λ j. elim (ℕ_discrete i j) [
                | no away ↦ inl (get_elem?-set_ne st.pm.slots i j _ away)
                | yes same ↦ inr (
                  ap some same,
                  subst
                      (λ k.
                        GivenBack thread (get_elem? st.pm.slots k)
                          (get_elem? (set st.pm.slots i (release s)) k))
                      same
                      (
                        s,
                        here,
                        ground (arith, mine),
                        ground (arith, mine),
                        get_elem?-set_self st.pm.slots i _ (lt_of_get_elem? st.pm.slots i here),
                      ),
                )
              ],
              λ c l. settled-KeepsAll h law st.world s.conn c l,
              refl,
            )
    ]
  ]

  release_slot_of-Gives :
      (place : Option ℕ) (st : State h) → Gives place st (release_slot_of h thread place st)
  release_slot_of-Gives none st = (λ j. inl refl, λ c l. l, refl)
  release_slot_of-Gives (some i) st = elim (Bool-cases (ltb i (pool_size st.pm))) [
    | inl inside ↦ rw inside (visit-Gives i st)
    | inr outside ↦ rw outside (λ j. inl refl, λ c l. l, refl)
  ]

  -- What closing a handle makes of `st`.
  abbrev pub Closes : ℕ → State h → State h → Type 0
  Closes db_handle st after =
      (find db_handle after.pm.db_to_pool ≡ none)
      × (after.tls ≡ TlsCache.empty)
      × ((k : ℕ) → (db_handle ≡ k) ⊎ (find k after.pm.db_to_pool ≡ find k st.pm.db_to_pool))
      × ((j : ℕ)
          → (get_elem? after.pm.slots j ≡ get_elem? st.pm.slots j)
            ⊎ ((find db_handle st.pm.db_to_pool ≡ some j)
                × GivenBack thread (get_elem? st.pm.slots j) (get_elem? after.pm.slots j)))
      × ((c : ℕ) → h.Live st.world c → h.Live after.world c)
      × (after.pm ≡ record (st.pm) { slots = after.pm.slots; db_to_pool = after.pm.db_to_pool })
      × ((i : ℕ) (s : Slot)
          → find db_handle st.pm.db_to_pool ≡ some i
          → i < pool_size st.pm
          → get_elem? st.pm.slots i ≡ some s
          → is_ready s.state ≡ true
          → threads_equal s.owner_thread thread ≡ true
          → get_elem? after.pm.slots i ≡ some (release s))

  -- Closing a handle leaves the thread's cache empty and the handle without a slot. It gives back one slot
  -- at most, and only the one that the handle had, where this is ready and the thread's, with its
  -- connection: every other slot and handle is as before, and so is all else that the pool keeps. A
  -- connection that lives goes on living. If the handle's slot is within the size of the pool, ready and the
  -- thread's, it is given back.
  pub pool_release_for_db-frees :
      (db_handle : ℕ) (st : State h)
      → Closes db_handle st (pool_release_for_db h thread db_handle st)
  unfolding pool_release_for_db unregister
  pool_release_for_db-frees db_handle st =
      let place = find db_handle st.pm.db_to_pool in
      let st' : State h = record st {
        pm = record (st.pm) { db_to_pool = remove db_handle st.pm.db_to_pool };
        world = h.forget_handle st.world db_handle;
      } in
      let (slots, lives, rest) = release_slot_of-Gives place st' in
      let handles : (release_slot_of h thread place st').pm.db_to_pool
          ≡ remove db_handle st.pm.db_to_pool =
        ap (λ (m : PoolManager). m.db_to_pool) rest in
      (
        rw handles (ground (arith, find-remove db_handle db_handle st.pm.db_to_pool)),
        refl,
        λ k. rw handles (ground (arith, find-remove db_handle k st.pm.db_to_pool)),
        slots,
        λ c l. lives c (law.keeps_handle st.world db_handle c l),
        rest
            ∙ ap
                (λ d. record (st.pm) {
                  slots = (release_slot_of h thread place st').pm.slots;
                  db_to_pool = d;
                })
                (sym handles),
        λ i s mapped inside here rdy own. own_slot i s mapped inside here rdy own,
      )
    where
      own_slot :
          (i : ℕ) (s : Slot)
          → find db_handle st.pm.db_to_pool ≡ some i
          → i < pool_size st.pm
          → get_elem? st.pm.slots i ≡ some s
          → is_ready s.state ≡ true
          → threads_equal s.owner_thread thread ≡ true
          → get_elem? (pool_release_for_db h thread db_handle st).pm.slots i ≡ some (release s)
      own_slot i s mapped inside here rdy own =
          unfold pool_release_for_db unregister visit release_slot pool_size in
          let within : ltb i (pool_size st.pm) ≡ true = ground arith in
          let at = slot_at-some st.pm.slots i here in
          rw (mapped, within, at, rdy, own)
            (get_elem?-set_self st.pm.slots i _ (lt_of_get_elem? st.pm.slots i here))
