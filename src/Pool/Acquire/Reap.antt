-- ===== src/Pool/Acquire/Reap.antt =====
-- The maintenance pass: what is destroyed is in no slot any more.
use plex_postgresql.Prelude.{
  ℕ, zero, suc, ◌+◌, ◌≤◌, ◌<◌, Bool, true, false, not, ◌||◌, ◌==◌, ltb, List, [], ◌∷◌, Option, none,
  some, ◌≡◌, ◌≢◌, inl, inr, refl, sym, ap, ◌∙◌, subst, arith, Bool-cases, length, get_elem?, set,
  get_elem?-some, length-set, All, All-mono, All-append, min,
}
use plex_postgresql.Pool.Slot.{
  Slot, SlotState, free, reserved, ready, reconnecting, error, is_free, try_claim_free,
  next_generation,
}
use plex_postgresql.Pool.TlsCache.{TlsPoolCache}
use plex_postgresql.Pool.TlsCache
use plex_postgresql.Pool.Registry.{Handles, references}
use plex_postgresql.Pool.Manager.{
  slot_at, reap_slot, reap_from, reap_idle, pool_size, pool_max, push,
}
use plex_postgresql.Pool.Host.{Host, IsHost}
use plex_postgresql.Pool.Acquire.{AcquireCtx, State}
use plex_postgresql.Pool.Acquire.Phases.{next}
use plex_postgresql.Pool.Acquire.Maintain.{destroy_all, reap}
use plex_postgresql.Pool.Acquire.Spec.{kept-Fine, dropped-Fine}
use plex_postgresql.Pool.Acquire.Sound.{Good, Sound, write-Good, slot_at-some, written}

-- A slot that is reaped was free, idle for the timeout and referenced by no handle, and gives up its
-- connection. Any other slot stays as it is.
pub data Reaped (now timeout : ℕ) (referenced : Bool) (s : Slot) : Slot × Option ℕ → Type 0 where
  spared : Reaped now timeout referenced s (s, none)
  reaped :
      s.state ≡ free
      → s.conn ≢ 0
      → timeout + s.last_used ≤ now
      → referenced ≡ false
      → Reaped now timeout referenced s (
        record {
          conn = 0;
          owner_thread = 0;
          last_used = s.last_used;
          state = free;
          generation = next_generation s.generation;
        },
        some s.conn,
      )

free_of : (st : SlotState) → is_free st ≡ true → st ≡ free
free_of free e = refl
free_of reserved e = cc
free_of ready e = cc
free_of reconnecting e = cc
free_of error e = cc

pub reap_slot-Reaped :
    (now timeout : ℕ) (referenced : Bool) (s : Slot)
    → Reaped now timeout referenced s (reap_slot now timeout referenced s)
unfolding reap_slot try_claim_free
reap_slot-Reaped now timeout referenced s =
    elim (Bool-cases
      (not (is_free s.state) || s.conn == 0 || ltb now (timeout + s.last_used) || referenced)) [
        | inl spare ↦ rw spare spared
        | inr take ↦
            let idle : is_free s.state ≡ true = ground arith in
            let real : (s.conn == 0) ≡ false = ground arith in
            rw (take, idle, real)
              (reaped (free_of s.state idle) (ground arith) (ground arith) (ground arith))
      ]

-- No slot holds the connection.
abbrev Away : List Slot → ℕ → Type 0
Away slots c = (j : ℕ) (t : Slot) → get_elem? slots j ≡ some t → t.conn ≢ 0 → t.conn ≢ c

write-Away :
    (slots : List Slot) (i c : ℕ) (x : Slot)
    → i < length slots
    → (x.conn ≢ 0 → x.conn ≢ c)
    → ((j : ℕ) (t : Slot) → i ≢ j → get_elem? slots j ≡ some t → t.conn ≢ 0 → t.conn ≢ c)
    → Away (set slots i x) c
write-Away slots i c x inside here elsewhere j t e n = elim (written slots i j x inside e) [
  | inl (_, q) ↦ subst (λ y. y.conn ≢ 0 → y.conn ≢ c) q here n
  | inr (ne, e') ↦ elsewhere j t ne e' n
]

module _ (h : Host) (v : IsHost h) (w : h.World) where
  -- The slots are good and hold nothing of what was taken.
  abbrev Parted : List Slot → List ℕ → Type 0
  Parted slots taken = Good h slots w × All (Away slots) taken

  slot-Parted :
      (now timeout : ℕ) (referenced : Bool) (i : ℕ) (slots : List Slot) (taken : List ℕ) (s : Slot)
      (r : Slot × Option ℕ)
      → get_elem? slots i ≡ some s
      → i < length slots
      → Parted slots taken
      → Reaped now timeout referenced s r
      → Parted (set slots i r.0) (push r.1 taken)
  slot-Parted now timeout referenced i slots taken s r here inside (g, away) spared = (
    write-Good h 0 i w slots (next h s TlsCache.empty w) g here inside (
        kept-Fine h 0 i w s (g.ok i here) _ refl (g.ok i here).settled (g.ok i here).backed
          (λ d l. l) tt),
    All-mono (Away slots) (Away (set slots i r.0)) taken
        (λ c a. write-Away slots i c s inside (a i s here) (λ j t ne. a j t)) away,
  )
  slot-Parted now timeout referenced i slots taken s r here inside (g, away)
        (reaped idle real late unreferenced) =
      (
        write-Good h 0 i w slots (next h r.0 TlsCache.empty w) g here inside
            (dropped-Fine h 0 i w s (g.ok i here) _ refl refl refl (λ d ne l. l)),
        All-append (Away (set slots i r.0)) taken (s.conn ∷ [])
            (All-mono (Away slots) (Away (set slots i r.0)) taken
              (λ c a. write-Away slots i c r.0 inside (λ n. absurd (n refl)) (λ j t ne. a j t))
              away)
            (
              write-Away slots i s.conn r.0 inside (λ n. absurd (n refl))
                  (λ j t ne e n. g.apart j i e here (λ q. ne (sym q)) n),
              tt,
            ),
      )

  reap_from-Parted :
      (now timeout : ℕ) (handles : Handles) (rounds i : ℕ) (slots : List Slot) (taken : List ℕ)
      → rounds + i ≤ length slots
      → Parted slots taken
      → let r = reap_from now timeout handles rounds i slots taken in
        Parted r.0 r.1 × (length r.0 ≡ length slots)
  unfolding reap_from
  reap_from-Parted now timeout handles zero i slots taken le p = (p, refl)
  reap_from-Parted now timeout handles (suc rounds) i slots taken le p =
      let (s, here) = get_elem?-some slots i (omega arith) in
      let here' : get_elem? slots i ≡ some (slot_at slots i) =
        here ∙ ap some (sym (slot_at-some slots i here)) in
      let x = reap_slot now timeout (ltb 0 (references handles i)) (slot_at slots i) in
      let sized = length-set slots i x.0 in
      let (q, e) =
        reap_from-Parted now timeout handles rounds (i + 1) (set slots i x.0) (push x.1 taken)
          (omega (arith, sized))
          (slot-Parted now timeout _ i slots taken (slot_at slots i) x here' (omega arith) p
            (reap_slot-Reaped now timeout _ (slot_at slots i))) in
      (q, e ∙ sized)

module _ (h : Host) (v : IsHost h) where
  destroy_all-Live :
      (cs : List ℕ) (w : h.World) (d : ℕ)
      → All (λ c. d ≢ c) cs
      → h.Live w d
      → h.Live (destroy_all h w cs) d
  destroy_all-Live [] w d ne l = l
  destroy_all-Live (c ∷ cs) w d (ne, others) l =
      destroy_all-Live cs (h.destroy_pool_connection w c) d others (v.keeps_destroy w c d ne l)

  destroyed-Good :
      (w : h.World) (slots : List Slot) (taken : List ℕ)
      → Parted h v w slots taken
      → Good h slots (destroy_all h w taken)
  destroyed-Good w slots taken (g, away) = record {
    ok = λ i {s} e. record {
      settled = (g.ok i e).settled;
      held = λ n.
          destroy_all-Live taken w s.conn
            (All-mono (Away slots) (λ c. s.conn ≢ c) taken (λ c a. a i s e n) away)
            ((g.ok i e).held n);
      backed = (g.ok i e).backed;
    };
    apart = g.apart;
  }

  -- The reaper destroys no connection that a slot still holds.
  pub reap-Sound :
      (ctx : AcquireCtx) (bound : ℕ) (st : State h)
      → Sound h bound st
      → Sound h bound (reap h ctx st)
  unfolding reap reap_idle pool_size pool_max
  reap-Sound ctx bound st s =
      let (p, sized) =
        reap_from-Parted h v st.world ctx.now st.pm.idle_timeout_secs st.pm.db_to_pool
          (min st.pm.configured_size st.pm.configured_max_size) 0 st.pm.slots []
          (omega (arith, s.room)) (s.good, tt) in
      record {
        good = destroyed-Good st.world _ _ p;
        within = omega (arith, sized, s.within);
        room = omega (arith, sized, s.room);
      }
