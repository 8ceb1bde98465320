-- ===== src/Pool/Acquire/Sound.antt =====
-- The pool's invariant, and that visits of slots, and whole passes over them, keep it.
use plex_postgresql.Prelude.{
  ◌==◌, ℕ, zero, suc, ◌+◌, ◌≤◌, ◌<◌, ◌==◌, List, some, ◌≡◌, ◌≢◌, ◌⊎◌, inl, inr, sym, ap, ◌∙◌, subst,
  arith, Bool-cases, length, get_elem?, set, get_elem?-some, get_elem?-set_self, get_elem?-set_ne,
  length-set,
}
use plex_postgresql.Pool.Slot.{Slot}
use plex_postgresql.Pool.TlsCache.{TlsPoolCache}
use plex_postgresql.Pool.Manager.{slot_at}
use plex_postgresql.Pool.Host.{Host}
use plex_postgresql.Pool.Acquire.{
  AcquireDecision, proceed, give, State, Visit, Visitor, visit, for_slots,
}
use plex_postgresql.Pool.Acquire.Spec.{SlotOk, HoldsAt, Answer, Fine}

-- What a read finds after a write.
pub written :
    {A : Type 0} (xs : List A) (i j : ℕ) (x : A) {a : A}
    → i < length xs
    → get_elem? (set xs i x) j ≡ some a
    → ((i ≡ j) × (x ≡ a)) ⊎ ((i ≢ j) × (get_elem? xs j ≡ some a))
written xs i j x {a} within e = elim (Bool-cases (i == j)) [
  | inl same ↦
      let q : i ≡ j = ground arith in
      let hit = get_elem?-set_self xs i x within in
      let r = sym hit ∙ subst (λ k. get_elem? (set xs i x) k ≡ some a) (sym q) e in
      inl (q, ground (arith, r))
  | inr other ↦ let q : i ≢ j = ground arith in inr (q, sym (get_elem?-set_ne xs i j x q) ∙ e)
]

pub slot_at-some :
    (slots : List Slot) (i : ℕ) {s : Slot} → get_elem? slots i ≡ some s → slot_at slots i ≡ s
slot_at-some slots i e = rw e

module _ (h : Host) where
  -- Every slot is settled, and its connection lives and is no other slot's.
  pub record Good (slots : List Slot) (w : h.World) : Type 0 where
    pub ok : (i : ℕ) {s : Slot} → get_elem? slots i ≡ some s → SlotOk h w s
    pub apart :
        (i j : ℕ) {s t : Slot}
        → get_elem? slots i ≡ some s
        → get_elem? slots j ≡ some t
        → i ≢ j
        → s.conn ≢ 0
        → s.conn ≢ t.conn

  -- The slots are good, and there are as many as the bound and the maximum say.
  pub record Sound (bound : ℕ) (st : State h) : Type 0 where
    pub good : Good st.pm.slots st.world
    pub within : bound ≤ length st.pm.slots
    pub room : st.pm.configured_max_size ≤ length st.pm.slots

  -- A connection that is given is held by a slot, which is this thread's.
  abbrev pub Answered : ℕ → State h → AcquireDecision → Type 0
  Answered thread st proceed = Unit
  Answered thread st (give c) =
      (c ≡ 0)
      ⊎ ((i : ℕ) × (s : Slot) × (get_elem? st.pm.slots i ≡ some s) × HoldsAt h thread i s st.tls c)

  answered :
      (thread : ℕ) (st : State h) (d : AcquireDecision) (i : ℕ) (s : Slot)
      → get_elem? st.pm.slots i ≡ some s
      → Answer h thread i s st.tls d
      → Answered thread st d
  answered thread st proceed i s e a = tt
  answered thread st (give c) i s e a = elim (Bool-cases (c == 0)) [
    | inl null ↦ inl (ground arith)
    | inr real ↦ inr (i, s, e, a (ground arith))
  ]

  abbrev pub Passed : ℕ → ℕ → State h × AcquireDecision → Type 0
  Passed bound thread r = Sound bound r.0 × Answered thread r.0 r.1

  pub write-Good :
      (thread i : ℕ) (w : h.World) (slots : List Slot) {s : Slot} (x : Visit h)
      → Good slots w
      → get_elem? slots i ≡ some s
      → i < length slots
      → Fine h thread i w s x
      → Good (set slots i x.slot) x.world
  write-Good thread i w slots {s} x g here within f = record { ok = ok; apart = apart }
    where
      moved : (j : ℕ) {t : Slot} → i ≢ j → get_elem? slots j ≡ some t → SlotOk h x.world t
      moved j {t} ne e = record {
        settled = (g.ok j e).settled;
        held = λ n. f.keeps t.conn (g.apart j i e here (λ q. ne (sym q)) n) ((g.ok j e).held n);
        backed = (g.ok j e).backed;
      }

      ok : (j : ℕ) {t : Slot} → get_elem? (set slots i x.slot) j ≡ some t → SlotOk h x.world t
      ok j e = elim (written slots i j x.slot within e) [
        | inl (_, q) ↦ subst (SlotOk h x.world) q f.ok
        | inr (ne, e') ↦ moved j ne e'
      ]

      other :
          (j : ℕ) {t : Slot}
          → i ≢ j
          → get_elem? slots j ≡ some t
          → t.conn ≢ 0
          → t.conn ≢ x.slot.conn
      other j {t} ne e n =
          f.apart t.conn n (g.apart j i e here (λ q. ne (sym q)) n) ((g.ok j e).held n)

      apart :
          (j k : ℕ) {t u : Slot}
          → get_elem? (set slots i x.slot) j ≡ some t
          → get_elem? (set slots i x.slot) k ≡ some u
          → j ≢ k
          → t.conn ≢ 0
          → t.conn ≢ u.conn
      apart j k {t} {u} ej ek ne n = elim (written slots i j x.slot within ej) [
        | inl (i_j, x_t) ↦ elim (written slots i k x.slot within ek) [
          | inl (i_k, _) ↦ absurd (ne (sym i_j ∙ i_k))
          | inr (i_k, e) ↦ λ q. other k i_k e (λ z. n (q ∙ z)) (sym q ∙ sym (ap (λ y. y.conn) x_t))
        ]
        | inr (i_j, e) ↦ elim (written slots i k x.slot within ek) [
          | inl (_, x_u) ↦ λ q. other j i_j e n (q ∙ sym (ap (λ y. y.conn) x_u))
          | inr (_, e') ↦ g.apart j k e e' ne n
        ]
      ]

  module _ (bound thread : ℕ) (body : Visitor h)
      (fine : (i : ℕ) (s : Slot) (tls : TlsPoolCache) (w : h.World)
        → SlotOk h w s
        → Fine h thread i w s (body i s tls w)) where
    pub visit-Passed :
        (i : ℕ) (st : State h)
        → i < length st.pm.slots
        → Sound bound st
        → Passed bound thread (visit h body i st)
    unfolding visit
    visit-Passed i st inside v =
        let (s, here) = get_elem?-some st.pm.slots i inside in
        let f =
          subst (λ t. Fine h thread i st.world t (body i t st.tls st.world))
            (sym (slot_at-some st.pm.slots i here)) (fine i s st.tls st.world (v.good.ok i here)) in
        let here' : get_elem? st.pm.slots i ≡ some (slot_at st.pm.slots i) =
          here ∙ ap some (sym (slot_at-some st.pm.slots i here)) in
        let sized =
          length-set st.pm.slots i (body i (slot_at st.pm.slots i) st.tls st.world).slot in
        (
          record {
            good = write-Good thread i st.world st.pm.slots _ v.good here' inside f;
            within = subst (λ n. bound ≤ n) (sym sized) v.within;
            room = subst (λ n. st.pm.configured_max_size ≤ n) (sym sized) v.room;
          },
          answered thread (visit h body i st).0 _ i _ (get_elem?-set_self st.pm.slots i _ inside)
              f.answer,
        )

    step-Passed :
        (r : State h × AcquireDecision) (rest : State h × AcquireDecision)
        → Passed bound thread r
        → (Sound bound r.0 → Passed bound thread rest)
        → Passed bound thread (elim r.1 [ proceed ↦ rest | give c ↦ (r.0, give c) ])
    step-Passed (st, proceed) rest a later = later a.0
    step-Passed (st, give c) rest a later = a

    -- A pass over slots below the bound.
    pub for_slots-Passed :
        (rounds i : ℕ) (st : State h)
        → rounds + i ≤ bound
        → Sound bound st
        → Passed bound thread (for_slots h body rounds i st)
    unfolding for_slots
    for_slots-Passed zero i st le v = (v, tt)
    for_slots-Passed (suc rounds) i st le v =
        step-Passed (visit h body i st) _ (visit-Passed i st (omega (arith, v.within)) v)
          (λ v'. for_slots-Passed rounds (i + 1) _ (omega arith) v')
