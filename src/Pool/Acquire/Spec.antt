-- ===== src/Pool/Acquire/Spec.antt =====
-- What a visit of a slot owes to the pool: the slot stays settled, no connection is shared, and a
-- connection that is given is held by the slot.
use plex_postgresql.Prelude.{ℕ, true, ◌≡◌, ◌≢◌, sym, ap, ◌∙◌, subst}
use plex_postgresql.Pool.Slot.{Slot, SlotState, free, reserved, ready, reconnecting, is_ready}
use plex_postgresql.Pool.TlsCache.{TlsPoolCache}
use plex_postgresql.Pool.TlsCache
use plex_postgresql.Pool.Host.{Host}
use plex_postgresql.Pool.Acquire.{AcquireDecision, proceed, give, Visit}

-- A slot that nobody is working on.
abbrev pub Settled : SlotState → Type 0
Settled reserved = ⊥
Settled reconnecting = ⊥
Settled _ = Unit

module _ (h : Host) where
  pub record SlotOk (w : h.World) (s : Slot) : Type 0 where
    pub settled : Settled s.state
    pub held : s.conn ≢ 0 → h.Live w s.conn
    pub backed : is_ready s.state ≡ true → s.conn ≢ 0

  -- The slot is ready, this thread's, with the connection, and the thread's cache names it.
  abbrev pub HoldsAt : ℕ → ℕ → Slot → TlsPoolCache → ℕ → Type 0
  HoldsAt thread i s tls c =
      (s.state ≡ ready)
      × (s.conn ≡ c)
      × (s.owner_thread ≡ thread)
      × (tls ≡ TlsCache.set 0 i s.generation)

  abbrev pub Answer : ℕ → ℕ → Slot → TlsPoolCache → AcquireDecision → Type 0
  Answer thread i s tls proceed = Unit
  Answer thread i s tls (give c) = c ≢ 0 → HoldsAt thread i s tls c

  -- All connections live on, but perhaps one.
  abbrev pub Keeps : h.World → h.World → ℕ → Type 0
  Keeps w w' c = (d : ℕ) → d ≢ c → h.Live w d → h.Live w' d

  abbrev pub KeepsAll : h.World → h.World → Type 0
  KeepsAll w w' = (d : ℕ) → h.Live w d → h.Live w' d

  -- A visit of slot `i`, which was `s`, in the world `w`.
  pub record Fine (thread i : ℕ) (w : h.World) (s : Slot) (v : Visit h) : Type 0 where
    pub ok : SlotOk v.world v.slot
    pub keeps : Keeps w v.world s.conn
    pub apart : (d : ℕ) → d ≢ 0 → d ≢ s.conn → h.Live w d → d ≢ v.slot.conn
    pub answer : Answer thread i v.slot v.tls v.decision

  module _ (thread i : ℕ) (w : h.World) (s : Slot) (o : SlotOk w s) (v : Visit h) where
    -- The slot keeps its connection.
    pub kept-Fine :
        v.slot.conn ≡ s.conn
        → Settled v.slot.state
        → (is_ready v.slot.state ≡ true → v.slot.conn ≢ 0)
        → KeepsAll w v.world
        → Answer thread i v.slot v.tls v.decision
        → Fine thread i w s v
    kept-Fine same settled backed keeps answer = record {
      ok = record {
        settled = settled;
        held = λ n. subst (h.Live v.world) (sym same) (keeps s.conn (o.held (λ z. n (same ∙ z))));
        backed = backed;
      };
      keeps = λ d ne live. keeps d live;
      apart = λ d n ne live e. ne (e ∙ same);
      answer = answer;
    }

    -- The slot is left without one.
    pub dropped-Fine :
        v.slot.conn ≡ 0
        → v.slot.state ≡ free
        → v.decision ≡ proceed
        → Keeps w v.world s.conn
        → Fine thread i w s v
    dropped-Fine none_held became went_on keeps = record {
      ok = record {
        settled = subst Settled (sym became) tt;
        held = λ n. absurd (n none_held);
        backed = λ r. absurd (let q = ap is_ready (sym became) ∙ r in cc);
      };
      keeps = keeps;
      apart = λ d n ne live e. n (e ∙ none_held);
      answer = subst (Answer thread i v.slot v.tls) (sym went_on) tt;
    }

    -- The slot gets a connection that is new in a world between.
    pub filled-Fine :
        (between : h.World)
        → v.slot.state ≡ ready
        → v.slot.conn ≢ 0
        → Keeps w between s.conn
        → ¬ h.Live between v.slot.conn
        → KeepsAll between v.world
        → h.Live v.world v.slot.conn
        → Answer thread i v.slot v.tls v.decision
        → Fine thread i w s v
    filled-Fine between became nonzero before fresh after live answer = record {
      ok = record {
        settled = subst Settled (sym became) tt;
        held = λ n. live;
        backed = λ r. nonzero;
      };
      keeps = λ d ne l. after d (before d ne l);
      apart = λ d n ne l e. fresh (subst (h.Live between) e (before d ne l));
      answer = answer;
    }
