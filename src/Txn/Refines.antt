-- ===== src/Txn/Refines.antt =====
-- `plan` against PostgreSQL: what it sends leaves the server in the transaction that
-- the frames after it stand for, and what a refusal leaves.
use plex_postgresql.Prelude.{
  true, false, List, [], ◌∷◌, some, ◌≡◌, refl, inl, inr, Option-cases, ap, ◌∙◌, length, ◌⊎◌, any,
  arith,
}
use plex_postgresql.Prelude.Bytes.{Bytes, beq_self}
use plex_postgresql.Txn.Plan.{
  TxnCmd, Frame, outer, nested_begin, Statement, nested_name, up_to_savepoint, plan_frames,
  plan_rollback, after_release,
}
use plex_postgresql.Txn.Commands.{
  IsUserCmd, IsWritten, nested_name-IsNestedName, nested_name-identifier,
}
use plex_postgresql.Txn.Server.{
  Status, idle, lost, active, aborted, fold, newest, Backend, IsSession, IsOver, is_identifier,
  may_refuse, exec_all, exec_all_step, exec_all_stop, exec_all_nil, exec-cases,
}
use plex_postgresql.Txn.Stack.{
  IsUserName, IsOpenStack, IsStack, savepoints, view, up_to_savepoint-Found,
}

-- After a refusal the server has no transaction, or has aborted it, in the savepoints of these frames.
abbrev pub Left : List Frame → Status → Type 0
Left frames st = IsOver st ⊎ (st ≡ aborted (savepoints frames))

module _ (p : Backend) (l : IsSession p) where
  -- The statements succeed from `s`, and end in `status`.
  abbrev pub EndsIn : p.State → List Statement → Status → Type 0
  EndsIn s sql st = (t : p.State) × (exec_all p s sql ≡ (t, true)) × (p.status t ≡ st)

  nil-EndsIn : (s : p.State) (st : Status) → p.status s ≡ st → EndsIn s [] st
  nil-EndsIn s st e = (s, exec_all_nil p s, e)

  cons-EndsIn :
      (s t : p.State) (c : Statement) (cs : List Statement) (st : Status)
      → p.exec s c ≡ (t, true)
      → EndsIn t cs st
      → EndsIn s (c ∷ cs) st
  cons-EndsIn s t c cs st e (u, run, end) = (u, exec_all_step p s t c cs e ∙ run, end)

  one-EndsIn :
      (s : p.State) (c : Statement) (st : Status)
      → (t : p.State) × (p.exec s c ≡ (t, true)) × (p.status t ≡ st)
      → EndsIn s (c ∷ []) st
  one-EndsIn s c st (t, e, end) = cons-EndsIn s t c [] st e (nil-EndsIn t st end)

  newest_self : (n : Bytes) (ns : List Bytes) → newest n (n ∷ ns) ≡ some (n ∷ ns)
  unfolding newest
  newest_self n ns = rw (beq_self n)

  newest_folded :
      (n : Bytes) (ns : List Bytes) → fold n ≡ n → newest (fold n) (n ∷ ns) ≡ some (n ∷ ns)
  newest_folded n ns e = rw e (newest_self n ns)

  -- A statement of these is refused, and only BEGIN, COMMIT and SAVEPOINT may be.
  abbrev pub Refused : p.State → List Statement → List Frame → Type 0
  Refused s sql frames =
      (t : p.State) × (exec_all p s sql ≡ (t, false))
      × (any may_refuse sql ≡ true)
      × Left frames (p.status t)

  abbrev pub Runs : p.State → List Statement → List Frame → Status → Type 0
  Runs s sql frames st = EndsIn s sql st ⊎ Refused s sql frames

  cons-Runs :
      (s t : p.State) (c : Statement) (cs : List Statement) (frames : List Frame) (st : Status)
      → p.exec s c ≡ (t, true)
      → Runs t cs frames st
      → Runs s (c ∷ cs) frames st
  cons-Runs s t c cs frames st e (inl ends) = inl (cons-EndsIn s t c cs st e ends)
  cons-Runs s t c cs frames st e (inr (u, run, may, left)) =
      inr (u, exec_all_step p s t c cs e ∙ run, ground (arith, may), left)

  -- One that may be refused, and what follows where it is not.
  ask-Runs :
      (s : p.State) (c : Statement) (cs : List Statement) (frames : List Frame) (st : Status)
      → may_refuse c ≡ true
      → ((t : p.State) → p.exec s c ≡ (t, true) → Runs t cs frames st)
      → ((t : p.State) → p.exec s c ≡ (t, false) → Left frames (p.status t))
      → Runs s (c ∷ cs) frames st
  ask-Runs s c cs frames st may on off = elim (exec-cases p s c) [
    | inl (t, e) ↦ cons-Runs s t c cs frames st e (on t e)
    | inr (t, e) ↦ inr (t, exec_all_stop p s t c cs e, ground (arith, may), off t e)
  ]

  save-Left :
      (frames : List Frame) (st : Status)
      → (st ≡ aborted (savepoints frames)) ⊎ (st ≡ lost)
      → Left frames st
  save-Left frames st (inl back) = inr back
  save-Left frames st (inr gone) = inl (inr gone)

  save-Runs :
      (s : p.State) (name : Bytes) (frames : List Frame)
      → is_identifier name ≡ true
      → fold name ≡ name
      → p.status s ≡ active (savepoints frames)
      → Runs s (Statement.savepoint name ∷ []) frames (active (name ∷ savepoints frames))
  save-Runs s name frames w folded a =
      ask-Runs s _ [] frames _ refl
        (λ t e. inl (
          nil-EndsIn t _
            (l.saves s t name _ w a e ∙ ap (λ n. active (n ∷ savepoints frames)) folded)))
        (λ t e. save-Left frames (p.status t) (l.save_refused s t name _ a e))

  commit-Runs :
      (s : p.State) (ns : List Bytes) (frames : List Frame)
      → p.status s ≡ active ns
      → Runs s (Statement.commit ∷ []) frames idle
  commit-Runs s ns frames a =
      ask-Runs s _ [] frames _ refl (λ t e. inl (nil-EndsIn t _ (l.commits s t ns a e)))
        (λ t e. inl (l.commit_refused s t ns a e))

  release-Runs :
      (s : p.State) (name : Bytes) (ns : List Bytes) (frames below : List Frame)
      → IsOpenStack below
      → p.status s ≡ active ns
      → newest (fold name) ns ≡ some (name ∷ savepoints below)
      → Runs s (after_release name below).0 frames (view (after_release name below).1)
  release-Runs s name ns frames [] o a e = elim o [ ]
  release-Runs s name ns frames (outer true ∷ []) o a e =
      inl (one-EndsIn s _ _ (l.releases s name name ns [] a e))
  release-Runs s name ns frames (outer false ∷ []) o a e =
      let (t, ok, end) = l.releases s name name ns [] a e in
      cons-Runs s t _ _ frames _ ok (commit-Runs t [] frames end)
  release-Runs s name ns frames (outer e' ∷ g ∷ fs) o a e = absurd o
  release-Runs s name ns frames (Frame.savepoint n ∷ fs) o a e =
      inl (one-EndsIn s _ _ (l.releases s name name ns _ a e))
  release-Runs s name ns frames (nested_begin n ∷ fs) o a e =
      inl (one-EndsIn s _ _ (l.releases s name name ns _ a e))

  view-active : (fs : List Frame) → IsOpenStack fs → view fs ≡ active (savepoints fs)
  view-active [] s = elim s [ ]
  view-active (f ∷ fs) s = refl

  active_of_found :
      (frames : List Frame) (n : Bytes) (ns : List Bytes)
      → newest n (savepoints frames) ≡ some ns
      → view frames ≡ active (savepoints frames)
  unfolding newest
  active_of_found [] n ns e = cc
  active_of_found (f ∷ fs) n ns e = refl

  -- On a server that stands where the frames say, the statements of a command are all accepted, and
  -- the server then stands where the frames after the command say; or a BEGIN, COMMIT or SAVEPOINT of
  -- them is refused, and the server has no transaction, or has aborted it in the savepoints of the frames
  -- before the command. This for a well-formed stack, and a command whose savepoint, if it names one, is
  -- in small letters, holds no NUL and is none of the shim's own; a SAVEPOINT's name is a word, and a
  -- BEGIN is less than 10^9 levels deep.
  pub plan_frames-EndsIn :
      (s : p.State) (frames : List Frame) (cmd : TxnCmd)
      → IsStack frames
      → IsUserCmd cmd
      → IsWritten frames cmd
      → p.status s ≡ view frames
      → Runs s (plan_frames frames cmd).0 frames (view (plan_frames frames cmd).1)
  unfolding plan_frames
  plan_frames-EndsIn s [] TxnCmd.begin o u w a =
      ask-Runs s _ [] [] _ refl (λ t e. inl (nil-EndsIn t _ (l.begins s t a e)))
        (λ t e. inl (l.begin_refused s t a e))
  plan_frames-EndsIn s (f ∷ fs) TxnCmd.begin o u w a =
      save-Runs s (nested_name (length (f ∷ fs))) (f ∷ fs)
        (nested_name-identifier (length (f ∷ fs)) w) (nested_name-IsNestedName _).folded a
  plan_frames-EndsIn s [] TxnCmd.commit o u w a = inl (nil-EndsIn s _ a)
  plan_frames-EndsIn s (outer e ∷ fs) TxnCmd.commit o u w a = commit-Runs s _ (outer e ∷ fs) a
  plan_frames-EndsIn s (Frame.savepoint n ∷ fs) TxnCmd.commit o u w a =
      commit-Runs s _ (Frame.savepoint n ∷ fs) a
  plan_frames-EndsIn s (nested_begin n ∷ fs) TxnCmd.commit o u w a =
      rw (view-active fs o.1) (
        inl
          (one-EndsIn s _ _ (l.releases s n n _ (savepoints fs) a (newest_folded n _ o.0.folded))))
  plan_frames-EndsIn s [] TxnCmd.rollback o u w a = inl (nil-EndsIn s _ a)
  plan_frames-EndsIn s (outer e ∷ fs) TxnCmd.rollback o u w a =
      inl (one-EndsIn s _ _ (l.rolls_back s _ a))
  plan_frames-EndsIn s (Frame.savepoint n ∷ fs) TxnCmd.rollback o u w a =
      inl (one-EndsIn s _ _ (l.rolls_back s _ a))
  plan_frames-EndsIn s (nested_begin n ∷ fs) TxnCmd.rollback o u w a =
      let (t, ok, end) = l.returns s n n _ (savepoints fs) a (newest_folded n _ o.0.folded) in
      rw (view-active fs o.1) (
        inl (
          cons-EndsIn s t _ _ _ ok (
            one-EndsIn t _ _
              (l.releases t n n _ (savepoints fs) end (newest_folded n _ o.0.folded)))))
  plan_frames-EndsIn s [] (TxnCmd.savepoint name) o u w a =
      ask-Runs s _ _ [] _ refl (λ t e. save-Runs t name [] w u.folded (l.begins s t a e))
        (λ t e. inl (l.begin_refused s t a e))
  plan_frames-EndsIn s (f ∷ fs) (TxnCmd.savepoint name) o u w a =
      save-Runs s name (f ∷ fs) w u.folded a
  plan_frames-EndsIn s frames (TxnCmd.release name) o u w a =
      elim (Option-cases (up_to_savepoint name frames)) [
        | inl none_found ↦ rw none_found (inl (nil-EndsIn s _ a))
        | inr (found, e) ↦
            let f = up_to_savepoint-Found name frames found u o e in
            rw (e, f.head)
              (release-Runs s name _ frames f.below f.stack
                (a ∙ active_of_found frames name _ f.same) (rw u.folded f.same))
      ]
  plan_frames-EndsIn s frames (TxnCmd.rollback_to name) o u w a =
      elim (Option-cases (up_to_savepoint name frames)) [
        | inl none_found ↦ rw none_found (inl (nil-EndsIn s _ a))
        | inr (found, e) ↦
            let f = up_to_savepoint-Found name frames found u o e in
            rw (e, f.head)
              (inl (
                one-EndsIn s _ _ (
                  l.returns s name name _ _ (a ∙ active_of_found frames name _ f.same)
                    (rw u.folded f.same))))
      ]

  rollback-mends :
      (s : p.State) (f : Frame) (fs : List Frame)
      → IsStack (f ∷ fs)
      → p.status s ≡ aborted (savepoints (f ∷ fs))
      → EndsIn s (plan_rollback (f ∷ fs)).0 (view (plan_rollback (f ∷ fs)).1)
  rollback-mends s (outer e) fs o a = one-EndsIn s _ _ (l.rolls_back_failed s _ a)
  rollback-mends s (Frame.savepoint n) fs o a = one-EndsIn s _ _ (l.rolls_back_failed s _ a)
  rollback-mends s (nested_begin n) fs o a =
      let (t, ok, end) =
        l.returns_failed s n n _ (savepoints fs) a (newest_folded n _ o.0.folded) in
      rw (view-active fs o.1) (
        cons-EndsIn s t _ _ _ ok (
          one-EndsIn t _ _ (l.releases t n n _ (savepoints fs) end (newest_folded n _ o.0.folded))))

  -- On a server whose transaction an error has aborted, in the savepoints of a well-formed stack,
  -- ROLLBACK is accepted, and so is ROLLBACK TO a savepoint that is on the stack, with a name as above.
  -- The server then stands where the frames after the command say.
  pub plan_frames-mends :
      (s : p.State) (f : Frame) (fs : List Frame) (cmd : TxnCmd)
      → IsStack (f ∷ fs)
      → p.status s ≡ aborted (savepoints (f ∷ fs))
      → (cmd ≡ TxnCmd.rollback)
        ⊎ ((name : Bytes) × (found : List Frame) × (cmd ≡ TxnCmd.rollback_to name)
            × IsUserName name
            × (up_to_savepoint name (f ∷ fs) ≡ some found))
      → EndsIn s (plan_frames (f ∷ fs) cmd).0 (view (plan_frames (f ∷ fs) cmd).1)
  unfolding plan_frames
  plan_frames-mends s f fs cmd o a (inl back) = rw back (rollback-mends s f fs o a)
  plan_frames-mends s f fs cmd o a (inr (name, found, to, u, e)) =
      let w = up_to_savepoint-Found name (f ∷ fs) found u o e in
      rw (to, e, w.head)
        (one-EndsIn s _ _ (l.returns_failed s name name _ _ a (rw u.folded w.same)))
