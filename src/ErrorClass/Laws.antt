-- ===== src/ErrorClass/Laws.antt =====
-- What is tried again and what is prepared again, described by SQLSTATE and message.
use plex_postgresql.Prelude.{
  true, false, ◌&&◌, [], ◌∷◌, ◌++◌, ◌≡◌, ◌↔◌, refl, sym, subst, ap, ◌∙◌, inl, inr, Bool-cases,
  arith,
}
use plex_postgresql.Prelude.Bytes.{
  Bytes, codes, beq, beq_iff, starts_with, starts_with-append, contains,
}
use plex_postgresql.ErrorClass.{
  retry, stale_plan, changed_result, is_stale_plan, is_transient, classify, is_stale_sqlstate,
  is_duplicate_sqlstate,
}

-- The connection is gone, the server is going away, or another transaction got in the way.
pub data IsTransient : Bytes → Type 0 where
  connection_exception : (rest : Bytes) → IsTransient (codes "08" ++ rest)
  admin_shutdown : IsTransient (codes "57P01")
  crash_shutdown : IsTransient (codes "57P02")
  cannot_connect_now : IsTransient (codes "57P03")
  serialization_failure : IsTransient (codes "40001")
  deadlock_detected : IsTransient (codes "40P01")

-- The server has lost the prepared statement, or can no longer run it as planned.
pub data IsStale : Bytes → Bytes → Type 0 where
  statement_gone : (message : Bytes) → IsStale (codes "26000") message
  result_changed :
      (before after : Bytes) → IsStale (codes "0A000") (before ++ (changed_result ++ after))

starts_with-rest : (pat s : Bytes) → starts_with pat s ≡ true → (rest : Bytes) × (s ≡ pat ++ rest)
unfolding starts_with
starts_with-rest [] s h = (s, refl)
starts_with-rest (p ∷ pat) [] h = cc
starts_with-rest (p ∷ pat) (c ∷ s) h =
    let (rest, same) = starts_with-rest pat s (ground (arith, h)) in
    let first : c ≡ p = ground (arith, h) in
    (rest, ap (λ r. c ∷ r) same ∙ ap (λ x. x ∷ (pat ++ rest)) first)

contains-split :
    (pat s : Bytes)
    → contains pat s ≡ true
    → (before : Bytes) × (after : Bytes) × (s ≡ before ++ (pat ++ after))
unfolding contains
contains-split pat [] h = let (rest, same) = starts_with-rest pat [] h in ([], rest, same)
contains-split pat (c ∷ s) h = elim (Bool-cases (starts_with pat (c ∷ s))) [
  | inl here ↦ let (rest, same) = starts_with-rest pat (c ∷ s) here in ([], rest, same)
  | inr later ↦
      let (before, after, same) = contains-split pat s (rw later at h) in
      (c ∷ before, after, ap (λ r. c ∷ r) same)
]

contains-middle : (pat before after : Bytes) → contains pat (before ++ (pat ++ after)) ≡ true
unfolding contains
contains-middle [] [] [] = unfold starts_with in refl
contains-middle [] [] (c ∷ after) = unfold starts_with in refl
contains-middle (p ∷ pat) [] after = rw (starts_with-append (p ∷ pat) after) refl
contains-middle pat (c ∷ before) after =
    let ih = contains-middle pat before after in ground (arith, ih)

IsStale-of_test :
    (sqlstate message : Bytes) → is_stale_plan sqlstate message ≡ true → IsStale sqlstate message
unfolding is_stale_plan
IsStale-of_test sqlstate message h = elim (Bool-cases (beq sqlstate (codes "26000"))) [
  | inl gone ↦
      subst (λ s. IsStale s message) (sym ((beq_iff sqlstate (codes "26000")).0 gone))
        (statement_gone message)
  | inr other ↦
      let (before, after, same) =
        contains-split changed_result message (ground (arith, h, other)) in
      let state : beq sqlstate (codes "0A000") ≡ true = ground (arith, h, other) in
      subst (λ s. IsStale s message) (sym ((beq_iff sqlstate (codes "0A000")).0 state))
        (subst (IsStale (codes "0A000")) (sym same) (result_changed before after))
]

test-of_IsStale :
    (sqlstate message : Bytes) → IsStale sqlstate message → is_stale_plan sqlstate message ≡ true
unfolding is_stale_plan beq
test-of_IsStale _ _ (statement_gone message) = refl
test-of_IsStale _ _ (result_changed before after) = contains-middle changed_result before after

IsTransient-of_test : (sqlstate : Bytes) → is_transient sqlstate ≡ true → IsTransient sqlstate
IsTransient-of_test sqlstate h = elim (Bool-cases (starts_with (codes "08") sqlstate)) [
  | inl gone ↦
      let (rest, same) = starts_with-rest (codes "08") sqlstate gone in
      subst IsTransient (sym same) (connection_exception rest)
  | inr other ↦ elim (Bool-cases (beq sqlstate (codes "57P01"))) [
    | inl a ↦ exactly (codes "57P01") a admin_shutdown
    | inr not_a ↦ elim (Bool-cases (beq sqlstate (codes "57P02"))) [
      | inl b ↦ exactly (codes "57P02") b crash_shutdown
      | inr not_b ↦ elim (Bool-cases (beq sqlstate (codes "57P03"))) [
        | inl c ↦ exactly (codes "57P03") c cannot_connect_now
        | inr not_c ↦ elim (Bool-cases (beq sqlstate (codes "40001"))) [
          | inl d ↦ exactly (codes "40001") d serialization_failure
          | inr not_d ↦
              exactly (codes "40P01") (rw (other, not_a, not_b, not_c, not_d) at h)
                deadlock_detected
        ]
      ]
    ]
  ]
]
  where
    exactly : (code : Bytes) → beq sqlstate code ≡ true → IsTransient code → IsTransient sqlstate
    exactly code same t = subst IsTransient (sym ((beq_iff sqlstate code).0 same)) t

test-of_IsTransient : (sqlstate : Bytes) → IsTransient sqlstate → is_transient sqlstate ≡ true
unfolding starts_with beq
test-of_IsTransient _ (connection_exception rest) = refl
test-of_IsTransient _ admin_shutdown = refl
test-of_IsTransient _ crash_shutdown = refl
test-of_IsTransient _ cannot_connect_now = refl
test-of_IsTransient _ serialization_failure = refl
test-of_IsTransient _ deadlock_detected = refl

not_stale :
    (sqlstate message : Bytes) → IsTransient sqlstate → is_stale_plan sqlstate message ≡ false
unfolding is_stale_plan beq
not_stale _ message (connection_exception rest) = refl
not_stale _ message admin_shutdown = refl
not_stale _ message crash_shutdown = refl
not_stale _ message cannot_connect_now = refl
not_stale _ message serialization_failure = refl
not_stale _ message deadlock_detected = refl

-- On a connection that is there, an error is tried again exactly when its SQLSTATE is a connection
-- exception, one of the three shutdowns, a serialization failure or a deadlock, and prepared again exactly
-- when the prepared statement is gone or the message says that its result type has changed; every other
-- error fails. On a lost connection every error is tried again.
pub classify_iff :
    (sqlstate message : Bytes)
    → ((classify true sqlstate message ≡ retry) ↔ IsTransient sqlstate)
      × ((classify true sqlstate message ≡ stale_plan) ↔ IsStale sqlstate message)
      × (classify false sqlstate message ≡ retry)
unfolding classify
classify_iff sqlstate message = (
  (
    λ h. elim (Bool-cases (is_stale_plan sqlstate message)) [
      | inl stale ↦ absurd (let q = rw stale at h in cc)
      | inr current ↦ elim (Bool-cases (is_transient sqlstate)) [
        | inl again ↦ IsTransient-of_test sqlstate again
        | inr never ↦ absurd (let q = rw (current, never) at h in cc)
      ]
    ],
    λ t. rw (not_stale sqlstate message t, test-of_IsTransient sqlstate t) refl,
  ),
  (
    λ h. elim (Bool-cases (is_stale_plan sqlstate message)) [
      | inl stale ↦ IsStale-of_test sqlstate message stale
      | inr current ↦ elim (Bool-cases (is_transient sqlstate)) [
        | inl again ↦ absurd (let q = rw (current, again) at h in cc)
        | inr never ↦ absurd (let q = rw (current, never) at h in cc)
      ]
    ],
    λ s. rw (test-of_IsStale sqlstate message s) refl,
  ),
  refl,
)

-- Without a message the only stale SQLSTATE is 26000, and it is not the duplicate's.
pub is_stale_sqlstate_lem :
    (sqlstate : Bytes)
    → (is_stale_sqlstate sqlstate ≡ beq sqlstate (codes "26000"))
      × ((is_stale_sqlstate sqlstate && is_duplicate_sqlstate sqlstate) ≡ false)
unfolding is_stale_sqlstate is_stale_plan is_duplicate_sqlstate contains starts_with beq
is_stale_sqlstate_lem sqlstate = elim (Bool-cases (beq sqlstate (codes "26000"))) [
  | inl stale ↦
      subst
        (λ s.
          (is_stale_sqlstate s ≡ beq s (codes "26000"))
          × ((is_stale_sqlstate s && is_duplicate_sqlstate s) ≡ false))
        (sym ((beq_iff sqlstate (codes "26000")).0 stale)) (refl, refl)
  | inr other ↦ elim (Bool-cases (beq sqlstate (codes "0A000"))) [
    | inl no_message ↦ rw (other, no_message) (refl, refl)
    | inr neither ↦ rw (other, neither) (refl, refl)
  ]
]
