-- ===== src/Sdk/Error/Notice.antt =====
-- newrelic_notice_error of src/error.c: which errors are recorded.
use c_sdk.Base.{
  ℕ, ◌≡◌, Bool, not, ◌&&◌, ◌||◌, Option, none, some, List, ◌∷◌, arith, CStr, ◌==◌, if◌then◌else◌,
}
use c_sdk.Sdk.Machine.{
  Call, Transaction, World, Event, release, did, Ends, nr_failure, err_enabled, recording,
  txn_error, nr_error_priority, nr_txn_record_error_worthy, nr_txn_record_error,
}
use c_sdk.Sdk.Segment.Start.{IsFree}
use c_sdk.Sdk.Error.{notice_error, int_lt}

-- What axiom reports of a transaction, the same in every state: these calls only read.
pub record Reports {S : Type 0} (perform : Call → S → ℕ × S) (txn priority : ℕ)
    (on active old rank worthy : ℕ) : Type 0 where
  pub enabled : (s : S) → (perform (err_enabled txn) s).0 ≡ on
  pub recorded : (s : S) → (perform (recording txn) s).0 ≡ active
  pub error : (s : S) → (perform (txn_error txn) s).0 ≡ old
  pub priority_of : (s : S) → (perform (nr_error_priority old) s).0 ≡ rank
  pub judged : (s : S) → (perform (nr_txn_record_error_worthy txn priority) s).0 ≡ worthy

-- An error is wanted where errors are enabled, the transaction is being recorded, no error that it
-- has is of a higher priority, and axiom finds it worthy.
abbrev pub wanted : ℕ → ℕ → ℕ → ℕ → ℕ → ℕ → Bool
wanted priority on active old rank worthy =
    not (on == 0)
    && (not (active == 0)
        && ((old == 0 || not (int_lt priority rank)) && not (worthy == nr_failure)))

-- The error that was recorded just before the lock was given back: the transaction, the priority,
-- the message and the class.
abbrev pub recorded_last : List Event → Option (ℕ × ℕ × CStr × CStr)
recorded_last (release q ∷ did (nr_txn_record_error txn priority msg cls stack) ∷ _) =
    some (txn, priority, msg, cls)
recorded_last _ = none

module _ {S : Type 0} (perform : Call → S → ℕ × S) (w : World S) (p : ℕ) (t : Transaction)
    (free : IsFree w p t) (priority on active old rank worthy : ℕ)
    (reports : Reports perform t.txn priority on active old rank worthy) where
  abbrev after : Call → S → S
  after c s = (perform c s).1

  abbrev s1 : S
  s1 = after (err_enabled t.txn) w.axiom_state

  abbrev s2 : S
  s2 = after (recording t.txn) s1

  abbrev s3 : S
  s3 = after (txn_error t.txn) s2

  abbrev pub Noticed : CStr → CStr → World S → Type 0
  Noticed msg cls w' =
      (recorded_last w'.trace ≡ (
        if wanted priority on active old rank worthy
        then some (t.txn, priority, msg, cls)
        else none))
      × ((q : ℕ) → w'.transactions q ≡ w.transactions q)

  -- newrelic_notice_error on a live transaction with a free lock, with a message and a class that
  -- are not empty: if the error is wanted, the last call before the lock is given back records it
  -- with its priority, message and class; if it is not, no error is recorded there. The lock is
  -- given back in both cases. What axiom reports of the transaction is a hypothesis.
  pub notice_error-Ends :
      (m c : ℕ) (msg cls : CStr)
      → Ends
          (λ _ w'. Noticed (m ∷ msg) (c ∷ cls) w')
          (notice_error perform p priority (some (m ∷ msg)) (some (c ∷ cls)) w)
  unfolding notice_error
  notice_error-Ends m c msg cls = ground (
    arith,
    reports.enabled w.axiom_state,
    reports.recorded s1,
    reports.error s2,
    reports.priority_of s3,
    reports.judged s3,
    reports.judged (after (nr_error_priority old) s3),
  )
