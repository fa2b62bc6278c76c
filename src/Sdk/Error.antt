-- ===== src/Sdk/Error.antt =====
-- src/error.c: newrelic_notice_error.
pub mod Notice
use c_sdk.Base.{
  ℕ, ◌+◌, ◌%◌, ◌^◌, Bool, true, false, not, ◌&&◌, Option, none, some, [], ltb, ◌==◌, if◌then◌else◌,
  CStr,
}
use c_sdk.Sdk.Machine.{
  M, Call, err_enabled, recording, txn_error, nr_error_priority, nr_txn_record_error_worthy,
  get_stack_trace_as_json, nr_txn_record_error, nr_failure, pure, ◌>>=◌, ◌>>◌, is_null,
  get_transaction, mutex_lock, mutex_unlock, call, call_,
}
use c_sdk.Sdk.Datastore.{strempty, strdup_or}

-- `a < b` on `int`s given by their bit patterns
abbrev pub int_lt : ℕ → ℕ → Bool
int_lt a b = ltb ((a + 2 ^ 31) % 2 ^ 32) ((b + 2 ^ 31) % 2 ^ 32)

module _ {S : Type 0} (perform : Call → S → ℕ × S) where
  -- Whether the error that the transaction has (0 for none) outranks one of a priority.
  outranked : ℕ → ℕ → M S Bool
  outranked priority error =
      if error == 0
      then pure false
      else do old ← call perform (nr_error_priority error); pure (int_lt priority old)

  notice_on : ℕ → ℕ → CStr → CStr → M S (Unit {0})
  unfolding outranked
  notice_on txn priority errmsg errclass = do
    enabled ← call perform (err_enabled txn)
    if enabled == 0 then pure tt else do
      active ← call perform (recording txn)
      if active == 0 then pure tt else do
        error ← call perform (txn_error txn)
        lower ← outranked priority error
        if lower then pure tt else do
          worthy ← call perform (nr_txn_record_error_worthy txn priority)
          if worthy == nr_failure then pure tt else do
            stacktrace ← call perform get_stack_trace_as_json
            call_ perform (nr_txn_record_error txn priority errmsg errclass stacktrace)

  unfoldable pub notice_error : ℕ → ℕ → Option CStr → Option CStr → M S (Unit {0})
  unfolding notice_on
  notice_error transaction priority errmsg errclass =
      if is_null transaction
      then pure tt
      else if strempty errmsg
      then pure tt
      else if strempty errclass
      then pure tt
      else do
        mutex_lock transaction
        t ← get_transaction transaction
        notice_on t.txn priority (strdup_or errmsg []) (strdup_or errclass [])
        mutex_unlock transaction
