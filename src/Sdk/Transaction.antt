-- ===== src/Sdk/Transaction.antt =====
-- src/transaction.c: transactions.
pub mod Lifecycle
use c_sdk.Base.{
  ℕ, Bool, true, false, not, Option, none, some, [], ◌++◌, ◌==◌, if◌then◌else◌, CStr, codes,
}
use c_sdk.Sdk.Config.{get_transaction_options}
use c_sdk.Sdk.Machine.{
  M, Call, nr_app_consider_appinfo, nrt_mutex_init, nr_txn_begin, nr_txn_set_path,
  nr_txn_set_as_web_transaction, nr_txn_set_as_background_job, nr_txn_set_timing,
  nr_txn_force_single_count, nr_txn_end, status_ignore, nr_cmd_txndata_tx, nr_txn_destroy,
  nr_txn_ignore, nr_failure, pure, ◌>>=◌, ◌>>◌, is_null, get_app, lock_app, unlock_app,
  get_transaction, put_transaction, malloc, mutex_lock, mutex_unlock, call, call_,
}
use c_sdk.Sdk.Segment.Create.{add_api_supportability_metric}

-- `NR_PATH_TYPE_ACTION` and `NR_PATH_TYPE_CUSTOM`
abbrev pub path_action : ℕ
path_action = 3

abbrev pub path_custom : ℕ
path_custom = 5

abbrev pub name_or_null : Option CStr → CStr
name_or_null none = codes "NULL"
name_or_null (some n) = n

module _ {S : Type 0} (perform : Call → S → ℕ × S) where
  set_kind : Bool → ℕ → M S (Unit {0})
  set_kind true txn = call_ perform (nr_txn_set_as_web_transaction txn)
  set_kind false txn = call_ perform (nr_txn_set_as_background_job txn)

  -- The lock of a transaction that is being made is not used before it is returned.
  unfoldable pub start_transaction : ℕ → Option CStr → Bool → M S ℕ
  unfolding set_kind
  start_transaction app name is_web = if is_null app then pure 0 else do
    a ← get_app app
    call_ perform (nr_app_consider_appinfo a.app)
    transaction ← malloc
    made ← call perform nrt_mutex_init
    if made == nr_failure then pure 0 else do
      lock_app app
      txn ← call perform (nr_txn_begin a.app (get_transaction_options a.config))
      unlock_app app
      if is_null txn then pure 0 else do
        call_ perform (nr_txn_set_path none txn (name_or_null name) path_action)
        set_kind is_web txn
        put_transaction transaction (some (record { txn = txn; locked = false }))
        pure transaction

  unfoldable pub start_web_transaction : ℕ → Option CStr → M S ℕ
  unfolding start_transaction
  start_web_transaction app name = start_transaction app name true

  unfoldable pub start_non_web_transaction : ℕ → Option CStr → M S ℕ
  unfolding start_transaction
  start_non_web_transaction app name = start_transaction app name false

  unfoldable pub set_transaction_timing : ℕ → ℕ → ℕ → M S Bool
  unfolding add_api_supportability_metric
  set_transaction_timing transaction start duration = if is_null transaction then pure false else do
    mutex_lock transaction
    t ← get_transaction transaction
    add_api_supportability_metric perform t.txn (codes "set_transaction_timing")
    ret ← call perform (nr_txn_set_timing t.txn start duration)
    mutex_unlock transaction
    pure (not (ret == 0))

  -- A transaction that is not ignored is sent to the daemon.
  send_unless : Bool → ℕ → M S Bool
  send_unless true txn = pure true
  send_unless false txn = do
    sent ← call perform (nr_cmd_txndata_tx txn)
    pure (not (sent == nr_failure))

  -- The argument is `none` for a NULL pointer to a pointer; the new pointer is returned.
  unfoldable pub end_transaction : CStr → Option ℕ → M S (Bool × Option ℕ)
  unfolding send_unless
  end_transaction version none = pure (false, none)
  end_transaction version (some p) = if is_null p then pure (false, some p) else do
    mutex_lock p
    t ← get_transaction p
    call_ perform
        (nr_txn_force_single_count t.txn (codes "Supportability/C/NewrelicVersion/" ++ version))
    call_ perform (nr_txn_end t.txn)
    ignored ← call perform (status_ignore t.txn)
    ret ← send_unless (not (ignored == 0)) t.txn
    call_ perform (nr_txn_destroy t.txn)
    mutex_unlock p
    put_transaction p none
    pure (ret, some 0)

  unfoldable pub ignore_transaction : ℕ → M S Bool
  ignore_transaction transaction = if is_null transaction then pure false else do
    t ← get_transaction transaction
    ret ← call perform (nr_txn_ignore t.txn)
    pure (not (ret == 0))

  unfoldable pub set_transaction_name : ℕ → Option CStr → M S Bool
  set_transaction_name transaction none = pure false
  set_transaction_name transaction (some name) = if is_null transaction then pure false else do
    t ← get_transaction transaction
    set ← call perform (nr_txn_set_path (some (codes "API")) t.txn name path_custom)
    pure (set == 0)
