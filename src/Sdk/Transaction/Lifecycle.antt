-- ===== src/Sdk/Transaction/Lifecycle.antt =====
-- newrelic_start_transaction and newrelic_end_transaction of src/transaction.c.
use c_sdk.Base.{
  ℕ, suc, ◌≡◌, ◌≢◌, Bool, true, false, not, ◌||◌, Option, none, some, List, ◌∷◌, ◌++◌, arith, CStr,
  codes, ◌==◌, if◌then◌else◌, ◌⊎◌, inl, inr,
}
use c_sdk.Sdk.Config.{get_transaction_options}
use c_sdk.Sdk.Machine.{
  Call, App, Transaction, World, Event, acquire, release, acquire_app, release_app, did, Ends,
  nr_failure, nr_app_consider_appinfo, nrt_mutex_init, nr_txn_begin, nr_txn_set_path,
  nr_txn_set_as_web_transaction, nr_txn_set_as_background_job, nr_txn_force_single_count,
  nr_txn_end, status_ignore, nr_cmd_txndata_tx, nr_txn_destroy, nr_txn_ignore,
}
use c_sdk.Sdk.Segment.Start.{IsFree}
use c_sdk.Sdk.Transaction.{
  start_transaction, end_transaction, set_transaction_name, ignore_transaction, name_or_null,
  path_action, path_custom,
}

-- An application at an address, with its lock free.
pub record IsReady {S : Type 0} (w : World S) (app : ℕ) (a : App) : Type 0 where
  pub address : app ≢ 0
  pub live : w.apps app ≡ some a
  pub unlocked : a.locked ≡ false

-- The call that marks a transaction.
abbrev pub kind_call : Bool → ℕ → Call
kind_call true txn = nr_txn_set_as_web_transaction txn
kind_call false txn = nr_txn_set_as_background_job txn

module _ {S : Type 0} (perform : Call → S → ℕ × S) (w : World S) (app : ℕ) (a : App)
    (ready : IsReady w app a) (name : Option CStr) where
  -- What axiom answers to the calls of the start.
  abbrev pub considered : S
  considered = (perform (nr_app_consider_appinfo a.app) w.axiom_state).1

  abbrev pub made : ℕ × S
  made = perform nrt_mutex_init considered

  abbrev pub begun : ℕ
  begun = (perform (nr_txn_begin a.app (get_transaction_options a.config)) made.1).0

  -- The events up to the end of the application's lock, newest first.
  abbrev pub begin_events : List Event
  begin_events =
      release_app app
      ∷ did (nr_txn_begin a.app (get_transaction_options a.config))
      ∷ acquire_app app
      ∷ did nrt_mutex_init
      ∷ did (nr_app_consider_appinfo a.app)
      ∷ w.trace

  abbrev pub Started : Bool → ℕ → World S → Type 0
  Started is_web r w' =
      (r ≡ suc w.last)
      × (w'.transactions r ≡ some (record { txn = begun; locked = false }))
      × (w'.trace
          ≡ did (kind_call is_web begun)
            ∷ did (nr_txn_set_path none begun (name_or_null name) path_action)
            ∷ begin_events)
      × ((q : ℕ) → q ≢ r → w'.transactions q ≡ w.transactions q)
      × ((q : ℕ) → w'.apps q ≡ w.apps q)

  -- newrelic_start_transaction on a live application with a free lock, where axiom makes the lock
  -- and begins a transaction: the result is a new address with that transaction, unlocked; the
  -- options are those of the application's configuration and the lock of the application is held
  -- around nr_txn_begin only; then the path and the kind are set. No other
  -- transaction and no application changes.
  pub start_transaction-Ends :
      (is_web : Bool)
      → made.0 ≢ nr_failure
      → begun ≢ 0
      → Ends (Started is_web) (start_transaction perform app name is_web w)
  unfolding start_transaction
  start_transaction-Ends true m b = ground arith
  start_transaction-Ends false m b = ground arith

  abbrev pub Failed : ℕ → World S → Type 0
  Failed r w' =
      (r ≡ 0) × ((q : ℕ) → w'.transactions q ≡ w.transactions q) × ((q : ℕ) → w'.apps q ≡ w.apps q)

  -- Where the lock cannot be made or axiom begins no transaction, the result is NULL, no
  -- transaction is added or changed, and the applications and their locks are as before.
  pub start_transaction-Failed :
      (is_web : Bool)
      → (made.0 ≡ nr_failure) ⊎ (begun ≡ 0)
      → Ends Failed (start_transaction perform app name is_web w)
  unfolding start_transaction
  start_transaction-Failed is_web (inl m) = ground arith
  start_transaction-Failed is_web (inr b) = ground arith

module _ {S : Type 0} (perform : Call → S → ℕ × S) (version : CStr) (w : World S) (p : ℕ)
    (t : Transaction) (free : IsFree w p t) where
  abbrev counted : Call
  counted = nr_txn_force_single_count t.txn (codes "Supportability/C/NewrelicVersion/" ++ version)

  abbrev ended : S
  ended = (perform (nr_txn_end t.txn) (perform counted w.axiom_state).1).1

  -- `status.ignore`, and the daemon's answer to the transaction.
  abbrev pub ignored : ℕ × S
  ignored = perform (status_ignore t.txn) ended

  abbrev pub sent : ℕ
  sent = (perform (nr_cmd_txndata_tx t.txn) ignored.1).0

  abbrev before_sending : List Event
  before_sending =
      did (status_ignore t.txn) ∷ did (nr_txn_end t.txn) ∷ did counted ∷ acquire p ∷ w.trace

  abbrev pub Finished : Bool × Option ℕ → World S → Type 0
  Finished (ret, ptr) w' =
      (ret ≡ not (ignored.0 == 0) || not (sent == nr_failure))
      × (ptr ≡ some 0)
      × (w'.transactions p ≡ none)
      × (w'.trace
          ≡ release p
            ∷ did (nr_txn_destroy t.txn)
            ∷ (if ignored.0 == 0
                then did (nr_cmd_txndata_tx t.txn) ∷ before_sending
                else before_sending))
      × ((q : ℕ) → q ≢ p → w'.transactions q ≡ w.transactions q)

  -- newrelic_end_transaction on a live transaction with a free lock: the version metric is counted
  -- and the transaction ended in axiom, then it is sent to the daemon unless it is ignored, then
  -- destroyed, all under its lock. The status is false exactly where it is sent and that fails. In
  -- either case the transaction is freed, the caller's pointer is cleared, and no other one changes.
  pub end_transaction-Ends : Ends Finished (end_transaction perform version (some p) w)
  unfolding end_transaction
  end_transaction-Ends = ground arith

module _ {S : Type 0} (perform : Call → S → ℕ × S) (w : World S) (p : ℕ) (t : Transaction)
    (address : p ≢ 0) (live : w.transactions p ≡ some t) where
  abbrev pub Unlocked : CStr → Type 0
  Unlocked name =
      Ends
        (λ b w'.
          w'.trace ≡ did (nr_txn_set_path (some (codes "API")) t.txn name path_custom) ∷ w.trace)
        (set_transaction_name perform p (some name) w)
      × Ends (λ b w'. w'.trace ≡ did (nr_txn_ignore t.txn) ∷ w.trace)
          (ignore_transaction perform p w)

  -- For a live transaction, newrelic_set_transaction_name with a name and
  -- newrelic_ignore_transaction make one call of axiom each and no other event: they neither take
  -- the transaction's lock nor ask whether it is held.
  pub set_transaction_name-Unlocked : (name : CStr) → Unlocked name
  unfolding set_transaction_name ignore_transaction
  set_transaction_name-Unlocked name = ground arith
