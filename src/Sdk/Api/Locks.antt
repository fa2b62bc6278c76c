-- ===== src/Sdk/Api/Locks.antt =====
-- No public function leaves a lock held, takes one twice, or gives back one that is free.
use c_sdk.Base.{ℕ, ◌≡◌, ◌≢◌, Bool, false, Option, some, arith, CStr}
use c_sdk.Sdk.Config.{AppConfig, Created, null, overflow, created}
use c_sdk.Sdk.Machine.{
  Call, Transaction, App, World, Outcome, ok, fault, deadlock, not_locked, M, Value,
}
use c_sdk.Sdk.Global.{configure_log, init, ensure_init, shutdown}
use c_sdk.Sdk.App.{create_with, destroy_app}
use c_sdk.Sdk.Transaction.{
  start_transaction, set_transaction_timing, end_transaction, ignore_transaction,
  set_transaction_name,
}
use c_sdk.Sdk.Segment.{
  start_segment, set_segment_parent, set_segment_parent_root, set_segment_timing, finish,
}
use c_sdk.Sdk.Datastore.{DatastoreParams, Environment, start_datastore_segment}
use c_sdk.Sdk.External.{ExternalParams, start_external_segment}
use c_sdk.Sdk.Attribute.{add_attribute, record_custom_metric}
use c_sdk.Sdk.CustomEvent.{
  create_custom_event, discard_custom_event, record_custom_event, add_event_attribute,
}
use c_sdk.Sdk.Error.{notice_error}
use c_sdk.Sdk.DistributedTrace.{
  create_distributed_trace_payload, create_distributed_trace_payload_httpsafe,
  accept_distributed_trace_payload, accept_distributed_trace_payload_httpsafe,
}

-- No lock is held.
pub record Free {S : Type 0} (w : World S) : Type 0 where
  pub transactions : (q : ℕ) (t : Transaction) → w.transactions q ≡ some t → t.locked ≡ false
  pub apps : (q : ℕ) (a : App) → w.apps q ≡ some a → a.locked ≡ false

-- The run ends with no lock held, or in a fault that has nothing to do with locks.
abbrev pub Safe : {S A : Type 0} → Outcome S A → Type 0
Safe (ok a w) = Free w
Safe (fault e) = (e ≢ deadlock) × (e ≢ not_locked)

-- Two runs in a row.
pub Safe-bind :
    {S A B : Type 0} (m : Outcome S A) (k : A → M S B)
    → Safe m
    → ((a : A) (w : World S) → Free w → Safe (k a w))
    → Safe (elim m as (λ _. Outcome S B) [ ok a w' ↦ k a w' | fault e ↦ fault e ])
Safe-bind (ok a w) k h f = f a w h
Safe-bind (fault e) k h f = h

module _ {S : Type 0} (perform : Call → S → ℕ × S) (version : CStr) (env : Environment)
    (w : World S) (free : Free w) where
  pub configure_log-Safe : (f : Option CStr) (l : ℕ) → Safe (configure_log perform f l w)
  unfolding configure_log
  configure_log-Safe f l = grind (arith, free.transactions, free.apps)

  pub init-Safe : (s : Option CStr) (l : ℕ) → Safe (init perform s l w)
  unfolding init
  init-Safe s l = grind (arith, free.transactions, free.apps)

  pub shutdown-Safe : Safe (shutdown perform w)
  unfolding shutdown
  shutdown-Safe = grind (arith, free.transactions, free.apps)

  pub destroy_app-Safe : (a : Option ℕ) → Safe (destroy_app perform version a w)
  unfolding destroy_app
  destroy_app-Safe a = grind (arith, free.transactions, free.apps)

  pub start_transaction-Safe :
      (a : ℕ) (n : Option CStr) (b : Bool) → Safe (start_transaction perform a n b w)
  unfolding start_transaction
  start_transaction-Safe a n b = grind (arith, free.transactions, free.apps)

  pub set_transaction_timing-Safe : (p a d : ℕ) → Safe (set_transaction_timing perform p a d w)
  unfolding set_transaction_timing
  set_transaction_timing-Safe p a d = grind (arith, free.transactions, free.apps)

  pub end_transaction-Safe : (p : Option ℕ) → Safe (end_transaction perform version p w)
  unfolding end_transaction
  end_transaction-Safe p = grind (arith, free.transactions, free.apps)

  pub ignore_transaction-Safe : (p : ℕ) → Safe (ignore_transaction perform p w)
  unfolding ignore_transaction
  ignore_transaction-Safe p = grind (arith, free.transactions, free.apps)

  pub set_transaction_name-Safe :
      (p : ℕ) (n : Option CStr) → Safe (set_transaction_name perform p n w)
  unfolding set_transaction_name
  set_transaction_name-Safe p n = grind (arith, free.transactions, free.apps)

  pub start_segment-Safe : (p : ℕ) (n c : Option CStr) → Safe (start_segment perform p n c w)
  unfolding start_segment
  start_segment-Safe p n c = grind (arith, free.transactions, free.apps)

  pub set_segment_parent-Safe : (s q : ℕ) → Safe (set_segment_parent perform s q w)
  unfolding set_segment_parent
  set_segment_parent-Safe s q = grind (arith, free.transactions, free.apps)

  pub set_segment_parent_root-Safe : (s : ℕ) → Safe (set_segment_parent_root perform s w)
  unfolding set_segment_parent_root
  set_segment_parent_root-Safe s = grind (arith, free.transactions, free.apps)

  pub set_segment_timing-Safe : (s a d : ℕ) → Safe (set_segment_timing perform s a d w)
  unfolding set_segment_timing
  set_segment_timing-Safe s a d = grind (arith, free.transactions, free.apps)

  pub start_datastore_segment-Safe :
      (p : ℕ) (d : Option DatastoreParams) → Safe (start_datastore_segment perform env p d w)
  unfolding start_datastore_segment
  start_datastore_segment-Safe p d = grind (arith, free.transactions, free.apps)

  pub start_external_segment-Safe :
      (p : ℕ) (e : Option ExternalParams) → Safe (start_external_segment perform p e w)
  unfolding start_external_segment
  start_external_segment-Safe p e = grind (arith, free.transactions, free.apps)

  pub record_custom_metric-Safe :
      (p : ℕ) (n : Option CStr) (m : ℕ) → Safe (record_custom_metric perform p n m w)
  unfolding record_custom_metric
  record_custom_metric-Safe p n m = grind (arith, free.transactions, free.apps)

  pub create_custom_event-Safe : (t : Option CStr) → Safe (create_custom_event perform t w)
  unfolding create_custom_event
  create_custom_event-Safe t = grind (arith, free.transactions, free.apps)

  pub discard_custom_event-Safe : (e : Option ℕ) → Safe (discard_custom_event perform e w)
  unfolding discard_custom_event
  discard_custom_event-Safe e = grind (arith, free.transactions, free.apps)

  pub record_custom_event-Safe : (p : ℕ) (e : Option ℕ) → Safe (record_custom_event perform p e w)
  unfolding record_custom_event
  record_custom_event-Safe p e = grind (arith, free.transactions, free.apps)

  pub notice_error-Safe : (p n : ℕ) (m c : Option CStr) → Safe (notice_error perform p n m c w)
  unfolding notice_error
  notice_error-Safe p n m c = grind (arith, free.transactions, free.apps)

  pub create_distributed_trace_payload-Safe :
      (p s : ℕ) → Safe (create_distributed_trace_payload perform p s w)
  unfolding create_distributed_trace_payload
  create_distributed_trace_payload-Safe p s = grind (arith, free.transactions, free.apps)

  pub create_distributed_trace_payload_httpsafe-Safe :
      (p s : ℕ) → Safe (create_distributed_trace_payload_httpsafe perform p s w)
  unfolding create_distributed_trace_payload_httpsafe
  create_distributed_trace_payload_httpsafe-Safe p s = grind (arith, free.transactions, free.apps)

  pub accept_distributed_trace_payload-Safe :
      (p : ℕ) (d t : Option CStr) → Safe (accept_distributed_trace_payload perform p d t w)
  unfolding accept_distributed_trace_payload
  accept_distributed_trace_payload-Safe p d t = grind (arith, free.transactions, free.apps)

  pub accept_distributed_trace_payload_httpsafe-Safe :
      (p : ℕ) (d t : Option CStr) → Safe (accept_distributed_trace_payload_httpsafe perform p d t w)
  unfolding accept_distributed_trace_payload_httpsafe
  accept_distributed_trace_payload_httpsafe-Safe p d t = grind (arith, free.transactions, free.apps)

  pub add_attribute-Safe :
      (p : ℕ) (k : Option CStr) (v : Option Value) → Safe (add_attribute perform p k v w)
  unfolding add_attribute
  add_attribute-Safe p k v = grind (arith, free.transactions, free.apps)

  pub add_event_attribute-Safe :
      (e : ℕ) (k : Option CStr) (v : Value) → Safe (add_event_attribute perform e k v w)
  unfolding add_event_attribute
  add_event_attribute-Safe e k v = grind (arith, free.transactions, free.apps)

  pub ensure_init-Safe : Safe (ensure_init perform w)
  unfolding ensure_init
  ensure_init-Safe = grind (arith, free.transactions, free.apps)

  pub create_with-Safe :
      (g : AppConfig) (l : ℕ) (c : Created) → Safe (create_with perform version g l c w)
  unfolding create_with
  create_with-Safe g l null = grind arith
  create_with-Safe g l overflow = grind arith
  create_with-Safe g l (created c) = grind (arith, free.transactions, free.apps)

  pub finish-Safe : (b : Bool) (p : ℕ) → Safe (finish perform b p w)
  unfolding finish
  finish-Safe b p = grind (arith, free.transactions, free.apps)
