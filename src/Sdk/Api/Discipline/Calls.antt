-- ===== src/Sdk/Api/Discipline/Calls.antt =====
-- Each public function keeps the discipline of the locks.
use c_sdk.Base.{ℕ, ◌≡◌, Bool, true, ◌||◌, Option, arith, CStr}
use c_sdk.Sdk.Config.{AppConfig, Created}
use c_sdk.Sdk.Machine.{Call, World, Value, is_null}
use c_sdk.Sdk.Global.{configure_log, init, ensure_init, shutdown}
use c_sdk.Sdk.App.{create_with, destroy_app}
use c_sdk.Sdk.Transaction.{set_transaction_timing, end_transaction}
use c_sdk.Sdk.Segment.{
  start_segment, set_segment_parent, set_segment_parent_root, set_segment_timing, finish,
}
use c_sdk.Sdk.Datastore.{DatastoreParams, Environment, start_datastore_segment}
use c_sdk.Sdk.External.{ExternalParams, start_external_segment}
use c_sdk.Sdk.Attribute.{add_attribute, record_custom_metric}
use c_sdk.Sdk.CustomEvent.{
  create_custom_event, discard_custom_event, record_custom_event, add_event_attribute,
}
use c_sdk.Sdk.Error.{notice_error}
use c_sdk.Sdk.DistributedTrace.{
  create_distributed_trace_payload, create_distributed_trace_payload_httpsafe,
  accept_distributed_trace_payload, accept_distributed_trace_payload_httpsafe,
}
use c_sdk.Sdk.Api.Discipline.{IsGuarded, Guarded, keeps_lock, IsHome}

module _ {S : Type 0} (perform : Call → S → ℕ × S) (version : CStr) (owner home : ℕ → ℕ)
    (w : World S) (g : IsGuarded owner home 0 w) where
  pub configure_log-Guarded :
      (f : Option CStr) (l : ℕ) → Guarded owner home 0 (configure_log perform f l w)
  unfolding configure_log
  configure_log-Guarded f l = grind (arith, g.transactions, g.segments, g.locks)

  pub init-Guarded : (s : Option CStr) (l : ℕ) → Guarded owner home 0 (init perform s l w)
  unfolding init
  init-Guarded s l = grind (arith, g.transactions, g.segments, g.locks)

  pub ensure_init-Guarded : Guarded owner home 0 (ensure_init perform w)
  unfolding ensure_init
  ensure_init-Guarded = grind (arith, g.transactions, g.segments, g.locks)

  pub shutdown-Guarded : Guarded owner home 0 (shutdown perform w)
  unfolding shutdown
  shutdown-Guarded = grind (arith, g.transactions, g.segments, g.locks)

  pub destroy_app-Guarded : (a : Option ℕ) → Guarded owner home 0 (destroy_app perform version a w)
  unfolding destroy_app
  destroy_app-Guarded a = grind (arith, g.transactions, g.segments, g.locks)

  pub set_transaction_timing-Guarded :
      (p a d : ℕ) → Guarded owner home 0 (set_transaction_timing perform p a d w)
  unfolding set_transaction_timing
  set_transaction_timing-Guarded p a d = grind (arith, g.transactions, g.segments, g.locks)

  pub end_transaction-Guarded :
      (p : Option ℕ) → Guarded owner home 0 (end_transaction perform version p w)
  unfolding end_transaction
  end_transaction-Guarded p = grind (arith, g.transactions, g.segments, g.locks)

  pub record_custom_metric-Guarded :
      (p : ℕ) (n : Option CStr) (m : ℕ)
      → Guarded owner home 0 (record_custom_metric perform p n m w)
  unfolding record_custom_metric
  record_custom_metric-Guarded p n m = grind (arith, g.transactions, g.segments, g.locks)

  pub create_custom_event-Guarded :
      (t : Option CStr) → Guarded owner home 0 (create_custom_event perform t w)
  unfolding create_custom_event
  create_custom_event-Guarded t = grind (arith, g.transactions, g.segments, g.locks)

  pub discard_custom_event-Guarded :
      (e : Option ℕ) → Guarded owner home 0 (discard_custom_event perform e w)
  unfolding discard_custom_event
  discard_custom_event-Guarded e = grind (arith, g.transactions, g.segments, g.locks)

  pub record_custom_event-Guarded :
      (p : ℕ) (e : Option ℕ) → Guarded owner home 0 (record_custom_event perform p e w)
  unfolding record_custom_event
  record_custom_event-Guarded p e = grind (arith, g.transactions, g.segments, g.locks)

  pub add_event_attribute-Guarded :
      (e : ℕ) (k : Option CStr) (v : Value)
      → Guarded owner home 0 (add_event_attribute perform e k v w)
  unfolding add_event_attribute
  add_event_attribute-Guarded e k v = grind (arith, g.transactions, g.segments, g.locks)

  pub add_attribute-Guarded :
      (p : ℕ) (k : Option CStr) (v : Option Value)
      → Guarded owner home 0 (add_attribute perform p k v w)
  unfolding add_attribute
  add_attribute-Guarded p k v = grind (arith, g.transactions, g.segments, g.locks)

  pub notice_error-Guarded :
      (p n : ℕ) (m c : Option CStr) → Guarded owner home 0 (notice_error perform p n m c w)
  unfolding notice_error
  notice_error-Guarded p n m c = grind (arith, g.transactions, g.segments, g.locks)

  pub create_distributed_trace_payload-Guarded :
      (p s : ℕ) → Guarded owner home 0 (create_distributed_trace_payload perform p s w)
  unfolding create_distributed_trace_payload
  create_distributed_trace_payload-Guarded p s = grind (arith, g.transactions, g.segments, g.locks)

  pub create_distributed_trace_payload_httpsafe-Guarded :
      (p s : ℕ) → Guarded owner home 0 (create_distributed_trace_payload_httpsafe perform p s w)
  unfolding create_distributed_trace_payload_httpsafe
  create_distributed_trace_payload_httpsafe-Guarded p s =
      grind (arith, g.transactions, g.segments, g.locks)

  pub accept_distributed_trace_payload-Guarded :
      (p : ℕ) (d t : Option CStr)
      → Guarded owner home 0 (accept_distributed_trace_payload perform p d t w)
  unfolding accept_distributed_trace_payload
  accept_distributed_trace_payload-Guarded p d t =
      grind (arith, g.transactions, g.segments, g.locks)

  pub accept_distributed_trace_payload_httpsafe-Guarded :
      (p : ℕ) (d t : Option CStr)
      → Guarded owner home 0 (accept_distributed_trace_payload_httpsafe perform p d t w)
  unfolding accept_distributed_trace_payload_httpsafe
  accept_distributed_trace_payload_httpsafe-Guarded p d t =
      grind (arith, g.transactions, g.segments, g.locks)

  pub create_with-Guarded :
      (c : AppConfig) (l : ℕ) (m : Created)
      → Guarded owner home 0 (create_with perform version c l m w)
  unfolding create_with
  create_with-Guarded c l m = grind (arith, g.transactions, g.segments, g.locks)

  pub finish-Guarded : (b : Bool) (x : ℕ) → Guarded owner home 0 (finish perform b x w)
  unfolding finish
  finish-Guarded b x = grind (arith, g.transactions, g.segments, g.locks)

  pub set_segment_parent-Guarded :
      (s q : ℕ)
      → (is_null s || keeps_lock (w.segments s)) ≡ true
      → Guarded owner home 0 (set_segment_parent perform s q w)
  unfolding set_segment_parent
  set_segment_parent-Guarded s q h = grind (arith, g.transactions, g.segments, g.locks)

  pub set_segment_parent_root-Guarded :
      (s : ℕ)
      → (is_null s || keeps_lock (w.segments s)) ≡ true
      → Guarded owner home 0 (set_segment_parent_root perform s w)
  unfolding set_segment_parent_root
  set_segment_parent_root-Guarded s h = grind (arith, g.transactions, g.segments, g.locks)

  pub set_segment_timing-Guarded :
      (s a d : ℕ)
      → (is_null s || keeps_lock (w.segments s)) ≡ true
      → Guarded owner home 0 (set_segment_timing perform s a d w)
  unfolding set_segment_timing
  set_segment_timing-Guarded s a d h = grind (arith, g.transactions, g.segments, g.locks)

  module _ (at_home : IsHome perform home) where
    pub start_segment-Guarded :
        (p : ℕ) (n c : Option CStr) → Guarded owner home 0 (start_segment perform p n c w)
    unfolding start_segment
    start_segment-Guarded p n c = grind (arith, g.transactions, g.segments, g.locks, at_home)

    pub start_datastore_segment-Guarded :
        (env : Environment) (p : ℕ) (d : Option DatastoreParams)
        → Guarded owner home 0 (start_datastore_segment perform env p d w)
    unfolding start_datastore_segment
    start_datastore_segment-Guarded env p d =
        grind (arith, g.transactions, g.segments, g.locks, at_home)

    pub start_external_segment-Guarded :
        (p : ℕ) (e : Option ExternalParams)
        → Guarded owner home 0 (start_external_segment perform p e w)
    unfolding start_external_segment
    start_external_segment-Guarded p e = grind (arith, g.transactions, g.segments, g.locks, at_home)
