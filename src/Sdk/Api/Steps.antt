-- ===== src/Sdk/Api/Steps.antt =====
-- Any sequence of public calls, from a world where no lock is held.
use c_sdk.Base.{
  ℕ, ◌≡◌, ◌≢◌, refl, Bool, true, false, not, Option, none, some, List, [], ◌∷◌, arith, CStr, inl,
  inr, Bool-cases, if◌then◌else◌,
}
use c_sdk.Sdk.Config.{AppConfig, create_app_config, text}
use c_sdk.Sdk.Machine.{
  Call, World, Segment, Outcome, ok, fault, deadlock, not_locked, int_value, long_value,
  double_value, string_value, pure,
}
use c_sdk.Sdk.Global.{ensure_init, configure_log, init}
use c_sdk.Sdk.App.{create_with, accepts, create_app, destroy_app}
use c_sdk.Sdk.Transaction.{
  start_web_transaction, start_non_web_transaction, set_transaction_timing, end_transaction,
  ignore_transaction, set_transaction_name,
}
use c_sdk.Sdk.Segment.{
  start_segment, set_segment_parent, set_segment_parent_root, set_segment_timing, end_segment,
  end_matching, end_locked, end_typed,
}
use c_sdk.Sdk.Datastore.{Environment, start_datastore_segment}
use c_sdk.Sdk.External.{start_external_segment}
use c_sdk.Sdk.Attribute.{
  add_attribute_int, add_attribute_long, add_attribute_double, add_attribute_string,
  record_custom_metric,
}
use c_sdk.Sdk.CustomEvent.{
  create_custom_event, discard_custom_event, record_custom_event, custom_event_add_attribute_int,
  custom_event_add_attribute_long, custom_event_add_attribute_double,
  custom_event_add_attribute_string,
}
use c_sdk.Sdk.DistributedTrace.{
  create_distributed_trace_payload, create_distributed_trace_payload_httpsafe,
  accept_distributed_trace_payload, accept_distributed_trace_payload_httpsafe,
}
use c_sdk.Sdk.Api.{
  Op, configure_log_op, init_op, shutdown_op, create_app_op, destroy_app_op,
  start_web_transaction_op, start_non_web_transaction_op, set_transaction_timing_op,
  end_transaction_op, ignore_transaction_op, set_transaction_name_op, start_segment_op,
  set_segment_parent_op, set_segment_parent_root_op, set_segment_timing_op, end_segment_op,
  start_datastore_segment_op, start_external_segment_op, add_attribute_int_op,
  add_attribute_long_op, add_attribute_double_op, add_attribute_string_op, record_custom_metric_op,
  create_custom_event_op, discard_custom_event_op, record_custom_event_op,
  custom_event_add_attribute_int_op, custom_event_add_attribute_long_op,
  custom_event_add_attribute_double_op, custom_event_add_attribute_string_op, notice_error_op,
  create_payload_op, create_payload_httpsafe_op, accept_payload_op, accept_payload_httpsafe_op,
  run_op, run_ops,
}
use c_sdk.Sdk.Api.Locks
use c_sdk.Sdk.Api.Locks.{Free, Safe, Safe-bind}

module _ {S : Type 0} (perform : Call → S → ℕ × S) (version : CStr) (env : Environment) where
  after_init :
      (c : AppConfig) (l : ℕ) (ready : Bool) (w : World S)
      → Free w
      → Safe (
          (if not ready
              then pure 0
              else create_with perform version c l
                  (create_app_config (some c.app_name) (some c.license_key)))
            w)
  after_init c l false w free = free
  after_init c l true w free =
      Locks.create_with-Safe perform version env w free c l
        (create_app_config (some c.app_name) (some c.license_key))

  pub create_app-Safe :
      (w : World S)
      → Free w
      → (c : Option AppConfig) (l : ℕ) → Safe (create_app perform version c l w)
  unfolding create_app
  create_app-Safe w free none l = free
  create_app-Safe w free (some c) l = elim (Bool-cases (accepts c)) [
    | inl taken ↦ rw taken (
        Safe-bind (ensure_init perform w) _ (Locks.ensure_init-Safe perform version env w free)
          (after_init c l))
    | inr refused ↦ rw refused free
  ]

  -- Ending a segment in axiom leaves the SDK's transactions and applications as they are.
  Keeps : {A : Type 0} → World S → Outcome S A → Type 0
  Keeps w (ok a w') = (w'.transactions ≡ w.transactions) × (w'.apps ≡ w.apps)
  Keeps w (fault e) = (e ≢ deadlock) × (e ≢ not_locked)

  end_typed-Keeps :
      (type x : ℕ) (s : Segment) (w : World S) → Keeps w (end_typed perform type x s w)
  unfolding end_typed Keeps
  end_typed-Keeps type x s w = ground arith

  end_locked-Safe :
      (p x : ℕ) (s : Segment) (w : World S) → Free w → Safe (end_locked perform p x s w)
  unfolding end_locked Keeps
  end_locked-Safe p x s w free = grind (arith, free.transactions, free.apps, end_typed-Keeps)

  end_matching-Safe :
      (p x : ℕ) (s : Segment) (w : World S) → Free w → Safe (end_matching perform p x s w)
  unfolding end_matching
  end_matching-Safe p x s w free =
      Safe-bind (end_locked perform p x s w) _ (end_locked-Safe p x s w free)
        (λ a w' free'. Locks.finish-Safe perform version env w' free' true x)

  end_found-Safe :
      (w : World S)
      → Free w
      → (p x : ℕ) (found : Option Segment) → w.segments x ≡ found
      → Safe (end_segment perform p (some x) w)
  unfolding end_segment
  end_found-Safe w free p x none e = ground arith
  end_found-Safe w free p x (some s) e = ground (
    arith,
    e,
    end_matching-Safe p x s w free,
    Locks.finish-Safe perform version env w free false x,
  )

  pub end_segment-Safe :
      (w : World S) → Free w → (p : ℕ) (s : Option ℕ) → Safe (end_segment perform p s w)
  unfolding end_segment
  end_segment-Safe w free p none = free
  end_segment-Safe w free p (some x) = end_found-Safe w free p x (w.segments x) refl

  -- A result that is dropped.
  Safe-drop :
      {A : Type 0} (m : Outcome S A)
      → Safe m
      → Safe (elim m as (λ _. Outcome S (Unit {0})) [ ok a w ↦ pure tt w | fault e ↦ fault e ])
  Safe-drop (ok a w) h = h
  Safe-drop (fault e) h = h

  -- A public function that is called with no lock held returns with none held, and does not wait
  -- for a lock that its own thread holds.
  pub run_op-Safe : (op : Op) (w : World S) → Free w → Safe (run_op perform version env op w)
  unfolding run_op start_web_transaction start_non_web_transaction add_attribute_int
      add_attribute_long add_attribute_double add_attribute_string custom_event_add_attribute_int
      custom_event_add_attribute_long custom_event_add_attribute_double
      custom_event_add_attribute_string
  run_op-Safe (configure_log_op f l) w free =
      Safe-drop (configure_log perform f l w)
        (Locks.configure_log-Safe perform version env w free f l)
  run_op-Safe (init_op s l) w free =
      Safe-drop (init perform s l w) (Locks.init-Safe perform version env w free s l)
  run_op-Safe shutdown_op w free = Locks.shutdown-Safe perform version env w free
  run_op-Safe (create_app_op c l) w free =
      Safe-drop (create_app perform version c l w) (create_app-Safe w free c l)
  run_op-Safe (destroy_app_op a) w free =
      Safe-drop (destroy_app perform version a w)
        (Locks.destroy_app-Safe perform version env w free a)
  run_op-Safe (start_web_transaction_op a n) w free =
      Safe-drop (start_web_transaction perform a n w)
        (Locks.start_transaction-Safe perform version env w free a n true)
  run_op-Safe (start_non_web_transaction_op a n) w free =
      Safe-drop (start_non_web_transaction perform a n w)
        (Locks.start_transaction-Safe perform version env w free a n false)
  run_op-Safe (set_transaction_timing_op p a d) w free =
      Safe-drop (set_transaction_timing perform p a d w)
        (Locks.set_transaction_timing-Safe perform version env w free p a d)
  run_op-Safe (end_transaction_op p) w free =
      Safe-drop (end_transaction perform version p w)
        (Locks.end_transaction-Safe perform version env w free p)
  run_op-Safe (ignore_transaction_op p) w free =
      Safe-drop (ignore_transaction perform p w)
        (Locks.ignore_transaction-Safe perform version env w free p)
  run_op-Safe (set_transaction_name_op p n) w free =
      Safe-drop (set_transaction_name perform p n w)
        (Locks.set_transaction_name-Safe perform version env w free p n)
  run_op-Safe (start_segment_op p n c) w free =
      Safe-drop (start_segment perform p n c w)
        (Locks.start_segment-Safe perform version env w free p n c)
  run_op-Safe (set_segment_parent_op s q) w free =
      Safe-drop (set_segment_parent perform s q w)
        (Locks.set_segment_parent-Safe perform version env w free s q)
  run_op-Safe (set_segment_parent_root_op s) w free =
      Safe-drop (set_segment_parent_root perform s w)
        (Locks.set_segment_parent_root-Safe perform version env w free s)
  run_op-Safe (set_segment_timing_op s a d) w free =
      Safe-drop (set_segment_timing perform s a d w)
        (Locks.set_segment_timing-Safe perform version env w free s a d)
  run_op-Safe (end_segment_op p s) w free =
      Safe-drop (end_segment perform p s w) (end_segment-Safe w free p s)
  run_op-Safe (start_datastore_segment_op p d) w free =
      Safe-drop (start_datastore_segment perform env p d w)
        (Locks.start_datastore_segment-Safe perform version env w free p d)
  run_op-Safe (start_external_segment_op p e) w free =
      Safe-drop (start_external_segment perform p e w)
        (Locks.start_external_segment-Safe perform version env w free p e)
  run_op-Safe (add_attribute_int_op p k v) w free =
      Safe-drop (add_attribute_int perform p k v w)
        (Locks.add_attribute-Safe perform version env w free p k (some (int_value v)))
  run_op-Safe (add_attribute_long_op p k v) w free =
      Safe-drop (add_attribute_long perform p k v w)
        (Locks.add_attribute-Safe perform version env w free p k (some (long_value v)))
  run_op-Safe (add_attribute_double_op p k v) w free =
      Safe-drop (add_attribute_double perform p k v w)
        (Locks.add_attribute-Safe perform version env w free p k (some (double_value v)))
  run_op-Safe (add_attribute_string_op p k none) w free = free
  run_op-Safe (add_attribute_string_op p k (some v)) w free =
      Safe-drop (add_attribute_string perform p k (some v) w)
        (Locks.add_attribute-Safe perform version env w free p k (some (string_value v)))
  run_op-Safe (record_custom_metric_op p n m) w free =
      Safe-drop (record_custom_metric perform p n m w)
        (Locks.record_custom_metric-Safe perform version env w free p n m)
  run_op-Safe (create_custom_event_op t) w free =
      Safe-drop (create_custom_event perform t w)
        (Locks.create_custom_event-Safe perform version env w free t)
  run_op-Safe (discard_custom_event_op e) w free =
      Safe-drop (discard_custom_event perform e w)
        (Locks.discard_custom_event-Safe perform version env w free e)
  run_op-Safe (record_custom_event_op p e) w free =
      Safe-drop (record_custom_event perform p e w)
        (Locks.record_custom_event-Safe perform version env w free p e)
  run_op-Safe (custom_event_add_attribute_int_op e k v) w free =
      Safe-drop (custom_event_add_attribute_int perform e k v w)
        (Locks.add_event_attribute-Safe perform version env w free e k (int_value v))
  run_op-Safe (custom_event_add_attribute_long_op e k v) w free =
      Safe-drop (custom_event_add_attribute_long perform e k v w)
        (Locks.add_event_attribute-Safe perform version env w free e k (long_value v))
  run_op-Safe (custom_event_add_attribute_double_op e k v) w free =
      Safe-drop (custom_event_add_attribute_double perform e k v w)
        (Locks.add_event_attribute-Safe perform version env w free e k (double_value v))
  run_op-Safe (custom_event_add_attribute_string_op e k v) w free =
      Safe-drop (custom_event_add_attribute_string perform e k v w)
        (Locks.add_event_attribute-Safe perform version env w free e k (string_value (text v)))
  run_op-Safe (notice_error_op p n m c) w free =
      Locks.notice_error-Safe perform version env w free p n m c
  run_op-Safe (create_payload_op p s) w free =
      Safe-drop (create_distributed_trace_payload perform p s w)
        (Locks.create_distributed_trace_payload-Safe perform version env w free p s)
  run_op-Safe (create_payload_httpsafe_op p s) w free =
      Safe-drop (create_distributed_trace_payload_httpsafe perform p s w)
        (Locks.create_distributed_trace_payload_httpsafe-Safe perform version env w free p s)
  run_op-Safe (accept_payload_op p d t) w free =
      Safe-drop (accept_distributed_trace_payload perform p d t w)
        (Locks.accept_distributed_trace_payload-Safe perform version env w free p d t)
  run_op-Safe (accept_payload_httpsafe_op p d t) w free =
      Safe-drop (accept_distributed_trace_payload_httpsafe perform p d t w)
        (Locks.accept_distributed_trace_payload_httpsafe-Safe perform version env w free p d t)

  -- Any sequence of calls of the public functions, with any arguments and whatever axiom answers,
  -- from a world where no transaction and no application is locked: it ends with none of them
  -- locked, or in a fault that has nothing to do with these locks. No function takes one of them
  -- twice or gives back one that is free.
  pub run_ops-Safe :
      (ops : List Op) (w : World S) → Free w → Safe (run_ops perform version env ops w)
  unfolding run_ops
  run_ops-Safe [] w free = free
  run_ops-Safe (op ∷ ops) w free =
      Safe-bind (run_op perform version env op w) _ (run_op-Safe op w free)
        (λ a w' free'. run_ops-Safe ops w' free')
