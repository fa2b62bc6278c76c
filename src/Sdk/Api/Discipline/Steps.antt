-- ===== src/Sdk/Api/Discipline/Steps.antt =====
-- Any sequence of public calls keeps the discipline of the locks.
use c_sdk.Base.{
  not, if◌then◌else◌, Bool-cases, inl, inr, Option, ℕ, ◌≡◌, Bool, true, false, none, some, List, [],
  ◌∷◌, CStr,
}
use c_sdk.Sdk.Config.{AppConfig, Created, create_app_config, text}
use c_sdk.Sdk.Machine.{
  pure, Ends, Call, World, Outcome, ok, fault, int_value, long_value, double_value, string_value,
  Ends,
}
use c_sdk.Sdk.Global.{ensure_init, configure_log, init}
use c_sdk.Sdk.App.{create_app, destroy_app}
use c_sdk.Sdk.Transaction.{
  start_web_transaction, start_non_web_transaction, set_transaction_timing, end_transaction,
}
use c_sdk.Sdk.Segment.{
  start_segment, set_segment_parent, set_segment_parent_root, set_segment_timing, end_segment,
}
use c_sdk.Sdk.Datastore.{Environment, start_datastore_segment}
use c_sdk.Sdk.External.{start_external_segment}
use c_sdk.Sdk.Attribute.{
  add_attribute_int, add_attribute_long, add_attribute_double, add_attribute_string,
  record_custom_metric,
}
use c_sdk.Sdk.CustomEvent.{
  create_custom_event, discard_custom_event, record_custom_event, custom_event_add_attribute_int,
  custom_event_add_attribute_long, custom_event_add_attribute_double,
  custom_event_add_attribute_string,
}
use c_sdk.Sdk.DistributedTrace.{
  create_distributed_trace_payload, create_distributed_trace_payload_httpsafe,
  accept_distributed_trace_payload, accept_distributed_trace_payload_httpsafe,
}
use c_sdk.Sdk.Api.{
  Op, configure_log_op, init_op, shutdown_op, create_app_op, destroy_app_op,
  start_web_transaction_op, start_non_web_transaction_op, set_transaction_timing_op,
  end_transaction_op, ignore_transaction_op, set_transaction_name_op, start_segment_op,
  set_segment_parent_op, set_segment_parent_root_op, set_segment_timing_op, end_segment_op,
  start_datastore_segment_op, start_external_segment_op, add_attribute_int_op,
  add_attribute_long_op, add_attribute_double_op, add_attribute_string_op, record_custom_metric_op,
  create_custom_event_op, discard_custom_event_op, record_custom_event_op,
  custom_event_add_attribute_int_op, custom_event_add_attribute_long_op,
  custom_event_add_attribute_double_op, custom_event_add_attribute_string_op, notice_error_op,
  create_payload_op, create_payload_httpsafe_op, accept_payload_op, accept_payload_httpsafe_op,
  run_op, run_ops,
}
use c_sdk.Sdk.Api.Clients.Runs.{both}
use c_sdk.Sdk.App.{create_with, accepts}
use c_sdk.Sdk.Api.Discipline.{IsGuarded, Guarded, IsHome, under_lock, abides}
use c_sdk.Sdk.Api.Discipline.Calls
use c_sdk.Sdk.Api.Discipline.Endings

Guarded-drop :
    {S A : Type 0} (owner home : ℕ → ℕ) (m : Outcome S A)
    → Guarded owner home 0 m
    → Guarded owner home 0
        (elim m as (λ _. Outcome S (Unit {0})) [ ok a w ↦ pure tt w | fault e ↦ fault e ])
Guarded-drop owner home (ok a w) h = h
Guarded-drop owner home (fault e) h = h

module _ {S : Type 0} (perform : Call → S → ℕ × S) (version : CStr) (env : Environment)
    (owner home : ℕ → ℕ) (at_home : IsHome perform home) where
  after_init :
      (c : AppConfig) (l : ℕ) (m : Created) (ready : Bool) (w : World S)
      → IsGuarded owner home 0 w
      → Guarded owner home 0 ((if not ready then pure 0 else create_with perform version c l m) w)
  after_init c l m false w g = g
  after_init c l m true w g = Calls.create_with-Guarded perform version owner home w g c l m

  create_app-Guarded :
      (c : Option AppConfig) (l : ℕ) (w : World S)
      → IsGuarded owner home 0 w
      → Guarded owner home 0 (create_app perform version c l w)
  unfolding create_app
  create_app-Guarded none l w g = g
  create_app-Guarded (some c) l w g = elim (Bool-cases (accepts c)) [
    | inl taken ↦ rw taken (
        Endings.Guarded-bind perform version owner home 0 (ensure_init perform w) _
          (Calls.ensure_init-Guarded perform version owner home w g)
          (after_init c l (create_app_config (some c.app_name) (some c.license_key))))
    | inr refused ↦ rw refused g
  ]

  run_op-Guarded :
      (op : Op) (w : World S)
      → IsGuarded owner home 0 w
      → under_lock w op ≡ true
      → Guarded owner home 0 (run_op perform version env op w)
  unfolding run_op under_lock start_web_transaction start_non_web_transaction add_attribute_int
      add_attribute_long add_attribute_double add_attribute_string custom_event_add_attribute_int
      custom_event_add_attribute_long custom_event_add_attribute_double
      custom_event_add_attribute_string
  run_op-Guarded (configure_log_op f l) w g h =
      Guarded-drop owner home (configure_log perform f l w)
        (Calls.configure_log-Guarded perform version owner home w g f l)
  run_op-Guarded (init_op s l) w g h =
      Guarded-drop owner home (init perform s l w)
        (Calls.init-Guarded perform version owner home w g s l)
  run_op-Guarded shutdown_op w g h = Calls.shutdown-Guarded perform version owner home w g
  run_op-Guarded (create_app_op c l) w g h =
      Guarded-drop owner home (create_app perform version c l w) (create_app-Guarded c l w g)
  run_op-Guarded (destroy_app_op a) w g h =
      Guarded-drop owner home (destroy_app perform version a w)
        (Calls.destroy_app-Guarded perform version owner home w g a)
  run_op-Guarded (start_web_transaction_op a n) w g h = absurd (cc)
  run_op-Guarded (start_non_web_transaction_op a n) w g h = absurd (cc)
  run_op-Guarded (set_transaction_timing_op p a d) w g h =
      Guarded-drop owner home (set_transaction_timing perform p a d w)
        (Calls.set_transaction_timing-Guarded perform version owner home w g p a d)
  run_op-Guarded (end_transaction_op p) w g h =
      Guarded-drop owner home (end_transaction perform version p w)
        (Calls.end_transaction-Guarded perform version owner home w g p)
  run_op-Guarded (ignore_transaction_op p) w g h = absurd (cc)
  run_op-Guarded (set_transaction_name_op p n) w g h = absurd (cc)
  run_op-Guarded (start_segment_op p n c) w g h =
      Guarded-drop owner home (start_segment perform p n c w)
        (Calls.start_segment-Guarded perform version owner home w g at_home p n c)
  run_op-Guarded (set_segment_parent_op s q) w g h =
      Guarded-drop owner home (set_segment_parent perform s q w)
        (Calls.set_segment_parent-Guarded perform version owner home w g s q h)
  run_op-Guarded (set_segment_parent_root_op s) w g h =
      Guarded-drop owner home (set_segment_parent_root perform s w)
        (Calls.set_segment_parent_root-Guarded perform version owner home w g s h)
  run_op-Guarded (set_segment_timing_op s a d) w g h =
      Guarded-drop owner home (set_segment_timing perform s a d w)
        (Calls.set_segment_timing-Guarded perform version owner home w g s a d h)
  run_op-Guarded (end_segment_op p s) w g h =
      Guarded-drop owner home (end_segment perform p s w)
        (Endings.end_segment-Guarded perform version owner home w g p s)
  run_op-Guarded (start_datastore_segment_op p d) w g h =
      Guarded-drop owner home (start_datastore_segment perform env p d w)
        (Calls.start_datastore_segment-Guarded perform version owner home w g at_home env p d)
  run_op-Guarded (start_external_segment_op p e) w g h =
      Guarded-drop owner home (start_external_segment perform p e w)
        (Calls.start_external_segment-Guarded perform version owner home w g at_home p e)
  run_op-Guarded (add_attribute_int_op p k v) w g h =
      Guarded-drop owner home (add_attribute_int perform p k v w)
        (Calls.add_attribute-Guarded perform version owner home w g p k (some (int_value v)))
  run_op-Guarded (add_attribute_long_op p k v) w g h =
      Guarded-drop owner home (add_attribute_long perform p k v w)
        (Calls.add_attribute-Guarded perform version owner home w g p k (some (long_value v)))
  run_op-Guarded (add_attribute_double_op p k v) w g h =
      Guarded-drop owner home (add_attribute_double perform p k v w)
        (Calls.add_attribute-Guarded perform version owner home w g p k (some (double_value v)))
  run_op-Guarded (add_attribute_string_op p k none) w g h = g
  run_op-Guarded (add_attribute_string_op p k (some v)) w g h =
      Guarded-drop owner home (add_attribute_string perform p k (some v) w)
        (Calls.add_attribute-Guarded perform version owner home w g p k (some (string_value v)))
  run_op-Guarded (record_custom_metric_op p n m) w g h =
      Guarded-drop owner home (record_custom_metric perform p n m w)
        (Calls.record_custom_metric-Guarded perform version owner home w g p n m)
  run_op-Guarded (create_custom_event_op t) w g h =
      Guarded-drop owner home (create_custom_event perform t w)
        (Calls.create_custom_event-Guarded perform version owner home w g t)
  run_op-Guarded (discard_custom_event_op e) w g h =
      Guarded-drop owner home (discard_custom_event perform e w)
        (Calls.discard_custom_event-Guarded perform version owner home w g e)
  run_op-Guarded (record_custom_event_op p e) w g h =
      Guarded-drop owner home (record_custom_event perform p e w)
        (Calls.record_custom_event-Guarded perform version owner home w g p e)
  run_op-Guarded (custom_event_add_attribute_int_op e k v) w g h =
      Guarded-drop owner home (custom_event_add_attribute_int perform e k v w)
        (Calls.add_event_attribute-Guarded perform version owner home w g e k (int_value v))
  run_op-Guarded (custom_event_add_attribute_long_op e k v) w g h =
      Guarded-drop owner home (custom_event_add_attribute_long perform e k v w)
        (Calls.add_event_attribute-Guarded perform version owner home w g e k (long_value v))
  run_op-Guarded (custom_event_add_attribute_double_op e k v) w g h =
      Guarded-drop owner home (custom_event_add_attribute_double perform e k v w)
        (Calls.add_event_attribute-Guarded perform version owner home w g e k (double_value v))
  run_op-Guarded (custom_event_add_attribute_string_op e k v) w g h =
      Guarded-drop owner home (custom_event_add_attribute_string perform e k v w) (
        Calls.add_event_attribute-Guarded perform version owner home w g e k
          (string_value (text v)))
  run_op-Guarded (notice_error_op p n m c) w g h =
      Calls.notice_error-Guarded perform version owner home w g p n m c
  run_op-Guarded (create_payload_op p s) w g h =
      Guarded-drop owner home (create_distributed_trace_payload perform p s w)
        (Calls.create_distributed_trace_payload-Guarded perform version owner home w g p s)
  run_op-Guarded (create_payload_httpsafe_op p s) w g h =
      Guarded-drop owner home (create_distributed_trace_payload_httpsafe perform p s w)
        (Calls.create_distributed_trace_payload_httpsafe-Guarded perform version owner home w g p s)
  run_op-Guarded (accept_payload_op p d t) w g h =
      Guarded-drop owner home (accept_distributed_trace_payload perform p d t w)
        (Calls.accept_distributed_trace_payload-Guarded perform version owner home w g p d t)
  run_op-Guarded (accept_payload_httpsafe_op p d t) w g h =
      Guarded-drop owner home (accept_distributed_trace_payload_httpsafe perform p d t w) (
        Calls.accept_distributed_trace_payload_httpsafe-Guarded perform version owner home w g p d
          t)

  after_op :
      (ops : List Op) (m : Outcome S (Unit {0}))
      → Guarded owner home 0 m
      → (elim m as (λ _. Bool) [ ok a w ↦ abides perform version env ops w | fault e ↦ true ])
        ≡ true
      → ((w : World S)
          → IsGuarded owner home 0 w
          → abides perform version env ops w ≡ true
          → Guarded owner home 0 (run_ops perform version env ops w))
      → Guarded owner home 0 (elim m as (λ _. Outcome S (Unit {0})) [
        | ok a w ↦ run_ops perform version env ops w
        | fault e ↦ fault e
      ])
  after_op ops (ok a w) g h rest = rest w g h
  after_op ops (fault e) g h rest = tt

  pub run_ops-Guarded :
      (ops : List Op) (w : World S)
      → IsGuarded owner home 0 w
      → abides perform version env ops w ≡ true
      → Guarded owner home 0 (run_ops perform version env ops w)
  unfolding run_ops abides
  run_ops-Guarded [] w g h = g
  run_ops-Guarded (op ∷ ops) w g h =
      let (a, b) = both _ _ h in
      after_op ops (run_op perform version env op w) (run_op-Guarded op w g a) b
        (λ w' g' h'. run_ops-Guarded ops w' g' h')
