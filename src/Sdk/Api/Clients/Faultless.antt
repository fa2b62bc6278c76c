-- ===== src/Sdk/Api/Clients/Faultless.antt =====
-- Any sequence of public calls of a program that passes live pointers.
use c_sdk.Base.{ℕ, ◌≡◌, Bool, true, false, none, some, List, [], ◌∷◌, CStr}
use c_sdk.Sdk.Config.{text}
use c_sdk.Sdk.Machine.{
  Call, World, Outcome, ok, fault, int_value, long_value, double_value, string_value, Ends,
}
use c_sdk.Sdk.Global.{configure_log, init}
use c_sdk.Sdk.App.{create_app, destroy_app}
use c_sdk.Sdk.Transaction.{
  start_web_transaction, start_non_web_transaction, set_transaction_timing, end_transaction,
  ignore_transaction, set_transaction_name,
}
use c_sdk.Sdk.Segment.{
  start_segment, set_segment_parent, set_segment_parent_root, set_segment_timing, end_segment,
}
use c_sdk.Sdk.Datastore.{Environment, start_datastore_segment}
use c_sdk.Sdk.External.{start_external_segment}
use c_sdk.Sdk.Attribute.{
  add_attribute_int, add_attribute_long, add_attribute_double, add_attribute_string,
  record_custom_metric,
}
use c_sdk.Sdk.CustomEvent.{
  create_custom_event, discard_custom_event, record_custom_event, custom_event_add_attribute_int,
  custom_event_add_attribute_long, custom_event_add_attribute_double,
  custom_event_add_attribute_string,
}
use c_sdk.Sdk.DistributedTrace.{
  create_distributed_trace_payload, create_distributed_trace_payload_httpsafe,
  accept_distributed_trace_payload, accept_distributed_trace_payload_httpsafe,
}
use c_sdk.Sdk.Api.{
  Op, configure_log_op, init_op, shutdown_op, create_app_op, destroy_app_op,
  start_web_transaction_op, start_non_web_transaction_op, set_transaction_timing_op,
  end_transaction_op, ignore_transaction_op, set_transaction_name_op, start_segment_op,
  set_segment_parent_op, set_segment_parent_root_op, set_segment_timing_op, end_segment_op,
  start_datastore_segment_op, start_external_segment_op, add_attribute_int_op,
  add_attribute_long_op, add_attribute_double_op, add_attribute_string_op, record_custom_metric_op,
  create_custom_event_op, discard_custom_event_op, record_custom_event_op,
  custom_event_add_attribute_int_op, custom_event_add_attribute_long_op,
  custom_event_add_attribute_double_op, custom_event_add_attribute_string_op, notice_error_op,
  create_payload_op, create_payload_httpsafe_op, accept_payload_op, accept_payload_httpsafe_op,
  run_op, run_ops,
}
use c_sdk.Sdk.Api.Steps.{run_op-Safe}
use c_sdk.Sdk.Api.Clients.{Contract, Typed, may_call, obeys}
use c_sdk.Sdk.Api.Clients.Memory
use c_sdk.Sdk.Api.Clients.Memory.{Sound}
use c_sdk.Sdk.Api.Clients.Unions
use c_sdk.Sdk.Api.Clients.Endings
use c_sdk.Sdk.Api.Clients.Runs.{IsCoherent, both}
use c_sdk.Sdk.Api.Clients.Runs

module _ {S : Type 0} {perform : Call → S → ℕ × S} (contract : Contract perform) (version : CStr)
    (env : Environment) where
  run_op-Sound :
      (op : Op) (w : World S)
      → Typed contract w.axiom_state w.segments
      → may_call perform contract.over w op ≡ true
      → Sound contract (run_op perform version env op w)
  unfolding run_op may_call start_web_transaction start_non_web_transaction add_attribute_int
      add_attribute_long add_attribute_double add_attribute_string custom_event_add_attribute_int
      custom_event_add_attribute_long custom_event_add_attribute_double
      custom_event_add_attribute_string
  run_op-Sound (configure_log_op f l) w typed h =
      Runs.Sound-drop contract version env (configure_log perform f l w)
        (Memory.configure_log-Sound contract version w typed f l)
  run_op-Sound (init_op s l) w typed h =
      Runs.Sound-drop contract version env (init perform s l w)
        (Memory.init-Sound contract version w typed s l)
  run_op-Sound shutdown_op w typed h = Memory.shutdown-Sound contract version w typed
  run_op-Sound (create_app_op c l) w typed h =
      Runs.Sound-drop contract version env (create_app perform version c l w)
        (Runs.create_app-Sound contract version env c l w typed h)
  run_op-Sound (destroy_app_op a) w typed h =
      Runs.Sound-drop contract version env (destroy_app perform version a w)
        (Memory.destroy_app-Sound contract version w typed a h)
  run_op-Sound (start_web_transaction_op a n) w typed h =
      Runs.Sound-drop contract version env (start_web_transaction perform a n w)
        (Memory.start_transaction-Sound contract version w typed a n true h)
  run_op-Sound (start_non_web_transaction_op a n) w typed h =
      Runs.Sound-drop contract version env (start_non_web_transaction perform a n w)
        (Memory.start_transaction-Sound contract version w typed a n false h)
  run_op-Sound (set_transaction_timing_op p a d) w typed h =
      Runs.Sound-drop contract version env (set_transaction_timing perform p a d w)
        (Memory.set_transaction_timing-Sound contract version w typed p a d h)
  run_op-Sound (end_transaction_op p) w typed h =
      Runs.Sound-drop contract version env (end_transaction perform version p w)
        (Memory.end_transaction-Sound contract version w typed p h)
  run_op-Sound (ignore_transaction_op p) w typed h =
      Runs.Sound-drop contract version env (ignore_transaction perform p w)
        (Memory.ignore_transaction-Sound contract version w typed p h)
  run_op-Sound (set_transaction_name_op p n) w typed h =
      Runs.Sound-drop contract version env (set_transaction_name perform p n w)
        (Memory.set_transaction_name-Sound contract version w typed p n h)
  run_op-Sound (start_segment_op p n c) w typed h =
      Runs.Sound-drop contract version env (start_segment perform p n c w)
        (Unions.start_segment-Sound contract w typed p n c h)
  run_op-Sound (set_segment_parent_op s q) w typed h =
      let (a, b) = both _ _ h in
      Runs.Sound-drop contract version env (set_segment_parent perform s q w)
        (Memory.set_segment_parent-Sound contract version w typed s q a b)
  run_op-Sound (set_segment_parent_root_op s) w typed h =
      Runs.Sound-drop contract version env (set_segment_parent_root perform s w)
        (Memory.set_segment_parent_root-Sound contract version w typed s h)
  run_op-Sound (set_segment_timing_op s a d) w typed h =
      Runs.Sound-drop contract version env (set_segment_timing perform s a d w)
        (Memory.set_segment_timing-Sound contract version w typed s a d h)
  run_op-Sound (end_segment_op p s) w typed h =
      let (a, b) = both _ _ h in
      Runs.Sound-drop contract version env (end_segment perform p s w)
        (Endings.end_segment-Sound contract w typed p s a b)
  run_op-Sound (start_datastore_segment_op p d) w typed h =
      Runs.Sound-drop contract version env (start_datastore_segment perform env p d w)
        (Unions.start_datastore_segment-Sound contract w typed env p d h)
  run_op-Sound (start_external_segment_op p e) w typed h =
      Runs.Sound-drop contract version env (start_external_segment perform p e w)
        (Unions.start_external_segment-Sound contract w typed p e h)
  run_op-Sound (add_attribute_int_op p k v) w typed h =
      Runs.Sound-drop contract version env (add_attribute_int perform p k v w)
        (Memory.add_attribute-Sound contract version w typed p k (some (int_value v)) h)
  run_op-Sound (add_attribute_long_op p k v) w typed h =
      Runs.Sound-drop contract version env (add_attribute_long perform p k v w)
        (Memory.add_attribute-Sound contract version w typed p k (some (long_value v)) h)
  run_op-Sound (add_attribute_double_op p k v) w typed h =
      Runs.Sound-drop contract version env (add_attribute_double perform p k v w)
        (Memory.add_attribute-Sound contract version w typed p k (some (double_value v)) h)
  run_op-Sound (add_attribute_string_op p k none) w typed h = typed
  run_op-Sound (add_attribute_string_op p k (some v)) w typed h =
      Runs.Sound-drop contract version env (add_attribute_string perform p k (some v) w)
        (Memory.add_attribute-Sound contract version w typed p k (some (string_value v)) h)
  run_op-Sound (record_custom_metric_op p n m) w typed h =
      Runs.Sound-drop contract version env (record_custom_metric perform p n m w)
        (Memory.record_custom_metric-Sound contract version w typed p n m h)
  run_op-Sound (create_custom_event_op t) w typed h =
      Runs.Sound-drop contract version env (create_custom_event perform t w)
        (Memory.create_custom_event-Sound contract version w typed t)
  run_op-Sound (discard_custom_event_op e) w typed h =
      Runs.Sound-drop contract version env (discard_custom_event perform e w)
        (Memory.discard_custom_event-Sound contract version w typed e h)
  run_op-Sound (record_custom_event_op p e) w typed h =
      let (a, b) = both _ _ h in
      Runs.Sound-drop contract version env (record_custom_event perform p e w)
        (Memory.record_custom_event-Sound contract version w typed p e a b)
  run_op-Sound (custom_event_add_attribute_int_op e k v) w typed h =
      Runs.Sound-drop contract version env (custom_event_add_attribute_int perform e k v w)
        (Memory.add_event_attribute-Sound contract version w typed e k (int_value v) h)
  run_op-Sound (custom_event_add_attribute_long_op e k v) w typed h =
      Runs.Sound-drop contract version env (custom_event_add_attribute_long perform e k v w)
        (Memory.add_event_attribute-Sound contract version w typed e k (long_value v) h)
  run_op-Sound (custom_event_add_attribute_double_op e k v) w typed h =
      Runs.Sound-drop contract version env (custom_event_add_attribute_double perform e k v w)
        (Memory.add_event_attribute-Sound contract version w typed e k (double_value v) h)
  run_op-Sound (custom_event_add_attribute_string_op e k v) w typed h =
      Runs.Sound-drop contract version env (custom_event_add_attribute_string perform e k v w)
        (Memory.add_event_attribute-Sound contract version w typed e k (string_value (text v)) h)
  run_op-Sound (notice_error_op p n m c) w typed h =
      Memory.notice_error-Sound contract version w typed p n m c h
  run_op-Sound (create_payload_op p s) w typed h =
      let (a, b) = both _ _ h in
      Runs.Sound-drop contract version env (create_distributed_trace_payload perform p s w)
        (Memory.create_payload-Sound contract version w typed p s a b)
  run_op-Sound (create_payload_httpsafe_op p s) w typed h =
      let (a, b) = both _ _ h in
      Runs.Sound-drop contract version env (create_distributed_trace_payload_httpsafe perform p s w)
        (Memory.create_payload_httpsafe-Sound contract version w typed p s a b)
  run_op-Sound (accept_payload_op p d t) w typed h =
      Runs.Sound-drop contract version env (accept_distributed_trace_payload perform p d t w)
        (Memory.accept_payload-Sound contract version w typed p d t h)
  run_op-Sound (accept_payload_httpsafe_op p d t) w typed h =
      Runs.Sound-drop contract version env
        (accept_distributed_trace_payload_httpsafe perform p d t w)
        (Memory.accept_payload_httpsafe-Sound contract version w typed p d t h)

  pub run_op-IsCoherent :
      (op : Op) (w : World S)
      → IsCoherent contract w
      → may_call perform contract.over w op ≡ true
      → Ends (λ _ w'. IsCoherent contract w') (run_op perform version env op w)
  run_op-IsCoherent op w c h =
      Runs.Safe-Sound contract version env (run_op perform version env op w)
        (run_op-Safe perform version env op w c.free) (run_op-Sound op w c.typed h)

  after_op :
      (ops : List Op) (m : Outcome S (Unit {0}))
      → Ends (λ _ w. IsCoherent contract w) m
      → (elim m as (λ _. Bool) [
        | ok a w ↦ obeys perform contract.over version env ops w
        | fault e ↦ true
      ])
        ≡ true
      → ((w : World S)
          → IsCoherent contract w
          → obeys perform contract.over version env ops w ≡ true
          → Ends (λ _ w'. IsCoherent contract w') (run_ops perform version env ops w))
      → Ends
          (λ _ w'. IsCoherent contract w')
          (elim m as (λ _. Outcome S (Unit {0})) [
            | ok a w ↦ run_ops perform version env ops w
            | fault e ↦ fault e
          ])
  after_op ops (ok a w) c h rest = rest w c h
  after_op ops (fault e) c h rest = c

  -- A program whose calls pass NULL or pointers to live objects, on segments whose transaction has
  -- not ended, never faults: each of its calls returns, whatever else axiom answers. Axiom is to keep
  -- a segment and its type until the transaction of the segment is destroyed, to give out the
  -- addresses of new segments and transactions only once, to start custom segments, and to have a
  -- segment for each newrelic_start_segment. The names of applications are to fit their array. No
  -- dead object is read and no member of a union that was not written, no lock is taken twice or
  -- given back unheld, and at the end none is held.
  pub run_ops-IsCoherent :
      (ops : List Op) (w : World S)
      → IsCoherent contract w
      → obeys perform contract.over version env ops w ≡ true
      → Ends (λ _ w'. IsCoherent contract w') (run_ops perform version env ops w)
  unfolding run_ops obeys
  run_ops-IsCoherent [] w c h = c
  run_ops-IsCoherent (op ∷ ops) w c h =
      let (a, b) = both _ _ h in
      after_op ops (run_op perform version env op w) (run_op-IsCoherent op w c a) b
        (λ w' c' h'. run_ops-IsCoherent ops w' c' h')
