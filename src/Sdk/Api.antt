-- ===== src/Sdk/Api.antt =====
-- The public functions of include/libnewrelic.h as one alphabet of operations, so that a program's
-- calls are a list of them. The result of a call is dropped here: the pointers that a program
-- passes are arbitrary.
pub mod Locks
pub mod Steps
pub mod Clients
pub mod Discipline
pub mod Threads
use c_sdk.Base.{ℕ, Bool, Option, List, [], ◌∷◌, CStr}
use c_sdk.Sdk.Config.{AppConfig}
use c_sdk.Sdk.Machine.{Call, M, pure, ◌>>=◌, ◌>>◌}
use c_sdk.Sdk.Global.{configure_log, init, shutdown}
use c_sdk.Sdk.App.{create_app, destroy_app}
use c_sdk.Sdk.Transaction.{
  start_web_transaction, start_non_web_transaction, set_transaction_timing, end_transaction,
  ignore_transaction, set_transaction_name,
}
use c_sdk.Sdk.Segment.{
  start_segment, set_segment_parent, set_segment_parent_root, set_segment_timing, end_segment,
}
use c_sdk.Sdk.Datastore.{DatastoreParams, Environment, start_datastore_segment}
use c_sdk.Sdk.External.{ExternalParams, start_external_segment}
use c_sdk.Sdk.Attribute.{
  add_attribute_int, add_attribute_long, add_attribute_double, add_attribute_string,
  record_custom_metric,
}
use c_sdk.Sdk.CustomEvent.{
  create_custom_event, discard_custom_event, record_custom_event, custom_event_add_attribute_int,
  custom_event_add_attribute_long, custom_event_add_attribute_double,
  custom_event_add_attribute_string,
}
use c_sdk.Sdk.Error.{notice_error}
use c_sdk.Sdk.DistributedTrace.{
  create_distributed_trace_payload, create_distributed_trace_payload_httpsafe,
  accept_distributed_trace_payload, accept_distributed_trace_payload_httpsafe,
}

pub data Op : Type 0 where
  configure_log_op : Option CStr → ℕ → Op
  init_op : Option CStr → ℕ → Op
  shutdown_op : Op
  create_app_op : Option AppConfig → ℕ → Op
  destroy_app_op : Option ℕ → Op
  start_web_transaction_op : ℕ → Option CStr → Op
  start_non_web_transaction_op : ℕ → Option CStr → Op
  set_transaction_timing_op : ℕ → ℕ → ℕ → Op
  end_transaction_op : Option ℕ → Op
  ignore_transaction_op : ℕ → Op
  set_transaction_name_op : ℕ → Option CStr → Op
  start_segment_op : ℕ → Option CStr → Option CStr → Op
  set_segment_parent_op : ℕ → ℕ → Op
  set_segment_parent_root_op : ℕ → Op
  set_segment_timing_op : ℕ → ℕ → ℕ → Op
  end_segment_op : ℕ → Option ℕ → Op
  start_datastore_segment_op : ℕ → Option DatastoreParams → Op
  start_external_segment_op : ℕ → Option ExternalParams → Op
  add_attribute_int_op : ℕ → Option CStr → ℕ → Op
  add_attribute_long_op : ℕ → Option CStr → ℕ → Op
  add_attribute_double_op : ℕ → Option CStr → ℕ → Op
  add_attribute_string_op : ℕ → Option CStr → Option CStr → Op
  record_custom_metric_op : ℕ → Option CStr → ℕ → Op
  create_custom_event_op : Option CStr → Op
  discard_custom_event_op : Option ℕ → Op
  record_custom_event_op : ℕ → Option ℕ → Op
  custom_event_add_attribute_int_op : ℕ → Option CStr → ℕ → Op
  custom_event_add_attribute_long_op : ℕ → Option CStr → ℕ → Op
  custom_event_add_attribute_double_op : ℕ → Option CStr → ℕ → Op
  custom_event_add_attribute_string_op : ℕ → Option CStr → Option CStr → Op
  notice_error_op : ℕ → ℕ → Option CStr → Option CStr → Op
  create_payload_op : ℕ → ℕ → Op
  create_payload_httpsafe_op : ℕ → ℕ → Op
  accept_payload_op : ℕ → Option CStr → Option CStr → Op
  accept_payload_httpsafe_op : ℕ → Option CStr → Option CStr → Op

-- The version is a macro of the build; the environment is that of `Datastore`.
module _ {S : Type 0} (perform : Call → S → ℕ × S) (version : CStr) (env : Environment) where
  unfoldable pub run_op : Op → M S (Unit {0})
  run_op (configure_log_op f l) = configure_log perform f l >> pure tt
  run_op (init_op s l) = init perform s l >> pure tt
  run_op shutdown_op = shutdown perform
  run_op (create_app_op c l) = create_app perform version c l >> pure tt
  run_op (destroy_app_op a) = destroy_app perform version a >> pure tt
  run_op (start_web_transaction_op a n) = start_web_transaction perform a n >> pure tt
  run_op (start_non_web_transaction_op a n) = start_non_web_transaction perform a n >> pure tt
  run_op (set_transaction_timing_op p a d) = set_transaction_timing perform p a d >> pure tt
  run_op (end_transaction_op p) = end_transaction perform version p >> pure tt
  run_op (ignore_transaction_op p) = ignore_transaction perform p >> pure tt
  run_op (set_transaction_name_op p n) = set_transaction_name perform p n >> pure tt
  run_op (start_segment_op p n c) = start_segment perform p n c >> pure tt
  run_op (set_segment_parent_op s q) = set_segment_parent perform s q >> pure tt
  run_op (set_segment_parent_root_op s) = set_segment_parent_root perform s >> pure tt
  run_op (set_segment_timing_op s a d) = set_segment_timing perform s a d >> pure tt
  run_op (end_segment_op p s) = end_segment perform p s >> pure tt
  run_op (start_datastore_segment_op p d) = start_datastore_segment perform env p d >> pure tt
  run_op (start_external_segment_op p e) = start_external_segment perform p e >> pure tt
  run_op (add_attribute_int_op p k v) = add_attribute_int perform p k v >> pure tt
  run_op (add_attribute_long_op p k v) = add_attribute_long perform p k v >> pure tt
  run_op (add_attribute_double_op p k v) = add_attribute_double perform p k v >> pure tt
  run_op (add_attribute_string_op p k v) = add_attribute_string perform p k v >> pure tt
  run_op (record_custom_metric_op p n m) = record_custom_metric perform p n m >> pure tt
  run_op (create_custom_event_op t) = create_custom_event perform t >> pure tt
  run_op (discard_custom_event_op e) = discard_custom_event perform e >> pure tt
  run_op (record_custom_event_op p e) = record_custom_event perform p e >> pure tt
  run_op (custom_event_add_attribute_int_op e k v) =
      custom_event_add_attribute_int perform e k v >> pure tt
  run_op (custom_event_add_attribute_long_op e k v) =
      custom_event_add_attribute_long perform e k v >> pure tt
  run_op (custom_event_add_attribute_double_op e k v) =
      custom_event_add_attribute_double perform e k v >> pure tt
  run_op (custom_event_add_attribute_string_op e k v) =
      custom_event_add_attribute_string perform e k v >> pure tt
  run_op (notice_error_op p n m c) = notice_error perform p n m c
  run_op (create_payload_op p s) = create_distributed_trace_payload perform p s >> pure tt
  run_op (create_payload_httpsafe_op p s) =
      create_distributed_trace_payload_httpsafe perform p s >> pure tt
  run_op (accept_payload_op p d t) = accept_distributed_trace_payload perform p d t >> pure tt
  run_op (accept_payload_httpsafe_op p d t) =
      accept_distributed_trace_payload_httpsafe perform p d t >> pure tt

  unfoldable pub run_ops : List Op → M S (Unit {0})
  unfolding run_op
  run_ops [] = pure tt
  run_ops (op ∷ ops) = run_op op >> run_ops ops
