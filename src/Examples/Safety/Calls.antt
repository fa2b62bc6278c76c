-- ===== src/Examples/Safety/Calls.antt =====
-- Runs that leave no lock held: a rule for each call of the SDK, and one for two runs in a row.
use c_sdk.Base.{ℕ, true, Option, some, CStr, arith}
use c_sdk.Sdk.Config.{AppConfig, Created, null, overflow, created, text}
use c_sdk.Sdk.Machine.{
  Call, M, World, pure, ◌>>=◌, int_value, long_value, double_value, string_value,
}
use c_sdk.Sdk.Global.{configure_log, init}
use c_sdk.Sdk.App.{create_app, destroy_app}
use c_sdk.Sdk.Transaction.{start_web_transaction, set_transaction_timing, end_transaction}
use c_sdk.Sdk.Segment.{
  start_segment, set_segment_parent, set_segment_parent_root, set_segment_timing, end_segment,
}
use c_sdk.Sdk.Datastore.{DatastoreParams, Environment, start_datastore_segment}
use c_sdk.Sdk.External.{ExternalParams, start_external_segment}
use c_sdk.Sdk.Attribute.{add_attribute_int, record_custom_metric}
use c_sdk.Sdk.CustomEvent.{
  create_custom_event, record_custom_event, custom_event_add_attribute_int,
  custom_event_add_attribute_long, custom_event_add_attribute_double,
  custom_event_add_attribute_string,
}
use c_sdk.Sdk.Error.{notice_error}
use c_sdk.Sdk.DistributedTrace.{
  create_distributed_trace_payload_httpsafe, accept_distributed_trace_payload_httpsafe,
}
use c_sdk.Sdk.Api.Locks
use c_sdk.Sdk.Api.Locks.{Free, Safe, Safe-bind}
use c_sdk.Sdk.Api.Steps
use c_sdk.Examples.{Change, as_is, traced, distributed, change_config}

-- A run that is safe from every world where no lock is held.
pub record IsSafe {S A : Type 0} (m : M S A) : Type 0 where
  pub at : (w : World S) → Free w → Safe (m w)

module _ {S : Type 0} where
  pub pure-IsSafe : {A : Type 0} (a : A) → IsSafe {S = S} (pure a)
  pure-IsSafe a = record { at = λ w free. free }

  pub bind-IsSafe :
      {A B : Type 0} (m : M S A) (k : A → M S B)
      → IsSafe m
      → ((a : A) → IsSafe (k a))
      → IsSafe (m >>= k)
  bind-IsSafe m k h g = record {
    at = λ w free. Safe-bind (m w) k (h.at w free) (λ a w' free'. (g a).at w' free');
  }

  pub change_config-IsSafe :
      (change : Change) (c : Created) → IsSafe (change_config {S = S} change c)
  unfolding change_config
  change_config-IsSafe as_is null = record { at = λ w free. free }
  change_config-IsSafe traced null = record { at = λ w free. ground arith }
  change_config-IsSafe distributed null = record { at = λ w free. ground arith }
  change_config-IsSafe as_is overflow = record { at = λ w free. ground arith }
  change_config-IsSafe traced overflow = record { at = λ w free. ground arith }
  change_config-IsSafe distributed overflow = record { at = λ w free. ground arith }
  change_config-IsSafe as_is (created c) = record { at = λ w free. free }
  change_config-IsSafe traced (created c) = record { at = λ w free. free }
  change_config-IsSafe distributed (created c) = record { at = λ w free. free }

module _ {S : Type 0} (perform : Call → S → ℕ × S) (version : CStr) (env : Environment) where
  pub configure_log-IsSafe : (f : Option CStr) (l : ℕ) → IsSafe (configure_log perform f l)
  configure_log-IsSafe f l = record {
    at = λ w free. Locks.configure_log-Safe perform version env w free f l;
  }

  pub init-IsSafe : (s : Option CStr) (l : ℕ) → IsSafe (init perform s l)
  init-IsSafe s l = record { at = λ w free. Locks.init-Safe perform version env w free s l }

  pub create_app-IsSafe : (c : Option AppConfig) (l : ℕ) → IsSafe (create_app perform version c l)
  create_app-IsSafe c l = record {
    at = λ w free. Steps.create_app-Safe perform version env w free c l;
  }

  pub destroy_app-IsSafe : (a : Option ℕ) → IsSafe (destroy_app perform version a)
  destroy_app-IsSafe a = record {
    at = λ w free. Locks.destroy_app-Safe perform version env w free a;
  }

  pub start_web_transaction-IsSafe :
      (a : ℕ) (n : Option CStr) → IsSafe (start_web_transaction perform a n)
  unfolding start_web_transaction
  start_web_transaction-IsSafe a n = record {
    at = λ w free. Locks.start_transaction-Safe perform version env w free a n true;
  }

  pub set_transaction_timing-IsSafe : (p a d : ℕ) → IsSafe (set_transaction_timing perform p a d)
  set_transaction_timing-IsSafe p a d = record {
    at = λ w free. Locks.set_transaction_timing-Safe perform version env w free p a d;
  }

  pub end_transaction-IsSafe : (p : Option ℕ) → IsSafe (end_transaction perform version p)
  end_transaction-IsSafe p = record {
    at = λ w free. Locks.end_transaction-Safe perform version env w free p;
  }

  pub start_segment-IsSafe : (p : ℕ) (n c : Option CStr) → IsSafe (start_segment perform p n c)
  start_segment-IsSafe p n c = record {
    at = λ w free. Locks.start_segment-Safe perform version env w free p n c;
  }

  pub set_segment_parent-IsSafe : (s q : ℕ) → IsSafe (set_segment_parent perform s q)
  set_segment_parent-IsSafe s q = record {
    at = λ w free. Locks.set_segment_parent-Safe perform version env w free s q;
  }

  pub set_segment_parent_root-IsSafe : (s : ℕ) → IsSafe (set_segment_parent_root perform s)
  set_segment_parent_root-IsSafe s = record {
    at = λ w free. Locks.set_segment_parent_root-Safe perform version env w free s;
  }

  pub set_segment_timing-IsSafe : (s a d : ℕ) → IsSafe (set_segment_timing perform s a d)
  set_segment_timing-IsSafe s a d = record {
    at = λ w free. Locks.set_segment_timing-Safe perform version env w free s a d;
  }

  pub end_segment-IsSafe : (p : ℕ) (s : Option ℕ) → IsSafe (end_segment perform p s)
  end_segment-IsSafe p s = record {
    at = λ w free. Steps.end_segment-Safe perform version env w free p s;
  }

  pub start_datastore_segment-IsSafe :
      (p : ℕ) (d : Option DatastoreParams) → IsSafe (start_datastore_segment perform env p d)
  start_datastore_segment-IsSafe p d = record {
    at = λ w free. Locks.start_datastore_segment-Safe perform version env w free p d;
  }

  pub start_external_segment-IsSafe :
      (p : ℕ) (e : Option ExternalParams) → IsSafe (start_external_segment perform p e)
  start_external_segment-IsSafe p e = record {
    at = λ w free. Locks.start_external_segment-Safe perform version env w free p e;
  }

  pub add_attribute_int-IsSafe :
      (p : ℕ) (k : Option CStr) (v : ℕ) → IsSafe (add_attribute_int perform p k v)
  unfolding add_attribute_int
  add_attribute_int-IsSafe p k v = record {
    at = λ w free. Locks.add_attribute-Safe perform version env w free p k (some (int_value v));
  }

  pub record_custom_metric-IsSafe :
      (p : ℕ) (n : Option CStr) (m : ℕ) → IsSafe (record_custom_metric perform p n m)
  record_custom_metric-IsSafe p n m = record {
    at = λ w free. Locks.record_custom_metric-Safe perform version env w free p n m;
  }

  pub create_custom_event-IsSafe : (t : Option CStr) → IsSafe (create_custom_event perform t)
  create_custom_event-IsSafe t = record {
    at = λ w free. Locks.create_custom_event-Safe perform version env w free t;
  }

  pub record_custom_event-IsSafe : (p : ℕ) (e : Option ℕ) → IsSafe (record_custom_event perform p e)
  record_custom_event-IsSafe p e = record {
    at = λ w free. Locks.record_custom_event-Safe perform version env w free p e;
  }

  pub custom_event_add_attribute_int-IsSafe :
      (e : ℕ) (k : Option CStr) (v : ℕ) → IsSafe (custom_event_add_attribute_int perform e k v)
  unfolding custom_event_add_attribute_int
  custom_event_add_attribute_int-IsSafe e k v = record {
    at = λ w free. Locks.add_event_attribute-Safe perform version env w free e k (int_value v);
  }

  pub custom_event_add_attribute_long-IsSafe :
      (e : ℕ) (k : Option CStr) (v : ℕ) → IsSafe (custom_event_add_attribute_long perform e k v)
  unfolding custom_event_add_attribute_long
  custom_event_add_attribute_long-IsSafe e k v = record {
    at = λ w free. Locks.add_event_attribute-Safe perform version env w free e k (long_value v);
  }

  pub custom_event_add_attribute_double-IsSafe :
      (e : ℕ) (k : Option CStr) (v : ℕ) → IsSafe (custom_event_add_attribute_double perform e k v)
  unfolding custom_event_add_attribute_double
  custom_event_add_attribute_double-IsSafe e k v = record {
    at = λ w free. Locks.add_event_attribute-Safe perform version env w free e k (double_value v);
  }

  pub custom_event_add_attribute_string-IsSafe :
      (e : ℕ) (k v : Option CStr) → IsSafe (custom_event_add_attribute_string perform e k v)
  unfolding custom_event_add_attribute_string
  custom_event_add_attribute_string-IsSafe e k v = record {
    at = λ w free.
        Locks.add_event_attribute-Safe perform version env w free e k (string_value (text v));
  }

  pub notice_error-IsSafe : (p n : ℕ) (m c : Option CStr) → IsSafe (notice_error perform p n m c)
  notice_error-IsSafe p n m c = record {
    at = λ w free. Locks.notice_error-Safe perform version env w free p n m c;
  }

  pub create_distributed_trace_payload_httpsafe-IsSafe :
      (p s : ℕ) → IsSafe (create_distributed_trace_payload_httpsafe perform p s)
  create_distributed_trace_payload_httpsafe-IsSafe p s = record {
    at = λ w free.
        Locks.create_distributed_trace_payload_httpsafe-Safe perform version env w free p s;
  }

  pub accept_distributed_trace_payload_httpsafe-IsSafe :
      (p : ℕ) (d t : Option CStr) → IsSafe (accept_distributed_trace_payload_httpsafe perform p d t)
  accept_distributed_trace_payload_httpsafe-IsSafe p d t = record {
    at = λ w free.
        Locks.accept_distributed_trace_payload_httpsafe-Safe perform version env w free p d t;
  }

  pub ruleset safe_calls = (
    pure-IsSafe, bind-IsSafe, change_config-IsSafe, configure_log-IsSafe, init-IsSafe,
    create_app-IsSafe, destroy_app-IsSafe, start_web_transaction-IsSafe,
    set_transaction_timing-IsSafe, end_transaction-IsSafe, start_segment-IsSafe,
    set_segment_parent-IsSafe, set_segment_parent_root-IsSafe, set_segment_timing-IsSafe,
    end_segment-IsSafe, start_datastore_segment-IsSafe, start_external_segment-IsSafe,
    add_attribute_int-IsSafe, record_custom_metric-IsSafe, create_custom_event-IsSafe,
    record_custom_event-IsSafe, custom_event_add_attribute_int-IsSafe,
    custom_event_add_attribute_long-IsSafe, custom_event_add_attribute_double-IsSafe,
    custom_event_add_attribute_string-IsSafe, notice_error-IsSafe,
    create_distributed_trace_payload_httpsafe-IsSafe,
    accept_distributed_trace_payload_httpsafe-IsSafe,
  )
