-- ===== src/Sdk/Config/Laws.antt =====
-- What the conversion of a configuration into transaction options keeps.
use c_sdk.Base.{
  ℕ, ◌<◌, ◌≡◌, refl, ◌^◌, ◌↔◌, ◌≤◌, Option, none, some, arith, CStr, ◌⊎◌, ◌==◌, if◌then◌else◌,
}
use c_sdk.Sdk.Config.{
  AppConfig, TransactionTracer, TxnOptions, RecordSql, overflow, created, none_recorded,
  raw_recorded, obfuscated_recorded, license_size, array_size, validate_recordsql,
  create_app_config, get_transaction_options, threshold_is_apdex_failing, default_config, strlen,
  strxcpy,
}

-- The public setting that an option stands for.
setting_of : RecordSql → ℕ
setting_of none_recorded = 0
setting_of raw_recorded = 1
setting_of obfuscated_recorded = 2

-- The settings read back out of transaction options.
pub tracer_of : TxnOptions → TransactionTracer
unfolding setting_of
tracer_of o = record {
  enabled = o.tt_enabled;
  threshold = if o.tt_is_apdex_f then 0 else 1;
  duration_us = o.tt_threshold;
  stack_trace_threshold_us = o.ss_threshold;
  datastore_reporting = record {
    enabled = o.tt_slowsql;
    record_sql = setting_of o.tt_recordsql;
    threshold_us = o.ep_threshold;
  };
}

-- A tracer configuration within the types of its fields: the enumerations hold a declared value,
-- and the times are 64-bit words.
pub record IsDeclared (t : TransactionTracer) : Type 0 where
  pub sql : t.datastore_reporting.record_sql < 3
  pub threshold : t.threshold < 2
  pub query_time : t.datastore_reporting.threshold_us < 2 ^ 64
  pub trace_time : t.stack_trace_threshold_us < 2 ^ 64

-- The tracer without the duration of a threshold that is not one of duration.
abbrev pub kept_tracer : TransactionTracer → TransactionTracer
kept_tracer t = record t {
  duration_us = if t.threshold == threshold_is_apdex_failing then 0 else t.duration_us;
}

setting_of-validate_recordsql : (n : ℕ) → n < 3 → setting_of (validate_recordsql n) ≡ n
unfolding setting_of validate_recordsql
setting_of-validate_recordsql n h = ground arith

-- A transaction tracer configuration whose enumerations hold declared values and whose times are
-- 64-bit words can be read back from the transaction options, but for the duration: where the
-- threshold is the apdex one, the duration is dropped, and 0 is read back. With a duration threshold
-- no setting is lost, and none is confused with another.
pub tracer_of-get_transaction_options :
    (c : AppConfig)
    → IsDeclared c.transaction_tracer
    → tracer_of (get_transaction_options (some c)) ≡ kept_tracer c.transaction_tracer
unfolding tracer_of get_transaction_options
tracer_of-get_transaction_options c d =
    ground
      (arith, setting_of-validate_recordsql c.transaction_tracer.datastore_reporting.record_sql)

-- A configuration that `newrelic_create_app_config` makes stands for the default options, whatever
-- the name and the key.
pub get_transaction_options-create_app_config :
    (name key : Option CStr) {c : AppConfig}
    → create_app_config name key ≡ created c
    → get_transaction_options (some c) ≡ get_transaction_options none
unfolding create_app_config get_transaction_options
get_transaction_options-create_app_config none key h = ground arith
get_transaction_options-create_app_config (some n) key h = ground arith

-- The arguments that `newrelic_create_app_config` takes.
pub record Accepts (name key : Option CStr) : Type 0 where
  pub app_name : CStr
  pub license_key : CStr
  pub has_name : name ≡ some app_name
  pub has_key : key ≡ some license_key
  pub key_size : strlen key ≡ license_size

-- The length of a name is an int of 32 bits. `newrelic_create_app_config` returns a configuration
-- exactly when a name and a key are given, the length of the key is 40 in 32 bits, and that of the
-- name is below 255, or negative. It writes past the array exactly when they are given so and
-- the length of the name is 255 or more.
pub create_app_config_iff :
    (name key : Option CStr)
    → (((c : AppConfig) × (create_app_config name key ≡ created c))
        ↔ (Accepts name key × ((strlen name < array_size) ⊎ (2 ^ 31 ≤ strlen name))))
      × ((create_app_config name key ≡ overflow)
          ↔ (Accepts name key × (array_size ≤ strlen name) × (strlen name < 2 ^ 31)))
unfolding create_app_config default_config
create_app_config_iff none key =
    ((λ h. ground arith, λ h. ground arith), (λ h. ground arith, λ h. ground arith))
create_app_config_iff (some n) none =
    ((λ h. ground arith, λ h. ground arith), (λ h. ground arith, λ h. ground arith))
create_app_config_iff (some n) (some k) = (
  (
    λ h. (accepts (ground arith), ground arith),
    λ h. (default_config (strxcpy n) (strxcpy k), ground arith),
  ),
  (λ h. (accepts (ground arith), ground arith, ground arith), λ h. ground arith),
)
  where
    accepts : strlen (some k) ≡ license_size → Accepts (some n) (some k)
    accepts e = record {
      app_name = n;
      license_key = k;
      has_name = refl;
      has_key = refl;
      key_size = e;
    }
