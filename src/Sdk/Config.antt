-- ===== src/Sdk/Config.antt =====
-- src/config.c: the public configuration of an application (include/libnewrelic.h), and the
-- transaction options of axiom (vendor/newrelic/axiom/nr_txn.h) that it is turned into.
pub mod Laws
use c_sdk.Base.{
  ℕ, ◌+◌, ◌*◌, ◌%◌, ◌^◌, ◌<◌, ◌≡◌, Bool, true, false, not, ◌||◌, Option, none, some, ltb, leb, ◌==◌,
  if◌then◌else◌, length, take, take-length, CStr, [], arith,
}

-- `newrelic_tt_recordsql_t` and `newrelic_transaction_tracer_threshold_t`: a C enumeration may
-- hold any value, so a setting is a number.
abbrev pub sql_off : ℕ
sql_off = 0

abbrev pub sql_raw : ℕ
sql_raw = 1

abbrev pub sql_obfuscated : ℕ
sql_obfuscated = 2

abbrev pub threshold_is_apdex_failing : ℕ
threshold_is_apdex_failing = 0

abbrev pub threshold_is_over_duration : ℕ
threshold_is_over_duration = 1

pub record DatastoreReporting : Type 0 where
  pub enabled : Bool
  pub record_sql : ℕ
  pub threshold_us : ℕ

pub record TransactionTracer : Type 0 where
  pub enabled : Bool
  pub threshold : ℕ
  pub duration_us : ℕ
  pub stack_trace_threshold_us : ℕ
  pub datastore_reporting : DatastoreReporting

pub record DatastoreTracer : Type 0 where
  pub instance_reporting : Bool
  pub database_name_reporting : Bool

-- `newrelic_app_config_t`. The character arrays hold the bytes before the first NUL.
pub record AppConfig : Type 0 where
  pub app_name : CStr
  pub license_key : CStr
  pub redirect_collector : CStr
  pub transaction_tracer : TransactionTracer
  pub datastore_tracer : DatastoreTracer
  pub distributed_tracing_enabled : Bool
  pub span_events_enabled : Bool

-- `nr_tt_recordsql_t`
pub data RecordSql : Type 0 where
  none_recorded raw_recorded obfuscated_recorded : RecordSql

-- `nrtxnopt_t`. The `int` flags are only ever given truth values.
pub record TxnOptions : Type 0 where
  pub custom_events_enabled : Bool
  pub synthetics_enabled : Bool
  pub instance_reporting_enabled : Bool
  pub database_name_reporting_enabled : Bool
  pub err_enabled : Bool
  pub request_params_enabled : Bool
  pub autorum_enabled : Bool
  pub analytics_events_enabled : Bool
  pub error_events_enabled : Bool
  pub tt_enabled : Bool
  pub ep_enabled : Bool
  pub tt_recordsql : RecordSql
  pub tt_slowsql : Bool
  pub apdex_t : ℕ
  pub tt_threshold : ℕ
  pub tt_is_apdex_f : Bool
  pub ep_threshold : ℕ
  pub ss_threshold : ℕ
  pub cross_process_enabled : Bool
  pub allow_raw_exception_messages : Bool
  pub custom_parameters_enabled : Bool
  pub distributed_tracing_enabled : Bool
  pub span_events_enabled : Bool
  pub max_span_events : ℕ
  pub discount_main_context_blocking : Bool

unfoldable pub validate_recordsql : ℕ → RecordSql
validate_recordsql setting =
    if setting == sql_off
    then none_recorded
    else if setting == sql_raw
    then raw_recorded
    else if setting == sql_obfuscated
    then obfuscated_recorded
    else obfuscated_recorded

-- `sizeof` of the arrays `app_name` and `license_key`
abbrev pub array_size : ℕ
array_size = 255

-- `NR_LICENSE_SIZE`
abbrev pub license_size : ℕ
license_size = 40

-- The outcome of `newrelic_create_app_config`: NULL, a write past the end of `app_name`, or the
-- configuration.
pub data Created : Type 0 where
  null : Created
  overflow : Created
  created : AppConfig → Created

-- `nr_strlen`, which takes NULL for an empty string. The result is an int, here by its 32 bits: it is
-- negative from 2 ^ 31 on.
abbrev pub strlen : Option CStr → ℕ
strlen none = 0
strlen (some s) = length s % 2 ^ 32

-- What `nr_strxcpy` leaves of a string that is copied with the length that nr_strlen gives: nothing
-- where that is not positive.
unfoldable pub strxcpy : CStr → CStr
strxcpy s = if ltb (strlen (some s)) (2 ^ 31) then take (strlen (some s)) s else []

-- A string shorter than 2 ^ 31 bytes is copied whole.
pub strxcpy-short : (s : CStr) → length s < 2 ^ 31 → strxcpy s ≡ s
unfolding strxcpy
strxcpy-short s h =
    let positive : ltb (strlen (some s)) (2 ^ 31) ≡ true = ground arith in
    let same : strlen (some s) ≡ length s = ground arith in rw (positive, same) (take-length s)

-- The bytes of a string that may be NULL.
abbrev pub text : Option CStr → CStr
text none = []
text (some s) = s

unfoldable default_tracer : TransactionTracer
default_tracer = record {
  enabled = true;
  threshold = threshold_is_apdex_failing;
  duration_us = 0;
  stack_trace_threshold_us = 500000;
  datastore_reporting = record {
    enabled = true;
    record_sql = sql_obfuscated;
    threshold_us = 500000;
  };
}

unfoldable pub default_config : CStr → CStr → AppConfig
unfolding default_tracer
default_config app_name license_key = record {
  app_name = app_name;
  license_key = license_key;
  redirect_collector = [];
  transaction_tracer = default_tracer;
  datastore_tracer = record { instance_reporting = true; database_name_reporting = true };
  distributed_tracing_enabled = false;
  span_events_enabled = true;
}

-- Whether the copy of a string with its NUL stays in an array of 255 bytes.
abbrev pub fits_array : CStr → Bool
fits_array s = ltb (strlen (some s)) array_size || leb (2 ^ 31) (strlen (some s))

-- `nr_strxcpy` writes the bytes and a NUL, so a name whose length is 255 or more runs over the array.
-- The 40 bytes of a key fit.
unfoldable pub create_app_config : Option CStr → Option CStr → Created
unfolding default_config strxcpy
create_app_config none license_key = null
create_app_config (some app_name) license_key =
    if not (strlen license_key == license_size)
    then null
    else if not (fits_array app_name)
    then overflow
    else created (default_config (strxcpy app_name) (strxcpy (text license_key)))

-- The outer `none` is a NULL argument, the inner one a NULL pointer that it leads to. What is left of
-- the pointer comes with the status.
unfoldable pub destroy_app_config : Option (Option AppConfig) → Bool × Option (Option AppConfig)
destroy_app_config none = (false, none)
destroy_app_config (some none) = (false, some none)
destroy_app_config (some (some config)) = (true, some none)

unfoldable pub get_default_options : TxnOptions
get_default_options = record {
  analytics_events_enabled = true;
  custom_events_enabled = true;
  synthetics_enabled = false;
  instance_reporting_enabled = true;
  database_name_reporting_enabled = true;
  err_enabled = true;
  request_params_enabled = false;
  autorum_enabled = false;
  error_events_enabled = true;
  tt_enabled = true;
  ep_enabled = false;
  tt_recordsql = obfuscated_recorded;
  tt_slowsql = true;
  apdex_t = 0;
  tt_threshold = 0;
  ep_threshold = 500 * 1000;
  ss_threshold = 500 * 1000;
  cross_process_enabled = false;
  tt_is_apdex_f = true;
  allow_raw_exception_messages = true;
  custom_parameters_enabled = true;
  distributed_tracing_enabled = false;
  span_events_enabled = true;
  max_span_events = 0;
  discount_main_context_blocking = false;
}

-- The tracer's threshold: an apdex threshold leaves `tt_threshold` at its default.
with_threshold : TransactionTracer → TxnOptions → TxnOptions
with_threshold t opt =
    if t.threshold == threshold_is_apdex_failing
    then record opt { tt_is_apdex_f = true }
    else record opt { tt_is_apdex_f = false; tt_threshold = t.duration_us }

unfoldable pub get_transaction_options : Option AppConfig → TxnOptions
unfolding with_threshold validate_recordsql get_default_options
get_transaction_options none = get_default_options
get_transaction_options (some c) = with_threshold c.transaction_tracer (record get_default_options {
  instance_reporting_enabled = c.datastore_tracer.instance_reporting;
  database_name_reporting_enabled = c.datastore_tracer.database_name_reporting;
  tt_enabled = c.transaction_tracer.enabled;
  tt_recordsql = validate_recordsql c.transaction_tracer.datastore_reporting.record_sql;
  tt_slowsql = c.transaction_tracer.datastore_reporting.enabled;
  ep_threshold = (c.transaction_tracer.datastore_reporting.threshold_us * 1) % 2 ^ 64;
  ss_threshold = (c.transaction_tracer.stack_trace_threshold_us * 1) % 2 ^ 64;
  distributed_tracing_enabled = c.distributed_tracing_enabled;
  span_events_enabled = c.span_events_enabled;
})
