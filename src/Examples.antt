-- ===== src/Examples.antt =====
-- The example programs of examples/, and what they share (examples/common.c). Sleeping and printing
-- are left out; the environment of the process and the clock are given.
pub mod Setup
pub mod Programs
pub mod Safety
pub mod Tidy
mod Tests
use c_sdk.Base.{
  ℕ, ◌+◌, ◌*◌, ◌%◌, ◌^◌, Bool, true, false, not, Option, none, some, ltb, if◌then◌else◌, length,
  CStr, codes,
}
use c_sdk.Sdk.Config.{
  AppConfig, Created, null, overflow, created, threshold_is_over_duration, create_app_config,
}
use c_sdk.Sdk.Machine.{Call, M, fault, dangling, pure, ◌>>=◌, ◌>>◌}
use c_sdk.Sdk.Global.{configure_log, init, log_info}
use c_sdk.Sdk.App.{create_app}

-- `getenv` of NEW_RELIC_APP_NAME, NEW_RELIC_LICENSE_KEY and NEW_RELIC_HOST
pub record Variables : Type 0 where
  pub app_name : Option CStr
  pub license_key : Option CStr
  pub host : Option CStr

abbrev pub get_app_name : Variables → Option CStr
get_app_name v = v.app_name

abbrev pub get_license_key : Variables → Option CStr
get_license_key v = v.license_key

-- `sizeof` of the array `redirect_collector`
abbrev pub collector_size : ℕ
collector_size = 100

-- The copy of the host has no bound. A name that ran over its array before is no configuration.
unfoldable pub customize_config : Option CStr → Created → Bool × Created
customize_config host null = (false, null)
customize_config host overflow = (true, overflow)
customize_config none (created config) = (true, created config)
customize_config (some host) (created config) =
    if ltb (length host) collector_size
    then (true, created (record config { redirect_collector = host }))
    else (true, overflow)

-- The seconds and the microseconds that `gettimeofday` gives
unfoldable pub now_us : ℕ → ℕ → ℕ
now_us seconds microseconds = ((seconds * 1000000) % 2 ^ 64 + microseconds) % 2 ^ 64

-- What a program does to its configuration: nothing, or a threshold for the traces of
-- transactions, with distributed tracing or without.
pub data Change : Type 0 where
  as_is : Change
  traced : Change
  distributed : Change

abbrev pub over_duration : AppConfig → AppConfig
over_duration config = record config {
  transaction_tracer = record config.transaction_tracer {
    threshold = threshold_is_over_duration;
    duration_us = 1;
  };
}

-- The writes through the pointer: NULL, and an array that was run over, are faults.
unfoldable pub change_config : {S : Type 0} → Change → Created → M S (Option AppConfig)
change_config as_is null = pure none
change_config traced null = λ w. fault dangling
change_config distributed null = λ w. fault dangling
change_config change overflow = λ w. fault dangling
change_config as_is (created config) = pure (some config)
change_config traced (created config) = pure (some (over_duration config))
change_config distributed (created config) =
    pure (some (record (over_duration config) { distributed_tracing_enabled = true }))

module _ {S : Type 0} (perform : Call → S → ℕ × S) (version : CStr) where
  log_and_connect : Bool → M S Bool
  log_and_connect false = pure false
  log_and_connect true = init perform none 0

  unfoldable pub example_init : M S Bool
  unfolding log_and_connect
  example_init = do
    configured ← configure_log perform (some (codes "./c_sdk.log")) log_info
    log_and_connect configured

  -- From the configuration to the application; the configuration is freed after it.
  unfoldable pub open_app : Change → Option CStr → CStr → CStr → M S (Option ℕ)
  open_app change host app_name license_key = do
    config ←
        change_config change
          (customize_config host (create_app_config (some app_name) (some license_key))).1
    app ← create_app perform version config 10000
    pure (some app)

  named : Change → Option CStr → Option CStr → Option CStr → M S (Option ℕ)
  unfolding open_app
  named change host none license_key = pure none
  named change host (some app_name) none = pure none
  named change host (some app_name) (some license_key) = open_app change host app_name license_key

  -- The first part of a program, up to the application; `none` is an early exit.
  unfoldable pub setup : Change → Variables → M S (Option ℕ)
  unfolding named
  setup change v = do example_init; named change v.host (get_app_name v) (get_license_key v)
