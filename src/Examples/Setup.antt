-- ===== src/Examples/Setup.antt =====
-- The configuration of the example programs.
use c_sdk.Base.{◌<◌, ◌≡◌, ◌≢◌, true, Option, none, some, length, CStr}
use c_sdk.Sdk.Config.{AppConfig, default_config, license_size, text, strlen, strxcpy, fits_array}
use c_sdk.Sdk.Machine.{World, Outcome, ok, fault, dangling}
use c_sdk.Examples.{Change, as_is, traced, distributed, over_duration, collector_size}

-- The host fits its array; without one there is none to copy.
abbrev pub Fits : Option CStr → Type 0
Fits none = Unit {0}
Fits (some host) = length host < collector_size

-- The configuration that a program is to have.
abbrev pub changed : Change → AppConfig → AppConfig
changed as_is config = config
changed traced config = over_duration config
changed distributed config = record (over_duration config) { distributed_tracing_enabled = true }

abbrev pub expected : Change → Option CStr → CStr → CStr → AppConfig
expected change host name key =
    changed change
      (record (default_config (strxcpy name) (strxcpy key)) { redirect_collector = text host })

-- What becomes of a configuration: with a key whose length is not 40 there is none, which stops a
-- program that goes on to write to it, and a name or a host that is too long is written past the
-- end of its array.
pub data Configured {S : Type 0} (change : Change) (host : Option CStr) (name key : CStr)
    (w : World S) : Outcome S (Option AppConfig) → Type 0 where
  fitting :
      strlen (some key) ≡ license_size
      → fits_array name ≡ true
      → Fits host
      → Configured change host name key w (ok (some (expected change host name key)) w)
  no_config :
      strlen (some key) ≢ license_size
      → change ≡ as_is
      → Configured change host name key w (ok none w)
  through_null :
      strlen (some key) ≢ license_size
      → change ≢ as_is
      → Configured change host name key w (fault dangling)
  overrun :
      strlen (some key) ≡ license_size
      → ¬ ((fits_array name ≡ true) × Fits host)
      → Configured change host name key w (fault dangling)
