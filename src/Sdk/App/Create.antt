-- ===== src/Sdk/App/Create.antt =====
-- newrelic_create_app of src/app.c: what the new application holds, and what is left of one that
-- could not connect.
use c_sdk.Base.{ℕ, suc, ◌<◌, ◌*◌, ◌≡◌, ◌≢◌, true, false, none, some, [], arith, CStr, codes, length}
use c_sdk.Sdk.Config.{AppConfig, license_size, array_size}
use c_sdk.Sdk.Machine.{Call, AppInfo, World, Ends, nro_new_hash, nr_agent_find_or_add_app}
use c_sdk.Sdk.Global.{ensure_init}
use c_sdk.Sdk.App.{create_app, create_with}

-- The configuration of an application: the given one, but for the settings that are replaced.
abbrev pub config_of : AppConfig → AppConfig
config_of given = record given {
  redirect_collector = [];
  datastore_tracer = record { instance_reporting = true; database_name_reporting = true };
}

module _ {S : Type 0} (perform : Call → S → ℕ × S) (version : CStr) (w : World S)
    (given : AppConfig) (timeout_ms : ℕ) where
  abbrev pub hashed : ℕ × S
  hashed = perform nro_new_hash w.axiom_state

  abbrev pub info : AppInfo
  info = record {
    redirect_collector = given.redirect_collector;
    appname = given.app_name;
    license = given.license_key;
    lang = codes "c";
    environment = hashed.0;
    version = version;
  }

  abbrev pub found : ℕ
  found = (perform (nr_agent_find_or_add_app w.applist info (timeout_ms * 1000)) hashed.1).0

  -- A configuration that is taken, in a process that is initialised.
  pub record IsTaken : Type 0 where
    pub named : length given.app_name ≢ 0
    pub fits : length given.app_name < array_size
    pub licensed : length given.license_key ≡ license_size
    pub initialised : w.applist ≢ 0

  abbrev pub Connected : ℕ → World S → Type 0
  Connected r w' =
      (r ≡ suc w.last)
      × (w'.apps r
          ≡ some (record {
            app = found;
            app_info = some info;
            config = some (config_of given);
            locked = false;
          }))
      × ((q : ℕ) → q ≢ r → w'.apps q ≡ w.apps q)

  abbrev pub Unconnected : ℕ → World S → Type 0
  Unconnected r w' =
      (r ≡ 0) × ((q : ℕ) → q ≢ suc w.last → w'.apps q ≡ w.apps q) × (w'.apps (suc w.last) ≡ none)

  -- Where axiom finds no application, the result is NULL and what was allocated is destroyed: no
  -- application is left at the new address, and the others are as before.
  pub create_app-Unconnected :
      IsTaken → found ≡ 0 → Ends Unconnected (create_app perform version (some given) timeout_ms w)
  unfolding create_app create_with ensure_init
  create_app-Unconnected taken f = ground arith
