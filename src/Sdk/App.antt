-- ===== src/Sdk/App.antt =====
-- src/app.c and src/app_internal.c: applications.
pub mod Create
use c_sdk.Base.{
  ℕ, ◌*◌, Bool, true, false, not, Option, none, some, [], ◌==◌, if◌then◌else◌, CStr, codes, length,
  ltb,
}
use c_sdk.Sdk.Config.{
  AppConfig, Created, null, overflow, created, create_app_config, license_size, strlen,
}
use c_sdk.Sdk.Machine.{
  M, Call, AppInfo, App, nro_new_hash, nrl_close_log_file, nr_agent_close_daemon_connection,
  nr_agent_find_or_add_app, unlock_nrapp, nr_app_info_destroy_fields, fault, dangling, nr_failure,
  pure, ◌>>=◌, ◌>>◌, is_null, malloc, get_app, put_app, lock_app, unlock_app, get_applist, call,
  call_,
}
use c_sdk.Sdk.Global.{ensure_init}

-- The configuration that `newrelic_create_app` keeps: the defaults, with the three settings that
-- it takes over from the one it is given.
unfoldable pub kept_config : AppConfig → AppConfig → AppConfig
kept_config given config = record config {
  transaction_tracer = given.transaction_tracer;
  distributed_tracing_enabled = given.distributed_tracing_enabled;
  span_events_enabled = given.span_events_enabled;
}

-- A string that `newrelic_create_app` takes for the name of an application, and for a license.
unfoldable pub accepts : AppConfig → Bool
accepts given =
    if length given.app_name == 0
    then false
    else if not (strlen (some given.license_key) == license_size)
    then false
    else true

module _ {S : Type 0} (perform : Call → S → ℕ × S) (version : CStr) where
  unfoldable pub app_info_of : AppConfig → M S AppInfo
  app_info_of given = do
    environment ← call perform nro_new_hash
    pure (record {
      redirect_collector = given.redirect_collector;
      appname = given.app_name;
      license = given.license_key;
      lang = codes "c";
      environment = environment;
      version = version;
    })

  -- `info` is the application's `app_info`. The search returns the application with its lock held.
  find_app : ℕ → ℕ → App → Option AppInfo → M S Bool
  find_app app timeout_ms a none = pure false
  find_app app timeout_ms a (some info) = do
    list ← get_applist
    nrapp ← call perform (nr_agent_find_or_add_app list info (timeout_ms * 1000))
    if is_null nrapp then pure false else do
      put_app app (some (record a { app = nrapp }))
      call_ perform (unlock_nrapp nrapp)
      pure true

  -- `true` is `NR_SUCCESS`.
  unfoldable pub connect_app : ℕ → ℕ → M S Bool
  unfolding find_app
  connect_app app timeout_ms =
      if is_null app then pure false else do a ← get_app app; find_app app timeout_ms a a.app_info

  destroy_info : Option AppInfo → M S (Unit {0})
  destroy_info none = pure tt
  destroy_info (some info) = call_ perform (nr_app_info_destroy_fields info)

  -- The argument is `none` for a NULL pointer to a pointer; the new pointer is returned.
  unfoldable pub destroy_app : Option ℕ → M S (Bool × Option ℕ)
  unfolding destroy_info
  destroy_app none = pure (false, none)
  destroy_app (some app) = if is_null app then pure (false, some app) else do
    lock_app app
    call_ perform nr_agent_close_daemon_connection
    call_ perform nrl_close_log_file
    a ← get_app app
    destroy_info a.app_info
    put_app app (some (record a { app_info = none; config = none }))
    unlock_app app
    put_app app none
    pure (true, some 0)

  -- What follows the configuration: the `Created` is what newrelic_create_app_config returned.
  unfoldable pub create_with : AppConfig → ℕ → Created → M S ℕ
  unfolding kept_config app_info_of connect_app destroy_app
  create_with given timeout_ms null = λ w. fault dangling
  create_with given timeout_ms overflow = λ w. fault dangling
  create_with given timeout_ms (created config) = do
    info ← app_info_of given
    app ← malloc
    put_app app (
        some (record {
          app = 0;
          app_info = some info;
          config = some (kept_config given config);
          locked = false;
        }))
    connected ← connect_app app timeout_ms
    if connected
        then pure app
        else do call_ perform nrl_close_log_file; destroy_app (some app); pure 0

  unfoldable pub create_app : Option AppConfig → ℕ → M S ℕ
  unfolding accepts create_app_config
  create_app none timeout_ms = pure 0
  create_app (some given) timeout_ms = if not (accepts given) then pure 0 else do
    ready ← ensure_init perform
    if not ready
        then pure 0
        else create_with given timeout_ms
            (create_app_config (some given.app_name) (some given.license_key))
