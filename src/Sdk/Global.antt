-- ===== src/Sdk/Global.antt =====
-- src/global.c: the state of the process, that is the log's configuration and the connection.
pub mod Ready
use c_sdk.Base.{
  ℕ, suc, Bool, true, false, not, Option, none, some, [], ◌∷◌, ◌==◌, if◌then◌else◌, CStr, codes,
  List,
}
use c_sdk.Sdk.Machine.{
  M, Call, nrl_set_log_file, nrl_set_log_level, nrl_close_log_file, nr_conn_params_init,
  nr_agent_initialize_daemon_connection_parameters, nr_conn_params_free,
  nr_agent_try_daemon_connect, nr_agent_close_daemon_connection, nr_applist_create,
  nr_applist_destroy, atexit_shutdown, pure, ◌>>=◌, ◌>>◌, is_null, get_applist, put_applist,
  get_log_configured, put_log_configured, call, call_,
}

-- `level_array`; `none` is a level past its end.
unfoldable pub level_name : ℕ → Option CStr
level_name n =
    if n == 0
    then some (codes "error")
    else if n == 1
    then some (codes "warning")
    else if n == 2
    then some (codes "info")
    else if n == 3
    then some (codes "verbosedebug")
    else none

-- `NEWRELIC_LOG_INFO`
abbrev pub log_info : ℕ
log_info = 2

abbrev pub default_socket : CStr
default_socket = codes "/tmp/.newrelic.sock"

abbrev pub socket_or_default : Option CStr → CStr
socket_or_default none = default_socket
socket_or_default (some s) = s

module _ {S : Type 0} (perform : Call → S → ℕ × S) where
  set_log : CStr → Option CStr → M S Bool
  set_log filename none = pure false
  set_log filename (some level) = do
    file ← call perform (nrl_set_log_file filename)
    if not (file == 0) then pure false else do
      set ← call perform (nrl_set_log_level level)
      if not (set == 0) then pure false else do put_log_configured true; pure true

  unfoldable pub configure_log : Option CStr → ℕ → M S Bool
  unfolding set_log level_name
  configure_log none level = pure false
  configure_log (some filename) level = set_log filename (level_name level)

  connect : CStr → ℕ → M S Bool
  connect address time_limit_ms = do
    params ← call perform (nr_conn_params_init address)
    if is_null params then pure false else do
      ret ← call perform (nr_agent_initialize_daemon_connection_parameters params)
      call_ perform (nr_conn_params_free params)
      if not (ret == 0) then pure false else do
        up ←
            call perform
              (nr_agent_try_daemon_connect (if time_limit_ms == 0 then 10 else time_limit_ms))
        if up == 0 then pure false else do
          list ← call perform nr_applist_create
          put_applist list
          call_ perform atexit_shutdown
          pure true

  ensure_log : Bool → M S Bool
  unfolding configure_log
  ensure_log true = pure true
  ensure_log false = configure_log (some (codes "stderr")) log_info

  unfoldable pub do_init : Option CStr → ℕ → M S Bool
  unfolding ensure_log connect
  do_init daemon_socket time_limit_ms = do
    configured ← get_log_configured
    logging ← ensure_log configured
    if not logging then pure false else connect (socket_or_default daemon_socket) time_limit_ms

  unfoldable pub init : Option CStr → ℕ → M S Bool
  unfolding do_init
  init daemon_socket time_limit_ms = do
    list ← get_applist
    if not (is_null list) then pure false else do_init daemon_socket time_limit_ms

  unfoldable pub ensure_init : M S Bool
  unfolding do_init
  ensure_init = do list ← get_applist; if not (is_null list) then pure true else do_init none 0

  unfoldable pub shutdown : M S (Unit {0})
  shutdown = do
    call_ perform nr_agent_close_daemon_connection
    list ← get_applist
    call_ perform (nr_applist_destroy list)
    put_applist 0
    call_ perform nrl_close_log_file
    put_log_configured false
