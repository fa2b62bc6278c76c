-- ===== src/Sdk/Global/Ready.antt =====
-- The state of the process in src/global.c: once connected, the log is configured, and there is one
-- connection until newrelic_shutdown.
use c_sdk.Base.{ℕ, ◌≡◌, ◌≢◌, true, false, Option, none, some, ◌∷◌, arith, CStr}
use c_sdk.Sdk.Machine.{
  Call, World, did, Ends, nr_agent_close_daemon_connection, nr_applist_destroy, nrl_close_log_file,
  M, pure, ◌>>◌,
}
use c_sdk.Sdk.Global.{configure_log, do_init, init, ensure_init, shutdown}

-- A process that has a connection has configured its log.
abbrev pub IsLogged : {S : Type 0} → World S → Type 0
IsLogged w = w.applist ≢ 0 → w.log_configured ≡ true

-- The functions that change the state of the process.
pub data GlobalOp : Type 0 where
  log_op : Option CStr → ℕ → GlobalOp
  init_op : Option CStr → ℕ → GlobalOp
  ensure_op : GlobalOp
  shutdown_op : GlobalOp

module _ {S : Type 0} (perform : Call → S → ℕ × S) where
  pub run_global : GlobalOp → M S (Unit {0})
  run_global (log_op f l) = configure_log perform f l >> pure tt
  run_global (init_op s l) = init perform s l >> pure tt
  run_global ensure_op = ensure_init perform >> pure tt
  run_global shutdown_op = shutdown perform

  -- newrelic_configure_log, newrelic_init, newrelic_ensure_init and newrelic_shutdown end without a
  -- fault and keep the invariant: a process that has a connection has configured its log.
  pub run_global-IsLogged :
      (op : GlobalOp) (w : World S) → IsLogged w → Ends (λ _ w'. IsLogged w') (run_global op w)
  unfolding run_global configure_log init ensure_init shutdown
  run_global-IsLogged (log_op none l) w h = h
  run_global-IsLogged (log_op (some f) l) w h = grind arith
  run_global-IsLogged (init_op s l) w h = grind arith
  run_global-IsLogged ensure_op w h = grind arith
  run_global-IsLogged shutdown_op w h = ground arith

  -- An initialisation that fails leaves the process without a connection.
  pub init-false :
      (w : World S) (socket : Option CStr) (limit : ℕ)
      → w.applist ≡ 0
      → Ends (λ b w'. b ≡ false → w'.applist ≡ 0) (init perform socket limit w)
  unfolding init
  init-false w socket limit h = grind arith

  -- The process after newrelic_shutdown in a world.
  abbrev pub Restarted : World S → Option CStr → ℕ → Unit {0} → World S → Type 0
  Restarted w socket limit _ w' =
      (w'.applist ≡ 0)
      × (w'.log_configured ≡ false)
      × (w'.trace
          ≡ did nrl_close_log_file
            ∷ did (nr_applist_destroy w.applist)
            ∷ did nr_agent_close_daemon_connection
            ∷ w.trace)
      × (init perform socket limit w' ≡ do_init perform socket limit w')

  -- newrelic_shutdown closes the connection, destroys the list of applications and closes the log,
  -- in this order, and resets both globals: a newrelic_init that follows is not refused, and
  -- configures the log again.
  pub init-shutdown :
      (w : World S) (socket : Option CStr) (limit : ℕ)
      → Ends (Restarted w socket limit) (shutdown perform w)
  unfolding shutdown init
  init-shutdown w socket limit = ground arith
