-- ===== src/Examples/Safety.antt =====
-- No example program leaves a lock held.
pub mod Calls
use c_sdk.Base.{ℕ, Bool, true, false, Option, none, some, List, [], ◌∷◌, CStr}
use c_sdk.Sdk.Config.{Created}
use c_sdk.Sdk.Machine.{Call, M, World}
use c_sdk.Sdk.Datastore.{Environment}
use c_sdk.Sdk.Api.Locks.{Free, Safe}
use c_sdk.Examples.{Variables, Change, example_init, log_and_connect, open_app, named, setup}
use c_sdk.Examples.Programs.{
  Request, custom, datastore, external, record_error, notice, nested, timing, send_request, client,
  accept_request, respond, handle, serve, simple, simple_logged, simple_connected, simple_in,
  Program, ex_simple, ex_custom, ex_datastore, ex_external, ex_notice_error, ex_segment, ex_timing,
  ex_client, ex_server, opened, with_setup, main, custom_main, datastore_main, external_main,
  notice_error_main, segment_main, timing_main, client_main, server_main,
}
use c_sdk.Examples.Safety.Calls.{IsSafe, bind-IsSafe, safe_calls}

module _ {S : Type 0} (perform : Call → S → ℕ × S) (version : CStr) (env : Environment)
    (now : ℕ) where
  custom-IsSafe : (app : ℕ) → IsSafe (custom perform version env now app)
  unfolding custom
  custom-IsSafe app = search safe_calls depth 30

  datastore-IsSafe : (app : ℕ) → IsSafe (datastore perform version env now app)
  unfolding datastore
  datastore-IsSafe app = search safe_calls depth 30

  external-IsSafe : (app : ℕ) → IsSafe (external perform version env now app)
  unfolding external
  external-IsSafe app = search safe_calls depth 30

  notice-IsSafe : (app : ℕ) → IsSafe (notice perform version env now app)
  unfolding notice record_error
  notice-IsSafe app = search safe_calls depth 30

  nested-IsSafe : (app : ℕ) → IsSafe (nested perform version env now app)
  unfolding nested
  nested-IsSafe app = search safe_calls depth 30

  timing-IsSafe : (app : ℕ) → IsSafe (timing perform version env now app)
  unfolding timing
  timing-IsSafe app = search safe_calls depth 30

  send_request-IsSafe :
      (can_send : Bool) (txn seg : ℕ)
      → IsSafe (send_request perform version env now can_send txn seg)
  send_request-IsSafe true txn seg = search safe_calls
  send_request-IsSafe false txn seg = search safe_calls

  client-IsSafe : (can_send : Bool) (app : ℕ) → IsSafe (client perform version env now can_send app)
  unfolding client
  client-IsSafe can_send app = search (safe_calls, send_request-IsSafe) depth 30

  accept_request-IsSafe :
      (payload : Option CStr) (txn : ℕ)
      → IsSafe (accept_request perform version env now payload txn)
  accept_request-IsSafe none txn = search safe_calls
  accept_request-IsSafe (some payload) txn = search safe_calls

  respond-IsSafe :
      (can_respond : Bool) (txn : ℕ) → IsSafe (respond perform version env now can_respond txn)
  respond-IsSafe true txn = search safe_calls
  respond-IsSafe false txn = search safe_calls

  handle-IsSafe :
      (app : ℕ) (request : Request) → IsSafe (handle perform version env now app request)
  unfolding handle
  handle-IsSafe app request = search (safe_calls, accept_request-IsSafe, respond-IsSafe) depth 30

  serve-IsSafe :
      (app : ℕ) (requests : List Request) → IsSafe (serve perform version env now app requests)
  unfolding serve
  serve-IsSafe app [] = search safe_calls
  serve-IsSafe app (request ∷ requests) =
      bind-IsSafe _ _ (handle-IsSafe app request) (λ r. serve-IsSafe app requests)

  simple_in-IsSafe : (c : Created) → IsSafe (simple_in perform version env now c)
  unfolding simple_in
  simple_in-IsSafe c = search safe_calls depth 30

  simple_connected-IsSafe : (b : Bool) → IsSafe (simple_connected perform version env now b)
  unfolding simple_connected
  simple_connected-IsSafe false = search safe_calls
  simple_connected-IsSafe true = simple_in-IsSafe _

  simple_logged-IsSafe : (b : Bool) → IsSafe (simple_logged perform version env now b)
  unfolding simple_logged
  simple_logged-IsSafe false = search safe_calls
  simple_logged-IsSafe true = search (safe_calls, simple_connected-IsSafe)

  simple-IsSafe : IsSafe (simple perform version env now)
  unfolding simple
  simple-IsSafe = search (safe_calls, simple_logged-IsSafe)

  log_and_connect-IsSafe : (b : Bool) → IsSafe (log_and_connect perform version b)
  unfolding log_and_connect
  log_and_connect-IsSafe false = search safe_calls
  log_and_connect-IsSafe true = search safe_calls

  open_app-IsSafe :
      (change : Change) (host : Option CStr) (name key : CStr)
      → IsSafe (open_app perform version change host name key)
  unfolding open_app
  open_app-IsSafe change host name key = search safe_calls

  named-IsSafe :
      (change : Change) (host name key : Option CStr)
      → IsSafe (named perform version change host name key)
  unfolding named
  named-IsSafe change host none key = search safe_calls
  named-IsSafe change host (some name) none = search safe_calls
  named-IsSafe change host (some name) (some key) = open_app-IsSafe change host name key

  module _ (v : Variables) where
    setup-IsSafe : (change : Change) → IsSafe (setup perform version change v)
    unfolding setup example_init
    setup-IsSafe change = search (safe_calls, log_and_connect-IsSafe, named-IsSafe)

    opened-IsSafe :
        (body : ℕ → M S ℕ)
        → ((app : ℕ) → IsSafe (body app))
        → (app : Option ℕ) → IsSafe (opened perform version env now v body app)
    unfolding opened
    opened-IsSafe body h none = search safe_calls
    opened-IsSafe body h (some app) = h app

    with_setup-IsSafe :
        (change : Change) (body : ℕ → M S ℕ)
        → ((app : ℕ) → IsSafe (body app))
        → IsSafe (with_setup perform version env now v change body)
    unfolding with_setup
    with_setup-IsSafe change body h = search (safe_calls, setup-IsSafe change, opened-IsSafe body h)

    main-IsSafe : (program : Program) → IsSafe (main perform version env now v program)
    unfolding custom_main datastore_main external_main notice_error_main segment_main timing_main
        client_main server_main
    main-IsSafe ex_simple = simple-IsSafe
    main-IsSafe ex_custom = with_setup-IsSafe _ _ custom-IsSafe
    main-IsSafe ex_datastore = with_setup-IsSafe _ _ datastore-IsSafe
    main-IsSafe ex_external = with_setup-IsSafe _ _ external-IsSafe
    main-IsSafe ex_notice_error = with_setup-IsSafe _ _ notice-IsSafe
    main-IsSafe ex_segment = with_setup-IsSafe _ _ nested-IsSafe
    main-IsSafe ex_timing = with_setup-IsSafe _ _ timing-IsSafe
    main-IsSafe (ex_client can_send) = with_setup-IsSafe _ _ (client-IsSafe can_send)
    main-IsSafe (ex_server requests) =
        with_setup-IsSafe _ _ (λ app. search (safe_calls, serve-IsSafe app requests))

    -- Any of the example programs, with any environment variables, whatever axiom answers, from a
    -- world where no transaction and no application is locked: it ends with none of them locked, or
    -- in a fault that has nothing to do with these locks. Of the server this holds after any number
    -- of requests.
    pub main-Safe :
        (program : Program) (w : World S) → Free w → Safe (main perform version env now v program w)
    main-Safe program w free = (main-IsSafe program).at w free
