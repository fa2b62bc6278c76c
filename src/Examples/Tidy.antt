-- ===== src/Examples/Tidy.antt =====
-- Every example program ends the transactions that it begins.
pub mod Calls
use c_sdk.Base.{ℕ, ◌≡◌, Bool, true, false, Option, none, some, List, [], ◌∷◌, CStr}
use c_sdk.Sdk.Config.{Created}
use c_sdk.Sdk.Machine.{Call, M, World}
use c_sdk.Sdk.Datastore.{Environment}
use c_sdk.Examples.{Variables, Change, example_init, log_and_connect, open_app, named, setup}
use c_sdk.Examples.Programs.{
  Request, custom, datastore, external, record_error, notice, nested, timing, send_request, client,
  accept_request, respond, handle, serve, simple, simple_logged, simple_connected, simple_in,
  Program, ex_simple, ex_custom, ex_datastore, ex_external, ex_notice_error, ex_segment, ex_timing,
  ex_client, ex_server, opened, with_setup, main, custom_main, datastore_main, external_main,
  notice_error_main, segment_main, timing_main, client_main, server_main,
}
use c_sdk.Sdk.Api.Locks.{Free, Safe}
use c_sdk.Examples.Safety.{main-Safe}
use c_sdk.Examples.Tidy.Calls.{IsTidy, bind-IsTidy, tidy_calls, is_given, lives, Leaves}

module _ {S : Type 0} (perform : Call → S → ℕ × S) (version : CStr) (env : Environment) (now : ℕ)
    (q : ℕ) where
  custom-IsTidy : (app : ℕ) → IsTidy q (custom perform version env now app)
  unfolding custom
  custom-IsTidy app = search tidy_calls depth 30

  datastore-IsTidy : (app : ℕ) → IsTidy q (datastore perform version env now app)
  unfolding datastore
  datastore-IsTidy app = search tidy_calls depth 30

  external-IsTidy : (app : ℕ) → IsTidy q (external perform version env now app)
  unfolding external
  external-IsTidy app = search tidy_calls depth 30

  notice-IsTidy : (app : ℕ) → IsTidy q (notice perform version env now app)
  unfolding notice record_error
  notice-IsTidy app = search tidy_calls depth 30

  nested-IsTidy : (app : ℕ) → IsTidy q (nested perform version env now app)
  unfolding nested
  nested-IsTidy app = search tidy_calls depth 30

  timing-IsTidy : (app : ℕ) → IsTidy q (timing perform version env now app)
  unfolding timing
  timing-IsTidy app = search tidy_calls depth 30

  send_request-IsTidy :
      (can_send : Bool) (txn seg : ℕ)
      → IsTidy q (send_request perform version env now can_send txn seg)
  send_request-IsTidy true txn seg = search tidy_calls
  send_request-IsTidy false txn seg = search tidy_calls

  client-IsTidy :
      (can_send : Bool) (app : ℕ) → IsTidy q (client perform version env now can_send app)
  unfolding client
  client-IsTidy can_send app = search (tidy_calls, send_request-IsTidy) depth 30

  accept_request-IsTidy :
      (payload : Option CStr) (txn : ℕ)
      → IsTidy q (accept_request perform version env now payload txn)
  accept_request-IsTidy none txn = search tidy_calls
  accept_request-IsTidy (some payload) txn = search tidy_calls

  respond-IsTidy :
      (can_respond : Bool) (txn : ℕ) → IsTidy q (respond perform version env now can_respond txn)
  respond-IsTidy true txn = search tidy_calls
  respond-IsTidy false txn = search tidy_calls

  handle-IsTidy :
      (app : ℕ) (request : Request) → IsTidy q (handle perform version env now app request)
  unfolding handle
  handle-IsTidy app request = search (tidy_calls, accept_request-IsTidy, respond-IsTidy) depth 30

  serve-IsTidy :
      (app : ℕ) (requests : List Request) → IsTidy q (serve perform version env now app requests)
  unfolding serve
  serve-IsTidy app [] = search tidy_calls
  serve-IsTidy app (request ∷ requests) =
      bind-IsTidy q _ _ (handle-IsTidy app request) (λ r. serve-IsTidy app requests)

  simple_in-IsTidy : (c : Created) → IsTidy q (simple_in perform version env now c)
  unfolding simple_in
  simple_in-IsTidy c = search tidy_calls depth 30

  simple_connected-IsTidy : (b : Bool) → IsTidy q (simple_connected perform version env now b)
  unfolding simple_connected
  simple_connected-IsTidy false = search tidy_calls
  simple_connected-IsTidy true = simple_in-IsTidy _

  simple_logged-IsTidy : (b : Bool) → IsTidy q (simple_logged perform version env now b)
  unfolding simple_logged
  simple_logged-IsTidy false = search tidy_calls
  simple_logged-IsTidy true = search (tidy_calls, simple_connected-IsTidy)

  simple-IsTidy : IsTidy q (simple perform version env now)
  unfolding simple
  simple-IsTidy = search (tidy_calls, simple_logged-IsTidy)

  log_and_connect-IsTidy : (b : Bool) → IsTidy q (log_and_connect perform version b)
  unfolding log_and_connect
  log_and_connect-IsTidy false = search tidy_calls
  log_and_connect-IsTidy true = search tidy_calls

  open_app-IsTidy :
      (change : Change) (host : Option CStr) (name key : CStr)
      → IsTidy q (open_app perform version change host name key)
  unfolding open_app
  open_app-IsTidy change host name key = search tidy_calls

  named-IsTidy :
      (change : Change) (host name key : Option CStr)
      → IsTidy q (named perform version change host name key)
  unfolding named
  named-IsTidy change host none key = search tidy_calls
  named-IsTidy change host (some name) none = search tidy_calls
  named-IsTidy change host (some name) (some key) = open_app-IsTidy change host name key

  module _ (v : Variables) where
    setup-IsTidy : (change : Change) → IsTidy q (setup perform version change v)
    unfolding setup example_init
    setup-IsTidy change = search (tidy_calls, log_and_connect-IsTidy, named-IsTidy)

    opened-IsTidy :
        (body : ℕ → M S ℕ)
        → ((app : ℕ) → IsTidy q (body app))
        → (app : Option ℕ) → IsTidy q (opened perform version env now v body app)
    unfolding opened
    opened-IsTidy body h none = search tidy_calls
    opened-IsTidy body h (some app) = h app

    with_setup-IsTidy :
        (change : Change) (body : ℕ → M S ℕ)
        → ((app : ℕ) → IsTidy q (body app))
        → IsTidy q (with_setup perform version env now v change body)
    unfolding with_setup
    with_setup-IsTidy change body h = search (tidy_calls, setup-IsTidy change, opened-IsTidy body h)

    main-IsTidy : (program : Program) → IsTidy q (main perform version env now v program)
    unfolding custom_main datastore_main external_main notice_error_main segment_main timing_main
        client_main server_main
    main-IsTidy ex_simple = simple-IsTidy
    main-IsTidy ex_custom = with_setup-IsTidy _ _ custom-IsTidy
    main-IsTidy ex_datastore = with_setup-IsTidy _ _ datastore-IsTidy
    main-IsTidy ex_external = with_setup-IsTidy _ _ external-IsTidy
    main-IsTidy ex_notice_error = with_setup-IsTidy _ _ notice-IsTidy
    main-IsTidy ex_segment = with_setup-IsTidy _ _ nested-IsTidy
    main-IsTidy ex_timing = with_setup-IsTidy _ _ timing-IsTidy
    main-IsTidy (ex_client can_send) = with_setup-IsTidy _ _ (client-IsTidy can_send)
    main-IsTidy (ex_server requests) =
        with_setup-IsTidy _ _ (λ app. search (tidy_calls, serve-IsTidy app requests))

    -- Any of the example programs, with any environment variables, whatever axiom answers, from a
    -- world in which no transaction and no application is locked, and no transaction is at NULL or at
    -- an address that was not given out yet. It ends with none of them locked, or in a fault that has
    -- nothing to do with these locks. If it does not fault, a transaction is live at an address at the
    -- end exactly when one was there before: on all its exits it has ended every transaction that it
    -- began, and no other. Of the server this holds after any number of requests.
    pub main-Leaves :
        (program : Program) (w : World S)
        → Free w
        → is_given q w ≡ true
        → Safe (main perform version env now v program w)
          × Leaves q (λ _. lives q w) (main perform version env now v program w)
    main-Leaves program w free given =
        (main-Safe perform version env now v program w free, (main-IsTidy program).at w given)
