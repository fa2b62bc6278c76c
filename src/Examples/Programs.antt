-- ===== src/Examples/Programs.antt =====
-- The programs: examples/ex_*.c.
use c_sdk.Base.{ℕ, ◌-◌, ◌^◌, Bool, true, false, Option, none, some, List, [], ◌∷◌, CStr, codes}
use c_sdk.Sdk.Config.{Created, create_app_config}
use c_sdk.Sdk.Machine.{Call, M, pure, ◌>>=◌, ◌>>◌}
use c_sdk.Sdk.Global.{configure_log, init, log_info}
use c_sdk.Sdk.App.{create_app, destroy_app}
use c_sdk.Sdk.Transaction.{start_web_transaction, set_transaction_timing, end_transaction}
use c_sdk.Sdk.Segment.{
  start_segment, set_segment_parent, set_segment_parent_root, set_segment_timing, end_segment,
}
use c_sdk.Sdk.Datastore.{DatastoreParams, Environment, start_datastore_segment}
use c_sdk.Sdk.External.{ExternalParams, start_external_segment}
use c_sdk.Sdk.Attribute.{add_attribute_int, record_custom_metric}
use c_sdk.Sdk.CustomEvent.{
  create_custom_event, record_custom_event, custom_event_add_attribute_int,
  custom_event_add_attribute_long, custom_event_add_attribute_double,
  custom_event_add_attribute_string,
}
use c_sdk.Sdk.Error.{notice_error}
use c_sdk.Sdk.DistributedTrace.{
  create_distributed_trace_payload_httpsafe, accept_distributed_trace_payload_httpsafe,
}
use c_sdk.Examples.{Variables, Change, as_is, traced, distributed, setup, change_config}

-- `-1`, as an `int`
abbrev pub minus_one : ℕ
minus_one = 2 ^ 32 - 1

-- A request that the server finds: what is read of it, and whether a response can be written.
pub record Request : Type 0 where
  pub payload : Option CStr
  pub can_respond : Bool

abbrev pub mysql_params : DatastoreParams
mysql_params = record {
  product = some (codes "MySQL");
  collection = some (codes "My_collection");
  operation = some (codes "select");
  host = some (codes "Instance");
  port_path_or_id = some (codes "01");
  database_name = none;
  query = some (codes "SELECT * FROM My_collection WHERE medical_patient is 'Foo Bar' ");
}

abbrev pub get_params : CStr → ExternalParams
get_params uri = record { uri = some uri; procedure = some (codes "GET"); library = none }

module _ {S : Type 0} (perform : Call → S → ℕ × S) (version : CStr) (env : Environment)
    (now : ℕ) where
  -- The end of a program.
  abbrev pub close_app : ℕ → M S ℕ
  close_app app = do destroy_app perform version (some app); pure 0

  -- The end of the transaction, and of the program.
  abbrev pub close_all : ℕ → ℕ → M S ℕ
  close_all app txn = do end_transaction perform version (some txn); close_app app

  unfoldable pub custom : ℕ → M S ℕ
  custom app = do
    txn ← start_web_transaction perform app (some (codes "ExampleWebTransaction"))
    seg ← start_segment perform txn none none
    record_custom_metric perform txn (some (codes "Custom/YourMetric/Label")) 4636737291354636288
    event ← create_custom_event perform (some (codes "aTypeForYourEvent"))
    custom_event_add_attribute_int perform event (some (codes "keya")) 42
    custom_event_add_attribute_long perform event (some (codes "keyb")) 84
    custom_event_add_attribute_double perform event (some (codes "keyc")) 4631166901565532406
    custom_event_add_attribute_string perform event (some (codes "keyd")) (some (codes "A string"))
    record_custom_event perform txn (some event)
    end_segment perform txn (some seg)
    close_all app txn

  unfoldable pub datastore : ℕ → M S ℕ
  datastore app = do
    txn ← start_web_transaction perform app (some (codes "ExampleWebTransaction"))
    seg ← start_datastore_segment perform env txn (some mysql_params)
    end_segment perform txn (some seg)
    close_all app txn

  unfoldable pub external : ℕ → M S ℕ
  external app = do
    txn ← start_web_transaction perform app (some (codes "ExampleWebTransaction"))
    seg ←
        start_external_segment perform txn (some (get_params (codes "https://httpbin.org/delay/1")))
    end_segment perform txn (some seg)
    close_all app txn

  unfoldable pub record_error : ℕ → M S (Unit {0})
  record_error txn =
      notice_error perform txn 50 (some (codes "Meaningful error message"))
        (some (codes "Error.class.supervalu"))

  unfoldable pub notice : ℕ → M S ℕ
  unfolding record_error
  notice app = do
    txn ← start_web_transaction perform app (some (codes "ExampleWebTransaction"))
    add_attribute_int perform txn (some (codes "Custom_int")) 2147483647
    record_error txn
    close_all app txn

  unfoldable pub nested : ℕ → M S ℕ
  nested app = do
    txn ← start_web_transaction perform app (some (codes "ExampleWebTransaction"))
    set_transaction_timing perform txn now 5500000
    first ← start_segment perform txn none none
    end_segment perform txn (some first)
    seg_a ← start_segment perform txn (some (codes "A")) (some (codes "Parented by SDK"))
    seg ← start_segment perform txn (some (codes "B")) (some (codes "Parented by SDK"))
    seg_c ← start_segment perform txn (some (codes "C")) (some (codes "Manually reparented"))
    set_segment_parent perform seg_c seg_a
    set_segment_timing perform seg_c 10 500000
    end_segment perform txn (some seg_c)
    seg_d ← start_segment perform txn (some (codes "D")) (some (codes "Manually reparented"))
    set_segment_parent_root perform seg_d
    end_segment perform txn (some seg_d)
    end_segment perform txn (some seg)
    end_segment perform txn (some seg_a)
    close_all app txn

  unfoldable pub timing : ℕ → M S ℕ
  timing app = do
    txn ← start_web_transaction perform app (some (codes "ExampleWebTransaction"))
    set_transaction_timing perform txn now 2000000
    seg ← start_segment perform txn none none
    set_segment_timing perform seg 0 500000
    end_segment perform txn (some seg)
    close_all app txn

  -- The client waits for a response where the request could be written.
  abbrev pub send_request : Bool → ℕ → ℕ → M S (Unit {0})
  send_request true txn segment = do
    create_distributed_trace_payload_httpsafe perform txn segment
    pure tt
  send_request false txn segment =
      notice_error perform txn 50 (some (codes "Cannot send request"))
        (some (codes "Error.class.request"))

  unfoldable pub client : Bool → ℕ → M S ℕ
  client can_send app = do
    txn ← start_web_transaction perform app (some (codes "ExampleDTClient"))
    seg ← start_external_segment perform txn (some (get_params (codes "/tmp/response")))
    send_request can_send txn seg
    end_segment perform txn (some seg)
    close_all app txn

  abbrev pub accept_request : Option CStr → ℕ → M S (Unit {0})
  accept_request none txn = pure tt
  accept_request (some payload) txn = do
    accept_distributed_trace_payload_httpsafe perform txn (some payload) (some (codes "Other"))
    pure tt

  abbrev pub respond : Bool → ℕ → M S (Unit {0})
  respond true txn = pure tt
  respond false txn =
      notice_error perform txn 50 (some (codes "Cannot send response"))
        (some (codes "Error.class.response"))

  unfoldable pub handle : ℕ → Request → M S (Unit {0})
  handle app request = do
    txn ← start_web_transaction perform app (some (codes "ExampleDTServer"))
    accept_request request.payload txn
    respond request.can_respond txn
    end_transaction perform version (some txn)
    pure tt

  -- The loop of the server has no end: what it has done after so many requests.
  unfoldable pub serve : ℕ → List Request → M S (Unit {0})
  unfolding handle
  serve app [] = pure tt
  serve app (request ∷ requests) = handle app request >> serve app requests

  unfoldable pub simple_in : Created → M S ℕ
  simple_in created_config = do
    config ← change_config as_is created_config
    app ← create_app perform version config 10000
    txn ← start_web_transaction perform app (some (codes "Transaction name"))
    seg ← start_segment perform txn (some (codes "Segment name")) (some (codes "Custom"))
    end_segment perform txn (some seg)
    close_all app txn

  unfoldable pub simple_connected : Bool → M S ℕ
  unfolding simple_in
  simple_connected false = pure minus_one
  simple_connected true =
      simple_in
        (create_app_config (some (codes "YOUR_APP_NAME")) (some (codes "_NEW_RELIC_LICENSE_KEY_")))

  unfoldable pub simple_logged : Bool → M S ℕ
  unfolding simple_connected
  simple_logged false = pure minus_one
  simple_logged true = do connected ← init perform none 0; simple_connected connected

  unfoldable pub simple : M S ℕ
  unfolding simple_logged
  simple = do
    configured ← configure_log perform (some (codes "./c_sdk.log")) log_info
    simple_logged configured

-- A program, with what it finds of the files that it waits for.
pub data Program : Type 0 where
  ex_simple ex_custom ex_datastore ex_external ex_notice_error ex_segment ex_timing : Program
  ex_client : Bool → Program
  ex_server : List Request → Program

module _ {S : Type 0} (perform : Call → S → ℕ × S) (version : CStr) (env : Environment) (now : ℕ)
    (v : Variables) where
  unfoldable pub opened : (ℕ → M S ℕ) → Option ℕ → M S ℕ
  opened body none = pure minus_one
  opened body (some app) = body app

  unfoldable pub with_setup : Change → (ℕ → M S ℕ) → M S ℕ
  unfolding opened
  with_setup change body = do app ← setup perform version change v; opened body app

  unfoldable pub custom_main : M S ℕ
  unfolding with_setup
  custom_main = with_setup traced (custom perform version env now)

  unfoldable pub datastore_main : M S ℕ
  unfolding with_setup
  datastore_main = with_setup traced (datastore perform version env now)

  unfoldable pub external_main : M S ℕ
  unfolding with_setup
  external_main = with_setup traced (external perform version env now)

  unfoldable pub notice_error_main : M S ℕ
  unfolding with_setup
  notice_error_main = with_setup as_is (notice perform version env now)

  unfoldable pub segment_main : M S ℕ
  unfolding with_setup
  segment_main = with_setup traced (nested perform version env now)

  unfoldable pub timing_main : M S ℕ
  unfolding with_setup
  timing_main = with_setup traced (timing perform version env now)

  unfoldable pub client_main : Bool → M S ℕ
  unfolding with_setup
  client_main can_send = with_setup distributed (client perform version env now can_send)

  -- The result is never reached.
  unfoldable pub server_main : List Request → M S ℕ
  unfolding with_setup
  server_main requests =
      with_setup distributed (λ app. serve perform version env now app requests >> pure 0)

  abbrev pub main : Program → M S ℕ
  main ex_simple = simple perform version env now
  main ex_custom = custom_main
  main ex_datastore = datastore_main
  main ex_external = external_main
  main ex_notice_error = notice_error_main
  main ex_segment = segment_main
  main ex_timing = timing_main
  main (ex_client can_send) = client_main can_send
  main (ex_server requests) = server_main requests
