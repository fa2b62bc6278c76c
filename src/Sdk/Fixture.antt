-- ===== src/Sdk/Fixture.antt =====
-- An axiom that answers every call with a constant and counts the calls, and a world on it: a
-- transaction at 1, a custom, a datastore and an external segment at 2, 3 and 4, an application
-- at 5.
use c_sdk.Base.{
  ℕ, suc, ◌%◌, ◌==◌, if◌then◌else◌, true, false, Option, none, some, [], CStr, codes, length,
}
use c_sdk.Sdk.Config.{AppConfig}
use c_sdk.Sdk.Machine.{
  Call, nr_segment_start, nr_segment_type, nr_segment_set_parent, segment_root, nr_txn_begin,
  err_enabled, recording, get_stack_trace_as_json, nro_new_hash, nr_agent_find_or_add_app,
  nr_applist_create, nr_txn_create_distributed_trace_payload, nr_b64_encode, unset, datastore,
  external, Segment, Transaction, App, World,
}
use c_sdk.Sdk.Datastore.{no_datastore, DatastoreParams, Environment}
use c_sdk.Sdk.External.{no_external, ExternalParams}

abbrev pub answer : Call → ℕ
answer (nr_segment_start txn) = 72
answer (nr_segment_type seg) = seg % 4
answer (nr_segment_set_parent seg parent) = 1
answer (segment_root txn) = 60
answer (nr_txn_begin app opt) = 51
answer (err_enabled txn) = 1
answer (recording txn) = 1
answer get_stack_trace_as_json = 90
answer nro_new_hash = 80
answer (nr_agent_find_or_add_app list info limit) = 40
answer nr_applist_create = 30
answer (nr_txn_create_distributed_trace_payload txn seg) = 95
answer (nr_b64_encode payload) = 96
answer c = 0

-- The state of this axiom is the number of calls so far.
abbrev pub reply : Call → ℕ → ℕ × ℕ
reply c s = (answer c, suc s)

-- An axiom to which no call succeeds.
abbrev pub refuse : Call → ℕ → ℕ × ℕ
refuse c s = (0, suc s)

abbrev pub txn_one : Transaction
txn_one = record { txn = 50; locked = false }

abbrev pub custom_two : Segment
custom_two = record { segment = 64; transaction = 50; txn_lock = 1; fields = unset }

abbrev pub datastore_three : Segment
datastore_three = record {
  segment = 65;
  transaction = 50;
  txn_lock = 0;
  fields = datastore no_datastore;
}

abbrev pub external_four : Segment
external_four = record {
  segment = 66;
  transaction = 50;
  txn_lock = 0;
  fields = external no_external;
}

abbrev pub app_five : App
app_five = record { app = 40; app_info = none; config = none; locked = false }

abbrev segments_of : ℕ → Option Segment
segments_of q =
    if q == 2
    then some custom_two
    else if q == 3
    then some datastore_three
    else if q == 4
    then some external_four
    else none

abbrev pub world : World ℕ
world = record {
  axiom_state = 0;
  transactions = λ q. if q == 1 then some txn_one else none;
  segments = segments_of;
  events = λ q. none;
  apps = λ q. if q == 5 then some app_five else none;
  log_configured = true;
  applist = 30;
  last = 9;
  trace = [];
}

-- A process before its initialisation.
abbrev pub fresh : World ℕ
fresh = record world { applist = 0; log_configured = false }

abbrev pub key : CStr
key = codes "0123456789012345678901234567890123456789"

abbrev pub given : AppConfig
given = record {
  app_name = codes "app";
  license_key = key;
  redirect_collector = codes "collector";
  transaction_tracer = record {
    enabled = true;
    threshold = 1;
    duration_us = 7;
    stack_trace_threshold_us = 8;
    datastore_reporting = record { enabled = false; record_sql = 1; threshold_us = 9 };
  };
  datastore_tracer = record { instance_reporting = false; database_name_reporting = false };
  distributed_tracing_enabled = true;
  span_events_enabled = false;
}

abbrev pub system : Environment
system = record {
  type_of_product = λ s. length s;
  is_localhost = λ h. false;
  hostname = codes "here";
}

abbrev pub query : DatastoreParams
query = record {
  product = some (codes "MySQL");
  collection = some (codes "users");
  operation = none;
  host = some (codes "db");
  port_path_or_id = none;
  database_name = none;
  query = some (codes "SELECT 1");
}

abbrev pub request : ExternalParams
request = record { uri = some (codes "http://x/"); procedure = none; library = some (codes "curl") }
