-- ===== src/Sdk/Datastore.antt =====
-- src/datastore.c: datastore segments.
use c_sdk.Base.{
  ℕ, Bool, true, false, not, Option, none, some, [], ◌∷◌, ◌==◌, if◌then◌else◌, CStr, codes,
}
use c_sdk.Sdk.Machine.{
  M, Call, nr_segment_type, nr_segment_set_type, nr_segment_datastore_end, DatastoreFields, Fields,
  unset, datastore, external, fault, wrong_member, pure, ◌>>=◌, ◌>>◌, is_null, get_transaction,
  get_segment, put_segment, mutex_lock, mutex_unlock, call, call_,
}
use c_sdk.Sdk.Segment.Create.{segment_create, validate_segment_param}

-- `newrelic_datastore_segment_params_t`
pub record DatastoreParams : Type 0 where
  pub product : Option CStr
  pub collection : Option CStr
  pub operation : Option CStr
  pub host : Option CStr
  pub port_path_or_id : Option CStr
  pub database_name : Option CStr
  pub query : Option CStr

-- `NR_SEGMENT_DATASTORE`
abbrev pub segment_datastore : ℕ
segment_datastore = 1

abbrev pub no_datastore : DatastoreFields
no_datastore = record {
  collection = none;
  operation = none;
  host = none;
  port_path_or_id = none;
  database_name = none;
  type_of = 0;
  string = none;
  sql = none;
}

-- `nr_strdup_or`
abbrev pub strdup_or : Option CStr → CStr → CStr
strdup_or none d = d
strdup_or (some s) d = s

-- `nr_strempty`
abbrev pub strempty : Option CStr → Bool
strempty none = true
strempty (some []) = true
strempty (some (c ∷ s)) = false

-- `nr_datastore_instance_set_port_path_or_id` and `_database_name`
abbrev pub or_unknown : Option CStr → CStr
or_unknown s = if strempty s then codes "unknown" else strdup_or s []

-- What the datastore tables of axiom and the system say: the type of a product
-- (`nr_datastore_from_string`), and the host that `nr_datastore_instance_set_host` keeps.
pub record Environment : Type 0 where
  pub type_of_product : CStr → ℕ
  pub is_localhost : Option CStr → Bool
  pub hostname : CStr

abbrev pub host_of : Environment → Option CStr → CStr
host_of env h = if env.is_localhost h then env.hostname else or_unknown h

-- The fields that a datastore segment keeps until it ends.
unfoldable pub datastore_fields : Environment → DatastoreParams → CStr → DatastoreFields
datastore_fields env p product = record {
  collection = some (strdup_or p.collection (codes "other"));
  operation = some (strdup_or p.operation (codes "other"));
  host = some (host_of env p.host);
  port_path_or_id = some (or_unknown p.port_path_or_id);
  database_name = some (or_unknown p.database_name);
  type_of = env.type_of_product product;
  string = some (if strempty (some product) then codes "Other" else product);
  sql = p.query;
}

-- The four slash checks, in order.
unfoldable pub valid_datastore_params : DatastoreParams → Bool
valid_datastore_params p =
    if not (validate_segment_param p.product)
    then false
    else if not (validate_segment_param p.collection)
    then false
    else if not (validate_segment_param p.operation)
    then false
    else if not (validate_segment_param p.host)
    then false
    else true

-- The datastore member of the union.
abbrev pub datastore_member : {S : Type 0} → Fields → M S DatastoreFields
datastore_member unset = pure no_datastore
datastore_member (datastore d) = pure d
datastore_member (external e) = λ w. fault wrong_member

module _ {S : Type 0} (perform : Call → S → ℕ × S) where
  unfoldable pub start_datastore_on : Environment → ℕ → DatastoreParams → CStr → M S ℕ
  unfolding datastore_fields segment_create
  start_datastore_on env transaction p product = do
    mutex_lock transaction
    t ← get_transaction transaction
    segment ← segment_create perform t.txn
    if is_null segment then mutex_unlock transaction >> pure segment else do
      s ← get_segment segment
      call_ perform (nr_segment_set_type s.segment segment_datastore)
      put_segment segment (some (record s { fields = datastore (datastore_fields env p product) }))
      mutex_unlock transaction
      pure segment

  start_with_product : Environment → ℕ → DatastoreParams → Option CStr → M S ℕ
  unfolding start_datastore_on valid_datastore_params
  start_with_product env transaction p none = pure 0
  start_with_product env transaction p (some product) =
      if valid_datastore_params p then start_datastore_on env transaction p product else pure 0

  -- `none` is a NULL `params`.
  unfoldable pub start_datastore_segment : Environment → ℕ → Option DatastoreParams → M S ℕ
  unfolding start_with_product
  start_datastore_segment env transaction none = pure 0
  start_datastore_segment env transaction (some p) =
      if is_null transaction then pure 0 else start_with_product env transaction p p.product

  unfoldable pub destroy_datastore_segment_fields : ℕ → M S (Unit {0})
  destroy_datastore_segment_fields segment = do
    s ← get_segment segment
    d ← datastore_member s.fields
    put_segment segment
        (some (record s { fields = datastore (record no_datastore { type_of = d.type_of }) }))

  unfoldable pub end_datastore_segment : ℕ → M S Bool
  unfolding destroy_datastore_segment_fields
  end_datastore_segment segment = do
    s ← get_segment segment
    type ← call perform (nr_segment_type s.segment)
    if not (type == segment_datastore) then pure false else do
      d ← datastore_member s.fields
      call_ perform (nr_segment_datastore_end s.segment d)
      destroy_datastore_segment_fields segment
      pure true
