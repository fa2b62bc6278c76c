-- ===== src/Sdk/Segment/Typed.antt =====
-- newrelic_start_datastore_segment of src/datastore.c and newrelic_start_external_segment of
-- src/external.c: what a new segment holds, and the lock that it does not.
use c_sdk.Base.{
  codes, if◌then◌else◌, ℕ, suc, ◌≡◌, ◌≢◌, Bool, true, false, Option, none, some, List, ◌∷◌, arith,
  CStr,
}
use c_sdk.Sdk.Machine.{
  DatastoreFields, Call, nr_segment_start, nr_segment_set_type, nr_segment_set_timing, datastore,
  external, Transaction, World, Event, acquire, release, acquire_static, release_static, did, M,
  Ends, ◌>>=◌,
}
use c_sdk.Sdk.Segment.Create.{validate_segment_param, has_slash}
use c_sdk.Sdk.Segment.Start.{IsFree}
use c_sdk.Sdk.Segment.{set_segment_timing}
use c_sdk.Sdk.Datastore.{
  strdup_or, or_unknown, strempty, DatastoreParams, Environment, start_datastore_segment,
  segment_datastore,
}
use c_sdk.Sdk.External.{ExternalParams, start_external_segment, segment_external}

-- A parameter that may be passed: NULL, or a text without a slash.
pub data NoSlash (s : Option CStr) : Type 0 where
  absent : s ≡ none → NoSlash s
  present : (c : CStr) → s ≡ some c → has_slash c ≡ false → NoSlash s

pub validate-NoSlash : (s : Option CStr) → NoSlash s → validate_segment_param s ≡ true
unfolding validate_segment_param
validate-NoSlash s (absent e) = ground arith
validate-NoSlash s (present c e h) = ground arith

module _ {S : Type 0} (perform : Call → S → ℕ × S) (w : World S) (p : ℕ) (t : Transaction)
    (free : IsFree w p t) where
  abbrev new : ℕ
  new = (perform (nr_segment_start t.txn) w.axiom_state).0

  -- The events of the start of a typed segment, newest first.
  abbrev pub starting : ℕ → List Event
  starting type =
      release p
      ∷ did (nr_segment_set_type new type)
      ∷ release_static
      ∷ acquire_static
      ∷ did (nr_segment_start t.txn)
      ∷ acquire p
      ∷ w.trace

  module _ (env : Environment) (params : DatastoreParams) where
    -- The fields of a datastore segment, from the parameters.
    abbrev pub kept : CStr → DatastoreFields
    kept product = record {
      collection = some (strdup_or params.collection (codes "other"));
      operation = some (strdup_or params.operation (codes "other"));
      host = some (if env.is_localhost params.host then env.hostname else or_unknown params.host);
      port_path_or_id = some (or_unknown params.port_path_or_id);
      database_name = some (or_unknown params.database_name);
      type_of = env.type_of_product product;
      string = some (if strempty (some product) then codes "Other" else product);
      sql = params.query;
    }

    abbrev pub StartedDatastore : CStr → ℕ → World S → Type 0
    StartedDatastore product a w' =
        (a ≡ suc w.last)
        × (w'.segments a
            ≡ some (record {
              segment = new;
              transaction = t.txn;
              txn_lock = 0;
              fields = datastore (kept product);
            }))
        × (w'.trace ≡ starting segment_datastore)
        × ((q : ℕ) → w'.transactions q ≡ w.transactions q)
        × ((q : ℕ) → q ≢ a → w'.segments q ≡ w.segments q)

    -- newrelic_start_datastore_segment on a live transaction with a free lock, with a product and
    -- no slash in the parameters, where axiom starts a segment: the result is a new address with
    -- that segment, of the datastore type, with the parameters as its fields. Unlike that of a
    -- custom segment its lock is NULL. No transaction and no other segment changes.
    pub start_datastore_segment-Ends :
        (product : CStr)
        → params.product ≡ some product
        → NoSlash params.product
        → NoSlash params.collection
        → NoSlash params.operation
        → NoSlash params.host
        → new ≢ 0
        → Ends (StartedDatastore product) (start_datastore_segment perform env p (some params) w)
    unfolding start_datastore_segment
    start_datastore_segment-Ends product e h1 h2 h3 h4 started = ground (
      arith,
      validate-NoSlash params.product h1,
      validate-NoSlash params.collection h2,
      validate-NoSlash params.operation h3,
      validate-NoSlash params.host h4,
    )

    abbrev pub Timed : ℕ → ℕ → Bool → World S → Type 0
    Timed start duration b w' =
        w'.trace ≡ did (nr_segment_set_timing new start duration) ∷ starting segment_datastore

    -- Both calls, in a row.
    abbrev pub timed : ℕ → ℕ → M S Bool
    timed start duration = do
      segment ← start_datastore_segment perform env p (some params)
      set_segment_timing perform segment start duration

    -- The timing of a datastore segment that was just started is set after the lock of its
    -- transaction was given back, with no lock taken.
    pub timing-unlocked :
        (product : CStr) (start duration : ℕ)
        → params.product ≡ some product
        → NoSlash params.product
        → NoSlash params.collection
        → NoSlash params.operation
        → NoSlash params.host
        → new ≢ 0
        → Ends (Timed start duration) (timed start duration w)
    unfolding start_datastore_segment set_segment_timing
    timing-unlocked product start duration e h1 h2 h3 h4 started = ground (
      arith,
      validate-NoSlash params.product h1,
      validate-NoSlash params.collection h2,
      validate-NoSlash params.operation h3,
      validate-NoSlash params.host h4,
    )

  abbrev pub StartedExternal : ExternalParams → CStr → ℕ → World S → Type 0
  StartedExternal params uri a w' =
      (a ≡ suc w.last)
      × (w'.segments a
          ≡ some (record {
            segment = new;
            transaction = t.txn;
            txn_lock = 0;
            fields =
                external (record {
                  uri = some uri;
                  library = params.library;
                  procedure = params.procedure;
                });
          }))
      × (w'.trace ≡ starting segment_external)
      × ((q : ℕ) → w'.transactions q ≡ w.transactions q)
      × ((q : ℕ) → q ≢ a → w'.segments q ≡ w.segments q)

  -- newrelic_start_external_segment on a live transaction with a free lock, with a URI and no slash
  -- in the library and the procedure, where axiom starts a segment: the result is a new address with
  -- that segment, of the external type, with the parameters as its fields and a NULL lock. No
  -- transaction and no other segment changes.
  pub start_external_segment-Ends :
      (params : ExternalParams) (uri : CStr)
      → params.uri ≡ some uri
      → NoSlash params.library
      → NoSlash params.procedure
      → new ≢ 0
      → Ends (StartedExternal params uri) (start_external_segment perform p (some params) w)
  unfolding start_external_segment
  start_external_segment-Ends params uri e h1 h2 started =
      ground (arith, validate-NoSlash params.library h1, validate-NoSlash params.procedure h2)
