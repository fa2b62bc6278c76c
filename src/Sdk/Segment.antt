-- ===== src/Sdk/Segment.antt =====
-- src/segment.c: the public functions on segments. A pointer to a pointer is `none` for NULL and
-- else what it points at; a function that sets it returns the new pointer.
pub mod Create
pub mod Start
pub mod Finish
pub mod Parent
pub mod Typed
use c_sdk.Base.{
  ℕ, Bool, true, false, not, ◌||◌, ◌&&◌, Option, none, some, [], ◌∷◌, ◌++◌, ◌==◌, if◌then◌else◌,
  CStr, codes,
}
use c_sdk.Sdk.Machine.{
  M, Call, nr_segment_type, nr_segment_set_name, nr_segment_set_parent, nr_segment_set_timing,
  nr_segment_end, nr_segment_add_metric, segment_root, Segment, pure, ◌>>=◌, ◌>>◌, is_null,
  get_transaction, get_segment, put_segment, mutex_lock, mutex_unlock, call, call_,
}
use c_sdk.Sdk.Datastore.{segment_datastore, destroy_datastore_segment_fields, end_datastore_segment}
use c_sdk.Sdk.External.{segment_external, destroy_external_segment_fields, end_external_segment}
use Create.{segment_create, validate_segment_param, add_api_supportability_metric}

-- `NR_SEGMENT_CUSTOM`
abbrev pub segment_custom : ℕ
segment_custom = 0

-- The name or the category that a segment gets: a NULL or one with a slash is replaced.
unfoldable pub param_or : Option CStr → CStr → CStr
unfolding validate_segment_param
param_or none d = d
param_or (some s) d = if validate_segment_param (some s) then s else d

unfoldable pub metric_name : Option CStr → Option CStr → CStr
unfolding param_or
metric_name name category =
    param_or category (codes "Custom") ++ (b'/' ∷ param_or name (codes "Unnamed Segment"))

module _ {S : Type 0} (perform : Call → S → ℕ × S) where
  destroy_typed : ℕ → ℕ → M S (Unit {0})
  unfolding destroy_datastore_segment_fields destroy_external_segment_fields
  destroy_typed type segment =
      if type == segment_datastore
      then destroy_datastore_segment_fields perform segment
      else if type == segment_external
      then destroy_external_segment_fields perform segment
      else pure tt

  destroy_fields : ℕ → Segment → M S (Unit {0})
  unfolding destroy_typed
  destroy_fields segment s =
      if is_null s.segment
      then pure tt
      else do type ← call perform (nr_segment_type s.segment); destroy_typed type segment

  unfoldable pub segment_destroy : Option ℕ → M S (Option ℕ)
  unfolding destroy_fields
  segment_destroy none = pure none
  segment_destroy (some p) =
      if is_null p
      then pure (some p)
      else do s ← get_segment p; destroy_fields p s; put_segment p none; pure (some 0)

  name_segment : ℕ → CStr → M S (Unit {0})
  name_segment segment name =
      if is_null segment
      then pure tt
      else do s ← get_segment segment; call_ perform (nr_segment_set_name s.segment name)

  -- `segment->txn_lock = ...` comes after the label, so it is done with a NULL segment too.
  unfoldable pub start_segment : ℕ → Option CStr → Option CStr → M S ℕ
  unfolding segment_create name_segment metric_name
  start_segment transaction name category = if is_null transaction then pure 0 else do
    mutex_lock transaction
    t ← get_transaction transaction
    segment ← segment_create perform t.txn
    name_segment segment (metric_name name category)
    mutex_unlock transaction
    s ← get_segment segment
    put_segment segment (some (record s { txn_lock = transaction }))
    pure segment

  unfoldable pub set_segment_parent : ℕ → ℕ → M S Bool
  unfolding add_api_supportability_metric
  set_segment_parent segment parent =
      if is_null segment
      then pure false
      else if is_null parent
      then pure false
      else if segment == parent
      then pure false
      else do
        s ← get_segment segment
        mutex_lock s.txn_lock
        add_api_supportability_metric perform s.transaction (codes "set_segment_parent")
        p ← get_segment parent
        ret ← call perform (nr_segment_set_parent s.segment p.segment)
        mutex_unlock s.txn_lock
        pure (not (ret == 0))

  unfoldable pub set_segment_parent_root : ℕ → M S Bool
  unfolding add_api_supportability_metric
  set_segment_parent_root segment = if is_null segment then pure false else do
    s ← get_segment segment
    if is_null s.transaction then pure false else do
      root ← call perform (segment_root s.transaction)
      if is_null root then pure false else do
        mutex_lock s.txn_lock
        add_api_supportability_metric perform s.transaction (codes "set_segment_parent_root")
        root ← call perform (segment_root s.transaction)
        ret ← call perform (nr_segment_set_parent s.segment root)
        mutex_unlock s.txn_lock
        pure (not (ret == 0))

  unfoldable pub set_segment_timing : ℕ → ℕ → ℕ → M S Bool
  set_segment_timing segment start duration = if is_null segment then pure false else do
    s ← get_segment segment
    mutex_lock s.txn_lock
    ret ← call perform (nr_segment_set_timing s.segment start duration)
    mutex_unlock s.txn_lock
    pure (not (ret == 0))

  unfoldable pub end_typed : ℕ → ℕ → Segment → M S (Unit {0})
  unfolding end_datastore_segment end_external_segment
  end_typed type segment s =
      if type == segment_custom
      then call_ perform (nr_segment_end s.segment)
        >> call_ perform (nr_segment_add_metric s.segment true)
      else if type == segment_datastore
      then end_datastore_segment perform segment >> pure tt
      else if type == segment_external
      then end_external_segment perform segment >> pure tt
      else pure tt

  -- The label `end`: the segment is destroyed on every path, and the status returned.
  unfoldable pub finish : Bool → ℕ → M S (Bool × Option ℕ)
  unfolding segment_destroy
  finish status p = do q ← segment_destroy (some p); pure (status, q)

  -- What is done between taking the transaction's lock and giving it back.
  unfoldable pub end_locked : ℕ → ℕ → Segment → M S (Unit {0})
  end_locked transaction p s = do
    mutex_lock transaction
    type ← call perform (nr_segment_type s.segment)
    end_typed type p s
    mutex_unlock transaction

  unfoldable pub end_matching : ℕ → ℕ → Segment → M S (Bool × Option ℕ)
  end_matching transaction p s = end_locked transaction p s >> finish true p

  unfoldable pub end_segment : ℕ → Option ℕ → M S (Bool × Option ℕ)
  end_segment transaction none = pure (false, none)
  end_segment transaction (some p) = if is_null p then pure (false, some p) else do
    s ← get_segment p
    if is_null s.transaction || is_null transaction then finish false p else do
      t ← get_transaction transaction
      if not (t.txn == s.transaction) then finish false p else end_matching transaction p s
