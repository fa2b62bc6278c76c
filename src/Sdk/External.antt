-- ===== src/Sdk/External.antt =====
-- src/external.c: external segments.
use c_sdk.Base.{ℕ, Bool, true, false, not, Option, none, some, ◌==◌, if◌then◌else◌, CStr}
use c_sdk.Sdk.Machine.{
  M, Call, nr_segment_type, nr_segment_set_type, nr_segment_external_end, ExternalFields, Fields,
  unset, datastore, external, fault, wrong_member, pure, ◌>>=◌, ◌>>◌, is_null, get_transaction,
  get_segment, put_segment, mutex_lock, mutex_unlock, call, call_,
}
use c_sdk.Sdk.Segment.Create.{segment_create, validate_segment_param}

-- `newrelic_external_segment_params_t`
pub record ExternalParams : Type 0 where
  pub uri : Option CStr
  pub procedure : Option CStr
  pub library : Option CStr

-- `NR_SEGMENT_EXTERNAL`
abbrev pub segment_external : ℕ
segment_external = 2

abbrev pub no_external : ExternalFields
no_external = record { uri = none; library = none; procedure = none }

unfoldable pub external_fields : ExternalParams → CStr → ExternalFields
external_fields p uri = record { uri = some uri; library = p.library; procedure = p.procedure }

-- The external member of the union.
abbrev pub external_member : {S : Type 0} → Fields → M S ExternalFields
external_member unset = pure no_external
external_member (external e) = pure e
external_member (datastore d) = λ w. fault wrong_member

module _ {S : Type 0} (perform : Call → S → ℕ × S) where
  unfoldable pub start_external_on : ℕ → ExternalParams → CStr → M S ℕ
  unfolding segment_create external_fields
  start_external_on transaction p uri = do
    mutex_lock transaction
    t ← get_transaction transaction
    segment ← segment_create perform t.txn
    if is_null segment then mutex_unlock transaction >> pure segment else do
      s ← get_segment segment
      call_ perform (nr_segment_set_type s.segment segment_external)
      put_segment segment (some (record s { fields = external (external_fields p uri) }))
      mutex_unlock transaction
      pure segment

  start_with_uri : ℕ → ExternalParams → Option CStr → M S ℕ
  unfolding start_external_on
  start_with_uri transaction p none = pure 0
  start_with_uri transaction p (some uri) = start_external_on transaction p uri

  -- `none` is a NULL `params`.
  unfoldable pub start_external_segment : ℕ → Option ExternalParams → M S ℕ
  unfolding start_with_uri
  start_external_segment transaction none = pure 0
  start_external_segment transaction (some p) =
      if is_null transaction
      then pure 0
      else if not (validate_segment_param p.library)
      then pure 0
      else if not (validate_segment_param p.procedure)
      then pure 0
      else start_with_uri transaction p p.uri

  unfoldable pub destroy_external_segment_fields : ℕ → M S (Unit {0})
  destroy_external_segment_fields segment = do
    s ← get_segment segment
    e ← external_member s.fields
    put_segment segment (some (record s { fields = external no_external }))

  unfoldable pub end_external_segment : ℕ → M S Bool
  unfolding destroy_external_segment_fields
  end_external_segment segment = do
    s ← get_segment segment
    type ← call perform (nr_segment_type s.segment)
    if not (type == segment_external) then pure false else do
      e ← external_member s.fields
      call_ perform (nr_segment_external_end s.segment e)
      destroy_external_segment_fields segment
      pure true
