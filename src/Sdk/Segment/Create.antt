-- ===== src/Sdk/Segment/Create.antt =====
-- src/segment.c, the part that datastore and external segments share: newrelic_segment_create and
-- newrelic_validate_segment_param. Also src/global.c's supportability metric.
use c_sdk.Base.{
  ℕ, Bool, true, false, not, ◌||◌, Option, none, some, [], ◌∷◌, ◌++◌, ◌==◌, if◌then◌else◌, CStr,
  codes,
}
use c_sdk.Sdk.Machine.{
  M, Call, nr_segment_start, nrm_force_add, Segment, unset, acquire_static, release_static, pure,
  ◌>>=◌, ◌>>◌, is_null, put_segment, malloc, note, call, call_,
}

-- `nr_strchr (in, '/')`
unfoldable pub has_slash : CStr → Bool
has_slash [] = false
has_slash (c ∷ s) = (c == b'/') || has_slash s

-- NULL has no slash. The name of the parameter is only logged.
unfoldable pub validate_segment_param : Option CStr → Bool
validate_segment_param none = true
validate_segment_param (some s) = not (has_slash s)

-- The `nr_zalloc`ed wrapper of an axiom segment.
abbrev pub new_segment : ℕ → ℕ → Segment
new_segment segment txn = record {
  segment = segment;
  transaction = txn;
  txn_lock = 0;
  fields = unset;
}

module _ {S : Type 0} (perform : Call → S → ℕ × S) where
  unfoldable pub segment_create : ℕ → M S ℕ
  segment_create txn = do
    txn_seg ← call perform (nr_segment_start txn)
    if is_null txn_seg then pure 0 else do
      note acquire_static
      segment ← malloc
      note release_static
      put_segment segment (some (new_segment txn_seg txn))
      pure segment

  unfoldable pub add_api_supportability_metric : ℕ → CStr → M S (Unit {0})
  add_api_supportability_metric txn name =
      if is_null txn
      then pure tt
      else call_ perform (nrm_force_add txn (codes "Supportability/C/api/" ++ name))
