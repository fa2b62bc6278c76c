-- ===== src/Sdk/Attribute.antt =====
-- src/attribute.c and src/custom_metric.c: attributes and metrics of a transaction.
pub mod Add
use c_sdk.Base.{ℕ, Bool, true, false, not, Option, none, some, ◌==◌, if◌then◌else◌, CStr}
use c_sdk.Sdk.Machine.{
  M, Call, Value, int_value, long_value, double_value, string_value,
  nr_txn_add_user_custom_parameter, nr_txn_add_custom_metric, nr_failure, pure, ◌>>=◌, ◌>>◌,
  is_null, get_transaction, mutex_lock, mutex_unlock, call,
}

module _ {S : Type 0} (perform : Call → S → ℕ × S) where
  add_parameter : ℕ → Option CStr → Option Value → M S Bool
  add_parameter txn none obj = pure false
  add_parameter txn (some key) none = pure false
  add_parameter txn (some key) (some obj) = do
    added ← call perform (nr_txn_add_user_custom_parameter txn key obj)
    pure (not (added == nr_failure))

  unfoldable pub add_attribute : ℕ → Option CStr → Option Value → M S Bool
  unfolding add_parameter
  add_attribute transaction key obj = if is_null transaction then pure false else do
    mutex_lock transaction
    t ← get_transaction transaction
    success ← add_parameter t.txn key obj
    mutex_unlock transaction
    pure success

  unfoldable pub add_attribute_int : ℕ → Option CStr → ℕ → M S Bool
  unfolding add_attribute
  add_attribute_int transaction key value = add_attribute transaction key (some (int_value value))

  unfoldable pub add_attribute_long : ℕ → Option CStr → ℕ → M S Bool
  unfolding add_attribute
  add_attribute_long transaction key value = add_attribute transaction key (some (long_value value))

  unfoldable pub add_attribute_double : ℕ → Option CStr → ℕ → M S Bool
  unfolding add_attribute
  add_attribute_double transaction key value =
      add_attribute transaction key (some (double_value value))

  unfoldable pub add_attribute_string : ℕ → Option CStr → Option CStr → M S Bool
  unfolding add_attribute
  add_attribute_string transaction key none = pure false
  add_attribute_string transaction key (some value) =
      add_attribute transaction key (some (string_value value))

  -- The milliseconds are the bit pattern of a `double`.
  unfoldable pub record_custom_metric : ℕ → Option CStr → ℕ → M S Bool
  record_custom_metric transaction none milliseconds = pure false
  record_custom_metric transaction (some name) milliseconds =
      if is_null transaction then pure false else do
        mutex_lock transaction
        t ← get_transaction transaction
        ret ← call perform (nr_txn_add_custom_metric t.txn name milliseconds)
        mutex_unlock transaction
        pure (ret == 0)
