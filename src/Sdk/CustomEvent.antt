-- ===== src/Sdk/CustomEvent.antt =====
-- src/custom_event.c: custom events, which the caller owns until they are recorded or discarded.
pub mod Record
use c_sdk.Base.{ℕ, Bool, true, false, not, ◌||◌, Option, none, some, ◌==◌, if◌then◌else◌, CStr}
use c_sdk.Sdk.Config.{text}
use c_sdk.Sdk.Machine.{
  M, Call, Value, int_value, long_value, double_value, string_value, nro_new_hash, nro_set_hash,
  nro_delete, nr_txn_record_custom_event, pure, ◌>>=◌, ◌>>◌, is_null, malloc, get_event, put_event,
  get_transaction, mutex_lock, mutex_unlock, call, call_,
}

module _ {S : Type 0} (perform : Call → S → ℕ × S) where
  unfoldable pub create_custom_event : Option CStr → M S ℕ
  create_custom_event none = pure 0
  create_custom_event (some event_type) = do
    event ← malloc
    attributes ← call perform nro_new_hash
    put_event event (some (record { type_of = event_type; attributes = attributes }))
    pure event

  -- The argument is `none` for a NULL pointer to a pointer; the new pointer is returned.
  unfoldable pub discard_custom_event : Option ℕ → M S (Option ℕ)
  discard_custom_event none = pure none
  discard_custom_event (some event) = if is_null event then pure (some event) else do
    e ← get_event event
    call_ perform (nro_delete e.attributes)
    put_event event none
    pure (some 0)

  unfoldable pub record_custom_event : ℕ → Option ℕ → M S (Option ℕ)
  unfolding discard_custom_event
  record_custom_event transaction none = pure none
  record_custom_event transaction (some event) =
      if is_null transaction || is_null event then pure (some event) else do
        mutex_lock transaction
        t ← get_transaction transaction
        e ← get_event event
        call_ perform (nr_txn_record_custom_event t.txn e.type_of e.attributes)
        mutex_unlock transaction
        discard_custom_event (some event)

  unfoldable pub add_event_attribute : ℕ → Option CStr → Value → M S Bool
  add_event_attribute event key value = if is_null event then pure false else do
    e ← get_event event
    set ← call perform (nro_set_hash e.attributes key value)
    pure (set == 0)

  unfoldable pub custom_event_add_attribute_int : ℕ → Option CStr → ℕ → M S Bool
  unfolding add_event_attribute
  custom_event_add_attribute_int event key value = add_event_attribute event key (int_value value)

  unfoldable pub custom_event_add_attribute_long : ℕ → Option CStr → ℕ → M S Bool
  unfolding add_event_attribute
  custom_event_add_attribute_long event key value = add_event_attribute event key (long_value value)

  unfoldable pub custom_event_add_attribute_double : ℕ → Option CStr → ℕ → M S Bool
  unfolding add_event_attribute
  custom_event_add_attribute_double event key value =
      add_event_attribute event key (double_value value)

  -- `nro_new_string` takes NULL for the empty string.
  unfoldable pub custom_event_add_attribute_string : ℕ → Option CStr → Option CStr → M S Bool
  unfolding add_event_attribute
  custom_event_add_attribute_string event key value =
      add_event_attribute event key (string_value (text value))
