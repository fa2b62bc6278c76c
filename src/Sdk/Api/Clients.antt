-- ===== src/Sdk/Api/Clients.antt =====
-- What the SDK relies on: in axiom, that it keeps the types of its segments, and in the program,
-- that it passes pointers to live objects only.
pub mod Memory
pub mod Unions
pub mod Endings
pub mod Runs
pub mod Faultless
use c_sdk.Base.{
  ℕ, ◌≡◌, ◌≢◌, Bool, true, false, not, ◌&&◌, ◌||◌, Option, none, some, List, [], ◌∷◌, ◌==◌, length,
  ltb, is_some, CStr,
}
use c_sdk.Sdk.Config.{AppConfig, array_size}
use c_sdk.Sdk.Machine.{
  Call, nr_segment_start, nr_segment_type, nr_segment_set_type, nr_txn_destroy, Fields, unset,
  datastore, external, Segment, Transaction, World, ok, fault, is_null,
}
use c_sdk.Sdk.Segment.{segment_custom}
use c_sdk.Sdk.Datastore.{Environment, segment_datastore}
use c_sdk.Sdk.External.{segment_external}
use c_sdk.Sdk.Api.{
  Op, configure_log_op, init_op, shutdown_op, create_app_op, destroy_app_op,
  start_web_transaction_op, start_non_web_transaction_op, set_transaction_timing_op,
  end_transaction_op, ignore_transaction_op, set_transaction_name_op, start_segment_op,
  set_segment_parent_op, set_segment_parent_root_op, set_segment_timing_op, end_segment_op,
  start_datastore_segment_op, start_external_segment_op, add_attribute_int_op,
  add_attribute_long_op, add_attribute_double_op, add_attribute_string_op, record_custom_metric_op,
  create_custom_event_op, discard_custom_event_op, record_custom_event_op,
  custom_event_add_attribute_int_op, custom_event_add_attribute_long_op,
  custom_event_add_attribute_double_op, custom_event_add_attribute_string_op, notice_error_op,
  create_payload_op, create_payload_httpsafe_op, accept_payload_op, accept_payload_httpsafe_op,
  run_op,
}

-- The call that sets the type of a segment.
abbrev pub sets_type : Call → ℕ → Bool
sets_type (nr_segment_set_type y k) x = y == x
sets_type c x = false

-- The call that frees a transaction with its segments.
abbrev pub destroys : Call → ℕ → Bool
destroys (nr_txn_destroy u) t = u == t
destroys c t = false

-- What axiom promises of its segments: until a transaction is destroyed, and `over`, a segment that
-- was started in it is `given`. The address of a new one is none of these, there is a custom segment
-- at it, and the type of a segment is the one that was set last.
pub record Contract {S : Type 0} (perform : Call → S → ℕ × S) : Type 0 where
  pub given : S → ℕ → ℕ → Bool
  pub type_of : S → ℕ → ℕ
  pub over : S → ℕ → Bool
  pub fresh : (t u : ℕ) (s : S) → given s (perform (nr_segment_start t) s).0 u ≡ false
  pub started :
      (t : ℕ) (s : S)
      → (perform (nr_segment_start t) s).0 ≢ 0
      → given (perform (nr_segment_start t) s).1 (perform (nr_segment_start t) s).0 t ≡ true
  pub custom :
      (t : ℕ) (s : S)
      → (perform (nr_segment_start t) s).0 ≢ 0
      → type_of (perform (nr_segment_start t) s).1 (perform (nr_segment_start t) s).0
        ≡ segment_custom
  pub keeps_given :
      (c : Call) (s : S) (x t : ℕ)
      → given s x t ≡ true
      → destroys c t ≡ false
      → given (perform c s).1 x t ≡ true
  pub keeps_type :
      (c : Call) (s : S) (x t : ℕ)
      → given s x t ≡ true
      → destroys c t ≡ false
      → sets_type c x ≡ false
      → type_of (perform c s).1 x ≡ type_of s x
  pub keeps_over :
      (c : Call) (s : S) (t : ℕ) → destroys c t ≡ false → over (perform c s).1 t ≡ over s t
  pub destroyed : (t : ℕ) (s : S) → over (perform (nr_txn_destroy t) s).1 t ≡ true
  pub typed : (x k : ℕ) (s : S) → type_of (perform (nr_segment_set_type x k) s).1 x ≡ k
  pub reported : (x : ℕ) (s : S) → (perform (nr_segment_type x) s).0 ≡ type_of s x

-- The type that the written member of the union stands for.
abbrev pub Matches : ℕ → Fields → Type 0
Matches k unset = k ≡ segment_custom
Matches k (datastore d) = k ≡ segment_datastore
Matches k (external e) = k ≡ segment_external

-- Every live segment of a transaction that is not over has a segment of axiom there, of the type that
-- its union was written for.
unfoldable pub Typed :
    {S : Type 0} {perform : Call → S → ℕ × S} → Contract perform → S → (ℕ → Option Segment) → Type 0
Typed contract s segments =
    (q : ℕ) (v : Segment)
    → segments q ≡ some v
    → contract.over s v.transaction ≡ false
    → (contract.given s v.segment v.transaction ≡ true)
      × Matches (contract.type_of s v.segment) v.fields

-- NULL, or the address of a live object
abbrev pub passes : {A : Type 0} → (ℕ → Option A) → ℕ → Bool
passes objects p = is_null p || is_some (objects p)

abbrev pub passes_ptr : {A : Type 0} → (ℕ → Option A) → Option ℕ → Bool
passes_ptr objects none = true
passes_ptr objects (some p) = passes objects p

-- A segment that keeps the lock of a live transaction, or none
abbrev pub lock_lives : (ℕ → Option Transaction) → Option Segment → Bool
lock_lives transactions none = false
lock_lives transactions (some s) = passes transactions s.txn_lock

-- A live segment of a transaction that is not over
abbrev pub lasts : (ℕ → Bool) → Option Segment → Bool
lasts over none = false
lasts over (some s) = not (over s.transaction)

abbrev pub name_fits : Option AppConfig → Bool
name_fits none = true
name_fits (some c) = ltb (length c.app_name) array_size

module _ {S : Type 0} (perform : Call → S → ℕ × S) (over : S → ℕ → Bool) where
  -- Whether axiom has a segment for a transaction.
  abbrev pub has_segment : World S → Option Transaction → Bool
  has_segment w none = false
  has_segment w (some t) = not (is_null (perform (nr_segment_start t.txn) w.axiom_state).0)

  -- NULL, or a live segment of a transaction that is not over
  abbrev pub passes_segment : World S → ℕ → Bool
  passes_segment w q = is_null q || lasts (over w.axiom_state) (w.segments q)

  abbrev pub passes_segment_ptr : World S → Option ℕ → Bool
  passes_segment_ptr w none = true
  passes_segment_ptr w (some q) = passes_segment w q

  -- The same, with the lock of a live transaction, or none
  abbrev pub passes_locked : World S → ℕ → Bool
  passes_locked w q = is_null q || lock_lives w.transactions (w.segments q) && passes_segment w q

  -- A call that a program may make: with pointers that are NULL or live, on segments of transactions
  -- that are not over, which keep the lock of a live one or none, with a name that fits its array.
  -- For newrelic_start_segment axiom must have a segment to give.
  unfoldable pub may_call : World S → Op → Bool
  may_call w (configure_log_op f l) = true
  may_call w (init_op s l) = true
  may_call w shutdown_op = true
  may_call w (create_app_op c l) = name_fits c
  may_call w (destroy_app_op a) = passes_ptr w.apps a
  may_call w (start_web_transaction_op a n) = passes w.apps a
  may_call w (start_non_web_transaction_op a n) = passes w.apps a
  may_call w (set_transaction_timing_op p a d) = passes w.transactions p
  may_call w (end_transaction_op p) = passes_ptr w.transactions p
  may_call w (ignore_transaction_op p) = passes w.transactions p
  may_call w (set_transaction_name_op p n) = passes w.transactions p
  may_call w (start_segment_op p n c) = is_null p || has_segment w (w.transactions p)
  may_call w (set_segment_parent_op s q) = passes_locked w s && passes_segment w q
  may_call w (set_segment_parent_root_op s) = passes_locked w s
  may_call w (set_segment_timing_op s a d) = passes_locked w s
  may_call w (end_segment_op p s) = passes w.transactions p && passes_segment_ptr w s
  may_call w (start_datastore_segment_op p d) = passes w.transactions p
  may_call w (start_external_segment_op p e) = passes w.transactions p
  may_call w (add_attribute_int_op p k v) = passes w.transactions p
  may_call w (add_attribute_long_op p k v) = passes w.transactions p
  may_call w (add_attribute_double_op p k v) = passes w.transactions p
  may_call w (add_attribute_string_op p k v) = passes w.transactions p
  may_call w (record_custom_metric_op p n m) = passes w.transactions p
  may_call w (create_custom_event_op t) = true
  may_call w (discard_custom_event_op e) = passes_ptr w.events e
  may_call w (record_custom_event_op p e) = passes w.transactions p && passes_ptr w.events e
  may_call w (custom_event_add_attribute_int_op e k v) = passes w.events e
  may_call w (custom_event_add_attribute_long_op e k v) = passes w.events e
  may_call w (custom_event_add_attribute_double_op e k v) = passes w.events e
  may_call w (custom_event_add_attribute_string_op e k v) = passes w.events e
  may_call w (notice_error_op p n m c) = passes w.transactions p
  may_call w (create_payload_op p s) = passes w.transactions p && passes_segment w s
  may_call w (create_payload_httpsafe_op p s) = passes w.transactions p && passes_segment w s
  may_call w (accept_payload_op p d t) = passes w.transactions p
  may_call w (accept_payload_httpsafe_op p d t) = passes w.transactions p

  -- A program all of whose calls are such, each in the world that the calls before it left. What
  -- comes after a fault does not count.
  unfoldable pub obeys : CStr → Environment → List Op → World S → Bool
  unfolding may_call run_op
  obeys version env [] w = true
  obeys version env (op ∷ ops) w = may_call w op && elim (run_op perform version env op w) [
    | ok a w' ↦ obeys version env ops w'
    | fault e ↦ true
  ]
