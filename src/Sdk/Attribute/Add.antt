-- ===== src/Sdk/Attribute/Add.antt =====
-- newrelic_add_attribute of src/attribute.c.
use c_sdk.Base.{ℕ, ◌≡◌, Bool, false, not, Option, none, some, ◌∷◌, arith, CStr, ◌==◌}
use c_sdk.Sdk.Machine.{
  Call, Value, nr_txn_add_user_custom_parameter, Transaction, World, acquire, release, did, Ends,
  nr_failure,
}
use c_sdk.Sdk.Segment.Start.{IsFree}
use c_sdk.Sdk.Attribute.{add_attribute}

module _ {S : Type 0} (perform : Call → S → ℕ × S) (w : World S) (p : ℕ) (t : Transaction)
    (free : IsFree w p t) where
  -- The parameter that a key and a value make, if both are given.
  abbrev pub parameter : Option CStr → Option Value → Option Call
  parameter none v = none
  parameter (some k) none = none
  parameter (some k) (some v) = some (nr_txn_add_user_custom_parameter t.txn k v)

  abbrev pub Added : Option Call → Bool → World S → Type 0
  Added none b w' = (b ≡ false) × (w'.trace ≡ release p ∷ acquire p ∷ w.trace)
  Added (some c) b w' =
      (b ≡ not ((perform c w.axiom_state).0 == nr_failure))
      × (w'.trace ≡ release p ∷ did c ∷ acquire p ∷ w.trace)

  abbrev pub Given : Option CStr → Option Value → Bool → World S → Type 0
  Given key v b w' = Added (parameter key v) b w' × ((q : ℕ) → w'.transactions q ≡ w.transactions q)

  -- newrelic_add_attribute on a live transaction with a free lock: under the lock the parameter is
  -- handed to axiom, whose status is returned. With no key or no value nothing is handed over and
  -- the result is false; the lock is taken and given back all the same.
  pub add_attribute-Ends :
      (key : Option CStr) (v : Option Value) → Ends (Given key v) (add_attribute perform p key v w)
  unfolding add_attribute
  add_attribute-Ends none v = ground arith
  add_attribute-Ends (some k) none = ground arith
  add_attribute-Ends (some k) (some v) = ground arith
