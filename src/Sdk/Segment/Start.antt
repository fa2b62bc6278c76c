-- ===== src/Sdk/Segment/Start.antt =====
-- newrelic_start_segment of src/segment.c: what it leaves behind, and where it crashes.
use c_sdk.Base.{
  codes, if◌then◌else◌, ◌++◌, ℕ, suc, ◌≡◌, ◌≢◌, false, Option, none, some, ◌∷◌, arith, CStr,
}
use c_sdk.Sdk.Machine.{
  Call, nr_segment_start, nr_segment_set_name, Transaction, World, fault, dangling, acquire,
  release, acquire_static, release_static, did, Ends,
}
use c_sdk.Sdk.Segment.{start_segment}
use c_sdk.Sdk.Segment.Create.{has_slash, new_segment}

-- A transaction at an address, with its lock free.
pub record IsFree {S : Type 0} (w : World S) (p : ℕ) (t : Transaction) : Type 0 where
  pub address : p ≢ 0
  pub live : w.transactions p ≡ some t
  pub unlocked : t.locked ≡ false

-- A name without a slash, or a default.
abbrev pub clean : Option CStr → CStr → CStr
clean none d = d
clean (some s) d = if has_slash s then d else s

module _ {S : Type 0} (perform : Call → S → ℕ × S) (w : World S) (p : ℕ) (t : Transaction)
    (free : IsFree w p t) where
  -- newrelic_start_segment where axiom starts no segment: the function writes through the NULL
  -- pointer that it is about to return.
  pub start_segment-null :
      (name category : Option CStr)
      → w.segments 0 ≡ none
      → (perform (nr_segment_start t.txn) w.axiom_state).0 ≡ 0
      → start_segment perform p name category w ≡ fault dangling
  unfolding start_segment
  start_segment-null name category null refused = ground arith

  abbrev new : ℕ
  new = (perform (nr_segment_start t.txn) w.axiom_state).0

  abbrev pub StartedCustom : CStr → ℕ → World S → Type 0
  StartedCustom name a w' =
      (a ≡ suc w.last)
      × (w'.segments a ≡ some (record (new_segment new t.txn) { txn_lock = p }))
      × (w'.trace
          ≡ release p
            ∷ did (nr_segment_set_name new name)
            ∷ release_static
            ∷ acquire_static
            ∷ did (nr_segment_start t.txn)
            ∷ acquire p
            ∷ w.trace)
      × ((q : ℕ) → w'.transactions q ≡ w.transactions q)
      × ((q : ℕ) → q ≢ a → w'.segments q ≡ w.segments q)

  -- newrelic_start_segment on a live transaction with a free lock, where axiom starts a segment: the
  -- result is a new address with that segment, which keeps the lock of the transaction; the segment
  -- is made and named under the lock. No transaction and no other segment changes.
  pub start_segment-Ends :
      (name category : Option CStr)
      → new ≢ 0
      → Ends
          (StartedCustom
            (clean category (codes "Custom") ++ (b'/' ∷ clean name (codes "Unnamed Segment"))))
          (start_segment perform p name category w)
  unfolding start_segment
  start_segment-Ends name category started = ground arith
