-- ===== src/Sdk/Segment/Parent.antt =====
-- newrelic_set_segment_parent and newrelic_set_segment_parent_root of src/segment.c.
use c_sdk.Base.{ℕ, ◌≡◌, ◌≢◌, Bool, not, some, List, ◌∷◌, ◌++◌, arith, CStr, codes, ◌==◌}
use c_sdk.Sdk.Machine.{
  Call, nr_segment_set_parent, nrm_force_add, segment_root, Segment, Transaction, World, Event,
  acquire, release, did, Ends,
}
use c_sdk.Sdk.Segment.Start.{IsFree}
use c_sdk.Sdk.Segment.{set_segment_parent, set_segment_parent_root}

abbrev pub supportability : CStr → CStr
supportability name = codes "Supportability/C/api/" ++ name

module _ {S : Type 0} (perform : Call → S → ℕ × S) (w : World S) where
  module _ (p x : ℕ) (t : Transaction) (s : Segment) (free : IsFree w p t) (address : x ≢ 0)
      (live : w.segments x ≡ some s) (locks : s.txn_lock ≡ p) (on : s.transaction ≢ 0) where
    -- The reply to the last call, the events of the call, and the objects as they were.
    abbrev pub Reparented : Call → List Event → S → Bool → World S → Type 0
    Reparented c before st b w' =
        (b ≡ not ((perform c st).0 == 0))
        × (w'.trace ≡ release p ∷ did c ∷ before)
        × ((q : ℕ) → w'.transactions q ≡ w.transactions q)
        × ((q : ℕ) → w'.segments q ≡ w.segments q)

    abbrev pub metric : CStr → Call
    metric name = nrm_force_add s.transaction (supportability name)

    -- The parent's segment is handed to axiom after the metric.
    abbrev pub Joined : Segment → Bool → World S → Type 0
    Joined q =
        Reparented (nr_segment_set_parent s.segment q.segment)
          (did (metric (codes "set_segment_parent")) ∷ acquire p ∷ w.trace)
          (perform (metric (codes "set_segment_parent")) w.axiom_state).1

    -- newrelic_set_segment_parent on two different live segments, the first of which keeps a
    -- transaction's lock that is free: under the lock the metric is counted and axiom is asked for
    -- the new parent; the status is axiom's. No segment and no transaction changes.
    pub set_segment_parent-Ends :
        (y : ℕ) (q : Segment)
        → y ≢ 0
        → x ≢ y
        → w.segments y ≡ some q
        → Ends (Joined q) (set_segment_parent perform x y w)
    unfolding set_segment_parent
    set_segment_parent-Ends y q h1 h2 h3 = ground arith

    abbrev root : Call
    root = segment_root s.transaction

    -- Axiom's state after the root is read, and after the metric that follows.
    abbrev read_root : S
    read_root = (perform root w.axiom_state).1

    abbrev counted : S
    counted = (perform (metric (codes "set_segment_parent_root")) read_root).1

    -- The root is read, counted for, read again and handed to axiom.
    abbrev pub Rooted : ℕ → Bool → World S → Type 0
    Rooted r =
        Reparented (nr_segment_set_parent s.segment r)
          (did root
            ∷ did (metric (codes "set_segment_parent_root"))
            ∷ acquire p
            ∷ did root
            ∷ w.trace)
          (perform root counted).1

    -- newrelic_set_segment_parent_root, where the transaction's root stays the same: the root is
    -- read once before the lock is taken, to test it for NULL, and again under the lock, where it
    -- becomes the parent; the status is axiom's. No segment and no transaction changes.
    pub set_segment_parent_root-Ends :
        (r : ℕ)
        → r ≢ 0
        → ((st : S) → (perform root st).0 ≡ r)
        → Ends (Rooted r) (set_segment_parent_root perform x w)
    unfolding set_segment_parent_root
    set_segment_parent_root-Ends r h reads = ground (arith, reads w.axiom_state, reads counted)
