-- ===== src/Sdk/DistributedTrace/Payload.antt =====
-- newrelic_create_distributed_trace_payload and its HTTP-safe form, of src/distributed_trace.c.
use c_sdk.Base.{ℕ, ◌≡◌, ◌≢◌, some, List, ◌∷◌, arith, ◌==◌, if◌then◌else◌}
use c_sdk.Sdk.Machine.{
  Call, segment_root, nr_txn_create_distributed_trace_payload, nr_b64_encode, Segment, Transaction,
  World, Event, acquire, release, did, Ends,
}
use c_sdk.Sdk.Segment.Start.{IsFree}
use c_sdk.Sdk.DistributedTrace.{create_distributed_trace_payload_httpsafe}

module _ {S : Type 0} (perform : Call → S → ℕ × S) (w : World S) (p : ℕ) (t : Transaction)
    (free : IsFree w p t) where
  -- The payload that axiom makes for a segment in a state, and its base64 form; 0 is NULL.
  abbrev payload : ℕ → S → ℕ × S
  payload seg = perform (nr_txn_create_distributed_trace_payload t.txn seg)

  abbrev encoded : ℕ × S → ℕ
  encoded (made, s) = if made == 0 then 0 else (perform (nr_b64_encode made) s).0

  abbrev pub Encoded : ℕ → S → List Event → ℕ → World S → Type 0
  Encoded seg s before r w' =
      (r ≡ encoded (payload seg s))
      × (w'.trace ≡ (
          if (payload seg s).0 == 0
          then release p ∷ did (nr_txn_create_distributed_trace_payload t.txn seg) ∷ before
          else did (nr_b64_encode (payload seg s).0)
            ∷ release p
            ∷ did (nr_txn_create_distributed_trace_payload t.txn seg)
            ∷ before))
      × ((q : ℕ) → w'.transactions q ≡ w.transactions q)

  -- With no segment the payload is made for the root, which is read under the lock.
  abbrev rooted : ℕ × S
  rooted = perform (segment_root t.txn) w.axiom_state

  abbrev pub Rooted : ℕ → World S → Type 0
  Rooted = Encoded rooted.0 rooted.1 (did (segment_root t.txn) ∷ acquire p ∷ w.trace)

  -- With no segment, on a live transaction with a free lock,
  -- newrelic_create_distributed_trace_payload_httpsafe has axiom make the payload for the root
  -- segment under the lock, and encodes it after the lock is given back. A NULL payload is not
  -- encoded, and the result is NULL.
  pub httpsafe-root : Ends Rooted (create_distributed_trace_payload_httpsafe perform p 0 w)
  unfolding create_distributed_trace_payload_httpsafe
  httpsafe-root = ground arith

  -- With a segment the payload is made for it.
  pub httpsafe-segment :
      (x : ℕ) (s : Segment)
      → x ≢ 0
      → w.segments x ≡ some s
      → Ends
          (Encoded s.segment w.axiom_state (acquire p ∷ w.trace))
          (create_distributed_trace_payload_httpsafe perform p x w)
  unfolding create_distributed_trace_payload_httpsafe
  httpsafe-segment x s h e = ground arith
