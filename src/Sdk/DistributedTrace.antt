-- ===== src/Sdk/DistributedTrace.antt =====
-- src/distributed_trace.c: distributed trace payloads. A payload is a pointer, 0 for NULL.
pub mod Payload
use c_sdk.Base.{ℕ, Bool, true, false, not, Option, none, some, ◌==◌, if◌then◌else◌, CStr}
use c_sdk.Sdk.Machine.{
  M, Call, segment_root, nr_txn_create_distributed_trace_payload, nr_b64_encode,
  nr_txn_accept_distributed_trace_payload, nr_txn_accept_distributed_trace_payload_httpsafe, pure,
  ◌>>=◌, ◌>>◌, is_null, get_transaction, get_segment, mutex_lock, mutex_unlock, call, call_,
}

module _ {S : Type 0} (perform : Call → S → ℕ × S) where
  -- The axiom segment that a payload is made for: the root stands in for a NULL segment.
  payload_segment : ℕ → ℕ → M S ℕ
  payload_segment txn segment =
      if is_null segment
      then call perform (segment_root txn)
      else do s ← get_segment segment; pure s.segment

  unfoldable pub create_distributed_trace_payload : ℕ → ℕ → M S ℕ
  unfolding payload_segment
  create_distributed_trace_payload transaction segment = if is_null transaction then pure 0 else do
    mutex_lock transaction
    t ← get_transaction transaction
    s ← payload_segment t.txn segment
    payload ← call perform (nr_txn_create_distributed_trace_payload t.txn s)
    mutex_unlock transaction
    pure payload

  unfoldable pub create_distributed_trace_payload_httpsafe : ℕ → ℕ → M S ℕ
  unfolding create_distributed_trace_payload
  create_distributed_trace_payload_httpsafe transaction segment = do
    payload ← create_distributed_trace_payload transaction segment
    if is_null payload then pure 0 else call perform (nr_b64_encode payload)

  unfoldable pub accept_distributed_trace_payload : ℕ → Option CStr → Option CStr → M S Bool
  accept_distributed_trace_payload transaction payload transport_type =
      if is_null transaction then pure false else do
        mutex_lock transaction
        t ← get_transaction transaction
        ret ← call perform (nr_txn_accept_distributed_trace_payload t.txn payload transport_type)
        mutex_unlock transaction
        pure (not (ret == 0))

  unfoldable pub accept_distributed_trace_payload_httpsafe :
      ℕ → Option CStr → Option CStr → M S Bool
  accept_distributed_trace_payload_httpsafe transaction payload transport_type =
      if is_null transaction then pure false else do
        mutex_lock transaction
        t ← get_transaction transaction
        ret ←
            call perform
              (nr_txn_accept_distributed_trace_payload_httpsafe t.txn payload transport_type)
        mutex_unlock transaction
        pure (not (ret == 0))
