-- ===== src/Sdk/Api/Discipline.antt =====
-- Which lock guards what: a call of axiom on the data of a transaction is to be made with the lock of
-- that transaction held. Two reads are not counted, since the SDK makes them without it: that of
-- a segment's type, which newrelic_segment_destroy makes after the lock was given back, and that of
-- the root of a transaction, which newrelic_set_segment_parent_root makes before it takes the lock.
pub mod Calls
pub mod Endings
pub mod Steps
use c_sdk.Base.{
  ℕ, ◌≡◌, ◌≢◌, Bool, true, false, not, ◌&&◌, ◌||◌, Option, none, some, List, [], ◌∷◌, ◌==◌, CStr,
}
use c_sdk.Sdk.Machine.{
  Call, nr_segment_start, nr_segment_set_type, nr_segment_set_name, nr_segment_set_parent,
  nr_segment_set_timing, nr_segment_end, nr_segment_add_metric, nr_segment_datastore_end,
  nr_segment_external_end, nrm_force_add, nr_txn_set_timing, nr_txn_force_single_count, nr_txn_end,
  status_ignore, nr_cmd_txndata_tx, nr_txn_destroy, nr_txn_set_path, nr_txn_set_as_web_transaction,
  nr_txn_set_as_background_job, nr_txn_ignore, nr_txn_add_user_custom_parameter,
  nr_txn_record_custom_event, nr_txn_add_custom_metric, err_enabled, recording, txn_error,
  nr_txn_record_error_worthy, nr_txn_record_error, nr_txn_create_distributed_trace_payload,
  nr_txn_accept_distributed_trace_payload, nr_txn_accept_distributed_trace_payload_httpsafe, Event,
  acquire, release, acquire_app, release_app, acquire_static, release_static, did, Segment,
  Transaction, World, Outcome, ok, fault, is_null,
}
use c_sdk.Sdk.Datastore.{Environment}
use c_sdk.Sdk.Api.{
  Op, start_web_transaction_op, start_non_web_transaction_op, ignore_transaction_op,
  set_transaction_name_op, set_segment_parent_op, set_segment_parent_root_op, set_segment_timing_op,
  run_op,
}

-- The lock of a transaction that is held after these events, newest first; 0 for none.
abbrev pub held : List Event → ℕ
held [] = 0
held (acquire p ∷ tr) = p
held (release p ∷ tr) = 0
held (e ∷ tr) = held tr

-- `owner` says which transaction of axiom a lock guards, and `home` which one a segment of axiom is
-- of.
module _ (home : ℕ → ℕ) where
  -- The transaction of axiom whose data a call reads or writes, for the calls that are counted:
  -- nr_segment_type and the read of the root are not. Of two segments that nr_segment_set_parent is
  -- given, the one that moves counts, and for a payload the transaction, not the segment.
  abbrev pub subject : Call → Option ℕ
  subject (nr_segment_start t) = some t
  subject (nr_segment_set_type s k) = some (home s)
  subject (nr_segment_set_name s n) = some (home s)
  subject (nr_segment_set_parent s p) = some (home s)
  subject (nr_segment_set_timing s a d) = some (home s)
  subject (nr_segment_end s) = some (home s)
  subject (nr_segment_add_metric s b) = some (home s)
  subject (nr_segment_datastore_end s d) = some (home s)
  subject (nr_segment_external_end s e) = some (home s)
  subject (nrm_force_add t n) = some t
  subject (nr_txn_set_timing t a d) = some t
  subject (nr_txn_force_single_count t n) = some t
  subject (nr_txn_end t) = some t
  subject (status_ignore t) = some t
  subject (nr_cmd_txndata_tx t) = some t
  subject (nr_txn_destroy t) = some t
  subject (nr_txn_set_path o t n k) = some t
  subject (nr_txn_set_as_web_transaction t) = some t
  subject (nr_txn_set_as_background_job t) = some t
  subject (nr_txn_ignore t) = some t
  subject (nr_txn_add_user_custom_parameter t k v) = some t
  subject (nr_txn_record_custom_event t n e) = some t
  subject (nr_txn_add_custom_metric t n m) = some t
  subject (err_enabled t) = some t
  subject (recording t) = some t
  subject (txn_error t) = some t
  subject (nr_txn_record_error_worthy t n) = some t
  subject (nr_txn_record_error t n m c s) = some t
  subject (nr_txn_create_distributed_trace_payload t s) = some t
  subject (nr_txn_accept_distributed_trace_payload t d k) = some t
  subject (nr_txn_accept_distributed_trace_payload_httpsafe t d k) = some t
  subject c = none

module _ (owner home : ℕ → ℕ) where
  abbrev pub guards : ℕ → Option ℕ → Bool
  guards lock none = true
  guards lock (some t) = not (is_null lock) && (owner lock == t)

  -- One lock at a time is taken, the one that is held is given back, and each call is made under the
  -- lock that guards its subject.
  abbrev pub disciplined : List Event → Bool
  disciplined [] = true
  disciplined (acquire p ∷ tr) = not (is_null p) && is_null (held tr) && disciplined tr
  disciplined (release p ∷ tr) = (held tr == p) && disciplined tr
  disciplined (did c ∷ tr) = guards (held tr) (subject home c) && disciplined tr
  disciplined (e ∷ tr) = disciplined tr

  -- A world whose objects are guarded so, with a lock held, or 0 for none.
  pub record IsGuarded {S : Type 0} (lock : ℕ) (w : World S) : Type 0 where
    pub transactions : (p : ℕ) (t : Transaction) → w.transactions p ≡ some t → owner p ≡ t.txn
    pub segments : (q : ℕ) (s : Segment) → w.segments q ≡ some s → home s.segment ≡ s.transaction
    pub locks :
        (q : ℕ) (s : Segment)
        → w.segments q ≡ some s
        → s.txn_lock ≢ 0
        → owner s.txn_lock ≡ s.transaction
    pub null : w.segments 0 ≡ none
    pub holding : held w.trace ≡ lock
    pub so_far : disciplined w.trace ≡ true

  -- The run keeps that, or faults.
  abbrev pub Guarded : {S A : Type 0} → ℕ → Outcome S A → Type 0
  Guarded lock (ok a w) = IsGuarded lock w
  Guarded lock (fault e) = Unit {0}

-- A segment that axiom starts is of the transaction that it was asked for.
abbrev pub IsHome : {S : Type 0} → (Call → S → ℕ × S) → (ℕ → ℕ) → Type 0
IsHome {S} perform home =
    (t : ℕ) (s : S)
    → (perform (nr_segment_start t) s).0 ≢ 0
    → home (perform (nr_segment_start t) s).0 ≡ t

-- A live segment whose lock is not NULL
abbrev pub keeps_lock : Option Segment → Bool
keeps_lock none = false
keeps_lock (some s) = not (is_null s.txn_lock)

module _ {S : Type 0} where
  -- A call that finds the lock for what it does: it is not one of those that use none, it starts no
  -- transaction, which nobody else has yet, and the segment that it changes keeps a lock.
  unfoldable pub under_lock : World S → Op → Bool
  under_lock w (start_web_transaction_op a n) = false
  under_lock w (start_non_web_transaction_op a n) = false
  under_lock w (ignore_transaction_op p) = false
  under_lock w (set_transaction_name_op p n) = false
  under_lock w (set_segment_parent_op s q) = is_null s || keeps_lock (w.segments s)
  under_lock w (set_segment_parent_root_op s) = is_null s || keeps_lock (w.segments s)
  under_lock w (set_segment_timing_op s a d) = is_null s || keeps_lock (w.segments s)
  under_lock w op = true

module _ {S : Type 0} (perform : Call → S → ℕ × S) where
  -- A program all of whose calls are such, each in the world that the calls before it left. What
  -- comes after a fault does not count.
  unfoldable pub abides : CStr → Environment → List Op → World S → Bool
  unfolding under_lock run_op
  abides version env [] w = true
  abides version env (op ∷ ops) w = under_lock w op && elim (run_op perform version env op w) [
    | ok a w' ↦ abides version env ops w'
    | fault e ↦ true
  ]
