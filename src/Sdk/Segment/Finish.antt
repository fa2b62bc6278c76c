-- ===== src/Sdk/Segment/Finish.antt =====
-- newrelic_end_segment of src/segment.c, with what it does for each type of segment.
use c_sdk.Base.{ℕ, ◌<◌, ◌≡◌, ◌≢◌, Bool, true, false, Option, none, some, List, [], ◌∷◌, ◌++◌, arith}
use c_sdk.Sdk.Machine.{
  Call, nr_segment_type, nr_segment_end, nr_segment_add_metric, nr_segment_datastore_end,
  nr_segment_external_end, Segment, Fields, datastore, external, DatastoreFields, ExternalFields,
  Transaction, World, Event, acquire, release, did, Ends,
}
use c_sdk.Sdk.Datastore.{segment_datastore}
use c_sdk.Sdk.External.{segment_external}
use c_sdk.Sdk.Segment.{end_segment, end_matching, end_locked, segment_custom, end_typed, finish}
use c_sdk.Sdk.Segment.Start.{IsFree}

-- Axiom reports the same type for a segment in every state.
abbrev pub HasType : {S : Type 0} → (Call → S → ℕ × S) → ℕ → ℕ → Type 0
HasType {S} perform seg ty = (s : S) → (perform (nr_segment_type seg) s).0 ≡ ty

-- The member of the union that was written is the one that the type stands for.
pub data Agrees (ty : ℕ) (f : Fields) : Type 0 where
  as_custom : ty ≡ segment_custom → Agrees ty f
  as_datastore : (d : DatastoreFields) → ty ≡ segment_datastore → f ≡ datastore d → Agrees ty f
  as_external : (e : ExternalFields) → ty ≡ segment_external → f ≡ external e → Agrees ty f
  as_unknown : segment_external < ty → Agrees ty f

-- What ending the segment comes to in axiom, newest first.
pub ending : {ty : ℕ} {f : Fields} → ℕ → Agrees ty f → List Event
ending seg (as_custom _) = did (nr_segment_add_metric seg true) ∷ did (nr_segment_end seg) ∷ []
ending seg (as_datastore d _ _) =
    did (nr_segment_datastore_end seg d) ∷ did (nr_segment_type seg) ∷ []
ending seg (as_external e _ _) =
    did (nr_segment_external_end seg e) ∷ did (nr_segment_type seg) ∷ []
ending seg (as_unknown _) = []

module _ {S : Type 0} (perform : Call → S → ℕ × S) (w : World S) (p x : ℕ) (t : Transaction)
    (s : Segment) (ty : ℕ) where
  -- The caller's segment: live, of this transaction, with axiom's segment behind it.
  pub record IsOpen : Type 0 where
    pub address : x ≢ 0
    pub live : w.segments x ≡ some s
    pub segment : s.segment ≢ 0
    pub transaction : s.transaction ≢ 0
    pub type_of : HasType perform s.segment ty

module _ {S : Type 0} (perform : Call → S → ℕ × S) (w : World S) (p x : ℕ) (t : Transaction)
    (s : Segment) (ty : ℕ) (free : IsFree w p t) (is_open : IsOpen perform w p x t s ty) where
  abbrev pub Ended : Agrees ty s.fields → Bool × Option ℕ → World S → Type 0
  Ended agrees (status, ptr) w' =
      (status ≡ true)
      × (ptr ≡ some 0)
      × (w'.segments x ≡ none)
      × (w'.trace
          ≡ did (nr_segment_type s.segment)
            ∷ release p
            ∷ (ending s.segment agrees ++ did (nr_segment_type s.segment) ∷ acquire p ∷ w.trace))
      × ((q : ℕ) → w'.transactions q ≡ w.transactions q)
      × ((q : ℕ) → q ≢ x → w'.segments q ≡ w.segments q)

  -- Axiom's state after a call.
  abbrev after : Call → S → S
  after c st = (perform c st).1

  abbrev seg : ℕ
  seg = s.segment

  abbrev typed : S
  typed = after (nr_segment_type seg) w.axiom_state

  -- newrelic_end_segment on a live segment of a live transaction with a free lock, where axiom
  -- reports one type of the segment in every state and the union holds the member of that type:
  -- under the lock the segment is ended as its type asks for, which for a type that is not known
  -- is nothing at all. Then, with the lock given back, the segment is freed and the caller's
  -- pointer cleared. The result is true for every type. No transaction and no
  -- other segment changes.
  pub end_segment-Ends :
      (agrees : Agrees ty s.fields)
      → t.txn ≡ s.transaction
      → Ends (Ended agrees) (end_segment perform p (some x) w)
  unfolding end_segment end_matching end_locked end_typed finish ending
  end_segment-Ends (as_custom e) same = ground (
    arith,
    is_open.type_of w.axiom_state,
    is_open.type_of (after (nr_segment_add_metric seg true) (after (nr_segment_end seg) typed)),
  )
  end_segment-Ends (as_datastore d e f) same = ground (
    arith,
    is_open.type_of w.axiom_state,
    is_open.type_of typed,
    is_open.type_of (after (nr_segment_datastore_end seg d) (after (nr_segment_type seg) typed)),
  )
  end_segment-Ends (as_external d e f) same = ground (
    arith,
    is_open.type_of w.axiom_state,
    is_open.type_of typed,
    is_open.type_of (after (nr_segment_external_end seg d) (after (nr_segment_type seg) typed)),
  )
  end_segment-Ends (as_unknown e) same =
      ground (arith, is_open.type_of w.axiom_state, is_open.type_of typed)

  -- The outcome of ending a segment through a transaction that it does not belong to.
  abbrev pub Refused : Bool × Option ℕ → World S → Type 0
  Refused (status, ptr) w' =
      (status ≡ false)
      × (ptr ≡ some 0)
      × (w'.segments x ≡ none)
      × (w'.trace ≡ did (nr_segment_type s.segment) ∷ w.trace)
      × ((q : ℕ) → w'.transactions q ≡ w.transactions q)
      × ((q : ℕ) → q ≢ x → w'.segments q ≡ w.segments q)

  -- newrelic_end_segment on a live segment, through a live transaction with a free lock that is not
  -- the one of the segment, where axiom reports one type of the segment in every state and the
  -- union holds the member of that type: no lock is taken, the segment is not ended in axiom, which
  -- is asked for its type only, and the result is false. But the segment is freed, and the caller's
  -- pointer is cleared. No transaction and no other segment changes.
  pub end_segment-Refused :
      Agrees ty s.fields → t.txn ≢ s.transaction → Ends Refused (end_segment perform p (some x) w)
  unfolding end_segment end_matching end_locked end_typed finish
  end_segment-Refused (as_custom e) other = ground (arith, is_open.type_of w.axiom_state)
  end_segment-Refused (as_datastore d e f) other = ground (arith, is_open.type_of w.axiom_state)
  end_segment-Refused (as_external d e f) other = ground (arith, is_open.type_of w.axiom_state)
  end_segment-Refused (as_unknown e) other = ground (arith, is_open.type_of w.axiom_state)
