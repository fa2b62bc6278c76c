-- ===== src/Sdk/CustomEvent/Record.antt =====
-- newrelic_record_custom_event of src/custom_event.c.
use c_sdk.Base.{ℕ, suc, ◌≡◌, ◌≢◌, Option, none, some, ◌∷◌, arith, CStr}
use c_sdk.Sdk.Machine.{
  Call, nro_new_hash, nro_delete, nr_txn_record_custom_event, Transaction, World, acquire, release,
  did, Ends, M, ◌>>=◌,
}
use c_sdk.Sdk.Segment.Start.{IsFree}
use c_sdk.Sdk.CustomEvent.{create_custom_event, record_custom_event}

module _ {S : Type 0} (perform : Call → S → ℕ × S) (w : World S) (p : ℕ) (t : Transaction)
    (free : IsFree w p t) where
  -- Both calls, in a row.
  abbrev pub made_and_recorded : CStr → M S (Option ℕ)
  made_and_recorded event_type = do
    event ← create_custom_event perform (some event_type)
    record_custom_event perform p (some event)

  abbrev pub hash : ℕ
  hash = (perform nro_new_hash w.axiom_state).0

  abbrev pub Recorded : CStr → Option ℕ → World S → Type 0
  Recorded event_type ptr w' =
      (ptr ≡ some 0)
      × (w'.events (suc w.last) ≡ none)
      × (w'.trace
          ≡ did (nro_delete hash)
            ∷ release p
            ∷ did (nr_txn_record_custom_event t.txn event_type hash)
            ∷ acquire p
            ∷ did nro_new_hash
            ∷ w.trace)
      × ((q : ℕ) → w'.transactions q ≡ w.transactions q)
      × ((q : ℕ) → q ≢ suc w.last → w'.events q ≡ w.events q)

  -- An event that is made with a type and then recorded in a live transaction with a free lock: its
  -- type and its hash go to axiom under the lock, and the hash is deleted after the lock is given
  -- back. The event is freed, the caller's pointer is cleared, and no
  -- transaction and no other event changes.
  pub record_custom_event-create_custom_event :
      (event_type : CStr) → Ends (Recorded event_type) (made_and_recorded event_type w)
  unfolding create_custom_event record_custom_event
  record_custom_event-create_custom_event event_type = ground arith
