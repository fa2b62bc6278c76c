-- ===== src/Sdk/Api/Discipline/Endings.antt =====
-- newrelic_end_segment ends a segment under the lock of its transaction.
use c_sdk.Base.{ℕ, ◌≡◌, ◌≢◌, refl, true, false, Option, none, some, ◌∷◌, arith, CStr}
use c_sdk.Sdk.Machine.{
  Call, nr_segment_type, World, Outcome, ok, fault, Segment, Transaction, M, did, acquire, update,
  is_null, mutex_unlock,
}
use c_sdk.Sdk.Segment.{end_segment, end_matching, end_locked, end_typed}
use c_sdk.Sdk.Api.Discipline.{IsGuarded, Guarded}
use c_sdk.Sdk.Api.Discipline.Calls

module _ {S : Type 0} (perform : Call → S → ℕ × S) (version : CStr) (owner home : ℕ → ℕ) where
  end_typed-Guarded :
      (lock : ℕ) (w : World S)
      → IsGuarded owner home lock w
      → lock ≢ 0
      → (k x : ℕ) (v : Segment) → w.segments x ≡ some v
      → owner lock ≡ v.transaction
      → Guarded owner home lock (end_typed perform k x v w)
  unfolding end_typed
  end_typed-Guarded lock w g h k x v live own = grind (arith, g.transactions, g.segments, g.locks)

  unlock-Guarded :
      (lock : ℕ) (w : World S)
      → IsGuarded owner home lock w
      → lock ≢ 0
      → Guarded owner home 0 (mutex_unlock lock w)
  unlock-Guarded lock w g h = grind (arith, g.transactions, g.segments, g.locks)

  -- Two runs in a row.
  pub Guarded-bind :
      {A B : Type 0} (lock : ℕ) (m : Outcome S A) (k : A → M S B)
      → Guarded owner home lock m
      → ((a : A) (w : World S) → IsGuarded owner home lock w → Guarded owner home 0 (k a w))
      → Guarded owner home 0 (elim m as (λ _. Outcome S B) [ ok a w' ↦ k a w' | fault e ↦ fault e ])
  Guarded-bind lock (ok a w) k h f = f a w h
  Guarded-bind lock (fault e) k h f = tt

  module _ (w : World S) (g : IsGuarded owner home 0 w) (p x : ℕ) (v : Segment)
      (live : w.segments x ≡ some v) (there : is_null p ≡ false) where
    module _ (t : Transaction) (found : w.transactions p ≡ some t)
        (same : t.txn ≡ v.transaction) where
      -- The world in which the segment is ended as its type asks for.
      abbrev locked : World S
      locked = record w {
        axiom_state = (perform (nr_segment_type v.segment) w.axiom_state).1;
        transactions = update w.transactions p (some (record t { locked = true }));
        trace = did (nr_segment_type v.segment) ∷ acquire p ∷ w.trace;
      }

      locked-IsGuarded : IsGuarded owner home p locked
      locked-IsGuarded = grind (arith, g.transactions, g.segments, g.locks)

      abbrev type : ℕ
      type = (perform (nr_segment_type v.segment) w.axiom_state).0

      ended-Guarded :
          Guarded owner home 0
            (elim (end_typed perform type x v locked) as (λ _. Outcome S (Unit {0})) [
              | ok a w' ↦ mutex_unlock p w'
              | fault e ↦ fault e
            ])
      ended-Guarded =
          Guarded-bind p (end_typed perform type x v locked) (λ _. mutex_unlock p)
            (end_typed-Guarded p locked locked-IsGuarded (ground arith) type x v live
              (ground (arith, g.transactions p t)))
            (λ _ w' g'. unlock-Guarded p w' g' (ground arith))

      end_locked-Guarded : Guarded owner home 0 (end_locked perform p x v w)
      unfolding end_locked
      end_locked-Guarded = ground (arith, found, ended-Guarded)

      end_matching-Guarded : Guarded owner home 0 (end_matching perform p x v w)
      unfolding end_matching
      end_matching-Guarded =
          Guarded-bind 0 (end_locked perform p x v w) _ end_locked-Guarded
            (λ a w' g'. Calls.finish-Guarded perform version owner home w' g' true x)

  module _ (w : World S) (g : IsGuarded owner home 0 w) (p x : ℕ) where
    end_found-Guarded :
        (v : Option Segment) (t : Option Transaction)
        → w.segments x ≡ v
        → w.transactions p ≡ t
        → Guarded owner home 0 (end_segment perform p (some x) w)
    unfolding end_segment
    end_found-Guarded none t e f = ground (arith, e)
    end_found-Guarded (some v) none e f =
        ground (arith, e, f, Calls.finish-Guarded perform version owner home w g false x)
    end_found-Guarded (some v) (some t) e f = ground (
      arith,
      e,
      f,
      Calls.finish-Guarded perform version owner home w g false x,
      λ (there : is_null p ≡ false) (same : t.txn ≡ v.transaction).
          end_matching-Guarded w g p x v e there t f same,
    )

  pub end_segment-Guarded :
      (w : World S)
      → IsGuarded owner home 0 w
      → (p : ℕ) (s : Option ℕ) → Guarded owner home 0 (end_segment perform p s w)
  unfolding end_segment
  end_segment-Guarded w g p none = g
  end_segment-Guarded w g p (some x) =
      end_found-Guarded w g p x (w.segments x) (w.transactions p) refl refl
