-- ===== src/Axiom/Txn/Runs.antt =====
-- Programs on one transaction, run with as many rounds of the loop of nr_segment_set_parent as the
-- transaction has segments, and two.
use c_sdk.Base.{
  ℕ, suc, ◌+◌, ◌^◌, ◌<◌, ◌≤◌, ◌≡◌, refl, ap, Bool, true, ◌&&◌, ◌||◌, Option, none, some, List, [],
  ◌∷◌, arith, ◌==◌, length, is_some, Bool-cases, inl, inr,
}
use c_sdk.Axiom.Segment.{Segment}
use c_sdk.Axiom.Segment.Chain.{Climbs, parent_of, parent_in}
use c_sdk.Axiom.Segment.Depth.{Climbs-bounded}
use c_sdk.Axiom.Txn.{Txn, start_segment, end_segment, reparent, set_timing}
use c_sdk.Axiom.Txn.Sound.{IsTxn}
use c_sdk.Axiom.Txn.Start.{StartOutcome, refused, started, start_segment-StartOutcome}
use c_sdk.Axiom.Txn.End.{Ended, end_segment-Ended, end_segment-lone}
use c_sdk.Axiom.Txn.Timing.{Timed, set_timing-Timed}
use c_sdk.Axiom.Txn.Reparent.{Reparented, reparent-Reparented}

-- A call of nr_segment_start, with whether the slab has memory left and with the time, of
-- nr_segment_end with the time, of nr_segment_set_timing or of nr_segment_set_parent.
pub data SegmentCall : Type 0 where
  start_call : (available : Bool) (now : ℕ) → SegmentCall
  end_call : (now segment : ℕ) → SegmentCall
  timing_call : (segment start duration : ℕ) → SegmentCall
  parent_call : (segment parent : ℕ) → SegmentCall

-- What a call leaves, whatever it returns.
abbrev left : {A : Type 0} → Option (A × Txn) → Option Txn
left none = none
left (some (a, t)) = some t

-- The segments that a call is given are live, or NULL where the call looks for that.
unfoldable pub gives_live : SegmentCall → Txn → Bool
gives_live (start_call available now) t = true
gives_live (end_call now s) t = s == 0 || is_some (t.segments s)
gives_live (timing_call s start duration) t = s == 0 || is_some (t.segments s)
gives_live (parent_call s parent) t = is_some (t.segments s) && is_some (t.segments parent)

module _ (room : ℕ → Bool) where
  unfoldable pub run_call : SegmentCall → Txn → Option Txn
  run_call (start_call available now) t = left (start_segment room available now t)
  run_call (end_call now s) t = left (end_segment room now s t)
  run_call (timing_call s start duration) t = left (set_timing s start duration t)
  run_call (parent_call s parent) t = left (reparent room (t.last + 2) s parent t)

  unfoldable pub run_calls : List SegmentCall → Txn → Option Txn
  run_calls [] t = some t
  run_calls (c ∷ calls) t = elim (run_call c t) [ none ↦ none | some t' ↦ run_calls calls t' ]

  -- Each call is given live segments, in the transaction that the calls before it left.
  unfoldable pub give_live : List SegmentCall → Txn → Bool
  give_live [] t = true
  give_live (c ∷ calls) t =
      gives_live c t && elim (run_call c t) [ none ↦ true | some t' ↦ give_live calls t' ]

-- A result that is sound, with at most so many segments more.
pub record Ran (t : Txn) (n : ℕ) (o : Option Txn) : Type 0 where
  pub result : Txn
  pub is : o ≡ some result
  pub sound : IsTxn result
  pub last_of : result.last ≤ n + t.last

-- In a sound transaction the way up from a live segment is no longer than the segments are many.
shallow :
    {t : Txn}
    → IsTxn t
    → (p q : ℕ) → parent_of t.segments p ≡ some q
    → Climbs (parent_of t.segments) p (suc t.last)
shallow {t} sound p q e =
    let (n, c) = sound.tree.climbs p q e in
    Climbs-bounded (parent_of t.segments) t.last (λ x h. ap parent_in (sound.fresh x h)) p n c

-- The same soundness, by these ways.
abbrev measured : {t : Txn} → IsTxn t → IsTxn t
measured {t} sound = record sound {
  tree = record sound.tree { climbs = λ p q e. (suc t.last, shallow sound p q e) };
}

live_at : (o : Option Segment) → is_some o ≡ true → (s : Segment) × (o ≡ some s)
live_at none h = absurd (ground arith)
live_at (some s) h = (s, refl)

module _ (room : ℕ → Bool) (granted : (n : ℕ) → room n ≡ true) where
  started-Ran :
      (t : Txn) (available : Bool) (o : Option (ℕ × Txn))
      → IsTxn t
      → StartOutcome t available o
      → Ran t 1 (left o)
  started-Ran t available o sound (refused h) = record {
    result = t;
    is = refl;
    sound = sound;
    last_of = omega arith;
  }
  started-Ran t available o sound (started r h s) = record {
    result = s.result;
    is = s.is;
    sound = s.sound;
    last_of = omega (arith, s.last_of);
  }

  module _ (t : Txn) (sound : IsTxn t) where
    ended-Ran :
        (now s : ℕ)
        → gives_live (end_call now s) t ≡ true
        → Ran t 1 (run_call room (end_call now s) t)
    unfolding gives_live run_call end_segment
    ended-Ran now s h = elim (Bool-cases (s == 0)) [
      | inl null ↦ record { result = t; is = ground arith; sound = sound; last_of = omega arith }
      | inr there ↦
          let (sv, live) = live_at (t.segments s) (ground arith) in
          elim (Bool-cases (sv.txn == 0)) [
            | inl lone ↦ record {
              result = t;
              is = ap left (end_segment-lone room now t s sv (ground arith) live (ground arith));
              sound = sound;
              last_of = omega arith;
            }
            | inr of_txn ↦
                let d : Ended now t s sv (end_segment room now s t) =
                  end_segment-Ended room now t sound s sv live (ground arith) in
                record {
                  result = d.result;
                  is = ap left d.is;
                  sound = d.sound;
                  last_of = omega (arith, d.last_of);
                }
          ]
    ]

    timed-Ran :
        (s start duration : ℕ)
        → gives_live (timing_call s start duration) t ≡ true
        → Ran t 1 (run_call room (timing_call s start duration) t)
    unfolding gives_live run_call set_timing
    timed-Ran s start duration h = elim (Bool-cases (s == 0)) [
      | inl null ↦ record { result = t; is = ground arith; sound = sound; last_of = omega arith }
      | inr there ↦
          let (sv, live) = live_at (t.segments s) (ground arith) in
          let d : Timed start duration t s sv (set_timing s start duration t) =
            set_timing-Timed start duration t sound s sv live in
          record {
            result = d.result;
            is = ap left d.is;
            sound = d.sound;
            last_of = omega (arith, d.last_of);
          }
    ]

    moved-Ran :
        (s parent : ℕ)
        → t.last + 1 < 2 ^ 62
        → gives_live (parent_call s parent) t ≡ true
        → Ran t 1 (run_call room (parent_call s parent) t)
    unfolding gives_live run_call
    moved-Ran s parent few h =
        let (sv, live) = live_at (t.segments s) (ground arith) in
        let (pv, p_live) = live_at (t.segments parent) (ground arith) in
        let d : Reparented t s parent sv pv (reparent room (t.last + 2) s parent t) =
          reparent-Reparented room granted t (measured sound) s parent sv pv live p_live few
            (t.last + 2) (omega arith) in
        record {
          result = d.result;
          is = ap left d.is;
          sound = d.sound;
          last_of = omega (arith, d.last_of);
        }

    call-Ran :
        (c : SegmentCall)
        → t.last + 1 < 2 ^ 62
        → gives_live c t ≡ true
        → Ran t 1 (run_call room c t)
    unfolding run_call
    call-Ran (start_call available now) few h =
        started-Ran t available (start_segment room available now t) sound
          (start_segment-StartOutcome room granted available now t sound few)
    call-Ran (end_call now s) few h = ended-Ran now s h
    call-Ran (timing_call s start duration) few h = timed-Ran s start duration h
    call-Ran (parent_call s parent) few h = moved-Ran s parent few h

  -- Whatever program of nr_segment_start, nr_segment_end, nr_segment_set_timing and
  -- nr_segment_set_parent runs on a sound transaction, with an allocator that grants all requests,
  -- each call given live segments (or NULL for the end and the timing), and fewer than 2 ^ 62
  -- segments and calls in all: it ends without a fault. The loop of nr_segment_set_parent makes at
  -- most as many rounds as there are segments at the time, and two. The transaction is sound at the
  -- end: its segments are a tree without cycles in which children and parents agree, the open
  -- ones on its stack are live, and there are at most as many new ones as there were calls.
  pub run_calls-Ran :
      (calls : List SegmentCall) (t : Txn)
      → IsTxn t
      → length calls + t.last + 1 < 2 ^ 62
      → give_live room calls t ≡ true
      → Ran t (length calls) (run_calls room calls t)
  unfolding run_calls give_live
  run_calls-Ran [] t sound few h = record {
    result = t;
    is = refl;
    sound = sound;
    last_of = omega arith;
  }
  run_calls-Ran (c ∷ calls) t sound few h =
      let first : Ran t 1 (run_call room c t) = call-Ran t sound c (omega arith) (ground arith) in
      let rest : Ran first.result (length calls) (run_calls room calls first.result) =
        run_calls-Ran calls first.result first.sound (omega (arith, first.last_of))
          (ground (arith, first.is)) in
      record {
        result = rest.result;
        is = ground (arith, first.is, rest.is);
        sound = rest.sound;
        last_of = omega (arith, first.last_of, rest.last_of);
      }
