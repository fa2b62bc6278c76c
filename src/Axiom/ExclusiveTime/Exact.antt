-- ===== src/Axiom/ExclusiveTime/Exact.antt =====
-- nr_exclusive_time_create, nr_exclusive_time_add_child for each child, and
-- nr_exclusive_time_calculate: the result is the number of ticks that no child covers.
use c_sdk.Base.{
  ℕ, ◌+◌, ◌-◌, ◌*◌, ◌^◌, ◌<◌, ◌≤◌, ◌≡◌, refl, ap, sym, ◌∙◌, Bool, true, Option, none, some, List,
  [], ◌∷◌, arith, leb, length, Bool-cases, inl, inr,
}
use c_sdk.Axiom.ExclusiveTime.{Transition, int_mod, duration, create, walk, calculate}
use c_sdk.Axiom.ExclusiveTime.Ticks.{ticks, ticks-add, ticks-between, ticks-none}
use c_sdk.Base.Counts.{count, All, All-count}
use c_sdk.Axiom.ExclusiveTime.Sorted.{
  IsSorted, starts_by, stops_by, is_start, is_stop, stops_before, StopsFrom,
}
use c_sdk.Axiom.ExclusiveTime.Loop.{is_busy, IsSound, walk-Exact}
use c_sdk.Axiom.ExclusiveTime.Spans.{
  Span, IsForward, is_covered, uncovered, add_children, kept, length-kept, of, add_children-kept,
  is_covered-covering, active-kept, balanced-kept, closed-kept, late-kept,
}

-- What qsort_r does: the result is in order, and every element occurs as often as before.
pub record Sorts (sort : List Transition → List Transition) : Type 0 where
  pub sorted : (l : List Transition) → IsSorted (sort l)
  pub same : (p : Transition → Bool) (l : List Transition) → count p (sort l) ≡ count p l

-- The three calls, with room for a number of children.
pub measure : (List Transition → List Transition) → ℕ → ℕ → ℕ → List Span → Option ℕ
measure sort room start stop cs = elim (create room start stop) [
  | none ↦ none
  | some et ↦ some (calculate sort (add_children et cs)).0
]

module _ (start stop : ℕ) where
  -- The exclusive time is what is left of the segment.
  uncovered_lem :
      (cs : List Span) (l : List Transition)
      → start ≤ stop
      → ((t : ℕ) → start ≤ t → t < stop → is_busy start 0 l t ≡ is_covered cs t)
      → uncovered start stop cs + ticks (is_busy start 0 l) stop ≡ stop - start
  uncovered_lem cs l h same = sym (
      sym (ticks-between start stop stop (omega arith))
      ∙ ticks-add _ _ _ stop (λ t less. elim (Bool-cases (leb start t)) [
        | inl inside ↦ ground (arith, same t (ground arith) less)
        | inr outside ↦ ground arith
      ]))

  module _ (sort : List Transition → List Transition) (sorts : Sorts sort) (cs : List Span)
      (forward : All IsForward cs) where
    sorted : List Transition
    sorted = sort (kept start stop cs)

    same-sorted : (p : Transition → Bool) → count p sorted ≡ count p (kept start stop cs)
    unfolding sorted
    same-sorted p = sorts.same p (kept start stop cs)

    busy-sorted : (t : ℕ) → start ≤ t → t < stop → is_busy start 0 sorted t ≡ is_covered cs t
    busy-sorted t l h = ground (
      arith,
      same-sorted (starts_by t),
      same-sorted (stops_by t),
      active-kept start stop cs t forward l h,
      is_covered-covering start stop cs t,
    )

    length-count : (l : List Transition) → length l ≡ count (λ _. true) l
    unfolding count
    length-count [] = refl
    length-count (x ∷ l) = omega (arith, length-count l)

    sorted-IsSound :
        start ≤ stop → 2 * length cs < int_mod → IsSound start stop sorted 0 0 (stop - start)
    unfolding sorted
    sorted-IsSound h small = record {
      sorted = sorts.sorted (kept start stop cs);
      balanced = λ t. omega (
        arith,
        same-sorted (starts_by t),
        same-sorted (stops_by t),
        balanced-kept start stop cs t forward,
      );
      closed = omega (arith, same-sorted is_start, same-sorted is_stop, closed-kept start stop cs);
      late =
          All-count (StopsFrom start) (stops_before start) sorted (λ x e. e)
            (same-sorted (stops_before start) ∙ late-kept start stop cs);
      after = omega arith;
      small = omega (
        arith,
        length-count sorted,
        length-count (kept start stop cs),
        same-sorted (λ _. true),
        length-kept start stop cs,
      );
      enough = omega (arith, uncovered_lem cs sorted h busy-sorted);
    }

    walk-sorted :
        start ≤ stop
        → 2 * length cs < int_mod
        → walk start stop sorted 0 0 (stop - start) ≡ uncovered start stop cs
    walk-sorted h small = omega (
      arith,
      walk-Exact start stop sorted 0 0 (stop - start) (sorted-IsSound h small),
      uncovered_lem cs sorted h busy-sorted,
    )

    -- With no transitions there is nothing to walk over.
    nothing-kept :
        start ≤ stop → [] ≡ kept start stop cs → duration start stop ≡ uncovered start stop cs
    unfolding count
    nothing-kept h e =
        let free : (t : ℕ) → start ≤ t → t < stop → is_busy start 0 [] t ≡ is_covered cs t =
          λ t l less. ground (
            arith,
            ap (count (starts_by t)) e,
            ap (count (stops_by t)) e,
            active-kept start stop cs t forward l less,
            is_covered-covering start stop cs t,
          ) in
        ground (
          arith,
          uncovered_lem cs [] h free,
          ticks-none (is_busy start 0 []) stop (λ t less. ground arith),
        )

    calculate-kept :
        (room : ℕ) (l : List Transition)
        → l ≡ kept start stop cs
        → start ≤ stop
        → 2 * length cs < int_mod
        → (calculate sort (of start stop room l)).0 ≡ uncovered start stop cs
    unfolding calculate sorted
    calculate-kept room [] e h small = nothing-kept h e
    calculate-kept room (x ∷ l) e h small =
        let ran : walk start stop (sort (kept start stop cs)) 0 0 (stop - start)
            ≡ uncovered start stop cs =
          walk-sorted h small in
        ground (arith, ap sort e, ran)

-- The exclusive time of a segment whose start is not after its stop, created for fewer than 2 ^ 58
-- children, so that the size of its array does not wrap around, with no more children than that and
-- fewer than 2 ^ 31 of them, each of which starts before it stops: the calculation returns the
-- number of ticks of the segment that no child covers, however the children overlap one another or
-- the ends of the segment, and in whatever order they are added.
pub measure-Exact :
    (sort : List Transition → List Transition) (sorts : Sorts sort) (room start stop : ℕ)
    (cs : List Span)
    → start ≤ stop
    → All IsForward cs
    → length cs ≤ room
    → room < 2 ^ 58
    → length cs < 2 ^ 31
    → measure sort room start stop cs ≡ some (uncovered start stop cs)
unfolding measure create
measure-Exact sort sorts room start stop cs h forward fits allocated small = ground (
  arith,
  add_children-kept start stop (room * 2) [] cs forward (omega arith),
  calculate-kept start stop sort sorts cs forward (room * 2) (kept start stop cs) refl h
      (omega arith),
)
