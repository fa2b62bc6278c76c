-- ===== src/Axiom/Ranking.antt =====
-- The comparators of vendor/newrelic/axiom/nr_segment.c, by which the heaps of segments choose what
-- a trace and the span events keep. A priority is an int, by its 32 bits.
use c_sdk.Base.{
  ℕ, ◌+◌, ◌*◌, ◌-◌, ◌%◌, ◌^◌, Bool, ◌||◌, Option, none, some, ◌==◌, ltb, is_some, if◌then◌else◌,
}

-- The fields of `nr_segment_t` that are compared.
pub record Ranked : Type 0 where
  pub priority : ℕ
  pub start_time : ℕ
  pub stop_time : ℕ

-- The order of an int: its 32 bits, with the sign bit turned.
abbrev pub signed : ℕ → ℕ
signed n = (n + 2 ^ 31) % 2 ^ 32

-- The results -1, 0 and 1.
pub data Comparison : Type 0 where
  less : Comparison
  same : Comparison
  greater : Comparison

-- The difference of the times, in 64 bits.
unfoldable pub elapsed : Ranked → ℕ
elapsed s = (s.stop_time + 2 ^ 64 - s.start_time) % 2 ^ 64

unfoldable pub duration_comparator : Ranked → Ranked → Comparison
duration_comparator a b =
    if ltb (elapsed a) (elapsed b)
    then less
    else if ltb (elapsed b) (elapsed a)
    then greater
    else same

unfoldable pub span_priority_comparator : Ranked → Ranked → Comparison
span_priority_comparator a b =
    if ltb (signed b.priority) (signed a.priority)
    then greater
    else if ltb (signed a.priority) (signed b.priority)
    then less
    else duration_comparator a b

-- `COMPARATOR_NULL_CHECK` where an address is NULL: the addresses are compared.
unfoldable pub null_check : ℕ → ℕ → Comparison
null_check a b = if ltb a b then less else if ltb b a then greater else same

module _ (segments : ℕ → Option Ranked) where
  -- `none` is a read at an address that holds no segment.
  unfoldable pub wrapped : (Ranked → Ranked → Comparison) → ℕ → ℕ → Option Comparison
  wrapped compare a b = if a == 0 || b == 0 then some (null_check a b) else elim (segments a) [
    | none ↦ none
    | some x ↦ elim (segments b) [ none ↦ none | some y ↦ some (compare x y) ]
  ]

  unfoldable pub wrapped_duration_comparator : ℕ → ℕ → Option Comparison
  wrapped_duration_comparator a b = wrapped duration_comparator a b

  unfoldable pub wrapped_span_priority_comparator : ℕ → ℕ → Option Comparison
  wrapped_span_priority_comparator a b = wrapped span_priority_comparator a b

  -- NULL, or the address of a segment
  abbrev pub is_known : ℕ → Bool
  is_known a = a == 0 || is_some (segments a)

  -- One number for a segment: its priority above its duration, and NULL below all.
  abbrev pub rank : ℕ → ℕ
  rank a =
      if a == 0
      then 0
      else elim (segments a) [ none ↦ 0 | some s ↦ 1 + signed s.priority * 2 ^ 64 + elapsed s ]

  abbrev pub duration_rank : ℕ → ℕ
  duration_rank a = if a == 0 then 0 else elim (segments a) [ none ↦ 0 | some s ↦ 1 + elapsed s ]

-- The order of numbers.
abbrev pub order : ℕ → ℕ → Comparison
order m n = if ltb m n then less else if ltb n m then greater else same
