-- ===== src/Axiom/ExclusiveTime.antt =====
-- vendor/newrelic/axiom/nr_exclusive_time.c: the time of a segment that none of its children
-- covers. The sort of util_sort.c is the C library's, a parameter here.
pub mod Ticks
pub mod Sorted
pub mod Loop
pub mod Spans
pub mod Exact
pub mod Sorting
use Prim.Native.Nat.{Ordering, compare}
use c_sdk.Base.{
  ℕ, ◌+◌, ◌-◌, ◌*◌, ◌%◌, ◌^◌, Bool, true, false, ◌||◌, Option, none, some, List, [], ◌∷◌, ◌++◌,
  length, ltb, ◌==◌, if◌then◌else◌,
}

-- `nr_exclusive_time_transition_t`, a constructor for each type with its time
pub data Transition : Type 0 where
  child_start : ℕ → Transition
  child_stop : ℕ → Transition

abbrev pub time : Transition → ℕ
time (child_start t) = t
time (child_stop t) = t

-- `nr_exclusive_time_t`. The array is the part in use, so that `used` is its length.
pub record ExclusiveTime : Type 0 where
  pub start_time : ℕ
  pub stop_time : ℕ
  pub capacity : ℕ
  pub transitions : List Transition

-- `size_t` and `unsigned int`
abbrev pub int_mod : ℕ
int_mod = 2 ^ 32

-- The capacity is a `size_t`. The size that is allocated for it is one too: it wraps around from 2 ^ 59
-- children on, and then the array is shorter than its capacity, which is not modelled.
unfoldable pub create : ℕ → ℕ → ℕ → Option ExclusiveTime
create child_segments start_time stop_time =
    if ltb stop_time start_time
    then none
    else some (record {
      start_time = start_time;
      stop_time = stop_time;
      capacity = (child_segments * 2) % 2 ^ 64;
      transitions = [];
    })

unfoldable pub add_child : ExclusiveTime → ℕ → ℕ → Bool × ExclusiveTime
add_child et start_time stop_time =
    if ltb et.capacity (length et.transitions + 2)
    then (false, et)
    else if ltb stop_time start_time
    then (false, et)
    else if ltb stop_time et.start_time || ltb et.stop_time start_time
    then (true, et)
    else (
      true,
      record et {
        transitions = et.transitions ++ (child_start start_time ∷ child_stop stop_time ∷ []);
      },
    )

-- Starts go before stops of the same time.
unfoldable pub same_time : Transition → Transition → Ordering
same_time (child_start a) (child_stop b) = Ordering.lt
same_time (child_stop a) (child_start b) = Ordering.gt
same_time (child_start a) (child_start b) = Ordering.eq
same_time (child_stop a) (child_stop b) = Ordering.eq

unfoldable pub transition_compare : Transition → Transition → Ordering
unfolding same_time
transition_compare a b =
    if ltb (time a) (time b)
    then Ordering.lt
    else if ltb (time b) (time a)
    then Ordering.gt
    else same_time a b

-- `nr_time_duration`
abbrev pub duration : ℕ → ℕ → ℕ
duration start stop = if ltb stop start then 0 else stop - start

-- The loop over the sorted transitions of a segment from `start` to `stop`.
unfoldable pub walk : (start stop : ℕ) → List Transition → (active last_start exclusive : ℕ) → ℕ
walk start stop [] active last_start exclusive = exclusive
walk start stop (child_start t ∷ ts) active last_start exclusive =
    walk start stop ts ((active + 1) % int_mod)
      (if active == 0 then (if ltb start t then t else start) else last_start) exclusive
walk start stop (child_stop t ∷ ts) active last_start exclusive =
    let d = duration last_start (if ltb stop t then stop else t) in
    let ignored = walk start stop ts active last_start exclusive in
    let closed = walk start stop ts (active - 1) last_start (exclusive - d) in
    let nested = walk start stop ts (active - 1) last_start exclusive in
    if active == 0
    then ignored
    else if active == 1
    then (if ltb exclusive d then 0 else if ltb stop t then exclusive - d else closed)
    else nested

-- What is calculated, and the transitions, which are left sorted.
unfoldable pub calculate : (List Transition → List Transition) → ExclusiveTime → ℕ × ExclusiveTime
calculate sort et =
    if length et.transitions == 0
    then (duration et.start_time et.stop_time, et)
    else let sorted = sort et.transitions in
      (
        walk et.start_time et.stop_time sorted 0 0 (duration et.start_time et.stop_time),
        record et { transitions = sorted },
      )
