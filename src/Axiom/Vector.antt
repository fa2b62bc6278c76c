-- ===== src/Axiom/Vector.antt =====
-- vendor/newrelic/axiom/util_vector.c: expanding arrays of pointers. The array is a function of the
-- index, of which the cells below the capacity are allocated. A destructor is not modelled: the
-- vectors of segments have none.
pub mod Capacity
pub mod Contents
pub mod Find
use c_sdk.Base.{
  ℕ, zero, suc, ◌+◌, ◌-◌, ◌*◌, ◌/◌, ◌%◌, ◌^◌, Bool, true, false, not, ◌&&◌, ◌||◌, Option, none,
  some, ltb, leb, ◌==◌, if◌then◌else◌,
}

pub record Vector : Type 0 where
  pub capacity : ℕ
  pub used : ℕ
  pub elements : ℕ → ℕ

abbrev pub default_capacity : ℕ
default_capacity = 8

-- `nr_vector_init_impl`; `nr_calloc` clears the cells.
unfoldable pub init : ℕ → Vector
init initial = record {
  capacity = if initial == 0 then default_capacity else initial;
  used = 0;
  elements = λ _. 0;
}

-- `nr_vector_deinit`
unfoldable pub deinit : Vector → Vector
deinit v = record v { capacity = 0; used = 0; elements = λ _. 0 }

abbrev pub size_mod : ℕ
size_mod = 2 ^ 64

-- The loop that doubles a capacity until it is enough; `none` when the fuel runs out.
unfoldable pub grow : ℕ → ℕ → ℕ → Option ℕ
grow zero new_capacity capacity = none
grow (suc fuel) new_capacity capacity =
    let rest = grow fuel ((new_capacity * 2) % size_mod) capacity in
    if ltb new_capacity capacity then rest else some new_capacity

-- `nr_memmove` within the array.
unfoldable pub memmove : (ℕ → ℕ) → (dst src n : ℕ) → ℕ → ℕ
memmove e dst src n i = if leb dst i && ltb i (dst + n) then e (src + (i - dst)) else e i

unfoldable pub store : (ℕ → ℕ) → ℕ → ℕ → ℕ → ℕ
store e p x i = if i == p then x else e i

-- The write of `nr_vector_insert_impl`, in a vector with room.
unfoldable pub insert_at : Vector → ℕ → ℕ → Vector
unfolding memmove store
insert_at v pos element =
    if ltb pos v.used
    then record v {
      used = v.used + 1;
      elements = store (memmove v.elements (pos + 1) pos (v.used - pos)) pos element;
    }
    else record v { used = v.used + 1; elements = store v.elements v.used element }

-- The array of `nr_vector_remove_impl`, before it may shrink.
unfoldable pub remove_at : Vector → ℕ → Vector
unfolding memmove
remove_at v pos = record v {
  used = v.used - 1;
  elements =
      if ltb pos (v.used - 1)
      then memmove v.elements pos (pos + 1) (v.used - pos - 1)
      else v.elements;
}

-- What `nr_reallocarray` can do: whether it finds room for so many pointers.
module _ (room : ℕ → Bool) where
  reserve : Vector → Option ℕ → Bool × Vector
  reserve v none = (false, v)
  reserve v (some new_capacity) =
      if room new_capacity then (true, record v { capacity = new_capacity }) else (false, v)

  -- `nr_vector_ensure_impl`. Sixty-five rounds are enough for any capacity up to 2 ^ 63.
  unfoldable pub ensure_impl : Vector → ℕ → Bool × Vector
  unfolding reserve
  ensure_impl v capacity =
      if leb capacity v.capacity
      then (true, v)
      else reserve v (grow 65 (if v.capacity == 0 then default_capacity else v.capacity) capacity)

  unfoldable pub ensure : Vector → ℕ → Bool × Vector
  unfolding ensure_impl
  ensure v capacity = if capacity == 0 then (false, v) else ensure_impl v capacity

  -- `nr_vector_shrink_if_necessary`
  unfoldable pub shrink_if_necessary : Vector → Vector
  shrink_if_necessary v =
      if ltb v.used 4 || leb (v.capacity / 2) v.used
      then v
      else if room (v.capacity / 2)
      then record v { capacity = v.capacity / 2 }
      else v

  unfoldable pub insert : Vector → ℕ → ℕ → Bool × Vector
  insert v pos element =
      let (enough, v') = ensure_impl v (v.used + 1) in
      if enough then (true, insert_at v' pos element) else (false, v')

  unfoldable pub push_back : Vector → ℕ → Bool × Vector
  push_back v element = insert v v.used element

  unfoldable pub push_front : Vector → ℕ → Bool × Vector
  push_front v element = insert v 0 element

  -- `none` is a failure, and the element comes with the vector.
  unfoldable pub remove : Vector → ℕ → Option (ℕ × Vector)
  remove v pos =
      if leb v.used pos then none else some (v.elements pos, shrink_if_necessary (remove_at v pos))

  unfoldable pub pop_back : Vector → Option (ℕ × Vector)
  pop_back v = if v.used == 0 then none else remove v (v.used - 1)

  unfoldable pub pop_front : Vector → Option (ℕ × Vector)
  pop_front v = remove v 0

-- `nr_vector_get_element`
unfoldable pub get_element : Vector → ℕ → Option ℕ
get_element v pos = if leb v.used pos then none else some (v.elements pos)

-- `nr_vector_replace`
unfoldable pub replace : Vector → ℕ → ℕ → Bool × Vector
unfolding store
replace v pos element =
    if leb v.used pos
    then (false, v)
    else (true, record v { elements = store v.elements pos element })

-- `i += delta` on `size_t`, for a delta of 1 or -1
abbrev pub step : Bool → ℕ → ℕ
step true i = (i + 1) % size_mod
step false i = (i + (size_mod - 1)) % size_mod

-- The loop of `nr_vector_find_comparator` and `nr_vector_find_direct`, by the test that each makes
-- of an element. The outer `none` is a want of fuel.
unfoldable pub find_from : (ℕ → Bool) → Vector → Bool → ℕ → ℕ → Option (Option ℕ)
find_from found v forward zero i = none
find_from found v forward (suc fuel) i =
    let rest = find_from found v forward fuel (step forward i) in
    if not (ltb i v.used) then some none else if found (v.elements i) then some (some i) else rest

unfoldable pub find_first : (ℕ → Bool) → Vector → Option (Option ℕ)
unfolding find_from
find_first found v = if v.used == 0 then some none else find_from found v true (v.used + 1) 0

unfoldable pub find_last : (ℕ → Bool) → Vector → Option (Option ℕ)
unfolding find_from
find_last found v =
    if v.used == 0 then some none else find_from found v false (v.used + 1) (v.used - 1)
