-- ===== src/Axiom/Stack.antt =====
-- vendor/newrelic/axiom/util_stack.c: a stack over a vector, its top at the end.
pub mod Laws
use c_sdk.Base.{ℕ, ◌-◌, Bool, true, false, Option, none, some, ◌==◌, if◌then◌else◌}
use c_sdk.Axiom.Vector
use c_sdk.Axiom.Vector.{Vector, push_back, pop_back, get_element, find_last, remove}

-- `nr_stack_init`; `none` is a refusal.
unfoldable pub init : ℕ → Option Vector
init capacity = if capacity == 0 then none else some (Vector.init capacity)

-- `nr_stack_get_top`; `none` is NULL.
unfoldable pub get_top : Vector → Option ℕ
get_top s = if s.used == 0 then none else get_element s (s.used - 1)

module _ (room : ℕ → Bool) where
  unfoldable pub push : Vector → ℕ → Vector
  push s new_element = (push_back room s new_element).1

  unfoldable pub pop : Vector → Option (ℕ × Vector)
  pop s = pop_back room s

  -- `none` is a want of fuel in the search.
  unfoldable pub remove_found : Vector → Option (Option ℕ) → Option (Bool × Vector)
  remove_found s none = none
  remove_found s (some none) = some (false, s)
  remove_found s (some (some index)) = elim (remove room s index) [
    | none ↦ some (false, s)
    | some (x, s') ↦ some (true, s')
  ]

  unfoldable pub remove_topmost : Vector → ℕ → Option (Bool × Vector)
  remove_topmost s element = remove_found s (find_last (λ e. e == element) s)
