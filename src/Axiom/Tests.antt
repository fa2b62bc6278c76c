-- ===== src/Axiom/Tests.antt =====
-- The theorems on vectors, stacks and children at concrete structures.
use c_sdk.Base.{
  List, List, [], ◌∷◌, ℕ, ◌+◌, ◌≡◌, refl, Bool, true, some, arith, ◌==◌, if◌then◌else◌, ltb,
}
use c_sdk.Axiom.Vector.{Vector, grow, insert, remove, find_last}
use c_sdk.Axiom.Vector.Capacity.{IsValid}
use c_sdk.Axiom.Vector.Contents.{Inserted, insert-Inserted, Removed, remove-Removed}
use c_sdk.Axiom.Vector.Find.{IsLast, Answers, find_last-IsLast}
use c_sdk.Axiom.Stack.{push, pop}
use c_sdk.Axiom.Stack.Laws.{Popped, pop-push}
use c_sdk.Axiom.Children
use c_sdk.Axiom.Children.{packed, vector, reparent}
use c_sdk.Axiom.Children.Sound.{Added, add-Added}
use c_sdk.Axiom.Children.Remove.{Dropped, remove-Dropped}
use c_sdk.Axiom.Children.Neighbours.{get_prev, get_next, before, behind, get_prev-get_next}
use c_sdk.Axiom.Children.Sequence.{
  ChildOp, add_op, remove_op, run_children, Reached, run_children-Reached,
}
use c_sdk.Axiom.ExclusiveTime.Spans.{Span, uncovered}
use c_sdk.Axiom.ExclusiveTime.Exact.{measure, measure-Exact}
use c_sdk.Axiom.ExclusiveTime.Sorting.{insertion_sort, insertion_sort-Sorts}
use c_sdk.Axiom.Children.Misread.{Moved, reparent-Moved, Lost, remove-Lost}

-- An allocator that grants every request, and a property that every capacity has.
abbrev room : ℕ → Bool
room n = true

abbrev Any : ℕ → Type 0
Any k = Unit {0}

granted : (n : ℕ) → room n ≡ true
granted n = refl

-- The elements 10, 11, 12, and so on.
abbrev from_ten : ℕ → ℕ
from_ten i = 10 + i

-- A full vector of eight elements, and one with two elements that are the same.
abbrev eight : Vector
eight = record { capacity = 8; used = 8; elements = from_ten }

abbrev twins : Vector
twins = record { capacity = 8; used = 2; elements = λ _. 5 }

eight-IsValid : IsValid eight
eight-IsValid = omega arith

twins-IsValid : IsValid twins
twins-IsValid = omega arith

grow_eight : grow 5 8 100 ≡ some 128
unfolding grow
grow_eight = refl

insert-Inserted_example : Inserted Any eight 3 7 (insert room eight 3 7)
insert-Inserted_example =
    insert-Inserted room granted {P = Any} (λ k u. tt) eight 3 7 eight-IsValid (omega arith)
      (omega arith) tt tt

remove-Removed_example : Removed Any eight 3 (remove room eight 3)
remove-Removed_example =
    remove-Removed room {P = Any} (λ k u l. tt) eight 3 eight-IsValid (omega arith) tt

find_last-IsLast_example :
    Answers (λ e. e == 5) twins (IsLast (λ e. e == 5) twins) (find_last (λ e. e == 5) twins)
find_last-IsLast_example = find_last-IsLast (λ e. e == 5) twins (omega arith)

find_last-twins : find_last (λ e. e == 5) twins ≡ some (some 1)
unfolding find_last
find_last-twins = refl

pop-push_example : Popped eight 7 (pop room (push room eight 7))
pop-push_example = pop-push room granted eight 7 eight-IsValid (omega arith)

-- The ninth child moves the structure to a vector.
add-Added_example : Added (packed 8 from_ten) 7 (Children.add room (packed 8 from_ten) 7)
add-Added_example =
    add-Added room granted (packed 8 from_ten) 7 (omega arith) (omega arith) (omega arith)

remove-Dropped_example :
    Dropped (packed 8 from_ten) 12 (Children.remove room (packed 8 from_ten) 12)
remove-Dropped_example = remove-Dropped room (packed 8 from_ten) 12 (omega arith) (omega arith)

abbrev from_twenty : ℕ → ℕ
from_twenty i = 20 + i

-- The children 20 to 24 of the segment 1 go to the segment 2.
abbrev first_parents : ℕ → ℕ
first_parents q = if ltb q 20 then 2 else 1

reparent-Moved_example :
    Moved 5 5 from_ten from_twenty 2 first_parents
      (reparent room (packed 5 from_twenty) (packed 5 from_ten) 2 first_parents)
reparent-Moved_example =
    reparent-Moved room 5 5 from_ten from_twenty 2 first_parents (omega arith) (omega arith)
      (omega arith)

-- The parent of the last example after five of its ten children are removed.
abbrev half_full : Vector
half_full = record { capacity = 10; used = 5; elements = from_ten }

remove-Lost_example : Lost room granted half_full 12 2 (Children.remove room (vector half_full) 12)
remove-Lost_example =
    remove-Lost room granted half_full 12 2 (omega arith) refl (omega arith) (omega arith) refl
      (omega arith) (omega arith)

-- Two children are added behind eight, and one of the ten is removed.
abbrev three_calls : List ChildOp
three_calls = add_op 3 ∷ add_op 4 ∷ remove_op 12 ∷ []

run_children-Reached_example :
    Reached three_calls
      (10 ∷ 11 ∷ 12 ∷ 13 ∷ 14 ∷ 15 ∷ 16 ∷ 17 ∷ [])
      (run_children room three_calls (packed 8 from_ten))
run_children-Reached_example =
    run_children-Reached room granted three_calls (packed 8 from_ten) (omega arith) (omega arith)

get_prev-get_next_example :
    (get_prev (packed 8 from_ten) 12
      ≡ some (before (10 ∷ 11 ∷ 12 ∷ 13 ∷ 14 ∷ 15 ∷ 16 ∷ 17 ∷ []) 12))
    × (get_next (packed 8 from_ten) 12
        ≡ some (behind (10 ∷ 11 ∷ 12 ∷ 13 ∷ 14 ∷ 15 ∷ 16 ∷ 17 ∷ []) 12))
get_prev-get_next_example = get_prev-get_next (packed 8 from_ten) 12 (omega arith) (omega arith)

-- A segment from 10 to 20: two children overlap, one starts before it, one lies outside.
abbrev four_children : List Span
four_children = (12, 15) ∷ (14, 16) ∷ (5, 11) ∷ (30, 40) ∷ []

measure-Exact_example :
    measure insertion_sort 4 10 20 four_children ≡ some (uncovered 10 20 four_children)
measure-Exact_example =
    measure-Exact insertion_sort insertion_sort-Sorts 4 10 20 four_children (omega arith)
      (omega arith) (omega arith) (omega arith) (omega arith)
