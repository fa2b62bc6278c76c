-- ===== src/Axiom/ExclusiveTime/Sorting.antt =====
-- A sort that does what is asked of the C library's: insertion by transition_compare.
use Prim.Native.Nat.{Ordering}
use c_sdk.Base.{
  ◌≡◌, refl, Bool, true, false, List, Bool-cases, inl, inr, if◌then◌else◌, [], ◌∷◌, arith,
}
use c_sdk.Axiom.ExclusiveTime.{Transition, child_start, child_stop, transition_compare}
use c_sdk.Base.Counts.{count, All, All-map}
use c_sdk.Axiom.ExclusiveTime.Sorted.{Precedes, IsSorted}
use c_sdk.Axiom.ExclusiveTime.Exact.{Sorts}

Precedes-trans : (a b c : Transition) → Precedes a b → Precedes b c → Precedes a c
unfolding transition_compare
Precedes-trans (child_start a) (child_start b) (child_start c) h k = ground arith
Precedes-trans (child_start a) (child_start b) (child_stop c) h k = ground arith
Precedes-trans (child_start a) (child_stop b) (child_start c) h k = ground arith
Precedes-trans (child_start a) (child_stop b) (child_stop c) h k = ground arith
Precedes-trans (child_stop a) (child_start b) (child_start c) h k = ground arith
Precedes-trans (child_stop a) (child_start b) (child_stop c) h k = ground arith
Precedes-trans (child_stop a) (child_stop b) (child_start c) h k = ground arith
Precedes-trans (child_stop a) (child_stop b) (child_stop c) h k = ground arith

Precedes-total : (a b : Transition) → transition_compare a b ≡ Ordering.gt → Precedes b a
unfolding transition_compare
Precedes-total (child_start a) (child_start b) h = ground arith
Precedes-total (child_start a) (child_stop b) h = ground arith
Precedes-total (child_stop a) (child_start b) h = ground arith
Precedes-total (child_stop a) (child_stop b) h = ground arith

abbrev is_after : Transition → Transition → Bool
is_after x y = elim (transition_compare x y) [ Ordering.gt ↦ true | _ ↦ false ]

insert_sorted : Transition → List Transition → List Transition
insert_sorted x [] = x ∷ []
insert_sorted x (y ∷ l) = if is_after x y then y ∷ insert_sorted x l else x ∷ y ∷ l

unfoldable pub insertion_sort : List Transition → List Transition
unfolding insert_sorted
insertion_sort [] = []
insertion_sort (x ∷ l) = insert_sorted x (insertion_sort l)

count-insert_sorted :
    (p : Transition → Bool) (x : Transition) (l : List Transition)
    → count p (insert_sorted x l) ≡ count p (x ∷ l)
unfolding insert_sorted count
count-insert_sorted p x [] = refl
count-insert_sorted p x (y ∷ l) = ground (arith, count-insert_sorted p x l)

All-insert_sorted :
    (P : Transition → Type 0) (x : Transition) (l : List Transition)
    → P x
    → All P l
    → All P (insert_sorted x l)
unfolding insert_sorted
All-insert_sorted P x [] h k = (h, k)
All-insert_sorted P x (y ∷ l) h (k, m) = elim (Bool-cases (is_after x y)) [
  | inl after ↦ rw after (k, All-insert_sorted P x l h m)
  | inr before ↦ rw before (h, (k, m))
]

insert_sorted-IsSorted :
    (x : Transition) (l : List Transition) → IsSorted l → IsSorted (insert_sorted x l)
unfolding insert_sorted
insert_sorted-IsSorted x [] s = (tt, tt)
insert_sorted-IsSorted x (y ∷ l) (below, s) = elim (Bool-cases (is_after x y)) [
  | inl after ↦ rw after (
    All-insert_sorted (Precedes y) x l (Precedes-total x y (ground arith)) below,
    insert_sorted-IsSorted x l s,
  )
  | inr before ↦
      let first : Precedes x y = ground arith in
      rw before (
        (first, All-map (Precedes y) (Precedes x) l (λ z h. Precedes-trans x y z first h) below),
        (below, s),
      )
]

pub insertion_sort-Sorts : Sorts insertion_sort
unfolding insertion_sort count
insertion_sort-Sorts = record { sorted = sorted; same = same }
  where
    sorted : (l : List Transition) → IsSorted (insertion_sort l)
    sorted [] = tt
    sorted (x ∷ l) = insert_sorted-IsSorted x (insertion_sort l) (sorted l)

    same : (p : Transition → Bool) (l : List Transition) → count p (insertion_sort l) ≡ count p l
    same p [] = refl
    same p (x ∷ l) = omega (arith, count-insert_sorted p x (insertion_sort l), same p l)
