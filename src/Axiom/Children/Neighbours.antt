-- ===== src/Axiom/Children/Neighbours.antt =====
-- nr_segment_children_get_prev and nr_segment_children_get_next: the children beside a child.
use c_sdk.Base.{
  ℕ, zero, suc, ◌+◌, ◌-◌, ◌%◌, ◌<◌, ◌≡◌, ◌≢◌, refl, ap, ap₂, ◌∙◌, false, Option, none, some, List,
  [], ◌∷◌, arith, leb, if◌then◌else◌, ◌==◌,
}
use c_sdk.Axiom.Vector.{Vector}
use c_sdk.Axiom.Vector.Contents.{cells, cells-ext}
use c_sdk.Axiom.Children.{Children, packed, vector, size, get}
use c_sdk.Axiom.Children.Sound.{IsSound, children_of, Doubled-even}

-- The child that a read returns, 0 for NULL; `none` is a misread.
abbrev or_null : Option (Option ℕ) → Option ℕ
or_null none = none
or_null (some none) = some 0
or_null (some (some x)) = some x

-- The loops, with the number of rounds that are left; `i` is the index of the left one of the two
-- children that are compared.
prev_from : Children → ℕ → ℕ → ℕ → Option ℕ
prev_from c x zero i = some 0
prev_from c x (suc n) i =
    let rest = prev_from c x n (i + 1) in
    elim (or_null (get c i)) [
      | none ↦ none
      | some prev ↦ elim (or_null (get c (i + 1))) [
        | none ↦ none
        | some cur ↦ if cur == x then some prev else rest
      ]
    ]

next_from : Children → ℕ → ℕ → ℕ → Option ℕ
next_from c x zero i = some 0
next_from c x (suc n) i =
    let rest = next_from c x n (i + 1) in
    elim (or_null (get c i)) [
      | none ↦ none
      | some cur ↦ elim (or_null (get c (i + 1))) [
        | none ↦ none
        | some next ↦ if cur == x then some next else rest
      ]
    ]

unfoldable pub get_prev : Children → ℕ → Option ℕ
unfolding prev_from
get_prev c child = if child == 0 then some 0 else elim (size c) [
  | none ↦ none
  | some used ↦ if leb used 1 then some 0 else prev_from c child (used - 1) 0
]

unfoldable pub get_next : Children → ℕ → Option ℕ
unfolding next_from
get_next c child = if child == 0 then some 0 else elim (size c) [
  | none ↦ none
  | some used ↦ if leb used 1 then some 0 else next_from c child (used - 1) 0
]

-- The element before the first occurrence of another behind the head of a list, and the element
-- behind its first occurrence before the end; 0 where there is none.
pub before : List ℕ → ℕ → ℕ
before [] x = 0
before (y ∷ []) x = 0
before (y ∷ z ∷ l) x = if z == x then y else before (z ∷ l) x

pub behind : List ℕ → ℕ → ℕ
behind [] x = 0
behind (y ∷ []) x = 0
behind (y ∷ z ∷ l) x = if y == x then z else behind (z ∷ l) x

-- A structure whose reads below a bound return the elements of an array.
Reads : Children → (ℕ → ℕ) → ℕ → Type 0
Reads c e n = (i : ℕ) → i < n → or_null (get c i) ≡ some (e i)

-- The array from a place on.
abbrev from : (ℕ → ℕ) → ℕ → ℕ → List ℕ
from e i zero = []
from e i (suc n) = e i ∷ from e (i + 1) n

from-cells : (e : ℕ → ℕ) (i n : ℕ) → from e i n ≡ cells (λ k. e (i + k)) n
from-cells e i zero = refl
from-cells e i (suc n) = ap₂ ◌∷◌ (ap e (omega arith)) (
    from-cells e (i + 1) n
    ∙ cells-ext (λ k. e (i + 1 + k)) (λ k. e (i + suc k)) n (λ k l. ap e (omega arith)))

prev_from-before :
    (c : Children) (e : ℕ → ℕ) (x n i : ℕ)
    → Reads c e (i + suc n)
    → prev_from c x n i ≡ some (before (from e i (suc n)) x)
unfolding prev_from before Reads
prev_from-before c e x zero i reads = refl
prev_from-before c e x (suc n) i reads =
    let rest : prev_from c x n (i + 1) ≡ some (before (from e (i + 1) (suc n)) x) =
      prev_from-before c e x n (i + 1) (λ j l. reads j (omega arith)) in
    let left : or_null (get c i) ≡ some (e i) = reads i (omega arith) in
    let right : or_null (get c (i + 1)) ≡ some (e (i + 1)) = reads (i + 1) (omega arith) in
    ground (arith, left, right, rest)

next_from-behind :
    (c : Children) (e : ℕ → ℕ) (x n i : ℕ)
    → Reads c e (i + suc n)
    → next_from c x n i ≡ some (behind (from e i (suc n)) x)
unfolding next_from behind Reads
next_from-behind c e x zero i reads = refl
next_from-behind c e x (suc n) i reads =
    let rest : next_from c x n (i + 1) ≡ some (behind (from e (i + 1) (suc n)) x) =
      next_from-behind c e x n (i + 1) (λ j l. reads j (omega arith)) in
    let left : or_null (get c i) ≡ some (e i) = reads i (omega arith) in
    let right : or_null (get c (i + 1)) ≡ some (e (i + 1)) = reads (i + 1) (omega arith) in
    ground (arith, left, right, rest)

packed-Reads : (n : ℕ) (e : ℕ → ℕ) → Reads (packed n e) e n
unfolding Reads get
packed-Reads n e i l = ground arith

vector-Reads : (v : Vector) → (v.capacity % 2 == 1) ≡ false → Reads (vector v) v.elements v.used
unfolding Reads get
vector-Reads v even i l = ground arith

from-start : (e : ℕ → ℕ) (n : ℕ) → from e 0 n ≡ cells e n
from-start e n = from-cells e 0 n ∙ cells-ext (λ k. e (0 + k)) e n (λ k l. ap e (omega arith))

beside-Reads :
    (c : Children) (e : ℕ → ℕ) (n x : ℕ)
    → size c ≡ some n
    → Reads c e n
    → x ≢ 0
    → (get_prev c x ≡ some (before (cells e n) x)) × (get_next c x ≡ some (behind (cells e n) x))
unfolding get_prev get_next before behind Reads
beside-Reads c e zero x s reads ne = ground (arith, s)
beside-Reads c e (suc zero) x s reads ne = ground (arith, s)
beside-Reads c e (suc (suc n)) x s reads ne =
    let prev : prev_from c x (suc n) 0 ≡ some (before (cells e (suc (suc n))) x) =
      prev_from-before c e x (suc n) 0 (λ i l. reads i (omega arith))
      ∙ ap (λ l. some (before l x)) (from-start e (suc (suc n))) in
    let next : next_from c x (suc n) 0 ≡ some (behind (cells e (suc (suc n))) x) =
      next_from-behind c e x (suc n) 0 (λ i l. reads i (omega arith))
      ∙ ap (λ l. some (behind l x)) (from-start e (suc (suc n))) in
    ground (arith, s, prev, next)

-- nr_segment_children_get_prev and nr_segment_children_get_next on a sound structure, for a child
-- that is not NULL, read neither outside the children nor the wrong member of the union. The one
-- returns the child in front of the first occurrence of the given one that is not the first child,
-- the other the child behind the first occurrence that is not the last one; NULL if there is none.
pub get_prev-get_next :
    (c : Children) (x : ℕ)
    → IsSound c
    → x ≢ 0
    → (get_prev c x ≡ some (before (children_of c) x))
      × (get_next c x ≡ some (behind (children_of c) x))
unfolding size
get_prev-get_next (packed n e) x sound ne =
    beside-Reads (packed n e) e n x refl (packed-Reads n e) ne
get_prev-get_next (vector v) x (valid, d) ne =
    let even : (v.capacity % 2 == 1) ≡ false = Doubled-even v.capacity d in
    beside-Reads (vector v) v.elements v.used x (rw even refl) (vector-Reads v even) ne
