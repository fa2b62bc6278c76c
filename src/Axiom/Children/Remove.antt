-- ===== src/Axiom/Children/Remove.antt =====
-- nr_segment_children_remove on a sound structure.
use c_sdk.Base.{
  ℕ, zero, suc, ◌+◌, ◌-◌, ◌≤◌, ◌<◌, ◌≡◌, ◌≢◌, ap, ◌∙◌, Bool, true, false, Option, none, some, arith,
  Bool-cases, inl, inr, if◌then◌else◌, ◌==◌, get_elem?,
}
use c_sdk.Axiom.Vector.{Vector, memmove, store, push_back, insert, find_first, remove_at}
use c_sdk.Axiom.Vector
use c_sdk.Axiom.Vector.Capacity.{IsValid}
use c_sdk.Axiom.Vector.Contents.{
  contents, cells, remove_list, Removed, remove-Removed, remove_at-contents, get_elem?-cells,
  cells-ext,
}
use c_sdk.Axiom.Vector.Find.{IsFirst, Answers, find_first-IsFirst}
use c_sdk.Axiom.Children.{
  Children, packed, vector, index_of, remove, remove_at as remove_vector, remove_packed,
  remove_index,
}
use c_sdk.Axiom.Children.Sound.{Doubled, Doubled-even, halve, IsSound, children_of}

-- What removing a child returns: no change where it is not there, and else the children without
-- one occurrence of it.
pub data Dropped (c : Children) (x : ℕ) : Option (Bool × Children) → Type 0 where
  missing : ((i : ℕ) → get_elem? (children_of c) i ≢ some x) → Dropped c x (some (false, c))
  dropped :
      (i : ℕ) (c' : Children)
      → get_elem? (children_of c) i ≡ some x
      → children_of c' ≡ remove_list (children_of c) i
      → IsSound c'
      → Dropped c x (some (true, c'))

not_there :
    (e : ℕ → ℕ) (n x : ℕ)
    → ((j : ℕ) → j < n → (e j == x) ≡ false)
    → (i : ℕ) → get_elem? (cells e n) i ≢ some x
not_there e zero x h i m = cc
not_there e (suc n) x h zero m = ground (arith, h 0)
not_there e (suc n) x h (suc i) m =
    not_there (λ k. e (suc k)) n x (λ j l. h (suc j) (omega arith)) i m

-- The search below a bound: `none` when the element is not there.
abbrev Below : (ℕ → ℕ) → ℕ → ℕ → Option ℕ → Type 0
Below e n x none = (j : ℕ) → j < n → (e j == x) ≡ false
Below e n x (some i) = (i < n) × (e i ≡ x)

index_of-Below : (e : ℕ → ℕ) (n x : ℕ) → Below e n x (index_of e n x)
unfolding index_of
index_of-Below e zero x = λ j l. elim l [ ]
index_of-Below e (suc n) x = go (index_of e n x) (index_of-Below e n x)
  where
    go :
        (o : Option ℕ)
        → Below e n x o
        → Below e (suc n) x (elim o [ some i ↦ some i | none ↦ if e n == x then some n else none ])
    go (some i) b = omega (arith, b)
    go none b = elim (Bool-cases (e n == x)) [
      | inl hit ↦ rw hit (ground arith)
      | inr miss ↦ rw miss (λ j l. elim (Bool-cases (j == n)) [
        | inl same ↦ let k : j ≡ n = ground arith in rw k miss
        | inr other ↦ b j (ground arith)
      ])
    ]

-- A packed structure as a vector.
abbrev array : ℕ → (ℕ → ℕ) → Vector
array n e = record { capacity = 8; used = n; elements = e }

removed-cells :
    (n i : ℕ) (e : ℕ → ℕ)
    → i < n - 1
    → cells (memmove e i (i + 1) (n - i - 1)) (n - 1) ≡ contents (remove_at (array n e) i)
unfolding remove_at memmove
removed-cells n i e l =
    cells-ext (memmove e i (i + 1) (n - i - 1)) (remove_at (array n e) i).elements (n - 1)
      (λ j k. ground arith)

remove_index-Dropped :
    (n : ℕ) (e : ℕ → ℕ) (x : ℕ)
    → n ≤ 8
    → n ≢ 0
    → (e (n - 1) == x) ≡ false
    → (o : Option ℕ) → Below e (n - 1) x o
    → Dropped (packed n e) x (some (remove_index n e o))
unfolding remove_index
remove_index-Dropped n e x sound ne miss none b = missing (
    not_there e n x (λ j l. elim (Bool-cases (j == n - 1)) [
      | inl same ↦ let k : j ≡ n - 1 = ground arith in rw k miss
      | inr other ↦ b j (ground arith)
    ]))
remove_index-Dropped n e x sound ne miss (some i) (l, h) =
    dropped i (packed (n - 1) (memmove e i (i + 1) (n - i - 1)))
      (get_elem?-cells e n i (omega arith) ∙ ap some h)
      (removed-cells n i e l ∙ remove_at-contents (array n e) i (omega arith)) (omega arith)

remove_packed-Dropped :
    (n : ℕ) (e : ℕ → ℕ) (x : ℕ)
    → n ≤ 8
    → n ≢ 0
    → Dropped (packed n e) x (some (remove_packed n e x))
unfolding remove_packed
remove_packed-Dropped n e x sound ne = elim (Bool-cases (e (n - 1) == x)) [
  | inl hit ↦ rw hit (
      dropped (n - 1) (packed (n - 1) e)
        (get_elem?-cells e n (n - 1) (omega arith) ∙ ap some (ground arith))
        (last ∙ remove_at-contents (array n e) (n - 1) (omega arith)) (omega arith))
  | inr miss ↦
      rw miss (
        remove_index-Dropped n e x sound ne miss (index_of e (n - 1) x)
          (index_of-Below e (n - 1) x))
]
  where
    last : cells e (n - 1) ≡ contents (remove_at (array n e) (n - 1))
    last =
        unfold remove_at in
        cells-ext e (remove_at (array n e) (n - 1)).elements (n - 1) (λ i l. ground arith)

module _ (room : ℕ → Bool) where
  remove_vector-Dropped :
      (v : Vector) (x : ℕ)
      → IsValid v
      → Doubled v.capacity
      → (o : Option (Option ℕ)) → Answers (λ e. e == x) v (IsFirst (λ e. e == x) v) o
      → Dropped (vector v) x (remove_vector room v o)
  unfolding remove_vector
  remove_vector-Dropped v x valid d none a = absurd a
  remove_vector-Dropped v x valid d (some none) a = missing (not_there v.elements v.used x a)
  remove_vector-Dropped v x valid d (some (some i)) (l, h, before) =
      let r : Removed Doubled v i (Vector.remove room v i) =
        remove-Removed room {P = Doubled} halve v i valid l d in
      rw (r.is, remove_vector)
        (dropped i (vector r.rest) (get_elem?-cells v.elements v.used i l ∙ ap some (ground arith))
          r.contents_of (r.valid, r.kept))

  -- nr_segment_children_remove of a child that is not NULL, from a sound structure: the child is
  -- there, the result is true, one occurrence of it goes, the others keep their order, and the
  -- structure stays sound; or the child is not there, the result is false, and nothing changes.
  pub remove-Dropped : (c : Children) (x : ℕ) → IsSound c → x ≢ 0 → Dropped c x (remove room c x)
  unfolding remove
  remove-Dropped (packed n e) x sound ne = elim (Bool-cases (n == 0)) [
    | inl empty ↦
        let none_left : n ≡ 0 = ground arith in rw (nonzero, none_left) (missing (λ i m. cc))
    | inr full ↦ rw (nonzero, full) (remove_packed-Dropped n e x sound (ground arith))
  ]
    where
      nonzero : (x == 0) ≡ false
      nonzero = ground arith
  remove-Dropped (vector v) x (valid, d) ne = elim (Bool-cases (v.used == 0)) [
    | inl empty ↦
        let none_left : v.used ≡ 0 = ground arith in
        rw (Doubled-even v.capacity d, nonzero, empty)
          (missing (not_there v.elements v.used x (λ j l. absurd (omega arith))))
    | inr full ↦
        rw (Doubled-even v.capacity d, nonzero, full)
          (remove_vector-Dropped v x valid d (find_first (λ e. e == x) v)
            (find_first-IsFirst (λ e. e == x) v (omega (arith, valid))))
  ]
    where
      nonzero : (x == 0) ≡ false
      nonzero = ground arith
