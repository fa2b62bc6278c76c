-- ===== src/Axiom/Vector/Find.antt =====
-- nr_vector_find_first and nr_vector_find_last: the loop ends on the first or last match.
use c_sdk.Base.{
  ℕ, zero, suc, ◌+◌, ◌-◌, ◌%◌, ◌≤◌, ◌<◌, ◌≡◌, Bool, true, false, Option, none, some, arith, ltb,
  Bool-cases, inl, inr, ◌==◌,
}
use c_sdk.Axiom.Vector.{Vector, find_from, find_first, find_last, size_mod}

module _ (found : ℕ → Bool) (v : Vector) where
  -- The least index, or the greatest, whose element passes the test; `none` if there is none.
  abbrev pub IsFirst : Option ℕ → Type 0
  IsFirst none = (j : ℕ) → j < v.used → found (v.elements j) ≡ false
  IsFirst (some i) =
      (i < v.used)
      × (found (v.elements i) ≡ true)
      × ((j : ℕ) → j < i → found (v.elements j) ≡ false)

  abbrev pub IsLast : Option ℕ → Type 0
  IsLast none = (j : ℕ) → j < v.used → found (v.elements j) ≡ false
  IsLast (some i) =
      (i < v.used)
      × (found (v.elements i) ≡ true)
      × ((j : ℕ) → i < j → j < v.used → found (v.elements j) ≡ false)

  -- The search ends within its fuel, in an answer of a kind.
  abbrev pub Answers : (Option ℕ → Type 0) → Option (Option ℕ) → Type 0
  Answers P none = ⊥
  Answers P (some r) = P r

  forward_lem :
      (fuel i : ℕ)
      → v.used < size_mod
      → i ≤ v.used
      → v.used < i + fuel
      → ((j : ℕ) → j < i → found (v.elements j) ≡ false)
      → Answers IsFirst (find_from found v true fuel i)
  unfolding find_from
  forward_lem zero i small h f before = absurd (omega arith)
  forward_lem (suc fuel) i small h f before = elim (Bool-cases (ltb i v.used)) [
    | inr past ↦ rw past (λ j l. before j (ground arith))
    | inl inside ↦ elim (Bool-cases (found (v.elements i))) [
      | inl hit ↦ rw (inside, hit) (ground arith, hit, before)
      | inr miss ↦
          let next : (i + 1) % size_mod ≡ i + 1 = ground arith in
          rw (inside, miss, next)
            (forward_lem fuel (i + 1) small (ground arith) (omega arith) (λ j l.
              elim (Bool-cases (j == i)) [
                | inl same ↦ let e : j ≡ i = ground arith in rw e miss
                | inr other ↦ before j (ground arith)
              ]))
    ]
  ]

  -- What is known of the elements from `i` on, once that at `i` is a miss.
  from_miss :
      (i : ℕ)
      → found (v.elements i) ≡ false
      → ((j : ℕ) → i < j → j < v.used → found (v.elements j) ≡ false)
      → (j : ℕ) → i ≤ j
      → j < v.used
      → found (v.elements j) ≡ false
  from_miss i miss before j l k = elim (Bool-cases (j == i)) [
    | inl same ↦ let e : j ≡ i = ground arith in rw e miss
    | inr other ↦ before j (ground arith) k
  ]

  backward_lem :
      (i fuel : ℕ)
      → v.used < size_mod
      → i < v.used
      → i + 1 < fuel
      → ((j : ℕ) → i < j → j < v.used → found (v.elements j) ≡ false)
      → Answers IsLast (find_from found v false fuel i)
  unfolding find_from
  backward_lem i zero small h f before = elim f [ ]
  backward_lem zero (suc zero) small h f before = absurd (omega arith)
  backward_lem zero (suc (suc fuel)) small h f before = elim (Bool-cases (found (v.elements 0))) [
    | inl hit ↦ let inside : ltb 0 v.used ≡ true = ground arith in rw (inside, hit) (h, hit, before)
    | inr miss ↦
        let inside : ltb 0 v.used ≡ true = ground arith in
        let past : ltb 18446744073709551615 v.used ≡ false = ground arith in
        rw (inside, miss, past) (λ j l. from_miss 0 miss before j (omega arith) l)
  ]
  backward_lem (suc i) (suc fuel) small h f before =
      elim (Bool-cases (found (v.elements (suc i)))) [
        | inl hit ↦
            let inside : ltb (suc i) v.used ≡ true = ground arith in
            rw (inside, hit) (h, hit, before)
        | inr miss ↦
            let inside : ltb (suc i) v.used ≡ true = ground arith in
            let next : (suc i + 18446744073709551615) % size_mod ≡ i = omega arith in
            rw (inside, miss, next)
              (backward_lem i fuel small (omega arith) (omega arith)
                (λ j l k. from_miss (suc i) miss before j l k))
      ]

  -- nr_vector_find_first ends. It finds the least index whose element passes the test, and fails
  -- exactly where none does.
  pub find_first-IsFirst : v.used < size_mod → Answers IsFirst (find_first found v)
  unfolding find_first
  find_first-IsFirst small = elim (Bool-cases (v.used == 0)) [
    | inl empty ↦ rw empty (λ j l. absurd (ground arith))
    | inr full ↦
        rw full (forward_lem (v.used + 1) 0 small (omega arith) (omega arith) (λ j l. elim l [ ]))
  ]

  -- nr_vector_find_last ends, although its index wraps around below 0. It finds the greatest index
  -- whose element passes the test, and fails exactly where none does.
  pub find_last-IsLast : v.used < size_mod → Answers IsLast (find_last found v)
  unfolding find_last
  find_last-IsLast small = elim (Bool-cases (v.used == 0)) [
    | inl empty ↦ rw empty (λ j l. absurd (ground arith))
    | inr full ↦ rw full (
        backward_lem (v.used - 1) (v.used + 1) small (ground arith) (ground arith)
          (λ j l k. absurd (omega arith)))
  ]
