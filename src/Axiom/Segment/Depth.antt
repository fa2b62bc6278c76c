-- ===== src/Axiom/Segment/Depth.antt =====
-- How deep a tree of segments can be: the loop of nr_segment_set_parent makes no more rounds than
-- there are segments.
use mathlib.Core.Path.{subst}
use c_sdk.Base.{
  ℕ, zero, suc, ◌+◌, ◌-◌, ◌<◌, ◌≤◌, ◌≡◌, ◌≢◌, refl, ap, Option, none, some, List, [], ◌∷◌, arith,
  ◌==◌, length, inl, inr, Bool-cases,
}
use c_sdk.Base.Counts.{count, All, length-le}
use c_sdk.Axiom.Segment.Chain.{Climbs, Climbs-add}

module _ (up : ℕ → Option ℕ) where
  -- From an address NULL is reached in so many steps and not before.
  abbrev pub Rises : ℕ → ℕ → Type 0
  Rises p zero = p ≡ 0
  Rises p (suc n) = (q : ℕ) × (p ≢ 0) × (up p ≡ some q) × Rises q n

  Climbs-Rises : (p n : ℕ) → Climbs up p n → (m : ℕ) × (m ≤ n) × Rises p m
  Climbs-Rises p zero c = (0, omega arith, c)
  Climbs-Rises p (suc n) (inl e) = (0, omega arith, e)
  Climbs-Rises p (suc n) (inr (q, e, c)) = elim (Bool-cases (p == 0)) [
    | inl null ↦ (0, omega arith, ground arith)
    | inr live ↦
        let (m, h, r) = Climbs-Rises q n c in (suc m, omega (arith, h), (q, ground arith, e, r))
  ]

  Rises-Climbs : (p n : ℕ) → Rises p n → Climbs up p n
  Rises-Climbs p zero r = r
  Rises-Climbs p (suc n) (q, ne, e, r) = inr (q, e, Rises-Climbs q n r)

  Rises-unique : (p m n : ℕ) → Rises p m → Rises p n → m ≡ n
  Rises-unique p zero zero r s = refl
  Rises-unique p zero (suc n) r (q, ne, e, s) = absurd (ne r)
  Rises-unique p (suc m) zero (q, ne, e, r) s = absurd (ne s)
  Rises-unique p (suc m) (suc n) (q, ne, e, r) (q', ne', e', s) =
      let same : q ≡ q' = ground (arith, e, e') in ap suc (Rises-unique q' m n (rw (← same) r) s)

  -- The addresses on the way.
  way : (p n : ℕ) → Rises p n → List ℕ
  way p zero r = []
  way p (suc n) (q, ne, e, r) = p ∷ way q n r

  length-way : (p n : ℕ) (r : Rises p n) → length (way p n r) ≡ n
  unfolding way
  length-way p zero r = refl
  length-way p (suc n) (q, ne, e, r) = omega (arith, length-way q n r)

  way-below :
      (bound : ℕ)
      → ((q : ℕ) → bound < q → up q ≡ none)
      → (p n : ℕ) (r : Rises p n) → All (λ x. x < suc bound) (way p n r)
  unfolding way
  way-below bound free p zero r = tt
  way-below bound free p (suc n) (q, ne, e, r) =
      (ground (arith, e, free p), way-below bound free q n r)

  -- Each address on the way has a way of its own, which is no longer.
  way-Rises :
      (x p n : ℕ) (r : Rises p n)
      → count (λ y. y == x) (way p n r) ≢ 0
      → (m : ℕ) × (m ≤ n) × Rises x m
  unfolding way count
  way-Rises x p zero r h = absurd (h refl)
  way-Rises x p (suc n) (q, ne, e, r) h = elim (Bool-cases (p == x)) [
    | inl same ↦ let is : p ≡ x = ground arith in (suc n, omega arith, rw (← is) (q, ne, e, r))
    | inr other ↦ let (m, k, s) = way-Rises x q n r (ground (arith, h)) in (m, omega (arith, k), s)
  ]

  way-once : (x p n : ℕ) (r : Rises p n) → count (λ y. y == x) (way p n r) ≤ 1
  unfolding way count
  way-once x p zero r = omega arith
  way-once x p (suc n) (q, ne, e, r) = elim (Bool-cases (p == x)) [
    | inl same ↦ elim (Bool-cases (count (λ y. y == x) (way q n r) == 0)) [
      | inl last ↦ ground arith
      | inr again ↦
          let is : p ≡ x = ground arith in
          let (m, k, s) = way-Rises x q n r (ground arith) in
          absurd (omega (arith, k, Rises-unique x m (suc n) s (rw (← is) (q, ne, e, r))))
    ]
    | inr other ↦ ground (arith, way-once x q n r)
  ]

  -- With no live segment above an address, each way up has at most as many steps, and one.
  pub Climbs-bounded :
      (bound : ℕ)
      → ((q : ℕ) → bound < q → up q ≡ none)
      → (p n : ℕ) → Climbs up p n
      → Climbs up p (suc bound)
  Climbs-bounded bound free p n c =
      let (m, h, r) = Climbs-Rises p n c in
      let few : m ≤ suc bound = omega (
        arith,
        length-way p m r,
        length-le (way p m r) (suc bound) (way-below bound free p m r) (λ x. way-once x p m r),
      ) in
      let is : (suc bound - m) + m ≡ suc bound = omega (arith, few) in
      subst (Climbs up p) is (Climbs-add up p m (suc bound - m) (Rises-Climbs p m r))
