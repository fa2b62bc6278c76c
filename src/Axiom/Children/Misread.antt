-- ===== src/Axiom/Children/Misread.antt =====
-- nr_segment_children_reparent can leave a vector whose capacity is twice an odd number; once it
-- shrinks to half of that, it is read as packed.
use c_sdk.Base.{
  ℕ, ◌+◌, ◌*◌, ◌/◌, ◌%◌, ◌^◌, ◌≤◌, ◌<◌, ◌≡◌, ◌≢◌, refl, ap, ◌-◌, zero, suc, Bool-cases, inl, inr,
  Bool, true, false, Option, none, some, arith, ◌==◌,
}
use c_sdk.Axiom.Vector.{
  Vector, store, find_first, remove_at, shrink_if_necessary, ensure, ensure_impl,
}
use c_sdk.Axiom.Vector
use c_sdk.Axiom.Vector.Find.{IsFirst, Answers, find_first-IsFirst}
use c_sdk.Axiom.Children.{
  Children, packed, vector, packed_limit, reads_packed, init, size, remove, reparent,
}
use c_sdk.Axiom.Children

-- Children that reparenting moves from one packed structure to another that cannot hold them all:
-- the new parent's structure is a vector of twice the capacity that it had children, with the
-- children it had and the moved ones behind them. The moved ones have the new parent, and the other
-- segments the one they had.
pub record Moved (n m : ℕ) (e f : ℕ → ℕ) (new_parent : ℕ) (parents : ℕ → ℕ)
    (o : Option (Children × Children × (ℕ → ℕ))) : Type 0 where
  pub parent : Vector
  pub parents' : ℕ → ℕ
  pub is : o ≡ some (init, vector parent, parents')
  pub capacity : parent.capacity ≡ n * 2
  pub used : parent.used ≡ m + n
  pub kept : (i : ℕ) → i < n → parent.elements i ≡ e i
  pub moved : (i : ℕ) → i < m → parent.elements (n + i) ≡ f i
  pub adopted : (i : ℕ) → i < m → parents' (f i) ≡ new_parent
  pub others : (q : ℕ) → ((i : ℕ) → i < m → f i ≢ q) → parents' q ≡ parents q

adopt_self :
    (m : ℕ) (f : ℕ → ℕ) (p : ℕ) (parents : ℕ → ℕ) (i : ℕ)
    → i < m
    → Children.adopt m f p parents (f i) ≡ p
unfolding Children.adopt store
adopt_self zero f p parents i h = absurd (omega arith)
adopt_self (suc m) f p parents i h = elim (Bool-cases (i == m)) [
  | inl last ↦ let is : i ≡ m = ground arith in ground (arith, ap f is)
  | inr before ↦ ground (arith, adopt_self m f p parents i (ground arith))
]

adopt_others :
    (m : ℕ) (f : ℕ → ℕ) (p : ℕ) (parents : ℕ → ℕ) (q : ℕ)
    → ((i : ℕ) → i < m → f i ≢ q)
    → Children.adopt m f p parents q ≡ parents q
unfolding Children.adopt store
adopt_others zero f p parents q h = refl
adopt_others (suc m) f p parents q h =
    ground (arith, h m (omega arith), adopt_others m f p parents q (λ i l. h i (omega (arith, l))))

-- nr_segment_children_reparent from a packed structure to another that holds at least as many, where
-- together they are more than eight: the new parent's vector holds the children that it had,
-- in order, and the moved ones behind them, and its capacity is twice the number of children that it
-- had, which need not be a doubling of 8. The moved children have the new parent, and every other
-- segment the parent that it had.
pub reparent-Moved :
    (room : ℕ → Bool) (n m : ℕ) (e f : ℕ → ℕ) (new_parent : ℕ) (parents : ℕ → ℕ)
    → m ≢ 0
    → 8 < m + n
    → m ≤ n
    → Moved n m e f new_parent parents (reparent room (packed m f) (packed n e) new_parent parents)
unfolding reparent ensure ensure_impl
reparent-Moved room n m e f new_parent parents some_children many few = record {
  parent = record { capacity = n * 2; used = m + n; elements = Children.copied room e n f m };
  parents' = Children.adopt m f new_parent parents;
  is = ground arith;
  capacity = refl;
  used = refl;
  kept = λ i h. ground arith;
  moved = λ i h. let is : n + i - n ≡ i = omega arith in ground (arith, ap f is);
  adopted = adopt_self m f new_parent parents;
  others = adopt_others m f new_parent parents;
}

module _ (room : ℕ → Bool) (granted : (n : ℕ) → room n ≡ true) (v : Vector) (x i : ℕ) where
  -- The removal succeeds, and what it leaves is a vector that is read as packed, so that its size is
  -- not that of its contents.
  abbrev pub Lost : Option (Bool × Children) → Type 0
  Lost none = ⊥
  Lost (some (b, c)) = (b ≡ true) × (size c ≡ none)

  shrunk :
      (j : ℕ)
      → v.capacity % 4 ≡ 2
      → 4 < v.used
      → v.used ≤ v.capacity / 2
      → (shrink_if_necessary room (remove_at v j)).capacity % 2 ≡ 1
  unfolding shrink_if_necessary remove_at
  shrunk j odd enough half = ground (arith, granted (v.capacity / 2))

  lost :
      (j : ℕ)
      → j < v.used
      → v.capacity % 4 ≡ 2
      → 4 < v.used
      → v.used ≤ v.capacity / 2
      → Lost (Children.remove_at room v (some (some j)))
  unfolding Children.remove_at Vector.remove size
  lost j l odd enough half = ground (arith, shrunk j odd enough half)

  answered :
      (o : Option (Option ℕ))
      → Answers (λ e. e == x) v (IsFirst (λ e. e == x) v) o
      → i < v.used
      → v.elements i ≡ x
      → v.capacity % 4 ≡ 2
      → 4 < v.used
      → v.used ≤ v.capacity / 2
      → Lost (Children.remove_at room v o)
  answered none a l h odd enough half = absurd a
  answered (some none) a l h odd enough half = absurd (ground (arith, a i l, h))
  answered (some (some j)) (k, a, b) l h odd enough half = lost j k odd enough half

  -- nr_segment_children_remove of a child that is there, from a vector whose capacity is twice an
  -- odd number, with at least five and at most half of it in use, with an allocator that grants all
  -- requests: the vector shrinks to an odd capacity, whose lowest bit says that it is packed.
  pub remove-Lost :
      i < v.used
      → v.elements i ≡ x
      → x ≢ 0
      → v.used < 2 ^ 64
      → v.capacity % 4 ≡ 2
      → 4 < v.used
      → v.used ≤ v.capacity / 2
      → Lost (remove room (vector v) x)
  unfolding remove
  remove-Lost l h ne small odd enough half =
      let even : reads_packed v ≡ false = ground arith in
      let nonzero : (x == 0) ≡ false = ground arith in
      let full : (v.used == 0) ≡ false = ground arith in
      rw (even, nonzero, full)
        (answered (find_first (λ e. e == x) v) (find_first-IsFirst (λ e. e == x) v small) l h odd
          enough half)
