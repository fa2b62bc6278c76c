-- ===== src/Axiom/Vector/Capacity.antt =====
-- The capacity of a vector: the doubling loop ends, there is room for every element, and what is
-- preserved by doubling and halving.
use native.Mathlib.Nat.{pow-suc}
use c_sdk.Base.{
  ℕ, zero, suc, ◌*◌, ◌%◌, ◌^◌, ◌≤◌, ◌<◌, ◌≡◌, refl, Bool, true, false, Option, some, arith, ltb,
  leb, Bool-cases, ltb→lt, inl, inr, if◌then◌else◌, ◌==◌, ◌⊎◌,
}
use c_sdk.Axiom.Vector.{Vector, grow, ensure_impl, size_mod}

-- The elements in use are allocated, and the capacity is at most half of the address space.
pub record IsValid (v : Vector) : Type 0 where
  pub within : v.used ≤ v.capacity
  pub small : v.capacity ≤ 2 ^ 63

-- A capacity that the loop ends at, which it reaches from `n` by doubling: enough, and less than
-- twice too large if it is not `n`.
pub record Grown (P : ℕ → Type 0) (n c : ℕ) (o : Option ℕ) : Type 0 where
  pub capacity : ℕ
  pub ends : o ≡ some capacity
  pub enough : c ≤ capacity
  pub at_least : n ≤ capacity
  pub tight : (capacity ≡ n) ⊎ (capacity < 2 * c)
  pub kept : P capacity

double_enough : (n f c : ℕ) → c ≤ n * 2 ^ suc f → c ≤ (n * 2) * 2 ^ f
double_enough n f c h = grind (arith, pow-suc 2 f)

module _ {P : ℕ → Type 0} (twice : (k : ℕ) → P k → P (k * 2)) where
  Grown-double : (n c : ℕ) {o : Option ℕ} → n < c → Grown P (n * 2) c o → Grown P n c o
  Grown-double n c less g = record {
    capacity = g.capacity;
    ends = g.ends;
    enough = g.enough;
    at_least = omega (arith, g.at_least);
    tight = elim g.tight [ inl e ↦ inr (omega arith) | inr l ↦ inr l ];
    kept = g.kept;
  }

  done : (n c : ℕ) → c ≤ n → P n → Grown P n c (some n)
  done n c h p = record {
    capacity = n;
    ends = refl;
    enough = h;
    at_least = omega arith;
    tight = inl refl;
    kept = p;
  }

  no_more : (n c : ℕ) → c ≤ n * 2 ^ 0 → ltb n c ≡ false
  no_more n c h = ground arith

  -- The loop of nr_vector_ensure that doubles a capacity `n` up to a request `c` of at most 2 ^ 63
  -- ends, within one round more than the doublings that are needed. The result holds the request,
  -- is the least doubling that does, and has every property of `n` that doubling keeps.
  pub grow-Grown :
      (f n c : ℕ) → 0 < n → c ≤ 2 ^ 63 → c ≤ n * 2 ^ f → P n → Grown P n c (grow (suc f) n c)
  unfolding grow
  grow-Grown zero n c pos small enough p = rw (no_more n c enough) (done n c (omega arith) p)
  grow-Grown (suc f) n c pos small enough p = elim (Bool-cases (ltb n c)) [
    | inr stop ↦ rw stop (done n c (ground arith) p)
    | inl more ↦
        let less : n < c = ltb→lt n c more in
        let same : (n * 2) % size_mod ≡ n * 2 = omega arith in
        rw (more, same)
          (Grown-double n c less
            (grow-Grown f (n * 2) c (omega arith) small (double_enough n f c enough) (twice n p)))
  ]

-- Where the doubling of a vector starts.
abbrev pub start : Vector → ℕ
start v = if v.capacity == 0 then 8 else v.capacity

-- What is true of a vector with room for `c` pointers that `ensure` made of `v`.
pub record Ensured (P : ℕ → Type 0) (v : Vector) (c : ℕ) (r : Bool × Vector) : Type 0 where
  pub granted : r.0 ≡ true
  pub valid : IsValid r.1
  pub enough : c ≤ r.1.capacity
  pub same_used : r.1.used ≡ v.used
  pub same_elements : r.1.elements ≡ v.elements
  pub kept : P r.1.capacity

module _ (room : ℕ → Bool) (granted : (n : ℕ) → room n ≡ true) {P : ℕ → Type 0}
    (twice : (k : ℕ) → P k → P (k * 2)) where
  -- With an allocator that grants all requests, nr_vector_ensure_impl on a valid vector makes room
  -- for any number of elements up to 2 ^ 62, leaves the elements alone and keeps the vector valid.
  -- A property of capacities that 8 has and doubling keeps is kept.
  pub ensure_impl-Ensured :
      (v : Vector) (c : ℕ)
      → IsValid v
      → c ≤ 2 ^ 62
      → P v.capacity
      → P 8
      → Ensured P v c (ensure_impl room v c)
  unfolding ensure_impl
  ensure_impl-Ensured v c valid small p p8 = elim (Bool-cases (leb c v.capacity)) [
    | inl fits ↦ rw fits (record {
      granted = refl;
      valid = valid;
      enough = ground arith;
      same_used = refl;
      same_elements = refl;
      kept = p;
    })
    | inr grows ↦
        let g : Grown P (start v) c (grow 65 (start v) c) =
          grow-Grown twice 64 (start v) c (ground arith) (omega arith) (ground arith)
            (start_kept v p p8) in
        rw (grows, g.ends, granted g.capacity)
          (record {
            granted = refl;
            valid = record { within = ground (arith, g.at_least); small = ground (arith, g.tight) };
            enough = g.enough;
            same_used = refl;
            same_elements = refl;
            kept = g.kept;
          })
  ]
    where
      start_kept : (v : Vector) → P v.capacity → P 8 → P (start v)
      start_kept v p p8 = elim (Bool-cases (v.capacity == 0)) [ inl e ↦ rw e p8 | inr e ↦ rw e p ]
