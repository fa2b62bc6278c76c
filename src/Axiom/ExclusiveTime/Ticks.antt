-- ===== src/Axiom/ExclusiveTime/Ticks.antt =====
-- Counting the ticks below a bound that have a property.
use c_sdk.Base.{
  ℕ, zero, suc, ◌+◌, ◌-◌, ◌<◌, ◌≤◌, ◌≡◌, refl, Bool, false, ◌&&◌, arith, ltb, leb, if◌then◌else◌,
}
use c_sdk.Base.Counts.{one_if}

-- The number of ticks below `n` with a property.
unfoldable pub ticks : (ℕ → Bool) → ℕ → ℕ
ticks p zero = 0
ticks p (suc n) = ticks p n + one_if (p n)

pub ticks-ext : (p q : ℕ → Bool) (n : ℕ) → ((t : ℕ) → t < n → p t ≡ q t) → ticks p n ≡ ticks q n
unfolding ticks
ticks-ext p q zero h = refl
ticks-ext p q (suc n) h = ground (arith, h n, ticks-ext p q n (λ t l. h t (omega arith)))

pub ticks-none : (p : ℕ → Bool) (n : ℕ) → ((t : ℕ) → t < n → p t ≡ false) → ticks p n ≡ 0
unfolding ticks
ticks-none p zero h = refl
ticks-none p (suc n) h = ground (arith, h n, ticks-none p n (λ t l. h t (omega arith)))

-- One property is the disjoint union of two others.
pub ticks-add :
    (p q r : ℕ → Bool) (n : ℕ)
    → ((t : ℕ) → t < n → one_if (p t) ≡ one_if (q t) + one_if (r t))
    → ticks p n ≡ ticks q n + ticks r n
unfolding ticks
ticks-add p q r zero h = omega arith
ticks-add p q r (suc n) h = omega (arith, h n, ticks-add p q r n (λ t l. h t (omega arith)))

ticks-range : (a b n : ℕ) → ticks (λ t. leb a t && ltb t b) n ≡ (if ltb n b then n else b) - a
unfolding ticks
ticks-range a b zero = ground arith
ticks-range a b (suc n) = ground (arith, ticks-range a b n)

-- The ticks from `a` up to `b`.
pub ticks-between : (a b n : ℕ) → b ≤ n → ticks (λ t. leb a t && ltb t b) n ≡ b - a
ticks-between a b n h = ground (arith, ticks-range a b n)
