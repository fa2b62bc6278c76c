-- ===== src/Base/Counts.antt =====
-- Counting the elements of a list that pass a test.
use c_sdk.Base.{
  ℕ, zero, suc, ◌+◌, ◌≤◌, ◌<◌, ◌≢◌, ◌==◌, length, ltb, ◌≡◌, refl, Bool, false, some, List, [], ◌∷◌,
  ◌++◌, arith, if◌then◌else◌, get_elem?,
}

abbrev pub one_if : Bool → ℕ
one_if b = if b then 1 else 0

module _ {ℓ} {A : Type ℓ} where
  unfoldable pub count : (A → Bool) → List A → ℕ
  count p [] = 0
  count p (x ∷ l) = one_if (p x) + count p l

  pub count-append : (p : A → Bool) (l r : List A) → count p (l ++ r) ≡ count p l + count p r
  unfolding count
  count-append p [] r = omega arith
  count-append p (x ∷ l) r = omega (arith, count-append p l r)

  abbrev pub All : (A → Type 0) → List A → Type 0
  All P [] = Unit {0}
  All P (x ∷ l) = P x × All P l

  pub count-All :
      (P : A → Type 0) (p : A → Bool) (l : List A)
      → ((x : A) → P x → p x ≡ false)
      → All P l
      → count p l ≡ 0
  unfolding count
  count-All P p [] f h = refl
  count-All P p (x ∷ l) f (h, k) = ground (arith, f x h, count-All P p l f k)

  pub All-count :
      (P : A → Type 0) (p : A → Bool) (l : List A)
      → ((x : A) → p x ≡ false → P x)
      → count p l ≡ 0
      → All P l
  unfolding count
  All-count P p [] f h = tt
  All-count P p (x ∷ l) f h = (f x (ground arith), All-count P p l f (omega arith))

  pub All-map : (P Q : A → Type 0) (l : List A) → ((x : A) → P x → Q x) → All P l → All Q l
  All-map P Q [] f h = tt
  All-map P Q (x ∷ l) f (h, k) = (f x h, All-map P Q l f k)

  pub All-append : (P : A → Type 0) (l : List A) (x : A) → All P l → P x → All P (l ++ (x ∷ []))
  All-append P [] x h k = (k, tt)
  All-append P (y ∷ l) x (h, i) k = (h, All-append P l x i k)

  pub count-missing :
      (p : A → Bool) (l : List A)
      → ((i : ℕ) (x : A) → get_elem? l i ≡ some x → p x ≡ false)
      → count p l ≡ 0
  unfolding count
  count-missing p [] h = refl
  count-missing p (x ∷ l) h = ground (arith, h 0 x, count-missing p l (λ i y e. h (suc i) y e))

-- What holds of every value that occurs holds of every element.
pub All-occurs :
    (P : ℕ → Type 0) (l : List ℕ) → ((x : ℕ) → count (λ y. y == x) l ≢ 0 → P x) → All P l
unfolding count
All-occurs P [] h = tt
All-occurs P (x ∷ l) h = (h x (ground arith), All-occurs P l (λ y ne. h y (omega arith)))

-- The occurrences of the values below a bound.
total : List ℕ → ℕ → ℕ
total l zero = 0
total l (suc n) = total l n + count (λ y. y == n) l

total-nil : (n : ℕ) → total [] n ≡ 0
unfolding total count
total-nil zero = refl
total-nil (suc n) = omega (arith, total-nil n)

total-cons : (x : ℕ) (l : List ℕ) (n : ℕ) → total (x ∷ l) n ≡ total l n + one_if (ltb x n)
unfolding total count
total-cons x l zero = ground arith
total-cons x l (suc n) = ground (arith, total-cons x l n)

length-total : (l : List ℕ) (n : ℕ) → All (λ x. x < n) l → length l ≡ total l n
length-total [] n h = omega (arith, total-nil n)
length-total (x ∷ l) n (h, k) = ground (arith, total-cons x l n, length-total l n k)

total-le : (l : List ℕ) (n : ℕ) → ((x : ℕ) → count (λ y. y == x) l ≤ 1) → total l n ≤ n
unfolding total
total-le l zero h = omega arith
total-le l (suc n) h = omega (arith, h n, total-le l n h)

-- A list of values below a bound, each at most once, is no longer than the bound.
pub length-le :
    (l : List ℕ) (n : ℕ) → All (λ x. x < n) l → ((x : ℕ) → count (λ y. y == x) l ≤ 1) → length l ≤ n
length-le l n h k = omega (arith, length-total l n h, total-le l n k)
