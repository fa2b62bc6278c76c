-- ===== src/Axiom/Vector/Contents.antt =====
-- A vector as the list of its elements: what insertion and removal do to it.
use c_sdk.Base.{
  ℕ, zero, suc, ◌+◌, ◌-◌, ◌*◌, ◌/◌, ◌^◌, ◌||◌, get_elem?, ◌≤◌, ◌<◌, ◌≡◌, refl, ap, ap₂, ◌∙◌, Bool,
  true, false, Option, some, List, [], ◌∷◌, ◌++◌, arith, ltb, leb, Bool-cases, inl, inr,
  if◌then◌else◌, ◌==◌, length,
}
use c_sdk.Axiom.Vector.{
  Vector, insert_at, insert, remove_at, remove, shrink_if_necessary, ensure_impl,
}
use c_sdk.Axiom.Vector.Capacity.{IsValid, Ensured, ensure_impl-Ensured}

-- The first cells of an array.
abbrev pub cells : (ℕ → ℕ) → ℕ → List ℕ
cells e zero = []
cells e (suc n) = e 0 ∷ cells (λ i. e (suc i)) n

-- The elements of a vector, in order.
abbrev pub contents : Vector → List ℕ
contents v = cells v.elements v.used

pub cells-ext : (f g : ℕ → ℕ) (n : ℕ) → ((i : ℕ) → i < n → f i ≡ g i) → cells f n ≡ cells g n
cells-ext f g zero h = refl
cells-ext f g (suc n) h =
    ap₂ ◌∷◌ (h 0 (omega arith))
      (cells-ext (λ i. f (suc i)) (λ i. g (suc i)) n (λ i l. h (suc i) (omega arith)))

pub length-cells : (f : ℕ → ℕ) (n : ℕ) → length (cells f n) ≡ n
length-cells f zero = refl
length-cells f (suc n) = ap suc (length-cells (λ i. f (suc i)) n)

-- Insertion before a position, at the end where the position is past it, and removal.
unfoldable pub insert_list : List ℕ → ℕ → ℕ → List ℕ
insert_list xs zero x = x ∷ xs
insert_list [] (suc p) x = x ∷ []
insert_list (y ∷ ys) (suc p) x = y ∷ insert_list ys p x

unfoldable pub remove_list : List ℕ → ℕ → List ℕ
remove_list [] p = []
remove_list (y ∷ ys) zero = ys
remove_list (y ∷ ys) (suc p) = y ∷ remove_list ys p

pub insert_list-length : (xs : List ℕ) (x : ℕ) → insert_list xs (length xs) x ≡ xs ++ (x ∷ [])
unfolding insert_list
insert_list-length [] x = refl
insert_list-length (y ∷ ys) x = ap (λ l. y ∷ l) (insert_list-length ys x)

pub remove_list-append : (xs : List ℕ) (x : ℕ) → remove_list (xs ++ (x ∷ [])) (length xs) ≡ xs
unfolding remove_list
remove_list-append [] x = refl
remove_list-append (y ∷ ys) x = ap (λ l. y ∷ l) (remove_list-append ys x)

pub get_elem?-last : (xs : List ℕ) (x : ℕ) → get_elem? (xs ++ (x ∷ [])) (length xs) ≡ some x
get_elem?-last [] x = refl
get_elem?-last (y ∷ ys) x = get_elem?-last ys x

abbrev pub inserted : (ℕ → ℕ) → ℕ → ℕ → ℕ → ℕ
inserted e p x i = if ltb i p then e i else if i == p then x else e (i - 1)

abbrev removed : (ℕ → ℕ) → ℕ → ℕ → ℕ
removed e p i = if ltb i p then e i else e (i + 1)

pub cells-inserted :
    (e : ℕ → ℕ) (p x n : ℕ) → p ≤ n → cells (inserted e p x) (suc n) ≡ insert_list (cells e n) p x
unfolding insert_list
cells-inserted e zero x n h =
    ap₂ ◌∷◌ (ground arith) (cells-ext (λ i. inserted e 0 x (suc i)) e n (λ i l. ground arith))
cells-inserted e (suc p) x zero h = elim h [ ]
cells-inserted e (suc p) x (suc n) h = ap₂ ◌∷◌ (ground arith) (
    cells-ext (λ i. inserted e (suc p) x (suc i)) (inserted (λ i. e (suc i)) p x) (suc n)
      (λ i l. ground arith)
    ∙ cells-inserted (λ i. e (suc i)) p x n (omega arith))

cells-removed :
    (e : ℕ → ℕ) (p n : ℕ) → p ≤ n → cells (removed e p) n ≡ remove_list (cells e (suc n)) p
unfolding remove_list
cells-removed e zero n h = cells-ext (removed e 0) (λ i. e (suc i)) n (λ i l. ground arith)
cells-removed e (suc p) zero h = elim h [ ]
cells-removed e (suc p) (suc n) h = ap₂ ◌∷◌ (ground arith) (
    cells-ext (λ i. removed e (suc p) (suc i)) (removed (λ i. e (suc i)) p) n (λ i l. ground arith)
    ∙ cells-removed (λ i. e (suc i)) p n (omega arith))

insert_at-elements :
    (v : Vector) (p x i : ℕ)
    → p ≤ v.used
    → i < suc v.used
    → (insert_at v p x).elements i ≡ inserted v.elements p x i
unfolding insert_at
insert_at-elements v p x i h l = ground arith

insert_at-used :
    (v : Vector) (p x : ℕ)
    → ((insert_at v p x).used ≡ suc v.used) × ((insert_at v p x).capacity ≡ v.capacity)
unfolding insert_at
insert_at-used v p x = ground arith

insert_at-contents :
    (v : Vector) (p x : ℕ) → p ≤ v.used → contents (insert_at v p x) ≡ insert_list (contents v) p x
insert_at-contents v p x h =
    ap (cells (insert_at v p x).elements) (insert_at-used v p x).0
    ∙ cells-ext (insert_at v p x).elements (inserted v.elements p x) (suc v.used)
        (λ i l. insert_at-elements v p x i h l)
    ∙ cells-inserted v.elements p x v.used h

remove_at-elements :
    (v : Vector) (p i : ℕ)
    → p < v.used
    → i < v.used - 1
    → (remove_at v p).elements i ≡ removed v.elements p i
unfolding remove_at
remove_at-elements v p i h l = ground arith

pub remove_at-contents :
    (v : Vector) (p : ℕ) → p < v.used → contents (remove_at v p) ≡ remove_list (contents v) p
unfolding remove_at
remove_at-contents v p h =
    cells-ext (remove_at v p).elements (removed v.elements p) (v.used - 1)
      (λ i l. remove_at-elements v p i h l)
    ∙ cells-removed v.elements p (v.used - 1) (omega arith)
    ∙ ap (λ n. remove_list (cells v.elements n) p) whole
  where
    whole : suc (v.used - 1) ≡ v.used
    whole = omega arith

-- What an insertion returns.
pub record Inserted (P : ℕ → Type 0) (v : Vector) (p x : ℕ) (r : Bool × Vector) : Type 0 where
  pub done : r.0 ≡ true
  pub valid : IsValid r.1
  pub contents_of : contents r.1 ≡ insert_list (contents v) p x
  pub kept : P r.1.capacity

module _ (room : ℕ → Bool) (granted : (n : ℕ) → room n ≡ true) {P : ℕ → Type 0}
    (twice : (k : ℕ) → P k → P (k * 2)) where
  -- nr_vector_insert on a valid vector of fewer than 2 ^ 62 elements, at a position up to its end,
  -- with an allocator that grants all requests: it succeeds, the contents are the old ones with the
  -- element at the position, and the vector stays valid. A property of capacities that 8 has and
  -- doubling keeps is kept.
  pub insert-Inserted :
      (v : Vector) (p x : ℕ)
      → IsValid v
      → p ≤ v.used
      → v.used < 2 ^ 62
      → P v.capacity
      → P 8
      → Inserted P v p x (insert room v p x)
  unfolding insert
  insert-Inserted v p x valid h small pc p8 =
      let w : Vector = (ensure_impl room v (v.used + 1)).1 in
      let (used, capacity) = insert_at-used w p x in
      rw e.granted (record {
        done = refl;
        valid = record {
          within = omega (arith, used, capacity, e.enough, e.same_used);
          small = omega (arith, capacity, e.valid);
        };
        contents_of =
            insert_at-contents w p x (omega (arith, e.same_used))
            ∙ ap (λ l. insert_list l p x) (ap₂ cells e.same_elements e.same_used);
        kept = rw capacity e.kept;
      })
    where
      e : Ensured P v (v.used + 1) (ensure_impl room v (v.used + 1))
      e = ensure_impl-Ensured room granted twice v (v.used + 1) valid (omega arith) pc p8

pub get_elem?-cells : (e : ℕ → ℕ) (n p : ℕ) → p < n → get_elem? (cells e n) p ≡ some (e p)
get_elem?-cells e zero p h = elim h [ ]
get_elem?-cells e (suc n) zero h = refl
get_elem?-cells e (suc n) (suc p) h = get_elem?-cells (λ i. e (suc i)) n p (omega arith)

-- What a removal returns: the element at the position, and the vector without it.
pub record Removed (P : ℕ → Type 0) (v : Vector) (p : ℕ) (o : Option (ℕ × Vector)) : Type 0 where
  pub element : ℕ
  pub rest : Vector
  pub is : o ≡ some (element, rest)
  pub element_of : get_elem? (contents v) p ≡ some element
  pub valid : IsValid rest
  pub contents_of : contents rest ≡ remove_list (contents v) p
  pub kept : P rest.capacity

module _ (room : ℕ → Bool) {P : ℕ → Type 0} (halve : (k : ℕ) → P k → 4 < k / 2 → P (k / 2)) where
  shrink-IsValid :
      (v : Vector)
      → IsValid v
      → P v.capacity
      → let s = shrink_if_necessary room v in
        IsValid s × P s.capacity × (s.used ≡ v.used) × (s.elements ≡ v.elements)
  unfolding shrink_if_necessary
  shrink-IsValid v valid pc = elim (Bool-cases (ltb v.used 4 || leb (v.capacity / 2) v.used)) [
    | inl stays ↦ rw stays (valid, pc, refl, refl)
    | inr shrinks ↦ rw shrinks (go (room (v.capacity / 2)) (ground arith))
  ]
    where
      go :
          (b : Bool)
          → (4 ≤ v.used) × (v.used < v.capacity / 2)
          → let s : Vector = if b then record v { capacity = v.capacity / 2 } else v in
            IsValid s × P s.capacity × (s.used ≡ v.used) × (s.elements ≡ v.elements)
      go true h = (
        record { within = omega arith; small = omega arith },
        halve v.capacity pc (omega arith),
        refl,
        refl,
      )
      go false h = (valid, pc, refl, refl)

  -- nr_vector_remove on a valid vector, at a position before its end: it returns the element at the
  -- position, and the contents are the old ones without it, whether or not the vector shrinks and
  -- whether or not the allocator grants that. The vector stays valid. A property of capacities that
  -- halving keeps is kept.
  pub remove-Removed :
      (v : Vector) (p : ℕ) → IsValid v → p < v.used → P v.capacity → Removed P v p (remove room v p)
  unfolding remove
  remove-Removed v p valid h pc =
      let r : Vector = remove_at v p in
      let (valid', pc', used, elements) = shrink-IsValid r (shorter valid) (capacity_of pc) in
      let present : leb v.used p ≡ false = ground arith in
      rw present (record {
        element = v.elements p;
        rest = shrink_if_necessary room r;
        is = refl;
        element_of = get_elem?-cells v.elements v.used p h;
        valid = valid';
        contents_of = ap₂ cells elements used ∙ remove_at-contents v p h;
        kept = pc';
      })
    where
      shorter : IsValid v → IsValid (remove_at v p)
      shorter valid = unfold remove_at in omega arith

      capacity_of : P v.capacity → P (remove_at v p).capacity
      capacity_of pc = unfold remove_at in pc
