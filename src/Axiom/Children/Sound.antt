-- ===== src/Axiom/Children/Sound.antt =====
-- Children that are only added and removed are always read as what they are, and behave as a list.
use c_sdk.Base.{
  ℕ, suc, ◌+◌, ◌*◌, ◌/◌, ◌%◌, ◌^◌, ◌≤◌, ◌<◌, ◌≡◌, ◌≢◌, refl, ap, sym, ◌∙◌, Bool, true, false,
  Option, some, List, [], ◌∷◌, ◌++◌, arith, ltb, Bool-cases, inl, inr, ◌==◌, length,
}
use c_sdk.Axiom.Vector.{Vector, store, push_back, insert}
use c_sdk.Axiom.Vector.Capacity.{IsValid}
use c_sdk.Axiom.Vector.Contents.{
  contents, cells, insert_list, Inserted, insert-Inserted, length-cells, insert_list-length,
  cells-inserted, inserted, cells-ext,
}
use c_sdk.Axiom.Children.{
  Children, packed, vector, packed_limit, migrate_to_vector, add, add_vector,
}

-- A capacity that eight grows to by doubling.
pub data Doubled : ℕ → Type 0 where
  eight : {k : ℕ} → k ≡ 8 → Doubled k
  twice : {k : ℕ} (j : ℕ) → Doubled j → k ≡ j * 2 → Doubled k

pub Doubled-even : (k : ℕ) → Doubled k → (k % 2 == 1) ≡ false
Doubled-even k (eight e) = ground arith
Doubled-even k (twice j d e) = ground arith

Doubled-le : (k : ℕ) → Doubled k → 8 ≤ k
Doubled-le k (eight e) = omega arith
Doubled-le k (twice j d e) = omega (arith, Doubled-le j d)

pub halve : (k : ℕ) → Doubled k → 4 < k / 2 → Doubled (k / 2)
halve k (eight e) h = absurd (omega arith)
halve k (twice j d e) h = let same : k / 2 ≡ j = omega arith in rw same d

-- At most eight children in place, or a vector whose capacity eight grows to.
abbrev pub IsSound : Children → Type 0
IsSound (packed count e) = count ≤ packed_limit
IsSound (vector v) = IsValid v × Doubled v.capacity

abbrev pub children_of : Children → List ℕ
children_of (packed count e) = cells e count
children_of (vector v) = contents v

-- What adding a child returns.
pub record Added (c : Children) (x : ℕ) (o : Option (Bool × Children)) : Type 0 where
  pub result : Children
  pub is : o ≡ some (true, result)
  pub sound : IsSound result
  pub appended : children_of result ≡ children_of c ++ (x ∷ [])

module _ (room : ℕ → Bool) (granted : (n : ℕ) → room n ≡ true) where
  add_vector-lem :
      (v : Vector) (x : ℕ)
      → IsValid v
      → Doubled v.capacity
      → v.used < 2 ^ 62
      → IsSound (add_vector room v x) × (children_of (add_vector room v x) ≡ contents v ++ (x ∷ []))
  unfolding add_vector push_back
  add_vector-lem v x valid d small =
      let r : Inserted Doubled v v.used x (insert room v v.used x) =
        insert-Inserted room granted {P = Doubled} (λ k h. twice k h refl) v v.used x valid
          (omega arith) small d (eight refl) in
      (
        (r.valid, r.kept),
        r.contents_of
            ∙ (ap (λ n. insert_list (contents v) n x) (sym (length-cells v.elements v.used))
                ∙ insert_list-length (contents v) x),
      )

  store-cells : (e : ℕ → ℕ) (n x : ℕ) → cells (store e n x) (suc n) ≡ cells e n ++ (x ∷ [])
  unfolding store
  store-cells e n x =
      cells-ext (store e n x) (inserted e n x) (suc n) (λ i l. ground arith)
      ∙ (cells-inserted e n x n (omega arith)
          ∙ (ap (λ k. insert_list (cells e n) k x) (sym (length-cells e n))
              ∙ insert_list-length (cells e n) x))

  migrated :
      (e : ℕ → ℕ) → IsValid (migrate_to_vector 8 e) × Doubled (migrate_to_vector 8 e).capacity
  unfolding migrate_to_vector
  migrated e = (omega arith, twice 8 (eight refl) refl)

  migrated_size : (e : ℕ → ℕ) → (migrate_to_vector 8 e).used < 2 ^ 62
  unfolding migrate_to_vector
  migrated_size e = omega arith

  -- nr_segment_children_add on a sound structure of fewer than 2 ^ 62 children, with an allocator
  -- that grants all requests: a child that is not NULL is added behind the others, in order, also
  -- where the ninth moves the packed children to a vector. The structure stays sound, so that it is
  -- read as what it is.
  pub add-Added :
      (c : Children) (x : ℕ)
      → IsSound c
      → x ≢ 0
      → length (children_of c) < 2 ^ 62
      → Added c x (add room c x)
  unfolding add
  add-Added (packed n e) x sound ne small = elim (Bool-cases (ltb packed_limit (n + 1))) [
    | inr fits ↦
        rw (nonzero, fits)
          (record {
            result = packed (n + 1) (store e n x);
            is = refl;
            sound = ground arith;
            appended = ap (cells (store e n x)) one_more ∙ store-cells e n x;
          })
    | inl full ↦
        let at_limit : n ≡ 8 = ground arith in
        rw (nonzero, at_limit)
          (record {
            result = add_vector room (migrate_to_vector 8 e) x;
            is = refl;
            sound =
                (add_vector-lem (migrate_to_vector 8 e) x (migrated e).0 (migrated e).1
                  (migrated_size e)).0;
            appended =
                (add_vector-lem (migrate_to_vector 8 e) x (migrated e).0 (migrated e).1
                  (migrated_size e)).1;
          })
  ]
    where
      nonzero : (x == 0) ≡ false
      nonzero = ground arith

      one_more : n + 1 ≡ suc n
      one_more = omega arith
  add-Added (vector v) x (valid, d) ne small =
      let nonzero : (x == 0) ≡ false = ground arith in
      let (sound, appended) =
        add_vector-lem v x valid d (omega (arith, length-cells v.elements v.used)) in
      rw (nonzero, Doubled-even v.capacity d)
        (record { result = add_vector room v x; is = refl; sound = sound; appended = appended })
