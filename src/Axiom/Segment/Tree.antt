-- ===== src/Axiom/Segment/Tree.antt =====
-- What a tree of segments is, and what a change of the children of one segment does to it.
use c_sdk.Base.{
  ℕ, zero, suc, ◌+◌, ◌^◌, ◌<◌, ◌≡◌, ◌≢◌, refl, ap, sym, ◌∙◌, Bool, true, false, Option, none, some,
  List, [], ◌∷◌, arith, ◌==◌, length, get_elem?, Bool-cases, inl, inr,
}
use c_sdk.Base.Counts.{one_if, count, count-append, count-missing}
use c_sdk.Axiom.Vector.Contents.{remove_list}
use c_sdk.Axiom.Children.{Children, add, remove}
use c_sdk.Axiom.Children.Sound.{IsSound, children_of, Added, add-Added}
use c_sdk.Axiom.Children.Remove.{Dropped, missing, dropped, remove-Dropped}
use c_sdk.Axiom.Segment.{Segment, Segments, put, remove_child, add_child}
use c_sdk.Axiom.Segment.Chain.{parent_in, parent_of, Climbs}

abbrev pub kids_in : ℕ → Option Segment → ℕ
kids_in c none = 0
kids_in c (some s) = count (λ x. x == c) (children_of s.children)

-- How often a child is among the children of a live segment.
abbrev pub kids : Segments → ℕ → ℕ → ℕ
kids segments p c = kids_in c (segments p)

-- Whether a segment has another for its parent.
abbrev pub is_child : (ℕ → Option ℕ) → ℕ → ℕ → Bool
is_child up p c = elim (up c) [ none ↦ false | some q ↦ q == p ]

-- The addresses of live segments lead up to a root, the children of a segment are readable, and
-- they are exactly the segments that have it for their parent, each once.
pub record IsTree (segments : Segments) : Type 0 where
  pub null : segments 0 ≡ none
  pub sound : (p : ℕ) (s : Segment) → segments p ≡ some s → IsSound s.children
  pub climbs : (p q : ℕ) → parent_of segments p ≡ some q → (n : ℕ) × Climbs (parent_of segments) p n
  pub linked :
      (p q c : ℕ)
      → parent_of segments p ≡ some q
      → kids segments p c ≡ one_if (is_child (parent_of segments) p c)

-- A parent that is not NULL is live.
pub live-parent :
    {segments : Segments}
    → IsTree segments
    → (c p : ℕ) → parent_of segments c ≡ some p
    → p ≢ 0
    → (q : ℕ) × (parent_of segments p ≡ some q)
live-parent {segments} tree c p e h = go (tree.climbs c p e)
  where
    go : (n : ℕ) × Climbs (parent_of segments) c n → (q : ℕ) × (parent_of segments p ≡ some q)
    go (zero, d) = absurd (ground (arith, tree.null, ap (λ x. parent_in (segments x)) d))
    go (suc n, inl d) = absurd (ground (arith, tree.null, ap (λ x. parent_in (segments x)) d))
    go (suc zero, inr (q, d, i)) = absurd (ground arith)
    go (suc (suc n), inr (q, d, inl i)) = absurd (ground arith)
    go (suc (suc n), inr (q, d, inr (r, i, j))) =
        let same : q ≡ p = ground arith in (r, rw (← same) i)

count-remove_list :
    (p : ℕ → Bool) (l : List ℕ) (i x : ℕ)
    → get_elem? l i ≡ some x
    → count p (remove_list l i) + one_if (p x) ≡ count p l
unfolding count remove_list
count-remove_list p [] i x e = ground arith
count-remove_list p (y ∷ l) zero x e = ground arith
count-remove_list p (y ∷ l) (suc i) x e = omega (arith, count-remove_list p l i x e)

count-one : (p : ℕ → Bool) (x : ℕ) → count p (x ∷ []) ≡ one_if (p x)
unfolding count
count-one p x = omega arith

-- A change of the children of one segment.
pub record Changed (segments segments' : Segments) (p : ℕ) : Type 0 where
  pub parents : (q : ℕ) → parent_of segments' q ≡ parent_of segments q
  pub sound :
      ((q : ℕ) (s : Segment) → segments q ≡ some s → IsSound s.children)
      → (q : ℕ) (s : Segment) → segments' q ≡ some s
      → IsSound s.children
  pub others : (q : ℕ) → q ≢ p → segments' q ≡ segments q

pub put_self :
    (segments : Segments) (p q : ℕ) (s : Segment) → (p == q) ≡ true → put segments p s q ≡ some s
unfolding put
put_self segments p q s e = rw e refl

pub put-other :
    (segments : Segments) (p q : ℕ) (s : Segment)
    → (p == q) ≡ false
    → put segments p s q ≡ segments q
unfolding put
put-other segments p q s e = rw e refl

put-Changed :
    (segments : Segments) (p : ℕ) (s : Segment) (c : Children)
    → segments p ≡ some s
    → IsSound c
    → Changed segments (put segments p (record s { children = c })) p
put-Changed segments p s c e sound =
    let s' : Segment = record s { children = c } in
    record {
      parents = λ q. elim (Bool-cases (p == q)) [
        | inl same ↦
            let old : segments q ≡ some s = rw (← same_place q same) e in
            ap parent_in (put_self segments p q s' same) ∙ sym (ap parent_in old)
        | inr other ↦ ap parent_in (put-other segments p q s' other)
      ];
      sound = λ all q r h. elim (Bool-cases (p == q)) [
        | inl same ↦ let is : r ≡ s' = cc (put_self segments p q s' same) in rw is sound
        | inr other ↦ all q r (cc (put-other segments p q s' other))
      ];
      others = λ q ne. put-other segments p q s' (ground arith);
    }
  where
    same_place : (q : ℕ) → (p == q) ≡ true → p ≡ q
    same_place q h = ground arith

module _ (room : ℕ → Bool) where
  -- The child goes from the children that it is among.
  pub record Detached (segments : Segments) (p child : ℕ) (o : Option Segments) : Type 0 where
    pub result : Segments
    pub is : o ≡ some result
    pub changed : Changed segments result p
    pub fewer : (c : ℕ) → kids result p c + one_if (child == c) ≡ kids segments p c

  Dropped-Detached :
      (segments : Segments) (p child : ℕ) (s : Segment) (o : Option (Bool × Children))
      → segments p ≡ some s
      → IsSound s.children
      → kids segments p child ≡ 1
      → o ≡ remove room s.children child
      → Dropped s.children child o
      → Detached segments p child (remove_child room segments p child)
  unfolding remove_child
  Dropped-Detached segments p child s o e sound once r (missing h) =
      let zero_kids : count (λ x. x == child) (children_of s.children) ≡ 0 =
        count-missing (λ x. x == child) (children_of s.children) (λ i x m. ground (arith, h i)) in
      absurd (ground (arith, zero_kids))
  Dropped-Detached segments p child s o e sound once r (dropped i c' at rest sound') = record {
    result = put segments p (record s { children = c' });
    is = ground (arith, sym r);
    changed = put-Changed segments p s c' e sound';
    fewer = λ c.
        (omega (
          arith,
          ap (kids_in c) (put_self segments p p (record s { children = c' }) (ground arith)),
          ap (kids_in c) e,
          ap (count (λ x. x == c)) rest,
          count-remove_list (λ x. x == c) (children_of s.children) i child at,
        ));
  }

  pub remove_child-Detached :
      (segments : Segments) (p child : ℕ) (s : Segment)
      → segments p ≡ some s
      → IsSound s.children
      → child ≢ 0
      → kids segments p child ≡ 1
      → Detached segments p child (remove_child room segments p child)
  remove_child-Detached segments p child s e sound ne once =
      Dropped-Detached segments p child s (remove room s.children child) e sound once refl
        (remove-Dropped room s.children child sound ne)

  -- The child comes to the children.
  pub record Attached (segments : Segments) (p child : ℕ) (o : Option Segments) : Type 0 where
    pub result : Segments
    pub is : o ≡ some result
    pub changed : Changed segments result p
    pub more : (c : ℕ) → kids result p c ≡ kids segments p c + one_if (child == c)

  pub add_child-Attached :
      ((n : ℕ) → room n ≡ true)
      → (segments : Segments) (p child : ℕ) (s : Segment) → segments p ≡ some s
      → IsSound s.children
      → child ≢ 0
      → length (children_of s.children) < 2 ^ 62
      → Attached segments p child (add_child room segments p child)
  unfolding add_child
  add_child-Attached granted segments p child s e sound ne small =
      let a : Added s.children child (add room s.children child) =
        add-Added room granted s.children child sound ne small in
      record {
        result = put segments p (record s { children = a.result });
        is = ground (arith, a.is);
        changed = put-Changed segments p s a.result e a.sound;
        more = λ c.
            (omega (
              arith,
              ap (kids_in c)
                  (put_self segments p p (record s { children = a.result }) (ground arith)),
              ap (kids_in c) e,
              ap (count (λ x. x == c)) a.appended,
              count-append (λ x. x == c) (children_of s.children) (child ∷ []),
              count-one (λ x. x == c) child,
            ));
      }
