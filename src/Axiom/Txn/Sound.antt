-- ===== src/Axiom/Txn/Sound.antt =====
-- A transaction that is sound, and a tree with one more segment.
use mathlib.Core.Path.{fun_ext, subst}
use c_sdk.Base.{
  ℕ, zero, suc, ◌+◌, ◌-◌, ◌<◌, ◌≤◌, ◌≡◌, ◌≢◌, refl, ap, sym, ◌∙◌, ◌&&◌, Option, none, some, arith,
  ◌==◌, length, Bool-cases, inl, inr,
}
use c_sdk.Base.Counts.{one_if, count, All, All-occurs, length-le}
use c_sdk.Axiom.Vector.{Vector, get_element}
use c_sdk.Axiom.Vector.Capacity.{IsValid}
use c_sdk.Axiom.Vector.Contents.{contents, cells}
use c_sdk.Axiom.Stack.{get_top}
use c_sdk.Axiom.Children.Sound.{IsSound, children_of}
use c_sdk.Axiom.Segment.{Segment, Segments}
use c_sdk.Axiom.Segment.Chain.{
  parent_in, parent_of, Climbs, Avoids, moved, Avoids-moved, Climbs-moved,
}
use c_sdk.Axiom.Segment.Tree.{kids, kids_in, is_child, IsTree, live-parent}
use c_sdk.Axiom.Txn.{Txn, current_segment}

-- A live segment.
abbrev pub IsLive : Segments → ℕ → Type 0
IsLive segments p = parent_of segments p ≢ none

-- The segments are a tree, the open ones on the stack are live, and the addresses above the last
-- are free.
pub record IsTxn (t : Txn) : Type 0 where
  pub tree : IsTree t.segments
  pub stack : IsValid t.default_parent_stack
  pub open_segments : All (IsLive t.segments) (contents t.default_parent_stack)
  pub fresh : (q : ℕ) → t.last < q → t.segments q ≡ none
  pub small : t.default_parent_stack.used ≤ t.last

-- In a sound transaction no segment has more children than there are segments, by the address that
-- the slab gave out last.
pub children-le-last :
    {t : Txn}
    → IsTxn t
    → (p : ℕ) (s : Segment) → t.segments p ≡ some s
    → length (children_of s.children) ≤ t.last + 1
children-le-last {t} sound p s e =
    length-le (children_of s.children) (t.last + 1)
      (All-occurs (λ x. x < t.last + 1) (children_of s.children) below) once
  where
    counted :
        (x : ℕ)
        → count (λ y. y == x) (children_of s.children)
          ≡ one_if (is_child (parent_of t.segments) p x)
    counted x = sym (ap (kids_in x) e) ∙ sound.tree.linked p s.parent x (ap parent_in e)

    once : (x : ℕ) → count (λ y. y == x) (children_of s.children) ≤ 1
    once x = ground (arith, counted x)

    below : (x : ℕ) → count (λ y. y == x) (children_of s.children) ≢ 0 → x < t.last + 1
    below x ne = ground (arith, counted x, sound.fresh x)

-- The element of a stack that is read at its top.
top-All : (P : ℕ → Type 0) (e : ℕ → ℕ) (n : ℕ) → All P (cells e (suc n)) → P (e n)
top-All P e zero h = h.0
top-All P e (suc n) h = top-All P (λ i. e (suc i)) n h.1

-- The top of a stack, 0 where it is empty.
abbrev top_of : Vector → ℕ
top_of v = elim (get_top v) [ none ↦ 0 | some s ↦ s ]

stack-live : (P : ℕ → Type 0) (v : Vector) → All P (contents v) → top_of v ≢ 0 → P (top_of v)
unfolding get_top get_element
stack-live P v all ne = elim (Bool-cases (v.used == 0)) [
  | inl empty ↦ absurd (ground arith)
  | inr some_left ↦
      let size : v.used ≡ suc (v.used - 1) = ground arith in
      let top : P (v.elements (v.used - 1)) =
        top-All P v.elements (v.used - 1) (subst (λ n. All P (cells v.elements n)) size all) in
      let is : top_of v ≡ v.elements (v.used - 1) = ground arith in subst P (sym is) top
]

-- The current segment is live, or NULL.
pub current-live :
    {t : Txn} → IsTxn t → current_segment t ≢ 0 → IsLive t.segments (current_segment t)
unfolding current_segment
current-live {t} sound ne =
    stack-live (IsLive t.segments) t.default_parent_stack sound.open_segments ne

-- A way up does not meet a segment that is dead.
Climbs-Avoids : (up : ℕ → Option ℕ) (s p n : ℕ) → up s ≡ none → Climbs up p n → Avoids up s p n
Climbs-Avoids up s p zero e c = c
Climbs-Avoids up s p (suc n) e (inl h) = inl h
Climbs-Avoids up s p (suc n) e (inr (q, h, c)) =
    inr (q, h, (λ same. ground (arith, ap up same)), Climbs-Avoids up s q n e c)

-- A tree with one more segment, which is a child of a live one or a root, and has no children.
pub record Grown (from to : Segments) (s parent : ℕ) : Type 0 where
  pub parents : (q : ℕ) → parent_of to q ≡ moved (parent_of from) s parent q
  pub sound : (q : ℕ) (r : Segment) → to q ≡ some r → IsSound r.children
  pub counts : (q c : ℕ) → q ≢ 0 → kids to q c ≡ kids from q c + one_if ((q == parent) && (s == c))

pub alive : (o : Option ℕ) → o ≢ none → (q : ℕ) × (o ≡ some q)
alive none h = absurd (h refl)
alive (some q) h = (q, refl)

pub null-dead : (o : Option Segment) → parent_in o ≡ none → o ≡ none
null-dead none e = refl
null-dead (some s) e = cc

pub Grown-IsTree :
    (from to : Segments) (s parent : ℕ)
    → IsTree from
    → s ≢ 0
    → parent_of from s ≡ none
    → ((parent ≢ 0) → IsLive from parent)
    → Grown from to s parent
    → IsTree to
Grown-IsTree from to s parent tree ne dead live g = record {
  null = null-dead (to 0) (g.parents 0 ∙ ground (arith, tree.null));
  sound = g.sound;
  climbs = λ q r e. elim (Bool-cases (s == q)) [
    | inl same ↦ (
      suc reach.0,
      transport_up (suc reach.0) q
          (inr (parent, ground arith, Avoids-moved up s parent parent reach.0 reach.1)),
    )
    | inr elsewhere ↦
        let (n, c) = tree.climbs q r (ground (arith, g.parents q)) in
        (
          n + suc reach.0,
          transport_up (n + suc reach.0) q (Climbs-moved up s parent reach.0 reach.1 q n c),
        )
  ];
  linked = λ q r c e.
      let nonzero : q ≢ 0 = ground (arith, g.parents 0, tree.null) in
      elim (Bool-cases (s == q)) [
        | inl same ↦ let place : q ≡ s = ground arith in rw place (childless c)
        | inr elsewhere ↦ ground (
          arith,
          tree.linked q r c (ground (arith, g.parents q)),
          g.counts q c nonzero,
          g.parents c,
        )
      ];
}
  where
    up : ℕ → Option ℕ
    up = parent_of from

    not_parent : parent ≢ s
    not_parent h = live (λ n. ne (sym h ∙ n)) (ap up h ∙ dead)

    no_child : (c : ℕ) → up c ≢ some s
    no_child c h = let (x, y) = live-parent tree c s h ne in ground arith

    childless : (c : ℕ) → kids to s c ≡ one_if (is_child (parent_of to) s c)
    childless c = ground (
      arith,
      g.counts s c ne,
      ap (kids_in c) (null-dead (from s) dead),
      g.parents c,
      no_child c,
      not_parent,
    )

    transport_up : (n q : ℕ) → Climbs (moved up s parent) q n → Climbs (parent_of to) q n
    transport_up n q c = subst (λ f. Climbs f q n) (sym (fun_ext g.parents)) c

    reach : (n : ℕ) × Avoids up s parent n
    reach = elim (Bool-cases (parent == 0)) [
      | inl root ↦ (0, ground arith)
      | inr nested ↦
          let (q, e) = alive (up parent) (live (ground arith)) in
          let (n, c) = tree.climbs parent q e in (n, Climbs-Avoids up s parent n dead c)
    ]
