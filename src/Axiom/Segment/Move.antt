-- ===== src/Axiom/Segment/Move.antt =====
-- nr_segment_set_parent on a tree of segments.
use mathlib.Core.Path.{fun_ext, subst}
use c_sdk.Base.{
  ℕ, suc, ◌+◌, ◌^◌, ◌<◌, ◌≡◌, ◌≢◌, refl, ap, sym, ◌∙◌, Bool, true, false, not, ◌&&◌, Option, none,
  some, arith, ◌==◌, if◌then◌else◌, length, Bool-cases, inl, inr,
}
use c_sdk.Base.Counts.{one_if}
use c_sdk.Axiom.Children.Sound.{IsSound, children_of}
use c_sdk.Axiom.Segment.{Segment, Segments, put, remove_child, add_child, link, move_segment}
use c_sdk.Axiom.Segment.Chain.{parent_in, parent_of, Climbs, Avoids, moved, Climbs-moved}
use c_sdk.Axiom.Segment.Tree.{
  live-parent, kids, kids_in, IsTree, put_self, put-other, Detached, remove_child-Detached,
  Attached, add_child-Attached,
}

abbrev AllSound : Segments → Type 0
AllSound segments = (q : ℕ) (s : Segment) → segments q ≡ some s → IsSound s.children

-- A live segment, from its parent.
live :
    (o : Option Segment) (q : ℕ)
    → parent_in o ≡ some q
    → (s : Segment) × (o ≡ some s) × (s.parent ≡ q)
live none q e = cc
live (some s) q e = (s, refl, ground arith)

dead : (o : Option Segment) → parent_in o ≡ none → o ≡ none
dead none e = refl
dead (some s) e = cc

module _ (room : ℕ → Bool) (granted : (n : ℕ) → room n ≡ true) (segments : Segments)
    (tree : IsTree segments) (s parent : ℕ) (sv pv : Segment) (address : s ≢ 0)
    (s_live : segments s ≡ some sv) (p_live : segments parent ≡ some pv)
    (small : length (children_of pv.children) < 2 ^ 62) (other : sv.parent ≢ parent) where
  abbrev up : ℕ → Option ℕ
  up = parent_of segments

  abbrev old : ℕ
  old = sv.parent

  parent_of-s : up s ≡ some old
  parent_of-s = ap parent_in s_live

  parent-ne-zero : parent ≢ 0
  parent-ne-zero = ground (arith, tree.null)

  old-live : old ≢ 0 → (q : ℕ) × (up old ≡ some q)
  old-live h = live-parent tree s old parent_of-s h

  -- The segments with the segment taken from its parent, and after it was put among the others.
  record Between (from to : Segments) (gone come : ℕ → Bool) (o : Option Segments) : Type 0 where
    pub is : o ≡ some to
    pub parents : (q : ℕ) → parent_of to q ≡ parent_of from q
    pub sound : AllSound from → AllSound to
    pub counts :
        (q c : ℕ)
        → kids to q c + one_if (gone q && (s == c)) ≡ kids from q c + one_if (come q && (s == c))

  abbrev never : ℕ → Bool
  never q = false

  detached :
      (to : Segments) × Between segments to
        (λ q. (q == old) && not (old == 0))
        never
        (if old == 0 then some segments else remove_child room segments old s)
      × (to parent ≡ segments parent)
  detached = elim (Bool-cases (old == 0)) [
    | inl root ↦ (
      segments,
      record {
        is = ground arith;
        parents = λ q. refl;
        sound = λ a. a;
        counts = λ q c. ground arith;
      },
      refl,
    )
    | inr nested ↦
        let (q, e) = old-live (ground arith) in
        let (ov, o_live, _) = live (segments old) q e in
        let once : kids segments old s ≡ 1 = tree.linked old q s e ∙ ground (arith, parent_of-s) in
        let d : Detached room segments old s (remove_child room segments old s) =
          remove_child-Detached room segments old s ov o_live (tree.sound old ov o_live) address
            once in
        (
          d.result,
          record {
            is = ground (arith, d.is);
            parents = d.changed.parents;
            sound = d.changed.sound;
            counts = λ q c. elim (Bool-cases (q == old)) [
              | inl same ↦
                  let place : q ≡ old = ground arith in rw place (ground (arith, d.fewer c))
              | inr elsewhere ↦ ground (arith, ap (kids_in c) (d.changed.others q (ground arith)))
            ];
          },
          d.changed.others parent (ground arith),
        )
  ]

  attached :
      (from : Segments)
      → AllSound from
      → from parent ≡ segments parent
      → (to : Segments) × Between from to never (λ q. q == parent) (add_child room from parent s)
  attached from sound same =
      let here : from parent ≡ some pv = same ∙ p_live in
      let a : Attached room from parent s (add_child room from parent s) =
        add_child-Attached room granted from parent s pv here (sound parent pv here) address
          small in
      (
        a.result,
        record {
          is = a.is;
          parents = a.changed.parents;
          sound = a.changed.sound;
          counts = λ q c. elim (Bool-cases (q == parent)) [
            | inl same ↦
                let place : q ≡ parent = ground arith in rw place (ground (arith, a.more c))
            | inr elsewhere ↦ ground (arith, ap (kids_in c) (a.changed.others q (ground arith)))
          ];
        },
      )

  -- The last write, of the parent.
  record Linked (from to : Segments) (o : Option Segments) : Type 0 where
    pub is : o ≡ some to
    pub parents : (q : ℕ) → parent_of to q ≡ moved (parent_of from) s parent q
    pub sound : AllSound from → AllSound to
    pub counts : (q c : ℕ) → kids to q c ≡ kids from q c

  link-Linked :
      (from : Segments)
      → parent_of from s ≡ some old
      → (to : Segments) × Linked from to (link room from s parent)
  unfolding link
  link-Linked from e =
      let (v, v_live, _) = live (from s) old e in
      let v' : Segment = record v { parent = parent } in
      (
        put from s v',
        record {
          is = ground arith;
          parents = λ q. elim (Bool-cases (s == q)) [
            | inl same ↦ rw same (ap parent_in (put_self from s q v' same))
            | inr elsewhere ↦ rw elsewhere (ap parent_in (put-other from s q v' elsewhere))
          ];
          sound = λ all q r h. elim (Bool-cases (s == q)) [
            | inl same ↦ let is : r ≡ v' = cc (put_self from s q v' same) in rw is (all s v v_live)
            | inr elsewhere ↦ all q r (cc (put-other from s q v' elsewhere))
          ];
          counts = λ q c. elim (Bool-cases (s == q)) [
            | inl same ↦
                let place : s ≡ q = ground arith in
                ap (kids_in c) (put_self from s q v' same)
                ∙ sym (ap (kids_in c) (ap from (sym place) ∙ v_live))
            | inr elsewhere ↦ ap (kids_in c) (put-other from s q v' elsewhere)
          ];
        },
      )

  -- The segments after the move.
  pub record IsMoved (o : Option Segments) : Type 0 where
    pub result : Segments
    pub is : o ≡ some result
    pub forest : IsTree result
    pub parents : (q : ℕ) → parent_of result q ≡ moved up s parent q

  -- One segment went from one parent to another, in the parents and in the children.
  moved-IsTree :
      (to : Segments) (m : ℕ)
      → Avoids up s parent m
      → AllSound to
      → ((q : ℕ) → parent_of to q ≡ moved up s parent q)
      → ((q c : ℕ)
          → q ≢ 0
          → kids to q c + one_if ((q == old) && (s == c))
            ≡ kids segments q c + one_if ((q == parent) && (s == c)))
      → IsTree to
  moved-IsTree to m avoids sound parents counts = record {
    null = dead (to 0) (parents 0 ∙ ground (arith, tree.null));
    sound = sound;
    climbs = λ q r e.
        let (n, c) = climbs_before q r e in
        (
          n + suc m,
          subst (λ f. Climbs f q (n + suc m)) (sym (fun_ext parents))
              (Climbs-moved up s parent m avoids q n c),
        );
    linked = λ q r c e.
        let (r', before) = live_before q r e in
        let nonzero : q ≢ 0 = ground (arith, tree.null) in
        ground (arith, tree.linked q r' c before, counts q c nonzero, parents c, parent_of-s);
  }
    where
      climbs_before : (q r : ℕ) → parent_of to q ≡ some r → (n : ℕ) × Climbs up q n
      climbs_before q r e = elim (Bool-cases (s == q)) [
        | inl same ↦ let place : q ≡ s = ground arith in rw place (tree.climbs s old parent_of-s)
        | inr elsewhere ↦ tree.climbs q r (ground (arith, parents q))
      ]

      live_before : (q r : ℕ) → parent_of to q ≡ some r → (r' : ℕ) × (up q ≡ some r')
      live_before q r e = elim (Bool-cases (s == q)) [
        | inl same ↦ let place : q ≡ s = ground arith in rw place (old, parent_of-s)
        | inr elsewhere ↦ (r, ground (arith, parents q))
      ]

  pub move_segment-IsMoved :
      (m : ℕ) → Avoids up s parent m → IsMoved (move_segment room segments s old parent)
  unfolding move_segment
  move_segment-IsMoved m avoids =
      let (one, d, same) = detached in
      let (two, a) = attached one (d.sound tree.sound) same in
      let (three, l) = link-Linked two (a.parents s ∙ (d.parents s ∙ parent_of-s)) in
      let parents : (q : ℕ) → parent_of three q ≡ moved up s parent q =
        λ q. ground (arith, l.parents q, a.parents q, d.parents q) in
      record {
        result = three;
        is = ground (arith, d.is, a.is, l.is);
        forest =
            moved-IsTree three m avoids (l.sound (a.sound (d.sound tree.sound))) parents
              (λ q c ne. ground (arith, l.counts q c, a.counts q c, d.counts q c));
        parents = parents;
      }
