-- ===== src/Axiom/Segment/SetParent.antt =====
-- nr_segment_set_parent as a whole: each way that it can end, and that it ends.
use c_sdk.Base.{
  ℕ, ◌^◌, ◌<◌, ◌≡◌, ◌≢◌, refl, ap, Bool, true, false, Option, none, some, arith, ◌==◌, length,
  Bool-cases, inl, inr,
}
use c_sdk.Axiom.Children.Sound.{children_of}
use c_sdk.Axiom.Segment.{
  Segment, Segments, climb, move_segment, of_other_txn, set_parent_of, set_parent,
}
use c_sdk.Axiom.Segment.Chain.{
  parent_in, parent_of, Above, Found, met, clear, climb-Found, moved, Avoids-Above,
}
use c_sdk.Axiom.Segment.Tree.{IsTree}
use c_sdk.Axiom.Segment.Move.{IsMoved, move_segment-IsMoved}

-- What setting the parent of a segment comes to: nothing, with a refusal, where the parent is of
-- another transaction or at or below the segment; nothing, with success, where it is the parent
-- already; and else a tree in which the segment has that parent, and every other the one it had.
pub data SetParent (segments : Segments) (s parent : ℕ) (sv pv : Segment)
    : Option (Bool × Segments) → Type 0 where
  foreign : sv.txn ≢ pv.txn → SetParent segments s parent sv pv (some (false, segments))
  already :
      sv.txn ≡ pv.txn
      → sv.parent ≡ parent
      → SetParent segments s parent sv pv (some (true, segments))
  cycle :
      sv.txn ≡ pv.txn
      → sv.parent ≢ parent
      → Above (parent_of segments) s parent
      → SetParent segments s parent sv pv (some (false, segments))
  placed :
      (result : Segments)
      → sv.txn ≡ pv.txn
      → sv.parent ≢ parent
      → ¬ Above (parent_of segments) s parent
      → IsTree result
      → ((q : ℕ) → parent_of result q ≡ moved (parent_of segments) s parent q)
      → SetParent segments s parent sv pv (some (true, result))

module _ (room : ℕ → Bool) (granted : (n : ℕ) → room n ≡ true) (segments : Segments)
    (tree : IsTree segments) (s parent : ℕ) (sv pv : Segment) (s_live : segments s ≡ some sv)
    (p_live : segments parent ≡ some pv) (small : length (children_of pv.children) < 2 ^ 62) where
  address : s ≢ 0
  address = ground (arith, tree.null)

  Found-SetParent :
      (n fuel : ℕ) (o : Option Bool)
      → Found (parent_of segments) s parent n o
      → o ≡ climb fuel segments s parent
      → sv.txn ≡ pv.txn
      → sv.parent ≢ parent
      → SetParent segments s parent sv pv (set_parent_of room fuel segments s sv parent)
  unfolding set_parent_of
  Found-SetParent n fuel (some true) (met a) e txn ne =
      let different : (sv.parent == parent) ≡ false = ground arith in
      rw (different, ← e) (cycle txn ne a)
  Found-SetParent n fuel (some false) (clear a) e txn ne =
      let different : (sv.parent == parent) ≡ false = ground arith in
      let m : IsMoved room granted segments tree s parent sv pv address s_live p_live small ne
          (move_segment room segments s sv.parent parent) =
        move_segment-IsMoved room granted segments tree s parent sv pv address s_live p_live small
          ne n a in
      rw (different, ← e, m.is)
        (placed m.result txn ne
          (Avoids-Above (parent_of segments) s parent n (ap parent_in tree.null) address a) m.forest
          m.parents)
  Found-SetParent n fuel none f e txn ne = elim f [ ]

  set_parent_of-SetParent :
      (fuel : ℕ)
      → (tree.climbs parent pv.parent (ap parent_in p_live)).0 < fuel
      → sv.txn ≡ pv.txn
      → SetParent segments s parent sv pv (set_parent_of room fuel segments s sv parent)
  unfolding set_parent_of
  set_parent_of-SetParent fuel enough txn = elim (Bool-cases (sv.parent == parent)) [
    | inl same ↦ rw same (already txn (ground arith))
    | inr different ↦
        let (n, c) = tree.climbs parent pv.parent (ap parent_in p_live) in
        Found-SetParent n fuel (climb fuel segments s parent)
          (climb-Found segments s parent n fuel c enough) refl txn (ground arith)
  ]

  -- nr_segment_set_parent on two live segments of a tree, the new parent with fewer than 2 ^ 62
  -- children, with an allocator that grants all requests and more rounds of the loop allowed than
  -- the new parent is deep, faults nowhere and ends in one of four ways. With segments of two
  -- transactions, or with a new parent at or below the segment, the result is false, and with the
  -- parent that the segment has it is true, and nothing changes. Else the result is true, the
  -- segment has the new parent and every other segment the one it had, and the segments are a tree
  -- again: no cycle, and the children of a segment are those that have it for their parent, once.
  pub set_parent_lem :
      (fuel : ℕ)
      → (tree.climbs parent pv.parent (ap parent_in p_live)).0 < fuel
      → SetParent segments s parent sv pv (set_parent room fuel segments s parent)
  unfolding set_parent of_other_txn
  set_parent_lem fuel enough = elim (Bool-cases (sv.txn == pv.txn)) [
    | inl same ↦
        let kin : of_other_txn segments sv parent ≡ some false = ground (arith, tree.null) in
        let here : (s == 0) ≡ false = ground (arith, address) in
        rw (here, s_live, kin) (set_parent_of-SetParent fuel enough (ground arith))
    | inr different ↦
        let stranger : of_other_txn segments sv parent ≡ some true = ground (arith, tree.null) in
        let here : (s == 0) ≡ false = ground (arith, address) in
        rw (here, s_live, stranger) (foreign (ground arith))
  ]
