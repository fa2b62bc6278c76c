-- ===== src/Axiom/Txn/Reparent.antt =====
-- nr_segment_set_parent in a sound transaction.
use c_sdk.Base.{
  ℕ, ◌+◌, ◌^◌, ◌<◌, ◌≡◌, refl, ap, Bool, true, false, Option, none, some, arith, length,
}
use c_sdk.Base.Counts.{All-map}
use c_sdk.Axiom.Vector.Contents.{contents}
use c_sdk.Axiom.Children.Sound.{children_of}
use c_sdk.Axiom.Segment.{Segment, Segments, set_parent}
use c_sdk.Axiom.Segment.Chain.{parent_in, parent_of}
use c_sdk.Axiom.Segment.SetParent.{SetParent, foreign, already, cycle, placed, set_parent_lem}
use c_sdk.Axiom.Txn.{Txn, reparent}
use c_sdk.Axiom.Txn.Sound.{IsLive, IsTxn, children-le-last, alive, null-dead}

-- A transaction in which the parent of a segment was set, or was left as it is.
pub record Reparented (t : Txn) (s parent : ℕ) (sv pv : Segment) (o : Option (Bool × Txn))
    : Type 0 where
  pub done : Bool
  pub result : Txn
  pub is : o ≡ some (done, result)
  pub sound : IsTxn result
  pub outcome : SetParent t.segments s parent sv pv (some (done, result.segments))
  pub last_of : result.last ≡ t.last

module _ (room : ℕ → Bool) (granted : (n : ℕ) → room n ≡ true) (t : Txn) (sound : IsTxn t)
    (s parent : ℕ) (sv pv : Segment) (s_live : t.segments s ≡ some sv)
    (p_live : t.segments parent ≡ some pv) (few : t.last + 1 < 2 ^ 62) where
  abbrev in_txn : Option (Bool × Segments) → Option (Bool × Txn)
  in_txn o = elim o [
    | none ↦ none
    | some (done, segments) ↦ some (done, record t { segments = segments })
  ]

  unchanged :
      (done : Bool)
      → SetParent t.segments s parent sv pv (some (done, t.segments))
      → Reparented t s parent sv pv (some (done, t))
  unchanged done o = record {
    done = done;
    result = t;
    is = refl;
    sound = sound;
    outcome = o;
    last_of = refl;
  }

  outcome-Reparented :
      (o : Option (Bool × Segments))
      → SetParent t.segments s parent sv pv o
      → Reparented t s parent sv pv (in_txn o)
  outcome-Reparented o (foreign h) = unchanged false (foreign h)
  outcome-Reparented o (already h i) = unchanged true (already h i)
  outcome-Reparented o (cycle h i j) = unchanged false (cycle h i j)
  outcome-Reparented o (placed to h i j tree parents) = record {
    done = true;
    result = record t { segments = to };
    is = refl;
    sound = record {
      tree = tree;
      stack = sound.stack;
      open_segments =
          All-map (IsLive t.segments) (IsLive to) (contents t.default_parent_stack)
            (λ p live. ground (arith, alive (parent_of t.segments p) live, parents p))
            sound.open_segments;
      fresh = λ q h. null-dead (to q) (ground (arith, parents q, sound.fresh q, s_live));
      small = sound.small;
    };
    outcome = placed to h i j tree parents;
    last_of = refl;
  }

  -- What nr_segment_set_parent does to a sound transaction.
  pub reparent-Reparented :
      (fuel : ℕ)
      → (sound.tree.climbs parent pv.parent (ap parent_in p_live)).0 < fuel
      → Reparented t s parent sv pv (reparent room fuel s parent t)
  unfolding reparent
  reparent-Reparented fuel enough =
      let bound : length (children_of pv.children) < 2 ^ 62 =
        omega (arith, children-le-last sound parent pv p_live, few) in
      outcome-Reparented (set_parent room fuel t.segments s parent) (
        set_parent_lem room granted t.segments sound.tree s parent sv pv s_live p_live bound fuel
          enough)
