-- ===== src/Axiom/Txn/Timing.antt =====
-- nr_segment_set_timing in a sound transaction.
use c_sdk.Base.{
  ℕ, ◌+◌, ◌%◌, ◌^◌, ◌≡◌, refl, ap, sym, ◌∙◌, Bool, true, false, Option, some, arith, ◌==◌,
}
use c_sdk.Base.Counts.{All-map}
use c_sdk.Axiom.Vector.Contents.{contents}
use c_sdk.Axiom.Segment.{Segment, put}
use c_sdk.Axiom.Segment.Chain.{parent_in, parent_of}
use c_sdk.Axiom.Segment.Tree.{put_self}
use c_sdk.Axiom.Txn.{Txn, set_timing}
use c_sdk.Axiom.Txn.Sound.{IsLive, IsTxn, null-dead}
use c_sdk.Axiom.Txn.End.{Alike, Alike-IsTree, put-Alike}

-- A transaction in which the times of a segment were written, and nothing else.
pub record Timed (start duration : ℕ) (t : Txn) (s : ℕ) (sv : Segment) (o : Option (Bool × Txn))
    : Type 0 where
  pub result : Txn
  pub is : o ≡ some (true, result)
  pub sound : IsTxn result
  pub parents : (q : ℕ) → parent_of result.segments q ≡ parent_of t.segments q
  pub timed :
      result.segments s
      ≡ some (record sv { start_time = start; stop_time = (start + duration) % 2 ^ 64 })
  pub last_of : result.last ≡ t.last

module _ (start duration : ℕ) (t : Txn) (sound : IsTxn t) (s : ℕ) (sv : Segment)
    (live : t.segments s ≡ some sv) where
  abbrev sv' : Segment
  sv' = record sv { start_time = start; stop_time = (start + duration) % 2 ^ 64 }

  -- What nr_segment_set_timing does to a sound transaction.
  pub set_timing-Timed : Timed start duration t s sv (set_timing s start duration t)
  unfolding set_timing
  set_timing-Timed =
      let nonzero : (s == 0) ≡ false = ground (arith, sound.tree.null) in
      let alike : Alike t.segments (put t.segments s sv') =
        put-Alike t.segments s sv sv' sound.tree live refl refl in
      record {
        result = record t { segments = put t.segments s sv' };
        is = rw (nonzero, live) refl;
        sound = record {
          tree = Alike-IsTree t.segments (put t.segments s sv') sound.tree alike;
          stack = sound.stack;
          open_segments =
              All-map (IsLive t.segments) (IsLive (put t.segments s sv'))
                (contents t.default_parent_stack) (λ p l e. l (sym (alike.parents p) ∙ e))
                sound.open_segments;
          fresh = λ q h.
              null-dead (put t.segments s sv' q) (alike.parents q ∙ ap parent_in (sound.fresh q h));
          small = sound.small;
        };
        parents = alike.parents;
        timed = put_self t.segments s s sv' (ground arith);
        last_of = refl;
      }
