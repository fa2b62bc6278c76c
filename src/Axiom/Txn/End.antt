-- ===== src/Axiom/Txn/End.antt =====
-- nr_segment_end in a sound transaction.
use mathlib.Core.Path.{fun_ext, subst}
use c_sdk.Base.{
  ℕ, zero, suc, ◌+◌, ◌%◌, ◌^◌, ◌≤◌, ◌≡◌, ◌≢◌, refl, ap, ap₂, sym, ◌∙◌, Bool, true, false, Option,
  none, some, List, [], ◌∷◌, arith, ◌==◌, if◌then◌else◌, length, Bool-cases, inl, inr,
}
use c_sdk.Base.Counts.{count, All, All-map}
use c_sdk.Axiom.Vector.{Vector}
use c_sdk.Axiom.Vector.Capacity.{IsValid}
use c_sdk.Axiom.Vector.Contents.{contents, remove_list, length-cells}
use c_sdk.Axiom.Stack.{remove_topmost}
use c_sdk.Axiom.Stack.Laws.{RemovedTop, missing, found, remove_topmost-RemovedTop}
use c_sdk.Axiom.Children.Sound.{IsSound, children_of}
use c_sdk.Axiom.Segment.{Segment, Segments, put}
use c_sdk.Axiom.Segment.Chain.{parent_in, parent_of, Climbs}
use c_sdk.Axiom.Segment.Tree.{kids, kids_in, IsTree, put_self, put-other}
use c_sdk.Axiom.Txn.{Txn, end_segment}
use c_sdk.Axiom.Txn.Sound.{IsLive, IsTxn, null-dead}

-- Segments that have the parents and the children of others.
pub record Alike (from to : Segments) : Type 0 where
  pub parents : (q : ℕ) → parent_of to q ≡ parent_of from q
  pub sound : (q : ℕ) (r : Segment) → to q ≡ some r → IsSound r.children
  pub counts : (q c : ℕ) → kids to q c ≡ kids from q c

pub Alike-IsTree : (from to : Segments) → IsTree from → Alike from to → IsTree to
Alike-IsTree from to tree a = record {
  null = null-dead (to 0) (a.parents 0 ∙ ap parent_in tree.null);
  sound = a.sound;
  climbs = λ p q e.
      let (n, c) = tree.climbs p q (sym (a.parents p) ∙ e) in
      (n, subst (λ f. Climbs f p n) (sym (fun_ext a.parents)) c);
  linked = λ p q c e.
      ground (arith, a.counts p c, a.parents c, tree.linked p q c (sym (a.parents p) ∙ e));
}

-- A segment of which only times are written.
pub put-Alike :
    (segments : Segments) (s : ℕ) (sv sv' : Segment)
    → IsTree segments
    → segments s ≡ some sv
    → sv'.parent ≡ sv.parent
    → sv'.children ≡ sv.children
    → Alike segments (put segments s sv')
put-Alike segments s sv sv' tree live parent children = record {
  parents = λ q. elim (Bool-cases (s == q)) [
    | inl same ↦
        ap parent_in (put_self segments s q sv' same)
        ∙ (ap some parent ∙ sym (ap parent_in (old q same)))
    | inr other ↦ ap parent_in (put-other segments s q sv' other)
  ];
  sound = λ q r h. elim (Bool-cases (s == q)) [
    | inl same ↦
        let is : r ≡ sv' = cc (put_self segments s q sv' same) in
        subst IsSound (sym (ap (λ x. x.children) is ∙ children)) (tree.sound s sv live)
    | inr other ↦ tree.sound q r (cc (put-other segments s q sv' other))
  ];
  counts = λ q c. elim (Bool-cases (s == q)) [
    | inl same ↦
        ap (kids_in c) (put_self segments s q sv' same)
        ∙ (ap (λ x. count (λ y. y == c) (children_of x)) children
            ∙ sym (ap (kids_in c) (old q same)))
    | inr other ↦ ap (kids_in c) (put-other segments s q sv' other)
  ];
}
  where
    old : (q : ℕ) → (s == q) ≡ true → segments q ≡ some sv
    old q same = let place : q ≡ s = ground arith in ap segments place ∙ live

All-remove_list : (P : ℕ → Type 0) (l : List ℕ) (i : ℕ) → All P l → All P (remove_list l i)
unfolding remove_list
All-remove_list P [] i h = tt
All-remove_list P (x ∷ l) zero h = h.1
All-remove_list P (x ∷ l) (suc i) h = (h.0, All-remove_list P l i h.1)

remove_list-le : (l : List ℕ) (i : ℕ) → length (remove_list l i) ≤ length l
unfolding remove_list
remove_list-le [] i = omega arith
remove_list-le (x ∷ l) zero = omega arith
remove_list-le (x ∷ l) (suc i) = omega (arith, remove_list-le l i)

-- What removing an element keeps of a stack.
record Kept (s : Vector) (s' : Vector) : Type 1 where
  pub valid : IsValid s'
  pub all : (P : ℕ → Type 0) → All P (contents s) → All P (contents s')
  pub used : s'.used ≤ s.used

RemovedTop-Kept :
    (s : Vector) (x : ℕ) (b : Bool) (s' : Vector)
    → IsValid s
    → RemovedTop s x (some (b, s'))
    → Kept s s'
RemovedTop-Kept s x false s' valid (missing h) = record {
  valid = valid;
  all = λ P a. a;
  used = omega arith;
}
RemovedTop-Kept s x true s' valid (found i s'' last rest valid') = record {
  valid = valid';
  all = λ P a. subst (All P) (sym rest) (All-remove_list P (contents s) i a);
  used = omega (
    arith,
    ap length rest,
    remove_list-le (contents s) i,
    length-cells s.elements s.used,
    length-cells s'.elements s'.used,
  );
}

answered :
    (s : Vector) (x : ℕ) (o : Option (Bool × Vector))
    → RemovedTop s x o
    → (r : Bool × Vector) × (o ≡ some r) × RemovedTop s x (some r)
answered s x o (missing h) = ((false, s), refl, missing h)
answered s x o (found i s' last rest valid) = ((true, s'), refl, found i s' last rest valid)

-- A transaction in which a segment was ended: it is counted, it is stopped unless it was before,
-- its topmost occurrence is off the stack, and the tree is the same.
pub record Ended (now : ℕ) (t : Txn) (s : ℕ) (sv : Segment) (o : Option (Bool × Txn)) : Type 0 where
  pub result : Txn
  pub is : o ≡ some (true, result)
  pub sound : IsTxn result
  pub parents : (q : ℕ) → parent_of result.segments q ≡ parent_of t.segments q
  pub counted : result.segment_count ≡ (t.segment_count + 1) % 2 ^ 64
  pub stopped :
      result.segments s
      ≡ some (record sv { stop_time = if sv.stop_time == 0 then now else sv.stop_time })
  pub removed : Bool
  pub stacked : RemovedTop t.default_parent_stack s (some (removed, result.default_parent_stack))
  pub last_of : result.last ≡ t.last

module _ (room : ℕ → Bool) (now : ℕ) (t : Txn) (sound : IsTxn t) (s : ℕ) (sv : Segment)
    (live : t.segments s ≡ some sv) (of_txn : sv.txn ≢ 0) where
  stop :
      (to : Segments) × ((if sv.stop_time == 0
          then put t.segments s (record sv { stop_time = now })
          else t.segments)
        ≡ to)
      × Alike t.segments to
      × (to s ≡ some (record sv { stop_time = if sv.stop_time == 0 then now else sv.stop_time }))
  stop = elim (Bool-cases (sv.stop_time == 0)) [
    | inl running ↦ (
      put t.segments s (record sv { stop_time = now }),
      rw running refl,
      put-Alike t.segments s sv (record sv { stop_time = now }) sound.tree live refl refl,
      rw running (put_self t.segments s s (record sv { stop_time = now }) (ground arith)),
    )
    | inr stopped ↦ (
      t.segments,
      rw stopped refl,
      record { parents = λ q. refl; sound = sound.tree.sound; counts = λ q c. refl },
      rw stopped live,
    )
  ]

  ended_with : Segments → Option (Bool × Vector) → Option (Bool × Txn)
  ended_with segments o = elim o [
    | none ↦ none
    | some (b, stack) ↦ some (
      true,
      record t {
        segments = segments;
        segment_count = (t.segment_count + 1) % 2 ^ 64;
        default_parent_stack = stack;
      },
    )
  ]

  end_segment-ended_with :
      end_segment room now s t
      ≡ ended_with
          (if sv.stop_time == 0
            then put t.segments s (record sv { stop_time = now })
            else t.segments)
          (remove_topmost room t.default_parent_stack s)
  unfolding end_segment ended_with
  end_segment-ended_with =
      let nonzero : (s == 0) ≡ false = ground (arith, sound.tree.null) in
      let known : (sv.txn == 0) ≡ false = ground arith in rw (nonzero, live, known) refl

  -- nr_segment_end of a live segment that has a transaction, in a sound transaction returns true. The segment is counted, it
  -- is stopped now unless it was stopped before, its topmost occurrence on the stack is removed and
  -- no other, or it is not on the stack, which is then the same, every segment keeps its parent, and
  -- the transaction is sound.
  pub end_segment-Ended : Ended now t s sv (end_segment room now s t)
  unfolding ended_with
  end_segment-Ended =
      let (to, is, alike, stopped) = stop in
      let ((b, stack), is', r) =
        answered t.default_parent_stack s (remove_topmost room t.default_parent_stack s)
          (remove_topmost-RemovedTop room t.default_parent_stack s sound.stack) in
      let k = RemovedTop-Kept t.default_parent_stack s b stack sound.stack r in
      record {
        result = record t {
          segments = to;
          segment_count = (t.segment_count + 1) % 2 ^ 64;
          default_parent_stack = stack;
        };
        is = end_segment-ended_with ∙ ap₂ ended_with is is';
        sound = record {
          tree = Alike-IsTree t.segments to sound.tree alike;
          stack = k.valid;
          open_segments =
              All-map (IsLive t.segments) (IsLive to) (contents stack)
                (λ p l e. l (sym (alike.parents p) ∙ e))
                (k.all (IsLive t.segments) sound.open_segments);
          fresh = λ q h. null-dead (to q) (alike.parents q ∙ ap parent_in (sound.fresh q h));
          small = omega (arith, k.used, sound.small);
        };
        parents = alike.parents;
        counted = refl;
        stopped = stopped;
        removed = b;
        stacked = r;
        last_of = refl;
      }

-- A segment without a transaction is refused, and nothing changes.
pub end_segment-lone :
    (room : ℕ → Bool) (now : ℕ) (t : Txn) (s : ℕ) (sv : Segment)
    → s ≢ 0
    → t.segments s ≡ some sv
    → sv.txn ≡ 0
    → end_segment room now s t ≡ some (false, t)
unfolding end_segment
end_segment-lone room now t s sv ne live none_known =
    let nonzero : (s == 0) ≡ false = ground arith in
    let lone : (sv.txn == 0) ≡ true = ground arith in rw (nonzero, live, lone) refl
