-- ===== src/Axiom/Txn/Start.antt =====
-- nr_segment_start in a sound transaction.
use mathlib.Core.Path.{subst}
use c_sdk.Base.{
  ℕ, ◌+◌, ◌^◌, ◌<◌, ◌≡◌, ◌≢◌, refl, ap, sym, ◌∙◌, Bool, true, false, ◌&&◌, Option, none, some, [],
  ◌∷◌, ◌++◌, arith, ◌==◌, if◌then◌else◌, length, Bool-cases, inl, inr,
}
use c_sdk.Base.Counts.{count, All, All-map, All-append}
use c_sdk.Axiom.Vector.Contents.{contents}
use c_sdk.Axiom.Stack.{push}
use c_sdk.Axiom.Stack.Laws.{contents-push, used-push}
use c_sdk.Axiom.Children
use c_sdk.Axiom.Children.Sound.{IsSound, children_of}
use c_sdk.Axiom.Segment.{Segment, Segments, put, add_child}
use c_sdk.Axiom.Segment.Chain.{parent_in, parent_of, moved}
use c_sdk.Axiom.Segment.Tree.{kids, kids_in, put_self, put-other, Attached, add_child-Attached}
use c_sdk.Axiom.Txn.{Txn, current_segment, init_segment, start_segment}
use c_sdk.Axiom.Txn.Sound.{
  IsLive, IsTxn, children-le-last, current-live, Grown, alive, null-dead, Grown-IsTree,
}

init-IsSound : IsSound Children.init
unfolding Children.init
init-IsSound = omega arith

init-count : (c : ℕ) → count (λ x. x == c) (children_of Children.init) ≡ 0
unfolding count Children.init
init-count c = refl

alive_segment : (o : Option Segment) → parent_in o ≢ none → (s : Segment) × (o ≡ some s)
alive_segment none h = absurd (h refl)
alive_segment (some s) h = (s, refl)

module _ (segments : Segments) (s current : ℕ) (sv : Segment) (free : segments s ≡ none)
    (parent_is : sv.parent ≡ current) (empty : sv.children ≡ Children.init)
    (all_sound : (q : ℕ) (r : Segment) → segments q ≡ some r → IsSound r.children) where
  -- The new segment, before its parent knows it.
  placed_parents :
      (q : ℕ) → parent_of (put segments s sv) q ≡ moved (parent_of segments) s current q
  placed_parents q = elim (Bool-cases (s == q)) [
    | inl same ↦ rw same (ap parent_in (put_self segments s q sv same) ∙ ap some parent_is)
    | inr elsewhere ↦ rw elsewhere (ap parent_in (put-other segments s q sv elsewhere))
  ]

  placed-IsSound : (q : ℕ) (r : Segment) → put segments s sv q ≡ some r → IsSound r.children
  placed-IsSound q r h = elim (Bool-cases (s == q)) [
    | inl same ↦
        let is : r ≡ sv = cc (put_self segments s q sv same) in
        subst IsSound (sym (ap (λ r. r.children) is ∙ empty)) init-IsSound
    | inr elsewhere ↦ all_sound q r (cc (put-other segments s q sv elsewhere))
  ]

  placed_counts : (q c : ℕ) → kids (put segments s sv) q c ≡ kids segments q c
  placed_counts q c = elim (Bool-cases (s == q)) [
    | inl same ↦
        let place : q ≡ s = ground arith in
        ap (kids_in c) (put_self segments s q sv same)
        ∙ (ap (λ l. count (λ x. x == c) (children_of l)) empty
            ∙ (init-count c ∙ sym (ap (kids_in c) (ap segments place ∙ free))))
    | inr elsewhere ↦ ap (kids_in c) (put-other segments s q sv elsewhere)
  ]

  placed_root : current ≡ 0 → Grown segments (put segments s sv) s current
  placed_root root = record {
    parents = placed_parents;
    sound = placed-IsSound;
    counts = λ q c ne. ground (arith, placed_counts q c);
  }

  module _ (room : ℕ → Bool) (granted : (n : ℕ) → room n ≡ true) (address : s ≢ 0) (cv : Segment)
      (current_live : segments current ≡ some cv) (different : s ≢ current)
      (small : length (children_of cv.children) < 2 ^ 62) where
    placed_current : put segments s sv current ≡ some cv
    placed_current = put-other segments s current sv (ground arith) ∙ current_live

    attached :
        Attached room (put segments s sv) current s (add_child room (put segments s sv) current s)
    attached =
        add_child-Attached room granted (put segments s sv) current s cv placed_current
          (all_sound current cv current_live) address small

    placed_nested :
        (to : Segments) × (add_child room (put segments s sv) current s ≡ some to)
        × Grown segments to s current
    placed_nested = (
      attached.result,
      attached.is,
      record {
        parents = λ q. attached.changed.parents q ∙ placed_parents q;
        sound = attached.changed.sound placed-IsSound;
        counts = λ q c ne. elim (Bool-cases (q == current)) [
          | inl same ↦
              let place : q ≡ current = ground arith in
              rw place (ground (arith, attached.more c, placed_counts current c))
          | inr elsewhere ↦
              ground (
                arith,
                ap (kids_in c) (attached.changed.others q (ground arith)),
                placed_counts q c,
              )
        ];
      },
    )

-- A transaction in which a segment was started: it is the last of the slab, its parent is the
-- segment that was current, and it is on top of the stack.
pub record Started (t : Txn) (o : Option Txn) : Type 0 where
  pub result : Txn
  pub is : o ≡ some result
  pub sound : IsTxn result
  pub parents :
      (q : ℕ)
      → parent_of result.segments q
        ≡ moved (parent_of t.segments) (t.last + 1) (current_segment t) q
  pub stacked :
      contents result.default_parent_stack ≡ contents t.default_parent_stack ++ ((t.last + 1) ∷ [])
  pub last_of : result.last ≡ t.last + 1

module _ (room : ℕ → Bool) (granted : (n : ℕ) → room n ≡ true) (now : ℕ) (t : Txn) (sound : IsTxn t)
    (few : t.last + 1 < 2 ^ 62) where
  abbrev segment : ℕ
  segment = t.last + 1

  abbrev current : ℕ
  current = current_segment t

  abbrev fresh_segment : Segment
  fresh_segment = record {
    txn = t.id;
    parent = current;
    children = Children.init;
    start_time = now;
    stop_time = 0;
  }

  free : t.segments segment ≡ none
  free = sound.fresh segment (omega arith)

  grown :
      (to : Segments) × ((if current == 0
          then some (put t.segments segment fresh_segment)
          else add_child room (put t.segments segment fresh_segment) current segment)
        ≡ some to)
      × Grown t.segments to segment current
  grown = elim (Bool-cases (current == 0)) [
    | inl root ↦ (
      put t.segments segment fresh_segment,
      rw root refl,
      placed_root t.segments segment current fresh_segment free refl refl sound.tree.sound
          (ground arith),
    )
    | inr nested ↦
        let (cv, e) = alive_segment (t.segments current) (current-live sound (ground arith)) in
        let bound : length (children_of cv.children) < 2 ^ 62 =
          omega (arith, children-le-last sound current cv e, few) in
        let different : segment ≢ current =
          λ h. current-live sound (ground arith) (ap parent_in (ap t.segments (sym h) ∙ free)) in
        let (to, is, g) =
          placed_nested t.segments segment current fresh_segment free refl refl sound.tree.sound
            room granted (omega arith) cv e different bound in
        (to, rw nested is, g)
  ]

  -- What was live stays live.
  kept :
      (to : Segments)
      → Grown t.segments to segment current
      → (p : ℕ) → IsLive t.segments p
      → IsLive to p
  kept to g p live = ground (arith, alive (parent_of t.segments p) live, g.parents p)

  placed_in : Option Segments → Option Txn
  placed_in o = elim o [
    | none ↦ none
    | some segments ↦ some (record t {
      segments = segments;
      default_parent_stack = push room t.default_parent_stack segment;
      last = segment;
    })
  ]

  init_segment-Started : Started t (init_segment room now segment t)
  unfolding init_segment placed_in
  init_segment-Started =
      let (to, is, g) = grown in
      let p =
        contents-push room granted t.default_parent_stack segment sound.stack
          (omega (arith, sound.small, few)) in
      record {
        result = record t {
          segments = to;
          default_parent_stack = push room t.default_parent_stack segment;
          last = segment;
        };
        is = ap placed_in is;
        sound = record {
          tree =
              Grown-IsTree t.segments to segment current sound.tree (omega arith)
                (ap parent_in free) (λ h. current-live sound h) g;
          stack = p.1;
          open_segments = subst (All (IsLive to)) (sym p.0) (
              All-append (IsLive to) (contents t.default_parent_stack) segment
                (All-map (IsLive t.segments) (IsLive to) (contents t.default_parent_stack)
                  (kept to g) sound.open_segments)
                (ground (arith, g.parents segment)));
          fresh = λ q h. null-dead (to q) (ground (arith, g.parents q, sound.fresh q));
          small = omega (
            arith,
            sound.small,
            used-push room granted t.default_parent_stack segment sound.stack
                (omega (arith, sound.small, few)),
          );
        };
        parents = g.parents;
        stacked = p.0;
        last_of = refl;
      }

-- What nr_segment_start comes to: nothing where the transaction is not recording or no memory is
-- left, and else a new segment.
pub data StartOutcome (t : Txn) (available : Bool) : Option (ℕ × Txn) → Type 0 where
  refused : (t.recording && available) ≡ false → StartOutcome t available (some (0, t))
  started :
      (t' : Txn)
      → (t.recording && available) ≡ true
      → Started t (some t')
      → StartOutcome t available (some (t.last + 1, t'))

module _ (room : ℕ → Bool) (granted : (n : ℕ) → room n ≡ true) (available : Bool) (now : ℕ)
    (t : Txn) (sound : IsTxn t) (few : t.last + 1 < 2 ^ 62) where
  -- nr_segment_start in a sound transaction of fewer than 2 ^ 62 segments, with an allocator that
  -- grants all requests, faults nowhere. It returns NULL and changes nothing exactly where the
  -- transaction is not recording or the slab has no memory left, and else a new segment: a child of
  -- the segment that was current, the new top of the stack, in a sound transaction where every
  -- other segment has the parent it had.
  pub start_segment-StartOutcome : StartOutcome t available (start_segment room available now t)
  unfolding start_segment
  start_segment-StartOutcome = elim (Bool-cases t.recording) [
    | inl recording ↦ elim (Bool-cases available) [
      | inl left ↦
          let s : Started t (init_segment room now (t.last + 1) t) =
            init_segment-Started room granted now t sound few in
          let is : start_segment room available now t ≡ some (t.last + 1, s.result) =
            ground (arith, s.is) in
          rw is (started s.result (ground arith) (subst (Started t) s.is s))
      | inr full ↦
          let is : start_segment room available now t ≡ some (0, t) = ground arith in
          rw is (refused (ground arith))
    ]
    | inr stopped ↦
        let is : start_segment room available now t ≡ some (0, t) = ground arith in
        rw is (refused (ground arith))
  ]
