-- ===== src/Axiom/Txn.antt =====
-- The segments of one transaction: nr_segment_start with nr_segment_init, nr_segment_set_timing,
-- nr_segment_set_parent and nr_segment_end of
-- vendor/newrelic/axiom/nr_segment.c, on the default parent stack of nr_txn.c. The SDK starts every
-- segment with a NULL parent and a NULL asynchronous context, as the model does.
pub mod Sound
pub mod Start
pub mod End
pub mod Reparent
pub mod Timing
pub mod Reach
pub mod Runs
use c_sdk.Base.{
  ℕ, ◌+◌, ◌%◌, ◌^◌, Bool, true, false, not, ◌||◌, Option, none, some, ◌==◌, if◌then◌else◌,
}
use c_sdk.Axiom.Vector
use c_sdk.Axiom.Vector.{Vector}
use c_sdk.Axiom.Stack.{get_top, push, remove_topmost}
use c_sdk.Axiom.Children
use c_sdk.Axiom.Segment.{Segment, Segments, put, add_child, set_parent}

-- The fields of `nrtxn_t` that the segments use. The slab gives out the addresses in order; `last`
-- is the one that was given out last.
pub record Txn : Type 0 where
  pub id : ℕ
  pub recording : Bool
  pub default_parent_stack : Vector
  pub segment_count : ℕ
  pub segments : Segments
  pub last : ℕ

-- `NR_STACK_DEFAULT_CAPACITY`
abbrev pub stack_capacity : ℕ
stack_capacity = 32

-- A transaction as nr_txn_begin makes it, before its root is started.
unfoldable pub begin : ℕ → Txn
begin id = record {
  id = id;
  recording = true;
  default_parent_stack = Vector.init stack_capacity;
  segment_count = 0;
  segments = λ q. none;
  last = 0;
}

-- `nr_txn_get_current_segment`, 0 for NULL
unfoldable pub current_segment : Txn → ℕ
current_segment t = elim (get_top t.default_parent_stack) [ none ↦ 0 | some s ↦ s ]

-- `nr_segment_set_timing`; the sum is of 64 bits.
unfoldable pub set_timing : ℕ → ℕ → ℕ → Txn → Option (Bool × Txn)
set_timing segment start duration t =
    if segment == 0 then some (false, t) else elim (t.segments segment) [
      | none ↦ none
      | some s ↦ some (
        true,
        record t {
          segments =
              put t.segments segment
                (record s { start_time = start; stop_time = (start + duration) % 2 ^ 64 });
        },
      )
    ]

module _ (room : ℕ → Bool) where
  -- `nr_segment_init`, at an address that the slab has given out and zeroed
  unfoldable pub init_segment : ℕ → ℕ → Txn → Option Txn
  init_segment now segment t =
      let current = current_segment t in
      let s : Segment = record {
        txn = t.id;
        parent = current;
        children = Children.init;
        start_time = now;
        stop_time = 0;
      } in
      let placed = put t.segments segment s in
      elim (if current == 0 then some placed else add_child room placed current segment) [
        | none ↦ none
        | some segments ↦ some (record t {
          segments = segments;
          default_parent_stack = push room t.default_parent_stack segment;
          last = segment;
        })
      ]

  -- `available` is whether the slab has memory left, `now` the time since the transaction's start.
  unfoldable pub start_segment : Bool → ℕ → Txn → Option (ℕ × Txn)
  start_segment available now t =
      if not t.recording
      then some (0, t)
      else if not available
      then some (0, t)
      else elim (init_segment now (t.last + 1) t) [ none ↦ none | some t' ↦ some (t.last + 1, t') ]

  unfoldable pub end_segment : ℕ → ℕ → Txn → Option (Bool × Txn)
  end_segment now segment t = if segment == 0 then some (false, t) else elim (t.segments segment) [
    | none ↦ none
    | some s ↦
        if s.txn == 0
        then some (false, t)
        else let segments =
            if s.stop_time == 0
            then put t.segments segment (record s { stop_time = now })
            else t.segments in
          elim (remove_topmost room t.default_parent_stack segment) [
            | none ↦ none
            | some (found, stack) ↦ some (
              true,
              record t {
                segments = segments;
                segment_count = (t.segment_count + 1) % 2 ^ 64;
                default_parent_stack = stack;
              },
            )
          ]
  ]

  -- `nr_segment_set_parent` on the segments of a transaction
  unfoldable pub reparent : ℕ → ℕ → ℕ → Txn → Option (Bool × Txn)
  reparent fuel segment parent t = elim (set_parent room fuel t.segments segment parent) [
    | none ↦ none
    | some (done, segments) ↦ some (done, record t { segments = segments })
  ]
