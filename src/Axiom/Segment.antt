-- ===== src/Axiom/Segment.antt =====
-- vendor/newrelic/axiom/nr_segment.c: the tree of segments of a transaction, by address, with the
-- children of each segment as nr_segment_children.c keeps them. `none` is a fault: a read through
-- NULL or a freed address, a misread of the children, or a want of fuel.
pub mod Chain
pub mod Depth
pub mod Tree
pub mod Move
pub mod SetParent
use c_sdk.Base.{
  ℕ, zero, suc, ◌+◌, ◌-◌, ◌%◌, ◌^◌, Bool, true, false, not, Option, none, some, ◌==◌, if◌then◌else◌,
  ltb,
}
use c_sdk.Axiom.Vector.{Vector}
use c_sdk.Axiom.Stack.{get_top, push, remove_topmost}
use c_sdk.Axiom.Children.{Children, add, remove}
use c_sdk.Axiom.Children

-- The fields of `nr_segment_t` that place a segment in the tree and in time.
pub record Segment : Type 0 where
  pub txn : ℕ
  pub parent : ℕ
  pub children : Children
  pub start_time : ℕ
  pub stop_time : ℕ

abbrev pub Segments : Type 0
Segments = ℕ → Option Segment

-- A write of a segment.
unfoldable pub put : Segments → ℕ → Segment → Segments
put segments p s q = if p == q then some s else segments q

-- The loop of nr_segment_set_parent from the new parent up: whether it meets the segment.
unfoldable pub climb : ℕ → Segments → ℕ → ℕ → Option Bool
climb zero segments segment ancestor = none
climb (suc fuel) segments segment ancestor =
    if ancestor == 0
    then some false
    else if ancestor == segment
    then some true
    else elim (segments ancestor) [ none ↦ none | some a ↦ climb fuel segments segment a.parent ]

-- Whether a parent that is not NULL is of another transaction.
unfoldable pub of_other_txn : Segments → Segment → ℕ → Option Bool
of_other_txn segments s parent =
    if parent == 0
    then some false
    else elim (segments parent) [ none ↦ none | some p ↦ some (not (s.txn == p.txn)) ]

module _ (room : ℕ → Bool) where
  -- `nr_segment_children_remove` and `nr_segment_children_add` on the children of a segment
  unfoldable pub remove_child : Segments → ℕ → ℕ → Option Segments
  remove_child segments parent child = elim (segments parent) [
    | none ↦ none
    | some p ↦ elim (remove room p.children child) [
      | none ↦ none
      | some (done, c) ↦ some (put segments parent (record p { children = c }))
    ]
  ]

  unfoldable pub add_child : Segments → ℕ → ℕ → Option Segments
  add_child segments parent child = elim (segments parent) [
    | none ↦ none
    | some p ↦ elim (add room p.children child) [
      | none ↦ none
      | some (done, c) ↦ some (put segments parent (record p { children = c }))
    ]
  ]

  -- `segment->parent = parent`
  unfoldable pub link : Segments → ℕ → ℕ → Option Segments
  link segments segment parent = elim (segments segment) [
    | none ↦ none
    | some s ↦ some (put segments segment (record s { parent = parent }))
  ]

  -- What follows the search for a cycle.
  unfoldable pub move_segment : Segments → ℕ → ℕ → ℕ → Option Segments
  unfolding remove_child add_child link
  move_segment segments segment old parent =
      elim (if old == 0 then some segments else remove_child segments old segment) [
        | none ↦ none
        | some detached ↦ elim (add_child detached parent segment) [
          | none ↦ none
          | some attached ↦ link attached segment parent
        ]
      ]

  unfoldable pub set_parent_of : ℕ → Segments → ℕ → Segment → ℕ → Option (Bool × Segments)
  set_parent_of fuel segments segment s parent =
      if s.parent == parent
      then some (true, segments)
      else elim (climb fuel segments segment parent) [
        | none ↦ none
        | some true ↦ some (false, segments)
        | some false ↦ elim (move_segment segments segment s.parent parent) [
          | none ↦ none
          | some moved ↦ some (true, moved)
        ]
      ]

  unfoldable pub set_parent : ℕ → Segments → ℕ → ℕ → Option (Bool × Segments)
  set_parent fuel segments segment parent =
      if segment == 0 then some (false, segments) else elim (segments segment) [
        | none ↦ none
        | some s ↦ elim (of_other_txn segments s parent) [
          | none ↦ none
          | some true ↦ some (false, segments)
          | some false ↦ set_parent_of fuel segments segment s parent
        ]
      ]
