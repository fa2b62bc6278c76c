-- ===== src/Axiom/TxnTests.antt =====
-- The theorems on the segments of a transaction at a transaction with three segments, and the
-- comparators on two segments.
use c_sdk.Base.{
  ℕ, suc, ◌<◌, ◌≤◌, ◌^◌, length, ◌≡◌, ◌≢◌, refl, ap, Bool, true, Option, none, some, ◌==◌,
  if◌then◌else◌, List, [], ◌∷◌, arith,
}
use c_sdk.Axiom.Vector
use c_sdk.Axiom.Vector.{
  push_back, insert, insert_at, ensure_impl, store, memmove, get_element, find_last, find_from,
}
use c_sdk.Axiom.Stack.{get_top, push, remove_topmost, remove_found}
use c_sdk.Axiom.Children
use c_sdk.Axiom.Children.{add, remove, remove_packed, remove_index, index_of}
use c_sdk.Axiom.Segment.{
  Segment, set_parent, put, add_child, of_other_txn, set_parent_of, climb, move_segment, link,
  remove_child,
}
use c_sdk.Axiom.Children.Sound.{children_of}
use c_sdk.Axiom.Segment.Chain.{parent_in}
use c_sdk.Axiom.Segment.SetParent.{SetParent, set_parent_lem}
use c_sdk.Axiom.Txn.{
  Txn, begin, init_segment, start_segment, end_segment, current_segment, set_timing, reparent,
}
use c_sdk.Axiom.Txn.Sound.{IsTxn}
use c_sdk.Axiom.Txn.Start.{StartOutcome, start_segment-StartOutcome}
use c_sdk.Axiom.Txn.End.{Ended, end_segment-Ended}
use c_sdk.Axiom.Ranking.{Ranked}
use c_sdk.Axiom.Txn.Reach.{Reach, begun, after_start, begin-IsTxn, Reach-Within}
use c_sdk.Axiom.Txn.Runs.{
  SegmentCall, start_call, end_call, timing_call, parent_call, gives_live, give_live, run_call,
  run_calls, Ran, run_calls-Ran,
}

-- An allocator that grants every request.
abbrev room : ℕ → Bool
room n = true

granted : (n : ℕ) → room n ≡ true
granted n = refl

abbrev next : ℕ → Txn → Txn
next now t = elim (start_segment room true now t) [ none ↦ t | some (s, t') ↦ t' ]

-- A root, a segment in it, and a third in that.
abbrev root : Txn
root = next 1 (begin 7)

abbrev two : Txn
two = next 2 root

abbrev three : Txn
three = next 3 two

reached-three : Reach room 7 3 three
unfolding begin start_segment init_segment current_segment get_top get_element push push_back insert
    insert_at ensure_impl store memmove put add_child add Children.init Vector.init
reached-three =
    after_start 2 3 two three true 3
      (after_start 1 2 root two true 2 (after_start 0 1 (begin 7) root true 1 begun refl) refl) refl

three-IsTxn : IsTxn three
three-IsTxn = (Reach-Within room granted reached-three (omega arith)).0

three_few : three.last ≤ 3
three_few = (Reach-Within room granted reached-three (omega arith)).1

start_segment-StartOutcome_example : StartOutcome three true (start_segment room true 4 three)
start_segment-StartOutcome_example =
    start_segment-StartOutcome room granted true 4 three three-IsTxn (omega (arith, three_few))

abbrev blank : Segment
blank = record { txn = 0; parent = 0; children = Children.init; start_time = 0; stop_time = 0 }

abbrev at : ℕ → Segment
at s = elim (three.segments s) [ none ↦ blank | some v ↦ v ]

at-live : (three.segments 1 ≡ some (at 1)) × (three.segments 3 ≡ some (at 3))
unfolding begin start_segment init_segment current_segment get_top get_element push push_back insert
    insert_at ensure_impl store memmove put add_child add Children.init Vector.init
at-live = (refl, refl)

at-of_txn : (at 3).txn ≢ 0
unfolding begin start_segment init_segment current_segment get_top get_element push push_back insert
    insert_at ensure_impl store memmove put add_child add Children.init Vector.init
at-of_txn = omega arith

end_segment-Ended_example : Ended 9 three 3 (at 3) (end_segment room 9 3 three)
end_segment-Ended_example = end_segment-Ended room 9 three three-IsTxn 3 (at 3) at-live.1 at-of_txn

abbrev depth : ℕ
depth = (three-IsTxn.tree.climbs 1 (at 1).parent (ap parent_in at-live.0)).0

few_children : length (children_of (at 1).children) < 2 ^ 62
unfolding begin start_segment init_segment current_segment get_top get_element push push_back insert
    insert_at ensure_impl store memmove put add_child add Children.init Vector.init
few_children = omega arith

set_parent_lem_example :
    SetParent three.segments 3 1 (at 3) (at 1) (set_parent room (suc depth) three.segments 3 1)
set_parent_lem_example =
    set_parent_lem room granted three.segments three-IsTxn.tree 3 1 (at 3) (at 1) at-live.1
      at-live.0 few_children (suc depth) (omega arith)

-- Three segments; the third is moved to the first, the first would be moved below itself, one is
-- timed, and two are ended.
abbrev calls : List SegmentCall
calls =
    start_call true 1
    ∷ start_call true 2
    ∷ start_call true 3
    ∷ parent_call 3 1
    ∷ parent_call 1 3
    ∷ timing_call 2 5 7
    ∷ end_call 9 3
    ∷ end_call 9 0
    ∷ end_call 9 1
    ∷ []

calls_live : give_live room calls (begin 7) ≡ true
unfolding give_live gives_live run_call begin start_segment end_segment set_timing reparent
    set_parent of_other_txn set_parent_of climb move_segment link remove_child init_segment
    current_segment get_top get_element push push_back insert insert_at ensure_impl store memmove
    put add_child add remove remove_packed remove_index index_of remove_topmost remove_found
    find_last find_from Vector.remove Vector.remove_at Vector.shrink_if_necessary Children.init
    Vector.init
calls_live = refl

begun_last : (begin 7).last ≡ 0
unfolding begin
begun_last = refl

run_calls-Ran_example : Ran (begin 7) (length calls) (run_calls room calls (begin 7))
run_calls-Ran_example =
    run_calls-Ran room granted calls (begin 7) (begin-IsTxn 7) (omega (arith, begun_last))
      calls_live

-- A root that took long, and a segment with an identifier in a payload whose stop is before its start.
abbrev ranked : ℕ → Option Ranked
ranked q =
    if q == 1
    then some (record { priority = 65536; start_time = 0; stop_time = 90 })
    else if q == 2
    then some (record { priority = 32768; start_time = 8; stop_time = 5 })
    else none
