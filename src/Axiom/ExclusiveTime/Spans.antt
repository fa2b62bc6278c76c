-- ===== src/Axiom/ExclusiveTime/Spans.antt =====
-- The children of a segment as spans of time, and the transitions that are recorded for them.
use mathlib.Core.List.{append_assoc, append-nil}
use c_sdk.Base.{
  ℕ, ◌+◌, ◌*◌, ◌<◌, ◌≤◌, ◌≡◌, refl, ap, sym, ◌∙◌, Bool, false, not, ◌&&◌, ◌||◌, List, [], ◌∷◌, ◌++◌,
  arith, ltb, leb, if◌then◌else◌, length, length-append, Bool-cases, inl, inr,
}
use c_sdk.Axiom.ExclusiveTime.{Transition, child_start, child_stop, ExclusiveTime, add_child}
use c_sdk.Axiom.ExclusiveTime.Ticks.{ticks}
use c_sdk.Base.Counts.{one_if, count, All}
use c_sdk.Axiom.ExclusiveTime.Sorted.{starts_by, stops_by, is_start, is_stop, stops_before}

-- A child, from its start to its stop.
abbrev pub Span : Type 0
Span = ℕ × ℕ

abbrev pub IsForward : Span → Type 0
IsForward (a, b) = a ≤ b

-- Whether a child covers a tick.
unfoldable pub is_covered : List Span → ℕ → Bool
is_covered [] t = false
is_covered ((a, b) ∷ cs) t = (leb a t && ltb t b) || is_covered cs t

-- The ticks of a segment that none of its children covers.
abbrev pub uncovered : ℕ → ℕ → List Span → ℕ
uncovered start stop cs = ticks (λ t. leb start t && not (is_covered cs t)) stop

unfoldable pub add_children : ExclusiveTime → List Span → ExclusiveTime
add_children et [] = et
add_children et ((a, b) ∷ cs) = add_children (add_child et a b).1 cs

module _ (start stop : ℕ) where
  -- The transitions that are recorded.
  pub kept : List Span → List Transition
  kept [] = []
  kept ((a, b) ∷ cs) =
      let rest = kept cs in
      if ltb b start || ltb stop a then rest else child_start a ∷ child_stop b ∷ rest

  pub length-kept : (cs : List Span) → length (kept cs) ≤ 2 * length cs
  unfolding kept
  length-kept [] = omega arith
  length-kept ((a, b) ∷ cs) = ground (arith, length-kept cs)

  abbrev pub of : ℕ → List Transition → ExclusiveTime
  of room ts = record { start_time = start; stop_time = stop; capacity = room; transitions = ts }

  pub add_children-kept :
      (room : ℕ) (ts : List Transition) (cs : List Span)
      → All IsForward cs
      → length ts + 2 * length cs ≤ room
      → add_children (of room ts) cs ≡ of room (ts ++ kept cs)
  unfolding add_children add_child kept
  add_children-kept room ts [] f fits = ap (of room) (sym (append-nil ts))
  add_children-kept room ts ((a, b) ∷ cs) (f, g) fits =
      let room_left : ltb room (length ts + 2) ≡ false = ground arith in
      let forward : ltb b a ≡ false = ground arith in
      elim (Bool-cases (ltb b start || ltb stop a)) [
        | inl outside ↦
            rw (room_left, forward, outside) (add_children-kept room ts cs g (omega arith))
        | inr inside ↦
            let pair : List Transition = child_start a ∷ child_stop b ∷ [] in
            rw (room_left, forward, inside)
              (add_children-kept room (ts ++ pair) cs g (omega (arith, length-append ts pair))
                ∙ ap (of room) (append_assoc ts pair (kept cs)))
      ]

  -- The number of children that cover a tick.
  pub covering : List Span → ℕ → ℕ
  covering [] t = 0
  covering ((a, b) ∷ cs) t = one_if (leb a t && ltb t b) + covering cs t

  pub is_covered-covering : (cs : List Span) (t : ℕ) → is_covered cs t ≡ ltb 0 (covering cs t)
  unfolding is_covered covering
  is_covered-covering [] t = refl
  is_covered-covering ((a, b) ∷ cs) t = ground (arith, is_covered-covering cs t)

  pub active-kept :
      (cs : List Span) (t : ℕ)
      → All IsForward cs
      → start ≤ t
      → t < stop
      → count (starts_by t) (kept cs) ≡ count (stops_by t) (kept cs) + covering cs t
  unfolding kept count covering
  active-kept [] t f l h = omega arith
  active-kept ((a, b) ∷ cs) t (f, g) l h = ground (arith, active-kept cs t g l h)

  pub balanced-kept :
      (cs : List Span) (t : ℕ)
      → All IsForward cs
      → count (stops_by t) (kept cs) ≤ count (starts_by t) (kept cs)
  unfolding kept count
  balanced-kept [] t f = omega arith
  balanced-kept ((a, b) ∷ cs) t (f, g) = ground (arith, balanced-kept cs t g)

  pub closed-kept : (cs : List Span) → count is_stop (kept cs) ≡ count is_start (kept cs)
  unfolding kept count
  closed-kept [] = omega arith
  closed-kept ((a, b) ∷ cs) = ground (arith, closed-kept cs)

  pub late-kept : (cs : List Span) → count (stops_before start) (kept cs) ≡ 0
  unfolding kept count
  late-kept [] = omega arith
  late-kept ((a, b) ∷ cs) = ground (arith, late-kept cs)
