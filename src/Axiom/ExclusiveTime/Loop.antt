-- ===== src/Axiom/ExclusiveTime/Loop.antt =====
-- The loop of nr_exclusive_time_calculate: what it returns and what it has still to subtract.
use c_sdk.Base.{
  ℕ, zero, suc, ◌+◌, ◌-◌, ◌%◌, ◌<◌, ◌≤◌, ◌≡◌, refl, ap, ◌∙◌, Bool, ◌&&◌, List, [], ◌∷◌, arith, ltb,
  leb, ◌==◌, if◌then◌else◌, length, Bool-cases, inl, inr,
}
use c_sdk.Axiom.ExclusiveTime.{Transition, child_start, child_stop, duration, walk, int_mod}
use c_sdk.Axiom.ExclusiveTime.Ticks.{ticks, ticks-ext, ticks-add, ticks-between, ticks-none}
use c_sdk.Base.Counts.{one_if, count, All, All-map}
use c_sdk.Axiom.ExclusiveTime.Sorted.{
  IsSorted, starts_by, stops_by, is_start, is_stop, StopsFrom, starts-before, stops-before,
  StopsFrom-head, starts-stop,
}

-- Whether a child is active at a tick from `a` on, where `k` are active before the transitions.
abbrev pub is_busy : ℕ → ℕ → List Transition → ℕ → Bool
is_busy a k l t = leb a t && ltb (count (stops_by t) l) (k + count (starts_by t) l)

module _ (start stop : ℕ) where
  -- The tick from which on the busy ticks have not been subtracted.
  abbrev pub pending : ℕ → ℕ → ℕ
  pending k last = if k == 0 then start else last

  -- What holds of the loop's variables, with the transitions that are left.
  pub record IsSound (l : List Transition) (k last exclusive : ℕ) : Type 0 where
    pub sorted : IsSorted l
    pub balanced : (t : ℕ) → count (stops_by t) l ≤ k + count (starts_by t) l
    pub closed : count is_stop l ≡ k + count is_start l
    pub late : All (StopsFrom (pending k last)) l
    pub after : start ≤ pending k last
    pub small : k + length l < int_mod
    pub enough : ticks (is_busy (pending k last) k l) stop ≤ exclusive

  -- The loop subtracts the busy ticks that are pending.
  abbrev pub Exact : List Transition → ℕ → ℕ → ℕ → Type 0
  Exact l k last exclusive =
      walk start stop l k last exclusive + ticks (is_busy (pending k last) k l) stop ≡ exclusive

  module _ (t : ℕ) (l : List Transition) (k last ex : ℕ) where
    abbrev last' : ℕ
    last' = if k == 0 then (if ltb start t then t else start) else last

    start-busy :
        IsSound (child_start t ∷ l) k last ex
        → (u : ℕ) → u < stop
        → is_busy (pending k last) k (child_start t ∷ l) u
          ≡ is_busy (pending (k + 1) last') (k + 1) l u
    unfolding count
    start-busy s u h = elim (Bool-cases (ltb u t)) [
      | inl early ↦ ground (
        arith,
        starts-before (child_start t) l s.sorted u (ground arith),
        stops-before (child_start t) l s.sorted u (ground arith),
      )
      | inr reached ↦ ground (arith, s.after)
    ]

    start-late : IsSound (child_start t ∷ l) k last ex → All (StopsFrom (pending (k + 1) last')) l
    start-late s = elim (Bool-cases (k == 0)) [
      | inr some_active ↦
          let e : pending (k + 1) last' ≡ pending k last = ground arith in rw e (s.late.1)
      | inl idle ↦ elim (Bool-cases (ltb start t)) [
        | inl inside ↦
            let e : pending (k + 1) last' ≡ t = ground arith in
            rw e (StopsFrom-head (child_start t) l s.sorted)
        | inr before ↦
            let e : pending (k + 1) last' ≡ pending k last = ground arith in rw e (s.late.1)
      ]
    ]

    start-IsSound : IsSound (child_start t ∷ l) k last ex → IsSound l (k + 1) last' ex
    unfolding count
    start-IsSound s = record {
      sorted = s.sorted.1;
      balanced = λ u. elim (Bool-cases (leb t u)) [
        | inl reached ↦ ground (arith, s.balanced u)
        | inr early ↦ ground (arith, stops-before (child_start t) l s.sorted u (ground arith))
      ];
      closed = omega (arith, s.closed);
      late = start-late s;
      after = ground (arith, s.after);
      small = omega (arith, s.small);
      enough = rw (← ticks-ext _ _ stop (start-busy s)) s.enough;
    }

    -- The stop of a child that is not the last active one.
    nested-busy :
        IsSound (child_stop t ∷ l) k last ex
        → 1 < k
        → (u : ℕ) → u < stop
        → is_busy (pending k last) k (child_stop t ∷ l) u
          ≡ is_busy (pending (k - 1) last) (k - 1) l u
    unfolding count
    nested-busy s more u h = elim (Bool-cases (ltb u t)) [
      | inl early ↦ ground (
        arith,
        starts-before (child_stop t) l s.sorted u (ground arith),
        stops-before (child_stop t) l s.sorted u (ground arith),
      )
      | inr reached ↦ ground (arith, s.after)
    ]

    stop-balanced :
        IsSound (child_stop t ∷ l) k last ex
        → 0 < k
        → (u : ℕ) → count (stops_by u) l ≤ (k - 1) + count (starts_by u) l
    unfolding count
    stop-balanced s pos u = elim (Bool-cases (leb t u)) [
      | inl reached ↦ ground (arith, s.balanced u)
      | inr early ↦ ground (arith, stops-before (child_stop t) l s.sorted u (ground arith))
    ]

    nested-IsSound : IsSound (child_stop t ∷ l) k last ex → 1 < k → IsSound l (k - 1) last ex
    unfolding count
    nested-IsSound s more = record {
      sorted = s.sorted.1;
      balanced = stop-balanced s (omega arith);
      closed = omega (arith, s.closed);
      late = let e : pending (k - 1) last ≡ pending k last = ground arith in rw e s.late.1;
      after = ground (arith, s.after);
      small = omega (arith, s.small);
      enough = rw (← ticks-ext _ _ stop (nested-busy s more)) s.enough;
    }

    -- A stop finds a child active.
    some-active : IsSound (child_stop t ∷ l) k last ex → 0 < k
    unfolding count
    some-active s = ground (arith, s.balanced t, starts-stop t l s.sorted)

  module _ (t : ℕ) (l : List Transition) (last ex : ℕ) where
    -- The stop of the last active child, at the end of a time that is to be subtracted.
    abbrev until : ℕ
    until = if ltb stop t then stop else t

    last-busy :
        IsSound (child_stop t ∷ l) 1 last ex
        → (u : ℕ) → u < stop
        → one_if (is_busy last 1 (child_stop t ∷ l) u)
          ≡ one_if (leb last u && ltb u until) + one_if (is_busy start 0 l u)
    unfolding count
    last-busy s u h = elim (Bool-cases (ltb u t)) [
      | inl early ↦ ground (
        arith,
        starts-before (child_stop t) l s.sorted u (ground arith),
        stops-before (child_stop t) l s.sorted u (ground arith),
      )
      | inr reached ↦ ground (arith, s.after, s.late.0)
    ]

    last-ticks :
        IsSound (child_stop t ∷ l) 1 last ex
        → ticks (is_busy last 1 (child_stop t ∷ l)) stop
          ≡ duration last until + ticks (is_busy start 0 l) stop
    last-ticks s =
        let split : ticks (is_busy last 1 (child_stop t ∷ l)) stop
            ≡ ticks (λ u. leb last u && ltb u until) stop + ticks (is_busy start 0 l) stop =
          ticks-add _ _ _ stop (last-busy s) in
        ground (arith, split, ticks-between last until stop (ground arith))

    closed-IsSound :
        IsSound (child_stop t ∷ l) 1 last ex → IsSound l 0 last (ex - duration last until)
    unfolding count
    closed-IsSound s = record {
      sorted = s.sorted.1;
      balanced = stop-balanced t l 1 last ex s (omega arith);
      closed = omega (arith, s.closed);
      late = All-map (StopsFrom last) (StopsFrom start) l (λ y h. weaken y h) s.late.1;
      after = omega arith;
      small = omega (arith, s.small);
      enough = ground (arith, s.enough, last-ticks s);
    }
      where
        weaken : (y : Transition) → StopsFrom last y → StopsFrom start y
        weaken (child_start a) h = refl
        weaken (child_stop a) h = ground (arith, s.after)

    -- Past the end of the segment nothing is left to subtract.
    past-none : IsSound (child_stop t ∷ l) 1 last ex → stop < t → ticks (is_busy start 0 l) stop ≡ 0
    past-none s past = ticks-none (is_busy start 0 l) stop (λ u h. ground (
      arith,
      starts-before (child_stop t) l s.sorted u (omega arith),
      stops-before (child_stop t) l s.sorted u (omega arith),
    ))

    last-Exact :
        IsSound (child_stop t ∷ l) 1 last ex
        → Exact l 0 last (ex - duration last until)
        → Exact (child_stop t ∷ l) 1 last ex
    unfolding walk
    last-Exact s closed = elim (Bool-cases (ltb stop t)) [
      | inl past ↦ ground (arith, last-ticks s, past-none s (ground arith), s.enough)
      | inr inside ↦ ground (arith, last-ticks s, closed, s.enough)
    ]

  nested-Exact :
      (t : ℕ) (l : List Transition) (k last ex : ℕ)
      → IsSound (child_stop t ∷ l) k last ex
      → 1 < k
      → Exact l (k - 1) last ex
      → Exact (child_stop t ∷ l) k last ex
  unfolding walk
  nested-Exact t l k last ex s more next =
      ground (arith, ticks-ext _ _ stop (nested-busy t l k last ex s more), next)

  pub walk-Exact : (l : List Transition) (k last ex : ℕ) → IsSound l k last ex → Exact l k last ex
  unfolding count walk
  walk-Exact [] k last ex s =
      omega
        (arith, ticks-none (is_busy (pending k last) k []) stop (λ u h. ground (arith, s.closed)))
  walk-Exact (child_start t ∷ l) k last ex s =
      let same : (k + 1) % int_mod ≡ k + 1 = omega (arith, s.small) in
      let next : Exact l (k + 1) (last' t l k last ex) ex =
        walk-Exact l (k + 1) (last' t l k last ex) ex (start-IsSound t l k last ex s) in
      rw same (
        ap (λ n. walk start stop l (k + 1) (last' t l k last ex) ex + n)
          (ticks-ext _ _ stop (start-busy t l k last ex s))
        ∙ next)
  walk-Exact (child_stop t ∷ l) zero last ex s = absurd (omega (arith, some-active t l 0 last ex s))
  walk-Exact (child_stop t ∷ l) (suc zero) last ex s =
      last-Exact t l last ex s (
        walk-Exact l 0 last (ex - duration last (until t l last ex)) (closed-IsSound t l last ex s))
  walk-Exact (child_stop t ∷ l) (suc (suc k)) last ex s =
      nested-Exact t l (suc (suc k)) last ex s (omega arith) (
        walk-Exact l (suc (suc k) - 1) last ex
          (nested-IsSound t l (suc (suc k)) last ex s (omega arith)))
