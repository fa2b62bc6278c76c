-- ===== src/Axiom/ExclusiveTime/Sorted.antt =====
-- The transitions up to a time, and what a sorted list of transitions says about them.
use Prim.Native.Nat.{Ordering}
use c_sdk.Base.{ℕ, ◌<◌, ◌≤◌, ◌≡◌, ◌≢◌, refl, Bool, true, false, List, [], ◌∷◌, arith, ltb, leb}
use c_sdk.Axiom.ExclusiveTime.{Transition, child_start, child_stop, time, transition_compare}
use c_sdk.Base.Counts.{count, count-All, All, All-map}

-- No transition is after one that follows it.
abbrev pub Precedes : Transition → Transition → Type 0
Precedes a b = transition_compare a b ≢ Ordering.gt

abbrev pub IsSorted : List Transition → Type 0
IsSorted [] = Unit {0}
IsSorted (x ∷ l) = All (Precedes x) l × IsSorted l

abbrev pub starts_by : ℕ → Transition → Bool
starts_by t (child_start s) = leb s t
starts_by t (child_stop s) = false

abbrev pub stops_by : ℕ → Transition → Bool
stops_by t (child_start s) = false
stops_by t (child_stop s) = leb s t

abbrev pub is_start : Transition → Bool
is_start (child_start s) = true
is_start (child_stop s) = false

abbrev pub is_stop : Transition → Bool
is_stop (child_start s) = false
is_stop (child_stop s) = true

-- A stop before a time.
abbrev pub stops_before : ℕ → Transition → Bool
stops_before t (child_start s) = false
stops_before t (child_stop s) = ltb s t

abbrev pub StopsFrom : ℕ → Transition → Type 0
StopsFrom t x = stops_before t x ≡ false

pub Precedes-time : (x y : Transition) → Precedes x y → time x ≤ time y
unfolding transition_compare
Precedes-time x y h = ground arith

-- After a stop there is no start of the same time.
Precedes-stop : (s : ℕ) (y : Transition) → Precedes (child_stop s) y → starts_by s y ≡ false
unfolding transition_compare
Precedes-stop s (child_start t) h = ground arith
Precedes-stop s (child_stop t) h = refl

module _ (x : Transition) (l : List Transition) (sorted : IsSorted (x ∷ l)) where
  later :
      (p : Transition → Bool) → ((y : Transition) → time x ≤ time y → p y ≡ false) → count p l ≡ 0
  later p h = count-All (Precedes x) p l (λ y k. h y (Precedes-time x y k)) sorted.0

  -- Before the head of a sorted list nothing happens.
  pub starts-before : (t : ℕ) → t < time x → count (starts_by t) l ≡ 0
  starts-before t less = later (starts_by t) no_start
    where
      no_start : (y : Transition) → time x ≤ time y → starts_by t y ≡ false
      no_start (child_start s) h = ground arith
      no_start (child_stop s) h = refl

  pub stops-before : (t : ℕ) → t < time x → count (stops_by t) l ≡ 0
  stops-before t less = later (stops_by t) no_stop
    where
      no_stop : (y : Transition) → time x ≤ time y → stops_by t y ≡ false
      no_stop (child_start s) h = refl
      no_stop (child_stop s) h = ground arith

  pub StopsFrom-head : All (StopsFrom (time x)) l
  StopsFrom-head = All-map (Precedes x) (StopsFrom (time x)) l late sorted.0
    where
      late : (y : Transition) → Precedes x y → StopsFrom (time x) y
      late (child_start s) h = refl
      late (child_stop s) h = ground (arith, Precedes-time x (child_stop s) h)

pub starts-stop :
    (s : ℕ) (l : List Transition) → IsSorted (child_stop s ∷ l) → count (starts_by s) l ≡ 0
starts-stop s l sorted =
    count-All (Precedes (child_stop s)) (starts_by s) l (λ y h. Precedes-stop s y h) sorted.0
