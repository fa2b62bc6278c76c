-- ===== src/Axiom/Segment/Chain.antt =====
-- The way from a segment up to a root: the loop of nr_segment_set_parent ends, and a segment that
-- the loop does not meet can be moved without making a cycle.
use c_sdk.Base.{
  ℕ, zero, suc, ◌+◌, ◌<◌, ◌≡◌, ◌≢◌, refl, Bool, true, false, Option, none, some, arith, ◌==◌,
  if◌then◌else◌, ◌⊎◌, inl, inr, Bool-cases,
}
use c_sdk.Axiom.Segment.{Segment, Segments, climb}

abbrev pub parent_in : Option Segment → Option ℕ
parent_in none = none
parent_in (some s) = some s.parent

-- The parent of a live segment.
abbrev pub parent_of : Segments → ℕ → Option ℕ
parent_of segments p = parent_in (segments p)

-- From an address NULL is reached in at most `n` steps through live segments.
abbrev pub Climbs : (ℕ → Option ℕ) → ℕ → ℕ → Type 0
Climbs up p zero = p ≡ 0
Climbs up p (suc n) = (p ≡ 0) ⊎ ((q : ℕ) × (up p ≡ some q) × Climbs up q n)

-- The same, without meeting a segment.
abbrev pub Avoids : (ℕ → Option ℕ) → ℕ → ℕ → ℕ → Type 0
Avoids up s p zero = p ≡ 0
Avoids up s p (suc n) = (p ≡ 0) ⊎ ((q : ℕ) × (up p ≡ some q) × (p ≢ s) × Avoids up s q n)

-- A segment at or above an address.
pub data Above (up : ℕ → Option ℕ) (s : ℕ) : ℕ → Type 0 where
  here : Above up s s
  further : {p q : ℕ} → up p ≡ some q → Above up s q → Above up s p

-- What the search from an address finds.
pub data Found (up : ℕ → Option ℕ) (s p n : ℕ) : Option Bool → Type 0 where
  met : Above up s p → Found up s p n (some true)
  clear : Avoids up s p n → Found up s p n (some false)

Found-up :
    (up : ℕ → Option ℕ) (s p q n : ℕ) (o : Option Bool)
    → up p ≡ some q
    → p ≢ s
    → Found up s q n o
    → Found up s p (suc n) o
Found-up up s p q n (some true) e ne (met a) = met (further e a)
Found-up up s p q n (some false) e ne (clear a) = clear (inr (q, e, ne, a))
Found-up up s p q n none e ne f = elim f [ ]

climb-suc :
    (segments : Segments) (s p q fuel : ℕ)
    → p ≢ 0
    → p ≢ s
    → parent_of segments p ≡ some q
    → climb (suc fuel) segments s p ≡ climb fuel segments s q
unfolding climb
climb-suc segments s p q fuel h k e = ground arith

pub climb-Found :
    (segments : Segments) (s p n fuel : ℕ)
    → Climbs (parent_of segments) p n
    → n < fuel
    → Found (parent_of segments) s p n (climb fuel segments s p)
unfolding climb
climb-Found segments s p n zero c h = absurd (omega arith)
climb-Found segments s p zero (suc fuel) c h = rw c (clear refl)
climb-Found segments s p (suc n) (suc fuel) (inl e) h = rw e (clear (inl refl))
climb-Found segments s p (suc n) (suc fuel) (inr (q, e, c)) h = elim (Bool-cases (p == 0)) [
  | inl null ↦ let none_left : p ≡ 0 = ground arith in rw none_left (clear (inl refl))
  | inr live ↦ elim (Bool-cases (p == s)) [
    | inl same ↦
        let meets : s ≡ p = ground arith in
        let stops : climb (suc fuel) segments s p ≡ some true = ground arith in
        rw stops (met (rw meets here))
    | inr other ↦ rw (climb-suc segments s p q fuel (ground arith) (ground arith) e) (
        Found-up (parent_of segments) s p q n (climb fuel segments s q) e (ground arith)
          (climb-Found segments s q n fuel c (omega arith)))
  ]
]

pub Climbs-suc : (up : ℕ → Option ℕ) (p n : ℕ) → Climbs up p n → Climbs up p (suc n)
Climbs-suc up p zero c = inl c
Climbs-suc up p (suc n) (inl e) = inl e
Climbs-suc up p (suc n) (inr (q, e, c)) = inr (q, e, Climbs-suc up q n c)

pub Climbs-add : (up : ℕ → Option ℕ) (p n k : ℕ) → Climbs up p n → Climbs up p (k + n)
Climbs-add up p n zero c = let e : 0 + n ≡ n = omega arith in rw e c
Climbs-add up p n (suc k) c =
    let e : suc k + n ≡ suc (k + n) = omega arith in
    rw e (Climbs-suc up p (k + n) (Climbs-add up p n k c))

-- A segment is given a new parent, and the others keep theirs.
abbrev pub moved : (ℕ → Option ℕ) → ℕ → ℕ → ℕ → Option ℕ
moved up s parent q = if s == q then some parent else up q

pub Avoids-moved :
    (up : ℕ → Option ℕ) (s parent p n : ℕ) → Avoids up s p n → Climbs (moved up s parent) p n
Avoids-moved up s parent p zero a = a
Avoids-moved up s parent p (suc n) (inl e) = inl e
Avoids-moved up s parent p (suc n) (inr (q, e, ne, a)) =
    inr (q, ground arith, Avoids-moved up s parent q n a)

-- With a new parent that is not below it, every segment still has a way up.
pub Climbs-moved :
    (up : ℕ → Option ℕ) (s parent m : ℕ)
    → Avoids up s parent m
    → (p n : ℕ) → Climbs up p n
    → Climbs (moved up s parent) p (n + suc m)
Climbs-moved up s parent m a p zero c = let e : zero + suc m ≡ suc m = omega arith in rw e (inl c)
Climbs-moved up s parent m a p (suc n) c = elim (Bool-cases (s == p)) [
  | inl moves ↦
      let same : suc n + suc m ≡ suc (suc n + m) = omega arith in
      rw same (
        inr (
          parent,
          ground arith,
          Climbs-add (moved up s parent) parent m (suc n) (Avoids-moved up s parent parent m a),
        ))
  | inr stays ↦
      let same : suc n + suc m ≡ suc (n + suc m) = omega arith in
      rw same (elim c [
        | inl e ↦ inl e
        | inr (q, e, d) ↦ inr (q, ground arith, Climbs-moved up s parent m a q n d)
      ])
]

Above-zero : (up : ℕ → Option ℕ) (s : ℕ) → up 0 ≡ none → s ≢ 0 → ¬ Above up s 0
Above-zero up s null ne here = ne refl
Above-zero up s null ne (further {p} {q} e h) = ground arith

-- A way up that does not meet a segment is all of the way.
pub Avoids-Above :
    (up : ℕ → Option ℕ) (s p n : ℕ) → up 0 ≡ none → s ≢ 0 → Avoids up s p n → ¬ Above up s p
Avoids-Above up s p zero null ne a h = Above-zero up s null ne (rw (← a) h)
Avoids-Above up s p (suc n) null ne (inl e) h = Above-zero up s null ne (rw (← e) h)
Avoids-Above up s p (suc n) null ne (inr (q, e, other, a)) here = other refl
Avoids-Above up s p (suc n) null ne (inr (q, e, other, a)) (further {q = r} i h) =
    let same : r ≡ q = ground arith in Avoids-Above up s q n null ne a (rw (← same) h)
