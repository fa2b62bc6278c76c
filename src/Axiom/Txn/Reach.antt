-- ===== src/Axiom/Txn/Reach.antt =====
-- The calls of a program on one transaction: every transaction that they reach is sound, and no call
-- on live segments faults or loops.
use mathlib.Core.Path.{subst}
use c_sdk.Base.{
  ℕ, suc, ◌+◌, ◌^◌, ◌<◌, ◌≤◌, ◌≡◌, refl, ap, ◌∙◌, Bool, true, Option, some, arith, ◌==◌, Bool-cases,
  inl, inr,
}
use c_sdk.Axiom.Vector
use c_sdk.Axiom.Segment.{Segment}
use c_sdk.Axiom.Segment.Chain.{parent_in}
use c_sdk.Axiom.Txn.{Txn, begin, start_segment, end_segment, reparent, set_timing}
use c_sdk.Axiom.Txn.Sound.{IsTxn}
use c_sdk.Axiom.Txn.Start.{StartOutcome, refused, started, start_segment-StartOutcome}
use c_sdk.Axiom.Txn.End.{Ended, end_segment-Ended, end_segment-lone}
use c_sdk.Axiom.Txn.Timing.{Timed, set_timing-Timed}
use c_sdk.Axiom.Txn.Reparent.{Reparented, reparent-Reparented}

pub begin-IsTxn : (id : ℕ) → IsTxn (begin id)
unfolding begin Vector.init
begin-IsTxn id = record {
  tree = record {
    null = refl;
    sound = λ p s e. ground arith;
    climbs = λ p q e. absurd (ground arith);
    linked = λ p q c e. ground arith;
  };
  stack = record { within = omega arith; small = omega arith };
  open_segments = tt;
  fresh = λ q h. refl;
  small = omega arith;
}

module _ (room : ℕ → Bool) where
  -- The transactions that so many calls reach from the begin of one, by the calls' results. A call
  -- is given live segments, as a program has them that destroys none.
  pub data Reach (id : ℕ) : ℕ → Txn → Type 0 where
    begun : Reach id 0 (begin id)
    after_start :
        (n segment : ℕ) (t t' : Txn) (available : Bool) (now : ℕ)
        → Reach id n t
        → start_segment room available now t ≡ some (segment, t')
        → Reach id (suc n) t'
    after_end :
        (n : ℕ) (done : Bool) (t t' : Txn) (now s : ℕ) (sv : Segment)
        → Reach id n t
        → t.segments s ≡ some sv
        → end_segment room now s t ≡ some (done, t')
        → Reach id (suc n) t'
    after_set_timing :
        (n : ℕ) (done : Bool) (t t' : Txn) (first duration s : ℕ) (sv : Segment)
        → Reach id n t
        → t.segments s ≡ some sv
        → set_timing s first duration t ≡ some (done, t')
        → Reach id (suc n) t'
    after_set_parent :
        (n : ℕ) (done : Bool) (t t' : Txn) (rounds s parent : ℕ) (sv pv : Segment)
        → Reach id n t
        → t.segments s ≡ some sv
        → t.segments parent ≡ some pv
        → ((fuel : ℕ) → rounds < fuel → reparent room fuel s parent t ≡ some (done, t'))
        → Reach id (suc n) t'

  -- Soundness, with at most so many segments.
  abbrev pub Within : ℕ → Txn → Type 0
  Within n t = IsTxn t × (t.last ≤ n)

  started-Within :
      (n : ℕ) (t t' : Txn) (available : Bool) (segment : ℕ) (o : Option (ℕ × Txn))
      → Within n t
      → StartOutcome t available o
      → o ≡ some (segment, t')
      → Within (suc n) t'
  started-Within n t t' available segment o w (refused h) e =
      let same : t ≡ t' = ground (arith, e) in subst (Within (suc n)) same (w.0, omega (arith, w.1))
  started-Within n t t' available segment o w (started r h s) e =
      let same : r ≡ t' = ground (arith, e) in
      let is : s.result ≡ r = ground (arith, s.is) in
      subst (Within (suc n)) (is ∙ same) (s.sound, omega (arith, w.1, s.last_of))

  module _ (granted : (n : ℕ) → room n ≡ true) where
    -- A transaction that so many calls reach from nr_txn_begin, each on live segments, fewer than
    -- 2 ^ 62 in all, with an allocator that grants all requests, whatever each call returned, is
    -- sound. Its segments are a tree without cycles in which children and parents agree, each open
    -- segment on its stack is live, and it has at most as many segments as there were calls.
    pub Reach-Within : {id m : ℕ} {x : Txn} → Reach id m x → m + 1 < 2 ^ 62 → Within m x
    unfolding begin
    Reach-Within begun h = (begin-IsTxn _, omega arith)
    Reach-Within (after_start n segment t t' available now r e) h =
        let w : Within n t = Reach-Within r (omega arith) in
        started-Within n t t' available segment (start_segment room available now t) w
          (start_segment-StartOutcome room granted available now t w.0 (omega (arith, w.1))) e
    Reach-Within (after_end n done t t' now s sv r live e) h =
        let w : Within n t = Reach-Within r (omega arith) in
        elim (Bool-cases (sv.txn == 0)) [
          | inl lone ↦
              let same : t ≡ t' = ground (
                arith,
                e,
                end_segment-lone room now t s sv (ground (arith, w.0.tree.null)) live
                    (ground arith),
              ) in
              subst (Within (suc n)) same (w.0, omega (arith, w.1))
          | inr of_txn ↦
              let d : Ended now t s sv (end_segment room now s t) =
                end_segment-Ended room now t w.0 s sv live (ground arith) in
              let same : d.result ≡ t' = ground (arith, e, d.is) in
              subst (Within (suc n)) same (d.sound, omega (arith, w.1, d.last_of))
        ]
    Reach-Within (after_set_timing n done t t' first duration s sv r live e) h =
        let w : Within n t = Reach-Within r (omega arith) in
        let d : Timed first duration t s sv (set_timing s first duration t) =
          set_timing-Timed first duration t w.0 s sv live in
        let same : d.result ≡ t' = ground (arith, e, d.is) in
        subst (Within (suc n)) same (d.sound, omega (arith, w.1, d.last_of))
    Reach-Within (after_set_parent n done t t' rounds s parent sv pv r live p_live e) h =
        let w : Within n t = Reach-Within r (omega arith) in
        let k : ℕ = (w.0.tree.climbs parent pv.parent (ap parent_in p_live)).0 in
        let d : Reparented t s parent sv pv (reparent room (suc (rounds + k)) s parent t) =
          reparent-Reparented room granted t w.0 s parent sv pv live p_live (omega (arith, w.1))
            (suc (rounds + k)) (omega arith) in
        let same : d.result ≡ t' = ground (arith, e (suc (rounds + k)) (omega arith), d.is) in
        subst (Within (suc n)) same (d.sound, omega (arith, w.1, d.last_of))
