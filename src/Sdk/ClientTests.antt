-- ===== src/Sdk/ClientTests.antt =====
-- An axiom that keeps the types of its segments, and programs on it that pass live pointers only.
use c_sdk.Base.{
  ◌≢◌, Bool, ◌&&◌, ◌++◌, codes, ℕ, suc, ◌%◌, ◌≡◌, refl, true, false, none, some, List, [], ◌∷◌,
  arith, ◌==◌, ltb, not, if◌then◌else◌,
}
use c_sdk.Sdk.Machine.{
  is_null, Event, acquire, release, did, nr_txn_add_user_custom_parameter, int_value, Call,
  nr_segment_start, nr_segment_type, nr_segment_set_type, nr_txn_destroy, World, Ends,
}
use c_sdk.Sdk.Segment.Create.{has_slash}
use c_sdk.Sdk.Segment.{
  segment_custom, start_segment, set_segment_parent, set_segment_timing, end_segment, end_matching,
  end_locked, end_typed, finish,
}
use c_sdk.Sdk.Datastore.{start_datastore_segment}
use c_sdk.Sdk.External.{start_external_segment}
use c_sdk.Sdk.Transaction.{end_transaction}
use c_sdk.Sdk.Fixture.{answer, world, system, query, request}
use c_sdk.Sdk.Api.{
  Op, add_attribute_int_op, run_ops, start_segment_op, start_datastore_segment_op,
  start_external_segment_op, set_segment_parent_op, set_segment_timing_op, end_segment_op,
  end_transaction_op,
}
use c_sdk.Sdk.Api.Clients.{Contract, Typed, obeys, sets_type, destroys}
use c_sdk.Sdk.Api.Clients.Runs.{IsCoherent}
use c_sdk.Sdk.Api.Clients.Faultless.{run_ops-IsCoherent}

-- The address that was given out last, the types of the segments, and the transactions that were
-- destroyed. Segments start in the transaction at 50.
record Tracked : Type 0 where
  last : ℕ
  types : ℕ → ℕ
  ended : ℕ → Bool

abbrev track : Call → Tracked → ℕ × Tracked
track (nr_segment_start t) s =
    if t == 50
    then (
      suc s.last,
      record {
        last = suc s.last;
        types = λ q. if suc s.last == q then segment_custom else s.types q;
        ended = s.ended;
      },
    )
    else (0, s)
track (nr_segment_set_type x k) s = (0, record s { types = λ q. if x == q then k else s.types q })
track (nr_segment_type x) s = (s.types x, s)
track (nr_txn_destroy u) s = (0, record s { ended = λ t. if u == t then true else s.ended t })
track c s = (answer c, s)

abbrev track_given : Tracked → ℕ → ℕ → Bool
track_given s x t = t == 50 && not (is_null x) && not (ltb s.last x)

abbrev track_over : Tracked → ℕ → Bool
track_over s t = s.ended t

track-given :
    (c : Call) (s : Tracked) (x t : ℕ)
    → track_given s x t ≡ true
    → destroys c t ≡ false
    → track_given (track c s).1 x t ≡ true
track-given (nr_segment_start u) s x t h k = ground arith
track-given c s x t h k = h

track-types :
    (c : Call) (s : Tracked) (x t : ℕ)
    → track_given s x t ≡ true
    → destroys c t ≡ false
    → sets_type c x ≡ false
    → (track c s).1.types x ≡ s.types x
track-types (nr_segment_start u) s x t h d k = ground arith
track-types (nr_segment_set_type y u) s x t h d k = ground arith
track-types c s x t h d k = refl

track-over :
    (c : Call) (s : Tracked) (t : ℕ)
    → destroys c t ≡ false
    → track_over (track c s).1 t ≡ track_over s t
track-over (nr_segment_start u) s t d = ground arith
track-over (nr_txn_destroy u) s t d = ground arith
track-over c s t d = refl

track-destroyed : (t : ℕ) (s : Tracked) → track_over (track (nr_txn_destroy t) s).1 t ≡ true
track-destroyed t s = ground arith

-- The next address is new, then given out, and holds a custom segment.
track-fresh : (t u : ℕ) (s : Tracked) → track_given s (track (nr_segment_start t) s).0 u ≡ false
track-fresh t u s = ground arith

track-started :
    (t : ℕ) (s : Tracked)
    → (track (nr_segment_start t) s).0 ≢ 0
    → track_given (track (nr_segment_start t) s).1 (track (nr_segment_start t) s).0 t ≡ true
track-started t s h = ground arith

track-custom :
    (t : ℕ) (s : Tracked)
    → (track (nr_segment_start t) s).0 ≢ 0
    → (track (nr_segment_start t) s).1.types (track (nr_segment_start t) s).0 ≡ segment_custom
track-custom t s h = ground arith

track-typed : (x k : ℕ) (s : Tracked) → (track (nr_segment_set_type x k) s).1.types x ≡ k
track-typed x k s = ground arith

abbrev tracked : Contract track
tracked = record {
  given = track_given;
  type_of = λ s x. s.types x;
  over = track_over;
  fresh = track-fresh;
  started = track-started;
  custom = track-custom;
  keeps_given = track-given;
  keeps_type = track-types;
  keeps_over = track-over;
  destroyed = track-destroyed;
  typed = track-typed;
  reported = λ x s. refl;
}

-- The world of the fixture, on that axiom.
abbrev tracked_world : World Tracked
tracked_world = record {
  axiom_state = record { last = 70; types = λ q. q % 4; ended = λ t. false };
  transactions = world.transactions;
  segments = world.segments;
  events = world.events;
  apps = world.apps;
  log_configured = true;
  applist = 30;
  last = 9;
  trace = [];
}

tracked-IsCoherent : IsCoherent tracked tracked_world
unfolding Typed
tracked-IsCoherent = record {
  free = record { transactions = λ q t e. ground arith; apps = λ q a e. ground arith };
  typed = λ q v e o. ground arith;
}

-- A segment of each kind is started; one is moved and timed, all are ended, and the transaction too.
abbrev calls : List Op
calls =
    start_segment_op 1 none none
    ∷ start_datastore_segment_op 1 (some query)
    ∷ start_external_segment_op 1 (some request)
    ∷ set_segment_parent_op 11 10
    ∷ set_segment_timing_op 11 5 7
    ∷ end_segment_op 1 (some 12)
    ∷ end_segment_op 1 (some 11)
    ∷ end_segment_op 1 (some 10)
    ∷ end_transaction_op (some 1)
    ∷ []

calls_obey : obeys track track_over [] system calls tracked_world ≡ true
unfolding obeys start_segment start_datastore_segment start_external_segment set_segment_parent
    set_segment_timing end_segment end_transaction end_matching end_locked end_typed finish
    has_slash
calls_obey = refl

run_ops-IsCoherent_example :
    Ends (λ _ w'. IsCoherent tracked w') (run_ops track [] system calls tracked_world)
run_ops-IsCoherent_example =
    run_ops-IsCoherent tracked [] system calls tracked_world tracked-IsCoherent calls_obey

-- The lock at 1 guards the transaction, of which all segments are.
abbrev lock_one : ℕ → ℕ
lock_one p = if p == 1 then 50 else 0

-- The same without the moves of a segment that keeps no lock.
abbrev locked_calls : List Op
locked_calls =
    start_segment_op 1 none none
    ∷ start_datastore_segment_op 1 (some query)
    ∷ set_segment_parent_op 10 11
    ∷ set_segment_timing_op 10 5 7
    ∷ end_segment_op 1 (some 11)
    ∷ end_segment_op 1 (some 10)
    ∷ end_transaction_op (some 1)
    ∷ []

-- Every thread adds an attribute; the threads 2 and 3 have done so, in this order.
abbrev attribute : List Op
attribute = add_attribute_int_op 1 (some (codes "key")) 7 ∷ []

abbrev added : Call
added = nr_txn_add_user_custom_parameter 50 (codes "key") (int_value 7)

abbrev first_thread : List (ℕ × Event)
first_thread = (2, acquire 1) ∷ []

abbrev between_threads : List (ℕ × Event)
between_threads = (3, acquire 1) ∷ (2, release 1) ∷ []

abbrev last_thread : List (ℕ × Event)
last_thread = (3, release 1) ∷ []

abbrev both_threads : List (ℕ × Event)
both_threads =
    last_thread ++ ((3, did added) ∷ (between_threads ++ ((2, did added) ∷ first_thread)))
