-- ===== src/Sdk/Api/Clients/Unions.antt =====
-- A segment that is started or ended: the others keep a union of their type, and it gets one.
use mathlib.Core.Path.{subst, subst₂, subst₃}
use c_sdk.Base.{
  ℕ, ◌≡◌, ◌≢◌, refl, sym, ap, ◌∙◌, true, false, Option, none, some, arith, ◌==◌, ◌||◌,
  if◌then◌else◌, Bool-cases, inl, inr, CStr,
}
use c_sdk.Sdk.Machine.{
  Call, nr_segment_start, nr_segment_set_type, Segment, Fields, unset, datastore, World, update,
  is_null, M, pure, ◌>>=◌, ◌>>◌, mutex_lock, mutex_unlock, get_transaction, get_segment,
  put_segment, call_,
}
use c_sdk.Sdk.Segment.Create.{segment_create}
use c_sdk.Sdk.Segment.{start_segment}
use c_sdk.Sdk.Datastore.{
  DatastoreParams, Environment, start_datastore_segment, start_datastore_on, datastore_fields,
  segment_datastore,
}
use c_sdk.Sdk.External.{ExternalParams, start_external_segment}
use c_sdk.Sdk.Api.Clients.{Contract, Typed, Matches, passes, has_segment}
use c_sdk.Sdk.Api.Clients.Memory.{Sound, call-Typed}

module _ {S : Type 0} {perform : Call → S → ℕ × S} (contract : Contract perform) where
  -- A segment of axiom that has a type for these fields.
  abbrev pub Fits : S → ℕ → ℕ → Fields → Type 0
  Fits s x t f = (contract.given s x t ≡ true) × Matches (contract.type_of s x) f

  pub typed-at :
      (s : S) (segments : ℕ → Option Segment)
      → Typed contract s segments
      → (q : ℕ) (v : Segment) → segments q ≡ some v
      → contract.over s v.transaction ≡ false
      → Fits s v.segment v.transaction v.fields
  unfolding Typed
  typed-at s segments f q v e o = f q v e o

  -- The segment at an address is written, and no other.
  pub write-Typed :
      (s : S) (from to : ℕ → Option Segment) (p : ℕ) (v : Segment)
      → ((q : ℕ) → (p == q) ≡ false → to q ≡ from q)
      → to p ≡ some v
      → Typed contract s from
      → Fits s v.segment v.transaction v.fields
      → Typed contract s to
  unfolding Typed
  write-Typed s from to p v others here f fits = (λ q u e o. elim (Bool-cases (p == q)) [
    | inl same ↦
        let at : p ≡ q = ground arith in
        let is : v ≡ u = ground (arith, e, here, ap to at) in
        subst (λ (u : Segment). Fits s u.segment u.transaction u.fields) is fits
    | inr other ↦ f q u (sym (others q other) ∙ e) o
  ])

  -- A segment is written twice, or written and freed.
  pub put-Typed :
      (s : S) (segments : ℕ → Option Segment) (p : ℕ) (a : Option Segment) (v : Segment)
      → Typed contract s segments
      → Fits s v.segment v.transaction v.fields
      → Typed contract s (update (update segments p a) p (some v))
  put-Typed s segments p a v =
      write-Typed s segments (update (update segments p a) p (some v)) p v
        (λ q other. ground (arith, other)) (ground arith)

  pub clear-Typed :
      (s : S) (segments : ℕ → Option Segment) (p : ℕ) (a : Option Segment)
      → Typed contract s segments
      → Typed contract s (update (update segments p a) p none)
  unfolding Typed
  clear-Typed s segments p a f = (λ q u e o. f q u (ground (arith, e)) o)

  pub clear_once-Typed :
      (s : S) (segments : ℕ → Option Segment) (p : ℕ)
      → Typed contract s segments
      → Typed contract s (update segments p none)
  unfolding Typed
  clear_once-Typed s segments p f = (λ q u e o. f q u (ground (arith, e)) o)

  module _ (t : ℕ) (s : S) (segments : ℕ → Option Segment) (p : ℕ)
      (typed : Typed contract s segments) (begun : (perform (nr_segment_start t) s).0 ≢ 0) where
    abbrev new : ℕ
    new = (perform (nr_segment_start t) s).0

    abbrev after : S
    after = (perform (nr_segment_start t) s).1

    -- The new segment is a custom one.
    pub start-Typed :
        (a : Option Segment) (v : Segment)
        → v.segment ≡ new
        → v.transaction ≡ t
        → v.fields ≡ unset
        → Typed contract after (update (update segments p a) p (some v))
    start-Typed a v is its empty =
        put-Typed after segments p a v
          (call-Typed contract (nr_segment_start t) s segments (λ x. refl) typed)
          (subst₃ (Fits after) (sym is) (sym its) (sym empty)
            (contract.started t s begun, contract.custom t s begun))

    -- The new segment gets a type, and no other one does.
    retyped-others : (k : ℕ) → Typed contract (perform (nr_segment_set_type new k) after).1 segments
    unfolding Typed
    retyped-others k q v e o =
        let u : ℕ = v.transaction in
        let c : Call = nr_segment_set_type new k in
        let still : contract.over s u ≡ false =
          sym
            (contract.keeps_over c after u refl ∙ contract.keeps_over (nr_segment_start t) s u refl)
          ∙ o in
        let old : Fits s v.segment u v.fields = typed q v e still in
        let kept : contract.given after v.segment u ≡ true =
          contract.keeps_given (nr_segment_start t) s v.segment u old.0 refl in
        let apart : (new == v.segment) ≡ false =
          ground (arith, contract.fresh t u s, old.0, ap (λ y. contract.given s y u)) in
        (
          contract.keeps_given c after v.segment u kept refl,
          subst (λ n. Matches n v.fields)
              (sym (
                contract.keeps_type c after v.segment u kept refl apart
                ∙ contract.keeps_type (nr_segment_start t) s v.segment u old.0 refl refl))
              old.1,
        )

    pub retype-Typed :
        (k : ℕ) (a : Option Segment) (v : Segment)
        → v.segment ≡ new
        → v.transaction ≡ t
        → Matches k v.fields
        → Typed contract
            (perform (nr_segment_set_type new k) after).1
            (update (update segments p a) p (some v))
    retype-Typed k a v is its m =
        put-Typed (perform (nr_segment_set_type new k) after).1 segments p a v (retyped-others k) (
          subst₂ (λ x u. contract.given (perform (nr_segment_set_type new k) after).1 x u ≡ true)
              (sym is) (sym its)
              (contract.keeps_given (nr_segment_set_type new k) after new t
                (contract.started t s begun) refl),
          subst (λ n. Matches n v.fields)
              (sym (
                ap (contract.type_of (perform (nr_segment_set_type new k) after).1) is
                ∙ contract.typed new k after))
              m,
        )

  module _ (w : World S) (typed : Typed contract w.axiom_state w.segments) where
    pub start_segment-Sound :
        (p : ℕ) (n c : Option CStr)
        → (is_null p || has_segment perform contract.over w (w.transactions p)) ≡ true
        → Sound contract (start_segment perform p n c w)
    unfolding start_segment
    start_segment-Sound p n c h = grind (arith, call-Typed, start-Typed)

    -- What the two typed starts have in common.
    start_typed : ℕ → Fields → ℕ → M S ℕ
    unfolding segment_create
    start_typed k f p = do
      mutex_lock p
      t ← get_transaction p
      segment ← segment_create perform t.txn
      if is_null segment then mutex_unlock p >> pure segment else do
        s ← get_segment segment
        call_ perform (nr_segment_set_type s.segment k)
        put_segment segment (some (record s { fields = f }))
        mutex_unlock p
        pure segment

    start_typed-Sound :
        (k : ℕ) (f : Fields) (p : ℕ)
        → Matches k f
        → is_null p ≡ false
        → passes w.transactions p ≡ true
        → Sound contract (start_typed k f p w)
    unfolding start_typed
    start_typed-Sound k f p m z h = grind (arith, call-Typed, retype-Typed)

    start_with-Sound :
        (env : Environment) (p : ℕ) (d : DatastoreParams) (product : CStr)
        → is_null p ≡ false
        → passes w.transactions p ≡ true
        → Sound contract (start_datastore_on perform env p d product w)
    unfolding start_datastore_on start_typed
    start_with-Sound env p d product z h =
        start_typed-Sound segment_datastore (datastore (datastore_fields env d product)) p refl z h

    -- With a product or without one.
    started_on :
        (env : Environment) (p : ℕ) (d : DatastoreParams) (product : Option CStr)
        → is_null p ≡ false
        → passes w.transactions p ≡ true
        → d.product ≡ product
        → Sound contract (start_datastore_segment perform env p (some d) w)
    unfolding start_datastore_segment
    started_on env p d none z h e = ground (arith, e)
    started_on env p d (some product) z h e =
        ground (arith, e, start_with-Sound env p d product z h)

    pub start_datastore_segment-Sound :
        (env : Environment) (p : ℕ) (d : Option DatastoreParams)
        → passes w.transactions p ≡ true
        → Sound contract (start_datastore_segment perform env p d w)
    unfolding start_datastore_segment
    start_datastore_segment-Sound env p none h = typed
    start_datastore_segment-Sound env p (some d) h =
        elim (is_null p)
            as (λ b.
              is_null p ≡ b → Sound contract (start_datastore_segment perform env p (some d) w)) [
                | true ↦ λ z. ground (arith, z, typed)
                | false ↦ λ z. started_on env p d d.product z h refl
              ]
          refl

    pub start_external_segment-Sound :
        (p : ℕ) (e : Option ExternalParams)
        → passes w.transactions p ≡ true
        → Sound contract (start_external_segment perform p e w)
    unfolding start_external_segment
    start_external_segment-Sound p e h = grind (arith, call-Typed, retype-Typed)
