-- ===== src/Sdk/Api/Clients/Endings.antt =====
-- A segment that is ended and freed: its union is read by the member that was written.
use mathlib.Core.Path.{subst}
use c_sdk.Base.{
  ℕ, ◌≡◌, ◌≢◌, refl, sym, ◌∙◌, Bool, true, false, Option, none, some, ◌∷◌, arith, Bool-cases, inl,
  inr, is_some,
}
use c_sdk.Sdk.Machine.{
  Call, nr_segment_type, nr_segment_end, nr_segment_add_metric, nr_segment_datastore_end,
  nr_segment_external_end, Segment, Fields, unset, datastore, external, World, Outcome, ok,
  Transaction, acquire, did, fault, dangling, wrong_member, update, is_null, M,
}
use c_sdk.Sdk.Segment.{end_segment, end_matching, end_locked, end_typed, finish, segment_custom}
use c_sdk.Sdk.Datastore.{segment_datastore, no_datastore}
use c_sdk.Sdk.External.{segment_external, no_external}
use c_sdk.Sdk.Api.Clients.{Contract, Typed, Matches, destroys, lasts, passes, passes_segment_ptr}
use c_sdk.Sdk.Api.Clients.Memory.{Sound, call-Typed}
use c_sdk.Sdk.Api.Clients.Unions.{Fits, typed-at, clear-Typed, clear_once-Typed, write-Typed}

-- The type that a union was written for.
abbrev kind_of : Fields → ℕ
kind_of unset = segment_custom
kind_of (datastore d) = segment_datastore
kind_of (external e) = segment_external

Matches-kind : (k : ℕ) (f : Fields) → Matches k f → k ≡ kind_of f
Matches-kind k unset m = m
Matches-kind k (datastore d) m = m
Matches-kind k (external e) m = m

kind-Matches : (k : ℕ) (f : Fields) → k ≡ kind_of f → Matches k f
kind-Matches k unset m = m
kind-Matches k (datastore d) m = m
kind-Matches k (external e) m = m

module _ {S : Type 0} {perform : Call → S → ℕ × S} (contract : Contract perform) where
  -- The segment at an address stays live, all stay typed, and the transactions are the same.
  abbrev SoundAt : {A : Type 0} → World S → ℕ → Outcome S A → Type 0
  SoundAt v x (ok a w) =
      Typed contract w.axiom_state w.segments
      × (lasts (contract.over w.axiom_state) (w.segments x) ≡ true)
      × (w.transactions ≡ v.transactions)
  SoundAt v x (fault e) = (e ≢ dangling) × (e ≢ wrong_member)

  module _ (w : World S) (typed : Typed contract w.axiom_state w.segments) (x : ℕ) (v : Segment)
      (live : w.segments x ≡ some v)
      (lasting : contract.over w.axiom_state v.transaction ≡ false) where
    -- What axiom answers for the type of the segment, also after another call.
    reported-kind :
        (f : Fields)
        → v.fields ≡ f
        → (perform (nr_segment_type v.segment) w.axiom_state).0 ≡ kind_of f
    reported-kind f e =
        contract.reported v.segment w.axiom_state
        ∙ Matches-kind (contract.type_of w.axiom_state v.segment) f (
            subst (Matches (contract.type_of w.axiom_state v.segment)) e
              (typed-at contract w.axiom_state w.segments typed x v live lasting).1)

    abbrev asked : S
    asked = (perform (nr_segment_type v.segment) w.axiom_state).1

    asked-Typed : Typed contract asked w.segments
    asked-Typed =
        call-Typed contract (nr_segment_type v.segment) w.axiom_state w.segments (λ y. refl) typed

    finish_as-Sound : (f : Fields) (b : Bool) → v.fields ≡ f → Sound contract (finish perform b x w)
    unfolding finish
    finish_as-Sound unset b e = ground (
      arith,
      reported-kind unset e,
      clear_once-Typed contract asked w.segments x asked-Typed,
      clear_once-Typed contract w.axiom_state w.segments x typed,
    )
    finish_as-Sound (datastore d) b e = ground (
      arith,
      reported-kind (datastore d) e,
      clear-Typed contract asked w.segments x
          (some (record v { fields = datastore (record no_datastore { type_of = d.type_of }) }))
          asked-Typed,
      clear_once-Typed contract w.axiom_state w.segments x typed,
    )
    finish_as-Sound (external d) b e = ground (
      arith,
      reported-kind (external d) e,
      clear-Typed contract asked w.segments x (some (record v { fields = external no_external }))
          asked-Typed,
      clear_once-Typed contract w.axiom_state w.segments x typed,
    )

    -- The fields are destroyed and the type stays.
    emptied-Typed :
        (s : S) (f f' : Fields)
        → v.fields ≡ f
        → kind_of f ≡ kind_of f'
        → Typed contract s w.segments
        → contract.over s v.transaction ≡ false
        → Typed contract s (update w.segments x (some (record v { fields = f' })))
    emptied-Typed s f f' e same t still =
        let old : Fits contract s v.segment v.transaction v.fields =
          typed-at contract s w.segments t x v live still in
        write-Typed contract s w.segments (update w.segments x (some (record v { fields = f' }))) x
          (record v { fields = f' }) (λ q other. ground (arith, other)) (ground arith) t
          (
            old.0,
            kind-Matches (contract.type_of s v.segment) f'
                (Matches-kind (contract.type_of s v.segment) f (subst (Matches _) e old.1) ∙ same),
          )

    -- The transaction is not over after these calls.
    still_asked : contract.over asked v.transaction ≡ false
    still_asked =
        contract.keeps_over (nr_segment_type v.segment) w.axiom_state v.transaction refl ∙ lasting

    still_ended :
        (c : Call)
        → ((t : ℕ) → destroys c t ≡ false)
        → contract.over (perform c asked).1 v.transaction ≡ false
    still_ended c h = contract.keeps_over c asked v.transaction (h v.transaction) ∙ still_asked

    end_typed_as-Sound :
        (f : Fields) → v.fields ≡ f → SoundAt w x (end_typed perform (kind_of f) x v w)
    unfolding end_typed
    end_typed_as-Sound unset e =
        let c : Call = nr_segment_end v.segment in
        let d : Call = nr_segment_add_metric v.segment true in
        ground (
          arith,
          live,
          call-Typed contract d (perform c w.axiom_state).1 w.segments (λ y. refl)
              (call-Typed contract c w.axiom_state w.segments (λ y. refl) typed),
          contract.keeps_over d (perform c w.axiom_state).1 v.transaction refl,
          contract.keeps_over c w.axiom_state v.transaction refl,
        )
    end_typed_as-Sound (datastore d) e =
        let f : Fields = datastore (record no_datastore { type_of = d.type_of }) in
        ground (
          arith,
          live,
          reported-kind (datastore d) e,
          emptied-Typed (perform (nr_segment_datastore_end v.segment d) asked).1 (datastore d) f e
              refl
              (call-Typed contract (nr_segment_datastore_end v.segment d) asked w.segments
                (λ y. refl) asked-Typed)
              (still_ended (nr_segment_datastore_end v.segment d) (λ t. refl)),
          still_ended (nr_segment_datastore_end v.segment d) (λ t. refl),
        )
    end_typed_as-Sound (external d) e = ground (
      arith,
      live,
      reported-kind (external d) e,
      emptied-Typed (perform (nr_segment_external_end v.segment d) asked).1 (external d)
          (external no_external) e refl
          (call-Typed contract (nr_segment_external_end v.segment d) asked w.segments (λ y. refl)
            asked-Typed)
          (still_ended (nr_segment_external_end v.segment d) (λ t. refl)),
      still_ended (nr_segment_external_end v.segment d) (λ t. refl),
    )

  module _ (w : World S) (typed : Typed contract w.axiom_state w.segments) (p x : ℕ) where
    finish_found-Sound :
        (b : Bool) (o : Option Segment)
        → w.segments x ≡ o
        → lasts (contract.over w.axiom_state) o ≡ true
        → Sound contract (finish perform b x w)
    finish_found-Sound b none e h = absurd (cc)
    finish_found-Sound b (some v) e h =
        finish_as-Sound w typed x v e (ground (arith, h)) v.fields b refl

    finish-Sound :
        (b : Bool)
        → lasts (contract.over w.axiom_state) (w.segments x) ≡ true
        → Sound contract (finish perform b x w)
    finish-Sound b h = finish_found-Sound b (w.segments x) refl h

    module _ (v : Segment) (live : w.segments x ≡ some v)
        (lasting : contract.over w.axiom_state v.transaction ≡ false) (t : Transaction)
        (found : w.transactions p ≡ some t) where
      -- The world in which the segment is ended as its type asks for.
      abbrev locked : World S
      locked = record w {
        axiom_state = (perform (nr_segment_type v.segment) w.axiom_state).1;
        transactions = update w.transactions p (some (record t { locked = true }));
        trace = did (nr_segment_type v.segment) ∷ acquire p ∷ w.trace;
      }

      typed_end :
          SoundAt locked x
            (end_typed perform (perform (nr_segment_type v.segment) w.axiom_state).0 x v locked)
      typed_end =
          subst (λ k. SoundAt locked x (end_typed perform k x v locked))
            (sym (reported-kind w typed x v live lasting v.fields refl))
            (end_typed_as-Sound locked (asked-Typed w typed x v live lasting) x v live
              (still_asked w typed x v live lasting) v.fields refl)

      end_locked-Sound :
          is_null p ≡ false
          → SoundAt
              (record w {
                transactions = update w.transactions p (some (record t { locked = false }));
              })
              x
              (end_locked perform p x v w)
      unfolding end_locked
      end_locked-Sound z = ground (arith, found, typed_end)

  -- What is done after the segment was ended, with it still live.
  SoundAt-bind :
      {A B : Type 0} (v : World S) (x : ℕ) (m : Outcome S A) (k : A → M S B)
      → SoundAt v x m
      → ((a : A) (w : World S)
          → Typed contract w.axiom_state w.segments
          → lasts (contract.over w.axiom_state) (w.segments x) ≡ true
          → Sound contract (k a w))
      → Sound contract (elim m as (λ _. Outcome S B) [ ok a w' ↦ k a w' | fault e ↦ fault e ])
  SoundAt-bind v x (ok a w) k h f = f a w h.0 h.1
  SoundAt-bind v x (fault e) k h f = h

  module _ (w : World S) (typed : Typed contract w.axiom_state w.segments) (p : ℕ) where
    end_matching-Sound :
        (x : ℕ) (v : Segment) (o : Option Transaction)
        → w.segments x ≡ some v
        → contract.over w.axiom_state v.transaction ≡ false
        → w.transactions p ≡ o
        → is_null p ≡ false
        → is_some o ≡ true
        → Sound contract (end_matching perform p x v w)
    unfolding end_matching
    end_matching-Sound x v none live lasting found z h = absurd (cc)
    end_matching-Sound x v (some t) live lasting found z h =
        SoundAt-bind
          (record w { transactions = update w.transactions p (some (record t { locked = false })) })
          x (end_locked perform p x v w) _ (end_locked-Sound w typed p x v live lasting t found z)
          (λ a w' typed' live'. finish-Sound w' typed' p x true live')

    end_found-Sound :
        (x : ℕ) (o : Option Segment)
        → passes w.transactions p ≡ true
        → w.segments x ≡ o
        → lasts (contract.over w.axiom_state) o ≡ true
        → Sound contract (end_segment perform p (some x) w)
    unfolding end_segment
    end_found-Sound x none h e k = absurd (cc)
    end_found-Sound x (some v) h e k = ground (
      arith,
      e,
      finish-Sound w typed p x false,
      end_matching-Sound x v (w.transactions p) e (ground (arith, k)),
    )

    pub end_segment-Sound :
        (s : Option ℕ)
        → passes w.transactions p ≡ true
        → passes_segment_ptr perform contract.over w s ≡ true
        → Sound contract (end_segment perform p s w)
    unfolding end_segment
    end_segment-Sound none h k = typed
    end_segment-Sound (some x) h k = elim (Bool-cases (is_null x)) [
      | inl null ↦ rw null typed
      | inr there ↦ end_found-Sound x (w.segments x) h refl (ground (arith, k))
    ]
