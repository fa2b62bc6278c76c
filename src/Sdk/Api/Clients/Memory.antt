-- ===== src/Sdk/Api/Clients/Memory.antt =====
-- A call with pointers that are NULL or live reads no dead object and no member of a union that was
-- not written, and leaves every segment with a union of its type.
use mathlib.Core.Path.{subst}
use c_sdk.Base.{
  ap, ◌∙◌, ◌==◌, refl, false, ℕ, ◌≡◌, ◌≢◌, sym, Bool, true, false, Option, arith, CStr,
}
use c_sdk.Sdk.Config.{AppConfig, created}
use c_sdk.Sdk.Machine.{
  nr_txn_destroy, nr_segment_set_type, Call, Segment, World, Outcome, ok, fault, dangling,
  wrong_member, Value,
}
use c_sdk.Sdk.Global.{configure_log, init, ensure_init, shutdown}
use c_sdk.Sdk.App.{create_with, destroy_app}
use c_sdk.Sdk.Transaction.{
  start_transaction, set_transaction_timing, end_transaction, ignore_transaction,
  set_transaction_name,
}
use c_sdk.Sdk.Segment.{set_segment_parent, set_segment_parent_root, set_segment_timing}
use c_sdk.Sdk.Attribute.{add_attribute, record_custom_metric}
use c_sdk.Sdk.CustomEvent.{
  create_custom_event, discard_custom_event, record_custom_event, add_event_attribute,
}
use c_sdk.Sdk.Error.{notice_error}
use c_sdk.Sdk.DistributedTrace.{
  create_distributed_trace_payload, create_distributed_trace_payload_httpsafe,
  accept_distributed_trace_payload, accept_distributed_trace_payload_httpsafe,
}
use c_sdk.Sdk.Api.Clients.{
  Contract, Typed, Matches, sets_type, destroys, passes, passes_ptr, passes_segment, passes_locked,
}

-- The segment whose type a call sets, or the transaction that it destroys.
abbrev pub alters : Call → ℕ → Bool
alters (nr_segment_set_type y k) x = y == x
alters (nr_txn_destroy u) t = u == t
alters c x = false

harmless : (c : Call) (x : ℕ) → alters c x ≡ false → sets_type c x ≡ false
harmless (nr_segment_set_type y k) x h = h
harmless c x h = refl

spares : (c : Call) (t : ℕ) → alters c t ≡ false → destroys c t ≡ false
spares (nr_txn_destroy u) t h = h
spares c t h = refl

module _ {S : Type 0} {perform : Call → S → ℕ × S} (contract : Contract perform) where
  -- The run ends with typed segments, or in a fault of the locks.
  abbrev pub Sound : {A : Type 0} → Outcome S A → Type 0
  Sound (ok a w) = Typed contract w.axiom_state w.segments
  Sound (fault e) = (e ≢ dangling) × (e ≢ wrong_member)

  -- A call of axiom that sets no type and destroys no transaction keeps the segments typed.
  pub call-Typed :
      (c : Call) (s : S) (segments : ℕ → Option Segment)
      → ((x : ℕ) → alters c x ≡ false)
      → Typed contract s segments
      → Typed contract (perform c s).1 segments
  unfolding Typed
  call-Typed c s segments simple f = (λ q v e open_still.
      let t : ℕ = v.transaction in
      let old : (contract.given s v.segment t ≡ true)
          × Matches (contract.type_of s v.segment) v.fields =
        f q v e (sym (contract.keeps_over c s t (spares c t (simple t))) ∙ open_still) in
      (
        contract.keeps_given c s v.segment t old.0 (spares c t (simple t)),
        subst (λ k. Matches k v.fields)
            (sym (
              contract.keeps_type c s v.segment t old.0 (spares c t (simple t))
                (harmless c v.segment (simple v.segment))))
            old.1,
      ))

  -- The end of a transaction keeps those of the others typed.
  pub destroy-Typed :
      (u : ℕ) (s : S) (segments : ℕ → Option Segment)
      → Typed contract s segments
      → Typed contract (perform (nr_txn_destroy u) s).1 segments
  unfolding Typed
  destroy-Typed u s segments f = (λ q v e open_still.
      let t : ℕ = v.transaction in
      let c : Call = nr_txn_destroy u in
      let apart : (u == t) ≡ false = ground (
        arith,
        open_still,
        contract.destroyed u s,
        ap (contract.over (perform (nr_txn_destroy u) s).1),
      ) in
      let old : (contract.given s v.segment t ≡ true)
          × Matches (contract.type_of s v.segment) v.fields =
        f q v e (sym (contract.keeps_over c s t apart) ∙ open_still) in
      (
        contract.keeps_given c s v.segment t old.0 apart,
        subst (λ k. Matches k v.fields) (sym (contract.keeps_type c s v.segment t old.0 apart refl))
            old.1,
      ))

  module _ (version : CStr) (w : World S) (typed : Typed contract w.axiom_state w.segments) where
    pub configure_log-Sound : (f : Option CStr) (l : ℕ) → Sound (configure_log perform f l w)
    unfolding configure_log
    configure_log-Sound f l = grind (arith, call-Typed)

    pub ignore_transaction-Sound :
        (p : ℕ) → passes w.transactions p ≡ true → Sound (ignore_transaction perform p w)
    unfolding ignore_transaction
    ignore_transaction-Sound p h = grind (arith, call-Typed)

    pub add_attribute-Sound :
        (p : ℕ) (k : Option CStr) (v : Option Value)
        → passes w.transactions p ≡ true
        → Sound (add_attribute perform p k v w)
    unfolding add_attribute
    add_attribute-Sound p k v h = grind (arith, call-Typed)

    pub init-Sound : (s : Option CStr) (l : ℕ) → Sound (init perform s l w)
    unfolding init
    init-Sound s l = grind (arith, call-Typed)

    pub shutdown-Sound : Sound (shutdown perform w)
    unfolding shutdown
    shutdown-Sound = grind (arith, call-Typed)

    pub ensure_init-Sound : Sound (ensure_init perform w)
    unfolding ensure_init
    ensure_init-Sound = grind (arith, call-Typed)

    pub destroy_app-Sound :
        (a : Option ℕ) → passes_ptr w.apps a ≡ true → Sound (destroy_app perform version a w)
    unfolding destroy_app
    destroy_app-Sound a h = grind (arith, call-Typed)

    pub start_transaction-Sound :
        (a : ℕ) (n : Option CStr) (b : Bool)
        → passes w.apps a ≡ true
        → Sound (start_transaction perform a n b w)
    unfolding start_transaction
    start_transaction-Sound a n b h = grind (arith, call-Typed)

    pub set_transaction_timing-Sound :
        (p a d : ℕ)
        → passes w.transactions p ≡ true
        → Sound (set_transaction_timing perform p a d w)
    unfolding set_transaction_timing
    set_transaction_timing-Sound p a d h = grind (arith, call-Typed)

    pub end_transaction-Sound :
        (p : Option ℕ)
        → passes_ptr w.transactions p ≡ true
        → Sound (end_transaction perform version p w)
    unfolding end_transaction
    end_transaction-Sound p h = grind (arith, call-Typed, destroy-Typed)

    pub set_transaction_name-Sound :
        (p : ℕ) (n : Option CStr)
        → passes w.transactions p ≡ true
        → Sound (set_transaction_name perform p n w)
    unfolding set_transaction_name
    set_transaction_name-Sound p n h = grind (arith, call-Typed)

    pub set_segment_parent-Sound :
        (s q : ℕ)
        → passes_locked perform contract.over w s ≡ true
        → passes_segment perform contract.over w q ≡ true
        → Sound (set_segment_parent perform s q w)
    unfolding set_segment_parent
    set_segment_parent-Sound s q h k = grind (arith, call-Typed)

    pub set_segment_parent_root-Sound :
        (s : ℕ)
        → passes_locked perform contract.over w s ≡ true
        → Sound (set_segment_parent_root perform s w)
    unfolding set_segment_parent_root
    set_segment_parent_root-Sound s h = grind (arith, call-Typed)

    pub set_segment_timing-Sound :
        (s a d : ℕ)
        → passes_locked perform contract.over w s ≡ true
        → Sound (set_segment_timing perform s a d w)
    unfolding set_segment_timing
    set_segment_timing-Sound s a d h = grind (arith, call-Typed)

    pub record_custom_metric-Sound :
        (p : ℕ) (n : Option CStr) (m : ℕ)
        → passes w.transactions p ≡ true
        → Sound (record_custom_metric perform p n m w)
    unfolding record_custom_metric
    record_custom_metric-Sound p n m h = grind (arith, call-Typed)

    pub create_custom_event-Sound : (t : Option CStr) → Sound (create_custom_event perform t w)
    unfolding create_custom_event
    create_custom_event-Sound t = grind (arith, call-Typed)

    pub discard_custom_event-Sound :
        (e : Option ℕ) → passes_ptr w.events e ≡ true → Sound (discard_custom_event perform e w)
    unfolding discard_custom_event
    discard_custom_event-Sound e h = grind (arith, call-Typed)

    pub record_custom_event-Sound :
        (p : ℕ) (e : Option ℕ)
        → passes w.transactions p ≡ true
        → passes_ptr w.events e ≡ true
        → Sound (record_custom_event perform p e w)
    unfolding record_custom_event
    record_custom_event-Sound p e h k = grind (arith, call-Typed)

    pub add_event_attribute-Sound :
        (e : ℕ) (k : Option CStr) (v : Value)
        → passes w.events e ≡ true
        → Sound (add_event_attribute perform e k v w)
    unfolding add_event_attribute
    add_event_attribute-Sound e k v h = grind (arith, call-Typed)

    pub notice_error-Sound :
        (p n : ℕ) (m c : Option CStr)
        → passes w.transactions p ≡ true
        → Sound (notice_error perform p n m c w)
    unfolding notice_error
    notice_error-Sound p n m c h = grind (arith, call-Typed)

    pub create_payload-Sound :
        (p s : ℕ)
        → passes w.transactions p ≡ true
        → passes_segment perform contract.over w s ≡ true
        → Sound (create_distributed_trace_payload perform p s w)
    unfolding create_distributed_trace_payload
    create_payload-Sound p s h k = grind (arith, call-Typed)

    pub create_payload_httpsafe-Sound :
        (p s : ℕ)
        → passes w.transactions p ≡ true
        → passes_segment perform contract.over w s ≡ true
        → Sound (create_distributed_trace_payload_httpsafe perform p s w)
    unfolding create_distributed_trace_payload_httpsafe
    create_payload_httpsafe-Sound p s h k = grind (arith, call-Typed)

    pub accept_payload-Sound :
        (p : ℕ) (d t : Option CStr)
        → passes w.transactions p ≡ true
        → Sound (accept_distributed_trace_payload perform p d t w)
    unfolding accept_distributed_trace_payload
    accept_payload-Sound p d t h = grind (arith, call-Typed)

    pub accept_payload_httpsafe-Sound :
        (p : ℕ) (d t : Option CStr)
        → passes w.transactions p ≡ true
        → Sound (accept_distributed_trace_payload_httpsafe perform p d t w)
    unfolding accept_distributed_trace_payload_httpsafe
    accept_payload_httpsafe-Sound p d t h = grind (arith, call-Typed)

    pub create_with-Sound :
        (g : AppConfig) (l : ℕ) (c : AppConfig)
        → Sound (create_with perform version g l (created c) w)
    unfolding create_with
    create_with-Sound g l c = grind (arith, call-Typed)
