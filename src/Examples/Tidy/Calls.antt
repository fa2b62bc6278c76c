-- ===== src/Examples/Tidy/Calls.antt =====
-- Which transactions are live after a run: a rule for each call of the SDK, and rules for runs that
-- begin a transaction and end it.
use mathlib.Core.Path.{subst}
use c_sdk.Base.{
  ℕ, ◌≡◌, refl, ap, ◌∙◌, Bool, true, false, none, if◌then◌else◌, not, ◌&&◌, ◌||◌, ◌==◌, ltb,
  is_some, Option, some, CStr, arith,
}
use c_sdk.Sdk.Config.{AppConfig, Created, null, overflow, created}
use c_sdk.Sdk.Machine.{
  Call, M, World, Outcome, ok, fault, pure, ◌>>=◌, ◌>>◌, is_null, mutex_lock, mutex_unlock, call,
  get_segment, get_transaction, Segment, nr_segment_type,
}
use c_sdk.Sdk.Global.{configure_log, init, ensure_init}
use c_sdk.Sdk.App.{create_app, destroy_app, create_with, accepts}
use c_sdk.Sdk.Transaction.{start_web_transaction, set_transaction_timing, end_transaction}
use c_sdk.Sdk.Segment.{
  start_segment, set_segment_parent, set_segment_parent_root, set_segment_timing, end_segment,
  end_matching, end_locked, end_typed, finish,
}
use c_sdk.Sdk.Datastore.{DatastoreParams, Environment, start_datastore_segment}
use c_sdk.Sdk.External.{ExternalParams, start_external_segment}
use c_sdk.Sdk.Attribute.{add_attribute, add_attribute_int, record_custom_metric}
use c_sdk.Sdk.CustomEvent.{
  add_event_attribute, create_custom_event, record_custom_event, custom_event_add_attribute_int,
  custom_event_add_attribute_long, custom_event_add_attribute_double,
  custom_event_add_attribute_string,
}
use c_sdk.Sdk.Error.{notice_error}
use c_sdk.Sdk.DistributedTrace.{
  create_distributed_trace_payload_httpsafe, accept_distributed_trace_payload_httpsafe,
}
use c_sdk.Examples.{Change, as_is, traced, distributed, change_config}

module _ (q : ℕ) where
  -- Whether a transaction is live at an address.
  abbrev pub lives : {S : Type 0} → World S → Bool
  lives w = is_some (w.transactions q)

  -- Only an address that was given out has one.
  abbrev pub is_given : {S : Type 0} → World S → Bool
  is_given w = not (lives w) || not (ltb w.last q) && not (q == 0)

  -- A run that faults, or after which a transaction is live there or not, as is said.
  abbrev pub Leaves : {S A : Type 0} → (A → Bool) → Outcome S A → Type 0
  Leaves b (ok a w) = (is_given w ≡ true) × (lives w ≡ b a)
  Leaves b (fault e) = Unit {0}

  Leaves-bind :
      {S A B : Type 0} (m : Outcome S A) (k : A → M S B) (b : A → Bool) (c : B → Bool)
      → Leaves b m
      → ((a : A) (w : World S) → is_given w ≡ true → lives w ≡ b a → Leaves c (k a w))
      → Leaves c (elim m as (λ _. Outcome S B) [ ok a w' ↦ k a w' | fault e ↦ fault e ])
  Leaves-bind (ok a w) k b c h f = f a w h.0 h.1
  Leaves-bind (fault e) k b c h f = tt

  -- A transaction that is begun at an address, or ended there: live becomes dead, and dead live.
  abbrev pub turned : ℕ → Bool → Bool
  turned t b = if (q == t) && not (t == 0) then not b else b

  -- A run that leaves the transactions as they were.
  pub record IsTidy {S A : Type 0} (m : M S A) : Type 0 where
    pub at : (w : World S) → is_given w ≡ true → Leaves (λ _. lives w) (m w)

  -- A run that ends the transaction at an address, unless that is NULL, and no other.
  pub record IsClosing {S A : Type 0} (t : ℕ) (m : M S A) : Type 0 where
    pub at : (w : World S) → is_given w ≡ true → Leaves (λ _. turned t (lives w)) (m w)

  module _ {S : Type 0} where
    pub pure-IsTidy : {A : Type 0} (a : A) → IsTidy {S = S} (pure a)
    pure-IsTidy a = record { at = λ w given. (given, refl) }

    pub bind-IsTidy :
        {A B : Type 0} (m : M S A) (k : A → M S B)
        → IsTidy m
        → ((a : A) → IsTidy (k a))
        → IsTidy (m >>= k)
    bind-IsTidy m k h g = record {
      at = λ w given.
          Leaves-bind (m w) k (λ _. lives w) (λ _. lives w) (h.at w given)
            (λ a w' given' same. subst (λ b. Leaves (λ _. b) (k a w')) same ((g a).at w' given'));
    }

    pub bind-IsClosing :
        {A B : Type 0} (t : ℕ) (m : M S A) (k : A → M S B)
        → IsTidy m
        → ((a : A) → IsClosing t (k a))
        → IsClosing t (m >>= k)
    bind-IsClosing t m k h g = record {
      at = λ w given.
          Leaves-bind (m w) k (λ _. lives w) (λ _. turned t (lives w)) (h.at w given)
            (λ a w' given' same.
              subst (λ b. Leaves (λ _. turned t b) (k a w')) same ((g a).at w' given'));
    }

    pub change_config-IsTidy :
        (change : Change) (c : Created) → IsTidy (change_config {S = S} change c)
    unfolding change_config
    change_config-IsTidy as_is null = record { at = λ w given. (given, refl) }
    change_config-IsTidy traced null = record { at = λ w given. tt }
    change_config-IsTidy distributed null = record { at = λ w given. tt }
    change_config-IsTidy as_is overflow = record { at = λ w given. tt }
    change_config-IsTidy traced overflow = record { at = λ w given. tt }
    change_config-IsTidy distributed overflow = record { at = λ w given. tt }
    change_config-IsTidy as_is (created c) = record { at = λ w given. (given, refl) }
    change_config-IsTidy traced (created c) = record { at = λ w given. (given, refl) }
    change_config-IsTidy distributed (created c) = record { at = λ w given. (given, refl) }

  module _ {S : Type 0} (perform : Call → S → ℕ × S) (version : CStr) (env : Environment) where
    pub configure_log-IsTidy : (f : Option CStr) (l : ℕ) → IsTidy (configure_log perform f l)
    unfolding configure_log
    configure_log-IsTidy f l = record { at = λ w given. ground arith }

    pub init-IsTidy : (s : Option CStr) (l : ℕ) → IsTidy (init perform s l)
    unfolding init
    init-IsTidy s l = record { at = λ w given. ground arith }

    ensure_init-IsTidy : IsTidy (ensure_init perform)
    unfolding ensure_init
    ensure_init-IsTidy = record { at = λ w given. ground arith }

    create_with-IsTidy :
        (c : AppConfig) (l : ℕ) (m : Created) → IsTidy (create_with perform version c l m)
    unfolding create_with
    create_with-IsTidy c l null = record { at = λ w given. tt }
    create_with-IsTidy c l overflow = record { at = λ w given. tt }
    create_with-IsTidy c l (created g) = record { at = λ w given. ground arith }

    if-IsTidy :
        {A : Type 0} (b : Bool) (m n : M S A) → IsTidy m → IsTidy n → IsTidy (if b then m else n)
    if-IsTidy true m n h k = h
    if-IsTidy false m n h k = k

    pub create_app-IsTidy : (c : Option AppConfig) (l : ℕ) → IsTidy (create_app perform version c l)
    unfolding create_app
    create_app-IsTidy none l = pure-IsTidy 0
    create_app-IsTidy (some c) l = if-IsTidy (not (accepts c)) (pure 0) _ (pure-IsTidy 0) (
        bind-IsTidy (ensure_init perform) _ ensure_init-IsTidy
          (λ ready. if-IsTidy (not ready) (pure 0) _ (pure-IsTidy 0) (create_with-IsTidy c l _)))

    pub destroy_app-IsTidy : (a : Option ℕ) → IsTidy (destroy_app perform version a)
    unfolding destroy_app
    destroy_app-IsTidy a = record { at = λ w given. ground arith }

    pub set_transaction_timing-IsTidy : (p a d : ℕ) → IsTidy (set_transaction_timing perform p a d)
    unfolding set_transaction_timing
    set_transaction_timing-IsTidy p a d = record { at = λ w given. ground arith }

    pub start_segment-IsTidy : (p : ℕ) (n c : Option CStr) → IsTidy (start_segment perform p n c)
    unfolding start_segment
    start_segment-IsTidy p n c = record { at = λ w given. ground arith }

    pub set_segment_parent-IsTidy : (s r : ℕ) → IsTidy (set_segment_parent perform s r)
    unfolding set_segment_parent
    set_segment_parent-IsTidy s r = record { at = λ w given. ground arith }

    pub set_segment_parent_root-IsTidy : (s : ℕ) → IsTidy (set_segment_parent_root perform s)
    unfolding set_segment_parent_root
    set_segment_parent_root-IsTidy s = record { at = λ w given. ground arith }

    pub set_segment_timing-IsTidy : (s a d : ℕ) → IsTidy (set_segment_timing perform s a d)
    unfolding set_segment_timing
    set_segment_timing-IsTidy s a d = record { at = λ w given. ground arith }

    finish-IsTidy : (b : Bool) (x : ℕ) → IsTidy (finish perform b x)
    unfolding finish
    finish-IsTidy b x = record { at = λ w given. ground arith }

    -- The end of a segment in axiom has nothing to do with the transactions.
    end_typed-IsTidy : (type x : ℕ) (s : Segment) → IsTidy (end_typed perform type x s)
    unfolding end_typed
    end_typed-IsTidy type x s = record { at = λ w given. ground arith }

    mutex_lock-IsTidy : (p : ℕ) → IsTidy {S = S} (mutex_lock p)
    mutex_lock-IsTidy p = record { at = λ w given. ground arith }

    mutex_unlock-IsTidy : (p : ℕ) → IsTidy {S = S} (mutex_unlock p)
    mutex_unlock-IsTidy p = record { at = λ w given. ground arith }

    call-IsTidy : (c : Call) → IsTidy (call perform c)
    call-IsTidy c = record { at = λ w given. ground arith }

    get_segment-IsTidy : (x : ℕ) → IsTidy {S = S} (get_segment x)
    get_segment-IsTidy x = record { at = λ w given. ground arith }

    get_transaction-IsTidy : (p : ℕ) → IsTidy {S = S} (get_transaction p)
    get_transaction-IsTidy p = record { at = λ w given. ground arith }

    end_matching-IsTidy : (p x : ℕ) (s : Segment) → IsTidy (end_matching perform p x s)
    unfolding end_matching end_locked
    end_matching-IsTidy p x s =
        bind-IsTidy _ _
          (bind-IsTidy (mutex_lock p) _ (mutex_lock-IsTidy p) (λ a.
            bind-IsTidy (call perform (nr_segment_type s.segment)) _ (call-IsTidy _) (λ type.
              bind-IsTidy (end_typed perform type x s) _ (end_typed-IsTidy type x s)
                (λ b. mutex_unlock-IsTidy p))))
          (λ a. finish-IsTidy true x)

    pub end_segment-IsTidy : (p : ℕ) (s : Option ℕ) → IsTidy (end_segment perform p s)
    unfolding end_segment
    end_segment-IsTidy p none = pure-IsTidy (false, none)
    end_segment-IsTidy p (some x) = if-IsTidy (is_null x) (pure (false, some x)) _ (pure-IsTidy _) (
        bind-IsTidy (get_segment x) _ (get_segment-IsTidy x) (λ s.
          if-IsTidy (is_null s.transaction || is_null p) (finish perform false x) _
            (finish-IsTidy false x)
            (bind-IsTidy (get_transaction p) _ (get_transaction-IsTidy p) (λ t.
              if-IsTidy (not (t.txn == s.transaction)) (finish perform false x) _
                (finish-IsTidy false x) (end_matching-IsTidy p x s)))))

    pub start_datastore_segment-IsTidy :
        (p : ℕ) (d : Option DatastoreParams) → IsTidy (start_datastore_segment perform env p d)
    unfolding start_datastore_segment
    start_datastore_segment-IsTidy p d = record { at = λ w given. ground arith }

    pub start_external_segment-IsTidy :
        (p : ℕ) (e : Option ExternalParams) → IsTidy (start_external_segment perform p e)
    unfolding start_external_segment
    start_external_segment-IsTidy p e = record { at = λ w given. ground arith }

    pub add_attribute_int-IsTidy :
        (p : ℕ) (k : Option CStr) (v : ℕ) → IsTidy (add_attribute_int perform p k v)
    unfolding add_attribute_int add_attribute
    add_attribute_int-IsTidy p k v = record { at = λ w given. ground arith }

    pub record_custom_metric-IsTidy :
        (p : ℕ) (n : Option CStr) (m : ℕ) → IsTidy (record_custom_metric perform p n m)
    unfolding record_custom_metric
    record_custom_metric-IsTidy p n m = record { at = λ w given. ground arith }

    pub create_custom_event-IsTidy : (t : Option CStr) → IsTidy (create_custom_event perform t)
    unfolding create_custom_event
    create_custom_event-IsTidy t = record { at = λ w given. ground arith }

    pub record_custom_event-IsTidy :
        (p : ℕ) (e : Option ℕ) → IsTidy (record_custom_event perform p e)
    unfolding record_custom_event
    record_custom_event-IsTidy p e = record { at = λ w given. ground arith }

    pub custom_event_add_attribute_int-IsTidy :
        (e : ℕ) (k : Option CStr) (v : ℕ) → IsTidy (custom_event_add_attribute_int perform e k v)
    unfolding custom_event_add_attribute_int add_event_attribute
    custom_event_add_attribute_int-IsTidy e k v = record { at = λ w given. ground arith }

    pub custom_event_add_attribute_long-IsTidy :
        (e : ℕ) (k : Option CStr) (v : ℕ) → IsTidy (custom_event_add_attribute_long perform e k v)
    unfolding custom_event_add_attribute_long add_event_attribute
    custom_event_add_attribute_long-IsTidy e k v = record { at = λ w given. ground arith }

    pub custom_event_add_attribute_double-IsTidy :
        (e : ℕ) (k : Option CStr) (v : ℕ) → IsTidy (custom_event_add_attribute_double perform e k v)
    unfolding custom_event_add_attribute_double add_event_attribute
    custom_event_add_attribute_double-IsTidy e k v = record { at = λ w given. ground arith }

    pub custom_event_add_attribute_string-IsTidy :
        (e : ℕ) (k v : Option CStr) → IsTidy (custom_event_add_attribute_string perform e k v)
    unfolding custom_event_add_attribute_string add_event_attribute
    custom_event_add_attribute_string-IsTidy e k v = record { at = λ w given. ground arith }

    pub notice_error-IsTidy : (p n : ℕ) (m c : Option CStr) → IsTidy (notice_error perform p n m c)
    unfolding notice_error
    notice_error-IsTidy p n m c = record { at = λ w given. ground arith }

    pub create_distributed_trace_payload_httpsafe-IsTidy :
        (p s : ℕ) → IsTidy (create_distributed_trace_payload_httpsafe perform p s)
    unfolding create_distributed_trace_payload_httpsafe
    create_distributed_trace_payload_httpsafe-IsTidy p s = record { at = λ w given. ground arith }

    pub accept_distributed_trace_payload_httpsafe-IsTidy :
        (p : ℕ) (d t : Option CStr)
        → IsTidy (accept_distributed_trace_payload_httpsafe perform p d t)
    unfolding accept_distributed_trace_payload_httpsafe
    accept_distributed_trace_payload_httpsafe-IsTidy p d t = record { at = λ w given. ground arith }

    -- A transaction that is started is at an address that had none.
    start-Begins :
        (a : ℕ) (n : Option CStr) (w : World S)
        → is_given w ≡ true
        → Leaves (λ r. turned r (lives w)) (start_web_transaction perform a n w)
    unfolding start_web_transaction
    start-Begins a n w given = ground arith

    pub end-IsClosing :
        {A : Type 0} (t : ℕ) (m : M S A)
        → IsTidy m
        → IsClosing t (end_transaction perform version (some t) >> m)
    unfolding end_transaction
    end-IsClosing t m h = record {
      at = λ w given.
          Leaves-bind (end_transaction perform version (some t) w) (λ _. m)
            (λ _. turned t (lives w)) (λ _. turned t (lives w)) (ground arith)
            (λ a w' given' same. subst (λ b. Leaves (λ _. b) (m w')) same (h.at w' given'));
    }

    turned-turned : (t : ℕ) (b : Bool) → turned t (turned t b) ≡ b
    turned-turned t b = ground arith

    -- What begins a transaction and ends it.
    pub start-IsTidy :
        {A : Type 0} (a : ℕ) (n : Option CStr) (k : ℕ → M S A)
        → ((t : ℕ) → IsClosing t (k t))
        → IsTidy (start_web_transaction perform a n >>= k)
    start-IsTidy a n k h = record {
      at = λ w given.
          Leaves-bind (start_web_transaction perform a n w) k _ (λ _. lives w)
            (start-Begins a n w given)
            (λ t w' given' now.
              subst (λ b. Leaves (λ _. b) (k t w')) (ap (turned t) now ∙ turned-turned t (lives w))
                ((h t).at w' given'));
    }

    pub ruleset tidy_calls = (
      pure-IsTidy, bind-IsTidy, change_config-IsTidy, configure_log-IsTidy, init-IsTidy,
      create_app-IsTidy, destroy_app-IsTidy, set_transaction_timing-IsTidy, start_segment-IsTidy,
      set_segment_parent-IsTidy, set_segment_parent_root-IsTidy, set_segment_timing-IsTidy,
      end_segment-IsTidy, start_datastore_segment-IsTidy, start_external_segment-IsTidy,
      add_attribute_int-IsTidy, record_custom_metric-IsTidy, create_custom_event-IsTidy,
      record_custom_event-IsTidy, custom_event_add_attribute_int-IsTidy,
      custom_event_add_attribute_long-IsTidy, custom_event_add_attribute_double-IsTidy,
      custom_event_add_attribute_string-IsTidy, notice_error-IsTidy,
      create_distributed_trace_payload_httpsafe-IsTidy,
      accept_distributed_trace_payload_httpsafe-IsTidy, start-IsTidy, end-IsClosing, bind-IsClosing,
    )
