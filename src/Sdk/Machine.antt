-- ===== src/Sdk/Machine.antt =====
-- The machine that the SDK's functions run on: the objects that they allocate (by address), the
-- state of axiom (vendor/newrelic/axiom), which only `perform` reads and changes, and the trace of
-- what was done, newest first. An address is a number, and 0 is NULL.
use c_sdk.Base.{
  ℕ, ◌-◌, ◌^◌, suc, Bool, true, false, Option, none, some, List, ◌∷◌, ◌==◌, if◌then◌else◌, CStr,
}
use c_sdk.Sdk.Config.{AppConfig, TxnOptions}

-- The fields of the `datastore` member of the union in `newrelic_segment_t`; NULL is `none`.
pub record DatastoreFields : Type 0 where
  pub collection : Option CStr
  pub operation : Option CStr
  pub host : Option CStr
  pub port_path_or_id : Option CStr
  pub database_name : Option CStr
  pub type_of : ℕ
  pub string : Option CStr
  pub sql : Option CStr

-- The `external` member.
pub record ExternalFields : Type 0 where
  pub uri : Option CStr
  pub library : Option CStr
  pub procedure : Option CStr

-- The member that was written last; `unset` is the zeroed union of a new segment.
pub data Fields : Type 0 where
  unset : Fields
  datastore : DatastoreFields → Fields
  external : ExternalFields → Fields

-- `newrelic_segment_t`. `txn_lock` is the address of the transaction that holds the lock.
pub record Segment : Type 0 where
  pub segment : ℕ
  pub transaction : ℕ
  pub txn_lock : ℕ
  pub fields : Fields

-- `newrelic_txn_t`
pub record Transaction : Type 0 where
  pub txn : ℕ
  pub locked : Bool

-- The fields of `nr_app_info_t` that the SDK sets; `environment` is a hash of axiom's.
pub record AppInfo : Type 0 where
  pub redirect_collector : CStr
  pub appname : CStr
  pub license : CStr
  pub lang : CStr
  pub environment : ℕ
  pub version : CStr

-- `nr_app_and_info_t`, with axiom's application and the SDK's own lock
pub record App : Type 0 where
  pub app : ℕ
  pub app_info : Option AppInfo
  pub config : Option AppConfig
  pub locked : Bool

-- `nro_new_int` and the like: the value that an attribute is given. A double is its bit pattern.
pub data Value : Type 0 where
  int_value : ℕ → Value
  long_value : ℕ → Value
  double_value : ℕ → Value
  string_value : CStr → Value

-- `newrelic_custom_event_t`, with the hash that its attributes are kept in
pub record CustomEvent : Type 0 where
  pub type_of : CStr
  pub attributes : ℕ

-- The calls of axiom that read or change its state, with their arguments.
pub data Call : Type 0 where
  nr_segment_start : ℕ → Call
  nr_segment_type : ℕ → Call
  nr_segment_set_type : ℕ → ℕ → Call
  nr_segment_set_name : ℕ → CStr → Call
  nr_segment_set_parent : ℕ → ℕ → Call
  nr_segment_set_timing : ℕ → ℕ → ℕ → Call
  nr_segment_end : ℕ → Call
  nr_segment_add_metric : ℕ → Bool → Call
  nr_segment_datastore_end : ℕ → DatastoreFields → Call
  nr_segment_external_end : ℕ → ExternalFields → Call
  segment_root : ℕ → Call
  nrm_force_add : ℕ → CStr → Call
  nr_txn_set_timing : ℕ → ℕ → ℕ → Call
  nr_txn_force_single_count : ℕ → CStr → Call
  nr_txn_end : ℕ → Call
  status_ignore : ℕ → Call
  nr_cmd_txndata_tx : ℕ → Call
  nr_txn_destroy : ℕ → Call
  nr_app_consider_appinfo : ℕ → Call
  nrt_mutex_init : Call
  nr_txn_begin : ℕ → TxnOptions → Call
  nr_txn_set_path : Option CStr → ℕ → CStr → ℕ → Call
  nr_txn_set_as_web_transaction : ℕ → Call
  nr_txn_set_as_background_job : ℕ → Call
  nr_txn_ignore : ℕ → Call
  nr_txn_add_user_custom_parameter : ℕ → CStr → Value → Call
  nr_txn_record_custom_event : ℕ → CStr → ℕ → Call
  nr_txn_add_custom_metric : ℕ → CStr → ℕ → Call
  nro_new_hash : Call
  nro_set_hash : ℕ → Option CStr → Value → Call
  nro_delete : ℕ → Call
  err_enabled : ℕ → Call
  recording : ℕ → Call
  txn_error : ℕ → Call
  nr_error_priority : ℕ → Call
  nr_txn_record_error_worthy : ℕ → ℕ → Call
  get_stack_trace_as_json : Call
  nr_txn_record_error : ℕ → ℕ → CStr → CStr → ℕ → Call
  nr_txn_create_distributed_trace_payload : ℕ → ℕ → Call
  nr_b64_encode : ℕ → Call
  nr_txn_accept_distributed_trace_payload : ℕ → Option CStr → Option CStr → Call
  nr_txn_accept_distributed_trace_payload_httpsafe : ℕ → Option CStr → Option CStr → Call
  nrl_set_log_file : CStr → Call
  nrl_set_log_level : CStr → Call
  nrl_close_log_file : Call
  nr_conn_params_init : CStr → Call
  nr_agent_initialize_daemon_connection_parameters : ℕ → Call
  nr_conn_params_free : ℕ → Call
  nr_agent_try_daemon_connect : ℕ → Call
  nr_agent_close_daemon_connection : Call
  nr_applist_create : Call
  nr_applist_destroy : ℕ → Call
  atexit_shutdown : Call
  nr_agent_find_or_add_app : ℕ → AppInfo → ℕ → Call
  unlock_nrapp : ℕ → Call
  nr_app_info_destroy_fields : AppInfo → Call

-- What was done: a lock taken or given back, by the address of its transaction or application, the
-- same for the static mutex of segment.c, or a call.
pub data Event : Type 0 where
  acquire : ℕ → Event
  release : ℕ → Event
  acquire_app : ℕ → Event
  release_app : ℕ → Event
  acquire_static : Event
  release_static : Event
  did : Call → Event

pub record World (S : Type 0) : Type 0 where
  pub axiom_state : S
  pub transactions : ℕ → Option Transaction
  pub segments : ℕ → Option Segment
  pub events : ℕ → Option CustomEvent
  pub apps : ℕ → Option App
  -- the globals `newrelic_log_configured` and `nr_agent_applist`
  pub log_configured : Bool
  pub applist : ℕ
  -- the last address that the allocator gave out
  pub last : ℕ
  pub trace : List Event

-- A read through NULL or a freed address, a second lock by the thread that holds it, an unlock of
-- a lock that is free, and a read of a member of the union that was not written.
pub data Fault : Type 0 where
  dangling deadlock not_locked wrong_member : Fault

pub data Outcome (S A : Type 0) : Type 0 where
  ok : A → World S → Outcome S A
  fault : Fault → Outcome S A

-- The run ends without a fault, in a result and a world with a property.
abbrev pub Ends : {S A : Type 0} → (A → World S → Type 0) → Outcome S A → Type 0
Ends P (ok a w) = P a w
Ends P (fault e) = ⊥

abbrev pub M : Type 0 → Type 0 → Type 0
M S A = World S → Outcome S A

abbrev pub pure : {S A : Type 0} → A → M S A
pure a w = ok a w

infixl 5 ◌>>=◌ ◌>>◌
abbrev pub ◌>>=◌ : {S A B : Type 0} → M S A → (A → M S B) → M S B
◌>>=◌ m f w = elim (m w) [ ok a w' ↦ f a w' | fault e ↦ fault e ]

abbrev pub ◌>>◌ : {S A B : Type 0} → M S A → M S B → M S B
m >> k = m >>= λ _. k

abbrev pub update : {A : Type 0} → (ℕ → Option A) → ℕ → Option A → ℕ → Option A
update f p v q = if p == q then v else f q

-- `NR_FAILURE`, as an `int`
abbrev pub nr_failure : ℕ
nr_failure = 2 ^ 32 - 1

abbrev pub is_null : ℕ → Bool
is_null p = p == 0

module _ {S : Type 0} where
  -- The contents of a live object; a pointer that leads nowhere is a fault.
  abbrev pub get_transaction : ℕ → M S Transaction
  get_transaction p w = elim (w.transactions p) [ none ↦ fault dangling | some t ↦ ok t w ]

  abbrev pub get_segment : ℕ → M S Segment
  get_segment p w = elim (w.segments p) [ none ↦ fault dangling | some s ↦ ok s w ]

  abbrev pub get_event : ℕ → M S CustomEvent
  get_event p w = elim (w.events p) [ none ↦ fault dangling | some e ↦ ok e w ]

  abbrev pub put_transaction : ℕ → Option Transaction → M S (Unit {0})
  put_transaction p t w = ok tt (record w { transactions = update w.transactions p t })

  abbrev pub put_segment : ℕ → Option Segment → M S (Unit {0})
  put_segment p s w = ok tt (record w { segments = update w.segments p s })

  abbrev pub put_event : ℕ → Option CustomEvent → M S (Unit {0})
  put_event p e w = ok tt (record w { events = update w.events p e })

  abbrev pub get_app : ℕ → M S App
  get_app p w = elim (w.apps p) [ none ↦ fault dangling | some a ↦ ok a w ]

  abbrev pub put_app : ℕ → Option App → M S (Unit {0})
  put_app p a w = ok tt (record w { apps = update w.apps p a })

  abbrev pub get_applist : M S ℕ
  get_applist w = ok w.applist w

  abbrev pub put_applist : ℕ → M S (Unit {0})
  put_applist l w = ok tt (record w { applist = l })

  abbrev pub get_log_configured : M S Bool
  get_log_configured w = ok w.log_configured w

  abbrev pub put_log_configured : Bool → M S (Unit {0})
  put_log_configured b w = ok tt (record w { log_configured = b })

  -- `nr_malloc` ends the process where memory runs out, and never returns NULL.
  abbrev pub malloc : M S ℕ
  malloc w = ok (suc w.last) (record w { last = suc w.last })

  abbrev pub note : Event → M S (Unit {0})
  note e w = ok tt (record w { trace = e ∷ w.trace })

  abbrev lock_if : Bool → ℕ → Transaction → M S (Unit {0})
  lock_if true p t = λ w. fault deadlock
  lock_if false p t = put_transaction p (some (record t { locked = true })) >> note (acquire p)

  abbrev unlock_if : Bool → ℕ → Transaction → M S (Unit {0})
  unlock_if false p t = λ w. fault not_locked
  unlock_if true p t = put_transaction p (some (record t { locked = false })) >> note (release p)

  -- `nrt_mutex_lock` on the lock of the transaction at an address: NULL is refused, and a second
  -- lock by the same thread would wait for ever.
  abbrev pub mutex_lock : ℕ → M S (Unit {0})
  mutex_lock p = if is_null p then pure tt else do t ← get_transaction p; lock_if t.locked p t

  abbrev pub mutex_unlock : ℕ → M S (Unit {0})
  mutex_unlock p = if is_null p then pure tt else do t ← get_transaction p; unlock_if t.locked p t

  abbrev lock_app_if : Bool → ℕ → App → M S (Unit {0})
  lock_app_if true p a = λ w. fault deadlock
  lock_app_if false p a = put_app p (some (record a { locked = true })) >> note (acquire_app p)

  abbrev unlock_app_if : Bool → ℕ → App → M S (Unit {0})
  unlock_app_if false p a = λ w. fault not_locked
  unlock_app_if true p a = put_app p (some (record a { locked = false })) >> note (release_app p)

  abbrev pub lock_app : ℕ → M S (Unit {0})
  lock_app p = do a ← get_app p; lock_app_if a.locked p a

  abbrev pub unlock_app : ℕ → M S (Unit {0})
  unlock_app p = do a ← get_app p; unlock_app_if a.locked p a

  -- A call of axiom: it may change axiom's state, and it is written down.
  abbrev pub call : (Call → S → ℕ × S) → Call → M S ℕ
  call perform c w =
      let (r, s) = perform c w.axiom_state in
      ok r (record w { axiom_state = s; trace = did c ∷ w.trace })

  abbrev pub call_ : (Call → S → ℕ × S) → Call → M S (Unit {0})
  call_ perform c = do call perform c; pure tt
