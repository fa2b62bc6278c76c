-- ===== src/Sdk/Tests.antt =====
-- The theorems on the SDK's functions at the worlds of the fixture.
use c_sdk.Base.{
  ◌≡◌, refl, ◌<◌, ◌≤◌, ◌^◌, ◌↔◌, ◌⊎◌, true, none, some, [], ◌∷◌, arith, codes, List, ◌++◌, ℕ, CStr,
}
use c_sdk.Sdk.Stack.{get_stack_trace_as_json, frames, get_stack_trace_as_json-frames}
use c_sdk.Sdk.Fixture.{reply, refuse, txn_one, app_five, world, fresh, key, given, system}
use c_sdk.Sdk.Config.{
  AppConfig, created, overflow, create_app_config, get_transaction_options, array_size,
  default_config, strlen, strxcpy,
}
use c_sdk.Sdk.Config.Laws.{
  IsDeclared, kept_tracer, tracer_of, tracer_of-get_transaction_options, Accepts,
  create_app_config_iff,
}
use c_sdk.Sdk.Machine.{Ends}
use c_sdk.Sdk.Global.Ready.{IsLogged, run_global, init_op, run_global-IsLogged}
use c_sdk.Sdk.App.Create.{IsTaken}
use c_sdk.Sdk.CustomEvent.Record.{
  made_and_recorded, Recorded, record_custom_event-create_custom_event,
}
use c_sdk.Sdk.Error.{notice_error}
use c_sdk.Sdk.Error.Notice.{Reports, Noticed, notice_error-Ends}
use c_sdk.Sdk.Api.{run_ops, start_segment_op, end_segment_op, end_transaction_op}
use c_sdk.Sdk.Api.Locks.{Free, Safe}
use c_sdk.Sdk.Api.Steps.{run_ops-Safe}
use c_sdk.Sdk.Transaction.{start_transaction, end_transaction}
use c_sdk.Sdk.Transaction.Lifecycle.{
  IsReady, Started, start_transaction-Ends, Finished, end_transaction-Ends, Unlocked,
  set_transaction_name-Unlocked,
}
use c_sdk.Sdk.Segment.Start.{IsFree}

-- The transaction of the world can be locked, and so can its application.
free_one : IsFree world 1 txn_one
free_one = record { address = omega arith; live = refl; unlocked = refl }

five_ready : IsReady world 5 app_five
five_ready = record { address = omega arith; live = refl; unlocked = refl }

world-Free : Free world
world-Free = record { transactions = λ q t e. ground arith; apps = λ q a e. ground arith }

-- A segment is started, ended through NULL, and the transaction is ended.
run_ops-Safe_example : Safe (
    run_ops reply [] system
      (start_segment_op 1 none none ∷ end_segment_op 0 (some 10) ∷ end_transaction_op (some 1) ∷ [])
      world)
run_ops-Safe_example =
    run_ops-Safe reply [] system
      (start_segment_op 1 none none ∷ end_segment_op 0 (some 10) ∷ end_transaction_op (some 1) ∷ [])
      world world-Free

end_transaction-Ends_example :
    Ends (Finished reply [] world 1 txn_one free_one) (end_transaction reply [] (some 1) world)
end_transaction-Ends_example = end_transaction-Ends reply [] world 1 txn_one free_one

start_transaction-Ends_example :
    Ends
      (Started reply world 5 app_five five_ready none true)
      (start_transaction reply 5 none true world)
start_transaction-Ends_example =
    start_transaction-Ends reply world 5 app_five five_ready none true (omega arith) (omega arith)

set_transaction_name-Unlocked_example :
    Unlocked reply world 1 txn_one (omega arith) refl (codes "name")
set_transaction_name-Unlocked_example =
    set_transaction_name-Unlocked reply world 1 txn_one (omega arith) refl (codes "name")

given-IsTaken_refused : IsTaken refuse [] world given 0
given-IsTaken_refused = record {
  named = omega arith;
  fits = omega arith;
  licensed = refl;
  initialised = omega arith;
}

run_global-IsLogged_example : Ends (λ _ w'. IsLogged w') (run_global reply (init_op none 0) fresh)
run_global-IsLogged_example =
    run_global-IsLogged reply (init_op none 0) fresh (λ h. absurd (h refl))

record_custom_event-create_custom_event_example :
    Ends
      (Recorded reply world 1 txn_one free_one (codes "Sale"))
      (made_and_recorded reply world 1 txn_one free_one (codes "Sale") world)
record_custom_event-create_custom_event_example =
    record_custom_event-create_custom_event reply world 1 txn_one free_one (codes "Sale")

-- Errors are enabled and recorded, the transaction has none, and axiom finds this one worthy.
replies : Reports reply 50 4 1 1 0 0 0
replies = record {
  enabled = λ s. refl;
  recorded = λ s. refl;
  error = λ s. refl;
  priority_of = λ s. refl;
  judged = λ s. refl;
}

notice_error-Ends_example :
    Ends
      (λ _ w'.
        Noticed reply world 1 txn_one free_one 4 1 1 0 0 0 replies
          (codes "message")
          (codes "Class")
          w')
      (notice_error reply 1 4 (some (codes "message")) (some (codes "Class")) world)
notice_error-Ends_example =
    notice_error-Ends reply world 1 txn_one free_one 4 1 1 0 0 0 replies b'm' b'C' (codes "essage")
      (codes "lass")

given-IsDeclared : IsDeclared given.transaction_tracer
given-IsDeclared = record {
  sql = omega arith;
  threshold = omega arith;
  query_time = omega arith;
  trace_time = omega arith;
}

tracer_of-get_transaction_options_example :
    tracer_of (get_transaction_options (some given)) ≡ kept_tracer given.transaction_tracer
tracer_of-get_transaction_options_example = tracer_of-get_transaction_options given given-IsDeclared

created_app :
    create_app_config (some (codes "app")) (some key) ≡ created (default_config (codes "app") key)
unfolding create_app_config default_config strxcpy
created_app = refl

create_app_config_iff_example :
    (((c : AppConfig) × (create_app_config (some (codes "app")) (some key) ≡ created c)) ↔ (
      Accepts (some (codes "app")) (some key)
      × ((strlen (some (codes "app")) < array_size) ⊎ (2 ^ 31 ≤ strlen (some (codes "app"))))))
    × ((create_app_config (some (codes "app")) (some key) ≡ overflow) ↔ (
        Accepts (some (codes "app")) (some key)
        × (array_size ≤ strlen (some (codes "app")))
        × (strlen (some (codes "app")) < 2 ^ 31)))
create_app_config_iff_example = create_app_config_iff (some (codes "app")) (some key)

-- An array of axiom as the list of its strings, and its JSON as their bytes in a row.
abbrev appended_to : List CStr → ℕ → CStr → List CStr
appended_to lines i line = lines ++ (line ∷ [])

abbrev in_a_row : List CStr → CStr
in_a_row [] = []
in_a_row (line ∷ lines) = line ++ in_a_row lines

get_stack_trace_as_json-frames_example :
    get_stack_trace_as_json [] appended_to in_a_row (frames (codes "main" ∷ codes "start" ∷ []))
    ≡ in_a_row (codes "main" ∷ codes "start" ∷ [])
get_stack_trace_as_json-frames_example =
    get_stack_trace_as_json-frames [] appended_to in_a_row (λ a. a) in_a_row refl (λ a s. refl)
      (λ a. refl) (codes "main" ∷ codes "start" ∷ [])
