-- ===== src/Examples/Tests.antt =====
-- The theorems on the example programs, at the one that moves segments.
use c_sdk.Base.{
  ℕ, refl, Bool, true, not, is_some, ◌&&◌, ◌==◌, ◌≡◌, suc, none, some, false, [], arith, CStr,
  codes,
}
use c_sdk.Sdk.Config.{create_app_config, default_config, strxcpy}
use c_sdk.Sdk.Machine.{Call, World, Outcome, ok, fault}
use c_sdk.Sdk.Global.{configure_log, init, ensure_init}
use c_sdk.Sdk.App.{create_app, destroy_app, create_with, accepts}
use c_sdk.Sdk.Transaction.{start_web_transaction, set_transaction_timing, end_transaction}
use c_sdk.Sdk.Segment.{
  start_segment, set_segment_parent, set_segment_parent_root, set_segment_timing, end_segment,
  end_matching, end_locked, end_typed, finish,
}
use c_sdk.Sdk.Segment.Create.{has_slash}
use c_sdk.Sdk.Datastore.{Environment}
use c_sdk.Sdk.Api.Locks.{Free, Safe}
use c_sdk.Examples.{
  Variables, change_config, customize_config, setup, named, open_app, example_init, log_and_connect,
}
use c_sdk.Examples.Programs.{ex_segment, main, segment_main, with_setup, opened, nested}
use c_sdk.Examples.Tidy.{main-Leaves}
use c_sdk.Examples.Tidy.Calls.{Leaves, lives}

-- An axiom that answers 1 to every call and counts the calls.
abbrev reply : Call → ℕ → ℕ × ℕ
reply c s = (1, suc s)

abbrev world : World ℕ
world = record {
  axiom_state = 0;
  transactions = λ p. none;
  segments = λ p. none;
  events = λ p. none;
  apps = λ p. none;
  log_configured = false;
  applist = 0;
  last = 100;
  trace = [];
}

world-Free : Free world
world-Free = record { transactions = λ q t e. ground arith; apps = λ q a e. ground arith }

abbrev environment : Environment
environment = record {
  type_of_product = λ p. 0;
  is_localhost = λ h. false;
  hostname = codes "host";
}

abbrev key : CStr
key = codes "0123456789012345678901234567890123456789"

abbrev variables : Variables
variables = record {
  app_name = some (codes "app");
  license_key = some key;
  host = some (codes "collector");
}

main-Leaves_example :
    Safe (main reply (codes "1.3.0") environment 0 variables ex_segment world)
    × Leaves 102
        (λ _. lives 102 world)
        (main reply (codes "1.3.0") environment 0 variables ex_segment world)
main-Leaves_example =
    main-Leaves reply (codes "1.3.0") environment 0 102 variables ex_segment world world-Free refl

-- With this axiom the program ends without a fault, and with it each transaction that it began.
is_ended : Outcome ℕ ℕ → Bool
is_ended (ok r w) = r == 0 && not (is_some (w.transactions 102))
is_ended (fault e) = false

main_ends : is_ended (main reply (codes "1.3.0") environment 0 variables ex_segment world) ≡ true
unfolding segment_main with_setup opened setup named open_app example_init log_and_connect nested
    is_ended start_web_transaction set_transaction_timing start_segment set_segment_parent
    set_segment_parent_root set_segment_timing end_segment end_matching end_locked end_typed finish
    end_transaction destroy_app create_app create_with accepts create_app_config customize_config
    change_config configure_log init ensure_init default_config strxcpy has_slash
main_ends = refl
