-- ===== src/Sdk/Api/Threads/Races.antt =====
-- Threads that keep the discipline of the locks do not race.
use c_sdk.Base.{ℕ, ◌≡◌, List, ◌++◌}
use c_sdk.Sdk.Machine.{Event, Outcome, Ends}
use c_sdk.Sdk.Api.Threads.{of_thread}

-- What a thread has done in a history is the beginning of what its program does.
abbrev pub Begins : {S : Type 0} → ℕ → List (ℕ × Event) → Outcome S (Unit {0}) → Type 0
Begins k h m = Ends (λ _ w'. (rest : List Event) × (w'.trace ≡ rest ++ of_thread k h)) m
