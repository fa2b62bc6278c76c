-- ===== src/Sdk/Api/Threads.antt =====
-- Threads: what they do, one event at a time, newest first. A mutex is taken only where no thread has
-- it; nothing else is assumed of the schedule.
pub mod Races
use c_sdk.Base.{
  ℕ, ◌≡◌, ◌≢◌, ◌∙◌, Bool, true, false, not, ◌&&◌, Option, none, some, List, [], ◌∷◌, ◌==◌, arith,
  ◌⊎◌, if◌then◌else◌, is_some,
}
use c_sdk.Sdk.Machine.{
  Call, Event, acquire, release, acquire_app, release_app, acquire_static, release_static, did,
}
use c_sdk.Sdk.Api.Discipline.{held, disciplined, subject}

-- The events of one thread.
unfoldable pub of_thread : ℕ → List (ℕ × Event) → List Event
of_thread i [] = []
of_thread i ((j, e) ∷ h) = if i == j then e ∷ of_thread i h else of_thread i h

-- The thread that has the lock of a transaction.
unfoldable pub holder : ℕ → List (ℕ × Event) → Option ℕ
holder p [] = none
holder p ((i, acquire q) ∷ h) = if p == q then some i else holder p h
holder p ((i, release q) ∷ h) = if p == q then none else holder p h
holder p ((i, e) ∷ h) = holder p h

-- What nrt_mutex_lock allows: a thread takes a lock only where no thread has it.
unfoldable pub lawful : List (ℕ × Event) → Bool
unfolding holder
lawful [] = true
lawful ((i, acquire p) ∷ h) = not (is_some (holder p h)) && lawful h
lawful ((i, e) ∷ h) = lawful h

-- A thread gives a lock back, and later another takes it.
abbrev pub Released : ℕ → ℕ → List (ℕ × Event) → Type 0
Released i p [] = ⊥
Released i p ((k, e) ∷ h) = ((k ≡ i) × (e ≡ release p)) ⊎ Released i p h

abbrev pub Handed : ℕ → ℕ → ℕ → List (ℕ × Event) → Type 0
Handed i j p [] = ⊥
Handed i j p ((k, e) ∷ h) = ((k ≡ j) × (e ≡ acquire p) × Released i p h) ⊎ Handed i j p h

module _ (owner home : ℕ → ℕ) where
  abbrev AllDisciplined : List (ℕ × Event) → Type 0
  AllDisciplined h = (i : ℕ) → disciplined owner home (of_thread i h) ≡ true

  -- What a thread holds by its own account it has, and the other way round.
  record Agrees (h : List (ℕ × Event)) : Type 0 where
    has : (i p : ℕ) → held (of_thread i h) ≡ p → p ≢ 0 → holder p h ≡ some i
    holds : (i p : ℕ) → holder p h ≡ some i → (held (of_thread i h) ≡ p) × (p ≢ 0)

  before :
      (i j : ℕ) (e : Event) (h : List (ℕ × Event))
      → disciplined owner home (of_thread i ((j, e) ∷ h)) ≡ true
      → disciplined owner home (of_thread i h) ≡ true
  unfolding of_thread
  before i j (acquire p) h d = ground arith
  before i j (release p) h d = ground arith
  before i j (did c) h d = ground arith
  before i j (acquire_app p) h d = ground arith
  before i j (release_app p) h d = ground arith
  before i j acquire_static h d = ground arith
  before i j release_static h d = ground arith
