-- ===== src/Sdk/Api/Clients/Runs.antt =====
-- Runs in a row: what is sound and takes no lock twice ends, and newrelic_create_app is sound.
use c_sdk.Base.{
  ℕ, ◌≡◌, refl, Bool, true, false, not, ◌&&◌, Option, none, some, arith, CStr, inl, inr, Bool-cases,
  if◌then◌else◌,
}
use c_sdk.Sdk.Config.{AppConfig, create_app_config, created, default_config, strxcpy}
use c_sdk.Sdk.Machine.{
  Call, World, Outcome, ok, fault, dangling, deadlock, not_locked, wrong_member, pure, Ends, M,
}
use c_sdk.Sdk.Global.{ensure_init}
use c_sdk.Sdk.App.{create_with, accepts, create_app}
use c_sdk.Sdk.Datastore.{Environment}
use c_sdk.Sdk.Api.Locks.{Free, Safe}
use c_sdk.Sdk.Api.Clients.{Contract, Typed, name_fits}
use c_sdk.Sdk.Api.Clients.Memory
use c_sdk.Sdk.Api.Clients.Memory.{Sound}

-- A world between two calls: no lock is held, and every segment has a union of its type.
pub record IsCoherent {S : Type 0} {perform : Call → S → ℕ × S} (contract : Contract perform)
    (w : World S) : Type 0 where
  pub free : Free w
  pub typed : Typed contract w.axiom_state w.segments

pub both : (a b : Bool) → (a && b) ≡ true → (a ≡ true) × (b ≡ true)
both a b h = ground arith

module _ {S : Type 0} {perform : Call → S → ℕ × S} (contract : Contract perform) (version : CStr)
    (env : Environment) where
  -- A run that faults neither by a lock nor by memory ends.
  pub Safe-Sound :
      {A : Type 0} (m : Outcome S A)
      → Safe m
      → Sound contract m
      → Ends (λ _ w. IsCoherent contract w) m
  Safe-Sound (ok a w) free typed = record { free = free; typed = typed }
  Safe-Sound (fault dangling) s h = h.0 refl
  Safe-Sound (fault deadlock) s h = s.0 refl
  Safe-Sound (fault not_locked) s h = s.1 refl
  Safe-Sound (fault wrong_member) s h = h.1 refl

  pub Sound-drop :
      {A : Type 0} (m : Outcome S A)
      → Sound contract m
      → Sound contract
          (elim m as (λ _. Outcome S (Unit {0})) [ ok a w ↦ pure tt w | fault e ↦ fault e ])
  Sound-drop (ok a w) h = h
  Sound-drop (fault e) h = h

  Sound-bind :
      {A B : Type 0} (m : Outcome S A) (k : A → M S B)
      → Sound contract m
      → ((a : A) (w : World S) → Typed contract w.axiom_state w.segments → Sound contract (k a w))
      → Sound contract (elim m as (λ _. Outcome S B) [ ok a w' ↦ k a w' | fault e ↦ fault e ])
  Sound-bind (ok a w) k h f = f a w h
  Sound-bind (fault e) k h f = h

  -- A name and a key that are accepted, with a name that fits, make a configuration.
  accepted :
      (c : AppConfig)
      → accepts c ≡ true
      → name_fits (some c) ≡ true
      → (g : AppConfig) × (create_app_config (some c.app_name) (some c.license_key) ≡ created g)
  unfolding accepts create_app_config default_config
  accepted c h k = (default_config (strxcpy c.app_name) (strxcpy c.license_key), ground arith)

  pub create_app-Sound :
      (c : Option AppConfig) (l : ℕ) (w : World S)
      → Typed contract w.axiom_state w.segments
      → name_fits c ≡ true
      → Sound contract (create_app perform version c l w)
  unfolding create_app
  create_app-Sound none l w typed h = typed
  create_app-Sound (some c) l w typed h = elim (Bool-cases (accepts c)) [
    | inl taken ↦
        let (g, e) = accepted c taken h in
        rw (taken, e)
          (Sound-bind (ensure_init perform w) _ (Memory.ensure_init-Sound contract version w typed)
            (λ ready w' typed'.
              elim ready
                as (λ b.
                  Sound contract
                    ((if not b then pure 0 else create_with perform version c l (created g)) w')) [
                      | true ↦ Memory.create_with-Sound contract version w' typed' c l g
                      | false ↦ typed'
                    ]))
    | inr refused ↦ rw refused typed
  ]
