-- ===== src/Worker/Lifecycle.antt =====
-- A registry's life: the operations that src/internal/worker/registry.go offers and the polls of
-- src/internal/worker/poller.go, as events in the order in which the registry's lock admits them.
pub mod Durability
pub mod Restart
pub mod Switching
pub mod Workers
use openmodel_gateway.Prelude.{
  ℕ, ◌≡◌, Bool, List, [], ◌∷◌, String, Option, none, some, All, Option-cases, inl, inr, arith,
  subst,
}
use openmodel_gateway.Prelude.Int.{ℤ}
use openmodel_gateway.Worker.Registry.Core.{Registry}
use openmodel_gateway.Worker.Registry.Admin.{
  WorkerRegistration, register, deregister, set_ban, set_verified, set_admission_gate,
  set_loading_timeout,
}
use openmodel_gateway.Worker.Registry.Runtime.{
  Report, inc_inflight, dec_inflight, mark_switching, poll_worker,
}

pub data Event : Type 0 where
  registers : WorkerRegistration → ℕ → Event
  deregisters : String → Event
  bans : String → ℕ → String → Event
  verifies : String → List String → ℕ → Event
  gates : Bool → Event
  bounds_loading : ℕ → Event
  dispatches : String → Event
  completes : String → Event
  switches : String → String → ℕ → Event
  polls : String → ℕ → Option ℤ → Option (Report × (List String × String)) → ℕ → Event

module _ (valid_url : String → Bool) where
  -- `none` is a panic.
  unfoldable pub step : Event → Registry → Option Registry
  step (registers reg now) r = some (register valid_url reg now r).0
  step (deregisters id) r = some (deregister id r).0
  step (bans id until reason) r = some (set_ban id until reason r).0
  step (verifies id models now) r = some (set_verified id models now r).0
  step (gates on) r = some (set_admission_gate on r)
  step (bounds_loading d) r = some (set_loading_timeout d r)
  step (dispatches id) r = some (inc_inflight id r)
  step (completes id) r = some (dec_inflight id r)
  step (switches id target now) r = some (mark_switching id target now r)
  step (polls id threshold until health now) r = poll_worker id threshold until health now r

  unfoldable pub run : List Event → Registry → Option Registry
  run [] r = some r
  run (e ∷ es) r = elim (step e r) [ none ↦ none | some r' ↦ run es r' ]

  -- What every step keeps, every run keeps.
  pub run-keeps {ℓ κ} :
      (P : Registry → Type ℓ) (Q : Event → Type κ)
      → ((e : Event) (r r' : Registry) → Q e → P r → step e r ≡ some r' → P r')
      → (es : List Event) (r r' : Registry) → All Q es
      → P r
      → run es r ≡ some r'
      → P r'
  unfolding run
  run-keeps P Q keep [] r r' q p h = ground arith
  run-keeps P Q keep (e ∷ es) r r' q p h = elim (Option-cases (step e r)) [
    | inl stop ↦ ground arith
    | inr (r1, go) ↦ run-keeps P Q keep es r1 r' q.1 (keep e r r1 q.0 p go) (ground arith)
  ]
