-- ===== src/Gateway/Waiting/Release.antt =====
-- src/internal/gateway/gateway.go: who waits is released, and how long a client is told to wait.
use openmodel_gateway.Prelude.{
  ℕ, ◌≡◌, Bool, true, false, List, [], ◌∷◌, ◌++◌, String, Option, none, some, anyb, allb, arith,
}
use openmodel_gateway.Prelude.Int.{pos, ◌≤ℤ◌}
use openmodel_gateway.Worker.Registry.Core.{Registry}
use openmodel_gateway.Worker.Registry.Views.{list}
use openmodel_gateway.Gateway.RateLimit.{Float64}
use openmodel_gateway.Gateway.Router.{select_worker_for_model}
use openmodel_gateway.Gateway.Router.Choice.{can_take, select_worker_for_model-is_some}
use openmodel_gateway.Gateway.Waiting.{
  Tick, client_gone, window_over, tick, Waited, got, wait_loop, retry_after_estimate,
}

-- A tick at which some worker of the registry can take a request for the model.
abbrev pub serves : (f : Float64) → String → Tick f → Bool
serves f model client_gone = false
serves f model window_over = false
serves f model (tick draw now r) = anyb (λ w. can_take r.admission_gate [] model now w) (list r)

abbrev pub is_tick : (f : Float64) → Tick f → Bool
is_tick f client_gone = false
is_tick f window_over = false
is_tick f (tick draw now r) = true

abbrev pub is_got : Option Waited → Bool
is_got none = false
is_got (some (got w)) = true
is_got (some _) = false

module _ (f : Float64) (factor : f.F) (model : String) where
  -- A request that waits is released with a worker, at the latest at a tick at which one can take it, if
  -- its client stays and its window is not over before.
  pub wait_loop-serves :
      (before : List (Tick f)) (t : Tick f) (after : List (Tick f))
      → allb (λ x. is_tick f x) before ≡ true
      → serves f model t ≡ true
      → is_got (wait_loop f factor model (before ++ t ∷ after)) ≡ true
  unfolding wait_loop
  wait_loop-serves [] client_gone after all h = ground arith
  wait_loop-serves [] window_over after all h = ground arith
  wait_loop-serves [] (tick draw now r) after all h = ground (
    arith,
    select_worker_for_model-is_some f draw factor now [] model r,
    select_worker_for_model f draw factor now [] model r,
  )
  wait_loop-serves (client_gone ∷ ts) t after all h = ground arith
  wait_loop-serves (window_over ∷ ts) t after all h = ground arith
  wait_loop-serves (tick draw now r ∷ ts) t after all h = ground (
    arith,
    wait_loop-serves ts t after all h,
    select_worker_for_model f draw factor now [] model r,
  )

-- A client that is told when to try again is told between 5 and 120 seconds.
pub retry_after_estimate_bounds :
    (f : Float64) (now : ℕ) (r : Registry)
    → (pos 5 ≤ℤ retry_after_estimate f now r) × (retry_after_estimate f now r ≤ℤ pos 120)
unfolding retry_after_estimate
retry_after_estimate_bounds f now r = (ground arith, ground arith)
