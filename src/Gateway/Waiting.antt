-- ===== src/Gateway/Waiting.antt =====
-- src/internal/gateway/gateway.go: the queue of requests that wait for a worker, and what they are told.
-- What a waiting request sees, tick by tick, is an argument.
pub mod Queue
pub mod Release
use openmodel_gateway.Prelude.{
  ℕ, Bool, true, false, ◌&&◌, ◌||◌, not, List, [], ◌∷◌, String, Option, none, some, ◌==◌, nat_eq,
  string_eq, if◌then◌else◌, ltb, anyb,
}
use openmodel_gateway.Prelude.Int.{ℤ, pos, negsuc, ◌+ℤ◌, ◌-ℤ◌, ◌*ℤ◌, ltb_ℤ, is_pos, wrap_64}
use openmodel_gateway.Worker.State.{Worker, WorkerState, mining, idle, busy, loading, offline}
use openmodel_gateway.Worker.Registry.Core.{Registry}
use openmodel_gateway.Worker.Registry.Views.{list}
use openmodel_gateway.Gateway.RateLimit.{Float64}
use openmodel_gateway.Gateway.ModelNames.{model_matches}
use openmodel_gateway.Gateway.Router.{is_default, worker_supports_model, select_worker_for_model}

abbrev pub is_mining : WorkerState → Bool
is_mining mining = true
is_mining _ = false

abbrev pub knows_model : String → Worker → Bool
knows_model model w = model_matches w.loaded_model model || worker_supports_model w model

unfoldable pub any_worker_supports_model : Registry → String → Bool
any_worker_supports_model r model =
    if is_default model then true else anyb (λ w. knows_model model w) (list r)

-- A mining worker that says when it will be back.
abbrev pub has_estimate : Worker → Bool
has_estimate w =
    is_mining w.state && not (ltb_ℤ w.seconds_until_change (pos 0)) && not (w.until_change_at == 0)

abbrev at_least_0 : ℤ → ℤ
at_least_0 x = if ltb_ℤ x (pos 0) then pos 0 else x

abbrev pub remaining : ℕ → Worker → ℤ
remaining now w = at_least_0 (
    wrap_64
      (wrap_64 (w.seconds_until_change *ℤ pos 1_000_000_000) -ℤ (pos now -ℤ pos w.until_change_at)))

unfoldable pub recovery_loop : ℕ → String → List Worker → ℤ → ℤ
recovery_loop now model [] best = best
recovery_loop now model (w ∷ ws) best =
    let rem = remaining now w in
    let better = if is_pos best && not (ltb_ℤ rem best) then best else rem in
    recovery_loop now model ws
      (if has_estimate w && (is_default model || knows_model model w) then better else best)

unfoldable pub min_mining_recovery : ℕ → String → Registry → ℤ
min_mining_recovery now model r = recovery_loop now model (list r) (pos 0)

-- What a waiting request sees: its client is gone, its window is over, or a tick of the clock.
pub data Tick (f : Float64) : Type 0 where
  client_gone : Tick f
  window_over : Tick f
  tick : f.F → ℕ → Registry → Tick f

pub data Waited : Type 0 where
  got : Worker → Waited
  queue_full : Waited
  no_worker_available : Waited
  cancelled : Waited

-- One window of the loop of `blockForWorker`: when it begins, whether the queue has room, what is seen.
pub record Window (f : Float64) : Type 0 where
  pub now : ℕ
  pub has_room : Bool
  pub ticks : List (Tick f)

module _ (f : Float64) (factor : f.F) (model : String) where
  -- `none` while the ticks that are given do not end the wait.
  unfoldable pub wait_loop : List (Tick f) → Option Waited
  wait_loop [] = none
  wait_loop (client_gone ∷ ts) = some cancelled
  wait_loop (window_over ∷ ts) = some no_worker_available
  wait_loop (tick draw now r ∷ ts) = elim (select_worker_for_model f draw factor now [] model r) [
    | some w ↦ some (got w)
    | none ↦ wait_loop ts
  ]

  unfoldable pub wait_for_worker : Window f → Option Waited
  wait_for_worker w = if w.has_room then wait_loop w.ticks else some queue_full

  unfoldable pub block_loop : ℕ → List (Window f) → Option Waited
  block_loop deadline [] = none
  block_loop deadline (w ∷ ws) =
      if ltb w.now deadline
      then (elim (wait_for_worker w) as (λ _. Option Waited) [
        | none ↦ none
        | some (got v) ↦ some (got v)
        | some queue_full ↦ some queue_full
        | some cancelled ↦ some cancelled
        | some no_worker_available ↦ block_loop deadline ws
      ])
      else some no_worker_available

  unfoldable pub block_for_worker : ℕ → ℕ → Registry → List (Window f) → Option Waited
  block_for_worker now deadline r windows =
      let est = min_mining_recovery now model r in
      if is_pos est && ltb_ℤ (pos deadline) (pos now +ℤ est)
      then some no_worker_available
      else block_loop deadline windows

-- Seconds, or -1 while none is known.
unfoldable pub shortest_wait : (f : Float64) → ℕ → List Worker → ℤ → ℤ
shortest_wait f now [] best = best
shortest_wait f now (w ∷ ws) best =
    let rem = at_least_0 (w.seconds_until_change -ℤ f.to_int (f.seconds now w.until_change_at)) in
    shortest_wait f now ws
      (if has_estimate w && (ltb_ℤ best (pos 0) || ltb_ℤ rem best) then rem else best)

-- The seconds of `Retry-After`.
unfoldable pub retry_after_estimate : Float64 → ℕ → Registry → ℤ
retry_after_estimate f now r =
    let best = shortest_wait f now (list r) (negsuc 0) in
    if ltb_ℤ best (pos 0)
    then pos 30
    else if ltb_ℤ best (pos 5)
    then pos 5
    else if ltb_ℤ (pos 120) best
    then pos 120
    else best
