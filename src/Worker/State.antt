-- ===== src/Worker/State.antt =====
-- src/internal/worker/state.go: a worker's record and the state derived from its raw reports. A
-- `time.Time` is a number of nanoseconds, 0 for the zero time; the clock's reading is an argument.
use openmodel_gateway.Prelude.{
  ℕ, Bool, true, false, ◌&&◌, ◌||◌, not, List, String, ltb, ◌==◌, nat_eq, string_eq, if◌then◌else◌,
  anyb,
}
use openmodel_gateway.Prelude.Int.{ℤ, is_pos}

pub data WorkerState : Type 0 where
  idle busy mining loading offline : WorkerState

pub record Worker : Type 0 where
  pub id : String
  pub endpoint : String
  pub scheduler_url : String
  pub auth_token : String
  pub state : WorkerState
  pub gpu_state : String
  pub engine_state : String
  pub active_requests : ℤ
  pub loaded_model : String
  pub supported_models : List String
  pub verified_models : List String
  pub verified_at : ℕ
  pub gpu_count : ℤ
  pub miner_address : String
  pub last_poll_time : ℕ
  pub registered_at : ℕ
  pub payout_address : String
  pub self_registered : Bool
  pub banned_until : ℕ
  pub ban_reason : String
  pub in_flight : ℕ
  pub features : List String
  pub seconds_until_change : ℤ
  pub until_change_at : ℕ
  pub receipt_pubkey : String
  pub loading_since : ℕ
  pub switching_to : String
  pub switching_since : ℕ
  pub consecutive_failures : ℕ

abbrev pub is_zero : ℕ → Bool
is_zero t = t == 0

unfoldable pub has_feature : Worker → String → Bool
has_feature w name = anyb (λ f. f == name) w.features

unfoldable pub is_banned : Worker → ℕ → Bool
is_banned w now = not (is_zero w.banned_until) && ltb now w.banned_until

unfoldable pub is_engine_ready : String → Bool
is_engine_ready s = s == "" || s == "running"

unfoldable pub derive_state : String → String → ℤ → WorkerState
unfolding is_engine_ready
derive_state gpu engine active =
    if gpu == "GPU_STATE_AVAILABLE"
    then (if is_engine_ready engine
        then (if is_pos active then busy else idle)
        else (if engine == "loading" || engine == "starting" || engine == "unloading"
            then loading
            else mining))
    else (if gpu == "GPU_STATE_YIELDING"
          || gpu == "GPU_STATE_WINDOW_POST"
          || gpu == "GPU_STATE_WINNING_POST"
        then mining
        else offline)

-- The states that the router sends requests to.
abbrev pub is_routable : WorkerState → Bool
is_routable idle = true
is_routable busy = true
is_routable _ = false
