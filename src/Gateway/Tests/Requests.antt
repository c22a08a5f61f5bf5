-- ===== src/Gateway/Tests/Requests.antt =====
-- Instances of the theorems on the requests.
use openmodel_gateway.Prelude.{
  ◌≡◌, refl, true, false, ◌&&◌, not, List, [], ◌∷◌, ◌++◌, String, Dict, none, some, is_some, arith,
}
use openmodel_gateway.Prelude.Int.{ℤ, pos, ◌+ℤ◌, ◌-ℤ◌, ◌*ℤ◌, ltb_ℤ, is_pos}
use openmodel_gateway.Worker.State.{Worker, is_banned}
use openmodel_gateway.Worker.Registry.Views.{list}
use openmodel_gateway.Settlement.Floats.{BigFloat, wei_to_float}
use openmodel_gateway.Settlement.Balance.{
  BalanceCache, is_suspended, reserve, available_usd, value_tokens, over_cap,
}
use openmodel_gateway.Settlement.Pricing.{Prices}
use openmodel_gateway.Gateway.Tests.{whole, fleet, worker_with, idle, no_sessions}
use openmodel_gateway.Gateway.Router.Choice.{Chosen, can_take}
use openmodel_gateway.Gateway.Proxy.{
  TokenUsage, ModelInfo, ApiKeyEntry, Asked, Attempt, Answer, failed, answered,
  handle_non_streaming, select_with_affinity, authenticate, deliver,
}
use openmodel_gateway.Gateway.Proxy.Billing.{Ends, IsSettled, handle_non_streaming-IsSettled}
use openmodel_gateway.Gateway.Proxy.Attempts.{handle_non_streaming-is_some}
use openmodel_gateway.Gateway.Proxy.Affinity.{IsFit, select_with_affinity-IsFit}
use openmodel_gateway.Gateway.Waiting.{window_over, tick, wait_loop}
use openmodel_gateway.Gateway.Waiting.Queue.{
  QueueState, Run, stop, go, joins, gives_back, join_queue, empty_queue, IsCounted, Run-IsCounted,
}
use openmodel_gateway.Gateway.Waiting.Release.{is_got, wait_loop-serves}
use openmodel_gateway.Gateway.RateLimit.{
  allow_rate, allow_at, refill, release, new_token_bucket, acquire, entry_for,
}
use openmodel_gateway.Gateway.Session.{get_worker}
use openmodel_gateway.Gateway.ModelNames.{model_matches, base, dashes_to_slash, has_suffix}
use openmodel_gateway.Worker.Models.{after_last_slash}
use openmodel_gateway.Gateway.Router.{
  is_admitted, worker_verified_for, worker_supports_model, select_worker_for_model, sort_workers,
  sort_worker, pick_sorted,
}
use openmodel_gateway.Gateway.Proxy.{sticky_worker}
use openmodel_gateway.Gateway.Router.{prefers_switch, weighted_pick}
use openmodel_gateway.Settlement.Aggregator.{TokenConfig}
use openmodel_gateway.Settlement.Pricing.{lookup_price}
use openmodel_gateway.Gateway.Intake.{
  estimate_cost_usd, Body, Incoming, Settings, GatewayState, Meets, handle_proxy, with_key,
  limit_and_take, take_slot, take_body, reserve_and_route, check_body, free_slot, route, send_to,
  settle_reservation,
}
use openmodel_gateway.Gateway.Intake.Slot.{IsReturned, handle_proxy-IsReturned}
use openmodel_gateway.Gateway.Intake.Gate.{passes, handle_proxy-passes}

abbrev pub exact : BigFloat
exact = record {
  F = ℤ;
  nought = pos 0;
  of_int = λ x. x;
  to_int = λ x. x;
  add = λ x y. x +ℤ y;
  sub = λ x y. x -ℤ y;
  mul = λ x y. x *ℤ y;
  quo = λ x y. x;
  is_positive = is_pos;
  is_negative = λ x. ltb_ℤ x (pos 0);
  less = ltb_ℤ;
  dust = pos 0;
}

abbrev pub prices : Prices exact
prices = record { out = ("m", pos 2) ∷ []; input = []; cache_read = [] }

abbrev key : ApiKeyEntry
key = record { name = "k"; wallet = "w"; id = ""; static = true }

abbrev pub asked : Asked
asked = record { request_id = "r"; started = 4; key = key; path = "/v1"; model = "m" }

abbrev usage : TokenUsage
usage = record {
  prompt_tokens = pos 9;
  completion_tokens = pos 4;
  cached_tokens = pos 10;
  total_tokens = pos 13;
}

abbrev attempt : Answer → Attempt whole
attempt a = record {
  answer = a;
  elapsed = 7;
  registry = fleet;
  draw = pos 1;
  now = 5;
  recovered = none;
}

-- A worker that fails, another that is mining, and one that answers.
abbrev attempts : List (Attempt whole)
attempts =
    attempt failed
    ∷ attempt (answered 503 usage none)
    ∷ attempt (answered 200 usage (some "sig"))
    ∷ []

abbrev limits : ModelInfo
limits = record { context_window = pos 8; max_output = pos 0 }

abbrev pub catalog : Dict String ModelInfo
catalog = ("m", limits) ∷ []

abbrev pub worker_a : Worker
worker_a = worker_with "a" "m" []

handle_non_streaming-IsSettled_example :
    Ends
      (IsSettled whole exact prices asked)
      (handle_non_streaming whole (pos 0) (some catalog) asked attempts worker_a)
handle_non_streaming-IsSettled_example =
    handle_non_streaming-IsSettled whole exact prices asked (pos 0) (some catalog) attempts worker_a
      refl

handle_non_streaming-is_some_example :
    is_some (handle_non_streaming whole (pos 0) (some catalog) asked attempts worker_a) ≡ true
unfolding list
handle_non_streaming-is_some_example =
    handle_non_streaming-is_some whole (pos 0) (some catalog) asked fleet attempts worker_a
      ((refl, refl), ((refl, refl), ((refl, refl), tt))) (omega arith)

select_with_affinity-IsFit_example :
    Chosen
      (IsFit 5 "m")
      (select_with_affinity whole (pos 1) (pos 0) 5 [] "s" "m" no_sessions fleet).0
select_with_affinity-IsFit_example =
    select_with_affinity-IsFit whole 5 "s" "m" no_sessions fleet (pos 1) (pos 0) []

-- Two requests for one place: the second is turned away and gives its place back.
abbrev last_queue : QueueState
last_queue = record { queued = 1; waiting = 1; rejected = 0 }

two_join : Run 1 empty_queue last_queue
unfolding join_queue
two_join = go joins (go joins (go gives_back stop))

Run-IsCounted_example : IsCounted 1 last_queue
Run-IsCounted_example = Run-IsCounted 1 two_join

wait_loop-serves_example :
    is_got (
      wait_loop whole
        (pos 0)
        "m"
        (tick (pos 1) 5 fleet ∷ [] ++ tick (pos 1) 6 fleet ∷ window_over ∷ []))
    ≡ true
unfolding can_take is_admitted worker_verified_for model_matches base dashes_to_slash has_suffix
    after_last_slash is_banned worker_supports_model list
wait_loop-serves_example =
    wait_loop-serves whole (pos 0) "m" (tick (pos 1) 5 fleet ∷ []) (tick (pos 1) 6 fleet)
      (window_over ∷ []) refl refl

abbrev body : Body
body = record {
  size = 20;
  is_json = true;
  model = "m";
  has_continuation = false;
  session_key = "s";
  max_tokens = pos 1;
  prompt_tokens = pos 1;
}

abbrev incoming : Incoming
incoming = record { is_post = true; token = some "t"; body = some body }

abbrev settings : Settings whole exact
settings = record {
  auth_enabled = true;
  keys = ("t", key) ∷ [];
  max_request_bytes = pos 100;
  default_max_tokens = none;
  prices = prices;
  market = record {
    fil_price = pos 1;
    pricer = record { is_stablecoin_depegged = λ t. false; stablecoin_price_usd = λ t. pos 1 };
  };
  factor = pos 0;
}

abbrev usdt : TokenConfig
usdt = record { symbol = "USDT"; address = "0x1"; decimals = 0 }

abbrev cache : BalanceCache exact
cache = record {
  chain_balances = ("w", ("0x1", pos 100) ∷ []) ∷ [];
  pending_spend = [];
  tokens = usdt ∷ [];
  wallets = [];
  min_balance_fil = none;
  max_pending_spend_fil = none;
  suspend_threshold = none;
  suspended = [];
}

abbrev gateway : GatewayState whole exact
gateway = record {
  draining = false;
  in_flight = 0;
  slots = some idle;
  cache = some cache;
  sessions = no_sessions;
  registry = fleet;
}

abbrev meets : Meets whole exact
meets = record {
  now = 5;
  draw = pos 1;
  scan = [];
  waited = none;
  serve = λ w. deliver whole asked w.id 7 200 usage none;
}

handle_proxy-IsReturned_example :
    IsReturned whole exact settings meets gateway
      (handle_proxy whole exact settings meets incoming gateway)
handle_proxy-IsReturned_example =
    handle_proxy-IsReturned whole exact settings meets incoming gateway

handle_proxy-passes_example :
    (true
      && not false
      && passes whole exact settings meets
          (authenticate true (("t", key) ∷ []) (some "t"))
          (some body)
          (some cache))
    ≡ true
unfolding handle_proxy with_key authenticate limit_and_take allow_rate allow_at refill take_slot
    acquire take_body check_body reserve_and_route is_suspended reserve free_slot release
    settle_reservation available_usd value_tokens wei_to_float over_cap route select_with_affinity
    sticky_worker get_worker select_worker_for_model sort_workers sort_worker pick_sorted
    prefers_switch weighted_pick send_to lookup_price list entry_for new_token_bucket ◌-ℤ◌ ◌+ℤ◌ ◌*ℤ◌
    estimate_cost_usd is_banned is_admitted worker_verified_for model_matches base dashes_to_slash
    has_suffix after_last_slash worker_supports_model
handle_proxy-passes_example = handle_proxy-passes whole exact settings meets incoming gateway refl
