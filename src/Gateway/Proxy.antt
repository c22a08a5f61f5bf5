-- ===== src/Gateway/Proxy.antt =====
-- src/internal/gateway/gateway.go: a request that is not streamed, from the choice of its worker to
-- what it is billed. What the workers answer, and what the registry is at each attempt, are arguments.
pub mod Billing
pub mod Attempts
pub mod Affinity
use openmodel_gateway.Prelude.{
  ℕ, Bool, true, false, ◌&&◌, ◌||◌, not, List, [], ◌∷◌, String, Dict, lookup, insert, Option, none,
  some, ◌==◌, nat_eq, string_eq, if◌then◌else◌,
}
use openmodel_gateway.Prelude.Int.{ℤ, pos, ◌+ℤ◌, ltb_ℤ, is_pos}
use openmodel_gateway.Worker.State.{Worker, is_routable, is_banned}
use openmodel_gateway.Worker.Registry.Core.{Registry}
use openmodel_gateway.Worker.Registry.Views.{get}
use openmodel_gateway.Settlement.Floats.{BigFloat}
use openmodel_gateway.Settlement.Pricing.{Prices, cost_breakdown}
use openmodel_gateway.Gateway.RateLimit.{Float64}
use openmodel_gateway.Gateway.ModelNames.{model_matches}
use openmodel_gateway.Gateway.RequestLog.{RequestRecord}
use openmodel_gateway.Gateway.Router.{is_default, select_worker_for_model}
use openmodel_gateway.Gateway.Session.{SessionAffinity, get_worker, put_worker}

pub record TokenUsage : Type 0 where
  pub prompt_tokens : ℤ
  pub completion_tokens : ℤ
  pub cached_tokens : ℤ
  pub total_tokens : ℤ

abbrev pub no_usage : TokenUsage
no_usage = record {
  prompt_tokens = pos 0;
  completion_tokens = pos 0;
  cached_tokens = pos 0;
  total_tokens = pos 0;
}

-- A model's physical limits, from the catalog.
pub record ModelInfo : Type 0 where
  pub context_window : ℤ
  pub max_output : ℤ

-- `if x > bound { x = bound }`
abbrev pub at_most_ℤ : ℤ → ℤ → ℤ
at_most_ℤ bound x = if ltb_ℤ bound x then bound else x

abbrev pub output_limit : ModelInfo → ℤ
output_limit info = if is_pos info.max_output then info.max_output else info.context_window

unfoldable pub clamp_to : ModelInfo → TokenUsage → TokenUsage
clamp_to info u =
    let prompt = at_most_ℤ info.context_window u.prompt_tokens in
    record {
      prompt_tokens = prompt;
      completion_tokens = at_most_ℤ (output_limit info) u.completion_tokens;
      cached_tokens = at_most_ℤ prompt u.cached_tokens;
      total_tokens = at_most_ℤ (info.context_window +ℤ output_limit info) u.total_tokens;
    }

-- The catalog's entry for the model, or its default entry.
unfoldable pub info_for : Dict String ModelInfo → String → Option ModelInfo
info_for catalog model = elim (lookup model catalog) [
  | some i ↦ some i
  | none ↦ lookup "default" catalog
]

-- `catalog` is `none` where there is no settlement.
unfoldable pub clamp_usage : Option (Dict String ModelInfo) → String → TokenUsage → TokenUsage
clamp_usage none model u = u
clamp_usage (some catalog) model u = elim (info_for catalog model) [
  | none ↦ u
  | some info ↦ if is_pos info.context_window then clamp_to info u else u
]

pub record ApiKeyEntry : Type 0 where
  pub name : String
  pub wallet : String
  pub id : String
  pub static : Bool

-- `enabled` is whether any key is known at start; `token` is the hash of what the header holds.
unfoldable pub authenticate : Bool → Dict String ApiKeyEntry → Option String → Option ApiKeyEntry
authenticate false keys token =
    some (record { name = "anonymous"; wallet = ""; id = ""; static = false })
authenticate true keys none = none
authenticate true keys (some token) = lookup token keys

-- The request as its handlers pass it on.
pub record Asked : Type 0 where
  pub request_id : String
  pub started : ℕ
  pub key : ApiKeyEntry
  pub path : String
  pub model : String

-- What `forwardRequest` gives: an error of the transport, or a status and the usage in the body.
pub data Answer : Type 0 where
  failed : Answer
  answered : ℕ → TokenUsage → Option String → Answer

module _ (f : Float64) where
  -- One round of the loop: the answer, and what it meets when it looks for another worker.
  pub record Attempt : Type 0 where
    pub answer : Answer
    pub elapsed : ℕ
    pub registry : Registry
    pub draw : f.F
    pub now : ℕ
    pub recovered : Option Worker

  -- What the client is sent, what is logged, and what is returned for billing.
  pub record Served : Type 0 where
    pub status : ℕ
    pub logged : RequestRecord
    pub settled_model : String
    pub settled_usage : TokenUsage

  abbrev pub log_entry :
      Asked → String → String → ℕ → String → ℕ → TokenUsage → Option String → RequestRecord
  log_entry q worker_id model status reason elapsed u sig = record {
    request_id = q.request_id;
    timestamp = q.started;
    api_key_name = q.key.name;
    wallet = q.key.wallet;
    worker_id = worker_id;
    path = q.path;
    model = model;
    status = status;
    error_reason = reason;
    duration_ms = elapsed;
    prompt_tokens = u.prompt_tokens;
    completion_tokens = u.completion_tokens;
    cached_tokens = u.cached_tokens;
    total_tokens = u.total_tokens;
    resumes = 0;
    receipt_sig = sig;
  }

  -- An answer that is sent to the client; only a 200 is billed.
  unfoldable pub deliver : Asked → String → ℕ → ℕ → TokenUsage → Option String → Served
  deliver q worker_id elapsed status u sig = record {
    status = status;
    logged = log_entry q worker_id q.model status "" elapsed u sig;
    settled_model = q.model;
    settled_usage = if status == 200 then u else no_usage;
  }

  unfoldable pub exhausted : Asked → ℕ → Served
  exhausted q elapsed = record {
    status = 503;
    logged = log_entry q "none" q.model 503 "all_retries_failed" elapsed no_usage none;
    settled_model = "";
    settled_usage = no_usage;
  }

  module _ (factor : f.F) (catalog : Option (Dict String ModelInfo)) (q : Asked) where
    -- The worker for the next attempt and those tried so far, or the end.
    unfoldable pub next_worker : Attempt → Dict String Bool → Option (Worker × Dict String Bool)
    next_worker a tried =
        elim (select_worker_for_model f a.draw factor a.now tried q.model a.registry) [
          | some w ↦ some (w, tried)
          | none ↦ elim a.recovered [ none ↦ none | some w ↦ some (w, []) ]
        ]

    -- The answer that is passed on to the client, if this is one.
    unfoldable pub final_answer : Attempt → Worker → Option Served
    final_answer a target = elim a.answer [
      | failed ↦ none
      | answered status u sig ↦
          if status == 503
          then none
          else some (deliver q target.id a.elapsed status (clamp_usage catalog q.model u) sig)
    ]

    -- `none` while the rounds that are given do not end the loop.
    unfoldable pub attempt_loop : List Attempt → Worker → Dict String Bool → Option Served
    unfolding final_answer
    attempt_loop [] target tried = none
    attempt_loop (a ∷ more) target tried = elim (final_answer a target) [
      | some s ↦ some s
      | none ↦ elim (next_worker a (insert target.id true tried)) [
        | none ↦ some (exhausted q a.elapsed)
        | some (w, seen) ↦ attempt_loop more w seen
      ]
    ]

    unfoldable pub handle_non_streaming : List Attempt → Worker → Option Served
    handle_non_streaming attempts target = attempt_loop attempts target []

  -- What the reservation is corrected to.
  unfoldable pub actual_cost : (b : BigFloat) → Prices b → Served → b.F
  actual_cost b p s =
      let u = s.settled_usage in
      if is_pos u.total_tokens
      then cost_breakdown b p s.settled_model u.prompt_tokens u.completion_tokens u.cached_tokens
          u.total_tokens
      else b.nought

  -- The session's worker if it can still serve the model, or the router's choice, which is recorded.
  unfoldable pub sticky_worker : ℕ → String → String → SessionAffinity → Registry → Option Worker
  sticky_worker now key model s r = elim ((get_worker now key s).0) [
    | none ↦ none
    | some id ↦ elim (get id r) [
      | none ↦ none
      | some w ↦
          if is_routable w.state
            && not (is_banned w now)
            && (is_default model || model_matches w.loaded_model model)
          then some w
          else none
    ]
  ]

  unfoldable pub select_with_affinity :
      f.F
      → f.F
      → ℕ
      → List String
      → String
      → String
      → SessionAffinity
      → Registry
      → Option Worker × SessionAffinity
  select_with_affinity draw factor now scan key model s r =
      let seen = (get_worker now key s).1 in
      elim (sticky_worker now key model s r) [
        | some w ↦ (some w, seen)
        | none ↦ elim (select_worker_for_model f draw factor now [] model r) [
          | none ↦ (none, seen)
          | some w ↦ (some w, put_worker now now scan key w.id seen)
        ]
      ]
