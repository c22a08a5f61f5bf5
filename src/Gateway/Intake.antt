-- ===== src/Gateway/Intake.antt =====
-- src/internal/gateway/gateway.go: the handler of a request, `handleProxy`, from its checks to its deferred
-- calls. The handlers that send it to a worker are an argument, as is the outcome of a wait for one.
pub mod Slot
pub mod Gate
use openmodel_gateway.Prelude.{
  ℕ, suc, ◌+◌, ◌-◌, Bool, true, false, ◌&&◌, ◌||◌, not, List, [], ◌∷◌, String, Dict, lookup, Option,
  none, some, ◌==◌, ◌/=◌, nat_eq, string_eq, if◌then◌else◌, ltb, length, is_some,
}
use openmodel_gateway.Prelude.Int.{ℤ, pos, ◌+ℤ◌, ltb_ℤ, is_pos}
use openmodel_gateway.Worker.State.{Worker}
use openmodel_gateway.Worker.Registry.Core.{Registry}
use openmodel_gateway.Worker.Registry.Runtime.{mark_switching}
use openmodel_gateway.Settlement.Floats.{BigFloat}
use openmodel_gateway.Settlement.Pricing.{Prices, lookup_price}
use openmodel_gateway.Settlement.Balance.{BalanceCache, Market, is_suspended, reserve, adjust}
use openmodel_gateway.Gateway.RateLimit.{Float64, Slots, RateLimiter, allow_rate, acquire, release}
use openmodel_gateway.Gateway.ModelNames.{model_matches}
use openmodel_gateway.Gateway.Session.{SessionAffinity}
use openmodel_gateway.Gateway.Proxy.{
  ApiKeyEntry, authenticate, Served, actual_cost, select_with_affinity,
}
use openmodel_gateway.Gateway.Waiting.{any_worker_supports_model}

-- The body once it is read: `model` is "unknown" where there is none.
pub record Body : Type 0 where
  pub size : ℕ
  pub is_json : Bool
  pub model : String
  pub has_continuation : Bool
  pub session_key : String
  pub max_tokens : ℤ
  pub prompt_tokens : ℤ

-- `body` is `none` where reading it fails.
pub record Incoming : Type 0 where
  pub is_post : Bool
  pub token : Option String
  pub body : Option Body

-- 10 MiB, for a cap that is not positive.
abbrev pub body_cap : ℤ → ℤ
body_cap most = if is_pos most then most else pos 10_485_760

abbrev pub is_unnamed : String → Bool
is_unnamed model = model == "" || model == "default" || model == "unknown"

-- The status that the body is refused with.
unfoldable pub check_body : ℤ → Body → Option ℕ
check_body most body =
    if ltb_ℤ (body_cap most) (pos body.size)
    then some 413
    else if not body.is_json
    then some 400
    else if is_unnamed body.model
    then some 400
    else if body.has_continuation
    then some 400
    else none

module _ (f : Float64) (b : BigFloat) where
  -- What the gateway is set up with.
  pub record Settings : Type 0 where
    pub auth_enabled : Bool
    pub keys : Dict String ApiKeyEntry
    pub max_request_bytes : ℤ
    pub default_max_tokens : Option ℤ
    pub prices : Prices b
    pub market : Market b
    pub factor : f.F

  pub record GatewayState : Type 0 where
    pub draining : Bool
    pub in_flight : ℕ
    pub slots : Option (Slots f)
    pub cache : Option (BalanceCache b)
    pub sessions : SessionAffinity
    pub registry : Registry

  -- What the request meets: the clock's readings, the random number, the keys that the session map's
  -- scan visits, the outcome of a wait, and the handlers.
  pub record Meets : Type 0 where
    pub now : ℕ
    pub draw : f.F
    pub scan : List String
    pub waited : Option Worker
    pub serve : Worker → Served f

  pub data Reply : Type 0 where
    refused : ℕ → Reply
    served : Served f → Reply

  pub record Done : Type 0 where
    pub reply : Reply
    pub state : GatewayState

  -- `EstimateCostUSD`
  unfoldable pub estimate_cost_usd : String → ℤ → Prices b → b.F
  estimate_cost_usd model tokens prices = elim (lookup_price b prices.out model) [
    | none ↦ b.nought
    | some p ↦ b.mul p (b.of_int tokens)
  ]

  abbrev pub tokens_to_reserve : Settings → Body → ℤ
  tokens_to_reserve c body =
      (if is_pos body.max_tokens
        then body.max_tokens
        else (elim c.default_max_tokens as (λ _. ℤ) [ none ↦ body.max_tokens | some d ↦ d ]))
      +ℤ body.prompt_tokens

  -- The cost that stays with the wallet at the end of the request.
  abbrev pub cost_of : Settings → Reply → b.F
  cost_of c (refused status) = b.nought
  cost_of c (served s) = actual_cost f b c.prices s

  module _ (c : Settings) (m : Meets) where
    -- With a worker: the registry hears of a switch, and the handler takes over.
    unfoldable pub send_to : Body → Worker → GatewayState → Done
    send_to body w g = record {
      reply = served (m.serve w);
      state =
          if model_matches w.loaded_model body.model
          then g
          else record g { registry = mark_switching w.id body.model m.now g.registry };
    }

    unfoldable pub route : Body → GatewayState → Done
    route body g =
        let chosen =
          select_with_affinity f m.draw c.factor m.now m.scan body.session_key body.model g.sessions
            g.registry in
        let g' : GatewayState = record g { sessions = chosen.1 } in
        elim chosen.0 as (λ _. Done) [
          | some w ↦ send_to body w g'
          | none ↦
              if not (any_worker_supports_model g.registry body.model)
              then record { reply = refused 404; state = g' }
              else (elim m.waited as (λ _. Done) [
                | none ↦ record { reply = refused 503; state = g' }
                | some w ↦ send_to body w g'
              ])
        ]

    -- The deferred call of `adjustBalance`.
    unfoldable pub settle_reservation : String → b.F → Done → Done
    settle_reservation wallet estimate d = elim d.state.cache as (λ _. Done) [
      | none ↦ d
      | some bc ↦ record d {
        state = record (d.state) { cache = some (adjust b wallet estimate (cost_of c d.reply) bc) };
      }
    ]

    -- The balance gate, for a key with a wallet.
    unfoldable pub reserve_and_route : ApiKeyEntry → Body → BalanceCache b → GatewayState → Done
    reserve_and_route key body bc g =
        let estimate = estimate_cost_usd body.model (tokens_to_reserve c body) c.prices in
        let granted = reserve b c.market key.wallet estimate bc in
        if is_some (is_suspended b key.wallet bc)
        then record { reply = refused 402; state = g }
        else if not granted.0
        then record { reply = refused 402; state = record g { cache = some granted.1 } }
        else settle_reservation key.wallet estimate
            (route body (record g { cache = some granted.1 }))

    unfoldable pub take_body : ApiKeyEntry → Option Body → GatewayState → Done
    take_body key none g = record { reply = refused 400; state = g }
    take_body key (some body) g = elim (check_body c.max_request_bytes body) as (λ _. Done) [
      | some status ↦ record { reply = refused status; state = g }
      | none ↦ elim g.cache as (λ _. Done) [
        | none ↦ route body g
        | some bc ↦ if key.wallet /= "" then reserve_and_route key body bc g else route body g
      ]
    ]

    abbrev with_slots : Slots f → GatewayState → GatewayState
    with_slots s g = record g { slots = some s }

    -- The deferred call of the release function that `Acquire` returned.
    unfoldable pub free_slot : ℕ → Done → Done
    free_slot i d = elim d.state.slots as (λ _. Done) [
      | none ↦ d
      | some s ↦ record d { state = with_slots (release f i s) d.state }
    ]

    -- The limits of the key: the rate, then a slot that is held to the end.
    unfoldable pub take_slot : ApiKeyEntry → Option Body → Slots f → GatewayState → Done
    take_slot key body s g =
        let taken = acquire f key.name m.now s in
        if not taken.0
        then record { reply = refused 429; state = with_slots taken.1 g }
        else free_slot (length s.releases) (take_body key body (with_slots taken.1 g))

    unfoldable pub limit_and_take : ApiKeyEntry → Option Body → GatewayState → Done
    limit_and_take key body g = elim g.slots as (λ _. Done) [
      | none ↦ take_body key body g
      | some s ↦ elim (allow_rate f key.name m.now m.now s.limiter) as (λ _. Done) [
        | none ↦ record { reply = refused 500; state = g }
        | some (allowed, limiter) ↦
            let s' : Slots f = record { limiter = limiter; releases = s.releases } in
            if not allowed
            then record { reply = refused 429; state = with_slots s' g }
            else take_slot key body s' (with_slots s' g)
      ]
    ]

    unfoldable pub with_key : Option ApiKeyEntry → Option Body → GatewayState → Done
    with_key none body g = record { reply = refused 401; state = g }
    with_key (some key) body g = limit_and_take key body g

    unfoldable pub handle_proxy : Incoming → GatewayState → Done
    handle_proxy q g =
        let entered : GatewayState = record g { in_flight = suc g.in_flight } in
        let d = with_key (authenticate c.auth_enabled c.keys q.token) q.body entered in
        if not q.is_post
        then record { reply = refused 405; state = g }
        else if g.draining
        then record { reply = refused 503; state = g }
        else record d { state = record (d.state) { in_flight = d.state.in_flight - 1 } }
