-- ===== src/Gateway/Intake/Gate.antt =====
-- src/internal/gateway/gateway.go: what a request must pass before it is served.
use openmodel_gateway.Prelude.{
  ℕ, suc, ◌≡◌, Bool, true, false, ◌&&◌, ◌||◌, not, String, Option, none, some, ◌==◌, nat_eq,
  string_eq, is_some, arith, option-holds, if-holds, length,
}
use openmodel_gateway.Settlement.Floats.{BigFloat}
use openmodel_gateway.Settlement.Balance.{BalanceCache, reserve, is_suspended}
use openmodel_gateway.Gateway.RateLimit.{Float64, Slots, allow_rate, acquire}
use openmodel_gateway.Gateway.Proxy.{ApiKeyEntry, authenticate}
use openmodel_gateway.Gateway.Intake.{
  Body, Incoming, Settings, GatewayState, Meets, refused, served, Done, check_body,
  estimate_cost_usd, tokens_to_reserve, settle_reservation, reserve_and_route, take_body, free_slot,
  take_slot, limit_and_take, with_key, handle_proxy,
}

module _ (f : Float64) (b : BigFloat) (c : Settings f b) (m : Meets f b) where
  abbrev pub is_served : Done f b → Bool
  is_served d = elim (d.reply) as (λ _. Bool) [ refused status ↦ false | served s ↦ true ]

  -- A wallet that is not suspended for its debt and can pay what is reserved, where there is a settlement.
  abbrev pub can_pay : ApiKeyEntry → Body → Option (BalanceCache b) → Bool
  can_pay key body none = true
  can_pay key body (some bc) =
      key.wallet == ""
      || (not (is_some (is_suspended b key.wallet bc))
          && (reserve b c.market key.wallet
              (estimate_cost_usd f b body.model (tokens_to_reserve f b c body) c.prices) bc).0)

  abbrev pub passes : Option ApiKeyEntry → Option Body → Option (BalanceCache b) → Bool
  passes none body cache = false
  passes (some key) none cache = false
  passes (some key) (some body) cache =
      not (is_some (check_body c.max_request_bytes body)) && can_pay key body cache

  settle_reservation-served :
      (wallet : String) (estimate : b.F) (d : Done f b)
      → is_served (settle_reservation f b c m wallet estimate d) ≡ is_served d
  unfolding settle_reservation
  settle_reservation-served wallet estimate d = ground arith

  take_body-served :
      (key : ApiKeyEntry) (body : Option Body) (g : GatewayState f b)
      → is_served (take_body f b c m key body g) ≡ true
      → passes (some key) body g.cache ≡ true
  unfolding take_body reserve_and_route
  take_body-served key none g h = ground (arith, h)
  take_body-served key (some body) g h = ground (arith, h)

  free_slot-served : (i : ℕ) (d : Done f b) → is_served (free_slot f b c m i d) ≡ is_served d
  unfolding free_slot
  free_slot-served i d = ground arith

  take_slot-served :
      (key : ApiKeyEntry) (body : Option Body) (s : Slots f) (g : GatewayState f b)
      → is_served (take_slot f b c m key body s g) ≡ true
      → passes (some key) body g.cache ≡ true
  unfolding take_slot
  take_slot-served key body s g h =
      let taken = acquire f key.name m.now s in
      let inner = take_body f b c m key body (record g { slots = some taken.1 }) in
      ground (
        arith,
        free_slot-served (length s.releases) inner,
        take_body-served key body (record g { slots = some taken.1 }),
        h,
      )

  limit_and_take-served :
      (key : ApiKeyEntry) (body : Option Body) (g : GatewayState f b)
      → is_served (limit_and_take f b c m key body g) ≡ true
      → passes (some key) body g.cache ≡ true
  unfolding limit_and_take
  limit_and_take-served key body g =
      option-holds {B = Done f b} (λ d. is_served d ≡ true → passes (some key) body g.cache ≡ true)
        g.slots (λ e h. take_body-served key body g h)
        (λ s e.
          option-holds {B = Done f b}
            (λ d. is_served d ≡ true → passes (some key) body g.cache ≡ true)
            (allow_rate f key.name m.now m.now s.limiter) (λ panic h. ground (arith, h))
            (λ r ok.
              let s' : Slots f = record { limiter = r.1; releases = s.releases } in
              if-holds {A = Done f b}
                (λ d. is_served d ≡ true → passes (some key) body g.cache ≡ true) (not r.0)
                (λ limited h. ground (arith, h))
                (λ allowed h. take_slot-served key body s' (record g { slots = some s' }) h)))

  with_key-served :
      (key : Option ApiKeyEntry) (body : Option Body) (g : GatewayState f b)
      → is_served (with_key f b c m key body g) ≡ true
      → passes key body g.cache ≡ true
  unfolding with_key
  with_key-served none body g h = ground (arith, h)
  with_key-served (some key) body g h = limit_and_take-served key body g h

  -- A request that is served was a POST, came before the drain, with a known key where keys are asked for, with a body
  -- that passes its checks, and from a wallet, if the key has one and there is a settlement, that is
  -- not suspended and was granted the reservation.
  pub handle_proxy-passes :
      (q : Incoming) (g : GatewayState f b)
      → is_served (handle_proxy f b c m q g) ≡ true
      → (q.is_post
          && not g.draining
          && passes (authenticate c.auth_enabled c.keys q.token) q.body g.cache)
        ≡ true
  unfolding handle_proxy
  handle_proxy-passes q g h =
      let entered : GatewayState f b = record g { in_flight = suc g.in_flight } in
      ground (arith, with_key-served (authenticate c.auth_enabled c.keys q.token) q.body entered, h)
