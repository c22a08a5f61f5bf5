-- ===== src/Gateway/Intake/Slot.antt =====
-- src/internal/gateway/gateway.go: a request gives back what it holds, however it ends.
use openmodel_gateway.Prelude.{
  ℕ, suc, ◌≡◌, refl, ap, ◌∙◌, true, false, not, List, [], ◌∷◌, ◌++◌, String, Option, none, some,
  ◌/=◌, nat_eq, string_eq, length, get_elem?, is_some, arith, option-holds, if-holds,
}
use openmodel_gateway.Worker.State.{Worker}
use openmodel_gateway.Settlement.Floats.{BigFloat}
use openmodel_gateway.Settlement.Balance.{BalanceCache, reserve, is_suspended}
use openmodel_gateway.Gateway.RateLimit.{Float64, Slots, allow_rate, acquire, release}
use openmodel_gateway.Gateway.RateLimit.Holding.{open_of, open_of-append, open_of-spend_at}
use openmodel_gateway.Gateway.Proxy.{ApiKeyEntry, authenticate}
use openmodel_gateway.Gateway.Intake.{
  Body, Incoming, Settings, GatewayState, Meets, Done, check_body, send_to, route,
  settle_reservation, reserve_and_route, take_body, free_slot, take_slot, limit_and_take, with_key,
  handle_proxy,
}

module _ (f : Float64) (b : BigFloat) (c : Settings f b) (m : Meets f b) where
  -- What the inner handlers leave as it was.
  record Keeps (g : GatewayState f b) (d : Done f b) : Type 0 where
    in_flight : d.state.in_flight ≡ g.in_flight
    slots : d.state.slots ≡ g.slots

  send_to-Keeps :
      (body : Body) (w : Worker) (g : GatewayState f b) → Keeps g (send_to f b c m body w g)
  unfolding send_to
  send_to-Keeps body w g = record { in_flight = ground arith; slots = ground arith }

  route-Keeps : (body : Body) (g : GatewayState f b) → Keeps g (route f b c m body g)
  unfolding route send_to
  route-Keeps body g = record { in_flight = ground arith; slots = ground arith }

  settle_reservation-Keeps :
      (wallet : String) (estimate : b.F) (g : GatewayState f b) (d : Done f b)
      → Keeps g d
      → Keeps g (settle_reservation f b c m wallet estimate d)
  unfolding settle_reservation
  settle_reservation-Keeps wallet estimate g d h = record {
    in_flight = ground (arith, h.in_flight);
    slots = ground (arith, h.slots);
  }

  reserve_and_route-Keeps :
      (key : ApiKeyEntry) (body : Body) (bc : BalanceCache b) (g : GatewayState f b)
      → Keeps g (reserve_and_route f b c m key body bc g)
  unfolding reserve_and_route
  reserve_and_route-Keeps key body bc g =
      if-holds {A = Done f b} (Keeps g) (is_some (is_suspended b key.wallet bc))
        (λ debt. record { in_flight = refl; slots = refl })
        (λ free.
          if-holds {A = Done f b} (Keeps g) (not (reserve b c.market key.wallet _ bc).0)
            (λ poor. record { in_flight = refl; slots = refl })
            (λ granted.
              let inner : Keeps g (
                  route f b c m body
                    (record g { cache = some (reserve b c.market key.wallet _ bc).1 })) =
                let k =
                  route-Keeps body
                    (record g { cache = some (reserve b c.market key.wallet _ bc).1 }) in
                record { in_flight = k.in_flight; slots = k.slots } in
              settle_reservation-Keeps key.wallet _ g _ inner))

  take_body-Keeps :
      (key : ApiKeyEntry) (body : Option Body) (g : GatewayState f b)
      → Keeps g (take_body f b c m key body g)
  unfolding take_body
  take_body-Keeps key none g = record { in_flight = refl; slots = refl }
  take_body-Keeps key (some body) g =
      option-holds {B = Done f b} (Keeps g) (check_body c.max_request_bytes body)
        (λ fine.
          option-holds {B = Done f b} (Keeps g) g.cache (λ e. route-Keeps body g)
            (λ bc e.
              if-holds {A = Done f b} (Keeps g) (key.wallet /= "")
                (λ paid. reserve_and_route-Keeps key body bc g) (λ free. route-Keeps body g)))
        (λ status e. record { in_flight = refl; slots = refl })

  -- The release functions of a key that were not called yet.
  abbrev pub held : String → Option (Slots f) → ℕ
  held k none = 0
  held k (some s) = open_of k s.releases

  get_last :
      (k : String) (rs : List (Option String))
      → get_elem? (rs ++ some k ∷ []) (length rs) ≡ some (some k)
  get_last k [] = refl
  get_last k (r ∷ rs) = get_last k rs

  get_beyond : (rs : List (Option String)) → get_elem? rs (length rs) ≡ none
  get_beyond [] = refl
  get_beyond (r ∷ rs) = get_beyond rs

  -- A slot that is taken and freed again.
  acquire-release :
      (k name : String) (now : ℕ) (s : Slots f)
      → (acquire f name now s).0 ≡ true
      → open_of k (release f (length s.releases) (acquire f name now s).1).releases
        ≡ open_of k s.releases
  unfolding acquire release
  acquire-release k name now s h = ground (
    arith,
    get_last name s.releases,
    get_beyond s.releases,
    open_of-append k s.releases (some name ∷ []),
    open_of-spend_at f k name (length s.releases) (s.releases ++ some name ∷ []),
    h,
  )

  acquire_refused :
      (k name : String) (now : ℕ) (s : Slots f)
      → (acquire f name now s).0 ≡ false
      → open_of k (acquire f name now s).1.releases ≡ open_of k s.releases
  unfolding acquire
  acquire_refused k name now s h = ground (arith, h)

  -- What a request leaves as it was, once its deferred calls have run.
  pub record IsReturned (g : GatewayState f b) (d : Done f b) : Type 0 where
    pub in_flight : d.state.in_flight ≡ g.in_flight
    pub slots : (k : String) → held k d.state.slots ≡ held k g.slots

  free_slot-held :
      (k : String) (i : ℕ) (s : Slots f) (d : Done f b)
      → d.state.slots ≡ some s
      → held k (free_slot f b c m i d).state.slots ≡ open_of k (release f i s).releases
  unfolding free_slot
  free_slot-held k i s d e = ground (arith, e)

  free_slot-in_flight :
      (i : ℕ) (d : Done f b) → (free_slot f b c m i d).state.in_flight ≡ d.state.in_flight
  unfolding free_slot
  free_slot-in_flight i d = ground arith

  take_slot-IsReturned :
      (key : ApiKeyEntry) (body : Option Body) (s : Slots f) (g : GatewayState f b)
      → g.slots ≡ some s
      → IsReturned g (take_slot f b c m key body s g)
  unfolding take_slot
  take_slot-IsReturned key body s g e =
      let taken = acquire f key.name m.now s in
      let inner = take_body f b c m key body (record g { slots = some taken.1 }) in
      let kept = take_body-Keeps key body (record g { slots = some taken.1 }) in
      if-holds {A = Done f b} (IsReturned g) (not taken.0)
        (λ full. record {
          in_flight = refl;
          slots = λ k. ground (arith, acquire_refused k key.name m.now s, full, e);
        })
        (λ ok. record {
          in_flight = free_slot-in_flight (length s.releases) inner ∙ kept.in_flight;
          slots = λ k. ground (
            arith,
            free_slot-held k (length s.releases) taken.1 inner kept.slots,
            acquire-release k key.name m.now s,
            ok,
            e,
          );
        })

  limit_and_take-IsReturned :
      (key : ApiKeyEntry) (body : Option Body) (g : GatewayState f b)
      → IsReturned g (limit_and_take f b c m key body g)
  unfolding limit_and_take
  limit_and_take-IsReturned key body g =
      option-holds {B = Done f b} (IsReturned g) g.slots
        (λ e.
          let kept = take_body-Keeps key body g in
          record { in_flight = kept.in_flight; slots = λ k. ap (held k) kept.slots })
        (λ s e.
          option-holds {B = Done f b} (IsReturned g) (allow_rate f key.name m.now m.now s.limiter)
            (λ panic. record { in_flight = refl; slots = λ k. refl })
            (λ r ok.
              let s' : Slots f = record { limiter = r.1; releases = s.releases } in
              if-holds {A = Done f b} (IsReturned g) (not r.0)
                (λ limited. record { in_flight = refl; slots = λ k. ground (arith, e) })
                (λ allowed.
                  let rest = take_slot-IsReturned key body s' (record g { slots = some s' }) refl in
                  record {
                    in_flight = rest.in_flight;
                    slots = λ k. ground (arith, rest.slots k, e);
                  })))

  with_key-IsReturned :
      (key : Option ApiKeyEntry) (body : Option Body) (g : GatewayState f b)
      → IsReturned g (with_key f b c m key body g)
  unfolding with_key
  with_key-IsReturned none body g = record { in_flight = refl; slots = λ k. refl }
  with_key-IsReturned (some key) body g = limit_and_take-IsReturned key body g

  -- However a request ends, refused or served: the gateway's count of requests is what it was, and each
  -- key has as many release functions that were not called as before.
  pub handle_proxy-IsReturned :
      (q : Incoming) (g : GatewayState f b) → IsReturned g (handle_proxy f b c m q g)
  unfolding handle_proxy
  handle_proxy-IsReturned q g =
      let entered : GatewayState f b = record g { in_flight = suc g.in_flight } in
      if-holds {A = Done f b} (IsReturned g) (not q.is_post)
        (λ other. record { in_flight = refl; slots = λ k. refl })
        (λ post.
          if-holds {A = Done f b} (IsReturned g) g.draining
            (λ off. record { in_flight = refl; slots = λ k. refl })
            (λ on.
              let inner =
                with_key-IsReturned (authenticate c.auth_enabled c.keys q.token) q.body entered in
              record { in_flight = ground (arith, inner.in_flight); slots = inner.slots }))
