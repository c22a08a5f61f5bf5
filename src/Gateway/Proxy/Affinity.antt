-- ===== src/Gateway/Proxy/Affinity.antt =====
-- src/internal/gateway/gateway.go: a session's worker is one that could be routed to.
use openmodel_gateway.Prelude.{
  ℕ, ◌≡◌, refl, Bool, true, false, ◌&&◌, ◌||◌, not, List, [], String, Option, none, some, string_eq,
  if◌then◌else◌, option-holds, arith,
}
use openmodel_gateway.Worker.State.{Worker, is_routable, is_banned}
use openmodel_gateway.Worker.Registry.Core.{Registry}
use openmodel_gateway.Worker.Registry.Views.{get}
use openmodel_gateway.Gateway.RateLimit.{Float64}
use openmodel_gateway.Gateway.ModelNames.{model_matches}
use openmodel_gateway.Gateway.Router.{is_default, select_worker_for_model}
use openmodel_gateway.Gateway.Router.Choice.{
  Chosen, can_take, fits_model, Chosen-at, select_worker_for_model-Chosen, Chosen-at,
}
use openmodel_gateway.Gateway.Session.{SessionAffinity, get_worker}
use openmodel_gateway.Gateway.Proxy.{sticky_worker, select_with_affinity}

-- Idle or busy, not banned, and with the model or able to load it.
abbrev pub IsFit : ℕ → String → Worker → Type 0
IsFit now model w = (is_routable w.state && not (is_banned w now) && fits_model model w) ≡ true

Chosen-map {ℓ κ} :
    {P : Worker → Type ℓ} {Q : Worker → Type κ} (f : (w : Worker) → P w → Q w) (o : Option Worker)
    → Chosen P o
    → Chosen Q o
Chosen-map f none h = tt
Chosen-map f (some w) h = f w h

Chosen-if {ℓ} :
    (P : Worker → Type ℓ) (c : Bool) (w : Worker)
    → (c ≡ true → P w)
    → Chosen P (if c then some w else none)
Chosen-if P true w h = h refl
Chosen-if P false w h = tt

module _ (f : Float64) (now : ℕ) (key model : String) (s : SessionAffinity) (r : Registry) where
  sticky_worker-IsFit : Chosen (IsFit now model) (sticky_worker f now key model s r)
  unfolding sticky_worker
  sticky_worker-IsFit =
      option-holds {B = Option Worker} (Chosen (IsFit now model)) ((get_worker now key s).0)
        (λ e. tt)
        (λ id e.
          option-holds {B = Option Worker} (Chosen (IsFit now model)) (get id r) (λ e. tt)
            (λ w e.
              Chosen-if (IsFit now model)
                (is_routable w.state
                  && not (is_banned w now)
                  && (is_default model || model_matches w.loaded_model model))
                w (λ yes. ground arith)))

  can_take-IsFit :
      (w : Worker) → can_take r.admission_gate [] model now w ≡ true → IsFit now model w
  unfolding can_take
  can_take-IsFit w h = ground arith

  select-IsFit :
      (draw factor : f.F)
      → Chosen (IsFit now model) (select_worker_for_model f draw factor now [] model r)
  select-IsFit draw factor =
      Chosen-map (λ w h. can_take-IsFit w h.1)
        (select_worker_for_model f draw factor now [] model r)
        (select_worker_for_model-Chosen f draw factor now [] model r)

  -- The worker that a request with a session is sent to, if any, is idle or busy, not banned, and has the model or is
  -- idle and lists it, whether it is the session's or the router's; the internal default model asks for neither.
  pub select_with_affinity-IsFit :
      (draw factor : f.F) (scan : List String)
      → Chosen (IsFit now model) (select_with_affinity f draw factor now scan key model s r).0
  unfolding select_with_affinity
  select_with_affinity-IsFit draw factor scan =
      option-holds {B = Option Worker × SessionAffinity} (λ t. Chosen (IsFit now model) t.0)
        (sticky_worker f now key model s r)
        (λ e.
          option-holds {B = Option Worker × SessionAffinity} (λ t. Chosen (IsFit now model) t.0)
            (select_worker_for_model f draw factor now [] model r) (λ e. tt)
            (λ w e.
              Chosen-at (IsFit now model) (select_worker_for_model f draw factor now [] model r) w
                (select-IsFit draw factor) e))
        (λ w e.
          Chosen-at (IsFit now model) (sticky_worker f now key model s r) w sticky_worker-IsFit e)
