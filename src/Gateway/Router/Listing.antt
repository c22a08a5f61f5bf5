-- ===== src/Gateway/Router/Listing.antt =====
-- src/internal/gateway/router.go: the models that are listed are models that are served.
use openmodel_gateway.Prelude.{
  ℕ, ◌≡◌, refl, Bool, true, false, ◌&&◌, ◌||◌, List, [], ◌∷◌, ◌++◌, String, Dict, ◌==◌, ◌/=◌,
  string_eq, if◌then◌else◌, anyb, filterb, arith, contains,
}
use openmodel_gateway.Worker.State.{Worker, is_banned}
use openmodel_gateway.Gateway.ModelNames.{model_matches}
use openmodel_gateway.Gateway.Router.{
  worker_verified_for, worker_supports_model, is_idle, is_default, is_admitted, is_excluded,
  routable_models,
}
use openmodel_gateway.Gateway.Router.Choice.{can_take}

contains-append :
    (m : String) (xs ys : List String) → contains m (xs ++ ys) ≡ (contains m xs || contains m ys)
contains-append m [] ys = refl
contains-append m (x ∷ xs) ys = ground (arith, contains-append m xs ys)

contains-filterb :
    (p : String → Bool) (m : String) (xs : List String)
    → contains m (filterb p xs) ≡ true
    → (contains m xs && p m) ≡ true
contains-filterb p m [] h = ground arith
contains-filterb p m (x ∷ xs) h = ground (arith, contains-filterb p m xs, string_eq.same_iff x m)

model_matches_self : (m : String) → is_default m ≡ false → model_matches m m ≡ true
unfolding model_matches
model_matches_self m h = ground (arith, string_eq.same_iff m m)

worker_supports_model_lem :
    (w : Worker) (m : String)
    → contains m w.supported_models ≡ true
    → worker_supports_model w m ≡ true
unfolding worker_supports_model
worker_supports_model_lem w m h = go w.supported_models h
  where
    go :
        (xs : List String)
        → contains m xs ≡ true
        → anyb (λ x. x == m || model_matches x m) xs ≡ true
    go [] k = k
    go (x ∷ xs) k = ground (arith, go xs)

routable_model :
    (w : Worker) (gate : Bool) (m : String)
    → contains m (routable_models w gate) ≡ true
    → is_default m ≡ false
    → ((w.loaded_model == m || contains m w.supported_models) && is_admitted gate w m) ≡ true
unfolding routable_models is_admitted
routable_model w gate m h named =
    let own = if w.loaded_model /= "" then w.loaded_model ∷ [] else [] in
    ground (
      arith,
      contains-append m own w.supported_models,
      contains-filterb (λ x. worker_verified_for w x) m (own ++ w.supported_models),
      string_eq.same_iff w.loaded_model m,
    )

-- An idle worker, not banned and not excluded, can take a request for each model that is listed
-- for it, other than the default.
pub routable_models-can_take :
    (gate : Bool) (exclude : Dict String Bool) (now : ℕ) (w : Worker) (m : String)
    → is_idle w.state ≡ true
    → is_banned w now ≡ false
    → is_excluded exclude w ≡ false
    → contains m (routable_models w gate) ≡ true
    → is_default m ≡ false
    → can_take gate exclude m now w ≡ true
unfolding can_take
routable_models-can_take gate exclude now w m i b x h named = ground (
  arith,
  routable_model w gate m h named,
  worker_supports_model_lem w m,
  model_matches_self m named,
  string_eq.same_iff w.loaded_model m,
)
