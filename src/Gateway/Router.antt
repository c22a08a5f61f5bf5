-- ===== src/Gateway/Router.antt =====
-- src/internal/gateway/router.go: the choice of a worker for a model. `float64` is a parameter, and so
-- are the clock's reading and the random number.
pub mod Choice
pub mod Listing
pub mod Preference
use openmodel_gateway.Prelude.{
  ℕ, zero, suc, ◌+◌, ◌-◌, ◌*◌, Bool, true, false, ◌&&◌, ◌||◌, not, List, [], ◌∷◌, ◌++◌, String,
  Dict, lookup, Option, none, some, ◌==◌, ◌/=◌, string_eq, if◌then◌else◌, ltb, anyb, allb, filterb,
  nat_eq,
}
use openmodel_gateway.Prelude.Int.{ℤ, pos, ◌-ℤ◌, ◌*ℤ◌, ltb_ℤ, leb_ℤ, is_pos, wrap_64}
use openmodel_gateway.Worker.State.{
  Worker, WorkerState, idle, busy, mining, loading, offline, is_routable, is_banned,
}
use openmodel_gateway.Worker.Registry.Core.{Registry}
use openmodel_gateway.Worker.Registry.Views.{list}
use openmodel_gateway.Gateway.RateLimit.{Float64}
use openmodel_gateway.Gateway.ModelNames.{model_matches}

unfoldable pub worker_verified_for : Worker → String → Bool
worker_verified_for w model =
    if model == ""
    then false
    else anyb (λ vm. model_matches vm model || model_matches model vm) w.verified_models

unfoldable pub worker_supports_model : Worker → String → Bool
worker_supports_model w model = anyb (λ m. m == model || model_matches m model) w.supported_models

unfoldable pub effective_load : Worker → ℤ
effective_load w =
    if ltb_ℤ w.active_requests (pos w.in_flight) then pos w.in_flight else w.active_requests

-- 60 seconds.
abbrev pub yield_soon_window : ℤ
yield_soon_window = pos 60_000_000_000

unfoldable pub yielding_soon : Worker → ℕ → Bool
yielding_soon w now =
    let left = wrap_64 (w.seconds_until_change *ℤ pos 1_000_000_000) in
    let since = pos now -ℤ pos w.until_change_at in
    if ltb_ℤ w.seconds_until_change (pos 0) || w.until_change_at == 0
    then false
    else ltb_ℤ (wrap_64 (left -ℤ since)) yield_soon_window

abbrev pub gpus_of : Worker → ℤ
gpus_of w = if is_pos w.gpu_count then w.gpu_count else pos 1

abbrev pub is_idle : WorkerState → Bool
is_idle idle = true
is_idle _ = false

abbrev pub is_default : String → Bool
is_default model = model == "" || model == "default"

-- The admission gate lets a worker that registered itself serve only what it was verified for.
unfoldable pub is_admitted : Bool → Worker → String → Bool
is_admitted gate w model =
    if gate && w.self_registered
    then worker_verified_for w (if is_default model then w.loaded_model else model)
    else true

abbrev pub is_excluded : Dict String Bool → Worker → Bool
is_excluded exclude w = elim (lookup w.id exclude) [ none ↦ false | some b ↦ b ]

-- The models that a worker can serve now.
unfoldable pub routable_models : Worker → Bool → List String
routable_models w gate =
    let own = if w.loaded_model /= "" then w.loaded_model ∷ [] else [] in
    let all = own ++ w.supported_models in
    if not gate || not w.self_registered then all else filterb (λ m. worker_verified_for w m) all

module _ (f : Float64) where
  open f use {F, of_int, to_int, add, sub, mul, div, less, at_most}

  pub record Candidate : Type 0 where
    pub worker : Worker
    pub weight : F

  -- The candidates by priority.
  pub record Sorted : Type 0 where
    pub loaded : List Candidate
    pub supported : List Candidate
    pub fallback : List Candidate

  -- 0.05, as one twentieth.
  abbrev yield_soon_penalty : F
  yield_soon_penalty = div (of_int (pos 1)) (of_int (pos 20))

  unfoldable pub compute_weight : Worker → ℕ → F
  compute_weight w now =
      let gpus = of_int (gpus_of w) in
      let load = effective_load w in
      let shared = div gpus (add (of_int (pos 1)) (div (of_int load) gpus)) in
      let weight =
        if is_pos load
        then (if less shared (of_int (pos 1)) then of_int (pos 1) else shared)
        else gpus in
      if yielding_soon w now then mul weight yield_soon_penalty else weight

  -- One round of the loop over the workers.
  unfoldable pub sort_worker : Bool → Dict String Bool → String → ℕ → Worker → Sorted → Sorted
  sort_worker gate exclude model now w s =
      let c : Candidate = record { worker = w; weight = compute_weight w now } in
      if not (is_routable w.state)
      then s
      else if is_banned w now
      then s
      else if not (is_admitted gate w model)
      then s
      else if is_excluded exclude w
      then s
      else if is_default model
      then record s { fallback = s.fallback ++ c ∷ [] }
      else if model_matches w.loaded_model model
      then record s { loaded = s.loaded ++ c ∷ [] }
      else if worker_supports_model w model
      then (if is_idle w.state then record s { supported = s.supported ++ c ∷ [] } else s)
      else s

  unfoldable pub sort_workers : Bool → Dict String Bool → String → ℕ → List Worker → Sorted → Sorted
  sort_workers gate exclude model now [] s = s
  sort_workers gate exclude model now (w ∷ ws) s =
      sort_workers gate exclude model now ws (sort_worker gate exclude model now w s)

  abbrev total_weight : List Candidate → F → F
  total_weight [] sum = sum
  total_weight (c ∷ cs) sum = total_weight cs (add sum c.weight)

  unfoldable pub pick_loop : F → Candidate → List Candidate → Worker
  pick_loop r last [] = last.worker
  pick_loop r last (c ∷ cs) =
      let rest = sub r c.weight in
      let later = pick_loop rest c cs in if at_most rest (of_int (pos 0)) then c.worker else later

  -- `draw` is what `rand.Float64` returns.
  unfoldable pub weighted_pick : F → List Candidate → Option Worker
  weighted_pick draw [] = none
  weighted_pick draw (c ∷ []) = some c.worker
  weighted_pick draw (c ∷ d ∷ cs) =
      some (pick_loop (mul draw (total_weight (c ∷ d ∷ cs) (of_int (pos 0)))) c (c ∷ d ∷ cs))

  unfoldable pub is_overloaded : F → Worker → Bool
  is_overloaded factor w = not (leb_ℤ (effective_load w) (to_int (mul (of_int (gpus_of w)) factor)))

  abbrev pub is_nil : List Candidate → Bool
  is_nil [] = true
  is_nil (c ∷ cs) = false

  unfoldable pub prefers_switch : F → Sorted → Bool
  prefers_switch factor s =
      less (of_int (pos 0)) factor
      && not (is_nil s.loaded)
      && not (is_nil s.supported)
      && allb (λ c. is_overloaded factor c.worker) s.loaded

  unfoldable pub pick_sorted : F → F → String → Sorted → Option Worker
  pick_sorted draw factor model s =
      if prefers_switch factor s
      then weighted_pick draw s.supported
      else if not (is_nil s.loaded)
      then weighted_pick draw s.loaded
      else if not (is_nil s.supported)
      then weighted_pick draw s.supported
      else if is_default model
      then weighted_pick draw s.fallback
      else none

  abbrev pub no_candidates : Sorted
  no_candidates = record { loaded = []; supported = []; fallback = [] }

  -- `none` is `ErrNoWorkerAvailable`; `factor` is 0 where the call gives none.
  unfoldable pub select_worker_for_model :
      F → F → ℕ → Dict String Bool → String → Registry → Option Worker
  select_worker_for_model draw factor now exclude model r =
      pick_sorted draw factor model
        (sort_workers r.admission_gate exclude model now (list r) no_candidates)

  abbrev pub select_worker_excluding : F → ℕ → Dict String Bool → Registry → Option Worker
  select_worker_excluding draw now exclude r =
      select_worker_for_model draw (of_int (pos 0)) now exclude "default" r

  abbrev pub select_worker : F → ℕ → Registry → Option Worker
  select_worker draw now r = select_worker_excluding draw now [] r
