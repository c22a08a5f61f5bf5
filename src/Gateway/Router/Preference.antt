-- ===== src/Gateway/Router/Preference.antt =====
-- src/internal/gateway/router.go: a worker that has the model comes before one that must load it, and
-- the models that are listed are models that are served.
use openmodel_gateway.Prelude.{
  ℕ, ◌⊎◌, inl, inr, All-map, ◌≡◌, refl, Bool, true, false, ◌&&◌, ◌||◌, not, List, [], ◌∷◌, ◌++◌,
  String, Dict, Option, string_eq, if-holds, allb, nat_eq, arith, All, All-append,
}
use openmodel_gateway.Prelude.Int.{pos}
use openmodel_gateway.Worker.State.{Worker}
use openmodel_gateway.Worker.Registry.Core.{Registry}
use openmodel_gateway.Worker.Registry.Views.{list}
use openmodel_gateway.Gateway.RateLimit.{Float64}
use openmodel_gateway.Gateway.ModelNames.{model_matches}
use openmodel_gateway.Gateway.Router.{
  is_idle, is_default, Candidate, Sorted, sort_worker, sort_workers, is_overloaded, is_nil,
  prefers_switch, pick_sorted, no_candidates, select_worker_for_model,
}
use openmodel_gateway.Gateway.Router.Choice.{
  can_take, Chosen, weighted_pick-Chosen, candidate, sort_worker-holds,
}

module _ (f : Float64) (gate : Bool) (exclude : Dict String Bool) (model : String) (now : ℕ)
    (named : is_default model ≡ false) where
  abbrev has_it : Worker → Bool
  has_it w = model_matches w.loaded_model model

  -- The loaded ones have the model, the supported ones are idle.
  record Ranked (s : Sorted f) : Type 0 where
    loaded : All (λ c. has_it c.worker ≡ true) s.loaded
    supported : All (λ c. is_idle c.worker.state ≡ true) s.supported

  sort_worker-Ranked :
      (w : Worker) (s : Sorted f) → Ranked s → Ranked (sort_worker f gate exclude model now w s)
  sort_worker-Ranked w s h =
      sort_worker-holds f gate exclude model now Ranked w s (λ no_one. h)
        (λ t d. record { loaded = h.loaded; supported = h.supported })
        (λ t d m. record {
          loaded =
              All-append (λ c. has_it c.worker ≡ true) s.loaded
                (candidate f gate exclude model now w ∷ []) h.loaded (m, tt);
          supported = h.supported;
        })
        (λ t d m i. record {
          loaded = h.loaded;
          supported =
              All-append (λ c. is_idle c.worker.state ≡ true) s.supported
                (candidate f gate exclude model now w ∷ []) h.supported (i, tt);
        })

  sort_workers-Ranked :
      (ws : List Worker) (s : Sorted f)
      → Ranked s
      → Ranked (sort_workers f gate exclude model now ws s)
  unfolding sort_workers
  sort_workers-Ranked [] s h = h
  sort_workers-Ranked (w ∷ ws) s h =
      sort_workers-Ranked ws (sort_worker f gate exclude model now w s) (sort_worker-Ranked w s h)

  module _ (p : Worker → Bool) where
    abbrev all_loaded : Sorted f → Bool
    all_loaded s = allb (λ c. p c.worker) s.loaded

    -- Of the workers that can take the request and have the model.
    abbrev if_loaded : Worker → Bool
    if_loaded w = not (can_take gate exclude model now w && has_it w) || p w

    allb_end :
        (cs : List (Candidate f)) (c : Candidate f)
        → allb (λ x. p x.worker) (cs ++ c ∷ []) ≡ (allb (λ x. p x.worker) cs && p c.worker)
    allb_end [] c = ground arith
    allb_end (x ∷ cs) c = ground (arith, allb_end cs c)

    sort_worker-all_loaded :
        (w : Worker) (s : Sorted f)
        → all_loaded (sort_worker f gate exclude model now w s) ≡ (all_loaded s && if_loaded w)
    sort_worker-all_loaded w s =
        sort_worker-holds f gate exclude model now
          (λ t. all_loaded t ≡ (all_loaded s && if_loaded w)) w s (λ no_one. ground arith)
          (λ t d. ground arith)
          (λ t d m. ground (arith, allb_end s.loaded (candidate f gate exclude model now w)))
          (λ t d m i. ground arith)

    sort_workers-all_loaded :
        (ws : List Worker) (s : Sorted f)
        → all_loaded (sort_workers f gate exclude model now ws s)
          ≡ (all_loaded s && allb if_loaded ws)
    unfolding sort_workers
    sort_workers-all_loaded [] s = ground arith
    sort_workers-all_loaded (w ∷ ws) s = ground (
      arith,
      sort_worker-all_loaded w s,
      sort_workers-all_loaded ws (sort_worker f gate exclude model now w s),
    )

  module _ (draw factor : f.F) where
    abbrev overloads : Worker → Bool
    overloads w = f.less (f.of_int (pos 0)) factor && is_overloaded f factor w

    -- The worker has the model, or it is idle while those that have it are overloaded.
    abbrev pub IsJustified : List Worker → Worker → Type 0
    IsJustified ws w =
        (has_it w ≡ true)
        ⊎ ((is_idle w.state ≡ true)
            × (allb (λ v. not (can_take gate exclude model now v && has_it v) || overloads v) ws
                ≡ true))

    all_overloaded :
        (cs : List (Candidate f))
        → f.less (f.of_int (pos 0)) factor ≡ true
        → allb (λ c. is_overloaded f factor c.worker) cs ≡ true
        → allb (λ c. overloads c.worker) cs ≡ true
    all_overloaded [] h k = refl
    all_overloaded (c ∷ cs) h k = ground (arith, all_overloaded cs)

    none_loaded :
        (cs : List (Candidate f))
        → not (is_nil f cs) ≡ false
        → allb (λ c. overloads c.worker) cs ≡ true
    none_loaded [] h = refl
    none_loaded (c ∷ cs) h = ground arith

    pick_sorted-IsJustified :
        (ws : List Worker) (s : Sorted f)
        → Ranked s
        → all_loaded overloads s ≡ allb (λ v. if_loaded overloads v) ws
        → Chosen (IsJustified ws) (pick_sorted f draw factor model s)
    unfolding pick_sorted prefers_switch
    pick_sorted-IsJustified ws s h e =
        let why = λ (ok : all_loaded overloads s ≡ true).
          All-map {P = λ c. is_idle c.worker.state ≡ true} {Q = λ c. IsJustified ws c.worker}
            (λ c i. inr (i, ground (arith, e, ok))) s.supported h.supported in
        if-holds {A = Option Worker} (Chosen (IsJustified ws)) (prefers_switch f factor s)
          (λ a.
            weighted_pick-Chosen f (IsJustified ws) draw s.supported
              (why (ground (arith, all_overloaded s.loaded))))
          (λ a.
            if-holds {A = Option Worker} (Chosen (IsJustified ws)) (not (is_nil f s.loaded))
              (λ b. weighted_pick-Chosen f (IsJustified ws) draw s.loaded (
                All-map {P = λ c. has_it c.worker ≡ true} {Q = λ c. IsJustified ws c.worker}
                  (λ c m. inl m) s.loaded h.loaded))
              (λ b.
                if-holds {A = Option Worker} (Chosen (IsJustified ws)) (not (is_nil f s.supported))
                  (λ c.
                    weighted_pick-Chosen f (IsJustified ws) draw s.supported
                      (why (ground (arith, none_loaded s.loaded))))
                  (λ c.
                    if-holds {A = Option Worker} (Chosen (IsJustified ws)) (is_default model)
                      (λ d. ground (arith, named, d)) (λ d. tt))))

-- For a named model the worker that is chosen has it, or is idle and is made to load it only because the
-- factor is positive and every worker that has the model and can take the request is overloaded, or there is none.
pub select_worker_for_model-IsJustified :
    (f : Float64) (draw factor : f.F) (now : ℕ) (exclude : Dict String Bool) (model : String)
    (r : Registry) (named : is_default model ≡ false)
    → Chosen
        (IsJustified f r.admission_gate exclude model now named draw factor (list r))
        (select_worker_for_model f draw factor now exclude model r)
unfolding select_worker_for_model
select_worker_for_model-IsJustified f draw factor now exclude model r named =
    let gate = r.admission_gate in
    let start : Ranked f gate exclude model now named (no_candidates f) = record {
      loaded = tt;
      supported = tt;
    } in
    pick_sorted-IsJustified f gate exclude model now named draw factor (list r)
      (sort_workers f gate exclude model now (list r) (no_candidates f))
      (sort_workers-Ranked f gate exclude model now named (list r) (no_candidates f) start)
      (sort_workers-all_loaded f gate exclude model now named
        (overloads f gate exclude model now named draw factor) (list r) (no_candidates f))
