-- ===== src/Gateway/Router/Choice.antt =====
-- src/internal/gateway/router.go: which workers the router can choose.
use mathlib.Core.List.{Mem, mem-cons_self, mem-cons_of_mem}
use openmodel_gateway.Prelude.{
  ℕ, ◌≡◌, refl, subst, ◌∙◌, Bool, true, false, ◌&&◌, ◌||◌, not, List, [], ◌∷◌, ◌++◌, String, Dict,
  Option, none, some, string_eq, if-holds, anyb, nat_eq, arith, All, All-append, is_some,
}
use openmodel_gateway.Prelude.Int.{pos}
use openmodel_gateway.Worker.State.{Worker, is_routable, is_banned}
use openmodel_gateway.Worker.Registry.Core.{Registry}
use openmodel_gateway.Worker.Registry.Views.{list}
use openmodel_gateway.Gateway.RateLimit.{Float64}
use openmodel_gateway.Gateway.ModelNames.{model_matches}
use openmodel_gateway.Gateway.Router.{
  worker_supports_model, is_idle, is_default, is_admitted, is_excluded, Candidate, Sorted,
  compute_weight, sort_worker, sort_workers, pick_loop, weighted_pick, is_nil, prefers_switch,
  pick_sorted, no_candidates, select_worker_for_model,
}

-- A worker that has the model, or is idle and lists it, or any for the default.
abbrev pub fits_model : String → Worker → Bool
fits_model model w =
    is_default model
    || model_matches w.loaded_model model
    || (worker_supports_model w model && is_idle w.state)

-- A worker that a request for the model may be sent to.
unfoldable pub can_take : Bool → Dict String Bool → String → ℕ → Worker → Bool
can_take gate exclude model now w =
    is_routable w.state
    && not (is_banned w now)
    && is_admitted gate w model
    && not (is_excluded exclude w)
    && fits_model model w

-- What holds of the choice, if there is one.
abbrev pub Chosen {ℓ} : (Worker → Type ℓ) → Option Worker → Type ℓ
Chosen P none = Unit
Chosen P (some w) = P w

pub Chosen-at {ℓ} :
    (P : Worker → Type ℓ) (o : Option Worker) (w : Worker) → Chosen P o → o ≡ some w → P w
Chosen-at P none w h e = ground arith
Chosen-at P (some v) w h e = subst P (ground (arith, e)) h

module _ (f : Float64) where
  pick_loop_holds {ℓ} :
      (P : Worker → Type ℓ) (r : f.F) (last : Candidate f) (cs : List (Candidate f))
      → P last.worker
      → All (λ c. P c.worker) cs
      → P (pick_loop f r last cs)
  unfolding pick_loop
  pick_loop_holds P r last [] p h = p
  pick_loop_holds P r last (c ∷ cs) p h =
      if-holds {A = Worker} P (f.at_most (f.sub r c.weight) (f.of_int (pos 0))) (λ here. h.0)
        (λ later. pick_loop_holds P (f.sub r c.weight) c cs h.0 h.1)

  pub weighted_pick-Chosen {ℓ} :
      (P : Worker → Type ℓ) (draw : f.F) (cs : List (Candidate f))
      → All (λ c. P c.worker) cs
      → Chosen P (weighted_pick f draw cs)
  unfolding weighted_pick
  weighted_pick-Chosen P draw [] h = tt
  weighted_pick-Chosen P draw (c ∷ []) h = h.0
  weighted_pick-Chosen P draw (c ∷ d ∷ cs) h = pick_loop_holds P _ c (c ∷ d ∷ cs) h.0 h

  weighted_pick-is_some :
      (draw : f.F) (cs : List (Candidate f)) → is_some (weighted_pick f draw cs) ≡ not (is_nil f cs)
  unfolding weighted_pick
  weighted_pick-is_some draw [] = refl
  weighted_pick-is_some draw (c ∷ []) = refl
  weighted_pick-is_some draw (c ∷ d ∷ cs) = refl

  module _ (gate : Bool) (exclude : Dict String Bool) (model : String) (now : ℕ) where
    abbrev pub takes : Worker → Bool
    takes w = can_take gate exclude model now w

    abbrev pub candidate : Worker → Candidate f
    candidate w = record { worker = w; weight = compute_weight f w now }

    -- Where a worker goes.
    pub sort_worker-holds {ℓ} :
        (P : Sorted f → Type ℓ) (w : Worker) (s : Sorted f)
        → (takes w ≡ false → P s)
        → (takes w ≡ true
            → is_default model ≡ true
            → P (record s { fallback = s.fallback ++ candidate w ∷ [] }))
        → (takes w ≡ true
            → is_default model ≡ false
            → model_matches w.loaded_model model ≡ true
            → P (record s { loaded = s.loaded ++ candidate w ∷ [] }))
        → (takes w ≡ true
            → is_default model ≡ false
            → model_matches w.loaded_model model ≡ false
            → is_idle w.state ≡ true
            → P (record s { supported = s.supported ++ candidate w ∷ [] }))
        → P (sort_worker f gate exclude model now w s)
    unfolding sort_worker can_take
    sort_worker-holds P w s skip fall load supp =
        if-holds {A = Sorted f} P (not (is_routable w.state)) (λ a. skip (ground arith))
          (λ a.
            if-holds {A = Sorted f} P (is_banned w now) (λ b. skip (ground arith))
              (λ b.
                if-holds {A = Sorted f} P (not (is_admitted gate w model))
                  (λ c. skip (ground arith))
                  (λ c.
                    if-holds {A = Sorted f} P (is_excluded exclude w) (λ d. skip (ground arith))
                      (λ d.
                        if-holds {A = Sorted f} P (is_default model) (λ e. fall (ground arith) e)
                          (λ e.
                            if-holds {A = Sorted f} P (model_matches w.loaded_model model)
                              (λ g. load (ground arith) e g)
                              (λ g.
                                if-holds {A = Sorted f} P (worker_supports_model w model)
                                  (λ h.
                                    if-holds {A = Sorted f} P (is_idle w.state)
                                      (λ i. supp (ground arith) e g i) (λ i. skip (ground arith)))
                                  (λ h. skip (ground arith))))))))

    -- Every candidate can take the request, and satisfies a predicate that the workers satisfy.
    record Sound {ℓ} (P : Worker → Type ℓ) (s : Sorted f) : Type ℓ where
      loaded : All (λ c. P c.worker × (takes c.worker ≡ true)) s.loaded
      supported : All (λ c. P c.worker × (takes c.worker ≡ true)) s.supported
      fallback : All (λ c. P c.worker × (takes c.worker ≡ true)) s.fallback

    abbrev Good {ℓ} : (Worker → Type ℓ) → Worker → Type ℓ
    Good P w = P w × (takes w ≡ true)

    add-Good {ℓ} :
        (P : Worker → Type ℓ) (w : Worker) (cs : List (Candidate f))
        → P w
        → takes w ≡ true
        → All (λ c. Good P c.worker) cs
        → All (λ c. Good P c.worker) (cs ++ candidate w ∷ [])
    add-Good P w cs p t h = All-append (λ c. Good P c.worker) cs (candidate w ∷ []) h ((p, t), tt)

    sort_worker-Sound {ℓ} :
        (P : Worker → Type ℓ) (w : Worker) (s : Sorted f)
        → P w
        → Sound P s
        → Sound P (sort_worker f gate exclude model now w s)
    sort_worker-Sound P w s p h =
        sort_worker-holds (Sound P) w s (λ no_one. h)
          (λ t d. record {
            loaded = h.loaded;
            supported = h.supported;
            fallback = add-Good P w s.fallback p t h.fallback;
          })
          (λ t d m. record {
            loaded = add-Good P w s.loaded p t h.loaded;
            supported = h.supported;
            fallback = h.fallback;
          })
          (λ t d m i. record {
            loaded = h.loaded;
            supported = add-Good P w s.supported p t h.supported;
            fallback = h.fallback;
          })

    sort_workers-Sound {ℓ} :
        (P : Worker → Type ℓ) (ws : List Worker) (s : Sorted f)
        → All P ws
        → Sound P s
        → Sound P (sort_workers f gate exclude model now ws s)
    unfolding sort_workers
    sort_workers-Sound P [] s p h = h
    sort_workers-Sound P (w ∷ ws) s p h =
        sort_workers-Sound P ws (sort_worker f gate exclude model now w s) p.1
          (sort_worker-Sound P w s p.0 h)

    pick_sorted-Chosen {ℓ} :
        (P : Worker → Type ℓ) (draw factor : f.F) (s : Sorted f)
        → Sound P s
        → Chosen (Good P) (pick_sorted f draw factor model s)
    unfolding pick_sorted
    pick_sorted-Chosen P draw factor s h =
        if-holds {A = Option Worker} (Chosen (Good P)) (prefers_switch f factor s)
          (λ a. weighted_pick-Chosen (Good P) draw s.supported h.supported)
          (λ a.
            if-holds {A = Option Worker} (Chosen (Good P)) (not (is_nil f s.loaded))
              (λ b. weighted_pick-Chosen (Good P) draw s.loaded h.loaded)
              (λ b.
                if-holds {A = Option Worker} (Chosen (Good P)) (not (is_nil f s.supported))
                  (λ c. weighted_pick-Chosen (Good P) draw s.supported h.supported)
                  (λ c.
                    if-holds {A = Option Worker} (Chosen (Good P)) (is_default model)
                      (λ d. weighted_pick-Chosen (Good P) draw s.fallback h.fallback) (λ d. tt))))

    -- Whether there is anyone to pick.
    abbrev waiting : Sorted f → Bool
    waiting s =
        not (is_nil f s.loaded)
        || not (is_nil f s.supported)
        || (is_default model && not (is_nil f s.fallback))

    is_nil_end : (cs : List (Candidate f)) (c : Candidate f) → is_nil f (cs ++ c ∷ []) ≡ false
    is_nil_end [] c = refl
    is_nil_end (x ∷ cs) c = refl

    sort_worker-waiting :
        (w : Worker) (s : Sorted f)
        → waiting (sort_worker f gate exclude model now w s) ≡ (waiting s || takes w)
    sort_worker-waiting w s =
        sort_worker-holds (λ t. waiting t ≡ (waiting s || takes w)) w s (λ no_one. ground arith)
          (λ t d. ground (arith, is_nil_end s.fallback (candidate w)))
          (λ t d m. ground (arith, is_nil_end s.loaded (candidate w)))
          (λ t d m i. ground (arith, is_nil_end s.supported (candidate w)))

    sort_workers-waiting :
        (ws : List Worker) (s : Sorted f)
        → waiting (sort_workers f gate exclude model now ws s) ≡ (waiting s || anyb takes ws)
    unfolding sort_workers
    sort_workers-waiting [] s = ground arith
    sort_workers-waiting (w ∷ ws) s = ground (
      arith,
      sort_worker-waiting w s,
      sort_workers-waiting ws (sort_worker f gate exclude model now w s),
    )

    pick_sorted-is_some :
        (draw factor : f.F) (s : Sorted f) → is_some (pick_sorted f draw factor model s) ≡ waiting s
    unfolding pick_sorted prefers_switch
    pick_sorted-is_some draw factor s = ground (
      arith,
      weighted_pick-is_some draw s.supported,
      weighted_pick-is_some draw s.loaded,
      weighted_pick-is_some draw s.fallback,
    )

abbrev AllIn {ℓ} : {A : Type ℓ} (xs ys : List A) → Type ℓ
AllIn xs ys = All (λ x. Mem x ys) xs

AllIn-cons {ℓ} : {A : Type ℓ} (y : A) (xs ys : List A) → AllIn xs ys → AllIn xs (y ∷ ys)
AllIn-cons y [] ys h = tt
AllIn-cons y (x ∷ xs) ys h = (mem-cons_of_mem y h.0, AllIn-cons y xs ys h.1)

AllIn-refl {ℓ} : {A : Type ℓ} (xs : List A) → AllIn xs xs
AllIn-refl [] = tt
AllIn-refl (x ∷ xs) = (mem-cons_self, AllIn-cons x xs xs (AllIn-refl xs))

module _ (f : Float64) (draw factor : f.F) (now : ℕ) (exclude : Dict String Bool) (model : String)
    (r : Registry) where
  -- The worker that the router chooses, if any, is one of the registry's, idle or busy, not banned and not excluded, verified for
  -- the model where the gate asks for it, and has the model, or is idle and lists it; the internal default model asks for neither.
  pub select_worker_for_model-Chosen :
      Chosen
        (λ w. Mem w (list r) × (can_take r.admission_gate exclude model now w ≡ true))
        (select_worker_for_model f draw factor now exclude model r)
  unfolding select_worker_for_model
  select_worker_for_model-Chosen =
      let start : Sound f r.admission_gate exclude model now (λ w. Mem w (list r))
          (no_candidates f) =
        record { loaded = tt; supported = tt; fallback = tt } in
      let P : Worker → Type 0 = λ w. Mem w (list r) in
      pick_sorted-Chosen f r.admission_gate exclude model now P draw factor
        (sort_workers f r.admission_gate exclude model now (list r) (no_candidates f))
        (sort_workers-Sound f r.admission_gate exclude model now P (list r) (no_candidates f)
          (AllIn-refl (list r)) start)

  -- The router finds a worker exactly when one of the registry's can take the request.
  pub select_worker_for_model-is_some :
      is_some (select_worker_for_model f draw factor now exclude model r)
      ≡ anyb (λ w. can_take r.admission_gate exclude model now w) (list r)
  unfolding select_worker_for_model
  select_worker_for_model-is_some =
      pick_sorted-is_some f r.admission_gate exclude model now draw factor
        (sort_workers f r.admission_gate exclude model now (list r) (no_candidates f))
      ∙ ground (
        arith,
        sort_workers-waiting f r.admission_gate exclude model now (list r) (no_candidates f),
      )
