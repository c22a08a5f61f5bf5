-- ===== src/Gateway/Proxy/Attempts.antt =====
-- src/internal/gateway/gateway.go: the loop of attempts ends, since no worker is tried twice.
use mathlib.Core.List.{Mem, Memᴰ}
use mathlib.Core.Logic.{∥∥₁_elim}
use mathlib.Core.Bool.{Bool-set}
use openmodel_gateway.Prelude.{
  ℕ, suc, ◌≤◌, ◌<◌, ◌≡◌, refl, ap, sym, subst, Bool, true, false, ◌||◌, List, [], ◌∷◌, String, Dict,
  insert, lookup-insert, Option, none, some, ◌==◌, nat_eq, string_eq, if◌then◌else◌, option-holds,
  arith, length, All, is_some, ltb, inl, inr, Option-cases,
}
use openmodel_gateway.Worker.State.{Worker}
use openmodel_gateway.Worker.Registry.Core.{Registry}
use openmodel_gateway.Worker.Registry.Views.{list}
use openmodel_gateway.Gateway.RateLimit.{Float64}
use openmodel_gateway.Gateway.Router.{is_excluded, select_worker_for_model}
use openmodel_gateway.Gateway.Router.Choice.{Chosen-at, can_take, select_worker_for_model-Chosen}
use openmodel_gateway.Gateway.Proxy.{
  ModelInfo, Asked, Attempt, Served, final_answer, next_worker, attempt_loop, handle_non_streaming,
}

-- How many of the workers are not excluded.
abbrev untried : Dict String Bool → List Worker → ℕ
untried tried [] = 0
untried tried (w ∷ ws) =
    let rest = untried tried ws in if is_excluded tried w then rest else suc rest

untried-length : (tried : Dict String Bool) (ws : List Worker) → untried tried ws ≤ length ws
untried-length tried [] = omega arith
untried-length tried (w ∷ ws) = ground (arith, untried-length tried ws)

is_excluded-insert :
    (id : String) (tried : Dict String Bool) (w : Worker)
    → is_excluded (insert id true tried) w ≡ (id == w.id || is_excluded tried w)
is_excluded-insert id tried w = ground (arith, lookup-insert id w.id true tried)

untried-insert :
    (id : String) (tried : Dict String Bool) (ws : List Worker)
    → untried (insert id true tried) ws ≤ untried tried ws
untried-insert id tried [] = omega arith
untried-insert id tried (w ∷ ws) =
    ground (arith, untried-insert id tried ws, is_excluded-insert id tried w)

-- A worker that is tried now is one fewer.
untried_less :
    (w : Worker) (tried : Dict String Bool) (ws : List Worker)
    → Memᴰ w ws
    → is_excluded tried w ≡ false
    → ltb (untried (insert w.id true tried) ws) (untried tried ws) ≡ true
untried_less w tried [] m h = elim m [ ]
untried_less w tried (v ∷ ws) (Memᴰ.head e) h =
    let same : is_excluded tried v ≡ false = subst (λ x. is_excluded tried x ≡ false) e h in
    let name : w.id ≡ v.id = ap (λ x. x.id) e in
    ground (
      arith,
      untried-insert w.id tried ws,
      is_excluded-insert w.id tried v,
      string_eq.same_iff w.id v.id,
    )
untried_less w tried (v ∷ ws) (Memᴰ.tail m) h =
    ground (arith, untried_less w tried ws m h, is_excluded-insert w.id tried v)

less_of_mem :
    (w : Worker) (tried : Dict String Bool) (ws : List Worker)
    → Mem w ws
    → is_excluded tried w ≡ false
    → ltb (untried (insert w.id true tried) ws) (untried tried ws) ≡ true
less_of_mem w tried ws m h =
    ∥∥₁_elim m (Bool-set (ltb (untried (insert w.id true tried) ws) (untried tried ws)) true)
      (λ d. untried_less w tried ws d h)

-- One round that starts from these workers, with no worker coming back from the queue.
abbrev pub IsStuck : (f : Float64) → Registry → Attempt f → Type 0
IsStuck f r a = (a.registry ≡ r) × (a.recovered ≡ none)

module _ (f : Float64) (factor : f.F) (catalog : Option (Dict String ModelInfo)) (q : Asked)
    (r : Registry) where
  -- A worker of the registry that has not been tried.
  abbrev Fresh : Dict String Bool → Worker → Type 0
  Fresh tried w = Mem w (list r) × (is_excluded tried w ≡ false)

  selected-Fresh :
      (draw : f.F) (now : ℕ) (tried : Dict String Bool) (w : Worker)
      → select_worker_for_model f draw factor now tried q.model r ≡ some w
      → Fresh tried w
  unfolding can_take
  selected-Fresh draw now tried w e =
      let good =
        Chosen-at (λ v. Mem v (list r) × (can_take r.admission_gate tried q.model now v ≡ true))
          (select_worker_for_model f draw factor now tried q.model r) w
          (select_worker_for_model-Chosen f draw factor now tried q.model r) e in
      (good.0, ground (arith, good.1))

  next-Fresh :
      (a : Attempt f) (tried : Dict String Bool)
      → IsStuck f r a
      → (next : Worker × Dict String Bool) → next_worker f factor catalog q a tried ≡ some next
      → Fresh tried next.0 × (next.1 ≡ tried)
  unfolding next_worker
  next-Fresh a tried h next e =
      let same = ap (λ s. select_worker_for_model f a.draw factor a.now tried q.model s) h.0 in
      elim (Option-cases (select_worker_for_model f a.draw factor a.now tried q.model r)) [
        | inl missing ↦ elim (clash (ground (arith, same, missing, h.1, e))) [ ]
        | inr (w, found) ↦
            let named : next.0 ≡ w = ground (arith, same, found, e) in
            (
              subst (Fresh tried) (sym named) (selected-Fresh a.draw a.now tried w found),
              ground (arith, same, found, e),
            )
      ]
    where
      clash : ⊥ → ⊥
      clash c = c

  attempt_loop-is_some :
      (attempts : List (Attempt f)) (target : Worker) (tried : Dict String Bool)
      → All (IsStuck f r) attempts
      → ltb (untried (insert target.id true tried) (list r)) (length attempts) ≡ true
      → is_some (attempt_loop f factor catalog q attempts target tried) ≡ true
  unfolding attempt_loop
  attempt_loop-is_some [] target tried h k = ground arith
  attempt_loop-is_some (a ∷ more) target tried h k =
      let seen = insert target.id true tried in
      option-holds {B = Option (Served f)} (λ o. is_some o ≡ true)
        (final_answer f factor catalog q a target)
        (λ e.
          option-holds {B = Option (Served f)} (λ o. is_some o ≡ true)
            (next_worker f factor catalog q a seen) (λ end. refl)
            (λ next e.
              let new = next-Fresh a seen h.0 next e in
              let fewer = less_of_mem next.0 seen (list r) (new.0).0 (new.0).1 in
              attempt_loop-is_some more next.0 next.1 h.1 (ground (arith, new.1, fewer, k))))
        (λ s e. refl)

  -- The loop ends: over a registry that stays as it is and with no worker coming back from the queue, as
  -- it is once the deadline has passed, one attempt more than there are workers is enough, whatever they answer.
  pub handle_non_streaming-is_some :
      (attempts : List (Attempt f)) (target : Worker)
      → All (IsStuck f r) attempts
      → length (list r) < length attempts
      → is_some (handle_non_streaming f factor catalog q attempts target) ≡ true
  unfolding handle_non_streaming
  handle_non_streaming-is_some attempts target h k =
      attempt_loop-is_some attempts target [] h
        (ground (arith, untried-length (insert target.id true []) (list r), k))
