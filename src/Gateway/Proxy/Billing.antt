-- ===== src/Gateway/Proxy/Billing.antt =====
-- src/internal/gateway/gateway.go with src/internal/settlement: what a request keeps reserved is what the
-- settlement will charge for its record, and the usage that is billed is within the model's limits.
use openmodel_gateway.Prelude.{
  ℕ, ◌≡◌, refl, subst, Bool, true, List, [], ◌∷◌, String, Dict, insert, Option, none, some, ◌==◌,
  ◌/=◌, nat_eq, string_eq, if◌then◌else◌, option-holds, if-holds, arith,
}
use openmodel_gateway.Prelude.Int.{is_pos, ◌≤ℤ◌, ◌+ℤ◌}
use openmodel_gateway.Worker.State.{Worker}
use openmodel_gateway.Settlement.Floats.{BigFloat}
use openmodel_gateway.Settlement.Records.{is_billable}
use openmodel_gateway.Settlement.Pricing.{Prices, record_cost}
use openmodel_gateway.Gateway.RateLimit.{Float64}
use openmodel_gateway.Gateway.RequestLog.Handover.{as_read}
use openmodel_gateway.Gateway.Proxy.{
  TokenUsage, ModelInfo, Asked, Attempt, Served, failed, answered, deliver, exhausted, final_answer,
  next_worker, attempt_loop, handle_non_streaming, actual_cost, clamp_usage, clamp_to, info_for,
  output_limit,
}

-- What holds of the end of a loop, if it ends.
abbrev pub Ends {ℓ κ} : {A : Type ℓ} → (A → Type κ) → Option A → Type κ
Ends P none = Unit
Ends P (some a) = P a

Ends-at {ℓ κ} : {A : Type ℓ} (P : A → Type κ) (o : Option A) (a : A) → Ends P o → o ≡ some a → P a
Ends-at P none a h e = ground arith
Ends-at P (some c) a h e = subst P (ground (arith, e)) h

module _ (f : Float64) (b : BigFloat) (prices : Prices b) (q : Asked) where
  -- The cost that is kept is the cost of the record that is logged, if it is billable.
  abbrev pub IsSettled : Served f → Type 0
  IsSettled s =
      let rec = as_read s.logged in
      actual_cost f b prices s ≡ (if is_billable rec then record_cost b prices rec else b.nought)

  deliver-IsSettled :
      (id : String) (elapsed status : ℕ) (u : TokenUsage) (sig : Option String)
      → q.key.wallet /= "" ≡ true
      → IsSettled (deliver f q id elapsed status u sig)
  unfolding actual_cost deliver is_billable as_read record_cost
  deliver-IsSettled id elapsed status u sig w = ground arith

  exhausted-IsSettled : (elapsed : ℕ) → IsSettled (exhausted f q elapsed)
  unfolding actual_cost exhausted is_billable as_read
  exhausted-IsSettled elapsed = refl

  module _ (factor : f.F) (catalog : Option (Dict String ModelInfo)) where
    final_answer-IsSettled :
        (a : Attempt f) (target : Worker)
        → q.key.wallet /= "" ≡ true
        → Ends IsSettled (final_answer f factor catalog q a target)
    unfolding final_answer
    final_answer-IsSettled a target w =
        elim (a.answer)
          as (λ r. Ends IsSettled (elim r as (λ _. Option (Served f)) [
            | failed ↦ none
            | answered status u sig ↦
                if status == 503
                then none
                else some
                    (deliver f q target.id a.elapsed status (clamp_usage catalog q.model u) sig)
          ])) [
            | failed ↦ tt
            | answered status u sig ↦
                if-holds {A = Option (Served f)} (Ends IsSettled) (status == 503) (λ yes. tt)
                  (λ done.
                    deliver-IsSettled target.id a.elapsed status (clamp_usage catalog q.model u) sig
                      w)
          ]

    attempt_loop-IsSettled :
        (attempts : List (Attempt f)) (target : Worker) (tried : Dict String Bool)
        → q.key.wallet /= "" ≡ true
        → Ends IsSettled (attempt_loop f factor catalog q attempts target tried)
    unfolding attempt_loop
    attempt_loop-IsSettled [] target tried w = tt
    attempt_loop-IsSettled (a ∷ more) target tried w =
        option-holds {B = Option (Served f)} (Ends IsSettled)
          (final_answer f factor catalog q a target)
          (λ e.
            option-holds {B = Option (Served f)} (Ends IsSettled)
              (next_worker f factor catalog q a (insert target.id true tried))
              (λ end. exhausted-IsSettled a.elapsed)
              (λ next e. attempt_loop-IsSettled more next.0 next.1 w))
          (λ s e.
            Ends-at IsSettled (final_answer f factor catalog q a target) s
              (final_answer-IsSettled a target w) e)

    -- For a key with a wallet, however a request that is not streamed ends: the cost that stays
    -- reserved is the cost that the settlement computes from the record that is logged for it, or nothing where that record is not
    -- billable.
    pub handle_non_streaming-IsSettled :
        (attempts : List (Attempt f)) (target : Worker)
        → q.key.wallet /= "" ≡ true
        → Ends IsSettled (handle_non_streaming f factor catalog q attempts target)
    unfolding handle_non_streaming
    handle_non_streaming-IsSettled attempts target w = attempt_loop-IsSettled attempts target [] w

-- Where the catalog has a window for the model, the usage that is billed is within the model's limits,
-- its cached tokens within its prompt, and no count of prompt, completion or all tokens is above what was reported.
pub clamp_usage_bounds :
    (catalog : Dict String ModelInfo) (model : String) (info : ModelInfo) (u : TokenUsage)
    → info_for catalog model ≡ some info
    → is_pos info.context_window ≡ true
    → let c = clamp_usage (some catalog) model u in
      (c.prompt_tokens ≤ℤ info.context_window)
      × (c.completion_tokens ≤ℤ output_limit info)
      × (c.cached_tokens ≤ℤ c.prompt_tokens)
      × (c.total_tokens ≤ℤ info.context_window +ℤ output_limit info)
      × (c.prompt_tokens ≤ℤ u.prompt_tokens)
      × (c.completion_tokens ≤ℤ u.completion_tokens)
      × (c.total_tokens ≤ℤ u.total_tokens)
unfolding clamp_usage clamp_to
clamp_usage_bounds catalog model info u e h = ground (arith, e)
