-- ===== src/Settlement/Pricing.antt =====
-- src/internal/settlement/aggregator.go: the billing formula that every component shares.
use openmodel_gateway.Prelude.{String, Dict, lookup, Option, none, some, string_eq, if◌then◌else◌}
use openmodel_gateway.Prelude.{◌≡◌, ◌⊎◌, inl, inr, Bool-cases, true, arith}
use openmodel_gateway.Prelude.Int.{◌≤ℤ◌, ℤ, pos, ◌-ℤ◌, ltb_ℤ}
use openmodel_gateway.Settlement.Floats.{BigFloat}
use openmodel_gateway.Settlement.Records.{RequestRecord}

-- Cached tokens are at least 0 and at most the prompt's.
unfoldable pub clamp_cached : ℤ → ℤ → ℤ
clamp_cached cached prompt =
    let floored = if ltb_ℤ cached (pos 0) then pos 0 else cached in
    if ltb_ℤ prompt floored then prompt else floored

-- For a prompt that is not negative the cached tokens that are billed are between 0 and the prompt's,
-- and they are those reported, or 0 for a negative report, or the prompt's for a report above it.
pub clamp_cached_bounds :
    (cached prompt : ℤ)
    → pos 0 ≤ℤ prompt
    → let c = clamp_cached cached prompt in
      (pos 0 ≤ℤ c)
      × (c ≤ℤ prompt)
      × ((c ≡ cached)
          ⊎ (((c ≡ pos 0) × (ltb_ℤ cached (pos 0) ≡ true))
              ⊎ ((c ≡ prompt) × (ltb_ℤ prompt cached ≡ true))))
unfolding clamp_cached
clamp_cached_bounds cached prompt h = (
  ground arith,
  ground arith,
  elim (Bool-cases (ltb_ℤ cached (pos 0))) [
    | inl negative ↦ inr (inl (ground arith, negative))
    | inr fine ↦ elim (Bool-cases (ltb_ℤ prompt cached)) [
      | inl above ↦ inr (inr (ground arith, above))
      | inr within ↦ inl (ground arith)
    ]
  ],
)

module _ (b : BigFloat) where
  open b use {F, nought, of_int, add, mul}

  -- `m[model]`, or `m["default"]`.
  unfoldable pub lookup_price : Dict String F → String → Option F
  lookup_price m model = elim (lookup model m) [ some p ↦ some p | none ↦ lookup "default" m ]

  abbrev or_nought : Option F → F
  or_nought none = nought
  or_nought (some p) = p

  -- The prices of a token in USD: of output, and where the catalog lists the model, of input and of
  -- cached input.
  pub record Prices : Type 0 where
    pub out : Dict String F
    pub input : Dict String F
    pub cache_read : Dict String F

  -- The split price, for a model with an input price.
  unfoldable pub split_cost : F → F → F → ℤ → ℤ → ℤ → F
  split_cost out inp cr prompt completion cached =
      let c = clamp_cached cached prompt in
      add (add (mul inp (of_int (prompt -ℤ c))) (mul cr (of_int c))) (mul out (of_int completion))

  abbrev or_else : Option F → F → F
  or_else none d = d
  or_else (some p) d = p

  unfoldable pub cost_breakdown : Prices → String → ℤ → ℤ → ℤ → ℤ → F
  cost_breakdown p model prompt completion cached total =
      let out = or_nought (lookup_price p.out model) in
      elim (lookup_price p.input model) [
        | none ↦ mul out (of_int total)
        | some inp ↦
            split_cost out inp (or_else (lookup_price p.cache_read model) inp) prompt completion
              cached
      ]

  unfoldable pub record_cost : Prices → RequestRecord → F
  record_cost p rec =
      cost_breakdown p rec.model rec.prompt_tokens rec.completion_tokens rec.cached_tokens
        rec.total_tokens
