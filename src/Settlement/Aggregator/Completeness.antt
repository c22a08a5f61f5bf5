-- ===== src/Settlement/Aggregator/Completeness.antt =====
-- src/internal/settlement/aggregator.go: no metered token is lost or counted twice.
use openmodel_gateway.Prelude.{
  ◌≡◌, refl, sym, ap, ◌∙◌, List, [], ◌∷◌, ◌++◌, String, Dict, lookup, insert, Option, none, some,
  ◌==◌, string_eq, if-holds, Bool-cases, inl, inr, arith,
}
use openmodel_gateway.Prelude.Int.{
  ℤ, pos, ◌+ℤ◌, +ℤ_assoc, +ℤ_zero, zero_+ℤ, +ℤ_swap, +ℤ_rotate, +ℤ_under, +ℤ_cancel,
}
use openmodel_gateway.Settlement.Floats.{BigFloat}
use openmodel_gateway.Settlement.Records.{RequestRecord}
use openmodel_gateway.Settlement.Pricing.{record_cost}
use openmodel_gateway.Settlement.Aggregator.{
  AggregationKey, Aggregator, Cost, resolve_worker_to_evm,
}
use openmodel_gateway.Settlement.Aggregator.Cycle.{
  key_eq, Tally, fresh_cost, charge, add_record, add_records,
}

abbrev pub metered : List RequestRecord → ℤ
metered [] = pos 0
metered (rec ∷ recs) = rec.total_tokens +ℤ metered recs

metered-append : (xs ys : List RequestRecord) → metered (xs ++ ys) ≡ metered xs +ℤ metered ys
metered-append [] ys = sym (zero_+ℤ (metered ys))
metered-append (x ∷ xs) ys =
    ap (λ t. x.total_tokens +ℤ t) (metered-append xs ys)
    ∙ sym (+ℤ_assoc x.total_tokens (metered xs) (metered ys))

module _ (b : BigFloat) where
  abbrev pub costed : Dict AggregationKey (Cost b) → ℤ
  costed [] = pos 0
  costed ((k, c) ∷ rest) = c.total_tokens +ℤ costed rest

  abbrev tokens_at : AggregationKey → Dict AggregationKey (Cost b) → ℤ
  tokens_at k m = elim (lookup k m) [ none ↦ pos 0 | some c ↦ c.total_tokens ]

  costed-insert :
      (k : AggregationKey) (v : Cost b) (m : Dict AggregationKey (Cost b))
      → costed (insert k v m) +ℤ tokens_at k m ≡ costed m +ℤ v.total_tokens
  costed-insert k v [] =
      +ℤ_zero (v.total_tokens +ℤ pos 0) ∙ (+ℤ_zero v.total_tokens ∙ sym (zero_+ℤ v.total_tokens))
  costed-insert k v ((j, w) ∷ m) = elim (Bool-cases (j == k)) [
    | inl hit ↦ ground (arith, +ℤ_rotate v.total_tokens (costed m) w.total_tokens)
    | inr miss ↦ ground (
      arith,
      +ℤ_under w.total_tokens (costed (insert k v m)) (tokens_at k m) (costed m) v.total_tokens
          (costed-insert k v m),
    )
  ]

  entry_tokens :
      (k : AggregationKey) (o : Option (Cost b))
      → (elim o as (λ x. Cost b) [ none ↦ fresh_cost b k | some c ↦ c ]).total_tokens
        ≡ elim o [ none ↦ pos 0 | some c ↦ c.total_tokens ]
  unfolding fresh_cost
  entry_tokens k none = refl
  entry_tokens k (some c) = refl

  costed-charge :
      (k : AggregationKey) (usd : b.F) (x : ℤ) (ids : List String)
      (m : Dict AggregationKey (Cost b))
      → costed (charge b k usd x ids m) ≡ costed m +ℤ x
  unfolding charge
  costed-charge k usd x ids m =
      +ℤ_cancel (costed (charge b k usd x ids m)) (tokens_at k m) (costed m) x
        (costed-insert k _ m ∙ ap (λ t. costed m +ℤ (t +ℤ x)) (entry_tokens k (lookup k m)))

  -- The tokens that a tally accounts for.
  abbrev pub accounted : Tally b → ℤ
  accounted t = costed t.costs +ℤ metered t.unresolved

  add_record-accounted :
      (a : Aggregator b) (rec : RequestRecord) (t : Tally b)
      → accounted (add_record b a rec t) ≡ accounted t +ℤ rec.total_tokens
  unfolding add_record
  add_record-accounted a rec t =
      let sp = resolve_worker_to_evm b a rec.worker_id in
      let x = rec.total_tokens in
      if-holds {A = Tally b} (λ t'. accounted t' ≡ accounted t +ℤ x) (sp == "")
        (λ unresolved.
          ap (λ y. costed t.costs +ℤ y)
            (metered-append t.unresolved (rec ∷ [])
              ∙ ap (λ y. metered t.unresolved +ℤ y) (+ℤ_zero x))
          ∙ sym (+ℤ_assoc (costed t.costs) (metered t.unresolved) x))
        (λ resolved.
          ap (λ y. y +ℤ metered t.unresolved)
            (costed-charge (record { wallet = rec.wallet; sp_evm = sp })
              (record_cost b a.prices rec) x _ t.costs)
          ∙ (+ℤ_assoc (costed t.costs) x (metered t.unresolved)
              ∙ +ℤ_swap (costed t.costs) x (metered t.unresolved)))

  -- The tokens of the records are all in the costs of a wallet and SP or in the records that are left
  -- unresolved, each once, on top of what the tally had.
  pub add_records-accounted :
      (a : Aggregator b) (recs : List RequestRecord) (t : Tally b)
      → accounted (add_records b a recs t) ≡ accounted t +ℤ metered recs
  unfolding add_records
  add_records-accounted a [] t = sym (+ℤ_zero (accounted t))
  add_records-accounted a (rec ∷ recs) t =
      add_records-accounted a recs (add_record b a rec t)
      ∙ (ap (λ y. y +ℤ metered recs) (add_record-accounted a rec t)
          ∙ +ℤ_assoc (accounted t) rec.total_tokens (metered recs))
