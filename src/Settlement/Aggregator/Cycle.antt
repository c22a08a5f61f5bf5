-- ===== src/Settlement/Aggregator/Cycle.antt =====
-- src/internal/settlement/aggregator.go: one cycle, from the records and the carried debts to items.
use openmodel_gateway.Prelude.{
  ◌≡◌, refl, ap, ◌∙◌, Bool, true, not, List, [], ◌∷◌, ◌++◌, map, String, Dict, lookup, insert,
  Option, none, some, ◌==◌, ◌/=◌, string_eq, if◌then◌else◌, Comparable, sort_by, All, All-append,
}
use openmodel_gateway.Prelude.Int.{ℤ, pos, ◌+ℤ◌, ◌≤ℤ◌, is_pos, +ℤ_swap}
use openmodel_gateway.Settlement.Floats.{BigFloat}
use openmodel_gateway.Settlement.Records.{RequestRecord}
use openmodel_gateway.Settlement.Pricing.{record_cost}
use openmodel_gateway.Settlement.Aggregator.{
  AggregationKey, key_beq, key_beq_iff, less_text, SettlementItem, CarriedDebt, Aggregator, Cost,
  resolve_worker_to_evm, allocate,
}
use openmodel_gateway.Settlement.Aggregator.Conservation.{
  balance_of, spent, spent-append, allocate_conserves,
}

instance abbrev pub key_eq : Comparable AggregationKey
key_eq = record { same = key_beq; same_iff = key_beq_iff }

module _ (b : BigFloat) where
  open b use {F, nought, add, sub, is_positive, is_negative}

  -- The costs of the cycle and the records whose worker has no payout address.
  pub record Tally : Type 0 where
    pub costs : Dict AggregationKey (Cost b)
    pub unresolved : List RequestRecord

  unfoldable pub fresh_cost : AggregationKey → Cost b
  fresh_cost key = record { key = key; total_usd = nought; total_tokens = pos 0; request_ids = [] }

  -- The entry of a key, made when it is first seen, with something added.
  unfoldable pub charge :
      AggregationKey
      → F
      → ℤ
      → List String
      → Dict AggregationKey (Cost b)
      → Dict AggregationKey (Cost b)
  charge key usd tokens ids costs =
      let entry : Cost b = elim (lookup key costs) [ none ↦ fresh_cost key | some c ↦ c ] in
      insert key
        (record {
          key = entry.key;
          total_usd = add entry.total_usd usd;
          total_tokens = entry.total_tokens +ℤ tokens;
          request_ids = entry.request_ids ++ ids;
        })
        costs

  unfoldable pub add_record : Aggregator b → RequestRecord → Tally → Tally
  add_record a rec t =
      let sp = resolve_worker_to_evm b a rec.worker_id in
      if sp == ""
      then record { costs = t.costs; unresolved = t.unresolved ++ rec ∷ [] }
      else record {
        costs =
            charge (record { wallet = rec.wallet; sp_evm = sp }) (record_cost b a.prices rec)
              rec.total_tokens (if rec.request_id == "" then [] else rec.request_id ∷ []) t.costs;
        unresolved = t.unresolved;
      }

  unfoldable pub add_records : Aggregator b → List RequestRecord → Tally → Tally
  add_records a [] t = t
  add_records a (rec ∷ recs) t = add_records a recs (add_record a rec t)

  unfoldable pub add_debts :
      List (CarriedDebt b) → Dict AggregationKey (Cost b) → Dict AggregationKey (Cost b)
  add_debts [] costs = costs
  add_debts (d ∷ ds) costs = add_debts ds (
      if is_positive d.usd
      then charge (record { wallet = d.wallet; sp_evm = d.sp_evm }) d.usd (pos 0) d.request_ids
          costs
      else costs)

  -- What a cycle gives, and while it runs, has given so far.
  pub record Outcome : Type 0 where
    pub items : List (SettlementItem b)
    pub settled_per_wallet : Dict String F
    pub remaining_debts : List (CarriedDebt b)

  -- The settled part of a cost for its wallet, and its shortfall as a debt.
  unfoldable pub account : Cost b → F → Outcome → Outcome
  account c shortfall o =
      let settled = sub c.total_usd shortfall in
      let before : F = elim (lookup c.key.wallet o.settled_per_wallet) [
        | none ↦ nought
        | some f ↦ f
      ] in
      record {
        items = o.items;
        settled_per_wallet =
            if is_positive settled
            then insert c.key.wallet (add before settled) o.settled_per_wallet
            else o.settled_per_wallet;
        remaining_debts =
            if is_positive shortfall
            then o.remaining_debts
              ++ record {
                wallet = c.key.wallet;
                sp_evm = c.key.sp_evm;
                usd = shortfall;
                request_ids = c.request_ids;
              }
                ∷ []
            else o.remaining_debts;
      }

  -- The costs of a wallet in turn, on the same running balances.
  unfoldable pub settle_costs :
      Aggregator b → F → List (Cost b) → Dict String ℤ → Outcome → Dict String ℤ × Outcome
  settle_costs a fil [] working o = (working, o)
  settle_costs a fil (c ∷ cs) working o =
      let s = allocate b a fil c working in
      settle_costs a fil cs s.working (
        account c s.remaining (record {
          items = o.items ++ s.items;
          settled_per_wallet = o.settled_per_wallet;
          remaining_debts = o.remaining_debts;
        }))

  unfoldable pub index_keys :
      Dict AggregationKey (Cost b)
      → Dict String (List AggregationKey)
      → Dict String (List AggregationKey)
  index_keys [] m = m
  index_keys ((k, c) ∷ rest) m =
      let keys : List AggregationKey = elim (lookup k.wallet m) [ none ↦ [] | some ks ↦ ks ] in
      index_keys rest (insert k.wallet (keys ++ k ∷ []) m)

  -- The costs of a wallet's keys, by SP.
  unfoldable pub costs_of : Dict AggregationKey (Cost b) → List AggregationKey → List (Cost b)
  costs_of costs keys =
      map (λ k. elim (lookup k costs) [ none ↦ fresh_cost k | some c ↦ c ])
        (sort_by (λ k j. less_text k.sp_evm j.sp_evm) keys)

  abbrev balances_of : String → Dict String (Dict String ℤ) → Dict String ℤ
  balances_of wallet balances = elim (lookup wallet balances) [ none ↦ [] | some m ↦ m ]

  unfoldable pub settle_wallets :
      Aggregator b
      → F
      → Dict AggregationKey (Cost b)
      → Dict String (Dict String ℤ)
      → List (String × List AggregationKey)
      → Outcome
      → Outcome
  settle_wallets a fil costs balances [] o = o
  settle_wallets a fil costs balances ((wallet, keys) ∷ rest) o =
      settle_wallets a fil costs balances rest
        (settle_costs a fil (costs_of costs keys) (balances_of wallet balances) o).1

  -- The wallets that have a cost, each once, in order.
  unfoldable pub wallets_of : Dict AggregationKey (Cost b) → List (String × List AggregationKey)
  wallets_of costs = sort_by (λ v w. less_text v.0 w.0) (index_keys costs [])

  unfoldable pub less_item : SettlementItem b → SettlementItem b → Bool
  less_item x y =
      if x.user_wallet /= y.user_wallet
      then less_text x.user_wallet y.user_wallet
      else if x.sp_evm /= y.sp_evm
      then less_text x.sp_evm y.sp_evm
      else less_text x.token_addr y.token_addr

  unfoldable pub aggregate_with_debts :
      Aggregator b
      → List RequestRecord
      → List (CarriedDebt b)
      → Option F
      → Dict String (Dict String ℤ)
      → Outcome × List RequestRecord
  aggregate_with_debts a records debts none balances =
      (record { items = []; settled_per_wallet = []; remaining_debts = debts }, records)
  aggregate_with_debts a records debts (some fil) balances =
      if not (is_positive fil)
      then (record { items = []; settled_per_wallet = []; remaining_debts = debts }, records)
      else let t = add_records a records (record { costs = []; unresolved = [] }) in
        let costs = add_debts debts t.costs in
        let o =
          settle_wallets a fil costs balances (wallets_of costs)
            (record { items = []; settled_per_wallet = []; remaining_debts = [] }) in
        (
          record {
            items = sort_by less_item o.items;
            settled_per_wallet = o.settled_per_wallet;
            remaining_debts = o.remaining_debts;
          },
          t.unresolved,
        )

module _ (b : BigFloat) where
  -- The costs of a wallet take from its balance of each token what their items say, each above 0, and
  -- never leave less than 0: the same balance is not allocated twice.
  pub settle_costs-IsKept :
      (a : Aggregator b) (fil : b.F) (cs : List (Cost b)) (working : Dict String ℤ) (o : Outcome b)
      (t : String)
      → pos 0 ≤ℤ balance_of t working
      → All (λ i. is_pos i.amount ≡ true) o.items
      → let r = settle_costs b a fil cs working o in
        (balance_of t r.0 +ℤ spent b t r.1.items ≡ balance_of t working +ℤ spent b t o.items)
        × (pos 0 ≤ℤ balance_of t r.0)
        × All (λ i. is_pos i.amount ≡ true) r.1.items
  unfolding settle_costs account
  settle_costs-IsKept a fil [] working o t nonneg each = (refl, nonneg, each)
  settle_costs-IsKept a fil (c ∷ cs) working o t nonneg each =
      let s = allocate b a fil c working in
      let k = allocate_conserves b a fil c working t nonneg in
      let rest =
        settle_costs-IsKept a fil cs s.working _ t k.1
          (All-append (λ i. is_pos i.amount ≡ true) o.items s.items each k.2) in
      (
        rest.0
            ∙ (ap (λ x. balance_of t s.working +ℤ x) (spent-append b t o.items s.items)
                ∙ (+ℤ_swap (balance_of t s.working) (spent b t o.items) (spent b t s.items)
                    ∙ ap (λ x. x +ℤ spent b t o.items) k.0)),
        rest.1,
        rest.2,
      )
