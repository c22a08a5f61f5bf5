-- ===== src/Settlement/Aggregator.antt =====
-- src/internal/settlement/aggregator.go: the costs of each wallet with each SP, allocated to the
-- balances of the wallet.
pub mod Conservation
pub mod Cycle
pub mod Completeness
use Prim.Native.String.{compare}
use Prim.Native.Nat.{Ordering}
use openmodel_gateway.Prelude.{
  ℕ, ◌≡◌, refl, Bool, true, false, ◌&&◌, ◌||◌, not, List, [], ◌∷◌, ◌++◌, String, Dict, lookup,
  insert, Option, none, some, ◌==◌, ◌/=◌, string_eq, if◌then◌else◌, Comparable, ◌↔◌, arith,
}
use openmodel_gateway.Prelude.Int.{ℤ, pos, ◌+ℤ◌, ◌-ℤ◌, ltb_ℤ, is_pos}
use openmodel_gateway.Settlement.Floats.{BigFloat, float_to_wei, wei_to_float}
use openmodel_gateway.Settlement.Records.{RequestRecord}
use openmodel_gateway.Settlement.Pricing.{Prices, record_cost}

pub record TokenConfig : Type 0 where
  pub symbol : String
  pub address : String
  pub decimals : ℕ

pub record AggregationKey : Type 0 where
  pub wallet : String
  pub sp_evm : String

abbrev pub key_beq : AggregationKey → AggregationKey → Bool
key_beq a b = a.wallet == b.wallet && a.sp_evm == b.sp_evm

pub key_beq_iff : (a b : AggregationKey) → (key_beq a b ≡ true) ↔ (a ≡ b)
key_beq_iff a b = (
  λ e. ground (arith, string_eq.same_iff a.wallet b.wallet, string_eq.same_iff a.sp_evm b.sp_evm),
  λ e. ground (arith, string_eq.same_iff a.wallet b.wallet, string_eq.same_iff a.sp_evm b.sp_evm),
)

abbrev pub less_text : String → String → Bool
less_text s t = elim (compare s t) [ Ordering.lt ↦ true | _ ↦ false ]

module _ (b : BigFloat) where
  open b use {F, nought, add, sub, mul, quo, is_positive, of_int}

  pub record SettlementItem : Type 0 where
    pub user_wallet : String
    pub user_evm : String
    pub sp_evm : String
    pub amount : ℤ
    pub token_addr : String
    pub token_info : TokenConfig
    pub amount_usd : F
    pub total_token_count : ℤ
    pub request_ids : List String

  pub record CarriedDebt : Type 0 where
    pub wallet : String
    pub sp_evm : String
    pub usd : F
    pub request_ids : List String

  -- The pricer's verdicts on a stablecoin.
  pub record Pricer : Type 0 where
    pub is_stablecoin_depegged : String → Bool
    pub stablecoin_price_usd : String → F

  -- `hex_to_address` is the Ethereum library's reading of an address, in its checksummed form.
  pub record Aggregator : Type 0 where
    pub prices : Prices b
    pub sp_address_map : Dict String String
    pub miner_payout_map : Dict String String
    pub worker_sp_map : Dict String String
    pub tokens : List TokenConfig
    pub deduct_priority : List String
    pub pricer : Option Pricer
    pub hex_to_address : String → String

  unfoldable pub resolve_worker_to_evm : Aggregator → String → String
  resolve_worker_to_evm a id = elim (lookup id a.worker_sp_map) [
    | none ↦ ""
    | some miner ↦
        let static : String = elim (lookup miner a.sp_address_map) [ none ↦ "" | some evm ↦ evm ] in
        elim (lookup miner a.miner_payout_map) [
          | none ↦ static
          | some evm ↦ if evm == "" then static else evm
        ]
  ]

  unfoldable pub find_token : String → List TokenConfig → Option TokenConfig
  find_token symbol [] = none
  find_token symbol (t ∷ ts) = if t.symbol == symbol then some t else find_token symbol ts

  unfoldable pub is_depegged : Aggregator → String → Bool
  is_depegged a symbol =
      symbol /= "FIL" && elim a.pricer [ none ↦ false | some p ↦ p.is_stablecoin_depegged symbol ]

  unfoldable pub price_of : Aggregator → F → String → F
  price_of a fil symbol =
      if symbol == "FIL"
      then fil
      else elim a.pricer [ none ↦ of_int (pos 1) | some p ↦ p.stablecoin_price_usd symbol ]

  -- The variables of the loop over the tokens.
  pub record Allocation : Type 0 where
    pub remaining : F
    pub working : Dict String ℤ
    pub items : List SettlementItem

  -- One (wallet, SP) cost to be allocated.
  pub record Cost : Type 0 where
    pub key : AggregationKey
    pub total_usd : F
    pub total_tokens : ℤ
    pub request_ids : List String

  -- The end of a round: an amount above 0 leaves the balance and becomes an item.
  unfoldable pub book : SettlementItem → ℤ → F → Allocation → Allocation
  book item balance left s =
      if is_pos item.amount
      then record {
        remaining = left;
        working = insert item.token_info.address (balance -ℤ item.amount) s.working;
        items = s.items ++ item ∷ [];
      }
      else record { remaining = left; working = s.working; items = s.items }

  -- A token that is configured, held and not depegged.
  unfoldable pub deduct : Aggregator → F → Cost → TokenConfig → ℤ → Allocation → Allocation
  deduct a fil c token balance s =
      let price = price_of a fil token.symbol in
      let wanted = float_to_wei b (quo s.remaining price) token.decimals in
      let short = ltb_ℤ balance wanted in
      let used = mul (wei_to_float b balance token.decimals) price in
      book
        (record {
          user_wallet = c.key.wallet;
          user_evm = a.hex_to_address c.key.wallet;
          sp_evm = a.hex_to_address c.key.sp_evm;
          amount = if short then balance else wanted;
          token_addr = a.hex_to_address token.address;
          token_info = token;
          amount_usd = if short then used else s.remaining;
          total_token_count = c.total_tokens;
          request_ids = c.request_ids;
        })
        balance (if short then sub s.remaining used else nought) s

  -- One round of the loop; a round past the `break` changes nothing. A token is found by its symbol.
  unfoldable pub allocate_token : Aggregator → F → Cost → Allocation → String → Allocation
  allocate_token a fil c s symbol =
      if not (is_positive s.remaining) then s else elim (find_token symbol a.tokens) [
        | none ↦ s
        | some token ↦ elim (lookup token.address s.working) [
          | none ↦ s
          | some balance ↦
              if not (is_pos balance)
              then s
              else if is_depegged a symbol
              then s
              else deduct a fil c token balance s
        ]
      ]

  unfoldable pub allocate_loop : Aggregator → F → Cost → List String → Allocation → Allocation
  allocate_loop a fil c [] s = s
  allocate_loop a fil c (symbol ∷ rest) s =
      allocate_loop a fil c rest (allocate_token a fil c s symbol)

  -- The items, the shortfall and the balances that are left.
  unfoldable pub allocate : Aggregator → F → Cost → Dict String ℤ → Allocation
  allocate a fil c working =
      allocate_loop a fil c a.deduct_priority
        (record { remaining = c.total_usd; working = working; items = [] })
