-- ===== src/Settlement/Balance.antt =====
-- src/internal/settlement/balance.go: the balances on the chain that are cached for each wallet, and
-- what it has spent that is not settled yet. A method runs under the mutex, so it is one step.
pub mod Refresh
pub mod Credit
use openmodel_gateway.Prelude.{
  ℕ, Bool, true, false, ◌&&◌, not, List, [], ◌∷◌, ◌++◌, String, Dict, lookup, insert, erase, Option,
  none, some, ◌==◌, string_eq, if◌then◌else◌, length, anyb,
}
use openmodel_gateway.Prelude.Int.{ℤ, is_pos}
use openmodel_gateway.Settlement.Floats.{BigFloat, wei_to_float}
use openmodel_gateway.Settlement.Records.{RequestRecord}
use openmodel_gateway.Settlement.Aggregator.{TokenConfig, Pricer}

module _ (b : BigFloat) where
  open b use {F, nought, add, sub, mul, is_positive, is_negative, less, dust}

  pub record BalanceCache : Type 0 where
    pub chain_balances : Dict String (Dict String ℤ)
    pub pending_spend : Dict String F
    pub tokens : List TokenConfig
    pub wallets : List String
    pub min_balance_fil : Option F
    pub max_pending_spend_fil : Option F
    pub suspend_threshold : Option F
    pub suspended : Dict String F

  -- What the pricer answers at the time of a call.
  pub record Market : Type 0 where
    pub fil_price : F
    pub pricer : Pricer b

  unfoldable pub set_debt_suspension : Option F → BalanceCache → BalanceCache
  set_debt_suspension t bc = record bc { suspend_threshold = t }

  unfoldable pub suspend_all : F → Dict String F → Dict String F → Dict String F
  suspend_all threshold [] s = s
  suspend_all threshold ((wallet, debt) ∷ ds) s =
      suspend_all threshold ds
        (if is_positive debt && not (less debt threshold) then insert wallet debt s else s)

  unfoldable pub update_debts : Dict String F → BalanceCache → BalanceCache
  update_debts debts bc = elim bc.suspend_threshold [
    | none ↦ record bc { suspended = [] }
    | some t ↦ record bc { suspended = suspend_all t debts [] }
  ]

  unfoldable pub is_suspended : String → BalanceCache → Option F
  is_suspended wallet bc = lookup wallet bc.suspended

  unfoldable pub suspended_count : BalanceCache → ℕ
  suspended_count bc = length bc.suspended

  unfoldable pub set_credit_limits : Option F → Option F → BalanceCache → BalanceCache
  set_credit_limits least most bc = record bc {
    min_balance_fil = least;
    max_pending_spend_fil = most;
  }

  unfoldable pub new_balance_cache : List TokenConfig → BalanceCache
  new_balance_cache tokens = record {
    chain_balances = [];
    pending_spend = [];
    tokens = tokens;
    wallets = [];
    min_balance_fil = none;
    max_pending_spend_fil = none;
    suspend_threshold = none;
    suspended = [];
  }

  unfoldable pub set_wallets : List String → BalanceCache → BalanceCache
  set_wallets ws bc = record bc { wallets = ws }

  -- The list of wallets; `equal_fold` is the strings library's comparison without case. A wallet that
  -- is added is then refreshed in the background.
  unfoldable pub add_wallet : (String → String → Bool) → String → BalanceCache → BalanceCache
  add_wallet equal_fold wallet bc =
      if wallet == ""
      then bc
      else if anyb (λ w. equal_fold w wallet) bc.wallets
      then bc
      else record bc { wallets = bc.wallets ++ wallet ∷ [] }

  abbrev pub pending_of : String → Dict String F → F
  pending_of wallet m = elim (lookup wallet m) [ none ↦ nought | some p ↦ p ]

  abbrev is_set : Option F → Bool
  is_set none = false
  is_set (some f) = is_positive f

  abbrev or_nought : Option F → F
  or_nought none = nought
  or_nought (some f) = f

  -- The loop over the tokens that are held.
  unfoldable pub value_tokens : Market → Dict String ℤ → List TokenConfig → F → F
  value_tokens m held [] total = total
  value_tokens m held (t ∷ ts) total = value_tokens m held ts (elim (lookup t.address held) [
    | none ↦ total
    | some balance ↦
        if not (is_pos balance)
        then total
        else let amount = wei_to_float b balance t.decimals in
          if t.symbol == "FIL"
          then add total (mul amount m.fil_price)
          else if m.pricer.is_stablecoin_depegged t.symbol
          then total
          else add total (mul amount (m.pricer.stablecoin_price_usd t.symbol))
  ])

  unfoldable pub available_usd : Market → String → BalanceCache → F
  available_usd m wallet bc =
      let held : Dict String ℤ = elim (lookup wallet bc.chain_balances) [
        | none ↦ []
        | some h ↦ h
      ] in
      let total = value_tokens m held bc.tokens nought in
      let unspent : F = elim (lookup wallet bc.pending_spend) [
        | none ↦ total
        | some p ↦ sub total p
      ] in
      if is_set bc.min_balance_fil
      then sub unspent (mul (or_nought bc.min_balance_fil) m.fil_price)
      else unspent

  unfoldable pub has_sufficient_balance : Market → String → F → BalanceCache → Bool
  has_sufficient_balance m wallet cost bc = not (less (available_usd m wallet bc) cost)

  unfoldable pub over_cap : Market → F → BalanceCache → Bool
  over_cap m pending bc =
      is_set bc.max_pending_spend_fil
      && less (mul (or_nought bc.max_pending_spend_fil) m.fil_price) pending

  unfoldable pub reserve : Market → String → F → BalanceCache → Bool × BalanceCache
  reserve m wallet cost bc =
      if less (available_usd m wallet bc) cost
      then (false, bc)
      else let pending = add (pending_of wallet bc.pending_spend) cost in
        if over_cap m pending bc
        then (false, bc)
        else (true, record bc { pending_spend = insert wallet pending bc.pending_spend })

  unfoldable pub adjust : String → F → F → BalanceCache → BalanceCache
  adjust wallet estimated actual bc = elim (lookup wallet bc.pending_spend) [
    | none ↦ bc
    | some pending ↦
        let left = sub pending (sub estimated actual) in
        record bc {
          pending_spend =
              insert wallet (if is_negative left then nought else left) bc.pending_spend;
        }
  ]

  unfoldable pub settle_spend : String → F → BalanceCache → BalanceCache
  settle_spend wallet settled bc = elim (lookup wallet bc.pending_spend) [
    | none ↦ bc
    | some pending ↦
        let left = sub pending settled in
        if not (is_positive left)
        then record bc { pending_spend = erase wallet bc.pending_spend }
        else if less left dust
        then record bc { pending_spend = erase wallet bc.pending_spend }
        else record bc { pending_spend = insert wallet left bc.pending_spend }
  ]

  unfoldable pub add_pending_spend : String → F → BalanceCache → BalanceCache
  add_pending_spend wallet usd bc =
      if is_positive usd
      then record bc {
        pending_spend =
            insert wallet (add (pending_of wallet bc.pending_spend) usd) bc.pending_spend;
      }
      else bc

  unfoldable pub get_pending_spend : String → BalanceCache → F
  get_pending_spend wallet bc = pending_of wallet bc.pending_spend

  unfoldable pub total_of : Dict String F → F → F
  total_of [] total = total
  total_of ((w, p) ∷ ps) total = total_of ps (add total p)

  unfoldable pub total_pending_spend_usd : BalanceCache → F
  total_pending_spend_usd bc = total_of bc.pending_spend nought

  unfoldable pub restore_pending_spend :
      (RequestRecord → F) → List RequestRecord → BalanceCache → BalanceCache
  unfolding add_pending_spend
  restore_pending_spend cost [] bc = bc
  restore_pending_spend cost (rec ∷ recs) bc =
      restore_pending_spend cost recs (add_pending_spend rec.wallet (cost rec) bc)

  unfoldable pub get_all_balances : BalanceCache → Dict String (Dict String ℤ)
  get_all_balances bc = bc.chain_balances
