-- ===== src/Settlement/Balance/Credit.antt =====
-- src/internal/settlement/balance.go: what `Reserve` lets a wallet spend.
use openmodel_gateway.Prelude.{◌≡◌, Bool, false, List, [], ◌∷◌, String, if-holds, string_eq}
use openmodel_gateway.Prelude.Entries.{Entries, Entries-insert}
use openmodel_gateway.Settlement.Floats.{BigFloat}
use openmodel_gateway.Settlement.Balance.{
  BalanceCache, Market, reserve, over_cap, available_usd, pending_of,
}

module _ (b : BigFloat) where
  abbrev pub IsCapped : Market b → BalanceCache b → Type 0
  IsCapped m bc = Entries (λ w p. over_cap b m p bc ≡ false) bc.pending_spend

  reserve-IsCapped :
      (m : Market b) (wallet : String) (cost : b.F) (bc : BalanceCache b)
      → IsCapped m bc
      → IsCapped m (reserve b m wallet cost bc).1
  unfolding reserve over_cap
  reserve-IsCapped m wallet cost bc h =
      let pending = b.add (pending_of b wallet bc.pending_spend) cost in
      if-holds {A = Bool × BalanceCache b} (λ r. IsCapped m r.1)
        (b.less (available_usd b m wallet bc) cost) (λ poor. h)
        (λ rich.
          if-holds {A = Bool × BalanceCache b} (λ r. IsCapped m r.1) (over_cap b m pending bc)
            (λ over. h)
            (λ within.
              Entries-insert (λ w p. over_cap b m p bc ≡ false) wallet pending bc.pending_spend h
                within))

  -- The requests of any wallets, each granted or refused in turn.
  unfoldable pub reserve_all : Market b → List (String × b.F) → BalanceCache b → BalanceCache b
  reserve_all m [] bc = bc
  reserve_all m ((wallet, cost) ∷ rest) bc = reserve_all m rest (reserve b m wallet cost bc).1

  -- However many requests are made, no wallet's unsettled spend is above the cap at that price, if none
  -- was before.
  pub reserve_all-IsCapped :
      (m : Market b) (requests : List (String × b.F)) (bc : BalanceCache b)
      → IsCapped m bc
      → IsCapped m (reserve_all m requests bc)
  unfolding reserve_all
  reserve_all-IsCapped m [] bc h = h
  reserve_all-IsCapped m ((wallet, cost) ∷ rest) bc h =
      reserve_all-IsCapped m rest (reserve b m wallet cost bc).1
        (reserve-IsCapped m wallet cost bc h)
