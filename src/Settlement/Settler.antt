-- ===== src/Settlement/Settler.antt =====
-- src/internal/settlement/settler.go: the plan of a cycle, frozen into a file (the WAL) and carried out
-- batch by batch on the chain.
pub mod Batches
pub mod World
pub mod Resume
pub mod Paths
pub mod Progress
pub mod Completion
pub mod Totals
pub use openmodel_gateway.Settlement.Scanner.{Cursor}
use openmodel_gateway.Prelude.{
  ℕ, zero, suc, ◌+◌, ◌-◌, Bool, true, false, not, List, [], ◌∷◌, ◌++◌, String, Dict, lookup, insert,
  Option, none, some, ◌==◌, nat_eq, string_eq, if◌then◌else◌, ltb, leb, length, take, drop,
  get_elem?,
}
use openmodel_gateway.Prelude.Int.{ℤ, pos_part, is_pos}
use openmodel_gateway.Settlement.Floats.{BigFloat}
use openmodel_gateway.Settlement.Balance.{BalanceCache, settle_spend, update_debts}

pub record DebtRecord : Type 0 where
  pub wallet : String
  pub sp_evm : String
  pub usd : String
  pub request_ids : List String

pub record PendingItem : Type 0 where
  pub user : String
  pub sp : String
  pub amount : String
  pub token : String
  pub amount_usd : String
  pub request_ids : List String
  pub request_count : ℤ
  pub token_count : ℤ

pub record PendingBatch : Type 0 where
  pub details_hash : String
  pub confirmed : Bool
  pub items : List PendingItem

pub record PendingSettlement : Type 0 where
  pub cursor_to_commit : Cursor
  pub settled_usd : Dict String String
  pub remaining_debts : List DebtRecord
  pub batches : List PendingBatch
  pub created_at : ℕ

-- `TotalUSD` and the time of the last plan that is counted in it.
pub record SettledTotalFile : Type 0 where
  pub total_usd : String
  pub last_wal : ℕ

pub record SettlementBatch (Hash : Type 0) : Type 0 where
  pub users : List String
  pub sps : List String
  pub amounts : List ℤ
  pub tokens : List String
  pub request_counts : List ℤ
  pub token_counts : List ℤ
  pub details_hash : Hash

pub record SettlementOutcome : Type 0 where
  pub settled_count : ℕ
  pub failed_count : ℕ
  pub failed_indexes : List ℕ
  pub found : Bool

-- The pending plan's file: absent, not to be read or parsed, or there.
pub data WalFile : Type 0 where
  absent : WalFile
  unreadable : WalFile
  held : PendingSettlement → WalFile

module _ {ℓ} {A : Type ℓ} where
  -- The loop `for i := 0; i < len(items); i += maxSize`; fuel is the number of items.
  unfoldable pub split_loop : ℕ → ℕ → List A → List (List A)
  split_loop zero size items = []
  split_loop (suc fuel) size [] = []
  split_loop (suc fuel) size (x ∷ xs) =
      take size (x ∷ xs) ∷ split_loop fuel size (drop size (x ∷ xs))

  unfoldable pub split_batches : List A → ℤ → List (List A)
  split_batches items max_size =
      let size = if is_pos max_size then pos_part max_size else 50 in
      if length items == 0
      then []
      else if leb (length items) size
      then items ∷ []
      else split_loop (length items) size items
