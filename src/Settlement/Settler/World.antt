-- ===== src/Settlement/Settler/World.antt =====
-- src/internal/settlement/settler.go: what the settler works on, and the reversal of items that the
-- chain has skipped.
use openmodel_gateway.Prelude.{
  ℕ, Bool, true, ◌||◌, not, List, [], ◌∷◌, ◌++◌, map, String, Dict, insert, Option, none, some,
  ◌==◌, nat_eq, string_eq, if◌then◌else◌, length, get_elem?, ◌>>=◌,
}
use openmodel_gateway.Prelude.Int.{ℤ}
use openmodel_gateway.Settlement.Floats.{BigFloat}
use openmodel_gateway.Settlement.Balance.{BalanceCache}
use openmodel_gateway.Settlement.Settler.{
  Cursor, DebtRecord, PendingItem, PendingBatch, PendingSettlement, SettledTotalFile,
  SettlementBatch, SettlementOutcome, WalFile, held,
}

-- The answers of `WaitForFinality`: a receipt or none, `ErrReorged`, or another error.
pub data Finality (Receipt : Type 0) : Type 0 where
  final : Option Receipt → Finality Receipt
  reorged : Finality Receipt
  undecided : Finality Receipt

-- The settler's interface to the chain. A call may change the chain; `none` stands for an error.
pub record SettlementContract : Type 1 where
  pub Chain : Type 0
  pub Tx : Type 0
  pub Receipt : Type 0
  pub is_processed_batch : List ℕ → Chain → Option Bool × Chain
  pub submit_settlement : SettlementBatch (List ℕ) → Chain → Option Tx × Chain
  pub wait_for_receipt : Tx → Chain → Option Receipt × Chain
  pub wait_for_finality : Tx → ℕ → Chain → Finality Receipt × Chain
  pub parse_settlement_outcome : Receipt → SettlementOutcome
  pub get_user_balance : Chain → ℕ → String → String → Option ℤ

-- Library functions on text: decimals in both directions, hexadecimals, addresses, and the comparison
-- without case.
pub record Codec (F : Type 0) : Type 0 where
  pub parse_float : String → Option F
  pub text : F → String
  pub set_string : String → Option ℤ
  pub decode_hex : String → Option (List ℕ)
  pub hex_to_address : String → String
  pub equal_fold : String → String → Bool

pub data SettleError : Type 0 where
  read_wal : SettleError
  bad_hash : String → SettleError
  persist_progress : SettleError
  decode_batch : SettleError
  submit : ℕ → SettleError
  confirm_receipt : ℕ → SettleError
  reorg : ℕ → SettleError
  await_finality : ℕ → SettleError
  commit_cursor_failed : SettleError

module _ (b : BigFloat) (c : SettlementContract) (codec : Codec b.F) where
  open b use {F, nought, add, sub, is_positive, is_negative}

  -- The settler's files, the chain, and the cache. `writes` says of the writes to come whether they
  -- succeed; those past its end do. `ledger` stands for the three logs of confirmed batches.
  pub record World : Type 0 where
    pub wal : WalFile
    pub cursor : Cursor
    pub debts : List DebtRecord
    pub total : Option SettledTotalFile
    pub ledger : List (PendingBatch × c.Tx × c.Receipt)
    pub cache : BalanceCache b
    pub chain : c.Chain
    pub writes : List Bool

  abbrev pub succeeds : List Bool → Bool
  succeeds [] = true
  succeeds (ok ∷ rest) = ok

  abbrev pub later : List Bool → List Bool
  later [] = []
  later (ok ∷ rest) = rest

  unfoldable pub write_pending : PendingSettlement → World → Bool × World
  write_pending p w = (
    succeeds w.writes,
    record w { wal = if succeeds w.writes then held p else w.wal; writes = later w.writes },
  )

  unfoldable pub hex_to_hash32 : String → Option (List ℕ)
  hex_to_hash32 s = elim (codec.decode_hex s) [
    | none ↦ none
    | some bytes ↦ if length bytes == 32 then some bytes else none
  ]

  unfoldable pub parse_amounts : List PendingItem → Option (List ℤ)
  parse_amounts [] = some []
  parse_amounts (i ∷ is) = do
    amount ← codec.set_string i.amount
    rest ← parse_amounts is
    some (amount ∷ rest)

  unfoldable pub to_batch : PendingBatch → List ℕ → Option (SettlementBatch (List ℕ))
  to_batch pb hash = do
    amounts ← parse_amounts pb.items
    some (record {
      users = map (λ i. codec.hex_to_address i.user) pb.items;
      sps = map (λ i. codec.hex_to_address i.sp) pb.items;
      amounts = amounts;
      tokens = map (λ i. codec.hex_to_address i.token) pb.items;
      request_counts = map (λ i. i.request_count) pb.items;
      token_counts = map (λ i. i.token_count) pb.items;
      details_hash = hash;
    })

  -- The wallet of the plan that is the item's user, in the map's order.
  unfoldable pub wallet_of : String → Dict String String → Option (String × String)
  wallet_of user [] = none
  wallet_of user ((wallet, usd) ∷ rest) =
      if codec.equal_fold wallet user then some (wallet, usd) else wallet_of user rest

  unfoldable pub reverse_item : PendingItem → PendingSettlement → PendingSettlement
  reverse_item it p = elim (codec.parse_float it.amount_usd) [
    | none ↦ p
    | some usd ↦
        if it.amount_usd == "" || not (is_positive usd)
        then p
        else elim (wallet_of it.user p.settled_usd) [
          | none ↦ p
          | some (wallet, planned) ↦
              let cur : F = elim (codec.parse_float planned) [ none ↦ nought | some f ↦ f ] in
              let left = sub cur usd in
              record p {
                settled_usd =
                    insert wallet (codec.text (if is_negative left then nought else left))
                      p.settled_usd;
                remaining_debts =
                    p.remaining_debts
                    ++ record {
                      wallet = wallet;
                      sp_evm = it.sp;
                      usd = codec.text usd;
                      request_ids = it.request_ids;
                    }
                      ∷ [];
              }
        ]
  ]

  unfoldable pub reverse_indexes : List ℕ → List PendingItem → PendingSettlement → PendingSettlement
  reverse_indexes [] items p = p
  reverse_indexes (i ∷ is) items p =
      reverse_indexes is items (elim (get_elem? items i) [ none ↦ p | some it ↦ reverse_item it p ])

  unfoldable pub reverse_failed_items :
      PendingBatch → SettlementOutcome → PendingSettlement → PendingSettlement
  reverse_failed_items pb o p =
      if not o.found
      then p
      else if o.failed_count == 0
      then p
      else reverse_indexes o.failed_indexes pb.items p
