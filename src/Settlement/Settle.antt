-- ===== src/Settlement/Settle.antt =====
-- src/internal/settlement/settler.go: a settlement cycle, `Settle`, and the dead letters, the records whose
-- worker has no payout address yet.
pub mod Deferral
pub mod DeadLetters
use openmodel_gateway.Prelude.{
  ℕ, Bool, true, false, ◌&&◌, not, List, [], ◌∷◌, ◌++◌, map, String, Dict, insert, lookup, Option,
  none, some, ◌==◌, ◌/=◌, string_eq, if◌then◌else◌,
}
use openmodel_gateway.Prelude.Int.{ℤ}
use openmodel_gateway.Settlement.Floats.{BigFloat}
use openmodel_gateway.Settlement.Records.{RequestRecord}
use openmodel_gateway.Settlement.Pricing.{record_cost}
use openmodel_gateway.Settlement.Scanner.{LogDir, peek, Peeked}
use openmodel_gateway.Settlement.Aggregator.{Aggregator, SettlementItem, CarriedDebt}
use openmodel_gateway.Settlement.Aggregator.Cycle.{aggregate_with_debts}
use openmodel_gateway.Settlement.Balance.{
  BalanceCache, get_all_balances, add_pending_spend, update_debts, restore_pending_spend,
}
use openmodel_gateway.Settlement.Merkle.{Digest}
use openmodel_gateway.Settlement.Settler.{DebtRecord, PendingSettlement}
use openmodel_gateway.Settlement.Settler.World.{
  SettlementContract, Codec, World, write_pending, succeeds, later, SettleError,
}
use openmodel_gateway.Settlement.Settler.Resume.{resume_pending}
use openmodel_gateway.Settlement.Leaves.{Printer, build_pending}

-- The last step that a cycle came to.
pub data Ended : Type 0 where
  resume_failed : SettleError → Ended
  scan_failed : Ended
  nothing_new : Ended
  price_stale : Ended
  plan_unwritten : Ended
  settle_failed : SettleError → Ended
  complete : Ended

-- What a cycle reads beside the settler's own files.
pub record Inputs (b : BigFloat) : Type 0 where
  pub dir : LogDir
  pub worker_sp_map : Dict String String
  pub miner_payout_map : Dict String String
  pub is_stale : Bool
  pub fil_price : Option b.F
  pub now : ℕ

unfoldable pub records_by_id :
    List RequestRecord → Dict String RequestRecord → Dict String RequestRecord
records_by_id [] m = m
records_by_id (r ∷ rs) m =
    records_by_id rs (if r.request_id /= "" then insert r.request_id r m else m)

abbrev pub is_empty {ℓ} : {A : Type ℓ} → List A → Bool
is_empty [] = true
is_empty (x ∷ xs) = false

module _ (b : BigFloat) (codec : Codec b.F) where
  unfoldable pub load_debts : List DebtRecord → List (CarriedDebt b)
  load_debts [] = []
  load_debts (d ∷ ds) =
      let rest = load_debts ds in
      elim (codec.parse_float d.usd) as (λ _. List (CarriedDebt b)) [
        | none ↦ rest
        | some usd ↦
            if b.is_positive usd
            then record {
              wallet = d.wallet;
              sp_evm = d.sp_evm;
              usd = usd;
              request_ids = d.request_ids;
            }
              ∷ rest
            else rest
      ]

  unfoldable pub carried_debts_to_records : List (CarriedDebt b) → List DebtRecord
  carried_debts_to_records [] = []
  carried_debts_to_records (d ∷ ds) =
      record {
        wallet = d.wallet;
        sp_evm = d.sp_evm;
        usd = codec.text d.usd;
        request_ids = d.request_ids;
      }
      ∷ carried_debts_to_records ds

  unfoldable pub float_map_to_strings : Dict String b.F → Dict String String
  float_map_to_strings [] = []
  float_map_to_strings ((k, v) ∷ m) = (k, codec.text v) ∷ float_map_to_strings m

  abbrev add_debts_pending : List (CarriedDebt b) → BalanceCache b → BalanceCache b
  add_debts_pending [] bc = bc
  add_debts_pending (d ∷ ds) bc = add_debts_pending ds (add_pending_spend b d.wallet d.usd bc)

  abbrev debt_by_wallet : List (CarriedDebt b) → Dict String b.F → Dict String b.F
  debt_by_wallet [] m = m
  debt_by_wallet (d ∷ ds) m = debt_by_wallet ds (
      if b.is_positive d.usd
      then insert d.wallet
          (elim (lookup d.wallet m) as (λ _. b.F) [ none ↦ d.usd | some cur ↦ b.add cur d.usd ]) m
      else m)

module _ (b : BigFloat) (c : SettlementContract) (codec : Codec b.F) (t : Printer)
    (decode : List ℕ → Option RequestRecord) (batch_hash : List (SettlementItem b) → Digest)
    (depth : ℕ) (max_batch : ℤ) where
  -- The settler with its aggregator and the file of dead letters, in order.
  pub record Settler : Type 1 where
    pub world : World b c codec
    pub aggregator : Aggregator b
    pub dead_letters : List RequestRecord

  -- The file is replaced as a whole, or stays as it is where the write fails.
  unfoldable pub write_dead_letter : List RequestRecord → Settler → Settler
  write_dead_letter records s = record s {
    dead_letters = if succeeds b c codec s.world.writes then records else s.dead_letters;
    world = record (s.world) { writes = later b c codec s.world.writes };
  }

  pub record Cycle : Type 1 where
    pub ended : Ended
    pub settler : Settler

  -- The plan is written and carried out.
  unfoldable pub carry_out : PendingSettlement → Settler → Cycle
  carry_out p s =
      let wrote = write_pending b c codec p s.world in
      let ran = resume_pending b c codec depth wrote.1 in
      if not wrote.0
      then record { ended = plan_unwritten; settler = record s { world = wrote.1 } }
      else record {
        ended = elim ran.0 as (λ _. Ended) [ none ↦ complete | some e ↦ settle_failed e ];
        settler = record s { world = ran.1 };
      }

  -- The cycle over what the scan gave: records, dead letters before them, and debts.
  unfoldable pub settle_records : Inputs b → Peeked → Settler → Cycle
  settle_records i p s =
      let carried = load_debts b codec s.world.debts in
      let records = s.dead_letters ++ p.records in
      let made =
        aggregate_with_debts b s.aggregator records carried i.fil_price
          (get_all_balances b s.world.cache) in
      let plan =
        build_pending t b (records_by_id records []) batch_hash codec.text max_batch i.now
          (made.0).items p.cursor (float_map_to_strings b codec (made.0).settled_per_wallet)
          (carried_debts_to_records b codec (made.0).remaining_debts) in
      if is_empty p.records && is_empty s.dead_letters && is_empty carried
      then record { ended = nothing_new; settler = s }
      else if i.is_stale
      then record { ended = price_stale; settler = s }
      else carry_out plan (write_dead_letter made.1 s)

  unfoldable pub refresh_maps : Inputs b → Settler → Settler
  refresh_maps i s = record s {
    aggregator = record (s.aggregator) {
      worker_sp_map = i.worker_sp_map;
      miner_payout_map = i.miner_payout_map;
    };
  }

  unfoldable pub settle : Inputs b → Settler → Cycle
  settle i s =
      let resumed = resume_pending b c codec depth s.world in
      let s' : Settler = refresh_maps i (record s { world = resumed.1 }) in
      elim resumed.0 as (λ _. Cycle) [
        | some e ↦ record { ended = resume_failed e; settler = record s { world = resumed.1 } }
        | none ↦ elim (peek decode (some s'.world.cursor) i.dir) as (λ _. Cycle) [
          | none ↦ record { ended = scan_failed; settler = s' }
          | some p ↦ settle_records i p s'
        ]
      ]

  -- At start: what is consumed and not settled counts as pending again.
  unfoldable pub restore_pending : LogDir → Settler → BalanceCache b
  restore_pending dir s =
      let carried = load_debts b codec s.world.debts in
      let owed =
        update_debts b (debt_by_wallet b codec carried [])
          (add_debts_pending b codec carried s.world.cache) in
      let dead = restore_pending_spend b (record_cost b s.aggregator.prices) s.dead_letters owed in
      elim (peek decode (some s.world.cursor) dir) as (λ _. BalanceCache b) [
        | none ↦ dead
        | some p ↦ restore_pending_spend b (record_cost b s.aggregator.prices) p.records dead
      ]
