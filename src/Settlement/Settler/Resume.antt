-- ===== src/Settlement/Settler/Resume.antt =====
-- src/internal/settlement/settler.go: `resumePending`, batch by batch, and the commit at its end.
use openmodel_gateway.Prelude.{
  ℕ, zero, suc, Bool, true, false, ◌&&◌, not, List, [], ◌∷◌, ◌++◌, String, Dict, lookup, insert,
  Option, none, some, ◌==◌, ◌/=◌, nat_eq, string_eq, if◌then◌else◌,
}
use openmodel_gateway.Settlement.Floats.{BigFloat}
use openmodel_gateway.Settlement.Balance.{BalanceCache, settle_spend, update_debts}
use openmodel_gateway.Settlement.Balance.Refresh.{refresh_all}
use openmodel_gateway.Settlement.Settler.{
  DebtRecord, PendingBatch, PendingSettlement, SettledTotalFile, absent, unreadable, held,
}
use openmodel_gateway.Settlement.Settler.World.{
  final, reorged, undecided, SettlementContract, Codec, SettleError, read_wal, bad_hash,
  persist_progress, decode_batch, submit, confirm_receipt, reorg, await_finality,
  commit_cursor_failed, World, succeeds, later, write_pending, hex_to_hash32, to_batch,
  reverse_failed_items,
}

-- `b.Confirmed = true` for the i-th batch.
abbrev pub confirm_at : ℕ → List PendingBatch → List PendingBatch
confirm_at i [] = []
confirm_at zero (pb ∷ pbs) = record pb { confirmed = true } ∷ pbs
confirm_at (suc i) (pb ∷ pbs) = pb ∷ confirm_at i pbs

abbrev pub is_yes : Option Bool → Bool
is_yes none = false
is_yes (some answer) = answer

module _ (b : BigFloat) (c : SettlementContract) (codec : Codec b.F) where
  open b use {F, nought, add, is_positive}

  -- Where a call of `resumePending` stands: the plan in memory and the world.
  pub record Run : Type 0 where
    pub error : Option SettleError
    pub plan : PendingSettlement
    pub world : World b c codec

  unfoldable pub stop : SettleError → PendingSettlement → World b c codec → Run
  stop e p w = record { error = some e; plan = p; world = w }

  unfoldable pub persist_confirm : ℕ → PendingSettlement → World b c codec → Run
  persist_confirm i p w =
      let p' : PendingSettlement = record p { batches = confirm_at i p.batches } in
      let r = write_pending b c codec p' w in
      record { error = if r.0 then none else some persist_progress; plan = p'; world = r.1 }

  -- A batch that is final: its skipped items are reversed, and it is persisted before it is logged.
  unfoldable pub settle_batch :
      ℕ → PendingBatch → c.Tx → c.Receipt → PendingSettlement → World b c codec → Run
  settle_batch i pb tx receipt p w =
      let p' = reverse_failed_items b c codec pb (c.parse_settlement_outcome receipt) p in
      let r = persist_confirm i p' w in
      elim r.error [
        | some e ↦ stop e r.plan r.world
        | none ↦ record {
          error = none;
          plan = r.plan;
          world = record r.world { ledger = r.world.ledger ++ (pb, tx, receipt) ∷ [] };
        }
      ]

  unfoldable pub finalize :
      ℕ → ℕ → PendingBatch → List ℕ → c.Tx → c.Receipt → PendingSettlement → World b c codec → Run
  finalize depth i pb hash tx receipt p w =
      if depth == 0
      then settle_batch i pb tx receipt p w
      else let f = c.wait_for_finality tx depth w.chain in
        elim f.0 [
          | final o ↦ elim o [
            | none ↦ settle_batch i pb tx receipt p (record w { chain = f.1 })
            | some last ↦ settle_batch i pb tx last p (record w { chain = f.1 })
          ]
          | undecided ↦ stop (await_finality i) p (record w { chain = f.1 })
          | reorged ↦
              let q = c.is_processed_batch hash f.1 in
              if is_yes q.0
              then settle_batch i pb tx receipt p (record w { chain = q.1 })
              else stop (reorg i) p (record w { chain = q.1 })
        ]

  unfoldable pub submit_batch :
      ℕ → ℕ → PendingBatch → List ℕ → PendingSettlement → World b c codec → Run
  submit_batch depth i pb hash p w = elim (to_batch b c codec pb hash) [
    | none ↦ stop decode_batch p w
    | some batch ↦
        let s = c.submit_settlement batch w.chain in
        elim s.0 [
          | none ↦ stop (submit i) p (record w { chain = s.1 })
          | some tx ↦
              let r = c.wait_for_receipt tx s.1 in
              elim r.0 [
                | none ↦ stop (confirm_receipt i) p (record w { chain = r.1 })
                | some receipt ↦ finalize depth i pb hash tx receipt p (record w { chain = r.1 })
              ]
        ]
  ]

  -- One round of the loop over the batches.
  unfoldable pub resume_batch : ℕ → ℕ → PendingBatch → PendingSettlement → World b c codec → Run
  resume_batch depth i pb p w =
      if pb.confirmed
      then record { error = none; plan = p; world = w }
      else elim (hex_to_hash32 b c codec pb.details_hash) [
        | none ↦ stop (bad_hash pb.details_hash) p w
        | some hash ↦
            let q = c.is_processed_batch hash w.chain in
            if is_yes q.0
            then persist_confirm i p (record w { chain = q.1 })
            else submit_batch depth i pb hash p (record w { chain = q.1 })
      ]

  unfoldable pub resume_batches : ℕ → ℕ → List PendingBatch → Run → Run
  resume_batches depth i [] r = r
  resume_batches depth i (pb ∷ pbs) r = elim r.error [
    | some e ↦ r
    | none ↦ resume_batches depth (suc i) pbs (resume_batch depth i pb r.plan r.world)
  ]

  unfoldable pub reduce_pending_spend : Dict String String → BalanceCache b → BalanceCache b
  reduce_pending_spend [] bc = bc
  reduce_pending_spend ((wallet, usd) ∷ rest) bc =
      reduce_pending_spend rest
        (elim (codec.parse_float usd) [ none ↦ bc | some amount ↦ settle_spend b wallet amount bc ])

  unfoldable pub read_settled_total : World b c codec → SettledTotalFile
  read_settled_total w = elim w.total [
    | none ↦ record { total_usd = "0"; last_wal = 0 }
    | some f ↦ if f.total_usd == "" then record { total_usd = "0"; last_wal = 0 } else f
  ]

  unfoldable pub sum_settled : Dict String String → F → F
  sum_settled [] total = total
  sum_settled ((wallet, usd) ∷ rest) total =
      sum_settled rest
        (elim (codec.parse_float usd) [ none ↦ total | some amount ↦ add total amount ])

  -- Time 0 is Go's zero time.
  unfoldable pub add_settled_total : Dict String String → ℕ → World b c codec → World b c codec
  add_settled_total settled created w =
      let cur = read_settled_total w in
      if created /= 0 && cur.last_wal == created
      then w
      else let before : F = elim (codec.parse_float cur.total_usd) [ none ↦ nought | some t ↦ t ] in
        let file : SettledTotalFile = record {
          total_usd = codec.text (sum_settled settled before);
          last_wal = created;
        } in
        record w {
          total = if succeeds b c codec w.writes then some file else w.total;
          writes = later b c codec w.writes;
        }

  unfoldable pub debts_by_wallet : List DebtRecord → Dict String F → Dict String F
  debts_by_wallet [] m = m
  debts_by_wallet (d ∷ ds) m = debts_by_wallet ds (elim (codec.parse_float d.usd) [
    | none ↦ m
    | some usd ↦
        if is_positive usd
        then insert d.wallet (elim (lookup d.wallet m) [ none ↦ usd | some cur ↦ add cur usd ]) m
        else m
  ])

  -- An empty list removes the file, which counts as a write; its failure is only logged.
  unfoldable pub save_debts : List DebtRecord → World b c codec → World b c codec
  save_debts debts w = record w {
    cache = update_debts b (debts_by_wallet debts []) w.cache;
    debts = if succeeds b c codec w.writes then debts else w.debts;
    writes = later b c codec w.writes;
  }

  unfoldable pub remove_pending : World b c codec → World b c codec
  remove_pending w = record w {
    wal = if succeeds b c codec w.writes then absent else w.wal;
    writes = later b c codec w.writes;
  }

  unfoldable pub force_refresh : World b c codec → World b c codec
  force_refresh w = record w {
    cache = (refresh_all b (c.get_user_balance w.chain) w.cache.wallets (0, w.cache)).1;
  }

  -- What follows once every batch is confirmed.
  unfoldable pub finish : PendingSettlement → World b c codec → Option SettleError × World b c codec
  finish p w =
      let w1 : World b c codec = record w { writes = later b c codec w.writes } in
      if not (succeeds b c codec w.writes)
      then (some commit_cursor_failed, w1)
      else let w2 : World b c codec = record w1 {
        cursor = p.cursor_to_commit;
        cache = reduce_pending_spend p.settled_usd w1.cache;
      } in
        (
          none,
          force_refresh (
              remove_pending
                (save_debts p.remaining_debts (add_settled_total p.settled_usd p.created_at w2))),
        )

  -- The plan's batches, and once all are confirmed, the commit.
  unfoldable pub resume_plan :
      ℕ → PendingSettlement → World b c codec → Option SettleError × World b c codec
  resume_plan depth p w =
      let r = resume_batches depth 0 p.batches (record { error = none; plan = p; world = w }) in
      elim r.error [ some e ↦ (some e, r.world) | none ↦ finish r.plan r.world ]

  unfoldable pub resume_pending : ℕ → World b c codec → Option SettleError × World b c codec
  resume_pending depth w = elim w.wal [
    | absent ↦ (none, w)
    | unreadable ↦ (some read_wal, w)
    | held p ↦ resume_plan depth p w
  ]
