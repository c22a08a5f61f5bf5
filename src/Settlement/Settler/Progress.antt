-- ===== src/Settlement/Settler/Progress.antt =====
-- src/internal/settlement/settler.go: what a call of `resumePending` has done when it returns.
use openmodel_gateway.Prelude.{
  ℕ, zero, suc, ◌≡◌, refl, ap, sym, subst, ◌∙◌, false, not, List, [], ◌∷◌, Option, none, some,
  nat_eq, string_eq, if-holds, option-holds, arith,
}
use openmodel_gateway.Settlement.Floats.{BigFloat}
use openmodel_gateway.Settlement.Balance.{BalanceCache}
use openmodel_gateway.Settlement.Settler.{
  Cursor, DebtRecord, PendingBatch, PendingSettlement, SettledTotalFile, WalFile, absent,
  unreadable, held,
}
use openmodel_gateway.Settlement.Settler.World.{
  SettlementContract, Codec, SettleError, read_wal, World, write_pending, succeeds,
  reverse_failed_items,
}
use openmodel_gateway.Settlement.Settler.Completion.{reverse_failed_items-SameWork}
use openmodel_gateway.Settlement.Settler.Paths.{resume_batch-holds}
use openmodel_gateway.Settlement.Settler.Resume.{
  confirm_at, Run, stop, persist_confirm, settle_batch, resume_batch, resume_batches, finish,
  resume_pending, resume_plan,
}

abbrev pub unconfirmed : List PendingBatch → List PendingBatch
unconfirmed [] = []
unconfirmed (pb ∷ pbs) = record pb { confirmed = false } ∷ unconfirmed pbs

unconfirmed-confirm_at :
    (i : ℕ) (pbs : List PendingBatch) → unconfirmed (confirm_at i pbs) ≡ unconfirmed pbs
unconfirmed-confirm_at i [] = refl
unconfirmed-confirm_at zero (pb ∷ pbs) = refl
unconfirmed-confirm_at (suc i) (pb ∷ pbs) =
    ap (λ x. record pb { confirmed = false } ∷ x) (unconfirmed-confirm_at i pbs)

module _ (b : BigFloat) (c : SettlementContract) (codec : Codec b.F) where
  -- What the end of a settlement commits.
  pub record Books : Type 0 where
    pub cursor : Cursor
    pub debts : List DebtRecord
    pub total : Option SettledTotalFile
    pub cache : BalanceCache b

  abbrev pub books : World b c codec → Books
  books w = record { cursor = w.cursor; debts = w.debts; total = w.total; cache = w.cache }

  -- The same batches with the same items in their order, whichever are confirmed, and the same cursor.
  abbrev pub IsSameTask : PendingSettlement → PendingSettlement → Type 0
  IsSameTask q p =
      (unconfirmed p.batches ≡ unconfirmed q.batches) × (p.cursor_to_commit ≡ q.cursor_to_commit)

  abbrev pub HoldsTask : PendingSettlement → WalFile → Type 0
  HoldsTask q wal = (p : PendingSettlement) × (wal ≡ held p) × IsSameTask q p

  -- Nothing is committed yet, and the plan's file has what the plan is to do.
  abbrev pub IsOpen : PendingSettlement → World b c codec → World b c codec → Type 0
  IsOpen q w w' = (books w' ≡ books w) × HoldsTask q w'.wal

  abbrev IsUnderWay : PendingSettlement → World b c codec → Run b c codec → Type 0
  IsUnderWay q w r = IsOpen q w r.world × IsSameTask q r.plan

  persist_confirm-IsUnderWay :
      (q : PendingSettlement) (w : World b c codec) (i : ℕ) (p : PendingSettlement)
      (v : World b c codec)
      → IsOpen q w v
      → IsSameTask q p
      → IsUnderWay q w (persist_confirm b c codec i p v)
  unfolding persist_confirm write_pending
  persist_confirm-IsUnderWay q w i p v (same, there) task =
      let p' : PendingSettlement = record p { batches = confirm_at i p.batches } in
      let task' : IsSameTask q p' = (unconfirmed-confirm_at i p.batches ∙ task.0, task.1) in
      (
        (
          same,
          if-holds (HoldsTask q) (succeeds b c codec v.writes) (λ ok. (p', refl, task'))
              (λ failed. there),
        ),
        task',
      )

  settle_batch-IsUnderWay :
      (q : PendingSettlement) (w : World b c codec) (i : ℕ) (pb : PendingBatch) (tx : c.Tx)
      (receipt : c.Receipt) (p : PendingSettlement) (v : World b c codec)
      → IsOpen q w v
      → IsSameTask q p
      → IsUnderWay q w (settle_batch b c codec i pb tx receipt p v)
  unfolding settle_batch stop
  settle_batch-IsUnderWay q w i pb tx receipt p v h task =
      let o = c.parse_settlement_outcome receipt in
      let p' = reverse_failed_items b c codec pb o p in
      let kept = reverse_failed_items-SameWork b c codec pb o p in
      let k =
        persist_confirm-IsUnderWay q w i p' v h
          (ap unconfirmed kept.batches_same ∙ task.0, kept.cursor_same ∙ task.1) in
      option-holds {B = Run b c codec} (IsUnderWay q w) (persist_confirm b c codec i p' v).error
        (λ e. k) (λ e f. k)

  resume_batch-IsUnderWay :
      (q : PendingSettlement) (w : World b c codec) (depth i : ℕ) (pb : PendingBatch)
      (p : PendingSettlement) (v : World b c codec)
      → IsOpen q w v
      → IsSameTask q p
      → IsUnderWay q w (resume_batch b c codec depth i pb p v)
  unfolding stop
  resume_batch-IsUnderWay q w depth i pb p v h task =
      resume_batch-holds b c codec depth i pb p v (IsUnderWay q w) (λ e x. (h, task))
        (λ x. persist_confirm-IsUnderWay q w i p (record v { chain = x }) h task)
        (λ tx receipt x.
          settle_batch-IsUnderWay q w i pb tx receipt p (record v { chain = x }) h task)
        (λ done. (h, task))

  resume_batches-IsUnderWay :
      (q : PendingSettlement) (w : World b c codec) (depth i : ℕ) (pbs : List PendingBatch)
      (r : Run b c codec)
      → IsUnderWay q w r
      → IsUnderWay q w (resume_batches b c codec depth i pbs r)
  unfolding resume_batches
  resume_batches-IsUnderWay q w depth i [] r h = h
  resume_batches-IsUnderWay q w depth i (pb ∷ pbs) r h =
      let next = resume_batch b c codec depth i pb r.plan r.world in
      let rest =
        resume_batches-IsUnderWay q w depth (suc i) pbs next
          (resume_batch-IsUnderWay q w depth i pb r.plan r.world h.0 h.1) in
      option-holds {B = Run b c codec} (IsUnderWay q w) r.error (λ e. rest) (λ e f. h)

  finish-IsOpen :
      (q : PendingSettlement) (w : World b c codec) (p : PendingSettlement) (v : World b c codec)
      (e : SettleError)
      → IsOpen q w v
      → (finish b c codec p v).0 ≡ some e
      → IsOpen q w (finish b c codec p v).1
  unfolding finish
  finish-IsOpen q w p v e h =
      if-holds {A = Option SettleError × World b c codec} (λ r. r.0 ≡ some e → IsOpen q w r.1)
        (not (succeeds b c codec v.writes)) (λ failed s. h) (λ committed s. ground arith)

  resume_plan-IsOpen :
      (depth : ℕ) (p : PendingSettlement) (w : World b c codec) (e : SettleError)
      → w.wal ≡ held p
      → (resume_plan b c codec depth p w).0 ≡ some e
      → IsOpen p w (resume_plan b c codec depth p w).1
  unfolding resume_plan
  resume_plan-IsOpen depth p w e there =
      let start : Run b c codec = record { error = none; plan = p; world = w } in
      let r = resume_batches b c codec depth 0 p.batches start in
      let k =
        resume_batches-IsUnderWay p w depth 0 p.batches start
          ((refl, (p, there, (refl, refl))), (refl, refl)) in
      option-holds {B = Option SettleError × World b c codec} (λ r. r.0 ≡ some e → IsOpen p w r.1)
        r.error (λ none_left. finish-IsOpen p w r.plan r.world e k.0) (λ f eq s. k.0)

  -- Where a plan is on disk, a settlement that is interrupted by any error commits nothing: the cursor, the debts, the settled
  -- total and the cache are as they were; and the plan's file still has a plan to resume, with the same batches of the same
  -- items, whichever are confirmed by then, and the same cursor.
  pub resume_pending_interrupted :
      (depth : ℕ) (w : World b c codec) (p : PendingSettlement) (e : SettleError)
      → w.wal ≡ held p
      → (resume_pending b c codec depth w).0 ≡ some e
      → IsOpen p w (resume_pending b c codec depth w).1
  unfolding resume_pending
  resume_pending_interrupted depth w p e there =
      let ran : resume_pending b c codec depth w ≡ resume_plan b c codec depth p w =
        ap
          (λ f. elim f as (λ _. Option SettleError × World b c codec) [
            | absent ↦ (none, w)
            | unreadable ↦ (some read_wal, w)
            | held p ↦ resume_plan b c codec depth p w
          ])
          there in
      subst (λ r. r.0 ≡ some e → IsOpen p w r.1) (sym ran) (resume_plan-IsOpen depth p w e there)
