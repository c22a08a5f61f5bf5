-- ===== src/Settlement/Settler/Completion.antt =====
-- src/internal/settlement/settler.go: what holds when `resumePending` has gone through a plan.
use openmodel_gateway.Prelude.{
  ℕ, suc, ◌≡◌, refl, sym, ap, ◌∙◌, true, List, [], ◌∷◌, ◌++◌, map, Option, none, length, get_elem?,
  length-append, not, ◌&&◌, ◌/=◌, Dict, String, ◌==◌, ◌||◌, nat_eq, string_eq, inl, inr, ◌⊎◌,
  if-holds, option-holds, arith,
}
use mathlib.Core.List.{append_assoc}
use openmodel_gateway.Settlement.Floats.{BigFloat}
use openmodel_gateway.Settlement.Settler.{
  Cursor, PendingItem, PendingBatch, PendingSettlement, SettlementOutcome,
}
use openmodel_gateway.Settlement.Settler.World.{
  SettlementContract, Codec, SettleError, World, reverse_item, reverse_indexes,
  reverse_failed_items, wallet_of, succeeds,
}
use openmodel_gateway.Settlement.Settler.Paths.{resume_batch-holds}
use openmodel_gateway.Settlement.Settler.Resume.{
  confirm_at, Run, stop, persist_confirm, settle_batch, resume_batch, resume_batches, resume_plan,
  finish, force_refresh, remove_pending, save_debts, add_settled_total, read_settled_total,
}

abbrev pub confirmed_of : PendingBatch → PendingBatch
confirmed_of pb = record pb { confirmed = true }

confirmed_same : (pb : PendingBatch) → pb.confirmed ≡ true → confirmed_of pb ≡ pb
confirmed_same pb e = ap (λ x. record pb { confirmed = x }) (sym e)

confirm_at-append :
    (done : List PendingBatch) (pb : PendingBatch) (rest : List PendingBatch)
    → confirm_at (length done) (done ++ pb ∷ rest) ≡ done ++ confirmed_of pb ∷ rest
confirm_at-append [] pb rest = refl
confirm_at-append (d ∷ done) pb rest = ap (λ x. d ∷ x) (confirm_at-append done pb rest)

-- The reversal of items touches neither the batches nor the cursor.
pub record SameWork (q p : PendingSettlement) : Type 0 where
  pub batches_same : p.batches ≡ q.batches
  pub cursor_same : p.cursor_to_commit ≡ q.cursor_to_commit

abbrev same_work : (p : PendingSettlement) → SameWork p p
same_work p = record { batches_same = refl; cursor_same = refl }

module _ (b : BigFloat) (c : SettlementContract) (codec : Codec b.F) where
  reverse_item-SameWork :
      (q : PendingSettlement) (it : PendingItem) (p : PendingSettlement)
      → SameWork q p
      → SameWork q (reverse_item b c codec it p)
  unfolding reverse_item
  reverse_item-SameWork q it p h =
      option-holds (SameWork q) (codec.parse_float it.amount_usd) (λ e. h)
        (λ usd e.
          if-holds (SameWork q) (it.amount_usd == "" || not (b.is_positive usd)) (λ void. h)
            (λ real.
              option-holds (SameWork q) (wallet_of b c codec it.user p.settled_usd) (λ e. h)
                (λ found e. record { batches_same = h.batches_same; cursor_same = h.cursor_same })))

  reverse_indexes-SameWork :
      (q : PendingSettlement) (is : List ℕ) (items : List PendingItem) (p : PendingSettlement)
      → SameWork q p
      → SameWork q (reverse_indexes b c codec is items p)
  unfolding reverse_indexes
  reverse_indexes-SameWork q [] items p h = h
  reverse_indexes-SameWork q (i ∷ is) items p h = reverse_indexes-SameWork q is items _ (
      option-holds (SameWork q) (get_elem? items i) (λ e. h)
        (λ it e. reverse_item-SameWork q it p h))

  pub reverse_failed_items-SameWork :
      (pb : PendingBatch) (o : SettlementOutcome) (p : PendingSettlement)
      → SameWork p (reverse_failed_items b c codec pb o p)
  unfolding reverse_failed_items
  reverse_failed_items-SameWork pb o p =
      if-holds (SameWork p) (not o.found) (λ lost. same_work p)
        (λ seen.
          if-holds (SameWork p) (o.failed_count == 0) (λ all_settled. same_work p)
            (λ some_failed. reverse_indexes-SameWork p o.failed_indexes pb.items p (same_work p)))

  -- A round without an error has confirmed its batch.
  abbrev Advances : ℕ → PendingBatch → PendingSettlement → Run b c codec → Type 0
  Advances i pb q r =
      r.error ≡ none
      → ((r.plan.batches ≡ confirm_at i q.batches)
          ⊎ ((r.plan.batches ≡ q.batches) × (pb.confirmed ≡ true)))
        × (r.plan.cursor_to_commit ≡ q.cursor_to_commit)

  persist_confirm-Advances :
      (i : ℕ) (pb : PendingBatch) (q p : PendingSettlement) (v : World b c codec)
      → SameWork q p
      → Advances i pb q (persist_confirm b c codec i p v)
  unfolding persist_confirm
  persist_confirm-Advances i pb q p v h ok = (inl (ap (confirm_at i) h.batches_same), h.cursor_same)

  settle_batch-Advances :
      (i : ℕ) (pb : PendingBatch) (tx : c.Tx) (receipt : c.Receipt) (q : PendingSettlement)
      (v : World b c codec)
      → Advances i pb q (settle_batch b c codec i pb tx receipt q v)
  unfolding settle_batch stop
  settle_batch-Advances i pb tx receipt q v =
      let p' = reverse_failed_items b c codec pb (c.parse_settlement_outcome receipt) q in
      let r = persist_confirm b c codec i p' v in
      option-holds (Advances i pb q) r.error
        (λ e ok. persist_confirm-Advances i pb q p' v (reverse_failed_items-SameWork pb _ q) e)
        (λ f e ok. ground arith)

  resume_batch-Advances :
      (depth i : ℕ) (pb : PendingBatch) (q : PendingSettlement) (v : World b c codec)
      → Advances i pb q (resume_batch b c codec depth i pb q v)
  unfolding stop
  resume_batch-Advances depth i pb q v =
      resume_batch-holds b c codec depth i pb q v (Advances i pb q) (λ e x ok. ground arith)
        (λ x. persist_confirm-Advances i pb q q (record v { chain = x }) (same_work q))
        (λ tx receipt x. settle_batch-Advances i pb tx receipt q (record v { chain = x }))
        (λ done ok. (inr (refl, done), refl))

  -- The batches after a round, as those that are done and the rest.
  Advances-split :
      (i : ℕ) (done : List PendingBatch) (pb : PendingBatch) (rest : List PendingBatch)
      (q : PendingSettlement) (r : Run b c codec)
      → length done ≡ i
      → q.batches ≡ done ++ pb ∷ rest
      → Advances i pb q r
      → r.error ≡ none
      → r.plan.batches ≡ (done ++ confirmed_of pb ∷ []) ++ rest
  Advances-split i done pb rest q r at split a ok = sym (
      append_assoc done (confirmed_of pb ∷ []) rest ∙ elim (a ok).0 [
        | inl moved ↦ sym (
            moved
            ∙ (ap (confirm_at i) split
                ∙ (ap (λ n. confirm_at n (done ++ pb ∷ rest)) (sym at)
                    ∙ confirm_at-append done pb rest)))
        | inr (same, known) ↦
            ap (λ x. done ++ x ∷ rest) (confirmed_same pb known) ∙ sym (same ∙ split)
      ])

  resume_batches-confirms :
      (depth i : ℕ) (done rest : List PendingBatch) (cu : Cursor) (r : Run b c codec)
      → length done ≡ i
      → (r.error ≡ none → (r.plan.batches ≡ done ++ rest) × (r.plan.cursor_to_commit ≡ cu))
      → let s = resume_batches b c codec depth i rest r in
        s.error ≡ none
        → (s.plan.batches ≡ done ++ map confirmed_of rest) × (s.plan.cursor_to_commit ≡ cu)
  unfolding resume_batches
  resume_batches-confirms depth i done [] cu r at h = h
  resume_batches-confirms depth i done (pb ∷ rest) cu r at h =
      let Ends : Run b c codec → Type 0 = λ s.
        s.error ≡ none
        → (s.plan.batches ≡ done ++ confirmed_of pb ∷ map confirmed_of rest)
          × (s.plan.cursor_to_commit ≡ cu) in
      option-holds {B = Run b c codec} Ends r.error
        (λ e.
          let r' = resume_batch b c codec depth i pb r.plan r.world in
          let a = resume_batch-Advances depth i pb r.plan r.world in
          let rounds =
            resume_batches-confirms depth (suc i) (done ++ confirmed_of pb ∷ []) rest cu r'
              (omega (arith, length-append done (confirmed_of pb ∷ [])))
              (λ ok.
                (Advances-split i done pb rest r.plan r' at (h e).0 a ok, (a ok).1 ∙ (h e).1)) in
          λ ok. (
            (rounds ok).0 ∙ append_assoc done (confirmed_of pb ∷ []) (map confirmed_of rest),
            (rounds ok).1,
          ))
        (λ f e ok. ground arith)

  add_settled_total-cursor :
      (settled : Dict String String) (created : ℕ) (w : World b c codec)
      → (add_settled_total b c codec settled created w).cursor ≡ w.cursor
  unfolding add_settled_total
  add_settled_total-cursor settled created w =
      if-holds {A = World b c codec} (λ v. v.cursor ≡ w.cursor)
        (created /= 0 && (read_settled_total b c codec w).last_wal == created) (λ again. refl)
        (λ first. refl)

  finish-cursor :
      (p : PendingSettlement) (w : World b c codec)
      → (finish b c codec p w).0 ≡ none
      → (finish b c codec p w).1.cursor ≡ p.cursor_to_commit
  unfolding finish force_refresh remove_pending save_debts
  finish-cursor p w =
      if-holds {A = Option SettleError × World b c codec}
        (λ r. r.0 ≡ none → r.1.cursor ≡ p.cursor_to_commit) (not (succeeds b c codec w.writes))
        (λ failed ok. ground arith)
        (λ committed ok. add_settled_total-cursor p.settled_usd p.created_at _)

  -- When a plan is gone through without an error, the rounds end with the plan's batches, in their order and with
  -- nothing else changed, each of them marked as confirmed; and the cursor is the plan's.
  pub resume_plan_completes :
      (depth : ℕ) (p : PendingSettlement) (w : World b c codec)
      → (resume_plan b c codec depth p w).0 ≡ none
      → ((resume_batches b c codec depth 0 p.batches
            (record { error = none; plan = p; world = w })).plan.batches
          ≡ map confirmed_of p.batches)
        × ((resume_plan b c codec depth p w).1.cursor ≡ p.cursor_to_commit)
  unfolding resume_plan
  resume_plan_completes depth p w =
      let start : Run b c codec = record { error = none; plan = p; world = w } in
      let s = resume_batches b c codec depth 0 p.batches start in
      let done =
        resume_batches-confirms depth 0 [] p.batches p.cursor_to_commit start refl
          (λ ok. (refl, refl)) in
      option-holds {B = Option SettleError × World b c codec}
        (λ r.
          r.0 ≡ none
          → (s.plan.batches ≡ map confirmed_of p.batches) × (r.1.cursor ≡ p.cursor_to_commit))
        s.error (λ e ok. ((done e).0, finish-cursor s.plan s.world ok ∙ (done e).1))
        (λ f e ok. ground arith)
