-- ===== src/Settlement/Settle/DeadLetters.antt =====
-- src/internal/settlement/settler.go: the file of dead letters after a cycle.
use mathlib.Core.List.{append-nil, append_assoc}
use openmodel_gateway.Prelude.{
  ℕ, ◌≡◌, refl, sym, ap, ◌∙◌, ◌⊎◌, inl, inr, Bool, true, false, ◌&&◌, List, [], ◌∷◌, ◌++◌, String,
  Option, none, some, ◌==◌, ◌/=◌, not, string_eq, if◌then◌else◌, if-holds, option-holds, Bool-cases,
  arith,
}
use openmodel_gateway.Prelude.Int.{ℤ}
use openmodel_gateway.Settlement.Floats.{BigFloat}
use openmodel_gateway.Settlement.Records.{RequestRecord}
use openmodel_gateway.Settlement.Scanner.{peek, Peeked}
use openmodel_gateway.Settlement.Aggregator.{
  Aggregator, SettlementItem, CarriedDebt, resolve_worker_to_evm,
}
use openmodel_gateway.Settlement.Aggregator.Cycle.{
  Tally, add_record, add_records, aggregate_with_debts,
}
use openmodel_gateway.Settlement.Balance.{get_all_balances}
use openmodel_gateway.Settlement.Merkle.{Digest}
use openmodel_gateway.Settlement.Settler.{PendingSettlement}
use openmodel_gateway.Settlement.Settler.World.{
  SettlementContract, Codec, World, write_pending, succeeds,
}
use openmodel_gateway.Settlement.Settler.Resume.{resume_pending}
use openmodel_gateway.Settlement.Leaves.{Printer}
use openmodel_gateway.Settlement.Settle.{
  Ended, plan_unwritten, settle_failed, complete, Inputs, Settler, Cycle, is_empty, load_debts,
  write_dead_letter, carry_out, settle_records, refresh_maps, settle,
}

-- Whether a cycle came to make a plan.
abbrev pub is_planned : Ended → Bool
is_planned plan_unwritten = true
is_planned (settle_failed e) = true
is_planned complete = true
is_planned _ = false

module _ (b : BigFloat) where
  abbrev pub is_priced : Option b.F → Bool
  is_priced none = false
  is_priced (some fil) = b.is_positive fil

  -- The records that nobody can be paid for: without a price of FIL all of them, else those whose worker has no payout address.
  unfoldable pub unpaid : Aggregator b → Option b.F → List RequestRecord → List RequestRecord
  unpaid a fil [] = []
  unpaid a fil (rec ∷ recs) =
      let rest = unpaid a fil recs in
      if is_priced fil && resolve_worker_to_evm b a rec.worker_id /= "" then rest else rec ∷ rest

  unpriced-unpaid :
      (a : Aggregator b) (fil : Option b.F) (recs : List RequestRecord)
      → is_priced fil ≡ false
      → unpaid a fil recs ≡ recs
  unfolding unpaid
  unpriced-unpaid a fil [] h = refl
  unpriced-unpaid a fil (rec ∷ recs) h = ground (arith, h, unpriced-unpaid a fil recs h)

  add_records-unpaid :
      (a : Aggregator b) (fil : Option b.F) (recs : List RequestRecord) (t : Tally b)
      → is_priced fil ≡ true
      → (add_records b a recs t).unresolved ≡ t.unresolved ++ unpaid a fil recs
  unfolding add_records add_record unpaid
  add_records-unpaid a fil [] t h = sym (append-nil t.unresolved)
  add_records-unpaid a fil (rec ∷ recs) t h =
      let ih = add_records-unpaid a fil recs (add_record b a rec t) h in
      let tail = unpaid a fil recs in
      elim (Bool-cases (resolve_worker_to_evm b a rec.worker_id == "")) [
        | inl homeless ↦ ground (arith, h, homeless, ih, append_assoc t.unresolved (rec ∷ []) tail)
        | inr paid ↦ ground (arith, h, paid, ih)
      ]

  aggregate_with_debts-unpaid :
      (a : Aggregator b) (recs : List RequestRecord) (debts : List (CarriedDebt b))
      (fil : Option b.F) (balances : List (String × List (String × ℤ)))
      → (aggregate_with_debts b a recs debts fil balances).1 ≡ unpaid a fil recs
  unfolding aggregate_with_debts
  aggregate_with_debts-unpaid a recs debts none balances = sym (unpriced-unpaid a none recs refl)
  aggregate_with_debts-unpaid a recs debts (some fil) balances =
      elim (Bool-cases (b.is_positive fil)) [
        | inl priced ↦ ground (
          arith,
          priced,
          add_records-unpaid a (some fil) recs (record { costs = []; unresolved = [] }) priced,
        )
        | inr free ↦ ground (arith, free, unpriced-unpaid a (some fil) recs free)
      ]

module _ (b : BigFloat) (c : SettlementContract) (codec : Codec b.F) (t : Printer)
    (decode : List ℕ → Option RequestRecord) (batch_hash : List (SettlementItem b) → Digest)
    (depth : ℕ) (max_batch : ℤ) where
  abbrev S : Type 1
  S = Settler b c codec t decode batch_hash depth max_batch

  abbrev C : Type 1
  C = Cycle b c codec t decode batch_hash depth max_batch

  carry_out-dead :
      (p : PendingSettlement) (s : S)
      → let k = carry_out b c codec t decode batch_hash depth max_batch p s in
        (k.settler.dead_letters ≡ s.dead_letters) × (is_planned k.ended ≡ true)
  unfolding carry_out
  carry_out-dead p s =
      let wrote = write_pending b c codec p s.world in
      let Kept : C → Type 0 =
        λ k. (k.settler.dead_letters ≡ s.dead_letters) × (is_planned k.ended ≡ true) in
      if-holds {A = C} Kept (not wrote.0) (λ failed. (refl, refl))
        (λ planned. (
          refl,
          option-holds {B = Ended} (λ e. is_planned e ≡ true)
              (resume_pending b c codec depth wrote.1).0 (λ e. refl) (λ err e. refl),
        ))

  -- The file after a cycle: as it was, where no plan was made or the file could not be written; else the records that nobody can be
  -- paid for, of those that were in it and those that the scan has read.
  abbrev pub KeepsUnpaid : World b c codec → Inputs b → S → C → Type 0
  KeepsUnpaid w i s k =
      ((k.settler.dead_letters ≡ s.dead_letters)
        × ((is_planned k.ended ≡ false) ⊎ (succeeds b c codec w.writes ≡ false)))
      ⊎ ((p : Peeked) × (peek decode (some w.cursor) i.dir ≡ some p)
          × (is_planned k.ended ≡ true)
          × (succeeds b c codec w.writes ≡ true)
          × (k.settler.dead_letters
              ≡ unpaid b (refresh_maps b c codec t decode batch_hash depth max_batch i s).aggregator
                  i.fil_price (s.dead_letters ++ p.records)))

  settle_records-KeepsUnpaid :
      (i : Inputs b) (p : Peeked) (s : S) (w : World b c codec)
      → peek decode (some w.cursor) i.dir ≡ some p
      → let u =
          refresh_maps b c codec t decode batch_hash depth max_batch i (record s { world = w }) in
        KeepsUnpaid w i s (settle_records b c codec t decode batch_hash depth max_batch i p u)
  unfolding settle_records write_dead_letter refresh_maps
  settle_records-KeepsUnpaid i p s w read =
      let u =
        refresh_maps b c codec t decode batch_hash depth max_batch i (record s { world = w }) in
      let debts = load_debts b codec w.debts in
      if-holds {A = C} (KeepsUnpaid w i s)
        (is_empty p.records && is_empty s.dead_letters && is_empty debts)
        (λ none_new. inl (refl, inl refl))
        (λ some_new.
          if-holds {A = C} (KeepsUnpaid w i s) i.is_stale (λ stale. inl (refl, inl refl))
            (λ fresh.
              let made =
                aggregate_with_debts b u.aggregator (s.dead_letters ++ p.records) debts i.fil_price
                  (get_all_balances b w.cache) in
              let v = write_dead_letter b c codec t decode batch_hash depth max_batch made.1 u in
              let kept = carry_out-dead _ v in
              elim (Bool-cases (succeeds b c codec w.writes)) [
                | inl written ↦ inr (
                  p,
                  read,
                  kept.1,
                  written,
                  kept.0
                      ∙ (ap (λ x. if x then made.1 else s.dead_letters) written
                          ∙ aggregate_with_debts-unpaid b u.aggregator (s.dead_letters ++ p.records)
                              debts i.fil_price (get_all_balances b w.cache)),
                )
                | inr lost ↦
                    inl (kept.0 ∙ ap (λ x. if x then made.1 else s.dead_letters) lost, inr lost)
              ]))

  -- After any cycle, from `w`, what the resumption at its start leaves: the file of dead letters is as it was, and the cycle made no plan
  -- or could not write the file; or the cycle has read the log, made a plan and could write the file, which has, in their order, those of the records
  -- in it and in the log that nobody can be paid for, by the maps of this cycle.
  pub settle-dead_letters :
      (i : Inputs b) (s : S)
      → KeepsUnpaid
          (resume_pending b c codec depth s.world).1
          i
          s
          (settle b c codec t decode batch_hash depth max_batch i s)
  unfolding settle refresh_maps
  settle-dead_letters i s =
      let w = (resume_pending b c codec depth s.world).1 in
      option-holds {B = C} (KeepsUnpaid w i s) (resume_pending b c codec depth s.world).0
        (λ e.
          option-holds {B = C} (KeepsUnpaid w i s) (peek decode (some w.cursor) i.dir)
            (λ e. inl (refl, inl refl)) (λ p read. settle_records-KeepsUnpaid i p s w read))
        (λ err e. inl (refl, inl refl))
