-- ===== src/Settlement/Settler/Paths.antt =====
-- src/internal/settlement/settler.go: the paths of `resumePending` through one batch.
use openmodel_gateway.Prelude.{
  ℕ, ◌≡◌, true, List, Option, none, ◌==◌, nat_eq, if-holds, option-holds,
}
use openmodel_gateway.Settlement.Floats.{BigFloat}
use openmodel_gateway.Settlement.Settler.{PendingBatch, PendingSettlement}
use openmodel_gateway.Settlement.Settler.World.{
  Finality, final, reorged, undecided, SettlementContract, Codec, SettleError, World, hex_to_hash32,
  to_batch,
}
use openmodel_gateway.Settlement.Settler.Resume.{
  is_yes, Run, stop, persist_confirm, settle_batch, finalize, submit_batch, resume_batch,
}

finality-holds {ℓ κ} :
    {R : Type 0} {B : Type ℓ} (P : B → Type κ) (f : Finality R) {g : Option R → B} {x y : B}
    → ((o : Option R) → P (g o))
    → P x
    → P y
    → P (elim f [ final o ↦ g o | reorged ↦ x | undecided ↦ y ])
finality-holds P (final o) g h k = g o
finality-holds P reorged g h k = h
finality-holds P undecided g h k = k

-- A predicate that holds at each end of a round holds of the round. The chain is as the calls leave it.
module _ {ℓ} (b : BigFloat) (c : SettlementContract) (codec : Codec b.F) (depth i : ℕ)
    (pb : PendingBatch) (p : PendingSettlement) (v : World b c codec) (P : Run b c codec → Type ℓ)
    (stops : (e : SettleError) (x : c.Chain) → P (stop b c codec e p (record v { chain = x })))
    (known : (x : c.Chain) → P (persist_confirm b c codec i p (record v { chain = x })))
    (settles : (tx : c.Tx) (receipt : c.Receipt) (x : c.Chain)
      → P (settle_batch b c codec i pb tx receipt p (record v { chain = x })))
    (skips : pb.confirmed ≡ true → P (record { error = none; plan = p; world = v })) where
  finalize-holds :
      (hash : List ℕ) (tx : c.Tx) (receipt : c.Receipt) (x : c.Chain)
      → P (finalize b c codec depth i pb hash tx receipt p (record v { chain = x }))
  unfolding finalize
  finalize-holds hash tx receipt x =
      let f = c.wait_for_finality tx depth x in
      let q = c.is_processed_batch hash f.1 in
      if-holds P (depth == 0) (λ shallow. settles tx receipt x)
        (λ deep.
          finality-holds P f.0
            (λ o. option-holds P o (λ e. settles tx receipt f.1) (λ last e. settles tx last f.1))
            (if-holds P (is_yes q.0) (λ yes. settles tx receipt q.1) (λ no. stops _ q.1))
            (stops _ f.1))

  submit_batch-holds :
      (hash : List ℕ) (x : c.Chain)
      → P (submit_batch b c codec depth i pb hash p (record v { chain = x }))
  unfolding submit_batch
  submit_batch-holds hash x =
      option-holds P (to_batch b c codec pb hash) (λ e. stops _ x)
        (λ batch e.
          let s = c.submit_settlement batch x in
          option-holds P s.0 (λ e. stops _ s.1)
            (λ tx e.
              let r = c.wait_for_receipt tx s.1 in
              option-holds P r.0 (λ e. stops _ r.1)
                (λ receipt e. finalize-holds hash tx receipt r.1)))

  pub resume_batch-holds : P (resume_batch b c codec depth i pb p v)
  unfolding resume_batch
  resume_batch-holds = if-holds P pb.confirmed skips (λ todo.
      option-holds P (hex_to_hash32 b c codec pb.details_hash) (λ e. stops _ v.chain)
        (λ hash e.
          let q = c.is_processed_batch hash v.chain in
          if-holds P (is_yes q.0) (λ yes. known q.1) (λ no. submit_batch-holds hash q.1)))
