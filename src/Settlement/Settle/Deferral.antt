-- ===== src/Settlement/Settle/Deferral.antt =====
-- src/internal/settlement/settler.go: cycles that settle nothing.
use openmodel_gateway.Prelude.{
  ℕ, ◌≡◌, refl, Bool, true, false, ◌&&◌, List, Option, some, if-holds, option-holds, arith,
}
use openmodel_gateway.Prelude.Int.{ℤ}
use openmodel_gateway.Settlement.Floats.{BigFloat}
use openmodel_gateway.Settlement.Records.{RequestRecord}
use openmodel_gateway.Settlement.Scanner.{peek, Peeked}
use openmodel_gateway.Settlement.Aggregator.{SettlementItem}
use openmodel_gateway.Settlement.Merkle.{Digest}
use openmodel_gateway.Settlement.Settler.{PendingSettlement}
use openmodel_gateway.Settlement.Settler.World.{SettlementContract, Codec, World, write_pending}
use openmodel_gateway.Settlement.Settler.Resume.{resume_pending}
use openmodel_gateway.Settlement.Leaves.{Printer}
use openmodel_gateway.Settlement.Settle.{
  Ended, settle_failed, complete, Inputs, Settler, Cycle, is_empty, load_debts, write_dead_letter,
  carry_out, settle_records, refresh_maps, settle,
}

-- Whether a cycle came to carry out a plan of its own.
abbrev pub is_carried : Ended → Bool
is_carried (settle_failed e) = true
is_carried complete = true
is_carried _ = false

module _ (b : BigFloat) (c : SettlementContract) (codec : Codec b.F) (t : Printer)
    (decode : List ℕ → Option RequestRecord) (batch_hash : List (SettlementItem b) → Digest)
    (depth : ℕ) (max_batch : ℤ) where
  -- The files of the settler, the chain and the cache are as they were.
  pub record IsSame (v w : World b c codec) : Type 1 where
    pub wal : w.wal ≡ v.wal
    pub cursor : w.cursor ≡ v.cursor
    pub debts : w.debts ≡ v.debts
    pub total : w.total ≡ v.total
    pub cache : w.cache ≡ v.cache
    pub chain : w.chain ≡ v.chain

  abbrev S : Type 1
  S = Settler b c codec t decode batch_hash depth max_batch

  abbrev C : Type 1
  C = Cycle b c codec t decode batch_hash depth max_batch

  -- Without a plan carried out, everything is as it was.
  record IsIdle (v : World b c codec) (k : C) : Type 1 where
    idle : is_carried k.ended ≡ false → IsSame v k.settler.world

  same : (v : World b c codec) → IsSame v v
  same v = record {
    wal = refl;
    cursor = refl;
    debts = refl;
    total = refl;
    cache = refl;
    chain = refl;
  }

  carry_out-IsIdle :
      (p : PendingSettlement) (s : S) (v : World b c codec)
      → IsSame v s.world
      → IsIdle v (carry_out b c codec t decode batch_hash depth max_batch p s)
  unfolding carry_out write_pending
  carry_out-IsIdle p s v h = record {
    idle = λ not_carried. record {
      wal = ground (arith, h.wal, not_carried);
      cursor = ground (arith, h.cursor, not_carried);
      debts = ground (arith, h.debts, not_carried);
      total = ground (arith, h.total, not_carried);
      cache = ground (arith, h.cache, not_carried);
      chain = ground (arith, h.chain, not_carried);
    };
  }

  settle_records-IsIdle :
      (i : Inputs b) (p : Peeked) (s : S) (v : World b c codec)
      → IsSame v s.world
      → IsIdle v (settle_records b c codec t decode batch_hash depth max_batch i p s)
  unfolding settle_records write_dead_letter
  settle_records-IsIdle i p s v h =
      if-holds {A = C} (IsIdle v)
        (is_empty p.records
          && is_empty s.dead_letters
          && is_empty (load_debts b codec s.world.debts))
        (λ none_new. record { idle = λ not_carried. h })
        (λ some_new.
          if-holds {A = C} (IsIdle v) i.is_stale (λ stale. record { idle = λ not_carried. h })
            (λ fresh.
              carry_out-IsIdle _
                (write_dead_letter b c codec t decode batch_hash depth max_batch _ s) v
                (record {
                  wal = h.wal;
                  cursor = h.cursor;
                  debts = h.debts;
                  total = h.total;
                  cache = h.cache;
                  chain = h.chain;
                })))

  settle-IsIdle :
      (i : Inputs b) (s : S)
      → IsIdle
          (resume_pending b c codec depth s.world).1
          (settle b c codec t decode batch_hash depth max_batch i s)
  unfolding settle refresh_maps
  settle-IsIdle i s =
      let v = (resume_pending b c codec depth s.world).1 in
      option-holds {B = C} (IsIdle v) (resume_pending b c codec depth s.world).0
        (λ e.
          option-holds {B = C} (IsIdle v) (peek decode (some v.cursor) i.dir)
            (λ e. record { idle = λ not_carried. same v })
            (λ p e.
              settle_records-IsIdle i p
                (refresh_maps b c codec t decode batch_hash depth max_batch i
                  (record s { world = v }))
                v (same v)))
        (λ err e. record { idle = λ not_carried. same v })

  -- A cycle that ends by a failed resumption, a failed scan, with nothing new, with a stale price or with a plan
  -- that cannot be written leaves the plan file, the cursor, the debts, the total, the cache and the
  -- chain as the resumption at its start has left them.
  pub settle-IsSame :
      (i : Inputs b) (s : S)
      → is_carried (settle b c codec t decode batch_hash depth max_batch i s).ended ≡ false
      → IsSame
          (resume_pending b c codec depth s.world).1
          (settle b c codec t decode batch_hash depth max_batch i s).settler.world
  settle-IsSame i s h = (settle-IsIdle i s).idle h
