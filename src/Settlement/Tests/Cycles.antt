-- ===== src/Settlement/Tests/Cycles.antt =====
-- Instances of the theorems on a cycle and the leaves of a batch.
use openmodel_gateway.Prelude.{
  ℕ, ◌≡◌, refl, true, false, List, [], ◌∷◌, String, Dict, Option, none, some, if◌then◌else◌, length,
}
use openmodel_gateway.Prelude.Int.{pos}
use openmodel_gateway.Settlement.Records.{RequestRecord}
use openmodel_gateway.Settlement.Scanner.{LogDir, missing, peek, peek_missing}
use openmodel_gateway.Settlement.Aggregator.{SettlementItem}
use openmodel_gateway.Settlement.Merkle.{Digest}
use openmodel_gateway.Settlement.Settler.{absent}
use openmodel_gateway.Settlement.Settler.World.{World, write_pending}
use openmodel_gateway.Settlement.Settler.Resume.{resume_pending}
use openmodel_gateway.Settlement.Tests.{
  whole, codec, toy_hash, settling, settling_world, record_of, paying, two_records,
}
use openmodel_gateway.Settlement.Leaves.{Printer, batch_leaves, pending_batch, total_requests}
use openmodel_gateway.Settlement.Leaves.Counting.{
  pending_batch-total_requests, leaves_of, asks, batch_leaves_once,
}
use openmodel_gateway.Settlement.Settle.{
  plan_unwritten, Inputs, Settler, settle, settle_records, refresh_maps, write_dead_letter,
  carry_out, load_debts,
}
use openmodel_gateway.Settlement.Aggregator.{resolve_worker_to_evm}
use openmodel_gateway.Settlement.Aggregator.Cycle.{aggregate_with_debts, add_records, add_record}
use openmodel_gateway.Settlement.Settle.Deferral.{IsSame, settle-IsSame}
use openmodel_gateway.Settlement.Settle.DeadLetters.{KeepsUnpaid, settle-dead_letters}

abbrev printer : Printer
printer = record {
  json = λ s. [];
  decimal = λ x. [];
  sha256 = toy_hash;
  hex = λ d. "00";
  big_text = λ x. "1";
}

abbrev item_for : List String → SettlementItem whole
item_for rids = record {
  user_wallet = "w";
  user_evm = "w";
  sp_evm = "a";
  amount = pos 3;
  token_addr = "0xf";
  token_info = record { symbol = "FIL"; address = "0xf"; decimals = 0 };
  amount_usd = pos 3;
  total_token_count = pos 5;
  request_ids = rids;
}

-- The request "r" is split over two items.
abbrev batch : List (SettlementItem whole)
batch = item_for ("r" ∷ "q" ∷ []) ∷ item_for ("r" ∷ []) ∷ []

abbrev known : Dict String RequestRecord
known = ("r", record_of "g1" 30) ∷ []

abbrev batch_hash : List (SettlementItem whole) → Digest
batch_hash its = toy_hash []

pending_batch-total_requests_example :
    total_requests printer whole known
      (pending_batch printer whole known batch_hash codec.text batch).items
    ≡ pos (length (batch_leaves printer whole known batch))
pending_batch-total_requests_example =
    pending_batch-total_requests printer whole known batch_hash codec.text batch

batch_leaves_once_example :
    leaves_of "r" (batch_leaves printer whole known batch)
    ≡ (if asks printer whole known "r" batch then 1 else 0)
batch_leaves_once_example = batch_leaves_once printer whole known "r" batch

abbrev no_decoder : List ℕ → Option RequestRecord
no_decoder line = none

abbrev empty_log : LogDir
empty_log = record { main = missing; backups = [] }

abbrev stale : Inputs whole
stale = record {
  dir = empty_log;
  worker_sp_map = [];
  miner_payout_map = [];
  is_stale = true;
  fil_price = some (pos 1);
  now = 9;
}

abbrev quiet_world : World whole settling codec
quiet_world = record settling_world { wal = absent }

abbrev with_dead : Settler whole settling codec printer no_decoder batch_hash 0 (pos 50)
with_dead = record { world = quiet_world; aggregator = paying; dead_letters = two_records }

settle-IsSame_example :
    IsSame whole settling codec printer no_decoder batch_hash 0
      (pos 50)
      (resume_pending whole settling codec 0 quiet_world).1
      (settle whole settling codec printer no_decoder batch_hash 0
        (pos 50)
        stale
        with_dead).settler.world
unfolding settle resume_pending peek peek_missing settle_records refresh_maps
settle-IsSame_example =
    settle-IsSame whole settling codec printer no_decoder batch_hash 0 (pos 50) stale with_dead refl

-- The dead letters are written, the plan is not.
abbrev failing : Settler whole settling codec printer no_decoder batch_hash 0 (pos 50)
failing = record with_dead { world = record quiet_world { writes = true ∷ false ∷ [] } }

abbrev fresh : Inputs whole
fresh = record stale { is_stale = false; worker_sp_map = ("g1", "m1") ∷ [] }

settle-dead_letters_example :
    KeepsUnpaid whole settling codec printer no_decoder batch_hash 0
      (pos 50)
      (resume_pending whole settling codec 0 failing.world).1
      fresh
      failing
      (settle whole settling codec printer no_decoder batch_hash 0 (pos 50) fresh failing)
settle-dead_letters_example =
    settle-dead_letters whole settling codec printer no_decoder batch_hash 0 (pos 50) fresh failing

-- The dead letter that can be paid for is in no file any more, and no plan holds it.
settle_loses :
    let k = settle whole settling codec printer no_decoder batch_hash 0 (pos 50) fresh failing in
    (k.ended ≡ plan_unwritten)
    × (k.settler.dead_letters ≡ record_of "g2" 12 ∷ [])
    × (k.settler.world.wal ≡ absent)
unfolding settle resume_pending peek peek_missing settle_records refresh_maps write_dead_letter
    carry_out write_pending load_debts aggregate_with_debts add_records add_record
    resolve_worker_to_evm
settle_loses = (refl, refl, refl)
