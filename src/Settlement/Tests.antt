-- ===== src/Settlement/Tests.antt =====
-- Instances of the theorems on the settlement.
mod Cycles
mod Prices
mod Reconciling
use openmodel_gateway.Prelude.{ℕ, zero, suc, ◌+◌, ◌*◌, ◌≡◌, refl, ◌⊎◌, List, [], ◌∷◌, arith, true}
use openmodel_gateway.Prelude.{
  ◌/◌, false, Option, none, some, String, lookup, string_eq, All, map, ◌==◌,
}
use openmodel_gateway.Prelude.Int.{ℤ, pos, ◌+ℤ◌, ◌-ℤ◌, ◌*ℤ◌, ◌≤ℤ◌, ltb_ℤ, is_pos, pos_part}
use openmodel_gateway.Settlement.Floats.{BigFloat}
use openmodel_gateway.Settlement.Aggregator.{TokenConfig, Aggregator, Cost}
use openmodel_gateway.Settlement.Aggregator.Conservation.{balance_of, spent}
use openmodel_gateway.Settlement.Aggregator.Cycle.{Outcome, settle_costs, settle_costs-IsKept}
use openmodel_gateway.Settlement.Pricing.{clamp_cached, clamp_cached_bounds}
use openmodel_gateway.Settlement.Records.{RequestRecord}
use openmodel_gateway.Settlement.Scanner.{LogFile, there, lines, peek, advance}
use openmodel_gateway.Settlement.Scanner.Lines.{are_short}
use openmodel_gateway.Settlement.Scanner.Unread.{unread, peek-unread}
use openmodel_gateway.Settlement.Aggregator.Completeness.{accounted, metered, add_records-accounted}
use openmodel_gateway.Settlement.Aggregator.Cycle.{Tally, add_records}
use openmodel_gateway.Settlement.Balance.{BalanceCache, Market}
use openmodel_gateway.Settlement.Balance.Refresh.{
  Believed, held_of, refresh_wallet, refresh_wallet_keeps,
}
use openmodel_gateway.Settlement.Balance.Credit.{IsCapped, reserve_all, reserve_all-IsCapped}
use openmodel_gateway.Settlement.Settler.{Cursor, PendingSettlement, held, split_batches}
use openmodel_gateway.Settlement.Settler.Batches.{concat, IsSized, size_of, split_batches_complete}
use openmodel_gateway.Settlement.Settler.World.{
  final, SettlementContract, Codec, submit, World, hex_to_hash32, parse_amounts, to_batch,
}
use openmodel_gateway.Settlement.Settler.Resume.{
  resume_pending, resume_batches, resume_batch, submit_batch, stop, add_settled_total,
}
use openmodel_gateway.Settlement.Settler.Progress.{IsOpen, resume_pending_interrupted}
use openmodel_gateway.Settlement.Settler.Completion.{confirmed_of, resume_plan_completes}
use openmodel_gateway.Settlement.Settler.World.{write_pending, reverse_failed_items}
use openmodel_gateway.Settlement.Settler.Resume.{
  resume_plan, finalize, settle_batch, persist_confirm, finish,
}
use openmodel_gateway.Settlement.Settler.Totals.{add_settled_total_once}
use openmodel_gateway.Settlement.Merkle.{
  Digest, digest_at, merkle_root, merkle_proof_for, verify_merkle_proof, proof_loop, next_level,
  hash_pair, sibling,
}
use openmodel_gateway.Settlement.Merkle.Proofs.{verify-merkle_proof_for}
use openmodel_gateway.Settlement.Merkle.Binding.{IsDigest, Collision, verify_binds}

-- A hash for examples: a digest that holds a weighted sum of the bytes.
abbrev weigh : List ℕ → ℕ
weigh [] = 7
weigh (x ∷ xs) = x + 3 * weigh xs

abbrev padded : ℕ → ℕ → Digest
padded zero x = []
padded (suc n) x = x ∷ padded n 0

abbrev pub toy_hash : List ℕ → Digest
toy_hash xs = padded 32 (weigh xs)

toy_hash-IsDigest : (xs : List ℕ) → IsDigest (toy_hash xs)
toy_hash-IsDigest xs = refl

abbrev leaves : List Digest
leaves = padded 32 1 ∷ padded 32 2 ∷ padded 32 3 ∷ []

verify-merkle_proof_for_example :
    verify_merkle_proof toy_hash
      (digest_at leaves 2)
      2
      (merkle_proof_for toy_hash leaves 2)
      (merkle_root toy_hash leaves)
    ≡ true
verify-merkle_proof_for_example = verify-merkle_proof_for toy_hash leaves 2 (omega arith)

verify_binds_example :
    ((padded 32 3 ≡ digest_at leaves 2)
      × (merkle_proof_for toy_hash leaves 2 ≡ merkle_proof_for toy_hash leaves 2))
    ⊎ Collision toy_hash
unfolding merkle_proof_for proof_loop next_level hash_pair sibling
verify_binds_example =
    verify_binds toy_hash toy_hash-IsDigest leaves 2 (padded 32 3)
      (merkle_proof_for toy_hash leaves 2) (omega arith) (omega arith) refl (omega arith) refl
      verify-merkle_proof_for_example

-- Whole dollars, for examples.
abbrev pub whole : BigFloat
whole = record {
  F = ℤ;
  nought = pos 0;
  of_int = λ x. x;
  to_int = λ x. x;
  add = λ x y. x +ℤ y;
  sub = λ x y. x -ℤ y;
  mul = λ x y. x *ℤ y;
  quo = λ x y. pos (pos_part x / pos_part y);
  is_positive = is_pos;
  is_negative = λ x. ltb_ℤ x (pos 0);
  less = ltb_ℤ;
  dust = pos 1;
}

abbrev fil : TokenConfig
fil = record { symbol = "FIL"; address = "0xf"; decimals = 0 }

abbrev gateway : Aggregator whole
gateway = record {
  prices = record { out = []; input = []; cache_read = [] };
  sp_address_map = [];
  miner_payout_map = [];
  worker_sp_map = [];
  tokens = fil ∷ [];
  deduct_priority = "FIL" ∷ [];
  pricer = none;
  hex_to_address = λ s. s;
}

abbrev cost_of : String → ℕ → Cost whole
cost_of sp usd = record {
  key = record { wallet = "w"; sp_evm = sp };
  total_usd = pos usd;
  total_tokens = pos 5;
  request_ids = "r" ∷ [];
}

-- Two providers ask 6 and 3 of a wallet that holds 7.
abbrev two_costs : List (Cost whole)
two_costs = cost_of "a" 6 ∷ cost_of "b" 3 ∷ []

abbrev no_outcome : Outcome whole
no_outcome = record { items = []; settled_per_wallet = []; remaining_debts = [] }

settle_costs-IsKept_example :
    let r = settle_costs whole gateway (pos 1) two_costs (("0xf", pos 7) ∷ []) no_outcome in
    (balance_of "0xf" r.0 +ℤ spent whole "0xf" r.1.items
      ≡ balance_of "0xf" (("0xf", pos 7) ∷ []) +ℤ spent whole "0xf" no_outcome.items)
    × (pos 0 ≤ℤ balance_of "0xf" r.0)
    × All (λ i. is_pos i.amount ≡ true) r.1.items
settle_costs-IsKept_example =
    settle_costs-IsKept whole gateway (pos 1) two_costs (("0xf", pos 7) ∷ []) no_outcome "0xf"
      (omega arith) tt

abbrev cache : BalanceCache whole
cache = record {
  chain_balances = ("w", ("0xf", pos 7) ∷ []) ∷ [];
  pending_spend = [];
  tokens = fil ∷ [];
  wallets = "w" ∷ [];
  min_balance_fil = none;
  max_pending_spend_fil = some (pos 4);
  suspend_threshold = none;
  suspended = [];
}

abbrev market : Market whole
market = record {
  fil_price = pos 1;
  pricer = record { is_stablecoin_depegged = λ s. false; stablecoin_price_usd = λ s. pos 1 };
}

abbrev three_requests : List (String × ℤ)
three_requests = ("w", pos 3) ∷ ("w", pos 3) ∷ ("w", pos 1) ∷ []

reserve_all-IsCapped_example : IsCapped whole market (reserve_all whole market three_requests cache)
reserve_all-IsCapped_example = reserve_all-IsCapped whole market three_requests cache tt

abbrev three : List ℕ
three = 1 ∷ 2 ∷ 3 ∷ []

split_batches_complete_example :
    (concat (split_batches three (pos 2)) ≡ three)
    × All (IsSized (size_of (pos 2))) (split_batches three (pos 2))
split_batches_complete_example = split_batches_complete three (pos 2)

-- A chain that counts the submissions, and refuses each.
abbrev refusing : SettlementContract
refusing = record {
  Chain = ℕ;
  Tx = ℕ;
  Receipt = ℕ;
  is_processed_batch = λ hash n. (some false, n);
  submit_settlement = λ batch n. (none, suc n);
  wait_for_receipt = λ tx n. (some n, n);
  wait_for_finality = λ tx depth n. (final none, n);
  parse_settlement_outcome =
      λ r. record { settled_count = 0; failed_count = 0; failed_indexes = []; found = false };
  get_user_balance = λ chain n wallet t. none;
}

abbrev pub codec : Codec ℤ
codec = record {
  parse_float = λ s. some (pos 1);
  text = λ f. "1";
  set_string = λ s. some (pos 1);
  decode_hex = λ s. some (padded 32 0);
  hex_to_address = λ s. s;
  equal_fold = λ s t. s == t;
}

abbrev pub start : Cursor
start = record { offset = 0; last_timestamp = 0; file_size = 0; inode = 0; dev = 0 }

abbrev plan : PendingSettlement
plan = record {
  cursor_to_commit = start;
  settled_usd = ("w", "1") ∷ [];
  remaining_debts = [];
  batches = record { details_hash = "00"; confirmed = false; items = [] } ∷ [];
  created_at = 9;
}

abbrev world : World whole refusing codec
world = record {
  wal = held plan;
  cursor = start;
  debts = [];
  total = none;
  ledger = [];
  cache = cache;
  chain = 0;
  writes = [];
}

resume_pending_interrupted_example :
    IsOpen whole refusing codec plan world (resume_pending whole refusing codec 0 world).1
unfolding resume_pending resume_plan resume_batches resume_batch submit_batch hex_to_hash32
    parse_amounts to_batch stop
resume_pending_interrupted_example =
    resume_pending_interrupted whole refusing codec 0 world plan (submit 0) refl refl

-- A chain that settles each batch that it is given.
abbrev pub settling : SettlementContract
settling = record {
  Chain = ℕ;
  Tx = ℕ;
  Receipt = ℕ;
  is_processed_batch = λ hash n. (some false, n);
  submit_settlement = λ batch n. (some n, suc n);
  wait_for_receipt = λ tx n. (some n, n);
  wait_for_finality = λ tx depth n. (final none, n);
  parse_settlement_outcome =
      λ r. record { settled_count = 1; failed_count = 0; failed_indexes = []; found = true };
  get_user_balance = λ chain n wallet t. none;
}

abbrev pub settling_world : World whole settling codec
settling_world = record {
  wal = held plan;
  cursor = start;
  debts = [];
  total = none;
  ledger = [];
  cache = cache;
  chain = 0;
  writes = [];
}

resume_plan_completes_example :
    ((resume_batches whole settling codec 0 0 plan.batches
        (record { error = none; plan = plan; world = settling_world })).plan.batches
      ≡ map confirmed_of plan.batches)
    × ((resume_plan whole settling codec 0 plan settling_world).1.cursor ≡ start)
unfolding resume_plan resume_batches resume_batch submit_batch hex_to_hash32 parse_amounts to_batch
    finalize settle_batch persist_confirm write_pending finish reverse_failed_items
resume_plan_completes_example =
    resume_plan_completes whole settling codec 0 plan settling_world refl

abbrev pub record_of : String → ℕ → RequestRecord
record_of worker tokens = record {
  request_id = "r";
  timestamp = 1;
  wallet = "w";
  worker_id = worker;
  model = "m";
  status = 200;
  error_reason = "";
  prompt_tokens = pos tokens;
  completion_tokens = pos 0;
  cached_tokens = pos 0;
  total_tokens = pos tokens;
  receipt_sig = none;
}

-- A worker with a payout address, and one without.
abbrev pub paying : Aggregator whole
paying = record gateway { worker_sp_map = ("g1", "m1") ∷ []; sp_address_map = ("m1", "0xa") ∷ [] }

abbrev pub two_records : List RequestRecord
two_records = record_of "g1" 30 ∷ record_of "g2" 12 ∷ []

abbrev no_tally : Tally whole
no_tally = record { costs = []; unresolved = [] }

add_records-accounted_example :
    accounted whole (add_records whole paying two_records no_tally)
    ≡ accounted whole no_tally +ℤ metered two_records
add_records-accounted_example = add_records-accounted whole paying two_records no_tally

-- The cursor's file has become `.1`, with two bytes of it unread.
abbrev log_file : ℕ → List ℕ → LogFile
log_file ino bytes = record { ino = ino; device = 1; bytes = bytes }

abbrev midway : Cursor
midway = record { offset = 2; last_timestamp = 0; file_size = 2; inode = 7; dev = 1 }

abbrev pub read_billed : List ℕ → Option RequestRecord
read_billed [] = none
read_billed (x ∷ xs) = some (record {
  request_id = "r";
  timestamp = x;
  wallet = "w";
  worker_id = "v";
  model = "m";
  status = 200;
  error_reason = "";
  prompt_tokens = pos 1;
  completion_tokens = pos 1;
  cached_tokens = pos 0;
  total_tokens = pos 2;
  receipt_sig = none;
})

peek-unread_example :
    peek read_billed (some midway) (record {
      main = there (log_file 8 (5 ∷ 10 ∷ []));
      backups = log_file 7 (3 ∷ 10 ∷ 4 ∷ 10 ∷ []) ∷ [];
    })
    ≡ some (
        advance midway
          (log_file 8 (5 ∷ 10 ∷ []))
          (unread read_billed 7 2
            (log_file 8 (5 ∷ 10 ∷ []) ∷ log_file 7 (3 ∷ 10 ∷ 4 ∷ 10 ∷ []) ∷ []))
          2)
unfolding are_short lines
peek-unread_example =
    peek-unread read_billed midway (log_file 8 (5 ∷ 10 ∷ []))
      (log_file 7 (3 ∷ 10 ∷ 4 ∷ 10 ∷ []) ∷ []) (omega arith) refl (refl, (refl, tt))
      (λ e. omega (arith, e))
