-- ===== src/Settlement/Leaves.antt =====
-- src/internal/settlement/merkle.go: the leaves of a batch, one for each request; src/internal/settlement/settler.go:
-- the batches of a plan. SHA-256 and the JSON of a text are parameters.
pub mod Counting
use Prim.Native.Char.{code}
use openmodel_gateway.Prelude.{
  ℕ, zero, suc, ◌+◌, ◌≡◌, refl, Bool, true, false, List, [], ◌∷◌, ◌++◌, map, String, Dict, lookup,
  insert, Option, none, some, ◌==◌, string_eq, if◌then◌else◌, length, sort_by, insert_by, contains,
  arith,
}
use openmodel_gateway.Prelude.Int.{ℤ, pos, ◌+ℤ◌}
use openmodel_gateway.Settlement.Floats.{BigFloat}
use openmodel_gateway.Settlement.Records.{RequestRecord}
use openmodel_gateway.Settlement.Aggregator.{SettlementItem, less_text}
use openmodel_gateway.Settlement.Merkle.{Digest, merkle_root, combined_details_hash}
use openmodel_gateway.Settlement.Settler.{
  PendingItem, PendingBatch, PendingSettlement, DebtRecord, Cursor, split_batches,
}

-- The text libraries: JSON's reading of a text, and decimals and hexadecimals.
pub record Printer : Type 0 where
  pub json : String → List ℕ
  pub decimal : ℤ → List ℕ
  pub sha256 : List ℕ → Digest
  pub hex : Digest → String
  pub big_text : ℤ → String

-- The bytes of a text in ASCII.
abbrev pub bytes_of : String → List ℕ
bytes_of String.[] = []
bytes_of (String.◌∷◌ c s) = code c ∷ bytes_of s

-- A leaf with the request that it stands for.
pub record Entry : Type 0 where
  pub rid : String
  pub leaf : Digest

module _ (t : Printer) where
  unfoldable pub receipt_leaf : String → String → String → String → ℤ → ℤ → ℤ → String → Digest
  receipt_leaf rid wallet sp model prompt completion cached sig = t.sha256 (
      bytes_of "{\"cached_tokens\":"
      ++ t.decimal cached
      ++ bytes_of ",\"completion_tokens\":"
      ++ t.decimal completion
      ++ bytes_of ",\"model\":"
      ++ t.json model
      ++ bytes_of ",\"prompt_tokens\":"
      ++ t.decimal prompt
      ++ bytes_of ",\"request_id\":"
      ++ t.json rid
      ++ bytes_of ",\"sig\":"
      ++ t.json sig
      ++ bytes_of ",\"sp\":"
      ++ t.json sp
      ++ bytes_of ",\"wallet\":"
      ++ t.json wallet
      ++ bytes_of "}")

  unfoldable pub debt_leaf : String → String → String → Digest
  debt_leaf rid wallet sp = t.sha256 (
      bytes_of "{\"debt\":true,\"request_id\":"
      ++ t.json rid
      ++ bytes_of ",\"sp\":"
      ++ t.json sp
      ++ bytes_of ",\"wallet\":"
      ++ t.json wallet
      ++ bytes_of "}")

  module _ (b : BigFloat) (records : Dict String RequestRecord) where
    abbrev sig_of : RequestRecord → String
    sig_of rec = elim rec.receipt_sig [ none ↦ "" | some sig ↦ sig ]

    unfoldable pub leaf_of : SettlementItem b → String → Digest
    leaf_of it rid = elim (lookup rid records) [
      | some rec ↦
          receipt_leaf rid rec.wallet it.sp_evm rec.model rec.prompt_tokens rec.completion_tokens
            rec.cached_tokens (sig_of rec)
      | none ↦ debt_leaf rid it.user_wallet it.sp_evm
    ]

    -- The requests of one item that no earlier one carries.
    unfoldable pub item_entries : SettlementItem b → List String → List String → List Entry
    item_entries it [] seen = []
    item_entries it (rid ∷ rids) seen =
        let skip = item_entries it rids seen in
        let keep = item_entries it rids (rid ∷ seen) in
        if contains rid seen then skip else record { rid = rid; leaf = leaf_of it rid } ∷ keep

    abbrev seen_after : List String → List String → List String
    seen_after [] seen = seen
    seen_after (rid ∷ rids) seen =
        let skip = seen_after rids seen in
        let keep = seen_after rids (rid ∷ seen) in if contains rid seen then skip else keep

    unfoldable pub entries : List (SettlementItem b) → List String → List Entry
    entries [] seen = []
    entries (it ∷ its) seen =
        item_entries it it.request_ids seen ++ entries its (seen_after it.request_ids seen)

    unfoldable pub batch_leaves : List (SettlementItem b) → List Entry
    batch_leaves its = sort_by (λ x y. less_text x.rid y.rid) (entries its [])

    abbrev tokens_of : String → ℤ
    tokens_of rid = elim (lookup rid records) [
      | none ↦ pos 0
      | some rec ↦ rec.prompt_tokens +ℤ rec.completion_tokens
    ]

    -- The loop over an item's requests: how many are counted here, and their tokens.
    unfoldable pub count_requests : List String → List String → ℕ
    count_requests [] seen = 0
    count_requests (rid ∷ rids) seen =
        let skip = count_requests rids seen in
        let keep = count_requests rids (rid ∷ seen) in if contains rid seen then skip else suc keep

    unfoldable pub count_tokens : List String → List String → ℤ
    count_tokens [] seen = pos 0
    count_tokens (rid ∷ rids) seen =
        let skip = count_tokens rids seen in
        let keep = count_tokens rids (rid ∷ seen) in
        if contains rid seen then skip else tokens_of rid +ℤ keep

    unfoldable pub pending_items :
        (b.F → String) → List (SettlementItem b) → List String → List PendingItem
    pending_items text [] seen = []
    pending_items text (it ∷ its) seen =
        record {
          user = it.user_evm;
          sp = it.sp_evm;
          amount = t.big_text it.amount;
          token = it.token_addr;
          amount_usd = text it.amount_usd;
          request_ids = it.request_ids;
          request_count = pos (count_requests it.request_ids seen);
          token_count = count_tokens it.request_ids seen;
        }
        ∷ pending_items text its (seen_after it.request_ids seen)

    -- `batch_hash` is the hash of the batch's items and requests.
    unfoldable pub pending_batch :
        (List (SettlementItem b) → Digest) → (b.F → String) → List (SettlementItem b) → PendingBatch
    pending_batch batch_hash text its = record {
      details_hash = t.hex (
          combined_details_hash t.sha256 (batch_hash its)
            (merkle_root t.sha256 (map (λ e. e.leaf) (batch_leaves its))));
      confirmed = false;
      items = pending_items text its [];
    }

    unfoldable pub build_pending :
        (List (SettlementItem b) → Digest)
        → (b.F → String)
        → ℤ
        → ℕ
        → List (SettlementItem b)
        → Cursor
        → Dict String String
        → List DebtRecord
        → PendingSettlement
    build_pending batch_hash text max_batch now its cursor settled debts = record {
      cursor_to_commit = cursor;
      settled_usd = settled;
      remaining_debts = debts;
      batches = map (λ batch. pending_batch batch_hash text batch) (split_batches its max_batch);
      created_at = now;
    }

    -- The requests that the items of a batch are paid for, as the contract is told.
    abbrev pub total_requests : List PendingItem → ℤ
    total_requests [] = pos 0
    total_requests (i ∷ is) = i.request_count +ℤ total_requests is
