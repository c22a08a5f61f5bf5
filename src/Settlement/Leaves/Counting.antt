-- ===== src/Settlement/Leaves/Counting.antt =====
-- src/internal/settlement/merkle.go and settler.go: how often a request occurs among a batch's leaves and
-- in the counts that the contract is told.
use openmodel_gateway.Prelude.{
  ℕ, suc, ◌+◌, ◌≡◌, refl, ap, sym, ◌∙◌, Bool, ◌||◌, List, [], ◌∷◌, ◌++◌, String, Dict, ◌==◌,
  string_eq, if◌then◌else◌, length, length-append, sort_by, insert_by, contains, anyb, arith,
}
use openmodel_gateway.Prelude.Int.{pos, ◌+ℤ◌}
use openmodel_gateway.Settlement.Floats.{BigFloat}
use openmodel_gateway.Settlement.Records.{RequestRecord}
use openmodel_gateway.Settlement.Aggregator.{SettlementItem, less_text}
use openmodel_gateway.Settlement.Merkle.{Digest}
use openmodel_gateway.Settlement.Leaves.{
  Printer, Entry, item_entries, seen_after, entries, batch_leaves, count_requests, pending_items,
  pending_batch, total_requests,
}

length-insert_by {ℓ} :
    {A : Type ℓ} (less : A → A → Bool) (a : A) (xs : List A)
    → length (insert_by less a xs) ≡ suc (length xs)
length-insert_by less a [] = refl
length-insert_by less a (x ∷ xs) = ground (arith, length-insert_by less a xs, less x a)

length-sort_by {ℓ} :
    {A : Type ℓ} (less : A → A → Bool) (xs : List A) → length (sort_by less xs) ≡ length xs
length-sort_by less [] = refl
length-sort_by less (x ∷ xs) =
    length-insert_by less x (sort_by less xs) ∙ ap suc (length-sort_by less xs)

-- How many leaves stand for a request.
abbrev pub leaves_of : String → List Entry → ℕ
leaves_of rid [] = 0
leaves_of rid (e ∷ es) = let rest = leaves_of rid es in if e.rid == rid then suc rest else rest

leaves_of-append :
    (rid : String) (xs ys : List Entry)
    → leaves_of rid (xs ++ ys) ≡ leaves_of rid xs + leaves_of rid ys
leaves_of-append rid [] ys = omega arith
leaves_of-append rid (x ∷ xs) ys = ground (arith, leaves_of-append rid xs ys)

leaves_of-insert_by :
    (rid : String) (less : Entry → Entry → Bool) (e : Entry) (es : List Entry)
    → leaves_of rid (insert_by less e es) ≡ leaves_of rid (e ∷ es)
leaves_of-insert_by rid less e [] = refl
leaves_of-insert_by rid less e (x ∷ xs) =
    ground (arith, leaves_of-insert_by rid less e xs, less x e)

leaves_of-sort_by :
    (rid : String) (less : Entry → Entry → Bool) (es : List Entry)
    → leaves_of rid (sort_by less es) ≡ leaves_of rid es
leaves_of-sort_by rid less [] = refl
leaves_of-sort_by rid less (e ∷ es) =
    ground (arith, leaves_of-insert_by rid less e (sort_by less es), leaves_of-sort_by rid less es)

module _ (t : Printer) (b : BigFloat) (records : Dict String RequestRecord) where
  item_entries-length :
      (it : SettlementItem b) (rids seen : List String)
      → length (item_entries t b records it rids seen) ≡ count_requests t b records rids seen
  unfolding item_entries count_requests
  item_entries-length it [] seen = refl
  item_entries-length it (rid ∷ rids) seen =
      ground (arith, item_entries-length it rids seen, item_entries-length it rids (rid ∷ seen))

  entries-total_requests :
      (text : b.F → String) (its : List (SettlementItem b)) (seen : List String)
      → total_requests t b records (pending_items t b records text its seen)
        ≡ pos (length (entries t b records its seen))
  unfolding pending_items entries ◌+ℤ◌
  entries-total_requests text [] seen = refl
  entries-total_requests text (it ∷ its) seen = ground (
    arith,
    entries-total_requests text its (seen_after t b records it.request_ids seen),
    item_entries-length it it.request_ids seen,
    length-append (item_entries t b records it it.request_ids seen)
        (entries t b records its (seen_after t b records it.request_ids seen)),
  )

  -- The requests that the contract is told of for the items of a batch are as many as the leaves of the
  -- batch's Merkle tree.
  pub pending_batch-total_requests :
      (batch_hash : List (SettlementItem b) → Digest) (text : b.F → String)
      (its : List (SettlementItem b))
      → total_requests t b records (pending_batch t b records batch_hash text its).items
        ≡ pos (length (batch_leaves t b records its))
  unfolding pending_batch batch_leaves
  pending_batch-total_requests batch_hash text its =
      entries-total_requests text its []
      ∙ ap pos (sym (length-sort_by (λ x y. less_text x.rid y.rid) (entries t b records its [])))

  seen_after_lem :
      (rid : String) (rids seen : List String)
      → contains rid (seen_after t b records rids seen) ≡ (contains rid seen || contains rid rids)
  seen_after_lem rid [] seen = ground arith
  seen_after_lem rid (r ∷ rids) seen = ground (
    arith,
    seen_after_lem rid rids seen,
    seen_after_lem rid rids (r ∷ seen),
    string_eq.same_iff r rid,
  )

  abbrev once : Bool → Bool → ℕ
  once seen there = if seen then 0 else if there then 1 else 0

  leaves_of-item_entries :
      (rid : String) (it : SettlementItem b) (rids seen : List String)
      → leaves_of rid (item_entries t b records it rids seen)
        ≡ once (contains rid seen) (contains rid rids)
  unfolding item_entries
  leaves_of-item_entries rid it [] seen = ground arith
  leaves_of-item_entries rid it (r ∷ rids) seen = ground (
    arith,
    leaves_of-item_entries rid it rids seen,
    leaves_of-item_entries rid it rids (r ∷ seen),
    string_eq.same_iff r rid,
  )

  -- Whether an item of the batch is for the request.
  abbrev pub asks : String → List (SettlementItem b) → Bool
  asks rid its = anyb (λ it. contains rid it.request_ids) its

  leaves_of-entries :
      (rid : String) (its : List (SettlementItem b)) (seen : List String)
      → leaves_of rid (entries t b records its seen) ≡ once (contains rid seen) (asks rid its)
  unfolding entries
  leaves_of-entries rid [] seen = ground arith
  leaves_of-entries rid (it ∷ its) seen =
      let after = seen_after t b records it.request_ids seen in
      ground (
        arith,
        leaves_of-append rid (item_entries t b records it it.request_ids seen)
            (entries t b records its after),
        leaves_of-item_entries rid it it.request_ids seen,
        leaves_of-entries rid its after,
        seen_after_lem rid it.request_ids seen,
      )

  -- A request that some item of a batch is for has exactly one leaf in the batch's tree, however many
  -- items it is split over, and any other request has none.
  pub batch_leaves_once :
      (rid : String) (its : List (SettlementItem b))
      → leaves_of rid (batch_leaves t b records its) ≡ (if asks rid its then 1 else 0)
  unfolding batch_leaves
  batch_leaves_once rid its =
      leaves_of-sort_by rid (λ x y. less_text x.rid y.rid) (entries t b records its [])
      ∙ leaves_of-entries rid its []
