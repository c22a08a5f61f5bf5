-- ===== src/Settlement/Aggregator/Conservation.antt =====
-- src/internal/settlement/aggregator.go: what `allocate` does to the balances of a wallet.
use openmodel_gateway.Prelude.{
  ◌≡◌, sym, true, All, All-append, List, [], ◌∷◌, ◌++◌, String, Dict, lookup, insert, lookup-insert,
  none, some, ◌==◌, string_eq, if◌then◌else◌, Option-cases, if-holds, inl, inr, arith,
}
use openmodel_gateway.Prelude.Int.{
  ℤ, pos, ◌+ℤ◌, ◌-ℤ◌, ◌≤ℤ◌, is_pos, +ℤ_assoc, +ℤ_zero, zero_+ℤ, +ℤ_move, -ℤ_nonneg,
}
use openmodel_gateway.Settlement.Floats.{BigFloat}
use openmodel_gateway.Settlement.Aggregator.{
  TokenConfig, SettlementItem, Aggregator, Allocation, Cost, book, deduct, allocate_token,
  allocate_loop, allocate, find_token,
}

-- What a wallet holds of a token, 0 where the map has no entry.
abbrev pub balance_of : String → Dict String ℤ → ℤ
balance_of t m = elim (lookup t m) [ none ↦ pos 0 | some v ↦ v ]

module _ (b : BigFloat) where
  -- What the items take of a token.
  abbrev pub spent : String → List (SettlementItem b) → ℤ
  spent t [] = pos 0
  spent t (i ∷ is) = if i.token_info.address == t then i.amount +ℤ spent t is else spent t is

  pub spent-append :
      (t : String) (xs ys : List (SettlementItem b)) → spent t (xs ++ ys) ≡ spent t xs +ℤ spent t ys
  spent-append t [] ys = sym (zero_+ℤ (spent t ys))
  spent-append t (x ∷ xs) ys =
      ground (arith, spent-append t xs ys, +ℤ_assoc x.amount (spent t xs) (spent t ys))

  -- The balance and the items make up the total, and each item takes something.
  abbrev pub IsKept : String → ℤ → Allocation b → Type 0
  IsKept t total s =
      (balance_of t s.working +ℤ spent t s.items ≡ total)
      × (pos 0 ≤ℤ balance_of t s.working)
      × All (λ i. is_pos i.amount ≡ true) s.items

  take-IsKept :
      (item : SettlementItem b) (held : ℤ) (working : Dict String ℤ)
      (items : List (SettlementItem b)) (left rest : b.F) (t : String) (total : ℤ)
      → lookup item.token_info.address working ≡ some held
      → item.amount ≤ℤ held
      → is_pos item.amount ≡ true
      → IsKept t total (record { remaining = rest; working = working; items = items })
      → IsKept t total (record {
        remaining = left;
        working = insert item.token_info.address (held -ℤ item.amount) working;
        items = items ++ item ∷ [];
      })
  take-IsKept item held working items left rest t total h most taken (kept, nonneg, each) = (
    ground (
      arith,
      spent-append t items (item ∷ []),
      lookup-insert item.token_info.address t (held -ℤ item.amount) working,
      string_eq.same_iff item.token_info.address t,
      +ℤ_zero item.amount,
      +ℤ_zero (spent t items),
      +ℤ_move held (spent t items) item.amount,
    ),
    ground (
      arith,
      lookup-insert item.token_info.address t (held -ℤ item.amount) working,
      -ℤ_nonneg held item.amount most,
    ),
    All-append (λ i. is_pos i.amount ≡ true) items (item ∷ []) each (taken, tt),
  )

  book-IsKept :
      (item : SettlementItem b) (held : ℤ) (left : b.F) (s : Allocation b) (t : String) (total : ℤ)
      → lookup item.token_info.address s.working ≡ some held
      → item.amount ≤ℤ held
      → IsKept t total s
      → IsKept t total (book b item held left s)
  unfolding book
  book-IsKept item held left s t total h most k =
      if-holds (IsKept t total) (is_pos item.amount)
        (λ taken. take-IsKept item held s.working s.items left s.remaining t total h most taken k)
        (λ nothing. k)

  deduct-IsKept :
      (a : Aggregator b) (fil : b.F) (c : Cost b) (token : TokenConfig) (held : ℤ)
      (s : Allocation b) (t : String) (total : ℤ)
      → lookup token.address s.working ≡ some held
      → IsKept t total s
      → IsKept t total (deduct b a fil c token held s)
  unfolding deduct
  deduct-IsKept a fil c token held s t total h k = book-IsKept _ held _ s t total h (ground arith) k

  allocate_token-IsKept :
      (a : Aggregator b) (fil : b.F) (c : Cost b) (s : Allocation b) (symbol : String) (t : String)
      (total : ℤ)
      → IsKept t total s
      → IsKept t total (allocate_token b a fil c s symbol)
  unfolding allocate_token
  allocate_token-IsKept a fil c s symbol t total k =
      elim (Option-cases (find_token b symbol a.tokens)) [
        | inl absent ↦ ground arith
        | inr (token, found) ↦ elim (Option-cases (lookup token.address s.working)) [
          | inl unheld ↦ ground arith
          | inr (held, h) ↦ ground (arith, deduct-IsKept a fil c token held s t total h k)
        ]
      ]

  allocate_loop-IsKept :
      (a : Aggregator b) (fil : b.F) (c : Cost b) (symbols : List String) (s : Allocation b)
      (t : String) (total : ℤ)
      → IsKept t total s
      → IsKept t total (allocate_loop b a fil c symbols s)
  unfolding allocate_loop
  allocate_loop-IsKept a fil c [] s t total k = k
  allocate_loop-IsKept a fil c (symbol ∷ rest) s t total k =
      allocate_loop-IsKept a fil c rest (allocate_token b a fil c s symbol) t total
        (allocate_token-IsKept a fil c s symbol t total k)

  -- An allocation takes from each token's balance what its items say, each above 0, and never more
  -- than the wallet holds.
  pub allocate_conserves :
      (a : Aggregator b) (fil : b.F) (c : Cost b) (working : Dict String ℤ) (t : String)
      → pos 0 ≤ℤ balance_of t working
      → IsKept t (balance_of t working) (allocate b a fil c working)
  unfolding allocate
  allocate_conserves a fil c working t nonneg =
      allocate_loop-IsKept a fil c a.deduct_priority _ t (balance_of t working)
        (+ℤ_zero (balance_of t working), nonneg, tt)
