-- ===== src/Settlement/Balance/Refresh.antt =====
-- src/internal/settlement/balance.go: the balances read again from the chain. The n-th call of the
-- contract is answered by `read n`; `none` stands for an error.
use openmodel_gateway.Prelude.{
  ℕ, suc, ◌≡◌, Bool, true, false, ◌&&◌, List, [], ◌∷◌, String, Dict, lookup, insert, lookup-insert,
  Option, none, some, ◌==◌, nat_eq, string_eq, if◌then◌else◌, Option-cases, Bool-cases, subst, zero,
  refl, sym, eq_refl, ◌⊎◌, inl, inr, arith,
}
use openmodel_gateway.Prelude.Int.{ℤ, pos, ◌≤ℤ◌, negsuc, is_pos}
use openmodel_gateway.Settlement.Floats.{BigFloat}
use openmodel_gateway.Settlement.Aggregator.{TokenConfig}
use openmodel_gateway.Settlement.Balance.{BalanceCache}

-- The calls made and the balances of the wallet so far.
pub record Reading : Type 0 where
  pub calls : ℕ
  pub balances : Dict String ℤ

-- `Sign() == 0`
abbrev pub is_nought : ℤ → Bool
is_nought (pos n) = n == 0
is_nought (negsuc n) = false

module _ (read : ℕ → String → Option ℤ) where
  -- The second read, after a balance above 0 was read as 0.
  unfoldable pub confirm : String → Reading → Reading
  confirm address r = elim (read r.calls address) [
    | none ↦ record { calls = suc r.calls; balances = r.balances }
    | some again ↦ record { calls = suc r.calls; balances = insert address again r.balances }
  ]

  unfoldable pub refresh_token : TokenConfig → Reading → Reading
  refresh_token t r = elim (read r.calls t.address) [
    | none ↦ record { calls = suc r.calls; balances = r.balances }
    | some balance ↦
        let held : ℤ = elim (lookup t.address r.balances) [ none ↦ pos 0 | some prev ↦ prev ] in
        if is_pos held && is_nought balance
        then confirm t.address (record { calls = suc r.calls; balances = r.balances })
        else record { calls = suc r.calls; balances = insert t.address balance r.balances }
  ]

  unfoldable pub refresh_tokens : List TokenConfig → Reading → Reading
  refresh_tokens [] r = r
  refresh_tokens (t ∷ ts) r = refresh_tokens ts (refresh_token t r)

  -- Two calls in a row answered that the balance is 0.
  abbrev pub Evidence : String → Type 0
  Evidence t = (n : ℕ) × (read n t ≡ some (pos 0)) × (read (suc n) t ≡ some (pos 0))

  -- A balance above 0, or a 0 that was read twice.
  abbrev pub Believed : String → Option ℤ → Type 0
  Believed t none = true ≡ false
  Believed t (some v) = (is_pos v ≡ true) ⊎ ((v ≡ pos 0) × Evidence t)

  abbrev pub IsUnsigned : Type 0
  IsUnsigned = (n : ℕ) (t : String) (v : ℤ) → read n t ≡ some v → pos 0 ≤ℤ v

  fresh-Believed :
      (t : String) (v : ℤ) → pos 0 ≤ℤ v → (v ≡ pos 0 → Evidence t) → Believed t (some v)
  fresh-Believed t (pos zero) h e = inr (refl, e refl)
  fresh-Believed t (pos (suc n)) h e = inl (ground arith)
  fresh-Believed t (negsuc n) h e = ground arith

  confirm-Believed :
      (t : String) (r : Reading) (n : ℕ)
      → IsUnsigned
      → r.calls ≡ suc n
      → read n t ≡ some (pos 0)
      → Believed t (lookup t r.balances)
      → Believed t (lookup t (confirm t r).balances)
  unfolding confirm
  confirm-Believed t r n u at zeroes k = elim (Option-cases (read r.calls t)) [
    | inl failed ↦ subst (Believed t) (ground arith) k
    | inr (again, e) ↦
        subst (Believed t) {x = some again}
          (ground (arith, lookup-insert t t again r.balances, eq_refl t))
          (fresh-Believed t again (u r.calls t again e) (λ none_left. (n, zeroes, ground arith)))
  ]

  confirm_other :
      (j t : String) (r : Reading)
      → (j == t) ≡ false
      → lookup t (confirm j r).balances ≡ lookup t r.balances
  unfolding confirm
  confirm_other j t r h = elim (Option-cases (read r.calls j)) [
    | inl failed ↦ ground arith
    | inr (again, e) ↦ ground (arith, lookup-insert j t again r.balances)
  ]

  refresh_token_other :
      (token : TokenConfig) (t : String) (r : Reading)
      → (token.address == t) ≡ false
      → lookup t (refresh_token token r).balances ≡ lookup t r.balances
  unfolding refresh_token
  refresh_token_other token t r h = elim (Option-cases (read r.calls token.address)) [
    | inl failed ↦ ground arith
    | inr (v, e) ↦ ground (
      arith,
      lookup-insert token.address t v r.balances,
      confirm_other token.address t (record { calls = suc r.calls; balances = r.balances }) h,
    )
  ]

  Believed-Evidence : (t : String) (v : ℤ) → Believed t (some v) → is_pos v ≡ false → Evidence t
  Believed-Evidence t v (inl above) h = ground arith
  Believed-Evidence t v (inr (z, e)) h = e

  refresh_token_same :
      (token : TokenConfig) (r : Reading)
      → IsUnsigned
      → Believed token.address (lookup token.address r.balances)
      → Believed token.address (lookup token.address (refresh_token token r).balances)
  unfolding refresh_token
  refresh_token_same token r u k = elim (Option-cases (read r.calls token.address)) [
    | inl failed ↦ subst (Believed token.address) (ground arith) k
    | inr (v, e) ↦ elim (Option-cases (lookup token.address r.balances)) [
      | inl unheld ↦ ground (arith, subst (Believed token.address) unheld k)
      | inr (p, held) ↦ elim (Bool-cases (is_pos p && is_nought v)) [
        | inl doubted ↦
            let r' : Reading = record { calls = suc r.calls; balances = r.balances } in
            subst (λ x. Believed token.address (lookup token.address x.balances))
              {x = confirm token.address r'} {y = refresh_token token r} (ground arith)
              (confirm-Believed token.address r' r.calls u refl (ground arith) k)
        | inr believed ↦
            subst (Believed token.address) {x = some v}
              (ground (
                arith,
                lookup-insert token.address token.address v r.balances,
                eq_refl token.address,
              ))
              (fresh-Believed token.address v (u r.calls token.address v e) (λ z.
                Believed-Evidence token.address p (subst (Believed token.address) held k)
                  (ground arith)))
      ]
    ]
  ]

  refresh_token-Believed :
      (token : TokenConfig) (t : String) (r : Reading)
      → IsUnsigned
      → Believed t (lookup t r.balances)
      → Believed t (lookup t (refresh_token token r).balances)
  refresh_token-Believed token t r u k = elim (Bool-cases (token.address == t)) [
    | inl same ↦
        subst
          (λ a.
            Believed a (lookup a r.balances)
            → Believed a (lookup a (refresh_token token r).balances))
          ((string_eq.same_iff token.address t).0 same) (refresh_token_same token r u) k
    | inr other ↦ subst (Believed t) (sym (refresh_token_other token t r other)) k
  ]

  pub refresh_tokens-Believed :
      (ts : List TokenConfig) (t : String) (r : Reading)
      → IsUnsigned
      → Believed t (lookup t r.balances)
      → Believed t (lookup t (refresh_tokens ts r).balances)
  unfolding refresh_tokens
  refresh_tokens-Believed [] t r u k = k
  refresh_tokens-Believed (token ∷ ts) t r u k =
      refresh_tokens-Believed ts t (refresh_token token r) u (refresh_token-Believed token t r u k)

module _ (b : BigFloat) (read : ℕ → String → String → Option ℤ) where
  abbrev pub held_of : String → Dict String (Dict String ℤ) → Dict String ℤ
  held_of wallet m = elim (lookup wallet m) [ none ↦ [] | some h ↦ h ]

  -- `read n wallet` answers the n-th call; `n` calls were made before.
  unfoldable pub refresh_wallet : String → ℕ × BalanceCache b → ℕ × BalanceCache b
  refresh_wallet wallet (n, bc) =
      let r =
        refresh_tokens (λ i. read i wallet) bc.tokens
          (record { calls = n; balances = held_of wallet bc.chain_balances }) in
      (r.calls, record bc { chain_balances = insert wallet r.balances bc.chain_balances })

  -- `refreshAll` and `ForceRefresh`.
  unfoldable pub refresh_all : List String → ℕ × BalanceCache b → ℕ × BalanceCache b
  refresh_all [] s = s
  refresh_all (w ∷ ws) s = refresh_all ws (refresh_wallet w s)

  -- A balance above 0 that the cache holds of a token is after a refresh of its wallet still above 0,
  -- or it is 0 and two calls in a row answered 0; the chain's answers are unsigned.
  pub refresh_wallet_keeps :
      (wallet t : String) (n : ℕ) (bc : BalanceCache b) (v : ℤ)
      → IsUnsigned (λ i. read i wallet)
      → lookup t (held_of wallet bc.chain_balances) ≡ some v
      → is_pos v ≡ true
      → Believed
          (λ i. read i wallet)
          t
          (lookup t (held_of wallet (refresh_wallet wallet (n, bc)).1.chain_balances))
  unfolding refresh_wallet
  refresh_wallet_keeps wallet t n bc v u held above =
      let r : Reading = record { calls = n; balances = held_of wallet bc.chain_balances } in
      let r' = refresh_tokens (λ i. read i wallet) bc.tokens r in
      subst (λ m. Believed (λ i. read i wallet) t (lookup t m)) {x = r'.balances}
        {y = held_of wallet (insert wallet r'.balances bc.chain_balances)}
        (ground (arith, lookup-insert wallet wallet r'.balances bc.chain_balances, eq_refl wallet))
        (refresh_tokens-Believed (λ i. read i wallet) bc.tokens t r u
          (subst (Believed (λ i. read i wallet) t) {x = some v} (sym held) (inl above)))
