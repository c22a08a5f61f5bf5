-- ===== src/Settlement/Pricer/Freshness.antt =====
-- src/internal/settlement/pricer.go: a price that is not stale is a plausible one that a source gave lately.
use openmodel_gateway.Prelude.{
  ℕ, ◌+◌, ◌≤◌, ◌≡◌, refl, ap, sym, subst, ◌∙◌, ◌⊎◌, inl, inr, true, false, ◌&&◌, ◌||◌, List, [],
  ◌∷◌, String, some, ◌==◌, nat_eq, string_eq, if-holds, option-holds, ltb, length, arith,
}
use openmodel_gateway.Settlement.Floats.{BigFloat}
use openmodel_gateway.Gateway.RateLimit.{Float64}
use openmodel_gateway.Settlement.Pricer.{
  Conversions, Feeds, PriceConfig, Pricer, new_pricer, is_stale, fetch_from_source, in_band,
  is_implausible_price, refresh_from, refresh, refresh_stable, run_refreshes, fetch_stable, turn,
  turn_stable,
}

module _ (f : Float64) (b : BigFloat) (v : Conversions f b) where
  -- A source gave this price at a refresh of this time.
  pub data IsQuoted (price : b.F) (time : ℕ) : List (Feeds f b) → Type 0 where
    newest :
        (x : Feeds f b) (xs : List (Feeds f b)) (source : String)
        → fetch_from_source f b v x source ≡ some price
        → x.now ≡ time
        → IsQuoted price time (x ∷ xs)
    earlier :
        (x : Feeds f b) (xs : List (Feeds f b))
        → IsQuoted price time xs
        → IsQuoted price time (x ∷ xs)

  -- What a refresh does: nothing to the price, or it takes one that a source gave and that is plausible.
  abbrev Takes : Feeds f b → Pricer f b → Pricer f b → Type 0
  Takes x p p' =
      (p' ≡ p)
      ⊎ ((source : String) × (price : b.F) × (fetch_from_source f b v x source ≡ some price)
          × (is_implausible_price f b v p price ≡ false)
          × (p' ≡ record p { fil_price_usd = price; last_update_time = x.now }))

  refresh_from-Takes :
      (x : Feeds f b) (ss : List String) (p : Pricer f b) → Takes x p (refresh_from f b v x ss p)
  unfolding refresh_from
  refresh_from-Takes x [] p = inl refl
  refresh_from-Takes x (s ∷ ss) p =
      option-holds {B = Pricer f b} (Takes x p) (fetch_from_source f b v x s)
        (λ e. refresh_from-Takes x ss p)
        (λ price e.
          if-holds {A = Pricer f b} (Takes x p) (is_implausible_price f b v p price)
            (λ bad. refresh_from-Takes x ss p) (λ fine. inr (s, price, e, fine, refl)))

  -- The price was set by a refresh: it is in the band, and one that a source gave then.
  abbrev IsBacked : List (Feeds f b) → Pricer f b → Type 0
  IsBacked xs p =
      (p.last_update_time ≡ 0)
      ⊎ ((in_band f b v p.fil_price_usd ≡ true) × IsQuoted p.fil_price_usd p.last_update_time xs)

  older :
      (x : Feeds f b) (xs : List (Feeds f b)) (p : Pricer f b) → IsBacked xs p → IsBacked (x ∷ xs) p
  older x xs p h = elim h [
    | inl never ↦ inl never
    | inr (band, quoted) ↦ inr (band, earlier x xs quoted)
  ]

  same_price :
      (x : Feeds f b) (p : Pricer f b)
      → let p' = refresh_stable f b v x p in
        (p'.fil_price_usd ≡ p.fil_price_usd)
        × (p'.last_update_time ≡ p.last_update_time)
        × (p'.mode ≡ p.mode)
        × (p'.max_age ≡ p.max_age)
  unfolding refresh_stable
  same_price x p =
      option-holds {B = Pricer f b}
        (λ p'.
          (p'.fil_price_usd ≡ p.fil_price_usd)
          × (p'.last_update_time ≡ p.last_update_time)
          × (p'.mode ≡ p.mode)
          × (p'.max_age ≡ p.max_age))
        (fetch_stable f b v x p.stable_sources) (λ e. (refl, refl, refl, refl))
        (λ price e. (refl, refl, refl, refl))

  plausible-in_band :
      (p : Pricer f b) (price : b.F)
      → is_implausible_price f b v p price ≡ false
      → in_band f b v price ≡ true
  unfolding is_implausible_price
  plausible-in_band p price h = ground (arith, h)

  -- What the refreshes do not change.
  abbrev IsLike : Pricer f b → Pricer f b → Type 0
  IsLike p p' = (p'.mode ≡ p.mode) × (p'.max_age ≡ p.max_age)

  refresh-IsBacked :
      (x : Feeds f b) (xs : List (Feeds f b)) (p : Pricer f b)
      → IsBacked xs p
      → IsBacked (x ∷ xs) (refresh f b v x p) × IsLike p (refresh f b v x p)
  unfolding refresh
  refresh-IsBacked x xs p h = elim (refresh_from-Takes x p.sources p) [
    | inl same ↦
        subst (λ p'. IsBacked (x ∷ xs) p' × IsLike p p') (sym same) (older x xs p h, (refl, refl))
    | inr (source, price, e, fine, taken) ↦
        subst (λ p'. IsBacked (x ∷ xs) p' × IsLike p p') (sym taken)
          (inr (plausible-in_band p price fine, newest x xs source e refl), (refl, refl))
  ]

  refresh_stable-IsBacked :
      (x : Feeds f b) (xs : List (Feeds f b)) (p : Pricer f b)
      → IsBacked xs p
      → IsBacked xs (refresh_stable f b v x p)
  refresh_stable-IsBacked x xs p h =
      let same = same_price x p in
      elim h [
        | inl never ↦ inl (same.1 ∙ never)
        | inr (band, quoted) ↦ inr (
          ap (in_band f b v) same.0 ∙ band,
          subst (λ t. IsQuoted (refresh_stable f b v x p).fil_price_usd t xs) (sym same.1)
              (subst (λ c. IsQuoted c p.last_update_time xs) (sym same.0) quoted),
        )
      ]

  turn_stable-IsBacked :
      (x : Feeds f b) (xs : List (Feeds f b)) (p : Pricer f b)
      → IsBacked xs p
      → IsBacked xs (turn_stable f b v x p) × IsLike p (turn_stable f b v x p)
  unfolding turn_stable
  turn_stable-IsBacked x xs p h =
      if-holds {A = Pricer f b} (λ p'. IsBacked xs p' × IsLike p p')
        (length p.stable_sources == 0 || p.stable_symbol == "") (λ skipped. (h, (refl, refl)))
        (λ due. (refresh_stable-IsBacked x xs p h, ((same_price x p).2, (same_price x p).3)))

  turn-IsBacked :
      (x : Feeds f b) (xs : List (Feeds f b)) (p : Pricer f b)
      → IsBacked xs p
      → IsBacked (x ∷ xs) (turn f b v x p) × IsLike p (turn f b v x p)
  unfolding turn
  turn-IsBacked x xs p h =
      if-holds {A = Pricer f b} (λ p'. IsBacked (x ∷ xs) p' × IsLike p p') (p.mode == "auto")
        (λ auto. refresh-IsBacked x xs p h) (λ manual. (older x xs p h, (refl, refl)))

  run_refreshes-IsBacked :
      (xs : List (Feeds f b)) (p : Pricer f b)
      → p.last_update_time ≡ 0
      → IsBacked xs (run_refreshes f b v xs p) × IsLike p (run_refreshes f b v xs p)
  unfolding run_refreshes
  run_refreshes-IsBacked [] p h = (inl h, (refl, refl))
  run_refreshes-IsBacked (x ∷ xs) p h =
      let before = run_refreshes-IsBacked xs p h in
      let old = run_refreshes f b v xs p in
      let mid = turn_stable f b v x old in
      let kept = turn_stable-IsBacked x xs old before.0 in
      let now = turn-IsBacked x xs mid kept.0 in
      (now.0, ((now.1).0 ∙ (kept.1).0 ∙ (before.1).0, (now.1).1 ∙ (kept.1).1 ∙ (before.1).1))

  fresh_lem :
      (now : ℕ) (p : Pricer f b)
      → p.mode ≡ "auto"
      → is_stale f b v now p ≡ false
      → ((p.last_update_time == 0) ≡ false) × (ltb (p.last_update_time + p.max_age) now ≡ false)
  unfolding is_stale
  fresh_lem now p auto fresh =
      let h =
        subst
          (λ m.
            ((m == "auto" && (p.last_update_time == 0 || ltb (p.last_update_time + p.max_age) now))
              ≡ false))
          auto fresh in
      ground (arith, h)

  -- In auto mode, after any refreshes of a new pricer, and unless the price was set by hand: where the price is not stale,
  -- it lies between a cent and 10,000 dollars, and a source gave it at a refresh that is not longer ago than the age at which a price is stale.
  pub not_stale-IsQuoted :
      (c : PriceConfig f b) (xs : List (Feeds f b)) (now : ℕ)
      → c.mode ≡ "auto"
      → let p = run_refreshes f b v xs (new_pricer f b v c) in
        is_stale f b v now p ≡ false
        → (in_band f b v p.fil_price_usd ≡ true)
          × IsQuoted p.fil_price_usd p.last_update_time xs
          × (now ≤ p.last_update_time + (new_pricer f b v c).max_age)
  unfolding is_stale new_pricer
  not_stale-IsQuoted c xs now auto fresh =
      let p0 = new_pricer f b v c in
      let p = run_refreshes f b v xs p0 in
      let ran = run_refreshes-IsBacked xs p0 refl in
      let mode : p.mode ≡ "auto" = (ran.1).0 ∙ auto in
      elim (ran.0) [
        | inl never ↦ absurd (ground (arith, never, (fresh_lem now p mode fresh).0))
        | inr (band, quoted) ↦
            (band, quoted, ground (arith, (ran.1).1, (fresh_lem now p mode fresh).1))
      ]
