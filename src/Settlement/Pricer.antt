-- ===== src/Settlement/Pricer.antt =====
-- src/internal/settlement/pricer.go: the price of FIL and of the stablecoin, from feeds that may fail or be
-- wrong. What each feed answers at a refresh is an argument, and so is the parsing of a decimal.
pub mod Freshness
use openmodel_gateway.Prelude.{
  ℕ, ◌+◌, ◌*◌, Bool, true, false, ◌&&◌, ◌||◌, not, List, [], ◌∷◌, String, Option, none, some, ◌==◌,
  ◌/=◌, nat_eq, string_eq, if◌then◌else◌, ltb, length,
}
use openmodel_gateway.Prelude.Int.{ℤ, pos, is_pos}
use openmodel_gateway.Settlement.Floats.{BigFloat}
use openmodel_gateway.Gateway.RateLimit.{Float64}

-- An answer of a feed: its status, and what its body decodes to.
pub record Quote {ℓ} (A : Type ℓ) : Type ℓ where
  pub status : ℕ
  pub decoded : Option A

module _ (f : Float64) (b : BigFloat) where
  -- The conversions between the two kinds of float, and `big.ParseFloat`.
  pub record Conversions : Type 0 where
    pub to_float : b.F → f.F
    pub new_float : f.F → b.F
    pub parse_float : String → Option b.F

  -- A refresh: its time, and the answers of the feeds for FIL and for the stablecoin; no answer is `none`.
  pub record Feeds : Type 0 where
    pub now : ℕ
    pub coin_gecko : Option (Quote f.F)
    pub binance : Option (Quote String)
    pub stable_coin_gecko : Option (Quote f.F)
    pub stable_binance : Option (Quote String)

  pub record PriceConfig : Type 0 where
    pub fil_price_usd : String
    pub sources : List String
    pub refresh_sec : ℕ
    pub mode : String
    pub stable_symbol : String
    pub stable_sources : List String
    pub stable_depeg_bps : ℤ

  pub record Pricer : Type 0 where
    pub fil_price_usd : b.F
    pub sources : List String
    pub mode : String
    pub last_update_time : ℕ
    pub max_age : ℕ
    pub stable_symbol : String
    pub stable_sources : List String
    pub stable_depeg_bps : ℤ
    pub stable_price_usd : b.F
    pub stable_depegged : Bool

  module _ (v : Conversions) where
    -- `new(big.Float)` of a decimal constant.
    abbrev ratio : ℕ → ℕ → f.F
    ratio x y = f.div (f.of_int (pos x)) (f.of_int (pos y))

    -- 15 minutes, at the least.
    abbrev age_for : ℕ → ℕ
    age_for refresh_sec =
        let age = refresh_sec * 4 * 1_000_000_000 in
        if ltb age 900_000_000_000 then 900_000_000_000 else age

    abbrev positive_only : Option b.F → Option b.F
    positive_only none = none
    positive_only (some x) = if b.is_positive x then some x else none

    unfoldable pub new_pricer : PriceConfig → Pricer
    new_pricer c = record {
      fil_price_usd = elim (positive_only (v.parse_float c.fil_price_usd)) as (λ _. b.F) [
        | some x ↦ x
        | none ↦ v.new_float (ratio 7 2)
      ];
      sources = c.sources;
      mode = c.mode;
      last_update_time = 0;
      max_age = age_for c.refresh_sec;
      stable_symbol = c.stable_symbol;
      stable_sources = c.stable_sources;
      stable_depeg_bps = c.stable_depeg_bps;
      stable_price_usd = v.new_float (f.of_int (pos 1));
      stable_depegged = false;
    }

    unfoldable pub is_stale : ℕ → Pricer → Bool
    is_stale now p =
        p.mode == "auto" && (p.last_update_time == 0 || ltb (p.last_update_time + p.max_age) now)

    unfoldable pub set_fil_price_usd : ℕ → b.F → Pricer → Pricer
    set_fil_price_usd now price p = record p { fil_price_usd = price; last_update_time = now }

    -- A price of a body with status 200, if it is positive.
    unfoldable pub fetch_float : Option (Quote f.F) → Option b.F
    fetch_float none = none
    fetch_float (some q) =
        if q.status /= 200 then none else (elim (q.decoded) as (λ _. Option b.F) [
          | none ↦ none
          | some x ↦ if f.at_most x (f.of_int (pos 0)) then none else some (v.new_float x)
        ])

    unfoldable pub fetch_text : Option (Quote String) → Option b.F
    fetch_text none = none
    fetch_text (some q) = if q.status /= 200 then none else (elim (q.decoded) as (λ _. Option b.F) [
      | none ↦ none
      | some s ↦ positive_only (v.parse_float s)
    ])

    unfoldable pub fetch_from_source : Feeds → String → Option b.F
    fetch_from_source feeds source =
        if source == "coingecko"
        then fetch_float feeds.coin_gecko
        else if source == "binance"
        then fetch_text feeds.binance
        else none

    unfoldable pub fetch_stable_from_source : Feeds → String → Option b.F
    fetch_stable_from_source feeds source =
        if source == "coingecko"
        then fetch_float feeds.stable_coin_gecko
        else if source == "binance"
        then fetch_text feeds.stable_binance
        else none

    -- `if dev < 0 { dev = -dev }`
    abbrev absolute : f.F → f.F
    absolute x = if f.less x (f.of_int (pos 0)) then f.sub (f.of_int (pos 0)) x else x

    -- From a cent to 10,000 dollars.
    abbrev pub in_band : b.F → Bool
    in_band price = not (
        f.less (v.to_float price) (ratio 1 100)
        || f.less (f.of_int (pos 10_000)) (v.to_float price))

    -- More than half away from the last price.
    abbrev pub deviates : b.F → b.F → Bool
    deviates last price =
        let was = v.to_float last in
        if f.at_most was (f.of_int (pos 0))
        then false
        else f.less (ratio 1 2) (absolute (f.div (f.sub (v.to_float price) was) was))

    unfoldable pub is_implausible_price : Pricer → b.F → Bool
    is_implausible_price p price =
        if not (in_band price)
        then true
        else if p.last_update_time == 0
        then false
        else deviates p.fil_price_usd price

    -- The first source that answers with a plausible price.
    unfoldable pub refresh_from : Feeds → List String → Pricer → Pricer
    refresh_from feeds [] p = p
    refresh_from feeds (s ∷ ss) p =
        let rest = refresh_from feeds ss p in
        elim (fetch_from_source feeds s) as (λ _. Pricer) [
          | none ↦ rest
          | some price ↦
              if is_implausible_price p price
              then rest
              else record p { fil_price_usd = price; last_update_time = feeds.now }
        ]

    unfoldable pub refresh : Feeds → Pricer → Pricer
    refresh feeds p = refresh_from feeds p.sources p

    abbrev stable_in_band : b.F → Bool
    stable_in_band price =
        not (f.less (v.to_float price) (ratio 1 2) || f.less (f.of_int (pos 2)) (v.to_float price))

    unfoldable pub fetch_stable : Feeds → List String → Option b.F
    fetch_stable feeds [] = none
    fetch_stable feeds (s ∷ ss) =
        let rest = fetch_stable feeds ss in
        elim (fetch_stable_from_source feeds s) as (λ _. Option b.F) [
          | none ↦ rest
          | some price ↦ if stable_in_band price then some price else rest
        ]

    -- Further from a dollar than the configured part of it, in hundredths of a percent.
    abbrev pub is_off_peg : Pricer → b.F → Bool
    is_off_peg p price =
        f.less (f.of_int p.stable_depeg_bps)
          (f.mul (absolute (f.sub (v.to_float price) (f.of_int (pos 1)))) (f.of_int (pos 10_000)))

    unfoldable pub refresh_stable : Feeds → Pricer → Pricer
    refresh_stable feeds p = elim (fetch_stable feeds p.stable_sources) as (λ _. Pricer) [
      | none ↦ p
      | some price ↦ record p { stable_price_usd = price; stable_depegged = is_off_peg p price }
    ]

    abbrev is_monitored : String → Pricer → Bool
    is_monitored symbol p = p.stable_symbol /= "" && symbol == p.stable_symbol

    unfoldable pub stablecoin_price_usd : String → Pricer → b.F
    stablecoin_price_usd symbol p =
        if is_monitored symbol p then p.stable_price_usd else v.new_float (f.of_int (pos 1))

    unfoldable pub is_stablecoin_depegged : String → Pricer → Bool
    is_stablecoin_depegged symbol p = is_monitored symbol p && p.stable_depegged

    -- `Start` and `StartStablecoinMonitor`: a manual price is not refreshed, nor a stablecoin without sources or symbol.
    unfoldable pub turn : Feeds → Pricer → Pricer
    turn feeds p = if p.mode == "auto" then refresh feeds p else p

    unfoldable pub turn_stable : Feeds → Pricer → Pricer
    turn_stable feeds p =
        if length p.stable_sources == 0 || p.stable_symbol == "" then p else refresh_stable feeds p

    -- The turns of the two loops, the newest first. A loop whose turn it is not has no feeds that answer.
    unfoldable pub run_refreshes : List Feeds → Pricer → Pricer
    run_refreshes [] p = p
    run_refreshes (x ∷ xs) p = turn x (turn_stable x (run_refreshes xs p))
