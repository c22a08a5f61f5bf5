-- ===== src/Settlement/Tests/Prices.antt =====
-- Instances of the theorem on the price of FIL.
use openmodel_gateway.Prelude.{ℕ, ◌+◌, ◌≤◌, ◌≡◌, refl, true, List, [], ◌∷◌, none, some}
use openmodel_gateway.Prelude.Int.{ℤ, pos, ◌+ℤ◌, ◌-ℤ◌, ◌*ℤ◌, ltb_ℤ, leb_ℤ}
use openmodel_gateway.Gateway.RateLimit.{Float64}
use openmodel_gateway.Settlement.Pricer.{
  Conversions, Feeds, PriceConfig, new_pricer, run_refreshes, turn, turn_stable, refresh,
  refresh_from, refresh_stable, fetch_stable, fetch_from_source, fetch_stable_from_source,
  fetch_float, fetch_text, is_implausible_price, is_stale, in_band,
}
use openmodel_gateway.Settlement.Pricer.Freshness.{IsQuoted, not_stale-IsQuoted}
use openmodel_gateway.Settlement.Tests.{whole}

abbrev dollars : Float64
dollars = record {
  F = ℤ;
  of_int = λ x. x;
  to_int = λ x. x;
  add = λ x y. x +ℤ y;
  sub = λ x y. x -ℤ y;
  mul = λ x y. x *ℤ y;
  div = λ x y. x;
  at_most = λ x y. leb_ℤ x y;
  less = ltb_ℤ;
  seconds = λ x y. pos x -ℤ pos y;
}

abbrev conversions : Conversions dollars whole
conversions = record { to_float = λ x. x; new_float = λ x. x; parse_float = λ s. some (pos 4) }

abbrev config : PriceConfig dollars whole
config = record {
  fil_price_usd = "4";
  sources = "coingecko" ∷ "binance" ∷ [];
  refresh_sec = 300;
  mode = "auto";
  stable_symbol = "USDC";
  stable_sources = "coingecko" ∷ [];
  stable_depeg_bps = pos 200;
}

abbrev silent : ℕ → Feeds dollars whole
silent t = record {
  now = t;
  coin_gecko = none;
  binance = none;
  stable_coin_gecko = none;
  stable_binance = none;
}

-- The first source is far off, the second is taken; at the next turn none answers.
abbrev turns : List (Feeds dollars whole)
turns =
    silent 60
    ∷ record (silent 40) {
      coin_gecko = some (record { status = 200; decoded = some (pos 20_000) });
      binance = some (record { status = 200; decoded = some "4" });
    }
    ∷ []

not_stale-IsQuoted_example :
    let p =
      run_refreshes dollars whole conversions turns (new_pricer dollars whole conversions config) in
    (in_band dollars whole conversions p.fil_price_usd ≡ true)
    × IsQuoted dollars whole conversions p.fil_price_usd p.last_update_time turns
    × (70 ≤ p.last_update_time + (new_pricer dollars whole conversions config).max_age)
unfolding run_refreshes turn turn_stable refresh refresh_from refresh_stable fetch_stable
    fetch_from_source fetch_stable_from_source fetch_float fetch_text is_implausible_price is_stale
    new_pricer
not_stale-IsQuoted_example = not_stale-IsQuoted dollars whole conversions config turns 70 refl refl
