-- ===== src/Gateway/RateLimit.antt =====
-- src/internal/gateway/ratelimit.go: a token bucket and a cap on concurrent requests for each key. The
-- arithmetic of `float64` is a parameter; the clock's readings are arguments.
pub mod Holding
use openmodel_gateway.Prelude.{
  ℕ, zero, suc, ◌-◌, Bool, true, false, ◌&&◌, not, List, [], ◌∷◌, ◌++◌, String, Dict, lookup,
  insert, Option, none, some, ◌==◌, string_eq, if◌then◌else◌, ltb, leb, get_elem?,
}
use openmodel_gateway.Prelude.Int.{ℤ, pos, pos_part, is_pos, leb_ℤ}

pub record Float64 : Type 1 where
  pub F : Type 0
  pub of_int : ℤ → F
  -- `int(f)`: towards zero.
  pub to_int : F → ℤ
  pub add : F → F → F
  pub sub : F → F → F
  pub mul : F → F → F
  pub div : F → F → F
  pub less : F → F → Bool
  pub at_most : F → F → Bool
  -- The seconds from the second time to the first.
  pub seconds : ℕ → ℕ → F

module _ (f : Float64) where
  open f use {F, of_int, to_int, add, sub, mul, less, seconds}

  pub record TokenBucket : Type 0 where
    pub tokens : F
    pub burst : F
    pub rate_per_sec : F
    pub last : ℕ

  pub record KeyLimiter : Type 0 where
    pub bucket : Option TokenBucket
    pub in_flight : ℕ

  pub record RateLimiter : Type 0 where
    pub keys : Dict String KeyLimiter
    pub rate_per_sec : F
    pub burst : ℤ
    pub max_in_flight : ℤ

  pub record RateLimitConfig : Type 0 where
    pub rate_per_sec : F
    pub burst : ℤ
    pub max_in_flight : ℤ

  abbrev above_zero : F → Bool
  above_zero x = less (of_int (pos 0)) x

  unfoldable pub new_token_bucket : F → ℤ → ℕ → TokenBucket
  new_token_bucket rate burst now =
      let b = if less (of_int burst) (of_int (pos 1)) then of_int (pos 1) else of_int burst in
      record { tokens = b; burst = b; rate_per_sec = rate; last = now }

  -- The tokens that have come in since the last call, up to the burst.
  unfoldable pub refill : ℕ → TokenBucket → TokenBucket
  refill now t =
      let elapsed = seconds now t.last in
      let more = add t.tokens (mul elapsed t.rate_per_sec) in
      if above_zero elapsed
      then record t { tokens = if less t.burst more then t.burst else more; last = now }
      else t

  unfoldable pub allow_at : ℕ → TokenBucket → Bool × TokenBucket
  allow_at now t =
      let t' = refill now t in
      if not (less t'.tokens (of_int (pos 1)))
      then (true, record t' { tokens = sub t'.tokens (of_int (pos 1)) })
      else (false, t')

  -- `none` where nothing is limited.
  unfoldable pub new_rate_limiter : RateLimitConfig → Option RateLimiter
  new_rate_limiter cfg =
      let whole = to_int cfg.rate_per_sec in
      if not (above_zero cfg.rate_per_sec) && not (is_pos cfg.max_in_flight)
      then none
      else some (record {
        keys = [];
        rate_per_sec = cfg.rate_per_sec;
        burst = if is_pos cfg.burst then cfg.burst else if is_pos whole then whole else pos 1;
        max_in_flight = cfg.max_in_flight;
      })

  -- The entry of a key, made when it is first asked for.
  unfoldable pub entry_for : String → ℕ → RateLimiter → KeyLimiter
  entry_for key now rl = elim (lookup key rl.keys) [
    | some kl ↦ kl
    | none ↦ record {
      bucket =
          if above_zero rl.rate_per_sec
          then some (new_token_bucket rl.rate_per_sec rl.burst now)
          else none;
      in_flight = 0;
    }
  ]

  unfoldable pub limiter_for : String → ℕ → RateLimiter → RateLimiter
  limiter_for key now rl = record rl { keys = insert key (entry_for key now rl) rl.keys }

  -- A limiter with a rate makes every entry with a bucket; without one the call would panic, `none`.
  unfoldable pub allow_rate : String → ℕ → ℕ → RateLimiter → Option (Bool × RateLimiter)
  allow_rate key made now rl =
      if not (above_zero rl.rate_per_sec)
      then some (true, rl)
      else let kl = entry_for key made rl in
        elim kl.bucket [
          | none ↦ none
          | some t ↦
              let r = allow_at now t in
              some (
                r.0,
                record rl {
                  keys =
                      insert key (record { bucket = some r.1; in_flight = kl.in_flight }) rl.keys;
                },
              )
        ]

  -- The limiter and the release functions that were handed out: `some key` until its first call.
  pub record Slots : Type 0 where
    pub limiter : RateLimiter
    pub releases : List (Option String)

  -- Without a cap the release does nothing, so it is not kept.
  unfoldable pub acquire : String → ℕ → Slots → Bool × Slots
  acquire key now s =
      let kl = entry_for key now s.limiter in
      let taken : KeyLimiter = record { bucket = kl.bucket; in_flight = suc kl.in_flight } in
      if not (is_pos s.limiter.max_in_flight)
      then (true, s)
      else if leb (pos_part s.limiter.max_in_flight) kl.in_flight
      then (false, record { limiter = limiter_for key now s.limiter; releases = s.releases })
      else (
        true,
        record {
          limiter = record s.limiter { keys = insert key taken s.limiter.keys };
          releases = s.releases ++ some key ∷ [];
        },
      )

  abbrev pub spend_at : ℕ → List (Option String) → List (Option String)
  spend_at i [] = []
  spend_at zero (r ∷ rs) = none ∷ rs
  spend_at (suc i) (r ∷ rs) = r ∷ spend_at i rs

  abbrev pub freed : KeyLimiter → KeyLimiter
  freed kl = record {
    bucket = kl.bucket;
    in_flight = if ltb 0 kl.in_flight then kl.in_flight - 1 else kl.in_flight;
  }

  unfoldable pub give_back : String → RateLimiter → RateLimiter
  give_back key rl = elim (lookup key rl.keys) [
    | none ↦ rl
    | some kl ↦ record rl { keys = insert key (freed kl) rl.keys }
  ]

  abbrev pub holder : Option (Option String) → Option String
  holder none = none
  holder (some r) = r

  -- A call of the i-th release function; only the first does anything.
  unfoldable pub release : ℕ → Slots → Slots
  release i s = elim (holder (get_elem? s.releases i)) [
    | none ↦ s
    | some key ↦ record { limiter = give_back key s.limiter; releases = spend_at i s.releases }
  ]
