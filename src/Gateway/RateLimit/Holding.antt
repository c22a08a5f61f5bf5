-- ===== src/Gateway/RateLimit/Holding.antt =====
-- src/internal/gateway/ratelimit.go: the concurrency slots over any calls of `Acquire` and release.
use openmodel_gateway.Prelude.{
  ℕ, zero, suc, ◌+◌, ◌≤◌, ◌≡◌, refl, subst, ◌∙◌, Bool, List, [], ◌∷◌, ◌++◌, String, lookup, insert,
  lookup-insert, Option, none, some, ◌==◌, string_eq, if◌then◌else◌, get_elem?, leb, not, if-holds,
  option-holds, Option-cases, inl, inr, arith,
}
use openmodel_gateway.Prelude.Int.{ℤ, pos, pos_part, is_pos}
use openmodel_gateway.Gateway.RateLimit.{
  Float64, KeyLimiter, RateLimiter, Slots, entry_for, limiter_for, acquire, release, allow_rate,
  allow_at, give_back, spend_at, holder, freed,
}

-- The release functions of a key that were not called yet.
abbrev pub open_of : String → List (Option String) → ℕ
open_of key [] = 0
open_of key (none ∷ rs) = open_of key rs
open_of key (some k ∷ rs) = let rest = open_of key rs in if k == key then suc rest else rest

pub open_of-append :
    (key : String) (xs ys : List (Option String))
    → open_of key (xs ++ ys) ≡ open_of key xs + open_of key ys
open_of-append key [] ys = omega arith
open_of-append key (none ∷ xs) ys = omega (arith, open_of-append key xs ys)
open_of-append key (some k ∷ xs) ys = ground (arith, open_of-append key xs ys)

module _ (f : Float64) where
  pub open_of-spend_at :
      (key k : String) (i : ℕ) (rs : List (Option String))
      → holder f (get_elem? rs i) ≡ some k
      → open_of key rs ≡ open_of key (spend_at f i rs) + (if k == key then 1 else 0)
  open_of-spend_at key k i [] h = ground arith
  open_of-spend_at key k zero (none ∷ rs) h = ground arith
  open_of-spend_at key k zero (some j ∷ rs) h = ground arith
  open_of-spend_at key k (suc i) (none ∷ rs) h = omega (arith, open_of-spend_at key k i rs h)
  open_of-spend_at key k (suc i) (some j ∷ rs) h = ground (arith, open_of-spend_at key k i rs h)

  abbrev pub in_flight_of : String → RateLimiter f → ℕ
  in_flight_of key rl = elim (lookup key rl.keys) [ none ↦ 0 | some kl ↦ kl.in_flight ]

  -- A key's count of requests in flight is that of its open releases, and within the cap.
  abbrev pub IsHeld : String → ℤ → Slots f → Type 0
  IsHeld k most s =
      (s.limiter.max_in_flight ≡ most)
      × (in_flight_of k s.limiter ≡ open_of k s.releases)
      × (open_of k s.releases ≤ pos_part most)

  entry_for-in_flight :
      (key : String) (now : ℕ) (rl : RateLimiter f)
      → (entry_for f key now rl).in_flight ≡ in_flight_of key rl
  unfolding entry_for
  entry_for-in_flight key now rl = elim (Option-cases (lookup key rl.keys)) [
    | inl fresh ↦ ground arith
    | inr (kl, known) ↦ ground arith
  ]

  insert-in_flight :
      (key k : String) (kl : KeyLimiter f) (rl : RateLimiter f)
      → in_flight_of k (record rl { keys = insert key kl rl.keys })
        ≡ (if key == k then kl.in_flight else in_flight_of k rl)
  insert-in_flight key k kl rl = ground (arith, lookup-insert key k kl rl.keys)

  acquire-IsHeld :
      (key k : String) (now : ℕ) (most : ℤ) (s : Slots f)
      → IsHeld k most s
      → IsHeld k most (acquire f key now s).1
  unfolding acquire limiter_for
  acquire-IsHeld key k now most s (cap, same, within) =
      let kl = entry_for f key now s.limiter in
      let taken : KeyLimiter f = record { bucket = kl.bucket; in_flight = suc kl.in_flight } in
      let flight = entry_for-in_flight key now s.limiter in
      if-holds {A = Bool × Slots f} (λ r. IsHeld k most r.1) (not (is_pos s.limiter.max_in_flight))
        (λ off. (cap, same, within))
        (λ on.
          if-holds {A = Bool × Slots f} (λ r. IsHeld k most r.1)
            (leb (pos_part s.limiter.max_in_flight) kl.in_flight)
            (λ full. (
              cap,
              ground (
                arith,
                flight,
                same,
                insert-in_flight key k kl s.limiter,
                string_eq.same_iff key k,
              ),
              within,
            ))
            (λ room. (
              cap,
              ground (
                arith,
                flight,
                same,
                insert-in_flight key k taken s.limiter,
                string_eq.same_iff key k,
                open_of-append k s.releases (some key ∷ []),
              ),
              ground (
                arith,
                flight,
                same,
                cap,
                room,
                string_eq.same_iff key k,
                open_of-append k s.releases (some key ∷ []),
              ),
            )))

  give_back-IsHeld :
      (key k : String) (i : ℕ) (most : ℤ) (s : Slots f)
      → holder f (get_elem? s.releases i) ≡ some key
      → IsHeld k most s
      → IsHeld k most
          (record { limiter = give_back f key s.limiter; releases = spend_at f i s.releases })
  unfolding give_back
  give_back-IsHeld key k i most s h (cap, same, within) =
      elim (Option-cases (lookup key s.limiter.keys)) [
        | inl unknown ↦
            ground (arith, open_of-spend_at k key i s.releases h, string_eq.same_iff key k)
        | inr (kl, known) ↦ ground (
          arith,
          open_of-spend_at k key i s.releases h,
          string_eq.same_iff key k,
          lookup-insert key k (freed f kl) s.limiter.keys,
        )
      ]

  release-IsHeld :
      (k : String) (i : ℕ) (most : ℤ) (s : Slots f)
      → IsHeld k most s
      → IsHeld k most (release f i s)
  unfolding release
  release-IsHeld k i most s h =
      option-holds {B = Slots f} (IsHeld k most) (holder f (get_elem? s.releases i))
        (λ none_left. h) (λ key e. give_back-IsHeld key k i most s e h)

  -- The rate check of a key leaves every count alone.
  unfoldable pub meter : String → ℕ → ℕ → Slots f → Slots f
  meter key made now s = elim (allow_rate f key made now s.limiter) [
    | none ↦ s
    | some r ↦ record { limiter = r.1; releases = s.releases }
  ]

  abbrev SameCounts : RateLimiter f → Option (Bool × RateLimiter f) → Type 0
  SameCounts rl none = Unit
  SameCounts rl (some r) =
      (r.1.max_in_flight ≡ rl.max_in_flight)
      × ((k : String) → in_flight_of k r.1 ≡ in_flight_of k rl)

  allow_rate-SameCounts :
      (key : String) (made now : ℕ) (rl : RateLimiter f)
      → SameCounts rl (allow_rate f key made now rl)
  unfolding allow_rate
  allow_rate-SameCounts key made now rl =
      let kl = entry_for f key made rl in
      if-holds {A = Option (Bool × RateLimiter f)} (SameCounts rl)
        (not (f.less (f.of_int (pos 0)) rl.rate_per_sec)) (λ off. (refl, λ k. refl))
        (λ on.
          option-holds {B = Option (Bool × RateLimiter f)} (SameCounts rl) kl.bucket (λ e. tt)
            (λ t e. (
              refl,
              λ k. ground (
                arith,
                insert-in_flight key k
                    (record { bucket = some (allow_at f now t).1; in_flight = kl.in_flight }) rl,
                entry_for-in_flight key made rl,
                string_eq.same_iff key k,
              ),
            )))

  meter-IsHeld :
      (key k : String) (made now : ℕ) (most : ℤ) (s : Slots f)
      → IsHeld k most s
      → IsHeld k most (meter key made now s)
  unfolding meter
  meter-IsHeld key k made now most s (cap, same, within) =
      option-holds {B = Slots f} (IsHeld k most) (allow_rate f key made now s.limiter)
        (λ e. (cap, same, within))
        (λ r e.
          let counts =
            subst (SameCounts s.limiter) e (allow_rate-SameCounts key made now s.limiter) in
          (counts.0 ∙ cap, counts.1 k ∙ same, within))

  -- The calls of any requests, in any order: `Acquire`, a release function by its place, `AllowRate`.
  pub data Call : Type 0 where
    acquires : String → ℕ → Call
    releases_at : ℕ → Call
    meters : String → ℕ → ℕ → Call

  unfoldable pub serve_call : Call → Slots f → Slots f
  serve_call (acquires key now) s = (acquire f key now s).1
  serve_call (releases_at i) s = release f i s
  serve_call (meters key made now) s = meter key made now s

  unfoldable pub serve_calls : List Call → Slots f → Slots f
  serve_calls [] s = s
  serve_calls (c ∷ cs) s = serve_calls cs (serve_call c s)

  -- After any calls the count of a key is the number of its releases that were not called yet, and
  -- within the cap, if so it was before.
  pub serve_calls-IsHeld :
      (k : String) (most : ℤ) (cs : List Call) (s : Slots f)
      → IsHeld k most s
      → IsHeld k most (serve_calls cs s)
  unfolding serve_calls serve_call
  serve_calls-IsHeld k most [] s h = h
  serve_calls-IsHeld k most (acquires key now ∷ cs) s h =
      serve_calls-IsHeld k most cs _ (acquire-IsHeld key k now most s h)
  serve_calls-IsHeld k most (releases_at i ∷ cs) s h =
      serve_calls-IsHeld k most cs _ (release-IsHeld k i most s h)
  serve_calls-IsHeld k most (meters key made now ∷ cs) s h =
      serve_calls-IsHeld k most cs _ (meter-IsHeld key k made now most s h)
