-- ===== src/Worker/Registry/Fleet.antt =====
-- src/internal/worker/registry.go: the counters, of requests in flight and of the fleet.
use openmodel_gateway.Prelude.{
  ℕ, ◌+◌, ◌-◌, ◌≡◌, refl, ap, ◌∙◌, Bool, true, false, String, lookup, lookup-insert, lookup-erase,
  arith, string_eq, nat_eq, ◌==◌, List, [], ◌∷◌, Dict, length, if◌then◌else◌, inl, inr, Bool-cases,
}
use openmodel_gateway.Prelude.Int.{ℤ, pos, ◌+ℤ◌, int_laws}
use openmodel_gateway.Worker.State.{Worker, WorkerState, is_routable}
use openmodel_gateway.Worker.Registry.Core.{Registry}
use openmodel_gateway.Worker.Registry.Runtime.{inc_inflight, dec_inflight, or_zero}
use openmodel_gateway.Worker.Registry.Views.{FleetStats, no_stats, add_stats, stats_of, stats}

-- The requests in flight that the registry counts for a worker.
abbrev pub in_flight : String → Registry → ℕ
in_flight id r = or_zero (lookup id r.inflight)

-- A dispatch adds one to its worker's count, and touches no other's.
in_flight-inc_inflight :
    (id j : String) (r : Registry)
    → in_flight j (inc_inflight id r) ≡ (if id == j then in_flight j r + 1 else in_flight j r)
unfolding inc_inflight
in_flight-inc_inflight id j r = ground (
  arith,
  string_eq.same_iff id j,
  lookup-insert id j (or_zero (lookup id r.inflight) + 1) r.inflight,
)

-- A completion takes one off its worker's count unless it is 0, and touches no other's.
in_flight-dec_inflight :
    (id j : String) (r : Registry)
    → in_flight j (dec_inflight id r) ≡ (if id == j then in_flight j r - 1 else in_flight j r)
unfolding dec_inflight
in_flight-dec_inflight id j r = ground (
  arith,
  string_eq.same_iff id j,
  lookup-insert id j (or_zero (lookup id r.inflight) - 1) r.inflight,
  lookup-erase id j r.inflight,
)

-- A dispatch (true) or a completion (false) of a request on a worker.
abbrev pub Traffic : Type 0
Traffic = List (Bool × String)

unfoldable pub serve : Traffic → Registry → Registry
serve [] r = r
serve ((dispatched, id) ∷ ts) r =
    serve ts (if dispatched then inc_inflight id r else dec_inflight id r)

-- What the count of a worker should be: a completion with nothing in flight is not counted.
unfoldable pub open_requests : String → ℕ → Traffic → ℕ
open_requests j n [] = n
open_requests j n ((dispatched, id) ∷ ts) =
    open_requests j (if id == j then (if dispatched then n + 1 else n - 1) else n) ts

-- After any traffic, in which the requests of many workers interleave, the registry's count of each
-- worker is that of its own dispatches and completions.
pub serve-in_flight :
    (j : String) (ts : Traffic) (r : Registry)
    → in_flight j (serve ts r) ≡ open_requests j (in_flight j r) ts
unfolding serve open_requests
serve-in_flight j [] r = refl
serve-in_flight j ((true, id) ∷ ts) r =
    serve-in_flight j ts (inc_inflight id r)
    ∙ ap (λ n. open_requests j n ts) (in_flight-inc_inflight id j r)
serve-in_flight j ((false, id) ∷ ts) r =
    serve-in_flight j ts (dec_inflight id r)
    ∙ ap (λ n. open_requests j n ts) (in_flight-dec_inflight id j r)

abbrev pub sum_states : FleetStats → ℕ
sum_states s =
    s.idle_workers + s.busy_workers + s.mining_workers + s.loading_workers + s.offline_workers

sum_states-add_stats : (w : Worker) (s : FleetStats) → sum_states (add_stats w s) ≡ sum_states s + 1
unfolding add_stats
sum_states-add_stats w s = ground arith

sum_states-stats_of :
    (ws : Dict String Worker) (s : FleetStats)
    → sum_states (stats_of ws s) ≡ sum_states s + length ws
unfolding stats_of
sum_states-stats_of [] s = omega arith
sum_states-stats_of ((id, w) ∷ ws) s =
    omega (arith, sum_states-stats_of ws (add_stats w s), sum_states-add_stats w s)

-- The GPUs of the workers that pass a test.
abbrev pub gpus_where : (WorkerState → Bool) → Dict String Worker → ℤ
gpus_where p [] = pos 0
gpus_where p ((id, w) ∷ ws) = if p w.state then w.gpu_count +ℤ gpus_where p ws else gpus_where p ws

gpus-add_stats :
    (w : Worker) (s : FleetStats)
    → ((add_stats w s).total_gpus ≡ s.total_gpus +ℤ w.gpu_count)
      × ((add_stats w s).available_gpus
          ≡ (if is_routable w.state then s.available_gpus +ℤ w.gpu_count else s.available_gpus))
unfolding add_stats
gpus-add_stats w s = ground arith

gpus-stats_of :
    (ws : Dict String Worker) (s : FleetStats)
    → ((stats_of ws s).total_gpus ≡ s.total_gpus +ℤ gpus_where (λ _. true) ws)
      × ((stats_of ws s).available_gpus ≡ s.available_gpus +ℤ gpus_where is_routable ws)
unfolding stats_of
gpus-stats_of [] s = (omega int_laws, omega int_laws)
gpus-stats_of ((id, w) ∷ ws) s =
    let rest = gpus-stats_of ws (add_stats w s) in
    let added = gpus-add_stats w s in
    (
      rest.0 ∙ ap (λ n. n +ℤ gpus_where (λ _. true) ws) added.0 ∙ omega int_laws,
      elim (Bool-cases (is_routable w.state)) [
        | inl on ↦
            rest.1 ∙ ap (λ n. n +ℤ gpus_where is_routable ws) added.1 ∙ rw on (omega int_laws)
        | inr off ↦ rest.1 ∙ ap (λ n. n +ℤ gpus_where is_routable ws) added.1 ∙ rw off refl
      ],
    )

-- The fleet's statistics count each worker in exactly one state, and as available the GPUs of the
-- idle and busy workers alone.
pub stats_account :
    (r : Registry)
    → ((stats r).total_workers ≡ sum_states (stats r))
      × ((stats r).total_gpus ≡ gpus_where (λ _. true) r.workers)
      × ((stats r).available_gpus ≡ gpus_where is_routable r.workers)
unfolding stats
stats_account r =
    let gpus = gpus-stats_of r.workers no_stats in
    (
      omega (arith, sum_states-stats_of r.workers no_stats),
      gpus.0 ∙ omega int_laws,
      gpus.1 ∙ omega int_laws,
    )
