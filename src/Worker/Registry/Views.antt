-- ===== src/Worker/Registry/Views.antt =====
-- src/internal/worker/registry.go: what is read of the registry.
use openmodel_gateway.Prelude.{
  ℕ, ◌+◌, ◌&&◌, List, [], ◌∷◌, map, String, Dict, lookup, insert, Option, none, some, ◌==◌, ◌/=◌,
  nat_eq, string_eq, if◌then◌else◌, length,
}
use openmodel_gateway.Prelude.Int.{ℤ, pos, ◌+ℤ◌}
use openmodel_gateway.Worker.State.{
  Worker, WorkerState, idle, busy, mining, loading, offline, is_routable,
}
use openmodel_gateway.Worker.Registry.Core.{Registry}
use openmodel_gateway.Worker.Registry.Runtime.{or_zero}

-- A copy of the worker, with the gateway's own count of its requests in flight.
abbrev pub snapshot : Registry → String → Worker → Worker
snapshot r id w = record w { in_flight = or_zero (lookup id r.inflight) }

unfoldable pub get : String → Registry → Option Worker
get id r = elim (lookup id r.workers) [ none ↦ none | some w ↦ some (snapshot r id w) ]

unfoldable pub list : Registry → List Worker
list r = map (λ e. snapshot r e.1.id e.1) r.workers

unfoldable pub sp_map_of : Dict String Worker → Dict String String → Dict String String
sp_map_of [] m = m
sp_map_of ((id, w) ∷ ws) m =
    sp_map_of ws (if w.miner_address == "" then m else insert id w.miner_address m)

unfoldable pub list_worker_sp_map : Registry → Dict String String
unfolding sp_map_of
list_worker_sp_map r = sp_map_of r.workers []

unfoldable pub payout_map_of : Dict String Worker → Dict String String → Dict String String
payout_map_of [] m = m
payout_map_of ((id, w) ∷ ws) m = payout_map_of ws (
    if w.miner_address /= "" && w.payout_address /= ""
    then insert w.miner_address w.payout_address m
    else m)

unfoldable pub list_miner_payout_map : Registry → Dict String String
unfolding payout_map_of
list_miner_payout_map r = payout_map_of r.workers []

unfoldable pub first_with_token : String → Dict String Worker → Option Worker
first_with_token token [] = none
first_with_token token ((id, w) ∷ ws) =
    if w.auth_token /= "" && w.auth_token == token then some w else first_with_token token ws

unfoldable pub find_by_token : String → Registry → Option Worker
find_by_token token r = if token == "" then none else first_with_token token r.workers

unfoldable pub first_with_miner : String → Registry → Dict String Worker → Option Worker
first_with_miner miner r [] = none
first_with_miner miner r ((id, w) ∷ ws) =
    if w.miner_address == miner then some (snapshot r w.id w) else first_with_miner miner r ws

unfoldable pub find_by_miner : String → Registry → Option Worker
unfolding first_with_miner
find_by_miner miner r = first_with_miner miner r r.workers

unfoldable pub count : Registry → ℕ
count r = length r.workers

pub record FleetStats : Type 0 where
  pub total_workers : ℕ
  pub idle_workers : ℕ
  pub busy_workers : ℕ
  pub mining_workers : ℕ
  pub loading_workers : ℕ
  pub offline_workers : ℕ
  pub total_gpus : ℤ
  pub available_gpus : ℤ

abbrev pub no_stats : FleetStats
no_stats = record {
  total_workers = 0;
  idle_workers = 0;
  busy_workers = 0;
  mining_workers = 0;
  loading_workers = 0;
  offline_workers = 0;
  total_gpus = pos 0;
  available_gpus = pos 0;
}

-- `stateCounts[w.State]++`
abbrev pub count_state : WorkerState → FleetStats → FleetStats
count_state idle s = record s { idle_workers = s.idle_workers + 1 }
count_state busy s = record s { busy_workers = s.busy_workers + 1 }
count_state mining s = record s { mining_workers = s.mining_workers + 1 }
count_state loading s = record s { loading_workers = s.loading_workers + 1 }
count_state offline s = record s { offline_workers = s.offline_workers + 1 }

unfoldable pub add_stats : Worker → FleetStats → FleetStats
add_stats w s =
    let t = count_state w.state s in
    record t {
      total_gpus = t.total_gpus +ℤ w.gpu_count;
      available_gpus =
          if is_routable w.state then t.available_gpus +ℤ w.gpu_count else t.available_gpus;
    }

unfoldable pub stats_of : Dict String Worker → FleetStats → FleetStats
stats_of [] s = s
stats_of ((id, w) ∷ ws) s = stats_of ws (add_stats w s)

unfoldable pub stats : Registry → FleetStats
stats r = record (stats_of r.workers no_stats) { total_workers = length r.workers }
