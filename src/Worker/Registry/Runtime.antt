-- ===== src/Worker/Registry/Runtime.antt =====
-- src/internal/worker/registry.go: what polls and dispatches write. None of it goes to disk.
use Prim.Native.String.{len}
use openmodel_gateway.Prelude.{
  ℕ, ◌+◌, ◌-◌, Bool, true, false, ◌&&◌, ◌||◌, not, List, String, lookup, insert, erase, Option,
  none, some, ◌==◌, ◌/=◌, nat_eq, string_eq, if◌then◌else◌, ltb, leb,
}
use openmodel_gateway.Prelude.Int.{ℤ, pos, is_pos}
use openmodel_gateway.Worker.State.{Worker, WorkerState, loading, offline, is_zero, derive_state}
use openmodel_gateway.Worker.Models.{same_model_basename}
use openmodel_gateway.Worker.Registry.Core.{Registry, modify}

abbrev pub or_zero : Option ℕ → ℕ
or_zero none = 0
or_zero (some n) = n

unfoldable pub inc_inflight : String → Registry → Registry
inc_inflight id r = record r {
  inflight = insert id (or_zero (lookup id r.inflight) + 1) r.inflight;
}

-- The counter of a worker with no request in flight is dropped from the map.
unfoldable pub dec_inflight : String → Registry → Registry
dec_inflight id r =
    let n = or_zero (lookup id r.inflight) - 1 in
    record r { inflight = if n == 0 then erase id r.inflight else insert id n r.inflight }

-- The two prefixes `[:16]` in the warning on a changed key are taken of keys that a worker reports;
-- the slice of a shorter text panics.
unfoldable pub warning_panics : String → String → Bool
warning_panics old key =
    key /= "" && (old /= "" && old /= key) && (ltb (len old) 16 || ltb (len key) 16)

abbrev pub advertise : List String → String → Worker → Worker
advertise features key w = record w {
  features = features;
  receipt_pubkey = if key /= "" then key else w.receipt_pubkey;
}

-- `none` is a panic.
unfoldable pub set_features : String → List String → String → Registry → Option Registry
set_features id features key r =
    if elim (lookup id r.workers) [ none ↦ false | some w ↦ warning_panics w.receipt_pubkey key ]
    then none
    else some (modify id (advertise features key) r)

abbrev pub foresee : ℤ → ℕ → Worker → Worker
foresee seconds now w = record w { seconds_until_change = seconds; until_change_at = now }

unfoldable pub set_until_change : String → ℤ → ℕ → Registry → Registry
set_until_change id seconds now = modify id (foresee seconds now)

-- One poll's report.
pub record Report : Type 0 where
  pub gpu_state : String
  pub engine_state : String
  pub active_requests : ℤ
  pub loaded_model : String
  pub engine_count : ℤ

-- A model switch that the gateway started keeps the worker in `loading` until the target is
-- reported, or is given up as `offline` after the timeout.
unfoldable pub settle_switch : ℕ → ℕ → String → WorkerState → Worker → Worker × WorkerState
settle_switch timeout now loaded derived w =
    if w.switching_to == ""
    then (w, derived)
    else if same_model_basename loaded w.switching_to
    then (record w { switching_to = ""; switching_since = 0 }, derived)
    else if ltb 0 timeout
        && not (is_zero w.switching_since)
        && ltb (w.switching_since + timeout) now
    then (record w { switching_to = ""; switching_since = 0 }, offline)
    else (w, loading)

abbrev pub is_loading : WorkerState → Bool
is_loading loading = true
is_loading _ = false

-- A worker that stays in `loading` past the timeout counts as offline.
unfoldable pub guard_loading : ℕ → ℕ → WorkerState → Worker → Worker × WorkerState
guard_loading timeout now derived w =
    if is_loading derived
    then (if is_zero w.loading_since
        then (record w { loading_since = now }, derived)
        else (if ltb 0 timeout && ltb (w.loading_since + timeout) now
            then (w, offline)
            else (w, derived)))
    else (record w { loading_since = 0 }, derived)

-- `UpdateState` on the worker that it finds.
unfoldable pub apply_report : ℕ → ℕ → Report → Worker → Worker
apply_report timeout now rep w =
    let polled = record w {
      gpu_state = rep.gpu_state;
      engine_state = rep.engine_state;
      active_requests = rep.active_requests;
      last_poll_time = now;
      consecutive_failures = 0;
    } in
    let (switched, derived) =
      settle_switch timeout now rep.loaded_model
        (derive_state rep.gpu_state rep.engine_state rep.active_requests) polled in
    let (guarded, settled) = guard_loading timeout now derived switched in
    record guarded {
      state = settled;
      loaded_model = rep.loaded_model;
      gpu_count = if is_pos rep.engine_count then rep.engine_count else w.gpu_count;
    }

unfoldable pub update_state : String → Report → ℕ → Registry → Registry
update_state id rep now r = modify id (apply_report r.loading_timeout now rep) r

-- `MarkSwitching` on the worker that it finds.
unfoldable pub start_switch : String → ℕ → Worker → Worker
start_switch target now w =
    if target == "" || same_model_basename w.loaded_model target then w else record w {
      switching_to = target;
      switching_since = if w.switching_to == target then w.switching_since else now;
      state = loading;
    }

unfoldable pub mark_switching : String → String → ℕ → Registry → Registry
mark_switching id target now = modify id (start_switch target now)

abbrev pub is_offline : WorkerState → Bool
is_offline offline = true
is_offline _ = false

abbrev pub count_failure : Worker → Worker
count_failure w = record w { consecutive_failures = w.consecutive_failures + 1 }

-- Whether the caller should mark the worker offline, and its failures in a row.
unfoldable pub failure_verdict : ℕ → Option Worker → Bool × ℕ
failure_verdict threshold none = (false, 0)
failure_verdict threshold (some w) =
    let n = w.consecutive_failures + 1 in (leb threshold n && not (is_offline w.state), n)

unfoldable pub record_poll_failure : String → ℕ → Registry → Registry × (Bool × ℕ)
record_poll_failure id threshold r =
    (modify id count_failure r, failure_verdict threshold (lookup id r.workers))

unfoldable pub take_offline : Worker → Worker
take_offline w =
    if is_offline w.state
    then w
    else record w { state = offline; gpu_state = ""; engine_state = ""; active_requests = pos 0 }

unfoldable pub mark_offline : String → Registry → Registry
mark_offline id = modify id take_offline

-- `handlePollFailure` of src/internal/worker/poller.go, with its logs left out.
unfoldable pub handle_poll_failure : String → ℕ → Registry → Registry
handle_poll_failure id threshold r =
    let failed = record_poll_failure id threshold r in
    if failed.1.0 then mark_offline id failed.0 else failed.0

-- `pollWorker`: the scheduler's answer with its estimate and the engine's answer, either of which may
-- fail.
unfoldable pub poll_worker :
    String
    → ℕ
    → Option ℤ
    → Option (Report × (List String × String))
    → ℕ
    → Registry
    → Option Registry
poll_worker id threshold none health now r = some (handle_poll_failure id threshold r)
poll_worker id threshold (some until) none now r = some (handle_poll_failure id threshold r)
poll_worker id threshold (some until) (some (rep, (features, key))) now r =
    elim (set_features id features key (set_until_change id until now r)) [
      | none ↦ none
      | some r' ↦ some (update_state id rep now r')
    ]
