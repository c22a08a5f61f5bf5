-- ===== src/Worker/Registry/Polling.antt =====
-- src/internal/worker/registry.go and poller.go: what successful and failed polls make of a worker.
use openmodel_gateway.Prelude.{
  ℕ, zero, suc, ◌+◌, ◌<◌, ◌≤◌, ◌≡◌, ◌≢◌, refl, ◌∙◌, true, false, String, some, lookup,
  lookup-insert, arith, string_eq, nat_eq, eq_refl,
}
use openmodel_gateway.Worker.State.{Worker, WorkerState, loading, offline}
use openmodel_gateway.Worker.Models.{same_model_basename}
use openmodel_gateway.Worker.Registry.Core.{Registry, modify}
use openmodel_gateway.Worker.Registry.Runtime.{
  Report, apply_report, settle_switch, guard_loading, take_offline, count_failure, failure_verdict,
  record_poll_failure, mark_offline, handle_poll_failure,
}

-- A worker shown as loading after a poll entered that state at a known time, at most the timeout ago.
pub apply_report-loading_bounded :
    (timeout now : ℕ) (rep : Report) (w : Worker)
    → 0 < timeout
    → 0 < now
    → (apply_report timeout now rep w).state ≡ loading
    → (0 < (apply_report timeout now rep w).loading_since)
      × (now ≤ (apply_report timeout now rep w).loading_since + timeout)
unfolding apply_report guard_loading
apply_report-loading_bounded timeout now rep w t n h = ground arith

settle_switch-bounded :
    (timeout now : ℕ) (loaded : String) (d : WorkerState) (w : Worker)
    → 0 < timeout
    → 0 < w.switching_since
    → (settle_switch timeout now loaded d w).0.switching_to ≢ ""
    → (now ≤ w.switching_since + timeout) × (same_model_basename loaded w.switching_to ≡ false)
unfolding settle_switch
settle_switch-bounded timeout now loaded d w t n h =
    ground (arith, string_eq.same_iff w.switching_to "")

guard_loading-switching_to :
    (timeout now : ℕ) (d : WorkerState) (w : Worker)
    → (guard_loading timeout now d w).0.switching_to ≡ w.switching_to
unfolding guard_loading
guard_loading-switching_to timeout now d w = ground arith

-- A switch that a poll leaves under way was started at most the timeout ago, and its target is not
-- what the worker reports as loaded.
pub apply_report-switching_bounded :
    (timeout now : ℕ) (rep : Report) (w : Worker)
    → 0 < timeout
    → 0 < w.switching_since
    → (apply_report timeout now rep w).switching_to ≢ ""
    → (now ≤ w.switching_since + timeout)
      × (same_model_basename rep.loaded_model w.switching_to ≡ false)
unfolding apply_report
apply_report-switching_bounded timeout now rep w t n h =
    settle_switch-bounded timeout now rep.loaded_model _ _ t n
      (λ e. h (guard_loading-switching_to timeout now _ _ ∙ e))

pub lookup-modify :
    (id : String) (f : Worker → Worker) (r : Registry) {w : Worker}
    → lookup id r.workers ≡ some w
    → lookup id (modify id f r).workers ≡ some (f w)
unfolding modify
lookup-modify id f r {w} h = ground (arith, lookup-insert id id (f w) r.workers, eq_refl id)

-- `n` polls in a row that fail.
unfoldable pub fail_polls : String → ℕ → ℕ → Registry → Registry
fail_polls id threshold zero r = r
fail_polls id threshold (suc n) r = handle_poll_failure id threshold (fail_polls id threshold n r)

-- What one more failed poll makes of a worker.
abbrev after_failure : ℕ → Worker → Worker
after_failure threshold w = elim (failure_verdict threshold (some w)).0 [
  | true ↦ take_offline (count_failure w)
  | false ↦ count_failure w
]

-- A worker `v` that has failed `n` polls in a row since it was `w`.
pub record HasFailed (threshold n : ℕ) (w v : Worker) : Type 0 where
  pub counted : v.consecutive_failures ≡ n
  pub below : n < threshold → v.state ≡ w.state
  pub above : threshold ≤ n → v.state ≡ offline

after_failure-HasFailed :
    (threshold n : ℕ) (w v : Worker)
    → w.state ≢ offline
    → HasFailed threshold n w v
    → HasFailed threshold (suc n) w (after_failure threshold v)
unfolding failure_verdict take_offline
after_failure-HasFailed threshold n w v live h = ground arith

lookup-handle_poll_failure :
    (id : String) (threshold : ℕ) (r : Registry) {w : Worker}
    → lookup id r.workers ≡ some w
    → lookup id (handle_poll_failure id threshold r).workers ≡ some (after_failure threshold w)
unfolding handle_poll_failure record_poll_failure mark_offline
lookup-handle_poll_failure id threshold r {w} h =
    let counted = lookup-modify id count_failure r h in
    ground (arith, counted, lookup-modify id take_offline (modify id count_failure r) counted)

-- From a worker that is not offline and has no failed poll, `n` failed polls leave its state alone
-- while `n` is below the threshold, and leave it offline from the threshold on; all are counted.
pub fail_polls_threshold :
    (id : String) (threshold n : ℕ) (r : Registry) (w : Worker)
    → 0 < threshold
    → lookup id r.workers ≡ some w
    → w.state ≢ offline
    → w.consecutive_failures ≡ 0
    → (v : Worker) × (lookup id (fail_polls id threshold n r).workers ≡ some v)
      × HasFailed threshold n w v
unfolding fail_polls
fail_polls_threshold id threshold zero r w t h live none_yet =
    (w, h, record { counted = none_yet; below = λ _. refl; above = λ over. absurd (omega arith) })
fail_polls_threshold id threshold (suc n) r w t h live none_yet =
    let (v, found, failed) = fail_polls_threshold id threshold n r w t h live none_yet in
    (
      after_failure threshold v,
      lookup-handle_poll_failure id threshold _ found,
      after_failure-HasFailed threshold n w v live failed,
    )
