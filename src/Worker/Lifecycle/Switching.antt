-- ===== src/Worker/Lifecycle/Switching.antt =====
-- While a model switch runs on a worker, the router is kept off it.
use openmodel_gateway.Prelude.{
  ℕ, ◌≡◌, refl, Bool, true, List, [], String, some, All, lookup, arith, string_eq,
}
use openmodel_gateway.Prelude.Entries.{Entries-lookup}
use openmodel_gateway.Worker.State.{Worker, WorkerState, is_routable}
use openmodel_gateway.Worker.Registry.Core.{Registry}
use openmodel_gateway.Worker.Registry.Admin.{update_worker}
use openmodel_gateway.Worker.Registry.Runtime.{
  Report, apply_report, start_switch, take_offline, settle_switch, guard_loading,
}
use openmodel_gateway.Worker.Lifecycle.{Event, run}
use openmodel_gateway.Worker.Lifecycle.Workers.{IsTimed, IsKept, run-AllKept}

-- A worker with a switch under way is not routable.
abbrev pub IsHeld : Worker → Type 0
IsHeld w = is_routable w.state ≡ true → w.switching_to ≡ ""

pub settle_switch-held :
    (timeout now : ℕ) (loaded : String) (d : WorkerState) (w : Worker)
    → is_routable (settle_switch timeout now loaded d w).1 ≡ true
    → (settle_switch timeout now loaded d w).0.switching_to ≡ ""
unfolding settle_switch
settle_switch-held timeout now loaded d w h = ground (arith, string_eq.same_iff w.switching_to "")

pub guard_loading-held :
    (timeout now : ℕ) (d : WorkerState) (w : Worker)
    → (is_routable d ≡ true → w.switching_to ≡ "")
    → is_routable (guard_loading timeout now d w).1 ≡ true
    → (guard_loading timeout now d w).0.switching_to ≡ ""
unfolding guard_loading
guard_loading-held timeout now d w h p = ground arith

pub apply_report-IsHeld :
    (timeout now : ℕ) (rep : Report) (w : Worker) → IsHeld (apply_report timeout now rep w)
unfolding apply_report
apply_report-IsHeld timeout now rep w h =
    guard_loading-held timeout now _ _ (settle_switch-held timeout now rep.loaded_model _ _) h

start_switch-IsHeld :
    (target : String) (now : ℕ) (w : Worker) → IsHeld w → IsHeld (start_switch target now w)
unfolding start_switch
start_switch-IsHeld target now w h = ground arith

take_offline-IsHeld : (w : Worker) → IsHeld w → IsHeld (take_offline w)
unfolding take_offline
take_offline-IsHeld w h = ground arith

Held-IsKept : IsKept (λ _ w. IsHeld w)
unfolding update_worker
Held-IsKept = record {
  fresh = λ reg now t p. refl;
  updated = λ reg w h. h;
  banned = λ id w until reason h. h;
  verified = λ id w models now h. h;
  advertised = λ id w features key h. h;
  foreseen = λ id w seconds now h. h;
  failed = λ id w h. h;
  reported = λ id w timeout now rep h. apply_report-IsHeld timeout now rep w;
  switched = λ id w target now h. start_switch-IsHeld target now w h;
  stopped = λ id w h. take_offline-IsHeld w h;
}

-- In every registry that a run of events reaches from one with no worker, a worker that the router
-- may pick (idle or busy) has no model switch under way.
pub run-switching_not_routable :
    (valid_url : String → Bool) (es : List Event) (r r' : Registry) (id : String) (w : Worker)
    → All IsTimed es
    → r.workers ≡ []
    → run valid_url es r ≡ some r'
    → lookup id r'.workers ≡ some w
    → is_routable w.state ≡ true
    → w.switching_to ≡ ""
run-switching_not_routable valid_url es r r' id w t fresh e found =
    Entries-lookup (λ _ v. IsHeld v) id r'.workers
      (run-AllKept (λ _ v. IsHeld v) Held-IsKept valid_url es r r' t (rw fresh tt) e) found
