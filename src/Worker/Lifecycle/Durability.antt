-- ===== src/Worker/Lifecycle/Durability.antt =====
-- What survives a restart of the gateway: the file follows every change of a worker that must not be
-- forgotten (its endpoints, token, payout address, ban, verified models).
use openmodel_gateway.Prelude.{
  ℕ, ◌≡◌, refl, ◌∙◌, Bool, true, false, List, [], ◌∷◌, map, String, Option, none, some, lookup,
  insert, erase, arith, string_eq, ◌==◌, inl, inr, Option-cases, Dict,
}
use openmodel_gateway.Prelude.Int.{ℤ, pos}
use openmodel_gateway.Prelude.Entries.{IsUnique, insert-IsUnique, erase-IsUnique, map-insert_same}
use openmodel_gateway.Worker.State.{Worker, WorkerState}
use openmodel_gateway.Worker.Registry.Core.{
  Registry, PersistedWorker, persist, persist_all, modify, save_to_disk,
}
use openmodel_gateway.Worker.Registry.Admin.{
  WorkerRegistration, registered, register, deregister, ban_worker, verify_worker, set_ban,
  set_verified, set_admission_gate, set_loading_timeout,
}
use openmodel_gateway.Worker.Registry.Runtime.{
  Report, apply_report, start_switch, take_offline, settle_switch, guard_loading, advertise,
  foresee, count_failure, poll_worker, set_features, set_until_change, update_state, mark_offline,
  record_poll_failure, handle_poll_failure, inc_inflight, dec_inflight, mark_switching,
}
use openmodel_gateway.Worker.Lifecycle.{
  Event, registers, deregisters, bans, verifies, gates, bounds_loading, dispatches, completes,
  switches, polls, step,
}

-- Polls correct the GPU count in memory alone.
abbrev pub forget : PersistedWorker → PersistedWorker
forget p = record p { gpu_count = pos 0 }

-- What must be the same of a worker after a restart.
abbrev pub durable : Worker → PersistedWorker
durable w = forget (persist w)

abbrev pub stored : Option (List PersistedWorker) → List PersistedWorker
stored none = []
stored (some ps) = map forget ps

pub record IsSynced (r : Registry) : Type 0 where
  pub on_disk : (r.save_path == "") ≡ false
  pub writes : r.writable ≡ true
  pub unique : IsUnique r.workers
  pub synced : stored r.disk ≡ map (λ e. durable e.1) r.workers

forget-persist_all :
    (ws : Dict String Worker) → map forget (persist_all ws) ≡ map (λ e. durable e.1) ws
forget-persist_all [] = refl
forget-persist_all ((id, w) ∷ ws) = rw (forget-persist_all ws)

save_to_disk-IsSynced :
    (r : Registry)
    → (r.save_path == "") ≡ false
    → r.writable ≡ true
    → IsUnique r.workers
    → IsSynced (save_to_disk r)
unfolding save_to_disk
save_to_disk-IsSynced r p w u = ground (arith, forget-persist_all r.workers)

-- A write in memory of what is not durable.
modify-IsSynced :
    (id : String) (f : Worker → Worker) (r : Registry)
    → ((w : Worker) → durable (f w) ≡ durable w)
    → IsSynced r
    → IsSynced (modify id f r)
unfolding modify
modify-IsSynced id f r same h = elim (Option-cases (lookup id r.workers)) [
  | inl new ↦ ground arith
  | inr (w, old) ↦ ground (
    arith,
    map-insert_same durable id w (f w) r.workers h.unique old (same w),
    insert-IsUnique id (f w) r.workers h.unique,
  )
]

settle_switch-durable :
    (timeout now : ℕ) (loaded : String) (d : WorkerState) (w : Worker)
    → durable (settle_switch timeout now loaded d w).0 ≡ durable w
unfolding settle_switch
settle_switch-durable timeout now loaded d w = ground arith

guard_loading-durable :
    (timeout now : ℕ) (d : WorkerState) (w : Worker)
    → durable (guard_loading timeout now d w).0 ≡ durable w
unfolding guard_loading
guard_loading-durable timeout now d w = ground arith

pub apply_report-durable :
    (timeout now : ℕ) (rep : Report) (w : Worker)
    → durable (apply_report timeout now rep w) ≡ durable w
unfolding apply_report
apply_report-durable timeout now rep w =
    guard_loading-durable timeout now _ _ ∙ settle_switch-durable timeout now rep.loaded_model _ _

pub start_switch-durable :
    (target : String) (now : ℕ) (w : Worker) → durable (start_switch target now w) ≡ durable w
unfolding start_switch
start_switch-durable target now w = ground arith

pub take_offline-durable : (w : Worker) → durable (take_offline w) ≡ durable w
unfolding take_offline
take_offline-durable w = ground arith

handle_poll_failure-IsSynced :
    (id : String) (threshold : ℕ) (r : Registry)
    → IsSynced r
    → IsSynced (handle_poll_failure id threshold r)
unfolding handle_poll_failure record_poll_failure mark_offline
handle_poll_failure-IsSynced id threshold r h =
    let counted = modify-IsSynced id count_failure r (λ w. refl) h in
    ground (
      arith,
      counted,
      modify-IsSynced id take_offline (modify id count_failure r) take_offline-durable counted,
    )

poll_worker-IsSynced :
    (id : String) (threshold : ℕ) (until : Option ℤ)
    (health : Option (Report × (List String × String))) (now : ℕ) (r r' : Registry)
    → IsSynced r
    → poll_worker id threshold until health now r ≡ some r'
    → IsSynced r'
unfolding poll_worker set_features set_until_change update_state
poll_worker-IsSynced id threshold none health now r r' h e =
    ground (arith, handle_poll_failure-IsSynced id threshold r h)
poll_worker-IsSynced id threshold (some until) none now r r' h e =
    ground (arith, handle_poll_failure-IsSynced id threshold r h)
poll_worker-IsSynced id threshold (some until) (some (rep, (features, key))) now r r' h e =
    let r1 = modify id (foresee until now) r in
    let r2 = modify id (advertise features key) r1 in
    let one = modify-IsSynced id (foresee until now) r (λ w. refl) h in
    let two = modify-IsSynced id (advertise features key) r1 (λ w. refl) one in
    ground (
      arith,
      modify-IsSynced id (apply_report r2.loading_timeout now rep) r2
          (apply_report-durable r2.loading_timeout now rep) two,
    )

modify-IsUnique :
    (id : String) (f : Worker → Worker) (r : Registry)
    → IsUnique r.workers
    → IsUnique (modify id f r).workers
unfolding modify
modify-IsUnique id f r h = elim (Option-cases (lookup id r.workers)) [
  | inl new ↦ ground arith
  | inr (w, old) ↦ ground (arith, insert-IsUnique id (f w) r.workers h)
]

-- A write of any kind to a worker, with the file written after it.
saved-IsSynced :
    (id : String) (f : Worker → Worker) (r : Registry)
    → IsSynced r
    → IsSynced (save_to_disk (modify id f r))
saved-IsSynced id f r h =
    save_to_disk-IsSynced (modify id f r) (unfold modify in ground arith)
      (unfold modify in ground arith) (modify-IsUnique id f r h.unique)

register-IsSynced :
    (valid_url : String → Bool) (reg : WorkerRegistration) (now : ℕ) (r : Registry)
    → IsSynced r
    → IsSynced (register valid_url reg now r).0
unfolding register
register-IsSynced valid_url reg now r h =
    let w = (registered reg now (lookup reg.id r.workers)).worker in
    ground (
      arith,
      save_to_disk-IsSynced (record r { workers = insert reg.id w r.workers }) h.on_disk h.writes
          (insert-IsUnique reg.id w r.workers h.unique),
    )

deregister-IsSynced : (id : String) (r : Registry) → IsSynced r → IsSynced (deregister id r).0
unfolding deregister
deregister-IsSynced id r h = ground (
  arith,
  save_to_disk-IsSynced (record r { workers = erase id r.workers }) h.on_disk h.writes
      (erase-IsUnique id r.workers h.unique),
)

pub step-IsSynced :
    (valid_url : String → Bool) (e : Event) (r r' : Registry)
    → IsSynced r
    → step valid_url e r ≡ some r'
    → IsSynced r'
unfolding step set_ban set_verified set_admission_gate set_loading_timeout inc_inflight dec_inflight
    mark_switching
step-IsSynced valid_url (registers reg now) r r' h e =
    ground (arith, register-IsSynced valid_url reg now r h)
step-IsSynced valid_url (deregisters id) r r' h e = ground (arith, deregister-IsSynced id r h)
step-IsSynced valid_url (bans id until reason) r r' h e =
    ground (arith, saved-IsSynced id (ban_worker until reason) r h)
step-IsSynced valid_url (verifies id models now) r r' h e =
    ground (arith, saved-IsSynced id (verify_worker models now) r h)
step-IsSynced valid_url (gates on) r r' h e = ground arith
step-IsSynced valid_url (bounds_loading d) r r' h e = ground arith
step-IsSynced valid_url (dispatches id) r r' h e = ground arith
step-IsSynced valid_url (completes id) r r' h e = ground arith
step-IsSynced valid_url (switches id target now) r r' h e =
    ground
      (arith, modify-IsSynced id (start_switch target now) r (start_switch-durable target now) h)
step-IsSynced valid_url (polls id threshold until health now) r r' h e =
    poll_worker-IsSynced id threshold until health now r r' h e
