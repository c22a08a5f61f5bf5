-- ===== src/Worker/Lifecycle/Workers.antt =====
-- What holds of each worker of the registry, through every event: it is enough that the writes to a
-- single worker keep it.
use openmodel_gateway.Prelude.{
  ℕ, ◌<◌, ◌≡◌, Bool, List, String, Option, none, some, lookup, insert, erase, arith, inl, inr,
  Option-cases, string_eq, All,
}
use openmodel_gateway.Prelude.Int.{ℤ}
use openmodel_gateway.Prelude.Entries.{Entries, Entries-lookup, Entries-insert, Entries-erase}
use openmodel_gateway.Worker.State.{Worker}
use openmodel_gateway.Worker.Registry.Core.{Registry, modify, save_to_disk}
use openmodel_gateway.Worker.Registry.Admin.{
  WorkerRegistration, update_worker, new_worker, registered, register, deregister, ban_worker,
  verify_worker, set_ban, set_verified, set_admission_gate, set_loading_timeout,
}
use openmodel_gateway.Worker.Registry.Runtime.{
  Report, apply_report, start_switch, take_offline, inc_inflight, dec_inflight, mark_switching,
  poll_worker, set_features, set_until_change, update_state, mark_offline, record_poll_failure,
  handle_poll_failure, advertise, foresee, count_failure,
}
use openmodel_gateway.Worker.Lifecycle.{
  Event, registers, deregisters, bans, verifies, gates, bounds_loading, dispatches, completes,
  switches, polls, step, run, run-keeps,
}

-- The clock never shows the zero time.
abbrev pub IsTimed : Event → Type 0
IsTimed (registers reg now) = 0 < now
IsTimed _ = Unit

pub record IsKept (P : String → Worker → Type 0) : Type 0 where
  pub fresh : (reg : WorkerRegistration) (now : ℕ) → 0 < now → P reg.id (new_worker reg now)
  pub updated :
      (reg : WorkerRegistration) (w : Worker) → P reg.id w → P reg.id (update_worker reg w)
  pub banned :
      (id : String) (w : Worker) (until : ℕ) (reason : String)
      → P id w
      → P id (ban_worker until reason w)
  pub verified :
      (id : String) (w : Worker) (models : List String) (now : ℕ)
      → P id w
      → P id (verify_worker models now w)
  pub advertised :
      (id : String) (w : Worker) (features : List String) (key : String)
      → P id w
      → P id (advertise features key w)
  pub foreseen :
      (id : String) (w : Worker) (seconds : ℤ) (now : ℕ) → P id w → P id (foresee seconds now w)
  pub failed : (id : String) (w : Worker) → P id w → P id (count_failure w)
  pub reported :
      (id : String) (w : Worker) (timeout now : ℕ) (rep : Report)
      → P id w
      → P id (apply_report timeout now rep w)
  pub switched :
      (id : String) (w : Worker) (target : String) (now : ℕ)
      → P id w
      → P id (start_switch target now w)
  pub stopped : (id : String) (w : Worker) → P id w → P id (take_offline w)

module _ (P : String → Worker → Type 0) (k : IsKept P) where
  abbrev AllKept : Registry → Type 0
  AllKept r = Entries P r.workers

  save_to_disk-AllKept : (r : Registry) → AllKept r → AllKept (save_to_disk r)
  unfolding save_to_disk
  save_to_disk-AllKept r h = ground arith

  modify-AllKept :
      (id : String) (f : Worker → Worker) (r : Registry)
      → ((w : Worker) → P id w → P id (f w))
      → AllKept r
      → AllKept (modify id f r)
  unfolding modify
  modify-AllKept id f r keep h = elim (Option-cases (lookup id r.workers)) [
    | inl new ↦ ground arith
    | inr (w, old) ↦
        let kept = keep w (Entries-lookup P id r.workers h old) in
        ground (arith, Entries-insert P id (f w) r.workers h kept)
  ]

  registered-kept :
      (reg : WorkerRegistration) (now : ℕ) (r : Registry)
      → 0 < now
      → AllKept r
      → P reg.id (registered reg now (lookup reg.id r.workers)).worker
  registered-kept reg now r t h = elim (Option-cases (lookup reg.id r.workers)) [
    | inl new ↦ rw new (k.fresh reg now t)
    | inr (w, old) ↦ rw old (k.updated reg w (Entries-lookup P reg.id r.workers h old))
  ]

  register-AllKept :
      (valid_url : String → Bool) (reg : WorkerRegistration) (now : ℕ) (r : Registry)
      → 0 < now
      → AllKept r
      → AllKept (register valid_url reg now r).0
  unfolding register
  register-AllKept valid_url reg now r t h =
      let kept = Entries-insert P reg.id _ r.workers h (registered-kept reg now r t h) in
      ground (
        arith,
        save_to_disk-AllKept
            (record r {
              workers =
                  insert reg.id (registered reg now (lookup reg.id r.workers)).worker r.workers;
            })
            kept,
      )

  deregister-AllKept : (id : String) (r : Registry) → AllKept r → AllKept (deregister id r).0
  unfolding deregister
  deregister-AllKept id r h = ground (
    arith,
    save_to_disk-AllKept (record r { workers = erase id r.workers })
        (Entries-erase P id r.workers h),
  )

  -- A write that goes to disk, where the worker is known.
  saved-AllKept :
      (id : String) (f : Worker → Worker) (r : Registry)
      → ((w : Worker) → P id w → P id (f w))
      → AllKept r
      → AllKept (save_to_disk (modify id f r))
  saved-AllKept id f r keep h = save_to_disk-AllKept _ (modify-AllKept id f r keep h)

  handle_poll_failure-AllKept :
      (id : String) (threshold : ℕ) (r : Registry)
      → AllKept r
      → AllKept (handle_poll_failure id threshold r)
  unfolding handle_poll_failure record_poll_failure mark_offline
  handle_poll_failure-AllKept id threshold r h =
      let counted = modify-AllKept id count_failure r (k.failed id) h in
      ground (
        arith,
        counted,
        modify-AllKept id take_offline (modify id count_failure r) (k.stopped id) counted,
      )

  poll_worker-AllKept :
      (id : String) (threshold : ℕ) (until : Option ℤ)
      (health : Option (Report × (List String × String))) (now : ℕ) (r r' : Registry)
      → AllKept r
      → poll_worker id threshold until health now r ≡ some r'
      → AllKept r'
  unfolding poll_worker set_features set_until_change update_state
  poll_worker-AllKept id threshold none health now r r' h e =
      ground (arith, handle_poll_failure-AllKept id threshold r h)
  poll_worker-AllKept id threshold (some until) none now r r' h e =
      ground (arith, handle_poll_failure-AllKept id threshold r h)
  poll_worker-AllKept id threshold (some until) (some (rep, (features, key))) now r r' h e =
      let r1 = modify id (foresee until now) r in
      let r2 = modify id (advertise features key) r1 in
      let one = modify-AllKept id (foresee until now) r (λ w. k.foreseen id w until now) h in
      let two =
        modify-AllKept id (advertise features key) r1 (λ w. k.advertised id w features key) one in
      ground (
        arith,
        modify-AllKept id (apply_report r2.loading_timeout now rep) r2
            (λ w. k.reported id w r2.loading_timeout now rep) two,
      )

  -- One event keeps it of every worker.
  pub step-AllKept :
      (valid_url : String → Bool) (e : Event) (r r' : Registry)
      → IsTimed e
      → AllKept r
      → step valid_url e r ≡ some r'
      → AllKept r'
  unfolding step set_ban set_verified set_admission_gate set_loading_timeout inc_inflight
      dec_inflight mark_switching
  step-AllKept valid_url (registers reg now) r r' t h e =
      ground (arith, register-AllKept valid_url reg now r t h)
  step-AllKept valid_url (deregisters id) r r' t h e = ground (arith, deregister-AllKept id r h)
  step-AllKept valid_url (bans id until reason) r r' t h e =
      ground
        (arith, saved-AllKept id (ban_worker until reason) r (λ w. k.banned id w until reason) h)
  step-AllKept valid_url (verifies id models now) r r' t h e =
      ground
        (arith, saved-AllKept id (verify_worker models now) r (λ w. k.verified id w models now) h)
  step-AllKept valid_url (gates on) r r' t h e = ground arith
  step-AllKept valid_url (bounds_loading d) r r' t h e = ground arith
  step-AllKept valid_url (dispatches id) r r' t h e = ground arith
  step-AllKept valid_url (completes id) r r' t h e = ground arith
  step-AllKept valid_url (switches id target now) r r' t h e =
      ground
        (arith, modify-AllKept id (start_switch target now) r (λ w. k.switched id w target now) h)
  step-AllKept valid_url (polls id threshold until health now) r r' t h e =
      poll_worker-AllKept id threshold until health now r r' h e

  -- Any run keeps it.
  pub run-AllKept :
      (valid_url : String → Bool) (es : List Event) (r r' : Registry)
      → All IsTimed es
      → AllKept r
      → run valid_url es r ≡ some r'
      → AllKept r'
  run-AllKept valid_url es r r' t h e =
      run-keeps valid_url (λ r. AllKept r) IsTimed (λ e r r'. step-AllKept valid_url e r r') es r r'
        t h e
