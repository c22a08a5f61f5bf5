-- ===== src/Worker/Tests.antt =====
-- Runs of the registry and instances of its theorems.
use openmodel_gateway.Prelude.{
  ◌≡◌, refl, Bool, true, false, List, [], ◌∷◌, String, none, some, lookup, arith, string_eq, nat_eq,
}
use openmodel_gateway.Prelude.Int.{pos}
use openmodel_gateway.Worker.State.{Worker, idle, loading, derive_state}
use openmodel_gateway.Worker.Models.{same_model_basename, model_basename}
use openmodel_gateway.Worker.Registry.Core.{Registry, persist, modify, save_to_disk, new_registry}
use openmodel_gateway.Worker.Registry.Admin.{
  WorkerRegistration, new_worker, check_registration, register, set_ban, valid_worker_id,
}
use openmodel_gateway.Worker.Registry.Runtime.{
  Report, apply_report, settle_switch, guard_loading, start_switch, mark_switching, poll_worker,
  set_features, warning_panics, set_until_change, update_state,
}
use openmodel_gateway.Worker.Registry.Fleet.{
  Traffic, serve, serve-in_flight, open_requests, in_flight,
}
use openmodel_gateway.Worker.Lifecycle.{Event, registers, bans, switches, polls, step, run}
use openmodel_gateway.Worker.Lifecycle.Switching.{run-switching_not_routable}
use openmodel_gateway.Worker.Lifecycle.Restart.{restart_keeps, view}

basename_of_path : model_basename "/models/Qwen--Qwen2.5-3B" ≡ "Qwen2.5-3B"
unfolding model_basename
basename_of_path = refl

valid_id : valid_worker_id "sp-1.a_b" ≡ true
unfolding valid_worker_id
valid_id = refl

abbrev any_url : String → Bool
any_url u = true

abbrev reg : WorkerRegistration
reg = record {
  id = "sp-1";
  endpoint = "http://10.0.1.5:8000";
  scheduler_url = "http://10.0.1.5:9090";
  gpu_count = pos 2;
  miner_address = "f01000";
  supported_models = "Qwen/Qwen2.5-3B" ∷ [];
  auth_token = "secret";
  payout_address = "0xabc";
  self_registered = true;
}

abbrev worker : Worker
worker = new_worker reg 5

abbrev empty_registry : Registry
empty_registry = record {
  workers = [];
  inflight = [];
  save_path = "workers.json";
  loading_timeout = 100;
  admission_gate = true;
  disk = none;
  writable = true;
}

abbrev registry : Registry
registry = record empty_registry {
  workers = ("sp-1", record worker { state = idle; receipt_pubkey = "k1" }) ∷ [];
}

abbrev report : Report
report = record {
  gpu_state = "GPU_STATE_AVAILABLE";
  engine_state = "running";
  active_requests = pos 0;
  loaded_model = "/models/A--m1";
  engine_count = pos 1;
}

abbrev events : List Event
events =
    registers reg 5
    ∷ polls "sp-1" 3 (some (pos 60)) (some (report, ([], ""))) 10
    ∷ switches "sp-1" "B/m2" 20
    ∷ polls "sp-1" 3 (some (pos 60)) (some (report, ([], ""))) 30
    ∷ bans "sp-1" 900 "fraud"
    ∷ []

abbrev kept_worker : Worker
kept_worker = record worker {
  state = loading;
  gpu_state = "GPU_STATE_AVAILABLE";
  engine_state = "running";
  loaded_model = "/models/A--m1";
  gpu_count = pos 1;
  last_poll_time = 30;
  banned_until = 900;
  ban_reason = "fraud";
  seconds_until_change = pos 60;
  until_change_at = 30;
  loading_since = 30;
  switching_to = "B/m2";
  switching_since = 20;
}

abbrev after : Registry
after = record empty_registry {
  workers = ("sp-1", kept_worker) ∷ [];
  disk = some (persist kept_worker ∷ []);
}

run-events : run any_url events empty_registry ≡ some after
unfolding run step register check_registration save_to_disk poll_worker set_features
    set_until_change update_state modify apply_report settle_switch guard_loading derive_state
    mark_switching start_switch same_model_basename warning_panics set_ban
run-events = refl

restart_keeps_example :
    view (lookup "sp-1" (new_registry after.save_path after.disk after.writable 950).workers)
    ≡ view (lookup "sp-1" after.workers)
restart_keeps_example =
    restart_keeps any_url events empty_registry after 950 "sp-1" (omega arith)
      (refl, refl, refl, refl) run-events

-- The switch to the second model is over once the worker reports it.
abbrev switch_events : List Event
switch_events =
    registers reg 5
    ∷ switches "sp-1" "B/m2" 20
    ∷ polls "sp-1" 3 (some (pos 60))
        (some (record report { loaded_model = "/models/B--m2" }, ([], ""))) 30
    ∷ []

abbrev switched_worker : Worker
switched_worker = record kept_worker {
  state = idle;
  loaded_model = "/models/B--m2";
  banned_until = 0;
  ban_reason = "";
  loading_since = 0;
  switching_to = "";
  switching_since = 0;
}

abbrev switched : Registry
switched = record empty_registry {
  workers = ("sp-1", switched_worker) ∷ [];
  disk = some (persist worker ∷ []);
}

run-switch_events : run any_url switch_events empty_registry ≡ some switched
unfolding run step register check_registration save_to_disk poll_worker set_features
    set_until_change update_state modify apply_report settle_switch guard_loading derive_state
    mark_switching start_switch same_model_basename warning_panics
run-switch_events = refl

run-switching_not_routable_example : switched_worker.switching_to ≡ ""
run-switching_not_routable_example =
    run-switching_not_routable any_url switch_events empty_registry switched "sp-1" switched_worker
      (omega arith) refl run-switch_events refl refl

-- A worker that reports the key "k1" and later "k2" stops the gateway.
rotation_panics : set_features "sp-1" [] "k2" registry ≡ none
unfolding set_features warning_panics
rotation_panics = refl

abbrev traffic : Traffic
traffic = (true, "sp-1") ∷ (true, "sp-2") ∷ (true, "sp-1") ∷ (false, "sp-1") ∷ []

serve-in_flight_example : in_flight "sp-1" (serve traffic registry) ≡ open_requests "sp-1" 0 traffic
serve-in_flight_example = serve-in_flight "sp-1" traffic registry
