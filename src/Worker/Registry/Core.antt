-- ===== src/Worker/Registry/Core.antt =====
-- src/internal/worker/registry.go: the registry's state and its file on disk. The file is modelled
-- by the records that it decodes to, and `writable` says whether a write and rename succeed.
use openmodel_gateway.Prelude.{
  ℕ, Bool, List, [], ◌∷◌, map, String, Dict, lookup, insert, Option, none, some, ◌==◌, nat_eq,
  string_eq, if◌then◌else◌,
}
use openmodel_gateway.Prelude.Int.{ℤ, pos}
use openmodel_gateway.Worker.State.{Worker, offline, is_zero}

-- What is kept of a worker on disk.
pub record PersistedWorker : Type 0 where
  pub id : String
  pub endpoint : String
  pub scheduler_url : String
  pub gpu_count : ℤ
  pub miner_address : String
  pub supported_models : List String
  pub auth_token : String
  pub payout_address : String
  pub self_registered : Bool
  pub banned_until : ℕ
  pub ban_reason : String
  pub registered_at : ℕ
  pub verified_models : List String
  pub verified_at : ℕ

pub record Registry : Type 0 where
  pub workers : Dict String Worker
  pub inflight : Dict String ℕ
  pub save_path : String
  pub loading_timeout : ℕ
  pub admission_gate : Bool
  pub disk : Option (List PersistedWorker)
  pub writable : Bool

-- 5 minutes, in nanoseconds.
abbrev pub default_loading_timeout : ℕ
default_loading_timeout = 300_000_000_000

abbrev pub persist : Worker → PersistedWorker
persist w = record {
  id = w.id;
  endpoint = w.endpoint;
  scheduler_url = w.scheduler_url;
  gpu_count = w.gpu_count;
  miner_address = w.miner_address;
  supported_models = w.supported_models;
  auth_token = w.auth_token;
  payout_address = w.payout_address;
  self_registered = w.self_registered;
  banned_until = w.banned_until;
  ban_reason = w.ban_reason;
  registered_at = w.registered_at;
  verified_models = w.verified_models;
  verified_at = w.verified_at;
}

abbrev pub persist_all : Dict String Worker → List PersistedWorker
persist_all ws = map (λ e. persist e.1) ws

-- `w, ok := r.workers[id]`, and a write through the pointer `w` if it is there.
unfoldable pub modify : String → (Worker → Worker) → Registry → Registry
modify id f r = elim (lookup id r.workers) [
  | none ↦ r
  | some w ↦ record r { workers = insert id (f w) r.workers }
]

-- A failed write leaves the old file, since the new one is renamed into place.
unfoldable pub save_to_disk : Registry → Registry
save_to_disk r =
    if r.save_path == ""
    then r
    else if r.writable
    then record r { disk = some (persist_all r.workers) }
    else r

-- The worker that a line of the file stands for: offline until its first poll.
unfoldable pub revive : ℕ → PersistedWorker → Worker
revive now p = record {
  id = p.id;
  endpoint = p.endpoint;
  scheduler_url = p.scheduler_url;
  auth_token = p.auth_token;
  state = offline;
  gpu_state = "";
  engine_state = "";
  active_requests = pos 0;
  loaded_model = "";
  supported_models = p.supported_models;
  verified_models = p.verified_models;
  verified_at = p.verified_at;
  gpu_count = p.gpu_count;
  miner_address = p.miner_address;
  last_poll_time = 0;
  registered_at = if is_zero p.registered_at then now else p.registered_at;
  payout_address = p.payout_address;
  self_registered = p.self_registered;
  banned_until = p.banned_until;
  ban_reason = p.ban_reason;
  in_flight = 0;
  features = [];
  seconds_until_change = pos 0;
  until_change_at = 0;
  receipt_pubkey = "";
  loading_since = 0;
  switching_to = "";
  switching_since = 0;
  consecutive_failures = 0;
}

unfoldable pub load_list : ℕ → List PersistedWorker → Dict String Worker → Dict String Worker
load_list now [] ws = ws
load_list now (p ∷ ps) ws = load_list now ps (insert p.id (revive now p) ws)

-- `none` stands for a file that is not there or cannot be read or parsed.
unfoldable pub load_from_disk : ℕ → Registry → Registry
load_from_disk now r = elim r.disk [
  | none ↦ r
  | some ps ↦ record r { workers = load_list now ps r.workers }
]

unfoldable pub new_registry : String → Option (List PersistedWorker) → Bool → ℕ → Registry
unfolding load_from_disk
new_registry path disk writable now =
    let r : Registry = record {
      workers = [];
      inflight = [];
      save_path = path;
      loading_timeout = default_loading_timeout;
      admission_gate = Bool.false;
      disk = disk;
      writable = writable;
    } in
    if path == "" then r else load_from_disk now r
