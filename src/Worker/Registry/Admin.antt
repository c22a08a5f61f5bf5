-- ===== src/Worker/Registry/Admin.antt =====
-- src/internal/worker/registry.go: the operations of the operator and of self-registration, which
-- are written to disk.
use Prim.Native.Char.{code}
use openmodel_gateway.Prelude.{
  ℕ, Bool, true, false, ◌&&◌, ◌||◌, not, List, [], ◌∷◌, String, lookup, insert, erase, Option, none,
  some, ◌==◌, ◌/=◌, nat_eq, string_eq, if◌then◌else◌, leb, is_some,
}
use openmodel_gateway.Prelude.Int.{ℤ, pos}
use openmodel_gateway.Worker.State.{Worker, offline}
use openmodel_gateway.Worker.Registry.Core.{Registry, modify, save_to_disk}

pub record WorkerRegistration : Type 0 where
  pub id : String
  pub endpoint : String
  pub scheduler_url : String
  pub gpu_count : ℤ
  pub miner_address : String
  pub supported_models : List String
  pub auth_token : String
  pub payout_address : String
  pub self_registered : Bool

pub data RegisterError : Type 0 where
  id_required id_invalid endpoint_required endpoint_invalid : RegisterError
  scheduler_url_required scheduler_url_invalid : RegisterError

pub record RegisterResult : Type 0 where
  pub worker : Worker
  pub created : Bool
  pub endpoint_changed : Bool
  pub old_endpoint : String

is_alnum : ℕ → Bool
is_alnum c = (leb b'a' c && leb c b'z') || (leb b'A' c && leb c b'Z') || (leb b'0' c && leb c b'9')

is_id_char : ℕ → Bool
unfolding is_alnum
is_id_char c = is_alnum c || c == b'.' || c == b'_' || c == b'-'

-- `[a-zA-Z0-9._-]{0,n}` to the end of the text, for the `n` given.
at_most_id_chars : ℕ → String → Bool
unfolding is_id_char
at_most_id_chars n String.[] = true
at_most_id_chars ℕ.zero (String.◌∷◌ c s) = false
at_most_id_chars (ℕ.suc n) (String.◌∷◌ c s) = is_id_char (code c) && at_most_id_chars n s

-- `^[a-zA-Z0-9][a-zA-Z0-9._-]{0,63}$`
unfoldable pub valid_worker_id : String → Bool
unfolding is_alnum at_most_id_chars
valid_worker_id String.[] = false
valid_worker_id (String.◌∷◌ c s) = is_alnum (code c) && at_most_id_chars 63 s

unfoldable pub update_worker : WorkerRegistration → Worker → Worker
update_worker reg w = record w {
  endpoint = reg.endpoint;
  scheduler_url = reg.scheduler_url;
  gpu_count = reg.gpu_count;
  miner_address = reg.miner_address;
  auth_token = reg.auth_token;
  supported_models = elim reg.supported_models [ [] ↦ w.supported_models | m ∷ ms ↦ m ∷ ms ];
  payout_address = if reg.payout_address == "" then w.payout_address else reg.payout_address;
  self_registered = reg.self_registered || w.self_registered;
}

abbrev pub new_worker : WorkerRegistration → ℕ → Worker
new_worker reg now = record {
  id = reg.id;
  endpoint = reg.endpoint;
  scheduler_url = reg.scheduler_url;
  auth_token = reg.auth_token;
  state = offline;
  gpu_state = "";
  engine_state = "";
  active_requests = pos 0;
  loaded_model = "";
  supported_models = reg.supported_models;
  verified_models = [];
  verified_at = 0;
  gpu_count = reg.gpu_count;
  miner_address = reg.miner_address;
  last_poll_time = 0;
  registered_at = now;
  payout_address = reg.payout_address;
  self_registered = reg.self_registered;
  banned_until = 0;
  ban_reason = "";
  in_flight = 0;
  features = [];
  seconds_until_change = pos 0;
  until_change_at = 0;
  receipt_pubkey = "";
  loading_since = 0;
  switching_to = "";
  switching_since = 0;
  consecutive_failures = 0;
}

-- `valid_url u` stands for `url.Parse` succeeding with a scheme and a host.
module _ (valid_url : String → Bool) where
  unfoldable pub check_registration : WorkerRegistration → Option RegisterError
  unfolding valid_worker_id
  check_registration reg =
      if reg.id == ""
      then some id_required
      else if not (valid_worker_id reg.id)
      then some id_invalid
      else if reg.endpoint == ""
      then some endpoint_required
      else if not (valid_url reg.endpoint)
      then some endpoint_invalid
      else if reg.scheduler_url == ""
      then some scheduler_url_required
      else if not (valid_url reg.scheduler_url)
      then some scheduler_url_invalid
      else none

abbrev pub registered : WorkerRegistration → ℕ → Option Worker → RegisterResult
registered reg now (some w) = record {
  worker = update_worker reg w;
  created = false;
  endpoint_changed = w.endpoint /= reg.endpoint;
  old_endpoint = w.endpoint;
}
registered reg now none = record {
  worker = new_worker reg now;
  created = true;
  endpoint_changed = false;
  old_endpoint = "";
}

unfoldable pub register :
    (String → Bool)
    → WorkerRegistration
    → ℕ
    → Registry
    → Registry × (Option RegisterError × Option RegisterResult)
register valid_url reg now r = elim (check_registration valid_url reg) [
  | some e ↦ (r, (some e, none))
  | none ↦
      let res = registered reg now (lookup reg.id r.workers) in
      (save_to_disk (record r { workers = insert reg.id res.worker r.workers }), (none, some res))
]

unfoldable pub deregister : String → Registry → Registry × Option Worker
deregister id r = elim (lookup id r.workers) [
  | none ↦ (r, none)
  | some w ↦ (save_to_disk (record r { workers = erase id r.workers }), some w)
]

abbrev pub ban_worker : ℕ → String → Worker → Worker
ban_worker until reason w = record w { banned_until = until; ban_reason = reason }

abbrev pub verify_worker : List String → ℕ → Worker → Worker
verify_worker models now w = record w { verified_models = models; verified_at = now }

-- `until` 0 clears the ban.
unfoldable pub set_ban : String → ℕ → String → Registry → Registry × Bool
set_ban id until reason r =
    if is_some (lookup id r.workers)
    then (save_to_disk (modify id (ban_worker until reason) r), true)
    else (r, false)

unfoldable pub set_verified : String → List String → ℕ → Registry → Registry × Bool
set_verified id models now r =
    if is_some (lookup id r.workers)
    then (save_to_disk (modify id (verify_worker models now) r), true)
    else (r, false)

unfoldable pub set_admission_gate : Bool → Registry → Registry
set_admission_gate on r = record r { admission_gate = on }

unfoldable pub set_loading_timeout : ℕ → Registry → Registry
set_loading_timeout d r = record r { loading_timeout = d }
