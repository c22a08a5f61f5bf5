-- ===== src/Gateway/Tests.antt =====
-- Instances of the theorems on the gateway.
mod Requests
mod Receipts
mod Streams
mod Keys
use openmodel_gateway.Prelude.{refl, List, [], ◌∷◌, arith}
use openmodel_gateway.Prelude.Int.{ℤ, pos, ◌+ℤ◌, ◌-ℤ◌, ◌*ℤ◌, ltb_ℤ, leb_ℤ}
use openmodel_gateway.Prelude.{◌≡◌, some}
use openmodel_gateway.Gateway.Session.{SessionAffinity, get_worker, put_worker}
use openmodel_gateway.Gateway.Session.Sticky.{SessionCall, gets, puts, run_calls, get_worker_sticks}
use openmodel_gateway.Prelude.{ℕ, ◌+◌, ◌-◌, ◌++◌, Option, none, true}
use openmodel_gateway.Settlement.Records.{RequestRecord as Billed}
use openmodel_gateway.Settlement.Scanner.{Cursor, there}
use openmodel_gateway.Settlement.Scanner.Unread.{unread}
use openmodel_gateway.Gateway.RequestLog.{
  RequestRecord, LogState, Created, Logged, log_all, recs, append_record, write_line, count_line,
  rotate, shift_backups,
}
use openmodel_gateway.Gateway.RequestLog.Handover.{Coded, as_read, billed, files, is_logging}
use openmodel_gateway.Gateway.RequestLog.Rotation.{is_working}
use openmodel_gateway.Gateway.RequestLog.RoundTrip.{Reads, log_all-unread, log_all-peek}
use openmodel_gateway.Settlement.Scanner.{lines}
use openmodel_gateway.Settlement.Scanner.Lines.{is_whole, are_short}
use openmodel_gateway.Prelude.{Bool, false, contains, is_some, anyb, String}
use mathlib.Core.List.{Mem}
use openmodel_gateway.Worker.State.{Worker, idle as resting, is_banned}
use openmodel_gateway.Worker.Registry.Core.{Registry}
use openmodel_gateway.Worker.Registry.Views.{list}
use openmodel_gateway.Gateway.ModelNames.{model_matches, base, dashes_to_slash, has_suffix}
use openmodel_gateway.Worker.Models.{after_last_slash}
use openmodel_gateway.Gateway.Router.{
  is_idle, is_default, is_excluded, routable_models, select_worker_for_model, worker_verified_for,
}
use openmodel_gateway.Gateway.Router.Choice.{
  can_take, Chosen, select_worker_for_model-Chosen, select_worker_for_model-is_some,
}
use openmodel_gateway.Gateway.Router.Preference.{IsJustified, select_worker_for_model-IsJustified}
use openmodel_gateway.Gateway.Router.Listing.{routable_models-can_take}
use openmodel_gateway.Gateway.RateLimit.{Float64, Slots}
use openmodel_gateway.Gateway.RateLimit.Holding.{
  IsHeld, Call, acquires, releases_at, meters, serve_calls, serve_calls-IsHeld,
}

abbrev pub whole : Float64
whole = record {
  F = ℤ;
  of_int = λ x. x;
  to_int = λ x. x;
  add = λ x y. x +ℤ y;
  sub = λ x y. x -ℤ y;
  mul = λ x y. x *ℤ y;
  div = λ x y. x;
  at_most = λ x y. leb_ℤ x y;
  less = ltb_ℤ;
  seconds = λ x y. pos x -ℤ pos y;
}

abbrev pub idle : Slots whole
idle = record {
  limiter = record { keys = []; rate_per_sec = pos 1; burst = pos 2; max_in_flight = pos 2 };
  releases = [];
}

-- Two requests of a key, a third that is refused, and a release that is called twice.
abbrev calls : List (Call whole)
calls =
    acquires "k" 1
    ∷ meters "k" 1 1
    ∷ acquires "k" 2
    ∷ acquires "k" 3
    ∷ releases_at 0
    ∷ releases_at 0
    ∷ []

serve_calls-IsHeld_example : IsHeld whole "k" (pos 2) (serve_calls whole calls idle)
serve_calls-IsHeld_example =
    serve_calls-IsHeld whole "k" (pos 2) calls idle (refl, refl, omega arith)

abbrev pub no_sessions : SessionAffinity
no_sessions = record { sessions = []; ttl = 10 }

-- Another conversation is recorded, whose scan visits both, and looked up.
abbrev others : List SessionCall
others = puts 4 5 ("a" ∷ "b" ∷ []) "b" "w2" ∷ gets 6 "b" ∷ []

-- A record's line holds its time, and the log turns over at three bytes.
abbrev request_at : ℕ → RequestRecord
request_at t = record {
  request_id = "r";
  timestamp = t;
  api_key_name = "k";
  wallet = "w";
  worker_id = "v";
  path = "/v1";
  model = "m";
  status = 200;
  error_reason = "";
  duration_ms = 5;
  prompt_tokens = pos 1;
  completion_tokens = pos 1;
  cached_tokens = pos 0;
  total_tokens = pos 2;
  resumes = 0;
  receipt_sig = none;
}

abbrev line_at : RequestRecord → Option (List ℕ)
line_at r = some ((r.timestamp + 11) ∷ [])

abbrev read_at : List ℕ → Option Billed
read_at [] = none
read_at (x ∷ xs) = some (as_read (request_at (x - 11)))

request_at-Coded : (t : ℕ) → Coded line_at read_at (request_at t)
request_at-Coded t = record {
  line = (t + 11) ∷ [];
  encoded = refl;
  one_line = ground arith;
  some_bytes = refl;
  decoded = ground arith;
}

abbrev first_log : LogState
first_log = record {
  logger = record { is_open = true; current_size = 0; max_size = 3; max_backups = 2 };
  dir = record { main = there (record { ino = 1; device = 1; bytes = [] }); backups = [] };
}

abbrev file_no : ℕ → Created
file_no n = record { ino = n; device = 1 }

abbrev logged : List Logged
logged =
    record { rec = request_at 1; next = file_no 2 }
    ∷ record { rec = request_at 2; next = file_no 3 }
    ∷ record { rec = request_at 3; next = file_no 4 }
    ∷ []

abbrev at_start : Cursor
at_start = record { offset = 0; last_timestamp = 0; file_size = 0; inode = 1; dev = 1 }

log_all-peek_example :
    Reads line_at read_at at_start
      ((log_all line_at logged first_log).dir)
      (unread read_at 1 0 (files first_log.dir) ++ billed (recs logged))
unfolding log_all append_record write_line count_line rotate shift_backups is_working is_logging
    is_whole are_short lines
log_all-peek_example =
    log_all-peek line_at read_at at_start logged first_log (omega arith)
      (omega arith, (omega arith, (omega arith, tt)))
      (request_at-Coded 1, (request_at-Coded 2, (request_at-Coded 3, tt))) refl refl
      (refl, (refl, tt))

-- Two idle workers: one has the model "m", the other lists it.
abbrev pub worker_with : String → String → List String → Worker
worker_with id model models = record {
  id = id;
  endpoint = "e";
  scheduler_url = "s";
  auth_token = "t";
  state = resting;
  gpu_state = "";
  engine_state = "";
  active_requests = pos 0;
  loaded_model = model;
  supported_models = models;
  verified_models = "m" ∷ [];
  verified_at = 0;
  gpu_count = pos 1;
  miner_address = "";
  last_poll_time = 0;
  registered_at = 0;
  payout_address = "";
  self_registered = true;
  banned_until = 0;
  ban_reason = "";
  in_flight = 0;
  features = [];
  seconds_until_change = pos 0;
  until_change_at = 0;
  receipt_pubkey = "";
  loading_since = 0;
  switching_to = "";
  switching_since = 0;
  consecutive_failures = 0;
}

abbrev pub fleet : Registry
fleet = record {
  workers = ("a", worker_with "a" "m" []) ∷ ("b", worker_with "b" "n" ("m" ∷ [])) ∷ [];
  inflight = [];
  save_path = "";
  loading_timeout = 0;
  admission_gate = true;
  disk = none;
  writable = true;
}

select_worker_for_model-Chosen_example :
    Chosen
      (λ w. Mem w (list fleet) × (can_take true [] "m" 5 w ≡ true))
      (select_worker_for_model whole (pos 1) (pos 0) 5 [] "m" fleet)
select_worker_for_model-Chosen_example =
    select_worker_for_model-Chosen whole (pos 1) (pos 0) 5 [] "m" fleet

select_worker_for_model-is_some_example :
    is_some (select_worker_for_model whole (pos 1) (pos 0) 5 [] "m" fleet)
    ≡ anyb (λ w. can_take true [] "m" 5 w) (list fleet)
select_worker_for_model-is_some_example =
    select_worker_for_model-is_some whole (pos 1) (pos 0) 5 [] "m" fleet

select_worker_for_model-IsJustified_example :
    Chosen
      (IsJustified whole true [] "m" 5 refl (pos 1) (pos 1) (list fleet))
      (select_worker_for_model whole (pos 1) (pos 1) 5 [] "m" fleet)
select_worker_for_model-IsJustified_example =
    select_worker_for_model-IsJustified whole (pos 1) (pos 1) 5 [] "m" fleet refl

routable_models-can_take_example : can_take true [] "m" 5 (worker_with "b" "n" ("m" ∷ [])) ≡ true
unfolding is_banned routable_models worker_verified_for model_matches base dashes_to_slash
    has_suffix after_last_slash
routable_models-can_take_example =
    routable_models-can_take true [] 5 (worker_with "b" "n" ("m" ∷ [])) "m" refl refl refl refl refl
