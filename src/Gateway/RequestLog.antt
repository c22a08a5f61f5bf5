-- ===== src/Gateway/RequestLog.antt =====
-- src/internal/gateway/requestlog.go: the log of requests that the settlement is paid from. Only the
-- logger creates, writes and moves the log's files; what the system answers is an argument.
pub mod Handover
pub mod Rotation
pub mod RoundTrip
use openmodel_gateway.Prelude.{
  ℕ, zero, suc, ◌+◌, ◌*◌, Bool, true, false, List, [], ◌∷◌, ◌++◌, String, Option, none, some, ◌==◌,
  string_eq, if◌then◌else◌, leb, ltb, length, take, drop, max,
}
use openmodel_gateway.Prelude.Int.{ℤ}
use openmodel_gateway.Settlement.Scanner.{
  LogFile, MainFile, missing, denied, there, LogDir, newline,
}

pub record RequestRecord : Type 0 where
  pub request_id : String
  pub timestamp : ℕ
  pub api_key_name : String
  pub wallet : String
  pub worker_id : String
  pub path : String
  pub model : String
  pub status : ℕ
  pub error_reason : String
  pub duration_ms : ℕ
  pub prompt_tokens : ℤ
  pub completion_tokens : ℤ
  pub cached_tokens : ℤ
  pub total_tokens : ℤ
  pub resumes : ℕ
  pub receipt_sig : Option String

-- `current_size` is that of the file being written, `is_open` whether that file is still open.
pub record RequestLogger : Type 0 where
  pub is_open : Bool
  pub current_size : ℕ
  pub max_size : ℕ
  pub max_backups : ℕ

pub record LogState : Type 0 where
  pub logger : RequestLogger
  pub dir : LogDir

abbrev pub max_file_size : ℕ
max_file_size = 52_428_800

abbrev pub default_max_backups : ℕ
default_max_backups = 10

-- What an open for appending gives: the file that is there, or the inode and device of a new one.
pub record Created : Type 0 where
  pub ino : ℕ
  pub device : ℕ

abbrev pub empty_file : Created → LogFile
empty_file n = record { ino = n.ino; device = n.device; bytes = [] }

unfoldable pub open_log : Option Created → MainFile → Option LogFile
open_log created (there f) = some f
open_log created denied = none
open_log none missing = none
open_log (some n) missing = some (empty_file n)

unfoldable pub new_request_logger : String → Option Created → LogDir → Option LogState
unfolding open_log
new_request_logger path created dir =
    if path == "" then none else elim (open_log created dir.main) as (λ _. Option LogState) [
      | none ↦ none
      | some f ↦ some (record {
        logger = record {
          is_open = true;
          current_size = length f.bytes;
          max_size = max_file_size;
          max_backups = default_max_backups;
        };
        dir = record { main = there f; backups = dir.backups };
      })
    ]

-- The gateway's settings, where they are positive; the first is in megabytes.
unfoldable pub set_retention : ℕ → ℕ → RequestLogger → RequestLogger
set_retention mb backups rl = record rl {
  max_size = if ltb 0 mb then mb * 1_048_576 else rl.max_size;
  max_backups = if ltb 0 backups then backups else rl.max_backups;
}

-- `.1` … `.b` once the file that was the log has become `.1` and the old `.b` is gone.
unfoldable pub shift_backups : ℕ → LogFile → List LogFile → List LogFile
shift_backups b m backups = take b (m ∷ backups) ++ drop b backups

abbrev pub backups_kept : RequestLogger → ℕ
backups_kept rl = max 1 rl.max_backups

-- A log that cannot be opened again stays closed, with nothing at its path.
unfoldable pub rotate : Option Created → LogFile → LogState → LogState
unfolding shift_backups
rotate created m s =
    let backups = shift_backups (backups_kept s.logger) m s.dir.backups in
    elim created as (λ _. LogState) [
      | none ↦ record {
        logger = record (s.logger) { is_open = false };
        dir = record { main = missing; backups = backups };
      }
      | some n ↦ record {
        logger = record (s.logger) { current_size = 0 };
        dir = record { main = there (empty_file n); backups = backups };
      }
    ]

abbrev pub written : LogFile → List ℕ → LogFile
written m line = record m { bytes = m.bytes ++ line }

-- The whole line is on the file: count it, and rotate a file that is full.
unfoldable pub count_line : Option Created → LogFile → ℕ → LogState → LogState
unfolding rotate
count_line created m n s =
    let grown = record s {
      logger = record (s.logger) { current_size = s.logger.current_size + n };
      dir = record (s.dir) { main = there m };
    } in
    if leb s.logger.max_size (s.logger.current_size + n) then rotate created m grown else grown

-- `failed` is how much of the line a write that fails has put on the file.
unfoldable pub write_line : Option ℕ → Option Created → LogFile → List ℕ → LogState → LogState
unfolding count_line
write_line (some k) created m line s = record s {
  dir = record (s.dir) { main = there (written m (take k line)) };
}
write_line none created m line s = count_line created (written m line) (length line) s

-- A record, and the file that the system would make next.
pub record Logged : Type 0 where
  pub rec : RequestRecord
  pub next : Created

abbrev pub recs : List Logged → List RequestRecord
recs [] = []
recs (e ∷ es) = e.rec ∷ recs es

module _ (encode : RequestRecord → Option (List ℕ)) where
  unfoldable pub append_record : Option ℕ → Option Created → RequestRecord → LogState → LogState
  unfolding write_line
  append_record failed created rec s = elim (encode rec) as (λ _. LogState) [
    | none ↦ s
    | some line ↦
        if s.logger.is_open
        then (elim (s.dir.main) as (λ _. LogState) [
          | there m ↦ write_line failed created m (line ++ newline ∷ []) s
          | missing ↦ s
          | denied ↦ s
        ])
        else s
  ]

  -- A `nil` logger logs nothing.
  unfoldable pub log : Option ℕ → Option Created → RequestRecord → Option LogState → Option LogState
  unfolding append_record
  log failed created rec none = none
  log failed created rec (some s) = some (append_record failed created rec s)

  -- Records logged one after the other, where the system lets every write and open succeed.
  unfoldable pub log_all : List Logged → LogState → LogState
  log_all [] s = s
  log_all (e ∷ es) s = log_all es (append_record none (some e.next) e.rec s)

unfoldable pub close : LogState → LogState
close s = record s { logger = record (s.logger) { is_open = false } }
