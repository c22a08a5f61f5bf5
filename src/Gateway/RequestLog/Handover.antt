-- ===== src/Gateway/RequestLog/Handover.antt =====
-- src/internal/gateway/requestlog.go with src/internal/settlement/scanner.go: what the gateway logs
-- is what the settlement reads.
use mathlib.Core.List.{append-nil, append_assoc}
use openmodel_gateway.Prelude.{
  ℕ, zero, suc, ◌+◌, ◌≡◌, ◌≢◌, refl, ap, subst, sym, if-holds, ◌∙◌, Bool, true, false, ◌&&◌, ◌||◌,
  List, [], ◌∷◌, ◌++◌, Option, none, some, ◌/=◌, nat_eq, if◌then◌else◌, leb, ltb, length, take,
  drop, contains, arith, ◌≤◌,
}
use openmodel_gateway.Settlement.Records.{RequestRecord as Billed, is_billable}
use openmodel_gateway.Settlement.Scanner.{
  LogFile, MainFile, missing, denied, there, LogDir, newline, lines, read_line, read_lines,
}
use openmodel_gateway.Settlement.Scanner.Lines.{
  is_whole, is_whole-drop, is_whole_end, lines_append, lines_line,
}
use openmodel_gateway.Settlement.Scanner.Unread.{unread, tail_of, is_in}
use openmodel_gateway.Gateway.RequestLog.{
  RequestRecord, RequestLogger, LogState, Created, empty_file, shift_backups, backups_kept, rotate,
  written, count_line, write_line, append_record,
}

abbrev pub files : LogDir → List LogFile
files dir = elim (dir.main) as (λ _. List LogFile) [
  | there m ↦ m ∷ dir.backups
  | missing ↦ dir.backups
  | denied ↦ dir.backups
]

drop_append : (n : ℕ) (xs ys : List ℕ) → n ≤ length xs → drop n (xs ++ ys) ≡ drop n xs ++ ys
drop_append zero xs ys h = refl
drop_append (suc n) [] ys h = ground (arith, h)
drop_append (suc n) (x ∷ xs) ys h = drop_append n xs ys (omega (arith, h))

module _ (decode : List ℕ → Option Billed) where
  read_lines_append :
      (xs ys : List (List ℕ))
      → read_lines decode (xs ++ ys) ≡ read_lines decode xs ++ read_lines decode ys
  unfolding read_lines
  read_lines_append [] ys = refl
  read_lines_append (x ∷ xs) ys = ground (
    arith,
    read_lines_append xs ys,
    append_assoc (read_line decode x) (read_lines decode xs) (read_lines decode ys),
  )

  -- One more line is one more record for whoever reads on.
  tail_of-written :
      (n : ℕ) (f : LogFile) (line : List ℕ)
      → n ≤ length f.bytes
      → is_whole f.bytes ≡ true
      → contains newline line ≡ false
      → tail_of decode n (written f (line ++ newline ∷ []))
        ≡ tail_of decode n f ++ read_line decode line
  unfolding read_lines
  tail_of-written n f line h w plain =
      let end = line ++ newline ∷ [] in
      let one : read_lines decode (lines end) ≡ read_line decode line =
        ground (arith, lines_line line plain, append-nil (read_line decode line)) in
      ap (λ xs. read_lines decode (lines xs)) (drop_append n f.bytes end h)
      ∙ ap (read_lines decode) (lines_append (drop n f.bytes) end (is_whole-drop n f.bytes w))
      ∙ read_lines_append (lines (drop n f.bytes)) (lines end)
      ∙ ap (λ r. tail_of decode n f ++ r) one

  pub unread-take :
      (ino off n : ℕ) (fs gs : List LogFile)
      → is_in ino (take n fs) ≡ true
      → unread decode ino off (take n fs ++ gs) ≡ unread decode ino off fs
  unfolding unread
  unread-take ino off zero fs gs h = ground arith
  unread-take ino off (suc n) [] gs h = ground arith
  unread-take ino off (suc n) (f ∷ fs) gs h = ground (arith, unread-take ino off n fs gs)

-- What the settlement's decoder makes of a record's JSON: the fields that both name.
unfoldable pub as_read : RequestRecord → Billed
as_read r = record {
  request_id = r.request_id;
  timestamp = r.timestamp;
  wallet = r.wallet;
  worker_id = r.worker_id;
  model = r.model;
  status = r.status;
  error_reason = r.error_reason;
  prompt_tokens = r.prompt_tokens;
  completion_tokens = r.completion_tokens;
  cached_tokens = r.cached_tokens;
  total_tokens = r.total_tokens;
  receipt_sig = r.receipt_sig;
}

-- A record's JSON: one line, not empty, that the decoder reads.
pub record Coded (encode : RequestRecord → Option (List ℕ)) (decode : List ℕ → Option Billed)
    (r : RequestRecord) : Type 0 where
  pub line : List ℕ
  pub encoded : encode r ≡ some line
  pub one_line : contains newline line ≡ false
  pub some_bytes : ltb 0 (length line) ≡ true
  pub decoded : decode line ≡ some (as_read r)

abbrev pub is_whole_file : MainFile → Bool
is_whole_file (there m) = is_whole m.bytes
is_whole_file missing = false
is_whole_file denied = false

-- A logger at work: its file is open, at the log's path, and ends with a whole line.
unfoldable pub is_logging : LogState → Bool
is_logging s = s.logger.is_open && is_whole_file (s.dir.main)

abbrev pub at_most : ℕ → ℕ → MainFile → Bool
at_most ino off (there m) = m.ino /= ino || leb off (length m.bytes)
at_most ino off missing = true
at_most ino off denied = true

abbrev pub billed : List RequestRecord → List Billed
billed [] = []
billed (r ∷ rs) = let rest = billed rs in if is_billable (as_read r) then as_read r ∷ rest else rest

pub is_whole_written :
    (f : LogFile) (line : List ℕ) → is_whole (f.bytes ++ (line ++ newline ∷ [])) ≡ true
is_whole_written f line =
    ground (arith, is_whole_end (f.bytes ++ line), append_assoc f.bytes line (newline ∷ []))

-- A logger at work on its file.
abbrev pub at_work : RequestLogger → LogFile → List LogFile → LogState
at_work rl m backups = record { logger = rl; dir = record { main = there m; backups = backups } }

abbrev pub sized : RequestLogger → ℕ → RequestLogger
sized rl n = record rl { current_size = n }

pub unread_empty :
    (decode : List ℕ → Option Billed) (ino off : ℕ) (n : Created) (fs : List LogFile)
    → n.ino ≢ ino
    → unread decode ino off (empty_file n ∷ fs) ≡ unread decode ino off fs
unfolding unread read_lines lines
unread_empty decode ino off n fs h =
    ground (arith, append-nil (unread decode ino off fs), nat_eq.same_iff n.ino ino)

module _ {encode : RequestRecord → Option (List ℕ)} {decode : List ℕ → Option Billed}
    {r : RequestRecord} (coded : Coded encode decode r) where
  read_line_of : read_line decode coded.line ≡ billed (r ∷ [])
  unfolding read_line
  read_line_of = ground (arith, coded.some_bytes, coded.decoded, coded.line)

  abbrev pub with_line : LogFile → LogFile
  with_line m = written m (coded.line ++ newline ∷ [])

  tail_of_line :
      (f : LogFile) (k : ℕ)
      → k ≤ length f.bytes
      → is_whole f.bytes ≡ true
      → tail_of decode k (with_line f) ≡ tail_of decode k f ++ billed (r ∷ [])
  tail_of_line f k h w =
      tail_of-written decode k f coded.line h w coded.one_line
      ∙ ap (λ xs. tail_of decode k f ++ xs) read_line_of

  -- The file that is written is the newest.
  pub unread_written :
      (ino off : ℕ) (m : LogFile) (fs : List LogFile)
      → at_most ino off (there m) ≡ true
      → is_whole m.bytes ≡ true
      → unread decode ino off (with_line m ∷ fs) ≡ unread decode ino off (m ∷ fs) ++ billed (r ∷ [])
  unfolding unread
  unread_written ino off m fs h w = ground (
    arith,
    tail_of_line m off,
    tail_of_line m 0,
    append_assoc (unread decode ino off fs) (tail_of decode 0 m) (billed (r ∷ [])),
    nat_eq.same_iff m.ino ino,
  )

  -- The line is on the log's file, or on `.1` with the log empty again.
  pub append_record-holds {κ} :
      (P : LogState → Type κ) (rl : RequestLogger) (m : LogFile) (backups : List LogFile)
      (n : Created)
      → rl.is_open ≡ true
      → ((k : ℕ) → P (at_work (sized rl k) (with_line m) backups))
      → P (
          at_work
            (sized rl 0)
            (empty_file n)
            (shift_backups (backups_kept rl) (with_line m) backups))
      → P (append_record encode none (some n) r (at_work rl m backups))
  unfolding append_record write_line count_line rotate
  append_record-holds P rl m backups n o grown turned =
      let k = rl.current_size + length (coded.line ++ newline ∷ []) in
      let full = leb rl.max_size k in
      let done : LogState =
        at_work (sized rl 0) (empty_file n)
          (shift_backups (backups_kept rl) (with_line m) backups) in
      let more : LogState = at_work (sized rl k) (with_line m) backups in
      let run : append_record encode none (some n) r (at_work rl m backups)
          ≡ (if full then done else more) =
        ground (arith, coded.encoded) in
      subst P (sym run) (if-holds {A = LogState} P full (λ yes. turned) (λ no. grown k))
