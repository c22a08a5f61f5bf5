-- ===== src/Settlement/Scanner.antt =====
-- src/internal/settlement/scanner.go: the request log and its backups, read from a cursor.
-- A file is its bytes; `decode` is the JSON library's reading of a line, `none` where it fails; to it the
-- carriage return before a newline, which the scanner takes off, is white space.
pub mod Lines
pub mod Unread
use openmodel_gateway.Prelude.{
  ℕ, zero, suc, ◌+◌, Bool, true, false, ◌&&◌, ◌||◌, not, List, [], ◌∷◌, ◌++◌, Option, none, some,
  ◌>>=◌, ◌==◌, ◌/=◌, nat_eq, if◌then◌else◌, ltb, leb, length, drop, allb, max,
}
use openmodel_gateway.Settlement.Records.{RequestRecord, is_billable}

pub record Cursor : Type 0 where
  pub offset : ℕ
  pub last_timestamp : ℕ
  pub file_size : ℕ
  pub inode : ℕ
  pub dev : ℕ

pub record LogFile : Type 0 where
  pub ino : ℕ
  pub device : ℕ
  pub bytes : List ℕ

-- The log's own path: nothing there, not to be looked at, or a file.
pub data MainFile : Type 0 where
  missing : MainFile
  denied : MainFile
  there : LogFile → MainFile

-- The backups are `.1`, the newest, `.2` and so on.
pub record LogDir : Type 0 where
  pub main : MainFile
  pub backups : List LogFile

abbrev pub newline : ℕ
newline = 10

-- The lines of a text; the last one may lack its newline.
unfoldable pub lines : List ℕ → List (List ℕ)
lines [] = []
lines (x ∷ xs) =
    let rest = lines xs in
    if x == newline
    then [] ∷ rest
    else elim rest as (λ r. List (List ℕ)) [ [] ↦ (x ∷ []) ∷ [] | l ∷ ls ↦ (x ∷ l) ∷ ls ]

-- The buffer of 1024 * 1024 bytes holds a line with its newline.
abbrev pub max_line : ℕ
max_line = 1_048_576

abbrev pub is_short : List ℕ → Bool
is_short l = ltb (length l) max_line

unfoldable pub last_timestamp : List RequestRecord → ℕ
last_timestamp [] = 0
last_timestamp (r ∷ []) = r.timestamp
last_timestamp (r ∷ s ∷ rs) = last_timestamp (s ∷ rs)

pub record Scanned : Type 0 where
  pub records : List RequestRecord
  pub end_offset : ℕ

-- What `Peek` returns beside the old cursor.
pub record Peeked : Type 0 where
  pub records : List RequestRecord
  pub cursor : Cursor

abbrev pub no_cursor : Cursor
no_cursor = record { offset = 0; last_timestamp = 0; file_size = 0; inode = 0; dev = 0 }

-- The backup that the cursor was reading, and those newer than it, the oldest first.
unfoldable pub find_backup : ℕ → List LogFile → List LogFile → Option (LogFile × List LogFile)
find_backup ino [] newer = none
find_backup ino (f ∷ fs) newer =
    if f.ino == ino then some (f, newer) else find_backup ino fs (f ∷ newer)

abbrev found : Cursor → List LogFile → Option (LogFile × List LogFile)
found c backups = if c.inode == 0 then none else find_backup c.inode backups []

unfoldable pub is_rotated : Cursor → LogFile → Bool
is_rotated c m =
    (c.inode /= 0 && m.ino /= c.inode) || (ltb 0 c.offset && ltb (length m.bytes) c.offset)

abbrev or_before : ℕ → ℕ → ℕ
or_before before ts = if ts == 0 then before else ts

unfoldable pub advance : Cursor → LogFile → List RequestRecord → ℕ → Peeked
advance c m records end = record {
  records = records;
  cursor = record {
    offset = end;
    last_timestamp = or_before c.last_timestamp (last_timestamp records);
    file_size = length m.bytes;
    inode = m.ino;
    dev = m.device;
  };
}

module _ (decode : List ℕ → Option RequestRecord) where
  abbrev keep : Option RequestRecord → List RequestRecord
  keep none = []
  keep (some rec) = if is_billable rec then rec ∷ [] else []

  -- A line that is empty, malformed or not billable gives nothing.
  unfoldable pub read_line : List ℕ → List RequestRecord
  read_line [] = []
  read_line (x ∷ xs) = keep (decode (x ∷ xs))

  unfoldable pub read_lines : List (List ℕ) → List RequestRecord
  read_lines [] = []
  read_lines (l ∷ ls) = read_line l ++ read_lines ls

  -- The reader stops at the file's end, or stays where a seek beyond it has put it.
  unfoldable pub scan_from : LogFile → ℕ → Option Scanned
  scan_from f start =
      let ls = lines (drop start f.bytes) in
      if allb is_short ls
      then some (record { records = read_lines ls; end_offset = max start (length f.bytes) })
      else none

  unfoldable pub scan_all : List LogFile → Option (List RequestRecord)
  scan_all [] = some []
  scan_all (f ∷ fs) = do s ← scan_from f 0; rest ← scan_all fs; some (s.records ++ rest)

  -- Without the cursor's file: `.1`, from the cursor's offset if it may be that file.
  unfoldable pub drain_newest : Cursor → List LogFile → List RequestRecord
  drain_newest c [] = []
  drain_newest c (f ∷ fs) =
      elim (scan_from f (if c.inode == 0 || f.ino == c.inode then c.offset else 0)) [
        | none ↦ []
        | some s ↦ s.records
      ]

  unfoldable pub drain_backups : Cursor → List LogFile → Option (List RequestRecord)
  drain_backups c backups = elim (found c backups) [
    | none ↦ some (drain_newest c backups)
    | some (f, newer) ↦ do
      tail ← scan_from f c.offset
      rest ← scan_all newer
      some (tail.records ++ rest)
  ]

  -- With the log's path empty, `.1` is read and the cursor stays.
  unfoldable pub peek_missing : Cursor → List LogFile → Peeked
  peek_missing c [] = record { records = []; cursor = c }
  peek_missing c (f ∷ fs) = elim (scan_from f c.offset) [
    | none ↦ record { records = []; cursor = c }
    | some s ↦ record { records = s.records; cursor = c }
  ]

  unfoldable pub peek_rotated : Cursor → LogFile → List LogFile → Option Peeked
  peek_rotated c m backups = do
    old ← drain_backups c backups
    new ← scan_from m 0
    some (advance c m (old ++ new.records) new.end_offset)

  unfoldable pub peek_same : Cursor → LogFile → Option Peeked
  peek_same c m = do new ← scan_from m c.offset; some (advance c m new.records new.end_offset)

  unfoldable pub peek_main : Cursor → LogFile → List LogFile → Option Peeked
  peek_main c m backups = if is_rotated c m then peek_rotated c m backups else peek_same c m

  -- `none` stands for an error; the cursor's file is absent or unreadable where `loaded` is `none`.
  unfoldable pub peek : Option Cursor → LogDir → Option Peeked
  peek loaded dir =
      let c : Cursor = elim loaded [ none ↦ no_cursor | some c ↦ c ] in
      elim dir.main [
        | missing ↦ some (peek_missing c dir.backups)
        | denied ↦ none
        | there m ↦ peek_main c m dir.backups
      ]
