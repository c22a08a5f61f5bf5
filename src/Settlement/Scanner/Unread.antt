-- ===== src/Settlement/Scanner/Unread.antt =====
-- src/internal/settlement/scanner.go: what a cursor has left unread, file by file.
use openmodel_gateway.Prelude.{
  ℕ, ◌≡◌, ◌≢◌, refl, Bool, true, List, [], ◌∷◌, ◌++◌, Option, some, ◌>>=◌, ◌==◌, nat_eq,
  if◌then◌else◌, length, drop, max, All, arith, ◌≤◌, anyb,
}
use mathlib.Core.List.{append-nil, append_assoc}
use openmodel_gateway.Settlement.Records.{RequestRecord}
use openmodel_gateway.Settlement.Scanner.{
  LogFile, Cursor, there, lines, read_lines, scan_from, scan_all, find_backup, drain_backups,
  is_rotated, advance, peek_rotated, peek_same, peek_main, peek,
}
use openmodel_gateway.Settlement.Scanner.Lines.{are_short, are_short-drop}

abbrev pub is_in : ℕ → List LogFile → Bool
is_in ino fs = anyb (λ f. f.ino == ino) fs

abbrev pub Short : LogFile → Type 0
Short f = are_short f.bytes ≡ true

module _ (decode : List ℕ → Option RequestRecord) where
  abbrev pub tail_of : ℕ → LogFile → List RequestRecord
  tail_of n f = read_lines decode (lines (drop n f.bytes))

  -- The records of the files, the oldest file last in the list and first in the result.
  unfoldable pub all_of : List LogFile → List RequestRecord
  all_of [] = []
  all_of (f ∷ fs) = all_of fs ++ tail_of 0 f

  -- What a cursor has not seen: the rest of its file, and all of each newer file.
  unfoldable pub unread : ℕ → ℕ → List LogFile → List RequestRecord
  unread ino off [] = []
  unread ino off (f ∷ fs) = if f.ino == ino then tail_of off f else unread ino off fs ++ tail_of 0 f

  scan_from-Short :
      (f : LogFile) (n : ℕ)
      → Short f
      → scan_from decode f n
        ≡ some (record { records = tail_of n f; end_offset = max n (length f.bytes) })
  unfolding scan_from are_short
  scan_from-Short f n h = ground (arith, are_short-drop n f.bytes)

  unfoldable oldest_first : List LogFile → List RequestRecord
  oldest_first [] = []
  oldest_first (f ∷ fs) = tail_of 0 f ++ oldest_first fs

  scan_all-Short : (fs : List LogFile) → All Short fs → scan_all decode fs ≡ some (oldest_first fs)
  unfolding scan_all oldest_first
  scan_all-Short [] h = refl
  scan_all-Short (f ∷ fs) h = ground (arith, scan_from-Short f 0 h.0, scan_all-Short fs h.1)

  module _ (c : Cursor) where
    drained_from : LogFile × List LogFile → Option (List RequestRecord)
    drained_from p = do
      tail ← scan_from decode p.0 c.offset
      rest ← scan_all decode p.1
      some (tail.records ++ rest)

    drain_found :
        (fs newer : List LogFile)
        → is_in c.inode fs ≡ true
        → All Short fs
        → All Short newer
        → (find_backup c.inode fs newer >>= (λ p. drained_from p))
          ≡ some (unread c.inode c.offset fs ++ oldest_first newer)
    unfolding find_backup unread oldest_first drained_from
    drain_found [] newer m h k = ground arith
    drain_found (f ∷ fs) newer m h k = ground (
      arith,
      scan_from-Short f c.offset h.0,
      scan_all-Short newer k,
      drain_found fs (f ∷ newer),
      append_assoc (unread c.inode c.offset fs) (tail_of 0 f) (oldest_first newer),
    )

    drain_backups_found :
        (backups : List LogFile)
        → c.inode ≢ 0
        → is_in c.inode backups ≡ true
        → All Short backups
        → drain_backups decode c backups ≡ some (unread c.inode c.offset backups)
    unfolding drain_backups drained_from oldest_first
    drain_backups_found backups known m h = ground (
      arith,
      drain_found backups [] m h tt,
      find_backup c.inode backups [],
      append-nil (unread c.inode c.offset backups),
    )

    peek_rotated_lem :
        (m : LogFile) (backups : List LogFile)
        → c.inode ≢ 0
        → is_in c.inode backups ≡ true
        → All Short (m ∷ backups)
        → peek_rotated decode c m backups
          ≡ some (advance c m (unread c.inode c.offset backups ++ tail_of 0 m) (length m.bytes))
    unfolding peek_rotated
    peek_rotated_lem m backups known i h =
        ground (arith, drain_backups_found backups known i h.1, scan_from-Short m 0 h.0)

    -- A cursor whose file is still there, the log's own or a backup, and that has not passed the
    -- log's end, with lines the buffer holds: the scan succeeds with exactly what the cursor has left unread, and
    -- its new cursor stands at the log's end.
    pub peek-unread :
        (m : LogFile) (backups : List LogFile)
        → c.inode ≢ 0
        → is_in c.inode (m ∷ backups) ≡ true
        → All Short (m ∷ backups)
        → (m.ino ≡ c.inode → c.offset ≤ length m.bytes)
        → peek decode (some c) (record { main = there m; backups = backups })
          ≡ some (advance c m (unread c.inode c.offset (m ∷ backups)) (length m.bytes))
    unfolding peek peek_main peek_same is_rotated unread
    peek-unread m backups known i h within =
        ground (arith, peek_rotated_lem m backups known, scan_from-Short m c.offset h.0)
