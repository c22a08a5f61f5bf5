-- ===== src/Gateway/RequestLog/RoundTrip.antt =====
-- src/internal/gateway/requestlog.go with src/internal/settlement/scanner.go: many records logged,
-- across rotations, and then read.
use mathlib.Core.List.{append-nil, append_assoc}
use openmodel_gateway.Prelude.{
  ℕ, ◌≡◌, ◌≢◌, refl, subst, sym, true, List, [], ◌∷◌, ◌++◌, Option, none, some, nat_eq, length,
  arith, All,
}
use openmodel_gateway.Settlement.Records.{RequestRecord as Billed}
use openmodel_gateway.Settlement.Scanner.{
  LogFile, there, LogDir, Cursor, lines, read_lines, peek, advance, Peeked,
}
use openmodel_gateway.Settlement.Scanner.Unread.{unread, is_in, Short, peek-unread}
use openmodel_gateway.Gateway.RequestLog.{
  RequestRecord, RequestLogger, LogState, Logged, recs, log_all, append_record,
}
use openmodel_gateway.Gateway.RequestLog.Handover.{files, Coded, billed, at_work}
use openmodel_gateway.Gateway.RequestLog.Rotation.{is_working, working-holds, after, drop_all}

-- A file made for the log is not the one that the cursor reads.
abbrev pub IsNew : ℕ → Logged → Type 0
IsNew ino e = e.next.ino ≢ ino

unread_end :
    (decode : List ℕ → Option Billed) (m : LogFile) (backups : List LogFile)
    → unread decode m.ino (length m.bytes) (m ∷ backups) ≡ []
unfolding unread read_lines lines
unread_end decode m backups =
    ground (arith, drop_all (length m.bytes) m.bytes, nat_eq.same_iff m.ino m.ino)

abbrev pub IsCoded : (RequestRecord → Option (List ℕ)) → (List ℕ → Option Billed) → Logged → Type 0
IsCoded encode decode e = Coded encode decode e.rec

module _ (encode : RequestRecord → Option (List ℕ)) (decode : List ℕ → Option Billed)
    (ino off : ℕ) where
  log_all_kept :
      (es : List Logged) (s : LogState)
      → All (IsNew ino) es
      → All (IsCoded encode decode) es
      → is_working ino off s ≡ true
      → is_in ino (files (log_all encode es s).dir) ≡ true
      → is_in ino (files s.dir) ≡ true
  unfolding log_all
  log_all_kept [] s new cs h i = i
  log_all_kept (e ∷ es) s new cs h i =
      let one = after cs.0 ino off e.next new.0 s h in
      one.kept
        (log_all_kept es (append_record encode none (some e.next) e.rec s) new.1 cs.1 one.works i)

  log_all-is_working :
      (es : List Logged) (s : LogState)
      → All (IsNew ino) es
      → All (IsCoded encode decode) es
      → is_working ino off s ≡ true
      → is_working ino off (log_all encode es s) ≡ true
  unfolding log_all
  log_all-is_working [] s new cs h = h
  log_all-is_working (e ∷ es) s new cs h =
      let one = after cs.0 ino off e.next new.0 s h in
      log_all-is_working es (append_record encode none (some e.next) e.rec s) new.1 cs.1 one.works

  billed_cons :
      (r : RequestRecord) (rs : List RequestRecord) → billed (r ∷ rs) ≡ billed (r ∷ []) ++ billed rs
  billed_cons r rs = ground arith

  -- Records logged one after the other, every write complete and every rotation opening a new file,
  -- by a logger at work: what the cursor has left unread grows by the billable ones of them, each once and in order, if the
  -- cursor's file is still kept at the end.
  pub log_all-unread :
      (es : List Logged) (s : LogState)
      → All (IsNew ino) es
      → All (IsCoded encode decode) es
      → is_working ino off s ≡ true
      → is_in ino (files (log_all encode es s).dir) ≡ true
      → unread decode ino off (files (log_all encode es s).dir)
        ≡ unread decode ino off (files s.dir) ++ billed (recs es)
  unfolding log_all
  log_all-unread [] s new cs h i = sym (append-nil (unread decode ino off (files s.dir)))
  log_all-unread (e ∷ es) s new cs h i =
      let one = after cs.0 ino off e.next new.0 s h in
      let t = append_record encode none (some e.next) e.rec s in
      let here = one.adds (log_all_kept es t new.1 cs.1 one.works i) in
      ground (
        arith,
        log_all-unread es t new.1 cs.1 one.works i,
        here,
        billed_cons e.rec (recs es),
        append_assoc (unread decode ino off (files s.dir)) (billed (e.rec ∷ [])) (billed (recs es)),
      )

module _ (encode : RequestRecord → Option (List ℕ)) (decode : List ℕ → Option Billed)
    (c : Cursor) where
  -- A scan of a log directory that reads all of what `c` has left unread, and leaves nothing.
  pub record Reads (dir : LogDir) (records : List Billed) : Type 0 where
    pub peeked : Peeked
    pub succeeds : peek decode (some c) dir ≡ some peeked
    pub reads : peeked.records ≡ records
    pub leaves : unread decode peeked.cursor.inode peeked.cursor.offset (files dir) ≡ []

  Reads-unread :
      (rl : RequestLogger) (m : LogFile) (backups : List LogFile)
      → c.inode ≢ 0
      → is_working c.inode c.offset (at_work rl m backups) ≡ true
      → is_in c.inode (m ∷ backups) ≡ true
      → All Short (m ∷ backups)
      → Reads
          (record { main = there m; backups = backups })
          (unread decode c.inode c.offset (m ∷ backups))
  unfolding is_working advance
  Reads-unread rl m backups known h i short =
      let all = unread decode c.inode c.offset (m ∷ backups) in
      record {
        peeked = advance c m all (length m.bytes);
        succeeds =
            peek-unread decode c m backups known i short
              (λ e. ground (arith, nat_eq.same_iff m.ino c.inode));
        reads = refl;
        leaves = unread_end decode m backups;
      }

  -- What the gateway logs, the settlement reads: under `log_all-unread`'s conditions, with lines
  -- that the scanner's buffer holds, a scan from a cursor with a known file succeeds with what was
  -- unread before and then the billable records logged since, each once and in order, and its new
  -- cursor has nothing left unread.
  pub log_all-peek :
      (es : List Logged) (s : LogState)
      → c.inode ≢ 0
      → All (IsNew c.inode) es
      → All (IsCoded encode decode) es
      → is_working c.inode c.offset s ≡ true
      → is_in c.inode (files (log_all encode es s).dir) ≡ true
      → All Short (files (log_all encode es s).dir)
      → Reads
          ((log_all encode es s).dir)
          (unread decode c.inode c.offset (files s.dir) ++ billed (recs es))
  log_all-peek es s known new cs h i short =
      let t = log_all encode es s in
      let scanned : Reads t.dir (unread decode c.inode c.offset (files t.dir)) =
        working-holds c.inode c.offset
          (λ u.
            is_in c.inode (files u.dir) ≡ true
            → All Short (files u.dir)
            → Reads u.dir (unread decode c.inode c.offset (files u.dir)))
          (λ rl m backups works i short. Reads-unread rl m backups known works i short) t
          (log_all-is_working encode decode c.inode c.offset es s new cs h) i short in
      subst (Reads t.dir) (log_all-unread encode decode c.inode c.offset es s new cs h i) scanned
