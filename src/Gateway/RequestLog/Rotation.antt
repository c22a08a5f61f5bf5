-- ===== src/Gateway/RequestLog/Rotation.antt =====
-- src/internal/gateway/requestlog.go: a rotation keeps what a cursor has left unread.
use mathlib.Core.List.{append-nil}
use openmodel_gateway.Prelude.{
  ℕ, zero, suc, ◌≡◌, ◌≢◌, refl, ap, ◌∙◌, Bool, true, ◌&&◌, List, [], ◌∷◌, ◌++◌, Option, none, some,
  nat_eq, leb, length, take, drop, arith, length-append, ◌≤◌,
}
use openmodel_gateway.Settlement.Records.{RequestRecord as Billed}
use openmodel_gateway.Settlement.Scanner.{LogFile, MainFile, missing, denied, there, newline}
use openmodel_gateway.Settlement.Scanner.Lines.{is_whole}
use openmodel_gateway.Settlement.Scanner.Unread.{unread, is_in}
use openmodel_gateway.Gateway.RequestLog.{
  RequestRecord, RequestLogger, LogState, Created, shift_backups, backups_kept, append_record,
}
use openmodel_gateway.Gateway.RequestLog.Handover.{
  files, unread-take, Coded, is_logging, at_most, billed, is_whole_written, unread_written,
  unread_empty, at_work, with_line, append_record-holds,
}

pub drop_all {ℓ} : {A : Type ℓ} (n : ℕ) (xs : List A) → leb (length xs) n ≡ true → drop n xs ≡ []
drop_all zero [] h = refl
drop_all zero (x ∷ xs) h = ground arith
drop_all (suc n) [] h = refl
drop_all (suc n) (x ∷ xs) h = drop_all n xs (ground arith)

length-take {ℓ} : {A : Type ℓ} (n : ℕ) (xs : List A) → length (take n xs) ≤ n
length-take zero xs = ground arith
length-take (suc n) [] = ground arith
length-take (suc n) (x ∷ xs) = ground (arith, length-take n xs)

is_in-take : (ino n : ℕ) (fs : List LogFile) → is_in ino (take n fs) ≡ true → is_in ino fs ≡ true
is_in-take ino zero fs h = ground arith
is_in-take ino (suc n) [] h = h
is_in-take ino (suc n) (f ∷ fs) h = ground (arith, is_in-take ino n fs)

shift_backups-take :
    (b : ℕ) (m : LogFile) (backups : List LogFile)
    → leb (length backups) b ≡ true
    → shift_backups b m backups ≡ take b (m ∷ backups)
unfolding shift_backups
shift_backups-take b m backups h =
    ap (λ xs. take b (m ∷ backups) ++ xs) (drop_all b backups h) ∙ append-nil (take b (m ∷ backups))

-- A logger at work, with no more backups than it keeps, on a log that the cursor has not passed.
unfoldable pub is_working : ℕ → ℕ → LogState → Bool
is_working ino off s =
    is_logging s
    && at_most ino off (s.dir.main)
    && leb (length (s.dir.backups)) (backups_kept s.logger)

module _ (ino off : ℕ) where
  working_main {κ} :
      (P : LogState → Type κ)
      → ((rl : RequestLogger) (m : LogFile) (backups : List LogFile)
          → is_working ino off (at_work rl m backups) ≡ true
          → P (at_work rl m backups))
      → (rl : RequestLogger) (main : MainFile) (backups : List LogFile)
      → is_working ino off (record { logger = rl; dir = record { main = main; backups = backups } })
        ≡ true
      → P (record { logger = rl; dir = record { main = main; backups = backups } })
  unfolding is_working is_logging
  working_main P k rl (there m) backups h = k rl m backups h
  working_main P k rl missing backups h = ground arith
  working_main P k rl denied backups h = ground arith

  pub working-holds {κ} :
      (P : LogState → Type κ)
      → ((rl : RequestLogger) (m : LogFile) (backups : List LogFile)
          → is_working ino off (at_work rl m backups) ≡ true
          → P (at_work rl m backups))
      → (s : LogState) → is_working ino off s ≡ true
      → P s
  working-holds P k s h = working_main P k s.logger (s.dir.main) (s.dir.backups) h

  -- What one more record does, whichever of the two happens.
  pub record After (decode : List ℕ → Option Billed) (r : RequestRecord) (s t : LogState)
      : Type 0 where
    pub works : is_working ino off t ≡ true
    pub kept : is_in ino (files t.dir) ≡ true → is_in ino (files s.dir) ≡ true
    pub adds :
        is_in ino (files t.dir) ≡ true
        → unread decode ino off (files t.dir)
          ≡ unread decode ino off (files s.dir) ++ billed (r ∷ [])

module _ {encode : RequestRecord → Option (List ℕ)} {decode : List ℕ → Option Billed}
    {r : RequestRecord} (coded : Coded encode decode r) (ino off : ℕ) (n : Created)
    (fresh : n.ino ≢ ino) where
  after_at_work :
      (rl : RequestLogger) (m : LogFile) (backups : List LogFile)
      → is_working ino off (at_work rl m backups) ≡ true
      → After ino off decode r
          (at_work rl m backups)
          (append_record encode none (some n) r (at_work rl m backups))
  unfolding is_working is_logging is_whole
  after_at_work rl m backups h =
      let line = coded.line ++ newline ∷ [] in
      let b = backups_kept rl in
      let next = with_line coded m in
      let few : leb (length backups) b ≡ true = ground arith in
      let short = shift_backups-take b next backups few in
      append_record-holds coded (After ino off decode r (at_work rl m backups)) rl m backups n
        (ground arith)
        (λ k. record {
          works = ground (arith, is_whole_written m coded.line, length-append m.bytes line);
          kept = λ i. i;
          adds = λ i. unread_written coded ino off m backups (ground arith) (ground arith);
        })
        (record {
          works = ground (arith, short, length-take b (next ∷ backups), nat_eq.same_iff n.ino ino);
          kept = λ i.
              ground (arith, short, is_in-take ino b (next ∷ backups), nat_eq.same_iff n.ino ino);
          adds = λ i. ground (
            arith,
            short,
            unread_empty decode ino off n (take b (next ∷ backups)),
            unread-take decode ino off b (next ∷ backups) [],
            append-nil (take b (next ∷ backups)),
            unread_written coded ino off m backups,
            nat_eq.same_iff n.ino ino,
          );
        })

  pub after :
      (s : LogState)
      → is_working ino off s ≡ true
      → After ino off decode r s (append_record encode none (some n) r s)
  after s h =
      working-holds ino off (λ t. After ino off decode r t (append_record encode none (some n) r t))
        (λ rl m backups works. after_at_work rl m backups works) s h
