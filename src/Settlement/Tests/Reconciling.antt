-- ===== src/Settlement/Tests/Reconciling.antt =====
-- Instances of the theorems on the reconciler.
use openmodel_gateway.Prelude.{ℕ, ◌+◌, ◌≡◌, refl, true, List, [], ◌∷◌, Option, none, some}
use openmodel_gateway.Prelude.Int.{ℤ, pos}
use openmodel_gateway.Settlement.Records.{RequestRecord}
use openmodel_gateway.Settlement.Scanner.{
  LogDir, Peeked, there, peek, peek_main, peek_same, scan_from, advance, is_rotated, lines,
}
use openmodel_gateway.Settlement.Reconciler.{
  Decimals, Pass, Reconciler, Event, pass, restarted, run_events, new_reconciler, run_killed,
  restart,
}
use openmodel_gateway.Settlement.Reconciler.Windows.{windows, billed_windows, passes_of}
use openmodel_gateway.Settlement.Reconciler.Restarts.{Starts, run_events-Starts, run_killed-loses}
use openmodel_gateway.Settlement.Tests.{whole, read_billed, start}

abbrev texts : Decimals whole
texts = record {
  text_12 = λ x. "1";
  text_6 = λ x. "1";
  parse = λ s. some (pos 1);
  abs = λ x. x;
  cent = pos 0;
}

abbrev cost_one : RequestRecord → Option ℤ
cost_one rec = some (pos 1)

abbrev log_of : List ℕ → LogDir
log_of bytes = record { main = there (record { ino = 7; device = 1; bytes = bytes }); backups = [] }

abbrev pass_at : ℕ → List ℕ → Pass whole
pass_at t bytes = record {
  time = t;
  dir = log_of bytes;
  settled = none;
  balance = none;
  dead = 0;
  cursor_written = true;
  state_written = true;
}

-- A window that is left out, a restart, and a window with two records.
abbrev events : List (Event whole texts read_billed cost_one)
events =
    pass (pass_at 1 (5 ∷ 10 ∷ []))
    ∷ restarted
    ∷ pass (pass_at 2 (5 ∷ 10 ∷ 6 ∷ 10 ∷ 7 ∷ 10 ∷ []))
    ∷ []

run_events-Starts_example :
    Starts whole texts read_billed cost_one
      (windows whole texts read_billed cost_one none
        (passes_of whole texts read_billed cost_one events))
      (run_events whole texts read_billed cost_one events
        (new_reconciler whole texts read_billed cost_one none none none)).1.st
run_events-Starts_example =
    run_events-Starts whole texts read_billed cost_one events none
      ((refl, refl), ((refl, refl), tt))

abbrev running : Reconciler whole
running = record {
  st = record {
    initialized = true;
    billed_cum_usd = "1";
    billable_count = 4;
    settled_baseline = "1";
    pending_baseline = "1";
    debt_baseline = "1";
  };
  state_file = some (record {
    initialized = true;
    billed_cum_usd = "1";
    billable_count = 4;
    settled_baseline = "1";
    pending_baseline = "1";
    debt_baseline = "1";
  });
  cursor = some start;
  tolerance_usd = pos 1;
}

abbrev read_to : LogDir → Peeked
read_to dir = elim (peek read_billed (some start) dir) as (λ _. Peeked) [
  | none ↦ record { records = []; cursor = start }
  | some found ↦ found
]

run_killed-loses_example :
    (run_events whole texts read_billed cost_one events (
      restart whole texts read_billed cost_one (
        run_killed whole texts read_billed cost_one
          (pass_at 1 (5 ∷ 10 ∷ []))
          running))).1.st.billable_count
    ≡ 4
      + billed_windows whole texts read_billed cost_one (
          windows whole texts read_billed cost_one
            (some (read_to (log_of (5 ∷ 10 ∷ []))).cursor)
            (passes_of whole texts read_billed cost_one events))
unfolding peek peek_main peek_same scan_from advance is_rotated lines
run_killed-loses_example =
    run_killed-loses whole texts read_billed cost_one events (pass_at 1 (5 ∷ 10 ∷ [])) running
      (read_to (log_of (5 ∷ 10 ∷ []))) ((refl, refl), ((refl, refl), tt)) refl refl refl refl
