-- ===== src/Settlement/Reconciler.antt =====
-- src/internal/settlement/reconcile.go: the periodic comparison of what was billed with what is settled or pending.
-- The texts of a `big.Float` and their parsing are a parameter; a file is what it decodes to.
pub mod Windows
pub mod Restarts
use openmodel_gateway.Prelude.{
  ℕ, suc, Bool, true, false, ◌&&◌, not, List, [], ◌∷◌, String, Option, none, some, ◌==◌, string_eq,
  if◌then◌else◌,
}
use openmodel_gateway.Settlement.Floats.{BigFloat}
use openmodel_gateway.Settlement.Records.{RequestRecord}
use openmodel_gateway.Settlement.Scanner.{Cursor, LogDir, Peeked, peek}
use openmodel_gateway.Settlement.Balance.{BalanceCache, total_pending_spend_usd}

module _ (b : BigFloat) where
  open b use {F, nought, add, sub, is_positive, less}

  -- `Text('f', 12)`, `Text('f', 6)`, `big.ParseFloat`, `Abs`, and `NewFloat(0.01)`.
  pub record Decimals : Type 0 where
    pub text_12 : F → String
    pub text_6 : F → String
    pub parse : String → Option F
    pub abs : F → F
    pub cent : F

  pub record ReconcileState : Type 0 where
    pub initialized : Bool
    pub billed_cum_usd : String
    pub billable_count : ℕ
    pub settled_baseline : String
    pub pending_baseline : String
    pub debt_baseline : String

  pub record ReconcileReport : Type 0 where
    pub timestamp : ℕ
    pub billed_usd : String
    pub settled_usd : String
    pub pending_usd : String
    pub debt_usd : String
    pub drift_usd : String
    pub drift_abs_usd : String
    pub within_tolerance : Bool
    pub tolerance_usd : String
    pub billable_count : ℕ
    pub dead_letters : ℕ

  -- The totals of the settler.
  pub record SettledTotaler : Type 0 where
    pub settled_usd_total : F
    pub debt_usd_total : F

  -- What a pass finds, the number of lines in the dead-letter file included, and whether its two writes succeed.
  pub record Pass : Type 0 where
    pub time : ℕ
    pub dir : LogDir
    pub settled : Option SettledTotaler
    pub balance : Option (BalanceCache b)
    pub dead : ℕ
    pub cursor_written : Bool
    pub state_written : Bool

  -- The state in memory, the files of the state and of the scanner's cursor, and the tolerance.
  pub record Reconciler : Type 0 where
    pub st : ReconcileState
    pub state_file : Option ReconcileState
    pub cursor : Option Cursor
    pub tolerance_usd : F

  module _ (text : Decimals) (decode : List ℕ → Option RequestRecord)
      (cost : RequestRecord → Option F) where
    abbrev pub first_run : ReconcileState
    first_run = record {
      initialized = false;
      billed_cum_usd = "";
      billable_count = 0;
      settled_baseline = "";
      pending_baseline = "";
      debt_baseline = "";
    }

    abbrev pub state_in : Option ReconcileState → ReconcileState
    state_in none = first_run
    state_in (some s) = s

    unfoldable pub load_state : Reconciler → Reconciler
    load_state rc = record rc { st = state_in rc.state_file }

    abbrev or_cent : Option F → F
    or_cent none = text.cent
    or_cent (some t) = t

    -- Of the files that are there.
    unfoldable pub new_reconciler : Option ReconcileState → Option Cursor → Option F → Reconciler
    new_reconciler file cursor tolerance = load_state (record {
      st = first_run;
      state_file = file;
      cursor = cursor;
      tolerance_usd = or_cent tolerance;
    })

    unfoldable pub save_state : Bool → Reconciler → Reconciler
    save_state written rc = record rc { state_file = if written then some rc.st else rc.state_file }

    unfoldable pub commit : Bool → Cursor → Reconciler → Reconciler
    commit written c rc = record rc { cursor = if written then some c else rc.cursor }

    unfoldable pub parse_big_or_zero : String → F
    parse_big_or_zero s =
        if s == "" then nought else (elim (text.parse s) as (λ _. F) [ none ↦ nought | some f ↦ f ])

    abbrev pub has_cost : RequestRecord → Bool
    has_cost rec = elim (cost rec) as (λ _. Bool) [ none ↦ false | some c ↦ is_positive c ]

    abbrev pub cost_or_nought : RequestRecord → F
    cost_or_nought rec = elim (cost rec) as (λ _. F) [ none ↦ nought | some c ↦ c ]

    -- The total and the count after the records of a window.
    unfoldable pub bill : List RequestRecord → F × ℕ → F × ℕ
    bill [] t = t
    bill (rec ∷ recs) t =
        bill recs (if has_cost rec then (add t.0 (cost_or_nought rec), suc t.1) else t)

    abbrev settled_of : Pass → F
    settled_of p = elim p.settled [ none ↦ nought | some t ↦ t.settled_usd_total ]

    abbrev debt_of : Pass → F
    debt_of p = elim p.settled [ none ↦ nought | some t ↦ t.debt_usd_total ]

    abbrev unsettled_of : Pass → F
    unsettled_of p = elim p.balance [ none ↦ nought | some bc ↦ total_pending_spend_usd b bc ]

    -- The billed total of this pass, and the state.
    unfoldable pub take_window : Pass → List RequestRecord → ReconcileState → F × ReconcileState
    take_window p records st =
        let before = parse_big_or_zero st.billed_cum_usd in
        let t = bill records (before, st.billable_count) in
        if not st.initialized
        then (
          before,
          record st {
            settled_baseline = text.text_12 (settled_of p);
            pending_baseline = text.text_12 (unsettled_of p);
            debt_baseline = text.text_12 (debt_of p);
            initialized = true;
          },
        )
        else (t.0, record st { billed_cum_usd = text.text_12 t.0; billable_count = t.1 })

    unfoldable pub report_of : Pass → F → F → ReconcileState → ReconcileReport
    report_of p tolerance billed st =
        let settled_delta = sub (settled_of p) (parse_big_or_zero st.settled_baseline) in
        let pending_delta = sub (unsettled_of p) (parse_big_or_zero st.pending_baseline) in
        let debt_delta = sub (debt_of p) (parse_big_or_zero st.debt_baseline) in
        let drift = sub billed (add settled_delta pending_delta) in
        record {
          timestamp = p.time;
          billed_usd = text.text_6 billed;
          settled_usd = text.text_6 settled_delta;
          pending_usd = text.text_6 pending_delta;
          debt_usd = text.text_6 debt_delta;
          drift_usd = text.text_6 drift;
          drift_abs_usd = text.text_6 (text.abs drift);
          within_tolerance = not (less tolerance (text.abs drift));
          tolerance_usd = text.text_6 tolerance;
          billable_count = st.billable_count;
          dead_letters = p.dead;
        }

    abbrev with_st : ReconcileState → Reconciler → Reconciler
    with_st st rc = record rc { st = st }

    -- With what `Peek` returns.
    unfoldable pub found_at :
        Pass → Option Peeked → Reconciler → Option ReconcileReport × Reconciler
    found_at p none rc = (none, rc)
    found_at p (some found) rc =
        let taken = take_window p found.records rc.st in
        let saved =
          save_state p.state_written (commit p.cursor_written found.cursor (with_st taken.1 rc)) in
        (some (report_of p rc.tolerance_usd taken.0 taken.1), saved)

    unfoldable pub run : Pass → Reconciler → Option ReconcileReport × Reconciler
    run p rc = found_at p (peek decode rc.cursor p.dir) rc

    -- A process that ends between the two writes: the cursor is committed, the state is not saved.
    unfoldable pub killed_at : Pass → Option Peeked → Reconciler → Reconciler
    killed_at p none rc = rc
    killed_at p (some found) rc =
        commit p.cursor_written found.cursor (with_st (take_window p found.records rc.st).1 rc)

    unfoldable pub run_killed : Pass → Reconciler → Reconciler
    run_killed p rc = killed_at p (peek decode rc.cursor p.dir) rc

    -- A new process, with the files of the old one.
    unfoldable pub restart : Reconciler → Reconciler
    restart rc = new_reconciler rc.state_file rc.cursor (some rc.tolerance_usd)

    pub data Event : Type 0 where
      pass : Pass → Event
      restarted : Event

    -- The reports in their order, and the reconciler after the events.
    unfoldable pub run_events : List Event → Reconciler → List (Option ReconcileReport) × Reconciler
    run_events [] rc = ([], rc)
    run_events (restarted ∷ es) rc = run_events es (restart rc)
    run_events (pass p ∷ es) rc =
        let now = run p rc in let later = run_events es now.1 in (now.0 ∷ later.0, later.1)
