-- ===== src/Settlement/Reconciler/Windows.antt =====
-- src/internal/settlement/reconcile.go: what the passes of a reconciler with a baseline bill of the windows of the log.
use openmodel_gateway.Prelude.{
  ℕ, suc, ◌+◌, ◌≡◌, refl, sym, ap, subst, ◌∙◌, inl, inr, true, List, [], ◌∷◌, String, Option, none,
  some, if◌then◌else◌, if-holds, Option-cases, Bool-cases, All, arith,
}
use openmodel_gateway.Settlement.Floats.{BigFloat}
use openmodel_gateway.Settlement.Records.{RequestRecord}
use openmodel_gateway.Settlement.Scanner.{Cursor, Peeked, peek}
use openmodel_gateway.Settlement.Reconciler.{
  Decimals, ReconcileState, Pass, Reconciler, state_in, load_state, new_reconciler, save_state,
  commit, bill, has_cost, cost_or_nought, take_window, parse_big_or_zero, found_at, run, restart,
  Event, pass, restarted, run_events,
}

module _ (b : BigFloat) (text : Decimals b) (decode : List ℕ → Option RequestRecord)
    (cost : RequestRecord → Option b.F) where
  -- The records that cost something.
  unfoldable pub billed_in : List RequestRecord → ℕ
  billed_in [] = 0
  billed_in (rec ∷ recs) = (if has_cost b text decode cost rec then 1 else 0) + billed_in recs

  bill-count :
      (recs : List RequestRecord) (t : b.F × ℕ)
      → (bill b text decode cost recs t).1 ≡ t.1 + billed_in recs
  unfolding bill billed_in
  bill-count [] t = omega arith
  bill-count (rec ∷ recs) t = elim (Bool-cases (has_cost b text decode cost rec)) [
    | inl y ↦
        ground
          (arith, y, bill-count recs (b.add t.0 (cost_or_nought b text decode cost rec), suc t.1))
    | inr n ↦ ground (arith, n, bill-count recs t)
  ]

  -- The passes of the events, without the restarts.
  abbrev pub passes_of : List (Event b text decode cost) → List (Pass b)
  passes_of [] = []
  passes_of (restarted ∷ es) = passes_of es
  passes_of (pass p ∷ es) = p ∷ passes_of es

  abbrev pub IsWritten : Pass b → Type 0
  IsWritten p = (p.cursor_written ≡ true) × (p.state_written ≡ true)

  -- The file of the state says what the state is.
  abbrev pub IsSynced : Reconciler b → Type 0
  IsSynced rc = state_in b text decode cost rc.state_file ≡ rc.st

  pub restart-same : (rc : Reconciler b) → IsSynced rc → restart b text decode cost rc ≡ rc
  unfolding restart new_reconciler load_state
  restart-same rc h = ap (λ s. record rc { st = s }) h

  -- After a pass that could read.
  abbrev pub after : Pass b → Peeked → Reconciler b → Reconciler b
  after p found rc = (found_at b text decode cost p (some found) rc).1

  pub after-IsSynced :
      (p : Pass b) (found : Peeked) (rc : Reconciler b) → IsWritten p → IsSynced (after p found rc)
  unfolding found_at save_state commit
  after-IsSynced p found rc w =
      if-holds {A = Option (ReconcileState b)}
        (λ file.
          state_in b text decode cost file
          ≡ (take_window b text decode cost p found.records rc.st).1)
        p.state_written (λ y. refl) (λ n. absurd (ground (arith, n, w.1)))

  -- What a scanner alone reads at the passes that it can read at, where it commits its cursor each time.
  unfoldable pub windows : Option Cursor → List (Pass b) → List (List RequestRecord)
  windows c [] = []
  windows c (p ∷ ps) = elim (peek decode c p.dir) as (λ _. List (List RequestRecord)) [
    | none ↦ windows c ps
    | some found ↦ found.records ∷ windows (some found.cursor) ps
  ]

  unfoldable pub billed_windows : List (List RequestRecord) → ℕ
  billed_windows [] = 0
  billed_windows (w ∷ ws) = billed_in w + billed_windows ws

  -- The costs of a window, added in their order.
  unfoldable pub add_costs : b.F → List RequestRecord → b.F
  add_costs x [] = x
  add_costs x (rec ∷ recs) =
      add_costs
        (if has_cost b text decode cost rec
          then b.add x (cost_or_nought b text decode cost rec)
          else x)
        recs

  -- The total is written with twelve decimals after each window.
  unfoldable pub total_after : String → List (List RequestRecord) → String
  total_after s [] = s
  total_after s (w ∷ ws) =
      total_after (text.text_12 (add_costs (parse_big_or_zero b text decode cost s) w)) ws

  bill-total :
      (recs : List RequestRecord) (t : b.F × ℕ)
      → (bill b text decode cost recs t).0 ≡ add_costs t.0 recs
  unfolding bill add_costs
  bill-total [] t = refl
  bill-total (rec ∷ recs) t =
      let ih = bill-total recs (b.add t.0 (cost_or_nought b text decode cost rec), suc t.1) in
      elim (Bool-cases (has_cost b text decode cost rec)) [
        | inl y ↦ ground (arith, y, ih)
        | inr n ↦ ground (arith, n, bill-total recs t)
      ]

  -- The books of the second state are those of the first, with these windows billed.
  abbrev pub Bills : List (List RequestRecord) → ReconcileState b → ReconcileState b → Type 0
  Bills ws st st' =
      (st'.billable_count ≡ st.billable_count + billed_windows ws)
      × (st'.billed_cum_usd ≡ total_after st.billed_cum_usd ws)
      × (st'.settled_baseline ≡ st.settled_baseline)
      × (st'.pending_baseline ≡ st.pending_baseline)

  run_unread_lem :
      (p : Pass b) (rc : Reconciler b)
      → peek decode rc.cursor p.dir ≡ none
      → run b text decode cost p rc ≡ (none, rc)
  unfolding run found_at
  run_unread_lem p rc e = ap (λ o. found_at b text decode cost p o rc) e

  windows_unread_lem :
      (c : Option Cursor) (p : Pass b) (ps : List (Pass b))
      → peek decode c p.dir ≡ none
      → windows c (p ∷ ps) ≡ windows c ps
  unfolding windows
  windows_unread_lem c p ps e =
      ap
        (λ o. elim o as (λ _. List (List RequestRecord)) [
          | none ↦ windows c ps
          | some found ↦ found.records ∷ windows (some found.cursor) ps
        ])
        e

  windows_read_lem :
      (c : Option Cursor) (p : Pass b) (ps : List (Pass b)) (found : Peeked)
      → peek decode c p.dir ≡ some found
      → windows c (p ∷ ps) ≡ found.records ∷ windows (some found.cursor) ps
  unfolding windows
  windows_read_lem c p ps found e =
      ap
        (λ o. elim o as (λ _. List (List RequestRecord)) [
          | none ↦ windows c ps
          | some found ↦ found.records ∷ windows (some found.cursor) ps
        ])
        e

  run_read_lem :
      (p : Pass b) (rc : Reconciler b) (found : Peeked)
      → peek decode rc.cursor p.dir ≡ some found
      → (run b text decode cost p rc).1 ≡ after p found rc
  unfolding run
  run_read_lem p rc found e = ap (λ o. (found_at b text decode cost p o rc).1) e

  after-takes :
      (p : Pass b) (rc : Reconciler b) (found : Peeked)
      → IsWritten p
      → rc.st.initialized ≡ true
      → ((after p found rc).cursor ≡ some found.cursor)
        × ((after p found rc).st.initialized ≡ true)
        × Bills (found.records ∷ []) rc.st (after p found rc).st
  unfolding found_at take_window commit save_state total_after billed_windows
  after-takes p rc found w on =
      rw (on, w.0)
        (
          refl,
          refl,
          (
            omega (
              arith,
              bill-count found.records
                  (parse_big_or_zero b text decode cost rc.st.billed_cum_usd, rc.st.billable_count),
            ),
            ap text.text_12 (bill-total found.records _),
            refl,
            refl,
          ),
        )

  Bills-trans :
      (w : List RequestRecord) (ws : List (List RequestRecord)) (x y z : ReconcileState b)
      → Bills (w ∷ []) x y
      → Bills ws y z
      → Bills (w ∷ ws) x z
  unfolding billed_windows total_after
  Bills-trans w ws x y z h k =
      (omega (arith, h.0, k.0), k.1 ∙ ap (λ s. total_after s ws) (h.1), k.2 ∙ h.2, k.3 ∙ h.3)

  -- A pass reads nothing, or it reads a window.
  pub pass_cases :
      (p : Pass b) (es : List (Event b text decode cost)) (rc : Reconciler b)
      (P : List (List RequestRecord) → ReconcileState b → Type 0)
      → (peek decode rc.cursor p.dir ≡ none
          → P (windows rc.cursor (passes_of es)) (run_events b text decode cost es rc).1.st)
      → ((found : Peeked)
          → peek decode rc.cursor p.dir ≡ some found
          → P
              (found.records ∷ windows (some found.cursor) (passes_of es))
              (run_events b text decode cost es (after p found rc)).1.st)
      → P
          (windows rc.cursor (p ∷ passes_of es))
          (run_events b text decode cost (pass p ∷ es) rc).1.st
  unfolding run_events
  pass_cases p es rc P unread read =
      let ps = passes_of es in
      let later : Reconciler b → ReconcileState b =
        λ r. (run_events b text decode cost es r).1.st in
      let ran = (run b text decode cost p rc).1 in
      elim (Option-cases (peek decode rc.cursor p.dir)) [
        | inl e ↦
            subst (λ ws. P ws (later ran)) (sym (windows_unread_lem rc.cursor p ps e))
              (subst (λ r. P (windows rc.cursor ps) (later r.1)) (sym (run_unread_lem p rc e))
                (unread e))
        | inr (found, e) ↦
            subst (λ ws. P ws (later ran)) (sym (windows_read_lem rc.cursor p ps found e))
              (subst (λ r. P (found.records ∷ windows (some found.cursor) ps) (later r))
                (sym (run_read_lem p rc found e)) (read found e))
      ]

  pub events-Bills :
      (es : List (Event b text decode cost)) (rc : Reconciler b)
      → All IsWritten (passes_of es)
      → IsSynced rc
      → rc.st.initialized ≡ true
      → Bills (windows rc.cursor (passes_of es)) rc.st (run_events b text decode cost es rc).1.st
  unfolding run_events billed_windows total_after windows
  events-Bills [] rc w h on = (omega arith, refl, refl, refl)
  events-Bills (restarted ∷ es) rc w h on =
      subst
        (λ r.
          Bills (windows rc.cursor (passes_of es)) rc.st (run_events b text decode cost es r).1.st)
        (sym (restart-same rc h)) (events-Bills es rc w h on)
  events-Bills (pass p ∷ es) rc w h on =
      pass_cases p es rc (λ ws st. Bills ws rc.st st) (λ e. events-Bills es rc w.1 h on)
        (λ found e.
          let next = after p found rc in
          let last = (run_events b text decode cost es next).1.st in
          let ps = passes_of es in
          let taken = after-takes p rc found w.0 on in
          Bills-trans found.records (windows (some found.cursor) ps) rc.st next.st last taken.2 (
            subst (λ c. Bills (windows c ps) next.st last) taken.0
              (events-Bills es next w.1 (after-IsSynced p found rc w.0) taken.1)))
