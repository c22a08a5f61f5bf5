-- ===== src/Settlement/Reconciler/Restarts.antt =====
-- src/internal/settlement/reconcile.go: each window of the request log is billed once, whatever restarts come between, unless a
-- process ends between its two writes.
use openmodel_gateway.Prelude.{
  ℕ, ◌+◌, ◌≡◌, refl, sym, ap, subst, ◌∙◌, true, List, [], ◌∷◌, Option, none, some, All, drop, arith,
}
use openmodel_gateway.Settlement.Floats.{BigFloat}
use openmodel_gateway.Settlement.Records.{RequestRecord}
use openmodel_gateway.Settlement.Scanner.{Peeked, peek}
use openmodel_gateway.Settlement.Reconciler.{
  Decimals, ReconcileState, Pass, Reconciler, first_run, load_state, new_reconciler, save_state,
  commit, take_window, found_at, killed_at, run_killed, restart, Event, pass, restarted, run_events,
}
use openmodel_gateway.Settlement.Reconciler.Windows.{
  passes_of, IsWritten, IsSynced, restart-same, after, after-IsSynced, windows, billed_windows,
  total_after, Bills, pass_cases, events-Bills,
}

module _ (b : BigFloat) (text : Decimals b) (decode : List ℕ → Option RequestRecord)
    (cost : RequestRecord → Option b.F) where
  -- The first window is left out.
  abbrev pub Starts : List (List RequestRecord) → ReconcileState b → Type 0
  Starts ws st =
      (st.billable_count ≡ billed_windows b text decode cost (drop 1 ws))
      × (st.billed_cum_usd ≡ total_after b text decode cost "" (drop 1 ws))

  after-first :
      (p : Pass b) (rc : Reconciler b) (found : Peeked)
      → IsWritten b text decode cost p
      → rc.st ≡ first_run b text decode cost
      → ((after b text decode cost p found rc).cursor ≡ some found.cursor)
        × ((after b text decode cost p found rc).st.initialized ≡ true)
        × ((after b text decode cost p found rc).st.billable_count ≡ 0)
        × ((after b text decode cost p found rc).st.billed_cum_usd ≡ "")
  unfolding found_at take_window commit save_state
  after-first p rc found w new = rw (new, w.0) (refl, refl, refl, refl)

  first-Starts :
      (es : List (Event b text decode cost)) (rc : Reconciler b)
      → All (IsWritten b text decode cost) (passes_of b text decode cost es)
      → IsSynced b text decode cost rc
      → rc.st ≡ first_run b text decode cost
      → Starts
          (windows b text decode cost rc.cursor (passes_of b text decode cost es))
          (run_events b text decode cost es rc).1.st
  unfolding run_events billed_windows total_after windows
  first-Starts [] rc w h new = (ap (λ s. s.billable_count) new, ap (λ s. s.billed_cum_usd) new)
  first-Starts (restarted ∷ es) rc w h new =
      subst
        (λ r.
          Starts (windows b text decode cost rc.cursor (passes_of b text decode cost es))
            (run_events b text decode cost es r).1.st)
        (sym (restart-same b text decode cost rc h)) (first-Starts es rc w h new)
  first-Starts (pass p ∷ es) rc w h new =
      pass_cases b text decode cost p es rc Starts (λ e. first-Starts es rc w.1 h new)
        (λ found e.
          let next = after b text decode cost p found rc in
          let last = (run_events b text decode cost es next).1.st in
          let taken = after-first p rc found w.0 new in
          let bills =
            subst
              (λ c.
                Bills b text decode cost
                  (windows b text decode cost c (passes_of b text decode cost es)) next.st last)
              taken.0
              (events-Bills b text decode cost es next w.1
                (after-IsSynced b text decode cost p found rc w.0) taken.1) in
          (
            omega (arith, bills.0, taken.2),
            bills.1
                ∙ ap
                    (λ s. total_after b text decode cost s (
                      windows b text decode cost (some found.cursor)
                        (passes_of b text decode cost es)))
                    taken.3,
          ))

  -- A reconciler that starts without files, and whose writes succeed at each of its passes, whatever restarts come between:
  -- the records that it has counted are those that cost something in the windows b text decode cost that a scanner would read at its passes, each
  -- once, without the first of these windows; and the total that it has billed is that of their costs.
  pub run_events-Starts :
      (es : List (Event b text decode cost)) (tolerance : Option b.F)
      → All (IsWritten b text decode cost) (passes_of b text decode cost es)
      → Starts
          (windows b text decode cost none (passes_of b text decode cost es))
          (run_events b text decode cost es
            (new_reconciler b text decode cost none none tolerance)).1.st
  unfolding new_reconciler load_state
  run_events-Starts es tolerance w =
      first-Starts es (new_reconciler b text decode cost none none tolerance) w refl refl

  restart-killed :
      (p : Pass b) (rc : Reconciler b) (found : Peeked)
      → IsSynced b text decode cost rc
      → p.cursor_written ≡ true
      → peek decode rc.cursor p.dir ≡ some found
      → restart b text decode cost (run_killed b text decode cost p rc)
        ≡ record rc { cursor = some found.cursor }
  unfolding restart new_reconciler load_state run_killed killed_at commit
  restart-killed p rc found h written e =
      ap (λ o. restart b text decode cost (killed_at b text decode cost p o rc)) e
      ∙ rw (written, h) refl

  -- Where the state is in its file and has a baseline, a process ends between the two writes of a pass that reads a window, and the
  -- writes of all later passes succeed: what the reconciler has counted is then what it had counted before, and the records that
  -- cost something in the windows behind that of the interrupted pass, which is never counted.
  pub run_killed-loses :
      (es : List (Event b text decode cost)) (p : Pass b) (rc : Reconciler b) (found : Peeked)
      → All (IsWritten b text decode cost) (passes_of b text decode cost es)
      → IsSynced b text decode cost rc
      → rc.st.initialized ≡ true
      → p.cursor_written ≡ true
      → peek decode rc.cursor p.dir ≡ some found
      → (run_events b text decode cost es
          (restart b text decode cost (run_killed b text decode cost p rc))).1.st.billable_count
        ≡ rc.st.billable_count
          + billed_windows b text decode cost
              (windows b text decode cost (some found.cursor) (passes_of b text decode cost es))
  unfolding restart new_reconciler load_state
  run_killed-loses es p rc found w h on written e =
      subst
        (λ r.
          (run_events b text decode cost es r).1.st.billable_count
          ≡ rc.st.billable_count
            + billed_windows b text decode cost
                (windows b text decode cost (some found.cursor) (passes_of b text decode cost es)))
        (sym (restart-killed p rc found h written e))
        (events-Bills b text decode cost es (record rc { cursor = some found.cursor }) w h on).0
