-- ===== src/Gateway/Stream/Chunks.antt =====
-- src/internal/gateway/gateway.go, `sseCaptureWriter.Write` in its filter mode: how a stream is cut into writes does
-- not matter.
use mathlib.Core.Path.{fun_ext}
use mathlib.Core.List.{append_assoc}
use openmodel_gateway.Prelude.{
  ℕ, ◌≡◌, refl, ap, sym, subst, ◌∙◌, if◌then◌else◌, true, List, [], ◌∷◌, ◌++◌, String, nat_eq,
  string_eq, drop, arith,
}
use openmodel_gateway.Gateway.RateLimit.{Float64}
use openmodel_gateway.Gateway.Stream.{
  Events, SegmentConfig, CaptureWriter, split_lines, take_delta, take_deltas, process_data,
  process_line, process_lines, write_filtered, with_usage, write, write_through,
}

pub split_lines-append :
    (xs ys : List ℕ)
    → split_lines (xs ++ ys) ≡ (
      (split_lines xs).0 ++ (split_lines ((split_lines xs).1 ++ ys)).0,
      (split_lines ((split_lines xs).1 ++ ys)).1,
    )
unfolding split_lines
split_lines-append [] ys = refl
split_lines-append (x ∷ xs) ys = grind (arith, split_lines-append xs ys)

module _ (f : Float64) (ev : Events f) (c : SegmentConfig) where
  -- What no line changes.
  abbrev Keeps : CaptureWriter → CaptureWriter → Type 0
  Keeps w v = (v.wrote_header ≡ w.wrote_header) × (v.pend ≡ w.pend)

  take_delta-Keeps : (s : String) (w : CaptureWriter) → Keeps w (take_delta f ev c s w)
  unfolding take_delta
  take_delta-Keeps s w = ground arith

  take_deltas-Keeps : (ss : List String) (w : CaptureWriter) → Keeps w (take_deltas f ev c ss w)
  unfolding take_deltas
  take_deltas-Keeps [] w = (refl, refl)
  take_deltas-Keeps (s ∷ ss) w =
      ground (arith, take_delta-Keeps s w, take_deltas-Keeps ss (take_delta f ev c s w))

  with_usage-Keeps : (payload : List ℕ) (w : CaptureWriter) → Keeps w (with_usage f ev c payload w)
  with_usage-Keeps payload w = ground arith

  process_data-Keeps :
      (line payload : List ℕ) (w : CaptureWriter) → Keeps w (process_data f ev c line payload w).0
  unfolding process_data
  process_data-Keeps line payload w =
      let seen = with_usage-Keeps payload w in
      ground (arith, seen, take_deltas-Keeps (ev.deltas payload) (with_usage f ev c payload w))

  process_line-Keeps : (line : List ℕ) (w : CaptureWriter) → Keeps w (process_line f ev c line w).0
  unfolding process_line
  process_line-Keeps line w = ground (arith, process_data-Keeps line (drop 6 (ev.trim line)) w)

  process_lines-Keeps :
      (ls : List (List ℕ)) (w : CaptureWriter) → Keeps w (process_lines f ev c ls w).0
  unfolding process_lines
  process_lines-Keeps [] w = (refl, refl)
  process_lines-Keeps (l ∷ ls) w =
      ground (arith, process_line-Keeps l w, process_lines-Keeps ls (process_line f ev c l w).0)

  process_lines-append :
      (ls ms : List (List ℕ)) (w : CaptureWriter)
      → process_lines f ev c (ls ++ ms) w ≡ (
        (process_lines f ev c ms (process_lines f ev c ls w).0).0,
        (process_lines f ev c ls w).1 ++ (process_lines f ev c ms (process_lines f ev c ls w).0).1,
      )
  unfolding process_lines
  process_lines-append [] ms w = refl
  process_lines-append (l ∷ ls) ms w =
      simp (process_lines-append ls ms (process_line f ev c l w).0, append_assoc)

  -- A writer in the middle of a stream is the one that its next write starts from.
  restarted :
      (w : CaptureWriter)
      → w.wrote_header ≡ true
      → w.pend ≡ []
      → record w { wrote_header = true; pend = [] } ≡ w
  restarted w h k = cc (h, k)

  write_filtered-append :
      (a b : List ℕ) (w : CaptureWriter)
      → write_filtered f ev c (a ++ b) w ≡ (
        (write_filtered f ev c b (write_filtered f ev c a w).0).0,
        (write_filtered f ev c a w).1 ++ (write_filtered f ev c b (write_filtered f ev c a w).0).1,
      )
  unfolding write_filtered
  write_filtered-append a b w =
      let start : CaptureWriter = record w { wrote_header = true; pend = [] } in
      let cut = split_lines (w.pend ++ a) in
      let next = split_lines (cut.1 ++ b) in
      let one = process_lines f ev c cut.0 start in
      let kept = process_lines-Keeps cut.0 start in
      ap
        (λ (t : List (List ℕ) × List ℕ).
          let out = process_lines f ev c t.0 start in (record (out.0) { pend = t.1 }, out.1))
        (ap split_lines (sym (append_assoc w.pend a b)) ∙ split_lines-append (w.pend ++ a) b)
      ∙ ap (λ (o : CaptureWriter × List ℕ). (record (o.0) { pend = next.1 }, o.1))
          (process_lines-append cut.0 next.0 start)
      ∙ ap
          (λ (u : CaptureWriter).
            let out = process_lines f ev c next.0 u in
            (record (out.0) { pend = next.1 }, one.1 ++ out.1))
          (sym (restarted one.0 kept.0 kept.1))

  write-filtered :
      c.filter ≡ true
      → (b : List ℕ) (w : CaptureWriter) → write f ev c b w ≡ write_filtered f ev c b w
  unfolding write
  write-filtered filters b w =
      ap (λ t. if t then write_filtered f ev c b w else write_through f ev c b w) filters

  -- In filter mode, two writes do what one write of their bytes together does: the writer ends the same, and the
  -- client is sent the same bytes.
  pub write-append :
      (filters : c.filter ≡ true) (x y : List ℕ) (w : CaptureWriter)
      → write f ev c (x ++ y) w ≡ (
        (write f ev c y (write f ev c x w).0).0,
        (write f ev c x w).1 ++ (write f ev c y (write f ev c x w).0).1,
      )
  write-append filters x y w =
      subst
        (λ (g : List ℕ → CaptureWriter → CaptureWriter × List ℕ).
          g (x ++ y) w ≡ ((g y (g x w).0).0, (g x w).1 ++ (g y (g x w).0).1))
        (sym (fun_ext λ b. fun_ext λ u. write-filtered filters b u)) (write_filtered-append x y w)
