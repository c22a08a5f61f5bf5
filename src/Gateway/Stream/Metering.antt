-- ===== src/Gateway/Stream/Metering.antt =====
-- src/internal/gateway/gateway.go, `sseCaptureWriter`: what is counted and kept is what the client is sent.
use mathlib.Core.List.{append_assoc, append-nil}
use openmodel_gateway.Prelude.{
  ℕ, ◌+◌, ◌≡◌, refl, ap, sym, subst, ◌∙◌, ◌⊎◌, inl, inr, Option-cases, Bool-cases, Bool, true,
  false, ◌&&◌, ◌||◌, not, List, [], ◌∷◌, ◌++◌, String, is_some, ◌==◌, nat_eq, string_eq,
  if◌then◌else◌, drop, arith, All, allb, length, length-append,
}
use openmodel_gateway.Settlement.Scanner.{newline}
use openmodel_gateway.Gateway.RateLimit.{Float64}
use openmodel_gateway.Gateway.Receipt.{append_text}
use openmodel_gateway.Gateway.Stream.{
  Events, SegmentConfig, CaptureWriter, split_lines, take_delta, take_deltas, process_data,
  process_line, process_lines, write_filtered, write, write_all, is_blank, same_bytes, starts_with,
  done_line, data_prefix, receipt_in, error_in, with_usage,
}
use openmodel_gateway.Gateway.Stream.Chunks.{split_lines-append}

pub append_text_assoc :
    (a b c : String) → append_text (append_text a b) c ≡ append_text a (append_text b c)
append_text_assoc String.[] b c = refl
append_text_assoc (String.◌∷◌ x a) b c = ap (String.◌∷◌ x) (append_text_assoc a b c)

append_text-nil : (a : String) → append_text a "" ≡ a
append_text-nil String.[] = refl
append_text-nil (String.◌∷◌ x a) = ap (String.◌∷◌ x) (append_text-nil a)

abbrev pub join_texts : List String → String
join_texts [] = ""
join_texts (s ∷ ss) = append_text s (join_texts ss)

pub join_texts-append :
    (ss ts : List String) → join_texts (ss ++ ts) ≡ append_text (join_texts ss) (join_texts ts)
join_texts-append [] ts = refl
join_texts-append (s ∷ ss) ts = simp (join_texts-append ss ts, append_text_assoc)

-- A text of one line, with its newline.
abbrev IsLine : List ℕ → Type 0
IsLine l = split_lines l ≡ (l ∷ [], [])

IsLine-newline : (x : ℕ) → x == newline ≡ true → IsLine (x ∷ [])
unfolding split_lines
IsLine-newline x h = ground arith

IsLine-cons : (x : ℕ) (l : List ℕ) → x == newline ≡ false → IsLine l → IsLine (x ∷ l)
unfolding split_lines
IsLine-cons x l n h = ground (arith, h)

split_lines-IsLine : (xs : List ℕ) → All IsLine (split_lines xs).0
unfolding split_lines
split_lines-IsLine [] = tt
split_lines-IsLine (x ∷ xs) = first (x == newline) refl (split_lines xs) (split_lines-IsLine xs)
  where
    first :
        (n : Bool)
        → x == newline ≡ n
        → (rest : List (List ℕ) × List ℕ) → All IsLine rest.0
        → All IsLine
            (if n
              then ((x ∷ []) ∷ rest.0, rest.1)
              else (elim (rest.0) as (λ _. List (List ℕ) × List ℕ) [
                | [] ↦ ([], x ∷ rest.1)
                | l ∷ ls ↦ ((x ∷ l) ∷ ls, rest.1)
              ])).0
    first true e rest h = (IsLine-newline x e, h)
    first false e ([], r) h = tt
    first false e (l ∷ ls, r) h = (IsLine-cons x l e h.0, h.1)

split_lines-line :
    (l xs : List ℕ)
    → IsLine l
    → split_lines (l ++ xs) ≡ (l ∷ (split_lines xs).0, (split_lines xs).1)
split_lines-line l xs h = ground (arith, split_lines-append l xs, h)

-- The texts that are not empty.
abbrev pub spoken : List String → List String
spoken [] = []
spoken (s ∷ ss) = let rest = spoken ss in if s == "" then rest else s ∷ rest

spoken-cons : (s : String) (ss : List String) → spoken (s ∷ []) ++ spoken ss ≡ spoken (s ∷ ss)
spoken-cons s ss = ground arith

module _ (f : Float64) (ev : Events f) (c : SegmentConfig) where
  -- What a client reads from a line: the texts of its deltas.
  abbrev pub says : List ℕ → List String
  says line =
      if starts_with data_prefix (ev.trim line)
      then spoken (ev.deltas (drop 6 (ev.trim line)))
      else []

  -- What it reads from the lines of a text.
  abbrev pub heard : List (List ℕ) → List String
  heard [] = []
  heard (l ∷ ls) = says l ++ heard ls

  -- Neither the end of the stream, nor an error, nor a receipt.
  abbrev pub is_shown : List ℕ → Bool
  is_shown line =
      let t = ev.trim line in
      is_blank t
      || not (same_bytes t done_line)
        && (not (starts_with data_prefix t)
            || not (is_some (receipt_in f ev c (drop 6 t)))
              && not (is_some (error_in f ev c (drop 6 t))))

  -- The texts `ss` are counted, and kept unless the room for them has run out.
  abbrev pub IsTold : CaptureWriter → List String → CaptureWriter → Type 0
  IsTold w ss v =
      (v.delivered ≡ w.delivered + length ss)
      × (v.overflow ≡ false
          → (w.overflow ≡ false) × (v.content ≡ append_text w.content (join_texts ss)))

  pub IsTold-nil :
      (w v : CaptureWriter)
      → v.delivered ≡ w.delivered
      → v.overflow ≡ w.overflow
      → v.content ≡ w.content
      → IsTold w [] v
  IsTold-nil w v d o t = (ground arith, λ h. (ground arith, t ∙ sym (append_text-nil w.content)))

  IsTold-append :
      (u v w : CaptureWriter) (ss ts : List String)
      → IsTold u ss v
      → IsTold v ts w
      → IsTold u (ss ++ ts) w
  IsTold-append u v w ss ts h k = (
    ground (arith, h.0, k.0, length-append ss ts),
    λ e.
        let later = k.1 e in
        let before = h.1 later.0 in
        (
          before.0,
          later.1
              ∙ ap (λ t. append_text t (join_texts ts)) before.1
              ∙ append_text_assoc u.content (join_texts ss) (join_texts ts)
              ∙ ap (append_text u.content) (sym (join_texts-append ss ts)),
        ),
  )

  take_delta-IsTold :
      (s : String) (w : CaptureWriter) → IsTold w (spoken (s ∷ [])) (take_delta f ev c s w)
  unfolding take_delta
  take_delta-IsTold s w = (
    ground arith,
    λ e. (ground (arith, e), ground (arith, e, append_text-nil w.content, append_text-nil s)),
  )

  take_deltas-IsTold :
      (ss : List String) (w : CaptureWriter) → IsTold w (spoken ss) (take_deltas f ev c ss w)
  unfolding take_deltas
  take_deltas-IsTold [] w = IsTold-nil w w refl refl refl
  take_deltas-IsTold (s ∷ ss) w =
      subst (λ t. IsTold w t (take_deltas f ev c ss (take_delta f ev c s w))) (spoken-cons s ss)
        (IsTold-append w (take_delta f ev c s w) (take_deltas f ev c ss (take_delta f ev c s w))
          (spoken (s ∷ [])) (spoken ss) (take_delta-IsTold s w)
          (take_deltas-IsTold ss (take_delta f ev c s w)))

  -- The bytes `t` are whole lines that are shown, and what they say is told.
  abbrev pub IsSent : CaptureWriter → List ℕ → CaptureWriter → Type 0
  IsSent w t v =
      IsTold w (heard (split_lines t).0) v
      × (allb is_shown (split_lines t).0 ≡ true)
      × ((split_lines t).1 ≡ [])

  pub heard-append : (ls ms : List (List ℕ)) → heard (ls ++ ms) ≡ heard ls ++ heard ms
  heard-append [] ms = refl
  heard-append (l ∷ ls) ms = simp (heard-append ls ms, append_assoc)

  pub shown-append :
      (ls ms : List (List ℕ))
      → allb is_shown ls ≡ true
      → allb is_shown ms ≡ true
      → allb is_shown (ls ++ ms) ≡ true
  shown-append [] ms h k = k
  shown-append (l ∷ ls) ms h k = ground (arith, h, shown-append ls ms (ground (arith, h)) k)

  pub split_whole :
      (t s : List ℕ)
      → (split_lines t).1 ≡ []
      → split_lines (t ++ s) ≡ ((split_lines t).0 ++ (split_lines s).0, (split_lines s).1)
  split_whole t s h = ground (arith, split_lines-append t s, h)

  pub IsSent-append :
      (u v w : CaptureWriter) (t s : List ℕ) → IsSent u t v → IsSent v s w → IsSent u (t ++ s) w
  IsSent-append u v w t s h k =
      subst (λ p. IsTold u (heard p.0) w × (allb is_shown p.0 ≡ true) × (p.1 ≡ []))
        (sym (split_whole t s h.2))
        (
          subst (λ ss. IsTold u ss w) (sym (heard-append (split_lines t).0 (split_lines s).0))
              (IsTold-append u v w (heard (split_lines t).0) (heard (split_lines s).0) h.0 k.0),
          shown-append (split_lines t).0 (split_lines s).0 h.1 k.1,
          k.2,
        )

  module _ (mute : c.forward_receipt ≡ false) where
    -- A line is passed on as it is, with what it says, or it is held back and says nothing.
    process_data-IsTold :
        (line : List ℕ) (w : CaptureWriter)
        → let out = process_data f ev c line (drop 6 (ev.trim line)) w in
          ((out.1 ≡ []) × IsTold w [] out.0)
          ⊎ ((out.1 ≡ line)
              × IsTold w (spoken (ev.deltas (drop 6 (ev.trim line)))) out.0
              × (is_some (receipt_in f ev c (drop 6 (ev.trim line))) ≡ false)
              × (is_some (error_in f ev c (drop 6 (ev.trim line))) ≡ false))
    unfolding process_data
    process_data-IsTold line w =
        let payload = drop 6 (ev.trim line) in
        let seen = with_usage f ev c payload w in
        let v = (process_data f ev c line payload w).0 in
        let told = take_deltas-IsTold (ev.deltas payload) seen in
        elim (Option-cases (receipt_in f ev c payload)) [
          | inr (r, e) ↦ inl (
            ground (arith, e, mute),
            IsTold-nil w v (ground (arith, e)) (ground (arith, e)) (ground (arith, e)),
          )
          | inl e ↦ elim (Option-cases (error_in f ev c payload)) [
            | inr (msg, d) ↦ inl (
              ground (arith, e, d),
              IsTold-nil w v (ground (arith, e, d)) (ground (arith, e, d)) (ground (arith, e, d)),
            )
            | inl d ↦ inr (
              ground (arith, e, d),
              (
                ground (arith, e, d, told.0),
                λ h.
                    let kept = told.1 (ground (arith, e, d, h)) in
                    (ground (arith, kept.0), ground (arith, e, d, kept.1)),
              ),
              ground (arith, e),
              ground (arith, d),
            )
          ]
        ]

    -- What a line does: it is held back and says nothing, or it is passed on as it is.
    abbrev Outcome : List ℕ → CaptureWriter → Type 0
    Outcome line w =
        let out = process_line f ev c line w in
        ((out.1 ≡ []) × IsTold w [] out.0)
        ⊎ ((out.1 ≡ line) × IsTold w (says line) out.0 × (is_shown line ≡ true))

    blank-IsTold :
        (line : List ℕ) (w : CaptureWriter) → is_blank (ev.trim line) ≡ true → Outcome line w
    unfolding process_line
    blank-IsTold line w blank =
        let v = (process_line f ev c line w).0 in
        let quiet : says line ≡ [] = ground (arith, blank) in
        elim (Bool-cases w.last_suppressed) [
          | inl s ↦ inl (
            ground (arith, blank, s),
            IsTold-nil w v (ground (arith, blank, s)) (ground (arith, blank, s))
                (ground (arith, blank, s)),
          )
          | inr s ↦ inr (
            ground (arith, blank, s),
            subst (λ ss. IsTold w ss v) (sym quiet)
                (IsTold-nil w v (ground (arith, blank, s)) (ground (arith, blank, s))
                  (ground (arith, blank, s))),
            ground (arith, blank),
          )
        ]

    data-IsTold :
        (line : List ℕ) (w : CaptureWriter)
        → is_blank (ev.trim line) ≡ false
        → same_bytes (ev.trim line) done_line ≡ false
        → starts_with data_prefix (ev.trim line) ≡ true
        → Outcome line w
    unfolding process_line
    data-IsTold line w full going isdata =
        let t = ev.trim line in
        let v = (process_line f ev c line w).0 in
        let step : process_line f ev c line w ≡ process_data f ev c line (drop 6 t) w =
          ground (arith, full, going, isdata) in
        let loud : says line ≡ spoken (ev.deltas (drop 6 t)) = ground (arith, isdata) in
        elim (process_data-IsTold line w) [
          | inl (out, none_told) ↦
              inl (ap (λ p. p.1) step ∙ out, subst (λ p. IsTold w [] p.0) (sym step) none_told)
          | inr (out, all_told, r, e) ↦ inr (
            ap (λ p. p.1) step ∙ out,
            subst (λ ss. IsTold w ss v) (sym loud)
                (subst (λ p. IsTold w (spoken (ev.deltas (drop 6 t))) p.0) (sym step) all_told),
            ground (arith, full, going, isdata, r, e),
          )
        ]

    process_line-IsTold : (line : List ℕ) (w : CaptureWriter) → Outcome line w
    unfolding process_line
    process_line-IsTold line w =
        let t = ev.trim line in
        let v = (process_line f ev c line w).0 in
        elim (Bool-cases (is_blank t)) [
          | inl blank ↦ blank-IsTold line w blank
          | inr full ↦ elim (Bool-cases (same_bytes t done_line)) [
            | inl done ↦ inl (
              ground (arith, full, done),
              IsTold-nil w v (ground (arith, full, done)) (ground (arith, full, done))
                  (ground (arith, full, done)),
            )
            | inr going ↦ elim (Bool-cases (starts_with data_prefix t)) [
              | inl isdata ↦ data-IsTold line w full going isdata
              | inr other ↦
                  let quiet : says line ≡ [] = ground (arith, other) in
                  inr (
                    ground (arith, full, going, other),
                    subst (λ ss. IsTold w ss v) (sym quiet)
                        (IsTold-nil w v (ground (arith, full, going, other))
                          (ground (arith, full, going, other))
                          (ground (arith, full, going, other))),
                    ground (arith, full, going, other),
                  )
            ]
          ]
        ]

    process_lines-IsSent :
        (ls : List (List ℕ)) (w : CaptureWriter)
        → All IsLine ls
        → IsSent w (process_lines f ev c ls w).1 (process_lines f ev c ls w).0
    unfolding process_lines split_lines
    process_lines-IsSent [] w h = (IsTold-nil w w refl refl refl, refl, refl)
    process_lines-IsSent (l ∷ ls) w h =
        let one = process_line f ev c l w in
        let out = process_lines f ev c ls one.0 in
        let rest = process_lines-IsSent ls one.0 h.1 in
        IsSent-append w one.0 out.0 one.1 out.1
          (elim (process_line-IsTold l w) [
            | inl (gone, told) ↦ subst (λ t. IsSent w t one.0) (sym gone) (told, refl, refl)
            | inr (passed, told, shown) ↦
                subst (λ t. IsSent w t one.0) (sym passed)
                  (subst (λ p. IsTold w (heard p.0) one.0 × (allb is_shown p.0 ≡ true) × (p.1 ≡ []))
                    (sym h.0)
                    (
                      subst (λ ss. IsTold w ss one.0) (sym (append-nil (says l))) told,
                      ground (arith, shown),
                      refl,
                    ))
          ])
          rest

    module _ (filters : c.filter ≡ true) where
      write-IsSent :
          (b : List ℕ) (w : CaptureWriter) → IsSent w (write f ev c b w).1 (write f ev c b w).0
      unfolding write write_filtered
      write-IsSent b w =
          let start : CaptureWriter = record w { wrote_header = true; pend = [] } in
          let told =
            process_lines-IsSent (split_lines (w.pend ++ b)).0 start
              (split_lines-IsLine (w.pend ++ b)) in
          let same : write f ev c b w ≡ write_filtered f ev c b w = ground (arith, filters) in
          subst (λ o. IsSent w o.1 o.0) (sym same) told

      -- Where the client did not ask for receipts and events are held back: the texts that the client reads in
      -- what the writes of a segment send it are counted, and are what is kept for a continuation, unless the room for
      -- it has run out; and it is sent whole lines, with no end of the stream, no error and no receipt.
      pub write_all-IsSent :
          (bs : List (List ℕ)) (w : CaptureWriter)
          → IsSent w (write_all f ev c bs w).1 (write_all f ev c bs w).0
      unfolding write_all split_lines
      write_all-IsSent [] w = (IsTold-nil w w refl refl refl, refl, refl)
      write_all-IsSent (b ∷ bs) w =
          let one = write f ev c b w in
          let rest = write_all f ev c bs one.0 in
          IsSent-append w one.0 rest.0 one.1 rest.1 (write-IsSent b w) (write_all-IsSent bs one.0)
