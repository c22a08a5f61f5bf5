-- ===== src/Gateway/Streaming/Resumption.antt =====
-- src/internal/gateway/gateway.go, `tryResume`: where another worker goes on with a stream.
use openmodel_gateway.Prelude.{
  ℕ, suc, ◌+◌, ◌≤◌, ◌≡◌, refl, ap, sym, subst, ◌∙◌, ◌⊎◌, inl, inr, Bool, true, false, ◌&&◌, ◌||◌,
  not, List, [], ◌++◌, String, Dict, Option, some, insert, ◌/=◌, nat_eq, string_eq, option-holds,
  if-holds, ltb, length, length-append, allb, arith,
}
use openmodel_gateway.Prelude.Int.{pos, ◌-ℤ◌}
use openmodel_gateway.Worker.State.{Worker}
use openmodel_gateway.Gateway.RateLimit.{Float64}
use openmodel_gateway.Gateway.Proxy.{ModelInfo, Asked}
use openmodel_gateway.Gateway.Receipt.{Crypto, append_text}
use openmodel_gateway.Gateway.Body.{with_continuation}
use openmodel_gateway.Gateway.Stream.{Events, SegmentConfig, split_lines, new_writer}
use openmodel_gateway.Gateway.Stream.Metering.{
  heard, is_shown, join_texts, IsSent, IsTold-nil, write_all-IsSent, heard-append, shown-append,
  split_whole, join_texts-append,
}
use openmodel_gateway.Gateway.Streaming.{
  Search, onto, nowhere, looking, Round, Upstream, no_answer, streamed, StreamConfig, StreamState,
  StreamFailure, Segment, Next, again, over, unfinished, segment_config, orig_max_tokens,
  may_resume, run_segment, find_continuation, try_resume, end_stream, retry, interrupted, abandoned,
  broke_off, round, first_state,
}

module _ (f : Float64) (ev : Events f) (crypto : Crypto) (factor : f.F)
    (catalog : Option (Dict String ModelInfo)) (cfg : StreamConfig) (q : Asked)
    (body : List ℕ) where
  -- The turns of the loop, from the first worker.
  pub data Reached : StreamState → Type 0 where
    first : (target : Worker) → Reached (first_state f ev crypto factor catalog cfg q body target)
    turn :
        (a : Round f) (st st' : StreamState)
        → Reached st
        → round f ev crypto factor catalog cfg q body a st ≡ again st'
        → Reached st'

  abbrev config : SegmentConfig
  config = segment_config f ev crypto factor catalog cfg q body

  -- What the client has read.
  abbrev pub has_read : StreamState → List String
  has_read st = heard f ev config (split_lines st.sent).0

  -- What is kept and counted is what the client has read, and it has been sent whole lines that it may see.
  abbrev pub IsInStep : StreamState → Type 0
  IsInStep st =
      (st.content ≡ join_texts (has_read st))
      × (st.delivered ≡ length (has_read st))
      × (allb (is_shown f ev config) (split_lines st.sent).0 ≡ true)
      × ((split_lines st.sent).1 ≡ [])

  -- The worker is asked what the client asked, or to go on after exactly what the client has read,
  -- with as many tokens as are left.
  abbrev pub IsAsked : StreamState → Type 0
  IsAsked st =
      ((st.resumes ≡ 0) × (st.cur_body ≡ body))
      ⊎ (with_continuation f ev.parser body (join_texts (has_read st))
            (orig_max_tokens f ev crypto factor catalog cfg q body -ℤ pos (length (has_read st)))
          ≡ some st.cur_body)

  abbrev IsKept : StreamState → StreamState → Type 0
  IsKept st st' =
      (st'.cur_body ≡ st.cur_body)
      × (st'.content ≡ st.content)
      × (st'.resumes ≡ st.resumes)
      × (st'.delivered ≡ st.delivered)
      × (st'.sent ≡ st.sent)

  abbrev IsResumed : StreamState → Segment → StreamState → Type 0
  IsResumed st s st' =
      (st'.content ≡ (s.writer).content)
      × ((s.writer).overflow ≡ false)
      × (st'.delivered ≡ st.delivered + (s.writer).delivered)
      × (st'.sent ≡ st.sent ++ s.sent)
      × (st'.resumes ≡ suc st.resumes)
      × (ltb st.resumes cfg.max_resumes ≡ true)
      × (with_continuation f ev.parser body st'.content
            (orig_max_tokens f ev crypto factor catalog cfg q body -ℤ pos st'.delivered)
          ≡ some st'.cur_body)

  abbrev GoesOn : StreamState → Segment → Next f → Type 0
  GoesOn st s (again st') = IsKept st st' ⊎ IsResumed st s st'
  GoesOn st s (over r sent) = Unit
  GoesOn st s unfinished = Unit

  -- What holds on the three outcomes of a search.
  Search-holds {ℓ} :
      (P : Next f → Type ℓ) (r : Search f) {x y : Next f} {g : Worker → Dict String Bool → Next f}
      → P x
      → P y
      → ((w : Worker) (tried : Dict String Bool) → P (g w tried))
      → P (elim r as (λ _. Next f) [ looking ↦ x | nowhere ↦ y | onto w tried ↦ g w tried ])
  Search-holds P looking h k l = h
  Search-holds P nowhere h k l = k
  Search-holds P (onto w tried) h k l = l w tried

  try_resume-GoesOn :
      (a : Round f) (st : StreamState) (s : Segment) (give_up : Next f)
      → GoesOn st s give_up
      → GoesOn st s (try_resume f ev crypto factor catalog cfg q body a st s give_up)
  unfolding try_resume
  try_resume-GoesOn a st s give_up h =
      let w = s.writer in
      let delivered = st.delivered + w.delivered in
      let left = orig_max_tokens f ev crypto factor catalog cfg q body -ℤ pos delivered in
      if-holds {A = Next f} (GoesOn st s)
        (not (may_resume f ev crypto factor catalog cfg q body a st w delivered)) (λ barred. h)
        (λ may.
          Search-holds (GoesOn st s)
            (find_continuation f ev crypto factor catalog cfg q body a.recovered a.looks
              (insert st.target.id true st.tried))
            tt h
            (λ next tried.
              option-holds {B = Next f} (GoesOn st s)
                (with_continuation f ev.parser body w.content left) (λ e. h)
                (λ nb e.
                  inr (refl, ground (arith, may), refl, refl, refl, ground (arith, may), e))))

  retry-GoesOn :
      (a : Round f) (st : StreamState) (s : Segment) (e : StreamFailure)
      → GoesOn st s (retry f ev crypto factor catalog cfg q body a st e)
  unfolding retry
  retry-GoesOn a st s e = ground arith

  round-GoesOn :
      (a : Round f) (st : StreamState)
      → GoesOn st
          (run_segment f ev crypto factor catalog cfg q body a.upstream st.content)
          (round f ev crypto factor catalog cfg q body a st)
  unfolding round broke_off end_stream interrupted abandoned
  round-GoesOn a st =
      let s = run_segment f ev crypto factor catalog cfg q body a.upstream st.content in
      option-holds {B = Next f} (GoesOn st s) s.failure
        (λ e.
          if-holds {A = Next f} (GoesOn st s) ((s.writer).stream_error /= "")
            (λ broke.
              try_resume-GoesOn a st s (end_stream f ev crypto factor catalog cfg q body a st s) tt)
            (λ clean. tt))
        (λ e failed.
          if-holds {A = Next f} (GoesOn st s) (not (st.client_started || (s.writer).wrote_header))
            (λ fresh. retry-GoesOn a st s e)
            (λ begun.
              if-holds {A = Next f} (GoesOn st s)
                (a.client_gone && ltb 0 (st.delivered + (s.writer).delivered)) (λ gone. tt)
                (λ there.
                  try_resume-GoesOn a st s
                    (interrupted f ev crypto factor catalog cfg q body a st s) tt)))

  module _ (resuming : cfg.stream_resume ≡ true) (mute : cfg.forward_receipt ≡ false) where
    run_segment-IsSent :
        (u : Upstream) (content : String)
        → let s = run_segment f ev crypto factor catalog cfg q body u content in
          IsSent f ev config (new_writer content) s.sent s.writer
    unfolding run_segment split_lines
    run_segment-IsSent (no_answer e) content = (
      IsTold-nil f ev config (new_writer content) (new_writer content) refl refl refl,
      refl,
      refl,
    )
    run_segment-IsSent (streamed status chunks e) content =
        write_all-IsSent f ev config mute resuming chunks
          (record (new_writer content) { wrote_header = true })

    IsInStep-resumed :
        (st st' : StreamState) (s : Segment)
        → IsInStep st
        → IsSent f ev config (new_writer st.content) s.sent s.writer
        → IsResumed st s st'
        → IsInStep st'
    IsInStep-resumed st st' s h k r =
        let whole : split_lines st'.sent
            ≡ ((split_lines st.sent).0 ++ (split_lines s.sent).0, (split_lines s.sent).1) =
          ap split_lines r.3 ∙ split_whole f ev config st.sent s.sent h.3 in
        let reads : has_read st' ≡ has_read st ++ heard f ev config (split_lines s.sent).0 =
          ap (λ p. heard f ev config p.0) whole
          ∙ heard-append f ev config (split_lines st.sent).0 (split_lines s.sent).0 in
        (
          r.0
              ∙ ((k.0).1 r.1).1
              ∙ ap (λ t. append_text t (join_texts (heard f ev config (split_lines s.sent).0))) h.0
              ∙ sym (join_texts-append (has_read st) (heard f ev config (split_lines s.sent).0))
              ∙ ap join_texts (sym reads),
          ground (
            arith,
            r.2,
            h.1,
            (k.0).0,
            ap length reads,
            length-append (has_read st) (heard f ev config (split_lines s.sent).0),
          ),
          subst (λ p. allb (is_shown f ev config) p.0 ≡ true) (sym whole)
              (shown-append f ev config (split_lines st.sent).0 (split_lines s.sent).0 h.2 k.1),
          ap (λ p. p.1) whole ∙ k.2,
        )

    abbrev IsFine : StreamState → Type 0
    IsFine st = IsInStep st × IsAsked st × (st.resumes ≤ cfg.max_resumes)

    IsFine-kept : (st st' : StreamState) → IsKept st st' → IsFine st → IsFine st'
    IsFine-kept st st' k h =
        let same : has_read st' ≡ has_read st = ap (λ t. heard f ev config (split_lines t).0) k.4 in
        (
          (
            k.1 ∙ (h.0).0 ∙ ap join_texts (sym same),
            k.3 ∙ (h.0).1 ∙ ap length (sym same),
            subst (λ t. allb (is_shown f ev config) (split_lines t).0 ≡ true) (sym k.4) (h.0).2,
            ap (λ t. (split_lines t).1) k.4 ∙ (h.0).3,
          ),
          elim (h.1) [
            | inl (none_yet, own) ↦ inl (k.2 ∙ none_yet, k.0 ∙ own)
            | inr asked ↦ inr (
                ap
                  (λ ss.
                    with_continuation f ev.parser body (join_texts ss)
                      (orig_max_tokens f ev crypto factor catalog cfg q body -ℤ pos (length ss)))
                  same
                ∙ asked
                ∙ ap some (sym k.0))
          ],
          ground (arith, k.2, h.2),
        )

    IsFine-resumed :
        (st st' : StreamState) (s : Segment)
        → IsFine st
        → IsSent f ev config (new_writer st.content) s.sent s.writer
        → IsResumed st s st'
        → IsFine st'
    IsFine-resumed st st' s h k r =
        let step = IsInStep-resumed st st' s h.0 k r in
        let most = orig_max_tokens f ev crypto factor catalog cfg q body in
        (
          step,
          inr (
              ap (λ t. with_continuation f ev.parser body t (most -ℤ pos (length (has_read st'))))
                (sym step.0)
              ∙ ap (λ n. with_continuation f ev.parser body st'.content (most -ℤ pos n))
                  (sym step.1)
              ∙ r.6),
          ground (arith, r.4, r.5),
        )

    -- At every turn of the loop, where streams are resumed and the client did not ask for receipts: the text
    -- that is kept and the tokens that are counted are those of what the client has read, over all workers so far, and it has
    -- been sent whole lines with no end of the stream, no error and no receipt; the worker is asked what
    -- the client asked, or to go on after exactly what the client has read with as many tokens as are left; and the stream was resumed at most as often as it may be.
    pub Reached-IsFine :
        (st : StreamState) → Reached st → IsInStep st × IsAsked st × (st.resumes ≤ cfg.max_resumes)
    unfolding split_lines
    Reached-IsFine _ (first target) = ((refl, refl, refl, refl), inl (refl, refl), ground arith)
    Reached-IsFine _ (turn a st st' r e) =
        let s = run_segment f ev crypto factor catalog cfg q body a.upstream st.content in
        let before = Reached-IsFine st r in
        let goes : IsKept st st' ⊎ IsResumed st s st' = subst (GoesOn st s) e (round-GoesOn a st) in
        elim goes [
          | inl kept ↦ IsFine-kept st st' kept before
          | inr resumed ↦
              IsFine-resumed st st' s before (run_segment-IsSent a.upstream st.content) resumed
        ]
