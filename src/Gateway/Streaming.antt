-- ===== src/Gateway/Streaming.antt =====
-- src/internal/gateway/gateway.go, `handleStreaming` and `tryResume`: a streamed request, over the workers that
-- it is tried on and continued on. What each worker writes, and what is seen after it, is an argument. The
-- endpoint of a worker is taken to be a URL.
pub mod Charge
pub mod Resumption
use openmodel_gateway.Prelude.{
  ℕ, suc, ◌+◌, Bool, true, false, ◌&&◌, ◌||◌, not, List, [], ◌∷◌, ◌++◌, String, Dict, insert,
  Option, none, some, ◌==◌, ◌/=◌, nat_eq, string_eq, if◌then◌else◌, ltb, is_some,
}
use openmodel_gateway.Prelude.Int.{ℤ, pos, negsuc, ◌+ℤ◌, ◌-ℤ◌, ltb_ℤ, is_pos}
use openmodel_gateway.Worker.State.{Worker, has_feature}
use openmodel_gateway.Worker.Registry.Core.{Registry}
use openmodel_gateway.Gateway.RateLimit.{Float64}
use openmodel_gateway.Gateway.Router.{select_worker_for_model}
use openmodel_gateway.Gateway.Proxy.{
  TokenUsage, no_usage, ModelInfo, clamp_usage, Asked, Served, log_entry,
}
use openmodel_gateway.Gateway.Receipt.{ReceiptInfo, Crypto, good, bad, verify_receipt}
use openmodel_gateway.Gateway.Body.{extract_int, estimate_prompt_tokens, with_continuation}
use openmodel_gateway.Gateway.Stream.{
  Events, SegmentConfig, CaptureWriter, new_writer, write_all, flush_held, finish_clean,
}

-- Why a worker's stream broke: a 503 before it began, or an error of the connection.
pub data StreamFailure : Type 0 where
  worker_mining : StreamFailure
  transport : StreamFailure

-- What a worker's answer was: nothing that could be passed on, or a status and writes, with or
-- without an error at their end.
pub data Upstream : Type 0 where
  no_answer : StreamFailure → Upstream
  streamed : ℕ → List (List ℕ) → Option StreamFailure → Upstream

-- What a choice of a worker sees.
pub record Look (f : Float64) : Type 0 where
  pub draw : f.F
  pub now : ℕ
  pub registry : Registry

-- A worker's answer and what follows it; `recovered` is the outcome of waiting in the queue.
pub record Round (f : Float64) : Type 0 where
  pub upstream : Upstream
  pub elapsed : ℕ
  pub client_gone : Bool
  pub in_time : Bool
  pub looks : List (Look f)
  pub recovered : Option Worker

pub record StreamConfig : Type 0 where
  pub stream_resume : Bool
  pub max_resumes : ℕ
  pub default_max_tokens : Option ℤ
  pub forward_receipt : Bool

-- The variables of the loop; `sent` is what the client has been sent.
pub record StreamState : Type 0 where
  pub target : Worker
  pub tried : Dict String Bool
  pub cur_body : List ℕ
  pub content : String
  pub resumes : ℕ
  pub delivered : ℕ
  pub client_started : Bool
  pub sent : List ℕ

abbrev pub feature_continuation : String
feature_continuation = "continuation"

-- 256 KiB
abbrev pub resume_content_cap : ℕ
resume_content_cap = 262_144

-- A segment: the writer after it, its status, what it sent, and its error.
pub record Segment : Type 0 where
  pub writer : CaptureWriter
  pub status : ℕ
  pub sent : List ℕ
  pub failure : Option StreamFailure

abbrev is_zero : ℤ → Bool
is_zero (pos n) = n == 0
is_zero (negsuc n) = false

-- The worker's own end of the stream makes an error after it meaningless.
abbrev unless_done : CaptureWriter → Option StreamFailure → Option StreamFailure
unless_done w e = if w.held_done then none else e

abbrev pub error_status : StreamFailure → ℕ
error_status worker_mining = 503
error_status transport = 502

abbrev pub error_reason_of : StreamFailure → String
error_reason_of worker_mining = "all_retries_failed"
error_reason_of transport = "upstream_error"

module _ (f : Float64) where
  pub data Next : Type 0 where
    again : StreamState → Next
    over : Served f → List ℕ → Next
    unfinished : Next

  -- The outcome of a search: a worker and those tried, that there is none, or that more looks are needed.
  pub data Search : Type 0 where
    onto : Worker → Dict String Bool → Search
    nowhere : Search
    looking : Search

  module _ (ev : Events f) (crypto : Crypto) (factor : f.F)
      (catalog : Option (Dict String ModelInfo)) (cfg : StreamConfig) (q : Asked)
      (body : List ℕ) where
    abbrev pub segment_config : SegmentConfig
    segment_config = record {
      filter = cfg.stream_resume;
      forward_receipt = cfg.forward_receipt;
      content_cap = resume_content_cap;
    }

    abbrev or_positive : ℤ → ℤ → ℤ
    or_positive default n = if is_pos n then n else default

    unfoldable pub orig_max_tokens : ℤ
    orig_max_tokens = or_positive (pos 256) (
        or_positive (elim cfg.default_max_tokens as (λ _. ℤ) [ none ↦ pos 0 | some d ↦ d ])
          (extract_int f ev.parser body "max_tokens"))

    -- The header, then the writes.
    unfoldable pub run_segment : Upstream → String → Segment
    run_segment (no_answer e) content = record {
      writer = new_writer content;
      status = 0;
      sent = [];
      failure = some e;
    }
    run_segment (streamed status chunks e) content =
        let begun : CaptureWriter = record (new_writer content) { wrote_header = true } in
        let out = write_all f ev segment_config chunks begun in
        record { writer = out.0; status = status; sent = out.1; failure = unless_done out.0 e }

    -- A worker that can go on with a text, among those not tried.
    unfoldable pub find_continuation : Option Worker → List (Look f) → Dict String Bool → Search
    find_continuation recovered [] tried = looking
    find_continuation recovered (k ∷ ks) tried =
        elim (select_worker_for_model f k.draw factor k.now tried q.model k.registry)
          as (λ _. Search) [
            | none ↦ elim recovered as (λ _. Search) [
              | none ↦ nowhere
              | some w ↦ if has_feature w feature_continuation then onto w tried else nowhere
            ]
            | some w ↦
                let more = find_continuation recovered ks (insert w.id true tried) in
                if has_feature w feature_continuation then onto w tried else more
          ]

    -- Whether a broken stream may be continued at all.
    abbrev pub may_resume : Round f → StreamState → CaptureWriter → ℕ → Bool
    may_resume a st w delivered =
        cfg.stream_resume
        && ltb st.resumes cfg.max_resumes
        && not a.client_gone
        && a.in_time
        && w.content /= ""
        && not w.overflow
        && is_pos (orig_max_tokens -ℤ pos delivered)

    -- The state in which the stream goes on, if it can.
    unfoldable pub try_resume : Round f → StreamState → Segment → Next → Next
    try_resume a st s give_up =
        let w = s.writer in
        let delivered = st.delivered + w.delivered in
        let left = orig_max_tokens -ℤ pos delivered in
        if not (may_resume a st w delivered)
        then give_up
        else (elim (find_continuation a.recovered a.looks (insert st.target.id true st.tried))
            as (λ _. Next) [
              | looking ↦ unfinished
              | nowhere ↦ give_up
              | onto next tried ↦
                  elim (with_continuation f ev.parser body w.content left) as (λ _. Next) [
                    | none ↦ give_up
                    | some nb ↦ again (record {
                      target = next;
                      tried = tried;
                      cur_body = nb;
                      content = w.content;
                      resumes = suc st.resumes;
                      delivered = delivered;
                      client_started = st.client_started || w.wrote_header;
                      sent = st.sent ++ s.sent;
                    })
                  ]
            ])

    -- What was delivered, as the gateway counts it.
    abbrev pub metered_usage : ℕ → TokenUsage
    metered_usage delivered =
        let prompt = estimate_prompt_tokens f ev.parser body in
        record {
          prompt_tokens = prompt;
          completion_tokens = pos delivered;
          cached_tokens = pos 0;
          total_tokens = prompt +ℤ pos delivered;
        }

    abbrev stream_record :
        StreamState → String → ℕ → String → ℕ → TokenUsage → Option String → Served f
    stream_record st id status reason elapsed u sig = record {
      status = status;
      logged = record (log_entry f q id q.model status reason elapsed u sig) {
        resumes = st.resumes;
      };
      settled_model = "";
      settled_usage = no_usage;
    }

    abbrev billed_as : TokenUsage → Served f → Served f
    billed_as u s = record s { settled_model = q.model; settled_usage = u }

    unfoldable pub stream_receipt : StreamState → CaptureWriter → TokenUsage → Option String
    stream_receipt st w u = elim w.receipt as (λ _. Option String) [
      | none ↦ none
      | some raw ↦ elim (crypto.unmarshal raw) as (λ _. Option String) [
        | bad why ↦ none
        | good r ↦
            some
              (verify_receipt crypto r st.target.receipt_pubkey (some st.cur_body) u
                (st.resumes == 0)).sig
      ]
    ]

    unfoldable pub billed_usage : StreamState → ℕ → TokenUsage → TokenUsage
    billed_usage st delivered u =
        if ltb 0 st.resumes
        then metered_usage delivered
        else if is_zero u.total_tokens && ltb 0 delivered
        then metered_usage delivered
        else u

    -- The record of a stream that came to its end; one with an error event is not billed.
    abbrev pub end_record : StreamState → Bool → ℕ → ℕ → TokenUsage → Option String → Served f
    end_record st true status elapsed u sig =
        stream_record st st.target.id status "stream_interrupted" elapsed u sig
    end_record st false status elapsed u sig =
        billed_as u (stream_record st st.target.id status "" elapsed u sig)

    -- The worker's stream has come to its end, with an error event or without.
    unfoldable pub end_stream : Round f → StreamState → Segment → Next
    end_stream a st s =
        let w = s.writer in
        let u = clamp_usage catalog q.model w.usage in
        let broken = w.stream_error /= "" in
        let held = flush_held f ev segment_config w in
        let clean = finish_clean f ev segment_config w in
        over
          (end_record st broken (if s.status == 0 then 200 else s.status) a.elapsed
            (billed_usage st (st.delivered + w.delivered) u) (stream_receipt st w u))
          (st.sent ++ s.sent ++ (if broken then held.1 else clean.1))

    -- Nothing has been sent: another worker, or one that comes back, or the end.
    unfoldable pub retry : Round f → StreamState → StreamFailure → Next
    retry a st e =
        let tried = insert st.target.id true st.tried in
        elim a.looks as (λ _. Next) [
          | [] ↦ unfinished
          | k ∷ ks ↦
              elim (select_worker_for_model f k.draw factor k.now tried q.model k.registry)
                as (λ _. Next) [
                  | some w ↦ again (record st { target = w; tried = tried })
                  | none ↦ elim a.recovered as (λ _. Next) [
                    | some w ↦ again (record st { target = w; tried = [] })
                    | none ↦
                        over
                          (stream_record (record st { resumes = 0 }) st.target.id (error_status e)
                            (error_reason_of e) a.elapsed no_usage none)
                          st.sent
                  ]
                ]
        ]

    -- The stream broke off after some of it was sent, and is not continued.
    unfoldable pub interrupted : Round f → StreamState → Segment → Next
    interrupted a st s =
        over
          (stream_record st st.target.id 200 "stream_interrupted" a.elapsed (s.writer).usage none)
          (st.sent ++ s.sent ++ (flush_held f ev segment_config s.writer).1)

    -- The client left: what it was sent is billed.
    unfoldable pub abandoned : Round f → StreamState → Segment → Next
    abandoned a st s =
        let u = metered_usage (st.delivered + (s.writer).delivered) in
        over (billed_as u (stream_record st st.target.id 200 "" a.elapsed u none))
          (st.sent ++ s.sent)

    unfoldable pub broke_off : Round f → StreamState → Segment → StreamFailure → Next
    broke_off a st s e =
        if not (st.client_started || (s.writer).wrote_header)
        then retry a st e
        else if a.client_gone && ltb 0 (st.delivered + (s.writer).delivered)
        then abandoned a st s
        else try_resume a st s (interrupted a st s)

    -- One turn of the loop.
    unfoldable pub round : Round f → StreamState → Next
    round a st =
        let s = run_segment a.upstream st.content in
        elim s.failure as (λ _. Next) [
          | some e ↦ broke_off a st s e
          | none ↦
              if (s.writer).stream_error /= ""
              then try_resume a st s (end_stream a st s)
              else end_stream a st s
        ]

    abbrev pub first_state : Worker → StreamState
    first_state target = record {
      target = target;
      tried = [];
      cur_body = body;
      content = "";
      resumes = 0;
      delivered = 0;
      client_started = false;
      sent = [];
    }

    unfoldable pub stream_loop : List (Round f) → StreamState → Option (Served f)
    stream_loop [] st = none
    stream_loop (a ∷ later) st = elim (round a st) [
      | over s sent ↦ some s
      | again st' ↦ stream_loop later st'
      | unfinished ↦ none
    ]

    unfoldable pub handle_streaming : List (Round f) → Worker → Option (Served f)
    handle_streaming rounds target = stream_loop rounds (first_state target)
