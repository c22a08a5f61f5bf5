-- ===== src/Gateway/Streaming/Charge.antt =====
-- src/internal/gateway/gateway.go with src/internal/settlement: what a streamed request keeps reserved is what the
-- settlement will charge for its record.
use openmodel_gateway.Prelude.{
  ℕ, ◌+◌, ltb, ◌≡◌, Bool, true, false, ◌&&◌, ◌||◌, not, List, [], ◌∷◌, String, Dict, Option, none,
  some, ◌==◌, ◌/=◌, nat_eq, string_eq, if◌then◌else◌, option-holds, if-holds, arith,
}
use openmodel_gateway.Worker.State.{Worker}
use openmodel_gateway.Settlement.Floats.{BigFloat}
use openmodel_gateway.Settlement.Records.{is_billable}
use openmodel_gateway.Settlement.Pricing.{Prices, record_cost}
use openmodel_gateway.Gateway.RateLimit.{Float64}
use openmodel_gateway.Gateway.RequestLog.Handover.{as_read}
use openmodel_gateway.Gateway.Proxy.{TokenUsage, ModelInfo, Asked, Served, actual_cost, clamp_usage}
use openmodel_gateway.Gateway.Proxy.Billing.{Ends, IsSettled}
use openmodel_gateway.Gateway.Receipt.{Crypto}
use openmodel_gateway.Gateway.Stream.{Events}
use openmodel_gateway.Gateway.Streaming.{
  Round, StreamConfig, StreamState, StreamFailure, Segment, Next, again, over, unfinished,
  run_segment, try_resume, end_stream, retry, interrupted, abandoned, broke_off, round, stream_loop,
  handle_streaming, first_state, end_record, billed_usage, stream_receipt,
}

module _ (f : Float64) (b : BigFloat) (prices : Prices b) (ev : Events f) (crypto : Crypto)
    (factor : f.F) (catalog : Option (Dict String ModelInfo)) (cfg : StreamConfig) (q : Asked)
    (body : List ℕ) where
  -- The record has a status of 200, or a reason why it failed.
  abbrev pub is_plain : Served f → Bool
  is_plain s = s.logged.status == 200 || s.logged.error_reason /= ""

  abbrev pub IsCharged : Served f → Type 0
  IsCharged s = is_plain s ≡ true → IsSettled f b prices q s

  abbrev OverHolds : Next f → Type 0
  OverHolds (again st) = Unit
  OverHolds (over s sent) = IsCharged s
  OverHolds unfinished = Unit

  try_resume-holds :
      (a : Round f) (st : StreamState) (s : Segment) (give_up : Next f)
      → OverHolds give_up
      → OverHolds (try_resume f ev crypto factor catalog cfg q body a st s give_up)
  unfolding try_resume
  try_resume-holds a st s give_up h = ground (arith, h)

  module _ (named : q.key.wallet /= "" ≡ true) where
    end_record-IsCharged :
        (st : StreamState) (broken : Bool) (status elapsed : ℕ) (u : TokenUsage)
        (sig : Option String)
        → IsCharged
            (end_record f ev crypto factor catalog cfg q body st broken status elapsed u sig)
    unfolding actual_cost is_billable as_read record_cost
    end_record-IsCharged st true status elapsed u sig h = ground (arith, h)
    end_record-IsCharged st false status elapsed u sig h = ground (arith, h, named)

    end_stream-holds :
        (a : Round f) (st : StreamState) (s : Segment)
        → OverHolds (end_stream f ev crypto factor catalog cfg q body a st s)
    unfolding end_stream
    end_stream-holds a st s =
        let u = clamp_usage catalog q.model (s.writer).usage in
        end_record-IsCharged st ((s.writer).stream_error /= "")
          (if s.status == 0 then 200 else s.status) a.elapsed
          (billed_usage f ev crypto factor catalog cfg q body st
            (st.delivered + (s.writer).delivered) u)
          (stream_receipt f ev crypto factor catalog cfg q body st s.writer u)

    interrupted-holds :
        (a : Round f) (st : StreamState) (s : Segment)
        → OverHolds (interrupted f ev crypto factor catalog cfg q body a st s)
    unfolding interrupted actual_cost is_billable as_read
    interrupted-holds a st s h = ground (arith, h)

    abandoned-holds :
        (a : Round f) (st : StreamState) (s : Segment)
        → OverHolds (abandoned f ev crypto factor catalog cfg q body a st s)
    unfolding abandoned actual_cost is_billable as_read record_cost
    abandoned-holds a st s h = ground (arith, h, named)

    retry-holds :
        (a : Round f) (st : StreamState) (e : StreamFailure)
        → OverHolds (retry f ev crypto factor catalog cfg q body a st e)
    unfolding retry actual_cost is_billable as_read
    retry-holds a st e = ground arith

    round-holds :
        (a : Round f) (st : StreamState)
        → OverHolds (round f ev crypto factor catalog cfg q body a st)
    unfolding round broke_off
    round-holds a st =
        let s = run_segment f ev crypto factor catalog cfg q body a.upstream st.content in
        option-holds {B = Next f} OverHolds s.failure
          (λ e.
            if-holds {A = Next f} OverHolds ((s.writer).stream_error /= "")
              (λ broke.
                try_resume-holds a st s (end_stream f ev crypto factor catalog cfg q body a st s)
                  (end_stream-holds a st s))
              (λ clean. end_stream-holds a st s))
          (λ e failed.
            if-holds {A = Next f} OverHolds (not (st.client_started || (s.writer).wrote_header))
              (λ fresh. retry-holds a st e)
              (λ begun.
                if-holds {A = Next f} OverHolds
                  (a.client_gone && ltb 0 (st.delivered + (s.writer).delivered))
                  (λ gone. abandoned-holds a st s)
                  (λ there.
                    try_resume-holds a st s
                      (interrupted f ev crypto factor catalog cfg q body a st s)
                      (interrupted-holds a st s))))

    stream_loop-holds :
        (rounds : List (Round f)) (st : StreamState)
        → Ends IsCharged (stream_loop f ev crypto factor catalog cfg q body rounds st)
    unfolding stream_loop
    stream_loop-holds [] st = tt
    stream_loop-holds (a ∷ more) st =
        later (λ st'. stream_loop-holds more st') (round f ev crypto factor catalog cfg q body a st)
          (round-holds a st)
      where
        later :
            ((s : StreamState)
              → Ends IsCharged (stream_loop f ev crypto factor catalog cfg q body more s))
            → (n : Next f) → OverHolds n
            → Ends IsCharged (elim n as (λ _. Option (Served f)) [
              | over s sent ↦ some s
              | again st' ↦ stream_loop f ev crypto factor catalog cfg q body more st'
              | unfinished ↦ none
            ])
        later rest (over s sent) h = h
        later rest (again st') h = rest st'
        later rest unfinished h = tt

    -- For a key with a wallet, however a streamed request ends with a record that has a status of 200 or a reason
    -- for its failure: the cost that stays reserved is the cost that the settlement computes from that record, or nothing where the record is
    -- not billable.
    pub handle_streaming-IsCharged :
        (rounds : List (Round f)) (target : Worker)
        → Ends IsCharged (handle_streaming f ev crypto factor catalog cfg q body rounds target)
    unfolding handle_streaming
    handle_streaming-IsCharged rounds target =
        stream_loop-holds rounds (first_state f ev crypto factor catalog cfg q body target)
