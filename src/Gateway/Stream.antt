-- ===== src/Gateway/Stream.antt =====
-- src/internal/gateway/gateway.go, `sseCaptureWriter`: the writer between a worker's stream of events and the
-- client. The decoder of a content delta and of the receipt event is a parameter, and so is `bytes.TrimSpace`.
pub mod Chunks
pub mod Metering
use openmodel_gateway.Prelude.{
  ℕ, zero, suc, ◌+◌, ◌-◌, Bool, true, false, ◌&&◌, ◌||◌, not, List, [], ◌∷◌, ◌++◌, String, Option,
  none, some, ◌==◌, nat_eq, string_eq, if◌then◌else◌, ltb, is_some, drop, length,
}
use openmodel_gateway.Prelude.Int.{ℤ, pos, pos_part, ◌+ℤ◌, ◌-ℤ◌, is_pos}
use openmodel_gateway.Settlement.Leaves.{bytes_of}
use openmodel_gateway.Settlement.Scanner.{newline}
use openmodel_gateway.Gateway.RateLimit.{Float64}
use openmodel_gateway.Gateway.Proxy.{TokenUsage, no_usage}
use openmodel_gateway.Gateway.Receipt.{append_text}
use openmodel_gateway.Gateway.Body.{Parser, extract_usage, error_message}

-- `bytes.HasPrefix`
abbrev pub starts_with : List ℕ → List ℕ → Bool
starts_with [] xs = true
starts_with (p ∷ ps) [] = false
starts_with (p ∷ ps) (x ∷ xs) = p == x && starts_with ps xs

-- `bytes.Contains`
abbrev pub holds : List ℕ → List ℕ → Bool
holds p [] = starts_with p []
holds p (x ∷ xs) = starts_with p (x ∷ xs) || holds p xs

abbrev pub same_bytes : List ℕ → List ℕ → Bool
same_bytes [] [] = true
same_bytes (x ∷ xs) (y ∷ ys) = x == y && same_bytes xs ys
same_bytes _ _ = false

abbrev pub is_blank : List ℕ → Bool
is_blank [] = true
is_blank (x ∷ xs) = false

abbrev pub done_line : List ℕ
done_line = bytes_of "data: [DONE]"

abbrev pub data_prefix : List ℕ
data_prefix = bytes_of "data: "

-- The decoders of an event: the contents of its deltas, and the receipt in it.
pub record Events (f : Float64) : Type 0 where
  pub parser : Parser f
  pub trim : List ℕ → List ℕ
  pub deltas : List ℕ → List String
  pub receipt_of : List ℕ → Option (List ℕ)

-- The settings of one segment of a stream.
pub record SegmentConfig : Type 0 where
  pub filter : Bool
  pub forward_receipt : Bool
  pub content_cap : ℕ

-- `content` is the text that is delivered, over all segments.
pub record CaptureWriter : Type 0 where
  pub wrote_header : Bool
  pub usage : TokenUsage
  pub stream_error : String
  pub delivered : ℕ
  pub pend : List ℕ
  pub held_error : List ℕ
  pub held_done : Bool
  pub last_suppressed : Bool
  pub content : String
  pub overflow : Bool
  pub receipt : Option (List ℕ)

-- The writer at the start of a segment, after the text of those before.
abbrev pub new_writer : String → CaptureWriter
new_writer content = record {
  wrote_header = false;
  usage = no_usage;
  stream_error = "";
  delivered = 0;
  pend = [];
  held_error = [];
  held_done = false;
  last_suppressed = false;
  content = content;
  overflow = false;
  receipt = none;
}

-- The lines of a text, each with its newline, and what is left after the last one.
unfoldable pub split_lines : List ℕ → List (List ℕ) × List ℕ
split_lines [] = ([], [])
split_lines (x ∷ xs) =
    let rest = split_lines xs in
    if x == newline
    then ((x ∷ []) ∷ rest.0, rest.1)
    else (elim (rest.0) as (λ _. List (List ℕ) × List ℕ) [
      | [] ↦ ([], x ∷ rest.1)
      | l ∷ ls ↦ ((x ∷ l) ∷ ls, rest.1)
    ])

-- `if w.streamError == "" { w.streamError = msg }`
abbrev first_error : String → String → String
first_error before msg = if before == "" then msg else before

module _ (f : Float64) (ev : Events f) (c : SegmentConfig) where
  -- The text of one delta: counted, and kept while there is room.
  unfoldable pub take_delta : String → CaptureWriter → CaptureWriter
  take_delta s w =
      let fits = not (ltb c.content_cap (ev.parser.size_of w.content + ev.parser.size_of s)) in
      if s == "" then w else record w {
        delivered = suc w.delivered;
        content = if not w.overflow && fits then append_text w.content s else w.content;
        overflow = w.overflow || not fits;
      }

  unfoldable pub take_deltas : List String → CaptureWriter → CaptureWriter
  take_deltas [] w = w
  take_deltas (s ∷ ss) w = take_deltas ss (take_delta s w)

  abbrev pub with_usage : List ℕ → CaptureWriter → CaptureWriter
  with_usage payload w =
      let u = extract_usage f ev.parser payload in
      if is_pos u.total_tokens then record w { usage = u } else w

  abbrev pub receipt_in : List ℕ → Option (List ℕ)
  receipt_in payload =
      if holds (bytes_of "\"om_receipt\"") payload then ev.receipt_of payload else none

  abbrev pub error_in : List ℕ → Option String
  error_in payload =
      if holds (bytes_of "\"error\"") payload then error_message f ev.parser payload else none

  -- A line of data: the writer, and what of the line goes to the client.
  unfoldable pub process_data : List ℕ → List ℕ → CaptureWriter → CaptureWriter × List ℕ
  process_data line payload w =
      let seen : CaptureWriter = with_usage payload w in
      elim (receipt_in payload) as (λ _. CaptureWriter × List ℕ) [
        | some r ↦ (
          record seen { receipt = some r; last_suppressed = not c.forward_receipt },
          if c.forward_receipt then line else [],
        )
        | none ↦ elim (error_in payload) as (λ _. CaptureWriter × List ℕ) [
          | some msg ↦ (
            record seen {
              stream_error = first_error seen.stream_error msg;
              held_error = line;
              last_suppressed = true;
            },
            [],
          )
          | none ↦ (record (take_deltas (ev.deltas payload) seen) { last_suppressed = false }, line)
        ]
      ]

  unfoldable pub process_line : List ℕ → CaptureWriter → CaptureWriter × List ℕ
  process_line line w =
      let t = ev.trim line in
      if is_blank t
      then if w.last_suppressed then (record w { last_suppressed = false }, []) else (w, line)
      else if same_bytes t done_line
      then (record w { held_done = true; last_suppressed = true }, [])
      else if starts_with data_prefix t
      then process_data line (drop 6 t) w
      else (record w { last_suppressed = false }, line)

  unfoldable pub process_lines : List (List ℕ) → CaptureWriter → CaptureWriter × List ℕ
  process_lines [] w = (w, [])
  process_lines (l ∷ ls) w =
      let one = process_line l w in let rest = process_lines ls one.0 in (rest.0, one.1 ++ rest.1)

  -- `Write` while events are held back: the partial line at the end waits for its rest.
  unfoldable pub write_filtered : List ℕ → CaptureWriter → CaptureWriter × List ℕ
  write_filtered b w =
      let cut = split_lines (w.pend ++ b) in
      let out = process_lines cut.0 (record w { wrote_header = true; pend = [] }) in
      (record (out.0) { pend = cut.1 }, out.1)

  abbrev pending_tail : CaptureWriter → List ℕ
  pending_tail w = if is_blank w.pend then [] else w.pend ++ newline ∷ []

  abbrev held_tail : CaptureWriter → List ℕ
  held_tail w = if is_blank w.held_error then [] else w.held_error ++ newline ∷ []

  -- What ends the stream where it cannot be resumed.
  unfoldable pub flush_held : CaptureWriter → CaptureWriter × List ℕ
  flush_held w = if not c.filter then (w, []) else (
    record w { pend = []; held_error = [] },
    pending_tail w ++ held_tail w ++ done_line ++ newline ∷ newline ∷ [],
  )

  unfoldable pub finish_clean : CaptureWriter → CaptureWriter × List ℕ
  finish_clean w =
      if not c.filter
      then (w, [])
      else (record w { pend = [] }, pending_tail w ++ done_line ++ newline ∷ newline ∷ [])

-- How often a text occurs, each time after the end of the last; `skip` bytes belong to the last one.
abbrev count_from : List ℕ → ℕ → List ℕ → ℕ
count_from p skip [] = 0
count_from p (suc n) (x ∷ xs) = count_from p n xs
count_from p zero (x ∷ xs) =
    let here = count_from p (length p - 1) xs in
    let later = count_from p 0 xs in if starts_with p (x ∷ xs) then suc here else later

-- `bytes.Count`
unfoldable pub count_bytes : List ℕ → List ℕ → ℤ
count_bytes p xs = pos (count_from p 0 xs)

-- The deltas in the raw bytes, in both spacings of JSON.
unfoldable pub count_content_deltas : List ℕ → ℤ
count_content_deltas b =
    count_bytes (bytes_of "\"content\":\"") b
    -ℤ count_bytes (bytes_of "\"content\":\"\"") b
    +ℤ count_bytes (bytes_of "\"content\": \"") b
    -ℤ count_bytes (bytes_of "\"content\": \"\"") b

-- `bytes.Split` at newlines.
unfoldable pub pieces : List ℕ → List (List ℕ)
pieces [] = [] ∷ []
pieces (x ∷ xs) =
    let rest = pieces xs in
    if x == newline
    then [] ∷ rest
    else (elim rest as (λ _. List (List ℕ)) [ [] ↦ (x ∷ []) ∷ [] | l ∷ ls ↦ (x ∷ l) ∷ ls ])

module _ (f : Float64) (ev : Events f) (c : SegmentConfig) where
  -- The first error event of the stream is kept.
  abbrev with_error : List ℕ → CaptureWriter → CaptureWriter
  with_error payload w =
      if w.stream_error == ""
      then (elim (error_in f ev c payload) as (λ _. CaptureWriter) [
        | none ↦ w
        | some msg ↦ record w { stream_error = msg }
      ])
      else w

  unfoldable pub scan_lines : List (List ℕ) → CaptureWriter → CaptureWriter
  scan_lines [] w = w
  scan_lines (l ∷ ls) w =
      let t = ev.trim l in
      scan_lines ls (
        if starts_with data_prefix t && not (same_bytes t done_line)
        then with_error (drop 6 t) (with_usage f ev c (drop 6 t) w)
        else w)

  -- `Write` where nothing is held back: the bytes are scanned and passed on.
  unfoldable pub write_through : List ℕ → CaptureWriter → CaptureWriter × List ℕ
  write_through b w =
      let counted : CaptureWriter = record w {
        wrote_header = true;
        delivered = w.delivered + pos_part (count_content_deltas b);
      } in
      (
        if holds (bytes_of "\"usage\"") b || holds (bytes_of "\"error\"") b
            then scan_lines (pieces b) counted
            else counted,
        b,
      )

  unfoldable pub write : List ℕ → CaptureWriter → CaptureWriter × List ℕ
  write b w = if c.filter then write_filtered f ev c b w else write_through b w

  -- The writes of a segment, one after the other.
  unfoldable pub write_all : List (List ℕ) → CaptureWriter → CaptureWriter × List ℕ
  write_all [] w = (w, [])
  write_all (b ∷ bs) w =
      let one = write b w in let rest = write_all bs one.0 in (rest.0, one.1 ++ rest.1)
