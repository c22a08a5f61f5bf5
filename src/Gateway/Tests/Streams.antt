-- ===== src/Gateway/Tests/Streams.antt =====
-- Instances of the theorems on streams.
use openmodel_gateway.Prelude.{
  ℕ, ◌≡◌, ◌≤◌, refl, true, false, List, [], ◌∷◌, ◌++◌, none, some, ◌==◌, nat_eq, string_eq, filterb,
  not,
}
use openmodel_gateway.Prelude.Int.{pos, ◌-ℤ◌}
use openmodel_gateway.Settlement.Leaves.{bytes_of}
use openmodel_gateway.Worker.State.{Worker, has_feature}
use openmodel_gateway.Gateway.Tests.{whole, fleet}
use openmodel_gateway.Gateway.Tests.Requests.{exact, prices, asked, catalog, worker_a}
use openmodel_gateway.Gateway.Tests.Receipts.{toy_crypto}
use openmodel_gateway.Worker.Registry.Views.{list}
use openmodel_gateway.Gateway.Router.{
  select_worker_for_model, sort_workers, pick_sorted, prefers_switch, weighted_pick,
}
use openmodel_gateway.Gateway.Proxy.Billing.{Ends}
use openmodel_gateway.Gateway.Body.{
  Parser, error_message, field, set_field, extract_int, extract_usage, int_from_json,
  with_continuation, no_members, member, object, text,
}
use openmodel_gateway.Gateway.Stream.{
  Events, SegmentConfig, new_writer, write_filtered, write_all, write, split_lines, process_line,
  process_lines, process_data, take_deltas, take_delta,
}
use openmodel_gateway.Gateway.Stream.Chunks.{write-append}
use openmodel_gateway.Gateway.Stream.Metering.{IsSent, write_all-IsSent}
use openmodel_gateway.Gateway.Streaming.{
  run_segment, try_resume, find_continuation, orig_max_tokens, Round, Look, Upstream, streamed,
  transport, StreamConfig, StreamState, handle_streaming, round, again, first_state,
}
use openmodel_gateway.Gateway.Streaming.Charge.{IsCharged, handle_streaming-IsCharged}
use openmodel_gateway.Gateway.Streaming.Resumption.{first, turn, IsInStep, IsAsked, Reached-IsFine}

-- Every object is an error event; every event has the text "hi".
abbrev toy_parser : Parser whole
toy_parser = record {
  object_of = λ bytes.
      some (member "error" (object (member "message" (text "mining") no_members)) no_members);
  print = λ m. 1 ∷ [];
  size_of = λ s. 2;
}

abbrev toy_events : Events whole
toy_events = record {
  parser = toy_parser;
  trim = filterb (λ x. not (x == 10));
  deltas = λ payload. "hi" ∷ "" ∷ [];
  receipt_of = λ payload. none;
}

abbrev held_back : SegmentConfig
held_back = record { filter = true; forward_receipt = false; content_cap = 100 }

-- An event in two writes, an error event, and the end of the stream.
abbrev writes : List (List ℕ)
writes =
    bytes_of "data: 1\n\nda"
    ∷ bytes_of "ta: 2\n\n"
    ∷ bytes_of "data: \"error\"\n\ndata: [DONE]\n\n"
    ∷ []

write-append_example :
    write whole toy_events held_back
      (bytes_of "data: 1\n\nda" ++ bytes_of "ta: 2\n\n")
      (new_writer "")
    ≡ (
      (write whole toy_events held_back
          (bytes_of "ta: 2\n\n")
          (write whole toy_events held_back (bytes_of "data: 1\n\nda") (new_writer "")).0).0,
      (write whole toy_events held_back (bytes_of "data: 1\n\nda") (new_writer "")).1
          ++ (write whole toy_events held_back
              (bytes_of "ta: 2\n\n")
              (write whole toy_events held_back (bytes_of "data: 1\n\nda") (new_writer "")).0).1,
    )
write-append_example =
    write-append whole toy_events held_back refl (bytes_of "data: 1\n\nda") (bytes_of "ta: 2\n\n")
      (new_writer "")

write_all-IsSent_example :
    IsSent whole toy_events held_back
      (new_writer "")
      (write_all whole toy_events held_back writes (new_writer "")).1
      (write_all whole toy_events held_back writes (new_writer "")).0
write_all-IsSent_example =
    write_all-IsSent whole toy_events held_back refl refl writes (new_writer "")

-- The client is sent the two events, and not what end_record the stream.
writes_sent :
    (write_all whole toy_events held_back writes (new_writer "")).1
    ≡ bytes_of "data: 1\n\ndata: 2\n\n"
unfolding write_all write write_filtered split_lines process_lines process_line process_data
    take_deltas take_delta error_message field
writes_sent = refl

abbrev resuming : StreamConfig
resuming = record {
  stream_resume = true;
  max_resumes = 2;
  default_max_tokens = none;
  forward_receipt = false;
}

abbrev look : Look whole
look = record { draw = pos 0; now = 5; registry = record fleet { workers = [] } }

-- A worker that can go on with a text, and is back from mining.
abbrev worker_c : Worker
worker_c = record worker_a { id = "c"; features = "continuation" ∷ [] }

abbrev answered_by : Upstream → Round whole
answered_by u = record {
  upstream = u;
  elapsed = 3;
  client_gone = false;
  in_time = true;
  looks = look ∷ look ∷ [];
  recovered = some worker_c;
}

-- A stream that an error event breaks, and one that ends before its connection does.
abbrev broken : Round whole
broken =
    answered_by (streamed 200 (bytes_of "data: 1\n\n" ∷ bytes_of "data: \"error\"\n\n" ∷ []) none)

abbrev whole_one : Round whole
whole_one =
    answered_by (streamed 200 (bytes_of "data: 2\n\ndata: [DONE]\n\n" ∷ []) (some transport))

handle_streaming-IsCharged_example :
    Ends
      (IsCharged whole exact prices toy_events toy_crypto (pos 0) (some catalog) resuming asked [])
      (handle_streaming whole toy_events toy_crypto
        (pos 0)
        (some catalog)
        resuming
        asked
        []
        (broken ∷ whole_one ∷ [])
        worker_a)
handle_streaming-IsCharged_example =
    handle_streaming-IsCharged whole exact prices toy_events toy_crypto (pos 0) (some catalog)
      resuming asked [] refl (broken ∷ whole_one ∷ []) worker_a

abbrev resumed : StreamState
resumed = record {
  target = worker_c;
  tried = ("a", true) ∷ [];
  cur_body = 1 ∷ [];
  content = "hi";
  resumes = 1;
  delivered = 1;
  client_started = true;
  sent = bytes_of "data: 1\n\n";
}

is_resumed :
    round whole toy_events toy_crypto
      (pos 0)
      (some catalog)
      resuming
      asked
      []
      broken
      (first_state whole toy_events toy_crypto (pos 0) (some catalog) resuming asked [] worker_a)
    ≡ again resumed
unfolding round run_segment write_all write write_filtered split_lines process_lines process_line
    process_data take_deltas take_delta error_message field try_resume find_continuation
    orig_max_tokens with_continuation extract_int int_from_json set_field extract_usage has_feature
    select_worker_for_model sort_workers pick_sorted prefers_switch weighted_pick list ◌-ℤ◌
is_resumed = refl

Reached-IsFine_example :
    IsInStep whole toy_events toy_crypto (pos 0) (some catalog) resuming asked [] resumed
    × IsAsked whole toy_events toy_crypto (pos 0) (some catalog) resuming asked [] resumed
    × (1 ≤ 2)
Reached-IsFine_example =
    Reached-IsFine whole toy_events toy_crypto (pos 0) (some catalog) resuming asked [] refl refl
      resumed
      (turn broken
        (first_state whole toy_events toy_crypto (pos 0) (some catalog) resuming asked [] worker_a)
        resumed (first worker_a) is_resumed)
