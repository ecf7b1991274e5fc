-- ===== src/Tests/Peers.antt =====
-- The two ends of rust/node-ipc/interop/node-peer.js.
use node_ipc.Base.{
  ◌+◌, ◌≡◌, refl, ℕ, ◌*◌, Bool, true, not, ◌==◌, ◌≤◌, ltb, if◌then◌else◌, ◌++◌, List, [], ◌∷◌,
  Option, none, some, arith,
}
use node_ipc.Text.{Text, text, byte_length}
use node_ipc.Json.{Value, str}
use node_ipc.Parser.{encode_fast}
use node_ipc.Interop.WireBytes.{wire_bytes_for_phase, exact, sum_from}
use node_ipc.Interop.WireBytes.Frames.{wire_bytes_for_phase-frames}
use node_ipc.Interop.{
  PeerOptions, default_options, max_safe_integer, request_data, request_event, response_event,
}
use node_ipc.Interop.Responder.{
  resolved, Session, new_session, expected_frames, on_request, on_ended, on_socket_ended,
}
use node_ipc.Interop.Responder.History.{Answered, begins, asked, ends, resolved-Answered}
use node_ipc.Interop.Responder.Serving.{serve_requests, requests_of}
use node_ipc.Interop.Responder.Rounds.{run_client, run_client-resolved}
use node_ipc.Interop.Window.Order.{up_to}
use node_ipc.Interop.Decimal.{decimal, value_from, decimal-value}
use node_ipc.Interop.Arguments.{parse_arguments}
use node_ipc.Interop.Ranges.{IsUsable, parse_arguments-IsUsable}
use node_ipc.Interop.Window.{Phase, Window, start_phase}
use node_ipc.Interop.Window.Progress.{Finished}
use node_ipc.Interop.Window.Completion.{
  answer_oldest, begin, answers, drive, Result, Run-ends, start_phase-Finished,
}

abbrev given : List Text
given =
    text "--mode"
    ∷ text "client"
    ∷ text "--warmup"
    ∷ text "2"
    ∷ text "--count"
    ∷ text "3"
    ∷ text "--json"
    ∷ text "--inflight"
    ∷ text "9"
    ∷ []

abbrev usable : PeerOptions
usable = record default_options {
  mode = text "client";
  warmup = 2;
  count = 3;
  inflight = 3;
  json = true;
}

parse_arguments-IsUsable_example : IsUsable usable
unfolding parse_arguments
parse_arguments-IsUsable_example = parse_arguments-IsUsable given {o = usable} refl refl

-- The literals of digits that denote safe integers.
abbrev read_number : Text → Option ℕ
read_number t = if ltb max_safe_integer (value_from 0 t) then none else some (value_from 0 t)

read_back : (n : ℕ) → n ≤ max_safe_integer → read_number (decimal n) ≡ some n
read_back n safe = rw (decimal-value n) (ground (arith, safe))

-- The second request fills the buffer of the socket.
abbrev fills : ℕ → Option Bool
fills n = some (not (n == 1))

abbrev phase : Phase
phase = record { count = 3; inflight = 2; payload = text "x"; record_latency = true }

abbrev times : ℕ → ℕ
times n = 10 * n

start_phase-Finished_example :
    Finished times fills phase
      (drive read_number times fills phase 14 (start_phase times fills phase))
start_phase-Finished_example =
    start_phase-Finished read_number times fills phase (λ n l. read_back n (omega (arith, l)))
      (λ n h. cc) (omega arith) (omega arith)

abbrev once_answered : Window
once_answered = answer_oldest read_number times fills phase (start_phase times fills phase)

Run-ends_example : Result read_number times fills phase 1 once_answered
unfolding start_phase
Run-ends_example =
    Run-ends read_number times fills phase (λ n l. read_back n (omega (arith, l))) (λ n h. cc)
      (omega arith) (omega arith) (answers begin refl (omega arith))

usable-IsUsable : IsUsable usable
unfolding parse_arguments
usable-IsUsable = parse_arguments-IsUsable given {o = usable} refl refl

run_client-resolved_example :
    ((on_socket_ended (
        serve_requests read_number usable
          (λ n. n == 3)
          (requests_of usable (run_client read_number times fills usable))
          new_session)).result
      ≡ some resolved)
    × ((on_socket_ended (
          serve_requests read_number usable
            (λ n. n == 3)
            (requests_of usable (run_client read_number times fills usable))
            new_session)).replies
        ≡ requests_of usable (up_to usable.warmup ++ up_to usable.count))
run_client-resolved_example =
    run_client-resolved read_number (λ n l. read_back n l) times fills (λ n h. cc) usable
      usable-IsUsable (λ n. n == 3)

-- A server of one request with an empty payload.
abbrev single : PeerOptions
single = record default_options { mode = text "server"; warmup = 0; count = 1; payload_bytes = 0 }

abbrev first_request : Value
first_request = request_data 0 []

abbrev over : Session
over = on_ended (on_request read_number single first_request (some true) new_session)

resolved-Answered_example :
    (over.frames ≡ expected_frames single) × Answered read_number single over.frames over.replies
unfolding on_request on_ended expected_frames request_data value_from
resolved-Answered_example =
    resolved-Answered read_number single (omega arith)
      (ends (asked first_request (some true) begins) refl) refl

-- Twelve short frames each way.
few_bytes :
    sum_from 0 12 (λ n.
      byte_length (encode_fast (12 ∷ []) (str request_event) (request_data n (text "x")))
      + byte_length (encode_fast (12 ∷ []) (str response_event) (request_data n (text "x"))))
    ≤ max_safe_integer
unfolding sum_from byte_length encode_fast request_data
few_bytes = omega arith

wire_bytes_for_phase-frames_example :
    wire_bytes_for_phase exact 12
      (text "x")
      (λ event data'. encode_fast (12 ∷ []) (str event) data')
    ≡ sum_from 0 12 (λ n.
      byte_length (encode_fast (12 ∷ []) (str request_event) (request_data n (text "x")))
      + byte_length (encode_fast (12 ∷ []) (str response_event) (request_data n (text "x"))))
wire_bytes_for_phase-frames_example =
    wire_bytes_for_phase-frames exact (12 ∷ []) (text "x") 12 (λ n h. refl) (omega arith)
      (omega arith) few_bytes
