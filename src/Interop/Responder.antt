-- ===== src/Interop/Responder.antt =====
-- `runServer` of rust/node-ipc/interop/node-peer.js: its variables, and what each event does to them. What
-- it reports, and when it began, are left out.
pub mod History
pub mod Serving
pub mod Rounds
use node_ipc.Base.{
  ℕ, suc, ◌+◌, ◌-◌, Bool, true, false, not, ◌&&◌, ◌||◌, List, [], ◌∷◌, ◌++◌, Option, none, some,
  ltb, ◌==◌, if◌then◌else◌,
}
use node_ipc.Text.{Text}
use node_ipc.Json.{Value}
use node_ipc.Interop.{PeerOptions, repeat_x}
use node_ipc.Interop.Payload.{Complaint, validate_payload}

pub data Failure : Type 0 where
  complains : Complaint → Failure
  disconnected : ℕ → ℕ → Failure
  reported : Failure

-- How the promise settles.
pub data Settlement : Type 0 where
  resolved : Settlement
  rejected : Failure → Settlement

pub record Session : Type 0 where
  pub frames : ℕ
  pub finishing : Bool
  pub settled : Bool
  pub paused : Bool
  -- Whether `stop` of the server was called, and what the promise has settled as.
  pub stopped : Bool
  pub result : Option Settlement
  pub replies : List Value

abbrev pub new_session : Session
new_session = record {
  frames = 0;
  finishing = false;
  settled = false;
  paused = false;
  stopped = false;
  result = none;
  replies = [];
}

unfoldable pub expected_frames : PeerOptions → ℕ
expected_frames o = o.warmup + o.count

-- `frames < options.warmup ? frames : frames-options.warmup`
unfoldable pub expected_sequence : PeerOptions → ℕ → ℕ
expected_sequence o frames = if ltb frames o.warmup then frames else frames - o.warmup

-- `fail`
unfoldable pub fail_session : Failure → Session → Session
fail_session e s =
    if s.settled then s else record s { settled = true; stopped = true; result = some (rejected e) }

-- What the handler does behind the `emit` that returned.
unfoldable pub replied : PeerOptions → Bool → Session → Session
unfolding expected_frames
replied o writable s =
    if not (s.frames == expected_frames o)
    then (if not writable && not s.paused then record s { paused = true } else s)
    else record s { finishing = true }

-- `emit` of the response, which may throw.
unfoldable pub reply : PeerOptions → Value → Option Bool → Session → Session
unfolding replied fail_session
reply o data' none s = fail_session reported s
reply o data' (some writable) s =
    replied o writable (record s { replies = s.replies ++ data' ∷ [] })

module _ (number_of : Text → Option ℕ) where
  unfoldable pub answer : PeerOptions → Option Complaint → Value → Option Bool → Session → Session
  unfolding reply fail_session
  answer o (some e) data' sent s = fail_session (complains e) s
  answer o none data' sent s = reply o data' sent (record s { frames = suc s.frames })

  -- The handler of a request; `sent` is what `emit` returns, if it does not throw.
  unfoldable pub on_request : PeerOptions → Value → Option Bool → Session → Session
  unfolding answer validate_payload expected_sequence repeat_x
  on_request o data' sent s =
      if s.settled || s.finishing
      then s
      else answer o
          (validate_payload number_of data' (some (expected_sequence o s.frames))
            (repeat_x o.payload_bytes))
          data' sent s

-- The handler of `close`.
unfoldable pub on_closed : PeerOptions → Session → Session
unfolding fail_session expected_frames
on_closed o s =
    if not s.settled && not s.finishing
    then fail_session (disconnected s.frames (expected_frames o)) s
    else s

-- The callback of `socket.end`.
unfoldable pub on_ended : Session → Session
on_ended s = if s.settled then s else record s { settled = true; result = some resolved }

-- The end of the socket, which is asked for only when the server is finishing.
unfoldable pub on_socket_ended : Session → Session
unfolding on_ended
on_socket_ended s = if s.finishing then on_ended s else s

-- The handler of `drain`.
unfoldable pub on_drained : Session → Session
on_drained s = record s { paused = false }
