-- ===== src/Server/Receiving.antt =====
-- `receive*`, `dispatch*`, the message timer and `protocolFailure` of dao/socketServer.js.
use node_ipc.Base.{ℕ, true, false, List, [], ◌∷◌, none, some, if◌then◌else◌}
use node_ipc.Text.{Text, text}
use node_ipc.Outcome.{
  Thrown, protocol, type_error, setup, foreign, message_timeout, Outcome, returned, threw, Run,
  and_then,
}
use node_ipc.Json.{Value, undefined, null, str, get, truthy}
use node_ipc.Parser.Reading.{read}
use node_ipc.Client.{Payload, value, bytes, failure, is_raw, has_timeout}
use node_ipc.Server.{Server, published, destroyed, emit_effect, publish, after_publish, set_peer}

-- `clearMessageTimer`
unfoldable pub clear_peer_timer : ℕ → Server → Server
clear_peer_timer k s = set_peer k (record (s.peers k) { message_timer = false }) s

-- `startMessageTimer`: a timer that runs is left to run.
unfoldable pub start_peer_timer : ℕ → Server → Server
start_peer_timer k s = set_peer k (record (s.peers k) { message_timer = true }) s

-- `socket.destroy?.()`: the peer of datagrams has no such method.
unfoldable pub destroy_peer : ℕ → Server → Server
destroy_peer k s = elim (s.peers k).origin [
  | some o ↦ s
  | none ↦
      emit_effect (destroyed k)
        (set_peer k (record (s.peers k) { is_destroyed = true; readable = false }) s)
]

-- `protocolFailure`
unfoldable pub peer_failure : ℕ → Thrown → Server → Server
unfolding destroy_peer
peer_failure k error s =
    publish "error" (failure error) none
      (destroy_peer k (set_peer k (record (s.peers k) { message_timer = false; buffer = [] }) s))

-- `message.data?.id`
unfoldable pub data_id : Value → Value
unfolding get
data_id undefined = undefined
data_id null = undefined
data_id d = get (text "id") d

-- `publish(type,data,socket)`, which is `emit` of event-pubsub: it throws a TypeError for a type that is no
-- string (test/suites/regression.js), and passes on what a subscriber throws.
unfoldable pub publish_typed_from : ℕ → Value → Payload → Run Server (Unit {0})
publish_typed_from k (str t) data' s =
    after_publish (emit_effect (published (str t) data' (some k)) s)
publish_typed_from k type data' s = (s, threw type_error)

-- `dispatchDirect`, and what `dispatchIdentified` does behind the `id`.
unfoldable pub publish_from : ℕ → Value → Run Server (Unit {0})
unfolding get publish_typed_from
publish_from k m s = publish_typed_from k (get (text "type") m) (value (get (text "data") m)) s

unfoldable pub identify : ℕ → Value → Server → Server
unfolding data_id get truthy
identify k m s =
    let id = data_id (get (text "data") m) in
    if truthy id then set_peer k (record (s.peers k) { id = id }) s else s

-- `dispatch`, as the constructor chooses it; the logged forms write a line to the log before. Reading a
-- property of null or undefined throws.
unfoldable pub dispatch_from : ℕ → Value → Run Server (Unit {0})
unfolding publish_from identify
dispatch_from k undefined s = (s, threw type_error)
dispatch_from k null s = (s, threw type_error)
dispatch_from k m s = publish_from k m (if s.config.identify_peer then identify k m s else s)

-- `receiveRaw`
unfoldable pub receive_raw_from : ℕ → List ℕ → Run Server (Unit {0})
receive_raw_from k chunk s = after_publish (publish "data" (bytes chunk) (some k) s)

-- `handleReadError`
unfoldable pub handle_peer_error : ℕ → Thrown → Run Server (Unit {0})
unfolding peer_failure
handle_peer_error k (protocol code) s = after_publish (peer_failure k (protocol code) s)
handle_peer_error k type_error s = (s, threw type_error)
handle_peer_error k (setup e) s = (s, threw (setup e))
handle_peer_error k (foreign e) s = (s, threw (foreign e))

unfoldable pub keep_peer_buffer : ℕ → Server × Outcome Text → Server × Outcome (Unit {0})
unfolding handle_peer_error
keep_peer_buffer k (s, returned rest) =
    (set_peer k (record (s.peers k) { buffer = rest }) s, returned tt)
keep_peer_buffer k (s, threw e) = handle_peer_error k e s

-- `receiveFramed`
unfoldable pub receive_framed_from : ℕ → Text → Run Server (Unit {0})
unfolding keep_peer_buffer dispatch_from
receive_framed_from k chunk s =
    keep_peer_buffer k (read s.parser (dispatch_from k) (s.peers k).buffer chunk s)

-- What `receiveGuarded` does behind `receiveFramed`.
unfoldable pub time_peer : ℕ → Server → Server
unfolding start_peer_timer clear_peer_timer
time_peer k s =
    if (s.peers k).is_destroyed
    then s
    else elim (s.peers k).buffer [ [] ↦ clear_peer_timer k s | u ∷ rest ↦ start_peer_timer k s ]

-- `receiveGuarded`
unfoldable pub receive_guarded_from : ℕ → Text → Run Server (Unit {0})
unfolding receive_framed_from time_peer
receive_guarded_from k chunk s =
    and_then (receive_framed_from k chunk s) (λ _ s'. (time_peer k s', returned tt))

-- `this.receive`, as the constructor chooses it.
unfoldable pub receive_from : ℕ → Text → Run Server (Unit {0})
unfolding receive_raw_from receive_guarded_from receive_framed_from
receive_from k chunk s =
    if is_raw s.parser
    then receive_raw_from k chunk s
    else if has_timeout s.parser
    then receive_guarded_from k chunk s
    else receive_framed_from k chunk s

-- The callback of the message timer.
unfoldable pub peer_timer_fired : ℕ → Run Server (Unit {0})
unfolding peer_failure
peer_timer_fired k s = after_publish (peer_failure k (protocol message_timeout) s)
