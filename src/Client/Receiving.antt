-- ===== src/Client/Receiving.antt =====
-- `receiveRaw`, `receiveFramed`, `receiveGuarded`, the message timer and `protocolFailure` of
-- dao/client.js.

use node_ipc.Base.{ℕ, true, false, List, [], ◌∷◌, if◌then◌else◌}
use node_ipc.Text.{Text, text}
use node_ipc.Outcome.{
  Thrown, protocol, type_error, setup, foreign, message_timeout, Outcome, returned, threw, Run,
  and_then,
}
use node_ipc.Json.{Value, undefined, null, str, get}
use node_ipc.Parser.Reading.{read}
use node_ipc.Client.{
  Client, Socket, Payload, published, queue_next, destroyed, value, bytes, failure, update,
  emit_effect, publish, after_publish, is_raw, has_timeout,
}

abbrev pub set_socket : ℕ → Socket → Client → Client
set_socket id s c = record c { sockets = update c.sockets id s }

-- `clearMessageTimer`
unfoldable pub clear_message_timer : ℕ → Client → Client
clear_message_timer id c = set_socket id (record (c.sockets id) { message_timer = false }) c

-- `startMessageTimer`: a timer that runs is left to run.
unfoldable pub start_message_timer : ℕ → Client → Client
start_message_timer id c = set_socket id (record (c.sockets id) { message_timer = true }) c

-- `socket.destroy()`
unfoldable pub destroy : ℕ → Client → Client
destroy id c =
    emit_effect (destroyed id) (set_socket id (record (c.sockets id) { is_destroyed = true }) c)

-- `protocolFailure`
unfoldable pub protocol_failure : ℕ → Thrown → Client → Client
unfolding destroy
protocol_failure id error c =
    let emptied =
      set_socket id (record (c.sockets id) { message_timer = false; buffer = [] })
        (record c { protocol_violation = true }) in
    publish "error" (failure error) (destroy id emptied)

-- `publish(type,data)`, which is `emit` of event-pubsub: it throws a TypeError for a type that is no string
-- (test/suites/regression.js), and passes on what a subscriber throws.
unfoldable pub publish_typed : Value → Payload → Run Client (Unit {0})
publish_typed (str t) data' c = after_publish (emit_effect (published (str t) data') c)
publish_typed type data' c = (c, threw type_error)

-- `publish(message.type,message.data)`; reading a property of null or undefined throws.
unfoldable pub publish_message : Value → Run Client (Unit {0})
unfolding get publish_typed
publish_message undefined c = (c, threw type_error)
publish_message null c = (c, threw type_error)
publish_message m c = publish_typed (get (text "type") m) (value (get (text "data") m)) c

-- `dispatchDirect` and `dispatchSync`; their logged forms write a line to the log before that.
unfoldable pub dispatch : Value → Run Client (Unit {0})
unfolding publish_message
dispatch m c =
    and_then (publish_message m c)
      (λ _ c'. (if c'.config.sync then emit_effect queue_next c' else c', returned tt))

-- `receiveRaw` and `receiveRawSync`
unfoldable pub receive_raw : List ℕ → Run Client (Unit {0})
receive_raw chunk c =
    and_then (after_publish (publish "data" (bytes chunk) c))
      (λ _ c'. (if c'.config.sync then emit_effect queue_next c' else c', returned tt))

-- `handleReadError`
unfoldable pub handle_read_error : ℕ → Thrown → Run Client (Unit {0})
unfolding protocol_failure
handle_read_error id (protocol code) c = after_publish (protocol_failure id (protocol code) c)
handle_read_error id type_error c = (c, threw type_error)
handle_read_error id (setup e) c = (c, threw (setup e))
handle_read_error id (foreign e) c = (c, threw (foreign e))

unfoldable pub keep_buffer : ℕ → Client × Outcome Text → Client × Outcome (Unit {0})
unfolding handle_read_error
keep_buffer id (c, returned rest) =
    (set_socket id (record (c.sockets id) { buffer = rest }) c, returned tt)
keep_buffer id (c, threw e) = handle_read_error id e c

unfoldable pub receive_framed : ℕ → Text → Run Client (Unit {0})
unfolding keep_buffer dispatch
receive_framed id chunk c = keep_buffer id (read c.parser dispatch (c.sockets id).buffer chunk c)

-- What `receiveGuarded` does behind `receiveFramed`.
unfoldable pub time_message : ℕ → Client → Client
unfolding start_message_timer clear_message_timer
time_message id c = if (c.sockets id).is_destroyed then c else elim (c.sockets id).buffer [
  | [] ↦ clear_message_timer id c
  | u ∷ rest ↦ start_message_timer id c
]

unfoldable pub receive_guarded : ℕ → Text → Run Client (Unit {0})
unfolding receive_framed time_message
receive_guarded id chunk c =
    and_then (receive_framed id chunk c) (λ _ c'. (time_message id c', returned tt))

-- `this.receive`, as the constructor chooses it. A raw socket has no encoding, so its data are bytes.
unfoldable pub receive : ℕ → Text → Run Client (Unit {0})
unfolding receive_raw receive_guarded receive_framed
receive id chunk c =
    if is_raw c.parser
    then receive_raw chunk c
    else if has_timeout c.parser
    then receive_guarded id chunk c
    else receive_framed id chunk c

-- The callback of the message timer.
unfoldable pub message_timer_fired : ℕ → Run Client (Unit {0})
unfolding protocol_failure
message_timer_fired id c = after_publish (protocol_failure id (protocol message_timeout) c)
