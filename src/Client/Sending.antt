-- ===== src/Client/Sending.antt =====
-- `emit`, `sendQueued`, `writeDirect` and `writeGuarded` of dao/client.js.
use node_ipc.Base.{ℕ, ◌+◌, List, [], Option, none, some, ltb, if◌then◌else◌, length}
use node_ipc.Text.{Text, byte_length}
use node_ipc.Outcome.{protocol, type_error, backpressure, Outcome, returned, threw, Run, and_then}
use node_ipc.Json.{Value}
use node_ipc.Parser.{Parser, raw, Wire, packet, chars, encode, encode_raw}
use node_ipc.Client.{Client, written, queued, update, emit_effect, max_pending, after_publish}
use node_ipc.Client.Receiving.{protocol_failure}

-- What a write returns: false for a write that is refused, what `socket.write` says, or the true of
-- `sendQueued`.
pub data Sent : Type 0 where
  not_sent handed_over in_queue : Sent

-- The bytes of a message: those of a Buffer, or of a string in UTF-8, which framed parsers use.
unfoldable pub size : Wire → ℕ
unfolding byte_length
size (packet b) = length b
size (chars s) = byte_length s

-- What a message that waits adds to `socket.writableLength`: the bytes of a Buffer, but the UTF-16 units
-- of a string, since a net.Socket queues strings without decoding them.
unfoldable pub queued_length : Wire → ℕ
queued_length (packet b) = length b
queued_length (chars s) = length s

-- `socket.write(message)`
unfoldable pub write_to : ℕ → Wire → Client → Client
unfolding queued_length
write_to id m c =
    let s = c.sockets id in
    emit_effect (written id m) (record c {
      sockets =
          update c.sockets id (record s { writable_length = s.writable_length + queued_length m });
    })

-- `writeDirect` and `writeGuarded`, as `maxPendingBytes` has it. The initial `socket` is false, which
-- has no method `write`.
unfoldable pub write_bounded : Option ℕ → Option ℕ → Wire → Run Client Sent
unfolding write_to size protocol_failure
write_bounded bound none m c = (c, threw type_error)
write_bounded none (some id) m c = (write_to id m c, returned handed_over)
write_bounded (some n) (some id) m c =
    if ltb n ((c.sockets id).writable_length + size m)
    then and_then (after_publish (protocol_failure id (protocol backpressure) c))
        (λ _ c'. (c', returned not_sent))
    else (write_to id m c, returned handed_over)

-- `writeSocket`
unfoldable pub write_socket : Wire → Run Client Sent
unfolding write_bounded max_pending
write_socket m c = write_bounded (max_pending c.parser) c.socket m c

-- `send`: with `config.sync` the write waits in the queue, which runs `writeSocket` later.
unfoldable pub send : Wire → Run Client Sent
unfolding write_socket
send m c = if c.config.sync then (emit_effect (queued m) c, returned in_queue) else write_socket m c

unfoldable pub send_encoded : Outcome Text → Run Client Sent
unfolding send
send_encoded (returned frame) c = send (chars frame) c
send_encoded (threw e) c = (c, threw e)

-- `emit(type,data)` with a framed parser; the logged form writes a line to the log before.
unfoldable pub emit : Value → Value → Run Client Sent
unfolding send_encoded encode
emit type data' c = send_encoded (encode c.parser type data') c

unfoldable pub raw_encoding : Parser → Text
raw_encoding (raw encoding) = encoding
raw_encoding _ = []

-- `emit(value)` with the raw parser; `bytes_of` is `Buffer.from(value,encoding)`.
unfoldable pub emit_raw : (Text → Text → List ℕ) → Wire → Run Client Sent
unfolding send encode_raw raw_encoding
emit_raw bytes_of m c = send (encode_raw bytes_of (raw_encoding c.parser) m) c
