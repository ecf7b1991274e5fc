-- ===== src/Server/Sending.antt =====
-- `emit*`, `broadcast*` and the writes of dao/socketServer.js. With a parser of the library messages of
-- datagrams are Buffers or UTF-8 strings, so `writeDatagram` is `writeDatagramDirect`.
use node_ipc.Base.{
  ℕ, zero, suc, ◌+◌, Bool, true, false, ◌&&◌, List, [], ◌∷◌, Option, none, some, ltb, ◌==◌,
  if◌then◌else◌,
}
use node_ipc.Text.{Text}
use node_ipc.Outcome.{
  Thrown, protocol, type_error, foreign, backpressure, Outcome, returned, threw, Run, and_then,
  each,
}
use node_ipc.Json.{Value}
use node_ipc.Parser.{Wire, chars, packet, encode, encode_raw}
use node_ipc.Client.{failure, max_pending}
use node_ipc.Client.Sending.{size, queued_length, raw_encoding}
use node_ipc.Server.{
  Server, Peer, Origin, written, datagram, emit_effect, publish, after_publish, set_peer,
}
use node_ipc.Server.Receiving.{peer_failure}

-- `socket.write(message)` on a stream; the peer of datagrams has no such method.
unfoldable pub write_peer : ℕ → Wire → Run Server Bool
unfolding queued_length
write_peer k m s = elim (s.peers k).origin [
  | some o ↦ (s, threw type_error)
  | none ↦
      let p = s.peers k in
      (
        emit_effect (written k m)
            (set_peer k (record p { writable_length = p.writable_length + queued_length m }) s),
        returned true,
      )
]

-- `writeStreamDirect` and `writeStreamGuarded`, as `maxPendingBytes` has it. What `socket.write` itself
-- returns is taken to be true.
unfoldable pub write_stream : Option ℕ → ℕ → Wire → Run Server Bool
unfolding write_peer size peer_failure
write_stream none k m s = write_peer k m s
write_stream (some n) k m s =
    if ltb n ((s.peers k).writable_length + size m)
    then and_then (after_publish (peer_failure k (protocol backpressure) s))
        (λ _ s'. (s', returned false))
    else write_peer k m s

-- The loop of `writeAllStreams`, over the sockets.
unfoldable pub write_streams : Bool → List ℕ → Wire → Run Server Bool
unfolding write_stream max_pending
write_streams writable [] m s = (s, returned writable)
write_streams writable (k ∷ ks) m s =
    and_then (write_stream (max_pending s.parser) k m s)
      (λ result. write_streams (writable && result) ks m)

-- `writeAllStreams`
unfoldable pub write_all_streams : Wire → Run Server Bool
unfolding write_streams
write_all_streams m s = write_streams true s.sockets m s

-- Whether errors of a datagram are handed to `handleDatagramError`.
unfoldable pub has_callback : Server → Bool
unfolding max_pending
has_callback s = elim (max_pending s.parser) [ none ↦ false | some n ↦ true ]

-- `sendDatagramDirect` and `sendDatagramGuarded`
unfoldable pub send_datagram : Wire → Origin → Run Server Bool
unfolding has_callback
send_datagram m o s = (emit_effect (datagram m o (has_callback s)) s, returned true)

-- The `address` and the `port` of a peer, if neither is falsy. A stream socket has no port of its own.
unfoldable pub reachable : Peer → Option Origin
reachable p = elim p.origin [
  | none ↦ none
  | some o ↦ elim o.address [ [] ↦ none | u ∷ rest ↦ if o.port == 0 then none else some o ]
]

-- `writeDatagramDirect`, with `writeAllDatagrams(message)` as a parameter.
unfoldable pub write_datagram_or : Run Server Bool → Option ℕ → Wire → Run Server Bool
unfolding reachable send_datagram
write_datagram_or all none m s = all s
write_datagram_or all (some k) m s = elim (reachable (s.peers k)) [
  | none ↦ all s
  | some o ↦ send_datagram m o s
]

-- `writeAllDatagrams`: a peer without address or port makes it call itself, down to the end of the stack,
-- which the fuel stands for.
unfoldable pub write_all_datagrams : ℕ → Wire → Run Server Bool
unfolding write_datagram_or
write_all_datagrams zero m s = (s, threw (foreign 0))
write_all_datagrams (suc depth) m s =
    and_then
      (each
        (λ k s'.
          and_then (write_datagram_or (write_all_datagrams depth m) (some k) m s')
            (λ _ s''. (s'', returned tt)))
        s.sockets s)
      (λ _ s'. (s', returned true))

-- `handleDatagramError`
unfoldable pub handle_datagram_error : Option Thrown → Server → Server
handle_datagram_error none s = s
handle_datagram_error (some e) s = publish "error" (failure e) none s

-- `this.write(socket,message)`, by the transport; a stream server needs a socket.
unfoldable pub write : ℕ → Option ℕ → Wire → Run Server Bool
unfolding write_datagram_or write_all_datagrams write_stream max_pending
write depth to m s =
    if s.by_datagram then write_datagram_or (write_all_datagrams depth m) to m s else elim to [
      | none ↦ (s, threw type_error)
      | some k ↦ write_stream (max_pending s.parser) k m s
    ]

-- `this.writeAll(message)`, by the transport.
unfoldable pub write_all : ℕ → Wire → Run Server Bool
unfolding write_all_datagrams write_all_streams
write_all depth m s = if s.by_datagram then write_all_datagrams depth m s else write_all_streams m s

unfoldable pub write_encoded : (Wire → Run Server Bool) → Outcome Text → Run Server Bool
write_encoded k (returned frame) s = k (chars frame) s
write_encoded k (threw e) s = (s, threw e)

-- `emit(socket,type,data)` with a framed parser; the logged form writes a line to the log before.
unfoldable pub emit_to : ℕ → Option ℕ → Value → Value → Run Server Bool
unfolding write_encoded write encode
emit_to depth to type data' s = write_encoded (write depth to) (encode s.parser type data') s

-- `broadcast(type,data)` with a framed parser
unfoldable pub broadcast : ℕ → Value → Value → Run Server Bool
unfolding write_encoded write_all encode
broadcast depth type data' s = write_encoded (write_all depth) (encode s.parser type data') s

-- `writeDatagramEncoded`, which the constructor takes for a parser of the application with another
-- encoding; `bytes_of` is `Buffer.from(message,encoding)`.
unfoldable pub write_datagram_encoded :
    (Text → Text → List ℕ) → Text → Run Server Bool → Option ℕ → Text → Run Server Bool
unfolding reachable send_datagram
write_datagram_encoded bytes_of encoding all none m s = all s
write_datagram_encoded bytes_of encoding all (some k) m s = elim (reachable (s.peers k)) [
  | none ↦ all s
  | some o ↦ send_datagram (packet (bytes_of encoding m)) o s
]

-- `emit(socket,value)` and `broadcast(value)` with the raw parser; `bytes_of` is
-- `Buffer.from(value,encoding)`.
unfoldable pub emit_raw_to : (Text → Text → List ℕ) → ℕ → Option ℕ → Wire → Run Server Bool
unfolding write encode_raw raw_encoding
emit_raw_to bytes_of depth to m s = write depth to (encode_raw bytes_of (raw_encoding s.parser) m) s

unfoldable pub broadcast_raw : (Text → Text → List ℕ) → ℕ → Wire → Run Server Bool
unfolding write_all encode_raw raw_encoding
broadcast_raw bytes_of depth m s = write_all depth (encode_raw bytes_of (raw_encoding s.parser) m) s
