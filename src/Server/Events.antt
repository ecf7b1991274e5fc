-- ===== src/Server/Events.antt =====
-- What happens to a server: calls of its methods, and what Node reports of its sockets and timers.
use node_ipc.Base.{ℕ, ◌-◌, Bool, true, false, List, [], Option}
use node_ipc.Text.{Text}
use node_ipc.Outcome.{Thrown, Outcome, returned, Run, and_then}
use node_ipc.Json.{Value}
use node_ipc.Server.{Server, Effect, Origin, set_peer, set_udp4, set_udp6}
use node_ipc.Server.Receiving.{receive_from, peer_timer_fired}
use node_ipc.Server.Sending.{emit_to, broadcast, handle_datagram_error}
use node_ipc.Server.Sockets.{add_socket, receive_datagram, on_close, stop}
use node_ipc.Server.Start.{System, start, on_start, on_bound, server_error}

pub data Event : Type 0 where
  -- The application sets a transport, starts or stops the server.
  chooses_udp4 : Bool → Event
  chooses_udp6 : Bool → Event
  starts : Event
  stops : Event
  -- The server listens or is bound, or a socket reports an error.
  listened : Event
  bound : Event
  errors : Thrown → Event
  -- A stream socket is accepted, has data, has passed on so much of its `writableLength`, has ended, or is closed.
  accepts : Event
  arrives : ℕ → Text → Event
  drains : ℕ → ℕ → Event
  ends : ℕ → Event
  closes : ℕ → Event
  -- A datagram arrives, or has been sent.
  receives : Text → Origin → Event
  passed_on : Option Thrown → Event
  -- The message timer of a socket fires.
  timer_fires : ℕ → Event
  -- The application calls `emit` or `broadcast`.
  emits : Option ℕ → Value → Value → Event
  broadcasts : Value → Value → Event
  -- The application subscribes to events, or unsubscribes.
  subscribes : (List Effect → Outcome (Unit {0})) → Event

-- The bookkeeping of Node itself.
unfoldable pub mark_sent : ℕ → ℕ → Server → Server
mark_sent k n s =
    let p = s.peers k in set_peer k (record p { writable_length = p.writable_length - n }) s

unfoldable pub mark_ended : ℕ → Server → Server
mark_ended k s = set_peer k (record (s.peers k) { readable = false; is_destroyed = true }) s

abbrev pub quietly : Server × Outcome Bool → Server × Outcome (Unit {0})
quietly m = and_then m (λ _ s. (s, returned tt))

-- `start`, with no file changed before.
unfoldable pub start_fresh : System → Run Server (Unit {0})
unfolding start
start_fresh os s = let r = start os (s, []) in (r.0.0, r.1)

module _ (os : System) (depth : ℕ) where
  unfoldable pub step : Event → Run Server (Unit {0})
  unfolding set_udp4 set_udp6 start_fresh stop on_start on_bound server_error add_socket
      receive_from mark_sent mark_ended on_close receive_datagram handle_datagram_error
      peer_timer_fired emit_to broadcast
  step (chooses_udp4 b) s = (set_udp4 b s, returned tt)
  step (chooses_udp6 b) s = (set_udp6 b s, returned tt)
  step starts s = start_fresh os s
  step stops s = (stop s, returned tt)
  step listened s = (on_start s, returned tt)
  step bound s = (on_bound s, returned tt)
  step (errors e) s = (server_error e s, returned tt)
  step accepts s = (add_socket s, returned tt)
  step (arrives k chunk) s = receive_from k chunk s
  step (drains k n) s = (mark_sent k n s, returned tt)
  step (ends k) s = (mark_ended k s, returned tt)
  step (closes k) s = (on_close k s, returned tt)
  step (receives chunk o) s = receive_datagram chunk o s
  step (passed_on e) s = (handle_datagram_error e s, returned tt)
  step (timer_fires k) s = peer_timer_fired k s
  step (subscribes f) s = (record s { subscribers = f }, returned tt)
  step (emits to type data') s = quietly (emit_to depth to type data' s)
  step (broadcasts type data') s = quietly (broadcast depth type data' s)

  -- A history: any event may come next, also one that Node would not report.
  pub data History (first : Server) : Server → Type 0 where
    begin : History first first
    next : {s : Server} (e : Event) → History first s → History first (step e s).0
