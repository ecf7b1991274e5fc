-- ===== src/Server/Steady/Life.antt =====
-- What an invariant of a server has to survive: besides that which receiving and sending leave alone, four
-- operations on its list of sockets.
use node_ipc.Base.{refl, ℕ, ◌-◌, Bool, true, false, Option, none, some, arith}
use node_ipc.Outcome.{Thrown, Outcome, returned, threw}
use node_ipc.Server.{Server, Origin, set_udp4, set_udp6, select_transport}
use node_ipc.Server.Sending.{emit_to, broadcast, handle_datagram_error}
use node_ipc.Server.Sockets.{add_socket, peer, receive_datagram, on_close, stop}
use node_ipc.Server.Start.{System, on_start, on_bound, server_error}
use node_ipc.Server.Events.{
  Event, chooses_udp4, chooses_udp6, starts, stops, listened, bound, errors, accepts, arrives,
  drains, ends, closes, receives, passed_on, timer_fires, emits, broadcasts, subscribes, mark_sent,
  mark_ended, quietly, start_fresh, step, History, begin, next,
}
use node_ipc.Server.Steady.{
  Stays, Stays-refl, Stays-subscribes, Stays-emit_effect, Stays-set_sized, Stays-receive_from,
  Stays-peer_timer_fired,
}
use node_ipc.Server.Steady.Sending.{Stays-emit_to, Stays-broadcast}
use node_ipc.Server.Steady.Starting.{Stays-start}

Stays-mark_sent : (k n : ℕ) (s : Server) → Stays s (mark_sent k n s)
unfolding mark_sent
Stays-mark_sent k n s =
    Stays-set_sized (Stays-refl s) k
      (record (s.peers k) { writable_length = (s.peers k).writable_length - n }) refl
      (λ i e b. omega (arith, b))

Stays-mark_ended : (k : ℕ) (s : Server) → Stays s (mark_ended k s)
unfolding mark_ended
Stays-mark_ended k s =
    Stays-set_sized (Stays-refl s) k (record (s.peers k) { readable = false; is_destroyed = true })
      refl (λ i e b. b)

Stays-handle_datagram_error : (e : Option Thrown) (s : Server) → Stays s (handle_datagram_error e s)
unfolding handle_datagram_error
Stays-handle_datagram_error none s = Stays-refl s
Stays-handle_datagram_error (some e) s = Stays-emit_effect (Stays-refl s) _

-- `udp4`, `udp6` and the transport are no part of it.
Stays-set_udp4 : (b : Bool) (s : Server) → Stays s (set_udp4 b s)
unfolding set_udp4 select_transport
Stays-set_udp4 b s = record {
  parser = refl;
  sockets = refl;
  last = refl;
  made = refl;
  origin = λ k. refl;
  sized = λ n e h. h;
}

Stays-set_udp6 : (b : Bool) (s : Server) → Stays s (set_udp6 b s)
unfolding set_udp6 select_transport
Stays-set_udp6 b s = record {
  parser = refl;
  sockets = refl;
  last = refl;
  made = refl;
  origin = λ k. refl;
  sized = λ n e h. h;
}

pub record Survives {ℓ} (I : Server → Type ℓ) : Type ℓ where
  pub keep : {s s' : Server} → Stays s s' → I s → I s'
  pub added : (s : Server) → I s → I (add_socket s)
  pub found : (o : Origin) (s : Server) → I s → I (peer o s).0
  pub removed : (k : ℕ) (s : Server) → I s → I (on_close k s)
  pub stopped : (s : Server) → I s → I (stop s)

module _ {ℓ} {I : Server → Type ℓ} (v : Survives I) (os : System) (depth : ℕ) where
  quietly-keeps : (m : Server × Outcome Bool) → I m.0 → I (quietly m).0
  quietly-keeps (s, returned b) i = i
  quietly-keeps (s, threw e) i = i

  step-keeps : {s : Server} (e : Event) → I s → I (step os depth e s).0
  unfolding step start_fresh on_start on_bound server_error receive_datagram
  step-keeps {s} (chooses_udp4 b) i = v.keep (Stays-set_udp4 b s) i
  step-keeps {s} (chooses_udp6 b) i = v.keep (Stays-set_udp6 b s) i
  step-keeps {s} starts i = v.keep (Stays-start os (Stays-refl s) _) i
  step-keeps {s} stops i = v.stopped s i
  step-keeps {s} listened i = v.keep (Stays-emit_effect (Stays-refl s) _) i
  step-keeps {s} bound i = v.keep (Stays-emit_effect (Stays-emit_effect (Stays-refl s) _) _) i
  step-keeps {s} (errors e) i = v.keep (Stays-emit_effect (Stays-refl s) _) i
  step-keeps {s} accepts i = v.added s i
  step-keeps {s} (arrives k chunk) i = v.keep (Stays-receive_from k chunk (Stays-refl s)) i
  step-keeps {s} (drains k n) i = v.keep (Stays-mark_sent k n s) i
  step-keeps {s} (ends k) i = v.keep (Stays-mark_ended k s) i
  step-keeps {s} (closes k) i = v.removed k s i
  step-keeps {s} (receives chunk o) i =
      v.keep (Stays-receive_from (peer o s).1 chunk (Stays-refl (peer o s).0)) (v.found o s i)
  step-keeps {s} (passed_on e) i = v.keep (Stays-handle_datagram_error e s) i
  step-keeps {s} (timer_fires k) i = v.keep (Stays-peer_timer_fired k (Stays-refl s)) i
  step-keeps {s} (emits to type data') i =
      quietly-keeps (emit_to depth to type data' s)
        (v.keep (Stays-emit_to (Stays-refl s) depth to type data') i)
  step-keeps {s} (broadcasts type data') i =
      quietly-keeps (broadcast depth type data' s)
        (v.keep (Stays-broadcast (Stays-refl s) depth type data') i)
  step-keeps {s} (subscribes f) i = v.keep (Stays-subscribes f (Stays-refl s)) i

  pub History-keeps : {first s : Server} → I first → History os depth first s → I s
  History-keeps i begin = i
  History-keeps i (next e past) = step-keeps e (History-keeps i past)
