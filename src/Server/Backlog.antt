-- ===== src/Server/Backlog.antt =====
-- The `writableLength` of the sockets of a guarded server stays within `maxPendingBytes`.
use node_ipc.Base.{
  ◌≡◌, refl, ap, ◌∙◌, ℕ, ◌≤◌, Bool, true, false, not, ◌||◌, [], Option, none, some, if◌then◌else◌,
  arith,
}
use node_ipc.Text.{Text}
use node_ipc.Config.{Config}
use node_ipc.Parser.{Parser}
use node_ipc.Client.{max_pending, value}
use node_ipc.Server.{
  Server, Peer, Origin, stops_listening, emit_effect, publish, new_stream, new_datagram_peer,
  set_peer, new_server,
}
use node_ipc.Server.Receiving.{clear_peer_timer, destroy_peer}
use node_ipc.Server.Sockets.{
  add_socket, comes_from, find_peer, look_up, peer, member, remove_first, forget_last, id_or_false,
  remove_socket, on_close, drop_all, stop,
}
use node_ipc.Server.Start.{System}
use node_ipc.Server.Events.{History}
use node_ipc.Server.Steady.{
  Stays, Stays-refl, Stays-clear_peer_timer, Stays-destroy_peer, update-sized,
}
use node_ipc.Server.Steady.Starting.{Stays-drop_all}
use node_ipc.Server.Steady.Life.{Survives, History-keeps}

-- The parser has this `maxPendingBytes`, and no socket a larger `writableLength`.
pub record IsBounded (n : ℕ) (s : Server) : Type 0 where
  pub limit : max_pending s.parser ≡ some n
  pub sizes : (k : ℕ) → (s.peers k).writable_length ≤ n

module _ {n : ℕ} where
  Stays-IsBounded : {s s' : Server} → Stays s s' → IsBounded n s → IsBounded n s'
  Stays-IsBounded t b = record {
    limit = ap max_pending t.parser ∙ b.limit;
    sizes = t.sized n b.limit b.sizes;
  }

  set_peer-IsBounded :
      {s : Server} (k : ℕ) (p : Peer)
      → p.writable_length ≡ 0
      → IsBounded n s
      → IsBounded n (set_peer k p s)
  set_peer-IsBounded {s} k p e b = record {
    limit = b.limit;
    sizes = λ i. update-sized s.peers k p i n (omega (arith, e)) (b.sizes i);
  }

  add_socket-IsBounded : (s : Server) → IsBounded n s → IsBounded n (add_socket s)
  unfolding add_socket
  add_socket-IsBounded s b =
      let i = set_peer-IsBounded s.next_peer new_stream refl b in
      record { limit = i.limit; sizes = i.sizes }

  look_up-IsBounded :
      (m : Option ℕ) (o : Origin) (s : Server) → IsBounded n s → IsBounded n (look_up m o s).0
  unfolding look_up
  look_up-IsBounded (some k) o s b = record { limit = b.limit; sizes = b.sizes }
  look_up-IsBounded none o s b =
      let i = set_peer-IsBounded s.next_peer (new_datagram_peer o) refl b in
      record { limit = i.limit; sizes = i.sizes }

  peer-IsBounded : (o : Origin) (s : Server) → IsBounded n s → IsBounded n (peer o s).0
  unfolding peer
  peer-IsBounded o s b = go s.last_peer
    where
      again :
          (x : Bool) (k : ℕ)
          → IsBounded n
              (let q : Server × ℕ =
                  if x then (s, k) else look_up (find_peer s.peers o s.sockets) o s in
                q).0
      again true k = b
      again false k = look_up-IsBounded (find_peer s.peers o s.sockets) o s b

      go :
          (l : Option ℕ)
          → IsBounded n
              (let q : Server × ℕ = elim l [
                | none ↦ look_up (find_peer s.peers o s.sockets) o s
                | some k ↦
                    if comes_from o (s.peers k)
                    then (s, k)
                    else look_up (find_peer s.peers o s.sockets) o s
              ] in
                q).0
      go none = look_up-IsBounded (find_peer s.peers o s.sockets) o s b
      go (some k) = again (comes_from o (s.peers k)) k

  on_close-IsBounded : (k : ℕ) (s : Server) → IsBounded n s → IsBounded n (on_close k s)
  unfolding on_close remove_socket
  on_close-IsBounded k s b =
      let i = go (not (member k s.sockets) || (s.peers k).readable) (s.peers k).is_destroyed in
      record { limit = i.limit; sizes = i.sizes }
    where
      gone : Server
      gone = record s { sockets = remove_first k s.sockets; last_peer = forget_last k s.last_peer }

      left : IsBounded n gone
      left = record { limit = b.limit; sizes = b.sizes }

      published_over :
          {s' : Server}
          → IsBounded n s'
          → IsBounded n
              (publish "socket.disconnected" (value (id_or_false (s.peers k).id)) (some k) s')
      published_over i = record { limit = i.limit; sizes = i.sizes }

      go :
          (x y : Bool)
          → IsBounded n (
              if x
              then s
              else publish "socket.disconnected"
                  (value (id_or_false (s.peers k).id))
                  (some k)
                  (clear_peer_timer k (if y then gone else destroy_peer k gone)))
      go true y = b
      go false true =
          published_over (Stays-IsBounded (Stays-clear_peer_timer (Stays-refl gone) k) left)
      go false false =
          published_over (
            Stays-IsBounded (Stays-clear_peer_timer (Stays-destroy_peer k (Stays-refl gone)) k)
              left)

  stop-IsBounded : (s : Server) → IsBounded n s → IsBounded n (stop s)
  unfolding stop
  stop-IsBounded s b = go (drop_all s.sockets s).listening
    where
      emptied : Server
      emptied = record (drop_all s.sockets s) { sockets = []; last_peer = none }

      dropped : IsBounded n (drop_all s.sockets s)
      dropped = Stays-IsBounded (Stays-drop_all s.sockets (Stays-refl s)) b

      go : (x : Bool) → IsBounded n (if x then emit_effect stops_listening emptied else emptied)
      go true = record { limit = dropped.limit; sizes = dropped.sizes }
      go false = record { limit = dropped.limit; sizes = dropped.sizes }

  IsBounded-Survives : Survives (IsBounded n)
  IsBounded-Survives = record {
    keep = Stays-IsBounded;
    added = add_socket-IsBounded;
    found = peer-IsBounded;
    removed = on_close-IsBounded;
    stopped = stop-IsBounded;
  }

-- For a server whose parser has a `maxPendingBytes`, the `writableLength` of each of its sockets never exceeds
-- that, which counts a string that waits by its UTF-16 units and not by its bytes, whatever happens to it: `emit` and `broadcast`, sockets that come and go, a stop and a start.
pub new_server-IsBounded :
    (os : System) (depth : ℕ) (path : Text) (config : Config) (parser : Parser) (port : ℕ) {n : ℕ}
    {s : Server}
    → max_pending parser ≡ some n
    → History os depth (new_server path config parser port) s
    → (k : ℕ) → (s.peers k).writable_length ≤ n
unfolding new_server
new_server-IsBounded os depth path config parser port {n} h past =
    (History-keeps (IsBounded-Survives {n = n}) os depth
      (record { limit = h; sizes = λ k. omega arith }) past).sizes
