-- ===== src/Server/Sockets.antt =====
-- The list of sockets of dao/socketServer.js: `addSocket`, `peer`, `receiveDatagram`, `removeSocket` and
-- `stop`.
use node_ipc.Base.{
  ℕ, suc, Bool, false, not, ◌&&◌, ◌||◌, List, [], ◌∷◌, ◌++◌, Option, none, some, ◌==◌,
  if◌then◌else◌,
}
use node_ipc.Text.{Text, text_eq}
use node_ipc.Outcome.{Run}
use node_ipc.Json.{Value, bool, truthy}
use node_ipc.Client.{nothing, value}
use node_ipc.Server.{
  Server, Peer, Origin, stops_listening, emit_effect, publish, set_peer, new_stream,
  new_datagram_peer,
}
use node_ipc.Server.Receiving.{clear_peer_timer, destroy_peer, receive_from}

-- `addSocket`: the socket is a new object of the store.
unfoldable pub add_socket : Server → Server
add_socket s = publish "connect" nothing (some s.next_peer) (
    set_peer s.next_peer new_stream
      (record s { sockets = s.sockets ++ s.next_peer ∷ []; next_peer = suc s.next_peer }))

-- `peer.address === rinfo.address && peer.port === rinfo.port`
unfoldable pub comes_from : Origin → Peer → Bool
unfolding text_eq
comes_from o p = elim p.origin [
  | none ↦ false
  | some q ↦ text_eq q.address o.address && q.port == o.port
]

-- The loop of `peer` over the sockets.
unfoldable pub find_peer : (ℕ → Peer) → Origin → List ℕ → Option ℕ
unfolding comes_from
find_peer peers o [] = none
find_peer peers o (k ∷ ks) =
    let rest = find_peer peers o ks in if comes_from o (peers k) then some k else rest

unfoldable pub is_last : Origin → Server → Bool
unfolding comes_from
is_last o s = elim s.last_peer [ none ↦ false | some k ↦ comes_from o (s.peers k) ]

-- `peer` behind the test of `lastPeer`.
unfoldable pub look_up : Option ℕ → Origin → Server → Server × ℕ
look_up (some k) o s = (record s { last_peer = some k }, k)
look_up none o s = (
  set_peer s.next_peer (new_datagram_peer o) (record s {
    sockets = s.sockets ++ s.next_peer ∷ [];
    last_peer = some s.next_peer;
    next_peer = suc s.next_peer;
  }),
  s.next_peer,
)

-- `peer`
unfoldable pub peer : Origin → Server → Server × ℕ
unfolding comes_from find_peer look_up
peer o s = elim s.last_peer [
  | none ↦ look_up (find_peer s.peers o s.sockets) o s
  | some k ↦
      if comes_from o (s.peers k) then (s, k) else look_up (find_peer s.peers o s.sockets) o s
]

-- `receiveDatagram`
unfoldable pub receive_datagram : Text → Origin → Run Server (Unit {0})
unfolding peer receive_from
receive_datagram chunk o s = let (s', k) = peer o s in receive_from k chunk s'

unfoldable pub member : ℕ → List ℕ → Bool
member k [] = false
member k (i ∷ is) = i == k || member k is

-- `splice(index,1)` at the first index of the socket.
unfoldable pub remove_first : ℕ → List ℕ → List ℕ
remove_first k [] = []
remove_first k (i ∷ is) = let rest = remove_first k is in if i == k then is else i ∷ rest

unfoldable pub forget_last : ℕ → Option ℕ → Option ℕ
forget_last k none = none
forget_last k (some i) = if i == k then none else some i

-- `socket.id || false`
unfoldable pub id_or_false : Value → Value
unfolding truthy
id_or_false v = if truthy v then v else bool false

-- `removeSocket`
unfoldable pub remove_socket : ℕ → Server → Server
unfolding member remove_first forget_last id_or_false destroy_peer clear_peer_timer
remove_socket k s =
    if not (member k s.sockets) || (s.peers k).readable
    then s
    else let removed = record s {
      sockets = remove_first k s.sockets;
      last_peer = forget_last k s.last_peer;
    } in
      publish "socket.disconnected" (value (id_or_false (s.peers k).id)) (some k)
        (clear_peer_timer k (if (s.peers k).is_destroyed then removed else destroy_peer k removed))

-- The handler of the `close` event of a stream socket.
unfoldable pub on_close : ℕ → Server → Server
unfolding remove_socket
on_close k s = publish "close" nothing (some k) (remove_socket k s)

unfoldable pub drop_all : List ℕ → Server → Server
unfolding clear_peer_timer destroy_peer
drop_all [] s = s
drop_all (k ∷ ks) s = drop_all ks (destroy_peer k (clear_peer_timer k s))

-- `stop`
unfoldable pub stop : Server → Server
unfolding drop_all
stop s =
    let dropped = record (drop_all s.sockets s) { sockets = []; last_peer = none } in
    if dropped.listening then emit_effect stops_listening dropped else dropped
