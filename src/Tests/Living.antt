-- ===== src/Tests/Living.antt =====
-- A server that lives: sockets come and go, datagrams arrive.
use node_ipc.Base.{◌≡◌, ◌≤◌, refl, true, [], ◌∷◌, some}
use node_ipc.Text.{text}
use node_ipc.Json.{str, null}
use node_ipc.Parser.{fast}
use node_ipc.Client.{max_pending}
use node_ipc.Server.{Server, Origin, new_server}
use node_ipc.Server.Sockets.{peer, member}
use node_ipc.Server.Events.{
  Event, chooses_udp4, starts, accepts, receives, emits, broadcasts, step, begin, next,
}
use node_ipc.Server.Listing.Kept.{IsListed}
use node_ipc.Server.Listing.Life.{History-IsListed}
use node_ipc.Server.Backlog.{new_server-IsBounded}
use node_ipc.Tests.Retrying.{tight}
use node_ipc.Tests.Serving.{settings, sender, unix, plain_server}

abbrev then_serves : Event → Server → Server
then_serves e s = (step unix 3 e s).0

-- Two datagrams of one origin, then the datagram server stops.
abbrev twice : Server
twice = then_serves (receives (text "a") sender) (
    then_serves (receives (text "b") sender)
      (then_serves starts (then_serves (chooses_udp4 true) plain_server)))

History-IsListed_example :
    IsListed twice × ((o : Origin) → member (peer o twice).1 (peer o twice).0.sockets ≡ true)
History-IsListed_example = History-IsListed unix 3 (text "::1") settings (fast (12 ∷ [])) 8000 (
    next (receives (text "a") sender)
      (next (receives (text "b") sender) (next starts (next (chooses_udp4 true) begin))))

abbrev tight_server : Server
tight_server = new_server (text "::1") settings tight 8000

-- One socket; what `broadcast` and `emit` write would be more than four bytes.
abbrev busy : Server
busy = then_serves (emits (some 0) (str (text "a")) null) (
    then_serves (broadcasts (str (text "a")) null)
      (then_serves accepts (then_serves starts tight_server)))

new_server-IsBounded_example : (busy.peers 0).writable_length ≤ 4
unfolding max_pending
new_server-IsBounded_example =
    new_server-IsBounded unix 3 (text "::1") settings tight 8000 refl
      (next (emits (some 0) (str (text "a")) null)
        (next (broadcasts (str (text "a")) null) (next accepts (next starts begin))))
      0
