-- ===== src/Server/Listing/Life.antt =====
-- The list of sockets through the life of a server.
use node_ipc.Base.{◌≡◌, ℕ, true}
use node_ipc.Text.{Text}
use node_ipc.Config.{Config}
use node_ipc.Parser.{Parser}
use node_ipc.Server.{Server, Origin, new_server}
use node_ipc.Server.Sockets.{peer, member}
use node_ipc.Server.Start.{System}
use node_ipc.Server.Events.{History}
use node_ipc.Server.Steady.Life.{Survives, History-keeps}
use node_ipc.Server.Listing.{nothing_listed}
use node_ipc.Server.Listing.Kept.{IsListed, Stays-IsListed, add_socket-IsListed}
use node_ipc.Server.Listing.Searching.{peer-IsFound}
use node_ipc.Server.Listing.Removing.{on_close-IsListed, stop-IsListed}

new_server-IsListed :
    (path : Text) (config : Config) (parser : Parser) (port : ℕ)
    → IsListed (new_server path config parser port)
unfolding new_server member
new_server-IsListed path config parser port = record {
  distinct = nothing_listed;
  made = λ k e. cc;
  last = λ k e. cc;
  once = λ i j o e. cc;
}

IsListed-Survives : Survives IsListed
IsListed-Survives = record {
  keep = Stays-IsListed;
  added = λ s i. add_socket-IsListed i;
  found = λ o s i. (peer-IsFound o i).listed;
  removed = λ k s i. on_close-IsListed k i;
  stopped = λ s i. stop-IsListed i;
}

-- Whatever happens to a server, its list has no socket twice and none that was not made, `lastPeer` is in the
-- list, and two peers of the list do not come from one origin; and a datagram is received for a peer in the
-- list.
pub History-IsListed :
    (os : System) (depth : ℕ) (path : Text) (config : Config) (parser : Parser) (port : ℕ)
    {s : Server}
    → History os depth (new_server path config parser port) s
    → IsListed s × ((o : Origin) → member (peer o s).1 (peer o s).0.sockets ≡ true)
History-IsListed os depth path config parser port past =
    let h =
      History-keeps IsListed-Survives os depth (new_server-IsListed path config parser port) past in
    (h, λ o. (peer-IsFound o h).found)
