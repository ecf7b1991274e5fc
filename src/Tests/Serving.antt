-- ===== src/Tests/Serving.antt =====
-- A server, its files, and the arguments of `serveNet`.
use node_ipc.Base.{◌≡◌, refl, ◌⊎◌, true, false, List, [], ◌∷◌, ◌++◌, ◌==◌, some, if◌then◌else◌}
use node_ipc.Text.{Text, text, text_eq}
use node_ipc.Outcome.{ProtocolCode, protocol, returned, threw, foreign}
use node_ipc.Config.{Config, defaults}
use node_ipc.Parser.{fast, assured, chars}
use node_ipc.Parser.Create.{limits_of}
use node_ipc.Parser.Reading.{read}
use node_ipc.Server.{Server, Origin, new_server, new_datagram_peer}
use node_ipc.Server.Sending.{has_callback, reachable, write_all_datagrams}
use node_ipc.Server.Datagrams.{
  reaches, no_more, misses, behind, datagrams, write_all_datagrams-Targets,
  write_all_datagrams-Misses,
}
use node_ipc.Parser.Contained.Reads.{is_assured, LeavesBy}
use node_ipc.Server.Receiving.{dispatch_from, receive_from}
use node_ipc.Server.Contained.{IsFailed, receive_from-LeavesBy, receive_datagram-LeavesBy}
use node_ipc.Server.Sockets.{peer, receive_datagram}
use node_ipc.Server.Start.{
  Stat, FileCall, make_directory, unlink, System, socket_path_in_root, unlink_socket, start,
}
use node_ipc.Server.Files.{IsSafeRoot, unlink_socket-is_socket}
use node_ipc.Server.Assured.{start-IsSafeRoot}
use node_ipc.Service.{absent, string, number, function}
use node_ipc.Service.Arguments.{given, is_udp, serve_net_arguments}
use node_ipc.Service.Overloads.{net, serve_net_arguments-net}
use node_ipc.Tests.Streams.{host}

abbrev pub settings : Config
settings = record (defaults host) { socket_root = text "/run/ipc/" }

abbrev pub sender : Origin
sender = record { address = text "10.0.0.7"; port = 4000 }

abbrev pub plain_server : Server
plain_server = new_server (text "::1") settings (fast (12 ∷ [])) 8000

abbrev directory : Stat
directory = record {
  is_directory = true;
  is_symbolic_link = false;
  is_socket = false;
  uid = 1000;
  shared = true;
}

abbrev stale_socket : Stat
stale_socket = record {
  is_directory = false;
  is_symbolic_link = false;
  is_socket = true;
  uid = 1000;
  shared = false;
}

-- A system with the socket root and a socket that was left in it.
abbrev pub unix : System
unix = record {
  windows = false;
  user = some 1000;
  resolve = λ path. path;
  relative = λ root path. text "app.world";
  dirname = λ path. text ".";
  is_absolute = λ path. false;
  separator = text "/";
  lstat = λ done path.
      if text_eq path (text "/run/ipc/")
      then returned (some directory)
      else returned (some stale_socket);
  attempt = λ f. returned tt;
  read_file = λ path. returned [];
}

abbrev endpoint_path : Text
endpoint_path = text "/run/ipc/app.world"

unlink_socket-is_socket_example :
    ((unlink_socket unix endpoint_path []).0 ≡ [])
    ⊎ ((stat : Stat) × (unix.lstat [] endpoint_path ≡ returned (some stat))
        × (stat.is_socket ≡ true)
        × ((unlink_socket unix endpoint_path []).0 ≡ unlink endpoint_path ∷ []))
unlink_socket-is_socket_example = unlink_socket-is_socket unix endpoint_path []

abbrev assured_server : Server
assured_server =
    new_server endpoint_path settings (assured (12 ∷ []) (limits_of settings) (text "chat" ∷ [])) 0

start-IsSafeRoot_example :
    (unix.windows ≡ false)
    × (assured_server.config.secure_socket_root ≡ true)
    × (socket_path_in_root unix assured_server.config assured_server.path ≡ true)
    × ((prepared : List FileCall) × IsSafeRoot unix
          (unix.resolve assured_server.config.socket_root)
          (make_directory (unix.resolve assured_server.config.socket_root) ∷ [])
          prepared
        × (((start unix (assured_server, [])).0.1 ≡ prepared)
            ⊎ ((start unix (assured_server, [])).0.1
                ≡ prepared ++ unlink assured_server.path ∷ [])))
unfolding start new_server defaults
start-IsSafeRoot_example =
    start-IsSafeRoot unix assured_server [] {c = b'/'} {path = text "run/ipc/app.world"}
      {r = (start unix (assured_server, [])).0} {u = tt} refl refl refl refl

serve_net_arguments-net_example :
    (let h = string settings.network_host in
      let p = number settings.network_port in
      let resolved = serve_net_arguments settings in
      (resolved (net (function 1) absent absent absent) ≡ net h p absent (function 1))
      × (resolved (net (string (text "0.0.0.0")) (function 1) absent absent)
          ≡ net (string (text "0.0.0.0")) p absent (function 1))
      × (resolved (net (string (text "0.0.0.0")) (number 9000) (function 1) absent)
          ≡ net (string (text "0.0.0.0")) (number 9000) absent (function 1))
      × (resolved (net (string (text "0.0.0.0")) (string (text "udp6")) (function 1) absent)
          ≡ net (string (text "0.0.0.0")) p (string (text "udp6")) (function 1))
      × (resolved (net (string (text "0.0.0.0")) (number 9000) (string (text "udp6")) (function 1))
          ≡ net (string (text "0.0.0.0")) (number 9000) (string (text "udp6")) (function 1))
      × (resolved (net (number 9000) (function 1) absent absent)
          ≡ net h (number 9000) absent (function 1))
      × (resolved (net (number 9000) (string (text "udp6")) (function 1) absent)
          ≡ net h (number 9000) (string (text "udp6")) (function 1))
      × (resolved (net (string (text "udp4")) (function 1) absent absent)
          ≡ net h p (string (text "udp4")) (function 1)))
unfolding defaults given is_udp
serve_net_arguments-net_example =
    serve_net_arguments-net settings (text "0.0.0.0") (text "udp6") 9000 1 refl refl refl refl refl
      refl

-- Two peers of datagrams, the second of which sends from port 0.
abbrev two_origins : Origin → Origin → Server
two_origins a b = record plain_server {
  sockets = 0 ∷ 1 ∷ [];
  peers = λ k. new_datagram_peer (if k == 0 then a else b);
}

abbrev from_nowhere : Origin
from_nowhere = record sender { port = 0 }

abbrev reachable_peers : Server
reachable_peers = two_origins sender (record sender { port = 9 })

write_all_datagrams-Targets_example : write_all_datagrams 1 (chars (text "x")) reachable_peers ≡ (
  record reachable_peers {
    effects =
        reachable_peers.effects
        ++ datagrams
            (chars (text "x"))
            (has_callback reachable_peers)
            (sender ∷ record sender { port = 9 } ∷ []);
  },
  returned true,
)
unfolding reachable
write_all_datagrams-Targets_example =
    write_all_datagrams-Targets 0 (chars (text "x")) reachable_peers
      (reaches refl (reaches refl no_more))

write_all_datagrams-Misses_example :
    (write_all_datagrams 50 (chars (text "x")) (two_origins sender from_nowhere)).1
    ≡ threw (foreign 0)
unfolding reachable
write_all_datagrams-Misses_example =
    write_all_datagrams-Misses 50 (chars (text "x")) (two_origins sender from_nowhere)
      (behind sender refl (misses refl))

abbrev no_message : Text
no_message = text "{]" ++ 12 ∷ []

receive_from-LeavesBy_example :
    LeavesBy assured_server.subscribers (receive_from 0 no_message assured_server).1
    × ((code : ProtocolCode)
        → (read assured_server.parser
            (dispatch_from 0)
            (assured_server.peers 0).buffer
            no_message
            assured_server).1
          ≡ threw (protocol code)
        → IsFailed 0 code
            (read assured_server.parser
              (dispatch_from 0)
              (assured_server.peers 0).buffer
              no_message
              assured_server).0
            (receive_from 0 no_message assured_server).0)
unfolding new_server
receive_from-LeavesBy_example =
    receive_from-LeavesBy 0 no_message assured_server (is_assured (12 ∷ []) _ _)

receive_datagram-LeavesBy_example :
    LeavesBy assured_server.subscribers (receive_datagram no_message sender assured_server).1
    × ((code : ProtocolCode)
        → (let (s', k) = peer sender assured_server in
            (read s'.parser (dispatch_from k) (s'.peers k).buffer no_message s').1
            ≡ threw (protocol code))
        → (let (s', k) = peer sender assured_server in
            IsFailed k code
              (read s'.parser (dispatch_from k) (s'.peers k).buffer no_message s').0
              (receive_datagram no_message sender assured_server).0))
unfolding new_server
receive_datagram-LeavesBy_example =
    receive_datagram-LeavesBy no_message sender assured_server (is_assured (12 ∷ []) _ _)
