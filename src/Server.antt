-- ===== src/Server.antt =====
-- The class `Server` of dao/socketServer.js: its fields, its constructor, and which transport it uses.
-- Stream sockets and the peers of datagrams are objects in one list; `peers` is the store of them. What
-- the program calls outside itself is a list of effects. The subscribers of messages, of `data` and of the
-- `error` of a protocol failure return or throw; those of `start`, `connect`, `close`,
-- `socket.disconnected` and of other errors are taken to return. Subscribers do not call the server back
-- from inside an event.
pub mod Sockets
pub mod Receiving
pub mod Sending
pub mod Start
pub mod Contained
pub mod Steady
pub mod Datagrams
pub mod Peers
pub mod Files
pub mod Assured
pub mod Events
pub mod Listing
pub mod Backlog
use Prim.Native.String.{String}
use node_ipc.Base.{
  ℕ, suc, Bool, true, false, ◌||◌, List, [], ◌∷◌, ◌++◌, Option, none, some, ◌==◌, if◌then◌else◌,
}
use node_ipc.Text.{Text, text}
use node_ipc.Outcome.{Thrown, Outcome, returned}
use node_ipc.Json.{Value, undefined}
use node_ipc.Config.{Config, TlsOptions}
use node_ipc.Parser.{Parser, Wire}
use node_ipc.Client.{Payload}

-- `rinfo`: where a datagram came from.
pub record Origin : Type 0 where
  pub address : Text
  pub port : ℕ

-- A stream socket, which has no origin, or the peer of datagrams, with the fields that the server hangs
-- on it. `readable` and `is_destroyed` are those of a stream; `id` is `undefined` until it is set.
pub record Peer : Type 0 where
  pub origin : Option Origin
  pub readable : Bool
  pub is_destroyed : Bool
  pub buffer : Text
  pub message_timer : Bool
  pub writable_length : ℕ
  pub id : Value

-- What the server listens on.
pub data Endpoint : Type 0 where
  local_endpoint : Text → Bool → Bool → Endpoint
  network_endpoint : ℕ → Text → Endpoint
  datagram_endpoint : Bool → ℕ → Text → Endpoint

pub data Effect : Type 0 where
  published : Value → Payload → Option ℕ → Effect
  written : ℕ → Wire → Effect
  destroyed : ℕ → Effect
  -- The data, the origin, and whether errors are handed to a callback.
  datagram : Wire → Origin → Bool → Effect
  listens : Endpoint → Option TlsOptions → Effect
  stops_listening : Effect

pub record Server : Type 0 where
  pub config : Config
  pub path : Text
  pub port : ℕ
  pub parser : Parser
  pub udp4 : Bool
  pub udp6 : Bool
  -- Whether `write` is `writeDatagram`.
  pub by_datagram : Bool
  pub listening : Bool
  pub sockets : List ℕ
  pub last_peer : Option ℕ
  pub peers : ℕ → Peer
  pub next_peer : ℕ
  pub effects : List Effect
  -- What the subscribers do when an event has been published, given all that has happened up to it.
  pub subscribers : List Effect → Outcome (Unit {0})

-- A stream socket as it comes from `net.createServer`, with its empty buffer.
abbrev pub new_stream : Peer
new_stream = record {
  origin = none;
  readable = true;
  is_destroyed = false;
  buffer = [];
  message_timer = false;
  writable_length = 0;
  id = undefined;
}

-- `{...rinfo,ipcBuffer:''}`
abbrev pub new_datagram_peer : Origin → Peer
new_datagram_peer o = record new_stream { origin = some o; readable = false }

abbrev pub update_peer : (ℕ → Peer) → ℕ → Peer → ℕ → Peer
update_peer f k p i = if i == k then p else f i

abbrev pub set_peer : ℕ → Peer → Server → Server
set_peer k p s = record s { peers = update_peer s.peers k p }

abbrev pub emit_effect : Effect → Server → Server
emit_effect e s = record s { effects = s.effects ++ e ∷ [] }

-- What comes back from a `publish` that has just been made: what a subscriber throws passes through.
abbrev pub after_publish : Server → Server × Outcome (Unit {0})
after_publish s = (s, s.subscribers s.effects)

-- `this.publish(type,data,socket)`
abbrev pub publish : String → Payload → Option ℕ → Server → Server
publish type data' from s = emit_effect (published (Value.str (text type)) data' from) s

-- `selectTransport`
unfoldable pub select_transport : Server → Server
select_transport s = record s { by_datagram = s.udp4 || s.udp6 }

-- The setters of `udp4` and `udp6`.
unfoldable pub set_udp4 : Bool → Server → Server
unfolding select_transport
set_udp4 value s = select_transport (record s { udp4 = value })

unfoldable pub set_udp6 : Bool → Server → Server
unfolding select_transport
set_udp6 value s = select_transport (record s { udp6 = value })

-- The constructor; `parser` is what `createParser(config)` returned, and no port is 0.
unfoldable pub new_server : Text → Config → Parser → ℕ → Server
unfolding select_transport
new_server path config parser port = select_transport (record {
  config = config;
  path = path;
  port = port;
  parser = parser;
  udp4 = false;
  udp6 = false;
  by_datagram = false;
  listening = false;
  sockets = [];
  last_peer = none;
  peers = λ _. new_stream;
  next_peer = 0;
  effects = [];
  subscribers = λ es. returned tt;
})
