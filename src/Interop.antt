-- ===== src/Interop.antt =====
-- rust/node-ipc/interop/node-peer.js: the peer that the Rust port is tested against, and what it is
-- configured with. Its two ends are in Interop/Responder (`runServer`) and Interop/Window (`runPhase`).
pub mod Decimal
pub mod Arguments
pub mod Ranges
pub mod Payload
pub mod Responder
pub mod Window
pub mod WireBytes
use node_ipc.Base.{ℕ, zero, suc, ◌*◌, Bool, true, false, List, [], ◌∷◌, Option, none, some}
use node_ipc.Text.{Text, text}
use node_ipc.Json.{Value, num, str, obj, end, field}
use node_ipc.Config.{Config, named, limited}
use node_ipc.Interop.Decimal.{decimal}

-- `Number.MAX_SAFE_INTEGER`
abbrev pub max_safe_integer : ℕ
max_safe_integer = 9007199254740991

abbrev pub request_event : Text
request_event = text "node-ipc.bench.request"

abbrev pub response_event : Text
response_event = text "node-ipc.bench.response"

-- `options`
pub record PeerOptions : Type 0 where
  pub mode : Text
  pub host : Text
  pub port : ℕ
  pub warmup : ℕ
  pub count : ℕ
  pub payload_bytes : ℕ
  pub inflight : ℕ
  pub json : Bool
  pub help : Bool

abbrev pub default_options : PeerOptions
default_options = record {
  mode = [];
  host = text "127.0.0.1";
  port = 9763;
  warmup = 1000;
  count = 100000;
  payload_bytes = 64;
  inflight = 1;
  json = false;
  help = false;
}

-- `'x'.repeat(n)`
unfoldable pub repeat_x : ℕ → Text
repeat_x zero = []
repeat_x (suc n) = b'x' ∷ repeat_x n

-- `{sequence,payload}`
unfoldable pub request_data : ℕ → Text → Value
unfolding decimal
request_data sequence payload =
    obj
      (field (text "sequence") (num (decimal sequence)) (field (text "payload") (str payload) end))

-- `createIPC`, on the configuration of a new object
unfoldable pub peer_config : PeerOptions → Config → Config
peer_config o c = record c {
  silent = true;
  parser = named (text "fast");
  sync = false;
  stop_retrying = true;
  max_retries = limited 0;
  network_host = o.host;
  network_port = o.port;
  max_connections = 1;
}
