-- ===== src/Demo.antt =====
-- rust/node-ipc/examples/nodeRustInterop/node-peer.js: a peer that sends one ping, or answers it, and shows
-- the frames.
pub mod Tracing
pub mod Waiting
use node_ipc.Base.{ℕ, Bool, true, false, not, ◌&&◌, ◌||◌, Option, none, some, leb}
use node_ipc.Text.{Text, text, text_eq}
use node_ipc.Json.{Value, undefined, null, bool, num, str, arr, obj, end, field, lookup}
use node_ipc.Config.{Config, limited}

-- Whether the arguments pass. The port is none if it is no whole number from 0 on.
unfoldable pub arguments_pass : Text → Option ℕ → Bool
unfolding text_eq
arguments_pass role port =
    (text_eq role (text "server") || text_eq role (text "client"))
    && elim port [ none ↦ false | some n ↦ leb 1 n && leb n 65535 ]

-- What is set in the configuration, apart from the parser.
unfoldable pub demo_config : Text → ℕ → Config → Config
demo_config host port c = record c {
  silent = true;
  sync = false;
  stop_retrying = true;
  max_retries = limited 0;
  network_host = host;
  network_port = port;
  max_connections = 1;
}

unfoldable pub message_is : Text → Value → Bool
unfolding text_eq
message_is message v = elim v [ str t ↦ text_eq t message | _ ↦ false ]

-- Whether `expectMessage` returns.
unfoldable pub expects : Text → Value → Bool
unfolding message_is lookup
expects message (obj fields) = message_is message (lookup (text "message") fields)
expects message _ = false
