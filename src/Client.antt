-- ===== src/Client.antt =====
-- The class `Client` of dao/client.js: its fields, the sockets that it makes, and its constructor.
-- What the program calls outside itself (sockets, subscribers, js-queue) is a list of effects, and
-- what comes back (data, closings, timers that fire) are the events of Client/Events. The subscribers of
-- messages, of `data` and of the `error` of a protocol failure return or throw; those of `connect`,
-- `disconnect`, `destroy` and of a socket error are taken to return. Subscribers do not call the client
-- back from inside an event.
pub mod Connection
pub mod Receiving
pub mod Sending
pub mod Events
pub mod Steady
pub mod Retry
pub mod Dropped
pub mod Backlog
pub mod Contained
use Prim.Native.String.{String}
use node_ipc.Base.{
  ℕ, zero, suc, ◌+◌, ◌-◌, Bool, true, false, not, ◌&&◌, ◌||◌, List, [], ◌∷◌, ◌++◌, map, Option,
  none, some, ltb, leb, ◌==◌, if◌then◌else◌,
}
use node_ipc.Text.{Text, text}
use node_ipc.Outcome.{Thrown, Outcome, returned}
use node_ipc.Json.{Value}
use node_ipc.Config.{
  Config, Retries, unlimited, limited, not_a_number, Amount, infinite, whole, other, TlsOptions,
  Interface,
}
use node_ipc.Parser.{Parser, raw, fast, guarded, assured, Limits, Wire}

-- What a subscriber is handed.
pub data Payload : Type 0 where
  nothing : Payload
  value : Value → Payload
  bytes : List ℕ → Payload
  failure : Thrown → Payload

-- `connectionOptions()`: the options of a local or of a network socket.
pub data Options : Type 0 where
  local_path : Text → Options
  network : Text → ℕ → Interface → Options

pub data Effect : Type 0 where
  published : Value → Payload → Effect
  opened : ℕ → Options → Option TlsOptions → Effect
  written : ℕ → Wire → Effect
  destroyed : ℕ → Effect
  queued : Wire → Effect
  queue_next : Effect
  -- `reset`: the subscribers are forgotten.
  unsubscribed : Effect

-- A socket with the fields that the client hangs on it. `closed` says that its `close` event has
-- come; no event of a socket comes after that.
pub record Socket : Type 0 where
  pub is_destroyed : Bool
  pub closed : Bool
  pub buffer : Text
  pub message_timer : Bool
  pub writable_length : ℕ

-- A retry timer that has been set and neither fired nor been cleared, with the socket that its
-- callback has in scope.
pub record Pending : Type 0 where
  pub timer : ℕ
  pub for_socket : ℕ

pub record Client : Type 0 where
  pub config : Config
  pub path : Text
  pub port : ℕ
  pub parser : Parser
  pub retries_remaining : Retries
  pub socket : Option ℕ
  pub retry_timer : Option ℕ
  pub explicitly_disconnected : Bool
  pub protocol_violation : Bool
  pub sockets : ℕ → Socket
  pub next_socket : ℕ
  pub pending : List Pending
  pub next_timer : ℕ
  pub effects : List Effect
  -- What the subscribers do when an event has been published, given all that has happened up to it.
  pub subscribers : List Effect → Outcome (Unit {0})

-- Without a subscriber nothing is thrown.
abbrev pub no_subscribers : List Effect → Outcome (Unit {0})
no_subscribers es = returned tt

abbrev pub fresh_socket : Socket
fresh_socket = record {
  is_destroyed = false;
  closed = false;
  buffer = [];
  message_timer = false;
  writable_length = 0;
}

-- `config.maxRetries || 0`
unfoldable pub initial_retries : Retries → Retries
initial_retries unlimited = unlimited
initial_retries (limited n) = limited n
initial_retries not_a_number = limited 0

-- `retriesRemaining < 1`; no comparison with NaN holds.
unfoldable pub used_up : Retries → Bool
used_up unlimited = false
used_up (limited n) = ltb n 1
used_up not_a_number = false

-- `retriesRemaining--`
unfoldable pub decrement : Retries → Retries
decrement unlimited = unlimited
decrement (limited n) = limited (n - 1)
decrement not_a_number = not_a_number

-- `this.parser` is what `createParser(config)` returned.
unfoldable pub new_client : Config → Parser → Text → ℕ → Client
unfolding initial_retries
new_client config parser path port = record {
  config = config;
  path = path;
  port = port;
  parser = parser;
  retries_remaining = initial_retries config.max_retries;
  socket = none;
  retry_timer = none;
  explicitly_disconnected = false;
  protocol_violation = false;
  sockets = λ _. fresh_socket;
  next_socket = 0;
  pending = [];
  next_timer = 0;
  effects = [];
  subscribers = no_subscribers;
}

abbrev pub update : (ℕ → Socket) → ℕ → Socket → ℕ → Socket
update f id s i = if i == id then s else f i

abbrev pub emit_effect : Effect → Client → Client
emit_effect e c = record c { effects = c.effects ++ e ∷ [] }

-- `this.publish(type,data)`
abbrev pub publish : String → Payload → Client → Client
publish type data' c = emit_effect (published (Value.str (text type)) data') c

-- What comes back from a `publish` that has just been made: what a subscriber throws passes through.
abbrev pub after_publish : Client → Client × Outcome (Unit {0})
after_publish c = (c, c.subscribers c.effects)

unfoldable pub is_raw : Parser → Bool
is_raw (raw encoding) = true
is_raw (fast delimiter) = false
is_raw (guarded delimiter l) = false
is_raw (assured delimiter l allowed) = false

-- `parser.profile === 'assured'`
unfoldable pub is_assured : Parser → Bool
is_assured (raw encoding) = false
is_assured (fast delimiter) = false
is_assured (guarded delimiter l) = false
is_assured (assured delimiter l allowed) = true

-- `Boolean(parser.messageTimeout)`
unfoldable pub timed : Amount → Bool
timed infinite = true
timed (whole n) = ltb 0 n
timed other = false

unfoldable pub has_timeout : Parser → Bool
unfolding timed
has_timeout (raw encoding) = false
has_timeout (fast delimiter) = false
has_timeout (guarded delimiter l) = timed l.message_timeout
has_timeout (assured delimiter l allowed) = timed l.message_timeout

unfoldable pub bound : Amount → Option ℕ
bound infinite = none
bound (whole zero) = none
bound (whole (suc n)) = some (suc n)
bound other = none

-- `parser.maxPendingBytes`, where it is finite and positive.
unfoldable pub max_pending : Parser → Option ℕ
unfolding bound
max_pending (raw encoding) = none
max_pending (fast delimiter) = none
max_pending (guarded delimiter l) = bound l.max_pending_bytes
max_pending (assured delimiter l allowed) = bound l.max_pending_bytes
