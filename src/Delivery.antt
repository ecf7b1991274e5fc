-- ===== src/Delivery.antt =====
-- A client of dao/client.js with a server of dao/socketServer.js at the other end of its socket.
pub mod Hearing
pub mod Telling
pub mod Catching
pub mod Spreading
pub mod Broadcasting
use node_ipc.Base.{ℕ, List, [], ◌∷◌, ◌++◌, ◌==◌, if◌then◌else◌}
use node_ipc.Text.{Text}
use node_ipc.Outcome.{Outcome, returned, Run, and_then, each}
use node_ipc.Parser.{Wire, chars, packet}
use node_ipc.Parser.RoundTrip.{Event}
use node_ipc.Client.{Client, Effect, written, published, opened, destroyed, queued, queue_next}
use node_ipc.Client.Sending.{emit}
use node_ipc.Client.Receiving.{receive}
use node_ipc.Client.Events.{quietly}
use node_ipc.Server
use node_ipc.Server.{Server}
use node_ipc.Server.Receiving.{receive_from}
use node_ipc.Server.Sending.{broadcast}
use node_ipc.Server.Events

-- The application calls `emit` with one event after another, up to a call that throws.
unfoldable pub emit_all : List Event → Run Client (Unit {0})
unfolding emit
emit_all es = each (λ e c. quietly (emit e.type e.content c)) es

-- The text that an effect hands to a socket.
unfoldable pub handed : ℕ → Effect → Text
handed id (written j (chars t)) = if j == id then t else []
handed id _ = []

-- The text that a socket has been handed, in order.
unfoldable pub outgoing : ℕ → List Effect → Text
unfolding handed
outgoing id [] = []
outgoing id (e ∷ es) = handed id e ++ outgoing id es

-- The chunks of a socket arrive at the server, up to one whose handler throws.
unfoldable pub receive_all : ℕ → List Text → Run Server (Unit {0})
unfolding receive_from
receive_all k cs = each (λ c s. receive_from k c s) cs

-- The application calls `broadcast` with one event after another, up to a call that throws.
unfoldable pub broadcast_all : ℕ → List Event → Run Server (Unit {0})
unfolding broadcast
broadcast_all depth es = each (λ e s. Events.quietly (broadcast depth e.type e.content s)) es

-- The text that an effect of a server hands to a socket.
unfoldable pub handed_by : ℕ → Server.Effect → Text
handed_by k (Server.Effect.written j (chars t)) = if j == k then t else []
handed_by k _ = []

unfoldable pub outgoing_by : ℕ → List Server.Effect → Text
unfolding handed_by
outgoing_by k [] = []
outgoing_by k (e ∷ es) = handed_by k e ++ outgoing_by k es

-- The chunks of a socket arrive at the client, up to one whose handler throws.
unfoldable pub catch_all : ℕ → List Text → Run Client (Unit {0})
unfolding receive
catch_all id cs = each (λ chunk c. receive id chunk c) cs
