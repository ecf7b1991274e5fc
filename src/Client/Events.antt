-- ===== src/Client/Events.antt =====
-- What happens to a client: calls of its methods, and what Node reports of its sockets and timers.

use node_ipc.Base.{◌≡◌, ℕ, ◌-◌, Bool, true, false, ◌&&◌, ◌||◌, List, [], ◌∷◌, ◌==◌, if◌then◌else◌}
use node_ipc.Text.{Text}
use node_ipc.Outcome.{Thrown, Outcome, returned, Run, and_then}
use node_ipc.Json.{Value}
use node_ipc.Parser.{Wire}
use node_ipc.Client.{Client, Effect, Pending, failure, publish}
use node_ipc.Client.Connection.{
  connect, connected, closed, retry, is_current, remove_timer, drop_client,
}
use node_ipc.Client.Receiving.{set_socket, receive, message_timer_fired}
use node_ipc.Client.Sending.{emit, write_socket}

pub data Event : Type 0 where
  -- A socket is connected, has data, reports an error, has passed on so much of its `writableLength`, or is
  -- closed.
  connects : ℕ → Event
  arrives : ℕ → Text → Event
  errors : ℕ → Thrown → Event
  drains : ℕ → ℕ → Event
  closes : ℕ → Event
  -- A timer fires.
  retry_fires : Pending → Event
  message_fires : ℕ → Event
  -- The queue runs a job; the application calls `emit` or `connect`, or drops the client, with a reset or
  -- without.
  runs_job : Wire → Event
  emits : Value → Value → Event
  reconnects : Event
  drops : Bool → Event
  -- The application subscribes to events, or unsubscribes.
  subscribes : (List Effect → Outcome (Unit {0})) → Event

unfoldable pub is_pending : Pending → List Pending → Bool
is_pending p [] = false
is_pending p (q ∷ qs) = q.timer == p.timer && q.for_socket == p.for_socket || is_pending p qs

-- No event of a socket comes behind its `close`, and only a timer that is set fires.
abbrev pub Enabled : Event → Client → Type 0
Enabled (connects id) c = (c.sockets id).closed ≡ false
Enabled (arrives id chunk) c = (c.sockets id).closed ≡ false
Enabled (errors id e) c = (c.sockets id).closed ≡ false
Enabled (drains id n) c = (c.sockets id).closed ≡ false
Enabled (closes id) c = (c.sockets id).closed ≡ false
Enabled (retry_fires p) c = is_pending p c.pending ≡ true
Enabled (message_fires id) c = (c.sockets id).message_timer ≡ true
Enabled _ c = Unit {0}

-- The handler of `data` looks at the current socket only.
unfoldable pub on_data : ℕ → Text → Run Client (Unit {0})
unfolding is_current receive
on_data id chunk c = if is_current id c then receive id chunk c else (c, returned tt)

-- The handler of `error`.
unfoldable pub on_error : ℕ → Thrown → Client → Client
unfolding is_current
on_error id e c = if is_current id c then publish "error" (failure e) c else c

-- The bookkeeping of Node itself: a socket that closes is destroyed by then.
unfoldable pub mark_closed : ℕ → Client → Client
mark_closed id c = set_socket id (record (c.sockets id) { closed = true; is_destroyed = true }) c

unfoldable pub mark_drained : ℕ → ℕ → Client → Client
mark_drained id n c =
    let s = c.sockets id in set_socket id (record s { writable_length = s.writable_length - n }) c

unfoldable pub forget_timer : Pending → Client → Client
unfolding remove_timer
forget_timer p c = record c { pending = remove_timer p.timer c.pending }

abbrev pub quietly {ℓ} : {A : Type ℓ} → Client × Outcome A → Client × Outcome (Unit {0})
quietly m = and_then m (λ _ c. (c, returned tt))

module _ (windows : Bool) (read_file : Text → Outcome (List ℕ)) where
  unfoldable pub step : Event → Run Client (Unit {0})
  unfolding connected closed retry mark_closed mark_drained forget_timer on_data on_error
      message_timer_fired drop_client
  step (connects id) c = (connected id c, returned tt)
  step (arrives id chunk) c = on_data id chunk c
  step (errors id e) c = (on_error id e c, returned tt)
  step (drains id n) c = (mark_drained id n c, returned tt)
  step (closes id) c = (closed id (mark_closed id c), returned tt)
  step (retry_fires p) c = retry windows read_file p.for_socket (forget_timer p c)
  step (message_fires id) c = message_timer_fired id c
  step (subscribes f) c = (record c { subscribers = f }, returned tt)
  step (runs_job m) c = quietly (write_socket m c)
  step (emits type data') c = quietly (emit type data' c)
  step reconnects c = quietly (connect windows read_file c)
  step (drops resets) c = (drop_client resets c, returned tt)

  -- A history: each event is possible when it comes.
  pub data History (start : Client) : Client → Type 0 where
    begin : History start start
    next : {c : Client} (e : Event) → History start c → Enabled e c → History start (step e c).0
