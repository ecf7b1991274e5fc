-- ===== src/Client/Dropped.antt =====
-- A client that was dropped opens no socket.
use node_ipc.Base.{
  ◌≡◌, refl, ◌∙◌, ℕ, Bool, true, false, not, List, Option, none, some, if◌then◌else◌,
}
use node_ipc.Text.{Text}
use node_ipc.Outcome.{Outcome, returned, threw, and_then}
use node_ipc.Client.{Client, Pending, publish, nothing}
use node_ipc.Client.Receiving.{clear_message_timer, destroy}
use node_ipc.Client.Sending.{write_socket, emit}
use node_ipc.Client.Connection.{
  is_current, connected, gives_up, set_retry, closed, retry, clear_retry, destroy_current,
  forget_subscribers, drop_client, remove_timer,
}
use node_ipc.Client.Events.{
  Event, connects, arrives, errors, drains, closes, retry_fires, message_fires, runs_job, emits,
  reconnects, drops, subscribes, Enabled, mark_closed, forget_timer, step,
}
use node_ipc.Client.Steady.{
  Same, Same-refl, Same-subscribes, Same-on_data, Same-on_error, Same-mark_drained,
  Same-message_timer_fired,
}
use node_ipc.Client.Steady.Sending.{Same-write_socket, Same-emit}

-- Dropped, with no new socket.
pub record Quiet (c c' : Client) : Type 0 where
  pub dropped : c'.explicitly_disconnected ≡ true
  pub made : c'.next_socket ≡ c.next_socket

Quiet-Same : {c c' : Client} → c.explicitly_disconnected ≡ true → Same c c' → Quiet c c'
Quiet-Same h s = record { dropped = s.dropped ∙ h; made = s.made }

Quiet-connected :
    (id : ℕ) (c : Client) → c.explicitly_disconnected ≡ true → Quiet c (connected id c)
unfolding connected
Quiet-connected id c h = go (is_current id c)
  where
    go :
        (b : Bool)
        → Quiet c (
            if b
            then publish "connect" nothing (record c { retries_remaining = c.config.max_retries })
            else c)
    go true = record { dropped = h; made = refl }
    go false = record { dropped = h; made = refl }

Quiet-closed :
    (id : ℕ) (c : Client)
    → c.explicitly_disconnected ≡ true
    → Quiet c (closed id (mark_closed id c))
unfolding closed mark_closed clear_message_timer set_retry destroy
Quiet-closed id c h = go (is_current id marked) (gives_up marked)
  where
    marked : Client
    marked = clear_message_timer id (mark_closed id c)

    go :
        (b g : Bool)
        → Quiet c (
            if not b
            then marked
            else if g
            then publish "destroy" nothing (destroy id (publish "disconnect" nothing marked))
            else publish "disconnect" nothing (set_retry id marked))
    go false g = record { dropped = h; made = refl }
    go true true = record { dropped = h; made = refl }
    go true false = record { dropped = h; made = refl }

Quiet-drop_client : (resets : Bool) (c : Client) → Quiet c (drop_client resets c)
unfolding drop_client destroy_current forget_subscribers clear_retry destroy
Quiet-drop_client resets c = go resets c.retry_timer c.socket
  where
    dropped : Client
    dropped = record c { explicitly_disconnected = true }

    go :
        (b : Bool) (t o : Option ℕ)
        → Quiet c (
            destroy_current o (
              forget_subscribers b (elim t [
                | none ↦ dropped
                | some k ↦ record dropped { retry_timer = none; pending = remove_timer k c.pending }
              ])))
    go true none none = record { dropped = refl; made = refl }
    go true none (some id) = record { dropped = refl; made = refl }
    go true (some k) none = record { dropped = refl; made = refl }
    go true (some k) (some id) = record { dropped = refl; made = refl }
    go false none none = record { dropped = refl; made = refl }
    go false none (some id) = record { dropped = refl; made = refl }
    go false (some k) none = record { dropped = refl; made = refl }
    go false (some k) (some id) = record { dropped = refl; made = refl }

Quiet-quietly :
    {A : Type 0} {c : Client} (m : Client × Outcome A)
    → Quiet c m.0
    → Quiet c (and_then m (λ _ c'. let q : Client × Outcome (Unit {0}) = (c', returned tt) in q)).0
Quiet-quietly (c', returned a) q = q
Quiet-quietly (c', threw e) q = q

-- Calls of `connect` by the application.
unfoldable pub is_reconnect : Event → Bool
is_reconnect reconnects = true
is_reconnect _ = false

module _ (windows : Bool) (read_file : Text → Outcome (List ℕ)) where
  Quiet-retry :
      (p : Pending) (c : Client)
      → c.explicitly_disconnected ≡ true
      → Quiet c (retry windows read_file p.for_socket (forget_timer p c)).0
  unfolding retry forget_timer
  Quiet-retry p c h = go c.explicitly_disconnected h _
    where
      go :
          (b : Bool)
          → b ≡ true
          → (later : Client × Outcome (Unit {0}))
          → Quiet c
              (if b
                then (record (forget_timer p c) { retry_timer = none }, returned tt)
                else later).0
      go true e later = record { dropped = h; made = refl }
      go false e later = cc

  Quiet-step :
      (e : Event) (c : Client)
      → is_reconnect e ≡ false
      → c.explicitly_disconnected ≡ true
      → Quiet c (step windows read_file e c).0
  unfolding step is_reconnect
  Quiet-step (connects id) c n h = Quiet-connected id c h
  Quiet-step (arrives id chunk) c n h = Quiet-Same h (Same-on_data id chunk (Same-refl c))
  Quiet-step (errors id e) c n h = Quiet-Same h (Same-on_error id e (Same-refl c))
  Quiet-step (drains id k) c n h = Quiet-Same h (Same-mark_drained id k (Same-refl c))
  Quiet-step (closes id) c n h = Quiet-closed id c h
  Quiet-step (retry_fires p) c n h = Quiet-retry p c h
  Quiet-step (message_fires id) c n h = Quiet-Same h (Same-message_timer_fired id (Same-refl c))
  Quiet-step (runs_job m) c n h =
      Quiet-quietly (write_socket m c) (Quiet-Same h (Same-write_socket m (Same-refl c)))
  Quiet-step (emits type data') c n h =
      Quiet-quietly (emit type data' c) (Quiet-Same h (Same-emit type data' (Same-refl c)))
  Quiet-step reconnects c n h = cc
  Quiet-step (drops resets) c n h = Quiet-drop_client resets c
  Quiet-step (subscribes f) c n h = Quiet-Same h (Same-subscribes f (Same-refl c))

  -- A history in which the application does not call `connect`.
  pub data Afterwards (start : Client) : Client → Type 0 where
    stay : Afterwards start start
    more :
        {c : Client} (e : Event)
        → Afterwards start c
        → Enabled e c
        → is_reconnect e ≡ false
        → Afterwards start (step windows read_file e c).0

  Afterwards-Quiet :
      {start c : Client} → start.explicitly_disconnected ≡ true → Afterwards start c → Quiet start c
  Afterwards-Quiet h stay = record { dropped = h; made = refl }
  Afterwards-Quiet h (more {c} e past k n) =
      let q = Afterwards-Quiet h past in
      let r = Quiet-step e c n q.dropped in record { dropped = r.dropped; made = r.made ∙ q.made }

  -- Once a client is dropped, it stays dropped and no event makes it open a socket, timers that were set
  -- before and sockets that close later included, as long as the application does not call its `connect`.
  pub drop_client-Quiet :
      (resets : Bool) (start : Client) {c : Client}
      → Afterwards (drop_client resets start) c
      → Quiet start c
  drop_client-Quiet resets start past =
      let d = Quiet-drop_client resets start in
      let q = Afterwards-Quiet d.dropped past in
      record { dropped = q.dropped; made = q.made ∙ d.made }
