-- ===== src/Client/Steady.antt =====
-- What receiving and sending leave alone: the connection, its retry timer, and the bound of what a socket
-- has to write.
pub mod Sending
use node_ipc.Base.{
  ◌+◌, ◌-◌, ◌≤◌, ◌≡◌, refl, sym, ap, subst, ◌∙◌, ℕ, Bool, true, false, List, [], ◌∷◌, Option, none,
  some, if◌then◌else◌, arith, ltb,
}
use node_ipc.Text.{Text, text}
use node_ipc.Outcome.{backpressure, Thrown, protocol, Outcome, returned, threw, and_then}
use node_ipc.Json.{Value, undefined, str, get}
use node_ipc.Parser.{chars, Wire, encode}
use node_ipc.Parser.Reading.{read}
use node_ipc.Parser.Safety.{read-keeps}
use node_ipc.Client.{
  is_raw, has_timeout, failure, queued, Client, Socket, Effect, update, emit_effect, queue_next,
  publish, after_publish, value, bytes, Payload, max_pending,
}
use node_ipc.Client.Receiving.{
  set_socket, clear_message_timer, start_message_timer, destroy, protocol_failure, publish_typed,
  publish_message, dispatch, receive_raw, handle_read_error, keep_buffer, receive_framed,
  time_message, receive_guarded, receive, message_timer_fired,
}
use node_ipc.Client.Sending.{
  Sent, not_sent, handed_over, in_queue, size, write_to, write_bounded, write_socket, send,
  send_encoded, emit,
}
use node_ipc.Client.Connection.{is_current}
use node_ipc.Client.Events.{on_data, on_error, mark_drained}

pub record Same (c c' : Client) : Type 0 where
  pub config : c'.config ≡ c.config
  pub timer : c'.retry_timer ≡ c.retry_timer
  pub pending : c'.pending ≡ c.pending
  pub current : c'.socket ≡ c.socket
  pub left : c'.retries_remaining ≡ c.retries_remaining
  pub dropped : c'.explicitly_disconnected ≡ c.explicitly_disconnected
  pub made : c'.next_socket ≡ c.next_socket
  pub closed : (id : ℕ) → (c'.sockets id).closed ≡ (c.sockets id).closed
  pub parser : c'.parser ≡ c.parser
  -- A bound on the `writableLength` of each socket stays one.
  pub sized :
      (n : ℕ)
      → max_pending c.parser ≡ some n
      → ((id : ℕ) → (c.sockets id).writable_length ≤ n)
      → (id : ℕ) → (c'.sockets id).writable_length ≤ n

pub Same-refl : (c : Client) → Same c c
Same-refl c = record {
  config = refl;
  timer = refl;
  pending = refl;
  current = refl;
  left = refl;
  dropped = refl;
  made = refl;
  closed = λ id. refl;
  parser = refl;
  sized = λ n e h. h;
}

-- A new value of a socket with the same `closed`.
some-eq : {a b : ℕ} → some a ≡ some b → a ≡ b
some-eq h = cc

update-closed :
    (f : ℕ → Socket) (id : ℕ) (s : Socket) (i : ℕ)
    → s.closed ≡ (f id).closed
    → (update f id s i).closed ≡ (f i).closed
update-closed f id s i h = ground (arith, h)

pub update-sized :
    (f : ℕ → Socket) (id : ℕ) (s : Socket) (i n : ℕ)
    → s.writable_length ≤ n
    → (f i).writable_length ≤ n
    → (update f id s i).writable_length ≤ n
update-sized f id s i n h k = ground (arith, h, k)

module _ {c c' : Client} (s : Same c c') where
  Same-set_sized :
      (id : ℕ) (t : Socket)
      → t.closed ≡ (c'.sockets id).closed
      → ((n : ℕ)
          → max_pending c'.parser ≡ some n
          → (c'.sockets id).writable_length ≤ n
          → t.writable_length ≤ n)
      → Same c (set_socket id t c')
  Same-set_sized id t h w = record {
    config = s.config;
    timer = s.timer;
    pending = s.pending;
    current = s.current;
    left = s.left;
    dropped = s.dropped;
    made = s.made;
    closed = λ i. update-closed c'.sockets id t i h ∙ s.closed i;
    parser = s.parser;
    sized = λ n e b i.
        update-sized c'.sockets id t i n (w n (ap max_pending s.parser ∙ e) (s.sized n e b id))
          (s.sized n e b i);
  }

  Same-set_socket :
      (id : ℕ) (t : Socket)
      → t.closed ≡ (c'.sockets id).closed
      → t.writable_length ≡ (c'.sockets id).writable_length
      → Same c (set_socket id t c')
  Same-set_socket id t h k = Same-set_sized id t h (λ n e b. omega (arith, k, b))

  Same-emit_effect : (e : Effect) → Same c (emit_effect e c')
  Same-emit_effect e = record {
    config = s.config;
    timer = s.timer;
    pending = s.pending;
    current = s.current;
    left = s.left;
    dropped = s.dropped;
    made = s.made;
    closed = s.closed;
    parser = s.parser;
    sized = s.sized;
  }

  pub Same-clear_message_timer : (id : ℕ) → Same c (clear_message_timer id c')
  unfolding clear_message_timer
  Same-clear_message_timer id =
      Same-set_socket id (record (c'.sockets id) { message_timer = false }) refl refl

  Same-start_message_timer : (id : ℕ) → Same c (start_message_timer id c')
  unfolding start_message_timer
  Same-start_message_timer id =
      Same-set_socket id (record (c'.sockets id) { message_timer = true }) refl refl

  Same-queue_next : (b : Bool) → Same c (if b then emit_effect queue_next c' else c')
  Same-queue_next true = Same-emit_effect queue_next
  Same-queue_next false = s

-- The subscribers do not matter to it.
pub Same-subscribes :
    {c c' : Client} (f : List Effect → Outcome (Unit {0}))
    → Same c c'
    → Same c (record c' { subscribers = f })
Same-subscribes f s = record {
  config = s.config;
  timer = s.timer;
  pending = s.pending;
  current = s.current;
  left = s.left;
  dropped = s.dropped;
  made = s.made;
  closed = s.closed;
  parser = s.parser;
  sized = s.sized;
}

pub Same-destroy : {c c' : Client} (id : ℕ) → Same c c' → Same c (destroy id c')
unfolding destroy
Same-destroy {c} {c'} id s =
    Same-emit_effect
      (Same-set_socket s id (record (c'.sockets id) { is_destroyed = true }) refl refl) _

pub Same-protocol_failure :
    {c c' : Client} (id : ℕ) (e : Thrown) → Same c c' → Same c (protocol_failure id e c')
unfolding protocol_failure
Same-protocol_failure {c} {c'} id e s =
    Same-emit_effect
      (Same-destroy id (
        Same-set_socket violated id (record (c'.sockets id) { message_timer = false; buffer = [] })
          refl refl))
      _
  where
    violated : Same c (record c' { protocol_violation = true })
    violated = record {
      config = s.config;
      timer = s.timer;
      pending = s.pending;
      current = s.current;
      left = s.left;
      dropped = s.dropped;
      made = s.made;
      closed = s.closed;
      parser = s.parser;
      sized = s.sized;
    }

Same-publish_typed :
    {c c' : Client} (type : Value) (d : Payload) → Same c c' → Same c (publish_typed type d c').0
unfolding publish_typed
Same-publish_typed (str t) d s = Same-emit_effect s _
Same-publish_typed _ d s = s

-- What `dispatch` and `receiveRaw` do behind `publish`.
Same-queued :
    {c : Client} (m : Client × Outcome (Unit {0}))
    → Same c m.0
    → Same c
        (and_then m (λ _ c'.
          let q : Client × Outcome (Unit {0}) =
            (if c'.config.sync then emit_effect queue_next c' else c', returned tt) in
          q)).0
Same-queued (c', returned u) s = Same-queue_next s c'.config.sync
Same-queued (c', threw e) s = s

Same-dispatch : {c c' : Client} (m : Value) → Same c c' → Same c (dispatch m c').0
unfolding dispatch publish_message
Same-dispatch undefined s = s
Same-dispatch Value.null s = s
Same-dispatch {c' = c'} m s =
    Same-queued (publish_typed (get (text "type") m) (value (get (text "data") m)) c')
      (Same-publish_typed (get (text "type") m) (value (get (text "data") m)) s)

Same-handle_read_error :
    {c c' : Client} (id : ℕ) (e : Thrown) → Same c c' → Same c (handle_read_error id e c').0
unfolding handle_read_error
Same-handle_read_error id (protocol code) s = Same-protocol_failure id (protocol code) s
Same-handle_read_error id _ s = s

Same-keep_buffer :
    {c : Client} (id : ℕ) (m : Client × Outcome Text) → Same c m.0 → Same c (keep_buffer id m).0
unfolding keep_buffer
Same-keep_buffer id (c', returned rest) s =
    Same-set_socket s id (record (c'.sockets id) { buffer = rest }) refl refl
Same-keep_buffer id (c', threw e) s = Same-handle_read_error id e s

Same-receive_framed :
    {c c' : Client} (id : ℕ) (chunk : Text) → Same c c' → Same c (receive_framed id chunk c').0
unfolding receive_framed
Same-receive_framed {c} {c'} id chunk s =
    Same-keep_buffer id (read c'.parser dispatch (c'.sockets id).buffer chunk c') (
      read-keeps (Same c) c'.parser dispatch (λ m c₁ j. Same-dispatch m j) (c'.sockets id).buffer
        chunk c' s)

Same-time_message : {c c' : Client} (id : ℕ) → Same c c' → Same c (time_message id c')
unfolding time_message
Same-time_message {c} {c'} id s = go (c'.sockets id).is_destroyed (c'.sockets id).buffer
  where
    go :
        (b : Bool) (t : Text)
        → Same c (
            if b
            then c'
            else elim t [ [] ↦ clear_message_timer id c' | u ∷ r ↦ start_message_timer id c' ])
    go true t = s
    go false [] = Same-clear_message_timer s id
    go false (u ∷ r) = Same-start_message_timer s id

Same-receive_guarded :
    {c c' : Client} (id : ℕ) (chunk : Text) → Same c c' → Same c (receive_guarded id chunk c').0
unfolding receive_guarded
Same-receive_guarded {c} {c'} id chunk s =
    go (receive_framed id chunk c') (Same-receive_framed id chunk s)
  where
    go :
        (m : Client × Outcome (Unit {0}))
        → Same c m.0
        → Same c
            (and_then m (λ _ c₁.
              let r : Client × Outcome (Unit {0}) = (time_message id c₁, returned tt) in r)).0
    go (c₁, returned u) j = Same-time_message id j
    go (c₁, threw e) j = j

Same-receive_raw : {c c' : Client} (chunk : List ℕ) → Same c c' → Same c (receive_raw chunk c').0
unfolding receive_raw
Same-receive_raw {c' = c'} chunk s =
    Same-queued (after_publish (publish "data" (bytes chunk) c')) (Same-emit_effect s _)

Same-receive : {c c' : Client} (id : ℕ) (chunk : Text) → Same c c' → Same c (receive id chunk c').0
unfolding receive
Same-receive {c} {c'} id chunk s = go (is_raw c'.parser) (has_timeout c'.parser)
  where
    go :
        (r t : Bool)
        → Same c
            (if r
              then receive_raw chunk c'
              else if t
              then receive_guarded id chunk c'
              else receive_framed id chunk c').0
    go true t = Same-receive_raw chunk s
    go false true = Same-receive_guarded id chunk s
    go false false = Same-receive_framed id chunk s

pub Same-on_data :
    {c c' : Client} (id : ℕ) (chunk : Text) → Same c c' → Same c (on_data id chunk c').0
unfolding on_data
Same-on_data {c} {c'} id chunk s = go (is_current id c')
  where
    go :
        (b : Bool)
        → Same c
            (if b
              then receive id chunk c'
              else (let q : Client × Outcome (Unit {0}) = (c', returned tt) in q)).0
    go true = Same-receive id chunk s
    go false = s

pub Same-on_error : {c c' : Client} (id : ℕ) (e : Thrown) → Same c c' → Same c (on_error id e c')
unfolding on_error
Same-on_error {c} {c'} id e s = go (is_current id c')
  where
    go : (b : Bool) → Same c (if b then publish "error" (failure e) c' else c')
    go true = Same-emit_effect s _
    go false = s

pub Same-mark_drained : {c c' : Client} (id n : ℕ) → Same c c' → Same c (mark_drained id n c')
unfolding mark_drained
Same-mark_drained {c' = c'} id n s =
    Same-set_sized s id
      (record (c'.sockets id) { writable_length = (c'.sockets id).writable_length - n }) refl
      (λ k e b. omega (arith, b))

pub Same-message_timer_fired :
    {c c' : Client} (id : ℕ) → Same c c' → Same c (message_timer_fired id c').0
unfolding message_timer_fired
Same-message_timer_fired id s = Same-protocol_failure id _ s
