-- ===== src/Client/Backlog.antt =====
-- The `writableLength` of the sockets of a guarded client stays within `maxPendingBytes`.
use node_ipc.Base.{
  ◌≡◌, ap, ◌∙◌, ℕ, ◌≤◌, Bool, true, false, not, ◌&&◌, ◌==◌, List, [], ◌∷◌, Option, none, some,
  if◌then◌else◌, arith,
}
use node_ipc.Text.{Text}
use node_ipc.Outcome.{protocol, assured_transport, Outcome, returned, threw, and_then}
use node_ipc.Config.{Config, TlsOptions}
use node_ipc.Parser.{Parser}
use node_ipc.Tls.{create_client_tls_options}
use node_ipc.Client.{
  Client, fresh_socket, publish, nothing, decrement, max_pending, is_assured, new_client,
}
use node_ipc.Client.Sending.{write_socket, emit}
use node_ipc.Client.Receiving.{clear_message_timer, destroy}
use node_ipc.Client.Connection.{
  remove_timer, clear_retry, secure, open_socket, open_secure, open_connection, live_socket,
  connect, is_current, connected, gives_up, set_retry, closed, retry, destroy_current,
  forget_subscribers, drop_client,
}
use node_ipc.Client.Events.{
  Event, connects, arrives, errors, drains, closes, retry_fires, message_fires, runs_job, emits,
  reconnects, drops, subscribes, mark_closed, forget_timer, step, History, begin, next,
}
use node_ipc.Client.Steady.{
  Same, Same-refl, Same-clear_message_timer, Same-destroy, Same-on_data, Same-on_error,
  Same-mark_drained, Same-message_timer_fired, update-sized,
}
use node_ipc.Client.Steady.Sending.{Same-write_socket, Same-emit}

-- The parser has this `maxPendingBytes`, and no socket a larger `writableLength`.
pub record IsBounded (n : ℕ) (c : Client) : Type 0 where
  pub limit : max_pending c.parser ≡ some n
  pub sizes : (id : ℕ) → (c.sockets id).writable_length ≤ n

module _ {n : ℕ} where
  Same-IsBounded : {c c' : Client} → Same c c' → IsBounded n c → IsBounded n c'
  Same-IsBounded s b = record {
    limit = ap max_pending s.parser ∙ b.limit;
    sizes = s.sized n b.limit b.sizes;
  }

  destroy-IsBounded : {c : Client} (id : ℕ) → IsBounded n c → IsBounded n (destroy id c)
  destroy-IsBounded {c} id b = Same-IsBounded (Same-destroy id (Same-refl c)) b

  clear_retry-IsBounded : {c : Client} → IsBounded n c → IsBounded n (clear_retry c)
  unfolding clear_retry
  clear_retry-IsBounded {c} b = go c.retry_timer
    where
      go :
          (t : Option ℕ)
          → IsBounded n (elim t [
            | none ↦ c
            | some t ↦ record c { retry_timer = none; pending = remove_timer t c.pending }
          ])
      go none = b
      go (some t) = record { limit = b.limit; sizes = b.sizes }

  connected-IsBounded : {c : Client} (id : ℕ) → IsBounded n c → IsBounded n (connected id c)
  unfolding connected
  connected-IsBounded {c} id b = go (is_current id c)
    where
      go :
          (x : Bool)
          → IsBounded n (
              if x
              then publish "connect" nothing (record c { retries_remaining = c.config.max_retries })
              else c)
      go true = record { limit = b.limit; sizes = b.sizes }
      go false = b

  mark_closed-IsBounded : {c : Client} (id : ℕ) → IsBounded n c → IsBounded n (mark_closed id c)
  unfolding mark_closed
  mark_closed-IsBounded {c} id b = record {
    limit = b.limit;
    sizes = λ i. update-sized c.sockets id _ i n (b.sizes id) (b.sizes i);
  }

  closed-IsBounded : {c : Client} (id : ℕ) → IsBounded n c → IsBounded n (closed id c)
  unfolding closed set_retry
  closed-IsBounded {c} id b = go (is_current id settled) (gives_up settled)
    where
      settled : Client
      settled = clear_message_timer id c

      kept : IsBounded n settled
      kept = Same-IsBounded (Same-clear_message_timer (Same-refl c) id) b

      go :
          (x y : Bool)
          → IsBounded n (
              if not x
              then settled
              else if y
              then publish "destroy" nothing (destroy id (publish "disconnect" nothing settled))
              else publish "disconnect" nothing (set_retry id settled))
      go false y = kept
      go true true =
          let d =
            destroy-IsBounded {c = publish "disconnect" nothing settled} id
              (record { limit = kept.limit; sizes = kept.sizes }) in
          record { limit = d.limit; sizes = d.sizes }
      go true false = record { limit = kept.limit; sizes = kept.sizes }

  destroy_current-IsBounded :
      {c : Client} (o : Option ℕ) → IsBounded n c → IsBounded n (destroy_current o c)
  unfolding destroy_current
  destroy_current-IsBounded none b = b
  destroy_current-IsBounded (some id) b = destroy-IsBounded id b

  forget_subscribers-IsBounded :
      {c : Client} (resets : Bool) → IsBounded n c → IsBounded n (forget_subscribers resets c)
  unfolding forget_subscribers
  forget_subscribers-IsBounded true b = record { limit = b.limit; sizes = b.sizes }
  forget_subscribers-IsBounded false b = b

  drop_client-IsBounded :
      {c : Client} (resets : Bool) → IsBounded n c → IsBounded n (drop_client resets c)
  unfolding drop_client
  drop_client-IsBounded {c} resets b = destroy_current-IsBounded c.socket (
      forget_subscribers-IsBounded resets (
        clear_retry-IsBounded {c = record c { explicitly_disconnected = true }}
          (record { limit = b.limit; sizes = b.sizes })))

  quietly-IsBounded :
      {A : Type 0} (m : Client × Outcome A)
      → IsBounded n m.0
      → IsBounded n
          (and_then m (λ _ c. let q : Client × Outcome (Unit {0}) = (c, returned tt) in q)).0
  quietly-IsBounded (c, returned a) b = b
  quietly-IsBounded (c, threw e) b = b

  module _ (windows : Bool) (read_file : Text → Outcome (List ℕ)) where
    open_socket-IsBounded :
        {c : Client} (o : Option TlsOptions)
        → IsBounded n c
        → IsBounded n (open_socket windows read_file o c)
    unfolding open_socket
    open_socket-IsBounded {c} o b = record {
      limit = b.limit;
      sizes = λ i. update-sized c.sockets c.next_socket fresh_socket i n (omega arith) (b.sizes i);
    }

    open_secure-IsBounded :
        {c : Client} (o : Outcome TlsOptions)
        → IsBounded n c
        → IsBounded n (open_secure windows read_file c o).0
    unfolding open_secure
    open_secure-IsBounded (returned o) b = open_socket-IsBounded (some o) b
    open_secure-IsBounded (threw e) b = b

    open_connection-IsBounded :
        {c : Client} → IsBounded n c → IsBounded n (open_connection windows read_file c).0
    unfolding open_connection
    open_connection-IsBounded {c} b =
        go (not (c.port == 0) && is_assured c.parser && not (secure windows read_file c))
          (secure windows read_file c)
      where
        go :
            (x y : Bool)
            → IsBounded n
                (let q : Client × Outcome (Option ℕ) =
                    if x
                    then (c, threw (protocol assured_transport))
                    else if y
                    then open_secure windows read_file c
                        (create_client_tls_options read_file c.config.tls (is_assured c.parser))
                    else (open_socket windows read_file none c, returned (some c.next_socket)) in
                  q).0
        go true y = b
        go false true = open_secure-IsBounded _ b
        go false false = open_socket-IsBounded none b

    connect-IsBounded : {c : Client} → IsBounded n c → IsBounded n (connect windows read_file c).0
    unfolding connect
    connect-IsBounded {c} b = go c.path (live_socket windows read_file c)
      where
        go :
            (p : Text) (o : Option ℕ)
            → IsBounded n
                (let q : Client × Outcome (Option ℕ) = elim p [
                  | [] ↦ (c, returned none)
                  | u ∷ path ↦ elim o [
                    | some id ↦ (c, returned (some id))
                    | none ↦ open_connection windows read_file (clear_retry c)
                  ]
                ] in
                  q).0
        go [] o = b
        go (u ∷ p) (some id) = b
        go (u ∷ p) none = open_connection-IsBounded (clear_retry-IsBounded b)

    retry-IsBounded :
        {c : Client} (id : ℕ) → IsBounded n c → IsBounded n (retry windows read_file id c).0
    unfolding retry
    retry-IsBounded {c} id b = go c.explicitly_disconnected c.config.stop_retrying
      where
        idle : Client
        idle = record c { retry_timer = none }

        kept : IsBounded n idle
        kept = record { limit = b.limit; sizes = b.sizes }

        again : Client
        again = record idle { retries_remaining = decrement c.retries_remaining }

        go :
            (x y : Bool)
            → IsBounded n
                (let q : Client × Outcome (Unit {0}) =
                    if x
                    then (idle, returned tt)
                    else if y
                    then (publish "destroy" nothing (destroy id idle), returned tt)
                    else and_then (connect windows read_file again) (λ _ c'. (c', returned tt)) in
                  q).0
        go true y = kept
        go false true =
            let d = destroy-IsBounded id kept in record { limit = d.limit; sizes = d.sizes }
        go false false =
            quietly-IsBounded (connect windows read_file again)
              (connect-IsBounded {c = again} (record { limit = b.limit; sizes = b.sizes }))

    step-IsBounded :
        {c : Client} (e : Event) → IsBounded n c → IsBounded n (step windows read_file e c).0
    unfolding step forget_timer
    step-IsBounded {c} (connects id) b = connected-IsBounded id b
    step-IsBounded {c} (arrives id chunk) b = Same-IsBounded (Same-on_data id chunk (Same-refl c)) b
    step-IsBounded {c} (errors id e) b = Same-IsBounded (Same-on_error id e (Same-refl c)) b
    step-IsBounded {c} (drains id k) b = Same-IsBounded (Same-mark_drained id k (Same-refl c)) b
    step-IsBounded {c} (closes id) b = closed-IsBounded id (mark_closed-IsBounded id b)
    step-IsBounded {c} (retry_fires p) b =
        retry-IsBounded {c = forget_timer p c} p.for_socket
          (record { limit = b.limit; sizes = b.sizes })
    step-IsBounded {c} (message_fires id) b =
        Same-IsBounded (Same-message_timer_fired id (Same-refl c)) b
    step-IsBounded {c} (runs_job m) b =
        quietly-IsBounded (write_socket m c) (Same-IsBounded (Same-write_socket m (Same-refl c)) b)
    step-IsBounded {c} (emits type data') b =
        quietly-IsBounded (emit type data' c)
          (Same-IsBounded (Same-emit type data' (Same-refl c)) b)
    step-IsBounded {c} reconnects b =
        quietly-IsBounded (connect windows read_file c) (connect-IsBounded b)
    step-IsBounded {c} (drops resets) b = drop_client-IsBounded resets b
    step-IsBounded {c} (subscribes f) b = record { limit = b.limit; sizes = b.sizes }

    History-IsBounded :
        {start c : Client} → IsBounded n start → History windows read_file start c → IsBounded n c
    History-IsBounded b begin = b
    History-IsBounded b (next e past h) = step-IsBounded e (History-IsBounded b past)

-- For a client whose parser has a `maxPendingBytes`, the `writableLength` of each of its sockets never exceeds
-- that, which counts a string that waits by its UTF-16 units and not by its bytes, whatever happens to it: writes of the application and of the queue, reconnections, failures.
pub new_client-IsBounded :
    (windows : Bool) (read_file : Text → Outcome (List ℕ)) (config : Config) (parser : Parser)
    (path : Text) (port : ℕ) {n : ℕ} {c : Client}
    → max_pending parser ≡ some n
    → History windows read_file (new_client config parser path port) c
    → (id : ℕ) → (c.sockets id).writable_length ≤ n
unfolding new_client
new_client-IsBounded windows read_file config parser path port h past =
    (History-IsBounded windows read_file (record { limit = h; sizes = λ id. omega arith })
      past).sizes
