-- ===== src/Client/Connection.antt =====
-- `connect`, `connectionOptions`, `connected` and `closed` of dao/client.js, with the callback of
-- the retry timer, and what `disconnect` and `connect` of services/IPC.js do to a client.

use node_ipc.Base.{
  ℕ, suc, Bool, true, false, not, ◌&&◌, ◌||◌, List, [], ◌∷◌, ◌++◌, map, Option, none, some, ◌==◌,
  if◌then◌else◌,
}
use node_ipc.Text.{Text, text, starts_with}
use node_ipc.Outcome.{protocol, assured_transport, Outcome, returned, threw, Run, and_then}
use node_ipc.Config.{TlsSetting, no_tls, tls_options, not_an_object, TlsOptions}
use node_ipc.Tls.{create_client_tls_options}
use node_ipc.Client.{
  Client, Pending, opened, unsubscribed, Options, local_path, network, nothing, fresh_socket,
  update, emit_effect, no_subscribers, publish, used_up, decrement, is_assured,
}
use node_ipc.Client.Receiving.{clear_message_timer, destroy}

unfoldable pub slash_to_dash : Text → Text
slash_to_dash path = map (λ c. if c == b'/' then b'-' else c) path

unfoldable pub strip_slash : Text → Text
strip_slash [] = []
strip_slash (c ∷ path) = if c == b'/' then path else c ∷ path

-- The name of a Windows pipe.
unfoldable pub pipe_path : Text → Text
unfolding slash_to_dash strip_slash
pipe_path path = text "\\\\.\\pipe\\" ++ slash_to_dash (strip_slash path)

unfoldable pub uses_tls : TlsSetting → Bool
uses_tls no_tls = false
uses_tls (tls_options o) = true
uses_tls not_an_object = true

-- `clearTimeout(this.retryTimer)`
unfoldable pub remove_timer : ℕ → List Pending → List Pending
remove_timer t [] = []
remove_timer t (p ∷ ps) = let rest = remove_timer t ps in if p.timer == t then rest else p ∷ rest

unfoldable pub clear_retry : Client → Client
unfolding remove_timer
clear_retry c = elim c.retry_timer [
  | none ↦ c
  | some t ↦ record c { retry_timer = none; pending = remove_timer t c.pending }
]

-- `this.socket === socket`
unfoldable pub is_current : ℕ → Client → Bool
is_current id c = elim c.socket [ none ↦ false | some s ↦ s == id ]

-- `connected`
unfoldable pub connected : ℕ → Client → Client
unfolding is_current
connected id c =
    if is_current id c
    then publish "connect" nothing (record c { retries_remaining = c.config.max_retries })
    else c

-- Whether `closed` gives up.
unfoldable pub gives_up : Client → Bool
unfolding used_up
gives_up c =
    c.config.stop_retrying
    || used_up c.retries_remaining
    || c.explicitly_disconnected
    || c.protocol_violation

unfoldable pub set_retry : ℕ → Client → Client
set_retry id c = record c {
  retry_timer = some c.next_timer;
  pending = c.pending ++ (record { timer = c.next_timer; for_socket = id }) ∷ [];
  next_timer = suc c.next_timer;
}

-- `closed`
unfoldable pub closed : ℕ → Client → Client
unfolding clear_message_timer is_current gives_up set_retry destroy
closed id c =
    let c' = clear_message_timer id c in
    if not (is_current id c')
    then c'
    else if gives_up c'
    then publish "destroy" nothing (destroy id (publish "disconnect" nothing c'))
    else publish "disconnect" nothing (set_retry id c')

module _ (windows : Bool) (read_file : Text → Outcome (List ℕ)) where
  -- `connectionOptions`
  unfoldable pub connection_options : Client → Options
  unfolding pipe_path starts_with
  connection_options c =
      if c.port == 0
      then local_path (
          if windows && not (starts_with (text "\\\\.\\pipe\\") c.path)
          then pipe_path c.path
          else c.path)
      else network c.path c.port c.config.interface

  unfoldable pub secure : Client → Bool
  unfolding uses_tls
  secure c = not (c.port == 0) && uses_tls c.config.tls

  -- A new socket becomes the current one.
  unfoldable pub open_socket : Option TlsOptions → Client → Client
  unfolding connection_options
  open_socket o c = emit_effect (opened c.next_socket (connection_options c) o) (record c {
    sockets = update c.sockets c.next_socket fresh_socket;
    socket = some c.next_socket;
    next_socket = suc c.next_socket;
  })

  unfoldable pub open_secure : Client → Outcome TlsOptions → Client × Outcome (Option ℕ)
  unfolding open_socket
  open_secure c (returned o) = (open_socket (some o) c, returned (some c.next_socket))
  open_secure c (threw e) = (c, threw e)

  -- The part of `connect` behind its early returns.
  unfoldable pub open_connection : Run Client (Option ℕ)
  unfolding secure open_secure open_socket is_assured
  open_connection c =
      if not (c.port == 0) && is_assured c.parser && not (secure c)
      then (c, threw (protocol assured_transport))
      else if secure c
      then open_secure c (create_client_tls_options read_file c.config.tls (is_assured c.parser))
      else (open_socket none c, returned (some c.next_socket))

  unfoldable pub live_socket : Client → Option ℕ
  live_socket c = elim c.socket [
    | none ↦ none
    | some id ↦ if (c.sockets id).is_destroyed then none else some id
  ]

  -- `connect`
  unfoldable pub connect : Run Client (Option ℕ)
  unfolding open_connection clear_retry live_socket
  connect c = elim c.path [
    | [] ↦ (c, returned none)
    | u ∷ path ↦ elim (live_socket c) [
      | some id ↦ (c, returned (some id))
      | none ↦ open_connection (clear_retry c)
    ]
  ]

  -- The callback of the retry timer that `closed` set for a socket.
  unfoldable pub retry : ℕ → Run Client (Unit {0})
  unfolding connect destroy decrement
  retry id c =
      let c' = record c { retry_timer = none } in
      if c'.explicitly_disconnected
      then (c', returned tt)
      else if c'.config.stop_retrying
      then (publish "destroy" nothing (destroy id c'), returned tt)
      else and_then (connect (record c' { retries_remaining = decrement c'.retries_remaining }))
          (λ _ c''. (c'', returned tt))

unfoldable pub destroy_current : Option ℕ → Client → Client
unfolding destroy
destroy_current none c = c
destroy_current (some id) c = destroy id c

-- What `disconnect` and `connect` of services/IPC.js do to a client that they drop;
-- only the first calls `reset`.
unfoldable pub forget_subscribers : Bool → Client → Client
forget_subscribers resets c =
    if resets then record (emit_effect unsubscribed c) { subscribers = no_subscribers } else c

unfoldable pub drop_client : Bool → Client → Client
unfolding clear_retry forget_subscribers destroy_current
drop_client resets c =
    destroy_current c.socket
      (forget_subscribers resets (clear_retry (record c { explicitly_disconnected = true })))
