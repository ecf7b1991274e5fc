-- ===== src/Service/Connecting.antt =====
-- `connect`, `connectNet` and `disconnect` of services/IPC.js. A parser of the application's own stands
-- for one of the library's, as `custom` says; `text_of` is what JavaScript makes of an argument that a
-- text is expected for, and `port_of` what Node makes of a port.
use node_ipc.Base.{ℕ, Bool, true, false, not, List, [], ◌∷◌, ◌++◌, none, some, if◌then◌else◌}
use node_ipc.Text.{Text}
use node_ipc.Outcome.{type_error, Outcome, returned, threw, Run, and_then}
use node_ipc.Config.{Supplied}
use node_ipc.Parser.{Parser}
use node_ipc.Parser.Create.{Built, built_in, supplied, create_parser}
use node_ipc.Client.{Client, new_client}
use node_ipc.Client.Connection
use node_ipc.Client.Connection.{drop_client}
use node_ipc.Service.{Argument, function, Ipc, client_of, without, with_client}
use node_ipc.Service.Arguments.{
  given, PathArguments, path_arguments, TargetArguments, connect_net_arguments,
}

-- `callback(…)`: without one, an empty function; what is no function cannot be called.
unfoldable pub call_back : Bool → Argument → Run Ipc (Unit {0})
unfolding given
call_back with_ipc (function f) i = (
  record i { calls = i.calls ++ (record { callback = f; with_ipc = with_ipc }) ∷ [] },
  returned tt,
)
call_back with_ipc callback i = if given callback then (i, threw type_error) else (i, returned tt)

-- `!this.of[id].socket.destroyed`, which holds also for a client that has no socket.
unfoldable pub counts_as_connected : Client → Bool
counts_as_connected c = elim c.socket [ none ↦ true | some k ↦ not (c.sockets k).is_destroyed ]

-- `disconnect`.
unfoldable pub disconnect : Text → Ipc → Ipc
unfolding client_of without drop_client
disconnect id i = elim (client_of id i.of) [
  | none ↦ i
  | some c ↦ record i { of = without id i.of; former = drop_client true c ∷ i.former }
]

module _ (windows : Bool) (read_file : Text → Outcome (List ℕ)) (custom : Supplied → Outcome Parser)
    (text_of : Argument → Text) (port_of : Argument → ℕ) where
  unfoldable pub use_built : Outcome Built → Outcome Parser
  use_built (returned (built_in p)) = returned p
  use_built (returned (supplied s)) = custom s
  use_built (threw e) = threw e

  -- A new client in the place of the one that had the id, if any, and its first connection. It stands in
  -- `of` also if `connect` throws.
  unfoldable pub start_client : Outcome Parser → Text → Text → ℕ → Run Ipc (Unit {0})
  unfolding with_client new_client
  start_client (threw e) id path port i = (i, threw e)
  start_client (returned p) id path port i =
      let (c, o) = Connection.connect windows read_file (new_client i.config p path port) in
      and_then (record i { of = with_client id c i.of }, o) (λ _ j. (j, returned tt))

  -- The end that `connect` and `connectNet` share.
  unfoldable pub connect_client : Text → Text → ℕ → Argument → Run Ipc (Unit {0})
  unfolding client_of counts_as_connected drop_client call_back start_client use_built create_parser
      with_client
  connect_client id path port callback i =
      let fresh = λ (j : Ipc).
        and_then (start_client (use_built (create_parser j.config)) id path port j)
          (λ _. call_back true callback) in
      elim (client_of id i.of) [
        | none ↦ fresh i
        | some c ↦
            if counts_as_connected c
            then call_back false callback i
            else fresh (record i {
              of = with_client id (drop_client false c) i.of;
              former = drop_client false c ∷ i.former;
            })
      ]

  -- `connect`, which the application knows as `connectTo`
  unfoldable pub connect_to : Argument → PathArguments → Run Ipc (Unit {0})
  unfolding given connect_client path_arguments
  connect_to id a i =
      if not (given id)
      then (i, returned tt)
      else let b = path_arguments (i.config.socket_root ++ (i.config.appspace ++ text_of id)) a in
        connect_client (text_of id) (text_of b.path) 0 b.callback i

  -- `connectNet`, which the application knows as `connectToNet`
  unfoldable pub connect_to_net : Argument → TargetArguments → Run Ipc (Unit {0})
  unfolding given connect_client connect_net_arguments
  connect_to_net id a i =
      if not (given id)
      then (i, returned tt)
      else let b = connect_net_arguments i.config a in
        connect_client (text_of id) (text_of b.host) (port_of b.port) b.callback i
