-- ===== src/Service/Serving.antt =====
-- `serve` and `serveNet` of services/IPC.js.
use node_ipc.Base.{ℕ, true, ◌++◌, some, if◌then◌else◌}
use node_ipc.Text.{Text, text, text_eq}
use node_ipc.Outcome.{Outcome, returned, threw, Run}
use node_ipc.Parser.{Parser}
use node_ipc.Server.{Server, new_server, set_udp4, set_udp6}
use node_ipc.Service.{Argument, absent, string, Ipc}
use node_ipc.Service.Arguments.{NetArguments, serve_net_arguments, PathArguments, path_arguments}

-- `this.server[UDPType]=true`: any other name than the two sets a property that nothing reads.
unfoldable pub set_udp : Argument → Server → Server
unfolding text_eq set_udp4 set_udp6
set_udp (string t) s =
    if text_eq t (text "udp4")
    then set_udp4 true
        (if text_eq s.path (text "::1") then record s { path = text "127.0.0.1" } else s)
    else if text_eq t (text "udp6")
    then set_udp6 true s
    else s
set_udp _ s = s

-- `parser` is what `createParser(config)` returned in the constructor of the server.
module _ (text_of : Argument → Text) (port_of : Argument → ℕ) where
  unfoldable pub put_server : Outcome Parser → Text → ℕ → Argument → Argument → Run Ipc (Unit {0})
  unfolding set_udp new_server
  put_server (threw e) path port udp_type callback i = (i, threw e)
  put_server (returned p) path port udp_type callback i = (
    record i {
      server = some (set_udp udp_type (new_server path i.config p port));
      on_start = callback;
    },
    returned tt,
  )

  -- `serve`
  unfoldable pub serve : Outcome Parser → PathArguments → Run Ipc (Unit {0})
  unfolding path_arguments put_server
  serve parser a i =
      let b = path_arguments (i.config.socket_root ++ (i.config.appspace ++ i.config.id)) a in
      put_server parser (text_of b.path) 0 absent b.callback i

  -- `serveNet`
  unfoldable pub serve_net : Outcome Parser → NetArguments → Run Ipc (Unit {0})
  unfolding serve_net_arguments put_server
  serve_net parser a i =
      let b = serve_net_arguments i.config a in
      put_server parser (text_of b.host) (port_of b.port) b.udp_type b.callback i
