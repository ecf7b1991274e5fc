-- ===== src/Server/Start.antt =====
-- `start`, `startServer` and the check of the socket root of dao/socketServer.js. The file system and
-- node:path are parameters; a call that changes a file is an entry of the journal.
use node_ipc.Base.{
  ℕ, Bool, true, false, not, ◌&&◌, ◌||◌, List, [], ◌∷◌, ◌++◌, Option, none, some, ◌==◌,
  if◌then◌else◌,
}
use node_ipc.Text.{Text, text, text_eq, starts_with}
use node_ipc.Outcome.{
  Thrown, protocol, setup, assured_transport, socket_root_unsafe, unlink_not_socket, Outcome,
  returned, threw, Run, and_then,
}
use node_ipc.Config.{Config, TlsOptions}
use node_ipc.Tls.{create_server_tls_options}
use node_ipc.Client.{nothing, failure, is_assured}
use node_ipc.Client.Connection.{uses_tls, slash_to_dash, strip_slash}
use node_ipc.Server.{
  Server, Endpoint, local_endpoint, network_endpoint, datagram_endpoint, listens, emit_effect,
  publish,
}

-- What `lstatSync` says of a path. `shared` says that `mode & 0o077` is not 0.
pub record Stat : Type 0 where
  pub is_directory : Bool
  pub is_symbolic_link : Bool
  pub is_socket : Bool
  pub uid : ℕ
  pub shared : Bool

pub data FileCall : Type 0 where
  make_directory : Text → FileCall
  change_mode : Text → FileCall
  unlink : Text → FileCall

-- The operating system: node:path, `getuid` where there is one, and the file system. `lstat` returns
-- none for a path that does not exist (ENOENT); the calls that change a file may throw.
pub record System : Type 0 where
  pub windows : Bool
  pub user : Option ℕ
  pub resolve : Text → Text
  pub relative : Text → Text → Text
  pub dirname : Text → Text
  pub is_absolute : Text → Bool
  pub separator : Text
  pub lstat : List FileCall → Text → Outcome (Option Stat)
  pub attempt : FileCall → Outcome (Unit {0})
  pub read_file : Text → Outcome (List ℕ)

-- `socketRootError`
abbrev pub socket_root_error : Thrown
socket_root_error = setup socket_root_unsafe

module _ (os : System) where
  -- A call on a file: it is in the journal if it returned.
  unfoldable pub call : FileCall → Run (List FileCall) (Unit {0})
  call f done = elim (os.attempt f) [
    | returned u ↦ (done ++ f ∷ [], returned u)
    | threw e ↦ (done, threw e)
  ]

  -- `pathOutsideRoot`
  unfoldable pub path_outside_root : Text → Bool
  unfolding text_eq starts_with
  path_outside_root relative =
      text_eq relative (text "..")
      || starts_with (text ".." ++ os.separator) relative
      || os.is_absolute relative

  unfoldable pub below_root : Config → Text → Text
  below_root config path = os.relative (os.resolve config.socket_root) (os.resolve path)

  -- `socketPathInRoot`
  unfoldable pub socket_path_in_root : Config → Text → Bool
  unfolding path_outside_root below_root text_eq
  socket_path_in_root config path =
      let relative = below_root config path in
      not (text_eq relative [])
      && not (path_outside_root relative)
      && text_eq (os.dirname relative) (text ".")

  unfoldable pub is_other_user : ℕ → Bool
  is_other_user uid = elim os.user [ none ↦ false | some me ↦ not (uid == me) ]

  -- The checks of `prepareSocketRoot` on what `lstatSync` said.
  unfoldable pub check_root : Text → Stat → Run (List FileCall) (Unit {0})
  unfolding call is_other_user
  check_root root stat done =
      if not stat.is_directory || stat.is_symbolic_link
      then (done, threw socket_root_error)
      else if is_other_user stat.uid
      then (done, threw socket_root_error)
      else if stat.shared
      then call (change_mode root) done
      else (done, returned tt)

  unfoldable pub check_found : Text → Outcome (Option Stat) → Run (List FileCall) (Unit {0})
  unfolding check_root
  check_found root (returned (some stat)) done = check_root root stat done
  check_found root (returned none) done = (done, threw (Thrown.foreign 2))
  check_found root (threw e) done = (done, threw e)

  -- `prepareSocketRoot`
  unfoldable pub prepare_socket_root : Config → Text → Run (List FileCall) (Unit {0})
  unfolding path_outside_root below_root call check_found
  prepare_socket_root config path done =
      let root = os.resolve config.socket_root in
      if path_outside_root (below_root config path)
      then (done, returned tt)
      else and_then (call (make_directory root) done) (λ _ done'.
        if config.secure_socket_root
        then check_found root (os.lstat done' root) done'
        else (done', returned tt))

  unfoldable pub unlink_found : Text → Outcome (Option Stat) → Run (List FileCall) (Unit {0})
  unfolding call
  unlink_found path (returned none) done = (done, returned tt)
  unlink_found path (returned (some stat)) done =
      if stat.is_socket then call (unlink path) done else (done, threw (setup unlink_not_socket))
  unlink_found path (threw e) done = (done, threw e)

  -- `unlinkSocket`
  unfoldable pub unlink_socket : Text → Run (List FileCall) (Unit {0})
  unfolding unlink_found
  unlink_socket path done = unlink_found path (os.lstat done path) done

  -- What `start` does to files.
  unfoldable pub prepare_files : Server → Run (List FileCall) (Unit {0})
  unfolding prepare_socket_root unlink_socket
  prepare_files s done =
      if s.port == 0 && not os.windows
      then and_then (prepare_socket_root s.config s.path done)
          (λ _ done'. if s.config.unlink then unlink_socket s.path done' else (done', returned tt))
      else (done, returned tt)

  -- What the server listens on, by its port; a local endpoint of Windows is a pipe.
  unfoldable pub endpoint : Server → Endpoint
  endpoint s =
      if s.port == 0
      then local_endpoint s.path s.config.readable_all s.config.writable_all
      else network_endpoint s.port s.path

  unfoldable pub name_pipe : Server → Server
  unfolding slash_to_dash strip_slash
  name_pipe s =
      if s.port == 0 && os.windows
      then record s { path = text "\\\\.\\pipe\\" ++ slash_to_dash (strip_slash s.path) }
      else s

  -- The end of `startServer`, with the options of `tls.createServer`, if any.
  unfoldable pub listen : Option TlsOptions → Server → Server
  unfolding endpoint name_pipe
  listen o s =
      let s' = name_pipe s in emit_effect (listens (endpoint s') o) (record s' { listening = true })

  unfoldable pub listen_securely : Outcome TlsOptions → Run Server (Unit {0})
  unfolding listen
  listen_securely (returned o) s = (listen (some o) s, returned tt)
  listen_securely (threw e) s = (s, threw e)

  -- `startDatagramServer`
  unfoldable pub start_datagram_server : Server → Server
  start_datagram_server s =
      emit_effect (listens (datagram_endpoint s.udp4 s.port s.path) none)
        (record s { listening = true })

  -- `startServer`
  unfoldable pub start_server : Run Server (Unit {0})
  unfolding is_assured uses_tls start_datagram_server listen_securely listen
  start_server s =
      if is_assured s.parser
        && (s.udp4 || s.udp6 || not (s.port == 0) && not (uses_tls s.config.tls))
      then (s, threw (protocol assured_transport))
      else if s.udp4 || s.udp6
      then (start_datagram_server s, returned tt)
      else if uses_tls s.config.tls
      then listen_securely
          (create_server_tls_options os.read_file s.config.tls (is_assured s.parser)) s
      else (listen none s, returned tt)

  -- The conditions on which `start` refuses an assured local server.
  unfoldable pub refuses_local : Server → Bool
  unfolding is_assured socket_path_in_root
  refuses_local s =
      s.port == 0
      && is_assured s.parser
      && (os.windows
          || not s.config.secure_socket_root
          || not (socket_path_in_root s.config s.path))

  unfoldable pub start_behind :
      List FileCall × Outcome (Unit {0}) → Server → (Server × List FileCall) × Outcome (Unit {0})
  unfolding start_server
  start_behind (done, returned u) s = let (s', o) = start_server s in ((s', done), o)
  start_behind (done, threw e) s = ((s, done), threw e)

  -- `start`
  unfoldable pub start : Run (Server × List FileCall) (Unit {0})
  unfolding refuses_local prepare_files start_behind
  start (s, done) = elim s.path [
    | [] ↦ ((s, done), returned tt)
    | u ∷ path ↦
        if refuses_local s
        then ((s, done), threw (protocol assured_transport))
        else start_behind (prepare_files s done) s
  ]

-- `onStart`, and what comes before it when a datagram socket is bound.
unfoldable pub on_start : Server → Server
on_start s = publish "start" nothing none s

unfoldable pub on_bound : Server → Server
unfolding on_start
on_bound s = on_start (publish "connect" nothing none s)

-- `serverError`
unfoldable pub server_error : Thrown → Server → Server
server_error e s = publish "error" (failure e) none s
