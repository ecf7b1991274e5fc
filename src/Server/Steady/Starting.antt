-- ===== src/Server/Steady/Starting.antt =====
-- What starting and stopping leave alone.
use node_ipc.Base.{
  ℕ, Bool, true, false, not, ◌&&◌, ◌||◌, List, [], ◌∷◌, ◌++◌, Option, none, some, ◌==◌,
  if◌then◌else◌,
}
use node_ipc.Text.{Text, text}
use node_ipc.Outcome.{protocol, assured_transport, Outcome, returned, threw}
use node_ipc.Config.{TlsOptions}
use node_ipc.Tls.{create_server_tls_options}
use node_ipc.Client.{is_assured}
use node_ipc.Client.Connection.{uses_tls, slash_to_dash, strip_slash}
use node_ipc.Server.{Server}
use node_ipc.Server.Sockets.{drop_all}
use node_ipc.Server.Start.{
  System, FileCall, name_pipe, listen, listen_securely, start_datagram_server, start_server,
  refuses_local, prepare_files, start_behind, start,
}
use node_ipc.Server.Steady.{Stays, Stays-clear_peer_timer, Stays-destroy_peer}

pub Stays-drop_all :
    {s : Server} (ks : List ℕ) {s' : Server} → Stays s s' → Stays s (drop_all ks s')
unfolding drop_all
Stays-drop_all [] j = j
Stays-drop_all (k ∷ ks) j = Stays-drop_all ks (Stays-destroy_peer k (Stays-clear_peer_timer j k))

module _ (os : System) {s s' : Server} (j : Stays s s') where
  Stays-name_pipe : Stays s (name_pipe os s')
  unfolding name_pipe
  Stays-name_pipe = go (s'.port == 0 && os.windows)
    where
      go :
          (b : Bool)
          → Stays s (
              if b
              then record s' { path = text "\\\\.\\pipe\\" ++ slash_to_dash (strip_slash s'.path) }
              else s')
      go true = record {
        parser = j.parser;
        sockets = j.sockets;
        last = j.last;
        made = j.made;
        origin = j.origin;
        sized = j.sized;
      }
      go false = j

  Stays-listen : (o : Option TlsOptions) → Stays s (listen os o s')
  unfolding listen
  Stays-listen o =
      let i = Stays-name_pipe in
      record {
        parser = i.parser;
        sockets = i.sockets;
        last = i.last;
        made = i.made;
        origin = i.origin;
        sized = i.sized;
      }

  Stays-start_server : Stays s (start_server os s').0
  unfolding start_server start_datagram_server listen_securely
  Stays-start_server =
      go
        (is_assured s'.parser
          && (s'.udp4 || s'.udp6 || not (s'.port == 0) && not (uses_tls s'.config.tls)))
        (s'.udp4 || s'.udp6) (uses_tls s'.config.tls)
        (create_server_tls_options os.read_file s'.config.tls (is_assured s'.parser))
    where
      go :
          (x y z : Bool) (o : Outcome TlsOptions)
          → Stays s
              (if x
                then (let q : Server × Outcome (Unit {0}) =
                      (s', threw (protocol assured_transport)) in
                    q)
                else if y
                then (start_datagram_server os s', returned tt)
                else if z
                then listen_securely os o s'
                else (listen os none s', returned tt)).0
      go true y z o = j
      go false true z o = record {
        parser = j.parser;
        sockets = j.sockets;
        last = j.last;
        made = j.made;
        origin = j.origin;
        sized = j.sized;
      }
      go false false true (returned o) = Stays-listen (some o)
      go false false true (threw e) = j
      go false false false o = Stays-listen none

  pub Stays-start : (done : List FileCall) → Stays s (start os (s', done)).0.0
  unfolding start start_behind
  Stays-start done = go s'.path (refuses_local os s') (prepare_files os s' done)
    where
      go :
          (p : Text) (b : Bool) (r : List FileCall × Outcome (Unit {0}))
          → Stays s
              (let q : (Server × List FileCall) × Outcome (Unit {0}) = elim p [
                | [] ↦ ((s', done), returned tt)
                | u ∷ path ↦
                    if b
                    then ((s', done), threw (protocol assured_transport))
                    else start_behind os r s'
              ] in
                q).0.0
      go [] b r = j
      go (u ∷ p) true r = j
      go (u ∷ p) false (after, returned x) = Stays-start_server
      go (u ∷ p) false (after, threw e) = j
