-- ===== src/Service/Arguments.antt =====
-- How the methods of services/IPC.js sort out their arguments.
use node_ipc.Base.{Bool, true, false, not, ◌||◌, [], ◌∷◌, ◌==◌, if◌then◌else◌}
use node_ipc.Text.{to_lower_case, Text, text, text_eq}
use node_ipc.Config.{Config}
use node_ipc.Service.{Argument, absent, string, number, function}

-- `if(argument)`
unfoldable pub given : Argument → Bool
given absent = false
given (string []) = false
given (string (u ∷ t)) = true
given (number n) = not (n == 0)
given (function f) = true

unfoldable pub is_udp : Argument → Bool
unfolding to_lower_case text_eq
is_udp (string t) =
    text_eq (to_lower_case t) (text "udp4") || text_eq (to_lower_case t) (text "udp6")
is_udp _ = false

-- The arguments of `serveNet(host,port,UDPType,callback)`.
pub record NetArguments : Type 0 where
  pub host : Argument
  pub port : Argument
  pub udp_type : Argument
  pub callback : Argument

-- `if(typeof host=='number')` and `if(typeof host=='function')`
unfoldable pub shift_host : NetArguments → NetArguments
shift_host a = elim a.host [
  | number n ↦ record { host = absent; port = number n; udp_type = a.port; callback = a.udp_type }
  | function f ↦ record { host = absent; port = absent; udp_type = absent; callback = function f }
  | absent ↦ a
  | string t ↦ a
]

unfoldable pub host_or : Argument → Argument → Argument
unfolding given
host_or default given_host = if given given_host then given_host else default

unfoldable pub default_host : Config → NetArguments → NetArguments
unfolding host_or
default_host config a = record a { host = host_or (string config.network_host) a.host }

unfoldable pub lower : Argument → Argument
unfolding to_lower_case
lower (string t) = string (to_lower_case t)
lower a = a

-- A host that names a protocol of datagrams.
unfoldable pub shift_udp_host : Config → NetArguments → NetArguments
unfolding is_udp lower
shift_udp_host config a =
    if is_udp a.host
    then record {
      host = string config.network_host;
      port = absent;
      udp_type = lower a.host;
      callback = a.port;
    }
    else a

-- `if(typeof port=='string')` and `if(typeof port=='function')`
unfoldable pub shift_port : NetArguments → NetArguments
shift_port a = elim a.port [
  | string t ↦ record a { port = absent; udp_type = string t; callback = a.udp_type }
  | function f ↦ record a { port = absent; udp_type = absent; callback = function f }
  | absent ↦ a
  | number n ↦ a
]

unfoldable pub default_port : Config → NetArguments → NetArguments
unfolding host_or
default_port config a = record a { port = host_or (number config.network_port) a.port }

unfoldable pub shift_udp_type : NetArguments → NetArguments
shift_udp_type a = elim a.udp_type [
  | function f ↦ record a { udp_type = absent; callback = function f }
  | absent ↦ a
  | string t ↦ a
  | number n ↦ a
]

-- All that `serveNet` does before it makes the server.
unfoldable pub serve_net_arguments : Config → NetArguments → NetArguments
unfolding shift_host default_host shift_udp_host shift_port default_port shift_udp_type
serve_net_arguments config a =
    shift_udp_type (
      default_port config (shift_port (shift_udp_host config (default_host config (shift_host a)))))

-- The arguments of `connectNet(id,host,port,callback)` behind the id.
pub record TargetArguments : Type 0 where
  pub host : Argument
  pub port : Argument
  pub callback : Argument

unfoldable pub shift_target : TargetArguments → TargetArguments
shift_target a = elim a.host [
  | number n ↦ record { host = absent; port = number n; callback = a.port }
  | function f ↦ record { host = absent; port = absent; callback = function f }
  | absent ↦ a
  | string t ↦ a
]

unfoldable pub shift_target_port : TargetArguments → TargetArguments
shift_target_port a = elim a.port [
  | function f ↦ record a { port = absent; callback = function f }
  | absent ↦ a
  | string t ↦ a
  | number n ↦ a
]

-- All that `connectNet` does with its arguments before it looks for a client.
unfoldable pub connect_net_arguments : Config → TargetArguments → TargetArguments
unfolding shift_target shift_target_port host_or
connect_net_arguments config a =
    let b = shift_target a in
    let c = shift_target_port (record b { host = host_or (string config.network_host) b.host }) in
    record c { port = host_or (number config.network_port) c.port }

-- The arguments of `serve(path,callback)` and, behind the id, of `connect(id,path,callback)`.
pub record PathArguments : Type 0 where
  pub path : Argument
  pub callback : Argument

unfoldable pub path_arguments : Text → PathArguments → PathArguments
unfolding host_or
path_arguments default a = elim a.path [
  | function f ↦ record { path = string default; callback = function f }
  | absent ↦ record a { path = string default }
  | string t ↦ record a { path = host_or (string default) (string t) }
  | number n ↦ record a { path = host_or (string default) (number n) }
]
