-- ===== src/Service/Overloads.antt =====
-- The forms in which `serveNet` can be called.
use node_ipc.Base.{arith, ◌≡◌, ℕ, true, false, ◌==◌}
use node_ipc.Text.{Text, text}
use node_ipc.Config.{Config}
use node_ipc.Service.{Argument, absent, string, number, function}
use node_ipc.Service.Arguments.{given, is_udp, NetArguments, serve_net_arguments}

abbrev pub net : Argument → Argument → Argument → Argument → NetArguments
net host port udp_type callback = record {
  host = host;
  port = port;
  udp_type = udp_type;
  callback = callback;
}

-- With a host and a port in the configuration, a host that is neither empty nor the name of a protocol,
-- and a port that is not 0: `serveNet` finds the host, the port, the protocol and the callback in each of
-- the forms (callback), (host, callback), (host, port, callback), (host, protocol, callback), (host,
-- port, protocol, callback), (port, callback), (port, protocol, callback) and ('udp4', callback), and
-- takes what is not given from the configuration.
pub serve_net_arguments-net :
    (config : Config) (host udp : Text) (n f : ℕ)
    → given (string config.network_host) ≡ true
    → is_udp (string config.network_host) ≡ false
    → (config.network_port == 0) ≡ false
    → given (string host) ≡ true
    → is_udp (string host) ≡ false
    → (n == 0) ≡ false
    → (let h = string config.network_host in
        let p = number config.network_port in
        let resolved = serve_net_arguments config in
        (resolved (net (function f) absent absent absent) ≡ net h p absent (function f))
        × (resolved (net (string host) (function f) absent absent)
            ≡ net (string host) p absent (function f))
        × (resolved (net (string host) (number n) (function f) absent)
            ≡ net (string host) (number n) absent (function f))
        × (resolved (net (string host) (string udp) (function f) absent)
            ≡ net (string host) p (string udp) (function f))
        × (resolved (net (string host) (number n) (string udp) (function f))
            ≡ net (string host) (number n) (string udp) (function f))
        × (resolved (net (number n) (function f) absent absent)
            ≡ net h (number n) absent (function f))
        × (resolved (net (number n) (string udp) (function f) absent)
            ≡ net h (number n) (string udp) (function f))
        × (resolved (net (string (text "udp4")) (function f) absent absent)
            ≡ net h p (string (text "udp4")) (function f)))
unfolding serve_net_arguments
serve_net_arguments-net config host udp n f given_default plain_default port_default given_host
      plain_host port_given =
    (
      ground arith,
      ground arith,
      ground arith,
      ground arith,
      ground arith,
      ground arith,
      ground arith,
      ground arith,
    )
