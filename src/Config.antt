-- ===== src/Config.antt =====
-- The configuration object of entities/Defaults.js, the options of entities/TLS.js that it holds,
-- and the values that a new one starts with. The operating system's answers are arguments.

use node_ipc.Base.{
  ℕ, ◌*◌, Bool, true, false, ◌||◌, ◌&&◌, List, [], ◌∷◌, ◌++◌, map, Option, none, some, leb, ◌==◌,
  if◌then◌else◌,
}
use node_ipc.Text.{Text, text, text_eq}

-- A numeric setting: `Infinity`, a whole number from 0 on, or anything else (a negative number, a
-- fraction, NaN, no number).
pub data Amount : Type 0 where
  infinite : Amount
  whole : ℕ → Amount
  other : Amount

-- `maxRetries`: `Infinity`, a whole number from 0 on, or what turns into NaN, such as `undefined`.
pub data Retries : Type 0 where
  unlimited : Retries
  limited : ℕ → Retries
  not_a_number : Retries

-- `config.parser`: a string (empty for any falsy value), or a parser of the application's own,
-- given as a class or as an object. Of it is known whether it has the methods `encode` and `read`.
pub record Supplied : Type 0 where
  pub has_encode : Bool
  pub has_read : Bool

pub data Choice : Type 0 where
  named : Text → Choice
  parser_class : Supplied → Choice
  parser_object : Supplied → Choice

-- Key material: a text given inline, or the bytes of a file or buffer.
pub data Material : Type 0 where
  inline : Text → Material
  bytes : List ℕ → Material

pub data Trusted : Type 0 where
  no_path : Trusted
  one_path : Text → Trusted
  paths : List Text → Trusted

pub data Authorities : Type 0 where
  no_ca : Authorities
  one_ca : Material → Authorities
  many_ca : List Material → Authorities

pub record TlsOptions : Type 0 where
  pub private : Option Text
  pub public : Option Text
  pub dhparam : Option Material
  pub trusted_connections : Trusted
  pub key : Option Material
  pub cert : Option Material
  pub ca : Authorities
  pub request_cert : Option Bool
  pub reject_unauthorized : Option Bool

-- `config.tls`: false, an options object, or something that is neither.
pub data TlsSetting : Type 0 where
  no_tls : TlsSetting
  tls_options : TlsOptions → TlsSetting
  not_an_object : TlsSetting

pub record Interface : Type 0 where
  pub local_address : Option Text
  pub local_port : Option ℕ
  pub family : Option ℕ
  pub hints : Option ℕ
  pub lookup : Bool

pub record Config : Type 0 where
  pub appspace : Text
  pub socket_root : Text
  pub id : Text
  pub encoding : Text
  pub raw_buffer : Bool
  pub parser : Choice
  pub sync : Bool
  pub unlink : Bool
  pub identify_peer : Bool
  pub delimiter : Option Text
  pub max_message_size : Amount
  pub max_pending_bytes : Amount
  pub max_event_name_length : Amount
  pub message_timeout : Amount
  pub allow_reserved_events : Bool
  pub allowed_events : Option (List Text)
  pub silent : Bool
  pub log_payloads : Bool
  pub max_connections : ℕ
  pub retry : ℕ
  pub max_retries : Retries
  pub stop_retrying : Bool
  pub ip_type : Text
  pub tls : TlsSetting
  pub network_host : Text
  pub network_port : ℕ
  pub readable_all : Bool
  pub writable_all : Bool
  pub secure_socket_root : Bool
  pub interface : Interface

-- What `Defaults` asks of the operating system.
pub record Platform : Type 0 where
  pub is_windows : Bool
  pub hostname : Text
  pub user_name : Option Text
  pub runtime_root : Option Text
  pub user_id : Option Text
  pub tmpdir : Text
  pub join_path : Text → Text → Text
  pub separator : Text
  -- The families of the addresses of each network interface.
  pub interfaces : List (List Text)

-- A unit that `[a-zA-Z0-9_.-]` matches.
unfoldable pub is_safe_unit : ℕ → Bool
is_safe_unit c =
    leb b'a' c && leb c b'z'
    || leb b'A' c && leb c b'Z'
    || leb b'0' c && leb c b'9'
    || c == b'_'
    || c == b'.'
    || c == b'-'

unfoldable pub safe_path_segment : Text → Text
unfolding is_safe_unit
safe_path_segment value = map (λ c. if is_safe_unit c then c else b'_') value

unfoldable pub get_user_name : Option Text → Text
get_user_name none = text "user"
get_user_name (some name) = name

-- An empty `XDG_RUNTIME_DIR` is falsy.
unfoldable pub unix_root : Platform → Text → Option Text → Text
unix_root p user none =
    p.join_path p.tmpdir (text "node-ipc-" ++ elim p.user_id [ some uid ↦ uid | none ↦ user ])
    ++ p.separator
unix_root p user (some []) =
    p.join_path p.tmpdir (text "node-ipc-" ++ elim p.user_id [ some uid ↦ uid | none ↦ user ])
    ++ p.separator
unix_root p user (some (c ∷ root)) = p.join_path (c ∷ root) (text "node-ipc") ++ p.separator

unfoldable pub get_socket_root : Platform → Text
unfolding safe_path_segment get_user_name unix_root
get_socket_root p =
    let user = safe_path_segment (get_user_name p.user_name) in
    if p.is_windows then text "/node-ipc-" ++ user ++ text "/" else unix_root p user p.runtime_root

-- The family of the first address of the first interface that has one.
unfoldable pub get_ip_type : List (List Text) → Text
get_ip_type [] = []
get_ip_type ([] ∷ rest) = get_ip_type rest
get_ip_type ((family ∷ more) ∷ rest) = family

unfoldable pub defaults : Platform → Config
unfolding get_socket_root get_ip_type text_eq
defaults p = record {
  appspace = text "app.";
  socket_root = get_socket_root p;
  id = p.hostname;
  encoding = text "utf8";
  raw_buffer = false;
  parser = named (text "fast");
  sync = false;
  unlink = true;
  identify_peer = false;
  delimiter = some (12 ∷ []);
  max_message_size = whole (1024 * 1024);
  max_pending_bytes = whole (8 * 1024 * 1024);
  max_event_name_length = whole 256;
  message_timeout = whole 30000;
  allow_reserved_events = false;
  allowed_events = none;
  silent = false;
  log_payloads = false;
  max_connections = 100;
  retry = 500;
  max_retries = unlimited;
  stop_retrying = false;
  ip_type = get_ip_type p.interfaces;
  tls = no_tls;
  network_host =
      if text_eq (get_ip_type p.interfaces) (text "IPv6") then text "::1" else text "127.0.0.1";
  network_port = 8000;
  readable_all = false;
  writable_all = false;
  secure_socket_root = true;
  interface = record {
    local_address = none;
    local_port = none;
    family = none;
    hints = none;
    lookup = false;
  };
}
