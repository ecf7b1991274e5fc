-- ===== src/Tls.antt =====
-- entities/TLS.js: the options of TLS clients and servers. `read_file` is `fs.readFileSync`, which
-- may throw.

pub mod Verification
use node_ipc.Base.{
  ℕ, Bool, true, false, not, ◌&&◌, ◌||◌, List, [], ◌∷◌, ◌++◌, Option, none, some, if◌then◌else◌,
}
use node_ipc.Text.{Text, text, find}
use node_ipc.Outcome.{setup, SetupCode, tls_configuration, assured_tls, Outcome, returned, threw}
use node_ipc.Config.{
  Material, inline, bytes, Trusted, no_path, one_path, paths, Authorities, no_ca, one_ca, many_ca,
  TlsOptions, TlsSetting, no_tls, tls_options, not_an_object,
}

infixl 5 ◌>>=◌
abbrev pub ◌>>=◌ {ℓ κ} : {A : Type ℓ} {B : Type κ} → Outcome A → (A → Outcome B) → Outcome B
returned a >>= k = k a
threw e >>= k = threw e

abbrev pub refuse {ℓ} : {A : Type ℓ} → SetupCode → Outcome A
refuse code = threw (setup code)

module _ (read_file : Text → Outcome (List ℕ)) where
  -- A path that is set replaces the material by the bytes of the file. An empty path is falsy.
  unfoldable pub load : Option Text → Option Material → Outcome (Option Material)
  load none given = returned given
  load (some []) given = returned given
  load (some (c ∷ path)) given = do content ← read_file (c ∷ path); returned (some (bytes content))

  -- A text that is no PEM block is the path of one.
  unfoldable pub load_dhparam : Option Material → Outcome (Option Material)
  unfolding find
  load_dhparam (some (inline t)) = elim (find (text "BEGIN DH PARAMETERS") t) [
    | none ↦ do content ← read_file t; returned (some (bytes content))
    | some k ↦ returned (some (inline t))
  ]
  load_dhparam given = returned given

  unfoldable pub read_all : List Text → Outcome (List Material)
  read_all [] = returned []
  read_all (path ∷ rest) = do
    content ← read_file path
    later ← read_all rest
    returned (bytes content ∷ later)

  unfoldable pub existing : Authorities → List Material
  existing no_ca = []
  existing (one_ca m) = m ∷ []
  existing (many_ca ms) = ms

  unfoldable pub trust : List Text → Authorities → Outcome Authorities
  unfolding read_all existing
  trust trusted_paths ca = do
    trusted ← read_all trusted_paths
    returned (many_ca (existing ca ++ trusted))

  unfoldable pub load_trusted : Trusted → Authorities → Outcome Authorities
  unfolding trust
  load_trusted no_path ca = returned ca
  load_trusted (one_path []) ca = returned ca
  load_trusted (one_path (c ∷ path)) ca = trust ((c ∷ path) ∷ []) ca
  load_trusted (paths ps) ca = trust ps ca

  -- `loadTLSOptions`
  unfoldable pub load_tls_options : TlsSetting → Outcome TlsOptions
  unfolding load load_dhparam load_trusted
  load_tls_options no_tls = refuse tls_configuration
  load_tls_options not_an_object = refuse tls_configuration
  load_tls_options (tls_options o) = do
    key ← load o.private o.key
    cert ← load o.public o.cert
    dhparam ← load_dhparam o.dhparam
    ca ← load_trusted o.trusted_connections o.ca
    returned (record {
      private = none;
      public = none;
      dhparam = dhparam;
      trusted_connections = no_path;
      key = key;
      cert = cert;
      ca = ca;
      request_cert = o.request_cert;
      reject_unauthorized = o.reject_unauthorized;
    })

  -- `Boolean(options.ca)`: a list is truthy, also an empty one, which trusts no one.
  unfoldable pub is_ca_truthy : Authorities → Bool
  is_ca_truthy no_ca = false
  is_ca_truthy (one_ca (inline [])) = false
  is_ca_truthy (one_ca _) = true
  is_ca_truthy (many_ca ms) = true

  unfoldable pub given : Option Material → Bool
  given none = false
  given (some (inline [])) = false
  given (some _) = true

  -- `flag === true`
  unfoldable pub is_true : Option Bool → Bool
  is_true none = false
  is_true (some b) = b

  -- `if(flag === undefined) flag=true`
  unfoldable pub or_true : Option Bool → Option Bool
  or_true none = some true
  or_true (some b) = some b

  -- `createClientTLSOptions`. The connection options that are copied over the loaded ones have none of
  -- their names, and stand in Client/Connection.
  unfoldable pub create_client_tls_options : TlsSetting → Bool → Outcome TlsOptions
  unfolding load_tls_options is_ca_truthy given is_true or_true
  create_client_tls_options config assured = do
    loaded ← load_tls_options config
    let o = record loaded { reject_unauthorized = or_true loaded.reject_unauthorized }
    if assured
          && (not (is_true o.reject_unauthorized)
              || not (is_ca_truthy o.ca)
              || not (given o.key)
              || not (given o.cert))
        then refuse assured_tls
        else returned o

  -- The defaults that a server takes on: a CA asks for client certificates, and those are checked.
  unfoldable pub server_defaults : TlsOptions → TlsOptions
  unfolding is_ca_truthy is_true or_true
  server_defaults o =
      let request = if is_ca_truthy o.ca then or_true o.request_cert else o.request_cert in
      record o {
        request_cert = request;
        reject_unauthorized =
            if is_true request then or_true o.reject_unauthorized else o.reject_unauthorized;
      }

  -- `createServerTLSOptions`
  unfoldable pub create_server_tls_options : TlsSetting → Bool → Outcome TlsOptions
  unfolding load_tls_options server_defaults given is_ca_truthy is_true
  create_server_tls_options config assured = do
    loaded ← load_tls_options config
    let o = server_defaults loaded
    if not (given loaded.key) || not (given loaded.cert)
        then refuse tls_configuration
        else if assured
            && (not (is_true o.request_cert)
                || not (is_true o.reject_unauthorized)
                || not (is_ca_truthy o.ca))
        then refuse assured_tls
        else returned o
