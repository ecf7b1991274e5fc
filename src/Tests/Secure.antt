-- ===== src/Tests/Secure.antt =====
-- TLS options of a client and of a server.
use node_ipc.Base.{◌≡◌, ◌≢◌, refl, ℕ, Bool, true, List, [], ◌∷◌, none, some}
use node_ipc.Text.{Text, text}
use node_ipc.Outcome.{Outcome, returned}
use node_ipc.Config.{Material, TlsOptions, tls_options, no_path, one_path, no_ca, many_ca}
use node_ipc.Tls.{is_ca_truthy, given, create_client_tls_options, create_server_tls_options}
use node_ipc.Tls.Verification.{create_client_tls_options-assured, create_server_tls_options-checks}

-- Every file has the same bytes.
abbrev files : Text → Outcome (List ℕ)
files path = returned (1 ∷ 2 ∷ 3 ∷ [])

abbrev by_path : TlsOptions
by_path = record {
  private = some (text "key.pem");
  public = some (text "cert.pem");
  dhparam = none;
  trusted_connections = one_path (text "ca.pem");
  key = none;
  cert = none;
  ca = no_ca;
  request_cert = none;
  reject_unauthorized = none;
}

abbrev loaded : TlsOptions
loaded = record {
  private = none;
  public = none;
  dhparam = none;
  trusted_connections = no_path;
  key = some (Material.bytes (1 ∷ 2 ∷ 3 ∷ []));
  cert = some (Material.bytes (1 ∷ 2 ∷ 3 ∷ []));
  ca = many_ca (Material.bytes (1 ∷ 2 ∷ 3 ∷ []) ∷ []);
  request_cert = none;
  reject_unauthorized = some true;
}

abbrev loaded_by_server : TlsOptions
loaded_by_server = record loaded { request_cert = some true }

unset : {b : Bool} → none ≢ some b
unset h = cc

create_client_tls_options-assured_example :
    (loaded.reject_unauthorized ≡ some true)
    × (is_ca_truthy files loaded.ca ≡ true)
    × (given files loaded.key ≡ true)
    × (given files loaded.cert ≡ true)
unfolding create_client_tls_options
create_client_tls_options-assured_example =
    create_client_tls_options-assured files (tls_options by_path) {o = loaded} refl

create_server_tls_options-checks_example :
    (loaded_by_server.request_cert ≡ some true)
    × (loaded_by_server.reject_unauthorized ≡ some true)
    × (given files loaded_by_server.key ≡ true)
    × (given files loaded_by_server.cert ≡ true)
unfolding create_server_tls_options is_ca_truthy
create_server_tls_options-checks_example =
    create_server_tls_options-checks files by_path true {o = loaded_by_server} unset unset refl refl
