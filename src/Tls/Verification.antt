-- ===== src/Tls/Verification.antt =====
-- Which TLS options check the other side.
use node_ipc.Base.{
  ◌≡◌, ◌≢◌, refl, sym, ap, ◌∙◌, ℕ, Bool, true, false, not, ◌&&◌, ◌||◌, List, Option, none, some,
  if◌then◌else◌, arith,
}
use node_ipc.Text.{Text}
use node_ipc.Outcome.{tls_configuration, assured_tls, Outcome, returned, threw}
use node_ipc.Config.{TlsOptions, TlsSetting, tls_options}
use node_ipc.Tls.{
  ◌>>=◌, refuse, load, load_dhparam, load_trusted, load_tls_options, is_ca_truthy, given, is_true,
  or_true, server_defaults, create_client_tls_options, create_server_tls_options,
}

bind-returned :
    {A : Type 0} {B : Type 0} (m : Outcome A) (k : A → Outcome B) {b : B}
    → (m >>= k) ≡ returned b
    → (a : A) × (m ≡ returned a) × (k a ≡ returned b)
bind-returned (returned a) k h = (a, refl, h)
bind-returned (threw e) k h = cc

returned-injective :
    {a b : TlsOptions} → (let q : Outcome TlsOptions = returned a in q) ≡ returned b → a ≡ b
returned-injective e = cc

is_true-some :
    (read_file : Text → Outcome (List ℕ)) (o : Option Bool)
    → is_true read_file o ≡ true
    → o ≡ some true
unfolding is_true
is_true-some read_file none h = cc
is_true-some read_file (some b) h = ap (λ x. some x) h

or_true-some :
    (read_file : Text → Outcome (List ℕ)) (o : Option Bool)
    → o ≢ some false
    → or_true read_file o ≡ some true
unfolding or_true
or_true-some read_file none h = refl
or_true-some read_file (some true) h = refl
or_true-some read_file (some false) h = absurd (h refl)

-- A ladder with one refusal, over the result of its test.
client_ladder :
    (assured unchecked no_ca no_key no_cert : Bool) {o r : TlsOptions}
    → (if assured && (unchecked || no_ca || no_key || no_cert)
        then refuse assured_tls
        else returned o)
      ≡ returned r
    → assured ≡ true
    → (o ≡ r) × (unchecked ≡ false) × (no_ca ≡ false) × (no_key ≡ false) × (no_cert ≡ false)
client_ladder assured unchecked no_ca no_key no_cert h a = ground arith

client_ladder_eq :
    (b : Bool) {o r : TlsOptions}
    → (if b then refuse assured_tls else returned o) ≡ returned r
    → o ≡ r
client_ladder_eq true h = cc
client_ladder_eq false h = cc

module _ (read_file : Text → Outcome (List ℕ)) where
  -- What an assured client connects with has a key and a certificate, checks the certificate of the server, and
  -- has a truthy `ca`, which an empty list of authorities is too.
  pub create_client_tls_options-assured :
      (config : TlsSetting) {o : TlsOptions}
      → create_client_tls_options read_file config true ≡ returned o
      → (o.reject_unauthorized ≡ some true)
        × (is_ca_truthy read_file o.ca ≡ true)
        × (given read_file o.key ≡ true)
        × (given read_file o.cert ≡ true)
  unfolding create_client_tls_options
  create_client_tls_options-assured config {o} h =
      let (loaded, e, later) = bind-returned (load_tls_options read_file config) _ h in
      let c = record loaded {
        reject_unauthorized = or_true read_file loaded.reject_unauthorized;
      } in
      let r =
        client_ladder true (not (is_true read_file c.reject_unauthorized))
          (not (is_ca_truthy read_file c.ca)) (not (given read_file c.key))
          (not (given read_file c.cert)) later refl in
      (
        sym (ap (λ x. x.reject_unauthorized) r.0)
            ∙ is_true-some read_file c.reject_unauthorized (ground (arith, r.1)),
        sym (ap (λ x. is_ca_truthy read_file x.ca) r.0) ∙ ground (arith, r.2),
        sym (ap (λ x. given read_file x.key) r.0) ∙ ground (arith, r.3),
        sym (ap (λ x. given read_file x.cert) r.0) ∙ ground (arith, r.4),
      )

  load_tls_options-flags :
      (t : TlsOptions) {o : TlsOptions}
      → load_tls_options read_file (tls_options t) ≡ returned o
      → (o.reject_unauthorized ≡ t.reject_unauthorized) × (o.request_cert ≡ t.request_cert)
  unfolding load_tls_options
  load_tls_options-flags t h =
      let (key, e1, h1) = bind-returned (load read_file t.private t.key) _ h in
      let (cert, e2, h2) = bind-returned (load read_file t.public t.cert) _ h1 in
      let (dh, e3, h3) = bind-returned (load_dhparam read_file t.dhparam) _ h2 in
      let (ca, e4, h4) = bind-returned (load_trusted read_file t.trusted_connections t.ca) _ h3 in
      let same = returned-injective h4 in
      (sym (ap (λ x. x.reject_unauthorized) same), sym (ap (λ x. x.request_cert) same))

  -- A client of any profile checks the certificate of the server, unless the configuration has
  -- rejectUnauthorized=false.
  pub create_client_tls_options-checks :
      (t : TlsOptions) (is_assured : Bool) {o : TlsOptions}
      → t.reject_unauthorized ≢ some false
      → create_client_tls_options read_file (tls_options t) is_assured ≡ returned o
      → o.reject_unauthorized ≡ some true
  unfolding create_client_tls_options
  create_client_tls_options-checks t is_assured {o} n h =
      let (loaded, e, later) = bind-returned (load_tls_options read_file (tls_options t)) _ h in
      let flags = load_tls_options-flags t e in
      sym (ap (λ x. x.reject_unauthorized) (client_ladder_eq _ later))
      ∙ ap (or_true read_file) flags.0
      ∙ or_true-some read_file t.reject_unauthorized n

  server_defaults-checks :
      (l : TlsOptions)
      → is_ca_truthy read_file l.ca ≡ true
      → l.request_cert ≢ some false
      → l.reject_unauthorized ≢ some false
      → ((server_defaults read_file l).request_cert ≡ some true)
        × ((server_defaults read_file l).reject_unauthorized ≡ some true)
  unfolding server_defaults is_true
  server_defaults-checks l ca request reject =
      let asked = or_true-some read_file l.request_cert request in
      (rw (ca, asked) refl, rw (ca, asked) (or_true-some read_file l.reject_unauthorized reject))

  server_ladder :
      (no_key no_cert weak : Bool) {o r : TlsOptions}
      → (if no_key || no_cert
          then refuse tls_configuration
          else if weak
          then refuse assured_tls
          else returned o)
        ≡ returned r
      → (o ≡ r) × (no_key ≡ false) × (no_cert ≡ false)
  server_ladder true no_cert weak h = cc
  server_ladder false true weak h = cc
  server_ladder false false true h = cc
  server_ladder false false false h = (returned-injective h, refl, refl)

  -- A server of any profile whose `ca` is truthy asks for the certificate of the client and checks
  -- it, unless the configuration has requestCert=false or rejectUnauthorized=false; such a server has a
  -- key and a certificate.
  pub create_server_tls_options-checks :
      (t : TlsOptions) (is_assured : Bool) {o : TlsOptions}
      → t.request_cert ≢ some false
      → t.reject_unauthorized ≢ some false
      → create_server_tls_options read_file (tls_options t) is_assured ≡ returned o
      → is_ca_truthy read_file o.ca ≡ true
      → (o.request_cert ≡ some true)
        × (o.reject_unauthorized ≡ some true)
        × (given read_file o.key ≡ true)
        × (given read_file o.cert ≡ true)
  unfolding create_server_tls_options
  create_server_tls_options-checks t is_assured {o} request reject h ca =
      let (l, e, later) = bind-returned (load_tls_options read_file (tls_options t)) _ h in
      let flags = load_tls_options-flags t e in
      let (same, key, cert) =
        server_ladder (not (given read_file l.key)) (not (given read_file l.cert)) _ later in
      let checks =
        server_defaults-checks l
          (unfold server_defaults in ap (λ x. is_ca_truthy read_file x.ca) same ∙ ca)
          (λ k. request (sym flags.1 ∙ k)) (λ k. reject (sym flags.0 ∙ k)) in
      (
        sym (ap (λ x. x.request_cert) same) ∙ checks.0,
        sym (ap (λ x. x.reject_unauthorized) same) ∙ checks.1,
        sym (ap (λ x. given read_file x.key) same) ∙ unfold server_defaults in ground (arith, key),
        sym (ap (λ x. given read_file x.cert) same)
            ∙ unfold server_defaults in ground (arith, cert),
      )
