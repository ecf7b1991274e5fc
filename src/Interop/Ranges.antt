-- ===== src/Interop/Ranges.antt =====
-- What `parseArguments` lets through.
use mathlib.Core.Bool.{true≢false}
use node_ipc.Base.{
  length, ◌≡◌, refl, sym, ap, subst, ◌∙◌, ◌⊎◌, ℕ, ◌+◌, ◌*◌, ◌≤◌, Bool, true, false, not, ◌&&◌, List,
  [], ◌∷◌, ltb, if◌then◌else◌, arith,
}
use node_ipc.Text.{Text, text, text_eq}
use node_ipc.Interop.{PeerOptions, default_options, max_safe_integer}
use node_ipc.Interop.Decimal.{
  all_digits, decimal, decimal-all_digits, decimal-value, one-le-length-decimal,
}
use node_ipc.Interop.Arguments.{
  no_integer, out_of_range, wrong_mode, no_host, unsafe_total, Parsed, accepted, refused,
  is_decimal, parse_integer, with_parsed, set_option, is_json, is_help, parse_options,
  check_options, parse_arguments,
}

pub record Within (port count inflight payload_bytes : ℕ) : Type 0 where
  pub port_low : 1 ≤ port
  pub port_high : port ≤ 65535
  pub some_count : 1 ≤ count
  pub some_inflight : 1 ≤ inflight
  pub payload_high : payload_bytes ≤ 16 * 1024 * 1024

abbrev pub Bounded : PeerOptions → Type 0
Bounded o = Within o.port o.count o.inflight o.payload_bytes

pub record IsUsable (o : PeerOptions) : Type 0 where
  pub bounded : Bounded o
  pub role : (text_eq o.mode (text "server") ≡ true) ⊎ (text_eq o.mode (text "client") ≡ true)
  pub host_given : text_eq o.host [] ≡ false
  pub window : o.inflight ≤ o.count
  pub total : o.warmup + o.count ≤ max_safe_integer

accepted-eq {ℓ} : {A : Type ℓ} {a b : A} → accepted a ≡ accepted b → a ≡ b
accepted-eq h = cc

with_parsed-accepted {ℓ κ} :
    {A : Type ℓ} {B : Type κ} (p : Parsed A) (k : A → Parsed B) {b : B}
    → with_parsed p k ≡ accepted b
    → (a : A) × (p ≡ accepted a) × (k a ≡ accepted b)
unfolding with_parsed
with_parsed-accepted (accepted a) k h = (a, refl, h)
with_parsed-accepted (refused e) k h = cc

integer_ladder :
    (wrong outside : Bool) (name : Text) {n m : ℕ}
    → (if wrong
        then refused (no_integer name)
        else if outside
        then refused (out_of_range name)
        else accepted n)
      ≡ accepted m
    → (outside ≡ false) × (n ≡ m)
integer_ladder true outside name h = cc
integer_ladder false true name h = cc
integer_ladder false false name h = (refl, accepted-eq h)

-- A number that is accepted lies in its range.
parse_integer-bounds :
    (value name : Text) (low high : ℕ) {n : ℕ}
    → parse_integer value name low high ≡ accepted n
    → (low ≤ n) × (n ≤ high)
unfolding parse_integer
parse_integer-bounds value name low high {n} h =
    let r = integer_ladder (not (is_decimal value)) _ name h in
    (ground (arith, r.0, r.1), ground (arith, r.0, r.1))

set-Bounded :
    (value name : Text) (low high : ℕ) (k : ℕ → PeerOptions) {o : PeerOptions}
    → ((n : ℕ) → low ≤ n → n ≤ high → Bounded (k n))
    → with_parsed (parse_integer value name low high) (λ n. accepted (k n)) ≡ accepted o
    → Bounded o
set-Bounded value name low high k keep h =
    let (n, e, r) =
      with_parsed-accepted (parse_integer value name low high) (λ n. accepted (k n)) h in
    let b = parse_integer-bounds value name low high e in
    subst Bounded (accepted-eq r) (keep n b.0 b.1)

if-accepted :
    (b : Bool) {x y : Parsed PeerOptions} {o : PeerOptions}
    → (x ≡ accepted o → Bounded o)
    → (y ≡ accepted o → Bounded o)
    → (if b then x else y) ≡ accepted o
    → Bounded o
if-accepted true p q h = p h
if-accepted false p q h = q h

set_option-Bounded :
    (argument value : Text) (o : PeerOptions) {o' : PeerOptions}
    → Bounded o
    → set_option argument value o ≡ accepted o'
    → Bounded o'
unfolding set_option
set_option-Bounded argument value o b h =
    if-accepted (text_eq argument (text "--mode")) (λ e. subst Bounded (accepted-eq e) (b))
      (if-accepted (text_eq argument (text "--host")) (λ e. subst Bounded (accepted-eq e) (b))
        (if-accepted (text_eq argument (text "--port"))
          (set-Bounded value argument 1 65535 (λ n. record o { port = n })
            (λ n l u. record {
              port_low = l;
              port_high = u;
              some_count = b.some_count;
              some_inflight = b.some_inflight;
              payload_high = b.payload_high;
            }))
          (if-accepted (text_eq argument (text "--warmup"))
            (set-Bounded value argument 0 max_safe_integer (λ n. record o { warmup = n })
              (λ n l u. b))
            (if-accepted (text_eq argument (text "--count"))
              (set-Bounded value argument 1 max_safe_integer (λ n. record o { count = n })
                (λ n l u. record {
                  port_low = b.port_low;
                  port_high = b.port_high;
                  some_count = l;
                  some_inflight = b.some_inflight;
                  payload_high = b.payload_high;
                }))
              (if-accepted (text_eq argument (text "--payload-bytes"))
                (set-Bounded value argument 0 (16 * 1024 * 1024)
                  (λ n. record o { payload_bytes = n })
                  (λ n l u. record {
                    port_low = b.port_low;
                    port_high = b.port_high;
                    some_count = b.some_count;
                    some_inflight = b.some_inflight;
                    payload_high = u;
                  }))
                (if-accepted (text_eq argument (text "--inflight"))
                  (set-Bounded value argument 1 max_safe_integer (λ n. record o { inflight = n })
                    (λ n l u. record {
                      port_low = b.port_low;
                      port_high = b.port_high;
                      some_count = b.some_count;
                      some_inflight = l;
                      payload_high = b.payload_high;
                    }))
                  (λ e. cc)))))))
      h

parse_options-Bounded :
    (arguments : List Text) (o : PeerOptions) {o' : PeerOptions}
    → Bounded o
    → parse_options arguments o ≡ accepted o'
    → Bounded o'
unfolding parse_options
parse_options-Bounded [] o b h = subst Bounded (accepted-eq h) b
parse_options-Bounded (argument ∷ []) o b h =
    if-accepted (is_json argument) (λ e. subst Bounded (accepted-eq e) b)
      (if-accepted (is_help argument) (λ e. subst Bounded (accepted-eq e) b) (λ e. cc)) h
parse_options-Bounded (argument ∷ value ∷ more) o b h =
    if-accepted (is_json argument)
      (parse_options-Bounded (value ∷ more) (record o { json = true }) b)
      (if-accepted (is_help argument)
        (parse_options-Bounded (value ∷ more) (record o { help = true }) b)
        (λ e.
          let (p, set, later) =
            with_parsed-accepted (set_option argument value o) (λ q. parse_options more q) e in
          parse_options-Bounded more p (set_option-Bounded argument value o b set) later))
      h

check_ladder :
    (help wrong empty large : Bool) (o : PeerOptions) {p q : PeerOptions}
    → (if help
        then accepted o
        else if wrong
        then refused wrong_mode
        else if empty
        then refused no_host
        else if large
        then refused unsafe_total
        else accepted p)
      ≡ accepted q
    → q.help ≡ false
    → o.help ≡ help
    → (wrong ≡ false) × (empty ≡ false) × (large ≡ false) × (p ≡ q)
check_ladder true wrong empty large o h f e =
    absurd (true≢false (sym e ∙ (ap (λ (x : PeerOptions). x.help) (accepted-eq h) ∙ f)))
check_ladder false true empty large o h f e = cc
check_ladder false false true large o h f e = cc
check_ladder false false false true o h f e = cc
check_ladder false false false false o h f e = (refl, refl, refl, accepted-eq h)

check_options-IsUsable :
    (o : PeerOptions) {q : PeerOptions}
    → Bounded o
    → check_options o ≡ accepted q
    → q.help ≡ false
    → IsUsable q
unfolding check_options
check_options-IsUsable o b h f =
    let (role, host, total, same) =
      check_ladder o.help
        (not (text_eq o.mode (text "server")) && not (text_eq o.mode (text "client")))
        (text_eq o.host []) (ltb max_safe_integer (o.warmup + o.count)) o h f refl in
    subst IsUsable same (record {
      bounded = record {
        port_low = b.port_low;
        port_high = b.port_high;
        some_count = b.some_count;
        some_inflight = ground (arith, b.some_count, b.some_inflight);
        payload_high = b.payload_high;
      };
      role = ground (arith, role);
      host_given = host;
      window = ground arith;
      total = ground (arith, total);
    })

-- If `parseArguments` returns options that do not ask for help, they name a role and a host, the port is
-- one of 1 to 65535, at least one round trip is measured, the window holds at least one request and no more
-- than are measured, the payload is at most 16 MiB, and all frames together are a safe integer.
pub parse_arguments-IsUsable :
    (arguments : List Text) {o : PeerOptions}
    → parse_arguments arguments ≡ accepted o
    → o.help ≡ false
    → IsUsable o
unfolding parse_arguments
parse_arguments-IsUsable arguments h f =
    let (p, parsed, checked) =
      with_parsed-accepted (parse_options arguments default_options) check_options h in
    check_options-IsUsable p
      (parse_options-Bounded arguments default_options
        (record {
          port_low = omega arith;
          port_high = omega arith;
          some_count = omega arith;
          some_inflight = omega arith;
          payload_high = omega arith;
        })
        parsed)
      checked f

is_decimal-all_digits : (t : Text) → 1 ≤ length t → all_digits t ≡ true → is_decimal t ≡ true
unfolding is_decimal
is_decimal-all_digits [] h d = absurd (omega arith)
is_decimal-all_digits (c ∷ t) h d = d

-- A number within the limits is accepted as `String(n)` writes it.
pub parse_integer-decimal :
    (name : Text) (low high n : ℕ)
    → low ≤ n
    → n ≤ high
    → high ≤ max_safe_integer
    → parse_integer (decimal n) name low high ≡ accepted n
unfolding parse_integer
parse_integer-decimal name low high n l u m =
    rw
      (
        is_decimal-all_digits (decimal n) (one-le-length-decimal n) (decimal-all_digits n),
        decimal-value n,
      )
      (ground arith)
