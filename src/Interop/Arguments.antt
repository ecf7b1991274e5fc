-- ===== src/Interop/Arguments.antt =====
-- `parseArguments` and `parseInteger` of rust/node-ipc/interop/node-peer.js.
use node_ipc.Base.{
  ℕ, ◌+◌, ◌*◌, Bool, true, false, not, ◌&&◌, ◌||◌, List, [], ◌∷◌, ltb, if◌then◌else◌,
}
use node_ipc.Text.{Text, text, text_eq}
use node_ipc.Interop.{PeerOptions, default_options, max_safe_integer}
use node_ipc.Interop.Decimal.{all_digits, value_from}

-- The errors that are thrown.
pub data Refusal : Type 0 where
  no_value unknown_option no_integer out_of_range : Text → Refusal
  wrong_mode no_host unsafe_total : Refusal

pub data Parsed {ℓ} (A : Type ℓ) : Type ℓ where
  accepted : A → Parsed A
  refused : Refusal → Parsed A

-- `/^\d+$/`
unfoldable pub is_decimal : Text → Bool
unfolding all_digits
is_decimal [] = false
is_decimal (c ∷ t) = all_digits (c ∷ t)

-- `parseInteger`: the value of a text of digits is a safe integer unless it is larger than all of them.
unfoldable pub parse_integer : Text → Text → ℕ → ℕ → Parsed ℕ
unfolding is_decimal value_from
parse_integer value name minimum maximum =
    let parsed = value_from 0 value in
    if not (is_decimal value)
    then refused (no_integer name)
    else if ltb max_safe_integer parsed || ltb parsed minimum || ltb maximum parsed
    then refused (out_of_range name)
    else accepted parsed

unfoldable pub with_parsed {ℓ κ} : {A : Type ℓ} {B : Type κ} → Parsed A → (A → Parsed B) → Parsed B
with_parsed (accepted a) k = k a
with_parsed (refused e) k = refused e

-- The `switch` on an argument with its value.
unfoldable pub set_option : Text → Text → PeerOptions → Parsed PeerOptions
unfolding text_eq parse_integer with_parsed
set_option argument value o =
    if text_eq argument (text "--mode")
    then accepted (record o { mode = value })
    else if text_eq argument (text "--host")
    then accepted (record o { host = value })
    else if text_eq argument (text "--port")
    then with_parsed (parse_integer value argument 1 65535) (λ n. accepted (record o { port = n }))
    else if text_eq argument (text "--warmup")
    then with_parsed (parse_integer value argument 0 max_safe_integer)
        (λ n. accepted (record o { warmup = n }))
    else if text_eq argument (text "--count")
    then with_parsed (parse_integer value argument 1 max_safe_integer)
        (λ n. accepted (record o { count = n }))
    else if text_eq argument (text "--payload-bytes")
    then with_parsed (parse_integer value argument 0 (16 * 1024 * 1024))
        (λ n. accepted (record o { payload_bytes = n }))
    else if text_eq argument (text "--inflight")
    then with_parsed (parse_integer value argument 1 max_safe_integer)
        (λ n. accepted (record o { inflight = n }))
    else refused (unknown_option argument)

unfoldable pub is_json : Text → Bool
unfolding text_eq
is_json argument = text_eq argument (text "--json")

unfoldable pub is_help : Text → Bool
unfolding text_eq
is_help argument = text_eq argument (text "--help") || text_eq argument (text "-h")

-- The loop over the arguments.
unfoldable pub parse_options : List Text → PeerOptions → Parsed PeerOptions
unfolding is_json is_help set_option with_parsed
parse_options [] o = accepted o
parse_options (argument ∷ []) o =
    if is_json argument
    then accepted (record o { json = true })
    else if is_help argument
    then accepted (record o { help = true })
    else refused (no_value argument)
parse_options (argument ∷ value ∷ more) o =
    let flag = λ (p : PeerOptions). parse_options (value ∷ more) p in
    let valued = λ (p : PeerOptions). parse_options more p in
    if is_json argument
    then flag (record o { json = true })
    else if is_help argument
    then flag (record o { help = true })
    else with_parsed (set_option argument value o) valued

-- The checks behind the loop.
unfoldable pub check_options : PeerOptions → Parsed PeerOptions
unfolding text_eq
check_options o =
    if o.help
    then accepted o
    else if not (text_eq o.mode (text "server")) && not (text_eq o.mode (text "client"))
    then refused wrong_mode
    else if text_eq o.host []
    then refused no_host
    else if ltb max_safe_integer (o.warmup + o.count)
    then refused unsafe_total
    else accepted (record o { inflight = if ltb o.count o.inflight then o.count else o.inflight })

-- `parseArguments`
unfoldable pub parse_arguments : List Text → Parsed PeerOptions
unfolding parse_options check_options with_parsed
parse_arguments arguments = with_parsed (parse_options arguments default_options) check_options
