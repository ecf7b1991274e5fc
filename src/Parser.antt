-- ===== src/Parser.antt =====
-- The parsers of entities/EventParser.js: `RawParser`, `Parser` (fast), `GuardedParser` and
-- `AssuredParser`, each a constructor with its fields, and `createParser`.
pub mod Create
pub mod Reading
pub mod Validation
pub mod Safety
pub mod Contained
pub mod RoundTrip
use Prim.Native.String.{String}
use node_ipc.Base.{
  ℕ, ◌-◌, Bool, true, false, not, ◌||◌, ◌&&◌, List, [], ◌∷◌, ◌++◌, Option, none, some, ltb, leb,
  ◌==◌, if◌then◌else◌, length,
}
use node_ipc.Text.{Text, text, text_eq, byte_length}
use node_ipc.Outcome.{
  ProtocolCode, invalid_json, invalid_message, invalid_event, event_too_large, reserved_event,
  frame_too_large, event_not_allowed, Thrown, protocol, type_error, Outcome, returned, threw, Run,
  and_then,
}
use node_ipc.Json.{Value, Fields, undefined, null, bool, num, str, arr, obj, end, field, get}
use node_ipc.Json.Print.{stringify}
use node_ipc.Json.Parse.{parse}
use node_ipc.Config.{
  Config, Amount, infinite, whole, other, Choice, named, parser_class, parser_object, Supplied,
}
use node_ipc.Framing
use node_ipc.Framing.{Pushed}

-- The fields that `GuardedParser` adds. `allowed` is the set of `AssuredParser`.
pub record Limits : Type 0 where
  pub max_message_size : Amount
  pub max_pending_bytes : Amount
  pub max_event_name_length : Amount
  pub message_timeout : Amount
  pub allow_reserved_events : Bool

pub data Parser : Type 0 where
  raw : Text → Parser
  fast : Text → Parser
  guarded : Text → Limits → Parser
  assured : Text → Limits → List Text → Parser

abbrev pub Check : Type 0
Check = Outcome (Unit {0})

abbrev pub passed : Check
passed = returned tt

abbrev pub refuse {ℓ} : {A : Type ℓ} → ProtocolCode → Outcome A
refuse code = threw (protocol code)

-- One check after another, outside any state.
infixl 5 ◌then_check◌
abbrev pub ◌then_check◌ {ℓ} : {A : Type ℓ} → Check → Outcome A → Outcome A
◌then_check◌ (returned u) next = next
◌then_check◌ (threw e) next = threw e

unfoldable pub has : Text → List Text → Bool
unfolding text_eq
has t [] = false
has t (u ∷ us) = text_eq u t || has t us

abbrev pub reserved_event_types : List Text
reserved_event_types =
    text "start"
    ∷ text "connect"
    ∷ text "disconnect"
    ∷ text "destroy"
    ∷ text "close"
    ∷ text "socket.disconnected"
    ∷ text "error"
    ∷ text "data"
    ∷ []

-- `Object.getOwnPropertyNames(Object.prototype)`
abbrev pub unsafe_event_types : List Text
unsafe_event_types =
    text "constructor"
    ∷ text "__defineGetter__"
    ∷ text "__defineSetter__"
    ∷ text "hasOwnProperty"
    ∷ text "__lookupGetter__"
    ∷ text "__lookupSetter__"
    ∷ text "isPrototypeOf"
    ∷ text "propertyIsEnumerable"
    ∷ text "toString"
    ∷ text "valueOf"
    ∷ text "__proto__"
    ∷ text "toLocaleString"
    ∷ []

-- `n <= limit`; no comparison with NaN holds.
unfoldable pub within : ℕ → Amount → Bool
within n infinite = true
within n (whole m) = leb n m
within n other = false

-- `n > limit`
unfoldable pub exceeds : ℕ → Amount → Bool
exceeds n infinite = false
exceeds n (whole m) = ltb m n
exceeds n other = false

-- `GuardedParser.validateType` on a text, behind the test that it is not empty.
unfoldable pub validate_name : Limits → Text → Check
unfolding exceeds has
validate_name l type =
    if exceeds (length type) l.max_event_name_length
    then refuse event_too_large
    else if has type unsafe_event_types
    then refuse invalid_event
    else if not l.allow_reserved_events && has type reserved_event_types
    then refuse reserved_event
    else passed

unfoldable pub validate_guarded : Limits → Value → Check
unfolding validate_name
validate_guarded l (str (c ∷ type)) = validate_name l (c ∷ type)
validate_guarded l _ = refuse invalid_event

unfoldable pub allowed_check : List Text → Value → Check
unfolding has
allowed_check allowed (str type) = if has type allowed then passed else refuse event_not_allowed
allowed_check allowed _ = refuse event_not_allowed

-- `AssuredParser.validateType`
unfoldable pub validate_assured : Limits → List Text → Value → Check
unfolding validate_guarded allowed_check
validate_assured l allowed type = validate_guarded l type then_check allowed_check allowed type

-- `validateType` of the parser's class; the fast and the raw parser have none.
unfoldable pub validate_type : Parser → Value → Check
unfolding validate_guarded validate_assured
validate_type (raw encoding) type = passed
validate_type (fast delimiter) type = passed
validate_type (guarded delimiter l) type = validate_guarded l type
validate_type (assured delimiter l allowed) type = validate_assured l allowed type

unfoldable pub assert_frame_size : Limits → ℕ → Check
unfolding within
assert_frame_size l bytes =
    if within bytes l.max_message_size then passed else refuse frame_too_large

-- `data=emptyPayload`
unfoldable pub payload : Value → Value
payload undefined = obj end
payload data' = data'

-- `{type,data}`
unfoldable pub message : Value → Value → Value
unfolding payload
message type data' = obj (field (text "type") type (field (text "data") (payload data') end))

-- `Parser.encode`
unfoldable pub encode_fast : Text → Value → Value → Text
unfolding stringify message
encode_fast delimiter type data' = stringify (message type data') ++ delimiter

-- `GuardedParser.encode`, with the `validateType` of the class.
unfoldable pub encode_checked : Check → Limits → Text → Value → Value → Outcome Text
unfolding encode_fast assert_frame_size byte_length
encode_checked valid l delimiter type data' =
    let frame = encode_fast delimiter type data' in
    valid
    then_check assert_frame_size l (byte_length frame - byte_length delimiter)
    then_check returned frame

-- `parser.encode(type,data)` of the framed parsers; `encode_raw` is that of the raw one.
unfoldable pub encode : Parser → Value → Value → Outcome Text
unfolding encode_checked encode_fast
encode (raw encoding) type data' = threw type_error
encode (fast delimiter) type data' = returned (encode_fast delimiter type data')
encode (guarded delimiter l) type data' =
    encode_checked (validate_type (guarded delimiter l) type) l delimiter type data'
encode (assured delimiter l allowed) type data' =
    encode_checked (validate_type (assured delimiter l allowed) type) l delimiter type data'

-- What is written to a socket: a Buffer, by its bytes, or a string.
pub data Wire : Type 0 where
  packet : List ℕ → Wire
  chars : Text → Wire

-- `RawParser.encode`; `bytes_of` is `Buffer.from(value,encoding)`.
unfoldable pub encode_raw : (Text → Text → List ℕ) → Text → Wire → Wire
encode_raw bytes_of encoding (packet b) = packet b
encode_raw bytes_of encoding (chars s) = packet (bytes_of encoding s)

-- `format(message)` of the framed parsers; reading a property of null or undefined throws.
unfoldable pub format : Parser → Value → Outcome Text
unfolding encode get
format p undefined = threw type_error
format p null = threw type_error
format p m = encode p (get (text "type") m) (get (text "data") m)

-- `RawParser.format`
unfoldable pub format_raw : (Text → Text → List ℕ) → Text → Wire → Wire
unfolding encode_raw
format_raw bytes_of encoding m = encode_raw bytes_of encoding m
