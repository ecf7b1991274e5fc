-- ===== src/Parser/Contained.antt =====
-- What the guarded and the assured parser throw: errors of the protocol only.
pub mod Reads
use node_ipc.Base.{
  ◌≡◌, ℕ, Bool, true, false, not, ◌&&◌, List, [], ◌∷◌, Option, none, some, if◌then◌else◌, length,
}
use node_ipc.Text.{Text, text, byte_length}
use node_ipc.Outcome.{
  Thrown, protocol, ProtocolCode, Outcome, returned, threw, event_too_large, invalid_event,
  reserved_event,
}
use node_ipc.Json.{Value, undefined, null, bool, num, str, arr, obj, lookup}
use node_ipc.Json.Parse.{parse}
use node_ipc.Parser.{
  Limits, Check, ◌then_check◌, exceeds, has, unsafe_event_types, reserved_event_types,
  validate_name, validate_guarded, allowed_check, validate_assured, within, assert_frame_size,
}
use node_ipc.Parser.Reading.{parsed, decode_fast, envelope, decode_message, decode_guarded}

-- A result that is no exception but one of the protocol.
pub data IsContained {A : Type 0} : Outcome A → Type 0 where
  returns : (a : A) → IsContained (returned a)
  refuses : (code : ProtocolCode) → IsContained (threw (protocol code))

then_check-IsContained :
    {A : Type 0} {c : Check} {o : Outcome A}
    → IsContained c
    → IsContained o
    → IsContained (c then_check o)
then_check-IsContained (returns u) k = k
then_check-IsContained (refuses code) k = refuses code

pub if-IsContained :
    {A : Type 0} (b : Bool) {x y : Outcome A}
    → IsContained x
    → IsContained y
    → IsContained (if b then x else y)
if-IsContained true h k = h
if-IsContained false h k = k

validate_name-IsContained : (l : Limits) (t : Text) → IsContained (validate_name l t)
unfolding validate_name
validate_name-IsContained l t =
    if-IsContained (exceeds (length t) l.max_event_name_length) (refuses event_too_large) (
      if-IsContained (has t unsafe_event_types) (refuses invalid_event) (
        if-IsContained (not l.allow_reserved_events && has t reserved_event_types)
          (refuses reserved_event) (returns tt)))

pub validate_guarded-IsContained : (l : Limits) (v : Value) → IsContained (validate_guarded l v)
unfolding validate_guarded
validate_guarded-IsContained l (str (c ∷ t)) = validate_name-IsContained l (c ∷ t)
validate_guarded-IsContained l (str []) = refuses _
validate_guarded-IsContained l undefined = refuses _
validate_guarded-IsContained l null = refuses _
validate_guarded-IsContained l (bool b) = refuses _
validate_guarded-IsContained l (num n) = refuses _
validate_guarded-IsContained l (arr xs) = refuses _
validate_guarded-IsContained l (obj fs) = refuses _

allowed_check-IsContained :
    (allowed : List Text) (v : Value) → IsContained (allowed_check allowed v)
unfolding allowed_check
allowed_check-IsContained allowed (str t) = if-IsContained (has t allowed) (returns tt) (refuses _)
allowed_check-IsContained allowed undefined = refuses _
allowed_check-IsContained allowed null = refuses _
allowed_check-IsContained allowed (bool b) = refuses _
allowed_check-IsContained allowed (num n) = refuses _
allowed_check-IsContained allowed (arr xs) = refuses _
allowed_check-IsContained allowed (obj fs) = refuses _

pub validate_assured-IsContained :
    (l : Limits) (allowed : List Text) (v : Value) → IsContained (validate_assured l allowed v)
unfolding validate_assured
validate_assured-IsContained l allowed v =
    then_check-IsContained (validate_guarded-IsContained l v) (allowed_check-IsContained allowed v)

pub assert_frame_size-IsContained : (l : Limits) (n : ℕ) → IsContained (assert_frame_size l n)
unfolding assert_frame_size
assert_frame_size-IsContained l n =
    if-IsContained (within n l.max_message_size) (returns tt) (refuses _)

decode_fast-IsContained : (frame : Text) → IsContained (decode_fast frame)
unfolding decode_fast
decode_fast-IsContained frame = go (parse frame)
  where
    go : (o : Option Value) → IsContained (parsed o)
    go none = unfold parsed in refuses _
    go (some v) = unfold parsed in returns v

pub protocol_of :
    {A : Type 0} {o : Outcome A} {e : Thrown}
    → IsContained o
    → o ≡ threw e
    → (code : ProtocolCode) × (e ≡ protocol code)
protocol_of (returns a) h = cc
protocol_of (refuses code) h = (code, cc)

module _ (valid : Value → Check) (l : Limits) (checks : (v : Value) → IsContained (valid v)) where
  envelope-IsContained : {o : Outcome Value} → IsContained o → IsContained (envelope valid o)
  unfolding envelope
  envelope-IsContained (refuses code) = refuses code
  envelope-IsContained (returns (obj fs)) =
      then_check-IsContained (checks (lookup (text "type") fs)) (returns (obj fs))
  envelope-IsContained (returns undefined) = refuses _
  envelope-IsContained (returns null) = refuses _
  envelope-IsContained (returns (bool b)) = refuses _
  envelope-IsContained (returns (num n)) = refuses _
  envelope-IsContained (returns (str t)) = refuses _
  envelope-IsContained (returns (arr xs)) = refuses _

  pub decode_guarded-IsContained : (frame : Text) → IsContained (decode_guarded valid l frame)
  unfolding decode_guarded decode_message
  decode_guarded-IsContained frame =
      then_check-IsContained (assert_frame_size-IsContained l (byte_length frame))
        (envelope-IsContained (decode_fast-IsContained frame))
