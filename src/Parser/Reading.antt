-- ===== src/Parser/Reading.antt =====
-- `read`, `push`, `parse` and `decode` of the parsers of entities/EventParser.js, and
-- `MessageParser` of entities/MessageParser.js.
use node_ipc.Base.{List, [], ◌∷◌, Option, none, some}
use node_ipc.Text.{Text, text, byte_length}
use node_ipc.Outcome.{invalid_json, invalid_message, Outcome, returned, threw, Run, and_then}
use node_ipc.Json.{Value, obj, lookup}
use node_ipc.Json.Parse.{parse}
use node_ipc.Framing
use node_ipc.Framing.{Pushed}
use node_ipc.Parser.{
  Limits, Parser, raw, fast, guarded, assured, Check, passed, refuse, ◌then_check◌, validate_type,
  assert_frame_size,
}

unfoldable pub parsed : Option Value → Outcome Value
parsed none = refuse invalid_json
parsed (some v) = returned v

-- `Parser.decode`
unfoldable pub decode_fast : Text → Outcome Value
unfolding parsed
decode_fast frame = parsed (parse frame)

-- `GuardedParser.decodeMessage` behind `super.decode`, with the `validateType` of the class.
unfoldable pub envelope : (Value → Check) → Outcome Value → Outcome Value
unfolding lookup
envelope valid (returned (obj fields)) =
    valid (lookup (text "type") fields) then_check returned (obj fields)
envelope valid (returned _) = refuse invalid_message
envelope valid (threw e) = threw e

unfoldable pub decode_message : (Value → Check) → Text → Outcome Value
unfolding envelope decode_fast
decode_message valid frame = envelope valid (decode_fast frame)

-- `GuardedParser.decode`, and what its `read` does on a frame.
unfoldable pub decode_guarded : (Value → Check) → Limits → Text → Outcome Value
unfolding decode_message assert_frame_size
decode_guarded valid l frame =
    assert_frame_size l (byte_length frame) then_check decode_message valid frame

-- `receive(this.decode(frame))`
unfoldable pub deliver {ℓ κ} :
    {S : Type ℓ} {M : Type κ} → (M → Run S (Unit {0})) → Outcome M → Run S (Unit {0})
deliver receive (returned m) s = receive m s
deliver receive (threw e) s = (s, threw e)

-- A check that throws, or the given result.
unfoldable pub keep_if {ℓ κ} : {S : Type ℓ} {A : Type κ} → Check → A → Run S A
keep_if (returned u) a s = (s, returned a)
keep_if (threw e) a s = (s, threw e)

module _ {ℓ} {S : Type ℓ} (receive : Value → Run S (Unit {0})) where
  -- `Parser.read`
  unfoldable pub read_fast : Text → Text → Text → Run S Text
  unfolding deliver
  read_fast delimiter = Framing.read delimiter (λ frame. deliver receive (decode_fast frame))

  -- `GuardedParser.read`
  unfoldable pub read_guarded : (Value → Check) → Limits → Text → Text → Text → Run S Text
  unfolding deliver keep_if
  read_guarded valid l delimiter buffer chunk s =
      and_then
        (Framing.read delimiter (λ frame. deliver receive (decode_guarded valid l frame)) buffer
          chunk s)
        (λ remainder. keep_if (assert_frame_size l (byte_length remainder)) remainder)

-- `parser.read`, by class. The receivers of a raw parser never call it.
unfoldable pub read {ℓ} :
    {S : Type ℓ} → Parser → (Value → Run S (Unit {0})) → Text → Text → Run S Text
unfolding read_fast read_guarded
read (raw encoding) receive buffer chunk s = (s, returned buffer)
read (fast delimiter) receive buffer chunk s = read_fast receive delimiter buffer chunk s
read (guarded delimiter l) receive buffer chunk s =
    read_guarded receive (validate_type (guarded delimiter l)) l delimiter buffer chunk s
read (assured delimiter l allowed) receive buffer chunk s =
    read_guarded receive (validate_type (assured delimiter l allowed)) l delimiter buffer chunk s

-- `MessageParser.read`: the frames go through `new Message(frame)` of js-message.
pub read_message {ℓ κ} :
    {S : Type ℓ} {M : Type κ}
    → (Text → Outcome M)
    → (M → Run S (Unit {0}))
    → Text
    → Text
    → Text
    → Run S Text
unfolding deliver
read_message new_message receive delimiter =
    Framing.read delimiter (λ frame. deliver receive (new_message frame))

-- `RawParser.read`
pub read_raw {ℓ κ} : {S : Type ℓ} {D : Type κ} → (D → Run S (Unit {0})) → Text → D → Run S Text
read_raw receive buffer chunk s = and_then (receive chunk s) (λ _ s'. (s', returned buffer))

unfoldable pub check_frames : Limits → List Text → Check
unfolding assert_frame_size
check_frames l [] = passed
check_frames l (f ∷ fs) = assert_frame_size l (byte_length f) then_check check_frames l fs

-- `GuardedParser.push`
unfoldable pub push_guarded : Limits → Text → Text → Text → Outcome Pushed
unfolding check_frames
push_guarded l delimiter buffer chunk =
    let pushed = Framing.push delimiter buffer chunk in
    check_frames l pushed.events
    then_check assert_frame_size l (byte_length pushed.remainder)
    then_check returned pushed

-- `Parser.parse`
pub parse_frames : Text → Text → List Text
parse_frames delimiter chunk = (Framing.push delimiter [] chunk).events

-- The chunks of a stream one after another, each with the buffer that the last call returned.
unfoldable pub read_stream {ℓ} :
    {S : Type ℓ} → Parser → (Value → Run S (Unit {0})) → Text → List Text → Run S Text
read_stream p receive buffer [] s = (s, returned buffer)
read_stream p receive buffer (c ∷ cs) s =
    and_then (read p receive buffer c s) (λ rest. read_stream p receive rest cs)

-- `RawParser.parse` and `RawParser.decode`
pub parse_raw {κ} : {D : Type κ} → D → List D
parse_raw chunk = chunk ∷ []

pub decode_raw {κ} : {D : Type κ} → D → D
decode_raw chunk = chunk
