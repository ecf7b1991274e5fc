-- ===== src/Tests/Streams.antt =====
-- Streams, parsers and event types.
use node_ipc.Base.{◌≡◌, refl, ◌↔◌, true, false, List, [], ◌∷◌, ◌++◌, none, some, arith, All}
use node_ipc.Text.{Text, text, byte_length, find, starts_with}
use node_ipc.Outcome.{returned, Run, and_then, each}
use node_ipc.Json.{Value, undefined, bool, str, obj, end, field}
use node_ipc.Json.Parse.{parse}
use node_ipc.Json.Plain.{is_plain}
use node_ipc.Config.{Config, whole, Platform, defaults, named}
use node_ipc.Framing
use node_ipc.Framing.Split.{Split, push-Split}
use node_ipc.Framing.Chunks.{concat, push_all, read_all, push_all-concat, read_all-concat}
use node_ipc.Parser.{
  Limits, fast, passed, payload, encode_fast, has, reserved_event_types, validate_guarded,
  validate_assured, validate_type, assert_frame_size,
}
use node_ipc.Parser.Create.{create_parser, limits_of}
use node_ipc.Parser.Reading.{decode_guarded, read_fast, read_guarded, read_stream}
use node_ipc.Parser.Safety.{IsMessage, read_guarded-keeps, read_guarded-read_fast}
use node_ipc.Parser.Validation.{
  IsEventName, validate_guarded_iff, validate_assured_iff, create_parser-assured,
}
use node_ipc.Parser.RoundTrip.{Event, messages, read_stream-sent}

-- A receiver that keeps what it is handed, in order.
abbrev keep {ℓ} : {A : Type ℓ} → A → Run (List A) (Unit {0})
keep a s = (s ++ a ∷ [], returned tt)

abbrev pub two_events : List Event
two_events =
    record { type = str (text "chat"); content = bool true }
    ∷ record { type = str (text "ping"); content = undefined }
    ∷ []

abbrev pub two_chunks : List Text
two_chunks =
    text "{\"type\":\"chat\",\"da"
    ∷ (text "ta\":true}" ++ 12 ∷ text "{\"type\":\"ping\",\"data\":{}}" ++ 12 ∷ [])
    ∷ []

read_stream-sent_example :
    read_stream (fast (12 ∷ [])) keep [] two_chunks []
    ≡ and_then (each keep (messages two_events) []) (λ _ s. (s, returned []))
unfolding is_plain payload encode_fast
read_stream-sent_example =
    read_stream-sent keep 12 [] two_events two_chunks [] (omega arith)
      (
        record { type_plain = refl; content_plain = refl },
        (record { type_plain = refl; content_plain = refl }, tt),
      )
      refl

abbrev broken : List Text
broken = text "ab--" ∷ text "c-" ∷ text "-d" ∷ []

read_all-concat_example :
    read_all (text "--") keep [] broken [] ≡ Framing.read (text "--") keep [] (concat broken) []
unfolding find starts_with
read_all-concat_example = read_all-concat b'-' (text "-") keep [] broken [] refl

push_all-concat_example :
    push_all (text "--") [] broken ≡ Framing.push (text "--") [] (concat broken)
unfolding find starts_with
push_all-concat_example = push_all-concat b'-' (text "-") [] broken refl

push-Split_example :
    Split
      (text "--")
      (text "ab--c--d")
      (Framing.push (text "--") (text "ab-") (text "-c--d")).events
      (Framing.push (text "--") (text "ab-") (text "-c--d")).remainder
push-Split_example = push-Split b'-' (text "-") (text "ab-") (text "-c--d")

abbrev pub small : Limits
small = record {
  max_message_size = whole 40;
  max_pending_bytes = whole 100;
  max_event_name_length = whole 8;
  message_timeout = whole 30000;
  allow_reserved_events = false;
}

abbrev chat_frame : Text
chat_frame = text "{\"type\":\"chat\"}"

abbrev chat : Value
chat = obj (field (text "type") (str (text "chat")) end)

read_guarded-keeps_example :
    All
      (IsMessage (validate_guarded small))
      (read_guarded
        (λ m s. (m ∷ s, returned tt))
        (validate_guarded small)
        small
        (12 ∷ [])
        []
        (chat_frame ++ 12 ∷ text "[]")
        []).0
read_guarded-keeps_example =
    read_guarded-keeps (All (IsMessage (validate_guarded small))) (λ m s. (m ∷ s, returned tt))
      (validate_guarded small) small (λ m s v i. (v, i)) (12 ∷ []) [] (chat_frame ++ 12 ∷ text "[]")
      [] tt

read_guarded-read_fast_example :
    (read_fast keep (12 ∷ []) [] (chat_frame ++ 12 ∷ text "[]") []
      ≡ (chat ∷ [], returned (text "[]")))
    × (assert_frame_size small 2 ≡ passed)
unfolding read_guarded validate_guarded Framing.read decode_guarded byte_length parse
read_guarded-read_fast_example =
    read_guarded-read_fast keep (validate_guarded small) small (12 ∷ []) []
      (chat_frame ++ 12 ∷ text "[]") [] refl

validate_guarded_iff_example :
    (validate_guarded small (str (text "chat")) ≡ passed)
    ↔ ((name : Text) × (str (text "chat") ≡ str name) × IsEventName small name)
validate_guarded_iff_example = validate_guarded_iff small (str (text "chat"))

validate_assured_iff_example :
    (validate_assured small (text "chat" ∷ []) (str (text "chat")) ≡ passed) ↔ (
      (name : Text) × (str (text "chat") ≡ str name)
      × IsEventName small name
      × (has name (text "chat" ∷ []) ≡ true))
validate_assured_iff_example = validate_assured_iff small (text "chat" ∷ []) (str (text "chat"))

-- A host with one network interface.
abbrev pub host : Platform
host = record {
  is_windows = false;
  hostname = text "host";
  user_name = some (text "a b");
  runtime_root = none;
  user_id = some (text "1000");
  tmpdir = text "/tmp";
  join_path = λ a b. a ++ text "/" ++ b;
  separator = text "/";
  interfaces = (text "IPv4" ∷ []) ∷ [];
}

abbrev assured_config : Config
assured_config = record (defaults host) {
  parser = named (text "assured");
  allowed_events = some (text "chat" ∷ text "error" ∷ []);
}

create_parser-assured_example :
    (assured_config.allowed_events ≡ some (text "chat" ∷ text "error" ∷ []))
    × (has (text "chat") (text "chat" ∷ text "error" ∷ []) ≡ true)
    × (has (text "chat") reserved_event_types ≡ false)
unfolding defaults create_parser validate_type
create_parser-assured_example =
    create_parser-assured assured_config {d = 12 ∷ []}
      {l = record (limits_of assured_config) { allow_reserved_events = false }}
      {allowed = text "chat" ∷ text "error" ∷ []} (text "chat") refl refl
