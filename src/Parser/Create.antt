-- ===== src/Parser/Create.antt =====
-- The constructors of the parsers and `createParser` (entities/EventParser.js).

pub mod Made
use node_ipc.Base.{
  zero, suc, true, false, ◌&&◌, ◌||◌, List, [], ◌∷◌, Option, none, some, if◌then◌else◌,
}
use node_ipc.Text.{Text, text, text_eq}
use node_ipc.Outcome.{Thrown, type_error, Outcome, returned, threw}
use node_ipc.Config.{
  Config, Amount, infinite, whole, other, Choice, named, parser_class, parser_object, Supplied,
}
use node_ipc.Parser.{Limits, Parser, raw, fast, guarded, assured, Check, passed, ◌then_check◌}

-- A parser of the library, or one that the application supplies.
pub data Built : Type 0 where
  built_in : Parser → Built
  supplied : Supplied → Built

unfoldable pub validate_limit : Amount → Check
validate_limit infinite = passed
validate_limit (whole zero) = threw type_error
validate_limit (whole (suc n)) = passed
validate_limit other = threw type_error

-- `if(this.messageTimeout !== 0)`
unfoldable pub validate_timeout : Amount → Check
unfolding validate_limit
validate_timeout infinite = validate_limit infinite
validate_timeout (whole zero) = passed
validate_timeout (whole (suc n)) = validate_limit (whole (suc n))
validate_timeout other = validate_limit other

unfoldable pub check_delimiter : Option Text → Outcome Text
check_delimiter none = threw type_error
check_delimiter (some []) = threw type_error
check_delimiter (some (c ∷ d)) = returned (c ∷ d)

unfoldable pub make {ℓ κ} : {A : Type ℓ} {B : Type κ} → (A → Outcome B) → Outcome A → Outcome B
make k (returned a) = k a
make k (threw e) = threw e

unfoldable pub limits_of : Config → Limits
limits_of c = record {
  max_message_size = c.max_message_size;
  max_pending_bytes = c.max_pending_bytes;
  max_event_name_length = c.max_event_name_length;
  message_timeout = c.message_timeout;
  allow_reserved_events = c.allow_reserved_events;
}

unfoldable pub new_raw : Config → Outcome Parser
new_raw c = returned (raw c.encoding)

unfoldable pub new_fast : Config → Outcome Parser
unfolding make check_delimiter
new_fast c = make (λ d. returned (fast d)) (check_delimiter c.delimiter)

-- The constructor of `GuardedParser`, which that of `AssuredParser` runs first.
unfoldable pub guarded_fields : Config → Outcome (Text × Limits)
unfolding make check_delimiter validate_limit validate_timeout limits_of
guarded_fields c =
    make
      (λ d.
        validate_limit c.max_message_size
        then_check validate_limit c.max_pending_bytes
        then_check validate_limit c.max_event_name_length
        then_check validate_timeout c.message_timeout
        then_check returned (d, limits_of c))
      (check_delimiter c.delimiter)

unfoldable pub new_guarded : Config → Outcome Parser
unfolding make guarded_fields
new_guarded c = make (λ fields. returned (guarded fields.0 fields.1)) (guarded_fields c)

unfoldable pub allow_only : Option (List Text) → Text × Limits → Outcome Parser
allow_only none fields = threw type_error
allow_only (some []) fields = threw type_error
allow_only (some (t ∷ ts)) (d, l) =
    returned (assured d (record l { allow_reserved_events = false }) (t ∷ ts))

unfoldable pub new_assured : Config → Outcome Parser
unfolding make guarded_fields allow_only
new_assured c = make (allow_only c.allowed_events) (guarded_fields c)

unfoldable pub usable : Supplied → Outcome Built
usable s = if s.has_encode && s.has_read then returned (supplied s) else threw type_error

unfoldable pub built : Outcome Parser → Outcome Built
built (returned p) = returned (built_in p)
built (threw e) = threw e

unfoldable pub create_named : Config → Text → Outcome Built
unfolding text_eq built new_raw new_fast new_guarded new_assured
create_named c [] = built (new_fast c)
create_named c (x ∷ name) =
    if text_eq (x ∷ name) (text "raw")
    then built (new_raw c)
    else if text_eq (x ∷ name) (text "fast")
    then built (new_fast c)
    else if text_eq (x ∷ name) (text "guarded")
    then built (new_guarded c)
    else if text_eq (x ∷ name) (text "assured")
    then built (new_assured c)
    else threw type_error

unfoldable pub create_chosen : Config → Choice → Outcome Built
unfolding create_named usable
create_chosen c (named name) = create_named c name
create_chosen c (parser_class s) = usable s
create_chosen c (parser_object s) = usable s

unfoldable pub create_parser : Config → Outcome Built
unfolding create_chosen
create_parser c = create_chosen c (if c.raw_buffer then named (text "raw") else c.parser)
