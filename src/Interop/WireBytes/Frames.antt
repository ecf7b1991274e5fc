-- ===== src/Interop/WireBytes/Frames.antt =====
-- What `wireBytesForPhase` counts, against the frames of `Parser.encode`.
use node_ipc.Base.{
  ◌≡◌, refl, sym, ap, subst, ◌∙◌, ℕ, zero, suc, ◌+◌, ◌≤◌, ◌<◌, true, false, [], ◌∷◌, ◌++◌, arith,
  append_assoc, length,
}
use node_ipc.Text.{Text, text, is_high, byte_length}
use node_ipc.Text.Bytes.{byte_length-append, byte_length-ascii}
use node_ipc.Json.{str}
use node_ipc.Json.Print.{quote, escape, stringify}
use node_ipc.Parser.{encode_fast, message, payload}
use node_ipc.Interop.{max_safe_integer, request_data, request_event, response_event}
use node_ipc.Interop.Decimal.{
  decimal, all_digits, is_decimal_digit, decimal-all_digits, digit_count, digit_count_zero,
  one-le-length-decimal,
}
use node_ipc.Interop.WireBytes.Rounding.{phase_bytes-exact}
use node_ipc.Interop.WireBytes.{
  extra, sum_from, wire_bytes_for_phase, phase_bytes, exact, phase_bytes-eq,
}

-- A frame, up to its sequence number, and behind it.
unfoldable before_number : Text → Text
unfolding quote
before_number event = text "{\"type\":" ++ quote event (text ",\"data\":{\"sequence\"")

unfoldable behind_number : Text → Text → Text
unfolding quote
behind_number delimiter payload' = (text ",\"payload\":" ++ quote payload' (text "}}")) ++ delimiter

pieces :
    (a b : Text) (c : ℕ) (d e f : Text)
    → (a ++ (b ++ c ∷ (d ++ e))) ++ f ≡ (a ++ b) ++ c ∷ (d ++ (e ++ f))
pieces a b c d e f =
    append_assoc a (b ++ c ∷ (d ++ e)) f
    ∙ ap (λ t. a ++ t) (append_assoc b (c ∷ (d ++ e)) f ∙ ap (λ t. b ++ c ∷ t) (append_assoc d e f))
    ∙ sym (append_assoc a b (c ∷ (d ++ (e ++ f))))

frame-eq :
    (delimiter event payload' : Text) (n : ℕ)
    → encode_fast delimiter (str event) (request_data n payload')
      ≡ before_number event ++ b':' ∷ (decimal n ++ behind_number delimiter payload')
unfolding encode_fast message payload request_data stringify before_number behind_number escape
frame-eq delimiter event payload' n =
    ap (λ t. text "{\"type\":\"" ++ t)
      (pieces (escape false event) (text "\",\"data\":{\"sequence\"") b':' (decimal n)
        (text ",\"payload\":" ++ quote payload' (text "}}")) delimiter)

digits_bytes : (d s : Text) → all_digits d ≡ true → byte_length (d ++ s) ≡ length d + byte_length s
unfolding all_digits is_decimal_digit
digits_bytes [] s h = omega arith
digits_bytes (c ∷ d) s h =
    let ascii : c < 128 = ground (arith, h) in
    byte_length-ascii c (d ++ s) ascii ∙ omega (arith, digits_bytes d s (ground (arith, h)))

frame_bytes :
    (delimiter event payload' : Text) (n : ℕ)
    → byte_length (encode_fast delimiter (str event) (request_data n payload'))
      ≡ byte_length (before_number event ++ b':' ∷ [])
        + (digit_count n + byte_length (behind_number delimiter payload'))
unfolding digit_count is_high
frame_bytes delimiter event payload' n =
    ap byte_length (frame-eq delimiter event payload' n)
    ∙ byte_length-append (before_number event) b':' (decimal n ++ behind_number delimiter payload')
        refl
    ∙ ap (λ k. byte_length (before_number event ++ b':' ∷ []) + k)
        (digits_bytes (decimal n) (behind_number delimiter payload') (decimal-all_digits n))

-- A frame has one byte more for each digit behind the first of its number.
frame_extra :
    (delimiter event payload' : Text) (n : ℕ)
    → byte_length (encode_fast delimiter (str event) (request_data 0 payload')) + extra n
      ≡ byte_length (encode_fast delimiter (str event) (request_data n payload'))
unfolding extra digit_count
frame_extra delimiter event payload' n = omega (
  arith,
  frame_bytes delimiter event payload' 0,
  frame_bytes delimiter event payload' n,
  digit_count_zero,
  one-le-length-decimal n,
)

sum_from_same : (s m : ℕ) (f g : ℕ → ℕ) → ((n : ℕ) → f n ≡ g n) → sum_from s m f ≡ sum_from s m g
unfolding sum_from
sum_from_same s zero f g h = refl
sum_from_same s (suc m) f g h = omega (arith, sum_from_same s m f g h, h (s + m))

-- For a phase of at least one round trip and at most as many as there are safe integers, whose frames have
-- together no more bytes than there are safe integers, `wireBytesForPhase` with the `encode` of the fast parser is
-- the sum of the bytes of all frames of the phase: of each request and each response, with the sequence numbers
-- below `count`. Its arithmetic may round what is no safe integer in any way, and leaves safe integers as they are.
pub wire_bytes_for_phase-frames :
    (to_double : ℕ → ℕ) (delimiter payload' : Text) (count : ℕ)
    → ((n : ℕ) → n ≤ max_safe_integer → to_double n ≡ n)
    → 1 ≤ count
    → count ≤ max_safe_integer
    → sum_from 0 count (λ n.
      byte_length (encode_fast delimiter (str request_event) (request_data n payload'))
      + byte_length (encode_fast delimiter (str response_event) (request_data n payload')))
      ≤ max_safe_integer
    → wire_bytes_for_phase to_double count payload'
        (λ event data'. encode_fast delimiter (str event) data')
      ≡ sum_from 0 count (λ n.
        byte_length (encode_fast delimiter (str request_event) (request_data n payload'))
        + byte_length (encode_fast delimiter (str response_event) (request_data n payload')))
unfolding wire_bytes_for_phase sum_from
wire_bytes_for_phase-frames to_double delimiter payload' count rounds some_count safe total =
    phase_bytes-exact to_double rounds count request response (first count some_count total)
      (subst (λ n. n ≤ max_safe_integer) (sym whole) total)
    ∙ whole
  where
    request : ℕ
    request = byte_length (encode_fast delimiter (str request_event) (request_data 0 payload'))

    response : ℕ
    response = byte_length (encode_fast delimiter (str response_event) (request_data 0 payload'))

    frames : ℕ → ℕ
    frames n =
        byte_length (encode_fast delimiter (str request_event) (request_data n payload'))
        + byte_length (encode_fast delimiter (str response_event) (request_data n payload'))

    whole : phase_bytes exact count request response ≡ sum_from 0 count frames
    whole =
        phase_bytes-eq count request response safe
        ∙ sum_from_same 0 count _ _ (λ n. omega (
          arith,
          frame_extra delimiter request_event payload' n,
          frame_extra delimiter response_event payload' n,
        ))

    -- The first two frames are part of the sum.
    first :
        (n : ℕ)
        → 1 ≤ n
        → sum_from 0 n frames ≤ max_safe_integer
        → request + response ≤ max_safe_integer
    first zero h k = elim h [ ]
    first (suc zero) h k = omega (arith, k)
    first (suc (suc n)) h k = first (suc n) (omega arith) (omega (arith, k))
