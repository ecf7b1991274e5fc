-- ===== src/Interop/Payload.antt =====
-- `validatePayload` of rust/node-ipc/interop/node-peer.js. `number_of` says which non-negative safe integer
-- a literal of JSON denotes, if it denotes one.
use node_ipc.Base.{
  ◌≡◌, refl, ℕ, Bool, false, not, Option, none, some, ◌==◌, if◌then◌else◌, arith, ◌⊎◌, inl, inr,
}
use node_ipc.Text.{Text, text, text_eq, text_eq_refl}
use node_ipc.Json.{Value, Fields, num, str, obj, lookup}
use node_ipc.Interop.{request_data}
use node_ipc.Interop.Decimal.{decimal}

-- The errors that are thrown.
pub data Complaint : Type 0 where
  no_object no_sequence other_sequence other_payload : Complaint

module _ (number_of : Text → Option ℕ) where
  -- `data.sequence`, if it is a non-negative safe integer
  unfoldable pub sequence_of : Fields → Option ℕ
  unfolding lookup
  sequence_of fields = elim (lookup (text "sequence") fields) [ num t ↦ number_of t | _ ↦ none ]

  unfoldable pub is_other : Option ℕ → ℕ → Bool
  is_other none n = false
  is_other (some expected) n = not (n == expected)

  unfoldable pub has_payload : Text → Fields → Bool
  unfolding lookup text_eq
  has_payload payload fields = elim (lookup (text "payload") fields) [
    | str t ↦ text_eq t payload
    | _ ↦ false
  ]

  unfoldable pub validate_fields : Fields → Option ℕ → Text → Option Complaint
  unfolding sequence_of is_other has_payload
  validate_fields fields expected payload = elim (sequence_of fields) [
    | none ↦ some no_sequence
    | some n ↦
        if is_other expected n
        then some other_sequence
        else if has_payload payload fields
        then none
        else some other_payload
  ]

  -- `validatePayload`, with what it throws.
  unfoldable pub validate_payload : Value → Option ℕ → Text → Option Complaint
  unfolding validate_fields
  validate_payload (obj fields) expected payload = validate_fields fields expected payload
  validate_payload _ expected payload = some no_object

  -- `data.sequence` of a value that has passed.
  unfoldable pub data_sequence : Value → Option ℕ
  unfolding sequence_of
  data_sequence (obj fields) = sequence_of fields
  data_sequence _ = none

  is_other-same :
      (expected : Option ℕ) (n : ℕ)
      → (expected ≡ none) ⊎ (expected ≡ some n)
      → is_other expected n ≡ false
  unfolding is_other
  is_other-same none n h = refl
  is_other-same (some m) n (inl h) = cc
  is_other-same (some m) n (inr h) = ground (arith, h)

  -- What a peer makes passes, where its number is read back.
  pub validate_payload-request_data :
      (n : ℕ) (payload : Text) (expected : Option ℕ)
      → number_of (decimal n) ≡ some n
      → (expected ≡ none) ⊎ (expected ≡ some n)
      → validate_payload (request_data n payload) expected payload ≡ none
  unfolding validate_payload request_data has_payload
  validate_payload-request_data n payload expected h e =
      rw (h, is_other-same expected n e, text_eq_refl payload) refl

  pub data_sequence-request_data :
      (n : ℕ) (payload : Text)
      → number_of (decimal n) ≡ some n
      → data_sequence (request_data n payload) ≡ some n
  unfolding data_sequence request_data
  data_sequence-request_data n payload h = h
