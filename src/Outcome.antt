-- ===== src/Outcome.antt =====
-- Exceptions and effects: a method runs on the state that it can change, and returns or throws.
-- What it did before it threw stays done.
use node_ipc.Base.{ℕ, ◌≡◌, refl, List, [], ◌∷◌}

-- The codes of `IPCProtocolError` (entities/EventParser.js, dao/client.js, dao/socketServer.js).
pub data ProtocolCode : Type 0 where
  invalid_json invalid_message invalid_event event_too_large reserved_event : ProtocolCode
  frame_too_large event_not_allowed backpressure message_timeout assured_transport : ProtocolCode

-- The codes of the library's other errors (entities/TLS.js, dao/socketServer.js).
pub data SetupCode : Type 0 where
  tls_configuration assured_tls socket_root_unsafe unlink_not_socket : SetupCode

-- What can be thrown: an `IPCProtocolError`, a `TypeError` or coded `Error` of the library's own
-- checks, or what a subscriber throws.
pub data Thrown : Type 0 where
  protocol : ProtocolCode → Thrown
  type_error : Thrown
  setup : SetupCode → Thrown
  foreign : ℕ → Thrown

pub data Outcome {ℓ} (A : Type ℓ) : Type ℓ where
  returned : A → Outcome A
  threw : Thrown → Outcome A

abbrev pub Run {ℓ κ} : Type ℓ → Type κ → Type (ℓ ⊔ κ)
Run S A = S → S × Outcome A

module _ {ℓ κ} {S : Type ℓ} {A : Type κ} where
  abbrev pub return : A → Run S A
  return a s = (s, returned a)

  abbrev pub throw : Thrown → Run S A
  throw e s = (s, threw e)

abbrev pub and_then {ℓ κ μ} :
    {S : Type ℓ} {A : Type κ} {B : Type μ} → S × Outcome A → (A → Run S B) → S × Outcome B
and_then (s, returned a) k = k a s
and_then (s, threw e) k = (s, threw e)

infixl 5 ◌>>=◌ ◌>>◌
abbrev pub ◌>>=◌ {ℓ κ μ} :
    {S : Type ℓ} {A : Type κ} {B : Type μ} → Run S A → (A → Run S B) → Run S B
◌>>=◌ m k s = and_then (m s) k

abbrev pub ◌>>◌ {ℓ κ} : {S : Type ℓ} {B : Type κ} → Run S (Unit {0}) → Run S B → Run S B
m >> k = m >>= λ _. k

-- An action on each item in turn, up to the first that throws.
abbrev pub each {ℓ κ} :
    {S : Type ℓ} {A : Type κ} → (A → Run S (Unit {0})) → List A → Run S (Unit {0})
each f [] s = (s, returned tt)
each f (x ∷ xs) s = and_then (f x s) (λ _. each f xs)

pub and_then_assoc {ℓ κ μ ν} :
    {S : Type ℓ} {A : Type κ} {B : Type μ} {C : Type ν} (m : S × Outcome A) (f : A → Run S B)
    (g : B → Run S C)
    → and_then (and_then m f) g ≡ and_then m (λ a s. and_then (f a s) g)
and_then_assoc (s, returned a) f g = refl
and_then_assoc (s, threw e) f g = refl

pub and_then-return {ℓ κ} :
    {S : Type ℓ} {B : Type κ} (m : S × Outcome (Unit {0})) (k : Unit {0} → Run S B)
    → and_then (and_then m (λ _ s. (s, returned tt))) k ≡ and_then m k
and_then-return (s, returned u) k = refl
and_then-return (s, threw e) k = refl

-- Inversion of a sequence that returned.
pub and_then-eq-returned {ℓ κ μ} :
    {S : Type ℓ} {A : Type κ} {B : Type μ} (m : S × Outcome A) (k : A → Run S B) {s' : S} {b : B}
    → and_then m k ≡ (s', returned b)
    → (s₁ : S) × (a : A) × (m ≡ (s₁, returned a)) × (k a s₁ ≡ (s', returned b))
and_then-eq-returned (s, returned a) k h = (s, a, refl, h)
and_then-eq-returned (s, threw e) k h = cc
