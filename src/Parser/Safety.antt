-- ===== src/Parser/Safety.antt =====
-- What the guarded and the assured parser let through.

use node_ipc.Base.{◌≡◌, refl, sym, ap, subst, ap₂, ◌∙◌, List, [], ◌∷◌, arith}
use node_ipc.Text.{Text, text, byte_length}
use node_ipc.Outcome.{Outcome, returned, threw, Run, and_then, and_then-eq-returned, each}
use node_ipc.Json.{Value, Fields, obj, lookup}
use node_ipc.Framing
use node_ipc.Framing.Chunks.{read-push}
use node_ipc.Parser.{
  Parser, raw, fast, guarded, assured, validate_type, Limits, Check, passed, ◌then_check◌,
  assert_frame_size,
}
use node_ipc.Parser.Reading.{
  read, envelope, decode_fast, decode_message, decode_guarded, deliver, keep_if, read_fast,
  read_guarded,
}

-- An object whose `type` passes the check.
pub record IsMessage (valid : Value → Check) (m : Value) : Type 0 where
  pub fields : Fields
  pub is_object : m ≡ obj fields
  pub type_passes : valid (lookup (text "type") fields) ≡ passed

then_check-returned {ℓ} :
    {A : Type ℓ} (c : Check) (o : Outcome A) {a : A}
    → (c then_check o) ≡ returned a
    → (c ≡ passed) × (o ≡ returned a)
then_check-returned (returned u) o h = (refl, h)
then_check-returned (threw e) o h = cc

module _ (valid : Value → Check) (l : Limits) where
  envelope-IsMessage :
      (o : Outcome Value) {m : Value}
      → envelope valid o ≡ returned m
      → IsMessage valid m × (o ≡ returned m)
  unfolding envelope
  envelope-IsMessage (returned (obj fs)) {m} h =
      let r = then_check-returned (valid (lookup (text "type") fs)) (returned (obj fs)) h in
      (record { fields = fs; is_object = cc (r.1); type_passes = r.0 }, r.1)
  envelope-IsMessage (returned _) h = cc
  envelope-IsMessage (threw e) h = cc

  -- What the guarded parser decodes fits its limit, is a valid message, and is what the fast parser
  -- decodes.
  pub decode_guarded-IsMessage :
      (frame : Text) {m : Value}
      → decode_guarded valid l frame ≡ returned m
      → (assert_frame_size l (byte_length frame) ≡ passed)
        × IsMessage valid m
        × (decode_fast frame ≡ returned m)
  unfolding decode_guarded decode_message
  decode_guarded-IsMessage frame h =
      let r =
        then_check-returned (assert_frame_size l (byte_length frame)) (decode_message valid frame)
          h in
      let e = envelope-IsMessage (decode_fast frame) r.1 in (r.0, e.0, e.1)

pub and_then-keeps {ℓ κ μ ν} :
    {S : Type ℓ} {A : Type κ} {B : Type μ} (I : S → Type ν) (m : S × Outcome A) (k : A → Run S B)
    → I m.0
    → ((a : A) (s : S) → I s → I (k a s).0)
    → I (and_then m k).0
and_then-keeps I (s, returned a) k i keep = keep a s i
and_then-keeps I (s, threw e) k i keep = i

pub each-keeps {ℓ κ μ} :
    {S : Type ℓ} {A : Type μ} (I : S → Type κ) (f : A → Run S (Unit {0}))
    → ((x : A) (s : S) → I s → I (f x s).0)
    → (xs : List A) (s : S) → I s
    → I (each f xs s).0
each-keeps I f keep [] s i = i
each-keeps I f keep (x ∷ xs) s i =
    and_then-keeps I (f x s) (λ _. each f xs) (keep x s i) (λ _ s' j. each-keeps I f keep xs s' j)

module _ {ℓ κ} {S : Type ℓ} (I : S → Type κ) where
  deliver-keeps :
      (receive : Value → Run S (Unit {0})) (o : Outcome Value) (s : S)
      → ((m : Value) → o ≡ returned m → I s → I (receive m s).0)
      → I s
      → I (deliver receive o s).0
  unfolding deliver
  deliver-keeps receive (returned m) s keep i = keep m refl i
  deliver-keeps receive (threw e) s keep i = i

  keep_if-keeps : (c : Check) (t : Text) (s : S) → I s → I (keep_if c t s).0
  unfolding keep_if
  keep_if-keeps (returned u) t s i = i
  keep_if-keeps (threw e) t s i = i

  -- `receive` is called on nothing but objects whose `type` passes `validateType`: what every call on
  -- such a message preserves holds after a `read`, whatever came in, and also if it threw.
  pub read_guarded-keeps :
      (receive : Value → Run S (Unit {0})) (valid : Value → Check) (l : Limits)
      → ((m : Value) (s : S) → IsMessage valid m → I s → I (receive m s).0)
      → (delimiter buffer chunk : Text) (s : S) → I s
      → I (read_guarded receive valid l delimiter buffer chunk s).0
  unfolding read_guarded
  read_guarded-keeps receive valid l keep delimiter buffer chunk s i =
      let on_frame = λ (frame : Text). deliver {S = S} receive (decode_guarded valid l frame) in
      and_then-keeps I (Framing.read delimiter on_frame buffer chunk s) _
        (subst (λ m. I m.0) (sym (read-push delimiter on_frame buffer chunk s))
          (and_then-keeps I (each on_frame (Framing.push delimiter buffer chunk).events s) _
            (each-keeps I on_frame
              (λ frame s'.
                deliver-keeps receive (decode_guarded valid l frame) s'
                  (λ m e. keep m s' (decode_guarded-IsMessage valid l frame e).1))
              (Framing.push delimiter buffer chunk).events s i)
            (λ _ s' j. j)))
        (λ rest s' j. keep_if-keeps (assert_frame_size l (byte_length rest)) rest s' j)

deliver-eq-returned {ℓ} :
    {S : Type ℓ} (receive : Value → Run S (Unit {0})) (o : Outcome Value) (s : S) {s' : S}
    {u : Unit {0}}
    → deliver receive o s ≡ (s', returned u)
    → (m : Value) × (o ≡ returned m) × (receive m s ≡ (s', returned u))
unfolding deliver
deliver-eq-returned receive (returned m) s h = (m, refl, h)
deliver-eq-returned receive (threw e) s h = cc

module _ {ℓ} {S : Type ℓ} (receive : Value → Run S (Unit {0})) (valid : Value → Check)
    (l : Limits) where
  abbrev guarded_frame : Text → Run S (Unit {0})
  guarded_frame frame = deliver receive (decode_guarded valid l frame)

  abbrev fast_frame : Text → Run S (Unit {0})
  fast_frame frame = deliver receive (decode_fast frame)

  frame_fast :
      (x : Text) (s : S) {s' : S} {u : Unit {0}}
      → guarded_frame x s ≡ (s', returned u)
      → fast_frame x s ≡ (s', returned u)
  frame_fast x s h =
      let (m, e, r) = deliver-eq-returned receive (decode_guarded valid l x) s h in
      ap (λ o. deliver receive o s) ((decode_guarded-IsMessage valid l x e).2)
      ∙ (deliver-returned m ∙ r)
    where
      deliver-returned : (m : Value) → deliver receive (returned m) s ≡ receive m s
      deliver-returned m = unfold deliver in refl

  each-fast :
      (xs : List Text) (s : S) {s' : S} {u : Unit {0}}
      → each guarded_frame xs s ≡ (s', returned u)
      → each fast_frame xs s ≡ (s', returned u)
  each-fast [] s h = h
  each-fast (x ∷ xs) s h =
      let (s₁, v, first, later) =
        and_then-eq-returned (guarded_frame x s) (λ _. each guarded_frame xs) h in
      ap (λ m. and_then m (λ _. each fast_frame xs)) (frame_fast x s first) ∙ each-fast xs s₁ later

  keep_if-eq-returned :
      (c : Check) (t : Text) (s : S) {s' : S} {r : Text}
      → keep_if c t s ≡ (s', returned r)
      → (c ≡ passed) × (t ≡ r) × (s ≡ s')
  unfolding keep_if
  keep_if-eq-returned (returned u) t s h = (refl, ground arith, ground arith)
  keep_if-eq-returned (threw e) t s h = cc

  -- Where `read` of a guarded parser returns, `read` of the fast one does the same, to the state and
  -- to the buffer, and what is left fits the limit. So the guarded parser only ever refuses.
  pub read_guarded-read_fast :
      (delimiter buffer chunk : Text) (s : S) {s' : S} {rest : Text}
      → read_guarded receive valid l delimiter buffer chunk s ≡ (s', returned rest)
      → (read_fast receive delimiter buffer chunk s ≡ (s', returned rest))
        × (assert_frame_size l (byte_length rest) ≡ passed)
  unfolding read_guarded read_fast
  read_guarded-read_fast delimiter buffer chunk s {s'} {rest} h =
      let pushed = Framing.push delimiter buffer chunk in
      let (s₁, t, run, kept) =
        and_then-eq-returned (Framing.read delimiter guarded_frame buffer chunk s)
          (λ remainder. keep_if (assert_frame_size l (byte_length remainder)) remainder) h in
      let (c, te, se) = keep_if-eq-returned (assert_frame_size l (byte_length t)) t s₁ kept in
      let (s₂, v, all, left) =
        and_then-eq-returned (each guarded_frame pushed.events s)
          (λ _ s'. (s', returned pushed.remainder))
          (sym (read-push delimiter guarded_frame buffer chunk s) ∙ run) in
      (
        read-push delimiter fast_frame buffer chunk s
            ∙ ap (λ m. and_then m (λ _ s'. (s', returned pushed.remainder)))
                (each-fast pushed.events s all)
            ∙ left
            ∙ ap₂ (λ a b. (a, returned b)) se te,
        subst (λ r. assert_frame_size l (byte_length r) ≡ passed) te c,
      )

-- What `receive` preserves, `read` preserves, for every class of parser.
module _ {ℓ κ} {S : Type ℓ} (I : S → Type κ) where
  read_fast-keeps :
      (receive : Value → Run S (Unit {0}))
      → ((m : Value) (s : S) → I s → I (receive m s).0)
      → (delimiter buffer chunk : Text) (s : S) → I s
      → I (read_fast receive delimiter buffer chunk s).0
  unfolding read_fast
  read_fast-keeps receive keep delimiter buffer chunk s i =
      let on_frame = λ (frame : Text). deliver {S = S} receive (decode_fast frame) in
      subst (λ m. I m.0) (sym (read-push delimiter on_frame buffer chunk s))
        (and_then-keeps I (each on_frame (Framing.push delimiter buffer chunk).events s) _
          (each-keeps I on_frame
            (λ frame s'. deliver-keeps I receive (decode_fast frame) s' (λ m e. keep m s'))
            (Framing.push delimiter buffer chunk).events s i)
          (λ _ s' j. j))

  pub read-keeps :
      (p : Parser) (receive : Value → Run S (Unit {0}))
      → ((m : Value) (s : S) → I s → I (receive m s).0)
      → (buffer chunk : Text) (s : S) → I s
      → I (read p receive buffer chunk s).0
  unfolding read
  read-keeps (raw encoding) receive keep buffer chunk s i = i
  read-keeps (fast d) receive keep buffer chunk s i =
      read_fast-keeps receive keep d buffer chunk s i
  read-keeps (guarded d l) receive keep buffer chunk s i =
      read_guarded-keeps I receive (validate_type (guarded d l)) l (λ m s' _. keep m s') d buffer
        chunk s i
  read-keeps (assured d l allowed) receive keep buffer chunk s i =
      read_guarded-keeps I receive (validate_type (assured d l allowed)) l (λ m s' _. keep m s') d
        buffer chunk s i
