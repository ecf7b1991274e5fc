-- ===== src/Parser/Contained/Reads.antt =====
-- `read` of the classes that check what they read throws errors of the protocol, and what its receiver throws.
use node_ipc.Base.{◌≡◌, refl, sym, subst, List, [], ◌∷◌}
use node_ipc.Text.{Text, text, byte_length}
use node_ipc.Outcome.{Thrown, protocol, ProtocolCode, Outcome, returned, threw, Run, and_then, each}
use node_ipc.Json.{Value, Fields, str, obj, lookup}
use node_ipc.Framing.{push}
use node_ipc.Framing.Chunks.{read-push}
use node_ipc.Parser.{
  Limits, Parser, guarded, assured, Check, passed, validate_type, validate_guarded,
  validate_assured,
}
use node_ipc.Parser.Reading.{decode_guarded, deliver, keep_if, read_guarded, read}
use node_ipc.Parser.Safety.{IsMessage, decode_guarded-IsMessage}
use node_ipc.Parser.Validation.{validate_guarded_iff, validate_assured_iff}
use node_ipc.Parser.Contained.{
  IsContained, returns, refuses, protocol_of, validate_guarded-IsContained,
  validate_assured-IsContained, assert_frame_size-IsContained, decode_guarded-IsContained,
}

-- The classes that check what they read.
pub data IsChecked : Parser → Type 0 where
  is_guarded : (delimiter : Text) (l : Limits) → IsChecked (guarded delimiter l)
  is_assured :
      (delimiter : Text) (l : Limits) (allowed : List Text)
      → IsChecked (assured delimiter l allowed)

-- A handler returns, or throws what the subscribers throw at some time.
pub data LeavesBy {E : Type 0} (subscribers : List E → Outcome (Unit {0}))
    : Outcome (Unit {0}) → Type 0 where
  leaves : LeavesBy subscribers (returned tt)
  rethrows : (es : List E) (e : Thrown) → subscribers es ≡ threw e → LeavesBy subscribers (threw e)

pub subscribers-LeavesBy :
    {E : Type 0} (f : List E → Outcome (Unit {0})) (es : List E) → LeavesBy f (f es)
subscribers-LeavesBy f es = go (f es) refl
  where
    go : (o : Outcome (Unit {0})) → f es ≡ o → LeavesBy f o
    go (returned u) h = leaves
    go (threw e) h = rethrows es e h

-- A run ends in a state with this property, and returns, or throws an error of the protocol or one with
-- that property.
pub data Ends {S : Type 0} (I : S → Type 0) (T : Thrown → Type 0) {A : Type 0}
    : S × Outcome A → Type 0 where
  ends : (s : S) (a : A) → I s → Ends I T (s, returned a)
  refused : (s : S) (code : ProtocolCode) → I s → Ends I T (s, threw (protocol code))
  passed_on : (s : S) (e : Thrown) → I s → T e → Ends I T (s, threw e)

module _ {S : Type 0} {I : S → Type 0} {T : Thrown → Type 0} where
  pub and_then-Ends :
      {A B : Type 0} {m : S × Outcome A} (k : A → Run S B)
      → Ends I T m
      → ((a : A) (s : S) → I s → Ends I T (k a s))
      → Ends I T (and_then m k)
  and_then-Ends k (ends s a i) keep = keep a s i
  and_then-Ends k (refused s code i) keep = refused s code i
  and_then-Ends k (passed_on s e i t) keep = passed_on s e i t

  keep_if-Ends : {c : Check} (t : Text) (s : S) → IsContained c → I s → Ends I T (keep_if c t s)
  unfolding keep_if
  keep_if-Ends t s (returns u) i = ends s t i
  keep_if-Ends t s (refuses code) i = refused s code i

-- A receiver that throws nothing else on objects whose `type` is a string.
module _ {S : Type 0} (I : S → Type 0) (T : Thrown → Type 0) (receive : Value → Run S (Unit {0}))
    (takes : (fields : Fields) (name : Text) (s : S)
      → lookup (text "type") fields ≡ str name
      → I s
      → Ends I T (receive (obj fields) s)) where
  module _ (valid : Value → Check) (l : Limits) (checks : (v : Value) → IsContained (valid v))
      (named : (v : Value) → valid v ≡ passed → (name : Text) × (v ≡ str name)) where
    deliver-Ends :
        (o : Outcome Value) (s : S)
        → IsContained o
        → ((m : Value) → o ≡ returned m → IsMessage valid m)
        → I s
        → Ends I T (deliver receive o s)
    unfolding deliver
    deliver-Ends (returned m) s h keep i =
        let k = keep m refl in
        let (name, e) = named (lookup (text "type") k.fields) k.type_passes in
        subst (λ v. Ends I T (receive v s)) (sym k.is_object) (takes k.fields name s e i)
    deliver-Ends (threw e) s h keep i =
        let (code, same) = protocol_of h refl in
        subst (λ x. Ends I T {A = Unit {0}} (s, threw x)) (sym same) (refused s code i)

    on_frame : Text → Run S (Unit {0})
    unfolding deliver
    on_frame frame = deliver receive (decode_guarded valid l frame)

    each-Ends : (frames : List Text) (s : S) → I s → Ends I T (each on_frame frames s)
    unfolding on_frame
    each-Ends [] s i = ends s tt i
    each-Ends (f ∷ fs) s i =
        and_then-Ends (λ _. each on_frame fs)
          (deliver-Ends (decode_guarded valid l f) s (decode_guarded-IsContained valid l checks f)
            (λ m e. (decode_guarded-IsMessage valid l f e).1) i)
          (λ _ s' j. each-Ends fs s' j)

    read_guarded-Ends :
        (delimiter buffer chunk : Text) (s : S)
        → I s
        → Ends I T (read_guarded receive valid l delimiter buffer chunk s)
    unfolding read_guarded on_frame
    read_guarded-Ends delimiter buffer chunk s i =
        let parsed' = push delimiter buffer chunk in
        and_then-Ends _
          (subst (λ m. Ends I T m) (sym (read-push delimiter on_frame buffer chunk s))
            (and_then-Ends _ (each-Ends parsed'.events s i) (λ _ s' j. ends s' _ j)))
          (λ rest s' j. keep_if-Ends rest s' (assert_frame_size-IsContained l (byte_length rest)) j)

  pub read-Ends :
      {p : Parser}
      → IsChecked p
      → (buffer chunk : Text) (s : S) → I s
      → Ends I T (read p receive buffer chunk s)
  unfolding read validate_type
  read-Ends (is_guarded d l) buffer chunk s i =
      read_guarded-Ends (validate_guarded l) l (λ v. validate_guarded-IsContained l v)
        (λ v h. let n = (validate_guarded_iff l v).0 h in (n.0, n.1)) d buffer chunk s i
  read-Ends (is_assured d l allowed) buffer chunk s i =
      read_guarded-Ends (validate_assured l allowed) l
        (λ v. validate_assured-IsContained l allowed v)
        (λ v h. let n = (validate_assured_iff l allowed v).0 h in (n.0, n.1)) d buffer chunk s i
