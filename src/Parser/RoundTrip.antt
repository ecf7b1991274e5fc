-- ===== src/Parser/RoundTrip.antt =====
-- What one side encodes, the other side reads back, however the stream is broken into chunks.

use node_ipc.Base.{
  ◌≡◌, ◌≢◌, refl, ap, subst, ap₂, ◌∙◌, ℕ, ◌<◌, true, List, [], ◌∷◌, ◌++◌, map, arith, All,
  append_assoc,
}
use node_ipc.Text.{Text, find, starts_with}
use node_ipc.Outcome.{returned, Run, and_then, each}
use node_ipc.Json.{Value}
use node_ipc.Json.Print.{stringify}
use node_ipc.Json.Plain.{is_plain}
use node_ipc.Json.Values.{parse-stringify}
use node_ipc.Json.Printable.{IsPrintable, stringify-IsPrintable}
use node_ipc.Framing
use node_ipc.Framing.Chunks.{concat, read_all, read-push, read_all-concat}
use node_ipc.Framing.Split.{Split, joined, joined-Split, Split-unique, push-Split}
use node_ipc.Parser.{fast, message, payload, encode_fast}
use node_ipc.Parser.Reading.{decode_fast, deliver, read, read_fast, read_stream}

-- The arguments of a call of `encode`.
pub record Event : Type 0 where
  pub type : Value
  pub content : Value

-- Values that JSON keeps; `undefined` content is sent as `{}`.
pub record IsSendable (e : Event) : Type 0 where
  pub type_plain : is_plain e.type ≡ true
  pub content_plain : is_plain (payload e.content) ≡ true

abbrev pub messages : List Event → List Value
messages es = map (λ e. message e.type e.content) es

-- The stream that the encoded events make.
abbrev pub sent : Text → List Event → Text
sent d [] = []
sent d (e ∷ es) = encode_fast d e.type e.content ++ sent d es

pub message-is_plain : (e : Event) → IsSendable e → is_plain (message e.type e.content) ≡ true
unfolding message is_plain
message-is_plain e h = ground arith

pub decode_fast-stringify : (m : Value) → is_plain m ≡ true → decode_fast (stringify m) ≡ returned m
unfolding decode_fast
decode_fast-stringify m h = rw (parse-stringify m h)

above-ne : (x : ℕ) (s : Text) → x < 32 → IsPrintable s → All (λ c. c ≢ x) s
above-ne x [] h p = tt
above-ne x (c ∷ s) h p = (omega arith, above-ne x s h p.1)

abbrev pub frames : List Event → List Text
frames es = map (λ e. stringify (message e.type e.content)) es

sent-joined : (d : Text) (es : List Event) → sent d es ≡ joined d (frames es)
unfolding encode_fast
sent-joined d [] = refl
sent-joined d (e ∷ es) =
    append_assoc (stringify (message e.type e.content)) d (sent d es)
    ∙ ap (λ t. stringify (message e.type e.content) ++ (d ++ t)) (sent-joined d es)

frames-clean :
    (x : ℕ) (es : List Event) → x < 32 → All IsSendable es → All (All (λ c. c ≢ x)) (frames es)
frames-clean x [] h p = tt
frames-clean x (e ∷ es) h p = (
  above-ne x (stringify (message e.type e.content)) h
      (stringify-IsPrintable (message e.type e.content) (message-is_plain e p.0)),
  frames-clean x es h p.1,
)

-- The stream of encoded events is cut into their frames.
pub push-sent :
    (x : ℕ) (d' : Text) (es : List Event) (t : Text)
    → x < 32
    → All IsSendable es
    → t ≡ sent (x ∷ d') es
    → ((Framing.push (x ∷ d') [] t).events ≡ frames es)
      × ((Framing.push (x ∷ d') [] t).remainder ≡ [])
push-sent x d' es t h p e =
    let d = x ∷ d' in
    Split-unique
      (subst (λ u. Split d u (Framing.push d [] t).events (Framing.push d [] t).remainder)
        (e ∙ sent-joined d es) (push-Split x d' [] t))
      (joined-Split x d' (frames es) (frames-clean x es h p))

module _ {ℓ} {S : Type ℓ} (receive : Value → Run S (Unit {0})) where
  abbrev on_frame : Text → Run S (Unit {0})
  on_frame frame = deliver receive (decode_fast frame)

  deliver-returned : (m : Value) (s : S) → deliver receive (returned m) s ≡ receive m s
  unfolding deliver
  deliver-returned m s = refl

  each-frames :
      (es : List Event) (s : S)
      → All IsSendable es
      → each on_frame (frames es) s ≡ each receive (messages es) s
  each-frames [] s p = refl
  each-frames (e ∷ es) s p =
      ap (λ o. and_then (deliver receive o s) (λ _. each on_frame (frames es)))
        (decode_fast-stringify (message e.type e.content) (message-is_plain e p.0))
      ∙ ap (λ m. and_then m (λ _. each on_frame (frames es)))
          (deliver-returned (message e.type e.content) s)
      ∙ (λ i. and_then (receive (message e.type e.content) s) (λ _ s'. each-frames es s' p.1 i))

  read_stream-read_all :
      (d buffer : Text) (cs : List Text) (s : S)
      → read_stream (fast d) receive buffer cs s ≡ read_all d on_frame buffer cs s
  unfolding read_stream read_all read read_fast
  read_stream-read_all d buffer [] s = refl
  read_stream-read_all d buffer (c ∷ cs) s = (λ i.
      and_then (Framing.read d on_frame buffer c s)
        (λ rest s'. read_stream-read_all d rest cs s' i))

  -- Events that are encoded by a fast parser whose delimiter begins with a control character, joined and
  -- cut into chunks in any way, are read back: the receiver runs on exactly the messages that were
  -- encoded, in order, and nothing is left in the buffer. The values are plain JSON.
  pub read_stream-sent :
      (x : ℕ) (d' : Text) (es : List Event) (cs : List Text) (s : S)
      → x < 32
      → All IsSendable es
      → concat cs ≡ sent (x ∷ d') es
      → read_stream (fast (x ∷ d')) receive [] cs s
        ≡ and_then (each receive (messages es) s) (λ _ s'. (s', returned []))
  read_stream-sent x d' es cs s h p e =
      let d = x ∷ d' in
      let same = push-sent x d' es (concat cs) h p e in
      read_stream-read_all d [] cs s
      ∙ read_all-concat x d' on_frame [] cs s (unfold find starts_with in refl)
      ∙ read-push d on_frame [] (concat cs) s
      ∙ ap₂ (λ fs r. and_then (each on_frame fs s) (λ _ s'. (s', returned r))) same.0 same.1
      ∙ ap (λ m. and_then m (λ _ s'. (s', returned []))) (each-frames es s p)
