-- ===== src/Delivery/Telling.antt =====
-- What a client with a fast parser hands to its socket, and what the server at the other end publishes.
use node_ipc.Base.{
  ◌≡◌, refl, sym, ap, ap₂, subst, ◌∙◌, ℕ, ◌<◌, false, List, [], ◌∷◌, ◌++◌, some, ==_refl,
  append_assoc, append-nil, map, All,
}
use node_ipc.Text.{Text, text_eq, find, starts_with}
use node_ipc.Outcome.{returned, and_then}
use node_ipc.Json.{Value, undefined, null, bool, num, str, arr, obj, get, lookup}
use node_ipc.Framing.Chunks.{push_all, push_all-concat, concat}
use node_ipc.Parser.{fast, chars, encode, encode_fast, message, payload}
use node_ipc.Json.Print.{stringify}
use node_ipc.Server
use node_ipc.Parser.RoundTrip.{
  Event, IsSendable, sent, frames, push-sent, decode_fast-stringify, message-is_plain,
}
use node_ipc.Client.{Client, Effect, written, value, max_pending}
use node_ipc.Client.Sending.{
  emit, send_encoded, send, write_socket, write_bounded, write_to, handed_over,
}
use node_ipc.Client.Events.{quietly}
use node_ipc.Server.{Server, published}
use node_ipc.Delivery.{emit_all, handed, outgoing, receive_all}
use node_ipc.Delivery.Hearing.{IsEnvelope, IsSilent, heard, heard_of, announced, receive_all-heard}

outgoing-append :
    (id : ℕ) (xs ys : List Effect) → outgoing id (xs ++ ys) ≡ outgoing id xs ++ outgoing id ys
unfolding outgoing
outgoing-append id [] ys = refl
outgoing-append id (x ∷ xs) ys =
    ap (λ t. handed id x ++ t) (outgoing-append id xs ys)
    ∙ sym (append_assoc (handed id x) (outgoing id xs) (outgoing id ys))

-- A client that writes at once to a socket, unchecked.
record IsOpen (id : ℕ) (d : Text) (c : Client) : Type 0 where
  pub parser : c.parser ≡ fast d
  pub unqueued : c.config.sync ≡ false
  pub current : c.socket ≡ some id

emit-open :
    (id : ℕ) (d : Text) (c : Client) (e : Event)
    → IsOpen id d c
    → emit e.type e.content c
      ≡ (write_to id (chars (encode_fast d e.type e.content)) c, returned handed_over)
unfolding emit encode send write_socket max_pending write_bounded send_encoded
emit-open id d c e o = rw (o.parser, o.unqueued, o.current) refl

-- A write to a socket is what it is handed next.
write_to-outgoing :
    (id : ℕ) (t : Text) (c : Client)
    → outgoing id (write_to id (chars t) c).effects ≡ outgoing id c.effects ++ t
unfolding write_to outgoing handed
write_to-outgoing id t c =
    outgoing-append id c.effects (written id (chars t) ∷ [])
    ∙ ap (λ u. outgoing id c.effects ++ u) (rw ==_refl (append-nil t))

write_to-IsOpen :
    (id : ℕ) (d t : Text) (c : Client) → IsOpen id d c → IsOpen id d (write_to id (chars t) c)
unfolding write_to
write_to-IsOpen id d t c o = record {
  parser = o.parser;
  unqueued = o.unqueued;
  current = o.current;
}

emit_all-outgoing :
    (id : ℕ) (d : Text) (es : List Event) (c : Client)
    → IsOpen id d c
    → (c' : Client) × (emit_all es c ≡ (c', returned tt))
      × (outgoing id c'.effects ≡ outgoing id c.effects ++ sent d es)
unfolding emit_all
emit_all-outgoing id d [] c o = (c, refl, sym (append-nil (outgoing id c.effects)))
emit_all-outgoing id d (e ∷ es) c o =
    let frame = encode_fast d e.type e.content in
    let c₁ = write_to id (chars frame) c in
    let (c₂, ran, out) = emit_all-outgoing id d es c₁ (write_to-IsOpen id d frame c o) in
    (
      c₂,
      ap (λ m. and_then (quietly m) (λ _. emit_all es)) (emit-open id d c e o) ∙ ran,
      out
          ∙ ap (λ t. t ++ sent d es) (write_to-outgoing id frame c)
          ∙ append_assoc (outgoing id c.effects) frame (sent d es),
    )

-- The event that the server publishes for one that was emitted.
abbrev pub delivered : ℕ → Event → Server.Effect
delivered k e = published e.type (value (payload e.content)) (some k)

pub found_self : (v : Value) → (elim v [ undefined ↦ undefined | found ↦ found ]) ≡ v
found_self undefined = refl
found_self null = refl
found_self (bool b) = refl
found_self (num n) = refl
found_self (str t) = refl
found_self (arr xs) = refl
found_self (obj fs) = refl

-- An event whose type is a string, as event-pubsub asks for.
abbrev pub IsNamed : Event → Type 0
IsNamed e = (name : Text) × (e.type ≡ str name)

frame-IsEnvelope :
    (e : Event) → IsSendable e → IsNamed e → IsEnvelope (stringify (message e.type e.content))
unfolding message get lookup text_eq
frame-IsEnvelope e h n = record {
  fields = _;
  decoded = decode_fast-stringify (message e.type e.content) (message-is_plain e h);
  name = n.0;
  named = n.1;
}

pub frames-IsEnvelope :
    (es : List Event) → All IsSendable es → All IsNamed es → All IsEnvelope (frames es)
frames-IsEnvelope [] p n = tt
frames-IsEnvelope (e ∷ es) p n = (frame-IsEnvelope e p.0 n.0, frames-IsEnvelope es p.1 n.1)

announced-message : (k : ℕ) (e : Event) → announced k (message e.type e.content) ≡ delivered k e
unfolding message get lookup text_eq
announced-message k e =
    ap (λ v. published e.type (value v) (some k)) (found_self (payload e.content))

heard-frames :
    (k : ℕ) (es : List Event) → All IsSendable es → heard k (frames es) ≡ map (delivered k) es
unfolding message
heard-frames k [] p = refl
heard-frames k (e ∷ es) p =
    ap₂ (λ o l. heard_of k o ++ l)
      (decode_fast-stringify (message e.type e.content) (message-is_plain e p.0))
      (heard-frames k es p.1)
    ∙ ap (λ x. x ∷ map (delivered k) es) (announced-message k e)

-- From end to end, with the fast parser on both sides and a delimiter that begins with a control character:
-- a client that writes at once to its socket, which has been handed nothing yet, emits events of plain JSON
-- whose types are strings, and the socket hands its text on in chunks of any size to a peer of the server that has
-- no rest, and no subscriber of the server throws. Then no call throws on either side, the server publishes each of the events once, in the order in which they were
-- emitted, and nothing else, and is left with no rest.
pub emit_all-receive_all :
    (id k x : ℕ) (d' : Text) (es : List Event) (cs : List Text) (c : Client) (s : Server)
    → x < 32
    → All IsSendable es
    → All IsNamed es
    → c.parser ≡ fast (x ∷ d')
    → c.config.sync ≡ false
    → c.socket ≡ some id
    → outgoing id c.effects ≡ []
    → s.parser ≡ fast (x ∷ d')
    → (s.peers k).buffer ≡ []
    → IsSilent s.subscribers
    → concat cs ≡ outgoing id (emit_all es c).0.effects
    → ((emit_all es c).1 ≡ returned tt)
      × ((receive_all k cs s).1 ≡ returned tt)
      × ((receive_all k cs s).0.effects ≡ s.effects ++ map (delivered k) es)
      × (((receive_all k cs s).0.peers k).buffer ≡ [])
emit_all-receive_all id k x d' es cs c s h p n cp sync open' fresh sp empty silent wire =
    let d = x ∷ d' in
    let (c', ran, out) =
      emit_all-outgoing id d es c (record { parser = cp; unqueued = sync; current = open' }) in
    let stream =
      wire ∙ ap (λ m. outgoing id m.0.effects) ran ∙ out ∙ ap (λ t. t ++ sent d es) fresh in
    let cut = push-sent x d' es (concat cs) h p stream in
    let whole =
      ap (λ b. push_all d b cs) empty
      ∙ push_all-concat x d' [] cs (unfold find starts_with in refl) in
    let events = ap (λ q. q.events) whole ∙ cut.0 in
    let (s', heard_all, told, rest) =
      receive_all-heard k d cs s sp silent
        (subst (All IsEnvelope) (sym events) (frames-IsEnvelope es p n)) in
    (
      ap (λ m. m.1) ran,
      ap (λ m. m.1) heard_all,
      ap (λ m. m.0.effects) heard_all
          ∙ told
          ∙ ap (λ l. s.effects ++ l) (ap (heard k) events ∙ heard-frames k es p),
      ap (λ m. (m.0.peers k).buffer) heard_all ∙ rest ∙ ap (λ q. q.remainder) whole ∙ cut.1,
    )
