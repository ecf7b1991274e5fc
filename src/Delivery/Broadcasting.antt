-- ===== src/Delivery/Broadcasting.antt =====
-- What a client publishes at the other end of a socket that a server broadcasts to.
use node_ipc.Base.{
  ◌≡◌, refl, sym, ap, ap₂, subst, ◌∙◌, ℕ, ◌<◌, true, false, List, [], ◌∷◌, ◌++◌, map, All,
}
use node_ipc.Text.{Text, find, starts_with, text_eq}
use node_ipc.Outcome.{returned}
use node_ipc.Json.{get, lookup}
use node_ipc.Framing.Chunks.{push_all, push_all-concat, concat}
use node_ipc.Parser.{fast, message, payload}
use node_ipc.Parser.RoundTrip.{
  Event, IsSendable, sent, frames, push-sent, decode_fast-stringify, message-is_plain,
}
use node_ipc.Client.{Client, value, max_pending}
use node_ipc.Client
use node_ipc.Server.{Server}
use node_ipc.Server.Sockets.{member}
use node_ipc.Delivery.{broadcast_all, outgoing_by, catch_all}
use node_ipc.Delivery.Hearing.{IsEnvelope, IsSilent}
use node_ipc.Delivery.Telling.{IsNamed, found_self, frames-IsEnvelope}
use node_ipc.Delivery.Catching.{caught, caught_of, catches, catch_all-catches}
use node_ipc.Delivery.Spreading.{IsStreaming, broadcast_all-outgoing}

-- The event that the client publishes for one that was broadcast.
abbrev pub passed_on : Event → Client.Effect
passed_on e = Client.Effect.published e.type (value (payload e.content))

caught-message : (e : Event) → caught (message e.type e.content) ≡ passed_on e
unfolding message get lookup text_eq
caught-message e =
    ap (λ v. Client.Effect.published e.type (value v)) (found_self (payload e.content))

catches-frames : (es : List Event) → All IsSendable es → catches (frames es) ≡ map passed_on es
unfolding message
catches-frames [] p = refl
catches-frames (e ∷ es) p =
    ap₂ (λ o l. caught_of o ++ l)
      (decode_fast-stringify (message e.type e.content) (message-is_plain e p.0))
      (catches-frames es p.1)
    ∙ ap (λ x. x ∷ map passed_on es) (caught-message e)

-- From end to end the other way: a server with the fast parser on streams, each listed once, broadcasts events
-- of plain JSON whose types are strings, and a socket of its list, which has been handed nothing yet, hands its text on in chunks of any
-- size to a client with the same parser that does not queue and has no rest, and no subscriber of the client throws. Then no call throws on either
-- side, the client publishes each of the events once, in the order in which they were broadcast, and nothing
-- else, and is left with no rest.
pub broadcast_all-catch_all :
    (depth k id x : ℕ) (d' : Text) (es : List Event) (cs : List Text) (s : Server) (c : Client)
    → x < 32
    → All IsSendable es
    → All IsNamed es
    → IsStreaming (x ∷ d') s
    → member k s.sockets ≡ true
    → outgoing_by k s.effects ≡ []
    → c.parser ≡ fast (x ∷ d')
    → c.config.sync ≡ false
    → (c.sockets id).buffer ≡ []
    → IsSilent c.subscribers
    → concat cs ≡ outgoing_by k (broadcast_all depth es s).0.effects
    → ((broadcast_all depth es s).1 ≡ returned tt)
      × ((catch_all id cs c).1 ≡ returned tt)
      × ((catch_all id cs c).0.effects ≡ c.effects ++ map passed_on es)
      × (((catch_all id cs c).0.sockets id).buffer ≡ [])
broadcast_all-catch_all depth k id x d' es cs s c h p n i m fresh cp sync empty silent wire =
    let d = x ∷ d' in
    let (s', ran, out) = broadcast_all-outgoing d depth es s i in
    let stream =
      wire ∙ ap (λ r. outgoing_by k r.0.effects) ran ∙ out k m ∙ ap (λ t. t ++ sent d es) fresh in
    let cut = push-sent x d' es (concat cs) h p stream in
    let whole =
      ap (λ b. push_all d b cs) empty
      ∙ push_all-concat x d' [] cs (unfold find starts_with in refl) in
    let events = ap (λ q. q.events) whole ∙ cut.0 in
    let (c', caught_all, told, rest) =
      catch_all-catches id d cs c cp sync silent
        (subst (All IsEnvelope) (sym events) (frames-IsEnvelope es p n)) in
    (
      ap (λ r. r.1) ran,
      ap (λ r. r.1) caught_all,
      ap (λ r. r.0.effects) caught_all
          ∙ told
          ∙ ap (λ l. c.effects ++ l) (ap catches events ∙ catches-frames es p),
      ap (λ r. (r.0.sockets id).buffer) caught_all ∙ rest ∙ ap (λ q. q.remainder) whole ∙ cut.1,
    )
