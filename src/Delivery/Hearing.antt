-- ===== src/Delivery/Hearing.antt =====
-- What a server with a fast parser makes of the chunks of a stream.
use node_ipc.Base.{
  ◌≡◌, refl, sym, ap, ap₂, subst, ◌∙◌, ℕ, Bool, true, false, List, [], ◌∷◌, ◌++◌, if◌then◌else◌,
  ==_refl, append_assoc, append-nil, All, All-split, some,
}
use node_ipc.Text.{Text, text}
use node_ipc.Outcome.{Outcome, returned, threw, Run, and_then, each}
use node_ipc.Json.{Value, Fields, str, obj, get, truthy}
use node_ipc.Framing.{push}
use node_ipc.Framing.Chunks.{push_all, read-push}
use node_ipc.Parser.{Parser, fast}
use node_ipc.Parser.Reading.{decode_fast, deliver, read, read_fast}
use node_ipc.Client.{Payload, value, is_raw, has_timeout}
use node_ipc.Server.{Server, Peer, Effect, published, emit_effect, set_peer, update_peer}
use node_ipc.Server.Receiving.{
  data_id, publish_typed_from, publish_from, identify, dispatch_from, keep_peer_buffer,
  receive_framed_from, receive_guarded_from, receive_raw_from, receive_from,
}
use node_ipc.Delivery.{receive_all}

-- The event that `dispatch` publishes for a message.
abbrev pub announced : ℕ → Value → Effect
announced k m = published (get (text "type") m) (value (get (text "data") m)) (some k)

-- A frame that holds an object whose `type` is a string.
pub record IsEnvelope (frame : Text) : Type 0 where
  pub fields : Fields
  pub decoded : decode_fast frame ≡ returned (obj fields)
  pub name : Text
  pub named : get (text "type") (obj fields) ≡ str name

-- Subscribers that throw nothing.
abbrev pub IsSilent : {E : Type 0} → (List E → Outcome (Unit {0})) → Type 0
IsSilent {E} subscribers = (es : List E) → subscribers es ≡ returned tt

own-buffer : (f : ℕ → Peer) (k : ℕ) (p : Peer) → (update_peer f k p k).buffer ≡ p.buffer
own-buffer f k p = rw ==_refl refl

module _ (k : ℕ) where
  abbrev pub heard_of : Outcome Value → List Effect
  heard_of (returned m) = announced k m ∷ []
  heard_of (threw e) = []

  -- The events of frames, in order.
  abbrev pub heard : List Text → List Effect
  heard [] = []
  heard (f ∷ fs) = heard_of (decode_fast f) ++ heard fs

  heard-append : (xs ys : List Text) → heard (xs ++ ys) ≡ heard xs ++ heard ys
  heard-append [] ys = refl
  heard-append (x ∷ xs) ys =
      ap (λ l. heard_of (decode_fast x) ++ l) (heard-append xs ys)
      ∙ sym (append_assoc (heard_of (decode_fast x)) (heard xs) (heard ys))

  -- What a state has published since another, with the parser and the buffer of the peer as they were.
  record Told (s s' : Server) (es : List Effect) : Type 0 where
    pub told : s'.effects ≡ s.effects ++ es
    pub parser : s'.parser ≡ s.parser
    pub buffer : (s'.peers k).buffer ≡ (s.peers k).buffer
    pub subscribers : s'.subscribers ≡ s.subscribers

  Told-refl : (s : Server) → Told s s []
  Told-refl s = record {
    told = sym (append-nil s.effects);
    parser = refl;
    buffer = refl;
    subscribers = refl;
  }

  Told-then :
      {a b c : Server} {es fs : List Effect} → Told a b es → Told b c fs → Told a c (es ++ fs)
  Told-then {a} {es = es} {fs = fs} t u = record {
    told = u.told ∙ ap (λ l. l ++ fs) t.told ∙ append_assoc a.effects es fs;
    parser = u.parser ∙ t.parser;
    buffer = u.buffer ∙ t.buffer;
    subscribers = u.subscribers ∙ t.subscribers;
  }

  identify-Told : (m : Value) (s : Server) → Told s (identify k m s) []
  unfolding identify
  identify-Told m s = go (data_id (get (text "data") m))
    where
      go :
          (id : Value)
          → Told s (if truthy id then set_peer k (record (s.peers k) { id = id }) s else s) []
      go id = choose (truthy id)
        where
          choose :
              (b : Bool)
              → Told s (if b then set_peer k (record (s.peers k) { id = id }) s else s) []
          choose true = record {
            told = sym (append-nil s.effects);
            parser = refl;
            buffer = own-buffer s.peers k _;
            subscribers = refl;
          }
          choose false = Told-refl s

  publish-Told :
      (m : Value) (s : Server) → Told s (emit_effect (announced k m) s) (announced k m ∷ [])
  publish-Told m s = record { told = refl; parser = refl; buffer = refl; subscribers = refl }

  publish_from-silent :
      (fs : Fields) (name : Text) (s : Server)
      → get (text "type") (obj fs) ≡ str name
      → IsSilent s.subscribers
      → publish_from k (obj fs) s ≡ (emit_effect (announced k (obj fs)) s, returned tt)
  unfolding publish_from publish_typed_from
  publish_from-silent fs name s e silent = go (get (text "type") (obj fs)) e
    where
      data' : Payload
      data' = value (get (text "data") (obj fs))

      go :
          (t : Value)
          → t ≡ str name
          → publish_typed_from k t data' s
            ≡ (emit_effect (published t data' (some k)) s, returned tt)
      go (str t) h =
          let s' = emit_effect (published (str t) data' (some k)) s in
          ap (λ o. (s', o)) (silent s'.effects)
      go _ h = cc

  dispatch-Told :
      (fs : Fields) (name : Text) (s : Server)
      → get (text "type") (obj fs) ≡ str name
      → IsSilent s.subscribers
      → (s' : Server) × (dispatch_from k (obj fs) s ≡ (s', returned tt))
        × Told s s' (announced k (obj fs) ∷ [])
  unfolding dispatch_from
  dispatch-Told fs name s e silent = go s.config.identify_peer
    where
      go :
          (b : Bool)
          → (s' : Server) × (publish_from k (obj fs) (if b then identify k (obj fs) s else s)
              ≡ (s', returned tt))
            × Told s s' (announced k (obj fs) ∷ [])
      go true =
          let t = identify-Told (obj fs) s in
          let s₁ = identify k (obj fs) s in
          (
            emit_effect (announced k (obj fs)) s₁,
            publish_from-silent fs name s₁ e (λ es. ap (λ f. f es) t.subscribers ∙ silent es),
            Told-then t (publish-Told (obj fs) s₁),
          )
      go false = (
        emit_effect (announced k (obj fs)) s,
        publish_from-silent fs name s e silent,
        publish-Told (obj fs) s,
      )

  on_frame : Text → Run Server (Unit {0})
  unfolding deliver
  on_frame frame = deliver (dispatch_from k) (decode_fast frame)

  frame-Told :
      (f : Text) (s : Server)
      → IsEnvelope f
      → IsSilent s.subscribers
      → (s' : Server) × (on_frame f s ≡ (s', returned tt)) × Told s s' (heard_of (decode_fast f))
  unfolding on_frame
  frame-Told f s i silent =
      let (s', ran, t) = dispatch-Told i.fields i.name s i.named silent in
      (
        s',
        ap (λ o. deliver (dispatch_from k) o s) i.decoded ∙ (unfold deliver in ran),
        subst (λ o. Told s s' (heard_of o)) (sym i.decoded) t,
      )

  each-Told :
      (fs : List Text) (s : Server)
      → All IsEnvelope fs
      → IsSilent s.subscribers
      → (s' : Server) × (each on_frame fs s ≡ (s', returned tt)) × Told s s' (heard fs)
  each-Told [] s p silent = (s, refl, Told-refl s)
  each-Told (f ∷ fs) s p silent =
      let (s₁, now, t) = frame-Told f s p.0 silent in
      let (s₂, later, u) = each-Told fs s₁ p.1 (λ es. ap (λ f. f es) t.subscribers ∙ silent es) in
      (s₂, ap (λ m. and_then m (λ _. each on_frame fs)) now ∙ later, Told-then t u)

  -- A chunk whose frames all hold objects: their events are published, and the rest is kept.
  receive_framed_from-Told :
      (d c : Text) (s : Server)
      → s.parser ≡ fast d
      → IsSilent s.subscribers
      → All IsEnvelope (push d (s.peers k).buffer c).events
      → (s' : Server) × (receive_framed_from k c s ≡ (s', returned tt))
        × (s'.effects ≡ s.effects ++ heard (push d (s.peers k).buffer c).events)
        × (s'.parser ≡ s.parser)
        × ((s'.peers k).buffer ≡ (push d (s.peers k).buffer c).remainder)
        × (s'.subscribers ≡ s.subscribers)
  unfolding receive_framed_from read read_fast keep_peer_buffer on_frame
  receive_framed_from-Told d c s e silent p =
      let cut = push d (s.peers k).buffer c in
      let (s₁, heard_all, t) = each-Told cut.events s p silent in
      (
        set_peer k (record (s₁.peers k) { buffer = cut.remainder }) s₁,
        ap (λ q. keep_peer_buffer k (read q (dispatch_from k) (s.peers k).buffer c s)) e
            ∙ ap (keep_peer_buffer k) (
                read-push d on_frame (s.peers k).buffer c s
                ∙ ap (λ m. and_then m (λ _ s'. (s', returned cut.remainder))) heard_all),
        t.told,
        t.parser,
        own-buffer s₁.peers k _,
        t.subscribers,
      )

  receive_from-framed :
      (d c : Text) (s : Server) → s.parser ≡ fast d → receive_from k c s ≡ receive_framed_from k c s
  unfolding receive_from is_raw has_timeout
  receive_from-framed d c s e = ap (choose (receive_framed_from k c s)) e
    where
      choose : Server × Outcome (Unit {0}) → Parser → Server × Outcome (Unit {0})
      choose framed q =
          if is_raw q
          then receive_raw_from k c s
          else if has_timeout q
          then receive_guarded_from k c s
          else framed

  -- The chunks of a stream whose frames all hold objects: the events of all frames are published in order,
  -- and what is behind the last delimiter is kept.
  pub receive_all-heard :
      (d : Text) (cs : List Text) (s : Server)
      → s.parser ≡ fast d
      → IsSilent s.subscribers
      → All IsEnvelope (push_all d (s.peers k).buffer cs).events
      → (s' : Server) × (receive_all k cs s ≡ (s', returned tt))
        × (s'.effects ≡ s.effects ++ heard (push_all d (s.peers k).buffer cs).events)
        × ((s'.peers k).buffer ≡ (push_all d (s.peers k).buffer cs).remainder)
  unfolding receive_all push_all
  receive_all-heard d [] s e silent p = (s, refl, sym (append-nil s.effects), refl)
  receive_all-heard d (c ∷ cs) s e silent p =
      let cut = push d (s.peers k).buffer c in
      let later = push_all d cut.remainder cs in
      let (now_all, later_all) = All-split IsEnvelope cut.events later.events p in
      let (s₁, ran, told, kept, rest, heard_by) = receive_framed_from-Told d c s e silent now_all in
      let (s₂, ran_on, told_on, rest_on) =
        receive_all-heard d cs s₁ (kept ∙ e) (λ es. ap (λ f. f es) heard_by ∙ silent es)
          (subst (λ b. All IsEnvelope (push_all d b cs).events) (sym rest) later_all) in
      (
        s₂,
        ap (λ m. and_then m (λ _. each (λ c s. receive_from k c s) cs))
              (receive_from-framed d c s e ∙ ran)
            ∙ ran_on,
        told_on
            ∙ ap₂ (λ l b. l ++ heard (push_all d b cs).events) told rest
            ∙ append_assoc s.effects (heard cut.events) (heard later.events)
            ∙ ap (λ l. s.effects ++ l) (sym (heard-append cut.events later.events)),
        rest_on ∙ ap (λ b. (push_all d b cs).remainder) rest,
      )
