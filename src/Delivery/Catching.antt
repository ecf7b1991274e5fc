-- ===== src/Delivery/Catching.antt =====
-- What a client with a fast parser makes of the chunks of a stream.
use node_ipc.Base.{
  ◌≡◌, refl, sym, ap, ap₂, subst, ◌∙◌, ℕ, false, List, [], ◌∷◌, ◌++◌, if◌then◌else◌, ==_refl,
  append_assoc, append-nil, All, All-split,
}
use node_ipc.Text.{Text, text}
use node_ipc.Outcome.{Outcome, returned, threw, Run, and_then, each}
use node_ipc.Json.{Value, Fields, str, obj, get}
use node_ipc.Framing.{push}
use node_ipc.Framing.Chunks.{push_all, read-push}
use node_ipc.Parser.{Parser, fast}
use node_ipc.Parser.Reading.{decode_fast, deliver, read, read_fast}
use node_ipc.Client.{
  Client, Socket, Payload, Effect, queue_next, published, emit_effect, update, value, is_raw,
  has_timeout,
}
use node_ipc.Client.Receiving.{
  set_socket, publish_typed, publish_message, dispatch, keep_buffer, receive_framed,
  receive_guarded, receive_raw, receive,
}
use node_ipc.Delivery.{catch_all}
use node_ipc.Delivery.Hearing.{IsEnvelope, IsSilent}

-- The event that `dispatch` publishes for a message.
abbrev pub caught : Value → Effect
caught m = published (get (text "type") m) (value (get (text "data") m))

own-buffer : (f : ℕ → Socket) (id : ℕ) (p : Socket) → (update f id p id).buffer ≡ p.buffer
own-buffer f id p = rw ==_refl refl

abbrev pub caught_of : Outcome Value → List Effect
caught_of (returned m) = caught m ∷ []
caught_of (threw e) = []

-- The events of frames, in order.
abbrev pub catches : List Text → List Effect
catches [] = []
catches (f ∷ fs) = caught_of (decode_fast f) ++ catches fs

catches-append : (xs ys : List Text) → catches (xs ++ ys) ≡ catches xs ++ catches ys
catches-append [] ys = refl
catches-append (x ∷ xs) ys =
    ap (λ l. caught_of (decode_fast x) ++ l) (catches-append xs ys)
    ∙ sym (append_assoc (caught_of (decode_fast x)) (catches xs) (catches ys))

-- A client that does not queue has published this, and has its fast parser and its sockets as before.
record Caught (c c' : Client) (es : List Effect) : Type 0 where
  pub effects : c'.effects ≡ c.effects ++ es
  pub parser : c'.parser ≡ c.parser
  pub unqueued : c'.config.sync ≡ c.config.sync
  pub sockets : c'.sockets ≡ c.sockets
  pub subscribers : c'.subscribers ≡ c.subscribers

dispatch-Caught :
    (fs : Fields) (name : Text) (c : Client)
    → get (text "type") (obj fs) ≡ str name
    → IsSilent c.subscribers
    → c.config.sync ≡ false
    → dispatch (obj fs) c ≡ (emit_effect (caught (obj fs)) c, returned tt)
unfolding dispatch publish_message publish_typed
dispatch-Caught fs name c e silent h = ap queued (go (get (text "type") (obj fs)) e) ∙ rw h refl
  where
    data' : Payload
    data' = value (get (text "data") (obj fs))

    queued : Client × Outcome (Unit {0}) → Client × Outcome (Unit {0})
    queued m =
        and_then m (λ _ c'. (if c'.config.sync then emit_effect queue_next c' else c', returned tt))

    go :
        (t : Value)
        → t ≡ str name
        → publish_typed t data' c ≡ (emit_effect (published t data') c, returned tt)
    go (str t) k =
        let c' = emit_effect (published (str t) data') c in ap (λ o. (c', o)) (silent c'.effects)
    go _ k = cc

on_frame : Text → Run Client (Unit {0})
unfolding deliver
on_frame frame = deliver dispatch (decode_fast frame)

each-Caught :
    (fs : List Text) (c : Client)
    → c.config.sync ≡ false
    → IsSilent c.subscribers
    → All IsEnvelope fs
    → (c' : Client) × (each on_frame fs c ≡ (c', returned tt)) × Caught c c' (catches fs)
unfolding on_frame deliver
each-Caught [] c h silent p = (
  c,
  refl,
  record {
    effects = sym (append-nil c.effects);
    parser = refl;
    unqueued = refl;
    sockets = refl;
    subscribers = refl;
  },
)
each-Caught (f ∷ fs) c h silent p =
    let m = obj p.0.fields in
    let c₁ = emit_effect (caught m) c in
    let (c₂, later, t) = each-Caught fs c₁ h silent p.1 in
    let now : on_frame f c ≡ (c₁, returned tt) =
      ap (λ o. deliver dispatch o c) p.0.decoded
      ∙ dispatch-Caught p.0.fields p.0.name c p.0.named silent h in
    (
      c₂,
      ap (λ r. and_then r (λ _. each on_frame fs)) now ∙ later,
      record {
        effects =
            t.effects
            ∙ append_assoc c.effects (caught m ∷ []) (catches fs)
            ∙ ap (λ o. c.effects ++ (caught_of o ++ catches fs)) (sym p.0.decoded);
        parser = t.parser;
        unqueued = t.unqueued;
        sockets = t.sockets;
        subscribers = t.subscribers;
      },
    )

module _ (id : ℕ) where
  receive_framed-Caught :
      (d k : Text) (c : Client)
      → c.parser ≡ fast d
      → c.config.sync ≡ false
      → IsSilent c.subscribers
      → All IsEnvelope (push d (c.sockets id).buffer k).events
      → (c' : Client) × (receive_framed id k c ≡ (c', returned tt))
        × (c'.effects ≡ c.effects ++ catches (push d (c.sockets id).buffer k).events)
        × (c'.parser ≡ c.parser)
        × (c'.config.sync ≡ c.config.sync)
        × ((c'.sockets id).buffer ≡ (push d (c.sockets id).buffer k).remainder)
        × (c'.subscribers ≡ c.subscribers)
  unfolding receive_framed read read_fast keep_buffer on_frame
  receive_framed-Caught d k c e h silent p =
      let cut = push d (c.sockets id).buffer k in
      let (c₁, all, t) = each-Caught cut.events c h silent p in
      (
        set_socket id (record (c₁.sockets id) { buffer = cut.remainder }) c₁,
        ap (λ q. keep_buffer id (read q dispatch (c.sockets id).buffer k c)) e
            ∙ ap (keep_buffer id) (
                read-push d on_frame (c.sockets id).buffer k c
                ∙ ap (λ m. and_then m (λ _ c'. (c', returned cut.remainder))) all),
        t.effects,
        t.parser,
        t.unqueued,
        own-buffer c₁.sockets id _,
        t.subscribers,
      )

  receive-framed :
      (d k : Text) (c : Client) → c.parser ≡ fast d → receive id k c ≡ receive_framed id k c
  unfolding receive is_raw has_timeout
  receive-framed d k c e = ap (choose (receive_framed id k c)) e
    where
      choose : Client × Outcome (Unit {0}) → Parser → Client × Outcome (Unit {0})
      choose framed q =
          if is_raw q
          then receive_raw k c
          else if has_timeout q
          then receive_guarded id k c
          else framed

  -- The chunks of a stream whose frames all hold objects: the events of all frames are published in order,
  -- and what is behind the last delimiter is kept.
  pub catch_all-catches :
      (d : Text) (cs : List Text) (c : Client)
      → c.parser ≡ fast d
      → c.config.sync ≡ false
      → IsSilent c.subscribers
      → All IsEnvelope (push_all d (c.sockets id).buffer cs).events
      → (c' : Client) × (catch_all id cs c ≡ (c', returned tt))
        × (c'.effects ≡ c.effects ++ catches (push_all d (c.sockets id).buffer cs).events)
        × ((c'.sockets id).buffer ≡ (push_all d (c.sockets id).buffer cs).remainder)
  unfolding catch_all push_all
  catch_all-catches d [] c e h silent p = (c, refl, sym (append-nil c.effects), refl)
  catch_all-catches d (k ∷ cs) c e h silent p =
      let cut = push d (c.sockets id).buffer k in
      let later = push_all d cut.remainder cs in
      let (now_all, later_all) = All-split IsEnvelope cut.events later.events p in
      let (c₁, ran, told, kept, unqueued, rest, heard_by) =
        receive_framed-Caught d k c e h silent now_all in
      let (c₂, ran_on, told_on, rest_on) =
        catch_all-catches d cs c₁ (kept ∙ e) (unqueued ∙ h)
          (λ es. ap (λ f. f es) heard_by ∙ silent es)
          (subst (λ b. All IsEnvelope (push_all d b cs).events) (sym rest) later_all) in
      (
        c₂,
        ap (λ m. and_then m (λ _. each (λ k c. receive id k c) cs)) (receive-framed d k c e ∙ ran)
            ∙ ran_on,
        told_on
            ∙ ap₂ (λ l b. l ++ catches (push_all d b cs).events) told rest
            ∙ append_assoc c.effects (catches cut.events) (catches later.events)
            ∙ ap (λ l. c.effects ++ l) (sym (catches-append cut.events later.events)),
        rest_on ∙ ap (λ b. (push_all d b cs).remainder) rest,
      )
