-- ===== src/Client/Contained.antt =====
-- Which exceptions leave the `data` handler of a client with a guarded or an assured parser, and what
-- happens to a socket whose data are refused.
use node_ipc.Base.{
  ◌≡◌, refl, sym, ap, subst, ◌∙◌, ℕ, Bool, true, false, List, [], ◌∷◌, ◌++◌, if◌then◌else◌, ==_refl,
}
use node_ipc.Text.{Text, text}
use node_ipc.Outcome.{
  Thrown, protocol, type_error, setup, foreign, ProtocolCode, Outcome, returned, threw, and_then,
  each,
}
use node_ipc.Json.{Fields, str, obj, get, lookup}
use node_ipc.Json.Parse.{parse}
use node_ipc.Framing.{push}
use node_ipc.Framing.Chunks.{read-push}
use node_ipc.Parser.{Parser, fast}
use node_ipc.Parser.Reading.{decode_fast, deliver, read_fast, read}
use node_ipc.Client.{
  Client, Socket, Effect, published, destroyed, value, failure, update, emit_effect, queue_next,
  after_publish, is_raw, has_timeout,
}
use node_ipc.Client.Receiving.{
  dispatch, publish_message, publish_typed, destroy, protocol_failure, handle_read_error,
  keep_buffer, receive_framed, receive_guarded, time_message, receive, receive_raw,
}
use node_ipc.Client.Connection.{is_current}
use node_ipc.Client.Events.{on_data}
use node_ipc.Parser.Contained.Reads.{
  IsChecked, is_guarded, is_assured, LeavesBy, leaves, rethrows, subscribers-LeavesBy, Ends, ends,
  refused, passed_on, and_then-Ends, read-Ends,
}

-- What the subscribers throw at some time.
abbrev ThrownBy : (List Effect → Outcome (Unit {0})) → Thrown → Type 0
ThrownBy f e = (es : List Effect) × (f es ≡ threw e)

abbrev Subscribed : (List Effect → Outcome (Unit {0})) → Client → Type 0
Subscribed f c = c.subscribers ≡ f

-- The state of a client behind the protocol failure of a socket, by its state before.
pub record IsFailed (id : ℕ) (code : ProtocolCode) (c c' : Client) : Type 0 where
  pub is_destroyed : (c'.sockets id).is_destroyed ≡ true
  pub emptied : (c'.sockets id).buffer ≡ []
  pub untimed : (c'.sockets id).message_timer ≡ false
  pub violation : c'.protocol_violation ≡ true
  pub told :
      c'.effects
      ≡ (c.effects ++ destroyed id ∷ [])
        ++ published (str (text "error")) (failure (protocol code)) ∷ []

own-socket : (f : ℕ → Socket) (id : ℕ) (p : Socket) → update f id p id ≡ p
own-socket f id p = rw ==_refl refl

protocol_failure-IsFailed :
    (id : ℕ) (code : ProtocolCode) (c : Client)
    → IsFailed id code c (protocol_failure id (protocol code) c)
unfolding protocol_failure destroy
protocol_failure-IsFailed id code c =
    let blank = record (c.sockets id) { message_timer = false; buffer = [] } in
    let after : ℕ → Socket = update c.sockets id blank in
    let closed = own-socket after id (record (after id) { is_destroyed = true }) in
    let emptied = own-socket c.sockets id blank in
    record {
      is_destroyed = ap (λ p. p.is_destroyed) closed;
      emptied = ap (λ p. p.buffer) closed ∙ ap (λ p. p.buffer) emptied;
      untimed = ap (λ p. p.message_timer) closed ∙ ap (λ p. p.message_timer) emptied;
      violation = refl;
      told = refl;
    }

module _ (f : List Effect → Outcome (Unit {0})) where
  after_publish-Ends :
      (c : Client) → Subscribed f c → Ends (Subscribed f) (ThrownBy f) (after_publish c)
  after_publish-Ends c i = go (c.subscribers c.effects) (ap (λ g. g c.effects) (sym i))
    where
      go :
          (o : Outcome (Unit {0}))
          → f c.effects ≡ o
          → Ends (Subscribed f) (ThrownBy f) (let q : Client × Outcome (Unit {0}) = (c, o) in q)
      go (returned u) h = ends c u i
      go (threw e) h = passed_on c e i (c.effects, h)

  dispatch-Ends :
      (fields : Fields) (name : Text) (c : Client)
      → lookup (text "type") fields ≡ str name
      → Subscribed f c
      → Ends (Subscribed f) (ThrownBy f) (dispatch (obj fields) c)
  unfolding dispatch publish_message get
  dispatch-Ends fields name c e i =
      and_then-Ends
        (λ _ c'. (if c'.config.sync then emit_effect queue_next c' else c', returned tt))
        (subst
          (λ t.
            Ends (Subscribed f) (ThrownBy f)
              (publish_typed t (value (lookup (text "data") fields)) c))
          (sym e) (unfold publish_typed in after_publish-Ends _ i))
        (λ u c' j. ends _ tt (queued c' c'.config.sync j))
    where
      queued :
          (c' : Client) (b : Bool)
          → Subscribed f c'
          → Subscribed f (if b then emit_effect queue_next c' else c')
      queued c' true j = j
      queued c' false j = j

  module _ (id : ℕ) where
    after_publish-LeavesBy : (c : Client) → Subscribed f c → LeavesBy f (after_publish c).1
    after_publish-LeavesBy c i =
        subst (λ g. LeavesBy f (g c.effects)) (sym i) (subscribers-LeavesBy f c.effects)

    handle_read_error-LeavesBy :
        (e : Thrown) (c : Client)
        → Subscribed f c
        → ThrownBy f e
        → LeavesBy f (handle_read_error id e c).1
    unfolding handle_read_error protocol_failure destroy
    handle_read_error-LeavesBy (protocol code) c i t =
        after_publish-LeavesBy (protocol_failure id (protocol code) c) i
    handle_read_error-LeavesBy type_error c i t = rethrows t.0 type_error t.1
    handle_read_error-LeavesBy (setup e) c i t = rethrows t.0 (setup e) t.1
    handle_read_error-LeavesBy (foreign e) c i t = rethrows t.0 (foreign e) t.1

    keep_buffer-LeavesBy :
        {m : Client × Outcome Text}
        → Ends (Subscribed f) (ThrownBy f) m
        → LeavesBy f (keep_buffer id m).1
    unfolding keep_buffer handle_read_error protocol_failure destroy
    keep_buffer-LeavesBy (ends c rest i) = leaves
    keep_buffer-LeavesBy (refused c code i) =
        after_publish-LeavesBy (protocol_failure id (protocol code) c) i
    keep_buffer-LeavesBy (passed_on c e i t) = handle_read_error-LeavesBy e c i t

timed-LeavesBy :
    {f : List Effect → Outcome (Unit {0})} (id : ℕ) (m : Client × Outcome (Unit {0}))
    → LeavesBy f m.1
    → LeavesBy f
        (and_then m
          (λ _ c. let r : Client × Outcome (Unit {0}) = (time_message id c, returned tt) in r)).1
timed-LeavesBy id (c, returned u) h = leaves
timed-LeavesBy id (c, threw e) h = h

module _ (id : ℕ) (chunk : Text) (c : Client) (checked : IsChecked c.parser) where
  abbrev reading : Client × Outcome Text
  reading = read c.parser dispatch (c.sockets id).buffer chunk c

  receive_framed-LeavesBy : LeavesBy c.subscribers (receive_framed id chunk c).1
  unfolding receive_framed
  receive_framed-LeavesBy = keep_buffer-LeavesBy c.subscribers id (
      read-Ends (Subscribed c.subscribers) (ThrownBy c.subscribers) dispatch
        (dispatch-Ends c.subscribers) checked (c.sockets id).buffer chunk c refl)

  -- With a parser that checks, `receive` is one of two methods.
  receive-eq :
      (P : Client × Outcome (Unit {0}) → Type 0)
      → P (receive_framed id chunk c)
      → P (receive_guarded id chunk c)
      → P (receive id chunk c)
  unfolding receive is_raw
  receive-eq P framed timed = go checked (has_timeout c.parser)
    where
      go :
          {p : Parser}
          → IsChecked p
          → (t : Bool)
          → P (
              if is_raw p
              then receive_raw chunk c
              else if t
              then receive_guarded id chunk c
              else receive_framed id chunk c)
      go (is_guarded d l) true = timed
      go (is_guarded d l) false = framed
      go (is_assured d l allowed) true = timed
      go (is_assured d l allowed) false = framed

  keep_buffer-IsFailed :
      (code : ProtocolCode) (m : Client × Outcome Text)
      → m.1 ≡ threw (protocol code)
      → (keep_buffer id m).0 ≡ protocol_failure id (protocol code) m.0
  unfolding keep_buffer handle_read_error
  keep_buffer-IsFailed code (c', returned rest) h = cc
  keep_buffer-IsFailed code (c', threw e) h =
      let same : e ≡ protocol code = cc in ap (λ x. (handle_read_error id x c').0) same

  -- A destroyed socket is given no timer.
  timed-destroyed :
      (m : Client × Outcome (Unit {0}))
      → (m.0.sockets id).is_destroyed ≡ true
      → (and_then m
          (λ _ c. let r : Client × Outcome (Unit {0}) = (time_message id c, returned tt) in r)).0
        ≡ m.0
  unfolding time_message
  timed-destroyed (c', returned u) h = rw h refl
  timed-destroyed (c', threw e) h = refl

  -- A client with a guarded or an assured parser, whatever arrives: its `data` handler returns, or throws what
  -- a subscriber has thrown, and nothing else. And if the parser refuses what has arrived on the current
  -- socket, the socket is destroyed, its rest is dropped, its message timer is cleared, the client remembers
  -- the violation, and the last things it has done are to destroy the socket and to publish the error.
  pub on_data-LeavesBy :
      LeavesBy c.subscribers (on_data id chunk c).1
      × ((code : ProtocolCode)
          → is_current id c ≡ true
          → (read c.parser dispatch (c.sockets id).buffer chunk c).1 ≡ threw (protocol code)
          → IsFailed id code
              (read c.parser dispatch (c.sockets id).buffer chunk c).0
              (on_data id chunk c).0)
  unfolding on_data receive_guarded receive_framed
  on_data-LeavesBy = (
    current (is_current id c),
    λ code now h.
        let left = keep_buffer-IsFailed code reading h in
        let failed = protocol_failure-IsFailed id code reading.0 in
        let framed : IsFailed id code reading.0 (receive_framed id chunk c).0 =
          subst (IsFailed id code reading.0) (sym left) failed in
        rw now (
          receive-eq (λ m. IsFailed id code reading.0 m.0) framed
            (subst (IsFailed id code reading.0)
              (sym (timed-destroyed (receive_framed id chunk c) framed.is_destroyed)) framed)),
  )
    where
      current :
          (b : Bool)
          → LeavesBy c.subscribers
              (if b
                then receive id chunk c
                else (let q : Client × Outcome (Unit {0}) = (c, returned tt) in q)).1
      current true =
          receive-eq (λ m. LeavesBy c.subscribers m.1) receive_framed-LeavesBy
            (timed-LeavesBy id (receive_framed id chunk c) receive_framed-LeavesBy)
      current false = leaves

read_fast-null :
    (delimiter buffer chunk : Text) (c : Client) {rest : List Text}
    → (push delimiter buffer chunk).events ≡ text "null" ∷ rest
    → read_fast dispatch delimiter buffer chunk c ≡ (c, threw type_error)
unfolding read_fast decode_fast deliver dispatch parse
read_fast-null delimiter buffer chunk c found =
    let on_frame = λ (frame : Text). deliver dispatch (decode_fast frame) in
    let leave = λ (u : Unit {0}) (c' : Client).
      let q : Client × Outcome Text = (c', returned (push delimiter buffer chunk).remainder) in q in
    read-push delimiter on_frame buffer chunk c
    ∙ ap (λ frames. and_then (each on_frame frames c) leave) found

-- The fast parser hands `null` to its receiver: such a frame, as the first one that is complete, makes
-- `receiveFramed` throw.
pub receive_framed-null :
    (id : ℕ) (chunk : Text) (c : Client) {delimiter : Text} {rest : List Text}
    → c.parser ≡ fast delimiter
    → (push delimiter (c.sockets id).buffer chunk).events ≡ text "null" ∷ rest
    → (receive_framed id chunk c).1 ≡ threw type_error
unfolding receive_framed read keep_buffer
receive_framed-null id chunk c {delimiter} {rest} fast_parser found =
    ap (λ p. (keep_buffer id (read p dispatch (c.sockets id).buffer chunk c)).1) fast_parser
    ∙ ap (λ m. (keep_buffer id m).1) (read_fast-null delimiter (c.sockets id).buffer chunk c found)
