-- ===== src/Server/Contained.antt =====
-- Which exceptions leave the handlers of data of a server with a guarded or an assured parser, and what
-- happens to a peer whose data are refused.
use node_ipc.Base.{
  ◌≡◌, refl, sym, ap, subst, ◌∙◌, ℕ, Bool, true, false, List, [], ◌∷◌, ◌++◌, Option, none, some,
  if◌then◌else◌, ==_refl,
}
use node_ipc.Text.{Text, text}
use node_ipc.Outcome.{
  Thrown, protocol, type_error, setup, foreign, ProtocolCode, Outcome, returned, threw, and_then,
}
use node_ipc.Json.{Fields, str, obj, get, lookup}
use node_ipc.Parser.{Parser}
use node_ipc.Parser.Reading.{read}
use node_ipc.Parser.Contained.Reads.{
  IsChecked, is_guarded, is_assured, LeavesBy, leaves, rethrows, subscribers-LeavesBy, Ends, ends,
  refused, passed_on, read-Ends,
}
use node_ipc.Client.{failure, value, is_raw, has_timeout}
use node_ipc.Server.{
  Server, Peer, Effect, Origin, published, destroyed, emit_effect, update_peer, set_peer,
  after_publish,
}
use node_ipc.Server.Sockets.{find_peer, comes_from, look_up, peer, receive_datagram}
use node_ipc.Server.Receiving.{
  dispatch_from, publish_from, publish_typed_from, identify, data_id, destroy_peer, peer_failure,
  handle_peer_error, keep_peer_buffer, receive_framed_from, receive_guarded_from, clear_peer_timer,
  start_peer_timer, time_peer, receive_from, receive_raw_from,
}

-- What the subscribers throw at some time.
abbrev ThrownBy : (List Effect → Outcome (Unit {0})) → Thrown → Type 0
ThrownBy f e = (es : List Effect) × (f es ≡ threw e)

abbrev Subscribed : (List Effect → Outcome (Unit {0})) → Server → Type 0
Subscribed f s = s.subscribers ≡ f

-- A stream is destroyed; the peer of datagrams has no `destroy`.
abbrev pub before_error : ℕ → Option Origin → List Effect → List Effect
before_error k (some o) es = es
before_error k none es = es ++ destroyed k ∷ []

-- The state of a server behind the protocol failure of a peer, by its state before.
pub record IsFailed (k : ℕ) (code : ProtocolCode) (s s' : Server) : Type 0 where
  pub is_destroyed : (s.peers k).origin ≡ none → (s'.peers k).is_destroyed ≡ true
  pub emptied : (s'.peers k).buffer ≡ []
  pub untimed : (s'.peers k).message_timer ≡ false
  pub told :
      s'.effects
      ≡ before_error k (s.peers k).origin s.effects
        ++ published (str (text "error")) (failure (protocol code)) none ∷ []

own-peer : (f : ℕ → Peer) (k : ℕ) (p : Peer) → update_peer f k p k ≡ p
own-peer f k p = rw ==_refl refl

peer_failure-IsFailed :
    (k : ℕ) (code : ProtocolCode) (s : Server)
    → IsFailed k code s (peer_failure k (protocol code) s)
unfolding peer_failure destroy_peer
peer_failure-IsFailed k code s = go (s.peers k).origin refl
  where
    blank : Peer
    blank = record (s.peers k) { message_timer = false; buffer = [] }

    settled : Server
    settled = set_peer k blank s

    own : update_peer s.peers k blank k ≡ blank
    own = own-peer s.peers k blank

    close : Option Origin → Server
    close o = elim o [
      | some o ↦ settled
      | none ↦
          emit_effect (destroyed k) (
            set_peer k (record (settled.peers k) { is_destroyed = true; readable = false }) settled)
    ]

    error : Effect
    error = published (str (text "error")) (failure (protocol code)) none

    fail : Server → Server
    fail s' = emit_effect error s'

    same : (o : Option Origin) → (s.peers k).origin ≡ o → IsFailed k code s (fail (close o))
    same (some o) e = record {
      is_destroyed = λ h. cc;
      emptied = ap (λ p. p.buffer) own;
      untimed = ap (λ p. p.message_timer) own;
      told = ap (λ x. before_error k x s.effects ++ error ∷ []) (sym e);
    }
    same none e =
        let closed = record (settled.peers k) { is_destroyed = true; readable = false } in
        let twice : update_peer settled.peers k closed k ≡ closed =
          own-peer settled.peers k closed in
        record {
          is_destroyed = λ h. ap (λ p. p.is_destroyed) twice;
          emptied = ap (λ p. p.buffer) twice ∙ ap (λ p. p.buffer) own;
          untimed = ap (λ p. p.message_timer) twice ∙ ap (λ p. p.message_timer) own;
          told = ap (λ x. before_error k x s.effects ++ error ∷ []) (sym e);
        }

    go :
        (o : Option Origin)
        → (s.peers k).origin ≡ o
        → IsFailed k code s (fail (close (settled.peers k).origin))
    go o e =
        subst (λ x. IsFailed k code s (fail (close x))) (sym (ap (λ p. p.origin) own ∙ e))
          (same o e)

-- With an empty rest the message timer is cleared, if anything is done.
time_peer-IsFailed :
    (k : ℕ) (code : ProtocolCode) (s s' : Server)
    → IsFailed k code s s'
    → IsFailed k code s (time_peer k s')
unfolding time_peer clear_peer_timer start_peer_timer
time_peer-IsFailed k code s s' i = go (s'.peers k).is_destroyed (s'.peers k).buffer refl i.emptied
  where
    go :
        (b : Bool) (t : Text)
        → (s'.peers k).is_destroyed ≡ b
        → t ≡ []
        → IsFailed k code s (
            if b
            then s'
            else elim t [ [] ↦ clear_peer_timer k s' | u ∷ rest ↦ start_peer_timer k s' ])
    go true t e h = i
    go false (u ∷ t) e h = cc
    go false [] e h =
        let idle = record (s'.peers k) { message_timer = false } in
        let own = own-peer s'.peers k idle in
        record {
          is_destroyed = λ o. ap (λ p. p.is_destroyed) own ∙ i.is_destroyed o;
          emptied = ap (λ p. p.buffer) own ∙ i.emptied;
          untimed = ap (λ p. p.message_timer) own;
          told = i.told;
        }

module _ (f : List Effect → Outcome (Unit {0})) where
  after_publish-Ends :
      (s : Server) → Subscribed f s → Ends (Subscribed f) (ThrownBy f) (after_publish s)
  after_publish-Ends s i = go (s.subscribers s.effects) (ap (λ g. g s.effects) (sym i))
    where
      go :
          (o : Outcome (Unit {0}))
          → f s.effects ≡ o
          → Ends (Subscribed f) (ThrownBy f) (let q : Server × Outcome (Unit {0}) = (s, o) in q)
      go (returned u) h = ends s u i
      go (threw e) h = passed_on s e i (s.effects, h)

  after_publish-LeavesBy : (s : Server) → Subscribed f s → LeavesBy f (after_publish s).1
  after_publish-LeavesBy s i =
      subst (λ g. LeavesBy f (g s.effects)) (sym i) (subscribers-LeavesBy f s.effects)

  module _ (k : ℕ) where
    identify-Subscribed :
        (fields : Fields) (s : Server) (b c : Bool)
        → Subscribed f s
        → Subscribed f (
            if b
            then (if c
                then set_peer k
                    (record (s.peers k) { id = data_id (get (text "data") (obj fields)) })
                    s
                else s)
            else s)
    identify-Subscribed fields s true true i = i
    identify-Subscribed fields s true false i = i
    identify-Subscribed fields s false c i = i

    publish_from-Ends :
        (fields : Fields) (name : Text) (s : Server)
        → lookup (text "type") fields ≡ str name
        → Subscribed f s
        → Ends (Subscribed f) (ThrownBy f) (publish_from k (obj fields) s)
    unfolding publish_from get
    publish_from-Ends fields name s e i =
        subst
          (λ t.
            Ends (Subscribed f) (ThrownBy f)
              (publish_typed_from k t (value (lookup (text "data") fields)) s))
          (sym e) (unfold publish_typed_from in after_publish-Ends _ i)

    dispatch_from-Ends :
        (fields : Fields) (name : Text) (s : Server)
        → lookup (text "type") fields ≡ str name
        → Subscribed f s
        → Ends (Subscribed f) (ThrownBy f) (dispatch_from k (obj fields) s)
    unfolding dispatch_from identify
    dispatch_from-Ends fields name s e i =
        publish_from-Ends fields name _ e (identify-Subscribed fields s s.config.identify_peer _ i)

    peer_failure-Subscribed :
        (e : Thrown) (s : Server) → Subscribed f s → Subscribed f (peer_failure k e s)
    unfolding peer_failure destroy_peer
    peer_failure-Subscribed e s i = go settled (settled.peers k).origin i
      where
        settled : Server
        settled = set_peer k (record (s.peers k) { message_timer = false; buffer = [] }) s

        go :
            (s' : Server) (o : Option Origin)
            → Subscribed f s'
            → Subscribed f (elim o [
              | some o ↦ s'
              | none ↦
                  emit_effect
                    (destroyed k)
                    (set_peer k (record (s'.peers k) { is_destroyed = true; readable = false }) s')
            ])
        go s' (some o) j = j
        go s' none j = j

    handle_peer_error-LeavesBy :
        (e : Thrown) (s : Server)
        → Subscribed f s
        → ThrownBy f e
        → LeavesBy f (handle_peer_error k e s).1
    unfolding handle_peer_error
    handle_peer_error-LeavesBy (protocol code) s i t =
        after_publish-LeavesBy (peer_failure k (protocol code) s)
          (peer_failure-Subscribed (protocol code) s i)
    handle_peer_error-LeavesBy type_error s i t = rethrows t.0 type_error t.1
    handle_peer_error-LeavesBy (setup e) s i t = rethrows t.0 (setup e) t.1
    handle_peer_error-LeavesBy (foreign e) s i t = rethrows t.0 (foreign e) t.1

    keep_peer_buffer-LeavesBy :
        {m : Server × Outcome Text}
        → Ends (Subscribed f) (ThrownBy f) m
        → LeavesBy f (keep_peer_buffer k m).1
    unfolding keep_peer_buffer handle_peer_error
    keep_peer_buffer-LeavesBy (ends s rest i) = leaves
    keep_peer_buffer-LeavesBy (refused s code i) =
        after_publish-LeavesBy (peer_failure k (protocol code) s)
          (peer_failure-Subscribed (protocol code) s i)
    keep_peer_buffer-LeavesBy (passed_on s e i t) = handle_peer_error-LeavesBy e s i t

keep_peer_buffer-IsFailed :
    (k : ℕ) (code : ProtocolCode) (m : Server × Outcome Text)
    → m.1 ≡ threw (protocol code)
    → IsFailed k code m.0 (keep_peer_buffer k m).0
unfolding keep_peer_buffer handle_peer_error
keep_peer_buffer-IsFailed k code (s', returned rest) h = cc
keep_peer_buffer-IsFailed k code (s', threw e) h =
    let same : protocol code ≡ e = cc in
    subst (λ x. IsFailed k code s' (handle_peer_error k x s').0) same
      (peer_failure-IsFailed k code s')

module _ (k : ℕ) where
  abbrev timed : Server × Outcome (Unit {0}) → Server × Outcome (Unit {0})
  timed m = and_then m (λ _ s. (time_peer k s, returned tt))

  timed-LeavesBy :
      {f : List Effect → Outcome (Unit {0})} (m : Server × Outcome (Unit {0}))
      → LeavesBy f m.1
      → LeavesBy f (timed m).1
  timed-LeavesBy (s, returned u) h = leaves
  timed-LeavesBy (s, threw e) h = h

  timed-IsFailed :
      {code : ProtocolCode} {s : Server} (m : Server × Outcome (Unit {0}))
      → IsFailed k code s m.0
      → IsFailed k code s (timed m).0
  timed-IsFailed {code} {s} (s', returned u) i = time_peer-IsFailed k code s s' i
  timed-IsFailed (s', threw e) i = i

module _ (k : ℕ) (chunk : Text) (s : Server) (checked : IsChecked s.parser) where
  -- With a parser that checks, `receive` is one of two methods.
  receive_from-eq :
      (P : Server × Outcome (Unit {0}) → Type 0)
      → P (receive_framed_from k chunk s)
      → P (timed k (receive_framed_from k chunk s))
      → P (receive_from k chunk s)
  unfolding receive_from receive_guarded_from is_raw
  receive_from-eq P framed guarded' = go checked (has_timeout s.parser)
    where
      go :
          {p : Parser}
          → IsChecked p
          → (t : Bool)
          → P (
              if is_raw p
              then receive_raw_from k chunk s
              else if t
              then receive_guarded_from k chunk s
              else receive_framed_from k chunk s)
      go (is_guarded d l) true = guarded'
      go (is_guarded d l) false = framed
      go (is_assured d l allowed) true = guarded'
      go (is_assured d l allowed) false = framed

  receive_framed_from-LeavesBy : LeavesBy s.subscribers (receive_framed_from k chunk s).1
  unfolding receive_framed_from
  receive_framed_from-LeavesBy = keep_peer_buffer-LeavesBy s.subscribers k (
      read-Ends (Subscribed s.subscribers) (ThrownBy s.subscribers) (dispatch_from k)
        (dispatch_from-Ends s.subscribers k) checked (s.peers k).buffer chunk s refl)

  -- A server with a guarded or an assured parser, whatever arrives from a peer: its handler returns, or throws
  -- what a subscriber has thrown, and nothing else. And if the parser refuses what has arrived, a stream is
  -- destroyed, the rest of the peer is dropped, its message timer is cleared, and the last thing that has been
  -- done is to publish the error.
  pub receive_from-LeavesBy :
      LeavesBy s.subscribers (receive_from k chunk s).1
      × ((code : ProtocolCode)
          → (read s.parser (dispatch_from k) (s.peers k).buffer chunk s).1 ≡ threw (protocol code)
          → IsFailed k code
              (read s.parser (dispatch_from k) (s.peers k).buffer chunk s).0
              (receive_from k chunk s).0)
  unfolding receive_framed_from
  receive_from-LeavesBy = (
    receive_from-eq (λ m. LeavesBy s.subscribers m.1) receive_framed_from-LeavesBy
        (timed-LeavesBy k (receive_framed_from k chunk s) receive_framed_from-LeavesBy),
    λ code h.
        let failed =
          keep_peer_buffer-IsFailed k code
            (read s.parser (dispatch_from k) (s.peers k).buffer chunk s) h in
        receive_from-eq
          (λ m. IsFailed k code (read s.parser (dispatch_from k) (s.peers k).buffer chunk s).0 m.0)
          failed (timed-IsFailed k (receive_framed_from k chunk s) failed),
  )

look_up-parser : (x : Option ℕ) (o : Origin) (s : Server) → (look_up x o s).0.parser ≡ s.parser
unfolding look_up
look_up-parser (some k) o s = refl
look_up-parser none o s = refl

peer-parser : (o : Origin) (s : Server) → (peer o s).0.parser ≡ s.parser
unfolding peer
peer-parser o s = go s.last_peer
  where
    found : Server × ℕ
    found = look_up (find_peer s.peers o s.sockets) o s

    last :
        (b : Bool) (k : ℕ)
        → (let q : Server × ℕ = if b then (s, k) else found in q).0.parser ≡ s.parser
    last true k = refl
    last false k = look_up-parser (find_peer s.peers o s.sockets) o s

    go :
        (x : Option ℕ)
        → (let q : Server × ℕ = elim x [
          | none ↦ found
          | some k ↦ if comes_from o (s.peers k) then (s, k) else found
        ] in
            q).0.parser
          ≡ s.parser
    go none = look_up-parser (find_peer s.peers o s.sockets) o s
    go (some k) = last (comes_from o (s.peers k)) k

look_up-subscribers :
    (x : Option ℕ) (o : Origin) (s : Server) → (look_up x o s).0.subscribers ≡ s.subscribers
unfolding look_up
look_up-subscribers (some k) o s = refl
look_up-subscribers none o s = refl

peer-subscribers : (o : Origin) (s : Server) → (peer o s).0.subscribers ≡ s.subscribers
unfolding peer
peer-subscribers o s = go s.last_peer
  where
    found : Server × ℕ
    found = look_up (find_peer s.peers o s.sockets) o s

    last :
        (b : Bool) (k : ℕ)
        → (let q : Server × ℕ = if b then (s, k) else found in q).0.subscribers ≡ s.subscribers
    last true k = refl
    last false k = look_up-subscribers (find_peer s.peers o s.sockets) o s

    go :
        (x : Option ℕ)
        → (let q : Server × ℕ = elim x [
          | none ↦ found
          | some k ↦ if comes_from o (s.peers k) then (s, k) else found
        ] in
            q).0.subscribers
          ≡ s.subscribers
    go none = look_up-subscribers (find_peer s.peers o s.sockets) o s
    go (some k) = last (comes_from o (s.peers k)) k

-- A server with a guarded or an assured parser, whatever a datagram carries and whether its peer is known or
-- new: the handler returns, or throws what a subscriber has thrown, and nothing else. And if the parser refuses
-- the datagram, the rest of that peer is dropped, its message timer is cleared, and the last thing that has
-- been done is to publish the error.
pub receive_datagram-LeavesBy :
    (chunk : Text) (o : Origin) (s : Server)
    → IsChecked s.parser
    → LeavesBy s.subscribers (receive_datagram chunk o s).1
      × ((code : ProtocolCode)
          → (let (s', k) = peer o s in
              (read s'.parser (dispatch_from k) (s'.peers k).buffer chunk s').1
              ≡ threw (protocol code))
          → (let (s', k) = peer o s in
              IsFailed k code
                (read s'.parser (dispatch_from k) (s'.peers k).buffer chunk s').0
                (receive_datagram chunk o s).0))
unfolding receive_datagram
receive_datagram-LeavesBy chunk o s checked =
    let all =
      receive_from-LeavesBy (peer o s).1 chunk (peer o s).0
        (subst IsChecked (sym (peer-parser o s)) checked) in
    (subst (λ f. LeavesBy f (receive_datagram chunk o s).1) (peer-subscribers o s) all.0, all.1)
