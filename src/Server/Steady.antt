-- ===== src/Server/Steady.antt =====
-- What receiving and sending leave alone: the list of sockets, where each peer comes from, and the bound of
-- what a peer has to be written.
pub mod Sending
pub mod Starting
pub mod Life
use node_ipc.Base.{
  ◌+◌, ◌-◌, ◌≤◌, ◌≡◌, refl, sym, ap, ◌∙◌, ℕ, Bool, true, false, List, [], ◌∷◌, Option, none, some,
  if◌then◌else◌, arith, ltb, ◌==◌,
}
use node_ipc.Text.{Text, text}
use node_ipc.Outcome.{Thrown, protocol, Outcome, returned, threw, and_then}
use node_ipc.Json.{Value, undefined, null, str, get, truthy}
use node_ipc.Parser.Reading.{read}
use node_ipc.Parser.Safety.{read-keeps}
use node_ipc.Client.{Payload, value, max_pending, is_raw, has_timeout}
use node_ipc.Server.{Server, Peer, Origin, Effect, destroyed, emit_effect, set_peer, update_peer}
use node_ipc.Server.Receiving.{
  clear_peer_timer, start_peer_timer, destroy_peer, peer_failure, data_id, publish_typed_from,
  publish_from, identify, dispatch_from, receive_raw_from, handle_peer_error, keep_peer_buffer,
  receive_framed_from, time_peer, receive_guarded_from, receive_from, peer_timer_fired,
}

pub record Stays (s s' : Server) : Type 0 where
  pub parser : s'.parser ≡ s.parser
  pub sockets : s'.sockets ≡ s.sockets
  pub last : s'.last_peer ≡ s.last_peer
  pub made : s'.next_peer ≡ s.next_peer
  pub origin : (k : ℕ) → (s'.peers k).origin ≡ (s.peers k).origin
  -- A bound on the `writableLength` of each peer stays one.
  pub sized :
      (n : ℕ)
      → max_pending s.parser ≡ some n
      → ((k : ℕ) → (s.peers k).writable_length ≤ n)
      → (k : ℕ) → (s'.peers k).writable_length ≤ n

pub Stays-refl : (s : Server) → Stays s s
Stays-refl s = record {
  parser = refl;
  sockets = refl;
  last = refl;
  made = refl;
  origin = λ k. refl;
  sized = λ n e h. h;
}

update-origin :
    (f : ℕ → Peer) (k : ℕ) (p : Peer) (i : ℕ)
    → p.origin ≡ (f k).origin
    → (update_peer f k p i).origin ≡ (f i).origin
update-origin f k p i h = ground (arith, h)

pub update-sized :
    (f : ℕ → Peer) (k : ℕ) (p : Peer) (i n : ℕ)
    → p.writable_length ≤ n
    → (f i).writable_length ≤ n
    → (update_peer f k p i).writable_length ≤ n
update-sized f k p i n h j = ground (arith, h, j)

module _ {s s' : Server} (j : Stays s s') where
  Stays-set_sized :
      (k : ℕ) (p : Peer)
      → p.origin ≡ (s'.peers k).origin
      → ((n : ℕ)
          → max_pending s'.parser ≡ some n
          → (s'.peers k).writable_length ≤ n
          → p.writable_length ≤ n)
      → Stays s (set_peer k p s')
  Stays-set_sized k p h w = record {
    parser = j.parser;
    sockets = j.sockets;
    last = j.last;
    made = j.made;
    origin = λ i. update-origin s'.peers k p i h ∙ j.origin i;
    sized = λ n e b i.
        update-sized s'.peers k p i n (w n (ap max_pending j.parser ∙ e) (j.sized n e b k))
          (j.sized n e b i);
  }

  Stays-set_peer :
      (k : ℕ) (p : Peer)
      → p.origin ≡ (s'.peers k).origin
      → p.writable_length ≡ (s'.peers k).writable_length
      → Stays s (set_peer k p s')
  Stays-set_peer k p h l = Stays-set_sized k p h (λ n e b. omega (arith, l, b))

  pub Stays-emit_effect : (e : Effect) → Stays s (emit_effect e s')
  Stays-emit_effect e = record {
    parser = j.parser;
    sockets = j.sockets;
    last = j.last;
    made = j.made;
    origin = j.origin;
    sized = j.sized;
  }

  pub Stays-clear_peer_timer : (k : ℕ) → Stays s (clear_peer_timer k s')
  unfolding clear_peer_timer
  Stays-clear_peer_timer k =
      Stays-set_peer k (record (s'.peers k) { message_timer = false }) refl refl

  Stays-start_peer_timer : (k : ℕ) → Stays s (start_peer_timer k s')
  unfolding start_peer_timer
  Stays-start_peer_timer k =
      Stays-set_peer k (record (s'.peers k) { message_timer = true }) refl refl

pub Stays-destroy_peer : {s s' : Server} (k : ℕ) → Stays s s' → Stays s (destroy_peer k s')
unfolding destroy_peer
Stays-destroy_peer {s} {s'} k j = go (s'.peers k).origin
  where
    go :
        (o : Option Origin)
        → Stays s (elim o [
          | some o ↦ s'
          | none ↦
              emit_effect
                (destroyed k)
                (set_peer k (record (s'.peers k) { is_destroyed = true; readable = false }) s')
        ])
    go (some o) = j
    go none =
        Stays-emit_effect
          (Stays-set_peer j k (record (s'.peers k) { is_destroyed = true; readable = false }) refl
            refl)
          _

pub Stays-peer_failure :
    {s s' : Server} (k : ℕ) (e : Thrown) → Stays s s' → Stays s (peer_failure k e s')
unfolding peer_failure
Stays-peer_failure {s} {s'} k e j =
    Stays-emit_effect
      (Stays-destroy_peer k
        (Stays-set_peer j k (record (s'.peers k) { message_timer = false; buffer = [] }) refl refl))
      _

-- The subscribers do not matter to it.
pub Stays-subscribes :
    {s s' : Server} (f : List Effect → Outcome (Unit {0}))
    → Stays s s'
    → Stays s (record s' { subscribers = f })
Stays-subscribes f j = record {
  parser = j.parser;
  sockets = j.sockets;
  last = j.last;
  made = j.made;
  origin = j.origin;
  sized = j.sized;
}

Stays-identify : {s s' : Server} (k : ℕ) (m : Value) → Stays s s' → Stays s (identify k m s')
unfolding identify
Stays-identify {s} {s'} k m j =
    go (data_id (get (text "data") m)) (truthy (data_id (get (text "data") m)))
  where
    go :
        (id : Value) (b : Bool)
        → Stays s (if b then set_peer k (record (s'.peers k) { id = id }) s' else s')
    go id true = Stays-set_peer j k (record (s'.peers k) { id = id }) refl refl
    go id false = j

Stays-publish_typed_from :
    {s s' : Server} (k : ℕ) (type : Value) (d : Payload)
    → Stays s s'
    → Stays s (publish_typed_from k type d s').0
unfolding publish_typed_from
Stays-publish_typed_from k (str t) d j = Stays-emit_effect j _
Stays-publish_typed_from k _ d j = j

Stays-publish_from :
    {s s' : Server} (k : ℕ) (m : Value) → Stays s s' → Stays s (publish_from k m s').0
unfolding publish_from
Stays-publish_from k m j =
    Stays-publish_typed_from k (get (text "type") m) (value (get (text "data") m)) j

Stays-dispatch_from :
    {s s' : Server} (k : ℕ) (m : Value) → Stays s s' → Stays s (dispatch_from k m s').0
unfolding dispatch_from
Stays-dispatch_from k undefined j = j
Stays-dispatch_from k null j = j
Stays-dispatch_from {s} {s'} k m j = go s'.config.identify_peer
  where
    go : (b : Bool) → Stays s (publish_from k m (if b then identify k m s' else s')).0
    go true = Stays-publish_from k m (Stays-identify k m j)
    go false = Stays-publish_from k m j

Stays-handle_peer_error :
    {s s' : Server} (k : ℕ) (e : Thrown) → Stays s s' → Stays s (handle_peer_error k e s').0
unfolding handle_peer_error
Stays-handle_peer_error k (protocol code) j = Stays-peer_failure k (protocol code) j
Stays-handle_peer_error k _ j = j

Stays-keep_peer_buffer :
    {s : Server} (k : ℕ) (m : Server × Outcome Text)
    → Stays s m.0
    → Stays s (keep_peer_buffer k m).0
unfolding keep_peer_buffer
Stays-keep_peer_buffer k (s', returned rest) j =
    Stays-set_peer j k (record (s'.peers k) { buffer = rest }) refl refl
Stays-keep_peer_buffer k (s', threw e) j = Stays-handle_peer_error k e j

Stays-receive_framed_from :
    {s s' : Server} (k : ℕ) (chunk : Text) → Stays s s' → Stays s (receive_framed_from k chunk s').0
unfolding receive_framed_from
Stays-receive_framed_from {s} {s'} k chunk j =
    Stays-keep_peer_buffer k (read s'.parser (dispatch_from k) (s'.peers k).buffer chunk s') (
      read-keeps (Stays s) s'.parser (dispatch_from k) (λ m s₁ i. Stays-dispatch_from k m i)
        (s'.peers k).buffer chunk s' j)

Stays-time_peer : {s s' : Server} (k : ℕ) → Stays s s' → Stays s (time_peer k s')
unfolding time_peer
Stays-time_peer {s} {s'} k j = go (s'.peers k).is_destroyed (s'.peers k).buffer
  where
    go :
        (b : Bool) (t : Text)
        → Stays s (
            if b then s' else elim t [ [] ↦ clear_peer_timer k s' | u ∷ r ↦ start_peer_timer k s' ])
    go true t = j
    go false [] = Stays-clear_peer_timer j k
    go false (u ∷ r) = Stays-start_peer_timer j k

Stays-receive_guarded_from :
    {s s' : Server} (k : ℕ) (chunk : Text)
    → Stays s s'
    → Stays s (receive_guarded_from k chunk s').0
unfolding receive_guarded_from
Stays-receive_guarded_from {s} {s'} k chunk j =
    go (receive_framed_from k chunk s') (Stays-receive_framed_from k chunk j)
  where
    go :
        (m : Server × Outcome (Unit {0}))
        → Stays s m.0
        → Stays s
            (and_then m
              (λ _ s₁. let r : Server × Outcome (Unit {0}) = (time_peer k s₁, returned tt) in r)).0
    go (s₁, returned u) i = Stays-time_peer k i
    go (s₁, threw e) i = i

pub Stays-receive_from :
    {s s' : Server} (k : ℕ) (chunk : Text) → Stays s s' → Stays s (receive_from k chunk s').0
unfolding receive_from receive_raw_from
Stays-receive_from {s} {s'} k chunk j = go (is_raw s'.parser) (has_timeout s'.parser)
  where
    go :
        (r t : Bool)
        → Stays s
            (if r
              then receive_raw_from k chunk s'
              else if t
              then receive_guarded_from k chunk s'
              else receive_framed_from k chunk s').0
    go true t = Stays-emit_effect j _
    go false true = Stays-receive_guarded_from k chunk j
    go false false = Stays-receive_framed_from k chunk j

pub Stays-peer_timer_fired :
    {s s' : Server} (k : ℕ) → Stays s s' → Stays s (peer_timer_fired k s').0
unfolding peer_timer_fired
Stays-peer_timer_fired k j = Stays-peer_failure k _ j
