-- ===== src/Server/Steady/Sending.antt =====
-- What sending leaves alone.
use node_ipc.Base.{
  ◌+◌, ◌≤◌, ◌≡◌, refl, ℕ, zero, suc, Bool, true, false, ◌&&◌, List, [], ◌∷◌, Option, none, some,
  if◌then◌else◌, arith, ltb,
}
use node_ipc.Text.{Text}
use node_ipc.Outcome.{
  protocol, backpressure, type_error, Outcome, returned, threw, Run, and_then, each,
}
use node_ipc.Json.{Value}
use node_ipc.Parser.{Wire, chars, encode}
use node_ipc.Parser.Safety.{and_then-keeps, each-keeps}
use node_ipc.Client.{max_pending}
use node_ipc.Client.Sending.{size, queued_length}
use node_ipc.Client.Steady.Sending.{within-bound, queued-le-size}
use node_ipc.Server.{Server, Origin, written, emit_effect, after_publish, set_peer}
use node_ipc.Server.Receiving.{peer_failure}
use node_ipc.Server.Sending.{
  write_peer, write_stream, write_streams, write_all_streams, send_datagram, reachable,
  write_datagram_or, write_all_datagrams, write, write_all, write_encoded, emit_to, broadcast,
}
use node_ipc.Server.Steady.{Stays, Stays-set_sized, Stays-emit_effect, Stays-peer_failure}

Stays-write_peer :
    {s s' : Server} (k : ℕ) (m : Wire)
    → ((n : ℕ)
        → max_pending s'.parser ≡ some n
        → (s'.peers k).writable_length + queued_length m ≤ n)
    → Stays s s'
    → Stays s (write_peer k m s').0
unfolding write_peer
Stays-write_peer {s} {s'} k m room j = go (s'.peers k).origin
  where
    go :
        (o : Option Origin)
        → Stays s
            (let q : Server × Outcome Bool = elim o [
              | some o ↦ (s', threw type_error)
              | none ↦ (
                emit_effect (written k m) (
                    set_peer k
                      (record (s'.peers k) {
                        writable_length = (s'.peers k).writable_length + queued_length m;
                      })
                      s'),
                returned true,
              )
            ] in
              q).0
    go (some o) = j
    go none =
        Stays-emit_effect
          (Stays-set_sized j k
            (record (s'.peers k) {
              writable_length = (s'.peers k).writable_length + queued_length m;
            })
            refl (λ n e b. room n e))
          _

Stays-write_stream :
    {s s' : Server} (bound : Option ℕ) (k : ℕ) (m : Wire)
    → max_pending s'.parser ≡ bound
    → Stays s s'
    → Stays s (write_stream bound k m s').0
unfolding write_stream
Stays-write_stream none k m e j = Stays-write_peer k m (λ n h. cc) j
Stays-write_stream {s} {s'} (some n) k m e j =
    go (ltb n ((s'.peers k).writable_length + size m)) refl
  where
    go :
        (b : Bool)
        → ltb n ((s'.peers k).writable_length + size m) ≡ b
        → Stays s
            (if b
              then (and_then
                  (after_publish (peer_failure k (protocol backpressure) s'))
                  (λ _ s₁. let q : Server × Outcome Bool = (s₁, returned false) in q))
              else write_peer k m s').0
    go true h =
        and_then-keeps (Stays s) (after_publish (peer_failure k (protocol backpressure) s'))
          (λ _ s₁. (s₁, returned false)) (Stays-peer_failure k _ j) (λ _ s₁ i. i)
    go false h = Stays-write_peer k m (λ i f. omega (arith, within-bound e h f, queued-le-size m)) j

Stays-write_streams :
    {s s' : Server} (writable : Bool) (ks : List ℕ) (m : Wire)
    → Stays s s'
    → Stays s (write_streams writable ks m s').0
unfolding write_streams
Stays-write_streams writable [] m j = j
Stays-write_streams {s} {s'} writable (k ∷ ks) m j =
    and_then-keeps (Stays s) (write_stream (max_pending s'.parser) k m s')
      (λ result. write_streams (writable && result) ks m)
      (Stays-write_stream (max_pending s'.parser) k m refl j)
      (λ result s₁ i. Stays-write_streams (writable && result) ks m i)

Stays-write_datagram_or :
    {s s' : Server} (all : Run Server Bool) (to : Option ℕ) (m : Wire)
    → ((s₁ : Server) → Stays s s₁ → Stays s (all s₁).0)
    → Stays s s'
    → Stays s (write_datagram_or all to m s').0
unfolding write_datagram_or send_datagram
Stays-write_datagram_or {s} {s'} all none m h j = h s' j
Stays-write_datagram_or {s} {s'} all (some k) m h j = go (reachable (s'.peers k))
  where
    go :
        (o : Option Origin)
        → Stays s
            (let q : Server × Outcome Bool = elim o [
              | none ↦ all s'
              | some o ↦ send_datagram m o s'
            ] in
              q).0
    go none = h s' j
    go (some o) = Stays-emit_effect j _

Stays-write_all_datagrams :
    {s : Server} (depth : ℕ) (m : Wire) (s' : Server)
    → Stays s s'
    → Stays s (write_all_datagrams depth m s').0
unfolding write_all_datagrams
Stays-write_all_datagrams zero m s' j = j
Stays-write_all_datagrams {s} (suc depth) m s' j =
    let send_one : ℕ → Run Server (Unit {0}) = λ k s₁.
      and_then (write_datagram_or (write_all_datagrams depth m) (some k) m s₁)
        (λ _ s₂. let q : Server × Outcome (Unit {0}) = (s₂, returned tt) in q) in
    and_then-keeps (Stays s) (each send_one s'.sockets s')
      (λ _ s₁. let q : Server × Outcome Bool = (s₁, returned true) in q)
      (each-keeps (Stays s) send_one
        (λ k s₁ i.
          and_then-keeps (Stays s) (write_datagram_or (write_all_datagrams depth m) (some k) m s₁)
            (λ _ s₂. let q : Server × Outcome (Unit {0}) = (s₂, returned tt) in q)
            (Stays-write_datagram_or (write_all_datagrams depth m) (some k) m
              (λ s₂ h. Stays-write_all_datagrams depth m s₂ h) i)
            (λ _ s₂ h. h))
        s'.sockets s' j)
      (λ _ s₁ i. i)

module _ {s s' : Server} (j : Stays s s') where
  Stays-write : (depth : ℕ) (to : Option ℕ) (m : Wire) → Stays s (write depth to m s').0
  unfolding write
  Stays-write depth to m = go s'.by_datagram to
    where
      go :
          (b : Bool) (to : Option ℕ)
          → Stays s
              (if b then write_datagram_or (write_all_datagrams depth m) to m s' else elim to [
                | none ↦ (let q : Server × Outcome Bool = (s', threw type_error) in q)
                | some k ↦ write_stream (max_pending s'.parser) k m s'
              ]).0
      go true to =
          Stays-write_datagram_or (write_all_datagrams depth m) to m
            (λ s₁ i. Stays-write_all_datagrams depth m s₁ i) j
      go false none = j
      go false (some k) = Stays-write_stream (max_pending s'.parser) k m refl j

  Stays-write_all : (depth : ℕ) (m : Wire) → Stays s (write_all depth m s').0
  unfolding write_all write_all_streams
  Stays-write_all depth m = go s'.by_datagram
    where
      go :
          (b : Bool)
          → Stays s
              (if b then write_all_datagrams depth m s' else write_streams true s'.sockets m s').0
      go true = Stays-write_all_datagrams depth m s' j
      go false = Stays-write_streams true s'.sockets m j

  Stays-write_encoded :
      (k : Wire → Run Server Bool) (o : Outcome Text)
      → ((t : Text) → Stays s (k (chars t) s').0)
      → Stays s (write_encoded k o s').0
  unfolding write_encoded
  Stays-write_encoded k (returned t) h = h t
  Stays-write_encoded k (threw e) h = j

  pub Stays-emit_to :
      (depth : ℕ) (to : Option ℕ) (type data' : Value) → Stays s (emit_to depth to type data' s').0
  unfolding emit_to
  Stays-emit_to depth to type data' =
      Stays-write_encoded (write depth to) (encode s'.parser type data')
        (λ t. Stays-write depth to (chars t))

  pub Stays-broadcast : (depth : ℕ) (type data' : Value) → Stays s (broadcast depth type data' s').0
  unfolding broadcast
  Stays-broadcast depth type data' =
      Stays-write_encoded (write_all depth) (encode s'.parser type data')
        (λ t. Stays-write_all depth (chars t))
