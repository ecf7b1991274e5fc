-- ===== src/Client/Steady/Sending.antt =====
-- What sending leaves alone.
use node_ipc.Base.{
  ◌+◌, ◌≤◌, ◌≡◌, refl, sym, subst, ◌∙◌, ℕ, Bool, true, false, Option, none, some, if◌then◌else◌,
  arith, ltb,
}
use node_ipc.Text.{Text}
use node_ipc.Text.Bytes.{length-le-byte_length}
use node_ipc.Outcome.{backpressure, protocol, Outcome, returned, threw, and_then}
use node_ipc.Json.{Value}
use node_ipc.Parser.{chars, packet, Wire, encode}
use node_ipc.Client.{queued, Client, emit_effect, after_publish, max_pending}
use node_ipc.Client.Receiving.{protocol_failure}
use node_ipc.Client.Sending.{
  Sent, not_sent, handed_over, in_queue, size, queued_length, write_to, write_bounded, write_socket,
  send, send_encoded, emit,
}
use node_ipc.Client.Steady.{Same, Same-set_sized, Same-emit_effect, Same-protocol_failure, some-eq}

pub queued-le-size : (m : Wire) → queued_length m ≤ size m
unfolding size queued_length
queued-le-size (packet b) = omega arith
queued-le-size (chars s) = length-le-byte_length s

Same-write_to :
    {c c' : Client} (id : ℕ) (m : Wire)
    → ((n : ℕ)
        → max_pending c'.parser ≡ some n
        → (c'.sockets id).writable_length + queued_length m ≤ n)
    → Same c c'
    → Same c (write_to id m c')
unfolding write_to
Same-write_to {c' = c'} id m room s =
    Same-emit_effect
      (Same-set_sized s id
        (record (c'.sockets id) {
          writable_length = (c'.sockets id).writable_length + queued_length m;
        })
        refl (λ n e b. room n e))
      _

pub within-bound : {a : Option ℕ} {x k n : ℕ} → a ≡ some k → ltb k x ≡ false → a ≡ some n → x ≤ n
within-bound {x = x} h small e = subst (λ j. x ≤ j) (some-eq (sym h ∙ e)) (ground (arith, small))

Same-refused :
    {c : Client} (m : Client × Outcome (Unit {0}))
    → Same c m.0
    → Same c (and_then m (λ _ c₁. let q : Client × Outcome Sent = (c₁, returned not_sent) in q)).0
Same-refused (c', returned u) s = s
Same-refused (c', threw e) s = s

Same-write_bounded :
    {c c' : Client} (bound socket : Option ℕ) (m : Wire)
    → max_pending c'.parser ≡ bound
    → Same c c'
    → Same c (write_bounded bound socket m c').0
unfolding write_bounded
Same-write_bounded bound none m e s = s
Same-write_bounded none (some id) m e s = Same-write_to id m (λ n h. cc) s
Same-write_bounded {c} {c'} (some n) (some id) m e s =
    go (ltb n ((c'.sockets id).writable_length + size m)) refl
  where
    go :
        (b : Bool)
        → ltb n ((c'.sockets id).writable_length + size m) ≡ b
        → Same c
            (if b
              then (let q : Client × Outcome Sent =
                    and_then
                      (after_publish (protocol_failure id (protocol backpressure) c'))
                      (λ _ c₁. (c₁, returned not_sent)) in
                  q)
              else (write_to id m c', returned handed_over)).0
    go true h =
        Same-refused (after_publish (protocol_failure id _ c')) (Same-protocol_failure id _ s)
    go false h = Same-write_to id m (λ k f. omega (arith, within-bound e h f, queued-le-size m)) s

pub Same-write_socket : {c c' : Client} (m : Wire) → Same c c' → Same c (write_socket m c').0
unfolding write_socket
Same-write_socket {c' = c'} m s = Same-write_bounded (max_pending c'.parser) c'.socket m refl s

Same-send : {c c' : Client} (m : Wire) → Same c c' → Same c (send m c').0
unfolding send
Same-send {c} {c'} m s = go c'.config.sync
  where
    go :
        (b : Bool)
        → Same c
            (if b
              then (let q : Client × Outcome Sent =
                    (emit_effect (queued m) c', returned in_queue) in
                  q)
              else write_socket m c').0
    go true = Same-emit_effect s _
    go false = Same-write_socket m s

pub Same-emit : {c c' : Client} (type data' : Value) → Same c c' → Same c (emit type data' c').0
unfolding emit
Same-emit {c} {c'} type data' s = go (encode c'.parser type data')
  where
    go : (o : Outcome Text) → Same c (send_encoded o c').0
    go (returned frame) = unfold send_encoded in Same-send (chars frame) s
    go (threw e) = unfold send_encoded in s
