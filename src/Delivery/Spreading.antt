-- ===== src/Delivery/Spreading.antt =====
-- What a server with a fast parser hands to its sockets.
use node_ipc.Base.{
  ◌≡◌, refl, sym, ap, subst, ◌∙◌, ℕ, ◌+◌, Bool, true, false, ◌&&◌, List, [], ◌∷◌, ◌++◌, some, none,
  ◌==◌, append_assoc, append-nil, map, arith, Bool-cases, inl, inr, if◌then◌else◌,
}
use node_ipc.Text.{Text}
use node_ipc.Outcome.{Outcome, returned, threw, type_error, and_then}
use node_ipc.Parser.{Wire, fast, chars, encode, encode_fast}
use node_ipc.Parser.RoundTrip.{Event, sent}
use node_ipc.Client.{max_pending}
use node_ipc.Client.Sending.{queued_length}
use node_ipc.Server.{Server, Peer, Effect, written, emit_effect, set_peer, update_peer}
use node_ipc.Server.Sending.{
  write_peer, write_stream, write_streams, write_all_datagrams, write_all, write_all_streams,
  write_encoded, broadcast,
}
use node_ipc.Server.Sockets.{member}
use node_ipc.Server.Events.{quietly}
use node_ipc.Server.Listing.{IsDistinct, nothing_listed, one_more}
use node_ipc.Delivery.{broadcast_all, handed_by, outgoing_by}

-- A server on streams, each of whose sockets is listed once.
pub record IsStreaming (d : Text) (s : Server) : Type 0 where
  pub parser : s.parser ≡ fast d
  pub streams : s.by_datagram ≡ false
  pub distinct : IsDistinct s.sockets
  pub listed : (k : ℕ) → member k s.sockets ≡ true → (s.peers k).origin ≡ none

-- What has been published or written since, with all else that sending looks at as it was.
record Spread (s s' : Server) (es : List Effect) : Type 0 where
  pub effects : s'.effects ≡ s.effects ++ es
  pub parser : s'.parser ≡ s.parser
  pub by_datagram : s'.by_datagram ≡ s.by_datagram
  pub sockets : s'.sockets ≡ s.sockets
  pub origin : (k : ℕ) → (s'.peers k).origin ≡ (s.peers k).origin

Spread-refl : (s : Server) → Spread s s []
Spread-refl s = record {
  effects = sym (append-nil s.effects);
  parser = refl;
  by_datagram = refl;
  sockets = refl;
  origin = λ k. refl;
}

Spread-then :
    {a b c : Server} {es fs : List Effect} → Spread a b es → Spread b c fs → Spread a c (es ++ fs)
Spread-then {a} {es = es} {fs = fs} t u = record {
  effects = u.effects ∙ ap (λ l. l ++ fs) t.effects ∙ append_assoc a.effects es fs;
  parser = u.parser ∙ t.parser;
  by_datagram = u.by_datagram ∙ t.by_datagram;
  sockets = u.sockets ∙ t.sockets;
  origin = λ k. u.origin k ∙ t.origin k;
}

Spread-IsStreaming :
    {d : Text} {s s' : Server} {es : List Effect}
    → Spread s s' es
    → IsStreaming d s
    → IsStreaming d s'
Spread-IsStreaming t i = record {
  parser = t.parser ∙ i.parser;
  streams = t.by_datagram ∙ i.streams;
  distinct = subst IsDistinct (sym t.sockets) i.distinct;
  listed = λ k m. t.origin k ∙ i.listed k (sym (ap (member k) t.sockets) ∙ m);
}

same-origin :
    (f : ℕ → Peer) (k n i : ℕ)
    → (update_peer f k (record (f k) { writable_length = n }) i).origin ≡ (f i).origin
same-origin f k n i = ground arith

-- A stream takes what is written.
write_peer-Spread :
    (k : ℕ) (m : Wire) (s : Server)
    → (s.peers k).origin ≡ none
    → (s' : Server) × (write_peer k m s ≡ (s', returned true)) × Spread s s' (written k m ∷ [])
unfolding write_peer
write_peer-Spread k m s h =
    let p = s.peers k in
    (
      emit_effect (written k m)
          (set_peer k (record p { writable_length = p.writable_length + queued_length m }) s),
      ap
          (λ o.
            let q : Server × Outcome Bool = elim o [
              | some o ↦ (s, threw type_error)
              | none ↦ (
                emit_effect (written k m) (
                    set_peer k (record p { writable_length = p.writable_length + queued_length m })
                      s),
                returned true,
              )
            ] in
            q)
          h,
      record {
        effects = refl;
        parser = refl;
        by_datagram = refl;
        sockets = refl;
        origin = λ i. same-origin s.peers k (p.writable_length + queued_length m) i;
      },
    )

write_streams-Spread :
    (d : Text) (ks : List ℕ) (m : Wire) (s : Server)
    → s.parser ≡ fast d
    → ((k : ℕ) → member k ks ≡ true → (s.peers k).origin ≡ none)
    → (s' : Server) × (write_streams true ks m s ≡ (s', returned true))
      × Spread s s' (map (λ k. written k m) ks)
unfolding write_streams member write_stream max_pending
write_streams-Spread d [] m s e h = (s, refl, Spread-refl s)
write_streams-Spread d (k ∷ ks) m s e h =
    let (s₁, now, t) = write_peer-Spread k m s (h k (ground arith)) in
    let (s₂, later, u) =
      write_streams-Spread d ks m s₁ (t.parser ∙ e) (λ i n. t.origin i ∙ h i (ground (arith, n))) in
    (
      s₂,
      ap
            (λ q.
              and_then (write_stream (max_pending q) k m s)
                (λ result. write_streams (true && result) ks m))
            e
          ∙ ap (λ r. and_then r (λ result. write_streams (true && result) ks m)) now
          ∙ later,
      Spread-then t u,
    )

outgoing_by-append :
    (k : ℕ) (xs ys : List Effect) → outgoing_by k (xs ++ ys) ≡ outgoing_by k xs ++ outgoing_by k ys
unfolding outgoing_by
outgoing_by-append k [] ys = refl
outgoing_by-append k (x ∷ xs) ys =
    ap (λ t. handed_by k x ++ t) (outgoing_by-append k xs ys)
    ∙ sym (append_assoc (handed_by k x) (outgoing_by k xs) (outgoing_by k ys))

outgoing_by-others :
    (k : ℕ) (t : Text) (ks : List ℕ)
    → member k ks ≡ false
    → outgoing_by k (map (λ j. written j (chars t)) ks) ≡ []
unfolding outgoing_by handed_by member
outgoing_by-others k t [] h = refl
outgoing_by-others k t (j ∷ ks) h =
    let apart : (j == k) ≡ false = ground (arith, h) in
    rw apart (outgoing_by-others k t ks (ground (arith, h)))

-- Each socket of the list is handed the text once.
outgoing_by-once :
    (k : ℕ) (t : Text) {ks : List ℕ}
    → IsDistinct ks
    → member k ks ≡ true
    → outgoing_by k (map (λ j. written j (chars t)) ks) ≡ t
unfolding outgoing_by handed_by member
outgoing_by-once k t nothing_listed h = cc
outgoing_by-once k t (one_more {k = j} {ks = ks} fresh rest) h = elim (Bool-cases (j == k)) [
  | inl e ↦
      let same : j ≡ k = ground (arith, e) in
      rw e (
        ap (λ u. t ++ u) (outgoing_by-others k t ks (ap (λ i. member i ks) (sym same) ∙ fresh))
        ∙ append-nil t)
  | inr e ↦ rw e (outgoing_by-once k t rest (ground (arith, e, h)))
]

broadcast-Spread :
    (d : Text) (depth : ℕ) (e : Event) (s : Server)
    → IsStreaming d s
    → (s' : Server) × (broadcast depth e.type e.content s ≡ (s', returned true))
      × Spread s s' (map (λ k. written k (chars (encode_fast d e.type e.content))) s.sockets)
unfolding broadcast encode write_encoded write_all write_all_streams
broadcast-Spread d depth e s i =
    let (s', ran, t) =
      write_streams-Spread d s.sockets (chars (encode_fast d e.type e.content)) s i.parser
        i.listed in
    let m = chars (encode_fast d e.type e.content) in
    (
      s',
      ap (λ q. write_encoded (write_all depth) (encode q e.type e.content) s) i.parser
          ∙ ap (λ b. if b then write_all_datagrams depth m s else write_streams true s.sockets m s)
              i.streams
          ∙ ran,
      t,
    )

pub broadcast_all-outgoing :
    (d : Text) (depth : ℕ) (es : List Event) (s : Server)
    → IsStreaming d s
    → (s' : Server) × (broadcast_all depth es s ≡ (s', returned tt))
      × ((k : ℕ)
          → member k s.sockets ≡ true
          → outgoing_by k s'.effects ≡ outgoing_by k s.effects ++ sent d es)
unfolding broadcast_all
broadcast_all-outgoing d depth [] s i = (s, refl, λ k m. sym (append-nil (outgoing_by k s.effects)))
broadcast_all-outgoing d depth (e ∷ es) s i =
    let frame = encode_fast d e.type e.content in
    let (s₁, now, t) = broadcast-Spread d depth e s i in
    let (s₂, later, out) = broadcast_all-outgoing d depth es s₁ (Spread-IsStreaming t i) in
    (
      s₂,
      ap (λ m. and_then (quietly m) (λ _. broadcast_all depth es)) now ∙ later,
      λ k m.
          out k (ap (member k) t.sockets ∙ m)
          ∙ ap (λ l. outgoing_by k l ++ sent d es) t.effects
          ∙ ap (λ u. u ++ sent d es)
              (outgoing_by-append k s.effects (map (λ j. written j (chars frame)) s.sockets)
                ∙ ap (λ u. outgoing_by k s.effects ++ u) (outgoing_by-once k frame i.distinct m))
          ∙ append_assoc (outgoing_by k s.effects) frame (sent d es),
    )
