-- ===== src/Server/Datagrams.antt =====
-- `broadcast` of a server of datagrams: it ends unless a peer has no address or no port.
use node_ipc.Base.{
  ◌≡◌, refl, sym, ap, ◌∙◌, ℕ, zero, suc, Bool, true, List, [], ◌∷◌, ◌++◌, Option, none, some,
  append_assoc, append-nil, map,
}
use node_ipc.Outcome.{Thrown, foreign, Outcome, returned, threw, Run, and_then, each}
use node_ipc.Parser.{Wire}
use node_ipc.Server.{Server, Peer, Origin, Effect, datagram, emit_effect}
use node_ipc.Server.Sending.{
  has_callback, send_datagram, reachable, write_datagram_or, write_all_datagrams,
}

-- Where the datagrams to these peers go, if each of them has an address and a port.
pub data Targets (peers : ℕ → Peer) : List ℕ → List Origin → Type 0 where
  no_more : Targets peers [] []
  reaches :
      {k : ℕ} {o : Origin} {ks : List ℕ} {os : List Origin}
      → reachable (peers k) ≡ some o
      → Targets peers ks os
      → Targets peers (k ∷ ks) (o ∷ os)

-- One of these peers has no address or no port.
pub data Misses (peers : ℕ → Peer) : List ℕ → Type 0 where
  misses : {k : ℕ} {ks : List ℕ} → reachable (peers k) ≡ none → Misses peers (k ∷ ks)
  behind :
      {k : ℕ} {ks : List ℕ} (o : Origin)
      → reachable (peers k) ≡ some o
      → Misses peers ks
      → Misses peers (k ∷ ks)

abbrev pub datagrams : Wire → Bool → List Origin → List Effect
datagrams m callback os = map (λ o. datagram m o callback) os

abbrev quiet : Server × Outcome Bool → Server × Outcome (Unit {0})
quiet r = and_then r (λ _ s. (s, returned tt))

-- The body of the loop of `writeAllDatagrams`.
abbrev send_one : ℕ → Wire → ℕ → Run Server (Unit {0})
send_one depth m k s = quiet (write_datagram_or (write_all_datagrams depth m) (some k) m s)

some-eq : {a b : Origin} → some a ≡ some b → a ≡ b
some-eq h = cc

send_one-reachable :
    (depth : ℕ) (m : Wire) (k : ℕ) (s : Server) (o : Origin)
    → reachable (s.peers k) ≡ some o
    → send_one depth m k s ≡ (emit_effect (datagram m o (has_callback s)) s, returned tt)
unfolding write_datagram_or send_datagram
send_one-reachable depth m k s o h = go (reachable (s.peers k)) h
  where
    go :
        (x : Option Origin)
        → x ≡ some o
        → quiet (elim x [ none ↦ write_all_datagrams depth m s | some o ↦ send_datagram m o s ])
          ≡ (emit_effect (datagram m o (has_callback s)) s, returned tt)
    go none e = cc
    go (some o') e =
        ap (λ q. (emit_effect (datagram m q (has_callback s)) s, returned tt)) (some-eq e)

each-datagrams :
    (depth : ℕ) (m : Wire) (s : Server) (before : List Effect) {ks : List ℕ} {os : List Origin}
    → Targets s.peers ks os
    → each (send_one depth m) ks (record s { effects = before })
      ≡ (record s { effects = before ++ datagrams m (has_callback s) os }, returned tt)
unfolding has_callback
each-datagrams depth m s before no_more =
    ap (λ e. (record s { effects = e }, returned tt)) (sym (append-nil before))
each-datagrams depth m s before (reaches {k} {o} {ks} {os} here later) =
    let sent = datagram m o (has_callback s) in
    ap (λ r. and_then r (λ _. each (send_one depth m) ks))
      (send_one-reachable depth m k (record s { effects = before }) o here)
    ∙ each-datagrams depth m s (before ++ sent ∷ []) later
    ∙ ap (λ e. (record s { effects = e }, returned tt))
        (append_assoc before (sent ∷ []) (datagrams m (has_callback s) os))

-- If each peer has an address and a port, `writeAllDatagrams` returns, and has sent the message to each of
-- them once, in order, and done nothing else; it does not call itself.
pub write_all_datagrams-Targets :
    (depth : ℕ) (m : Wire) (s : Server) {os : List Origin}
    → Targets s.peers s.sockets os
    → write_all_datagrams (suc depth) m s
      ≡ (record s { effects = s.effects ++ datagrams m (has_callback s) os }, returned true)
unfolding write_all_datagrams
write_all_datagrams-Targets depth m s t =
    ap (λ r. and_then r (λ _ s'. (s', returned true))) (each-datagrams depth m s s.effects t)

threw-and_then :
    {A B : Type 0} (r : Server × Outcome A) (k : A → Run Server B) {e : Thrown}
    → r.1 ≡ threw e
    → (and_then r k).1 ≡ threw e
threw-and_then (s, returned a) k h = cc
threw-and_then (s, threw e) k h = cc

send_one-missed :
    (depth : ℕ) (m : Wire) (k : ℕ) (s : Server)
    → reachable (s.peers k) ≡ none
    → (write_all_datagrams depth m s).1 ≡ threw (foreign 0)
    → (send_one depth m k s).1 ≡ threw (foreign 0)
unfolding write_datagram_or
send_one-missed depth m k s h t = go (reachable (s.peers k)) h
  where
    go :
        (x : Option Origin)
        → x ≡ none
        → (quiet (elim x [ none ↦ write_all_datagrams depth m s | some o ↦ send_datagram m o s ])).1
          ≡ threw (foreign 0)
    go none e = threw-and_then (write_all_datagrams depth m s) (λ _ s'. (s', returned tt)) t
    go (some o) e = cc

each-Misses :
    (depth : ℕ) (m : Wire)
    → ((s : Server)
        → Misses s.peers s.sockets
        → (write_all_datagrams depth m s).1 ≡ threw (foreign 0))
    → (s : Server) (before : List Effect) {ks : List ℕ} → Misses s.peers s.sockets
    → Misses s.peers ks
    → (each (send_one depth m) ks (record s { effects = before })).1 ≡ threw (foreign 0)
unfolding has_callback
each-Misses depth m deeper s before all (misses {k} {ks} h) =
    let s' = record s { effects = before } in
    threw-and_then (send_one depth m k s') (λ _. each (send_one depth m) ks)
      (send_one-missed depth m k s' h (deeper s' all))
each-Misses depth m deeper s before all (behind {k} {ks} o h later) =
    let sent = datagram m o (has_callback s) in
    ap (λ r. (and_then r (λ _. each (send_one depth m) ks)).1)
      (send_one-reachable depth m k (record s { effects = before }) o h)
    ∙ each-Misses depth m deeper s (before ++ sent ∷ []) all later

-- If one peer has no address or no port, as one whose datagram came from port 0, then `writeAllDatagrams`
-- never returns: however deep the stack, it overflows.
pub write_all_datagrams-Misses :
    (depth : ℕ) (m : Wire) (s : Server)
    → Misses s.peers s.sockets
    → (write_all_datagrams depth m s).1 ≡ threw (foreign 0)
unfolding write_all_datagrams
write_all_datagrams-Misses zero m s h = refl
write_all_datagrams-Misses (suc depth) m s h =
    threw-and_then (each (send_one depth m) s.sockets s) (λ _ s'. (s', returned true))
      (each-Misses depth m (λ s' h'. write_all_datagrams-Misses depth m s' h') s s.effects h h)
