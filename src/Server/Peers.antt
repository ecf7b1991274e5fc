-- ===== src/Server/Peers.antt =====
-- Each origin of datagrams has one peer.
use node_ipc.Base.{
  ◌≡◌, refl, sym, ap, ◌∙◌, inl, inr, ℕ, Bool, true, false, List, [], ◌∷◌, Option, none, some,
  if◌then◌else◌, arith, Bool-cases,
}
use node_ipc.Text.{text_eq_refl}
use node_ipc.Server.{Server, Peer, Origin, update_peer, new_datagram_peer}
use node_ipc.Server.Sockets.{comes_from, find_peer, look_up, peer}

find_peer-eq :
    (peers : ℕ → Peer) (o : Origin) (ks : List ℕ) {k : ℕ}
    → find_peer peers o ks ≡ some k
    → comes_from o (peers k) ≡ true
unfolding find_peer
find_peer-eq peers o [] h = cc
find_peer-eq peers o (i ∷ is) {k} h =
    go (comes_from o (peers i)) refl (λ e. find_peer-eq peers o is e) h
  where
    go :
        (b : Bool)
        → comes_from o (peers i) ≡ b
        → (find_peer peers o is ≡ some k → comes_from o (peers k) ≡ true)
        → (let rest = find_peer peers o is in if b then some i else rest) ≡ some k
        → comes_from o (peers k) ≡ true
    go true e later h' = let same : i ≡ k = cc in ap (λ j. comes_from o (peers j)) (sym same) ∙ e
    go false e later h' = later h'

-- The result is the last peer, and it comes from the origin.
record Settled (o : Origin) (r : Server × ℕ) : Type 0 where
  last : r.0.last_peer ≡ some r.1
  origin : comes_from o (r.0.peers r.1) ≡ true

pub new-comes_from : (o : Origin) (p : Peer) → p.origin ≡ some o → comes_from o p ≡ true
unfolding comes_from
new-comes_from o p h = rw h (ground (arith, text_eq_refl o.address))

look_up-Settled :
    (m : Option ℕ) (o : Origin) (s : Server)
    → ((k : ℕ) → m ≡ some k → comes_from o (s.peers k) ≡ true)
    → Settled o (look_up m o s)
unfolding look_up
look_up-Settled (some k) o s found = record { last = refl; origin = found k refl }
look_up-Settled none o s found = record {
  last = refl;
  origin =
      new-comes_from o (update_peer s.peers s.next_peer (new_datagram_peer o) s.next_peer)
        (ground arith);
}

peer-Settled : (o : Origin) (s : Server) → Settled o (peer o s)
unfolding peer
peer-Settled o s = go s.last_peer refl
  where
    go :
        (l : Option ℕ)
        → s.last_peer ≡ l
        → Settled o (
            let q : Server × ℕ = elim l [
              | none ↦ look_up (find_peer s.peers o s.sockets) o s
              | some k ↦
                  if comes_from o (s.peers k)
                  then (s, k)
                  else look_up (find_peer s.peers o s.sockets) o s
            ] in
            q)
    go none e =
        look_up-Settled (find_peer s.peers o s.sockets) o s
          (λ j e'. find_peer-eq s.peers o s.sockets e')
    go (some k) e = elim (Bool-cases (comes_from o (s.peers k))) [
      | inl h ↦ rw h (record { last = e; origin = h })
      | inr h ↦ rw h (
          look_up-Settled (find_peer s.peers o s.sockets) o s
            (λ j e'. find_peer-eq s.peers o s.sockets e'))
    ]

Settled-peer : (o : Origin) (r : Server × ℕ) → Settled o r → peer o r.0 ≡ r
unfolding peer
Settled-peer o (s, k) h = rw (h.last, h.origin) refl

-- The peer that `peer` returns comes from the origin, and for a second datagram of that origin `peer`
-- returns the same one and changes nothing.
pub peer-peer :
    (o : Origin) (s : Server)
    → (comes_from o ((peer o s).0.peers (peer o s).1) ≡ true) × (peer o (peer o s).0 ≡ peer o s)
peer-peer o s = let h = peer-Settled o s in (h.origin, Settled-peer o (peer o s) h)
