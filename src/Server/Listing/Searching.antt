-- ===== src/Server/Listing/Searching.antt =====
-- The list of sockets when a datagram arrives.
use node_ipc.Base.{
  ◌≡◌, refl, sym, ap, ◌∙◌, inl, inr, ℕ, Bool, true, false, ◌||◌, List, [], ◌∷◌, ◌++◌, Option, none,
  some, ◌==◌, if◌then◌else◌, arith, Bool-cases,
}
use node_ipc.Server.{Server, Peer, Origin, new_datagram_peer}
use node_ipc.Server.Sockets.{comes_from, find_peer, look_up, peer, member}
use node_ipc.Server.Peers.{new-comes_from}
use node_ipc.Server.Listing.{member-append}
use node_ipc.Server.Listing.Kept.{IsListed, enlist-IsListed}

find_peer-member :
    (peers : ℕ → Peer) (o : Origin) (ks : List ℕ) {k : ℕ}
    → find_peer peers o ks ≡ some k
    → member k ks ≡ true
unfolding find_peer member
find_peer-member peers o [] h = cc
find_peer-member peers o (i ∷ is) {k} h =
    go (comes_from o (peers i)) (λ e. find_peer-member peers o is e) h
  where
    go :
        (b : Bool)
        → (find_peer peers o is ≡ some k → member k is ≡ true)
        → (let rest = find_peer peers o is in if b then some i else rest) ≡ some k
        → (i == k || member k is) ≡ true
    go true later h' = let same : i ≡ k = cc in ground (arith, same)
    go false later h' = ground (arith, later h')

find_peer-none :
    (peers : ℕ → Peer) (o : Origin) (ks : List ℕ) (j : ℕ)
    → find_peer peers o ks ≡ none
    → member j ks ≡ true
    → comes_from o (peers j) ≡ false
unfolding find_peer member
find_peer-none peers o [] j h m = cc
find_peer-none peers o (i ∷ is) j h m =
    go (comes_from o (peers i)) refl (λ e n. find_peer-none peers o is j e n) h
  where
    go :
        (b : Bool)
        → comes_from o (peers i) ≡ b
        → (find_peer peers o is ≡ none → member j is ≡ true → comes_from o (peers j) ≡ false)
        → (let rest = find_peer peers o is in if b then some i else rest) ≡ none
        → comes_from o (peers j) ≡ false
    go true e later h' = cc
    go false e later h' = elim (Bool-cases (i == j)) [
      | inl q ↦
          let same : i ≡ j = ground (arith, q) in ap (λ k. comes_from o (peers k)) (sym same) ∙ e
      | inr q ↦ later h' (ground (arith, q, m))
    ]

-- What `peer` gives is listed, too.
pub record IsFound (r : Server × ℕ) : Type 0 where
  pub listed : IsListed r.0
  pub found : member r.1 r.0.sockets ≡ true

look_up-IsFound :
    {s : Server} (m : Option ℕ) (o : Origin)
    → find_peer s.peers o s.sockets ≡ m
    → IsListed s
    → IsFound (look_up m o s)
unfolding look_up
look_up-IsFound {s} (some k) o e h =
    let m = find_peer-member s.peers o s.sockets e in
    record {
      listed = record {
        distinct = h.distinct;
        made = h.made;
        last = λ i q. let same : k ≡ i = cc in ap (λ j. member j s.sockets) (sym same) ∙ m;
        once = h.once;
      };
      found = m;
    }
look_up-IsFound {s} none o e h =
    let pushed : member s.next_peer (s.sockets ++ s.next_peer ∷ []) ≡ true =
      member-append s.next_peer s.next_peer s.sockets ∙ ground arith in
    record {
      listed =
          enlist-IsListed (new_datagram_peer o) (some s.next_peer) h
            (λ k q.
              let same : s.next_peer ≡ k = cc in
              ap (λ j. member j (s.sockets ++ s.next_peer ∷ [])) (sym same) ∙ pushed)
            (λ j o' q m f.
              let same : some o ≡ some o' = q in
              cc (
                find_peer-none s.peers o s.sockets j e m,
                new-comes_from o (s.peers j) (f ∙ sym same),
              ));
      found = pushed;
    }

pub peer-IsFound : {s : Server} (o : Origin) → IsListed s → IsFound (peer o s)
unfolding peer
peer-IsFound {s} o h = go s.last_peer refl
  where
    searched : IsFound (look_up (find_peer s.peers o s.sockets) o s)
    searched = look_up-IsFound (find_peer s.peers o s.sockets) o refl h

    go :
        (l : Option ℕ)
        → s.last_peer ≡ l
        → IsFound (
            let q : Server × ℕ = elim l [
              | none ↦ look_up (find_peer s.peers o s.sockets) o s
              | some k ↦
                  if comes_from o (s.peers k)
                  then (s, k)
                  else look_up (find_peer s.peers o s.sockets) o s
            ] in
            q)
    go none e = searched
    go (some k) e = last (comes_from o (s.peers k))
      where
        last :
            (b : Bool)
            → IsFound (
                let q : Server × ℕ =
                  if b then (s, k) else look_up (find_peer s.peers o s.sockets) o s in
                q)
        last true = record { listed = h; found = h.last k e }
        last false = searched
