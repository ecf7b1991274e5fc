-- ===== src/Server/Listing/Kept.antt =====
-- The list of sockets of a server, through its whole life.
use node_ipc.Base.{
  ◌≡◌, sym, ap, ◌∙◌, subst, ◌⊎◌, inl, inr, ℕ, suc, ◌<◌, true, false, List, [], ◌∷◌, ◌++◌, Option,
  some, ◌==◌, arith, Bool-cases,
}
use node_ipc.Server.{Server, Peer, Origin, new_stream, update_peer, set_peer}
use node_ipc.Server.Sockets.{add_socket, member}
use node_ipc.Server.Steady.{Stays, Stays-refl, Stays-emit_effect}
use node_ipc.Server.Listing.{IsDistinct, member-append, append-IsDistinct}

-- Each socket is listed once and was made before; the last peer is listed; an origin has one peer.
pub record IsListed (s : Server) : Type 0 where
  pub distinct : IsDistinct s.sockets
  pub made : (k : ℕ) → member k s.sockets ≡ true → k < s.next_peer
  pub last : (k : ℕ) → s.last_peer ≡ some k → member k s.sockets ≡ true
  pub once :
      (i j : ℕ) (o : Origin)
      → member i s.sockets ≡ true
      → member j s.sockets ≡ true
      → (s.peers i).origin ≡ some o
      → (s.peers j).origin ≡ some o
      → i ≡ j

pub Stays-IsListed : {s s' : Server} → Stays s s' → IsListed s → IsListed s'
Stays-IsListed {s} {s'} t h =
    let back = λ (k : ℕ) (e : member k s'.sockets ≡ true). sym (ap (member k) t.sockets) ∙ e in
    record {
      distinct = subst IsDistinct (sym t.sockets) h.distinct;
      made = λ k e. omega (arith, t.made, h.made k (back k e));
      last = λ k e. ap (member k) t.sockets ∙ h.last k (sym t.last ∙ e);
      once = λ i j o m n e f.
          h.once i j o (back i m) (back j n) (sym (t.origin i) ∙ e) (sym (t.origin j) ∙ f);
    }

fresh : {s : Server} → IsListed s → member s.next_peer s.sockets ≡ false
fresh {s} h = elim (Bool-cases (member s.next_peer s.sockets)) [
  | inl e ↦ absurd (omega (arith, h.made s.next_peer e))
  | inr e ↦ e
]

-- A socket of a list that has got one more is the new one or an old one.
joined :
    (f : ℕ → Peer) (n : ℕ) (p : Peer) (ks : List ℕ) (i : ℕ)
    → member i (ks ++ n ∷ []) ≡ true
    → ((i ≡ n) × ((update_peer f n p i).origin ≡ p.origin))
      ⊎ ((member i ks ≡ true) × ((update_peer f n p i).origin ≡ (f i).origin))
joined f n p ks i m = elim (Bool-cases (i == n)) [
  | inl e ↦ inl (ground (arith, e), ground (arith, e))
  | inr e ↦ inr (ground (arith, e, m, member-append i n ks), ground (arith, e))
]

-- The state behind `this.sockets.push`.
abbrev pub enlist : Peer → Option ℕ → Server → Server
enlist p l s = set_peer s.next_peer p (record s {
  sockets = s.sockets ++ s.next_peer ∷ [];
  last_peer = l;
  next_peer = suc s.next_peer;
})

pub enlist-IsListed :
    {s : Server} (p : Peer) (l : Option ℕ)
    → IsListed s
    → ((k : ℕ) → l ≡ some k → member k (s.sockets ++ s.next_peer ∷ []) ≡ true)
    → ((j : ℕ) (o : Origin)
        → p.origin ≡ some o
        → member j s.sockets ≡ true
        → (s.peers j).origin ≡ some o
        → ⊥)
    → IsListed (enlist p l s)
enlist-IsListed {s} p l h in_list new = record {
  distinct = append-IsDistinct s.next_peer (fresh h) h.distinct;
  made = λ k e. elim (joined s.peers s.next_peer p s.sockets k e) [
    | inl c ↦ omega (arith, c.0)
    | inr c ↦ omega (arith, h.made k c.0)
  ];
  last = in_list;
  once = λ i j o m n e f. elim (joined s.peers s.next_peer p s.sockets i m) [
    | inl c ↦ elim (joined s.peers s.next_peer p s.sockets j n) [
      | inl d ↦ c.0 ∙ sym d.0
      | inr d ↦ absurd (new j o (sym c.1 ∙ e) d.0 (sym d.1 ∙ f))
    ]
    | inr c ↦ elim (joined s.peers s.next_peer p s.sockets j n) [
      | inl d ↦ absurd (new i o (sym d.1 ∙ f) c.0 (sym c.1 ∙ e))
      | inr d ↦ h.once i j o c.0 d.0 (sym c.1 ∙ e) (sym d.1 ∙ f)
    ]
  ];
}

pub add_socket-IsListed : {s : Server} → IsListed s → IsListed (add_socket s)
unfolding add_socket
add_socket-IsListed {s} h =
    let pushed =
      enlist-IsListed new_stream s.last_peer h
        (λ k e. member-append k s.next_peer s.sockets ∙ ground (arith, h.last k e))
        (λ j o e. absurd cc) in
    Stays-IsListed (Stays-emit_effect (Stays-refl (enlist new_stream s.last_peer s)) _) pushed
