-- ===== src/Server/Listing/Removing.antt =====
-- The list of sockets when a socket is removed, and when the server stops.
use node_ipc.Base.{
  ◌≡◌, refl, ◌∙◌, ℕ, Bool, true, false, not, ◌||◌, [], Option, none, some, ◌==◌, if◌then◌else◌,
  arith,
}
use node_ipc.Client.{value}
use node_ipc.Server.{Server, stops_listening, emit_effect, publish}
use node_ipc.Server.Receiving.{clear_peer_timer, destroy_peer}
use node_ipc.Server.Sockets.{
  member, remove_first, forget_last, id_or_false, remove_socket, on_close, drop_all, stop,
}
use node_ipc.Server.Steady.{
  Stays-refl, Stays-emit_effect, Stays-clear_peer_timer, Stays-destroy_peer,
}
use node_ipc.Server.Listing.{nothing_listed, member-remove_first, remove_first-IsDistinct}
use node_ipc.Server.Listing.Kept.{IsListed, Stays-IsListed}

-- The state behind `splice` and the reset of `lastPeer`.
abbrev unlist : ℕ → Server → Server
unlist k s = record s { sockets = remove_first k s.sockets; last_peer = forget_last k s.last_peer }

forget_last-some :
    (k i : ℕ) (l : Option ℕ) → forget_last k l ≡ some i → (l ≡ some i) × ((k == i) ≡ false)
unfolding forget_last
forget_last-some k i none e = cc
forget_last-some k i (some j) e = go (j == k) refl e
  where
    go :
        (b : Bool)
        → (j == k) ≡ b
        → (if b then none else some j) ≡ some i
        → (some j ≡ some i) × ((k == i) ≡ false)
    go true q e' = cc
    go false q e' = (e', let same : j ≡ i = cc in ground (arith, q, same))

unlist-IsListed : {s : Server} (k : ℕ) → IsListed s → IsListed (unlist k s)
unlist-IsListed {s} k h =
    let was : (i : ℕ) → member i (remove_first k s.sockets) ≡ true → member i s.sockets ≡ true =
      λ i e. ground (arith, e, member-remove_first i k h.distinct) in
    record {
      distinct = remove_first-IsDistinct k h.distinct;
      made = λ i e. h.made i (was i e);
      last = λ i e.
          let f = forget_last-some k i s.last_peer e in
          member-remove_first i k h.distinct ∙ ground (arith, f.1, h.last i f.0);
      once = λ i j o m n. h.once i j o (was i m) (was j n);
    }

remove_socket-IsListed : {s : Server} (k : ℕ) → IsListed s → IsListed (remove_socket k s)
unfolding remove_socket
remove_socket-IsListed {s} k h =
    go (not (member k s.sockets) || (s.peers k).readable) (s.peers k).is_destroyed
  where
    gone : Server
    gone = unlist k s

    go :
        (x y : Bool)
        → IsListed (
            if x
            then s
            else publish "socket.disconnected"
                (value (id_or_false (s.peers k).id))
                (some k)
                (clear_peer_timer k (if y then gone else destroy_peer k gone)))
    go true y = h
    go false true =
        Stays-IsListed (Stays-emit_effect (Stays-clear_peer_timer (Stays-refl gone) k) _)
          (unlist-IsListed k h)
    go false false =
        Stays-IsListed
          (Stays-emit_effect (Stays-clear_peer_timer (Stays-destroy_peer k (Stays-refl gone)) k) _)
          (unlist-IsListed k h)

pub on_close-IsListed : {s : Server} (k : ℕ) → IsListed s → IsListed (on_close k s)
unfolding on_close
on_close-IsListed {s} k h =
    Stays-IsListed (Stays-emit_effect (Stays-refl (remove_socket k s)) _)
      (remove_socket-IsListed k h)

pub stop-IsListed : {s : Server} → IsListed s → IsListed (stop s)
unfolding stop member
stop-IsListed {s} h = go (drop_all s.sockets s).listening
  where
    emptied : Server
    emptied = record (drop_all s.sockets s) { sockets = []; last_peer = none }

    unlisted : IsListed emptied
    unlisted = record {
      distinct = nothing_listed;
      made = λ k e. cc;
      last = λ k e. cc;
      once = λ i j o e. cc;
    }

    go : (b : Bool) → IsListed (if b then emit_effect stops_listening emptied else emptied)
    go true = Stays-IsListed (Stays-emit_effect (Stays-refl emptied) _) unlisted
    go false = unlisted
