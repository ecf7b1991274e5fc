-- ===== src/Client/Retry.antt =====
-- The retry timer: at most one is set, it belongs to the current socket, which is closed, and there
-- is budget left for it.
pub mod Closing
pub mod Steps
use mathlib.Core.Bool.{true≢false}
use node_ipc.Base.{
  ◌≡◌, refl, sym, ap, subst, ◌∙◌, ◌⊎◌, inl, inr, ℕ, suc, ◌+◌, ◌-◌, ◌≤◌, Bool, true, false, not,
  ◌&&◌, ◌||◌, List, [], ◌∷◌, ◌++◌, Option, none, some, ltb, ◌==◌, if◌then◌else◌, arith, Bool-cases,
}
use node_ipc.Text.{Text}
use node_ipc.Outcome.{Thrown, protocol, assured_transport, Outcome, returned, threw, Run, and_then}
use node_ipc.Config.{Config, Retries, unlimited, limited, not_a_number, TlsOptions}
use node_ipc.Parser.{Parser}
use node_ipc.Tls.{create_client_tls_options}
use Prim.Native.String.{String}
use node_ipc.Client.{
  Client, Payload, Socket, Pending, fresh_socket, update, emit_effect, publish, nothing, used_up,
  decrement, new_client, is_assured,
}
use node_ipc.Client.Sending.{write_socket, emit}
use node_ipc.Client.Receiving.{clear_message_timer, destroy, set_socket}
use node_ipc.Client.Connection.{
  remove_timer, clear_retry, connection_options, secure, open_socket, open_secure, open_connection,
  live_socket, connect, is_current, connected, gives_up, set_retry, closed, retry, destroy_current,
  drop_client,
}
use node_ipc.Client.Events.{
  Event, connects, arrives, errors, drains, closes, retry_fires, message_fires, runs_job, emits,
  reconnects, drops, Enabled, is_pending, mark_closed, forget_timer, step,
}
use node_ipc.Client.Steady.{
  Same, Same-refl, Same-clear_message_timer, Same-destroy, Same-on_data, Same-on_error,
  Same-mark_drained, Same-message_timer_fired,
}
use node_ipc.Client.Steady.Sending.{Same-write_socket, Same-emit}

-- A retry that is set: its timer is the one that the client knows of and the only one, its socket is
-- the current one and has closed, and the budget is not used up.
pub record Scheduled (c : Client) : Type 0 where
  pub timer : ℕ
  pub id : ℕ
  pub known : c.retry_timer ≡ some timer
  pub only : c.pending ≡ record { timer = timer; for_socket = id } ∷ []
  pub current : c.socket ≡ some id
  pub gone : (c.sockets id).closed ≡ true
  pub budget : used_up c.retries_remaining ≡ false

pub record Idle (c : Client) : Type 0 where
  pub known : c.retry_timer ≡ none
  pub none_set : c.pending ≡ []

pub data Inv (c : Client) : Type 0 where
  idle : Idle c → Inv c
  scheduled : Scheduled c → Inv c

pub Inv-Same : {c c' : Client} → Same c c' → Inv c → Inv c'
Inv-Same s (idle i) = idle (record { known = s.timer ∙ i.known; none_set = s.pending ∙ i.none_set })
Inv-Same s (scheduled r) = scheduled (record {
  timer = r.timer;
  id = r.id;
  known = s.timer ∙ r.known;
  only = s.pending ∙ r.only;
  current = s.current ∙ r.current;
  gone = s.closed r.id ∙ r.gone;
  budget = ap used_up s.left ∙ r.budget;
})

pub remove_timer_self :
    (t id : ℕ) → remove_timer t (record { timer = t; for_socket = id } ∷ []) ≡ []
unfolding remove_timer
remove_timer_self t id = ground arith

-- Clearing the retry timer leaves none.
pub clear_retry-Idle : {c : Client} → Inv c → Idle (clear_retry c)
unfolding clear_retry
clear_retry-Idle (idle i) = rw (i.known, clear_retry) i
clear_retry-Idle (scheduled r) =
    rw (r.known, clear_retry)
      (record {
        known = refl;
        none_set = ap (remove_timer r.timer) r.only ∙ remove_timer_self r.timer r.id;
      })

module _ (windows : Bool) (read_file : Text → Outcome (List ℕ)) where
  open_socket-Idle :
      {c : Client} (o : Option TlsOptions) → Idle c → Idle (open_socket windows read_file o c)
  unfolding open_socket
  open_socket-Idle o i = record { known = i.known; none_set = i.none_set }

  open_connection-Idle : (c : Client) → Idle c → Idle (open_connection windows read_file c).0
  unfolding open_connection
  open_connection-Idle c i =
      go (not (c.port == 0) && is_assured c.parser && not (secure windows read_file c))
        (secure windows read_file c)
        (create_client_tls_options read_file c.config.tls (is_assured c.parser))
    where
      go :
          (refused tls : Bool) (o : Outcome TlsOptions)
          → Idle
              (if refused
                then (let q : Client × Outcome (Option ℕ) =
                      (c, threw (protocol assured_transport)) in
                    q)
                else if tls
                then open_secure windows read_file c o
                else (open_socket windows read_file none c, returned (some c.next_socket))).0
      go true tls o = i
      go false true (returned o) = unfold open_secure in open_socket-Idle (some o) i
      go false true (threw e) = unfold open_secure in i
      go false false o = open_socket-Idle none i

  -- `connect` leaves no retry set, unless it returns early and leaves the client as it is.
  pub connect-Inv : (c : Client) → Inv c → Inv (connect windows read_file c).0
  unfolding connect
  connect-Inv c v = go c.path (live_socket windows read_file c)
    where
      go :
          (p : Text) (live : Option ℕ)
          → Inv
              (let q : Client × Outcome (Option ℕ) = elim p [
                | [] ↦ (c, returned none)
                | u ∷ path ↦ elim live [
                  | some id ↦ (c, returned (some id))
                  | none ↦ open_connection windows read_file (clear_retry c)
                ]
              ] in
                q).0
      go [] live = v
      go (u ∷ path) (some id) = v
      go (u ∷ path) none = idle (open_connection-Idle (clear_retry c) (clear_retry-Idle v))
