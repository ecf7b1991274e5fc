-- ===== src/Tests/Retrying.antt =====
-- A client that connects, loses its socket, and tries again.
use node_ipc.Base.{◌≡◌, ◌++◌, ◌≤◌, refl, ℕ, true, false, List, [], ◌∷◌}
use node_ipc.Text.{Text, text}
use node_ipc.Outcome.{ProtocolCode, invalid_json, protocol, foreign, Outcome, threw, type_error}
use node_ipc.Config.{defaults, whole}
use node_ipc.Parser.{Parser, Wire, packet, fast, guarded}
use node_ipc.Client.{Client, new_client, max_pending}
use node_ipc.Client.Backlog.{new_client-IsBounded}
use node_ipc.Framing.{push}
use node_ipc.Parser.Reading.{read}
use node_ipc.Parser.Contained.Reads.{is_guarded, LeavesBy}
use node_ipc.Client.Contained.{IsFailed, on_data-LeavesBy, receive_framed-null}
use node_ipc.Client.Receiving.{dispatch, receive_framed}
use node_ipc.Client.Events.{
  on_data, Event, connects, closes, retry_fires, runs_job, reconnects, subscribes, step, begin,
  next, is_pending,
}
use node_ipc.Client.Retry.{Inv}
use node_ipc.Client.Retry.Steps.{History-Inv, new_client-Inv}
use node_ipc.Client.Connection.{is_current, drop_client}
use node_ipc.Client.Dropped.{Quiet, is_reconnect, stay, more, drop_client-Quiet}
use node_ipc.Tests.Streams.{host, small}

abbrev pub no_files : Text → Outcome (List ℕ)
no_files path = threw type_error

abbrev pub start : Client
start = new_client (defaults host) (fast (12 ∷ [])) (text "/tmp/app.world") 0

abbrev pub then_step : Event → Client → Client
then_step e c = (step false no_files e c).0

abbrev waiting : Client
waiting = then_step (closes 0) (then_step (connects 0) (then_step reconnects start))

History-Inv_example : Inv (then_step (retry_fires (record { timer = 0; for_socket = 0 })) waiting)
unfolding new_client step is_pending defaults
History-Inv_example =
    History-Inv false no_files
      (new_client-Inv (defaults host) (fast (12 ∷ [])) (text "/tmp/app.world") 0)
      (next (retry_fires (record { timer = 0; for_socket = 0 }))
        (next (closes 0) (next (connects 0) (next reconnects begin tt) refl) refl) refl)

-- A client is dropped while it is connecting, and its socket closes.
drop_client-Quiet_example :
    Quiet
      (then_step reconnects start)
      (then_step (closes 0) (drop_client true (then_step reconnects start)))
unfolding new_client step is_reconnect drop_client defaults
drop_client-Quiet_example =
    drop_client-Quiet false no_files true (then_step reconnects start)
      (more (closes 0) stay refl refl)

-- A client that may have four bytes pending; the second message would be too much.
abbrev pub tight : Parser
tight = guarded (12 ∷ []) (record small { max_pending_bytes = whole 4 })

abbrev careful : Client
careful = new_client (defaults host) tight (text "/tmp/app.world") 0

abbrev three_bytes : Wire
three_bytes = packet (1 ∷ 2 ∷ 3 ∷ [])

new_client-IsBounded_example :
    ((then_step
        (runs_job three_bytes)
        (then_step (runs_job three_bytes) (then_step reconnects careful))).sockets
      0).writable_length
    ≤ 4
unfolding max_pending
new_client-IsBounded_example =
    new_client-IsBounded false no_files (defaults host) tight (text "/tmp/app.world") 0 refl
      (next (runs_job three_bytes) (next (runs_job three_bytes) (next reconnects begin tt) tt) tt) 0

-- A client whose subscribers throw, and bytes that are no message.
abbrev throwing : Client
throwing = then_step (subscribes (λ es. threw (foreign 7))) (then_step reconnects careful)

abbrev no_message : Text
no_message = text "{]" ++ 12 ∷ []

on_data-LeavesBy_example :
    LeavesBy throwing.subscribers (on_data 0 no_message throwing).1
    × ((code : ProtocolCode)
        → is_current 0 throwing ≡ true
        → (read throwing.parser dispatch (throwing.sockets 0).buffer no_message throwing).1
          ≡ threw (protocol code)
        → IsFailed 0 code
            (read throwing.parser dispatch (throwing.sockets 0).buffer no_message throwing).0
            (on_data 0 no_message throwing).0)
unfolding step new_client
on_data-LeavesBy_example = on_data-LeavesBy 0 no_message throwing (is_guarded (12 ∷ []) _)

-- The parser refuses them.
refused_example :
    (read throwing.parser dispatch (throwing.sockets 0).buffer no_message throwing).1
    ≡ threw (protocol invalid_json)
unfolding step new_client read node_ipc.Framing.read node_ipc.Parser.Reading.decode_guarded
    node_ipc.Text.byte_length node_ipc.Json.Parse.parse
refused_example = refl

receive_framed-null_example : (receive_framed 0 (text "null" ++ 12 ∷ []) start).1 ≡ threw type_error
unfolding push new_client
receive_framed-null_example =
    receive_framed-null 0 (text "null" ++ 12 ∷ []) start {rest = []} refl refl
