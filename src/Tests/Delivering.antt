-- ===== src/Tests/Delivering.antt =====
-- A client and a server with fast parsers.
use node_ipc.Base.{◌≡◌, refl, ◌++◌, map, arith, [], ◌∷◌}
use node_ipc.Outcome.{returned}
use node_ipc.Config.{defaults}
use node_ipc.Client.{Client, new_client}
use node_ipc.Client.Events.{step, reconnects}
use node_ipc.Json.Plain.{is_plain}
use node_ipc.Parser.{payload, encode_fast}
use node_ipc.Server.{Server, new_server}
use node_ipc.Server.Sockets.{add_socket, member}
use node_ipc.Server.Listing.{one_more, nothing_listed}
use node_ipc.Delivery.{emit_all, outgoing, receive_all, broadcast_all, outgoing_by, catch_all}
use node_ipc.Delivery.Spreading.{IsStreaming}
use node_ipc.Delivery.Broadcasting.{passed_on, broadcast_all-catch_all}
use node_ipc.Delivery.Telling.{delivered, emit_all-receive_all}
use node_ipc.Tests.Streams.{two_events, two_chunks}
use node_ipc.Tests.Retrying.{start, then_step}
use node_ipc.Tests.Serving.{plain_server}

abbrev calling : Client
calling = then_step reconnects start

abbrev listening : Server
listening = add_socket plain_server

emit_all-receive_all_example :
    ((emit_all two_events calling).1 ≡ returned tt)
    × ((receive_all 0 two_chunks listening).1 ≡ returned tt)
    × ((receive_all 0 two_chunks listening).0.effects
        ≡ listening.effects ++ map (delivered 0) two_events)
    × (((receive_all 0 two_chunks listening).0.peers 0).buffer ≡ [])
unfolding is_plain payload step new_client outgoing new_server add_socket emit_all encode_fast
    defaults
emit_all-receive_all_example =
    emit_all-receive_all 0 0 12 [] two_events two_chunks calling listening (omega arith)
      (
        record { type_plain = refl; content_plain = refl },
        (record { type_plain = refl; content_plain = refl }, tt),
      )
      ((_, refl), ((_, refl), tt)) refl refl refl refl refl refl (λ es. refl) refl

-- A server with two sockets.
abbrev spreading : Server
spreading = add_socket listening

spreading-IsStreaming : IsStreaming (12 ∷ []) spreading
unfolding new_server add_socket member
spreading-IsStreaming = record {
  parser = refl;
  streams = refl;
  distinct = one_more refl (one_more refl nothing_listed);
  listed = λ k m. ground arith;
}

broadcast_all-catch_all_example :
    ((broadcast_all 1 two_events spreading).1 ≡ returned tt)
    × ((catch_all 0 two_chunks calling).1 ≡ returned tt)
    × ((catch_all 0 two_chunks calling).0.effects ≡ calling.effects ++ map passed_on two_events)
    × (((catch_all 0 two_chunks calling).0.sockets 0).buffer ≡ [])
unfolding is_plain payload step new_client outgoing_by new_server add_socket broadcast_all
    encode_fast defaults member
broadcast_all-catch_all_example =
    broadcast_all-catch_all 1 1 0 12 [] two_events two_chunks spreading calling (omega arith)
      (
        record { type_plain = refl; content_plain = refl },
        (record { type_plain = refl; content_plain = refl }, tt),
      )
      ((_, refl), ((_, refl), tt)) spreading-IsStreaming refl refl refl refl refl (λ es. refl) refl
