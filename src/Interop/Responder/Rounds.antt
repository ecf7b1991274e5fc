-- ===== src/Interop/Responder/Rounds.antt =====
-- `runClient` of rust/node-ipc/interop/node-peer.js with `runServer` at the other end: what its phases send
-- is what the server waits for.
use node_ipc.Base.{
  ◌≡◌, ◌≢◌, refl, ℕ, zero, suc, ◌+◌, ◌*◌, ◌≤◌, Bool, true, false, List, [], ◌++◌, Option, none,
  some, ltb, ==_refl, ◌∙◌, ap, if◌then◌else◌, arith,
}
use node_ipc.Text.{Text}
use node_ipc.Interop.{PeerOptions, repeat_x, max_safe_integer}
use node_ipc.Interop.Ranges.{IsUsable}
use node_ipc.Interop.Decimal.{decimal}
use node_ipc.Interop.Window.{Phase, start_phase}
use node_ipc.Interop.Window.Order.{up_to}
use node_ipc.Interop.Window.Completion.{drive, start_phase-Finished}
use node_ipc.Interop.Responder.{
  expected_frames, resolved, Session, new_session, on_ended, on_socket_ended,
}
use node_ipc.Interop.Responder.Serving.{
  requests_of, serve_requests, both_phases-Serving, ended-resolved, ended-replies,
}

-- What the client calls `runPhase` with.
unfoldable pub client_phase : PeerOptions → ℕ → Bool → Phase
unfolding repeat_x
client_phase o count record_latency = record {
  count = count;
  inflight = o.inflight;
  payload = repeat_x o.payload_bytes;
  record_latency = record_latency;
}

-- The numbers of the requests that a phase has sent when it ends, with the next event always ready.
unfoldable pub phase_numbers : (Text → Option ℕ) → (ℕ → ℕ) → (ℕ → Option Bool) → Phase → List ℕ
unfolding drive start_phase
phase_numbers number_of clock emits p =
    (drive number_of clock emits p (4 * p.count + 2) (start_phase clock emits p)).emitted

-- Those of `runClient`: a phase to warm up, if there is one, and the one that is measured.
unfoldable pub run_client : (Text → Option ℕ) → (ℕ → ℕ) → (ℕ → Option Bool) → PeerOptions → List ℕ
unfolding phase_numbers client_phase
run_client number_of clock emits o =
    (if ltb 0 o.warmup
      then phase_numbers number_of clock emits (client_phase o o.warmup false)
      else [])
    ++ phase_numbers number_of clock emits (client_phase o o.count true)

-- A server that is finishing has its socket ended.
finishing-ended : (s : Session) → s.finishing ≡ true → on_socket_ended s ≡ on_ended s
unfolding on_socket_ended
finishing-ended s h = rw h refl

module _ (number_of : Text → Option ℕ)
    (reads : (n : ℕ) → n ≤ max_safe_integer → number_of (decimal n) ≡ some n) (clock : ℕ → ℕ)
    (emits : ℕ → Option Bool) (writes : (n : ℕ) → emits n ≢ none) (o : PeerOptions)
    (u : IsUsable o) where
  phase_numbers-eq :
      (count : ℕ) (b : Bool)
      → 1 ≤ count
      → count ≤ max_safe_integer
      → phase_numbers number_of clock emits (client_phase o count b) ≡ up_to count
  unfolding phase_numbers client_phase
  phase_numbers-eq count b h safe =
      (start_phase-Finished number_of clock emits (client_phase o count b)
        (λ n l. reads n (omega (arith, l, safe))) writes h u.bounded.some_inflight).all_emitted

  warm_up-eq :
      (n : ℕ)
      → n ≤ max_safe_integer
      → (if ltb 0 n then phase_numbers number_of clock emits (client_phase o n false) else [])
        ≡ up_to n
  unfolding up_to
  warm_up-eq zero safe = refl
  warm_up-eq (suc n) safe = rw (positive, phase_numbers-eq (suc n) false (omega arith) safe) refl
    where
      positive : ltb 0 (suc n) ≡ true
      positive = ground arith

  run_client-eq : run_client number_of clock emits o ≡ up_to o.warmup ++ up_to o.count
  unfolding run_client
  run_client-eq =
      rw
        (
          warm_up-eq o.warmup (omega (arith, u.total)),
          phase_numbers-eq o.count true u.bounded.some_count (omega (arith, u.total)),
        )
        refl

  -- What `runClient` sends is what `runServer` waits for: with options as `parseArguments` returns them, if
  -- no write of the client throws and safe integers are read back, then the server answers each of them, in the
  -- order in which they were sent, is then finishing, so that it ends its socket, and resolves when the socket
  -- has ended, whatever its writes return.
  pub run_client-resolved :
      (writable : ℕ → Bool)
      → ((on_socket_ended (
            serve_requests number_of o writable
              (requests_of o (run_client number_of clock emits o))
              new_session)).result
          ≡ some resolved)
        × ((on_socket_ended (
              serve_requests number_of o writable
                (requests_of o (run_client number_of clock emits o))
                new_session)).replies
            ≡ requests_of o (up_to o.warmup ++ up_to o.count))
  run_client-resolved writable =
      let i = both_phases-Serving number_of o writable reads u in
      let all = finishing-ended _ (i.last ∙ ==_refl (expected_frames o)) in
      rw run_client-eq (
        ap (λ s. s.result) all ∙ ended-resolved number_of o writable i,
        ap (λ s. s.replies) all ∙ ended-replies number_of o writable i,
      )
