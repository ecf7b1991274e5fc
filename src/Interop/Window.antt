-- ===== src/Interop/Window.antt =====
-- `runPhase` of rust/node-ipc/interop/node-peer.js: a window of requests that are under way. `clock` is the
-- sequence of the times that `process.hrtime.bigint()` returns, and `emits` what the `emit` of each request
-- returns, or none if it throws.
pub mod Order
pub mod Filling
pub mod Progress
pub mod Completion
use node_ipc.Base.{
  ◌≡◌, refl, ℕ, zero, suc, ◌+◌, ◌-◌, ◌%◌, Bool, true, false, not, ◌&&◌, ◌||◌, List, [], ◌∷◌, ◌++◌,
  Option, none, some, ltb, ◌==◌, if◌then◌else◌,
}
use node_ipc.Text.{Text}
use node_ipc.Json.{Value}
use node_ipc.Interop.Payload.{Complaint, validate_payload, data_sequence}

pub data PhaseError : Type 0 where
  complains : Complaint → PhaseError
  slot_reused : ℕ → PhaseError
  unexpected_response : ℕ → PhaseError
  emit_threw went_away reported : PhaseError

pub data PhaseEnd : Type 0 where
  finished : PhaseEnd
  failed : PhaseError → PhaseEnd

-- A slot is free (-1), or has the request that uses it.
pub record Window : Type 0 where
  pub sent : ℕ
  pub received : ℕ
  pub slots : ℕ → Option ℕ
  pub slot_times : ℕ → ℕ
  pub latencies : List ℕ
  pub ticks : ℕ
  pub waiting_for_drain : Bool
  pub settled : Option PhaseEnd
  pub emitted : List ℕ

-- What a phase is called with.
pub record Phase : Type 0 where
  pub count : ℕ
  pub inflight : ℕ
  pub payload : Text
  pub record_latency : Bool

-- `slotSequences.length`
unfoldable pub slot_count : Phase → ℕ
slot_count p = if ltb p.count p.inflight then p.count else p.inflight

-- `startedAt` is the first time that is read.
abbrev pub new_window : Window
new_window = record {
  sent = 0;
  received = 0;
  slots = λ _. none;
  slot_times = λ _. 0;
  latencies = [];
  ticks = 1;
  waiting_for_drain = false;
  settled = none;
  emitted = [];
}

abbrev pub set_at {ℓ} : {A : Type ℓ} → (ℕ → A) → ℕ → A → ℕ → A
set_at f k a i = if i == k then a else f i

-- `finish` and `fail`
unfoldable pub settle : PhaseEnd → Window → Window
settle e w = elim w.settled [ some x ↦ w | none ↦ record w { settled = some e } ]

unfoldable pub is_settled : Window → Bool
is_settled w = elim w.settled [ some x ↦ true | none ↦ false ]

module _ (clock : ℕ → ℕ) (emits : ℕ → Option Bool) (p : Phase) where
  -- A round of the loop takes a slot for the next request.
  unfoldable pub take_slot : Window → Window
  unfolding slot_count
  take_slot w =
      let i = w.sent % slot_count p in
      record w {
        sent = suc w.sent;
        slots = set_at w.slots i (some w.sent);
        slot_times = set_at w.slot_times i (clock w.ticks);
        ticks = suc w.ticks;
      }

  unfoldable pub may_send : Window → Bool
  unfolding slot_count
  may_send w = ltb w.sent p.count && ltb (w.sent - w.received) (slot_count p)

  -- The loop of `fillWindow`: `count` rounds are enough, since each sends a request. An error fails the
  -- phase.
  unfoldable pub fill_loop : ℕ → Window → Window
  unfolding may_send take_slot slot_count settle
  fill_loop zero w = w
  fill_loop (suc fuel) w =
      let again = fill_loop fuel in
      if not (may_send w) then w else elim (w.slots (w.sent % slot_count p)) [
        | some q ↦
            settle (failed (slot_reused (w.sent % slot_count p))) (record w { sent = suc w.sent })
        | none ↦ elim (emits w.sent) [
          | none ↦ settle (failed emit_threw) (take_slot w)
          | some true ↦ again (record (take_slot w) { emitted = w.emitted ++ w.sent ∷ [] })
          | some false ↦ record (take_slot w) {
            emitted = w.emitted ++ w.sent ∷ [];
            waiting_for_drain = true;
          }
        ]
      ]

  -- `fillWindow`
  unfoldable pub fill_window : Window → Window
  unfolding is_settled fill_loop
  fill_window w = if is_settled w || w.waiting_for_drain then w else fill_loop p.count w

  -- `onDrain`
  unfoldable pub on_drain : Window → Window
  unfolding fill_window
  on_drain w = fill_window (record w { waiting_for_drain = false })

  -- The part of `onResponse` that frees the slot of a request.
  unfoldable pub free_slot : ℕ → Window → Window
  unfolding slot_count
  free_slot q w =
      let i = q % slot_count p in
      let freed = record w { slots = set_at w.slots i none; received = suc w.received } in
      if p.record_latency
      then record freed {
        latencies = w.latencies ++ (clock w.ticks - w.slot_times i) ∷ [];
        ticks = suc w.ticks;
      }
      else freed

  unfoldable pub is_outstanding : ℕ → Window → Bool
  unfolding slot_count
  is_outstanding q w = elim (w.slots (q % slot_count p)) [ none ↦ false | some r ↦ r == q ]

  unfoldable pub after_response : Window → Window
  unfolding settle fill_window
  after_response w = if w.received == p.count then settle finished w else fill_window w

  -- A response to a request, with a payload that has passed.
  unfoldable pub on_sequence : ℕ → Window → Window
  unfolding is_outstanding settle after_response free_slot
  on_sequence q w =
      if not (is_outstanding q w)
      then settle (failed (unexpected_response q)) w
      else after_response (free_slot q w)

  unfoldable pub checked_response : Option Complaint → Option ℕ → Window → Window
  unfolding settle on_sequence
  checked_response (some e) q w = settle (failed (complains e)) w
  checked_response none none w = w
  checked_response none (some q) w = on_sequence q w

  -- `onResponse`; behind the end of the phase it is subscribed no more.
  unfoldable pub on_response : (Text → Option ℕ) → Value → Window → Window
  unfolding is_settled checked_response validate_payload data_sequence
  on_response number_of data' w =
      if is_settled w
      then w
      else checked_response (validate_payload number_of data' none p.payload)
          (data_sequence number_of data') w

  -- `onDisconnect`, and `fail` as the handler of `error`
  unfoldable pub on_gone : PhaseError → Window → Window
  unfolding settle
  on_gone e w = settle (failed e) w

  -- What `runPhase` does at once.
  unfoldable pub start_phase : Window
  unfolding fill_window
  start_phase = fill_window new_window
