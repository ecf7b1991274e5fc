-- ===== src/Framing.antt =====
-- The loops of entities/EventParser.js that cut a stream into frames: those of `Parser.read` and
-- `Parser.push`, over the indices that the source keeps. Each round takes a delimiter off, so one
-- more round than the text has units is enough fuel (Framing/Split).
pub mod Split
pub mod Chunks
use mathlib.Core.Option
use node_ipc.Base.{
  ℕ, zero, suc, ◌+◌, Bool, true, false, List, [], ◌∷◌, ◌++◌, Option, none, some, ◌==◌,
  if◌then◌else◌, drop, length,
}
use node_ipc.Text.{Text, find, index_of, slice}
use node_ipc.Outcome.{Outcome, returned, threw, Run, and_then}

module _ (delimiter combined : Text) where
  -- The events found from `start` on, behind those found before, and the last `start`.
  push_loop : ℕ → ℕ → Option ℕ → List Text → List Text × ℕ
  push_loop zero start end events = (events, start)
  push_loop (suc fuel) start none events = (events, start)
  push_loop (suc fuel) start (some end) events =
      push_loop fuel (end + length delimiter) (index_of delimiter combined (end + length delimiter))
        (events ++ slice combined start end ∷ [])

  -- The same loop with `receive(this.decode(…))` done on each frame as it is found.
  read_loop {ℓ} : {S : Type ℓ} → (Text → Run S (Unit {0})) → ℕ → ℕ → Option ℕ → Run S ℕ
  read_loop on_frame zero start end s = (s, returned start)
  read_loop on_frame (suc fuel) start none s = (s, returned start)
  read_loop on_frame (suc fuel) start (some end) s =
      and_then (on_frame (slice combined start end) s) (λ _.
        read_loop on_frame fuel (end + length delimiter)
          (index_of delimiter combined (end + length delimiter)))

  remainder_from : ℕ → Text
  remainder_from start = if start == 0 then combined else drop start combined

pub record Pushed : Type 0 where
  pub events : List Text
  pub remainder : Text

-- `Parser.push`
unfoldable pub push : Text → Text → Text → Pushed
unfolding push_loop remainder_from find
push delimiter buffer chunk =
    let combined = buffer ++ chunk in
    let (events, start) =
      push_loop delimiter combined (suc (length combined)) 0 (index_of delimiter combined 0) [] in
    record { events = events; remainder = remainder_from delimiter combined start }

-- `Parser.read`, with what is done on a frame as a parameter; it returns the next buffer.
unfoldable pub read {ℓ} : {S : Type ℓ} → Text → (Text → Run S (Unit {0})) → Text → Text → Run S Text
unfolding read_loop remainder_from find
read delimiter on_frame buffer chunk s =
    let combined = buffer ++ chunk in
    and_then
      (read_loop delimiter combined on_frame (suc (length combined)) 0
        (index_of delimiter combined 0) s)
      (λ start. λ s'. (s', returned (remainder_from delimiter combined start)))
