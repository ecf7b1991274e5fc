-- ===== src/Interop/Responder/History.antt =====
-- What holds behind every history of the handlers of `runServer`.
use node_ipc.Base.{
  ◌≡◌, refl, sym, subst, ℕ, suc, ◌≤◌, ◌<◌, Bool, true, false, not, ◌&&◌, ◌||◌, List, [], ◌∷◌, ◌++◌,
  Option, none, some, ◌==◌, if◌then◌else◌, arith,
}
use node_ipc.Text.{Text}
use node_ipc.Json.{Value}
use node_ipc.Interop.{PeerOptions, repeat_x}
use node_ipc.Interop.Payload.{Complaint, validate_payload}
use node_ipc.Interop.Responder.{
  Failure, reported, resolved, rejected, disconnected, complains, Session, new_session,
  expected_frames, expected_sequence, fail_session, replied, reply, answer, on_request, on_closed,
  on_ended, on_drained,
}

module _ (number_of : Text → Option ℕ) (o : PeerOptions) where
  -- A request that passes as the one with this number.
  unfoldable pub IsExpected : ℕ → Value → Type 0
  unfolding validate_payload expected_sequence repeat_x
  IsExpected n d =
      validate_payload number_of d (some (expected_sequence o n)) (repeat_x o.payload_bytes) ≡ none

  -- Requests with the numbers from 0, each of which passes.
  pub data Answered : ℕ → List Value → Type 0 where
    nothing_yet : Answered 0 []
    one_more :
        {n : ℕ} (d : Value) {past : List Value}
        → Answered n past
        → IsExpected n d
        → Answered (suc n) (past ++ d ∷ [])

  -- What can happen to the server; the socket is ended only behind the last response.
  pub data History : Session → Type 0 where
    begins : History new_session
    asked :
        {s : Session} (d : Value) (sent : Option Bool)
        → History s
        → History (on_request number_of o d sent s)
    closes : {s : Session} → History s → History (on_closed o s)
    fails : {s : Session} (e : Failure) → History s → History (fail_session e s)
    ends : {s : Session} → History s → s.finishing ≡ true → History (on_ended s)
    drains : {s : Session} → History s → History (on_drained s)

  pub record IsSound (s : Session) : Type 0 where
    pub under_way : s.settled ≡ false → (s.result ≡ none) × Answered s.frames s.replies
    pub more_to_come : s.settled ≡ false → s.finishing ≡ false → s.frames < expected_frames o
    pub complete : s.finishing ≡ true → (s.frames ≡ expected_frames o) × Answered s.frames s.replies
    pub success : s.result ≡ some resolved → s.finishing ≡ true

  -- A session that fails, where no response is the last one yet or all are out.
  rejected-IsSound :
      (e : Failure) (s : Session)
      → (s.finishing ≡ true → (s.frames ≡ expected_frames o) × Answered s.frames s.replies)
      → IsSound (record s { settled = true; stopped = true; result = some (rejected e) })
  rejected-IsSound e s c = record {
    under_way = λ h. cc;
    more_to_come = λ h k. cc;
    complete = c;
    success = λ h. cc;
  }

  fail_session-unsettled :
      (e : Failure) (s : Session)
      → s.settled ≡ false
      → fail_session e s ≡ record s { settled = true; stopped = true; result = some (rejected e) }
  unfolding fail_session
  fail_session-unsettled e s h = rw h refl

  fail_session-IsSound : (e : Failure) (s : Session) → IsSound s → IsSound (fail_session e s)
  unfolding fail_session
  fail_session-IsSound e s i = go s.settled
    where
      go :
          (b : Bool)
          → IsSound (
              if b
              then s
              else record s { settled = true; stopped = true; result = some (rejected e) })
      go true = i
      go false = rejected-IsSound e s i.complete

  replied-IsSound :
      (writable : Bool) (s : Session)
      → s.settled ≡ false
      → s.finishing ≡ false
      → s.result ≡ none
      → s.frames ≤ expected_frames o
      → Answered s.frames s.replies
      → IsSound (replied o writable s)
  unfolding replied
  replied-IsSound writable s u f r l a =
      go (s.frames == expected_frames o) (not writable && not s.paused) refl
    where
      go :
          (b c : Bool)
          → (s.frames == expected_frames o) ≡ b
          → IsSound (
              if not b
              then (if c then record s { paused = true } else s)
              else record s { finishing = true })
      go true c e = record {
        under_way = λ h. (r, a);
        more_to_come = λ h k. cc;
        complete = λ h. (ground (arith, e), a);
        success = λ h. refl;
      }
      go false true e = record {
        under_way = λ h. (r, a);
        more_to_come = λ h k. ground (arith, e, l);
        complete = λ h. cc;
        success = λ h. cc;
      }
      go false false e = record {
        under_way = λ h. (r, a);
        more_to_come = λ h k. ground (arith, e, l);
        complete = λ h. cc;
        success = λ h. cc;
      }

  answer-IsSound :
      (c : Option Complaint) (d : Value) (sent : Option Bool) (s : Session)
      → validate_payload number_of d
          (some (expected_sequence o s.frames))
          (repeat_x o.payload_bytes)
        ≡ c
      → IsSound s
      → s.settled ≡ false
      → s.finishing ≡ false
      → IsSound (answer number_of o c d sent s)
  unfolding answer reply IsExpected
  answer-IsSound (some e) d sent s h i u f = fail_session-IsSound (complains e) s i
  answer-IsSound none d none s h i u f =
      subst IsSound (sym (fail_session-unsettled reported (record s { frames = suc s.frames }) u))
        (rejected-IsSound reported (record s { frames = suc s.frames }) (λ k. cc))
  answer-IsSound none d (some writable) s h i u f =
      replied-IsSound writable (record s { frames = suc s.frames; replies = s.replies ++ d ∷ [] }) u
        f (i.under_way u).0 (i.more_to_come u f) (one_more d (i.under_way u).1 h)

  on_request-IsSound :
      (d : Value) (sent : Option Bool) (s : Session)
      → IsSound s
      → IsSound (on_request number_of o d sent s)
  unfolding on_request
  on_request-IsSound d sent s i = go s.settled s.finishing refl refl
    where
      go :
          (b c : Bool)
          → s.settled ≡ b
          → s.finishing ≡ c
          → IsSound (
              if b || c
              then s
              else answer number_of o
                  (validate_payload number_of d
                    (some (expected_sequence o s.frames))
                    (repeat_x o.payload_bytes))
                  d
                  sent
                  s)
      go true c h k = i
      go false true h k = i
      go false false h k = answer-IsSound _ d sent s refl i h k

  on_closed-IsSound : (s : Session) → IsSound s → IsSound (on_closed o s)
  unfolding on_closed
  on_closed-IsSound s i = go (not s.settled && not s.finishing)
    where
      go :
          (b : Bool)
          → IsSound (if b then fail_session (disconnected s.frames (expected_frames o)) s else s)
      go true = fail_session-IsSound _ s i
      go false = i

  on_ended-IsSound : (s : Session) → IsSound s → s.finishing ≡ true → IsSound (on_ended s)
  unfolding on_ended
  on_ended-IsSound s i f = go s.settled
    where
      go :
          (b : Bool)
          → IsSound (if b then s else record s { settled = true; result = some resolved })
      go true = i
      go false = record {
        under_way = λ h. cc;
        more_to_come = λ h k. cc;
        complete = i.complete;
        success = λ h. f;
      }

  -- Behind every history of a server that expects a frame at all: while it is not settled, it has answered
  -- so many requests as it counts, each of which passed as the one with its number, and it expects more or
  -- is finishing.
  pub History-IsSound : 1 ≤ expected_frames o → {s : Session} → History s → IsSound s
  unfolding on_drained
  History-IsSound some_frame begins = record {
    under_way = λ h. (refl, nothing_yet);
    more_to_come = λ h k. some_frame;
    complete = λ h. cc;
    success = λ h. cc;
  }
  History-IsSound some_frame (asked {s} d sent past) =
      on_request-IsSound d sent s (History-IsSound some_frame past)
  History-IsSound some_frame (closes {s} past) =
      on_closed-IsSound s (History-IsSound some_frame past)
  History-IsSound some_frame (fails {s} e past) =
      fail_session-IsSound e s (History-IsSound some_frame past)
  History-IsSound some_frame (ends {s} past f) =
      on_ended-IsSound s (History-IsSound some_frame past) f
  History-IsSound some_frame (drains {s} past) =
      let i = History-IsSound some_frame past in
      record {
        under_way = i.under_way;
        more_to_come = i.more_to_come;
        complete = i.complete;
        success = i.success;
      }

  -- If the promise of `runServer` has resolved, then the server has answered exactly the requests that it
  -- expects, in order, each of which had the sequence number and the payload that were due.
  pub resolved-Answered :
      1 ≤ expected_frames o
      → {s : Session} → History s
      → s.result ≡ some resolved
      → (s.frames ≡ expected_frames o) × Answered s.frames s.replies
  resolved-Answered some_frame past h =
      let i = History-IsSound some_frame past in i.complete (i.success h)
