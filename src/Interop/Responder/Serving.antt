-- ===== src/Interop/Responder/Serving.antt =====
-- Requests that come in at `runServer` one after the other, each as the next one.
use node_ipc.Base.{
  ◌≡◌, refl, sym, ap, subst, ◌∙◌, inr, ℕ, zero, suc, ◌+◌, ◌≤◌, ◌<◌, Bool, true, false, not, ◌&&◌,
  ◌||◌, List, [], ◌∷◌, ◌++◌, Option, none, some, ◌==◌, if◌then◌else◌, arith, append-nil,
  append_assoc,
}
use node_ipc.Text.{Text}
use node_ipc.Json.{Value}
use node_ipc.Interop.{PeerOptions, repeat_x, request_data, max_safe_integer}
use node_ipc.Interop.Ranges.{IsUsable}
use node_ipc.Interop.Decimal.{decimal}
use node_ipc.Interop.Payload.{Complaint, validate_payload, validate_payload-request_data}
use node_ipc.Interop.Window.Order.{up_to}
use node_ipc.Interop.Responder.{
  resolved, Session, new_session, expected_frames, expected_sequence, replied, reply, answer,
  on_request, on_ended,
}

-- The request with a sequence number.
unfoldable pub request_of : PeerOptions → ℕ → Value
unfolding request_data repeat_x
request_of o n = request_data n (repeat_x o.payload_bytes)

unfoldable pub requests_of : PeerOptions → List ℕ → List Value
unfolding request_of
requests_of o [] = []
requests_of o (n ∷ ns) = request_of o n ∷ requests_of o ns

requests_of-append :
    (o : PeerOptions) (a b : List ℕ) → requests_of o (a ++ b) ≡ requests_of o a ++ requests_of o b
unfolding requests_of
requests_of-append o [] b = refl
requests_of-append o (n ∷ a) b = ap (λ t. request_of o n ∷ t) (requests_of-append o a b)

-- A request that comes in as the next one, and its response.
pub record Serving (o : PeerOptions) (k : ℕ) (past : List Value) (s : Session) : Type 0 where
  pub unsettled : s.settled ≡ false
  pub counted : s.frames ≡ k
  pub last : s.finishing ≡ (k == expected_frames o)
  pub sent : s.replies ≡ past

module _ (number_of : Text → Option ℕ) (o : PeerOptions) (writable : ℕ → Bool) where
  -- The requests arrive one after the other, and each response is written.
  unfoldable pub serve_requests : List Value → Session → Session
  unfolding on_request
  serve_requests [] s = s
  serve_requests (d ∷ ds) s =
      serve_requests ds (on_request number_of o d (some (writable s.frames)) s)

  serve_requests-append :
      (a b : List Value) (s : Session)
      → serve_requests (a ++ b) s ≡ serve_requests b (serve_requests a s)
  unfolding serve_requests
  serve_requests-append [] b s = refl
  serve_requests-append (d ∷ a) b s = serve_requests-append a b _

  replied-Serving :
      (k : ℕ) (past : List Value) (s : Session) (b : Bool)
      → s.settled ≡ false
      → s.finishing ≡ false
      → s.frames ≡ k
      → s.replies ≡ past
      → Serving o k past (replied o b s)
  unfolding replied
  replied-Serving k past s b u f c r =
      go (s.frames == expected_frames o) (not b && not s.paused) refl
    where
      go :
          (x y : Bool)
          → (s.frames == expected_frames o) ≡ x
          → Serving o k past (
              if not x
              then (if y then record s { paused = true } else s)
              else record s { finishing = true })
      go true y e = record {
        unsettled = u;
        counted = c;
        last = sym (subst (λ m. (m == expected_frames o) ≡ true) c e);
        sent = r;
      }
      go false true e = record {
        unsettled = u;
        counted = c;
        last = f ∙ sym (subst (λ m. (m == expected_frames o) ≡ false) c e);
        sent = r;
      }
      go false false e = record {
        unsettled = u;
        counted = c;
        last = f ∙ sym (subst (λ m. (m == expected_frames o) ≡ false) c e);
        sent = r;
      }

  answer-Serving :
      (k : ℕ) (d : Value) (past : List Value) (s : Session) (b : Bool)
      → s.settled ≡ false
      → s.finishing ≡ false
      → s.frames ≡ k
      → s.replies ≡ past
      → Serving o (suc k) (past ++ d ∷ []) (answer number_of o none d (some b) s)
  unfolding answer reply
  answer-Serving k d past s b u f c r =
      replied-Serving (suc k) (past ++ d ∷ []) _ b u f (ap (λ m. suc m) c) (ap (λ l. l ++ d ∷ []) r)

  request-Serving :
      (k n : ℕ) (past : List Value) (s : Session)
      → k < expected_frames o
      → expected_sequence o k ≡ n
      → number_of (decimal n) ≡ some n
      → Serving o k past s
      → Serving o
          (suc k)
          (past ++ request_of o n ∷ [])
          (on_request number_of o (request_of o n) (some (writable s.frames)) s)
  unfolding on_request request_of
  request-Serving k n past s low due reads i = go s.settled s.finishing _ i.unsettled f passes
    where
      f : s.finishing ≡ false
      f = i.last ∙ ground arith

      passes :
          validate_payload number_of
            (request_of o n)
            (some (expected_sequence o s.frames))
            (repeat_x o.payload_bytes)
          ≡ none
      passes =
          validate_payload-request_data number_of n (repeat_x o.payload_bytes)
            (some (expected_sequence o s.frames)) reads
            (inr (ap (λ v. some v) (ap (expected_sequence o) i.counted ∙ due)))

      go :
          (b c : Bool) (x : Option Complaint)
          → b ≡ false
          → c ≡ false
          → x ≡ none
          → Serving o (suc k) (past ++ request_of o n ∷ []) (
              if b || c
              then s
              else answer number_of o x (request_of o n) (some (writable s.frames)) s)
      go true c x hb hc hx = cc
      go false true x hb hc hx = cc
      go false false (some e) hb hc hx = cc
      go false false none hb hc hx =
          answer-Serving k (request_of o n) past s _ i.unsettled f i.counted i.sent

  snoc-Serving :
      (n k : ℕ) (past : List Value) (s : Session)
      → k + n < expected_frames o
      → expected_sequence o (k + n) ≡ n
      → number_of (decimal n) ≡ some n
      → Serving o
          (k + n)
          (past ++ requests_of o (up_to n))
          (serve_requests (requests_of o (up_to n)) s)
      → Serving o
          (k + suc n)
          (past ++ requests_of o (up_to n ++ n ∷ []))
          (serve_requests (requests_of o (up_to n ++ n ∷ [])) s)
  unfolding requests_of serve_requests
  snoc-Serving n k past s low due reads rest =
      let before = serve_requests (requests_of o (up_to n)) s in
      let step = request-Serving (k + n) n _ before low due reads rest in
      rw
        (
          requests_of-append o (up_to n) (n ∷ []),
          serve_requests-append (requests_of o (up_to n)) (request_of o n ∷ []) s,
        )
        (subst (λ l. Serving o (k + suc n) l (serve_requests (request_of o n ∷ []) before))
          (append_assoc past (requests_of o (up_to n)) (request_of o n ∷ []))
          (subst
            (λ m.
              Serving o m ((past ++ requests_of o (up_to n)) ++ request_of o n ∷ [])
                (serve_requests (request_of o n ∷ []) before))
            (omega arith) step))

  -- A phase of requests that are numbered from 0, where the server begins to count at 0 too.
  phase-Serving :
      (n k : ℕ) (past : List Value) (s : Session)
      → k + n ≤ expected_frames o
      → ((i : ℕ) → i < n → expected_sequence o (k + i) ≡ i)
      → ((i : ℕ) → i < n → number_of (decimal i) ≡ some i)
      → Serving o k past s
      → Serving o
          (k + n)
          (past ++ requests_of o (up_to n))
          (serve_requests (requests_of o (up_to n)) s)
  unfolding up_to requests_of serve_requests
  phase-Serving zero k past s low due reads i =
      subst (λ m. Serving o m (past ++ []) s) (omega arith)
        (subst (λ l. Serving o k l s) (sym (append-nil past)) i)
  phase-Serving (suc n) k past s low due reads i =
      snoc-Serving n k past s (omega (arith, low)) (due n (omega arith)) (reads n (omega arith)) (
        phase-Serving n k past s (omega (arith, low)) (λ j l. due j (omega arith))
          (λ j l. reads j (omega arith)) i)

  pub both_phases-Serving :
      ((n : ℕ) → n ≤ max_safe_integer → number_of (decimal n) ≡ some n)
      → IsUsable o
      → Serving o
          (expected_frames o)
          (requests_of o (up_to o.warmup ++ up_to o.count))
          (serve_requests (requests_of o (up_to o.warmup ++ up_to o.count)) new_session)
  unfolding expected_frames expected_sequence
  both_phases-Serving reads u =
      let first =
        phase-Serving o.warmup 0 [] new_session (omega arith) (λ i l. ground (arith, l))
          (λ i l. reads i (omega (arith, l, u.total)))
          (record {
            unsettled = refl;
            counted = refl;
            last = ground (arith, u.bounded.some_count);
            sent = refl;
          }) in
      rw
        (
          requests_of-append o (up_to o.warmup) (up_to o.count),
          serve_requests-append (requests_of o (up_to o.warmup)) (requests_of o (up_to o.count))
              new_session,
        )
        (phase-Serving o.count o.warmup _ _ (omega arith) (λ i l. ground (arith, l))
          (λ i l. reads i (omega (arith, l, u.total)))
          (subst
            (λ m.
              Serving o m (requests_of o (up_to o.warmup))
                (serve_requests (requests_of o (up_to o.warmup)) new_session))
            (omega arith) first))

  pub ended-resolved :
      {k : ℕ} {past : List Value} {s : Session}
      → Serving o k past s
      → (on_ended s).result ≡ some resolved
  unfolding on_ended
  ended-resolved {s = s} i = rw i.unsettled refl

  pub ended-replies :
      {k : ℕ} {past : List Value} {s : Session} → Serving o k past s → (on_ended s).replies ≡ past
  unfolding on_ended
  ended-replies {s = s} i = rw i.unsettled i.sent
