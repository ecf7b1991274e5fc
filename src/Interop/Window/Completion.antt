-- ===== src/Interop/Window/Completion.antt =====
-- Every order of drains and of responses that come in order ends a phase, and ends it well.
use node_ipc.Base.{
  ◌≡◌, ◌≢◌, refl, sym, subst, ◌⊎◌, inl, inr, ℕ, zero, suc, ◌+◌, ◌*◌, ◌≤◌, ◌<◌, Bool, true, false,
  Option, none, some, if◌then◌else◌, arith, Bool-cases,
}
use node_ipc.Text.{Text}
use node_ipc.Interop.{request_data}
use node_ipc.Interop.Decimal.{decimal}
use node_ipc.Interop.Payload.{validate_payload-request_data, data_sequence-request_data}
use node_ipc.Interop.Window.{
  Phase, Window, PhaseEnd, finished, fill_window, is_settled, new_window, start_phase, on_drain,
  free_slot, is_outstanding, after_response, on_sequence, checked_response, on_response,
}
use node_ipc.Interop.Window.Order.{InOrder, up_to, oldest-is_outstanding}
use node_ipc.Interop.Window.Filling.{fill_window-Filled, is_settled-eq}
use node_ipc.Interop.Window.Progress.{
  Running, Finished, work, Running-outstanding, Filled-Running, Running-on_drain, freed,
  Running-after_response,
}

none-some : {e : PhaseEnd} {o : Option PhaseEnd} → o ≡ none → o ≡ some e → ⊥
none-some h k = cc

choose :
    (a b c : Bool) (w x y : Window)
    → a ≡ false
    → b ≡ c
    → (if a then w else if b then x else y) ≡ (if c then x else y)
choose a b c w x y h k = ground (arith, h, k)

module _ (number_of : Text → Option ℕ) (clock : ℕ → ℕ) (emits : ℕ → Option Bool) (p : Phase) where
  -- The response to the oldest request that is under way.
  unfoldable pub answer_oldest : Window → Window
  unfolding on_response request_data
  answer_oldest w = on_response clock emits p number_of (request_data w.received p.payload) w

  -- A history of so many events: each is a drain that was waited for, or the response to the oldest request.
  pub data Run : ℕ → Window → Type 0 where
    begin : Run 0 (start_phase clock emits p)
    drains :
        {n : ℕ} {w : Window}
        → Run n w
        → w.settled ≡ none
        → w.waiting_for_drain ≡ true
        → Run (suc n) (on_drain clock emits p w)
    answers :
        {n : ℕ} {w : Window}
        → Run n w
        → w.settled ≡ none
        → w.received < w.sent
        → Run (suc n) (answer_oldest w)

  sequence-eq :
      (w : Window)
      → is_outstanding clock emits p w.received w ≡ true
      → on_sequence clock emits p w.received w
        ≡ after_response clock emits p (free_slot clock emits p w.received w)
  unfolding on_sequence
  sequence-eq w h = rw (h) refl

  answer_oldest-eq :
      (w : Window)
      → Running clock emits p w
      → w.received < w.sent
      → number_of (decimal w.received) ≡ some w.received
      → answer_oldest w ≡ after_response clock emits p (free_slot clock emits p w.received w)
  unfolding answer_oldest on_response checked_response
  answer_oldest-eq w r more reads =
      rw
        (
          is_settled-eq clock emits p w r.unsettled,
          validate_payload-request_data number_of w.received p.payload none reads (inl refl),
          data_sequence-request_data number_of w.received p.payload reads,
        )
        (sequence-eq w (oldest-is_outstanding clock p w r.order emits more))

  -- The phase with a connection that always has the next event ready, on fuel.
  unfoldable pub drive : ℕ → Window → Window
  unfolding answer_oldest on_drain is_settled
  drive zero w = w
  drive (suc fuel) w =
      let drained = drive fuel (on_drain clock emits p w) in
      let answered = drive fuel (answer_oldest w) in
      if is_settled w then w else if w.waiting_for_drain then drained else answered

  -- Where a history of so many events has come to.
  abbrev pub Result : ℕ → Window → Type 0
  Result n w =
      (Running clock emits p w × (n + work clock emits p w ≤ 4 * p.count + 1))
      ⊎ (Finished clock emits p w × (n ≤ 4 * p.count + 1))

  module _ (reads : (n : ℕ) → n < p.count → number_of (decimal n) ≡ some n)
      (writes : (n : ℕ) → emits n ≢ none) (some_count : 1 ≤ p.count)
      (some_inflight : 1 ≤ p.inflight) where
    new_window-InOrder : InOrder p new_window
    unfolding up_to
    new_window-InOrder = record {
      received-le = omega arith;
      sent-le = omega arith;
      width = omega arith;
      taken = λ q low high. absurd (omega (arith, high));
      free = λ i none_there. refl;
      emitted = refl;
      measured = ground arith;
    }

    begin-Running : Running clock emits p (start_phase clock emits p)
    unfolding start_phase
    begin-Running =
        Filled-Running clock emits p writes new_window (fill_window clock emits p new_window)
          some_count
          (fill_window-Filled clock emits p writes new_window new_window-InOrder refl refl)

    work-le : (w : Window) → work clock emits p w ≤ 4 * p.count + 1
    unfolding work
    work-le w = ground arith

    one-le-work : (w : Window) → w.received < p.count → 1 ≤ work clock emits p w
    unfolding work
    one-le-work w h = ground (arith, h)

    Running-answer :
        (w : Window)
        → Running clock emits p w
        → w.received < w.sent
        → (Running clock emits p (answer_oldest w)
            × (work clock emits p (answer_oldest w) < work clock emits p w))
          ⊎ Finished clock emits p (answer_oldest w)
    unfolding freed free_slot
    Running-answer w r more =
        subst
          (λ v.
            (Running clock emits p v × (work clock emits p v < work clock emits p w))
            ⊎ Finished clock emits p v)
          (sym (answer_oldest-eq w r more (reads w.received r.below)))
          (Running-after_response clock emits p writes w r more)

    -- For a phase with at least one request and one slot, whose writes do not throw and whose numbers are
    -- read back: in every history of drains and of responses in the order of the requests, the phase is
    -- either under way without an error, with a bounded number of events left to come, or it has finished:
    -- each request was sent exactly once and in order, each was answered, and each latency was taken. A
    -- history has at most four times `count` and one events.
    pub Run-ends : {n : ℕ} {w : Window} → Run n w → Result n w
    Run-ends begin = inl (begin-Running, omega (arith, work-le (start_phase clock emits p)))
    Run-ends (drains {n} {w} past u d) = elim (Run-ends past) [
      | inl (r, bound) ↦
          let (r', less) = Running-on_drain clock emits p writes w r d in
          inl (r', omega (arith, bound, less))
      | inr (f, bound) ↦ absurd (none-some u f.success)
    ]
    Run-ends (answers {n} {w} past u more) = elim (Run-ends past) [
      | inl (r, bound) ↦ elim (Running-answer w r more) [
        | inl (r', less) ↦ inl (r', omega (arith, bound, less))
        | inr f ↦ inr (f, omega (arith, bound, one-le-work w r.below))
      ]
      | inr (f, bound) ↦ absurd (none-some u f.success)
    ]

    settled-drive :
        (fuel : ℕ) (w : Window) → Finished clock emits p w → Finished clock emits p (drive fuel w)
    unfolding drive is_settled
    settled-drive zero w f = f
    settled-drive (suc fuel) w f = go w.settled _ f.success
      where
        go :
            (x : Option PhaseEnd) (v : Window)
            → x ≡ some finished
            → Finished clock emits p (if (elim x [ some y ↦ true | none ↦ false ]) then w else v)
        go none v h = cc
        go (some e) v h = f

    drive-Finished :
        (fuel : ℕ) (w : Window)
        → Running clock emits p w
        → work clock emits p w < fuel
        → Finished clock emits p (drive fuel w)
    unfolding drive
    drive-Finished zero w r h = absurd (omega arith)
    drive-Finished (suc fuel) w r h = elim (Bool-cases w.waiting_for_drain) [
      | inl d ↦
          let (r', less) = Running-on_drain clock emits p writes w r d in
          subst (Finished clock emits p)
            (sym (
              choose (is_settled w) w.waiting_for_drain true w
                (drive fuel (on_drain clock emits p w)) (drive fuel (answer_oldest w))
                (is_settled-eq clock emits p w r.unsettled) d))
            (drive-Finished fuel (on_drain clock emits p w) r' (omega arith))
      | inr d ↦
          let more = Running-outstanding clock emits p some_inflight w r d in
          subst (Finished clock emits p)
            (sym (
              choose (is_settled w) w.waiting_for_drain false w
                (drive fuel (on_drain clock emits p w)) (drive fuel (answer_oldest w))
                (is_settled-eq clock emits p w r.unsettled) d))
            (elim (Running-answer w r more) [
              | inl (r', less) ↦ drive-Finished fuel (answer_oldest w) r' (omega arith)
              | inr f ↦ settled-drive fuel (answer_oldest w) f
            ])
    ]

    -- Such a phase comes to its end: while it is under way there is a drain or a response to come, and with
    -- the next one always ready it finishes within four times `count` and two events.
    pub start_phase-Finished :
        Finished clock emits p (drive (4 * p.count + 2) (start_phase clock emits p))
    start_phase-Finished =
        drive-Finished (4 * p.count + 2) (start_phase clock emits p) begin-Running
          (omega (arith, work-le (start_phase clock emits p)))
