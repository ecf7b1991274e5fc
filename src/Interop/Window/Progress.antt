-- ===== src/Interop/Window/Progress.antt =====
-- A phase whose responses come in the order of the requests, as those of one connection do.
use mathlib.Core.Bool.{true≢false}
use node_ipc.Base.{
  ◌≡◌, ◌≢◌, refl, sym, ap, subst, ◌∙◌, ◌⊎◌, inl, inr, ℕ, suc, ◌+◌, ◌-◌, ◌*◌, ◌≤◌, ◌<◌, Bool, true,
  false, Option, none, some, ◌==◌, if◌then◌else◌, arith, Bool-cases, length,
}
use node_ipc.Interop.Window.{
  Phase, Window, PhaseEnd, finished, slot_count, may_send, fill_window, settle, on_drain, free_slot,
  after_response,
}
use node_ipc.Interop.Window.Order.{InOrder, up_to, InOrder-free_slot}
use node_ipc.Interop.Window.Filling.{Filled, fill_window-Filled, fill_window-waits}

module _ (clock : ℕ → ℕ) (emits : ℕ → Option Bool) (p : Phase) where
  -- A phase that is under way: it waits for `drain`, or its window is full.
  pub record Running (w : Window) : Type 0 where
    pub order : InOrder p w
    pub unsettled : w.settled ≡ none
    pub below : w.received < p.count
    pub full : w.waiting_for_drain ≡ false → may_send clock emits p w ≡ false

  -- A phase that has finished: each request was sent once and in order, and each latency was taken.
  pub record Finished (w : Window) : Type 0 where
    pub success : w.settled ≡ some finished
    pub all_received : w.received ≡ p.count
    pub all_emitted : w.emitted ≡ up_to p.count
    pub all_measured : length w.latencies ≡ (if p.record_latency then p.count else 0)

  -- What an event leaves to do.
  unfoldable pub work : Window → ℕ
  work w =
      2 * (p.count - w.received) + 2 * (p.count - w.sent) + (if w.waiting_for_drain then 1 else 0)

  may_send-false :
      (w : Window)
      → may_send clock emits p w ≡ false
      → (p.count ≤ w.sent) ⊎ (slot_count p ≤ w.sent - w.received)
  unfolding may_send
  may_send-false w h = ground (arith, h)

  slots_given : 1 ≤ p.count → 1 ≤ p.inflight → 1 ≤ slot_count p
  unfolding slot_count
  slots_given a b = ground (arith, a, b)

  -- No deadlock: while the phase does not wait for `drain`, there is a response to come.
  pub Running-outstanding :
      1 ≤ p.inflight → (w : Window) → Running w → w.waiting_for_drain ≡ false → w.received < w.sent
  Running-outstanding some_inflight w r d =
      let one = slots_given (omega (arith, r.below)) some_inflight in
      elim (may_send-false w (r.full d)) [
        | inl e ↦ omega (arith, r.below)
        | inr e ↦ omega (arith, one)
      ]

  module _ (writes : (n : ℕ) → emits n ≢ none) where
    pub Filled-Running :
        (w w' : Window) → w.received < p.count → Filled clock emits p w w' → Running w'
    Filled-Running w w' below f = record {
      order = f.order;
      unsettled = f.unsettled;
      below = omega (arith, f.same, below);
      full = f.full;
    }

    drained : Window → Window
    drained w = record w { waiting_for_drain = false }

    drained-InOrder : (w : Window) → InOrder p w → InOrder p (drained w)
    unfolding drained
    drained-InOrder w v = record {
      received-le = v.received-le;
      sent-le = v.sent-le;
      width = v.width;
      taken = v.taken;
      free = v.free;
      emitted = v.emitted;
      measured = v.measured;
    }

    -- A drain does part of the work.
    pub Running-on_drain :
        (w : Window)
        → Running w
        → w.waiting_for_drain ≡ true
        → Running (on_drain clock emits p w) × (work (on_drain clock emits p w) < work w)
    unfolding on_drain drained work
    Running-on_drain w r d =
        let f =
          fill_window-Filled clock emits p writes (drained w) (drained-InOrder w r.order)
            r.unsettled refl in
        let w' = fill_window clock emits p (drained w) in
        (
          Filled-Running (drained w) w' r.below f,
          elim (Bool-cases w'.waiting_for_drain) [
            | inl e ↦ rw (d, e) (omega (arith, f.same, f.waits e, f.order.sent-le, r.order.sent-le))
            | inr e ↦ rw (d, e) (omega (arith, f.same, f.more, f.order.sent-le, r.order.sent-le))
          ],
        )

    settle-eq :
        (e : PhaseEnd) (w : Window) → w.settled ≡ none → settle e w ≡ record w { settled = some e }
    unfolding settle
    settle-eq e w o = go w.settled o
      where
        go :
            (x : Option PhaseEnd)
            → x ≡ none
            → (let q : Window = elim x [ some y ↦ w | none ↦ record w { settled = some e } ] in q)
              ≡ record w { settled = some e }
        go none h = refl
        go (some y) h = cc

    unfoldable pub freed : Window → Window
    freed w = free_slot clock emits p w.received w

    freed-facts :
        (w : Window)
        → ((freed w).received ≡ suc w.received)
          × ((freed w).sent ≡ w.sent)
          × ((freed w).settled ≡ w.settled)
          × ((freed w).waiting_for_drain ≡ w.waiting_for_drain)
    unfolding freed free_slot
    freed-facts w = (ground arith, ground arith, ground arith, ground arith)

    -- A response that is not the last, on a window that has freed its slot.
    refilled :
        (w v : Window)
        → InOrder p v
        → v.settled ≡ none
        → v.received < p.count
        → v.received ≡ suc w.received
        → v.sent ≡ w.sent
        → v.waiting_for_drain ≡ w.waiting_for_drain
        → Running (fill_window clock emits p v) × (work (fill_window clock emits p v) < work w)
    unfolding work
    refilled w v o u below r s d = elim (Bool-cases v.waiting_for_drain) [
      | inl e ↦
          let same = fill_window-waits clock emits p v e in
          let waits : w.waiting_for_drain ≡ true = sym d ∙ e in
          (
            subst Running (sym same) (record {
              order = o;
              unsettled = u;
              below = below;
              full = λ k. absurd (true≢false (sym e ∙ k));
            }),
            rw (same, e, waits) (omega (arith, r, s, below)),
          )
      | inr e ↦
          let f = fill_window-Filled clock emits p writes v o u e in
          let idle : w.waiting_for_drain ≡ false = sym d ∙ e in
          (
            Filled-Running v (fill_window clock emits p v) below f,
            elim (Bool-cases (fill_window clock emits p v).waiting_for_drain) [
              | inl k ↦ rw (k, idle) (omega (arith, f.same, f.more, r, s, below))
              | inr k ↦ rw (k, idle) (omega (arith, f.same, f.more, r, s, below))
            ],
          )
    ]

    last_response :
        (v : Window)
        → InOrder p v
        → v.settled ≡ none
        → v.received ≡ p.count
        → Finished (settle finished v)
    last_response v o u all = subst Finished (sym (settle-eq finished v u)) (record {
      success = refl;
      all_received = all;
      all_emitted = o.emitted ∙ ap up_to (omega (arith, o.received-le, o.sent-le, all));
      all_measured = o.measured ∙ ap (λ n. if p.record_latency then n else 0) all;
    })

    pub Running-after_response :
        (w : Window)
        → Running w
        → w.received < w.sent
        → (Running (after_response clock emits p (freed w))
            × (work (after_response clock emits p (freed w)) < work w))
          ⊎ Finished (after_response clock emits p (freed w))
    unfolding after_response
    Running-after_response w r more =
        let (received, sent, settled, waiting) = freed-facts w in
        let o : InOrder p (freed w) =
          unfold freed in InOrder-free_slot clock p w r.order emits more in
        elim (Bool-cases ((freed w).received == p.count)) [
          | inl e ↦
              rw e (inr (last_response (freed w) o (settled ∙ r.unsettled) (ground (arith, e))))
          | inr e ↦ rw e (
              inl (
                refilled w (freed w) o (settled ∙ r.unsettled)
                  (ground (arith, e, received, r.below)) received sent waiting))
        ]
