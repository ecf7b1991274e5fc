-- ===== src/Interop/Window/Filling.antt =====
-- What `fillWindow` reaches: it stops only because a write waits for `drain` or the window is full, and it
-- finds no slot in use.
use mathlib.Core.Bool.{true≢false}
use node_ipc.Base.{
  ◌≡◌, ◌≢◌, refl, sym, subst, ◌∙◌, ℕ, zero, suc, ◌+◌, ◌%◌, ◌≤◌, ◌<◌, Bool, true, false, not, ◌||◌,
  [], ◌∷◌, ◌++◌, Option, none, some, if◌then◌else◌, arith,
}
use node_ipc.Interop.Window.{
  Phase, Window, failed, slot_reused, emit_threw, slot_count, take_slot, may_send, fill_loop,
  fill_window, is_settled, settle,
}
use node_ipc.Interop.Window.Order.{InOrder, InOrder-take_slot, next-free}

none-some : {q : ℕ} → none ≡ some q → ⊥
none-some k = cc

module _ (clock : ℕ → ℕ) (emits : ℕ → Option Bool) (p : Phase) where
  pub record Filled (w w' : Window) : Type 0 where
    pub order : InOrder p w'
    pub unsettled : w'.settled ≡ none
    pub same : w'.received ≡ w.received
    pub more : w.sent ≤ w'.sent
    pub full : w'.waiting_for_drain ≡ false → may_send clock emits p w' ≡ false
    pub waits : w'.waiting_for_drain ≡ true → w.sent < w'.sent

  may_send-room :
      (w : Window)
      → InOrder p w
      → may_send clock emits p w ≡ true
      → (w.sent < p.count) × (w.sent < w.received + slot_count p)
  unfolding may_send
  may_send-room w v h = (ground (arith, h), ground (arith, h, v.received-le))

  may_send-done : (w : Window) → p.count ≤ w.sent → may_send clock emits p w ≡ false
  unfolding may_send
  may_send-done w h = ground (arith, h)

  next_window : Window → Bool → Window
  next_window w waiting = record (take_slot clock emits p w) {
    emitted = w.emitted ++ w.sent ∷ [];
    waiting_for_drain = waiting;
  }

  fill_loop-Filled :
      ((n : ℕ) → emits n ≢ none)
      → (fuel : ℕ) (w : Window) → InOrder p w
      → w.settled ≡ none
      → w.waiting_for_drain ≡ false
      → p.count ≤ w.sent + fuel
      → Filled w (fill_loop clock emits p fuel w)
  unfolding fill_loop next_window take_slot
  fill_loop-Filled writes zero w v o d h = record {
    order = v;
    unsettled = o;
    same = refl;
    more = omega arith;
    full = λ _. may_send-done w (omega (arith, h));
    waits = λ k. absurd (true≢false (sym k ∙ d));
  }
  fill_loop-Filled writes (suc fuel) w v o d h =
      go (may_send clock emits p w) (w.slots (w.sent % slot_count p)) (emits w.sent) refl refl refl
        (λ room x y z k. fill_loop-Filled writes fuel (next_window w w.waiting_for_drain) x y z k)
    where
      go :
          (m : Bool) (s : Option ℕ) (e : Option Bool)
          → may_send clock emits p w ≡ m
          → w.slots (w.sent % slot_count p) ≡ s
          → emits w.sent ≡ e
          → (may_send clock emits p w ≡ true
              → InOrder p (next_window w w.waiting_for_drain)
              → (next_window w w.waiting_for_drain).settled ≡ none
              → (next_window w w.waiting_for_drain).waiting_for_drain ≡ false
              → p.count ≤ (next_window w w.waiting_for_drain).sent + fuel
              → Filled
                  (next_window w w.waiting_for_drain)
                  (fill_loop clock emits p fuel (next_window w w.waiting_for_drain)))
          → Filled w (
              if not m then w else elim s [
                | some q ↦
                    settle
                      (failed (slot_reused (w.sent % slot_count p)))
                      (record w { sent = suc w.sent })
                | none ↦ elim e [
                  | none ↦ settle (failed emit_threw) (take_slot clock emits p w)
                  | some true ↦
                      fill_loop clock emits p fuel
                        (record (take_slot clock emits p w) { emitted = w.emitted ++ w.sent ∷ [] })
                  | some false ↦ record (take_slot clock emits p w) {
                    emitted = w.emitted ++ w.sent ∷ [];
                    waiting_for_drain = true;
                  }
                ]
              ])
      go false s e m_eq s_eq e_eq again = record {
        order = v;
        unsettled = o;
        same = refl;
        more = omega arith;
        full = λ _. m_eq;
        waits = λ k. absurd (true≢false (sym k ∙ d));
      }
      go true (some q) e m_eq s_eq e_eq again =
          let room = may_send-room w v m_eq in
          absurd (none-some (sym (next-free clock p w v room.1) ∙ s_eq))
      go true none none m_eq s_eq e_eq again = absurd (writes w.sent e_eq)
      go true none (some true) m_eq s_eq e_eq again =
          let room = may_send-room w v m_eq in
          let f =
            again m_eq (InOrder-take_slot clock p w v emits w.waiting_for_drain room.0 room.1) o d
              (omega (arith, h)) in
          record {
            order = f.order;
            unsettled = f.unsettled;
            same = f.same;
            more = omega (arith, f.more);
            full = f.full;
            waits = λ k. omega (arith, f.more);
          }
      go true none (some false) m_eq s_eq e_eq again =
          let room = may_send-room w v m_eq in
          record {
            order = InOrder-take_slot clock p w v emits true room.0 room.1;
            unsettled = o;
            same = refl;
            more = omega arith;
            full = λ k. absurd (true≢false k);
            waits = λ _. omega arith;
          }

  if-false : (b : Bool) (x : Window) {y : Window} → b ≡ false → (if b then x else y) ≡ y
  if-false b x h = ground arith

  pub is_settled-eq : (w : Window) → w.settled ≡ none → is_settled w ≡ false
  unfolding is_settled
  is_settled-eq w o = rw o refl

  -- `fillWindow` on a window that is neither settled nor waiting.
  pub fill_window-Filled :
      ((n : ℕ) → emits n ≢ none)
      → (w : Window) → InOrder p w
      → w.settled ≡ none
      → w.waiting_for_drain ≡ false
      → Filled w (fill_window clock emits p w)
  unfolding fill_window
  fill_window-Filled writes w v o d =
      subst (Filled w)
        (sym (if-false (is_settled w || w.waiting_for_drain) w (rw (is_settled-eq w o, d) refl)))
        (fill_loop-Filled writes p.count w v o d (omega arith))

  -- `fillWindow` on a window that waits.
  pub fill_window-waits :
      (w : Window) → w.waiting_for_drain ≡ true → fill_window clock emits p w ≡ w
  unfolding fill_window
  fill_window-waits w d = ground (arith, d)
