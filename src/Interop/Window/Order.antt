-- ===== src/Interop/Window/Order.antt =====
-- The window while responses come in the order of their requests: the requests that have a slot are those
-- from `received` up to `sent`.
use mathlib.Core.Bool.{true≢false}
use node_ipc.Base.{
  ◌≡◌, ◌≢◌, refl, sym, ap, ◌∙◌, inl, inr, ℕ, zero, suc, ◌+◌, ◌-◌, ◌%◌, ◌≤◌, ◌<◌, Bool, true, false,
  List, [], ◌∷◌, ◌++◌, Option, none, some, ◌==◌, if◌then◌else◌, arith, Bool-cases, length,
  length-append, mod_distinct, ==_refl,
}
use node_ipc.Interop.Window.{
  Phase, Window, slot_count, set_at, take_slot, free_slot, is_outstanding,
}

-- `0`, `1`, … in order
unfoldable pub up_to : ℕ → List ℕ
up_to zero = []
up_to (suc n) = up_to n ++ n ∷ []

pub record InOrder (p : Phase) (w : Window) : Type 0 where
  pub received-le : w.received ≤ w.sent
  pub sent-le : w.sent ≤ p.count
  pub width : w.sent ≤ w.received + slot_count p
  pub taken : (q : ℕ) → w.received ≤ q → q < w.sent → w.slots (q % slot_count p) ≡ some q
  pub free :
      (i : ℕ) → ((q : ℕ) → w.received ≤ q → q < w.sent → q % slot_count p ≢ i) → w.slots i ≡ none
  pub emitted : w.emitted ≡ up_to w.sent
  pub measured : length w.latencies ≡ (if p.record_latency then w.received else 0)

set_at-same : (f : ℕ → Option ℕ) (k : ℕ) (a : Option ℕ) (i : ℕ) → i ≡ k → set_at f k a i ≡ a
set_at-same f k a i e = ground (arith, e)

set_at-other : (f : ℕ → Option ℕ) (k : ℕ) (a : Option ℕ) (i : ℕ) → i ≢ k → set_at f k a i ≡ f i
set_at-other f k a i e = ground (arith, e)

==_eq : (a b : ℕ) → a ≡ b → (a == b) ≡ true
==_eq a b e = ground (arith, e)

module _ (clock : ℕ → ℕ) (p : Phase) (w : Window) (v : InOrder p w) where
  -- The slot of the next request is free while the window has room.
  pub next-free : w.sent < w.received + slot_count p → w.slots (w.sent % slot_count p) ≡ none
  next-free room =
      v.free (w.sent % slot_count p) (λ q low high e.
        mod_distinct q w.sent (slot_count p) high (omega (arith, room, low)) (sym e))

  -- The next request takes a slot.
  pub InOrder-take_slot :
      (emits : ℕ → Option Bool) (waiting : Bool)
      → w.sent < p.count
      → w.sent < w.received + slot_count p
      → InOrder p (record (take_slot clock emits p w) {
        emitted = w.emitted ++ w.sent ∷ [];
        waiting_for_drain = waiting;
      })
  unfolding take_slot up_to
  InOrder-take_slot emits waiting more room = record {
    received-le = omega (arith, v.received-le);
    sent-le = omega arith;
    width = omega arith;
    taken = λ q low high. elim (Bool-cases (q == w.sent)) [
      | inl e ↦
          let same : q ≡ w.sent = ground (arith, e) in
          set_at-same w.slots (w.sent % slot_count p) (some w.sent) (q % slot_count p)
            (ap (λ k. k % slot_count p) same)
          ∙ ap (λ k. some k) (sym same)
      | inr e ↦
          let below : q < w.sent = ground (arith, e) in
          set_at-other w.slots (w.sent % slot_count p) (some w.sent) (q % slot_count p) (λ same.
            mod_distinct q w.sent (slot_count p) below (omega (arith, room, low)) (sym same))
          ∙ v.taken q low below
    ];
    free = λ i none_there.
        set_at-other w.slots (w.sent % slot_count p) (some w.sent) i
          (λ same. none_there w.sent v.received-le (omega arith) (sym same))
        ∙ v.free i (λ q low high. none_there q low (omega arith));
    emitted = ap (λ es. es ++ w.sent ∷ []) v.emitted;
    measured = v.measured;
  }

  -- The oldest request is outstanding.
  pub oldest-is_outstanding :
      (emits : ℕ → Option Bool)
      → w.received < w.sent
      → is_outstanding clock emits p w.received w ≡ true
  unfolding is_outstanding
  oldest-is_outstanding emits more =
      rw (v.taken w.received (omega arith) more, is_outstanding) (==_refl w.received)

  InOrder-freed :
      (ls : List ℕ) (ticks : ℕ)
      → w.received < w.sent
      → length ls ≡ (if p.record_latency then suc w.received else 0)
      → InOrder p (record w {
        slots = set_at w.slots (w.received % slot_count p) none;
        received = suc w.received;
        latencies = ls;
        ticks = ticks;
      })
  InOrder-freed ls ticks more h = record {
    received-le = omega arith;
    sent-le = v.sent-le;
    width = omega (arith, v.width);
    taken = λ q low high.
        set_at-other w.slots (w.received % slot_count p) none (q % slot_count p) (
          mod_distinct w.received q (slot_count p) (omega (arith, low))
            (omega (arith, v.width, high)))
        ∙ v.taken q (omega (arith, low)) high;
    free = λ i none_there. elim (Bool-cases (i == w.received % slot_count p)) [
      | inl e ↦ set_at-same w.slots (w.received % slot_count p) none i (ground (arith, e))
      | inr e ↦
          let other : i ≢ w.received % slot_count p =
            λ same. true≢false (sym (==_eq i (w.received % slot_count p) same) ∙ e) in
          set_at-other w.slots (w.received % slot_count p) none i other
          ∙ v.free i (λ q low high. elim (Bool-cases (q == w.received)) [
            | inl same ↦ λ k. other (sym k ∙ ap (λ j. j % slot_count p) (ground (arith, same)))
            | inr above ↦ none_there q (ground (arith, above, low)) high
          ])
    ];
    emitted = v.emitted;
    measured = h;
  }

  -- Its response frees its slot.
  pub InOrder-free_slot :
      (emits : ℕ → Option Bool)
      → w.received < w.sent
      → InOrder p (free_slot clock emits p w.received w)
  unfolding free_slot
  InOrder-free_slot emits more = go p.record_latency refl
    where
      timed : List ℕ
      timed = w.latencies ++ (clock w.ticks - w.slot_times (w.received % slot_count p)) ∷ []

      freed : List ℕ → ℕ → Window
      freed ls ticks = record w {
        slots = set_at w.slots (w.received % slot_count p) none;
        received = suc w.received;
        latencies = ls;
        ticks = ticks;
      }

      go :
          (b : Bool)
          → p.record_latency ≡ b
          → InOrder p (if b then freed timed (suc w.ticks) else freed w.latencies w.ticks)
      go true e = InOrder-freed timed (suc w.ticks) more (
          length-append w.latencies
            ((clock w.ticks - w.slot_times (w.received % slot_count p)) ∷ [])
          ∙ omega (arith, v.measured ∙ ap (λ b. if b then w.received else 0) e)
          ∙ sym (ap (λ b. if b then suc w.received else 0) e))
      go false e = InOrder-freed w.latencies w.ticks more (
          v.measured
          ∙ (ap (λ b. if b then w.received else 0) e
              ∙ sym (ap (λ b. if b then suc w.received else 0) e)))
