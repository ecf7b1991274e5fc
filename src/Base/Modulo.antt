-- ===== src/Base/Modulo.antt =====
-- Remainders of numbers that are closer than the divisor.
use Prim.Native.Nat.{ℕ, ◌+◌, ◌-◌, ◌%◌, ◌≤◌, ◌<◌}
use mathlib.Core.Path.{◌≡◌, sym, ap, ◌∙◌}
use mathlib.Core.Logic.{◌≢◌, inl, inr}
use native.Mathlib.Nat.{mod-lt, mod-eq_of_lt, mod-eq-sub-mod, add-mod}
use native.Mathlib.Omega.{arith}
use node_ipc.Base.Tests.{ltb, Bool-cases}

shift : (r d m : ℕ) → r < m → 0 < d → d < m → (r + d) % m ≢ r
shift r d m h pos small e = elim (Bool-cases (ltb (r + d) m)) [
  | inl below ↦ let k : r + d < m = ground arith in absurd (omega (arith, mod-eq_of_lt k))
  | inr above ↦
      let k : m ≤ r + d = ground arith in
      let j : r + d - m < m = omega arith in
      absurd (omega (arith, mod-eq-sub-mod k, mod-eq_of_lt j))
]

pub mod_distinct : (a b m : ℕ) → a < b → b < a + m → b % m ≢ a % m
mod_distinct a b m less near e =
    let d : b ≡ a + (b - a) = omega arith in
    let pos : 0 < m = omega arith in
    let small : b - a < m = omega arith in
    shift (a % m) (b - a) m (mod-lt a pos) (omega arith) small (
      ap (λ k. (a % m + k) % m) (sym (mod-eq_of_lt small))
      ∙ (sym (add-mod a (b - a) m) ∙ (ap (λ k. k % m) (sym d) ∙ e)))
