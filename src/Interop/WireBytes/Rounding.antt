-- ===== src/Interop/WireBytes/Rounding.antt =====
-- `wireBytesForPhase` computes with doubles, which are exact on safe integers.
use node_ipc.Base.{
  ◌≡◌, refl, ap, ◌∙◌, ℕ, zero, suc, ◌+◌, ◌-◌, ◌*◌, ◌≤◌, Bool, true, false, not, ltb, ◌==◌,
  if◌then◌else◌, arith,
}
use node_ipc.Interop.{max_safe_integer}
use node_ipc.Interop.WireBytes.{range_end_of, range_loop, phase_bytes, exact}

range_loop-grows :
    (fuel count start digits total : ℕ) → total ≤ range_loop exact fuel count start digits total
unfolding range_loop
range_loop-grows zero count start digits total = omega arith
range_loop-grows (suc fuel) count start digits total =
    go (not (ltb start count)) (range_end_of count start == count) (
      range_loop-grows fuel count (range_end_of count start) (suc digits)
        (total + (range_end_of count start - start) * digits))
  where
    added : ℕ
    added = total + (range_end_of count start - start) * digits

    go :
        (b c : Bool)
        → added ≤ range_loop exact fuel count (range_end_of count start) (suc digits) added
        → total ≤ (
            if b
            then total
            else if c
            then added
            else range_loop exact fuel count (range_end_of count start) (suc digits) added)
    go true c later = omega arith
    go false true later = omega arith
    go false false later = omega (arith, later)

module _ (to_double : ℕ → ℕ) (safe : (n : ℕ) → n ≤ max_safe_integer → to_double n ≡ n) where
  sum-exact : (a b : ℕ) → a + b ≤ max_safe_integer → to_double (a + to_double b) ≡ a + b
  sum-exact a b h = ap (λ x. to_double (a + x)) (safe b (omega (arith, h))) ∙ safe (a + b) h

  range_loop-exact :
      (fuel count start digits total : ℕ)
      → range_loop exact fuel count start digits total ≤ max_safe_integer
      → range_loop to_double fuel count start digits total
        ≡ range_loop exact fuel count start digits total
  unfolding range_loop
  range_loop-exact zero count start digits total h = refl
  range_loop-exact (suc fuel) count start digits total h =
      go (not (ltb start count)) (range_end_of count start == count)
        (λ k.
          range_loop-exact fuel count (range_end_of count start) (suc digits)
            (total + (range_end_of count start - start) * digits) k)
        h
    where
      end : ℕ
      end = range_end_of count start

      product : ℕ
      product = (end - start) * digits

      added : ℕ
      added = total + product

      rounded : ℕ
      rounded = to_double (total + to_double product)

      go :
          (b c : Bool)
          → (range_loop exact fuel count end (suc digits) added ≤ max_safe_integer
              → range_loop to_double fuel count end (suc digits) added
                ≡ range_loop exact fuel count end (suc digits) added)
          → (if b
              then total
              else if c
              then added
              else range_loop exact fuel count end (suc digits) added)
            ≤ max_safe_integer
          → (if b
              then total
              else if c
              then rounded
              else range_loop to_double fuel count end (suc digits) rounded)
            ≡ (if b
                then total
                else if c
                then added
                else range_loop exact fuel count end (suc digits) added)
      go true c later k = refl
      go false true later k = sum-exact total product k
      go false false later k =
          ap (λ x. range_loop to_double fuel count end (suc digits) x)
            (sum-exact total product
              (omega (arith, k, range_loop-grows fuel count end (suc digits) added)))
          ∙ later k

  -- If the result is a safe integer, nothing is rounded on the way.
  pub phase_bytes-exact :
      (count request_base response_base : ℕ)
      → request_base + response_base ≤ max_safe_integer
      → phase_bytes exact count request_base response_base ≤ max_safe_integer
      → phase_bytes to_double count request_base response_base
        ≡ phase_bytes exact count request_base response_base
  unfolding phase_bytes
  phase_bytes-exact count a b small h = rw (bases, loop, first, second) (safe _ h)
    where
      extra : ℕ
      extra = range_loop exact count count 10 1 0

      bases : to_double (a + b) ≡ a + b
      bases = safe (a + b) small

      loop : range_loop to_double count count 10 1 0 ≡ extra
      loop = range_loop-exact count count 10 1 0 (omega (arith, h))

      first : to_double (count * (a + b)) ≡ count * (a + b)
      first = safe (count * (a + b)) (omega (arith, h))

      second : to_double (2 * extra) ≡ 2 * extra
      second = safe (2 * extra) (omega (arith, h))
