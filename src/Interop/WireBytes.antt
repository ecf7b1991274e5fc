-- ===== src/Interop/WireBytes.antt =====
-- `wireBytesForPhase` of rust/node-ipc/interop/node-peer.js.
pub mod Frames
pub mod Rounding
use node_ipc.Base.{
  ◌≡◌, refl, sym, ap, subst, ◌∙◌, ◌⊎◌, inl, inr, ℕ, zero, suc, ◌+◌, ◌-◌, ◌*◌, ◌/◌, ◌≤◌, ◌<◌, Bool,
  true, false, not, ltb, ◌==◌, if◌then◌else◌, arith, Bool-cases,
}
use node_ipc.Text.{Text, byte_length}
use node_ipc.Json.{Value}
use node_ipc.Interop.{max_safe_integer, request_event, response_event, request_data}
use node_ipc.Interop.Decimal.{digit_count, digit_count-eq, digit_count_zero, power, one-le-power}

-- `rangeEnd`
unfoldable pub range_end_of : ℕ → ℕ → ℕ
range_end_of count range_start =
    if ltb (max_safe_integer / 10) range_start
    then count
    else if ltb count (range_start * 10)
    then count
    else range_start * 10

-- The loop on `rangeStart`, `extraDigits` and `extraSequenceDigits`, on fuel; each round raises `rangeStart`.
-- `to_double` rounds the exact result of an operation to a number; the bounds of the ranges are safe integers,
-- and so are their differences.
unfoldable pub range_loop : (ℕ → ℕ) → ℕ → ℕ → ℕ → ℕ → ℕ → ℕ
unfolding range_end_of
range_loop to_double zero count range_start extra_digits total = total
range_loop to_double (suc fuel) count range_start extra_digits total =
    let range_end = range_end_of count range_start in
    let added = to_double (total + to_double ((range_end - range_start) * extra_digits)) in
    let more = range_loop to_double fuel count range_end (suc extra_digits) added in
    if not (ltb range_start count) then total else if range_end == count then added else more

-- What is returned, from the bytes of the request and of the response with the sequence number 0.
unfoldable pub phase_bytes : (ℕ → ℕ) → ℕ → ℕ → ℕ → ℕ
unfolding range_loop
phase_bytes to_double count request_base response_base = to_double (
    to_double (count * to_double (request_base + response_base))
    + to_double (2 * range_loop to_double count count 10 1 0))

-- `wireBytesForPhase`
unfoldable pub wire_bytes_for_phase : (ℕ → ℕ) → ℕ → Text → (Text → Value → Text) → ℕ
unfolding phase_bytes byte_length request_data
wire_bytes_for_phase to_double count payload encode =
    let request_base = byte_length (encode request_event (request_data 0 payload)) in
    let response_base = byte_length (encode response_event (request_data 0 payload)) in
    phase_bytes to_double count request_base response_base

-- Without rounding.
abbrev pub exact : ℕ → ℕ
exact n = n

-- `f s + … + f (s + m - 1)`
unfoldable pub sum_from : ℕ → ℕ → (ℕ → ℕ) → ℕ
sum_from s zero f = 0
sum_from s (suc m) f = sum_from s m f + f (s + m)

-- The digits of a number behind its first.
unfoldable pub extra : ℕ → ℕ
unfolding digit_count
extra n = digit_count n - 1

sum_from_plus :
    (s m n : ℕ) (f : ℕ → ℕ) → sum_from s (m + n) f ≡ sum_from s m f + sum_from (s + m) n f
unfolding sum_from
sum_from_plus s m zero f =
    let same : m + 0 ≡ m = omega arith in ap (λ k. sum_from s k f) same ∙ omega arith
sum_from_plus s m (suc n) f =
    let regroup : s + (m + n) ≡ s + m + n = omega arith in
    let next : m + suc n ≡ suc (m + n) = omega arith in
    ap (λ k. sum_from s k f) next ∙ omega (arith, sum_from_plus s m n f, ap f regroup)

sum_from_split :
    (s t count : ℕ) (f : ℕ → ℕ)
    → s ≤ t
    → t ≤ count
    → sum_from s (count - s) f ≡ sum_from s (t - s) f + sum_from t (count - t) f
sum_from_split s t count f low high =
    let whole : count - s ≡ (t - s) + (count - t) = omega (arith, low, high) in
    let middle : s + (t - s) ≡ t = omega (arith, low) in
    ap (λ k. sum_from s k f) whole
    ∙ sum_from_plus s (t - s) (count - t) f
    ∙ ap (λ k. sum_from s (t - s) f + sum_from k (count - t) f) middle

-- The numbers between two powers of ten.
sum_from-extra : (k s m : ℕ) → power k ≤ s → s + m ≤ 10 * power k → sum_from s m extra ≡ m * k
unfolding sum_from extra
sum_from-extra k s zero low high = omega arith
sum_from-extra k s (suc m) low high =
    let here = digit_count-eq k (s + m) (omega (arith, low)) (omega (arith, high)) in
    let rest = sum_from-extra k s m low (omega (arith, high)) in rw (here, rest) (grind arith)

range_end-cases :
    (d count : ℕ)
    → power d < count
    → count ≤ max_safe_integer
    → ((range_end_of count (power d) ≡ count) × (count ≤ 10 * power d))
      ⊎ ((range_end_of count (power d) ≡ power (suc d)) × (10 * power d < count))
unfolding range_end_of power
range_end-cases d count more safe = elim (Bool-cases (ltb (10 * power d) count)) [
  | inl large ↦ inr (ground (arith, large, more, safe), ground (arith, large))
  | inr small ↦ inl (ground (arith, small, more, safe), ground (arith, small))
]

loop-last :
    (fuel d count total : ℕ)
    → power d < count
    → range_end_of count (power d) ≡ count
    → range_loop exact (suc fuel) count (power d) d total ≡ total + (count - power d) * d
unfolding range_loop
loop-last fuel d count total more e = rw e (ground (arith, more))

loop-next :
    (fuel d count total : ℕ)
    → power d < count
    → range_end_of count (power d) ≡ power (suc d)
    → power (suc d) < count
    → range_loop exact (suc fuel) count (power d) d total
      ≡ range_loop exact fuel count (power (suc d)) (suc d) (total + (power (suc d) - power d) * d)
unfolding range_loop
loop-next fuel d count total more e less = rw e (ground (arith, more, less))

loop-stops :
    (fuel d count total : ℕ)
    → count ≤ power d
    → range_loop exact fuel count (power d) d total ≡ total
unfolding range_loop
loop-stops zero d count total h = refl
loop-stops (suc fuel) d count total h = ground (arith, h)

stopped :
    (d count total : ℕ)
    → count ≤ power d
    → total ≡ total + sum_from (power d) (count - power d) extra
unfolding sum_from
stopped d count total h =
    let none_left : count - power d ≡ 0 = omega (arith, h) in rw none_left (omega arith)

range_loop-eq :
    (fuel d count total : ℕ)
    → count ≤ power d + fuel
    → count ≤ max_safe_integer
    → range_loop exact fuel count (power d) d total
      ≡ total + sum_from (power d) (count - power d) extra
unfolding power
range_loop-eq zero d count total enough safe =
    loop-stops zero d count total (omega (arith, enough))
    ∙ stopped d count total (omega (arith, enough))
range_loop-eq (suc fuel) d count total enough safe = elim (Bool-cases (ltb (power d) count)) [
  | inr last ↦
      loop-stops (suc fuel) d count total (ground (arith, last))
      ∙ stopped d count total (ground (arith, last))
  | inl more ↦
      let less : power d < count = ground (arith, more) in
      elim (range_end-cases d count less safe) [
        | inl (e, near) ↦
            loop-last fuel d count total less e
            ∙ ap (λ k. total + k)
                (sym (
                  sum_from-extra d (power d) (count - power d) (omega arith)
                    (omega (arith, less, near))))
        | inr (e, far) ↦
            let next = power (suc d) in
            let added = total + (next - power d) * d in
            let grows : count ≤ next + fuel = omega (arith, one-le-power d, enough) in
            let here = sum_from-extra d (power d) (next - power d) (omega arith) (omega arith) in
            loop-next fuel d count total less e far
            ∙ range_loop-eq fuel (suc d) count added grows safe
            ∙ finish total _ _ _ _ here
                (sum_from_split (power d) next count extra (omega arith) (omega (arith, far)))
      ]
]
  where
    finish : (t a b c e : ℕ) → b ≡ a → c ≡ b + e → t + a + e ≡ t + c
    finish t a b c e h k = omega (arith, h, k)

one_digit : (m : ℕ) → m < 10 → extra m ≡ 0
unfolding extra power
one_digit zero h = ap (λ k. k - 1) digit_count_zero
one_digit (suc m) h = rw (digit_count-eq 0 (suc m) (omega arith) (omega (arith, h))) refl

below_ten : (m : ℕ) → m ≤ 10 → sum_from 0 m extra ≡ 0
unfolding sum_from
below_ten zero h = refl
below_ten (suc m) h = rw (below_ten m (omega (arith, h)), one_digit (0 + m) (omega (arith, h))) refl

all_digits_extra : (count : ℕ) → sum_from 10 (count - 10) extra ≡ sum_from 0 count extra
unfolding sum_from
all_digits_extra count = elim (Bool-cases (ltb count 10)) [
  | inl small ↦
      let none_left : count - 10 ≡ 0 = ground (arith, small) in
      rw (none_left, below_ten count (ground (arith, small))) refl
  | inr large ↦
      let high : 10 ≤ count = ground (arith, large) in
      let all : count - 0 ≡ count = omega arith in
      let split = sum_from_split 0 10 count extra (omega arith) high in
      omega (arith, below_ten 10 (omega arith), split, ap (λ k. sum_from 0 k extra) all)
]

sum_from_both :
    (a b s m : ℕ)
    → sum_from s m (λ n. (a + extra n) + (b + extra n)) ≡ m * (a + b) + 2 * sum_from s m extra
unfolding sum_from
sum_from_both a b s zero = omega arith
sum_from_both a b s (suc m) = rw (sum_from_both a b s m) (grind arith)

-- The digits behind the first of all sequence numbers are counted.
pub phase_bytes-eq :
    (count request_base response_base : ℕ)
    → count ≤ max_safe_integer
    → phase_bytes exact count request_base response_base
      ≡ sum_from 0 count (λ n. (request_base + extra n) + (response_base + extra n))
unfolding phase_bytes power
phase_bytes-eq count request_base response_base safe =
    let loop : range_loop exact count count 10 1 0 ≡ 0 + sum_from 10 (count - 10) extra =
      range_loop-eq count 1 count 0 (omega arith) safe in
    let digits : range_loop exact count count 10 1 0 ≡ sum_from 0 count extra =
      omega (arith, loop, all_digits_extra count) in
    sym (
      sum_from_both request_base response_base 0 count
      ∙ ap (λ k. count * (request_base + response_base) + 2 * k) (sym digits))
