-- ===== src/Interop/Decimal.antt =====
-- Whole numbers as JavaScript writes and reads them in base ten.
use node_ipc.Base.{
  ◌≡◌, refl, ap, ◌∙◌, ℕ, zero, suc, ◌+◌, ◌-◌, ◌*◌, ◌/◌, ◌%◌, ◌≤◌, ◌<◌, Bool, true, ◌&&◌, [], ◌∷◌,
  ◌++◌, ltb, leb, if◌then◌else◌, arith, length, length-append, Bool-cases, inl, inr,
}
use node_ipc.Text.{Text}

-- `String(n)`, on fuel: each round takes a digit off.
digits_from : ℕ → ℕ → Text
digits_from zero n = []
digits_from (suc fuel) n =
    let high = digits_from fuel (n / 10) in
    if ltb n 10 then (b'0' + n) ∷ [] else high ++ (b'0' + n % 10) ∷ []

unfoldable pub decimal : ℕ → Text
unfolding digits_from
decimal n = digits_from (suc n) n

unfoldable pub is_decimal_digit : ℕ → Bool
is_decimal_digit c = leb b'0' c && leb c b'9'

-- `/^\d+$/`
unfoldable pub all_digits : Text → Bool
unfolding is_decimal_digit
all_digits [] = true
all_digits (c ∷ t) = is_decimal_digit c && all_digits t

-- `Number(t)` for a text of digits
unfoldable pub value_from : ℕ → Text → ℕ
value_from n [] = n
value_from n (c ∷ t) = value_from (n * 10 + (c - b'0')) t

value_from-append : (n : ℕ) (s t : Text) → value_from n (s ++ t) ≡ value_from (value_from n s) t
unfolding value_from
value_from-append n [] t = refl
value_from-append n (c ∷ s) t = value_from-append (n * 10 + (c - b'0')) s t

all_digits-append :
    (s t : Text) → all_digits s ≡ true → all_digits t ≡ true → all_digits (s ++ t) ≡ true
unfolding all_digits
all_digits-append [] t hs ht = ht
all_digits-append (c ∷ s) t hs ht = ground (arith, hs, all_digits-append s t)

digits_from-all_digits : (fuel n : ℕ) → all_digits (digits_from fuel n) ≡ true
unfolding digits_from all_digits is_decimal_digit
digits_from-all_digits zero n = refl
digits_from-all_digits (suc fuel) n = elim (Bool-cases (ltb n 10)) [
  | inl small ↦ rw small (ground arith)
  | inr large ↦ rw large (
      all_digits-append (digits_from fuel (n / 10)) ((b'0' + n % 10) ∷ [])
        (digits_from-all_digits fuel (n / 10)) (ground arith))
]

digits_from-value : (fuel n : ℕ) → n < fuel → value_from 0 (digits_from fuel n) ≡ n
unfolding digits_from value_from
digits_from-value zero n h = absurd (omega arith)
digits_from-value (suc fuel) n h = elim (Bool-cases (ltb n 10)) [
  | inl small ↦ rw small (ground arith)
  | inr large ↦
      let high = digits_from-value fuel (n / 10) (ground arith) in
      rw large (
        value_from-append 0 (digits_from fuel (n / 10)) ((b'0' + n % 10) ∷ [])
        ∙ ap (λ v. value_from v ((b'0' + n % 10) ∷ [])) high
        ∙ ground arith)
]

pub decimal-all_digits : (n : ℕ) → all_digits (decimal n) ≡ true
unfolding decimal
decimal-all_digits n = digits_from-all_digits (suc n) n

pub decimal-value : (n : ℕ) → value_from 0 (decimal n) ≡ n
unfolding decimal
decimal-value n = digits_from-value (suc n) n (omega arith)

-- The number of digits.
unfoldable pub digit_count : ℕ → ℕ
unfolding decimal
digit_count n = length (decimal n)

-- `10 ^ k`
unfoldable pub power : ℕ → ℕ
power zero = 1
power (suc k) = 10 * power k

pub one-le-power : (k : ℕ) → 1 ≤ power k
unfolding power
one-le-power zero = omega arith
one-le-power (suc k) = omega (arith, one-le-power k)

digits_from-length :
    (fuel k n : ℕ) → n < fuel → power k ≤ n → n < 10 * power k → length (digits_from fuel n) ≡ suc k
unfolding digits_from power
digits_from-length zero k n h low high = absurd (omega arith)
digits_from-length (suc fuel) zero n h low high = ground arith
digits_from-length (suc fuel) (suc k) n h low high = elim (Bool-cases (ltb n 10)) [
  | inl small ↦ absurd (ground (arith, one-le-power k))
  | inr large ↦
      let rest = digits_from-length fuel k (n / 10) (ground arith) (omega arith) (omega arith) in
      rw large
        (length-append (digits_from fuel (n / 10)) ((b'0' + n % 10) ∷ []) ∙ omega (arith, rest))
]

-- A number between two powers of ten has as many digits as the upper one has zeros.
pub digit_count-eq : (k n : ℕ) → power k ≤ n → n < 10 * power k → digit_count n ≡ suc k
unfolding digit_count decimal
digit_count-eq k n low high = digits_from-length (suc n) k n (omega arith) low high

pub digit_count_zero : digit_count 0 ≡ 1
unfolding digit_count digits_from
digit_count_zero = refl

one-le-digit_count : (n : ℕ) → 1 ≤ digit_count n
unfolding digit_count decimal digits_from
one-le-digit_count n = ground (arith, length-append (digits_from n (n / 10)) ((b'0' + n % 10) ∷ []))

pub one-le-length-decimal : (n : ℕ) → 1 ≤ length (decimal n)
unfolding digit_count
one-le-length-decimal n = one-le-digit_count n
