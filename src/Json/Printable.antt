-- ===== src/Json/Printable.antt =====
-- `JSON.stringify` prints no control characters, so a delimiter that is one stands in no frame.
use node_ipc.Base.{
  ◌≡◌, refl, sym, subst, ℕ, ◌≤◌, ◌/◌, ◌%◌, Bool, true, false, ◌&&◌, inl, inr, [], ◌∷◌, arith, All,
  All-append, Bool-cases,
}
use node_ipc.Text.{Text, text, is_high, is_low}
use node_ipc.Json.{
  Value, Items, Fields, undefined, null, bool, num, str, arr, obj, nil, cons, end, field,
}
use node_ipc.Json.Print.{
  hex_digit, unicode_escape, escape_unit, low_first, escape, comma, quote, print, print_items,
  print_fields, stringify,
}
use node_ipc.Json.Parse.{is_digit, is_number_unit, number_from, number_step, at_start, Spot}
use node_ipc.Json.Plain.{is_plain, plain_items, plain_fields, number_from-unit}
use node_ipc.Json.Fuel.{print_fields-field}

abbrev pub IsPrintable : Text → Type 0
IsPrintable s = All (λ c. 32 ≤ c) s

hex_digit-le : (n : ℕ) → 32 ≤ hex_digit n
unfolding hex_digit
hex_digit-le n = ground arith

escape_unit-IsPrintable : (c : ℕ) → IsPrintable (escape_unit c)
unfolding escape_unit unicode_escape
escape_unit-IsPrintable c = ground (
  arith,
  hex_digit-le (c / 4096 % 16),
  hex_digit-le (c / 256 % 16),
  hex_digit-le (c / 16 % 16),
  hex_digit-le (c % 16),
)

escape-IsPrintable :
    (paired : Bool) (s : Text)
    → (paired ≡ true → low_first s ≡ true)
    → IsPrintable (escape paired s)
unfolding escape
escape-IsPrintable paired [] h = tt
escape-IsPrintable true (c ∷ s) h =
    (unfold low_first is_low in ground (arith, h refl), escape-IsPrintable false s (λ e. cc))
escape-IsPrintable false (c ∷ s) h = elim (Bool-cases (is_high c && low_first s)) [
  | inl e ↦ rw e (unfold is_high in ground arith, escape-IsPrintable true s (λ _. ground arith))
  | inr e ↦ rw e (
      All-append _ (escape_unit c) _ (escape_unit-IsPrintable c)
        (escape-IsPrintable false s (λ e. cc)))
]

quote-IsPrintable : (s rest : Text) → IsPrintable rest → IsPrintable (quote s rest)
unfolding quote
quote-IsPrintable s rest h = (
  omega arith,
  All-append _ (escape false s) _ (escape-IsPrintable false s (λ e. cc)) (omega arith, h),
)

comma-IsPrintable : (first : Bool) (rest : Text) → IsPrintable rest → IsPrintable (comma first rest)
unfolding comma
comma-IsPrintable true rest h = h
comma-IsPrintable false rest h = (omega arith, h)

unit-le : (c : ℕ) → is_number_unit c ≡ true → 32 ≤ c
unfolding is_number_unit is_digit
unit-le c h = ground arith

number-IsPrintable : (p : Spot) (n : Text) → number_from p n ≡ true → IsPrintable n
number-IsPrintable p [] h = tt
number-IsPrintable p (c ∷ n) h = (
  unit-le c (number_from-unit p c n h),
  number-IsPrintable (number_step p c) n (unfold number_from in h),
)

mutual
  unfolding print is_plain

  print-IsPrintable :
      (v : Value) (rest : Text) → is_plain v ≡ true → IsPrintable rest → IsPrintable (print v rest)
  print-IsPrintable undefined rest h r = cc
  print-IsPrintable null rest h r = All-append _ (text "null") rest (omega arith) r
  print-IsPrintable (bool true) rest h r = All-append _ (text "true") rest (omega arith) r
  print-IsPrintable (bool false) rest h r = All-append _ (text "false") rest (omega arith) r
  print-IsPrintable (num n) rest h r = All-append _ n rest (number-IsPrintable at_start n h) r
  print-IsPrintable (str s) rest h r = quote-IsPrintable s rest r
  print-IsPrintable (arr xs) rest h r = (omega arith, items-IsPrintable true xs rest h r)
  print-IsPrintable (obj fs) rest h r = (omega arith, fields-IsPrintable true fs rest h r)

  items-IsPrintable :
      (first : Bool) (xs : Items) (rest : Text)
      → plain_items xs ≡ true
      → IsPrintable rest
      → IsPrintable (print_items first xs rest)
  items-IsPrintable first nil rest h r = (omega arith, r)
  items-IsPrintable first (cons x xs) rest h r =
      comma-IsPrintable first _
        (print-IsPrintable x _ (ground arith) (items-IsPrintable false xs rest (ground arith) r))

  fields-IsPrintable :
      (first : Bool) (fs : Fields) (rest : Text)
      → plain_fields fs ≡ true
      → IsPrintable rest
      → IsPrintable (print_fields first fs rest)
  fields-IsPrintable first end rest h r = (omega arith, r)
  fields-IsPrintable first (field k v fs) rest h r =
      subst IsPrintable (sym (print_fields-field first k v fs rest (ground arith))) (
        comma-IsPrintable first _ (
          quote-IsPrintable k _ (
            omega arith,
            print-IsPrintable v _ (ground arith)
                (fields-IsPrintable false fs rest (ground arith) r),
          )))

pub stringify-IsPrintable : (v : Value) → is_plain v ≡ true → IsPrintable (stringify v)
unfolding stringify
stringify-IsPrintable v h = print-IsPrintable v [] h tt
