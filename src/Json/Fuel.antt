-- ===== src/Json/Fuel.antt =====
-- What stands at the start of a text that `JSON.stringify` prints, and why the length of that text
-- pays for the steps that `JSON.parse` takes on it.

use node_ipc.Base.{
  ◌≡◌, refl, ℕ, ◌+◌, ◌*◌, ◌≤◌, Bool, true, false, ◌||◌, [], ◌∷◌, ◌++◌, none, ◌==◌, length, arith,
  length-append,
}
use node_ipc.Text.{Text, text}
use node_ipc.Json.{
  Value, Items, Fields, undefined, null, bool, num, str, arr, obj, nil, cons, end, field,
}
use node_ipc.Json.Print.{is_undefined, comma, quote, escape, print, print_items, print_fields}
use node_ipc.Json.Parse.{
  is_space, is_digit, at_start, number_step, number_from, is_number, skip, expect,
}
use node_ipc.Json.Plain.{
  is_plain, plain_items, plain_fields, need, need_items, need_fields, number_from-wrong,
}

-- The text of a value begins with a unit that is no blank and no closing bracket.
pub record Begins (s : Text) : Type 0 where
  head : ℕ
  tail : Text
  splits : s ≡ head ∷ tail
  no_space : is_space head ≡ false
  no_bracket : (head == b']') ≡ false

pub number_lead_unit :
    (c : ℕ) (n : Text) → number_from at_start (c ∷ n) ≡ true → (is_digit c || c == b'-') ≡ true
unfolding number_from number_step is_digit
number_lead_unit c n h = ground (arith, number_from-wrong n)

number-Begins : (n rest : Text) → is_number n ≡ true → Begins (n ++ rest)
unfolding is_number
number-Begins [] rest h = unfold number_from in cc
number-Begins (c ∷ n) rest h = record {
  head = c;
  tail = n ++ rest;
  splits = refl;
  no_space = unfold is_space is_digit in ground (arith, number_lead_unit c n h);
  no_bracket = unfold is_digit in ground (arith, number_lead_unit c n h);
}

pub print-Begins : (v : Value) (rest : Text) → is_plain v ≡ true → Begins (print v rest)
unfolding is_plain print is_space
print-Begins undefined rest h = cc
print-Begins null rest h = record {
  head = b'n';
  tail = text "ull" ++ rest;
  splits = refl;
  no_space = refl;
  no_bracket = refl;
}
print-Begins (bool true) rest h = record {
  head = b't';
  tail = text "rue" ++ rest;
  splits = refl;
  no_space = refl;
  no_bracket = refl;
}
print-Begins (bool false) rest h = record {
  head = b'f';
  tail = text "alse" ++ rest;
  splits = refl;
  no_space = refl;
  no_bracket = refl;
}
print-Begins (num n) rest h = number-Begins n rest h
print-Begins (str s) rest h = record {
  head = b'"';
  tail = escape false s ++ (b'"' ∷ rest);
  splits = refl;
  no_space = refl;
  no_bracket = refl;
}
print-Begins (arr xs) rest h = record {
  head = b'[';
  tail = print_items true xs rest;
  splits = refl;
  no_space = refl;
  no_bracket = refl;
}
print-Begins (obj fs) rest h = record {
  head = b'{';
  tail = print_fields true fs rest;
  splits = refl;
  no_space = refl;
  no_bracket = refl;
}

pub skip_comma : (t : Text) → skip (b',' ∷ t) ≡ b',' ∷ t
unfolding skip
skip_comma t = refl

pub skip_colon : (t : Text) → skip (b':' ∷ t) ≡ b':' ∷ t
unfolding skip
skip_colon t = refl

pub skip_brace : (t : Text) → skip (b'}' ∷ t) ≡ b'}' ∷ t
unfolding skip
skip_brace t = refl

pub skip_quote : (t : Text) → skip (b'"' ∷ t) ≡ b'"' ∷ t
unfolding skip
skip_quote t = refl

pub Begins-skip : {s : Text} → Begins s → skip s ≡ s
unfolding skip
Begins-skip b = rw b.splits (rw (b.no_space, skip))

pub Begins-expect : {s : Text} → Begins s → expect b']' s ≡ none
unfolding expect
Begins-expect b = rw b.splits (rw (b.no_bracket, expect))

number-le : (n rest : Text) → is_number n ≡ true → 1 + 3 * length rest ≤ 3 * length (n ++ rest)
unfolding is_number number_from
number-le [] rest h = cc
number-le (c ∷ n) rest h = omega (arith, length-append n rest)

pub print_fields-field :
    (first : Bool) (k : Text) (v : Value) (fs : Fields) (rest : Text)
    → is_plain v ≡ true
    → print_fields first (field k v fs) rest
      ≡ comma first (quote k (b':' ∷ print v (print_fields false fs rest)))
unfolding print is_undefined is_plain
print_fields-field first k undefined fs rest h = cc
print_fields-field first k _ fs rest h = refl

length-print_fields :
    (first : Bool) (k : Text) (v : Value) (fs : Fields) (rest : Text)
    → is_plain v ≡ true
    → 3 + length (print v (print_fields false fs rest))
      ≤ length (print_fields first (field k v fs) rest)
unfolding comma quote
length-print_fields first k v fs rest h = rw (print_fields-field first k v fs rest h) (
    ground
      (arith, length-append (escape false k) (b'"' ∷ b':' ∷ print v (print_fields false fs rest))))

-- The fuel that a value needs is paid for by the length of its text.
mutual
  unfolding need print quote comma is_plain is_undefined

  pub need-le :
      (v : Value) (rest : Text)
      → is_plain v ≡ true
      → need v + 3 * length rest ≤ 3 * length (print v rest)
  need-le undefined rest h = cc
  need-le null rest h = omega arith
  need-le (bool true) rest h = omega arith
  need-le (bool false) rest h = omega arith
  need-le (num n) rest h = number-le n rest h
  need-le (str s) rest h = omega (arith, length-append (escape false s) (b'"' ∷ rest))
  need-le (arr nil) rest h = omega arith
  need-le (arr (cons x xs)) rest h = omega (
    arith,
    need-le x (print_items false xs rest) (ground arith),
    need_items-le xs rest (ground arith),
  )
  need-le (obj end) rest h = omega arith
  need-le (obj (field k v fs)) rest h = omega (
    arith,
    length-print_fields true k v fs rest (ground arith),
    need-le v (print_fields false fs rest) (ground arith),
    need_fields-le fs rest (ground arith),
  )

  need_items-le :
      (xs : Items) (rest : Text)
      → plain_items xs ≡ true
      → need_items xs + 2 + 3 * length rest ≤ 3 * length (print_items false xs rest)
  need_items-le nil rest h = omega arith
  need_items-le (cons x xs) rest h = omega (
    arith,
    need-le x (print_items false xs rest) (ground arith),
    need_items-le xs rest (ground arith),
  )

  need_fields-le :
      (fs : Fields) (rest : Text)
      → plain_fields fs ≡ true
      → need_fields fs + 2 + 3 * length rest ≤ 3 * length (print_fields false fs rest)
  need_fields-le end rest h = omega arith
  need_fields-le (field k v fs) rest h = omega (
    arith,
    length-print_fields false k v fs rest (ground arith),
    need-le v (print_fields false fs rest) (ground arith),
    need_fields-le fs rest (ground arith),
  )
