-- ===== src/Json/Steps.antt =====
-- The single steps that `JSON.parse` takes on a printed text: one for each kind of value, and one
-- for each place of an item or a field.

use node_ipc.Base.{
  ◌≡◌, refl, ap, ◌∙◌, ℕ, suc, true, false, ◌||◌, [], ◌∷◌, ◌++◌, none, some, ◌==◌, arith,
}
use node_ipc.Text.{Text, text, starts_with}
use node_ipc.Json.{Value, Items, Fields, null, bool, num, str, arr, obj, nil, cons, end, field}
use node_ipc.Json.Print.{comma, quote, escape, print, print_items, print_fields}
use node_ipc.Json.Parse.{
  is_digit, at_start, number_from, is_number, span, skip, lead, number_lead, keyword, number_value,
  string_value, array_value, object_value, expect, next, parse_value, parse_items, more_items,
  more_fields,
}
use node_ipc.Json.Plain.{is_plain, plain_fields, stops, span-number}
use node_ipc.Json.RoundTrip.{read_string-escape}
use node_ipc.Json.Fuel.{
  Begins, number_lead_unit, skip_comma, skip_colon, skip_brace, skip_quote, Begins-skip,
  Begins-expect, print_fields-field,
}

lead-number : (c : ℕ) → (is_digit c || c == b'-') ≡ true → lead c ≡ number_lead
unfolding lead is_digit
lead-number c h = ground arith

span-is_number :
    (n rest : Text) → is_number n ≡ true → stops rest ≡ true → span (n ++ rest) ≡ (n, rest)
unfolding is_number
span-is_number n rest h s = span-number at_start n rest h s

pub parse_value-number :
    (f : ℕ) (n rest : Text)
    → is_number n ≡ true
    → stops rest ≡ true
    → parse_value (suc f) (n ++ rest) ≡ some (num n, rest)
unfolding parse_value number_value
parse_value-number f [] rest h s = unfold is_number number_from in cc
parse_value-number f (c ∷ n) rest h s =
    rw (lead-number c (unfold is_number in number_lead_unit c n h), parse_value)
      (ap number_value (span-is_number (c ∷ n) rest h s) ∙ rw (h, number_value))

-- Behind an item comes its list's closing bracket, or a comma.
pub items-stops : (xs : Items) (rest : Text) → stops (print_items false xs rest) ≡ true
unfolding stops print comma
items-stops nil rest = refl
items-stops (cons x xs) rest = refl

pub fields-stops :
    (fs : Fields) (rest : Text) → plain_fields fs ≡ true → stops (print_fields false fs rest) ≡ true
unfolding stops
fields-stops end rest h = unfold print in refl
fields-stops (field k v fs) rest h =
    rw (print_fields-field false k v fs rest (unfold is_plain in ground arith))
      (unfold comma in refl)

pub parse_value-string :
    (f : ℕ) (s rest : Text) → parse_value (suc f) (print (str s) rest) ≡ some (str s, rest)
unfolding parse_value print quote lead string_value
parse_value-string f s rest = rw (read_string-escape false s rest (λ e. cc))

-- How the reader steps through a list, with the text of its items shut.
parse_items-none :
    (f : ℕ) (s : Text) → expect b']' s ≡ none → parse_items (suc f) s ≡ more_items f s
unfolding parse_value
parse_items-none f s e = rw (e, parse_items)

pub parse_value-array :
    (f : ℕ) {s : Text}
    → Begins s
    → parse_value (suc (suc f)) (b'[' ∷ s) ≡ array_value (more_items f s)
unfolding parse_value lead
parse_value-array f {s} b =
    ap (λ t. array_value (parse_items (suc f) t)) (Begins-skip b)
    ∙ ap array_value (parse_items-none f s (Begins-expect b))

pub more_items-last :
    (f : ℕ) (s : Text) {x : Value} {rest : Text}
    → parse_value f s ≡ some (x, b']' ∷ rest)
    → more_items (suc f) s ≡ some (cons x nil, rest)
unfolding parse_value skip next
more_items-last f s e = ground arith

pub more_items-more :
    (f : ℕ) (s : Text) {x : Value} {xs : Items} {t u : Text}
    → parse_value f s ≡ some (x, b',' ∷ t)
    → Begins t
    → more_items f t ≡ some (xs, u)
    → more_items (suc f) s ≡ some (cons x xs, u)
unfolding parse_value next
more_items-more f s {t} e b more = ground (arith, Begins-skip b, skip_comma t)

pub parse_value-object :
    (f : ℕ) (k s : Text)
    → parse_value (suc (suc f)) (b'{' ∷ quote k s) ≡ object_value (more_fields f (quote k s))
unfolding parse_value lead skip expect quote
parse_value-object f k s = refl

-- The key, the colon and the value of a field are read; `w` is what stands behind the value.
module _ (f : ℕ) (k s : Text) {v : Value} where
  pub more_fields-last :
      {rest : Text}
      → Begins s
      → parse_value f s ≡ some (v, b'}' ∷ rest)
      → more_fields (suc f) (quote k (b':' ∷ s)) ≡ some (field k v end, rest)
  unfolding parse_value quote next expect
  more_fields-last {rest} b e =
      ground
        (arith, read_string-escape false k (b':' ∷ s), skip_colon s, Begins-skip b, skip_brace rest)

  pub more_fields-more :
      {fs : Fields} (j t : Text) {u : Text}
      → Begins s
      → parse_value f s ≡ some (v, b',' ∷ quote j t)
      → more_fields f (quote j t) ≡ some (fs, u)
      → more_fields (suc f) (quote k (b':' ∷ s)) ≡ some (field k v fs, u)
  unfolding parse_value quote next expect
  more_fields-more j t b e more = ground (
    arith,
    read_string-escape false k (b':' ∷ s),
    skip_colon s,
    Begins-skip b,
    skip_comma (quote j t),
    skip_quote (escape false j ++ (b'"' ∷ t)),
  )

module _ (f : ℕ) (rest : Text) where
  pub parse_value-null : parse_value (suc f) (text "null" ++ rest) ≡ some (null, rest)
  unfolding parse_value lead keyword starts_with
  parse_value-null = refl

  pub parse_value-true : parse_value (suc f) (text "true" ++ rest) ≡ some (bool true, rest)
  unfolding parse_value lead keyword starts_with
  parse_value-true = refl

  pub parse_value-false : parse_value (suc f) (text "false" ++ rest) ≡ some (bool false, rest)
  unfolding parse_value lead keyword starts_with
  parse_value-false = refl

  pub parse_value-nil : parse_value (suc (suc f)) (b'[' ∷ b']' ∷ rest) ≡ some (arr nil, rest)
  unfolding parse_value lead skip expect array_value
  parse_value-nil = refl

  pub parse_value-end : parse_value (suc (suc f)) (b'{' ∷ b'}' ∷ rest) ≡ some (obj end, rest)
  unfolding parse_value lead skip expect object_value
  parse_value-end = refl

pub array_value-some :
    (xs : Items) (rest : Text) → array_value (some (xs, rest)) ≡ some (arr xs, rest)
unfolding array_value
array_value-some xs rest = refl

pub object_value-some :
    (fs : Fields) (rest : Text) → object_value (some (fs, rest)) ≡ some (obj fs, rest)
unfolding object_value
object_value-some fs rest = refl
