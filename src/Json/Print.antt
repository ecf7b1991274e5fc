-- ===== src/Json/Print.antt =====
-- `JSON.stringify(value)`. Each piece is printed in front of the text that follows it.
use node_ipc.Base.{
  ◌≡◌, refl, ℕ, ◌+◌, ◌-◌, ◌/◌, ◌%◌, Bool, true, false, ◌&&◌, ◌||◌, [], ◌∷◌, ◌++◌, ltb, ◌==◌,
  if◌then◌else◌,
}
use node_ipc.Text.{Text, text, is_high, is_low}
use node_ipc.Json.{
  Value, Items, Fields, undefined, null, bool, num, str, arr, obj, nil, cons, end, field,
}

unfoldable pub hex_digit : ℕ → ℕ
hex_digit n = if ltb n 10 then n + b'0' else n - 10 + b'a'

-- `\uXXXX`
unfoldable pub unicode_escape : ℕ → Text
unicode_escape c =
    b'\\'
    ∷ b'u'
    ∷ hex_digit (c / 4096 % 16)
    ∷ hex_digit (c / 256 % 16)
    ∷ hex_digit (c / 16 % 16)
    ∷ hex_digit (c % 16)
    ∷ []

unfoldable pub escape_unit : ℕ → Text
unfolding is_high is_low
escape_unit c =
    if c == b'"' || c == b'\\'
    then b'\\' ∷ c ∷ []
    else if c == 8
    then b'\\' ∷ b'b' ∷ []
    else if c == 9
    then b'\\' ∷ b't' ∷ []
    else if c == 10
    then b'\\' ∷ b'n' ∷ []
    else if c == 12
    then b'\\' ∷ b'f' ∷ []
    else if c == 13
    then b'\\' ∷ b'r' ∷ []
    else if ltb c 32 || is_high c || is_low c
    then unicode_escape c
    else c ∷ []

unfoldable pub low_first : Text → Bool
unfolding is_low
low_first [] = false
low_first (c ∷ s) = is_low c

-- The flag says that the unit is the second half of a surrogate pair, which is printed as it is.
unfoldable pub escape : Bool → Text → Text
unfolding escape_unit low_first
escape paired [] = []
escape true (c ∷ s) = c ∷ escape false s
escape false (c ∷ s) =
    let pair = is_high c && low_first s in (if pair then c ∷ [] else escape_unit c) ++ escape pair s

unfoldable pub quote : Text → Text → Text
unfolding escape
quote s rest = b'"' ∷ (escape false s ++ (b'"' ∷ rest))

unfoldable pub is_undefined : Value → Bool
is_undefined undefined = true
is_undefined null = false
is_undefined (bool b) = false
is_undefined (num n) = false
is_undefined (str s) = false
is_undefined (arr xs) = false
is_undefined (obj fs) = false

unfoldable pub comma : Bool → Text → Text
comma first rest = if first then rest else b',' ∷ rest

unfoldable mutual
  unfolding is_undefined comma quote

  -- `undefined` stands for itself only in an array, as null; a field that holds it is left out.
  pub print : Value → Text → Text
  print undefined rest = text "null" ++ rest
  print null rest = text "null" ++ rest
  print (bool true) rest = text "true" ++ rest
  print (bool false) rest = text "false" ++ rest
  print (num n) rest = n ++ rest
  print (str s) rest = quote s rest
  print (arr xs) rest = b'[' ∷ print_items true xs rest
  print (obj fs) rest = b'{' ∷ print_fields true fs rest

  pub print_items : Bool → Items → Text → Text
  print_items first nil rest = b']' ∷ rest
  print_items first (cons x xs) rest = comma first (print x (print_items false xs rest))

  pub print_fields : Bool → Fields → Text → Text
  print_fields first end rest = b'}' ∷ rest
  print_fields first (field k v fs) rest = elim (is_undefined v) [
    | true ↦ print_fields first fs rest
    | false ↦ comma first (quote k (b':' ∷ print v (print_fields false fs rest)))
  ]

unfoldable pub stringify : Value → Text
unfolding print hex_digit unicode_escape
stringify v = print v []

stringify_runs :
    stringify (
      obj (
        field
          (text "type")
          (str (text "a\"\n"))
          (field (text "data") (arr (cons null (cons (num (text "1")) nil))) end)))
    ≡ text "{\"type\":\"a\\\"\\n\",\"data\":[null,1]}"
unfolding stringify
stringify_runs = refl
