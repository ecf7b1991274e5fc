-- ===== src/Json/Parse.antt =====
-- `JSON.parse(text)`, with `none` for the `SyntaxError` that it throws. A number keeps its literal.
-- Three calls at most come between two units that are read, so three for each unit is fuel enough.
use node_ipc.Base.{
  ◌≡◌, refl, ℕ, zero, suc, ◌+◌, ◌-◌, ◌*◌, Bool, true, false, ◌&&◌, ◌||◌, [], ◌∷◌, Option, none,
  some, ltb, leb, ◌==◌, if◌then◌else◌, length, drop,
}
use node_ipc.Text.{Text, text, starts_with}
use node_ipc.Json.{Value, Items, Fields, null, bool, num, str, arr, obj, nil, cons, end, field}

unfoldable pub is_space : ℕ → Bool
is_space c = c == b' ' || c == 9 || c == 10 || c == 13

unfoldable pub skip : Text → Text
unfolding is_space
skip [] = []
skip (c ∷ s) = let rest = skip s in if is_space c then rest else c ∷ s

unfoldable pub is_digit : ℕ → Bool
is_digit c = leb b'0' c && leb c b'9'

unfoldable pub is_number_unit : ℕ → Bool
unfolding is_digit
is_number_unit c = is_digit c || c == b'-' || c == b'+' || c == b'.' || c == b'e' || c == b'E'

-- The grammar of a number, `-?(0|[1-9]\d*)(\.\d+)?([eE][+-]?\d+)?`, as a state machine.
pub data Spot : Type 0 where
  at_start after_minus after_zero in_whole after_point in_fraction after_e after_sign in_exponent :
      Spot
  wrong : Spot

unfoldable pub number_step : Spot → ℕ → Spot
unfolding is_digit
number_step at_start c =
    if c == b'-'
    then after_minus
    else if c == b'0'
    then after_zero
    else if is_digit c
    then in_whole
    else wrong
number_step after_minus c = if c == b'0' then after_zero else if is_digit c then in_whole else wrong
number_step after_zero c =
    if c == b'.' then after_point else if c == b'e' || c == b'E' then after_e else wrong
number_step in_whole c =
    if is_digit c
    then in_whole
    else if c == b'.'
    then after_point
    else if c == b'e' || c == b'E'
    then after_e
    else wrong
number_step after_point c = if is_digit c then in_fraction else wrong
number_step in_fraction c =
    if is_digit c then in_fraction else if c == b'e' || c == b'E' then after_e else wrong
number_step after_e c =
    if c == b'+' || c == b'-' then after_sign else if is_digit c then in_exponent else wrong
number_step after_sign c = if is_digit c then in_exponent else wrong
number_step in_exponent c = if is_digit c then in_exponent else wrong
number_step wrong c = wrong

unfoldable pub may_end : Spot → Bool
may_end after_zero = true
may_end in_whole = true
may_end in_fraction = true
may_end in_exponent = true
may_end at_start = false
may_end after_minus = false
may_end after_point = false
may_end after_e = false
may_end after_sign = false
may_end wrong = false

unfoldable pub number_from : Spot → Text → Bool
unfolding number_step may_end
number_from p [] = may_end p
number_from p (c ∷ s) = number_from (number_step p c) s

-- A literal of the grammar.
unfoldable pub is_number : Text → Bool
unfolding number_from is_number_unit
is_number n = number_from at_start n

-- The longest run of units that numbers are made of, and what follows it.
unfoldable pub span : Text → Text × Text
unfolding is_number_unit
span [] = ([], [])
span (c ∷ s) = let (n, rest) = span s in if is_number_unit c then (c ∷ n, rest) else ([], c ∷ s)

unfoldable pub hex_value : ℕ → Option ℕ
hex_value c =
    if leb b'0' c && leb c b'9'
    then some (c - b'0')
    else if leb b'a' c && leb c b'f'
    then some (c - b'a' + 10)
    else if leb b'A' c && leb c b'F'
    then some (c - b'A' + 10)
    else none

-- What `\c` stands for, if `c` is not `u`.
unfoldable pub unescape : ℕ → Option ℕ
unescape c =
    if c == b'"' || c == b'\\' || c == b'/'
    then some c
    else if c == b'b'
    then some 8
    else if c == b'f'
    then some 12
    else if c == b'n'
    then some 10
    else if c == b'r'
    then some 13
    else if c == b't'
    then some 9
    else none

-- Where the reader of a string stands: between units, behind a backslash, or with that many
-- hexadecimal digits to come and the value of those read.
pub data Within : Type 0 where
  plain : Within
  after_backslash : Within
  in_hex : ℕ → ℕ → Within

pub data Read : Type 0 where
  closed : Read
  refused : Read
  unit : ℕ → Read
  on : Within → Read

unfoldable pub hex_step : ℕ → ℕ → Option ℕ → Read
hex_step left value none = refused
hex_step zero value (some d) = unit (value * 16 + d)
hex_step (suc left) value (some d) = on (in_hex left (value * 16 + d))

unfoldable pub unescape_step : Option ℕ → Read
unescape_step none = refused
unescape_step (some c) = unit c

unfoldable pub string_step : Within → ℕ → Read
unfolding hex_step hex_value unescape_step unescape
string_step plain c =
    if c == b'"'
    then closed
    else if c == b'\\'
    then on after_backslash
    else if ltb c 32
    then refused
    else unit c
string_step after_backslash c = if c == b'u' then on (in_hex 3 0) else unescape_step (unescape c)
string_step (in_hex left value) c = hex_step left value (hex_value c)

unfoldable pub prepend : ℕ → Option (Text × Text) → Option (Text × Text)
prepend c none = none
prepend c (some (s, rest)) = some (c ∷ s, rest)

-- A string behind its opening quote, and what follows its closing one.
unfoldable pub read_string : Within → Text → Option (Text × Text)
unfolding string_step prepend
read_string w [] = none
read_string w (c ∷ s) = elim (string_step w c) [
  | closed ↦ some ([], s)
  | refused ↦ none
  | unit u ↦ prepend u (read_string plain s)
  | on w' ↦ read_string w' s
]

pub data Lead : Type 0 where
  null_lead true_lead false_lead quote_lead array_lead object_lead number_lead no_lead : Lead

-- What kind of value begins with this unit.
unfoldable pub lead : ℕ → Lead
unfolding is_digit
lead c =
    if c == b'n'
    then null_lead
    else if c == b't'
    then true_lead
    else if c == b'f'
    then false_lead
    else if c == b'"'
    then quote_lead
    else if c == b'['
    then array_lead
    else if c == b'{'
    then object_lead
    else if is_digit c || c == b'-'
    then number_lead
    else no_lead

unfoldable pub keyword : Text → Value → Text → Option (Value × Text)
unfolding starts_with
keyword word v s = if starts_with word s then some (v, drop (length word) s) else none

unfoldable pub number_value : Text × Text → Option (Value × Text)
unfolding is_number
number_value (n, rest) = if is_number n then some (num n, rest) else none

unfoldable pub string_value : Option (Text × Text) → Option (Value × Text)
string_value none = none
string_value (some (s, rest)) = some (str s, rest)

unfoldable pub array_value : Option (Items × Text) → Option (Value × Text)
array_value none = none
array_value (some (xs, rest)) = some (arr xs, rest)

unfoldable pub object_value : Option (Fields × Text) → Option (Value × Text)
object_value none = none
object_value (some (fs, rest)) = some (obj fs, rest)

-- The text behind one unit that must come next.
unfoldable pub expect : ℕ → Text → Option Text
expect c [] = none
expect c (d ∷ s) = if d == c then some s else none

-- How a list goes on behind an item: `none` where neither a comma nor the closing bracket comes.
pub data Next : Type 0 where
  ends goes_on : Text → Next
  broken : Next

unfoldable pub next : ℕ → Text → Next
next close [] = broken
next close (c ∷ s) = if c == close then ends s else if c == b',' then goes_on s else broken

unfoldable mutual
  -- A value with no blank before it, and what follows it.
  pub parse_value : ℕ → Text → Option (Value × Text)
  parse_value zero s = none
  parse_value (suc f) [] = none
  parse_value (suc f) (c ∷ s) = elim (lead c) [
    | null_lead ↦ keyword (text "null") null (c ∷ s)
    | true_lead ↦ keyword (text "true") (bool true) (c ∷ s)
    | false_lead ↦ keyword (text "false") (bool false) (c ∷ s)
    | quote_lead ↦ string_value (read_string plain s)
    | array_lead ↦ array_value (parse_items f (skip s))
    | object_lead ↦ object_value (parse_fields f (skip s))
    | number_lead ↦ number_value (span (c ∷ s))
    | no_lead ↦ none
  ]

  -- The inside of an array behind its opening bracket.
  pub parse_items : ℕ → Text → Option (Items × Text)
  parse_items zero s = none
  parse_items (suc f) s = elim (expect b']' s) [
    | some rest ↦ some (nil, rest)
    | none ↦ more_items f s
  ]

  pub more_items : ℕ → Text → Option (Items × Text)
  more_items zero s = none
  more_items (suc f) s = elim (parse_value f s) [
    | none ↦ none
    | some (x, t) ↦ elim (next b']' (skip t)) [
      | ends rest ↦ some (cons x nil, rest)
      | goes_on rest ↦ elim (more_items f (skip rest)) [
        | none ↦ none
        | some (xs, u) ↦ some (cons x xs, u)
      ]
      | broken ↦ none
    ]
  ]

  -- The inside of an object behind its opening brace.
  pub parse_fields : ℕ → Text → Option (Fields × Text)
  parse_fields zero s = none
  parse_fields (suc f) s = elim (expect b'}' s) [
    | some rest ↦ some (end, rest)
    | none ↦ more_fields f s
  ]

  pub more_fields : ℕ → Text → Option (Fields × Text)
  more_fields zero s = none
  more_fields (suc f) s = elim (expect b'"' s) [
    | none ↦ none
    | some quoted ↦ elim (read_string plain quoted) [
      | none ↦ none
      | some (k, t) ↦ elim (expect b':' (skip t)) [
        | none ↦ none
        | some u ↦ elim (parse_value f (skip u)) [
          | none ↦ none
          | some (v, w) ↦ elim (next b'}' (skip w)) [
            | ends rest ↦ some (field k v end, rest)
            | goes_on rest ↦ elim (more_fields f (skip rest)) [
              | none ↦ none
              | some (fs, z) ↦ some (field k v fs, z)
            ]
            | broken ↦ none
          ]
        ]
      ]
    ]
  ]

-- Only blanks may follow the value.
unfoldable pub whole : Option (Value × Text) → Option Value
unfolding skip
whole none = none
whole (some (v, rest)) = elim (skip rest) [ [] ↦ some v | c ∷ s ↦ none ]

unfoldable pub parse : Text → Option Value
unfolding whole parse_value skip lead keyword span number_value read_string string_value array_value
    object_value expect next
parse s = whole (parse_value (3 * suc (length s)) (skip s))

parse_runs :
    parse (text " {\"type\":\"a\\u0041\", \"data\" : [null,-1.5e3,{}] }")
    ≡ some (
        obj (
          field (text "type") (str (text "aA")) (
            field
              (text "data")
              (arr (cons null (cons (num (text "-1.5e3")) (cons (obj end) nil))))
              end)))
unfolding parse
parse_runs = refl
