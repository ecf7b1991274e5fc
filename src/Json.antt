-- ===== src/Json.antt =====
-- The JavaScript values that messages hold, and `JSON.stringify` and `JSON.parse` on them, which
-- entities/EventParser.js calls to encode and to decode a frame. A number is kept as a literal that
-- denotes it, so no floating-point arithmetic is needed.
pub mod Print
pub mod Parse
pub mod Plain
pub mod RoundTrip
pub mod Fuel
pub mod Steps
pub mod Values
pub mod Printable
use Prim.Native.String.{String}
use node_ipc.Base.{
  ℕ, Bool, true, false, not, ◌||◌, List, [], ◌∷◌, ◌==◌, if◌then◌else◌, Option, none, some,
}
use node_ipc.Text.{Text, text, text_eq}

mutual
  pub data Value : Type 0 where
    undefined : Value
    null : Value
    bool : Bool → Value
    num : Text → Value
    str : Text → Value
    arr : Items → Value
    obj : Fields → Value

  pub data Items : Type 0 where
    nil : Items
    cons : Value → Items → Items

  pub data Fields : Type 0 where
    end : Fields
    field : Text → Value → Fields → Fields

-- `object[key]` on an own property: of two fields with one key the later is the one that counts.
unfoldable pub lookup : Text → Fields → Value
unfolding text_eq
lookup k end = undefined
lookup k (field j v fs) = elim (lookup k fs) [
  | undefined ↦ if text_eq j k then v else undefined
  | found ↦ found
]

-- A literal denotes zero when no digit before its exponent is other than 0.
is_exponent : ℕ → Bool
is_exponent c = c == b'e' || c == b'E'

is_zero : Text → Bool
unfolding is_exponent
is_zero [] = true
is_zero (c ∷ s) =
    let rest = is_zero s in
    if is_exponent c
    then true
    else if c == b'0' || c == b'-' || c == b'.' || c == b'+'
    then rest
    else false

-- `Boolean(value)`
unfoldable pub truthy : Value → Bool
unfolding is_zero
truthy undefined = false
truthy null = false
truthy (bool b) = b
truthy (num n) = not (is_zero n)
truthy (str []) = false
truthy (str (c ∷ s)) = true
truthy (arr xs) = true
truthy (obj fs) = true

-- `value?.[key]`, for a key that no primitive has.
unfoldable pub get : Text → Value → Value
unfolding lookup
get k undefined = undefined
get k null = undefined
get k (bool b) = undefined
get k (num n) = undefined
get k (str s) = undefined
get k (arr xs) = undefined
get k (obj fs) = lookup k fs
