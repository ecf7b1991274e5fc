-- ===== src/Text.antt =====
-- JavaScript strings, as the program uses them: sequences of UTF-16 code units with `length`,
-- `indexOf` and `slice`, and `Buffer.byteLength` in UTF-8.
pub mod Search
pub mod Bytes
use Prim.Native.Char.{code}
use Prim.Native.String.{String}
use mathlib.Core.Option
use node_ipc.Base.{
  ◌≡◌, refl, arith, ℕ, suc, ◌+◌, ◌-◌, Bool, true, false, not, ◌&&◌, List, [], ◌∷◌, map, Option,
  none, some, ltb, leb, ◌==◌, if◌then◌else◌, take, drop,
}

abbrev pub Text : Type 0
Text = List ℕ

-- A literal of the source. All of those used are ASCII.
abbrev pub text : String → Text
text String.[] = []
text (String.◌∷◌ c s) = code c ∷ text s

-- `a === b`
unfoldable pub text_eq : Text → Text → Bool
text_eq [] [] = true
text_eq [] (y ∷ b) = false
text_eq (x ∷ a) [] = false
text_eq (x ∷ a) (y ∷ b) = x == y && text_eq a b

pub text_eq_refl : (t : Text) → text_eq t t ≡ true
unfolding text_eq
text_eq_refl [] = refl
text_eq_refl (u ∷ t) = ground (arith, text_eq_refl t)

-- Whether a text is free of a unit.
unfoldable pub is_free : ℕ → Text → Bool
is_free c [] = true
is_free c (u ∷ t) = not (u == c) && is_free c t

-- `s.toLowerCase()`, for ASCII.
unfoldable pub to_lower_case : Text → Text
to_lower_case t = map (λ u. if leb b'A' u && leb u b'Z' then u + 32 else u) t

-- `s.startsWith(d)`
unfoldable pub starts_with : Text → Text → Bool
starts_with [] s = true
starts_with (x ∷ d) [] = false
starts_with (x ∷ d) (y ∷ s) = x == y && starts_with d s

-- `s.indexOf(d)`, with `none` for -1.
unfoldable pub find : Text → Text → Option ℕ
unfolding starts_with
find d [] = if starts_with d [] then some 0 else none
find d (x ∷ s) = if starts_with d (x ∷ s) then some 0 else Option.map suc (find d s)

-- `s.indexOf(d, from)`, for a `from` within the text.
abbrev pub index_of : Text → Text → ℕ → Option ℕ
index_of d s from = Option.map (λ k. from + k) (find d (drop from s))

-- `s.slice(from, to)`
abbrev pub slice : Text → ℕ → ℕ → Text
slice s from to = take (to - from) (drop from s)

-- `Buffer.byteLength(s)`: a surrogate pair takes four bytes, and a lone surrogate, which becomes
-- U+FFFD, three.
unfoldable pub is_high : ℕ → Bool
is_high c = leb 0xd800 c && ltb c 0xdc00

unfoldable pub is_low : ℕ → Bool
is_low c = leb 0xdc00 c && ltb c 0xe000

unit_bytes : ℕ → ℕ
unit_bytes c = if ltb c 0x80 then 1 else if ltb c 0x800 then 2 else 3

-- A low surrogate behind a high one adds one byte to the three already counted.
bytes_after : ℕ → Text → ℕ
unfolding is_high is_low unit_bytes
bytes_after before [] = 0
bytes_after before (c ∷ s) =
    let paired = is_high before && is_low c in
    (if paired then 1 else unit_bytes c) + bytes_after (if paired then 0 else c) s

unfoldable pub byte_length : Text → ℕ
unfolding bytes_after
byte_length s = bytes_after 0 s
