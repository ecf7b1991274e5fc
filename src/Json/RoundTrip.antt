-- ===== src/Json/RoundTrip.antt =====
-- `JSON.parse` reads back what `JSON.stringify` prints.
use node_ipc.Base.{
  ◌≡◌, refl, ap, ◌∙◌, ℕ, suc, ◌+◌, ◌*◌, ◌/◌, ◌%◌, ◌<◌, Bool, true, false, ◌&&◌, inl, inr, [], ◌∷◌,
  ◌++◌, some, ltb, ◌==◌, arith, Bool-cases, append_assoc,
}
use node_ipc.Text.{Text, is_high, is_low}
use node_ipc.Json.Print.{hex_digit, unicode_escape, escape_unit, low_first, escape}
use node_ipc.Json.Parse.{plain, in_hex, hex_value, string_step, prepend, read_string}

hex_value-hex_digit : (n : ℕ) → n < 16 → hex_value (hex_digit n) ≡ some n
unfolding hex_value hex_digit
hex_value-hex_digit n h = ground arith

read_string-unit :
    (c : ℕ) (t : Text)
    → (c == b'"') ≡ false
    → (c == b'\\') ≡ false
    → ltb c 32 ≡ false
    → read_string plain (c ∷ t) ≡ prepend c (read_string plain t)
unfolding read_string
read_string-unit c t q b k = rw (q, b, k, string_step, read_string)

read_string-hex :
    (left value n : ℕ) (t : Text)
    → n < 16
    → read_string (in_hex (suc left) value) (hex_digit n ∷ t)
      ≡ read_string (in_hex left (value * 16 + n)) t
unfolding read_string
read_string-hex left value n t h = rw (hex_value-hex_digit n h, read_string, string_step)

read_string-last_hex :
    (value n : ℕ) (t : Text)
    → n < 16
    → read_string (in_hex 0 value) (hex_digit n ∷ t)
      ≡ prepend (value * 16 + n) (read_string plain t)
unfolding read_string
read_string-last_hex value n t h = rw (hex_value-hex_digit n h, read_string, string_step)

opened : (t : Text) → read_string plain (b'\\' ∷ b'u' ∷ t) ≡ read_string (in_hex 3 0) t
unfolding read_string
opened t = refl

read_string-unicode_escape :
    (c : ℕ) (t : Text)
    → c < 65536
    → read_string plain (unicode_escape c ++ t) ≡ prepend c (read_string plain t)
unfolding unicode_escape
read_string-unicode_escape c t h =
    opened _
    ∙ read_string-hex 2 0 (c / 4096 % 16) _ (omega arith)
    ∙ read_string-hex 1 _ (c / 256 % 16) _ (omega arith)
    ∙ read_string-hex 0 _ (c / 16 % 16) _ (omega arith)
    ∙ read_string-last_hex _ (c % 16) t (omega arith)
    ∙ ap (λ n. prepend n (read_string plain t)) (omega arith)

read_string-escape_unit :
    (c : ℕ) (t : Text) → read_string plain (escape_unit c ++ t) ≡ prepend c (read_string plain t)
unfolding escape_unit read_string
read_string-escape_unit c t = ground (arith, read_string-unicode_escape c t)

read_string-low :
    (c : ℕ) (t : Text)
    → is_low c ≡ true
    → read_string plain (c ∷ t) ≡ prepend c (read_string plain t)
unfolding read_string is_low
read_string-low c t h = ground arith

read_string-high :
    (c : ℕ) (t : Text)
    → is_high c ≡ true
    → read_string plain (c ∷ t) ≡ prepend c (read_string plain t)
unfolding read_string is_high
read_string-high c t h = ground arith

-- The reader takes a string back, whatever units stand in it, and stops at its closing quote.
pub read_string-escape :
    (paired : Bool) (s rest : Text)
    → (paired ≡ true → low_first s ≡ true)
    → read_string plain (escape paired s ++ (b'"' ∷ rest)) ≡ some (s, rest)
unfolding escape prepend
read_string-escape paired [] rest h = unfold read_string in refl
read_string-escape true (c ∷ s) rest h =
    read_string-low c _ (unfold low_first in h refl)
    ∙ ap (prepend c) (read_string-escape false s rest (λ e. cc))
read_string-escape false (c ∷ s) rest h = elim (Bool-cases (is_high c && low_first s)) [
  | inl e ↦ rw e (
      read_string-high c _ (ground arith)
      ∙ ap (prepend c) (read_string-escape true s rest (λ _. ground arith)))
  | inr e ↦
      rw (e, append_assoc)
        (read_string-escape_unit c _ ∙ ap (prepend c) (read_string-escape false s rest (λ e. cc)))
]
