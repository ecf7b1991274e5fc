-- ===== src/Pages/Escaping.antt =====
-- What `escapeHTML` does to a text, and that a browser reads it back.
use node_ipc.Base.{
  ◌≡◌, refl, sym, ap, ◌∙◌, inl, inr, ℕ, zero, suc, Bool, true, false, ◌&&◌, [], ◌∷◌, ◌++◌,
  append_assoc, ◌==◌, if◌then◌else◌, arith, Bool-cases,
}
use node_ipc.Text.{Text, text, starts_with, is_free}
use node_ipc.Pages.{replace_all, escape_html}

-- What one unit becomes.
unfoldable pub escape_unit : ℕ → Text
escape_unit u =
    if u == b'&'
    then text "&amp;"
    else if u == b'<'
    then text "&lt;"
    else if u == b'>'
    then text "&gt;"
    else if u == b'"'
    then text "&quot;"
    else if u == b'\''
    then text "&#39;"
    else u ∷ []

replace_all-append :
    (c : ℕ) (r a b : Text) → replace_all c r (a ++ b) ≡ (replace_all c r a ++ replace_all c r b)
unfolding replace_all
replace_all-append c r [] b = refl
replace_all-append c r (u ∷ a) b = elim (Bool-cases (u == c)) [
  | inl e ↦
      rw (e, replace_all-append c r a b)
        (sym (append_assoc r (replace_all c r a) (replace_all c r b)))
  | inr e ↦ rw (e, replace_all-append c r a b) refl
]

escape_html-append : (a b : Text) → escape_html (a ++ b) ≡ (escape_html a ++ escape_html b)
unfolding escape_html
escape_html-append a b =
    let less : Text → Text = replace_all b'<' (text "&lt;") in
    let greater : Text → Text = replace_all b'>' (text "&gt;") in
    let quote : Text → Text = replace_all b'"' (text "&quot;") in
    let apostrophe : Text → Text = replace_all b'\'' (text "&#39;") in
    let x : Text → Text = replace_all b'&' (text "&amp;") in
    let y : Text → Text = λ t. less (x t) in
    let z : Text → Text = λ t. greater (y t) in
    ap (λ t. apostrophe (quote (greater (less t)))) (replace_all-append b'&' (text "&amp;") a b)
    ∙ ap (λ t. apostrophe (quote (greater t))) (replace_all-append b'<' (text "&lt;") (x a) (x b))
    ∙ ap (λ t. apostrophe (quote t)) (replace_all-append b'>' (text "&gt;") (y a) (y b))
    ∙ ap apostrophe (replace_all-append b'"' (text "&quot;") (z a) (z b))
    ∙ replace_all-append b'\'' (text "&#39;") (quote (z a)) (quote (z b))

-- The five units that are escaped, and the others.
data Kind (u : ℕ) : Type 0 where
  ampersand : u ≡ b'&' → Kind u
  less : u ≡ b'<' → Kind u
  greater : u ≡ b'>' → Kind u
  quote : u ≡ b'"' → Kind u
  apostrophe : u ≡ b'\'' → Kind u
  plain :
      (u == b'&') ≡ false
      → (u == b'<') ≡ false
      → (u == b'>') ≡ false
      → (u == b'"') ≡ false
      → (u == b'\'') ≡ false
      → Kind u

kind : (u : ℕ) → Kind u
kind u = elim (Bool-cases (u == b'&')) [
  | inl e ↦ ampersand (ground (arith, e))
  | inr a ↦ elim (Bool-cases (u == b'<')) [
    | inl e ↦ less (ground (arith, e))
    | inr b ↦ elim (Bool-cases (u == b'>')) [
      | inl e ↦ greater (ground (arith, e))
      | inr c ↦ elim (Bool-cases (u == b'"')) [
        | inl e ↦ quote (ground (arith, e))
        | inr d ↦ elim (Bool-cases (u == b'\'')) [
          | inl e ↦ apostrophe (ground (arith, e))
          | inr f ↦ plain a b c d f
        ]
      ]
    ]
  ]
]

escape_html-unit : {u : ℕ} → Kind u → escape_html (u ∷ []) ≡ escape_unit u
unfolding escape_html escape_unit replace_all
escape_html-unit (ampersand e) = rw e refl
escape_html-unit (less e) = rw e refl
escape_html-unit (greater e) = rw e refl
escape_html-unit (quote e) = rw e refl
escape_html-unit (apostrophe e) = rw e refl
escape_html-unit (plain a b c d e) = rw (a, b, c, d, e) refl

-- The reference that a text begins with, as the unit it stands for and the units behind its first.
unfoldable pub reference_at : Text → ℕ → ℕ × ℕ
unfolding starts_with
reference_at t u =
    if starts_with (text "&amp;") t
    then (b'&', 4)
    else if starts_with (text "&lt;") t
    then (b'<', 3)
    else if starts_with (text "&gt;") t
    then (b'>', 3)
    else if starts_with (text "&quot;") t
    then (b'"', 5)
    else if starts_with (text "&#39;") t
    then (b'\'', 4)
    else (u, 0)

-- How a text of HTML with these references is read, behind so many units of a reference.
unfoldable pub unescape_behind : ℕ → Text → Text
unfolding reference_at
unescape_behind skipped [] = []
unescape_behind (suc skipped) (u ∷ t) = unescape_behind skipped t
unescape_behind zero (u ∷ t) =
    let reference = reference_at (u ∷ t) u in reference.0 ∷ unescape_behind reference.1 t

unescape-unit :
    {u : ℕ} (t : Text) → Kind u → unescape_behind 0 (escape_unit u ++ t) ≡ u ∷ unescape_behind 0 t
unfolding unescape_behind escape_unit
unescape-unit t (ampersand e) = rw e refl
unescape-unit t (less e) = rw e refl
unescape-unit t (greater e) = rw e refl
unescape-unit t (quote e) = rw e refl
unescape-unit t (apostrophe e) = rw e refl
unescape-unit {u} t (plain a b c d e) =
    let f : (b'&' == u) ≡ false = ground (arith, a) in rw (a, b, c, d, e) (rw f refl)

is_free-append : (c : ℕ) (a b : Text) → is_free c (a ++ b) ≡ (is_free c a && is_free c b)
unfolding is_free
is_free-append c [] b = refl
is_free-append c (u ∷ a) b = ground (arith, is_free-append c a b)

-- Neither a tag nor the value of an attribute ends in the text.
abbrev pub is_inert : Text → Bool
is_inert t = is_free b'<' t && is_free b'>' t && is_free b'"' t && is_free b'\'' t

is_inert-unit : {u : ℕ} → Kind u → is_inert (escape_unit u) ≡ true
unfolding is_free escape_unit
is_inert-unit (ampersand e) = rw e refl
is_inert-unit (less e) = rw e refl
is_inert-unit (greater e) = rw e refl
is_inert-unit (quote e) = rw e refl
is_inert-unit (apostrophe e) = rw e refl
is_inert-unit (plain a b c d e) = rw (a, b, c, d, e) (rw (b, c, d, e) refl)

is_inert-append : (a b : Text) → is_inert a ≡ true → is_inert b ≡ true → is_inert (a ++ b) ≡ true
is_inert-append a b h k = ground (
  arith,
  h,
  k,
  is_free-append b'<' a b,
  is_free-append b'>' a b,
  is_free-append b'"' a b,
  is_free-append b'\'' a b,
)

nothing_escaped : escape_html [] ≡ []
unfolding escape_html replace_all
nothing_escaped = refl

-- What `escapeHTML` returns has no `<`, `>`, `"` or apostrophe, and a reader of HTML that knows the five
-- references reads the value back from it.
pub escape_html-unescape :
    (t : Text) → (is_inert (escape_html t) ≡ true) × (unescape_behind 0 (escape_html t) ≡ t)
unfolding is_free unescape_behind
escape_html-unescape [] = (ap is_inert nothing_escaped, ap (unescape_behind 0) nothing_escaped)
escape_html-unescape (u ∷ t) =
    let later = escape_html-unescape t in
    let split : escape_html (u ∷ t) ≡ (escape_unit u ++ escape_html t) =
      escape_html-append (u ∷ []) t ∙ ap (λ a. a ++ escape_html t) (escape_html-unit (kind u)) in
    (
      ap is_inert split
          ∙ is_inert-append (escape_unit u) (escape_html t) (is_inert-unit (kind u)) later.0,
      ap (unescape_behind 0) split
          ∙ unescape-unit (escape_html t) (kind u)
          ∙ ap (λ r. u ∷ r) later.1,
    )
