-- ===== src/Parser/Create/Made.antt =====
-- What `createParser` returns: an assured parser has the configured names, and reserved ones closed.
use node_ipc.Base.{
  ◌≡◌, refl, Bool, true, false, ◌&&◌, List, [], ◌∷◌, Option, none, some, if◌then◌else◌,
}
use node_ipc.Text.{Text, text, text_eq}
use node_ipc.Outcome.{Outcome, returned, threw}
use node_ipc.Config.{Config, Choice, named, parser_class, parser_object, Supplied}
use node_ipc.Parser.{Limits, fast, guarded, assured}
use node_ipc.Parser.Create.{
  Built, built_in, make, check_delimiter, guarded_fields, new_raw, allow_only, usable, built,
  create_named, create_chosen, create_parser,
}

abbrev pub MadeBy : Config → Outcome Built → Type 0
MadeBy c (returned (built_in (assured d l allowed))) =
    (c.allowed_events ≡ some allowed) × (l.allow_reserved_events ≡ false)
MadeBy c _ = Unit {0}

if_both {ℓ κ} :
    {A : Type ℓ} (P : A → Type κ) (b : Bool) {x y : A} → P x → P y → P (if b then x else y)
if_both P true p q = p
if_both P false p q = q

module _ (c : Config) where
  raw-MadeBy : MadeBy c (built (new_raw c))
  unfolding built new_raw
  raw-MadeBy = tt

  fast-MadeBy : (d : Outcome Text) → MadeBy c (built (make (λ d. returned (fast d)) d))
  unfolding built make
  fast-MadeBy (returned d) = tt
  fast-MadeBy (threw e) = tt

  guarded-MadeBy :
      (fs : Outcome (Text × Limits)) → MadeBy c (built (make (λ f. returned (guarded f.0 f.1)) fs))
  unfolding built make
  guarded-MadeBy (returned fs) = tt
  guarded-MadeBy (threw e) = tt

  assured-MadeBy :
      (allowed : Option (List Text)) (fs : Outcome (Text × Limits))
      → c.allowed_events ≡ allowed
      → MadeBy c (built (make (allow_only allowed) fs))
  unfolding built make allow_only
  assured-MadeBy allowed (threw e) h = tt
  assured-MadeBy none (returned fs) h = tt
  assured-MadeBy (some []) (returned fs) h = tt
  assured-MadeBy (some (t ∷ ts)) (returned (d, l)) h = (h, refl)

  usable-MadeBy : (s : Supplied) → MadeBy c (usable s)
  unfolding usable
  usable-MadeBy s = if_both (MadeBy c) (s.has_encode && s.has_read) tt tt

  named-MadeBy : (name : Text) → MadeBy c (create_named c name)
  unfolding create_named
  named-MadeBy [] = fast-MadeBy (check_delimiter c.delimiter)
  named-MadeBy (x ∷ name) = if_both (MadeBy c) (text_eq (x ∷ name) (text "raw")) raw-MadeBy (
      if_both (MadeBy c) (text_eq (x ∷ name) (text "fast"))
        (fast-MadeBy (check_delimiter c.delimiter))
        (if_both (MadeBy c) (text_eq (x ∷ name) (text "guarded"))
          (guarded-MadeBy (guarded_fields c))
          (if_both (MadeBy c) (text_eq (x ∷ name) (text "assured"))
            (assured-MadeBy c.allowed_events (guarded_fields c) refl) tt)))

  chosen-MadeBy : (p : Choice) → MadeBy c (create_chosen c p)
  unfolding create_chosen
  chosen-MadeBy (named name) = named-MadeBy name
  chosen-MadeBy (parser_class s) = usable-MadeBy s
  chosen-MadeBy (parser_object s) = usable-MadeBy s

  pub create_parser-MadeBy : MadeBy c (create_parser c)
  unfolding create_parser
  create_parser-MadeBy = chosen-MadeBy (if c.raw_buffer then named (text "raw") else c.parser)
