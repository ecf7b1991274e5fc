-- ===== src/Json/Values.antt =====
-- `JSON.parse` reads back the text that `JSON.stringify` prints of a plain value.

use node_ipc.Base.{
  ◌≡◌, refl, ap, ◌∙◌, ℕ, zero, suc, ◌*◌, ◌≤◌, true, false, [], ◌∷◌, some, length, arith,
}
use node_ipc.Text.{Text}
use node_ipc.Json.{
  Value, Items, Fields, undefined, null, bool, num, str, arr, obj, nil, cons, end, field,
}
use node_ipc.Json.Print.{comma, quote, print, print_items, print_fields, stringify}
use node_ipc.Json.Parse.{
  array_value, object_value, parse_value, more_items, more_fields, whole, parse,
}
use node_ipc.Json.Plain.{is_plain, plain_items, plain_fields, need, need_items, need_fields, stops}
use node_ipc.Json.Fuel.{print-Begins, Begins-skip, print_fields-field, need-le}
use node_ipc.Json.Steps.{
  parse_value-number, items-stops, fields-stops, parse_value-string, parse_value-array,
  more_items-last, more_items-more, parse_value-object, more_fields-last, more_fields-more,
  parse_value-null, parse_value-true, parse_value-false, parse_value-nil, parse_value-end,
  array_value-some, object_value-some,
}

mutual
  unfolding print need is_plain comma

  parse_value-print :
      (v : Value) (f : ℕ) (rest : Text)
      → is_plain v ≡ true
      → need v ≤ f
      → stops rest ≡ true
      → parse_value f (print v rest) ≡ some (v, rest)
  parse_value-print undefined f rest h n s = cc
  parse_value-print null zero rest h n s = elim n [ ]
  parse_value-print null (suc f) rest h n s = parse_value-null f rest
  parse_value-print (bool b) zero rest h n s = elim n [ ]
  parse_value-print (bool true) (suc f) rest h n s = parse_value-true f rest
  parse_value-print (bool false) (suc f) rest h n s = parse_value-false f rest
  parse_value-print (num m) zero rest h n s = elim n [ ]
  parse_value-print (num m) (suc f) rest h n s = parse_value-number f m rest h s
  parse_value-print (str t) zero rest h n s = elim n [ ]
  parse_value-print (str t) (suc f) rest h n s = parse_value-string f t rest
  parse_value-print (arr xs) zero rest h n s = elim n [ ]
  parse_value-print (arr xs) (suc zero) rest h n s = absurd (omega arith)
  parse_value-print (arr nil) (suc (suc f)) rest h n s = parse_value-nil f rest
  parse_value-print (arr (cons x xs)) (suc (suc f)) rest h n s =
      parse_value-array f (print-Begins x (print_items false xs rest) (ground arith))
      ∙ ap array_value (more_items-print x xs f rest h (omega arith))
      ∙ array_value-some (cons x xs) rest
  parse_value-print (obj fs) zero rest h n s = elim n [ ]
  parse_value-print (obj fs) (suc zero) rest h n s = absurd (omega arith)
  parse_value-print (obj end) (suc (suc f)) rest h n s = parse_value-end f rest
  parse_value-print (obj (field k v fs)) (suc (suc f)) rest h n s =
      ap (λ t. parse_value (suc (suc f)) (b'{' ∷ t))
        (print_fields-field true k v fs rest (ground arith))
      ∙ parse_value-object f k (b':' ∷ print v (print_fields false fs rest))
      ∙ ap object_value (more_fields-print k v fs f rest h (omega arith))
      ∙ object_value-some (field k v fs) rest

  more_items-print :
      (x : Value) (xs : Items) (f : ℕ) (rest : Text)
      → plain_items (cons x xs) ≡ true
      → need_items (cons x xs) ≤ f
      → more_items f (print_items true (cons x xs) rest) ≡ some (cons x xs, rest)
  more_items-print x xs zero rest h n = elim n [ ]
  more_items-print x nil (suc f) rest h n =
      more_items-last f (print x (b']' ∷ rest))
        (parse_value-print x f (b']' ∷ rest) (ground arith) (omega arith) (items-stops nil rest))
  more_items-print x (cons y ys) (suc f) rest h n =
      more_items-more f (print x (print_items false (cons y ys) rest))
        (parse_value-print x f (print_items false (cons y ys) rest) (ground arith) (omega arith)
          (items-stops (cons y ys) rest))
        (print-Begins y (print_items false ys rest) (ground arith))
        (more_items-print y ys f rest (ground arith) (omega arith))

  more_fields-print :
      (k : Text) (v : Value) (fs : Fields) (f : ℕ) (rest : Text)
      → plain_fields (field k v fs) ≡ true
      → need_fields (field k v fs) ≤ f
      → more_fields f (quote k (b':' ∷ print v (print_fields false fs rest)))
        ≡ some (field k v fs, rest)
  more_fields-print k v fs zero rest h n = elim n [ ]
  more_fields-print k v end (suc f) rest h n =
      more_fields-last f k (print v (b'}' ∷ rest)) (print-Begins v (b'}' ∷ rest) (ground arith)) (
        parse_value-print v f (b'}' ∷ rest) (ground arith) (omega arith)
          (fields-stops end rest refl))
  more_fields-print k v (field j w gs) (suc f) rest h n =
      more_fields-more f k (print v (print_fields false (field j w gs) rest)) j
        (b':' ∷ print w (print_fields false gs rest))
        (print-Begins v (print_fields false (field j w gs) rest) (ground arith))
        (parse_value-print v f (print_fields false (field j w gs) rest) (ground arith) (omega arith)
            (fields-stops (field j w gs) rest (ground arith))
          ∙ ap (λ t. some (v, t)) (print_fields-field false j w gs rest (ground arith)))
        (more_fields-print j w gs f rest (ground arith) (omega arith))

stops-nil : stops [] ≡ true
unfolding stops
stops-nil = refl

-- What `JSON.stringify` prints of a plain value, `JSON.parse` reads back as that value.
pub parse-stringify : (v : Value) → is_plain v ≡ true → parse (stringify v) ≡ some v
unfolding parse stringify
parse-stringify v h =
    ap (λ t. whole (parse_value (3 * suc (length (print v []))) t))
      (Begins-skip (print-Begins v [] h))
    ∙ ap whole (
        parse_value-print v (3 * suc (length (print v []))) [] h (omega (arith, need-le v [] h))
          stops-nil)
