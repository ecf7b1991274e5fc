-- ===== src/Json/Plain.antt =====
-- The values that JSON can hold, how much fuel reading them takes, and how their texts begin.
use node_ipc.Base.{◌≡◌, refl, ℕ, suc, ◌+◌, Bool, true, false, ◌&&◌, not, [], ◌∷◌, ◌++◌, arith}
use node_ipc.Text.{Text}
use node_ipc.Json.{
  Value, Items, Fields, undefined, null, bool, num, str, arr, obj, nil, cons, end, field,
}
use node_ipc.Json.Print.{is_undefined}
use node_ipc.Json.Parse.{
  is_digit, is_number_unit, Spot, at_start, wrong, number_step, number_from, is_number, span,
}

unfoldable mutual
  unfolding is_number

  -- No `undefined` in it, and every number is a literal of the grammar.
  pub is_plain : Value → Bool
  is_plain undefined = false
  is_plain null = true
  is_plain (bool b) = true
  is_plain (num n) = is_number n
  is_plain (str s) = true
  is_plain (arr xs) = plain_items xs
  is_plain (obj fs) = plain_fields fs

  pub plain_items : Items → Bool
  plain_items nil = true
  plain_items (cons x xs) = is_plain x && plain_items xs

  pub plain_fields : Fields → Bool
  plain_fields end = true
  plain_fields (field k v fs) = is_plain v && plain_fields fs

unfoldable mutual
  pub need : Value → ℕ
  need undefined = 1
  need null = 1
  need (bool b) = 1
  need (num n) = 1
  need (str s) = 1
  need (arr xs) = suc (suc (need_items xs))
  need (obj fs) = suc (suc (need_fields fs))

  pub need_items : Items → ℕ
  need_items nil = 1
  need_items (cons x xs) = suc (need x + need_items xs)

  pub need_fields : Fields → ℕ
  need_fields end = 1
  need_fields (field k v fs) = suc (need v + need_fields fs)

pub is_undefined-is_plain : (v : Value) → is_plain v ≡ true → is_undefined v ≡ false
unfolding is_plain is_undefined
is_undefined-is_plain undefined h = cc
is_undefined-is_plain _ h = refl

-- The first unit of a number, which is never a blank, a bracket or a quote.
number_step-unit : (p : Spot) (c : ℕ) → (number_step p c ≡ wrong → ⊥) → is_number_unit c ≡ true
unfolding number_step is_number_unit is_digit
number_step-unit at_start c h = ground arith
number_step-unit _ c h = ground arith

pub number_from-wrong : (n : Text) → number_from wrong n ≡ false
unfolding number_from
number_from-wrong [] = refl
number_from-wrong (c ∷ n) = number_from-wrong n

pub number_from-unit :
    (p : Spot) (c : ℕ) (n : Text) → number_from p (c ∷ n) ≡ true → is_number_unit c ≡ true
unfolding number_from
number_from-unit p c n h = number_step-unit p c (λ e. ground (arith, number_from-wrong n))

-- Nothing that a number could go on with.
unfoldable pub stops : Text → Bool
unfolding is_number_unit
stops [] = true
stops (c ∷ s) = not (is_number_unit c)

-- A number is read up to its end.
pub span-number :
    (p : Spot) (n rest : Text)
    → number_from p n ≡ true
    → stops rest ≡ true
    → span (n ++ rest) ≡ (n, rest)
unfolding span
span-number p [] [] h s = refl
span-number p [] (c ∷ rest) h s = unfold stops span in ground arith
span-number p (c ∷ n) rest h s =
    rw (number_from-unit p c n h, span-number (number_step p c) n rest (unfold number_from in h) s)
      refl
