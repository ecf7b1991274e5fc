-- ===== src/Plan/Balance.antt =====
-- The places of a subject in the orders of successive blocks.
use mathlib.Core.Bool.{Bool-set}
use mathlib.Core.List.{Perm, foldr}
use mathlib.Core.List.Perm
use native.Mathlib.Nat.{ℕ_set, mod-eq_of_lt}
use node_ipc.Base.{
  ◌≡◌, refl, sym, ap, ap₂, subst, ◌∙◌, ℕ, zero, suc, ◌+◌, ◌*◌, ◌%◌, ◌≤◌, ◌<◌, Bool, true, false,
  not, ◌&&◌, ◌||◌, List, [], ◌∷◌, map, Option, none, some, ltb, leb, ◌==◌, if◌then◌else◌, length,
  arith,
}
use node_ipc.Plan.{
  base_loop, base_williams_order, cycle_length, reverse_onto, subject_at, williams_order,
  order_of_block,
}
use node_ipc.Plan.Spans.{span}
use node_ipc.Plan.Orders.{base-Perm, rows-Perm, williams_order-safe}
use node_ipc.Interop.{max_safe_integer}

-- Who stands at a place of an order.
abbrev pub at_place {ℓ} : {A : Type ℓ} → ℕ → Option (List (Option A)) → Option A
at_place place none = none
at_place place (some order) = elim (subject_at order place) [ none ↦ none | some s ↦ s ]

length-foldr : (xs : List ℕ) → length xs ≡ foldr (λ x n. suc n) 0 xs
length-foldr [] = refl
length-foldr (x ∷ xs) = ap suc (length-foldr xs)

length-span : (first n : ℕ) → length (span first n) ≡ n
unfolding span
length-span first zero = refl
length-span first (suc n) = ap suc (length-span (suc first) n)

Perm-length : {xs ys : List ℕ} → Perm xs ys → length xs ≡ length ys
unfolding Perm.foldr-eq
Perm-length {xs} {ys} p =
    length-foldr xs ∙ Perm.foldr-eq ℕ_set (λ x n. suc n) (λ a b x. refl) p 0 ∙ sym (length-foldr ys)

abbrev all_below : ℕ → List ℕ → Bool
all_below bound xs = foldr (λ x b. ltb x bound && b) true xs

all_below-span : (bound first n : ℕ) → first + n ≤ bound → all_below bound (span first n) ≡ true
unfolding span
all_below-span bound first zero h = refl
all_below-span bound first (suc n) h =
    ground (arith, h, all_below-span bound (suc first) n (omega (arith, h)))

and-swap : (a b c : Bool) → (a && (b && c)) ≡ (b && (a && c))
and-swap true b c = refl
and-swap false true c = refl
and-swap false false c = refl

Perm-all_below : (bound : ℕ) {xs ys : List ℕ} → Perm xs ys → all_below bound xs ≡ all_below bound ys
unfolding Perm.foldr-eq
Perm-all_below bound p =
    Perm.foldr-eq Bool-set (λ x b. ltb x bound && b)
      (λ a b x. and-swap (ltb a bound) (ltb b bound) x) p true

-- What stands at a place of a list of numbers below a bound.
record Found (xs : List ℕ) (place bound : ℕ) : Type 0 where
  index : ℕ
  here : subject_at xs place ≡ some index
  below : index < bound

subject_at-Found :
    (xs : List ℕ) (place bound : ℕ)
    → place < length xs
    → all_below bound xs ≡ true
    → Found xs place bound
unfolding subject_at
subject_at-Found [] place bound h b = absurd (omega (arith, h))
subject_at-Found (x ∷ xs) zero bound h b = record {
  index = x;
  here = refl;
  below = ground (arith, b);
}
subject_at-Found (x ∷ xs) (suc place) bound h b =
    let later = subject_at-Found xs place bound (omega (arith, h)) (ground (arith, b)) in
    record { index = later.index; here = later.here; below = later.below }

subject_at-map {ℓ} :
    {A : Type ℓ} (f : ℕ → A) (xs : List ℕ) (place : ℕ) {x : ℕ}
    → subject_at xs place ≡ some x
    → subject_at (map f xs) place ≡ some (f x)
unfolding subject_at
subject_at-map f [] place h = cc
subject_at-map f (y ∷ xs) zero {x} h = let same : y ≡ x = cc in ap (λ z. some (f z)) same
subject_at-map f (y ∷ xs) (suc place) h = subject_at-map f xs place h

map-span {ℓ} :
    {A : Type ℓ} (f g : ℕ → A) (first n : ℕ)
    → ((i : ℕ) → i < first + n → f i ≡ g i)
    → map f (span first n) ≡ map g (span first n)
unfolding span
map-span f g first zero h = refl
map-span f g first (suc n) h =
    ap₂ (λ x xs. x ∷ xs) (h first (omega arith))
      (map-span f g (suc first) n (λ i k. h i (omega (arith, k))))

below_cycle : (size block : ℕ) (b : Bool) → block < size → block < (if b then size else size * 2)
below_cycle size block true h = h
below_cycle size block false h = omega (arith, h)

-- The first rows of a cycle are not turned round.
order_of_block-early {ℓ} :
    {A : Type ℓ} (a : A) (more : List A) (block : ℕ)
    → block < suc (length more)
    → order_of_block (a ∷ more) block
      ≡ some (
          map
            (λ index. subject_at (a ∷ more) ((index + block) % suc (length more)))
            (base_loop (suc (length more)) (suc (length more)) 1 (0 ∷ [])))
unfolding order_of_block base_williams_order cycle_length
order_of_block-early {A = A} a more block h =
    let size : ℕ = suc (length more) in
    let cycle : ℕ = if size == 1 || size % 2 == 0 then size else size * 2 in
    let order : ℕ → List (Option A) = λ row.
      map (λ index. subject_at (a ∷ more) ((index + row) % size))
        (base_loop size size 1 (0 ∷ [])) in
    let odd : Bool = not (size % 2 == 0) in
    let turned : (odd && leb size block) ≡ false = ground (arith, h) in
    let inside : block < cycle = below_cycle size block (size == 1 || size % 2 == 0) h in
    ap
      (λ sequence. some (
        if odd && leb size sequence
        then reverse_onto (order (sequence % size)) []
        else order (sequence % size)))
      (mod-eq_of_lt inside)
    ∙ ap (λ t. some (if t then reverse_onto (order (block % size)) [] else order (block % size)))
        turned
    ∙ ap (λ row. some (order row)) (mod-eq_of_lt h)

base-Found :
    (n place : ℕ) → place < suc n → Found (base_loop (suc n) (suc n) 1 (0 ∷ [])) place (suc n)
base-Found n place h =
    let base : List ℕ = base_loop (suc n) (suc n) 1 (0 ∷ []) in
    let long : length base ≡ suc n = Perm-length (base-Perm n) ∙ length-span 0 (suc n) in
    subject_at-Found base place (suc n) (omega (arith, h, long))
      (Perm-all_below (suc n) (base-Perm n) ∙ all_below-span (suc n) 0 (suc n) (omega arith))

-- Over the first blocks, as many as there are subjects, of which there are no more than safe integers, each
-- subject stands at each place exactly once: what stands at the place in these blocks is a permutation of the
-- subjects.
pub at_place-williams_order {ℓ} :
    {A : Type ℓ} (a : A) (more : List A) (place : ℕ)
    → length (a ∷ more) ≤ max_safe_integer
    → place < length (a ∷ more)
    → Perm
        (map
          (λ block. at_place place (williams_order (a ∷ more) block))
          (span 0 (length (a ∷ more))))
        (map some (a ∷ more))
at_place-williams_order {A = A} a more place safe h =
    let size : ℕ = suc (length more) in
    let subjects : List A = a ∷ more in
    let base : List ℕ = base_loop size size 1 (0 ∷ []) in
    let found = base-Found (length more) place h in
    let shown =
      map-span (λ block. at_place place (williams_order subjects block))
        (λ block. subject_at subjects ((block + found.index) % size)) 0 size
        (λ block k.
          let early : block < size = omega (arith, k) in
          let turned : found.index + block ≡ block + found.index = omega arith in
          ap (at_place place) (
            williams_order-safe subjects block (omega (arith, early, safe))
            ∙ order_of_block-early a more block early)
          ∙ ap (λ o. elim o [ none ↦ none | some s ↦ s ])
              (subject_at-map (λ index. subject_at subjects ((index + block) % size)) base place
                found.here)
          ∙ ap (λ i. subject_at subjects (i % size)) turned) in
    subst (λ z. Perm z (map some subjects)) (sym shown)
      (rows-Perm subjects found.index (span 0 size) found.below Perm.rfl)
