-- ===== src/Plan/Orders.antt =====
-- The orders of `williamsOrder`: each subject comes once.
use mathlib.Core.List.{Perm, perm_middle}
use mathlib.Core.List.Perm
use native.Mathlib.Nat.{mod-lt}
use node_ipc.Base.{
  ◌≡◌, refl, sym, ap, subst, ◌∙◌, ℕ, zero, suc, ◌+◌, ◌-◌, ◌*◌, ◌%◌, ◌≤◌, ◌<◌, Bool, true, false,
  not, ◌&&◌, ◌||◌, List, [], ◌∷◌, ◌++◌, map, append-nil, append_assoc, Option, some, ltb, leb, ◌==◌,
  if◌then◌else◌, length, length-append, arith,
}
use node_ipc.Plan.{
  base_loop, base_williams_order, order_of_block, cycle_length, reverse_onto, subject_at,
  williams_order,
}
use node_ipc.Plan.Spans.{span, span-append, append-comm_perm, rotated-Perm}
use node_ipc.Interop.{max_safe_integer}

base_loop-done :
    (fuel size offset : ℕ) (order : List ℕ)
    → size ≤ length order
    → base_loop fuel size offset order ≡ order
unfolding base_loop
base_loop-done zero size offset order h = refl
base_loop-done (suc fuel) size offset order h = ground (arith, h)

-- One round that takes the next number and the last one of the gap.
both_ends-Perm :
    (offset gap last : ℕ) (order : List ℕ)
    → suc offset + gap ≡ last
    → Perm
        (((order ++ offset ∷ []) ++ last ∷ []) ++ span (suc offset) gap)
        (order ++ span offset (suc (suc gap)))
unfolding span
both_ends-Perm offset gap last order e =
    let inner : List ℕ = span (suc offset) gap in
    let opened : (((order ++ offset ∷ []) ++ last ∷ []) ++ inner)
        ≡ (order ++ offset ∷ last ∷ inner) =
      append_assoc (order ++ offset ∷ []) (last ∷ []) inner
      ∙ append_assoc order (offset ∷ []) (last ∷ inner) in
    let tail : span (suc offset) (suc gap) ≡ (inner ++ last ∷ []) =
      span-append (suc offset) gap 1 last (suc gap) e (omega arith) in
    subst (λ z. Perm z (order ++ span offset (suc (suc gap)))) (sym opened)
      (Perm.append_left order (
        Perm.cons offset
          (subst (λ z. Perm (last ∷ inner) z) (sym tail) (append-comm_perm (last ∷ []) inner))))

base_loop-both :
    (fuel size offset : ℕ) (order : List ℕ)
    → suc (length order) < size
    → base_loop (suc fuel) size offset order
      ≡ base_loop fuel size (suc offset) ((order ++ offset ∷ []) ++ (size - offset) ∷ [])
unfolding base_loop
base_loop-both fuel size offset order h =
    let more : ltb (length order) size ≡ true = ground (arith, h) in
    let two : ltb (length (order ++ offset ∷ [])) size ≡ true =
      ground (arith, h, length-append order (offset ∷ [])) in
    rw (two, more) refl

base_loop-last :
    (fuel size offset : ℕ) (order : List ℕ)
    → suc (length order) ≡ size
    → base_loop (suc fuel) size offset order
      ≡ base_loop fuel size (suc offset) (order ++ offset ∷ [])
unfolding base_loop
base_loop-last fuel size offset order h =
    let more : ltb (length order) size ≡ true = ground (arith, h) in
    let one : ltb (length (order ++ offset ∷ [])) size ≡ false =
      ground (arith, h, length-append order (offset ∷ [])) in
    rw (one, more) refl

-- The numbers of the gap are those that the order has not got yet.
base_loop-Perm :
    (fuel size offset gap : ℕ) (order : List ℕ)
    → gap ≤ fuel
    → length order + gap ≡ size
    → offset + offset + gap ≡ suc size
    → Perm (order ++ span offset gap) (span 0 size)
    → Perm (base_loop fuel size offset order) (span 0 size)
unfolding span
base_loop-Perm fuel size offset zero order f l o p =
    subst (λ z. Perm z (span 0 size))
      (append-nil order ∙ sym (base_loop-done fuel size offset order (omega (arith, l)))) p
base_loop-Perm zero size offset (suc gap) order f l o p = absurd (omega (arith, f))
base_loop-Perm (suc fuel) size offset (suc zero) order f l o p =
    let one : List ℕ = order ++ offset ∷ [] in
    let whole : size ≤ length one = omega (arith, l, length-append order (offset ∷ [])) in
    subst (λ z. Perm z (span 0 size))
      (sym (
        base_loop-last fuel size offset order (omega (arith, l))
        ∙ base_loop-done fuel size (suc offset) one whole))
      p
base_loop-Perm (suc fuel) size offset (suc (suc gap)) order f l o p =
    let one : List ℕ = order ++ offset ∷ [] in
    let two : List ℕ = one ++ (size - offset) ∷ [] in
    let longer : length two + gap ≡ size =
      omega
        (arith, l, length-append one ((size - offset) ∷ []), length-append order (offset ∷ [])) in
    subst (λ z. Perm z (span 0 size))
      (sym (base_loop-both fuel size offset order (omega (arith, l))))
      (base_loop-Perm fuel size (suc offset) gap two (omega (arith, f)) longer (omega (arith, o))
        (Perm.trans (both_ends-Perm offset gap (size - offset) order (omega (arith, o))) p))

-- The result is an order of these subjects: each of them comes once.
pub data IsOrderOf {ℓ} {A : Type ℓ} (subjects : List A) : Option (List (Option A)) → Type ℓ where
  an_order :
      {order : List (Option A)} → Perm order (map some subjects) → IsOrderOf subjects (some order)

reverse_onto-Perm {ℓ} : {A : Type ℓ} (xs ys : List A) → Perm (reverse_onto xs ys) (xs ++ ys)
unfolding reverse_onto
reverse_onto-Perm [] ys = Perm.rfl
reverse_onto-Perm (x ∷ xs) ys = Perm.trans (reverse_onto-Perm xs (x ∷ ys)) (perm_middle xs ys)

map-subject_at {ℓ} :
    {A : Type ℓ} (a : A) (more : List A) (first n : ℕ)
    → map (subject_at (a ∷ more)) (span (suc first) n) ≡ map (subject_at more) (span first n)
unfolding span subject_at
map-subject_at a more first zero = refl
map-subject_at a more first (suc n) =
    ap (λ z. subject_at more first ∷ z) (map-subject_at a more (suc first) n)

subjects-eq {ℓ} :
    {A : Type ℓ} (subjects : List A)
    → map (subject_at subjects) (span 0 (length subjects)) ≡ map some subjects
unfolding span subject_at
subjects-eq [] = refl
subjects-eq (a ∷ more) =
    ap (λ z. some a ∷ z) (map-subject_at a more 0 (length more) ∙ subjects-eq more)

map-map {ℓ} :
    {A : Type ℓ} (f : ℕ → A) (g : ℕ → ℕ) (xs : List ℕ) → map f (map g xs) ≡ map (λ i. f (g i)) xs
map-map f g [] = refl
map-map f g (x ∷ xs) = ap (λ z. f (g x) ∷ z) (map-map f g xs)

pub rows-Perm {ℓ} :
    {A : Type ℓ} (subjects : List A) (row : ℕ) (base : List ℕ)
    → row < length subjects
    → Perm base (span 0 (length subjects))
    → Perm
        (map (λ index. subject_at subjects ((index + row) % length subjects)) base)
        (map some subjects)
rows-Perm subjects row base h p =
    let size : ℕ = length subjects in
    Perm.trans (Perm.map (λ index. subject_at subjects ((index + row) % size)) p) (
      subst (λ z. Perm z (map some subjects))
        (map-map (subject_at subjects) (λ i. (i + row) % size) (span 0 size))
        (subst (λ z. Perm (map (subject_at subjects) (map (λ i. (i + row) % size) (span 0 size))) z)
          (subjects-eq subjects) (Perm.map (subject_at subjects) (rotated-Perm size row h))))

pub base-Perm : (n : ℕ) → Perm (base_loop (suc n) (suc n) 1 (0 ∷ [])) (span 0 (suc n))
unfolding span
base-Perm n =
    base_loop-Perm (suc n) (suc n) 1 n (0 ∷ []) (omega arith) (omega arith) (omega arith) Perm.rfl

turned-IsOrderOf {ℓ} :
    {A : Type ℓ} {subjects : List A} (turned : Bool) (order : List (Option A))
    → Perm order (map some subjects)
    → IsOrderOf subjects (some (if turned then reverse_onto order [] else order))
turned-IsOrderOf {subjects = subjects} true order p = an_order (
    Perm.trans (reverse_onto-Perm order [])
      (subst (λ z. Perm z (map some subjects)) (sym (append-nil order)) p))
turned-IsOrderOf false order p = an_order p

order_of_block-IsOrderOf {ℓ} :
    {A : Type ℓ} (a : A) (more : List A) (block : ℕ)
    → IsOrderOf (a ∷ more) (order_of_block (a ∷ more) block)
unfolding order_of_block base_williams_order cycle_length
order_of_block-IsOrderOf a more block =
    let size : ℕ = suc (length more) in
    let cycle : ℕ = if size == 1 || size % 2 == 0 then size else size * 2 in
    let row : ℕ = block % cycle % size in
    let base : List ℕ = base_loop size size 1 (0 ∷ []) in
    let below : row < size = mod-lt (block % cycle) (omega arith) in
    turned-IsOrderOf (not (size % 2 == 0) && leb size (block % cycle))
      (map (λ index. subject_at (a ∷ more) ((index + row) % size)) base)
      (rows-Perm (a ∷ more) row base below (base-Perm (length more)))

-- The check of `williamsOrder` lets a safe integer through.
pub williams_order-safe {ℓ} :
    {A : Type ℓ} (subjects : List A) (block : ℕ)
    → block ≤ max_safe_integer
    → williams_order subjects block ≡ order_of_block subjects block
unfolding williams_order
williams_order-safe subjects block h =
    let safe : ltb max_safe_integer block ≡ false = ground (arith, h) in rw safe refl

-- For at least one subject and any block that is a safe integer `williamsOrder` returns, and its result is a
-- permutation of the subjects: it leaves none out, has none twice, and is never `undefined` at an index.
pub williams_order-IsOrderOf {ℓ} :
    {A : Type ℓ} (a : A) (more : List A) (block : ℕ)
    → block ≤ max_safe_integer
    → IsOrderOf (a ∷ more) (williams_order (a ∷ more) block)
williams_order-IsOrderOf a more block h =
    subst (IsOrderOf (a ∷ more)) (sym (williams_order-safe (a ∷ more) block h))
      (order_of_block-IsOrderOf a more block)
