-- ===== src/Plan/Spans.antt =====
-- Successive numbers, and what a rotation does to them.
use mathlib.Core.List.{Perm, perm_middle}
use mathlib.Core.List.Perm
use native.Mathlib.Nat.{mod-eq_of_lt, mod-eq-sub-mod}
use node_ipc.Base.{
  ◌≡◌, refl, sym, ap, ap₂, subst, ◌∙◌, ℕ, zero, suc, ◌+◌, ◌-◌, ◌%◌, ◌≤◌, ◌<◌, List, [], ◌∷◌, ◌++◌,
  map, append-nil, arith,
}

-- So many numbers from the first on.
unfoldable pub span : ℕ → ℕ → List ℕ
span first zero = []
span first (suc n) = first ∷ span (suc first) n

pub span-append :
    (first m n second total : ℕ)
    → first + m ≡ second
    → m + n ≡ total
    → span first total ≡ (span first m ++ span second n)
unfolding span
span-append first zero n second total e f =
    let here : first ≡ second = omega (arith, e) in
    let size : total ≡ n = omega (arith, f) in ap₂ span here size
span-append first (suc m) n second total e f =
    let size : total ≡ suc (m + n) = omega (arith, f) in
    ap (span first) size
    ∙ ap (λ z. first ∷ z) (span-append (suc first) m n second (m + n) (omega (arith, e)) refl)

pub append-comm_perm {ℓ} : {A : Type ℓ} (xs ys : List A) → Perm (xs ++ ys) (ys ++ xs)
append-comm_perm [] ys = subst (λ z. Perm ys z) (sym (append-nil ys)) Perm.rfl
append-comm_perm (x ∷ xs) ys =
    Perm.trans (Perm.cons x (append-comm_perm xs ys)) (Perm.symm (perm_middle ys xs))

pub map-append {ℓ κ} :
    {A : Type ℓ} {B : Type κ} (f : A → B) (xs ys : List A)
    → map f (xs ++ ys) ≡ (map f xs ++ map f ys)
map-append f [] ys = refl
map-append f (x ∷ xs) ys = ap (λ z. f x ∷ z) (map-append f xs ys)

module _ (size row : ℕ) where
  rotated : ℕ → ℕ
  rotated i = (i + row) % size

  map-rotated_low :
      (first second n : ℕ)
      → first + row ≡ second
      → second + n ≤ size
      → map rotated (span first n) ≡ span second n
  unfolding span rotated
  map-rotated_low first second zero e h = refl
  map-rotated_low first second (suc n) e h =
      let below : first + row < size = omega (arith, e, h) in
      ap₂ (λ x xs. x ∷ xs) (mod-eq_of_lt below ∙ e)
        (map-rotated_low (suc first) (suc second) n (omega (arith, e)) (omega (arith, h)))

  map-rotated_high :
      (first second n : ℕ)
      → first + row ≡ second + size
      → second + n ≤ size
      → map rotated (span first n) ≡ span second n
  unfolding span rotated
  map-rotated_high first second zero e h = refl
  map-rotated_high first second (suc n) e h =
      let above : size ≤ first + row = omega (arith, e) in
      let below : first + row - size < size = omega (arith, e, h) in
      let here : first + row - size ≡ second = omega (arith, e) in
      ap₂ (λ x xs. x ∷ xs) (mod-eq-sub-mod above ∙ mod-eq_of_lt below ∙ here)
        (map-rotated_high (suc first) (suc second) n (omega (arith, e)) (omega (arith, h)))

  -- The numbers below `size`, each of them rotated, are the same numbers in another order.
  pub rotated-Perm : row < size → Perm (map (λ i. (i + row) % size) (span 0 size)) (span 0 size)
  unfolding rotated
  rotated-Perm h =
      let first : ℕ = size - row in
      let halves : span 0 size ≡ (span 0 first ++ span first row) =
        span-append 0 first row first size (omega arith) (omega (arith, h)) in
      let turned : map rotated (span 0 size) ≡ (span row first ++ span 0 row) =
        ap (map rotated) halves
        ∙ map-append rotated (span 0 first) (span first row)
        ∙ ap₂ (λ a b. a ++ b) (map-rotated_low 0 row first (omega arith) (omega (arith, h)))
            (map-rotated_high first 0 row (omega (arith, h)) (omega (arith, h))) in
      let back : (span 0 row ++ span row first) ≡ span 0 size =
        sym (span-append 0 row first row size (omega arith) (omega (arith, h))) in
      subst (λ z. Perm z (span 0 size)) (sym turned)
        (subst (λ z. Perm (span row first ++ span 0 row) z) back
          (append-comm_perm (span row first) (span 0 row)))
