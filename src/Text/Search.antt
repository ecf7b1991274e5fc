-- ===== src/Text/Search.antt =====
-- The laws of `startsWith` and `indexOf` that the framing rests on.
use node_ipc.Base.{
  ℕ, suc, ◌+◌, ◌≤◌, ◌≡◌, refl, ap, ◌≢◌, true, false, inl, inr, [], ◌∷◌, ◌++◌, some, arith,
  Bool-cases, Option-cases, take, drop, length, All, length-append,
}
use native.Mathlib.Nat.{zero-add}
use Prim.Native.Nat.add
use node_ipc.Text.{Text, starts_with, find}

pub starts_with-eq : (d s : Text) → starts_with d s ≡ true → s ≡ d ++ drop (length d) s
unfolding starts_with
starts_with-eq [] s h = refl
starts_with-eq (x ∷ d) [] h = cc
starts_with-eq (x ∷ d) (y ∷ s) h = ground (arith, starts_with-eq d s)

pub starts_with-append_self : (d s : Text) → starts_with d (d ++ s) ≡ true
unfolding starts_with
starts_with-append_self [] s = refl
starts_with-append_self (x ∷ d) s = ground (arith, starts_with-append_self d s)

pub starts_with-append : (d s t : Text) → starts_with d s ≡ true → starts_with d (s ++ t) ≡ true
unfolding starts_with
starts_with-append [] s t h = refl
starts_with-append (x ∷ d) [] t h = cc
starts_with-append (x ∷ d) (y ∷ s) t h = ground (arith, starts_with-append d s t)

-- A text that is long enough to hold `d` and does not begin with it never will.
pub not-starts_with-append :
    (d s t : Text) → starts_with d s ≡ false → length d ≤ length s → starts_with d (s ++ t) ≡ false
unfolding starts_with
not-starts_with-append [] s t h le = h
not-starts_with-append (x ∷ d) [] t h le = absurd (omega arith)
not-starts_with-append (x ∷ d) (y ∷ s) t h le = ground (arith, not-starts_with-append d s t)

-- Where `d` is found: at the front, or one further than in the tail.
data Found (d : Text) (x : ℕ) (s : Text) (k : ℕ) : Type 0 where
  at_front : starts_with d (x ∷ s) ≡ true → k ≡ 0 → Found d x s k
  behind : (j : ℕ) → starts_with d (x ∷ s) ≡ false → k ≡ suc j → find d s ≡ some j → Found d x s k

find-Found : (d : Text) (x : ℕ) (s : Text) (k : ℕ) → find d (x ∷ s) ≡ some k → Found d x s k
unfolding find
find-Found d x s k h = elim (Bool-cases (starts_with d (x ∷ s))) [
  | inl front ↦ at_front front (ground arith)
  | inr later ↦ elim (Option-cases (find d s)) [
    | inl e ↦ absurd (ground arith)
    | inr (j, e) ↦ behind j later (ground arith) e
  ]
]

-- In the empty text only the empty delimiter is found.
find-nil : (d : Text) (k : ℕ) → find d [] ≡ some k → (d ≡ []) × (k ≡ 0)
unfolding find starts_with
find-nil [] k h = ground arith
find-nil (x ∷ d) k h = cc

pub find-le : (d s : Text) (k : ℕ) → find d s ≡ some k → k + length d ≤ length s
find-le d [] k h = let (e, z) = find-nil d k h in rw (e, z) (omega arith)
find-le d (x ∷ s) k h = elim (find-Found d x s k h) [
  | at_front b e ↦
      omega
        (arith, length-append d (drop (length d) (x ∷ s)), ap length (starts_with-eq d (x ∷ s) b))
  | behind j b e f ↦ omega (arith, find-le d s j f)
]

-- What stands before and behind the place where `d` is found.
pub find-eq :
    (d s : Text) (k : ℕ) → find d s ≡ some k → s ≡ take k s ++ (d ++ drop (k + length d) s)
find-eq d [] k h = let (e, z) = find-nil d k h in rw (e, z) refl
find-eq d (x ∷ s) k h = elim (find-Found d x s k h) [
  | at_front b e ↦ rw (e, zero-add) (starts_with-eq d (x ∷ s) b)
  | behind j b e f ↦ rw (e, add.suc) (ap (x ∷◌) (find-eq d s j f))
]

find-empty : (t : Text) → find [] t ≡ some 0
unfolding find starts_with
find-empty [] = refl
find-empty (x ∷ t) = refl

-- More text behind it does not move the first delimiter.
pub find-append : (d s t : Text) (k : ℕ) → find d s ≡ some k → find d (s ++ t) ≡ some k
unfolding find
find-append d [] t k h = let (e, z) = find-nil d k h in rw (e, z) (find-empty t)
find-append d (x ∷ s) t k h = elim (find-Found d x s k h) [
  | at_front b e ↦ ground (arith, starts_with-append d (x ∷ s) t b)
  | behind j b e f ↦
      ground (arith, not-starts_with-append d (x ∷ s) t b, find-le d s j f, find-append d s t j f)
]

-- A delimiter whose first unit does not stand in `f` is found right behind `f`.
pub find-append_frame :
    (x : ℕ) (d f s : Text) → All (λ c. c ≢ x) f → find (x ∷ d) (f ++ (x ∷ d ++ s)) ≡ some (length f)
unfolding find starts_with
find-append_frame x d [] s h = ground (arith, starts_with-append_self d s)
find-append_frame x d (c ∷ f) s h = ground (arith, find-append_frame x d f s h.1)
