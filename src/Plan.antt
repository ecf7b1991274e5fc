-- ===== src/Plan.antt =====
-- benchmark/competitors/plan.js: the order in which a benchmark runs its subjects. A subject past the end
-- of the list is none, and so is the result where the code throws.
pub mod Spans
pub mod Orders
pub mod Balance
use node_ipc.Base.{
  ℕ, zero, suc, ◌+◌, ◌-◌, ◌*◌, ◌%◌, not, ◌&&◌, ◌||◌, List, [], ◌∷◌, ◌++◌, map, Option, none, some,
  ltb, leb, ◌==◌, if◌then◌else◌, length,
}
use node_ipc.Text.{Text, text_eq}
use node_ipc.Interop.{max_safe_integer}

-- The loop of `baseWilliamsOrder`. Each round adds an entry, so `size` rounds are enough.
unfoldable pub base_loop : ℕ → ℕ → ℕ → List ℕ → List ℕ
base_loop zero size offset order = order
base_loop (suc fuel) size offset order =
    let one = order ++ offset ∷ [] in
    let two = if ltb (length one) size then one ++ (size - offset) ∷ [] else one in
    let rest = base_loop fuel size (suc offset) two in
    if ltb (length order) size then rest else order

-- `baseWilliamsOrder`
unfoldable pub base_williams_order : ℕ → Option (List ℕ)
unfolding base_loop
base_williams_order zero = none
base_williams_order (suc n) = some (base_loop (suc n) (suc n) 1 (0 ∷ []))

-- `cycleLength`
unfoldable pub cycle_length : ℕ → Option ℕ
cycle_length zero = none
cycle_length (suc n) = some (if suc n == 1 || suc n % 2 == 0 then suc n else suc n * 2)

unfoldable pub reverse_onto {ℓ} : {A : Type ℓ} → List A → List A → List A
reverse_onto [] ys = ys
reverse_onto (x ∷ xs) ys = reverse_onto xs (x ∷ ys)

-- `subjects[index]`
unfoldable pub subject_at {ℓ} : {A : Type ℓ} → List A → ℕ → Option A
subject_at [] i = none
subject_at (a ∷ more) zero = some a
subject_at (a ∷ more) (suc i) = subject_at more i

-- What `williamsOrder` does behind the check of `block`.
unfoldable pub order_of_block {ℓ} : {A : Type ℓ} → List A → ℕ → Option (List (Option A))
unfolding base_williams_order cycle_length reverse_onto subject_at
order_of_block subjects block =
    let size = length subjects in
    elim (base_williams_order size) [
      | none ↦ none
      | some base ↦ elim (cycle_length size) [
        | none ↦ none
        | some cycle ↦
            let sequence = block % cycle in
            let row = sequence % size in
            let order = map (λ index. subject_at subjects ((index + row) % size)) base in
            some (if not (size % 2 == 0) && leb size sequence then reverse_onto order [] else order)
      ]
    ]

-- `williamsOrder`: a block that is no safe integer makes it throw.
unfoldable pub williams_order {ℓ} : {A : Type ℓ} → List A → ℕ → Option (List (Option A))
unfolding order_of_block
williams_order subjects block =
    if ltb max_safe_integer block then none else order_of_block subjects block

-- An entry of a plan.
pub record Entry {ℓ} (A : Type ℓ) : Type ℓ where
  pub block : ℕ
  pub order_index : ℕ
  pub payload_bytes : ℕ
  pub subject : Option A
  pub workload : Text

-- The results of an action on each item with its index, one after another, or none if one throws.
unfoldable pub for_each {ℓ κ} :
    {A : Type ℓ} {B : Type κ} → (ℕ → A → Option (List B)) → ℕ → List A → Option (List B)
for_each f i [] = some []
for_each f i (a ∷ more) = elim (f i a) [
  | none ↦ none
  | some xs ↦ elim (for_each f (suc i) more) [ none ↦ none | some ys ↦ some (xs ++ ys) ]
]

-- The loop over the blocks from `block` on.
unfoldable pub blocks {ℓ} : {B : Type ℓ} → (ℕ → Option (List B)) → ℕ → ℕ → Option (List B)
blocks f block zero = some []
blocks f block (suc samples) = elim (f block) [
  | none ↦ none
  | some xs ↦ elim (blocks f (suc block) samples) [ none ↦ none | some ys ↦ some (xs ++ ys) ]
]

unfoldable pub entries {ℓ} : {A : Type ℓ} → ℕ → ℕ → Text → ℕ → List (Option A) → List (Entry A)
entries block payload workload i [] = []
entries block payload workload i (s ∷ order) =
    record {
      block = block;
      order_index = i;
      payload_bytes = payload;
      subject = s;
      workload = workload;
    }
    ∷ entries block payload workload (suc i) order

-- The entries of a block.
unfoldable pub plan_block {ℓ} :
    {A : Type ℓ} → List A → List ℕ → List Text → ℕ → Option (List (Entry A))
unfolding williams_order for_each entries
plan_block subjects payloads workloads block =
    for_each
      (λ i payload.
        for_each
          (λ j workload. elim (williams_order subjects (block + i + j)) [
            | none ↦ none
            | some order ↦ some (entries block payload workload 0 order)
          ])
          0 workloads)
      0 payloads

-- `buildPlan`
unfoldable pub build_plan {ℓ} :
    {A : Type ℓ} → List A → List ℕ → List Text → ℕ → Option (List (Entry A))
unfolding plan_block blocks
build_plan subjects payloads workloads samples =
    blocks (plan_block subjects payloads workloads) 0 samples

pub record Lane : Type 0 where
  pub id : Text
  pub cohort_id : Text
  pub module_id : Text
  pub transport_id : Text

-- A lane goes to its cohort, in the order in which cohorts come up first.
unfoldable pub add_lane : Lane → List (Text × List Lane) → List (Text × List Lane)
unfolding text_eq
add_lane lane [] = (lane.cohort_id, lane ∷ []) ∷ []
add_lane lane ((id, cohort) ∷ rest) =
    let later = add_lane lane rest in
    if text_eq id lane.cohort_id then (id, cohort ++ lane ∷ []) ∷ rest else (id, cohort) ∷ later

unfoldable pub cohorts : List (Text × List Lane) → List Lane → List (Text × List Lane)
unfolding add_lane
cohorts found [] = found
cohorts found (lane ∷ lanes) = cohorts (add_lane lane found) lanes

-- `buildCohortPlan`: `samples` has the number of samples of a cohort, or none for what is no positive
-- integer. The subject of an entry is the lane, with its ids.
unfoldable pub build_cohort_plan :
    List Lane → List ℕ → List Text → (Text → Option ℕ) → Option (List (Text × Entry Lane))
unfolding cohorts for_each blocks plan_block
build_cohort_plan lanes payloads workloads samples =
    for_each {A = Text × List Lane}
      (λ _ found. elim (samples found.0) [
        | none ↦ none
        | some zero ↦ none
        | some (suc n) ↦ elim (blocks (plan_block found.1 payloads workloads) 0 (suc n)) [
          | none ↦ none
          | some plan ↦ some (map (λ entry. (found.0, entry)) plan)
        ]
      ])
      0 (cohorts [] lanes)
