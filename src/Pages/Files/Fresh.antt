-- ===== src/Pages/Files/Fresh.antt =====
-- What `checkOutputs` finds behind `writeOutputs`.
use node_ipc.Base.{
  ◌≡◌, refl, ℕ, Bool, true, false, ◌&&◌, List, [], ◌∷◌, Option, none, some, if◌then◌else◌, All,
  All-append,
}
use node_ipc.Text.{Text}
use node_ipc.Pages.Files.{
  FilePath, path_eq, has_path, File, remove_file, write_file, Change, Ended, returned, rejects,
  complains, refuses, node_throws, categories, is_page_of, is_group_page, expected_group_files,
  generated_of, generated_files, orphan_errors, output_errors, assert_none, check_outputs,
  remove_orphans, write_all_outputs, write_outputs,
}
use node_ipc.Pages.Files.Reading.{path_eq_refl, IsMap, write_all_outputs-written}
use node_ipc.Pages.Files.Orphans.{
  All-mono, or_left, or_right, marked, Covered, generated_files-All, remove_file-All,
  remove_orphans-Covered,
}

and_left : (a b : Bool) → (a && b) ≡ true → a ≡ true
and_left true b h = refl
and_left false b h = h

-- The pages of groups among the outputs are expected.
Expects : List FilePath → List File → Type 0
Expects expected outputs =
    All (λ f. is_group_page categories f.path ≡ true → has_path f.path expected ≡ true) outputs

expected_group_files-Expects :
    (outputs : List File) → Expects (expected_group_files outputs) outputs
unfolding Expects expected_group_files has_path
expected_group_files-Expects [] = tt
expected_group_files-Expects (f ∷ outputs) =
    go (is_group_page categories f.path) refl (expected_group_files-Expects outputs)
  where
    rest : List FilePath
    rest = expected_group_files outputs

    go :
        (b : Bool)
        → is_group_page categories f.path ≡ b
        → Expects rest outputs
        → Expects (if b then f.path ∷ rest else rest) (f ∷ outputs)
    go true e h = (
      λ i. or_left (has_path f.path rest) (path_eq_refl f.path),
      All-mono outputs (λ g k i. or_right (path_eq f.path g.path) (k i)) h,
    )
    go false e h = (λ i. cc, h)

orphan_errors-none :
    (expected ps : List FilePath)
    → All (λ p. has_path p expected ≡ true) ps
    → orphan_errors expected ps ≡ []
unfolding orphan_errors
orphan_errors-none expected [] h = refl
orphan_errors-none expected (p ∷ ps) h = rw h.0 (orphan_errors-none expected ps h.1)

module _ (expected : List FilePath) where
  generated_of-expected :
      (c : Text) (fs : List File)
      → ((p : FilePath) → is_page_of c p ≡ true → is_group_page categories p ≡ true)
      → Covered expected fs
      → All (λ p. has_path p expected ≡ true) (generated_of c fs)
  unfolding generated_of
  generated_of-expected c [] among h = tt
  generated_of-expected c (f ∷ fs) among h =
      go (is_page_of c f.path) (marked f) refl refl (generated_of-expected c fs among h.1)
    where
      go :
          (x y : Bool)
          → is_page_of c f.path ≡ x
          → marked f ≡ y
          → All (λ p. has_path p expected ≡ true) (generated_of c fs)
          → All
              (λ p. has_path p expected ≡ true)
              (let rest = generated_of c fs in if x && y then f.path ∷ rest else rest)
      go true true e k i = (h.0 (rw (among f.path e) k), i)
      go true false e k i = i
      go false y e k i = i

  generated_files-expected :
      (cs : List Text) (fs : List File)
      → ((p : FilePath) → is_group_page cs p ≡ true → is_group_page categories p ≡ true)
      → Covered expected fs
      → All (λ p. has_path p expected ≡ true) (generated_files cs fs)
  unfolding generated_files is_group_page
  generated_files-expected [] fs among h = tt
  generated_files-expected (c ∷ cs) fs among h =
      All-append (λ p. has_path p expected ≡ true) (generated_of c fs) (generated_files cs fs)
        (generated_of-expected c fs (λ p e. among p (or_left (is_group_page cs p) e)) h)
        (generated_files-expected cs fs (λ p e. among p (or_right (is_page_of c p) e)) h)

  write_all_outputs-Covered :
      (attempt : Change → Option ℕ) (outputs fs : List File)
      → Expects expected outputs
      → Covered expected fs
      → Covered expected (write_all_outputs attempt outputs fs).0
  unfolding write_all_outputs write_file Expects
  write_all_outputs-Covered attempt [] fs e c = c
  write_all_outputs-Covered attempt (f ∷ outputs) fs e c =
      go (attempt (Change.writes f.path))
        (λ d. write_all_outputs-Covered attempt outputs (write_file f.path f.content fs) e.1 d)
    where
      go :
          (o : Option ℕ)
          → (Covered expected (write_file f.path f.content fs)
              → Covered expected
                  (write_all_outputs attempt outputs (write_file f.path f.content fs)).0)
          → Covered expected
              (let r : List File × Ended = elim o [
                | some x ↦ (fs, node_throws x)
                | none ↦ write_all_outputs attempt outputs (write_file f.path f.content fs)
              ] in
                r).0
      go (some x) later = c
      go none later = later (
        (λ i. e.0 (and_left (is_group_page categories f.path) (marked f) i)),
        All-mono (remove_file f.path fs) (λ g k. k.0) (remove_file-All _ f.path fs c),
      )

check_outputs-none :
    (outputs fs : List File)
    → output_errors outputs fs ≡ []
    → orphan_errors (expected_group_files outputs) (generated_files categories fs) ≡ []
    → check_outputs outputs fs ≡ returned
unfolding check_outputs assert_none
check_outputs-none outputs fs e f = rw (e, f) refl

module _ (attempt : Change → Option ℕ) where
  generated_files-Covered :
      (outputs fs : List File)
      → (remove_orphans attempt (expected_group_files outputs) (generated_files categories fs) fs).1
        ≡ returned
      → Covered
          (expected_group_files outputs)
          (remove_orphans attempt
            (expected_group_files outputs)
            (generated_files categories fs)
            fs).0
  generated_files-Covered outputs fs h =
      remove_orphans-Covered attempt (expected_group_files outputs) (generated_files categories fs)
        fs
        (All-mono fs (λ f k i. or_right (has_path f.path (expected_group_files outputs)) (k i))
          (generated_files-All categories fs))
        h

  -- The two loops one after the other.
  abbrev pub then_writes : List File → List File × Ended → List File × Ended
  then_writes outputs (fs, ended) = elim ended [
    | returned ↦ write_all_outputs attempt outputs fs
    | failed ↦ (fs, failed)
  ]

  -- What `writeOutputs` leaves behind is what `checkOutputs` asks for, if it returns and the outputs are a Map,
  -- in which no path comes up twice: each output is there with its content, and no generated page of a group is
  -- an orphan.
  pub write_outputs-check_outputs :
      (outputs fs : List File)
      → IsMap outputs
      → (write_outputs attempt outputs fs).1 ≡ returned
      → check_outputs outputs (write_outputs attempt outputs fs).0 ≡ returned
  unfolding write_outputs
  write_outputs-check_outputs outputs fs m h =
      go (remove_orphans attempt (expected_group_files outputs) (generated_files categories fs) fs)
        (generated_files-Covered outputs fs) h
    where
      go :
          (cleaned : List File × Ended)
          → (cleaned.1 ≡ returned → Covered (expected_group_files outputs) cleaned.0)
          → (then_writes outputs cleaned).1 ≡ returned
          → check_outputs outputs (then_writes outputs cleaned).0 ≡ returned
      go (gs, returned) c i =
          let written = write_all_outputs attempt outputs gs in
          check_outputs-none outputs written.0 (write_all_outputs-written attempt outputs gs m i) (
            orphan_errors-none (expected_group_files outputs) (generated_files categories written.0)
              (generated_files-expected (expected_group_files outputs) categories written.0
                (λ p e. e)
                (write_all_outputs-Covered (expected_group_files outputs) attempt outputs gs
                  (expected_group_files-Expects outputs) (c refl))))
      go (gs, rejects) c i = cc
      go (gs, complains x xs) c i = cc
      go (gs, refuses x) c i = cc
      go (gs, node_throws x) c i = cc
