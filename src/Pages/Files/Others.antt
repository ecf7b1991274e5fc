-- ===== src/Pages/Files/Others.antt =====
-- The files that `writeOutputs` leaves alone.
use node_ipc.Base.{
  ◌≡◌, refl, ◌∙◌, ℕ, Bool, true, false, not, List, [], ◌∷◌, Option, none, some, if◌then◌else◌,
  arith,
}
use node_ipc.Pages.Files.{
  FilePath, path_eq, has_path, File, paths, read_file, remove_file, Change, Ended, returned,
  rejects, complains, refuses, node_throws, categories, expected_group_files, generated_files,
  stands_alone, remove_page, remove_orphans, write_outputs,
}
use node_ipc.Pages.Files.Reading.{read_file-remove_file, write_all_outputs-others}
use node_ipc.Pages.Files.Fresh.{then_writes}

module _ (attempt : Change → Option ℕ) where
  remove_page-others :
      (q p : FilePath) (fs : List File)
      → path_eq p q ≡ false
      → read_file q (remove_page attempt p fs).0 ≡ read_file q fs
  unfolding remove_page
  remove_page-others q p fs h =
      go (stands_alone p fs) (attempt (Change.unlinks p)) (attempt (Change.removes_directory_of p))
    where
      removed : read_file q (remove_file p fs) ≡ read_file q fs
      removed = read_file-remove_file p q fs h

      go :
          (b : Bool) (o d : Option ℕ)
          → read_file q
              (let r : List File × Ended = if not b then (fs, refuses p) else elim o [
                | some e ↦ (fs, node_throws e)
                | none ↦ elim d [
                  | some e ↦ (remove_file p fs, node_throws e)
                  | none ↦ (remove_file p fs, returned)
                ]
              ] in
                r).0
            ≡ read_file q fs
      go false o d = refl
      go true (some e) d = refl
      go true none (some e) = removed
      go true none none = removed

  remove_orphans-others :
      (q : FilePath) (expected ps : List FilePath) (fs : List File)
      → has_path q ps ≡ false
      → read_file q (remove_orphans attempt expected ps fs).0 ≡ read_file q fs
  unfolding remove_orphans has_path
  remove_orphans-others q expected [] fs h = refl
  remove_orphans-others q expected (p ∷ ps) fs h =
      let here : List File × Ended =
        if has_path p expected then (fs, returned) else remove_page attempt p fs in
      go here (λ gs. remove_orphans-others q expected ps gs (ground (arith, h)))
      ∙ kept (has_path p expected)
    where
      go :
          (here : List File × Ended)
          → ((gs : List File)
              → read_file q (remove_orphans attempt expected ps gs).0 ≡ read_file q gs)
          → read_file q
              (let r : List File × Ended = elim here.1 [
                | returned ↦ remove_orphans attempt expected ps here.0
                | failed ↦ (here.0, failed)
              ] in
                r).0
            ≡ read_file q here.0
      go (gs, returned) later = later gs
      go (gs, rejects) later = refl
      go (gs, complains x xs) later = refl
      go (gs, refuses x) later = refl
      go (gs, node_throws x) later = refl

      kept :
          (b : Bool)
          → read_file q
              (let r : List File × Ended = if b then (fs, returned) else remove_page attempt p fs in
                r).0
            ≡ read_file q fs
      kept true = refl
      kept false = remove_page-others q p fs (ground (arith, h))

  -- Whether it returns or not, `writeOutputs` leaves each file alone that is neither the path of an output nor a
  -- page of a group that begins with the marker.
  pub write_outputs-others :
      (q : FilePath) (outputs fs : List File)
      → has_path q (paths outputs) ≡ false
      → has_path q (generated_files categories fs) ≡ false
      → read_file q (write_outputs attempt outputs fs).0 ≡ read_file q fs
  unfolding write_outputs
  write_outputs-others q outputs fs h k =
      go (remove_orphans attempt (expected_group_files outputs) (generated_files categories fs) fs)
      ∙ remove_orphans-others q (expected_group_files outputs) (generated_files categories fs) fs k
    where
      go :
          (cleaned : List File × Ended)
          → read_file q (then_writes attempt outputs cleaned).0 ≡ read_file q cleaned.0
      go (gs, returned) = write_all_outputs-others attempt q outputs gs h
      go (gs, rejects) = refl
      go (gs, complains x xs) = refl
      go (gs, refuses x) = refl
      go (gs, node_throws x) = refl
