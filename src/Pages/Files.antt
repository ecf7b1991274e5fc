-- ===== src/Pages/Files.antt =====
-- The files of the site: `generatedGroupFiles`, `checkOutputs`, `writeOutputs`. A path below docs/ is the list
-- of its segments, and a directory is there as long as a file is in it. `attempt` says whether a call that
-- changes a file throws; one that throws changes nothing.
pub mod Reading
pub mod Orphans
pub mod Fresh
pub mod Others
use node_ipc.Base.{
  ℕ, Bool, true, false, not, ◌&&◌, ◌||◌, List, [], ◌∷◌, ◌++◌, map, Option, none, some,
  if◌then◌else◌,
}
use node_ipc.Text.{Text, text, text_eq, starts_with}

abbrev pub FilePath : Type 0
FilePath = List Text

unfoldable pub path_eq : FilePath → FilePath → Bool
unfolding text_eq
path_eq [] [] = true
path_eq [] (b ∷ q) = false
path_eq (a ∷ p) [] = false
path_eq (a ∷ p) (b ∷ q) = text_eq a b && path_eq p q

-- `new Set(paths).has(path)`
unfoldable pub has_path : FilePath → List FilePath → Bool
unfolding path_eq
has_path p [] = false
has_path p (q ∷ more) = path_eq q p || has_path p more

-- A file, or an entry of the outputs, with its content.
pub record File : Type 0 where
  pub path : FilePath
  pub content : Text

abbrev pub paths : List File → List FilePath
paths fs = map (λ f. f.path) fs

-- `readFileSync` of a file, if `existsSync` finds it.
unfoldable pub read_file : FilePath → List File → Option Text
unfolding path_eq
read_file p [] = none
read_file p (f ∷ fs) =
    let rest = read_file p fs in if path_eq f.path p then some f.content else rest

unfoldable pub remove_file : FilePath → List File → List File
unfolding path_eq
remove_file p [] = []
remove_file p (f ∷ fs) = let rest = remove_file p fs in if path_eq f.path p then rest else f ∷ rest

unfoldable pub write_file : FilePath → Text → List File → List File
unfolding remove_file
write_file p content fs = record { path = p; content = content } ∷ remove_file p fs

-- What is wrong with a file.
pub data Complaint : Type 0 where
  missing : FilePath → Complaint
  stale : FilePath → Complaint
  orphan : FilePath → Complaint

-- How a function ends: it returns, an assertion on the inventory or its pages, on the files or on a directory
-- fails, or a call of Node throws.
pub data Ended : Type 0 where
  returned : Ended
  rejects : Ended
  complains : Complaint → List Complaint → Ended
  refuses : FilePath → Ended
  node_throws : ℕ → Ended

pub data Change : Type 0 where
  unlinks : FilePath → Change
  removes_directory_of : FilePath → Change
  writes : FilePath → Change

-- `generatedMarker`
abbrev pub generated_marker : Text
generated_marker =
    text "<!-- Generated by docs/scripts/generate-test-pages.mjs. Do not edit directly. -->"

-- `categoryOrder`, in lower case.
abbrev pub categories : List Text
categories = text "unit" ∷ text "functional" ∷ text "integration" ∷ text "regression" ∷ []

abbrev pub index_html : Text
index_html = text "index.html"

-- Whether a path is the page of a group of a category: a directory of it with an index.html.
unfoldable pub is_page_of : Text → FilePath → Bool
unfolding text_eq
is_page_of category (a ∷ b ∷ name ∷ c ∷ []) =
    text_eq a (text "testing")
    && text_eq b category
    && not (text_eq name [])
    && text_eq c index_html
is_page_of category _ = false

-- The regular expression of `checkOutputs` and `writeOutputs`.
unfoldable pub is_group_page : List Text → FilePath → Bool
unfolding is_page_of
is_group_page [] p = false
is_group_page (category ∷ more) p = is_page_of category p || is_group_page more p

-- `expectedGroupFiles`
unfoldable pub expected_group_files : List File → List FilePath
unfolding is_group_page
expected_group_files [] = []
expected_group_files (f ∷ outputs) =
    let rest = expected_group_files outputs in
    if is_group_page categories f.path then f.path ∷ rest else rest

-- The pages of one category that begin with the marker.
unfoldable pub generated_of : Text → List File → List FilePath
unfolding is_page_of starts_with
generated_of category [] = []
generated_of category (f ∷ fs) =
    let rest = generated_of category fs in
    if is_page_of category f.path && starts_with generated_marker f.content
    then f.path ∷ rest
    else rest

-- `generatedGroupFiles`, from the categories on.
unfoldable pub generated_files : List Text → List File → List FilePath
unfolding generated_of
generated_files [] fs = []
generated_files (category ∷ more) fs = generated_of category fs ++ generated_files more fs

-- The first loop of `checkOutputs`.
unfoldable pub output_errors : List File → List File → List Complaint
unfolding read_file text_eq
output_errors [] fs = []
output_errors (f ∷ outputs) fs =
    let rest = output_errors outputs fs in
    elim (read_file f.path fs) [
      | none ↦ missing f.path ∷ rest
      | some content ↦ if text_eq content f.content then rest else stale f.path ∷ rest
    ]

-- Its second loop.
unfoldable pub orphan_errors : List FilePath → List FilePath → List Complaint
unfolding has_path
orphan_errors expected [] = []
orphan_errors expected (p ∷ more) =
    let rest = orphan_errors expected more in if has_path p expected then rest else orphan p ∷ rest

-- `assert.equal(errors.length,0)`
unfoldable pub assert_none : List Complaint → Ended
assert_none [] = returned
assert_none (c ∷ more) = complains c more

-- `checkOutputs`
unfoldable pub check_outputs : List File → List File → Ended
unfolding output_errors orphan_errors expected_group_files generated_files assert_none
check_outputs outputs fs = assert_none (
    output_errors outputs fs
    ++ orphan_errors (expected_group_files outputs) (generated_files categories fs))

-- Whether a path is below the directory of a page, which is the path without its last segment.
unfoldable pub is_beside : FilePath → FilePath → Bool
unfolding text_eq
is_beside [] q = true
is_beside (a ∷ []) q = true
is_beside (a ∷ p) [] = false
is_beside (a ∷ p) (b ∷ q) = text_eq a b && is_beside p q

-- `assert.deepEqual(readdirSync(directory),['index.html'])`
unfoldable pub stands_alone : FilePath → List File → Bool
unfolding is_beside path_eq
stands_alone p [] = true
stands_alone p (f ∷ fs) = (not (is_beside p f.path) || path_eq f.path p) && stands_alone p fs

module _ (attempt : Change → Option ℕ) where
  -- `unlinkSync` and `rmdirSync` of one orphan.
  unfoldable pub remove_page : FilePath → List File → List File × Ended
  unfolding stands_alone remove_file
  remove_page p fs =
      if not (stands_alone p fs) then (fs, refuses p) else elim (attempt (unlinks p)) [
        | some e ↦ (fs, node_throws e)
        | none ↦ elim (attempt (removes_directory_of p)) [
          | some e ↦ (remove_file p fs, node_throws e)
          | none ↦ (remove_file p fs, returned)
        ]
      ]

  -- The first loop of `writeOutputs`, over the generated files.
  unfoldable pub remove_orphans : List FilePath → List FilePath → List File → List File × Ended
  unfolding has_path remove_page
  remove_orphans expected [] fs = (fs, returned)
  remove_orphans expected (p ∷ more) fs =
      let here : List File × Ended =
        if has_path p expected then (fs, returned) else remove_page p fs in
      elim here.1 [ returned ↦ remove_orphans expected more here.0 | failed ↦ (here.0, failed) ]

  -- Its second loop.
  unfoldable pub write_all_outputs : List File → List File → List File × Ended
  unfolding write_file
  write_all_outputs [] fs = (fs, returned)
  write_all_outputs (f ∷ outputs) fs = elim (attempt (writes f.path)) [
    | some e ↦ (fs, node_throws e)
    | none ↦ write_all_outputs outputs (write_file f.path f.content fs)
  ]

  -- `writeOutputs`
  unfoldable pub write_outputs : List File → List File → List File × Ended
  unfolding remove_orphans expected_group_files generated_files write_all_outputs
  write_outputs outputs fs =
      let (cleaned, ended) =
        remove_orphans (expected_group_files outputs) (generated_files categories fs) fs in
      elim ended [ returned ↦ write_all_outputs outputs cleaned | failed ↦ (cleaned, failed) ]
