-- ===== src/Pages/Building.antt =====
-- `buildOutputs` and `generate`. The templates are a parameter: what they make of the inventory is not looked at.
pub mod Rebuilt
use node_ipc.Base.{
  ◌≡◌, refl, sym, ap, ◌∙◌, inl, inr, ℕ, suc, ◌*◌, Bool, true, false, not, ◌&&◌, ◌||◌, List, [], ◌∷◌,
  ◌++◌, Option, none, some, leb, ◌==◌, if◌then◌else◌, arith, Bool-cases,
}
use node_ipc.Text.{to_lower_case, Text, text}
use node_ipc.Pages.{Group, group_route, routes_for_inventory, route_file, render_sitemap}
use node_ipc.Pages.Files.{
  FilePath, path_eq, has_path, File, paths, index_html, read_file, Change, Ended, returned, rejects,
  check_outputs, write_outputs,
}

-- What `createInventory` of test/inventory.js returns, as far as `generate` reads it.
pub record Inventory : Type 0 where
  pub total : ℕ
  pub count_of : Text → ℕ
  pub minimum_of : Text → ℕ
  pub groups : List Group

pub record Templates : Type 0 where
  -- `renderHome`; none where a marker is missing.
  pub home : Text → Inventory → Option Text
  pub overview : Inventory → Text
  pub inventory_json : Inventory → Text
  pub routes_json : List Text → Text
  pub category_page : Inventory → Text → Text
  pub group_page : Inventory → Group → Text

-- `relative.split('/')`
unfoldable pub split_path : Text → FilePath
split_path [] = [] ∷ []
split_path (u ∷ t) =
    let rest = split_path t in
    if u == b'/' then [] ∷ rest else elim rest [ [] ↦ (u ∷ []) ∷ [] | s ∷ more ↦ (u ∷ s) ∷ more ]

-- `outputs.set(path,content)`: a path that is there keeps its place.
unfoldable pub set_output : FilePath → Text → List File → List File
unfolding path_eq
set_output p content [] = record { path = p; content = content } ∷ []
set_output p content (f ∷ outputs) =
    let rest = set_output p content outputs in
    if path_eq f.path p then record f { content = content } ∷ outputs else f ∷ rest

-- `categoryOrder`
abbrev pub category_order : List Text
category_order = text "Unit" ∷ text "Functional" ∷ text "Integration" ∷ text "Regression" ∷ []

unfoldable pub has_minimum : Inventory → List Text → Bool
has_minimum inventory [] = true
has_minimum inventory (category ∷ more) =
    leb (inventory.minimum_of category) (inventory.count_of category) && has_minimum inventory more

unfoldable pub has_fives : List Group → Bool
has_fives [] = true
has_fives (group ∷ more) = group.count == 5 && has_fives more

unfoldable pub count_groups : List Group → ℕ
count_groups [] = 0
count_groups (group ∷ more) = suc (count_groups more)

-- The assertions of `generate`.
unfoldable pub is_sound : Inventory → Bool
unfolding has_minimum has_fives count_groups
is_sound inventory =
    leb 140 inventory.total
    && count_groups inventory.groups * 5 == inventory.total
    && has_minimum inventory category_order
    && has_fives inventory.groups

-- The end of `generate`.
unfoldable pub write_and_check :
    (Change → Option ℕ) → Bool → List File → List File → List File × Ended
unfolding write_outputs check_outputs
write_and_check attempt write outputs fs =
    let written : List File × Ended =
      if write then write_outputs attempt outputs fs else (fs, returned) in
    elim written.1 [
      | returned ↦ (written.0, check_outputs outputs written.0)
      | failed ↦ (written.0, failed)
    ]

module _ (templates : Templates) where
  -- The loop over the categories.
  unfoldable pub add_categories : Inventory → List Text → List File → List File
  unfolding set_output split_path to_lower_case
  add_categories inventory [] outputs = outputs
  add_categories inventory (category ∷ more) outputs = add_categories inventory more (
      set_output (split_path (text "testing/" ++ to_lower_case category ++ text "/index.html"))
        (templates.category_page inventory category) outputs)

  -- The loop over the groups.
  unfoldable pub add_groups : Inventory → List Group → List File → Option (List File)
  unfolding set_output split_path route_file group_route
  add_groups inventory [] outputs = some outputs
  add_groups inventory (group ∷ more) outputs = elim (route_file (group_route group)) [
    | none ↦ none
    | some file ↦
        add_groups inventory more
          (set_output (split_path file) (templates.group_page inventory group) outputs)
  ]

  -- `new Map([...])`, with the pages that are always there.
  unfoldable pub first_outputs : Inventory → List Text → Text → List File
  unfolding set_output split_path render_sitemap
  first_outputs inventory routes home =
      set_output (split_path (text "sitemap.xml")) (render_sitemap routes) (
        set_output (split_path (text "data/routes.json")) (templates.routes_json routes) (
          set_output (split_path (text "data/test-inventory.json"))
            (templates.inventory_json inventory)
            (set_output (split_path (text "testing/index.html")) (templates.overview inventory)
              (set_output (index_html ∷ []) home []))))

  -- `buildOutputs`
  unfoldable pub build_outputs : Inventory → Text → Option (List File)
  unfolding routes_for_inventory render_sitemap first_outputs add_categories add_groups
  build_outputs inventory source = elim (routes_for_inventory inventory.groups) [
    | none ↦ none
    | some routes ↦ elim (templates.home source inventory) [
      | none ↦ none
      | some home ↦
          add_groups inventory inventory.groups
            (add_categories inventory category_order (first_outputs inventory routes home))
    ]
  ]

  -- `generate`
  unfoldable pub generate : (Change → Option ℕ) → Bool → Inventory → List File → List File × Ended
  unfolding is_sound build_outputs write_and_check
  generate attempt write inventory fs =
      if not (is_sound inventory) then (fs, rejects) else elim (read_file (index_html ∷ []) fs) [
        | none ↦ (fs, Ended.node_throws 2)
        | some source ↦ elim (build_outputs inventory source) [
          | none ↦ (fs, rejects)
          | some outputs ↦ write_and_check attempt write outputs fs
        ]
      ]
