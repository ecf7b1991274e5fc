-- ===== src/Pages/Building/Rebuilt.antt =====
-- What a run of `generate` that writes leaves to be checked.
use node_ipc.Base.{
  ◌≡◌, refl, ap, subst, ◌∙◌, inl, inr, ℕ, Bool, true, false, not, ◌||◌, List, [], ◌∷◌, ◌++◌, Option,
  none, some, if◌then◌else◌, arith, Bool-cases,
}
use node_ipc.Text.{to_lower_case, Text, text}
use node_ipc.Pages.{Group, group_route, routes_for_inventory, route_file, render_sitemap}
use node_ipc.Pages.Files.{
  FilePath, path_eq, has_path, File, paths, index_html, read_file, Change, Ended, returned, rejects,
  complains, refuses, node_throws, check_outputs, write_outputs,
}
use node_ipc.Pages.Files.Reading.{path_eq-eq, path_eq_refl, IsMap, no_output, one_output}
use node_ipc.Pages.Files.Fresh.{write_outputs-check_outputs}
use node_ipc.Pages.Building.{
  Inventory, Templates, split_path, set_output, category_order, add_categories, add_groups,
  first_outputs, build_outputs, is_sound, write_and_check, generate,
}

has_path-set_output :
    (p q : FilePath) (content : Text) (outputs : List File)
    → has_path q (paths (set_output p content outputs))
      ≡ (has_path q (paths outputs) || path_eq p q)
unfolding has_path set_output
has_path-set_output p q content [] = ground arith
has_path-set_output p q content (f ∷ outputs) =
    go (path_eq f.path p) refl (has_path-set_output p q content outputs)
  where
    go :
        (b : Bool)
        → path_eq f.path p ≡ b
        → has_path q (paths (set_output p content outputs))
          ≡ (has_path q (paths outputs) || path_eq p q)
        → has_path q (
            paths (
              let rest = set_output p content outputs in
              if b then record f { content = content } ∷ outputs else f ∷ rest))
          ≡ ((path_eq f.path q || has_path q (paths outputs)) || path_eq p q)
    go true e i =
        let same : path_eq f.path q ≡ path_eq p q = ap (λ r. path_eq r q) (path_eq-eq f.path p e) in
        ground (arith, same)
    go false e i = ground (arith, i)

different : (p q : FilePath) → path_eq q p ≡ false → path_eq p q ≡ false
different p q e = elim (Bool-cases (path_eq p q)) [
  | inl i ↦
      let same : path_eq q p ≡ true = ap (λ r. path_eq q r) (path_eq-eq p q i) ∙ path_eq_refl q in
      cc
  | inr i ↦ i
]

some_injective : {a b : List File} → some a ≡ some b → a ≡ b
some_injective h = cc

set_output-IsMap :
    (p : FilePath) (content : Text) {outputs : List File}
    → IsMap outputs
    → IsMap (set_output p content outputs)
unfolding set_output has_path
set_output-IsMap p content no_output = one_output refl no_output
set_output-IsMap p content (one_output {f = f} {outputs = outputs} fresh m) =
    go (path_eq f.path p) refl (set_output-IsMap p content m)
  where
    go :
        (b : Bool)
        → path_eq f.path p ≡ b
        → IsMap (set_output p content outputs)
        → IsMap (
            let rest = set_output p content outputs in
            if b then record f { content = content } ∷ outputs else f ∷ rest)
    go true e i = one_output fresh m
    go false e i =
        one_output
          (has_path-set_output p f.path content outputs
            ∙ ap (λ b. b || path_eq p f.path) fresh
            ∙ different p f.path e)
          i

write_and_check-write :
    (attempt : Change → Option ℕ) (outputs fs : List File)
    → IsMap outputs
    → write_and_check attempt true outputs fs ≡ write_outputs attempt outputs fs
unfolding write_and_check
write_and_check-write attempt outputs fs m =
    go (write_outputs attempt outputs fs) (write_outputs-check_outputs attempt outputs fs m)
  where
    go :
        (r : List File × Ended)
        → (r.1 ≡ returned → check_outputs outputs r.0 ≡ returned)
        → (let q : List File × Ended = elim r.1 [
          | returned ↦ (r.0, check_outputs outputs r.0)
          | failed ↦ (r.0, failed)
        ] in
            q)
          ≡ r
    go (gs, returned) h = ap (λ e. (gs, e)) (h refl)
    go (gs, rejects) h = refl
    go (gs, complains x xs) h = refl
    go (gs, refuses x) h = refl
    go (gs, node_throws x) h = refl

module _ (templates : Templates) where
  first_outputs-IsMap :
      (inventory : Inventory) (routes : List Text) (home : Text)
      → IsMap (first_outputs templates inventory routes home)
  unfolding first_outputs
  first_outputs-IsMap inventory routes home =
      set_output-IsMap (split_path (text "sitemap.xml")) (render_sitemap routes) (
        set_output-IsMap (split_path (text "data/routes.json")) (templates.routes_json routes) (
          set_output-IsMap (split_path (text "data/test-inventory.json"))
            (templates.inventory_json inventory)
            (set_output-IsMap (split_path (text "testing/index.html"))
              (templates.overview inventory) (set_output-IsMap (index_html ∷ []) home no_output))))

  add_categories-IsMap :
      (inventory : Inventory) (cs : List Text) (outputs : List File)
      → IsMap outputs
      → IsMap (add_categories templates inventory cs outputs)
  unfolding add_categories
  add_categories-IsMap inventory [] outputs m = m
  add_categories-IsMap inventory (c ∷ cs) outputs m = add_categories-IsMap inventory cs _ (
      set_output-IsMap (split_path (text "testing/" ++ to_lower_case c ++ text "/index.html"))
        (templates.category_page inventory c) m)

  add_groups-IsMap :
      (inventory : Inventory) (groups : List Group) (before : List File) {outputs : List File}
      → IsMap before
      → add_groups templates inventory groups before ≡ some outputs
      → IsMap outputs
  unfolding add_groups
  add_groups-IsMap inventory [] before m h = subst IsMap (some_injective h) m
  add_groups-IsMap inventory (group ∷ groups) before {outputs} m h =
      go (route_file (group_route group)) h (λ file i.
        add_groups-IsMap inventory groups
          (set_output (split_path file) (templates.group_page inventory group) before)
          (set_output-IsMap (split_path file) (templates.group_page inventory group) m) i)
    where
      go :
          (o : Option Text)
          → elim o [
            | none ↦ none
            | some file ↦
                add_groups templates inventory groups
                  (set_output (split_path file) (templates.group_page inventory group) before)
          ]
            ≡ some outputs
          → ((file : Text)
              → add_groups templates inventory groups
                  (set_output (split_path file) (templates.group_page inventory group) before)
                ≡ some outputs
              → IsMap outputs)
          → IsMap outputs
      go none i later = cc
      go (some file) i later = later file i

  build_outputs-IsMap :
      (inventory : Inventory) (source : Text) {outputs : List File}
      → build_outputs templates inventory source ≡ some outputs
      → IsMap outputs
  unfolding build_outputs
  build_outputs-IsMap inventory source {outputs} h =
      go (routes_for_inventory inventory.groups) (templates.home source inventory) h
    where
      go :
          (r : Option (List Text)) (o : Option Text)
          → elim r [
            | none ↦ none
            | some routes ↦ elim o [
              | none ↦ none
              | some home ↦ add_groups templates inventory inventory.groups (
                  add_categories templates inventory category_order
                    (first_outputs templates inventory routes home))
            ]
          ]
            ≡ some outputs
          → IsMap outputs
      go none o i = cc
      go (some routes) none i = cc
      go (some routes) (some home) i =
          add_groups-IsMap inventory inventory.groups _
            (add_categories-IsMap inventory category_order _
              (first_outputs-IsMap inventory routes home))
            i

  -- When `generate` writes, the check behind it never fails: with an inventory that passes the assertions, an
  -- index.html that can be read and pages that can be built, it does what `writeOutputs` does, and returns if
  -- that returns.
  pub generate-write_outputs :
      (attempt : Change → Option ℕ) (inventory : Inventory) (fs : List File) {source : Text}
      {outputs : List File}
      → is_sound inventory ≡ true
      → read_file (index_html ∷ []) fs ≡ some source
      → build_outputs templates inventory source ≡ some outputs
      → generate templates attempt true inventory fs ≡ write_outputs attempt outputs fs
  unfolding generate
  generate-write_outputs attempt inventory fs {source} {outputs} sound found built =
      ap
        (λ b. if not b then (fs, rejects) else elim (read_file (index_html ∷ []) fs) [
          | none ↦ (fs, node_throws 2)
          | some s ↦ elim (build_outputs templates inventory s) [
            | none ↦ (fs, rejects)
            | some o ↦ write_and_check attempt true o fs
          ]
        ])
        sound
      ∙ ap
          (λ r. elim r [
            | none ↦ (fs, node_throws 2)
            | some s ↦ elim (build_outputs templates inventory s) [
              | none ↦ (fs, rejects)
              | some o ↦ write_and_check attempt true o fs
            ]
          ])
          found
      ∙ ap (λ r. elim r [ none ↦ (fs, rejects) | some o ↦ write_and_check attempt true o fs ]) built
      ∙ write_and_check-write attempt outputs fs (build_outputs-IsMap inventory source built)
