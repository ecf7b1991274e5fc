-- ===== src/Tests/Building.antt =====
-- Pages of the site, and orders of a benchmark.
use node_ipc.Base.{
  map, arith, ◌≡◌, refl, ℕ, zero, suc, true, List, [], ◌∷◌, ◌++◌, Option, none, some, if◌then◌else◌,
}
use node_ipc.Text.{Text, text, text_eq}
use node_ipc.Pages.{Group, escape_html}
use mathlib.Core.List.{Perm}
use node_ipc.Plan.{williams_order}
use node_ipc.Plan.Spans.{span}
use node_ipc.Plan.Balance.{at_place, at_place-williams_order}
use node_ipc.Plan.Orders.{IsOrderOf, williams_order-IsOrderOf}
use node_ipc.Pages.Escaping.{is_inert, unescape_behind, escape_html-unescape}
use node_ipc.Pages.Files.{
  FilePath, File, Change, returned, generated_marker, index_html, has_path, generated_files,
  read_file, check_outputs, write_outputs,
}
use node_ipc.Pages.Files.Reading.{no_output, one_output}
use node_ipc.Pages.Files.Fresh.{write_outputs-check_outputs}
use node_ipc.Pages.Files.Others.{write_outputs-others}
use node_ipc.Pages.Building.{Inventory, Templates, build_outputs, is_sound, generate}
use node_ipc.Pages.Building.Rebuilt.{generate-write_outputs}

abbrev markup : Text
markup = text "<a href=\"x\">&amp;'"

escape_html-unescape_example :
    (is_inert (escape_html markup) ≡ true) × (unescape_behind 0 (escape_html markup) ≡ markup)
escape_html-unescape_example = escape_html-unescape markup

abbrev page : Text → FilePath
page name = text "testing" ∷ text "unit" ∷ name ∷ index_html ∷ []

abbrev generated : Text → Text → File
generated name content = record { path = page name; content = generated_marker ++ content }

abbrev home : File
home = record { path = index_html ∷ []; content = text "home" }

-- A page that is stale, an orphan, and a file that nobody generated.
abbrev site : List File
site = generated (text "a") (text "old") ∷ generated (text "b") (text "gone") ∷ home ∷ []

abbrev pages : List File
pages = generated (text "a") (text "new") ∷ generated (text "c") (text "first") ∷ []

abbrev permits : Change → Option ℕ
permits c = none

write_outputs-check_outputs_example :
    check_outputs pages (write_outputs permits pages site).0 ≡ returned
unfolding has_path write_outputs
write_outputs-check_outputs_example =
    write_outputs-check_outputs permits pages site (one_output refl (one_output refl no_output))
      refl

write_outputs-others_example :
    read_file (index_html ∷ []) (write_outputs permits pages site).0
    ≡ read_file (index_html ∷ []) site
unfolding has_path generated_files
write_outputs-others_example = write_outputs-others permits (index_html ∷ []) pages site refl refl

-- As many groups, with names of different lengths.
abbrev some_groups : ℕ → Text → List Group
some_groups zero name = []
some_groups (suc n) name =
    record { category = text "Unit"; name = name; slug = name; count = 5; cases = [] }
    ∷ some_groups n (b'a' ∷ name)

abbrev inventory : Inventory
inventory = record {
  total = 140;
  count_of = λ category. if text_eq category (text "Unit") then 140 else 0;
  minimum_of = λ category. 0;
  groups = some_groups 28 (text "a");
}

abbrev blank : Templates
blank = record {
  home = λ source i. some source;
  overview = λ i. [];
  inventory_json = λ i. [];
  routes_json = λ routes. [];
  category_page = λ i category. [];
  group_page = λ i group. generated_marker;
}

abbrev built : List File
built = elim (build_outputs blank inventory (text "home")) [ none ↦ [] | some outputs ↦ outputs ]

generate-write_outputs_example :
    generate blank permits true inventory site ≡ write_outputs permits built site
unfolding is_sound read_file build_outputs
generate-write_outputs_example = generate-write_outputs blank permits inventory site refl refl refl

-- The orders of three subjects, in a block whose row is turned round.
abbrev three : List ℕ
three = 10 ∷ 11 ∷ 12 ∷ []

williams_order-IsOrderOf_example : IsOrderOf three (williams_order three 4)
williams_order-IsOrderOf_example = williams_order-IsOrderOf 10 (11 ∷ 12 ∷ []) 4 (omega arith)

at_place-williams_order_example :
    Perm (map (λ block. at_place 1 (williams_order three block)) (span 0 3)) (map some three)
at_place-williams_order_example =
    at_place-williams_order 10 (11 ∷ 12 ∷ []) 1 (omega arith) (omega arith)
