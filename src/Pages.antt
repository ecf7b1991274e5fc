-- ===== src/Pages.antt =====
-- docs/scripts/generate-test-pages.mjs: what goes into the pages of the site. The inventory of the tests
-- is a parameter, and so are the longer templates.
pub mod Escaping
pub mod Files
pub mod Building
use node_ipc.Base.{
  ℕ, ◌+◌, Bool, true, false, not, ◌&&◌, ◌||◌, List, [], ◌∷◌, ◌++◌, map, Option, none, some, leb,
  ◌==◌, if◌then◌else◌,
}
use node_ipc.Text.{to_lower_case, Text, text, text_eq}

-- `value.replaceAll(unit,replacement)`, for a pattern of one unit and a replacement without `$`.
unfoldable pub replace_all : ℕ → Text → Text → Text
replace_all c r [] = []
replace_all c r (u ∷ t) = let rest = replace_all c r t in if u == c then r ++ rest else u ∷ rest

-- `escapeHTML`
unfoldable pub escape_html : Text → Text
unfolding replace_all
escape_html value = replace_all b'\'' (text "&#39;") (
    replace_all b'"' (text "&quot;") (
      replace_all b'>' (text "&gt;")
        (replace_all b'<' (text "&lt;") (replace_all b'&' (text "&amp;") value))))

pub record Group : Type 0 where
  pub category : Text
  pub name : Text
  pub slug : Text
  pub count : ℕ
  pub cases : List Text

-- `categoryGroups`
unfoldable pub category_groups : List Group → Text → List Group
unfolding text_eq
category_groups [] category = []
category_groups (group ∷ groups) category =
    let rest = category_groups groups category in
    if text_eq group.category category then group ∷ rest else rest

unfoldable pub sum_counts : ℕ → List Group → ℕ
sum_counts total [] = total
sum_counts total (group ∷ groups) = sum_counts (total + group.count) groups

-- `categoryCount`
unfoldable pub category_count : List Group → Text → ℕ
unfolding category_groups sum_counts
category_count groups category = sum_counts 0 (category_groups groups category)

-- `groupRoute`
unfoldable pub group_route : Group → Text
unfolding to_lower_case
group_route group =
    text "/testing/" ++ to_lower_case group.category ++ text "/" ++ group.slug ++ text "/"

unfoldable pub includes : Text → List Text → Bool
unfolding text_eq
includes a [] = false
includes a (b ∷ more) = text_eq b a || includes a more

-- Whether a route comes up twice, so that the set of the routes is smaller than their list.
unfoldable pub has_repeat : List Text → Bool
unfolding includes
has_repeat [] = false
has_repeat (a ∷ more) = includes a more || has_repeat more

-- `baseRoutes`
abbrev pub base_routes : List Text
base_routes =
    text "/"
    ∷ text "/quick-start/"
    ∷ text "/config/"
    ∷ text "/profiles/"
    ∷ text "/parsers/"
    ∷ text "/api/"
    ∷ text "/unix-windows/"
    ∷ text "/tcp/"
    ∷ text "/tls/"
    ∷ text "/udp/"
    ∷ text "/examples/"
    ∷ text "/rust/"
    ∷ text "/rust/examples/"
    ∷ text "/rust/interoperability/"
    ∷ text "/rust/testing/"
    ∷ text "/testing/"
    ∷ text "/testing/unit/"
    ∷ text "/testing/functional/"
    ∷ text "/testing/integration/"
    ∷ text "/testing/regression/"
    ∷ text "/coverage/"
    ∷ text "/benchmarks/"
    ∷ text "/benchmarks/transports/"
    ∷ text "/benchmarks/rust/"
    ∷ text "/benchmarks/profiles/"
    ∷ text "/benchmarks/resources/"
    ∷ text "/benchmarks/methodology/"
    ∷ text "/benchmarks/runs/"
    ∷ text "/security/"
    ∷ []

-- `routesForInventory`; none where the assertion fails.
unfoldable pub routes_for_inventory : List Group → Option (List Text)
unfolding group_route has_repeat
routes_for_inventory groups =
    let routes = base_routes ++ map group_route groups in
    if has_repeat routes then none else some routes

-- The regular expression of `routeFile`, behind a `/`: segments of lower-case letters, digits and dashes, each
-- of which ends in a `/`. `within` says that a segment has begun.
unfoldable pub is_safe_behind : Bool → Text → Bool
is_safe_behind within [] = not within
is_safe_behind within (u ∷ t) =
    let rest = is_safe_behind (not (u == b'/')) t in
    if u == b'/'
    then within && rest
    else (leb b'a' u && leb u b'z' || leb b'0' u && leb u b'9' || u == b'-') && rest

-- `routeFile`; none where the assertion fails.
unfoldable pub route_file : Text → Option Text
unfolding is_safe_behind
route_file [] = none
route_file (u ∷ []) = if u == b'/' then some (text "index.html") else none
route_file (u ∷ route) =
    if u == b'/' && is_safe_behind false route then some (route ++ text "index.html") else none

-- A line of the sitemap, with `canonicalBase`.
unfoldable pub sitemap_lines : List Text → Text
sitemap_lines [] = []
sitemap_lines (route ∷ []) =
    text "  <url><loc>https://riaevangelist.github.io/node-ipc" ++ route ++ text "</loc></url>"
sitemap_lines (route ∷ more) =
    text "  <url><loc>https://riaevangelist.github.io/node-ipc"
    ++ route
    ++ text "</loc></url>"
    ++ 10 ∷ sitemap_lines more

-- `renderSitemap`
unfoldable pub render_sitemap : List Text → Text
unfolding sitemap_lines
render_sitemap routes =
    text "<?xml version=\"1.0\" encoding=\"UTF-8\"?>"
    ++ 10 ∷ text "<urlset xmlns=\"http://www.sitemaps.org/schemas/sitemap/0.9\">"
    ++ 10 ∷ sitemap_lines routes
    ++ 10 ∷ text "</urlset>"
    ++ 10 ∷ []
