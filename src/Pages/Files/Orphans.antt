-- ===== src/Pages/Files/Orphans.antt =====
-- The generated pages of groups: those that are expected, and the others.
use node_ipc.Base.{
  ◌≡◌, refl, sym, ap, ◌∙◌, inl, inr, ℕ, Bool, true, false, not, ◌&&◌, ◌||◌, List, [], ◌∷◌, ◌++◌,
  Option, none, some, if◌then◌else◌, arith, Bool-cases, All,
}
use node_ipc.Text.{Text, starts_with}
use node_ipc.Pages.Files.{
  FilePath, path_eq, has_path, File, remove_file, Change, Ended, returned, rejects, complains,
  refuses, node_throws, generated_marker, categories, is_page_of, is_group_page, generated_of,
  generated_files, stands_alone, remove_page, remove_orphans,
}
use node_ipc.Pages.Files.Reading.{path_eq-eq, path_eq_refl}

pub All-mono {ℓ κ μ} :
    {A : Type ℓ} {P : A → Type κ} {Q : A → Type μ} (xs : List A)
    → ((x : A) → P x → Q x)
    → All P xs
    → All Q xs
All-mono [] f h = tt
All-mono (x ∷ xs) f h = (f x h.0, All-mono xs f h.1)

All-both {ℓ κ μ ν} :
    {A : Type ℓ} {P : A → Type κ} {Q : A → Type μ} {R : A → Type ν} (xs : List A)
    → ((x : A) → P x → Q x → R x)
    → All P xs
    → All Q xs
    → All R xs
All-both [] f h k = tt
All-both (x ∷ xs) f h k = (f x h.0 k.0, All-both xs f h.1 k.1)

pub or_left : {a : Bool} (b : Bool) → a ≡ true → (a || b) ≡ true
or_left b h = ap (λ x. x || b) h

pub or_right : (a : Bool) {b : Bool} → b ≡ true → (a || b) ≡ true
or_right true h = refl
or_right false h = h

-- Whether a file begins with the marker.
abbrev pub marked : File → Bool
marked f = starts_with generated_marker f.content

abbrev pub is_generated : File → Bool
is_generated f = is_group_page categories f.path && marked f

-- Each generated page is one of these paths.
abbrev pub Covered : List FilePath → List File → Type 0
Covered ps fs = All (λ f. is_generated f ≡ true → has_path f.path ps ≡ true) fs

has_path-append :
    (p : FilePath) (ps qs : List FilePath)
    → has_path p (ps ++ qs) ≡ (has_path p ps || has_path p qs)
unfolding has_path
has_path-append p [] qs = refl
has_path-append p (q ∷ ps) qs = ground (arith, has_path-append p ps qs)

generated_of-All :
    (category : Text) (fs : List File)
    → All
        (λ f.
          (is_page_of category f.path && marked f) ≡ true
          → has_path f.path (generated_of category fs) ≡ true)
        fs
unfolding generated_of has_path
generated_of-All category [] = tt
generated_of-All category (f ∷ fs) =
    go (is_page_of category f.path && marked f) refl (generated_of-All category fs)
  where
    rest : List FilePath
    rest = generated_of category fs

    go :
        (b : Bool)
        → (is_page_of category f.path && marked f) ≡ b
        → All
            (λ g. (is_page_of category g.path && marked g) ≡ true → has_path g.path rest ≡ true)
            fs
        → All
            (λ g.
              (is_page_of category g.path && marked g) ≡ true
              → has_path g.path (if b then f.path ∷ rest else rest) ≡ true)
            (f ∷ fs)
    go true e h = (
      λ i. or_left (has_path f.path rest) (path_eq_refl f.path),
      All-mono fs (λ g k i. or_right (path_eq f.path g.path) (k i)) h,
    )
    go false e h = (λ i. cc, h)

pub generated_files-All :
    (cs : List Text) (fs : List File)
    → All
        (λ f.
          (is_group_page cs f.path && marked f) ≡ true
          → has_path f.path (generated_files cs fs) ≡ true)
        fs
unfolding generated_files is_group_page
generated_files-All [] fs = All-mono {P = λ f. Unit {0}} fs (λ f u i. cc) (units fs)
  where
    units : (gs : List File) → All (λ f. Unit {0}) gs
    units [] = tt
    units (g ∷ gs) = (tt, units gs)
generated_files-All (c ∷ cs) fs =
    All-both fs
      (λ f h k i.
        has_path-append f.path (generated_of c fs) (generated_files cs fs)
        ∙ elim (Bool-cases (is_page_of c f.path)) [
          | inl e ↦ ground (arith, h (ground (arith, e, i)))
          | inr e ↦ ground (arith, k (ground (arith, e, i)))
        ])
      (generated_of-All c fs) (generated_files-All cs fs)

pub remove_file-All {κ} :
    (P : File → Type κ) (p : FilePath) (fs : List File)
    → All P fs
    → All (λ f. P f × (path_eq f.path p ≡ false)) (remove_file p fs)
unfolding remove_file
remove_file-All P p [] h = tt
remove_file-All P p (f ∷ fs) h = go (path_eq f.path p) refl (remove_file-All P p fs h.1)
  where
    go :
        (b : Bool)
        → path_eq f.path p ≡ b
        → All (λ g. P g × (path_eq g.path p ≡ false)) (remove_file p fs)
        → All
            (λ g. P g × (path_eq g.path p ≡ false))
            (let rest = remove_file p fs in if b then rest else f ∷ rest)
    go true e i = i
    go false e i = ((h.0, e), i)

module _ (attempt : Change → Option ℕ) (expected : List FilePath) where
  abbrev Left : List FilePath → List File → Type 0
  Left ps fs =
      All (λ f. is_generated f ≡ true → (has_path f.path expected || has_path f.path ps) ≡ true) fs

  known_page :
      (p : FilePath) (ps : List FilePath) (f : File)
      → has_path p expected ≡ true
      → (has_path f.path expected || has_path f.path (p ∷ ps)) ≡ true
      → (has_path f.path expected || has_path f.path ps) ≡ true
  unfolding has_path
  known_page p ps f e h = elim (Bool-cases (path_eq p f.path)) [
    | inl i ↦
        or_left (has_path f.path ps)
          (ap (λ q. has_path q expected) (sym (path_eq-eq p f.path i)) ∙ e)
    | inr i ↦ ap (λ b. has_path f.path expected || (b || has_path f.path ps)) (sym i) ∙ h
  ]

  other_page :
      (p : FilePath) (ps : List FilePath) (f : File)
      → path_eq f.path p ≡ false
      → (has_path f.path expected || has_path f.path (p ∷ ps)) ≡ true
      → (has_path f.path expected || has_path f.path ps) ≡ true
  unfolding has_path
  other_page p ps f e h = elim (Bool-cases (path_eq p f.path)) [
    | inl i ↦ cc (path_eq-eq p f.path i, path_eq_refl p)
    | inr i ↦ ap (λ b. has_path f.path expected || (b || has_path f.path ps)) (sym i) ∙ h
  ]

  removed_page :
      (p : FilePath) (ps : List FilePath) (fs : List File)
      → Left (p ∷ ps) fs
      → (remove_page attempt p fs).1 ≡ returned
      → Left ps (remove_page attempt p fs).0
  unfolding remove_page
  removed_page p ps fs c h =
      go (stands_alone p fs) (attempt (Change.unlinks p)) (attempt (Change.removes_directory_of p))
        h
    where
      result : Bool → Option ℕ → Option ℕ → List File × Ended
      result b o d = if not b then (fs, refuses p) else elim o [
        | some e ↦ (fs, node_throws e)
        | none ↦ elim d [
          | some e ↦ (remove_file p fs, node_throws e)
          | none ↦ (remove_file p fs, returned)
        ]
      ]

      go : (b : Bool) (o d : Option ℕ) → (result b o d).1 ≡ returned → Left ps (result b o d).0
      go false o d i = cc
      go true (some e) d i = cc
      go true none (some e) i = cc
      go true none none i =
          All-mono (remove_file p fs) (λ f k g. other_page p ps f k.1 (k.0 g))
            (remove_file-All
              (λ f.
                is_generated f ≡ true
                → (has_path f.path expected || has_path f.path (p ∷ ps)) ≡ true)
              p fs c)

  one_page :
      (p : FilePath) (ps : List FilePath) (fs : List File)
      → Left (p ∷ ps) fs
      → (b : Bool) → has_path p expected ≡ b
      → (let r : List File × Ended = if b then (fs, returned) else remove_page attempt p fs in r).1
        ≡ returned
      → Left ps
          (let r : List File × Ended = if b then (fs, returned) else remove_page attempt p fs in
            r).0
  one_page p ps fs c true e h = All-mono fs (λ f k g. known_page p ps f e (k g)) c
  one_page p ps fs c false e h = removed_page p ps fs c h

  -- Removing the orphans among these paths leaves the expected ones.
  pub remove_orphans-Covered :
      (ps : List FilePath) (fs : List File)
      → Left ps fs
      → (remove_orphans attempt expected ps fs).1 ≡ returned
      → Covered expected (remove_orphans attempt expected ps fs).0
  unfolding remove_orphans has_path
  remove_orphans-Covered [] fs c h = All-mono fs (λ f k i. ground (arith, k i)) c
  remove_orphans-Covered (p ∷ ps) fs c h =
      go (if has_path p expected then (fs, returned) else remove_page attempt p fs)
        (one_page p ps fs c (has_path p expected) refl) (λ gs d i. remove_orphans-Covered ps gs d i)
        h
    where
      go :
          (here : List File × Ended)
          → (here.1 ≡ returned → Left ps here.0)
          → ((gs : List File)
              → Left ps gs
              → (remove_orphans attempt expected ps gs).1 ≡ returned
              → Covered expected (remove_orphans attempt expected ps gs).0)
          → (let r : List File × Ended = elim here.1 [
            | returned ↦ remove_orphans attempt expected ps here.0
            | failed ↦ (here.0, failed)
          ] in
              r).1
            ≡ returned
          → Covered expected
              (let r : List File × Ended = elim here.1 [
                | returned ↦ remove_orphans attempt expected ps here.0
                | failed ↦ (here.0, failed)
              ] in
                r).0
      go (gs, returned) here later h' = later gs (here refl) h'
      go (gs, rejects) here later h' = cc
      go (gs, complains x xs) here later h' = cc
      go (gs, refuses x) here later h' = cc
      go (gs, node_throws x) here later h' = cc
