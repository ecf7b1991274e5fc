-- ===== src/Pages/Files/Reading.antt =====
-- Reading files that were written or removed.
use node_ipc.Base.{
  ◌≡◌, refl, ap, ap₂, ◌∙◌, inl, inr, ℕ, true, false, List, [], ◌∷◌, Option, none, some,
  if◌then◌else◌, arith, Bool-cases,
}
use node_ipc.Text.{Text, text_eq, text_eq_refl}
use node_ipc.Pages.Files.{
  FilePath, path_eq, has_path, File, paths, read_file, remove_file, write_file, Change, Ended,
  returned, node_throws, write_all_outputs, output_errors, missing, stale,
}

text_eq-eq : (a b : Text) → text_eq a b ≡ true → a ≡ b
unfolding text_eq
text_eq-eq [] [] h = refl
text_eq-eq [] (y ∷ b) h = cc
text_eq-eq (x ∷ a) [] h = cc
text_eq-eq (x ∷ a) (y ∷ b) h =
    let first : x ≡ y = ground (arith, h) in
    ap₂ (λ u t. u ∷ t) first (text_eq-eq a b (ground (arith, h)))

pub path_eq-eq : (p q : FilePath) → path_eq p q ≡ true → p ≡ q
unfolding path_eq
path_eq-eq [] [] h = refl
path_eq-eq [] (b ∷ q) h = cc
path_eq-eq (a ∷ p) [] h = cc
path_eq-eq (a ∷ p) (b ∷ q) h =
    ap₂ (λ s r. s ∷ r) (text_eq-eq a b (ground (arith, h))) (path_eq-eq p q (ground (arith, h)))

pub path_eq_refl : (p : FilePath) → path_eq p p ≡ true
unfolding path_eq
path_eq_refl [] = refl
path_eq_refl (a ∷ p) = rw (text_eq_refl a, path_eq_refl p) refl

pub read_file-remove_file :
    (p q : FilePath) (fs : List File)
    → path_eq p q ≡ false
    → read_file q (remove_file p fs) ≡ read_file q fs
unfolding read_file remove_file
read_file-remove_file p q [] h = refl
read_file-remove_file p q (f ∷ fs) h =
    let later = read_file-remove_file p q fs h in
    elim (Bool-cases (path_eq f.path p)) [
      | inl e ↦
          let other : path_eq f.path q ≡ false =
            ap (λ r. path_eq r q) (path_eq-eq f.path p e) ∙ h in
          rw (e, other) later
      | inr e ↦
          rw e (elim (Bool-cases (path_eq f.path q)) [ inl i ↦ rw i refl | inr i ↦ rw i later ])
    ]

pub read_file-write_file :
    (p q : FilePath) (content : Text) (fs : List File)
    → path_eq p q ≡ false
    → read_file q (write_file p content fs) ≡ read_file q fs
unfolding read_file write_file
read_file-write_file p q content fs h = rw h (read_file-remove_file p q fs h)

read_file-written :
    (p : FilePath) (content : Text) (fs : List File)
    → read_file p (write_file p content fs) ≡ some content
unfolding read_file write_file
read_file-written p content fs = rw (path_eq_refl p) refl

output_errors-found :
    (f : File) (outputs fs : List File)
    → read_file f.path fs ≡ some f.content
    → output_errors outputs fs ≡ []
    → output_errors (f ∷ outputs) fs ≡ []
unfolding output_errors
output_errors-found f outputs fs e rest = go (read_file f.path fs) e
  where
    go :
        (o : Option Text)
        → o ≡ some f.content
        → elim o [
          | none ↦ missing f.path ∷ output_errors outputs fs
          | some content ↦
              if text_eq content f.content
              then output_errors outputs fs
              else stale f.path ∷ output_errors outputs fs
        ]
          ≡ []
    go none i = cc
    go (some content) i =
        let same : content ≡ f.content = cc in
        ap
          (λ c.
            if text_eq c f.content
            then output_errors outputs fs
            else stale f.path ∷ output_errors outputs fs)
          same
        ∙ rw (text_eq_refl f.content) rest

-- No output has the path of another.
pub data IsMap : List File → Type 0 where
  no_output : IsMap []
  one_output :
      {f : File} {outputs : List File}
      → has_path f.path (paths outputs) ≡ false
      → IsMap outputs
      → IsMap (f ∷ outputs)

module _ (attempt : Change → Option ℕ) where
  -- Writing leaves the other files alone.
  pub write_all_outputs-others :
      (q : FilePath) (outputs fs : List File)
      → has_path q (paths outputs) ≡ false
      → read_file q (write_all_outputs attempt outputs fs).0 ≡ read_file q fs
  unfolding write_all_outputs has_path
  write_all_outputs-others q [] fs h = refl
  write_all_outputs-others q (f ∷ outputs) fs h = go (attempt (Change.writes f.path)) (
      write_all_outputs-others q outputs (write_file f.path f.content fs) (ground (arith, h))
      ∙ read_file-write_file f.path q f.content fs (ground (arith, h)))
    where
      later : List File × Ended
      later = write_all_outputs attempt outputs (write_file f.path f.content fs)

      go :
          (o : Option ℕ)
          → read_file q later.0 ≡ read_file q fs
          → read_file q
              (let r : List File × Ended = elim o [ some e ↦ (fs, node_throws e) | none ↦ later ] in
                r).0
            ≡ read_file q fs
      go none i = i
      go (some e) i = refl

  -- If writing returns, each output can be read.
  pub write_all_outputs-written :
      (outputs fs : List File)
      → IsMap outputs
      → (write_all_outputs attempt outputs fs).1 ≡ returned
      → output_errors outputs (write_all_outputs attempt outputs fs).0 ≡ []
  unfolding write_all_outputs output_errors
  write_all_outputs-written [] fs m h = refl
  write_all_outputs-written (f ∷ outputs) fs (one_output fresh m) h =
      go (attempt (Change.writes f.path)) h
        (λ i. write_all_outputs-written outputs (write_file f.path f.content fs) m i)
        (write_all_outputs-others f.path outputs (write_file f.path f.content fs) fresh
          ∙ read_file-written f.path f.content fs)
    where
      later : List File × Ended
      later = write_all_outputs attempt outputs (write_file f.path f.content fs)

      read : List File × Ended → Option Text
      read r = read_file f.path r.0

      go :
          (o : Option ℕ)
          → (let r : List File × Ended = elim o [ some e ↦ (fs, node_throws e) | none ↦ later ] in
              r).1
            ≡ returned
          → (later.1 ≡ returned → output_errors outputs later.0 ≡ [])
          → read later ≡ some f.content
          → output_errors
              (f ∷ outputs)
              (let r : List File × Ended = elim o [ some e ↦ (fs, node_throws e) | none ↦ later ] in
                r).0
            ≡ []
      go none i rest e = output_errors-found f outputs later.0 e (rest i)
      go (some x) i rest e = cc
