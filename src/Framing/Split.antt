-- ===== src/Framing/Split.antt =====
-- What cutting a stream into frames means, without indices.
use node_ipc.Base.{
  All, ◌≢◌, ℕ, zero, suc, ◌+◌, ◌-◌, ◌<◌, ◌≡◌, refl, sym, ap, ap₂, subst, ◌∙◌, inl, inr, List, [],
  ◌∷◌, ◌++◌, none, some, arith, length, drop, take, drop-drop, length-drop, length-take,
  append_assoc, append-nil, Option-cases,
}
use node_ipc.Text.{starts_with, Text, find, index_of, slice}
use node_ipc.Text.Search.{find-eq, find-le, find-append, find-append_frame}
use node_ipc.Framing.{push_loop, remainder_from, push}

-- `Split d s frames rest`: the frames are what stands before each delimiter `d` of `s`, each found
-- as early as possible, and no delimiter stands in the rest.
pub data Split (d : Text) : Text → List Text → Text → Type 0 where
  stop : {s : Text} → find d s ≡ none → Split d s [] s
  frame :
      {s : Text} (f : Text) {fs : List Text} {rest t : Text}
      → t ≡ f ++ (d ++ s)
      → find d t ≡ some (length f)
      → Split d s fs rest
      → Split d t (f ∷ fs) rest

-- The stream that a list of frames stands for.
abbrev pub joined : Text → List Text → Text
joined d [] = []
joined d (f ∷ fs) = f ++ (d ++ joined d fs)

-- Nothing is lost, and nothing made up.
pub Split-eq :
    {d s : Text} {fs : List Text} {rest : Text} → Split d s fs rest → s ≡ joined d fs ++ rest
Split-eq (stop e) = refl
Split-eq {d} {fs = f ∷ fs} {rest} (frame {s} _ e at_f more) =
    e
    ∙ ap (λ t. f ++ (d ++ t)) (Split-eq more)
    ∙ sym (
        append_assoc f (d ++ joined d fs) rest
        ∙ ap (λ t. f ++ t) (append_assoc d (joined d fs) rest))

pub Split-rest :
    {d s : Text} {fs : List Text} {rest : Text} → Split d s fs rest → find d rest ≡ none
Split-rest (stop e) = e
Split-rest (frame _ e at_f more) = Split-rest more

-- A stream that comes in two parts is cut the same way: the rest of the first part goes before the
-- second.
pub Split-append :
    {d s : Text} {fs gs : List Text} {rest rest' : Text} (t : Text)
    → Split d s fs rest
    → Split d (rest ++ t) gs rest'
    → Split d (s ++ t) (fs ++ gs) rest'
Split-append t (stop e) later = later
Split-append {d} t (frame {s} f {t = u} e at_f more) later =
    frame f (ap (λ w. w ++ t) e ∙ append_assoc f (d ++ s) t ∙ ap (λ w. f ++ w) (append_assoc d s t))
      (find-append d u t (length f) at_f) (Split-append t more later)

-- What the loop of `push` returns: the frames behind those found before, and where the rest begins.
record Cuts (d c : Text) (start : ℕ) (before : List Text) (found : List Text × ℕ) : Type 0 where
  frames : List Text
  events : found.0 ≡ before ++ frames
  cut : Split d (drop start c) frames (drop found.1 c)

slice-eq : (c : Text) (start k : ℕ) → slice c start (start + k) ≡ take k (drop start c)
slice-eq c start k =
    ap (λ n. take n (drop start c)) (let e : start + k - start ≡ k = omega arith in e)

-- One round: a delimiter is found `k` units behind `start`.
Cuts-step :
    (d c : Text) (start k : ℕ) (before : List Text) {found : List Text × ℕ}
    → find d (drop start c) ≡ some k
    → Cuts d c (start + k + length d) (before ++ slice c start (start + k) ∷ []) found
    → Cuts d c start before found
Cuts-step d c start k before e later = record {
  frames = f ∷ later.frames;
  events = later.events ∙ append_assoc before (f ∷ []) later.frames;
  cut = frame f split_at at_f later.cut;
}
  where
    f : Text
    f = slice c start (start + k)

    split_at : drop start c ≡ f ++ (d ++ drop (start + k + length d) c)
    split_at =
        find-eq d (drop start c) k e
        ∙ ap₂ (λ a b. a ++ (d ++ b)) (sym (slice-eq c start k))
            (drop-drop start (k + length d) c
              ∙ ap (λ n. drop n c)
                  (let a : start + (k + length d) ≡ start + k + length d = omega arith in a))

    at_f : find d (drop start c) ≡ some (length f)
    at_f =
        e
        ∙ ap some (
            sym (
              ap length (slice-eq c start k)
              ∙ length-take k (drop start c) (omega (arith, find-le d (drop start c) k e))))

module _ (x : ℕ) (d' c : Text) where
  abbrev d : Text
  d = x ∷ d'

  push_loop-Cuts :
      (fuel start : ℕ) (before : List Text)
      → length (drop start c) < fuel
      → Cuts d c start before (push_loop d c fuel start (index_of d c start) before)
  unfolding push_loop
  push_loop-Cuts zero start before h = elim h [ ]
  push_loop-Cuts (suc fuel) start before h = elim (Option-cases (find d (drop start c))) [
    | inl e ↦ rw e (record { frames = []; events = sym (append-nil before); cut = stop e })
    | inr (k, e) ↦ rw e (
        Cuts-step d c start k before e (
          push_loop-Cuts fuel (start + k + length d) (before ++ slice c start (start + k) ∷ []) (
            omega (
              arith,
              find-le d (drop start c) k e,
              length-drop start c,
              length-drop (start + k + length d) c,
            ))))
  ]

  remainder_from-eq : (start : ℕ) → remainder_from d c start ≡ drop start c
  unfolding remainder_from
  remainder_from-eq zero = refl
  remainder_from-eq (suc n) = ground arith

-- For a non-empty delimiter, `push` cuts the buffer and the chunk into the frames that stand before each
-- delimiter, each found as early as possible, and the remainder, which has no delimiter.
pub push-Split :
    (x : ℕ) (d' buffer chunk : Text)
    → Split
        (x ∷ d')
        (buffer ++ chunk)
        (push (x ∷ d') buffer chunk).events
        (push (x ∷ d') buffer chunk).remainder
unfolding push
push-Split x d' buffer chunk =
    let c = buffer ++ chunk in
    let r = push_loop-Cuts x d' c (suc (length c)) 0 [] (omega arith) in
    rw (r.events, remainder_from-eq) r.cut

append_inj : (f g s t : Text) → length f ≡ length g → f ++ s ≡ g ++ t → (f ≡ g) × (s ≡ t)
append_inj [] [] s t n e = (refl, e)
append_inj [] (_ ∷ _) s t n e = absurd (omega arith)
append_inj (_ ∷ _) [] s t n e = absurd (omega arith)
append_inj (x ∷ f) (y ∷ g) s t n e =
    let tails = append_inj f g s t (omega arith) (ground arith) in (ground (arith, tails), tails.1)

-- There is one way to cut a stream.
pub Split-unique :
    {d s : Text} {fs gs : List Text} {rest rest' : Text}
    → Split d s fs rest
    → Split d s gs rest'
    → (fs ≡ gs) × (rest ≡ rest')
Split-unique (stop e) (stop e') = (refl, refl)
Split-unique (stop e) (frame g e' at_g more') = cc
Split-unique (frame f e at_f more) (stop e') = cc
Split-unique {d} (frame {s} f e at_f more) (frame {s = s'} g {fs = gs} {rest = r'} e' at_g more') =
    let heads = append_inj f g (d ++ s) (d ++ s') (ground arith) (sym e ∙ e') in
    let tails = append_inj d d s s' refl heads.1 in
    let later = Split-unique more (subst (λ w. Split d w gs r') (sym tails.1) more') in
    (ap₂ (◌∷◌) heads.0 later.0, later.1)

-- Frames without the first unit of the delimiter are found again in their stream.
pub joined-Split :
    (x : ℕ) (d' : Text) (fs : List Text)
    → All (All (λ c. c ≢ x)) fs
    → Split (x ∷ d') (joined (x ∷ d') fs) fs []
unfolding find starts_with
joined-Split x d' [] h = stop refl
joined-Split x d' (f ∷ fs) h =
    frame f refl (find-append_frame x d' f (joined (x ∷ d') fs) h.0) (joined-Split x d' fs h.1)
