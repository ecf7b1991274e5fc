-- ===== src/Demo/Tracing.antt =====
-- `TracingParser` and `visibleFrame`. What is logged is kept beside the state of the receiver.
use node_ipc.Base.{
  ◌≡◌, refl, sym, ap, ◌∙◌, ℕ, true, false, List, [], ◌∷◌, ◌++◌, ◌==◌, if◌then◌else◌, arith, map,
  append_assoc, append-nil, Bool-cases, inl, inr,
}
use node_ipc.Text.{is_free, Text, text}
use node_ipc.Outcome.{Outcome, returned, threw, Run, and_then, and_then-eq-returned, each}
use node_ipc.Json.{Value}
use node_ipc.Framing.{push}
use node_ipc.Framing.Chunks.{read-push}
use node_ipc.Parser.{encode_fast}
use node_ipc.Parser.Reading.{deliver, decode_fast, read_fast}

-- `replaceAll` of a unit by a backslash and a letter.
unfoldable pub replace_unit : ℕ → ℕ → Text → Text
replace_unit c letter [] = []
replace_unit c letter (u ∷ t) =
    let rest = replace_unit c letter t in if u == c then b'\\' ∷ letter ∷ rest else u ∷ rest

-- `visibleFrame`
unfoldable pub visible_frame : Text → Text
unfolding replace_unit
visible_frame frame =
    replace_unit 9 b't' (replace_unit 10 b'n' (replace_unit 13 b'r' (replace_unit 12 b'f' frame)))

-- `TracingParser.encode`, on the log.
unfoldable pub encode_traced : Text → Value → Value → List Text → List Text × Text
unfolding visible_frame encode_fast
encode_traced delimiter type data' log =
    let frame = encode_fast delimiter type data' in
    (log ++ (text "SEND RAW: " ++ visible_frame frame) ∷ [], frame)

is_free-replaced :
    (c letter : ℕ) (t : Text)
    → (b'\\' == c) ≡ false
    → (letter == c) ≡ false
    → is_free c (replace_unit c letter t) ≡ true
unfolding is_free replace_unit
is_free-replaced c letter [] h k = refl
is_free-replaced c letter (u ∷ t) h k =
    let rest = is_free-replaced c letter t h k in
    elim (Bool-cases (u == c)) [
      | inl e ↦ rw (e, h, k, rest) refl
      | inr e ↦ rw (e, rest) (rw e refl)
    ]

is_free-kept :
    (d c letter : ℕ) (t : Text)
    → (b'\\' == d) ≡ false
    → (letter == d) ≡ false
    → is_free d t ≡ true
    → is_free d (replace_unit c letter t) ≡ true
unfolding is_free replace_unit
is_free-kept d c letter [] h k f = refl
is_free-kept d c letter (u ∷ t) h k f =
    let here : (u == d) ≡ false = ground (arith, f) in
    let rest = is_free-kept d c letter t h k (ground (arith, f)) in
    elim (Bool-cases (u == c)) [ inl e ↦ rw (e, h, k, rest) refl | inr e ↦ rw (e, here, rest) refl ]

-- A frame that is shown has no form feed, return, line feed or tab: it stays on its line.
pub visible_frame-is_free :
    (frame : Text)
    → (is_free 9 (visible_frame frame) ≡ true)
      × (is_free 10 (visible_frame frame) ≡ true)
      × (is_free 12 (visible_frame frame) ≡ true)
      × (is_free 13 (visible_frame frame) ≡ true)
unfolding visible_frame
visible_frame-is_free frame =
    let a = replace_unit 12 b'f' frame in
    let b = replace_unit 13 b'r' a in
    let c = replace_unit 10 b'n' b in
    (
      is_free-replaced 9 b't' c refl refl,
      is_free-kept 10 9 b't' c refl refl (is_free-replaced 10 b'n' b refl refl),
      is_free-kept 12 9 b't' c refl refl (
          is_free-kept 12 10 b'n' b refl refl
            (is_free-kept 12 13 b'r' a refl refl (is_free-replaced 12 b'f' frame refl refl))),
      is_free-kept 13 9 b't' c refl refl
          (is_free-kept 13 10 b'n' b refl refl (is_free-replaced 13 b'r' a refl refl)),
    )

module _ {ℓ} {S : Type ℓ} (delimiter : Text) (receive : Value → Run S (Unit {0})) where
  abbrev pub line : Text → Text
  line frame = text "RECV RAW: " ++ visible_frame (frame ++ delimiter)

  unfoldable pub with_log : {A : Type 0} → List Text → S × Outcome A → (S × List Text) × Outcome A
  with_log log (s, o) = ((s, log), o)

  -- The body of the loop of `TracingParser.read`.
  unfoldable pub traced_frame : Text → Run (S × List Text) (Unit {0})
  unfolding with_log visible_frame deliver
  traced_frame frame (s, log) =
      with_log (log ++ line frame ∷ []) (deliver receive (decode_fast frame) s)

  -- `TracingParser.read`
  unfoldable pub read_traced : Text → Text → Run (S × List Text) Text
  unfolding traced_frame
  read_traced buffer chunk t =
      let parsed = push delimiter buffer chunk in
      and_then (each traced_frame parsed.events t) (λ _ t'. (t', returned parsed.remainder))

  abbrev pub forget {κ} : {A : Type κ} → (S × List Text) × Outcome A → S × Outcome A
  forget ((s, log), o) = (s, o)

  forget-and_then :
      {A B : Type 0} (m : (S × List Text) × Outcome A) (k : A → Run (S × List Text) B)
      (k' : A → Run S B)
      → ((a : A) (t : S × List Text) → forget (k a t) ≡ k' a t.0)
      → forget (and_then m k) ≡ and_then (forget m) k'
  forget-and_then (t, returned a) k k' h = h a t
  forget-and_then (t, threw e) k k' h = refl

  forget-with_log : {A : Type 0} (log : List Text) (m : S × Outcome A) → forget (with_log log m) ≡ m
  unfolding with_log
  forget-with_log log (s, o) = refl

  forget-each :
      (frames : List Text) (t : S × List Text)
      → forget (each traced_frame frames t)
        ≡ each (λ frame. deliver receive (decode_fast frame)) frames t.0
  unfolding traced_frame
  forget-each [] t = refl
  forget-each (f ∷ fs) (s, log) =
      forget-and_then (traced_frame f (s, log)) (λ _. each traced_frame fs)
        (λ _. each (λ frame. deliver receive (decode_fast frame)) fs) (λ _ t. forget-each fs t)
      ∙ ap (λ m. and_then m (λ _. each (λ frame. deliver receive (decode_fast frame)) fs))
          (forget-with_log (log ++ line f ∷ []) (deliver receive (decode_fast f) s))

  -- Apart from its log, `TracingParser.read` is `Parser.read`: the receiver gets the same messages in the same
  -- order, and the remainder, or what is thrown, is the same.
  pub read_traced-read_fast :
      (buffer chunk : Text) (t : S × List Text)
      → forget (read_traced buffer chunk t) ≡ read_fast receive delimiter buffer chunk t.0
  unfolding read_traced read_fast
  read_traced-read_fast buffer chunk t =
      let parsed = push delimiter buffer chunk in
      forget-and_then (each traced_frame parsed.events t) (λ _ t'. (t', returned parsed.remainder))
        (λ _ s'. (s', returned parsed.remainder)) (λ _ t'. refl)
      ∙ ap (λ m. and_then m (λ _ s'. (s', returned parsed.remainder))) (forget-each parsed.events t)
      ∙ sym (read-push delimiter (λ frame. deliver receive (decode_fast frame)) buffer chunk t.0)

  with_log-log :
      {A : Type 0} (log : List Text) (m : S × Outcome A) {t : S × List Text} {a : A}
      → with_log log m ≡ (t, returned a)
      → t.1 ≡ log
  unfolding with_log
  with_log-log log (s, o) h = sym (ap (λ r. r.0.1) h)

  each-log :
      (frames : List Text) (t : S × List Text) {t' : S × List Text} {u : Unit {0}}
      → each traced_frame frames t ≡ (t', returned u)
      → t'.1 ≡ t.1 ++ map line frames
  unfolding traced_frame
  each-log [] t h = sym (ap (λ r. r.0.1) h) ∙ sym (append-nil t.1)
  each-log (f ∷ fs) (s, log) h =
      let (t₁, a, now, later) =
        and_then-eq-returned (traced_frame f (s, log)) (λ _. each traced_frame fs) h in
      each-log fs t₁ later
      ∙ ap (λ l. l ++ map line fs)
          (with_log-log (log ++ line f ∷ []) (deliver receive (decode_fast f) s) now)
      ∙ append_assoc log (line f ∷ []) (map line fs)

  -- If it returns, it has logged each frame that `push` finds, in order.
  pub read_traced-log :
      (buffer chunk : Text) (t : S × List Text) {t' : S × List Text} {rest : Text}
      → read_traced buffer chunk t ≡ (t', returned rest)
      → t'.1 ≡ t.1 ++ map line (push delimiter buffer chunk).events
  unfolding read_traced
  read_traced-log buffer chunk t h =
      let parsed = push delimiter buffer chunk in
      let (t₁, u, all, end) =
        and_then-eq-returned (each traced_frame parsed.events t)
          (λ _ t'. (t', returned parsed.remainder)) h in
      sym (ap (λ r. r.0.1) end) ∙ each-log parsed.events t all
