-- ===== src/Framing/Chunks.antt =====
-- A stream that arrives in chunks: the buffer that one `read` or `push` returns is given to the
-- next, as `receiveFramed` does with `socket.ipcBuffer`.
use node_ipc.Base.{
  ℕ, zero, suc, ◌+◌, ◌≡◌, refl, sym, ap, ◌∙◌, List, [], ◌∷◌, ◌++◌, Option, none, some, length,
  append_assoc, append-nil,
}
use node_ipc.Text.{Text, find, index_of, slice}
use node_ipc.Outcome.{Outcome, returned, Run, and_then, and_then_assoc, and_then-return, each}
use node_ipc.Framing.{push_loop, read_loop, remainder_from, Pushed, push, read}
use node_ipc.Framing.Split.{Split, stop, Split-append, Split-rest, Split-unique, push-Split}

abbrev pub concat : List Text → Text
concat [] = []
concat (c ∷ cs) = c ++ concat cs

-- `push` on each chunk, with the events in order.
unfoldable pub push_all : Text → Text → List Text → Pushed
push_all d buffer [] = record { events = []; remainder = buffer }
push_all d buffer (c ∷ cs) =
    let now = push d buffer c in
    let later = push_all d now.remainder cs in
    record { events = now.events ++ later.events; remainder = later.remainder }

module _ {ℓ} {S : Type ℓ} where
  -- `read` on each chunk, up to the first that throws.
  unfoldable pub read_all : Text → (Text → Run S (Unit {0})) → Text → List Text → Run S Text
  read_all d on_frame buffer [] s = (s, returned buffer)
  read_all d on_frame buffer (c ∷ cs) s =
      and_then (read d on_frame buffer c s) (λ rest. read_all d on_frame rest cs)

  each-append :
      (f : Text → Run S (Unit {0})) (xs ys : List Text) (s : S)
      → each f (xs ++ ys) s ≡ and_then (each f xs s) (λ _. each f ys)
  each-append f [] ys s = refl
  each-append f (x ∷ xs) ys s =
      (λ i. and_then (f x s) (λ _ s'. each-append f xs ys s' i))
      ∙ sym (and_then_assoc (f x s) (λ _. each f xs) (λ _. each f ys))

  abbrev finish : Text → Text → List Text × ℕ → Run S Text
  finish d c found s = (s, returned (remainder_from d c found.1))

  -- The loop of `read` behind the frames of `before` does what the loop of `push` finds.
  read_loop-each :
      (d c : Text) (f : Text → Run S (Unit {0})) (fuel start : ℕ) (end : Option ℕ)
      (before : List Text) (s : S)
      → and_then (each f before s) (λ _. read_loop d c f fuel start end)
        ≡ and_then
            (each f (push_loop d c fuel start end before).0 s)
            (λ _ s'. (s', returned (push_loop d c fuel start end before).1))
  unfolding read_loop push_loop
  read_loop-each d c f zero start end before s = refl
  read_loop-each d c f (suc fuel) start none before s = refl
  read_loop-each d c f (suc fuel) start (some end) before s =
      let next = end + length d in
      let x = slice c start end in
      sym (
        ap (λ m. and_then m (λ _. read_loop d c f fuel next (index_of d c next)))
          (each-append f before (x ∷ []) s)
        ∙ and_then_assoc (each f before s) (λ _. each f (x ∷ []))
            (λ _. read_loop d c f fuel next (index_of d c next))
        ∙ (λ i. and_then (each f before s) (λ _ s'.
            and_then-return (f x s') (λ _. read_loop d c f fuel next (index_of d c next)) i)))
      ∙ read_loop-each d c f fuel next (index_of d c next) (before ++ x ∷ []) s

  -- `read` hands the handler the events that `push` returns, in order, up to one that throws, and
  -- then leaves the same remainder.
  pub read-push :
      (d : Text) (f : Text → Run S (Unit {0})) (buffer chunk : Text) (s : S)
      → read d f buffer chunk s
        ≡ and_then
            (each f (push d buffer chunk).events s)
            (λ _ s'. (s', returned (push d buffer chunk).remainder))
  unfolding read push
  read-push d f buffer chunk s =
      let c = buffer ++ chunk in
      ap (λ m. and_then m (λ start s'. (s', returned (remainder_from d c start))))
        (read_loop-each d c f (suc (length c)) 0 (index_of d c 0) [] s)
      ∙ and_then_assoc (each f (push_loop d c (suc (length c)) 0 (index_of d c 0) []).0 s) _ _

  read_all-push_all :
      (d : Text) (f : Text → Run S (Unit {0})) (buffer : Text) (cs : List Text) (s : S)
      → read_all d f buffer cs s
        ≡ and_then
            (each f (push_all d buffer cs).events s)
            (λ _ s'. (s', returned (push_all d buffer cs).remainder))
  unfolding read_all push_all
  read_all-push_all d f buffer [] s = refl
  read_all-push_all d f buffer (c ∷ cs) s =
      let now = push d buffer c in
      let later = push_all d now.remainder cs in
      let start = each f now.events s in
      let done = λ (u : Unit {0}) (s' : S).
        (let r : S × Outcome Text = (s', returned later.remainder) in r) in
      ap (λ m. and_then m (λ rest. read_all d f rest cs)) (read-push d f buffer c s)
      ∙ and_then_assoc start (λ _ s'. (s', returned now.remainder)) (λ rest. read_all d f rest cs)
      ∙ (λ i. and_then start (λ _ s'. read_all-push_all d f now.remainder cs s' i))
      ∙ sym (and_then_assoc start (λ _. each f later.events) done)
      ∙ ap (λ m. and_then m done) (sym (each-append f now.events later.events s))

module _ (x : ℕ) (d' : Text) where
  abbrev d : Text
  d = x ∷ d'

  push_all-Split :
      (buffer : Text) (cs : List Text)
      → find d buffer ≡ none
      → Split d (buffer ++ concat cs) (push_all d buffer cs).events (push_all d buffer cs).remainder
  unfolding push_all
  push_all-Split buffer [] e = rw append-nil (stop e)
  push_all-Split buffer (c ∷ cs) e =
      let now = push-Split x d' buffer c in
      rw (← append_assoc buffer c (concat cs)) (
        Split-append (concat cs) now
          (push_all-Split (push d buffer c).remainder cs (Split-rest now)))

  -- For a non-empty delimiter and a buffer without it, `push` on the chunks of a stream one after another
  -- finds the events and the remainder of one `push` of the whole stream.
  pub push_all-concat :
      (buffer : Text) (cs : List Text)
      → find d buffer ≡ none
      → push_all d buffer cs ≡ push d buffer (concat cs)
  push_all-concat buffer cs e =
      let same = Split-unique (push_all-Split buffer cs e) (push-Split x d' buffer (concat cs)) in
      λ i. record { events = same.0 i; remainder = same.1 i }

  -- For a non-empty delimiter and a buffer without it, `read` on the chunks of a stream one after another
  -- does what one `read` of the whole stream does: the same frames reach the handler in the same order, the same exception ends it, if any, and the same
  -- buffer is left.
  pub read_all-concat {ℓ} :
      {S : Type ℓ} (f : Text → Run S (Unit {0})) (buffer : Text) (cs : List Text) (s : S)
      → find d buffer ≡ none
      → read_all d f buffer cs s ≡ read d f buffer (concat cs) s
  read_all-concat f buffer cs s e =
      read_all-push_all d f buffer cs s
      ∙ ap (λ p. and_then (each f p.events s) (λ _ s'. (s', returned p.remainder)))
          (push_all-concat buffer cs e)
      ∙ sym (read-push d f buffer (concat cs) s)
