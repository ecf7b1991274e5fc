-- ===== src/Server/Assured.antt =====
-- What an assured server on a local endpoint has checked before it listens.
use node_ipc.Base.{
  ◌≡◌, refl, sym, ap, ◌∙◌, ◌⊎◌, inl, inr, ℕ, Bool, true, false, not, ◌&&◌, ◌||◌, List, [], ◌∷◌,
  ◌++◌, ◌==◌, if◌then◌else◌, arith,
}
use node_ipc.Text.{Text}
use node_ipc.Outcome.{protocol, assured_transport, Outcome, returned, threw, and_then-eq-returned}
use node_ipc.Client.{is_assured}
use node_ipc.Server.{Server}
use node_ipc.Server.Start.{
  FileCall, make_directory, unlink, System, path_outside_root, below_root, socket_path_in_root,
  prepare_socket_root, unlink_socket, prepare_files, refuses_local, start_behind, start,
}
use node_ipc.Server.Files.{IsSafeRoot, unlink_socket-is_socket, prepare_socket_root-IsSafeRoot}

module _ (os : System) (s : Server) (done : List FileCall) where
  abbrev Done : Type 0
  Done = (Server × List FileCall) × Outcome (Unit {0})

  start-past :
      {c : ℕ} {path : Text} {r : Server × List FileCall} {u : Unit {0}}
      → s.path ≡ c ∷ path
      → start os (s, done) ≡ (r, returned u)
      → (refuses_local os s ≡ false)
        × (start_behind os (prepare_files os s done) s ≡ (r, returned u))
  unfolding start
  start-past {r = r} {u} e h = go s.path (refuses_local os s) refl e h
    where
      go :
          (p : Text) (b : Bool) {c : ℕ} {path : Text}
          → refuses_local os s ≡ b
          → p ≡ c ∷ path
          → (let q : Done = elim p [
            | [] ↦ ((s, done), returned tt)
            | v ∷ path ↦
                if b
                then ((s, done), threw (protocol assured_transport))
                else start_behind os (prepare_files os s done) s
          ] in
              q)
            ≡ (r, returned u)
          → (refuses_local os s ≡ false)
            × (start_behind os (prepare_files os s done) s ≡ (r, returned u))
      go [] b k e' h' = cc
      go (v ∷ path) true k e' h' = cc
      go (v ∷ path) false k e' h' = (k, h')

  start_behind-prepared :
      (m : List FileCall × Outcome (Unit {0})) {r : Server × List FileCall} {u : Unit {0}}
      → start_behind os m s ≡ (r, returned u)
      → (v : Unit {0}) × (m ≡ (r.1, returned v))
  unfolding start_behind
  start_behind-prepared (d, returned v) h = (v, ap (λ j. (j, returned v)) (ap (λ q. q.0.1) h))
  start_behind-prepared (d, threw e) h = cc

  accepted :
      s.port ≡ 0
      → is_assured s.parser ≡ true
      → refuses_local os s ≡ false
      → (os.windows ≡ false)
        × (s.config.secure_socket_root ≡ true)
        × (socket_path_in_root os s.config s.path ≡ true)
  unfolding refuses_local
  accepted p a h =
      ladder (s.port == 0) (is_assured s.parser) os.windows s.config.secure_socket_root
        (socket_path_in_root os s.config s.path) (ground (arith, p)) a h
    where
      ladder :
          (local assured windows secure inside : Bool)
          → local ≡ true
          → assured ≡ true
          → (local && assured && (windows || not secure || not inside)) ≡ false
          → (windows ≡ false) × (secure ≡ true) × (inside ≡ true)
      ladder local assured windows secure inside l a h = ground arith

  in_root-inside :
      socket_path_in_root os s.config s.path ≡ true
      → path_outside_root os (below_root os s.config s.path) ≡ false
  unfolding socket_path_in_root
  in_root-inside h = ground (arith, h)

  prepare_files-root :
      {d : List FileCall} {v : Unit {0}}
      → s.port ≡ 0
      → os.windows ≡ false
      → prepare_files os s done ≡ (d, returned v)
      → (prepared : List FileCall) × (w : Unit {0}) × (prepare_socket_root os s.config s.path done
          ≡ (prepared, returned w))
        × ((d ≡ prepared) ⊎ (d ≡ prepared ++ unlink s.path ∷ []))
  unfolding prepare_files
  prepare_files-root {d} {v} p w h =
      let k = λ (u : Unit {0}) (d' : List FileCall).
        (let q : List FileCall × Outcome (Unit {0}) =
            if s.config.unlink then unlink_socket os s.path d' else (d', returned tt) in
          q) in
      let r =
        and_then-eq-returned (prepare_socket_root os s.config s.path done) k
          (taken (s.port == 0 && not os.windows) (done, returned tt) (ground (arith, p, w)) h) in
      (r.0, r.1, r.2, removed s.config.unlink r.0 r.3)
    where
      removed :
          (b : Bool) (prepared : List FileCall)
          → (let q : List FileCall × Outcome (Unit {0}) =
                if b then unlink_socket os s.path prepared else (prepared, returned tt) in
              q)
            ≡ (d, returned v)
          → (d ≡ prepared) ⊎ (d ≡ prepared ++ unlink s.path ∷ [])
      removed false prepared e = inl (sym (ap (λ q. q.0) e))
      removed true prepared e = elim (unlink_socket-is_socket os s.path prepared) [
        | inl k ↦ inl (sym (ap (λ q. q.0) e) ∙ k)
        | inr k ↦ inr (sym (ap (λ q. q.0) e) ∙ k.3)
      ]

      taken :
          (b : Bool) {m : List FileCall × Outcome (Unit {0})}
          (n : List FileCall × Outcome (Unit {0}))
          → b ≡ true
          → (if b then m else n) ≡ (d, returned v)
          → m ≡ (d, returned v)
      taken b n e k = ground arith

  -- If `start` of an assured server with a path and no port returns, then the server does not run on
  -- Windows, `secureSocketRoot` is set, the endpoint stands directly in the root, and the run has first made the
  -- root, then found with `lstatSync` a real directory of the current user, which is not shared or whose
  -- mode was changed by the very next file call of the run, and has done nothing else to files but remove
  -- the endpoint.
  pub start-IsSafeRoot :
      {c : ℕ} {path : Text} {r : Server × List FileCall} {u : Unit {0}}
      → s.path ≡ c ∷ path
      → s.port ≡ 0
      → is_assured s.parser ≡ true
      → start os (s, done) ≡ (r, returned u)
      → (os.windows ≡ false)
        × (s.config.secure_socket_root ≡ true)
        × (socket_path_in_root os s.config s.path ≡ true)
        × ((prepared : List FileCall) × IsSafeRoot os
              (os.resolve s.config.socket_root)
              (done ++ make_directory (os.resolve s.config.socket_root) ∷ [])
              prepared
            × ((r.1 ≡ prepared) ⊎ (r.1 ≡ prepared ++ unlink s.path ∷ [])))
  start-IsSafeRoot e p a h =
      let past = start-past e h in
      let (w, secure, inside) = accepted p a past.0 in
      let (v, files) = start_behind-prepared (prepare_files os s done) past.1 in
      let (prepared, x, root, ends) = prepare_files-root p w files in
      let safe =
        prepare_socket_root-IsSafeRoot os s.config s.path done (in_root-inside inside) secure
          root in
      (w, secure, inside, (prepared, safe, ends))
