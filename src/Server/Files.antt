-- ===== src/Server/Files.antt =====
-- What a server has checked of the file system before it listens.
use node_ipc.Base.{
  ◌≡◌, refl, ◌⊎◌, inl, inr, Bool, true, false, not, ◌||◌, List, [], ◌∷◌, ◌++◌, Option, none, some,
  if◌then◌else◌, arith, Bool-cases, subst,
}
use node_ipc.Text.{Text}
use node_ipc.Outcome.{
  Thrown, setup, socket_root_unsafe, Outcome, returned, threw, and_then-eq-returned,
}
use node_ipc.Config.{Config}
use node_ipc.Server.Start.{
  Stat, FileCall, make_directory, change_mode, unlink, System, call, path_outside_root, below_root,
  is_other_user, check_root, check_found, prepare_socket_root, unlink_found, unlink_socket,
}

thrown :
    {d d' : List FileCall} {e : Thrown} {u : Unit {0}}
    → (let q : List FileCall × Outcome (Unit {0}) = (d, threw e) in q) ≡ (d', returned u)
    → ⊥
thrown h = cc

module _ (os : System) where
  call-either :
      (f : FileCall) (done : List FileCall)
      → ((call os f done).0 ≡ done) ⊎ ((call os f done).0 ≡ done ++ f ∷ [])
  unfolding call
  call-either f done = go (os.attempt f)
    where
      go :
          (o : Outcome (Unit {0}))
          → ((let q : List FileCall × Outcome (Unit {0}) = elim o [
            | returned u ↦ (done ++ f ∷ [], returned u)
            | threw e ↦ (done, threw e)
          ] in
                q).0
              ≡ done)
            ⊎ ((let q : List FileCall × Outcome (Unit {0}) = elim o [
              | returned u ↦ (done ++ f ∷ [], returned u)
              | threw e ↦ (done, threw e)
            ] in
                  q).0
                ≡ done ++ f ∷ [])
      go (returned u) = inr refl
      go (threw e) = inl refl

  call-returned :
      (f : FileCall) (done : List FileCall) {done' : List FileCall} {u : Unit {0}}
      → call os f done ≡ (done', returned u)
      → done' ≡ done ++ f ∷ []
  unfolding call
  call-returned f done {done'} {u} h = go (os.attempt f) h
    where
      go :
          (o : Outcome (Unit {0}))
          → (let q : List FileCall × Outcome (Unit {0}) = elim o [
            | returned v ↦ (done ++ f ∷ [], returned v)
            | threw e ↦ (done, threw e)
          ] in
              q)
            ≡ (done', returned u)
          → done' ≡ done ++ f ∷ []
      go (returned v) e = cc
      go (threw x) e = cc

  -- `unlinkSocket` changes nothing, or removes the path, which then is a socket by `lstatSync`; it never
  -- removes another kind of file.
  pub unlink_socket-is_socket :
      (path : Text) (done : List FileCall)
      → ((unlink_socket os path done).0 ≡ done)
        ⊎ ((stat : Stat) × (os.lstat done path ≡ returned (some stat))
            × (stat.is_socket ≡ true)
            × ((unlink_socket os path done).0 ≡ done ++ unlink path ∷ []))
  unfolding unlink_socket
  unlink_socket-is_socket path done = go (os.lstat done path) refl
    where
      go :
          (o : Outcome (Option Stat))
          → os.lstat done path ≡ o
          → ((unlink_found os path o done).0 ≡ done)
            ⊎ ((stat : Stat) × (os.lstat done path ≡ returned (some stat))
                × (stat.is_socket ≡ true)
                × ((unlink_found os path o done).0 ≡ done ++ unlink path ∷ []))
      go (returned none) e = unfold unlink_found in inl refl
      go (threw x) e = unfold unlink_found in inl refl
      go (returned (some stat)) e = elim (Bool-cases stat.is_socket) [
        | inr h ↦ unfold unlink_found in rw h (inl refl)
        | inl h ↦
            unfold unlink_found in
            rw h (elim (call-either (unlink path) done) [
              | inl k ↦ inl k
              | inr k ↦ inr (stat, e, h, k)
            ])
      ]

  -- The root is a real directory of the current user that no one else has access to, or its mode has been
  -- changed.
  pub record IsSafeRoot (root : Text) (done done' : List FileCall) : Type 0 where
    pub stat : Stat
    pub found : os.lstat done root ≡ returned (some stat)
    pub directory : stat.is_directory ≡ true
    pub real : stat.is_symbolic_link ≡ false
    pub own : is_other_user os stat.uid ≡ false
    pub closed : ((stat.shared ≡ false) × (done' ≡ done)) ⊎ (done' ≡ done ++ change_mode root ∷ [])

  check_root-IsSafeRoot :
      (root : Text) (stat : Stat) (done : List FileCall) {done' : List FileCall} {u : Unit {0}}
      → os.lstat done root ≡ returned (some stat)
      → check_root os root stat done ≡ (done', returned u)
      → IsSafeRoot root done done'
  unfolding check_root
  check_root-IsSafeRoot root stat done {done'} {u} found h =
      let r =
        ladder (not stat.is_directory || stat.is_symbolic_link) (is_other_user os stat.uid)
          stat.shared h in
      record {
        stat = stat;
        found = found;
        directory = ground (arith, r.0);
        real = ground (arith, r.0);
        own = r.1;
        closed = r.2;
      }
    where
      ladder :
          (linked other shared : Bool)
          → (let q : List FileCall × Outcome (Unit {0}) =
                if linked
                then (done, threw (setup socket_root_unsafe))
                else if other
                then (done, threw (setup socket_root_unsafe))
                else if shared
                then call os (change_mode root) done
                else (done, returned tt) in
              q)
            ≡ (done', returned u)
          → (linked ≡ false)
            × (other ≡ false)
            × (((shared ≡ false) × (done' ≡ done)) ⊎ (done' ≡ done ++ change_mode root ∷ []))
      ladder true other shared e = cc
      ladder false true shared e = cc
      ladder false false true e = (refl, refl, inr (call-returned (change_mode root) done e))
      ladder false false false e = (refl, refl, inl (refl, cc))

  -- `prepareSocketRoot` returns for a path inside a secure root only if the root is safe.
  pub prepare_socket_root-IsSafeRoot :
      (config : Config) (path : Text) (done : List FileCall) {done' : List FileCall} {u : Unit {0}}
      → path_outside_root os (below_root os config path) ≡ false
      → config.secure_socket_root ≡ true
      → prepare_socket_root os config path done ≡ (done', returned u)
      → IsSafeRoot
          (os.resolve config.socket_root)
          (done ++ make_directory (os.resolve config.socket_root) ∷ [])
          done'
  unfolding prepare_socket_root
  prepare_socket_root-IsSafeRoot config path done {done'} {u} inside secure h =
      let root = os.resolve config.socket_root in
      let (made, v, first, later) =
        and_then-eq-returned (call os (make_directory root) done)
          (λ _ d.
            if config.secure_socket_root
            then check_found os root (os.lstat d root) d
            else (d, returned tt))
          (rest inside h) in
      subst (λ m. IsSafeRoot root m done') (call-returned (make_directory root) done first)
        (found made (os.lstat made root) refl (sure (made, returned tt) secure later))
    where
      rest :
          {b : Bool} {m : List FileCall × Outcome (Unit {0})}
          → b ≡ false
          → (if b then (done, returned tt) else m) ≡ (done', returned u)
          → m ≡ (done', returned u)
      rest e k = ground arith

      sure :
          {b : Bool} {m : List FileCall × Outcome (Unit {0})}
          (n : List FileCall × Outcome (Unit {0}))
          → b ≡ true
          → (if b then m else n) ≡ (done', returned u)
          → m ≡ (done', returned u)
      sure n e k = ground arith

      found :
          (made : List FileCall) (o : Outcome (Option Stat))
          → os.lstat made (os.resolve config.socket_root) ≡ o
          → check_found os (os.resolve config.socket_root) o made ≡ (done', returned u)
          → IsSafeRoot (os.resolve config.socket_root) made done'
      found made (returned (some stat)) e k =
          check_root-IsSafeRoot (os.resolve config.socket_root) stat made e
            (unfold check_found in k)
      found made (returned none) e k = absurd (thrown (unfold check_found in k))
      found made (threw x) e k = absurd (thrown (unfold check_found in k))
