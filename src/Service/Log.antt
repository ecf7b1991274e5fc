-- ===== src/Service/Log.antt =====
-- `log` of services/IPC.js. An argument is an object, whose text `util.inspect` makes, or anything else,
-- whose text `join` makes; the result is what the logger is handed, if it is called.
use node_ipc.Base.{List, [], ◌∷◌, ◌++◌, Option, none, some, if◌then◌else◌, map}
use node_ipc.Text.{Text, text}
use node_ipc.Config.{Config}

pub data Logged {ℓ} (A : Type ℓ) : Type ℓ where
  object : A → Logged A
  plain : Text → Logged A

unfoldable pub inspected {ℓ} : {A : Type ℓ} → (A → Text) → Logged A → Text
inspected inspect (object a) = inspect a
inspected inspect (plain t) = t

-- `args.join(' ')`
unfoldable pub join : List Text → Text
join [] = []
join (t ∷ []) = t
join (t ∷ u ∷ ts) = t ++ (text " " ++ join (u ∷ ts))

unfoldable pub log {ℓ} : {A : Type ℓ} → (A → Text) → Config → List (Logged A) → Option Text
unfolding inspected join
log inspect config args = if config.silent then none else some (join (map (inspected inspect) args))
