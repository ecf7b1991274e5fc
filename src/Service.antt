-- ===== src/Service.antt =====
-- The class `IPC` of services/IPC.js: the object that the package exports, with its clients by id and its
-- server, and the arguments that its methods sort out by their types. Lines of the log are left out.
pub mod Members
pub mod Arguments
pub mod Connecting
pub mod Serving
pub mod Overloads
pub mod Log
use node_ipc.Base.{ℕ, Bool, true, false, List, [], ◌∷◌, ◌++◌, Option, none, some, if◌then◌else◌}
use node_ipc.Text.{Text, text_eq}
use node_ipc.Outcome.{Thrown}
use node_ipc.Config.{Config}
use node_ipc.Client.{Client}
use node_ipc.Server.{Server}

-- An argument: undefined, false or null; a string; a number; a function, by a number of its own.
pub data Argument : Type 0 where
  absent : Argument
  string : Text → Argument
  number : ℕ → Argument
  function : ℕ → Argument

-- A callback that ran, and whether it was handed the object.
pub record Called : Type 0 where
  pub callback : ℕ
  pub with_ipc : Bool

-- `former` has the clients that were dropped: they are in `of` no more, but their sockets live on.
pub record Ipc : Type 0 where
  pub config : Config
  pub of : List (Text × Client)
  pub former : List Client
  pub server : Option Server
  pub on_start : Argument
  pub calls : List Called

-- `this.of[id]`
unfoldable pub client_of : Text → List (Text × Client) → Option Client
unfolding text_eq
client_of id [] = none
client_of id ((k, c) ∷ rest) =
    let later = client_of id rest in if text_eq k id then some c else later

-- `delete this.of[id]`
unfoldable pub without : Text → List (Text × Client) → List (Text × Client)
unfolding text_eq
without id [] = []
without id ((k, c) ∷ rest) =
    let later = without id rest in if text_eq k id then later else (k, c) ∷ later

-- `this.of[id]=client`
unfoldable pub with_client : Text → Client → List (Text × Client) → List (Text × Client)
unfolding without
with_client id c of = (id, c) ∷ without id of

-- `new IPC`
unfoldable pub new_ipc : Config → Ipc
new_ipc config = record {
  config = config;
  of = [];
  former = [];
  server = none;
  on_start = absent;
  calls = [];
}
