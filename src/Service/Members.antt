-- ===== src/Service/Members.antt =====
-- The protected methods of the class `IPC`: each is a getter of a function, with a setter beside it.
use node_ipc.Service.{Ipc}

pub data Member : Type 0 where
  connect_to connect_to_net disconnect serve serve_net log : Member

-- The functions of services/IPC.js.
pub data Method : Type 0 where
  connect_function connect_net_function disconnect_function serve_function : Method
  serve_net_function log_function : Method

-- The getters.
unfoldable pub get_member : Member → Ipc → Method
get_member connect_to ipc = connect_function
get_member connect_to_net ipc = connect_net_function
get_member disconnect ipc = disconnect_function
get_member serve ipc = serve_function
get_member serve_net ipc = serve_net_function
get_member log ipc = log_function

-- The setters: what is assigned is dropped, whatever it is.
unfoldable pub set_member {ℓ} : {A : Type ℓ} → Member → A → Ipc → Ipc
set_member member value ipc = ipc
