-- ===== src/Client.antt =====
-- The fields of src/ZkClient.h's ZkClient, its constructor, its accessors and the two maps of
-- watches, with the work that the client hands to the threads of the manager.
-- Pointers of the user (handlers, contexts) and session handles of the C library are numbers;
-- a null handler or handle is `none`. Times are milliseconds since the epoch, as `getCurrentMs`
-- gives them, and never negative. The mutexes only serialise the accessors.
pub mod Passwd
pub mod Maps
use zookeeper_cpp_client.Common.{ℕ, Bool, true, false, List, [], ◌∷◌, Option, none, some, ℤ, map}
use zookeeper_cpp_client.Common.Std.{StdMap, find, assign, erase, bytes_ord}
use zookeeper_cpp_client.Codes.{
  Bytes, SessState, connecting, is_connected_state, invalid_data_version, init_retry_delay,
}

-- ZkClient::NodeWatchData
pub record NodeWatchData : Type 0 where
  pub path : Bytes
  pub handler : Option ℕ
  pub context : ℕ
  pub value : Bytes
  pub version : ℤ
  pub is_support_auto_reg : Bool

abbrev pub new_node_watch_data : NodeWatchData
new_node_watch_data = record {
  path = [];
  handler = none;
  context = 0;
  value = [];
  version = invalid_data_version;
  is_support_auto_reg = true;
}

-- ZkClient::ChildWatchData
pub record ChildWatchData : Type 0 where
  pub path : Bytes
  pub handler : Option ℕ
  pub context : ℕ
  pub child_list : List Bytes
  pub is_support_auto_reg : Bool

abbrev pub new_child_watch_data : ChildWatchData
new_child_watch_data = record {
  path = [];
  handler = none;
  context = 0;
  child_list = [];
  is_support_auto_reg = true;
}

-- SessionClientId
pub record SessionClientId : Type 0 where
  pub client_id : ℕ
  pub passwd : Bytes

pub record ZkClient : Type 0 where
  pub handle : ℕ
  pub is_initialized : Bool
  pub is_support_reconnect : Bool
  pub retry_delay : ℕ
  pub is_retrying : Bool
  pub has_call_timeout_fun : Bool
  pub host : Bytes
  pub client_id : Option SessionClientId
  pub zhandle : Option ℕ
  pub expired_handler : Option ℕ
  pub user_context : ℕ
  pub session_state : SessState
  pub session_timeout : ℕ
  pub session_disconnect_ms : ℕ
  pub node_watch_datas : StdMap Bytes NodeWatchData
  pub child_watch_datas : StdMap Bytes ChildWatchData

-- The constructor. It leaves `sessionTimeout_` as the memory was: that value is an argument.
unfoldable pub new_client : ℕ → ℕ → ZkClient
new_client handle memory = record {
  handle = handle;
  is_initialized = false;
  is_support_reconnect = true;
  retry_delay = init_retry_delay;
  is_retrying = false;
  has_call_timeout_fun = false;
  host = [];
  client_id = none;
  zhandle = none;
  expired_handler = none;
  user_context = 0;
  session_state = connecting;
  session_timeout = memory;
  session_disconnect_ms = 0;
  node_watch_datas = [];
  child_watch_datas = [];
}

abbrev pub is_connected : ZkClient → Bool
is_connected c = is_connected_state c.session_state

abbrev pub set_sess_stat : SessState → ZkClient → ZkClient
set_sess_stat stat c = record c { session_state = stat }

abbrev pub set_sess_timeout : ℕ → ZkClient → ZkClient
set_sess_timeout time c = record c { session_timeout = time }

abbrev pub set_sess_disconn : ℕ → ZkClient → ZkClient
set_sess_disconn disconn c = record c { session_disconnect_ms = disconn }

abbrev pub set_is_support_reconnect : Bool → ZkClient → ZkClient
set_is_support_reconnect on c = record c { is_support_reconnect = on }

unfoldable pub set_node_watch_data : Bytes → NodeWatchData → ZkClient → ZkClient
set_node_watch_data path d c = record c { node_watch_datas = assign path d c.node_watch_datas }

unfoldable pub get_node_watch_data : Bytes → ZkClient → Option NodeWatchData
get_node_watch_data path c = find path c.node_watch_datas

abbrev pub is_found {ℓ} : {A : Type ℓ} → Option A → Bool
is_found none = false
is_found (some a) = true

unfoldable pub is_should_notify_node_watch : Bytes → ZkClient → Bool
is_should_notify_node_watch path c = is_found (find path c.node_watch_datas)

unfoldable pub cancel_reg_node_watcher : Bytes → ZkClient → ZkClient
cancel_reg_node_watcher path c = record c { node_watch_datas = erase path c.node_watch_datas }

-- The paths in the order of the map.
unfoldable pub get_node_watch_paths : ZkClient → List Bytes
get_node_watch_paths c = map (λ e. e.0) c.node_watch_datas

unfoldable pub set_child_watch_data : Bytes → ChildWatchData → ZkClient → ZkClient
set_child_watch_data path d c = record c { child_watch_datas = assign path d c.child_watch_datas }

unfoldable pub get_child_watch_data : Bytes → ZkClient → Option ChildWatchData
get_child_watch_data path c = find path c.child_watch_datas

unfoldable pub is_should_notify_child_watch : Bytes → ZkClient → Bool
is_should_notify_child_watch path c = is_found (find path c.child_watch_datas)

unfoldable pub cancel_reg_child_watcher : Bytes → ZkClient → ZkClient
cancel_reg_child_watcher path c = record c { child_watch_datas = erase path c.child_watch_datas }

unfoldable pub get_child_watch_paths : ZkClient → List Bytes
get_child_watch_paths c = map (λ e. e.0) c.child_watch_datas
