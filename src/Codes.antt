-- ===== src/Codes.antt =====
-- The enumerations and constants of src/ZkClient.h, and those names of zookeeper.h that the client
-- compares with. zookeeper.h is not part of the repository: its codes are kept as distinct names,
-- and every other value of the same C type is `other`.
use zookeeper_cpp_client.Common.{ℕ, ◌*◌, Bool, true, false, List, ℤ, negsuc}

-- A path or a node's value: the bytes of a `std::string`.
abbrev pub Bytes : Type 0
Bytes = List ℕ

-- ZOO_..._STATE
pub data SessState : Type 0 where
  expired_session auth_failed connecting associating connected : SessState
  other_state : ℕ → SessState

-- ZOO_..._EVENT
pub data EventType : Type 0 where
  created_event deleted_event changed_event child_event session_event notwatching_event : EventType
  other_event : ℕ → EventType

-- The return codes that the client tells apart.
pub data Rc : Type 0 where
  zok znonode znodeexists znotempty : Rc
  zconnectionloss zoperationtimeout znoauth zclosing zbadversion znochildrenforephemerals : Rc
  other_rc : ℕ → Rc

-- ZkUtil::ZkErrorCode
pub data ZkErrorCode : Type 0 where
  zk_succeed zk_not_exist zk_error zk_deleted zk_existed zk_not_empty zk_lost_connection :
      ZkErrorCode

-- ZkUtil::ZkNotifyType
pub data ZkNotifyType : Type 0 where
  node_delete node_create node_change get_node_value_failed_node_not_exist : ZkNotifyType
  get_node_value_failed child_change get_child_list_failed_parent_not_exist : ZkNotifyType
  get_child_list_failed type_error : ZkNotifyType

-- int32_t kInvalidDataVersion = -1
abbrev pub invalid_data_version : ℤ
invalid_data_version = negsuc 0

-- In seconds.
abbrev pub max_retry_delay : ℕ
max_retry_delay = 10 * 60

abbrev pub init_retry_delay : ℕ
init_retry_delay = 5

abbrev pub is_connected_state : SessState → Bool
is_connected_state connected = true
is_connected_state _ = false

abbrev pub is_expired_state : SessState → Bool
is_expired_state expired_session = true
is_expired_state _ = false

abbrev pub is_session_event : EventType → Bool
is_session_event session_event = true
is_session_event _ = false
