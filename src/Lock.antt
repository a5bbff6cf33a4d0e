-- ===== src/Lock.antt =====
-- DistriLock of example/distribute_lock.cc: a lock that one thread of all programs holds, by a node that
-- vanishes with its session. The session of an object is that of its number. An object is used by
-- one thread here; Lock/World puts the steps of lock together.
pub mod World
pub mod Valid
pub mod Exclusion
pub mod Abandoned
use zookeeper_cpp_client.Common.{
  ℕ, Bool, true, false, not, List, [], ◌∷◌, Option, none, some, negsuc, ◌==◌, if◌then◌else◌,
}
use zookeeper_cpp_client.Common.Std.{bytes_beq, contains}
use zookeeper_cpp_client.Codes.{Bytes, ZkErrorCode, zk_succeed, zk_error, zk_existed}
use zookeeper_cpp_client.Zoo.{St, pure, ◌>>=◌}
use zookeeper_cpp_client.Zoo.Path.{child}
use zookeeper_cpp_client.Sync.{create, delete_recursive}
use zookeeper_cpp_client.Servers.{Servers, session}

-- parentPath_
abbrev pub parent_path : Bytes
parent_path =
    b'/' ∷ b'e' ∷ b'x' ∷ b'c' ∷ b'l' ∷ b'u' ∷ b's' ∷ b'i' ∷ b'v' ∷ b'e' ∷ b'_' ∷ b'l' ∷ b'o' ∷ b'c'
    ∷ b'k' ∷ []

pub record DistriLock : Type 0 where
  pub zk_conn_str : Bytes
  pub is_init : Bool
  pub child_node_name : Bytes

unfoldable pub new_distri_lock : DistriLock
new_distri_lock = record { zk_conn_str = []; is_init = false; child_node_name = [] }

-- The path of the node of the lock.
abbrev pub child_path : DistriLock → Bytes
child_path l = child parent_path l.child_node_name

abbrev pub parent_made : ZkErrorCode → Bool
parent_made zk_succeed = true
parent_made zk_existed = true
parent_made _ = false

-- regChildWatcher_cb: whether it notifies the condition variable; `none`: its assertion fails.
unfoldable pub reg_child_watcher_cb : Bytes → List Bytes → DistriLock → Option Bool
reg_child_watcher_cb path child_nodes l =
    if bytes_beq path parent_path then some (not (contains l.child_node_name child_nodes)) else none

module _ (s : Servers) (p : ℕ) where
  open s use {Env}

  -- init. What setLogConf and regChildWatcher return are arguments, and so is the handle.
  abbrev pub registered : Bool → DistriLock → Bool × DistriLock
  registered true l = (true, record l { is_init = true })
  registered false l = (false, l)

  abbrev pub init_from : Bool → DistriLock → St Env (Bool × DistriLock)
  init_from watched l = do
    r ← create (session s p) parent_path [] false false
    pure (if parent_made r.0 then registered watched l else (false, l))

  unfoldable pub init : Bool → ℕ → Bool → Bytes → Bytes → DistriLock → St Env (Bool × DistriLock)
  unfolding create
  init log_set handle watched conn_str name l e =
      let l1 = record l { zk_conn_str = conn_str; child_node_name = name } in
      let started = init_from watched l1 e in
      if l.is_init
      then ((true, l), e)
      else if not log_set
      then ((false, l1), e)
      else if handle == 0
      then ((false, l1), e)
      else started

  unfoldable pub create_child : DistriLock → St Env ZkErrorCode
  unfolding create
  create_child l = do r ← create (session s p) (child_path l) [] true false; pure r.0

  -- unlock returns false on kZKError alone; `none`: the fuel of deleteRecursive is used up.
  abbrev pub unlock_result : Option ZkErrorCode → Option Bool
  unlock_result none = none
  unlock_result (some zk_error) = some false
  unlock_result (some _) = some true

  unfoldable pub unlock : ℕ → DistriLock → St Env (Option Bool)
  unfolding delete_recursive
  unlock f l = do
    ec ← delete_recursive (session s p) f (child_path l) (negsuc 0)
    pure (unlock_result ec)

  -- The destructor: it deletes the node as well. destroyClient, which ends the session, is left out.
  unfoldable pub destroy : ℕ → DistriLock → St Env DistriLock
  unfolding delete_recursive
  destroy f l = do
    ec ← delete_recursive (session s p) f (child_path l) (negsuc 0)
    pure (record l { is_init = false })
