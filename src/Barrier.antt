-- ===== src/Barrier.antt =====
-- DistriBarrier of example/distribute_barrier.cc: wait lets its thread through when enough nodes are
-- there, and each countdown makes one. The session of an object is that of its number.
pub mod World
pub mod Members
pub mod Through
pub mod Growing
pub mod Open
use zookeeper_cpp_client.Common.{
  ℕ, suc, ◌+◌, ◌-◌, ◌^◌, Bool, true, false, not, List, [], ◌∷◌, ◌++◌, Option, none, some, ℤ, pos,
  negsuc, leb, ◌==◌, if◌then◌else◌, length,
}
use zookeeper_cpp_client.Common.Std.{bytes_beq}
use zookeeper_cpp_client.Codes.{
  Bytes, ZkErrorCode, zk_succeed, zk_existed, zk_error, invalid_data_version,
}
use zookeeper_cpp_client.Zoo.{St, pure, ◌>>=◌}
use zookeeper_cpp_client.Zoo.Path.{child}
use zookeeper_cpp_client.Sync.{create, set, get_children, delete_recursive}
use zookeeper_cpp_client.Servers.{Servers, session}

-- parentPath_ and childNodeName_
abbrev pub parent_path : Bytes
parent_path =
    b'/' ∷ b'q' ∷ b'u' ∷ b'e' ∷ b'u' ∷ b'e' ∷ b'_' ∷ b'b' ∷ b'a' ∷ b'r' ∷ b'r' ∷ b'i' ∷ b'e' ∷ b'r'
    ∷ []

abbrev pub child_node_name : Bytes
child_node_name = b'b' ∷ b'a' ∷ b'r' ∷ b'r' ∷ b'i' ∷ b'e' ∷ b'r' ∷ []

pub record DistriBarrier : Type 0 where
  pub zk_conn_str : Bytes
  pub is_init : Bool
  pub child_paths : List Bytes
  pub barr_num : ℤ

unfoldable pub new_distri_barrier : DistriBarrier
new_distri_barrier = record {
  zk_conn_str = [];
  is_init = false;
  child_paths = [];
  barr_num = pos 0;
}

-- `childNodes.size() >= barrNum_`: the int becomes a size_t of 64 bits.
abbrev pub as_size : ℤ → ℕ
as_size (pos n) = n
as_size (negsuc n) = 2 ^ 64 - (n + 1)

unfoldable pub has_enough : DistriBarrier → List Bytes → Bool
has_enough b child_nodes = leb (as_size b.barr_num) (length child_nodes)

-- regChildWatcher_cb: whether it notifies the condition variable; `none`: its assertion fails.
unfoldable pub reg_child_watcher_cb : Bytes → List Bytes → DistriBarrier → Option Bool
unfolding has_enough
reg_child_watcher_cb path child_nodes b =
    if bytes_beq path parent_path then some (has_enough b child_nodes) else none

abbrev pub or_no_path : Option Bytes → Bytes
or_no_path none = []
or_no_path (some path) = path

module _ (s : Servers) (p : ℕ) where
  open s use {Env}

  -- init. The digits of the number, and what setLogConf, createZkClient and regChildWatcher return,
  -- are arguments.
  abbrev pub registered : Bool → DistriBarrier → Bool × DistriBarrier
  registered true b = (true, record b { is_init = true })
  registered false b = (false, b)

  abbrev pub parent_made :
      Bytes → Bool → DistriBarrier → ZkErrorCode → St Env (Bool × DistriBarrier)
  parent_made value watched b zk_succeed = pure (registered watched b)
  parent_made value watched b zk_existed = do
    ec ← set (session s p) parent_path value invalid_data_version
    pure (registered watched b)
  parent_made value watched b _ = pure (false, b)

  abbrev pub init_from : Bytes → Bool → DistriBarrier → St Env (Bool × DistriBarrier)
  init_from value watched b = do
    r ← create (session s p) parent_path value false false
    parent_made value watched b r.0

  unfoldable pub init :
      Bool → ℕ → Bool → Bytes → Bytes → ℤ → DistriBarrier → St Env (Bool × DistriBarrier)
  unfolding create set
  init log_set handle watched value conn_str num b e =
      let b1 = record b { zk_conn_str = conn_str; barr_num = num } in
      let started = init_from value watched b1 e in
      if b.is_init
      then ((true, b), e)
      else if not log_set
      then ((false, b1), e)
      else if handle == 0
      then ((false, b1), e)
      else started

  unfoldable pub create_child : St Env (ZkErrorCode × Bytes)
  unfolding create
  create_child = do
    r ← create (session s p) (child parent_path child_node_name) [] true true
    pure (r.0, or_no_path r.1)

  abbrev pub counted : ZkErrorCode × Bytes → DistriBarrier → Bool × DistriBarrier
  counted (zk_error, path) b = (false, b)
  counted (_, path) b = (true, record b { child_paths = b.child_paths ++ path ∷ [] })

  unfoldable pub countdown : DistriBarrier → St Env (Bool × DistriBarrier)
  unfolding create_child
  countdown b = do r ← create_child; pure (counted r b)

  -- The destructor: the loop over the queue, and the fields. destroyClient, which ends the session, is
  -- left out.
  unfoldable pub delete_paths : ℕ → List Bytes → St Env Unit
  unfolding delete_recursive
  delete_paths f [] = pure tt
  delete_paths f (path ∷ paths) =
      let rest = delete_paths f paths in
      do ec ← delete_recursive (session s p) f path (negsuc 0); rest

  unfoldable pub destroy : ℕ → DistriBarrier → St Env DistriBarrier
  unfolding delete_paths
  destroy f b = do
    u ← delete_paths f b.child_paths
    pure (record b { child_paths = []; is_init = false; barr_num = pos 0 })
