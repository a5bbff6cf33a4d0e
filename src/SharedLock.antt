-- ===== src/SharedLock.antt =====
-- DistriSharedLock of example/distribute_sharedlock.cc: a lock for readers and writers, on nodes with
-- sequence numbers. A lock object is used by one thread here; `none` is an assertion that fails.
pub mod Names
pub mod Scan
pub mod World
pub mod Valid
pub mod Children
pub mod Steps
pub mod Cases
pub mod Course
pub mod Exclusion
pub mod Abandoned
pub mod Awaited
use zookeeper_cpp_client.Common.{
  ℕ, suc, ◌+◌, ◌<◌, ◌^◌, Bool, true, false, not, ◌&&◌, ◌||◌, List, [], ◌∷◌, ◌++◌, Option, none,
  some, ltb, ◌==◌, if◌then◌else◌,
}
use zookeeper_cpp_client.Common.Std.{bytes_beq}
use zookeeper_cpp_client.Codes.{
  Bytes, ZkErrorCode, zk_succeed, zk_existed, ZkNotifyType, node_delete,
}
use zookeeper_cpp_client.Zoo.{St, pure, ◌>>=◌}
use zookeeper_cpp_client.Zoo.Path.{child}
use zookeeper_cpp_client.Sync.{create}
use zookeeper_cpp_client.Servers.{Servers, session}
use Names.{is_read_type_lock, get_seq_no, data_less, mark, node_name}

-- parentPath_
abbrev pub parent_path : Bytes
parent_path = b'/' ∷ b's' ∷ b'h' ∷ b'a' ∷ b'r' ∷ b'e' ∷ b'd' ∷ b'_' ∷ b'l' ∷ b'o' ∷ b'c' ∷ b'k' ∷ []

pub data RwLockerMode : Type 0 where
  rw_locker_none : RwLockerMode
  rw_locker_wr : RwLockerMode
  rw_locker_rd : RwLockerMode

pub record DistriSharedLock : Type 0 where
  pub zk_conn_str : Bytes
  pub is_init : Bool
  pub child_node_name : Bytes
  pub least_node_path_in_rlock : Bytes
  pub least_node_path_in_wlock : Bytes
  pub reader_child_paths : List Bytes
  pub writer_child_path : Bytes
  pub cur_lock_mode : RwLockerMode

unfoldable pub new_shared_lock : DistriSharedLock
new_shared_lock = record {
  zk_conn_str = [];
  is_init = false;
  child_node_name = [];
  least_node_path_in_rlock = [];
  least_node_path_in_wlock = [];
  reader_child_paths = [];
  writer_child_path = [];
  cur_lock_mode = rw_locker_none;
}

abbrev pub named : Bytes → Bytes → DistriSharedLock → DistriSharedLock
named conn_str name l = record l { zk_conn_str = conn_str; child_node_name = name }

-- A new object behind an init that returned true.
unfoldable pub ready_lock : Bytes → DistriSharedLock
unfolding new_shared_lock
ready_lock name = record (named [] name new_shared_lock) { is_init = true }

-- createChild: the path that the servers get, of a reader's or a writer's node.
abbrev pub child_path : Bool → DistriSharedLock → Bytes
child_path r l = child parent_path (l.child_node_name ++ mark r)

-- std::sort by dataLess
abbrev pub place : Bytes → List Bytes → List Bytes
place c [] = c ∷ []
place c (d ∷ ds) = let rest = place c ds in if data_less d c then d ∷ rest else c ∷ d ∷ ds

abbrev pub sort : List Bytes → List Bytes
sort [] = []
sort (c ∷ cs) = place c (sort cs)

-- Whether a child keeps the owner of a path from the lock: for a reader, and for a writer.
abbrev pub blocks : Bool → Bytes → Bytes → Bool
blocks true path c = not (is_read_type_lock c) && ltb (get_seq_no c) (get_seq_no path)
blocks false path c = ltb (get_seq_no c) (get_seq_no path)

-- The loop over the children: leastNodeName, and `none` where isLeastNode stays true.
abbrev pub last_before : Bool → Bytes → List Bytes → Option Bytes → Option Bytes
last_before r path [] found = found
last_before r path (c ∷ cs) found =
    last_before r path cs (if blocks r path c then some c else found)

unfoldable pub least_node : Bool → Bytes → List Bytes → Option Bytes
unfolding data_less is_read_type_lock get_seq_no
least_node r path children = last_before r path (sort children) none

-- The branches of rlock and wlock behind the loop.
abbrev pub got : Bool → Bytes → DistriSharedLock → DistriSharedLock
got true path l = record l {
  reader_child_paths = l.reader_child_paths ++ path ∷ [];
  cur_lock_mode = rw_locker_rd;
}
got false path l = record l { writer_child_path = path; cur_lock_mode = rw_locker_wr }

abbrev pub waits_for : Bool → Bytes → DistriSharedLock → DistriSharedLock
waits_for true c l = record l { least_node_path_in_rlock = child parent_path c }
waits_for false c l = record l { least_node_path_in_wlock = child parent_path c }

-- unlock: the path that it deletes.
abbrev pub release_reader : List Bytes → DistriSharedLock → Option (Option Bytes × DistriSharedLock)
release_reader [] l = none
release_reader (path ∷ []) l =
    some (some path, record l { reader_child_paths = []; cur_lock_mode = rw_locker_none })
release_reader (path ∷ p ∷ ps) l = some (some path, record l { reader_child_paths = p ∷ ps })

abbrev pub release_writer : Bytes → DistriSharedLock → Option (Option Bytes × DistriSharedLock)
release_writer [] l = none
release_writer (b ∷ path) l =
    some (some (b ∷ path), record l { writer_child_path = []; cur_lock_mode = rw_locker_none })

unfoldable pub unlock : DistriSharedLock → Option (Option Bytes × DistriSharedLock)
unlock l = elim l.cur_lock_mode [
  | rw_locker_rd ↦ release_reader l.reader_child_paths l
  | rw_locker_wr ↦ release_writer l.writer_child_path l
  | rw_locker_none ↦ some (none, l)
]

-- The destructor: the paths that it deletes.
abbrev pub delete_writer : Bytes → Option (List Bytes)
delete_writer [] = none
delete_writer (b ∷ path) = some ((b ∷ path) ∷ [])

unfoldable pub destroy : DistriSharedLock → Option (List Bytes)
destroy l = elim l.cur_lock_mode [
  | rw_locker_rd ↦ some l.reader_child_paths
  | rw_locker_wr ↦ delete_writer l.writer_child_path
  | rw_locker_none ↦ some []
]

-- regWatcherRLock_cb (true) and regWatcherWLock_cb: whether they notify their condition variable.
abbrev pub is_node_delete : ZkNotifyType → Bool
is_node_delete node_delete = true
is_node_delete _ = false

abbrev pub awaited : Bool → DistriSharedLock → Bytes
awaited true l = l.least_node_path_in_rlock
awaited false l = l.least_node_path_in_wlock

unfoldable pub reg_watcher_cb : Bool → ZkNotifyType → Bytes → DistriSharedLock → Bool
reg_watcher_cb r type path l = bytes_beq path (awaited r l) && is_node_delete type

module _ (s : Servers) (p : ℕ) where
  open s use {Env}

  abbrev pub parent_made : ZkErrorCode → DistriSharedLock → Bool × DistriSharedLock
  parent_made zk_succeed l = (true, record l { is_init = true })
  parent_made zk_existed l = (true, record l { is_init = true })
  parent_made _ l = (false, l)

  abbrev pub init_from : DistriSharedLock → St Env (Bool × DistriSharedLock)
  init_from l = do r ← create (session s p) parent_path [] false false; pure (parent_made r.0 l)

  -- init, in the session of its number. What setLogConf and createZkClient return are arguments.
  unfoldable pub init :
      Bool → ℕ → Bytes → Bytes → DistriSharedLock → St Env (Bool × DistriSharedLock)
  unfolding create
  init log_set handle conn_str name l e =
      let l1 = named conn_str name l in
      let started = init_from l1 e in
      if l.is_init
      then ((true, l), e)
      else if not log_set
      then ((false, l1), e)
      else if handle == 0
      then ((false, l1), e)
      else started
