-- ===== src/Election.antt =====
-- MasterElection of example/master_election.cc: the program whose session has made a node is the master.
-- The session of an object is that of its number.
pub mod World
pub mod Valid
pub mod Masters
use zookeeper_cpp_client.Common.{
  ℕ, suc, Bool, true, false, not, ◌&&◌, List, [], ◌∷◌, Option, none, some, negsuc, ◌==◌,
  if◌then◌else◌,
}
use zookeeper_cpp_client.Common.Std.{bytes_beq, contains}
use zookeeper_cpp_client.Codes.{Bytes, ZkErrorCode, zk_succeed, zk_existed}
use zookeeper_cpp_client.Zoo.{St, pure, ◌>>=◌}
use zookeeper_cpp_client.Sync.{create, delete_recursive}
use zookeeper_cpp_client.Servers.{Servers, session}

-- parentPath_, childPath_ and the name of the node
abbrev pub parent_path : Bytes
parent_path =
    b'/' ∷ b'm' ∷ b'a' ∷ b's' ∷ b't' ∷ b'e' ∷ b'r' ∷ b'_' ∷ b'e' ∷ b'l' ∷ b'e' ∷ b'c' ∷ b't' ∷ b'i'
    ∷ b'o' ∷ b'n' ∷ []

abbrev pub child_path : Bytes
child_path =
    b'/' ∷ b'm' ∷ b'a' ∷ b's' ∷ b't' ∷ b'e' ∷ b'r' ∷ b'_' ∷ b'e' ∷ b'l' ∷ b'e' ∷ b'c' ∷ b't' ∷ b'i'
    ∷ b'o' ∷ b'n' ∷ b'/' ∷ b'b' ∷ b'i' ∷ b'n' ∷ b'd' ∷ b'i' ∷ b'n' ∷ b'g' ∷ []

abbrev pub binding : Bytes
binding = b'b' ∷ b'i' ∷ b'n' ∷ b'd' ∷ b'i' ∷ b'n' ∷ b'g' ∷ []

-- has_fun: masterFun_ is set; master_runs: how often it was called.
pub record MasterElection : Type 0 where
  pub zk_conn_str : Bytes
  pub is_init : Bool
  pub is_master_flag : Bool
  pub has_fun : Bool
  pub master_runs : ℕ

unfoldable pub new_master_election : MasterElection
new_master_election = record {
  zk_conn_str = [];
  is_init = false;
  is_master_flag = false;
  has_fun = false;
  master_runs = 0;
}

abbrev pub is_master : MasterElection → Bool
is_master m = m.is_init && m.is_master_flag

abbrev pub parent_made : ZkErrorCode → MasterElection → Bool × MasterElection
parent_made zk_succeed m = (true, record m { is_init = true })
parent_made zk_existed m = (true, record m { is_init = true })
parent_made _ m = (false, m)

-- The branches of retry behind create.
abbrev pub elected : ZkErrorCode → MasterElection → Bool × MasterElection
elected zk_succeed m = (
  true,
  record m {
    is_master_flag = true;
    master_runs = if m.has_fun then suc m.master_runs else m.master_runs;
  },
)
elected zk_existed m = (true, record m { is_master_flag = false })
elected _ m = (false, m)

module _ (s : Servers) (p : ℕ) where
  open s use {Env}

  abbrev pub init_from : MasterElection → St Env (Bool × MasterElection)
  init_from m = do r ← create (session s p) parent_path [] false false; pure (parent_made r.0 m)

  -- What setLogConf and createZkClient return are arguments.
  unfoldable pub init : Bool → ℕ → Bytes → Bool → MasterElection → St Env (Bool × MasterElection)
  unfolding create
  init log_set handle conn_str fun_set m e =
      let m1 = record m { zk_conn_str = conn_str; has_fun = fun_set } in
      let started = init_from m1 e in
      if m.is_init
      then ((true, m), e)
      else if not log_set
      then ((false, m1), e)
      else if handle == 0
      then ((false, m1), e)
      else started

  unfoldable pub retry : MasterElection → St Env (Bool × MasterElection)
  unfolding create
  retry m = do r ← create (session s p) child_path [] true false; pure (elected r.0 m)

  -- What regChildWatcher returns is an argument.
  unfoldable pub start : Bool → MasterElection → St Env (Bool × MasterElection)
  unfolding retry
  start watched m e =
      let tried = retry m e in
      if not m.is_init then ((false, m), e) else if not watched then ((false, m), e) else tried

  -- `none`: its assertion fails.
  unfoldable pub reg_child_watcher_cb :
      Bytes → List Bytes → MasterElection → Env → Option (MasterElection × Env)
  unfolding retry
  reg_child_watcher_cb path child_nodes m e =
      let ((_, m1), e1) = retry m e in
      if not (bytes_beq path parent_path)
      then none
      else if contains binding child_nodes
      then some (m, e)
      else some (m1, e1)

  -- The destructor. destroyClient, which ends the session, is left out.
  unfoldable pub destroy : ℕ → MasterElection → St Env MasterElection
  unfolding delete_recursive
  destroy f m = do
    ec ← delete_recursive (session s p) f child_path (negsuc 0)
    pure (record m { is_init = false; is_master_flag = false })
