-- ===== src/Sync.antt =====
-- The synchronous operations of src/ZkClient.cc over the calls of the C library. An out parameter
-- that the source leaves alone is `none`. Strings are handed to C without a NUL byte in them.
pub mod CreateDir
pub mod CreateParents
pub mod CreateLeaf
pub mod DeleteLoop
pub mod DeleteTree
pub mod DeleteTotal
pub mod DeleteWithin
pub mod ReturnCodes
use zookeeper_cpp_client.Common.{
  ℕ, zero, suc, ◌*◌, Bool, true, false, List, [], ◌∷◌, Option, none, some, ℤ, negsuc, take,
  if◌then◌else◌,
}
use zookeeper_cpp_client.Codes.{
  Bytes, Rc, zok, znonode, znodeexists, znotempty, ZkErrorCode, zk_succeed, zk_not_exist, zk_error,
  zk_existed, zk_not_empty, zk_lost_connection,
}
use zookeeper_cpp_client.Zoo.{St, pure, ◌>>=◌, Flags, Zoo}
use zookeeper_cpp_client.Zoo.Path.{slash, rfind, child}

-- kMaxNodeValueLength, kMaxPathLength
abbrev pub max_node_value_length : ℕ
max_node_value_length = 32 * 1024

abbrev pub max_path_length : ℕ
max_path_length = 512

-- The last tests of getNode, getChildren, isExist and set; of the two creates; of deleteNode.
abbrev pub read_code : Rc → ZkErrorCode
read_code zok = zk_succeed
read_code znonode = zk_not_exist
read_code _ = zk_error

abbrev pub create_code : Rc → ZkErrorCode
create_code zok = zk_succeed
create_code znonode = zk_not_exist
create_code znodeexists = zk_existed
create_code _ = zk_error

abbrev pub delete_code : Rc → ZkErrorCode
delete_code zok = zk_succeed
delete_code znonode = zk_not_exist
delete_code znotempty = zk_not_empty
delete_code _ = zk_error

abbrev pub on_zok {ℓ} : {A : Type ℓ} → Rc → A → Option A
on_zok zok a = some a
on_zok _ a = none

abbrev pub or_empty : Option Bytes → Bytes
or_empty none = []
or_empty (some v) = v

module _ (z : Zoo) where
  open z use {
    Env, is_connected, zoo_get, zoo_get_children, zoo_exists, zoo_create, zoo_set, zoo_delete,
  }

  -- The value and its version are written on success.
  unfoldable pub get_node : Bytes → St Env (ZkErrorCode × Option (Bytes × ℤ))
  get_node path e =
      let ((rc, value, version), e1) = zoo_get path max_node_value_length e in
      if is_connected e
      then ((read_code rc, on_zok rc (or_empty value, version)), e1)
      else ((zk_lost_connection, none), e)

  -- The names that are appended to the caller's vector.
  unfoldable pub get_children : Bytes → St Env (ZkErrorCode × List Bytes)
  get_children path e =
      let ((rc, names), e1) = zoo_get_children path e in
      if is_connected e
      then ((read_code rc, elim (on_zok rc names) [ none ↦ [] | some ns ↦ ns ]), e1)
      else ((zk_lost_connection, []), e)

  unfoldable pub is_exist : Bytes → St Env ZkErrorCode
  is_exist path e =
      let (rc, e1) = zoo_exists path e in
      if is_connected e then (read_code rc, e1) else (zk_lost_connection, e)

  -- The path of the node is written on success.
  unfoldable pub create : Bytes → Bytes → Bool → Bool → St Env (ZkErrorCode × Option Bytes)
  create path value is_temp is_sequence e =
      let fl : Flags = record { ephemeral = is_temp; sequence = is_sequence } in
      let ((rc, buffer), e1) = zoo_create path (some value) fl max_path_length e in
      if is_connected e
      then ((create_code rc, on_zok rc buffer), e1)
      else ((zk_lost_connection, none), e)

  unfoldable pub create_persistent_dir_node : Bytes → St Env ZkErrorCode
  create_persistent_dir_node path e =
      let fl : Flags = record { ephemeral = false; sequence = false } in
      let ((rc, buffer), e1) = zoo_create path none fl 0 e in
      if is_connected e then (create_code rc, e1) else (zk_lost_connection, e)

  unfoldable pub set : Bytes → Bytes → ℤ → St Env ZkErrorCode
  set path value version e =
      let (rc, e1) = zoo_set path value version e in
      if is_connected e then (read_code rc, e1) else (zk_lost_connection, e)

  unfoldable pub delete_node : Bytes → ℤ → St Env ZkErrorCode
  delete_node path version e =
      let (rc, e1) = zoo_delete path version e in
      if is_connected e then (delete_code rc, e1) else (zk_lost_connection, e)

  -- The call of createPersistentDir behind a parent that was tried.
  abbrev pub child_then :
      (Bytes → St Env (Option Bool)) → Bytes → Option Bool → St Env (Option Bool)
  child_then rec path none = pure none
  child_then rec path (some true) = rec path
  child_then rec path (some false) = pure (some false)

  abbrev pub parent_first : (Bytes → St Env (Option Bool)) → Bytes → Option ℕ → St Env (Option Bool)
  parent_first rec path none = pure (some false)
  parent_first rec path (some i) = do made ← rec (take i path); child_then rec path made

  abbrev pub dir_branch :
      (Bytes → St Env (Option Bool)) → Bytes → ZkErrorCode → St Env (Option Bool)
  dir_branch rec path zk_succeed = pure (some true)
  dir_branch rec path zk_existed = pure (some true)
  dir_branch rec path zk_not_exist = parent_first rec path (rfind slash path)
  dir_branch rec path _ = pure (some false)

  -- On fuel, since it calls itself with its own path; `none`: the fuel is used up.
  unfoldable pub create_persistent_dir : ℕ → Bytes → St Env (Option Bool)
  unfolding create_persistent_dir_node rfind
  create_persistent_dir zero path = pure none
  create_persistent_dir (suc f) path = do
    ec ← create_persistent_dir_node path
    dir_branch (create_persistent_dir f) path ec

  abbrev pub Created : Type 0
  Created = Option (ZkErrorCode × Option Bytes)

  abbrev pub leaf_after : Bytes → Bytes → Bool → Bool → Option Bool → St Env Created
  leaf_after path value is_temp is_sequence none = pure none
  leaf_after path value is_temp is_sequence (some true) = do
    r ← create path value is_temp is_sequence
    pure (some r)
  leaf_after path value is_temp is_sequence (some false) = pure (some (zk_error, none))

  abbrev pub parents_after : ℕ → Bytes → Bytes → Bool → Bool → Option ℕ → St Env Created
  parents_after f path value is_temp is_sequence none = pure (some (zk_error, none))
  parents_after f path value is_temp is_sequence (some i) = do
    made ← create_persistent_dir f (take i path)
    leaf_after path value is_temp is_sequence made

  abbrev pub create_branch :
      ℕ → Bytes → Bytes → Bool → Bool → ZkErrorCode × Option Bytes → St Env Created
  create_branch f path value is_temp is_sequence (zk_not_exist, ret) =
      parents_after f path value is_temp is_sequence (rfind slash path)
  create_branch f path value is_temp is_sequence r = pure (some r)

  unfoldable pub create_if_need_create_parents : ℕ → Bytes → Bytes → Bool → Bool → St Env Created
  unfolding create create_persistent_dir
  create_if_need_create_parents f path value is_temp is_sequence = do
    r ← create path value is_temp is_sequence
    create_branch f path value is_temp is_sequence r

  -- The loop over the children of deleteRecursive: whether it has come to its end.
  abbrev pub next_child : Option ZkErrorCode → St Env (Option Bool) → St Env (Option Bool)
  next_child none rest = pure none
  next_child (some zk_succeed) rest = rest
  next_child (some zk_not_exist) rest = rest
  next_child (some _) rest = pure (some false)

  unfoldable pub delete_children :
      (Bytes → St Env (Option ZkErrorCode)) → Bytes → List Bytes → St Env (Option Bool)
  delete_children rec path [] = pure (some true)
  delete_children rec path (n ∷ ns) =
      let rest = delete_children rec path ns in do ec1 ← rec (child path n); next_child ec1 rest

  abbrev pub branch_after : Bytes → ℤ → Option Bool → St Env (Option ZkErrorCode)
  branch_after path version none = pure none
  branch_after path version (some true) = do ec ← delete_node path version; pure (some ec)
  branch_after path version (some false) = pure (some zk_error)

  abbrev pub delete_branch :
      (Bytes → St Env (Option ZkErrorCode))
      → Bytes
      → ℤ
      → ZkErrorCode × List Bytes
      → St Env (Option ZkErrorCode)
  delete_branch rec path version (zk_not_exist, ns) = pure (some zk_succeed)
  delete_branch rec path version (zk_succeed, ns) = do
    done ← delete_children rec path ns
    branch_after path version done
  delete_branch rec path version (_, ns) = pure (some zk_error)

  -- On fuel, which bounds the depth of the tree; `none`: it is used up.
  unfoldable pub delete_recursive : ℕ → Bytes → ℤ → St Env (Option ZkErrorCode)
  unfolding get_children delete_children delete_node
  delete_recursive zero path version = pure none
  delete_recursive (suc f) path version = do
    r ← get_children path
    delete_branch (λ p. delete_recursive f p (negsuc 0)) path version r
