-- ===== src/Async/Post.antt =====
-- createIfNeedCreateParents and deleteRecursive with a handler: their completions, and the functors
-- postCreateParentAndNode and postDeleteRecursive that these hand to the second thread. The
-- functors use the synchronous operations, so they are computations over the C library's `Zoo`;
-- the return code of their own asynchronous call is an argument.
pub mod Twice
use zookeeper_cpp_client.Common.{
  ℕ, Bool, true, false, not, List, [], ◌∷◌, ◌++◌, Option, none, some, ℤ, negsuc, take,
  if◌then◌else◌,
}
use zookeeper_cpp_client.Codes.{
  Bytes, Rc, zok, znonode, znodeexists, znotempty, ZkErrorCode, zk_succeed, zk_not_exist, zk_error,
  zk_existed,
}
use zookeeper_cpp_client.Zoo.{St, pure, ◌>>=◌, Zoo}
use zookeeper_cpp_client.Zoo.Path.{slash, rfind, child}
use zookeeper_cpp_client.Sync.{get_children, create_persistent_dir, delete_recursive}
use zookeeper_cpp_client.Async.{
  OperateContext, UserCall, create_call, delete_call, create_op, delete_op, Issued, not_issued,
  guarded, issue, asserted, is_create_rc, is_delete_rc,
}

-- ContextInCreateParentAndNodes, ContextInDeleteRecursive
pub record CreateContext : Type 0 where
  pub path : Bytes
  pub value : Bytes
  pub handler : ℕ
  pub context : ℕ
  pub is_temp : Bool
  pub is_sequence : Bool

pub record DeleteContext : Type 0 where
  pub path : Bytes
  pub handler : ℕ
  pub context : ℕ
  pub version : ℤ

unfoldable pub create_if_need_create_parents :
    Bytes → Bytes → Option ℕ → ℕ → Bool → Bool → Bool → Rc → Issued CreateContext
create_if_need_create_parents path value handler context is_temp is_sequence on rc =
    guarded handler on rc (λ h. record {
      path = path;
      value = value;
      handler = h;
      context = context;
      is_temp = is_temp;
      is_sequence = is_sequence;
    })

unfoldable pub delete_recursive_async : Bytes → Option ℕ → ℕ → ℤ → Bool → Rc → Issued DeleteContext
delete_recursive_async path handler context version on rc =
    guarded handler on rc
      (λ h. record { path = path; handler = h; context = context; version = version })

-- What a completion does: it calls the user, or posts its context to the second thread.
pub data Completed (C : Type 0) : Type 0 where
  calls : UserCall → Completed C
  posts : C → Completed C

abbrev expected {ℓ} : {A : Type ℓ} → Bool → A → Option A
expected ok a = if ok then some a else none

unfoldable pub create_if_need_create_parents_completion :
    Rc → Bytes → CreateContext → Option (Completed CreateContext)
create_if_need_create_parents_completion rc value c = expected (is_create_rc rc) (elim rc [
  | zok ↦ calls (create_call c.handler zk_succeed c.path value c.context)
  | znonode ↦ posts c
  | znodeexists ↦ calls (create_call c.handler zk_existed c.path [] c.context)
  | _ ↦ calls (create_call c.handler zk_error c.path [] c.context)
])

unfoldable pub delete_recursive_completion : Rc → DeleteContext → Option (Completed DeleteContext)
delete_recursive_completion rc c = expected (is_delete_rc rc) (elim rc [
  | zok ↦ calls (delete_call c.handler zk_succeed c.path c.context)
  | znonode ↦ calls (delete_call c.handler zk_not_exist c.path c.context)
  | znotempty ↦ posts c
  | _ ↦ calls (delete_call c.handler zk_error c.path c.context)
])

-- What a functor has done at its end: the calls of the user's handler, in order, and the request
-- that the library has taken from its asynchronous call. `none`: the fuel is used up.
pub record Posted : Type 0 where
  pub told : List UserCall
  pub request : Option OperateContext

abbrev pub create_failed : CreateContext → UserCall
create_failed c = create_call c.handler zk_error c.path [] c.context

abbrev pub delete_failed : DeleteContext → UserCall
delete_failed c = delete_call c.handler zk_error c.path c.context

-- The call of the handler at the label TAG_..., where the flag there is set.
abbrev pub posted_by : UserCall → Issued OperateContext → Posted
posted_by u i = record { told = if i.result then [] else u ∷ []; request = i.request }

-- The loop over the children in postDeleteRecursive: its calls of the handler, and the flag.
pub record Deleting : Type 0 where
  pub told : List UserCall
  pub delete_child_failed : Bool

-- TAG_DELETE_CHILD, behind what has been done: the handler is called where the flag is set.
abbrev pub tag_delete_child : DeleteContext → Bool → Posted → Posted
tag_delete_child c true p = record p { told = p.told ++ delete_failed c ∷ [] }
tag_delete_child c false p = p

module _ (z : Zoo) (fuel : ℕ) (rc : Rc) where
  open z use {Env, is_connected}

  abbrev pub create_leaf : CreateContext → Option Bool → St Env (Option Posted)
  create_leaf c none e = (none, e)
  create_leaf c (some true) e = (
    some (
        posted_by (create_failed c)
          (issue create_op c.path (some c.handler) c.context (is_connected e) rc)),
    e,
  )
  create_leaf c (some false) e = (some (record { told = create_failed c ∷ []; request = none }), e)

  abbrev pub create_below : CreateContext → Option ℕ → St Env (Option Posted)
  create_below c none = pure (some (record { told = create_failed c ∷ []; request = none }))
  create_below c (some i) = do
    made ← create_persistent_dir z fuel (take i c.path)
    create_leaf c made

  unfoldable pub post_create_parent_and_node : CreateContext → St Env (Option Posted)
  unfolding create_persistent_dir
  post_create_parent_and_node c = create_below c (rfind slash c.path)

  -- The loop over the children. A child that could not be deleted: the handler is called, the flag
  -- deleteChildFailed is set, and the rest is skipped. `none`: the fuel is used up.
  abbrev pub next_child_node :
      DeleteContext → Option ZkErrorCode → St Env (Option Deleting) → St Env (Option Deleting)
  next_child_node c none rest = pure none
  next_child_node c (some zk_succeed) rest = rest
  next_child_node c (some zk_not_exist) rest = rest
  next_child_node c (some _) rest =
      pure (some (record { told = delete_failed c ∷ []; delete_child_failed = true }))

  unfoldable pub delete_child_nodes : DeleteContext → List Bytes → St Env (Option Deleting)
  unfolding delete_recursive
  delete_child_nodes c [] = pure (some (record { told = []; delete_child_failed = false }))
  delete_child_nodes c (n ∷ ns) =
      let rest = delete_child_nodes c ns in
      do ec1 ← delete_recursive z fuel (child c.path n) (negsuc 0); next_child_node c ec1 rest

  -- The asynchronous deleteNode behind the loop, which `goto TAG_DELETE_CHILD` skips; a refused call
  -- sets the flag.
  abbrev pub delete_branch_node : DeleteContext → Bool → Issued OperateContext → Posted
  delete_branch_node c true i = tag_delete_child c true (record { told = []; request = none })
  delete_branch_node c false i =
      tag_delete_child c (not i.result) (record { told = []; request = i.request })

  abbrev pub behind_loop : DeleteContext → Option Deleting → St Env (Option Posted)
  behind_loop c none e = (none, e)
  behind_loop c (some d) e =
      let i = issue delete_op c.path (some c.handler) c.context (is_connected e) rc in
      let p = delete_branch_node c d.delete_child_failed i in
      (some (record p { told = d.told ++ p.told }), e)

  abbrev pub delete_listed : DeleteContext → ZkErrorCode × List Bytes → St Env (Option Posted)
  delete_listed c (zk_not_exist, ns) = pure (
      some (
        tag_delete_child c false (record {
          told = delete_call c.handler zk_succeed c.path c.context ∷ [];
          request = none;
        })))
  delete_listed c (zk_succeed, ns) = do d ← delete_child_nodes c ns; behind_loop c d
  delete_listed c (_, ns) =
      pure (some (tag_delete_child c true (record { told = []; request = none })))

  unfoldable pub post_delete_recursive : DeleteContext → St Env (Option Posted)
  unfolding get_children delete_child_nodes
  post_delete_recursive c = do r ← get_children z c.path; delete_listed c r
