-- ===== src/Sync/DeleteWithin.antt =====
-- What each call of deleteRecursive keeps, deleteRecursive keeps: a bound on the servers that neither
-- getChildren nor delete leaves.
use zookeeper_cpp_client.Common.{
  ℕ, zero, suc, ◌≤◌, Bool, true, false, List, [], ◌∷◌, Option, none, some, arith, ℤ, negsuc,
}
use zookeeper_cpp_client.Codes.{Bytes, ZkErrorCode, zk_succeed, zk_not_exist}
use zookeeper_cpp_client.Zoo.{St, Zoo}
use zookeeper_cpp_client.Zoo.Path.{child}
use zookeeper_cpp_client.Sync.{
  get_children, delete_node, next_child, delete_children, branch_after, delete_branch,
  delete_recursive,
}

module _ (z : Zoo) (measure : z.Env → ℕ)
    (listed : (path : Bytes) (e : z.Env) → measure (z.zoo_get_children path e).1 ≤ measure e)
    (deleted : (path : Bytes) (v : ℤ) (e : z.Env)
      → measure (z.zoo_delete path v e).1 ≤ measure e) where
  pub get_children_within :
      (path : Bytes) (e : z.Env) → measure (get_children z path e).1 ≤ measure e
  unfolding get_children
  get_children_within path e = ground (arith, listed path e)

  delete_node_within :
      (path : Bytes) (v : ℤ) (e : z.Env) → measure (delete_node z path v e).1 ≤ measure e
  unfolding delete_node
  delete_node_within path v e = ground (arith, deleted path v e)

  next_child_within :
      (ec : Option ZkErrorCode) (rest : St z.Env (Option Bool)) (e : z.Env)
      → measure (rest e).1 ≤ measure e
      → measure (next_child z ec rest e).1 ≤ measure e
  next_child_within none rest e h = omega arith
  next_child_within (some zk_succeed) rest e h = h
  next_child_within (some zk_not_exist) rest e h = h
  next_child_within (some _) rest e h = omega arith

  delete_children_within :
      (rec : Bytes → St z.Env (Option ZkErrorCode)) (path : Bytes) (ns : List Bytes) (e : z.Env)
      → ((q : Bytes) (e : z.Env) → measure (rec q e).1 ≤ measure e)
      → measure (delete_children z rec path ns e).1 ≤ measure e
  unfolding delete_children
  delete_children_within rec path [] e k = omega arith
  delete_children_within rec path (n ∷ ns) e k =
      let (ec, e1) = rec (child path n) e in
      omega (
        arith,
        k (child path n) e,
        next_child_within ec (delete_children z rec path ns) e1
            (delete_children_within rec path ns e1 k),
      )

  branch_after_within :
      (path : Bytes) (v : ℤ) (done : Option Bool) (e : z.Env)
      → measure (branch_after z path v done e).1 ≤ measure e
  branch_after_within path v none e = omega arith
  branch_after_within path v (some true) e = delete_node_within path v e
  branch_after_within path v (some false) e = omega arith

  delete_branch_within :
      (rec : Bytes → St z.Env (Option ZkErrorCode)) (path : Bytes) (v : ℤ)
      (r : ZkErrorCode × List Bytes) (e : z.Env)
      → ((q : Bytes) (e : z.Env) → measure (rec q e).1 ≤ measure e)
      → measure (delete_branch z rec path v r e).1 ≤ measure e
  delete_branch_within rec path v (zk_not_exist, ns) e k = omega arith
  delete_branch_within rec path v (zk_succeed, ns) e k =
      let (done, e1) = delete_children z rec path ns e in
      omega (arith, delete_children_within rec path ns e k, branch_after_within path v done e1)
  delete_branch_within rec path v (_, ns) e k = omega arith

  pub delete_recursive_within :
      (f : ℕ) (path : Bytes) (v : ℤ) (e : z.Env)
      → measure (delete_recursive z f path v e).1 ≤ measure e
  unfolding delete_recursive
  delete_recursive_within zero path v e = omega arith
  delete_recursive_within (suc f) path v e =
      let (r, e1) = get_children z path e in
      omega (
        arith,
        get_children_within path e,
        delete_branch_within (λ q. delete_recursive z f q (negsuc 0)) path v r e1
            (λ q e. delete_recursive_within f q (negsuc 0) e),
      )
