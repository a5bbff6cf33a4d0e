-- ===== src/Examples/Nodes.antt =====
-- The synchronous operations on the nodes of a small tree.
use zookeeper_cpp_client.Common.{
  ◌≡◌, refl, inl, true, false, [], ◌∷◌, Option, some, arith, negsuc, if◌then◌else◌,
}
use zookeeper_cpp_client.Codes.{Bytes, ZkErrorCode, zk_succeed}
use zookeeper_cpp_client.Zoo.Path.{child}
use zookeeper_cpp_client.Sync.{create_if_need_create_parents, delete_recursive}
use zookeeper_cpp_client.Sync.CreateLeaf.{create_if_need_create_parents_total, IsDone}
use zookeeper_cpp_client.Sync.DeleteTree.{delete_recursive_others, delete_recursive_clears}
use zookeeper_cpp_client.Sync.DeleteTotal.{delete_recursive_total}
use zookeeper_cpp_client.Examples.Tree.{no_nodes, a_and_b, path_a, path_ab, tree, tree-IsTree}
use zookeeper_cpp_client.Examples.Reliable.{tree-IsReliable, tree-bounded}

create_if_need_create_parents_total_example :
    let e1 = (create_if_need_create_parents tree 6 path_ab [] false false no_nodes).1 in
    (r : ZkErrorCode × Option Bytes) × ((create_if_need_create_parents tree 6 path_ab [] false false
        no_nodes).0
      ≡ some r)
    × IsDone r.0
    × ((if false then true else tree-IsTree.has e1 path_ab) ≡ true)
create_if_need_create_parents_total_example =
    create_if_need_create_parents_total tree tree-IsTree tree-IsReliable path_ab [] false false 6
      no_nodes refl (omega arith)

delete_recursive_others_example :
    tree-IsTree.has (delete_recursive tree 6 path_ab (negsuc 0) a_and_b).1 path_a
    ≡ tree-IsTree.has a_and_b path_a
delete_recursive_others_example =
    delete_recursive_others tree tree-IsTree 6 path_ab path_a (negsuc 0) a_and_b (λ h. cc)
      (λ (r, h). cc)

delete_recursive_clears_example :
    let e1 = (delete_recursive tree 6 path_a (negsuc 0) a_and_b).1 in
    (tree-IsTree.has e1 path_a ≡ false) × (tree-IsTree.has e1 (child path_a (b'b' ∷ [])) ≡ false)
unfolding delete_recursive
delete_recursive_clears_example =
    delete_recursive_clears tree tree-IsTree 6 path_a (b'b' ∷ []) (negsuc 0) a_and_b zk_succeed refl
      (inl refl)

delete_recursive_total_example :
    let (ec, e1) = delete_recursive tree 6 path_a (negsuc 0) a_and_b in
    (ec ≡ some zk_succeed)
    × (tree-IsTree.has e1 path_a ≡ false)
    × (tree-IsTree.has e1 (child path_a (b'b' ∷ [])) ≡ false)
delete_recursive_total_example =
    delete_recursive_total tree tree-IsTree 4 tree-IsReliable 6 path_a (b'b' ∷ []) a_and_b refl refl
      (tree-bounded a_and_b) (omega arith)
