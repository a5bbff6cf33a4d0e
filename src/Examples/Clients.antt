-- ===== src/Examples/Clients.antt =====
-- The manager with one client, and asynchronous operations.
use zookeeper_cpp_client.Common.{
  ◌≡◌, ◌≢◌, refl, Bool, true, false, List, [], ◌∷◌, none, some, arith, negsuc,
}
use zookeeper_cpp_client.Codes.{zok, znotempty, zoperationtimeout}
use zookeeper_cpp_client.Task.{Action, run_after, first_thread, check_task}
use zookeeper_cpp_client.Session.{init}
use zookeeper_cpp_client.Manager.{
  ZkClientManager, new_manager, bump_handle, begin_create, end_create, create_zk_client,
  get_zk_client, get_any_client,
}
use zookeeper_cpp_client.Manager.Handles.{end_create_races}
use zookeeper_cpp_client.Manager.Lookup.{create_succeeds}
use zookeeper_cpp_client.Async.{delete_op, OperateContext, issue, complete, Payload}
use zookeeper_cpp_client.Async.Once.{issue_then_complete, tell, the_call}
use zookeeper_cpp_client.Async.Post.{
  CreateContext, DeleteContext, Posted, post_create_parent_and_node, post_delete_recursive,
  delete_child_nodes, delete_failed,
}
use zookeeper_cpp_client.Async.Post.Twice.{
  answers, post_create_answers_once, post_delete_tells_twice, post_delete_answers_once,
}
use zookeeper_cpp_client.Zoo.{Zoo, IsTree}
use zookeeper_cpp_client.Sync.{get_children, delete_recursive, delete_children}
use zookeeper_cpp_client.Examples.Tree.{no_nodes, a_and_b, path_a, path_ab, tree, tree-IsTree}
use zookeeper_cpp_client.Examples.Reliable.{tree-bounded}
use zookeeper_cpp_client.Examples.Sessions.{args, answer, connects, up_client}

end_create_races_example :
    let (h, _, m1) = begin_create 0 new_manager in
    let (h', _, m2) = begin_create 0 m1 in
    ((end_create h (true, up_client, []) m2).0 ≡ h') × (h' ≢ h)
unfolding new_manager
end_create_races_example = end_create_races 0 0 new_manager up_client [] (omega arith, omega arith)

abbrev started : List Action
started = run_after first_thread 10 (check_task 2) ∷ []

create_succeeds_example :
    (n : ZkClientManager) × (create_zk_client args (some 3) (answer connects) 0 new_manager
      ≡ some (bump_handle new_manager.next_handle, n, started))
    × (get_zk_client (bump_handle new_manager.next_handle) n ≡ some up_client)
    × (get_any_client 9 n ≡ get_any_client 9 new_manager)
unfolding init up_client new_manager bump_handle
create_succeeds_example =
    create_succeeds args (some 3) (answer connects) 0 new_manager up_client started 9 refl
      (omega arith)

abbrev no_payload : Payload
no_payload = record { value = []; names = []; version = negsuc 0 }

issue_then_complete_example :
    let i = issue delete_op path_a (some 7) 8 true zok in
    (c : OperateContext) × (i.request ≡ some c)
    × (i.lost ≡ none)
    × (◌≡◌ {A = Bool} true true)
    × (some 7 ≡ some c.handler)
    × (tell (complete c znotempty no_payload)
        ≡ some (the_call delete_op path_a c.handler 8 znotempty ∷ []))
unfolding issue
issue_then_complete_example =
    issue_then_complete delete_op path_a (some 7) 8 true zok znotempty no_payload refl refl

abbrev creation : CreateContext
creation = record {
  path = path_ab;
  value = [];
  handler = 7;
  context = 8;
  is_temp = false;
  is_sequence = false;
}

abbrev pruning : DeleteContext
pruning = record { path = path_a; handler = 7; context = 8; version = negsuc 0 }

post_create_answers_once_example :
    (p : Posted) × ((post_create_parent_and_node tree 6 zok creation no_nodes).0 ≡ some p)
    × (answers p ≡ 1)
post_create_answers_once_example =
    post_create_answers_once tree 6 zok tree-IsTree creation no_nodes (omega arith)

post_delete_answers_once_example :
    (p : Posted) × ((post_delete_recursive tree 6 zok pruning a_and_b).0 ≡ some p) × (answers p ≡ 1)
unfolding get_children delete_children delete_recursive
post_delete_answers_once_example =
    post_delete_answers_once tree 6 zok tree-IsTree 4 pruning a_and_b (tree-bounded a_and_b)
      (omega arith) (λ h. cc)

-- A tree whose nodes cannot be deleted.
abbrev stuck : Zoo
stuck = record tree { zoo_delete = λ p v e. (zoperationtimeout, e) }

stuck-IsTree : IsTree stuck
stuck-IsTree = record {
  has = tree-IsTree.has;
  closed = tree-IsTree.closed;
  create_zok = tree-IsTree.create_zok;
  create_plain = tree-IsTree.create_plain;
  create_znodeexists = tree-IsTree.create_znodeexists;
  create_znonode = tree-IsTree.create_znonode;
  create_keeps = tree-IsTree.create_keeps;
  children_zok = tree-IsTree.children_zok;
  children_complete = tree-IsTree.children_complete;
  children_znonode = tree-IsTree.children_znonode;
  children_same = tree-IsTree.children_same;
  delete_zok = λ p v e h. cc h;
  delete_znonode = λ p v e h. cc h;
  delete_znotempty = λ p v e h. cc h;
  delete_others = λ p q v e h. refl;
  delete_shrinks = λ p q v e h. h;
}

post_delete_tells_twice_example :
    (post_delete_recursive stuck 6 zok pruning a_and_b).0
    ≡ some (record { told = delete_failed pruning ∷ delete_failed pruning ∷ []; request = none })
unfolding get_children delete_child_nodes delete_recursive delete_children post_delete_recursive
    stuck-IsTree
post_delete_tells_twice_example =
    post_delete_tells_twice stuck 6 zok stuck-IsTree 4 pruning a_and_b (b'b' ∷ [])
      (tree-bounded a_and_b) (omega arith) refl refl
