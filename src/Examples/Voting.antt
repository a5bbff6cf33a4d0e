-- ===== src/Examples/Voting.antt =====
-- Two objects of an election, on servers that answer.
use zookeeper_cpp_client.Common.{◌≡◌, refl, true, false, List, [], ◌∷◌, Option, none, some, arith}
use zookeeper_cpp_client.Common.Steps.{follow}
use zookeeper_cpp_client.Common.Std.{find, assign, bytes_ord}
use zookeeper_cpp_client.Sync.{create}
use zookeeper_cpp_client.Election.{
  new_master_election, parent_path, child_path, is_master, init, retry, start, reg_child_watcher_cb,
}
use zookeeper_cpp_client.Election.World.{
  World, Action, inits, starts, notified, passes, new_world, run, step,
}
use zookeeper_cpp_client.Election.Masters.{elects_one, late_list_leaves_no_master}
use zookeeper_cpp_client.Examples.Meeting.{Nodes, servers, servers-IsOwning}

abbrev no_nodes : Nodes
no_nodes = record { owners = []; answers = 5 }

abbrev some_acts : List Action
some_acts =
    inits 1 true 7 [] true
    ∷ inits 2 true 8 [] true
    ∷ starts 1 true
    ∷ starts 2 true
    ∷ notified 2 parent_path []
    ∷ []

abbrev or_new : Option (World servers) → World servers
or_new none = new_world servers no_nodes
or_new (some w) = w

abbrev elected : World servers
elected = or_new (run servers 1 some_acts (new_world servers no_nodes))

elects_one_example :
    (servers-IsOwning.owner elected.env child_path ≡ some 1)
    × (is_master (elected.object 2) ≡ false)
unfolding run follow new_master_election init retry start reg_child_watcher_cb create find assign
elects_one_example =
    elects_one servers servers-IsOwning no_nodes 1 some_acts elected 1 2 refl refl
      (λ e. omega (arith, e))

abbrev demoted : World servers
demoted = or_new (step servers 1 (notified 1 parent_path []) elected)

abbrev later : World servers
later = or_new (run servers 1 (passes 9 ∷ notified 2 parent_path [] ∷ []) demoted)

late_list_leaves_no_master_example :
    (servers-IsOwning.owner later.env child_path ≡ some 1) × (is_master (later.object 1) ≡ false)
unfolding run follow new_master_election init retry start reg_child_watcher_cb create find assign
late_list_leaves_no_master_example =
    late_list_leaves_no_master servers servers-IsOwning no_nodes 1 some_acts
      (passes 9 ∷ notified 2 parent_path [] ∷ []) elected demoted later 1 1 [] refl refl refl refl
      refl refl
