-- ===== src/Examples/Mutex.antt =====
-- Two objects of an exclusive lock with the name "m".
use zookeeper_cpp_client.Common.{ℕ, ◌≡◌, ◌≢◌, refl, true, List, [], ◌∷◌, Option, none, some, arith}
use zookeeper_cpp_client.Common.Steps.{follow}
use zookeeper_cpp_client.Common.Std.{find, assign, erase, bytes_ord}
use zookeeper_cpp_client.Codes.{Bytes}
use zookeeper_cpp_client.Zoo.Path.{child}
use zookeeper_cpp_client.Sync.{create, get_children, delete_recursive, delete_children, delete_node}
use zookeeper_cpp_client.Lock.{
  DistriLock, parent_path, create_child, unlock, reg_child_watcher_cb, destroy, init,
  new_distri_lock,
}
use zookeeper_cpp_client.Lock.World.{
  holding, World, Action, locks, creates, waits, unlocks, passes, notified, start, run, step,
}
use zookeeper_cpp_client.Lock.Exclusion.{lock_excludes, destroy_of_another}
use zookeeper_cpp_client.Lock.Abandoned.{unlock_abandons}
use zookeeper_cpp_client.Examples.Meeting.{Nodes, servers, servers-IsOwning}

abbrev no_nodes : Nodes
no_nodes = record { owners = []; answers = 5 }

abbrev m : Bytes
m = b'm' ∷ []

abbrev object : ℕ → DistriLock
object p = (init servers p true 1 true [] m new_distri_lock no_nodes).0.1

-- The object 1 gets the lock, and 2 is refused.
abbrev some_acts : List Action
some_acts = locks 1 ∷ locks 2 ∷ creates 1 ∷ creates 2 ∷ waits 2 ∷ []

abbrev or_start : Option (World servers) → World servers
or_start none = start servers no_nodes object
or_start (some w) = w

abbrev held : World servers
held = or_start (run servers 2 some_acts (start servers no_nodes object))

lock_excludes_example :
    (servers-IsOwning.owner held.env (child parent_path m) ≡ some 1)
    × ((held.worker 2).phase ≢ holding)
unfolding run follow create_child unlock reg_child_watcher_cb create init new_distri_lock find
    assign
lock_excludes_example =
    lock_excludes servers servers-IsOwning m object no_nodes 2 some_acts held 1 2 (λ p. refl) refl
      refl (λ e. omega (arith, e))

destroy_of_another_example :
    (servers-IsOwning.owner held.env (child parent_path m) ≡ some 1)
    × (servers-IsOwning.owner
          (destroy servers 2 2 (held.worker 2).lock held.env).1
          (child parent_path m)
        ≡ none)
    × ((held.worker 2).phase ≢ holding)
unfolding run follow create_child unlock reg_child_watcher_cb create init new_distri_lock find
    assign erase delete_recursive get_children delete_children delete_node destroy
destroy_of_another_example =
    destroy_of_another servers servers-IsOwning m object no_nodes 2 some_acts held 1 2 (λ p. refl)
      refl refl (λ e. omega (arith, e)) refl

-- One more call is answered.
abbrev failing_acts : List Action
failing_acts = locks 1 ∷ creates 1 ∷ passes 1 ∷ []

abbrev failing : World servers
failing = or_start (run servers 2 failing_acts (start servers no_nodes object))

abbrev freed : World servers
freed = or_start (step servers 2 (unlocks 1) failing)

abbrev later_acts : List Action
later_acts = passes 9 ∷ locks 2 ∷ creates 2 ∷ waits 2 ∷ notified 2 parent_path [] ∷ creates 2 ∷ []

abbrev later : World servers
later = or_start (run servers 2 later_acts freed)

unlock_abandons_example :
    ((unlock servers 1 2 (failing.worker 1).lock failing.env).0 ≡ some true)
    × ((later.worker 2).phase ≢ holding)
unfolding run follow create_child unlock reg_child_watcher_cb create init new_distri_lock find
    assign erase delete_recursive get_children delete_children delete_node
unlock_abandons_example =
    unlock_abandons servers servers-IsOwning m object no_nodes 1 failing_acts later_acts failing
      freed later 1 2 (λ p. refl) refl refl refl refl refl refl
