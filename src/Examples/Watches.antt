-- ===== src/Examples/Watches.antt =====
-- Watches of a node and of its children, of one connected client.
use zookeeper_cpp_client.Common.{
  ◌*◌, ◌≡◌, refl, inl, inr, Bool, true, false, List, [], ◌∷◌, ◌++◌, Option, none, some, negsuc,
  length, All,
}
use zookeeper_cpp_client.Common.Std.{find, assign, erase}
use zookeeper_cpp_client.Codes.{
  zok, znonode, expired_session, changed_event, child_event, node_change,
}
use zookeeper_cpp_client.Client.{
  get_node_watch_data, ZkClient, set_sess_stat, cancel_reg_node_watcher, cancel_reg_child_watcher,
}
use zookeeper_cpp_client.Task.{
  Action, run_in_thread, run_after, second_thread, auto_reg_node_task, auto_reg_child_task, one,
}
use zookeeper_cpp_client.Watch.{
  WatchContext, Watched, NodeCall, NodeFetch, reg_node_watcher, auto_reg_node_watcher,
  exist_watcher, get_node_data_on_watcher, not_registered, keep_node_watch, node_fetch,
  fetched_node,
}
use zookeeper_cpp_client.Watch.Node.{
  watcher_of, cancelled_node_is_silent, watched_node_is_watched_again, session_event_doubles,
}
use zookeeper_cpp_client.Watch.Told.{IsOneCall, event_tells_once}
use zookeeper_cpp_client.Watch.Child.{
  ChildCall, ChildFetch, reg_child_watcher, auto_reg_child_watcher, get_children_watcher,
  get_child_data_on_watcher, keep_child_watch, child_fetch, fetched_children,
}
use zookeeper_cpp_client.Watch.Child.Cancelled.{
  cancelled_child_is_silent, watched_child_is_watched_again,
}
use zookeeper_cpp_client.Watch.Child.Told.{IsChildCallOf, is_told, child_event_tells}
use zookeeper_cpp_client.Examples.Tree.{path_a}
use zookeeper_cpp_client.Examples.Sessions.{up_client}

abbrev w : WatchContext
w = watcher_of path_a 7 8

unfoldable node_client : ZkClient
unfolding reg_node_watcher up_client
node_client = (reg_node_watcher path_a (some 7) 8 zok up_client).client

unfoldable child_client : ZkClient
unfolding reg_child_watcher up_client
child_client = (reg_child_watcher path_a (some 7) 8 zok up_client).client

abbrev node_reg : List Action
node_reg = run_in_thread second_thread (auto_reg_node_task 2 path_a) ∷ []

abbrev child_reg : List Action
child_reg = run_in_thread second_thread (auto_reg_child_task 2 path_a) ∷ []

-- Nothing is told and nothing is posted.
abbrev quiet : {U F : Type 0} → Option F → Watched U F
quiet f = record { told = []; posted = []; fetch = f; deleted = true }

abbrev fetching : Watched NodeCall NodeFetch
fetching = record {
  told = [];
  posted = node_reg;
  fetch = some (node_fetch w node_change);
  deleted = true;
}

abbrev child_fetching : Watched ChildCall ChildFetch
child_fetching = record {
  told = [];
  posted = child_reg;
  fetch = some (child_fetch w);
  deleted = true;
}

cancelled_node_is_silent_example :
    (◌≡◌ {A = List NodeCall} [] [])
    × (◌≡◌ {A = List Action} [] [])
    × (◌≡◌ {A = List NodeCall} [] [])
    × (auto_reg_node_watcher path_a zok (cancel_reg_node_watcher path_a node_client)
        ≡ (not_registered (cancel_reg_node_watcher path_a node_client), []))
unfolding node_client cancel_reg_node_watcher exist_watcher get_node_data_on_watcher find assign
    erase
cancelled_node_is_silent_example =
    cancelled_node_is_silent node_client w (node_fetch w node_change) changed_event zok zok zok
      (1 ∷ []) (negsuc 0) (quiet (some (node_fetch w node_change))) [] refl refl refl

watched_node_is_watched_again_example :
    let c1 = (reg_node_watcher path_a (some 7) 8 zok up_client).client in
    (fetching.posted ≡ run_in_thread second_thread (auto_reg_node_task c1.handle path_a) ∷ [])
    × (auto_reg_node_watcher path_a znonode c1 ≡ (keep_node_watch path_a 7 8 c1, []))
unfolding reg_node_watcher up_client exist_watcher find assign erase
watched_node_is_watched_again_example =
    watched_node_is_watched_again up_client path_a 7 8 changed_event zok zok znonode fetching refl
      refl refl (inr refl)

event_tells_once_example :
    IsOneCall w ([] ++ fetched_node (node_fetch w node_change) node_change (1 ∷ []) (negsuc 0) ∷ [])
    × (fetching.deleted ≡ true)
unfolding node_client exist_watcher get_node_data_on_watcher find assign erase
event_tells_once_example =
    event_tells_once node_client w changed_event zok zok (1 ∷ []) (negsuc 0) fetching
      (fetched_node (node_fetch w node_change) node_change (1 ∷ []) (negsuc 0) ∷ []) refl refl refl
      refl

session_event_doubles_example :
    (◌≡◌ {A = Bool} false false)
    × (node_reg ≡ run_in_thread second_thread (auto_reg_node_task node_client.handle path_a) ∷ [])
    × ((auto_reg_node_watcher path_a zok node_client).0.watcher ≡ some w)
unfolding node_client exist_watcher find assign erase get_node_watch_data
session_event_doubles_example =
    session_event_doubles node_client w zok zok
      (record { told = []; posted = node_reg; fetch = none; deleted = false }) refl refl refl
      (inl refl)

cancelled_child_is_silent_example :
    (◌≡◌ {A = List ChildCall} [] [])
    × (◌≡◌ {A = List Action} [] [])
    × (◌≡◌ {A = List ChildCall} [] [])
    × (auto_reg_child_watcher path_a zok (cancel_reg_child_watcher path_a child_client)
        ≡ (not_registered (cancel_reg_child_watcher path_a child_client), []))
unfolding child_client cancel_reg_child_watcher get_children_watcher get_child_data_on_watcher find
    assign erase
cancelled_child_is_silent_example =
    cancelled_child_is_silent child_client w (child_fetch w) child_event zok zok zok ((1 ∷ []) ∷ [])
      (quiet (some (child_fetch w))) [] refl refl refl

watched_child_is_watched_again_example :
    let c1 = (reg_child_watcher path_a (some 7) 8 zok up_client).client in
    (child_fetching.posted
      ≡ run_in_thread second_thread (auto_reg_child_task c1.handle path_a) ∷ [])
    × (auto_reg_child_watcher path_a zok c1 ≡ (keep_child_watch path_a 7 8 c1, []))
    × (auto_reg_child_watcher path_a znonode c1 ≡ (
      not_registered c1,
      run_after second_thread (5 * 60 * 1000) (auto_reg_child_task c1.handle path_a) ∷ [],
    ))
    × (auto_reg_child_watcher path_a zok (set_sess_stat expired_session c1)
        ≡ (not_registered (set_sess_stat expired_session c1), []))
unfolding reg_child_watcher up_client get_children_watcher find assign erase
watched_child_is_watched_again_example =
    watched_child_is_watched_again up_client path_a 7 8 child_event zok zok child_fetching
      expired_session zok refl refl refl

abbrev children_told : List ChildCall
children_told = fetched_children (child_fetch w) (child_fetch w).notify_type ((1 ∷ []) ∷ []) ∷ []

child_event_tells_example :
    (length ([] ++ children_told) ≡ one (is_told child_event))
    × All (IsChildCallOf w) ([] ++ children_told)
unfolding child_client get_children_watcher get_child_data_on_watcher find assign erase
child_event_tells_example =
    child_event_tells child_client w child_event zok zok ((1 ∷ []) ∷ []) child_fetching
      children_told refl refl refl
