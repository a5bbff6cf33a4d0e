-- ===== src/Watch/Child.antt =====
-- The watches of a node's children in src/ZkClient.cc: regChildWatcher, getChildrenWatcher,
-- getChildDataOnWatcher and autoRegChildWatcher.
pub mod Cancelled
pub mod Told
use zookeeper_cpp_client.Common.{
  ℕ, ◌*◌, Bool, true, false, List, [], ◌∷◌, Option, none, some, if◌then◌else◌,
}
use zookeeper_cpp_client.Codes.{
  Bytes, Rc, zok, znonode, EventType, deleted_event, child_event, session_event, notwatching_event,
  ZkNotifyType, child_change, get_child_list_failed_parent_not_exist, get_child_list_failed,
  type_error,
}
use zookeeper_cpp_client.Client.{
  ChildWatchData, new_child_watch_data, ZkClient, is_connected, set_child_watch_data,
  get_child_watch_data, is_should_notify_child_watch, is_found,
}
use zookeeper_cpp_client.Task.{Action, run_in_thread, run_after, second_thread, auto_reg_child_task}
use zookeeper_cpp_client.Async.{is_read_rc}
use zookeeper_cpp_client.Watch.{WatchContext, Registered, not_registered, Watched, when}

abbrev pub child_watch_data : Bytes → ℕ → ℕ → ChildWatchData
child_watch_data path h context = record new_child_watch_data {
  path = path;
  handler = some h;
  context = context;
}

abbrev pub keep_child_watch : Bytes → ℕ → ℕ → ZkClient → Registered
keep_child_watch path h context c = record {
  result = true;
  client = set_child_watch_data path (child_watch_data path h context) c;
  watcher = some (record { path = path; handler = h; context = context });
}

-- regChildWatcher, over the return code of zoo_wget_children.
unfoldable pub reg_child_watcher : Bytes → Option ℕ → ℕ → Rc → ZkClient → Registered
unfolding set_child_watch_data
reg_child_watcher path none context rc c = not_registered c
reg_child_watcher path (some h) context rc c =
    if is_connected c
    then (elim rc [ zok ↦ keep_child_watch path h context c | _ ↦ not_registered c ])
    else not_registered c

-- A call of the user's ChildChangeHandler.
pub record ChildCall : Type 0 where
  pub handler : ℕ
  pub type : ZkNotifyType
  pub path : Bytes
  pub child_nodes : List Bytes
  pub context : ℕ

-- ContextInChildWatcher
pub record ChildFetch : Type 0 where
  pub path : Bytes
  pub handler : ℕ
  pub notify_type : ZkNotifyType
  pub context : ℕ

abbrev pub child_failure : WatchContext → ZkNotifyType → ChildCall
child_failure w type = record {
  handler = w.handler;
  type = type;
  path = w.path;
  child_nodes = [];
  context = w.context;
}

abbrev pub child_fetch : WatchContext → ChildFetch
child_fetch w = record {
  path = w.path;
  handler = w.handler;
  notify_type = child_change;
  context = w.context;
}

abbrev pub fetch_children : Bool → List Action → WatchContext → Rc → Watched ChildCall ChildFetch
fetch_children notify acts w zok = record {
  told = [];
  posted = acts;
  fetch = some (child_fetch w);
  deleted = true;
}
fetch_children notify acts w _ = record {
  told = when notify (child_failure w get_child_list_failed);
  posted = acts;
  fetch = none;
  deleted = true;
}

-- getChildrenWatcher; `rc` is what zoo_aget_children returns. `none`: the assertion on the type
-- fails.
unfoldable pub get_children_watcher :
    EventType → WatchContext → Rc → ZkClient → Option (Watched ChildCall ChildFetch)
unfolding is_should_notify_child_watch
get_children_watcher type w rc c =
    let notify = is_should_notify_child_watch w.path c in
    let acts = when notify (run_in_thread second_thread (auto_reg_child_task c.handle w.path)) in
    elim type [
      | session_event ↦ some (record { told = []; posted = acts; fetch = none; deleted = false })
      | notwatching_event ↦ some (record {
        told = when notify (child_failure w type_error);
        posted = acts;
        fetch = none;
        deleted = true;
      })
      | deleted_event ↦ some (record { told = []; posted = acts; fetch = none; deleted = true })
      | child_event ↦ some (fetch_children notify acts w rc)
      | _ ↦ none
    ]

abbrev pub fetched_children : ChildFetch → ZkNotifyType → List Bytes → ChildCall
fetched_children f type nodes = record {
  handler = f.handler;
  type = type;
  path = f.path;
  child_nodes = nodes;
  context = f.context;
}

-- getChildDataOnWatcher. It reads the stored watch and does not write it back.
unfoldable pub get_child_data_on_watcher :
    Rc → List Bytes → ChildFetch → ZkClient → Option (List ChildCall)
unfolding get_child_watch_data is_should_notify_child_watch
get_child_data_on_watcher rc strings f c =
    let told : List ChildCall = elim rc [
      | zok ↦
          when (is_found (get_child_watch_data f.path c)) (fetched_children f f.notify_type strings)
      | znonode ↦
          when (is_should_notify_child_watch f.path c)
            (fetched_children f get_child_list_failed_parent_not_exist [])
      | _ ↦
          when (is_should_notify_child_watch f.path c) (fetched_children f get_child_list_failed [])
    ] in
    if is_read_rc rc then some told else none

-- autoRegChildWatcher: the registration, and the timer that a failure sets.
abbrev pub reg_child_again : Bytes → Rc → ZkClient → ChildWatchData → Registered × List Action
reg_child_again path rc c d =
    let r = reg_child_watcher d.path d.handler d.context rc c in
    (
      r,
      if r.result
          then []
          else run_after second_thread (5 * 60 * 1000) (auto_reg_child_task c.handle path) ∷ [],
    )

abbrev pub reg_child_data : Bytes → Rc → ZkClient → Option ChildWatchData → Registered × List Action
reg_child_data path rc c none = (not_registered c, [])
reg_child_data path rc c (some d) =
    if d.is_support_auto_reg then reg_child_again path rc c d else (not_registered c, [])

unfoldable pub auto_reg_child_watcher : Bytes → Rc → ZkClient → Registered × List Action
unfolding reg_child_watcher get_child_watch_data
auto_reg_child_watcher path rc c =
    if is_connected c
    then reg_child_data path rc c (get_child_watch_data path c)
    else (not_registered c, [])
