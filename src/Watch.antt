-- ===== src/Watch.antt =====
-- The watches of src/ZkClient.cc: registering, the watcher functions that the C library calls when
-- a node or its children change, the fetch of the new data, and the registration that follows by
-- itself. Return codes of the library are arguments. A function that the library calls reads the
-- client's maps once: the user cancels before or after it.
pub mod Child
pub mod Node
pub mod Told
pub mod All
use zookeeper_cpp_client.Common.{
  ℕ, ◌*◌, Bool, true, false, List, [], ◌∷◌, Option, none, some, ℤ, if◌then◌else◌,
}
use zookeeper_cpp_client.Codes.{
  Bytes, Rc, zok, znonode, EventType, created_event, deleted_event, changed_event, session_event,
  notwatching_event, ZkNotifyType, node_delete, node_create, node_change, get_node_value_failed,
  get_node_value_failed_node_not_exist, type_error, invalid_data_version,
}
use zookeeper_cpp_client.Client.{
  NodeWatchData, new_node_watch_data, ZkClient, is_connected, set_node_watch_data,
  get_node_watch_data, is_should_notify_node_watch, is_found,
}
use zookeeper_cpp_client.Task.{Action, run_in_thread, run_after, second_thread, auto_reg_node_task}
use zookeeper_cpp_client.Async.{is_read_rc}

-- ZkOperateAndWatchContext, as a watcher carries it.
pub record WatchContext : Type 0 where
  pub path : Bytes
  pub handler : ℕ
  pub context : ℕ

-- What a registration returns, the client after it, and the watcher that the library now holds.
pub record Registered : Type 0 where
  pub result : Bool
  pub client : ZkClient
  pub watcher : Option WatchContext

abbrev pub not_registered : ZkClient → Registered
not_registered c = record { result = false; client = c; watcher = none }

abbrev pub node_watch_data : Bytes → ℕ → ℕ → NodeWatchData
node_watch_data path h context = record new_node_watch_data {
  path = path;
  handler = some h;
  context = context;
}

abbrev pub keep_node_watch : Bytes → ℕ → ℕ → ZkClient → Registered
keep_node_watch path h context c = record {
  result = true;
  client = set_node_watch_data path (node_watch_data path h context) c;
  watcher = some (record { path = path; handler = h; context = context });
}

-- regNodeWatcher, over the return code of zoo_wexists.
unfoldable pub reg_node_watcher : Bytes → Option ℕ → ℕ → Rc → ZkClient → Registered
unfolding set_node_watch_data
reg_node_watcher path none context rc c = not_registered c
reg_node_watcher path (some h) context rc c =
    if is_connected c
    then (elim rc [
      | zok ↦ keep_node_watch path h context c
      | znonode ↦ keep_node_watch path h context c
      | _ ↦ not_registered c
    ])
    else not_registered c

-- A call of the user's NodeChangeHandler.
pub record NodeCall : Type 0 where
  pub handler : ℕ
  pub type : ZkNotifyType
  pub path : Bytes
  pub value : Bytes
  pub version : ℤ
  pub context : ℕ

-- ContextInNodeWatcher
pub record NodeFetch : Type 0 where
  pub path : Bytes
  pub handler : ℕ
  pub notify_type : ZkNotifyType
  pub context : ℕ

-- What a watcher function does: the calls of the user, the functors that it posts, the fetch that
-- the library has taken, and whether it has deleted its context.
pub record Watched (U F : Type 0) : Type 0 where
  pub told : List U
  pub posted : List Action
  pub fetch : Option F
  pub deleted : Bool

abbrev pub when {ℓ} : {A : Type ℓ} → Bool → A → List A
when b a = if b then a ∷ [] else []

abbrev pub node_failure : WatchContext → ZkNotifyType → NodeCall
node_failure w type = record {
  handler = w.handler;
  type = type;
  path = w.path;
  value = [];
  version = invalid_data_version;
  context = w.context;
}

abbrev pub node_fetch : WatchContext → ZkNotifyType → NodeFetch
node_fetch w type = record {
  path = w.path;
  handler = w.handler;
  notify_type = type;
  context = w.context;
}

abbrev pub fetch_node :
    Bool → List Action → WatchContext → Rc → ZkNotifyType → Watched NodeCall NodeFetch
fetch_node notify acts w zok type = record {
  told = [];
  posted = acts;
  fetch = some (node_fetch w type);
  deleted = true;
}
fetch_node notify acts w _ type = record {
  told = when notify (node_failure w get_node_value_failed);
  posted = acts;
  fetch = none;
  deleted = true;
}

abbrev pub tell_node : Bool → List Action → WatchContext → ZkNotifyType → Watched NodeCall NodeFetch
tell_node notify acts w type = record {
  told = when notify (node_failure w type);
  posted = acts;
  fetch = none;
  deleted = true;
}

-- existWatcher; `rc` is what zoo_aget returns. `none`: the assertion on the type fails.
unfoldable pub exist_watcher :
    EventType → WatchContext → Rc → ZkClient → Option (Watched NodeCall NodeFetch)
unfolding is_should_notify_node_watch
exist_watcher type w rc c =
    let notify = is_should_notify_node_watch w.path c in
    let acts = when notify (run_in_thread second_thread (auto_reg_node_task c.handle w.path)) in
    elim type [
      | session_event ↦ some (record { told = []; posted = acts; fetch = none; deleted = false })
      | notwatching_event ↦ some (tell_node notify acts w type_error)
      | deleted_event ↦ some (tell_node notify acts w node_delete)
      | created_event ↦ some (fetch_node notify acts w rc node_create)
      | changed_event ↦ some (fetch_node notify acts w rc node_change)
      | _ ↦ none
    ]

abbrev pub fetched_node : NodeFetch → ZkNotifyType → Bytes → ℤ → NodeCall
fetched_node f type value version = record {
  handler = f.handler;
  type = type;
  path = f.path;
  value = value;
  version = version;
  context = f.context;
}

-- getNodeDataOnWatcher. It reads the stored watch and does not write it back.
unfoldable pub get_node_data_on_watcher :
    Rc → Bytes → ℤ → NodeFetch → ZkClient → Option (List NodeCall)
unfolding get_node_watch_data is_should_notify_node_watch
get_node_data_on_watcher rc value version f c =
    let told : List NodeCall = elim rc [
      | zok ↦
          when (is_found (get_node_watch_data f.path c))
            (fetched_node f f.notify_type value version)
      | znonode ↦
          when (is_should_notify_node_watch f.path c)
            (fetched_node f get_node_value_failed_node_not_exist [] invalid_data_version)
      | _ ↦
          when (is_should_notify_node_watch f.path c)
            (fetched_node f get_node_value_failed [] invalid_data_version)
    ] in
    if is_read_rc rc then some told else none

-- autoRegNodeWatcher: the registration, and the timer that a failure sets.
abbrev pub reg_node_again : Bytes → Rc → ZkClient → NodeWatchData → Registered × List Action
reg_node_again path rc c d =
    let r = reg_node_watcher d.path d.handler d.context rc c in
    (
      r,
      if r.result
          then []
          else run_after second_thread (5 * 60 * 1000) (auto_reg_node_task c.handle path) ∷ [],
    )

abbrev pub reg_node_data : Bytes → Rc → ZkClient → Option NodeWatchData → Registered × List Action
reg_node_data path rc c none = (not_registered c, [])
reg_node_data path rc c (some d) =
    if d.is_support_auto_reg then reg_node_again path rc c d else (not_registered c, [])

unfoldable pub auto_reg_node_watcher : Bytes → Rc → ZkClient → Registered × List Action
unfolding reg_node_watcher get_node_watch_data
auto_reg_node_watcher path rc c =
    if is_connected c
    then reg_node_data path rc c (get_node_watch_data path c)
    else (not_registered c, [])
