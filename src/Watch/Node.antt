-- ===== src/Watch/Node.antt =====
-- Watches of a node over several calls: once a path is watched, once it is cancelled, and when the
-- session reports an event.
use zookeeper_cpp_client.Common.{
  ℕ, ◌≡◌, ◌⊎◌, refl, ap, ◌∙◌, true, false, List, [], ◌∷◌, none, some, arith, ℤ,
}
use zookeeper_cpp_client.Common.Std.{find-assign_self, find-erase_self, bytes_ord}
use zookeeper_cpp_client.Codes.{Bytes, Rc, zok, znonode, EventType, session_event}
use zookeeper_cpp_client.Client.{
  ZkClient, is_connected, is_found, set_node_watch_data, get_node_watch_data,
  is_should_notify_node_watch, cancel_reg_node_watcher,
}
use zookeeper_cpp_client.Task.{run_in_thread, second_thread, auto_reg_node_task}
use zookeeper_cpp_client.Watch.{
  WatchContext, NodeCall, NodeFetch, Watched, reg_node_watcher, exist_watcher,
  get_node_data_on_watcher, auto_reg_node_watcher, not_registered, node_watch_data, keep_node_watch,
}

quiet-exist_watcher :
    (c : ZkClient) (w : WatchContext) (type : EventType) (rc : Rc) (r : Watched NodeCall NodeFetch)
    → is_should_notify_node_watch w.path c ≡ false
    → exist_watcher type w rc c ≡ some r
    → (r.told ≡ []) × (r.posted ≡ [])
unfolding exist_watcher
quiet-exist_watcher c w type rc r n e = ground arith

quiet-get_node_data_on_watcher :
    (c : ZkClient) (f : NodeFetch) (rc : Rc) (value : Bytes) (version : ℤ) (us : List NodeCall)
    → is_should_notify_node_watch f.path c ≡ false
    → get_node_watch_data f.path c ≡ none
    → get_node_data_on_watcher rc value version f c ≡ some us
    → us ≡ []
unfolding get_node_data_on_watcher
quiet-get_node_data_on_watcher c f rc value version us n g e = ground arith

quiet-auto_reg_node_watcher :
    (c : ZkClient) (path : Bytes) (rc : Rc)
    → get_node_watch_data path c ≡ none
    → auto_reg_node_watcher path rc c ≡ (not_registered c, [])
unfolding auto_reg_node_watcher
quiet-auto_reg_node_watcher c path rc g = ground arith

cancelled_maps :
    (p : Bytes) (c : ZkClient)
    → (is_should_notify_node_watch p (cancel_reg_node_watcher p c) ≡ false)
      × (get_node_watch_data p (cancel_reg_node_watcher p c) ≡ none)
unfolding is_should_notify_node_watch get_node_watch_data cancel_reg_node_watcher
cancelled_maps p c = let gone = find-erase_self p c.node_watch_datas in (ap is_found gone, gone)

-- After cancelRegNodeWatcher of a path, a watcher of that path that still fires calls no handler and
-- posts nothing, a fetch for it that still completes calls no handler, and a registration of it that
-- was posted before does nothing.
pub cancelled_node_is_silent :
    (c : ZkClient) (w : WatchContext) (f : NodeFetch) (type : EventType) (rc rc1 rc2 : Rc)
    (value : Bytes) (version : ℤ) (r : Watched NodeCall NodeFetch) (us : List NodeCall)
    → f.path ≡ w.path
    → exist_watcher type w rc (cancel_reg_node_watcher w.path c) ≡ some r
    → get_node_data_on_watcher rc1 value version f (cancel_reg_node_watcher w.path c) ≡ some us
    → (r.told ≡ [])
      × (r.posted ≡ [])
      × (us ≡ [])
      × (auto_reg_node_watcher w.path rc2 (cancel_reg_node_watcher w.path c)
          ≡ (not_registered (cancel_reg_node_watcher w.path c), []))
cancelled_node_is_silent c w f type rc rc1 rc2 value version r us same e g =
    let c1 = cancel_reg_node_watcher w.path c in
    let m = cancelled_maps w.path c in
    let q = quiet-exist_watcher c1 w type rc r m.0 e in
    (
      q.0,
      q.1,
      quiet-get_node_data_on_watcher c1 f rc1 value version us
          (ap (λ p. is_should_notify_node_watch p c1) same ∙ m.0)
          (ap (λ p. get_node_watch_data p c1) same ∙ m.1) g,
      quiet-auto_reg_node_watcher c1 w.path rc2 m.1,
    )

registered_is_found :
    (p : Bytes) (h x : ℕ) (rc : Rc) (c : ZkClient)
    → (reg_node_watcher p (some h) x rc c).result ≡ true
    → let c1 = (reg_node_watcher p (some h) x rc c).client in
      (reg_node_watcher p (some h) x rc c ≡ keep_node_watch p h x c)
      × (is_connected c1 ≡ is_connected c)
unfolding reg_node_watcher set_node_watch_data
registered_is_found p h x rc c e = ground arith

kept-node_watch_data :
    (p : Bytes) (h x : ℕ) (c : ZkClient)
    → let c1 = (keep_node_watch p h x c).client in
      (is_should_notify_node_watch p c1 ≡ true)
      × (get_node_watch_data p c1 ≡ some (node_watch_data p h x))
unfolding is_should_notify_node_watch get_node_watch_data set_node_watch_data
kept-node_watch_data p h x c =
    let kept = find-assign_self p (node_watch_data p h x) c.node_watch_datas in
    (ap is_found kept, kept)

-- The watcher that the library holds after a registration.
abbrev pub watcher_of : Bytes → ℕ → ℕ → WatchContext
watcher_of p h x = record { path = p; handler = h; context = x }

posted-exist_watcher :
    (c : ZkClient) (w : WatchContext) (type : EventType) (rc : Rc) (r : Watched NodeCall NodeFetch)
    → is_should_notify_node_watch w.path c ≡ true
    → exist_watcher type w rc c ≡ some r
    → r.posted ≡ run_in_thread second_thread (auto_reg_node_task c.handle w.path) ∷ []
unfolding exist_watcher
posted-exist_watcher c w type rc r n e = ground arith

again-auto_reg_node_watcher :
    (c : ZkClient) (p : Bytes) (h x : ℕ) (rc : Rc)
    → is_connected c ≡ true
    → (rc ≡ zok) ⊎ (rc ≡ znonode)
    → get_node_watch_data p c ≡ some (node_watch_data p h x)
    → auto_reg_node_watcher p rc c ≡ (keep_node_watch p h x c, [])
unfolding auto_reg_node_watcher reg_node_watcher
again-auto_reg_node_watcher c p h x rc on ok g = ground (arith, on, ok, g)

-- A watch goes on: once regNodeWatcher has returned true, a watcher that fires, whatever the event,
-- posts the registration of its path, and that registration, if the session is connected and
-- zoo_wexists gives ZOK or ZNONODE, sets a watcher of the same path, handler and context.
pub watched_node_is_watched_again :
    (c : ZkClient) (p : Bytes) (h x : ℕ) (type : EventType) (rc rc1 rc2 : Rc)
    (r : Watched NodeCall NodeFetch)
    → (reg_node_watcher p (some h) x rc c).result ≡ true
    → exist_watcher type (watcher_of p h x) rc1 (reg_node_watcher p (some h) x rc c).client ≡ some r
    → is_connected c ≡ true
    → (rc2 ≡ zok) ⊎ (rc2 ≡ znonode)
    → let c1 = (reg_node_watcher p (some h) x rc c).client in
      (r.posted ≡ run_in_thread second_thread (auto_reg_node_task c1.handle p) ∷ [])
      × (auto_reg_node_watcher p rc2 c1 ≡ (keep_node_watch p h x c1, []))
watched_node_is_watched_again c p h x type rc rc1 rc2 r e fired on ok =
    let c1 = (reg_node_watcher p (some h) x rc c).client in
    let (kept, same) = registered_is_found p h x rc c e in
    let maps = kept-node_watch_data p h x c in
    let at = ap (λ d. d.client) kept in
    (
      posted-exist_watcher c1 (watcher_of p h x) type rc1 r
          (ap (is_should_notify_node_watch p) at ∙ maps.0) fired,
      again-auto_reg_node_watcher c1 p h x rc2 (same ∙ on) ok
          (ap (get_node_watch_data p) at ∙ maps.1),
    )

-- A watched path has its data, as both reads of the map show it.
pub found_both :
    (p : Bytes) (c : ZkClient)
    → is_should_notify_node_watch p c ≡ is_found (get_node_watch_data p c)
unfolding is_should_notify_node_watch get_node_watch_data
found_both p c = refl

alive-exist_watcher :
    (c : ZkClient) (w : WatchContext) (rc : Rc) (r : Watched NodeCall NodeFetch)
    → exist_watcher session_event w rc c ≡ some r
    → r.deleted ≡ false
unfolding exist_watcher
alive-exist_watcher c w rc r e = ground arith

-- A session event leaves the watcher of a watched path alive, its context not deleted, and posts a
-- registration all the same: with a connected session and ZOK or ZNONODE from zoo_wexists, that
-- registration sets a second watcher of the same path, handler and context.
pub session_event_doubles :
    (c : ZkClient) (w : WatchContext) (rc rc1 : Rc) (r : Watched NodeCall NodeFetch)
    → get_node_watch_data w.path c ≡ some (node_watch_data w.path w.handler w.context)
    → exist_watcher session_event w rc c ≡ some r
    → is_connected c ≡ true
    → (rc1 ≡ zok) ⊎ (rc1 ≡ znonode)
    → (r.deleted ≡ false)
      × (r.posted ≡ run_in_thread second_thread (auto_reg_node_task c.handle w.path) ∷ [])
      × ((auto_reg_node_watcher w.path rc1 c).0.watcher ≡ some w)
session_event_doubles c w rc rc1 r g e on ok =
    let n = found_both w.path c ∙ ap is_found g in
    (
      alive-exist_watcher c w rc r e,
      posted-exist_watcher c w session_event rc r n e,
      ap (λ a. a.0.watcher) (again-auto_reg_node_watcher c w.path w.handler w.context rc1 on ok g),
    )
