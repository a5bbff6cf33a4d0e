-- ===== src/Watch/Child/Cancelled.antt =====
-- Watches of a node's children over several calls: once they are cancelled, and while they go on.
use zookeeper_cpp_client.Common.{
  ℕ, ◌*◌, ◌≡◌, refl, ap, ◌∙◌, true, false, List, [], ◌∷◌, none, some, arith,
}
use zookeeper_cpp_client.Common.Std.{find-assign_self, find-erase_self, bytes_ord}
use zookeeper_cpp_client.Codes.{Bytes, Rc, zok, znonode, EventType, SessState, is_connected_state}
use zookeeper_cpp_client.Client.{
  ZkClient, is_connected, set_sess_stat, is_found, set_child_watch_data, get_child_watch_data,
  is_should_notify_child_watch, cancel_reg_child_watcher,
}
use zookeeper_cpp_client.Task.{run_in_thread, run_after, second_thread, auto_reg_child_task}
use zookeeper_cpp_client.Watch.{WatchContext, Watched, not_registered}
use zookeeper_cpp_client.Watch.Node.{watcher_of}
use zookeeper_cpp_client.Watch.Child.{
  ChildCall, ChildFetch, reg_child_watcher, get_children_watcher, get_child_data_on_watcher,
  auto_reg_child_watcher, child_watch_data, keep_child_watch,
}

quiet-get_children_watcher :
    (c : ZkClient) (w : WatchContext) (type : EventType) (rc : Rc)
    (r : Watched ChildCall ChildFetch)
    → is_should_notify_child_watch w.path c ≡ false
    → get_children_watcher type w rc c ≡ some r
    → (r.told ≡ []) × (r.posted ≡ [])
unfolding get_children_watcher
quiet-get_children_watcher c w type rc r n e = ground arith

quiet-get_child_data_on_watcher :
    (c : ZkClient) (f : ChildFetch) (rc : Rc) (strings : List Bytes) (us : List ChildCall)
    → is_should_notify_child_watch f.path c ≡ false
    → get_child_watch_data f.path c ≡ none
    → get_child_data_on_watcher rc strings f c ≡ some us
    → us ≡ []
unfolding get_child_data_on_watcher
quiet-get_child_data_on_watcher c f rc strings us n g e = ground arith

quiet-auto_reg_child_watcher :
    (c : ZkClient) (path : Bytes) (rc : Rc)
    → get_child_watch_data path c ≡ none
    → auto_reg_child_watcher path rc c ≡ (not_registered c, [])
unfolding auto_reg_child_watcher
quiet-auto_reg_child_watcher c path rc g = ground arith

cancelled_maps :
    (p : Bytes) (c : ZkClient)
    → (is_should_notify_child_watch p (cancel_reg_child_watcher p c) ≡ false)
      × (get_child_watch_data p (cancel_reg_child_watcher p c) ≡ none)
unfolding is_should_notify_child_watch get_child_watch_data cancel_reg_child_watcher
cancelled_maps p c = let gone = find-erase_self p c.child_watch_datas in (ap is_found gone, gone)

-- After cancelRegChildWatcher of a path, a watcher of that path that still fires calls no handler and
-- posts nothing, a fetch for it that still completes calls no handler, and a registration of it that
-- was posted before does nothing.
pub cancelled_child_is_silent :
    (c : ZkClient) (w : WatchContext) (f : ChildFetch) (type : EventType) (rc rc1 rc2 : Rc)
    (strings : List Bytes) (r : Watched ChildCall ChildFetch) (us : List ChildCall)
    → f.path ≡ w.path
    → get_children_watcher type w rc (cancel_reg_child_watcher w.path c) ≡ some r
    → get_child_data_on_watcher rc1 strings f (cancel_reg_child_watcher w.path c) ≡ some us
    → (r.told ≡ [])
      × (r.posted ≡ [])
      × (us ≡ [])
      × (auto_reg_child_watcher w.path rc2 (cancel_reg_child_watcher w.path c)
          ≡ (not_registered (cancel_reg_child_watcher w.path c), []))
cancelled_child_is_silent c w f type rc rc1 rc2 strings r us same e g =
    let c1 = cancel_reg_child_watcher w.path c in
    let m = cancelled_maps w.path c in
    let q = quiet-get_children_watcher c1 w type rc r m.0 e in
    (
      q.0,
      q.1,
      quiet-get_child_data_on_watcher c1 f rc1 strings us
          (ap (λ p. is_should_notify_child_watch p c1) same ∙ m.0)
          (ap (λ p. get_child_watch_data p c1) same ∙ m.1) g,
      quiet-auto_reg_child_watcher c1 w.path rc2 m.1,
    )

registered_is_kept :
    (p : Bytes) (h x : ℕ) (rc : Rc) (c : ZkClient)
    → (reg_child_watcher p (some h) x rc c).result ≡ true
    → let c1 = (reg_child_watcher p (some h) x rc c).client in
      (reg_child_watcher p (some h) x rc c ≡ keep_child_watch p h x c) × (is_connected c1 ≡ true)
unfolding reg_child_watcher set_child_watch_data
registered_is_kept p h x rc c e = ground arith

kept-child_watch_data :
    (p : Bytes) (h x : ℕ) (c : ZkClient)
    → let c1 = (keep_child_watch p h x c).client in
      (is_should_notify_child_watch p c1 ≡ true)
      × (get_child_watch_data p c1 ≡ some (child_watch_data p h x))
unfolding is_should_notify_child_watch get_child_watch_data set_child_watch_data
kept-child_watch_data p h x c =
    let kept = find-assign_self p (child_watch_data p h x) c.child_watch_datas in
    (ap is_found kept, kept)

posted-get_children_watcher :
    (c : ZkClient) (w : WatchContext) (type : EventType) (rc : Rc)
    (r : Watched ChildCall ChildFetch)
    → is_should_notify_child_watch w.path c ≡ true
    → get_children_watcher type w rc c ≡ some r
    → r.posted ≡ run_in_thread second_thread (auto_reg_child_task c.handle w.path) ∷ []
unfolding get_children_watcher
posted-get_children_watcher c w type rc r n e = ground arith

again-auto_reg_child_watcher :
    (c : ZkClient) (p : Bytes) (h x : ℕ)
    → is_connected c ≡ true
    → get_child_watch_data p c ≡ some (child_watch_data p h x)
    → auto_reg_child_watcher p zok c ≡ (keep_child_watch p h x c, [])
unfolding auto_reg_child_watcher reg_child_watcher
again-auto_reg_child_watcher c p h x on g = ground (arith, on, g)

later-auto_reg_child_watcher :
    (c : ZkClient) (p : Bytes) (h x : ℕ)
    → is_connected c ≡ true
    → get_child_watch_data p c ≡ some (child_watch_data p h x)
    → auto_reg_child_watcher p znonode c ≡ (
      not_registered c,
      run_after second_thread (5 * 60 * 1000) (auto_reg_child_task c.handle p) ∷ [],
    )
unfolding auto_reg_child_watcher reg_child_watcher
later-auto_reg_child_watcher c p h x on g = ground (arith, on, g)

offline-auto_reg_child_watcher :
    (c : ZkClient) (p : Bytes) (rc : Rc)
    → is_connected c ≡ false
    → auto_reg_child_watcher p rc c ≡ (not_registered c, [])
unfolding auto_reg_child_watcher reg_child_watcher
offline-auto_reg_child_watcher c p rc off = rw off refl

-- A watch of children goes on while the session is connected: once regChildWatcher has returned true,
-- a watcher that fires, whatever the event, posts the registration of its path. If that registration
-- finds the client as regChildWatcher left it, connected, it sets a watcher of the same path, handler
-- and context where zoo_wget_children gives ZOK, and a timer to be run again after five minutes where
-- it gives ZNONODE. If it finds the session in any other state, it sets neither a watcher nor a timer.
pub watched_child_is_watched_again :
    (c : ZkClient) (p : Bytes) (h x : ℕ) (type : EventType) (rc rc1 : Rc)
    (r : Watched ChildCall ChildFetch) (lost : SessState) (rc2 : Rc)
    → (reg_child_watcher p (some h) x rc c).result ≡ true
    → get_children_watcher type (watcher_of p h x) rc1 (reg_child_watcher p (some h) x rc c).client
      ≡ some r
    → is_connected_state lost ≡ false
    → let c1 = (reg_child_watcher p (some h) x rc c).client in
      (r.posted ≡ run_in_thread second_thread (auto_reg_child_task c1.handle p) ∷ [])
      × (auto_reg_child_watcher p zok c1 ≡ (keep_child_watch p h x c1, []))
      × (auto_reg_child_watcher p znonode c1 ≡ (
        not_registered c1,
        run_after second_thread (5 * 60 * 1000) (auto_reg_child_task c1.handle p) ∷ [],
      ))
      × (auto_reg_child_watcher p rc2 (set_sess_stat lost c1)
          ≡ (not_registered (set_sess_stat lost c1), []))
watched_child_is_watched_again c p h x type rc rc1 r lost rc2 e fired off =
    let c1 = (reg_child_watcher p (some h) x rc c).client in
    let (kept, on) = registered_is_kept p h x rc c e in
    let maps = kept-child_watch_data p h x c in
    let at = ap (λ d. d.client) kept in
    let found = ap (get_child_watch_data p) at ∙ maps.1 in
    (
      posted-get_children_watcher c1 (watcher_of p h x) type rc1 r
          (ap (is_should_notify_child_watch p) at ∙ maps.0) fired,
      again-auto_reg_child_watcher c1 p h x on found,
      later-auto_reg_child_watcher c1 p h x on found,
      offline-auto_reg_child_watcher (set_sess_stat lost c1) p rc2 off,
    )
