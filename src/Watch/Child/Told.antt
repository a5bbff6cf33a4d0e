-- ===== src/Watch/Child/Told.antt =====
-- What an event of a watched node's children tells the user: getChildrenWatcher and the completion
-- of its fetch, getChildDataOnWatcher, of src/ZkClient.cc.
use zookeeper_cpp_client.Common.{
  ℕ, ◌≡◌, refl, ap, ◌∙◌, sym, subst, Bool, true, false, List, [], ◌∷◌, ◌++◌, Option, none, some,
  arith, length, All,
}
use mathlib.Core.List.{append-nil}
use zookeeper_cpp_client.Codes.{
  Bytes, Rc, zok, znonode, EventType, child_event, deleted_event, session_event, notwatching_event,
  get_child_list_failed, get_child_list_failed_parent_not_exist, type_error,
}
use zookeeper_cpp_client.Client.{
  ZkClient, is_found, get_child_watch_data, is_should_notify_child_watch,
}
use zookeeper_cpp_client.Task.{one}
use zookeeper_cpp_client.Watch.{WatchContext, Watched}
use zookeeper_cpp_client.Watch.Child.{
  ChildCall, ChildFetch, get_children_watcher, get_child_data_on_watcher, fetched_children,
  child_failure, child_fetch,
}

-- The completion of the fetch, if there is one.
abbrev pub finish_child_fetch :
    Option ChildFetch → Rc → List Bytes → ZkClient → Option (List ChildCall)
finish_child_fetch none rc strings c = some []
finish_child_fetch (some f) rc strings c = get_child_data_on_watcher rc strings f c

abbrev pub is_told : EventType → Bool
is_told child_event = true
is_told notwatching_event = true
is_told _ = false

abbrev pub IsChildCallOf : WatchContext → ChildCall → Type 0
IsChildCallOf w u = (u.path ≡ w.path) × (u.handler ≡ w.handler) × (u.context ≡ w.context)

found_both :
    (p : Bytes) (c : ZkClient)
    → is_should_notify_child_watch p c ≡ is_found (get_child_watch_data p c)
unfolding is_should_notify_child_watch get_child_watch_data
found_both p c = refl

abbrev Tells : WatchContext → ℕ → List ChildCall → Type 0
Tells w n us = (length us ≡ n) × All (IsChildCallOf w) us

Tells-one :
    {w : WatchContext} {us : List ChildCall} (u : ChildCall)
    → us ≡ u ∷ []
    → IsChildCallOf w u
    → Tells w 1 us
Tells-one {w} u e k = subst (Tells w 1) (sym e) (refl, (k, tt))

Tells-none : (w : WatchContext) {us : List ChildCall} → us ≡ [] → Tells w 0 us
Tells-none w e = subst (Tells w 0) (sym e) (refl, tt)

fetch-Tells :
    (c : ZkClient) (w : WatchContext) (rc : Rc) (strings : List Bytes) (us : List ChildCall)
    → is_should_notify_child_watch w.path c ≡ true
    → is_found (get_child_watch_data w.path c) ≡ true
    → get_child_data_on_watcher rc strings (child_fetch w) c ≡ some us
    → Tells w 1 us
unfolding get_child_data_on_watcher
fetch-Tells c w zok strings us n d g =
    let f = child_fetch w in
    Tells-one (fetched_children f f.notify_type strings) (ground (arith, d, g)) (refl, refl, refl)
fetch-Tells c w znonode strings us n d g =
    let u = fetched_children (child_fetch w) get_child_list_failed_parent_not_exist [] in
    Tells-one u (ground (arith, n, g)) (refl, refl, refl)
fetch-Tells c w _ strings us n d g =
    let u = fetched_children (child_fetch w) get_child_list_failed [] in
    Tells-one u (ground (arith, n, g)) (refl, refl, refl)

module _ (c : ZkClient) (w : WatchContext) (rc : Rc) (strings : List Bytes)
    (r : Watched ChildCall ChildFetch) (us : List ChildCall) where
  -- Where nothing is fetched, the calls of the watcher itself are all.
  Tells-now :
      {n : ℕ}
      → Tells w n r.told
      → r.fetch ≡ none
      → finish_child_fetch r.fetch rc strings c ≡ some us
      → Tells w n (r.told ++ us)
  Tells-now {n} k e g =
      let no_more : us ≡ [] = ground (arith, e, g) in
      subst (Tells w n) (sym (ap (λ xs. r.told ++ xs) no_more ∙ append-nil r.told)) k

  Tells-later :
      is_should_notify_child_watch w.path c ≡ true
      → r.told ≡ []
      → r.fetch ≡ some (child_fetch w)
      → finish_child_fetch r.fetch rc strings c ≡ some us
      → Tells w 1 (r.told ++ us)
  Tells-later n silent fetch g =
      let done = ap (λ o. finish_child_fetch o rc strings c) (sym fetch) ∙ g in
      subst (λ xs. Tells w 1 (xs ++ us)) (sym silent)
        (fetch-Tells c w rc strings us n (sym (found_both w.path c) ∙ n) done)

-- An event of a path whose children are watched leads to exactly one call of the user's handler,
-- at once or when the fetch of the children completes with the path still watched, if it is an
-- event of the children or a lost watch. When the node itself was deleted, and at a session
-- event, nobody is called. A call has the watcher's path, handler and context.
pub child_event_tells :
    (c : ZkClient) (w : WatchContext) (type : EventType) (rc rc1 : Rc) (strings : List Bytes)
    (r : Watched ChildCall ChildFetch) (us : List ChildCall)
    → is_should_notify_child_watch w.path c ≡ true
    → get_children_watcher type w rc c ≡ some r
    → finish_child_fetch r.fetch rc1 strings c ≡ some us
    → (length (r.told ++ us) ≡ one (is_told type)) × All (IsChildCallOf w) (r.told ++ us)
unfolding get_children_watcher
child_event_tells c w child_event zok rc1 strings r us n e g =
    Tells-later c w rc1 strings r us n (ground arith) (ground arith) g
child_event_tells c w child_event _ rc1 strings r us n e g =
    Tells-now c w rc1 strings r us
      (Tells-one (child_failure w get_child_list_failed) (ground (arith, n, e)) (refl, refl, refl))
      (ground arith) g
child_event_tells c w notwatching_event rc rc1 strings r us n e g =
    Tells-now c w rc1 strings r us
      (Tells-one (child_failure w type_error) (ground (arith, n, e)) (refl, refl, refl))
      (ground arith) g
child_event_tells c w deleted_event rc rc1 strings r us n e g =
    Tells-now c w rc1 strings r us (Tells-none w (ground arith)) (ground arith) g
child_event_tells c w session_event rc rc1 strings r us n e g =
    Tells-now c w rc1 strings r us (Tells-none w (ground arith)) (ground arith) g
child_event_tells c w _ rc rc1 strings r us n e g = absurd (cc e)
