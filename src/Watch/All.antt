-- ===== src/Watch/All.antt =====
-- regAllWatcher of src/ZkClient.cc, whose call in retry is commented out: every watch of a client is
-- registered again. The return codes of the library are functions of the paths.
use zookeeper_cpp_client.Common.{
  ◌≡◌, refl, false, List, [], ◌∷◌, ◌++◌, Option, none, some, arith, map, All, All-append,
}
use zookeeper_cpp_client.Codes.{Bytes, Rc}
use zookeeper_cpp_client.Client.{
  ZkClient, is_connected, get_node_watch_paths, get_child_watch_paths,
}
use zookeeper_cpp_client.Task.{Action}
use zookeeper_cpp_client.Watch.{WatchContext, Registered, auto_reg_node_watcher, not_registered}
use zookeeper_cpp_client.Watch.Child.{auto_reg_child_watcher}

-- The registrations of some paths, one behind the other, and what they ask for.
abbrev pub reg_each :
    (Bytes → ZkClient → Registered × List Action)
    → List Bytes
    → ZkClient
    → List (Option WatchContext) × List Action × ZkClient
reg_each reg [] c = ([], [], c)
reg_each reg (path ∷ paths) c =
    let (r, acts) = reg path c in
    let (ws, more, c1) = reg_each reg paths r.client in (r.watcher ∷ ws, acts ++ more, c1)

abbrev pub reg_all :
    (Bytes → Rc) → (Bytes → Rc) → ZkClient → List (Option WatchContext) × List Action × ZkClient
reg_all node_rc child_rc c =
    let node_watch_paths = get_node_watch_paths c in
    let child_watch_paths = get_child_watch_paths c in
    let (ws, acts, c1) =
      reg_each (λ p d. auto_reg_node_watcher p (node_rc p) d) node_watch_paths c in
    let (xs, more, c2) =
      reg_each (λ p d. auto_reg_child_watcher p (child_rc p) d) child_watch_paths c1 in
    (ws ++ xs, acts ++ more, c2)

-- The client that getZkClient finds, if it does.
unfoldable pub reg_all_watcher :
    (Bytes → Rc)
    → (Bytes → Rc)
    → Option ZkClient
    → Option (List (Option WatchContext) × List Action × ZkClient)
unfolding auto_reg_node_watcher auto_reg_child_watcher get_node_watch_paths get_child_watch_paths
reg_all_watcher node_rc child_rc none = none
reg_all_watcher node_rc child_rc (some c) = some (reg_all node_rc child_rc c)

reg_each_quiet :
    (reg : Bytes → ZkClient → Registered × List Action) (paths : List Bytes) (c : ZkClient)
    → ((p : Bytes) → reg p c ≡ (not_registered c, []))
    → reg_each reg paths c ≡ (map (λ _. none) paths, [], c)
reg_each_quiet reg [] c h = refl
reg_each_quiet reg (p ∷ paths) c h = rw (h p, reg_each_quiet reg paths c h) refl

-- While the session is not connected, regAllWatcher sets no watcher and no timer for a later try, and
-- leaves the client as it is.
reg_all_watcher_quiet :
    (node_rc child_rc : Bytes → Rc) (c : ZkClient)
    → is_connected c ≡ false
    → (ws : List (Option WatchContext)) × (reg_all_watcher node_rc child_rc (some c)
        ≡ some (ws, [], c))
      × All (λ w. w ≡ none) ws
unfolding reg_all_watcher auto_reg_node_watcher auto_reg_child_watcher
reg_all_watcher_quiet node_rc child_rc c h =
    let ps = get_node_watch_paths c in
    let qs = get_child_watch_paths c in
    let nodes =
      reg_each_quiet (λ p d. auto_reg_node_watcher p (node_rc p) d) ps c (λ p. ground (arith, h)) in
    let children =
      reg_each_quiet (λ p d. auto_reg_child_watcher p (child_rc p) d) qs c
        (λ p. ground (arith, h)) in
    (
      map (λ _. none) ps ++ map (λ _. none) qs,
      rw (nodes, children) refl,
      All-append (λ w. w ≡ none) (map (λ _. none) ps) (map (λ _. none) qs) (all_none ps)
          (all_none qs),
    )
  where
    all_none :
        (ps : List Bytes) → All {A = Option WatchContext} (λ w. w ≡ none) (map (λ _. none) ps)
    all_none [] = tt
    all_none (p ∷ ps) = (refl, all_none ps)
