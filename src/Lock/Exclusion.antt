-- ===== src/Lock/Exclusion.antt =====
-- What the exclusive lock promises, and what breaks the promise.
use zookeeper_cpp_client.Common.{ℕ, ◌≡◌, ◌≢◌, subst, sym, List, none, some, negsuc}
use zookeeper_cpp_client.Common.Steps.{Leads}
use zookeeper_cpp_client.Codes.{Bytes, zk_succeed}
use zookeeper_cpp_client.Zoo.Path.{child}
use zookeeper_cpp_client.Sync.{delete_recursive}
use zookeeper_cpp_client.Servers.{Servers, session, IsOwning}
use zookeeper_cpp_client.Servers.Owning.{delete_recursive_gone}
use zookeeper_cpp_client.Lock.{DistriLock, parent_path, destroy}
use zookeeper_cpp_client.Lock.World.{holding, World, Action, start, run}
use zookeeper_cpp_client.Lock.Valid.{IsValid, excluded, run-IsValid}

module _ (s : Servers) (o : IsOwning s) (name : Bytes) (objects : ℕ → DistriLock) (e0 : s.Env) where
  start-IsValid :
      ((p : ℕ) → (objects p).child_node_name ≡ name) → IsValid s o name (start s e0 objects)
  start-IsValid n = record { named = n; owned = λ p h. cc h }

  pub course-IsValid :
      (f : ℕ) (acts : List Action) (w : World s)
      → ((p : ℕ) → (objects p).child_node_name ≡ name)
      → run s f acts (start s e0 objects) ≡ some w
      → IsValid s o name w
  course-IsValid f acts w n e =
      subst (Leads (IsValid s o name)) e
        (run-IsValid s o name f acts (start s e0 objects) (start-IsValid n))

  -- On servers with `IsOwning`, over every course of steps of any number of objects of one lock, while no
  -- session expires and only holders unlock: when a thread holds the lock, the node of the lock belongs to its session, and no
  -- other thread holds the lock. Failing calls, lost answers, callbacks with any list of children
  -- and spurious wake-ups are among the steps.
  pub lock_excludes :
      (f : ℕ) (acts : List Action) (w : World s) (p q : ℕ)
      → ((p : ℕ) → (objects p).child_node_name ≡ name)
      → run s f acts (start s e0 objects) ≡ some w
      → (w.worker p).phase ≡ holding
      → p ≢ q
      → (o.owner w.env (child parent_path name) ≡ some p) × ((w.worker q).phase ≢ holding)
  lock_excludes f acts w p q n e h d =
      let v = course-IsValid f acts w n e in (v.owned p h, excluded s o name w p q v h d)

  -- On servers with `IsOwning`, the destructor deletes the node of the lock whoever has it: where it reaches the servers in an
  -- object whose thread does not hold the lock, the thread that holds it goes on without a node, and
  -- the next createChild is not refused for it.
  pub destroy_of_another :
      (f : ℕ) (acts : List Action) (w : World s) (p q : ℕ)
      → ((p : ℕ) → (objects p).child_node_name ≡ name)
      → run s f acts (start s e0 objects) ≡ some w
      → (w.worker p).phase ≡ holding
      → p ≢ q
      → (delete_recursive (session s q) f (child parent_path name) (negsuc 0) w.env).0
        ≡ some zk_succeed
      → let e1 = (destroy s q f (w.worker q).lock w.env).1 in
        (o.owner w.env (child parent_path name) ≡ some p)
        × (o.owner e1 (child parent_path name) ≡ none)
        × ((w.worker q).phase ≢ holding)
  unfolding destroy
  destroy_of_another f acts w p q n e h d g =
      let v = course-IsValid f acts w n e in
      (
        v.owned p h,
        subst
            (λ x.
              o.owner (delete_recursive (session s q) f (child parent_path x) (negsuc 0) w.env).1
                (child parent_path name)
              ≡ none)
            (sym (v.named q))
            (delete_recursive_gone s o q f (child parent_path name) (negsuc 0) w.env g),
        excluded s o name w p q v h d,
      )
