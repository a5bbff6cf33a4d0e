-- ===== src/SharedLock/Awaited.antt =====
-- What a thread in the wait of rlock or wlock waits for, and what wakes it.
use zookeeper_cpp_client.Common.{
  ℕ, ◌≡◌, refl, sym, subst, Bool, true, false, List, [], ◌∷◌, Option, none, some, arith, ◌==◌,
  if◌then◌else◌, if_cases, inl, inr,
}
use zookeeper_cpp_client.Common.Std.{bytes_beq_iff}
use zookeeper_cpp_client.Codes.{Bytes, node_delete}
use zookeeper_cpp_client.Zoo.Path.{child}
use zookeeper_cpp_client.SharedLock.{
  DistriSharedLock, parent_path, blocks, least_node, waits_for, unlock, awaited, reg_watcher_cb,
}
use zookeeper_cpp_client.SharedLock.Scan.{least_node_lem}
use zookeeper_cpp_client.SharedLock.World.{
  Phase, entered, blocked, waiting, Worker, World, Action, notified, with_phase, same_kind, looked,
  unlocked, act, actor, next, run, new_world,
}
use zookeeper_cpp_client.SharedLock.Cases.{step_cases}

-- The awaited path is that of a node that blocks the thread's own.
abbrev IsBlocker : DistriSharedLock → Bool → Bytes → Type 0
IsBlocker l r path = (c : Bytes) × (awaited r l ≡ child parent_path c) × (blocks r path c ≡ true)

abbrev Awaits : DistriSharedLock → Phase → Type 0
Awaits l (blocked r path) = IsBlocker l r path
Awaits l (waiting r path) = IsBlocker l r path
Awaits l _ = Unit

abbrev IsAwaiting : World → Type 0
IsAwaiting w = (p : ℕ) → Awaits (w.worker p).lock (w.worker p).phase

abbrev KeepsAwaiting : Option World → Type 0
KeepsAwaiting none = Unit
KeepsAwaiting (some w) = IsAwaiting w

moved-Awaits :
    (p q : ℕ) (k : Worker) (worker : ℕ → Worker)
    → ((s : ℕ) → Awaits (worker s).lock (worker s).phase)
    → Awaits k.lock k.phase
    → let x = if p == q then k else worker q in Awaits x.lock x.phase
moved-Awaits p q k worker v a =
    if_cases (λ (x : Worker). Awaits x.lock x.phase) (p == q) k (worker q) a (v q)

awaited-waits_for :
    (r : Bool) (c : Bytes) (l : DistriSharedLock)
    → awaited r (waits_for r c l) ≡ child parent_path c
awaited-waits_for true c l = refl
awaited-waits_for false c l = refl

looked-IsAwaiting :
    (p : ℕ) (r : Bool) (path : Bytes) (w : World)
    → IsAwaiting w
    → IsAwaiting (looked p r path (least_node r path w.children) w)
looked-IsAwaiting p r path w v = elim (least_node_lem r path w.children) [
  | inl (none_before, _) ↦
      subst (λ o. IsAwaiting (looked p r path o w)) (sym none_before)
        (λ q. moved-Awaits p q _ w.worker v tt)
  | inr (c, found, b, _) ↦
      subst (λ o. IsAwaiting (looked p r path o w)) (sym found)
        (λ q. moved-Awaits p q _ w.worker v (c, awaited-waits_for r c (w.worker p).lock, b))
]

unlocked-KeepsAwaiting :
    (p : ℕ) (deleted : Bool) (o : Option (Option Bytes × DistriSharedLock)) (w : World)
    → IsAwaiting w
    → KeepsAwaiting (unlocked p deleted o w)
unlocked-KeepsAwaiting p deleted none w v = tt
unlocked-KeepsAwaiting p deleted (some (none, l)) w v = λ q. moved-Awaits p q _ w.worker v tt
unlocked-KeepsAwaiting p deleted (some (some path, l)) w v = λ q. moved-Awaits p q _ w.worker v tt

same_kind_self : (r : Bool) → same_kind r r ≡ true
same_kind_self true = refl
same_kind_self false = refl

reg_watcher_cb_deleted :
    (r : Bool) (path : Bytes) (l : DistriSharedLock)
    → awaited r l ≡ path
    → reg_watcher_cb r node_delete path l ≡ true
unfolding reg_watcher_cb
reg_watcher_cb_deleted r path l e = ground (arith, (bytes_beq_iff path (awaited r l)).1 (sym e))

module _ (suffix : ℕ → Bytes) where
  act-KeepsAwaiting : (a : Action) (w : World) → IsAwaiting w → KeepsAwaiting (act suffix a w)
  act-KeepsAwaiting a w v =
      step_cases suffix KeepsAwaiting a (w.worker (actor a)).phase w
        (record {
          stuck = tt;
          creating = λ p r e l q. moved-Awaits p q _ w.worker v tt;
          looking = λ p r path e. looked-IsAwaiting p r path w v;
          registering = λ p r path e q.
              moved-Awaits p q _ w.worker v (subst (Awaits (w.worker p).lock) e (v p));
          waking = λ p r path e q. moved-Awaits p q _ w.worker v tt;
          unchanged = v;
          leaving = λ p r path e q. moved-Awaits p q _ w.worker v tt;
          unlocking = λ p d r path e. unlocked-KeepsAwaiting p d (unlock (w.worker p).lock) w v;
        })
        refl

  then-KeepsAwaiting :
      (o : Option World) (f : World → Option World)
      → KeepsAwaiting o
      → ((x : World) → IsAwaiting x → KeepsAwaiting (f x))
      → KeepsAwaiting (next o f)
  then-KeepsAwaiting none f k g = tt
  then-KeepsAwaiting (some x) f k g = g x k

  run-KeepsAwaiting :
      (acts : List Action) (w : World) → IsAwaiting w → KeepsAwaiting (run suffix acts w)
  unfolding run
  run-KeepsAwaiting [] w v = v
  run-KeepsAwaiting (a ∷ acts) w v =
      then-KeepsAwaiting (act suffix a w) (λ x. run suffix acts x) (act-KeepsAwaiting a w v)
        (λ x k. run-KeepsAwaiting acts x k)

  -- Over every course of steps of any number of lock objects: a thread in the wait waits for a node
  -- that blocked its own, and the callback that tells that this node is deleted wakes it, so that it
  -- reads the children again.
  pub awaited_node_wakes :
      (names : ℕ → Bytes) (acts : List Action) (w : World) (p : ℕ) (r : Bool) (path : Bytes)
      → run suffix acts (new_world names) ≡ some w
      → (w.worker p).phase ≡ waiting r path
      → (c : Bytes) × (blocks r path c ≡ true)
        × (act suffix (notified p r node_delete (child parent_path c)) w
            ≡ some (with_phase p (entered r path) w))
  unfolding new_world
  awaited_node_wakes names acts w p r path e x =
      let v = subst KeepsAwaiting e (run-KeepsAwaiting acts (new_world names) (λ q. tt)) in
      let (c, a, b) = subst (Awaits (w.worker p).lock) x (v p) in
      let notifies = reg_watcher_cb_deleted r (child parent_path c) (w.worker p).lock a in
      (c, b, rw (x, same_kind_self r, notifies) refl)
