-- ===== src/SharedLock/World.antt =====
-- Several lock objects and the servers, step by step: each step is one call of an object on the
-- servers, a callback, or the end of a wait. Sessions do not expire, and only a holder calls unlock.
use zookeeper_cpp_client.Common.{
  ℕ, suc, ◌^◌, Bool, List, [], ◌∷◌, ◌++◌, Option, none, some, ltb, true, false, not, ◌&&◌, ◌==◌,
  if◌then◌else◌,
}
use zookeeper_cpp_client.Common.Std.{bytes_beq}
use zookeeper_cpp_client.Codes.{Bytes, ZkNotifyType}
use zookeeper_cpp_client.Zoo.Path.{child}
use zookeeper_cpp_client.SharedLock.{
  DistriSharedLock, ready_lock, parent_path, child_path, least_node, got, waits_for, unlock,
  reg_watcher_cb,
}
use zookeeper_cpp_client.SharedLock.Names.{mark}

-- Where the thread of an object is: outside, before getChildren, before regNodeWatcher, in the wait,
-- or between rlock or wlock and unlock. The path is that of its own node.
pub data Phase : Type 0 where
  idle : Phase
  entered : Bool → Bytes → Phase
  blocked : Bool → Bytes → Phase
  waiting : Bool → Bytes → Phase
  holding : Bool → Bytes → Phase

pub record Worker : Type 0 where
  pub lock : DistriSharedLock
  pub phase : Phase

-- The children of the parent node, and the number that the next sequence node gets.
pub record World : Type 0 where
  pub counter : ℕ
  pub children : List Bytes
  pub worker : ℕ → Worker

pub data Action : Type 0 where
  -- createChild of rlock (true) or wlock
  creates : ℕ → Bool → Action
  -- getChildren and the loop
  looks : ℕ → Action
  registers : ℕ → Action
  -- regWatcherRLock_cb (true) or regWatcherWLock_cb, with the type and the path that it is given
  notified : ℕ → Bool → ZkNotifyType → Bytes → Action
  -- a spurious wake-up
  wakes : ℕ → Action
  -- a call of the client fails, and rlock or wlock returns false
  gives_up : ℕ → Action
  -- unlock, and whether the servers delete the node
  unlocks : ℕ → Bool → Action

-- ZooKeeper's sequence numbers are int32_t.
abbrev pub max_counter : ℕ
max_counter = 2 ^ 31

abbrev pub with_worker : ℕ → Worker → World → World
with_worker p k w = record w { worker = λ q. if p == q then k else w.worker q }

-- What is left when the node of a path is deleted.
abbrev pub without : Bytes → List Bytes → List Bytes
without path [] = []
without path (c ∷ cs) =
    let rest = without path cs in if bytes_beq (child parent_path c) path then rest else c ∷ rest

abbrev pub looked : ℕ → Bool → Bytes → Option Bytes → World → World
looked p r path none w =
    with_worker p (record { lock = got r path (w.worker p).lock; phase = holding r path }) w
looked p r path (some c) w =
    with_worker p (record { lock = waits_for r c (w.worker p).lock; phase = blocked r path }) w

abbrev pub with_phase : ℕ → Phase → World → World
with_phase p f w = with_worker p (record { lock = (w.worker p).lock; phase = f }) w

-- notifyAll wakes the thread if it waits on the same condition variable.
abbrev pub same_kind : Bool → Bool → Bool
same_kind true r = r
same_kind false r = not r

abbrev pub told : ℕ → Bool → Bytes → Bool → World → World
told p r path b w = if b then with_phase p (entered r path) w else w

abbrev pub unlocked : ℕ → Bool → Option (Option Bytes × DistriSharedLock) → World → Option World
unlocked p deleted none w = none
unlocked p deleted (some (none, l)) w = some (with_worker p (record { lock = l; phase = idle }) w)
unlocked p deleted (some (some path, l)) w = some (
    with_worker p (record { lock = l; phase = idle })
      (record w { children = if deleted then without path w.children else w.children }))

-- The object of an action.
abbrev pub actor : Action → ℕ
actor (creates p r) = p
actor (looks p) = p
actor (registers p) = p
actor (notified p r type path) = p
actor (wakes p) = p
actor (gives_up p) = p
actor (unlocks p deleted) = p

abbrev pub next : Option World → (World → Option World) → Option World
next none f = none
next (some w) f = f w

-- The servers append the number in digits to the name of a new node.
module _ (suffix : ℕ → Bytes) where
  abbrev pub new_name : Bool → DistriSharedLock → ℕ → Bytes
  new_name r l n = (l.child_node_name ++ mark r) ++ suffix n

  abbrev pub created : ℕ → Bool → World → World
  created p r w =
      let l = (w.worker p).lock in
      with_worker p (record { lock = l; phase = entered r (child_path r l ++ suffix w.counter) })
        (record w { counter = suc w.counter; children = new_name r l w.counter ∷ w.children })

  -- `none` is a step that the phase does not allow, or an assertion that fails.
  abbrev pub step : Action → Phase → World → Option World
  step (creates p r) idle w = if ltb w.counter max_counter then some (created p r w) else none
  step (looks p) (entered r path) w = some (looked p r path (least_node r path w.children) w)
  step (registers p) (blocked r path) w = some (with_phase p (waiting r path) w)
  step (notified p s type deleted) (waiting r path) w =
      some (told p r path (same_kind s r && reg_watcher_cb s type deleted (w.worker p).lock) w)
  step (notified p s type deleted) _ w = some w
  step (wakes p) (waiting r path) w = some (with_phase p (entered r path) w)
  step (gives_up p) (entered r path) w = some (with_phase p idle w)
  step (gives_up p) (blocked r path) w = some (with_phase p idle w)
  step (unlocks p deleted) (holding r path) w = unlocked p deleted (unlock (w.worker p).lock) w
  step _ _ w = none

  abbrev pub act : Action → World → Option World
  act a w = step a (w.worker (actor a)).phase w

  unfoldable pub run : List Action → World → Option World
  unfolding least_node unlock reg_watcher_cb
  run [] w = some w
  run (a ∷ acts) w = next (act a w) (λ x. run acts x)

-- No node and no holder; each object has its name.
unfoldable pub new_world : (ℕ → Bytes) → World
unfolding ready_lock
new_world names = record {
  counter = 0;
  children = [];
  worker = λ p. record { lock = ready_lock (names p); phase = idle };
}
