-- ===== src/Lock/World.antt =====
-- The objects of one lock and the servers, step by step: each step is one call of an object on the
-- servers, the end of a wait, a callback, or what the rest of the world does. No session expires,
-- and only a holder unlocks.
use zookeeper_cpp_client.Common.{
  ℕ, Bool, true, false, List, Option, none, some, ◌==◌, if◌then◌else◌,
}
use zookeeper_cpp_client.Common.Steps.{follow}
use zookeeper_cpp_client.Codes.{Bytes, ZkErrorCode, zk_succeed, zk_existed}
use zookeeper_cpp_client.Servers.{Servers}
use zookeeper_cpp_client.Lock.{DistriLock, reg_child_watcher_cb, create_child, unlock}

-- Where the thread of an object is: outside, before createChild in the loop of lock, between
-- kZKExisted and the wait, in the wait, or between lock and unlock.
pub data Phase : Type 0 where
  idle trying refused waiting holding : Phase

pub record Worker : Type 0 where
  pub lock : DistriLock
  pub phase : Phase

pub data Action : Type 0 where
  -- lock begins
  locks : ℕ → Action
  creates : ℕ → Action
  waits : ℕ → Action
  -- the callback of the object, with the path and the names that it is given
  notified : ℕ → Bytes → List Bytes → Action
  -- a spurious wake-up
  wakes : ℕ → Action
  unlocks : ℕ → Action
  -- the rest of the world
  passes : ℕ → Action

pub record World (s : Servers) : Type 0 where
  pub env : s.Env
  pub worker : ℕ → Worker

-- The loop of lock behind createChild.
abbrev pub after_create : ZkErrorCode → Phase
after_create zk_succeed = holding
after_create zk_existed = refused
after_create _ = idle

abbrev pub locked : Bool → Phase
locked true = trying
locked false = idle

-- notifyAll wakes the thread if it waits.
abbrev pub notify : Bool → Phase → Phase
notify true waiting = trying
notify _ f = f

abbrev pub is_idle : Phase → Bool
is_idle idle = true
is_idle _ = false

abbrev pub is_trying : Phase → Bool
is_trying trying = true
is_trying _ = false

abbrev pub is_refused : Phase → Bool
is_refused refused = true
is_refused _ = false

abbrev pub is_waiting : Phase → Bool
is_waiting waiting = true
is_waiting _ = false

abbrev pub is_holding : Phase → Bool
is_holding holding = true
is_holding _ = false

-- What the phases allow.
abbrev pub allows : Action → (ℕ → Phase) → Bool
allows (locks p) phase = is_idle (phase p)
allows (creates p) phase = is_trying (phase p)
allows (waits p) phase = is_refused (phase p)
allows (notified p path names) phase = true
allows (wakes p) phase = is_waiting (phase p)
allows (unlocks p) phase = is_holding (phase p)
allows (passes n) phase = true

module _ (s : Servers) where
  -- All threads are outside.
  abbrev pub start : s.Env → (ℕ → DistriLock) → World s
  start e objects = record { env = e; worker = λ p. record { lock = objects p; phase = idle } }

  abbrev pub with_phase : ℕ → Phase → World s → World s
  with_phase p f w = record w {
    worker = λ q. if p == q then record { lock = (w.worker p).lock; phase = f } else w.worker q;
  }

  abbrev pub told : ℕ → Option Bool → World s → Option (World s)
  told p none w = none
  told p (some b) w = some (with_phase p (notify b (w.worker p).phase) w)

  abbrev pub created : ℕ → World s → World s
  created p w =
      let (ec, e) = create_child s p (w.worker p).lock w.env in
      with_phase p (after_create ec) (record w { env = e })

  abbrev pub unlocked : ℕ → Option Bool × s.Env → World s → Option (World s)
  unlocked p (none, e) w = none
  unlocked p (some b, e) w = some (with_phase p idle (record w { env = e }))

  -- On the fuel of deleteRecursive; `none` is an assertion that fails, or fuel that is used up.
  abbrev pub perform : ℕ → Action → World s → Option (World s)
  perform f (locks p) w = some (with_phase p (locked (w.worker p).lock.is_init) w)
  perform f (creates p) w = some (created p w)
  perform f (waits p) w = some (with_phase p waiting w)
  perform f (notified p path names) w = told p (reg_child_watcher_cb path names (w.worker p).lock) w
  perform f (wakes p) w = some (with_phase p trying w)
  perform f (unlocks p) w = unlocked p (unlock s p f (w.worker p).lock w.env) w
  perform f (passes n) w = some (record w { env = s.passes n w.env })

  abbrev pub step : ℕ → Action → World s → Option (World s)
  step f a w = if allows a (λ p. (w.worker p).phase) then perform f a w else none

  unfoldable pub run : ℕ → List Action → World s → Option (World s)
  unfolding create_child unlock reg_child_watcher_cb follow
  run f acts w = follow (step f) acts w
