-- ===== src/Barrier/World.antt =====
-- The objects of one barrier and the servers, step by step: each step is one call of an object on the
-- servers, the end of a wait, a callback, or what the rest of the world does. A thread waits on an
-- object, and others may count down on it meanwhile.
use zookeeper_cpp_client.Common.{
  ℕ, suc, Bool, true, false, List, Option, none, some, ℤ, ◌==◌, if◌then◌else◌,
}
use zookeeper_cpp_client.Common.Steps.{follow}
use zookeeper_cpp_client.Codes.{Bytes, ZkErrorCode, zk_succeed}
use zookeeper_cpp_client.Sync.{get_children}
use zookeeper_cpp_client.Servers.{Servers, session}
use zookeeper_cpp_client.Barrier.{
  DistriBarrier, new_distri_barrier, parent_path, has_enough, reg_child_watcher_cb, init,
  create_child, countdown, destroy,
}

-- Where the thread of an object is: outside wait, before getChildren in its loop, between too short a
-- list and the condition variable, there, or behind a wait that returned true.
pub data Phase : Type 0 where
  outside looking short asleep through : Phase

pub record Party : Type 0 where
  pub barrier : DistriBarrier
  pub phase : Phase

pub data Action : Type 0 where
  -- setLogConf, the handle, regChildWatcher, the digits of the number, the string and the number
  inits : ℕ → Bool → ℕ → Bool → Bytes → Bytes → ℤ → Action
  -- wait begins
  waits : ℕ → Action
  looks : ℕ → Action
  sleeps : ℕ → Action
  -- the callback of the object, with the path and the names that it is given
  notified : ℕ → Bytes → List Bytes → Action
  -- a spurious wake-up
  wakes : ℕ → Action
  counts : ℕ → Action
  destroys : ℕ → Action
  -- the rest of the world
  passes : ℕ → Action

-- `sent` counts the calls of countdown whose session was connected, `made` those whose createChild
-- returned kZKSucceed.
pub record World (s : Servers) : Type 0 where
  pub env : s.Env
  pub party : ℕ → Party
  pub sent : ℕ
  pub made : ℕ

-- The loop of wait behind getChildren.
abbrev pub after_children : DistriBarrier → ZkErrorCode × List Bytes → Phase
after_children b (zk_succeed, names) = if has_enough b names then through else short
after_children b (_, names) = outside

abbrev pub is_success : ZkErrorCode → Bool
is_success zk_succeed = true
is_success _ = false

abbrev pub entered : Bool → Phase
entered true = looking
entered false = outside

-- notifyAll wakes the thread if it waits.
abbrev pub notify : Bool → Phase → Phase
notify true asleep = looking
notify _ f = f

abbrev pub is_looking : Phase → Bool
is_looking looking = true
is_looking _ = false

abbrev pub is_outside : Phase → Bool
is_outside outside = true
is_outside through = true
is_outside _ = false

abbrev pub is_short : Phase → Bool
is_short short = true
is_short _ = false

abbrev pub is_asleep : Phase → Bool
is_asleep asleep = true
is_asleep _ = false

-- What the phases allow.
abbrev pub allows : Action → (ℕ → Phase) → Bool
allows (waits p) phase = is_outside (phase p)
allows (looks p) phase = is_looking (phase p)
allows (sleeps p) phase = is_short (phase p)
allows (wakes p) phase = is_asleep (phase p)
allows (destroys p) phase = is_outside (phase p)
allows _ phase = true

module _ (s : Servers) where
  abbrev pub new_world : s.Env → World s
  new_world e = record {
    env = e;
    party = λ p. record { barrier = new_distri_barrier; phase = outside };
    sent = 0;
    made = 0;
  }

  abbrev pub with_party : ℕ → DistriBarrier → Phase → World s → World s
  with_party p b f w = record w {
    party = λ q. if p == q then record { barrier = b; phase = f } else w.party q;
  }

  abbrev pub told : ℕ → Option Bool → World s → Option (World s)
  told p none w = none
  told p (some b) w = some (with_party p (w.party p).barrier (notify b (w.party p).phase) w)

  -- On the fuel of deleteRecursive; `none` is an assertion that fails.
  abbrev pub perform : ℕ → Action → World s → Option (World s)
  perform f (inits p log handle watched value conn num) w =
      let ((_, b), e) = init s p log handle watched value conn num (w.party p).barrier w.env in
      some (with_party p b (w.party p).phase (record w { env = e }))
  perform f (waits p) w = let b = (w.party p).barrier in some (with_party p b (entered b.is_init) w)
  perform f (looks p) w =
      let b = (w.party p).barrier in
      let (r, e) = get_children (session s p) parent_path w.env in
      some (with_party p b (after_children b r) (record w { env = e }))
  perform f (sleeps p) w = some (with_party p (w.party p).barrier asleep w)
  perform f (notified p path names) w =
      told p (reg_child_watcher_cb path names (w.party p).barrier) w
  perform f (wakes p) w = some (with_party p (w.party p).barrier looking w)
  perform f (counts p) w =
      let ((_, b), e) = countdown s p (w.party p).barrier w.env in
      some (
        with_party p b (w.party p).phase (record w {
          env = e;
          sent = if s.is_connected p w.env then suc w.sent else w.sent;
          made = if is_success (create_child s p w.env).0.0 then suc w.made else w.made;
        }))
  perform f (destroys p) w =
      let (b, e) = destroy s p f (w.party p).barrier w.env in
      some (with_party p b outside (record w { env = e }))
  perform f (passes n) w = some (record w { env = s.passes n w.env })

  abbrev pub step : ℕ → Action → World s → Option (World s)
  step f a w = if allows a (λ p. (w.party p).phase) then perform f a w else none

  unfoldable pub run : ℕ → List Action → World s → Option (World s)
  unfolding follow init countdown destroy get_children reg_child_watcher_cb has_enough
      new_distri_barrier
  run f acts w = follow (step f) acts w
