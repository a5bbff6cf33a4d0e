-- ===== src/Election/World.antt =====
-- The objects of one election and the servers, step by step: each step is one call of an object, a
-- callback, or what the rest of the world does. No session expires, and only a master is destroyed.
use zookeeper_cpp_client.Common.{ℕ, Bool, List, Option, none, some, ◌==◌, if◌then◌else◌}
use zookeeper_cpp_client.Common.Steps.{follow}
use zookeeper_cpp_client.Codes.{Bytes}
use zookeeper_cpp_client.Servers.{Servers}
use zookeeper_cpp_client.Election.{
  MasterElection, new_master_election, is_master, init, start, reg_child_watcher_cb, destroy,
}

pub data Action : Type 0 where
  -- setLogConf, the handle, the string, and whether there is a function
  inits : ℕ → Bool → ℕ → Bytes → Bool → Action
  -- and what regChildWatcher returns
  starts : ℕ → Bool → Action
  -- the callback of the object, with the path and the names that it is given
  notified : ℕ → Bytes → List Bytes → Action
  destroys : ℕ → Action
  -- the rest of the world
  passes : ℕ → Action

pub record World (s : Servers) : Type 0 where
  pub env : s.Env
  pub object : ℕ → MasterElection

module _ (s : Servers) where
  abbrev pub new_world : s.Env → World s
  new_world e = record { env = e; object = λ p. new_master_election }

  abbrev pub with_object : ℕ → MasterElection → s.Env → World s → World s
  with_object p m e w = record { env = e; object = λ q. if p == q then m else w.object q }

  abbrev pub told : ℕ → Option (MasterElection × s.Env) → World s → Option (World s)
  told p none w = none
  told p (some (m, e)) w = some (with_object p m e w)

  -- On the fuel of deleteRecursive; `none` is an assertion that fails.
  abbrev pub step : ℕ → Action → World s → Option (World s)
  step f (inits p log handle conn fun_set) w =
      let ((_, m), e) = init s p log handle conn fun_set (w.object p) w.env in
      some (with_object p m e w)
  step f (starts p watched) w =
      let ((_, m), e) = start s p watched (w.object p) w.env in some (with_object p m e w)
  step f (notified p path names) w =
      told p (reg_child_watcher_cb s p path names (w.object p) w.env) w
  step f (destroys p) w =
      let (m, e) = destroy s p f (w.object p) w.env in
      if is_master (w.object p) then some (with_object p m e w) else none
  step f (passes n) w = some (record w { env = s.passes n w.env })

  unfoldable pub run : ℕ → List Action → World s → Option (World s)
  unfolding init start reg_child_watcher_cb destroy follow new_master_election
  run f acts w = follow (step f) acts w
