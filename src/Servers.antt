-- ===== src/Servers.antt =====
-- Several sessions on the same ZooKeeper servers, for the programs under example, whose clients meet
-- there: the calls of the C library, a parameter as in Zoo, by the number of the session. `Env`
-- holds the servers and the connections. `IsOwning` states what the documentation of zookeeper.h says
-- of ephemeral nodes: each belongs to the session that created it.
pub mod Owning
use zookeeper_cpp_client.Common.{ℕ, ◌≡◌, Bool, true, false, List, Option, none, some, ℤ}
use zookeeper_cpp_client.Codes.{Bytes, Rc, zok, znonode}
use zookeeper_cpp_client.Zoo.{Flags, Zoo}

pub record Servers : Type 1 where
  pub Env : Type 0
  pub is_connected : ℕ → Env → Bool
  pub zoo_get : ℕ → Bytes → ℕ → Env → (Rc × Option Bytes × ℤ) × Env
  pub zoo_get_children : ℕ → Bytes → Env → (Rc × List Bytes) × Env
  pub zoo_exists : ℕ → Bytes → Env → Rc × Env
  pub zoo_create : ℕ → Bytes → Option Bytes → Flags → ℕ → Env → (Rc × Bytes) × Env
  pub zoo_set : ℕ → Bytes → Bytes → ℤ → Env → Rc × Env
  pub zoo_delete : ℕ → Bytes → ℤ → Env → Rc × Env
  -- What the rest of the world does between two calls: a choice, by its number.
  pub passes : ℕ → Env → Env

-- The calls of one session.
abbrev pub session : Servers → ℕ → Zoo
session s p = record {
  Env = s.Env;
  is_connected = s.is_connected p;
  zoo_get = s.zoo_get p;
  zoo_get_children = s.zoo_get_children p;
  zoo_exists = s.zoo_exists p;
  zoo_create = s.zoo_create p;
  zoo_set = s.zoo_set p;
  zoo_delete = s.zoo_delete p;
}

abbrev pub ephemeral_node : Flags
ephemeral_node = record { ephemeral = true; sequence = false }

-- The session that an ephemeral node belongs to. Nobody but the programs at hand deletes such a node,
-- and no session expires, while the world passes.
pub record IsOwning (s : Servers) : Type 1 where
  pub owner : s.Env → Bytes → Option ℕ
  -- ZOK: there was no such node, and now it is this session's.
  pub create_new :
      (p : ℕ) (path : Bytes) (v : Option Bytes) (n : ℕ) (e : s.Env)
      → (s.zoo_create p path v ephemeral_node n e).0.0 ≡ zok
      → owner e path ≡ none
  pub create_own :
      (p : ℕ) (path : Bytes) (v : Option Bytes) (n : ℕ) (e : s.Env)
      → (s.zoo_create p path v ephemeral_node n e).0.0 ≡ zok
      → owner (s.zoo_create p path v ephemeral_node n e).1 path ≡ some p
  -- Whatever it returns, zoo_create takes no node away.
  pub create_keeps :
      (p : ℕ) (path : Bytes) (v : Option Bytes) (fl : Flags) (n : ℕ) (e : s.Env) (q : Bytes) (r : ℕ)
      → owner e q ≡ some r
      → owner (s.zoo_create p path v fl n e).1 q ≡ some r
  pub passes_keeps :
      (n : ℕ) (e : s.Env) (q : Bytes) (r : ℕ) → owner e q ≡ some r → owner (s.passes n e) q ≡ some r
  pub children_same :
      (p : ℕ) (path : Bytes) (e : s.Env) (q : Bytes)
      → owner (s.zoo_get_children p path e).1 q ≡ owner e q
  -- ZNONODE: no such node. ZOK of zoo_delete: it is gone.
  pub children_znonode :
      (p : ℕ) (path : Bytes) (e : s.Env)
      → (s.zoo_get_children p path e).0.0 ≡ znonode
      → owner e path ≡ none
  pub delete_gone :
      (p : ℕ) (path : Bytes) (v : ℤ) (e : s.Env)
      → (s.zoo_delete p path v e).0 ≡ zok
      → owner (s.zoo_delete p path v e).1 path ≡ none
