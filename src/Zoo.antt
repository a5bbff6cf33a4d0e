-- ===== src/Zoo.antt =====
-- The synchronous calls of the ZooKeeper C library, which is not part of the repository: a
-- parameter of the model. `Env` is all that a call depends on and may change, the servers, the
-- connection and the other clients included; the session state that `isConnected` reads belongs
-- to it, since the library's thread writes it between any two calls.
-- `IsTree` states what the documentation of zookeeper.h says of the nodes, for a time in which no
-- other client writes; `IsReliable` that no call fails for reasons of its own.
pub mod Path
use zookeeper_cpp_client.Common.{
  ℕ, ◌≡◌, ◌≢◌, ◌⊎◌, Bool, true, false, List, ◌++◌, ◌∷◌, Option, none, some, ℤ, take, negsuc, All,
}
use zookeeper_cpp_client.Codes.{Bytes, Rc, zok, znonode, znodeexists, znotempty}
use Path.{slash, rfind, Any, IsUnder, child}

-- A computation over a state.
abbrev pub St : Type 0 → Type 0 → Type 0
St S A = S → A × S

abbrev pub pure : {S A : Type 0} → A → St S A
pure a s = (a, s)

infixl 5 ◌>>=◌
abbrev pub ◌>>=◌ : {S A B : Type 0} → St S A → (A → St S B) → St S B
◌>>=◌ m f s = let (a, s1) = m s in f a s1

-- ZOO_EPHEMERAL and ZOO_SEQUENCE
pub record Flags : Type 0 where
  pub ephemeral : Bool
  pub sequence : Bool

pub record Zoo : Type 1 where
  pub Env : Type 0
  pub is_connected : Env → Bool
  -- The value is `none` where the length comes back as -1. The number is the buffer's size.
  pub zoo_get : Bytes → ℕ → Env → (Rc × Option Bytes × ℤ) × Env
  pub zoo_get_children : Bytes → Env → (Rc × List Bytes) × Env
  pub zoo_exists : Bytes → Env → Rc × Env
  -- A null value is `none`. The bytes are what the buffer, of the given size, holds afterwards.
  pub zoo_create : Bytes → Option Bytes → Flags → ℕ → Env → (Rc × Bytes) × Env
  pub zoo_set : Bytes → Bytes → ℤ → Env → Rc × Env
  pub zoo_delete : Bytes → ℤ → Env → Rc × Env

-- The nodes as the documented return codes show them.
pub record IsTree (z : Zoo) : Type 1 where
  pub has : z.Env → Bytes → Bool
  -- What lies under a node lies under an existing one, and the root is always there.
  pub closed : (e : z.Env) (p r : Bytes) → has e (child p r) ≡ true → has e p ≡ true
  -- ZOK: the node of the returned path is there, which is the given one unless it is a sequence.
  pub create_zok :
      (p : Bytes) (v : Option Bytes) (fl : Flags) (n : ℕ) (e : z.Env)
      → (z.zoo_create p v fl n e).0.0 ≡ zok
      → has (z.zoo_create p v fl n e).1 (z.zoo_create p v fl n e).0.1 ≡ true
  pub create_plain :
      (p : Bytes) (v : Option Bytes) (fl : Flags) (n : ℕ) (e : z.Env)
      → fl.sequence ≡ false
      → (z.zoo_create p v fl n e).0.0 ≡ zok
      → (z.zoo_create p v fl n e).0.1 ≡ p
  -- ZNODEEXISTS: the node already exists.
  pub create_znodeexists :
      (p : Bytes) (v : Option Bytes) (fl : Flags) (n : ℕ) (e : z.Env)
      → (z.zoo_create p v fl n e).0.0 ≡ znodeexists
      → has (z.zoo_create p v fl n e).1 p ≡ true
  -- ZNONODE: the parent node does not exist.
  pub create_znonode :
      (p : Bytes) (v : Option Bytes) (fl : Flags) (n : ℕ) (e : z.Env)
      → (z.zoo_create p v fl n e).0.0 ≡ znonode
      → (i : ℕ) × (rfind slash p ≡ some i) × (has e (take i p) ≡ false)
  pub create_keeps :
      (p : Bytes) (v : Option Bytes) (fl : Flags) (n : ℕ) (e : z.Env) (q : Bytes)
      → has e q ≡ true
      → has (z.zoo_create p v fl n e).1 q ≡ true
  -- ZOK: the names of the children, every one of them. ZNONODE: the node does not exist.
  pub children_zok : (p : Bytes) (e : z.Env) → (z.zoo_get_children p e).0.0 ≡ zok → has e p ≡ true
  pub children_complete :
      (p q : Bytes) (e : z.Env)
      → (z.zoo_get_children p e).0.0 ≡ zok
      → has e q ≡ true
      → IsUnder p q
      → Any (λ n. (q ≡ child p n) ⊎ IsUnder (child p n) q) (z.zoo_get_children p e).0.1
  pub children_znonode :
      (p : Bytes) (e : z.Env) → (z.zoo_get_children p e).0.0 ≡ znonode → has e p ≡ false
  pub children_same : (p q : Bytes) (e : z.Env) → has (z.zoo_get_children p e).1 q ≡ has e q
  -- ZOK: the node is gone, and no other one. ZNONODE: it does not exist. ZNOTEMPTY: it has children.
  pub delete_zok :
      (p : Bytes) (v : ℤ) (e : z.Env)
      → (z.zoo_delete p v e).0 ≡ zok
      → has (z.zoo_delete p v e).1 p ≡ false
  pub delete_znonode :
      (p : Bytes) (v : ℤ) (e : z.Env) → (z.zoo_delete p v e).0 ≡ znonode → has e p ≡ false
  pub delete_znotempty :
      (p : Bytes) (v : ℤ) (e : z.Env)
      → (z.zoo_delete p v e).0 ≡ znotempty
      → (r : Bytes) × (has e (child p r) ≡ true)
  pub delete_others :
      (p q : Bytes) (v : ℤ) (e : z.Env) → q ≢ p → has (z.zoo_delete p v e).1 q ≡ has e q
  pub delete_shrinks :
      (p q : Bytes) (v : ℤ) (e : z.Env) → has (z.zoo_delete p v e).1 q ≡ true → has e q ≡ true

-- The connection holds, and no call is refused but for the state of the tree. Versions are not
-- checked (-1), and paths are valid: the library refuses others, the root among them.
pub record IsReliable (z : Zoo) : Type 1 where
  pub connected : (e : z.Env) → z.is_connected e ≡ true
  pub is_valid : Bytes → Bool
  pub create_rc :
      (p : Bytes) (v : Option Bytes) (fl : Flags) (n : ℕ) (e : z.Env)
      → is_valid p ≡ true
      → let rc = (z.zoo_create p v fl n e).0.0 in (rc ≡ zok) ⊎ (rc ≡ znodeexists) ⊎ (rc ≡ znonode)
  pub valid_parent :
      (p : Bytes) (v : Option Bytes) (fl : Flags) (n : ℕ) (e : z.Env) (i : ℕ)
      → is_valid p ≡ true
      → (z.zoo_create p v fl n e).0.0 ≡ znonode
      → rfind slash p ≡ some i
      → is_valid (take i p) ≡ true
  pub children_rc :
      (p : Bytes) (e : z.Env)
      → is_valid p ≡ true
      → let rc = (z.zoo_get_children p e).0.0 in (rc ≡ zok) ⊎ (rc ≡ znonode)
  pub valid_children :
      (p : Bytes) (e : z.Env)
      → is_valid p ≡ true
      → (z.zoo_get_children p e).0.0 ≡ zok
      → All (λ n. is_valid (child p n) ≡ true) (z.zoo_get_children p e).0.1
  pub delete_rc :
      (p : Bytes) (e : z.Env)
      → is_valid p ≡ true
      → let rc = (z.zoo_delete p (negsuc 0) e).0 in (rc ≡ zok) ⊎ (rc ≡ znonode) ⊎ (rc ≡ znotempty)
