-- ===== src/Barrier/Members.antt =====
-- How many nodes a barrier has.
use zookeeper_cpp_client.Common.{
  ℕ, suc, ◌≤◌, ◌≡◌, refl, Bool, true, false, not, List, [], ◌∷◌, Option, some, ℤ, negsuc, arith,
  ◌==◌, if◌then◌else◌, if_cases, length,
}
use zookeeper_cpp_client.Codes.{
  Bytes, zok, ZkErrorCode, zk_succeed, zk_existed, invalid_data_version,
}
use zookeeper_cpp_client.Zoo.{Flags}
use zookeeper_cpp_client.Zoo.Path.{child}
use zookeeper_cpp_client.Sync.{create, set, get_children, delete_recursive, max_path_length}
use zookeeper_cpp_client.Sync.DeleteWithin.{delete_recursive_within}
use zookeeper_cpp_client.Sync.ReturnCodes.{read_zok}
use zookeeper_cpp_client.Servers.{Servers, session}
use zookeeper_cpp_client.Barrier.{
  DistriBarrier, parent_path, child_node_name, parent_made, init, create_child, countdown,
  delete_paths, destroy,
}

-- The number of nodes under the parent node of the barrier, which the rest of the world does not
-- make: what the documentation says of each call.
pub record IsCounting (s : Servers) : Type 1 where
  pub members : s.Env → ℕ
  -- One node more at most, and none where the parent itself is made.
  pub create_member :
      (p : ℕ) (v : Option Bytes) (fl : Flags) (n : ℕ) (e : s.Env)
      → members (s.zoo_create p (child parent_path child_node_name) v fl n e).1 ≤ suc (members e)
  pub create_parent :
      (p : ℕ) (v : Option Bytes) (fl : Flags) (n : ℕ) (e : s.Env)
      → fl.sequence ≡ false
      → members (s.zoo_create p parent_path v fl n e).1 ≤ members e
  pub set_same :
      (p : ℕ) (path v : Bytes) (n : ℤ) (e : s.Env) → members (s.zoo_set p path v n e).1 ≤ members e
  pub children_same :
      (p : ℕ) (path : Bytes) (e : s.Env) → members (s.zoo_get_children p path e).1 ≤ members e
  -- ZOK: the names of the children, each once.
  pub children_zok :
      (p : ℕ) (e : s.Env)
      → (s.zoo_get_children p parent_path e).0.0 ≡ zok
      → length (s.zoo_get_children p parent_path e).0.1 ≤ members e
  pub deletes :
      (p : ℕ) (path : Bytes) (v : ℤ) (e : s.Env) → members (s.zoo_delete p path v e).1 ≤ members e
  pub passes_same : (n : ℕ) (e : s.Env) → members (s.passes n e) ≤ members e

module _ (s : Servers) (c : IsCounting s) where
  open c use {members}

  set_members :
      (p : ℕ) (path v : Bytes) (n : ℤ) (e : s.Env)
      → members (set (session s p) path v n e).1 ≤ members e
  unfolding set
  set_members p path v n e = ground (arith, c.set_same p path v n e)

  parent_made_members :
      (p : ℕ) (v : Bytes) (watched : Bool) (b : DistriBarrier) (ec : ZkErrorCode) (e : s.Env)
      → members (parent_made s p v watched b ec e).1 ≤ members e
  parent_made_members p v watched b zk_succeed e = omega arith
  parent_made_members p v watched b zk_existed e =
      set_members p parent_path v invalid_data_version e
  parent_made_members p v watched b _ e = omega arith

  create_parent_members :
      (p : ℕ) (v : Bytes) (e : s.Env)
      → members (create (session s p) parent_path v false false e).1 ≤ members e
  unfolding create
  create_parent_members p v e = ground (
    arith,
    c.create_parent p (some v) (record { ephemeral = false; sequence = false }) max_path_length e
        refl,
  )

  pub init_members :
      (p : ℕ) (log : Bool) (handle : ℕ) (watched : Bool) (v conn : Bytes) (num : ℤ)
      (b : DistriBarrier) (e : s.Env)
      → members (init s p log handle watched v conn num b e).1 ≤ members e
  unfolding init
  init_members p log handle watched v conn num b e =
      let b1 = record b { zk_conn_str = conn; barr_num = num } in
      let (r, e1) = create (session s p) parent_path v false false e in
      let P : (Bool × DistriBarrier) × s.Env → Type 0 = λ x. members x.1 ≤ members e in
      let same : members e ≤ members e = omega arith in
      if_cases P b.is_init _ _ same (
        if_cases P (not log) _ _ same (
          if_cases P (handle == 0) _ _ same (
            omega (arith, create_parent_members p v e, parent_made_members p v watched b1 r.0 e1))))

  pub countdown_members :
      (p : ℕ) (b : DistriBarrier) (e : s.Env) (n : ℕ)
      → members e ≤ n
      → members (countdown s p b e).1 ≤ (if s.is_connected p e then suc n else n)
  unfolding countdown create_child create
  countdown_members p b e n h = ground (
    arith,
    c.create_member p (some []) (record { ephemeral = true; sequence = true }) max_path_length e,
  )

  delete_paths_members :
      (p f : ℕ) (paths : List Bytes) (e : s.Env)
      → members (delete_paths s p f paths e).1 ≤ members e
  unfolding delete_paths
  delete_paths_members p f [] e = omega arith
  delete_paths_members p f (path ∷ paths) e =
      let (_, e1) = delete_recursive (session s p) f path (negsuc 0) e in
      omega (
        arith,
        delete_recursive_within (session s p) members (c.children_same p) (c.deletes p) f path
            (negsuc 0) e,
        delete_paths_members p f paths e1,
      )

  pub destroy_members :
      (p f : ℕ) (b : DistriBarrier) (e : s.Env) → members (destroy s p f b e).1 ≤ members e
  unfolding destroy
  destroy_members p f b e = delete_paths_members p f b.child_paths e

  pub length-get_children :
      (p : ℕ) (e : s.Env)
      → (get_children (session s p) parent_path e).0.0 ≡ zk_succeed
      → length (get_children (session s p) parent_path e).0.1 ≤ members e
  unfolding get_children
  length-get_children p e h =
      ground (arith, read_zok (s.zoo_get_children p parent_path e).0.0, c.children_zok p e)
