-- ===== src/Barrier/Growing.antt =====
-- How the calls of a barrier add nodes, while none is deleted.
use zookeeper_cpp_client.Common.{
  ℕ, suc, ◌≤◌, ◌≡◌, refl, Bool, true, false, not, [], Option, some, ℤ, arith, ◌==◌, if◌then◌else◌,
  if_cases, if_split, length,
}
use zookeeper_cpp_client.Codes.{
  Bytes, zok, ZkErrorCode, zk_succeed, zk_existed, invalid_data_version,
}
use zookeeper_cpp_client.Zoo.{Flags}
use zookeeper_cpp_client.Zoo.Path.{child}
use zookeeper_cpp_client.Sync.{create, set, get_children, max_path_length}
use zookeeper_cpp_client.Sync.ReturnCodes.{create_zok, read_zok}
use zookeeper_cpp_client.Servers.{Servers, session}
use zookeeper_cpp_client.Barrier.{
  DistriBarrier, parent_path, child_node_name, parent_made, init, create_child, countdown,
}
use zookeeper_cpp_client.Barrier.World.{is_success}

abbrev pub sequence_node : Flags
sequence_node = record { ephemeral = true; sequence = true }

-- The number of nodes under the parent node, of which the calls take none away, and no session expires.
pub record IsGrowing (s : Servers) : Type 1 where
  pub members : s.Env → ℕ
  -- ZOK: one node more.
  pub create_more :
      (p : ℕ) (v : Option Bytes) (n : ℕ) (e : s.Env)
      → let r = s.zoo_create p (child parent_path child_node_name) v sequence_node n e in
        r.0.0 ≡ zok → suc (members e) ≤ members r.1
  pub create_keeps :
      (p : ℕ) (path : Bytes) (v : Option Bytes) (fl : Flags) (n : ℕ) (e : s.Env)
      → members e ≤ members (s.zoo_create p path v fl n e).1
  pub set_keeps :
      (p : ℕ) (path v : Bytes) (n : ℤ) (e : s.Env) → members e ≤ members (s.zoo_set p path v n e).1
  pub children_keeps :
      (p : ℕ) (path : Bytes) (e : s.Env) → members e ≤ members (s.zoo_get_children p path e).1
  -- ZOK: the names of all children.
  pub children_zok :
      (p : ℕ) (e : s.Env)
      → (s.zoo_get_children p parent_path e).0.0 ≡ zok
      → members e ≤ length (s.zoo_get_children p parent_path e).0.1
  pub passes_keeps : (n : ℕ) (e : s.Env) → members e ≤ members (s.passes n e)

success_code : (ec : ZkErrorCode) → is_success ec ≡ true → ec ≡ zk_succeed
success_code zk_succeed e = refl
success_code _ e = cc e

module _ (s : Servers) (c : IsGrowing s) where
  open c use {members}

  create_grows :
      (p : ℕ) (path v : Bytes) (temp seq : Bool) (e : s.Env)
      → members e ≤ members (create (session s p) path v temp seq e).1
  unfolding create
  create_grows p path v temp seq e = ground (
    arith,
    c.create_keeps p path (some v) (record { ephemeral = temp; sequence = seq }) max_path_length e,
  )

  set_grows :
      (p : ℕ) (path v : Bytes) (n : ℤ) (e : s.Env)
      → members e ≤ members (set (session s p) path v n e).1
  unfolding set
  set_grows p path v n e = ground (arith, c.set_keeps p path v n e)

  pub get_children_grows :
      (p : ℕ) (path : Bytes) (e : s.Env) → members e ≤ members (get_children (session s p) path e).1
  unfolding get_children
  get_children_grows p path e = ground (arith, c.children_keeps p path e)

  parent_made_grows :
      (p : ℕ) (v : Bytes) (watched : Bool) (b : DistriBarrier) (ec : ZkErrorCode) (e : s.Env)
      → members e ≤ members (parent_made s p v watched b ec e).1
  parent_made_grows p v watched b zk_succeed e = omega arith
  parent_made_grows p v watched b zk_existed e = set_grows p parent_path v invalid_data_version e
  parent_made_grows p v watched b _ e = omega arith

  pub init_grows :
      (p : ℕ) (log : Bool) (handle : ℕ) (watched : Bool) (v conn : Bytes) (num : ℤ)
      (b : DistriBarrier) (e : s.Env)
      → members e ≤ members (init s p log handle watched v conn num b e).1
  unfolding init
  init_grows p log handle watched v conn num b e =
      let b1 = record b { zk_conn_str = conn; barr_num = num } in
      let (r, e1) = create (session s p) parent_path v false false e in
      let P : (Bool × DistriBarrier) × s.Env → Type 0 = λ x. members e ≤ members x.1 in
      let same : members e ≤ members e = omega arith in
      if_cases P b.is_init _ _ same (
        if_cases P (not log) _ _ same (
          if_cases P (handle == 0) _ _ same (
            omega (
              arith,
              create_grows p parent_path v false false e,
              parent_made_grows p v watched b1 r.0 e1,
            ))))

  create_child_more :
      (p : ℕ) (e : s.Env)
      → (create_child s p e).0.0 ≡ zk_succeed
      → suc (members e) ≤ members (create_child s p e).1
  unfolding create_child create
  create_child_more p e h = ground (
    arith,
    create_zok
        (s.zoo_create p (child parent_path child_node_name) (some []) sequence_node max_path_length
          e).0.0,
    c.create_more p (some []) max_path_length e,
  )

  create_child_grows : (p : ℕ) (e : s.Env) → members e ≤ members (create_child s p e).1
  unfolding create_child
  create_child_grows p e = create_grows p (child parent_path child_node_name) [] true true e

  pub countdown_grows :
      (p : ℕ) (b : DistriBarrier) (e : s.Env) (n : ℕ)
      → n ≤ members e
      → (if is_success (create_child s p e).0.0 then suc n else n) ≤ members (countdown s p b e).1
  unfolding countdown
  countdown_grows p b e n h =
      if_split (λ k. k ≤ members (create_child s p e).1) (is_success (create_child s p e).0.0)
        (suc n) n
        (λ x. omega (arith, h, create_child_more p e (success_code (create_child s p e).0.0 x)))
        (λ x. omega (arith, h, create_child_grows p e))

  pub get_children_all :
      (p : ℕ) (e : s.Env)
      → (get_children (session s p) parent_path e).0.0 ≡ zk_succeed
      → members e ≤ length (get_children (session s p) parent_path e).0.1
  unfolding get_children
  get_children_all p e h =
      ground (arith, read_zok (s.zoo_get_children p parent_path e).0.0, c.children_zok p e)
