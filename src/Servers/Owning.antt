-- ===== src/Servers/Owning.antt =====
-- ZkClient::create of an ephemeral node, and deleteRecursive, where several sessions meet.
use zookeeper_cpp_client.Common.{
  ℕ, zero, suc, ◌≡◌, refl, Bool, true, false, List, Option, none, some, arith, ℤ, negsuc,
}
use zookeeper_cpp_client.Codes.{Bytes, ZkErrorCode, zk_succeed, zk_not_exist}
use zookeeper_cpp_client.Sync.{
  create, max_path_length, get_children, delete_node, delete_recursive, delete_branch, branch_after,
  delete_children,
}
use zookeeper_cpp_client.Sync.ReturnCodes.{create_zok, delete_zok, read_znonode}
use zookeeper_cpp_client.Servers.{Servers, session, IsOwning, ephemeral_node}

module _ (s : Servers) (o : IsOwning s) where
  open o use {owner}

  pub create_keeps :
      (p : ℕ) (path value : Bytes) (temp seq : Bool) (q : Bytes) (e : s.Env) (r : ℕ)
      → owner e q ≡ some r
      → owner (create (session s p) path value temp seq e).1 q ≡ some r
  unfolding create
  create_keeps p path value temp seq q e r h = ground (
    arith,
    o.create_keeps p path (some value) (record { ephemeral = temp; sequence = seq }) max_path_length
        e q r h,
  )

  pub create_own :
      (p : ℕ) (path value : Bytes) (e : s.Env)
      → (create (session s p) path value true false e).0.0 ≡ zk_succeed
      → (owner e path ≡ none)
        × (owner (create (session s p) path value true false e).1 path ≡ some p)
  unfolding create
  create_own p path value e h = ground (
    arith,
    create_zok (s.zoo_create p path (some value) ephemeral_node max_path_length e).0.0,
    o.create_new p path (some value) max_path_length e,
    o.create_own p path (some value) max_path_length e,
  )

  pub get_children_owner :
      (p : ℕ) (path q : Bytes) (e : s.Env)
      → owner (get_children (session s p) path e).1 q ≡ owner e q
  unfolding get_children
  get_children_owner p path q e = ground (arith, o.children_same p path e q)

  get_children_missing :
      (p : ℕ) (path : Bytes) (e : s.Env)
      → (get_children (session s p) path e).0.0 ≡ zk_not_exist
      → owner (get_children (session s p) path e).1 path ≡ none
  unfolding get_children
  get_children_missing p path e h = ground (
    arith,
    read_znonode (s.zoo_get_children p path e).0.0,
    o.children_same p path e path,
    o.children_znonode p path e,
  )

  delete_node_gone :
      (p : ℕ) (path : Bytes) (v : ℤ) (e : s.Env)
      → (delete_node (session s p) path v e).0 ≡ zk_succeed
      → owner (delete_node (session s p) path v e).1 path ≡ none
  unfolding delete_node
  delete_node_gone p path v e h =
      ground (arith, delete_zok (s.zoo_delete p path v e).0, o.delete_gone p path v e)

  branch_after_gone :
      (p : ℕ) (path : Bytes) (v : ℤ) (done : Option Bool) (e : s.Env)
      → (branch_after (session s p) path v done e).0 ≡ some zk_succeed
      → owner (branch_after (session s p) path v done e).1 path ≡ none
  branch_after_gone p path v none e h = cc h
  branch_after_gone p path v (some true) e h = delete_node_gone p path v e (ground (arith, h))
  branch_after_gone p path v (some false) e h = cc h

  delete_branch_gone :
      (p f : ℕ) (path : Bytes) (v : ℤ) (r : ZkErrorCode × List Bytes) (e : s.Env)
      → (r.0 ≡ zk_not_exist → owner e path ≡ none)
      → let rec = λ (q : Bytes). delete_recursive (session s p) f q (negsuc 0) in
        (delete_branch (session s p) rec path v r e).0 ≡ some zk_succeed
        → owner (delete_branch (session s p) rec path v r e).1 path ≡ none
  delete_branch_gone p f path v (zk_not_exist, ns) e k h = k refl
  delete_branch_gone p f path v (zk_succeed, ns) e k h =
      let d =
        delete_children (session s p) (λ q. delete_recursive (session s p) f q (negsuc 0)) path ns
          e in
      branch_after_gone p path v d.0 d.1 h
  delete_branch_gone p f path v (_, ns) e k h = cc h

  -- Where deleteRecursive reports success, no such node is left.
  pub delete_recursive_gone :
      (p f : ℕ) (path : Bytes) (v : ℤ) (e : s.Env)
      → (delete_recursive (session s p) f path v e).0 ≡ some zk_succeed
      → owner (delete_recursive (session s p) f path v e).1 path ≡ none
  unfolding delete_recursive
  delete_recursive_gone p zero path v e h = cc h
  delete_recursive_gone p (suc f) path v e h =
      let r = get_children (session s p) path e in
      delete_branch_gone p f path v r.0 r.1 (get_children_missing p path e) h
