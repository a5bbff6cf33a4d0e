-- ===== src/Sync/CreateParents.antt =====
-- The same operations where the connection holds and no call fails for reasons of its own: then
-- the directories, and the node below them, are there at the end.
use zookeeper_cpp_client.Common.{
  ℕ, zero, suc, ◌+◌, ◌<◌, ◌≡◌, refl, true, none, some, arith, take, length, length-take-le,
}
use zookeeper_cpp_client.Codes.{Bytes, ZkErrorCode, zk_succeed, zk_not_exist, zk_existed}
use zookeeper_cpp_client.Zoo.{Zoo, IsTree, IsReliable}
use zookeeper_cpp_client.Zoo.Path.{slash, rfind, rfind-lt-length}
use zookeeper_cpp_client.Sync.{
  create_persistent_dir_node, create_persistent_dir, dir_branch, parent_first,
}
use zookeeper_cpp_client.Sync.CreateDir.{NodePost, node-NodePost, dir-Keeps, dir_flags}

-- What a create may answer here.
abbrev pub IsAnswer : ZkErrorCode → Type 0
IsAnswer zk_succeed = Unit
IsAnswer zk_existed = Unit
IsAnswer zk_not_exist = Unit
IsAnswer _ = ⊥

module _ (z : Zoo) (t : IsTree z) (rel : IsReliable z) where
  node-IsAnswer :
      (p : Bytes) (e : z.Env)
      → rel.is_valid p ≡ true
      → IsAnswer (create_persistent_dir_node z p e).0
  unfolding create_persistent_dir_node
  node-IsAnswer p e v = ground (arith, rel.connected e, rel.create_rc p none dir_flags 0 e v)

  node-valid_parent :
      (p : Bytes) (e : z.Env) (i : ℕ)
      → rel.is_valid p ≡ true
      → (create_persistent_dir_node z p e).0 ≡ zk_not_exist
      → rfind slash p ≡ some i
      → rel.is_valid (take i p) ≡ true
  unfolding create_persistent_dir_node
  node-valid_parent p e i v h r =
      rel.valid_parent p none dir_flags 0 e i v (ground (arith, rel.connected e)) r

  one_level_total :
      (f : ℕ) (p : Bytes) (i : ℕ) (e : z.Env)
      → rel.is_valid p ≡ true
      → rfind slash p ≡ some i
      → t.has e (take i p) ≡ true
      → (create_persistent_dir z (suc f) p e).0 ≡ some true
  unfolding create_persistent_dir
  one_level_total f p i e v h there =
      done (create_persistent_dir_node z p e).0 _ (node-NodePost z t p e) (node-IsAnswer p e v)
    where
      done :
          (ec : ZkErrorCode) (e1 : z.Env)
          → NodePost z t p e ec e1
          → IsAnswer ec
          → (dir_branch z (create_persistent_dir z f) p ec e1).0 ≡ some true
      done zk_succeed e1 n a = refl
      done zk_existed e1 n a = refl
      done zk_not_exist e1 n a = let (j, hj, gone) = n.missing refl in cc (h, hj, there, gone)
      done _ e1 n a = absurd a

  abbrev TotalBelow : ℕ → Type 0
  TotalBelow f =
      (p : Bytes) (e : z.Env)
      → rel.is_valid p ≡ true
      → length p + 1 < f
      → (create_persistent_dir z f p e).0 ≡ some true

  parent_total :
      (f : ℕ) (p : Bytes) (i : ℕ) (e : z.Env)
      → rel.is_valid p ≡ true
      → rel.is_valid (take i p) ≡ true
      → rfind slash p ≡ some i
      → length p < f
      → TotalBelow f
      → (parent_first z (create_persistent_dir z f) p (some i) e).0 ≡ some true
  parent_total zero p i e v w h l ih = absurd (omega arith)
  parent_total (suc f) p i e v w h l ih =
      let short = rfind-lt-length slash p i h in
      let made = ih (take i p) e w (omega (arith, length-take-le i p)) in
      let d = dir-Keeps z t (suc f) (take i p) e in
      rw made (one_level_total f p i _ v h (d.made made))

  branch_total :
      (f : ℕ) (p : Bytes) (ec : ZkErrorCode) (e e1 : z.Env)
      → rel.is_valid p ≡ true
      → length p < f
      → TotalBelow f
      → NodePost z t p e ec e1
      → IsAnswer ec
      → (ec ≡ zk_not_exist → (i : ℕ) → rfind slash p ≡ some i → rel.is_valid (take i p) ≡ true)
      → (dir_branch z (create_persistent_dir z f) p ec e1).0 ≡ some true
  branch_total f p zk_succeed e e1 v l ih n a w = refl
  branch_total f p zk_existed e e1 v l ih n a w = refl
  branch_total f p zk_not_exist e e1 v l ih n a w =
      let (i, h, gone) = n.missing refl in
      rw (h, parent_first) (parent_total f p i e1 v (w refl i h) h l ih)
  branch_total f p _ e e1 v l ih n a w = absurd a

  dir_total : (f : ℕ) → TotalBelow f
  unfolding create_persistent_dir
  dir_total zero p e v h = absurd (omega arith)
  dir_total (suc f) p e v h =
      branch_total f p (create_persistent_dir_node z p e).0 e _ v (omega arith) (dir_total f)
        (node-NodePost z t p e) (node-IsAnswer p e v) (λ x i r. node-valid_parent p e i v x r)

  -- On a tree that no other client writes, with a connection that holds and calls that do not
  -- fail for other reasons, createPersistentDir of a valid path returns true, and the node is
  -- there.
  pub create_persistent_dir_total :
      (f : ℕ) (p : Bytes) (e : z.Env)
      → rel.is_valid p ≡ true
      → length p + 1 < f
      → ((create_persistent_dir z f p e).0 ≡ some true)
        × (t.has (create_persistent_dir z f p e).1 p ≡ true)
  create_persistent_dir_total f p e v h =
      let d = dir_total f p e v h in (d, (dir-Keeps z t f p e).made d)
