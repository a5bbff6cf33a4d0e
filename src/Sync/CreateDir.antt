-- ===== src/Sync/CreateDir.antt =====
-- createPersistentDir and createIfNeedCreateParents on a tree that no other client writes.
use zookeeper_cpp_client.Common.{
  ℕ, zero, suc, ◌+◌, ◌<◌, ◌≡◌, ◌≢◌, refl, Bool, true, false, Option, none, some, arith, take,
  length, length-take-le,
}
use zookeeper_cpp_client.Codes.{Bytes, ZkErrorCode, zk_succeed, zk_not_exist, zk_existed}
use zookeeper_cpp_client.Zoo.{St, Flags, Zoo, IsTree}
use zookeeper_cpp_client.Zoo.Path.{slash, rfind, rfind-lt-length}
use zookeeper_cpp_client.Sync.{
  create_persistent_dir_node, create_persistent_dir, dir_branch, parent_first, child_then,
}

abbrev pub dir_flags : Flags
dir_flags = record { ephemeral = false; sequence = false }

module _ (z : Zoo) (t : IsTree z) where
  -- No node goes.
  abbrev pub Grows : z.Env → z.Env → Type 0
  Grows e e1 = (q : Bytes) → t.has e q ≡ true → t.has e1 q ≡ true

  -- The parent is not there.
  abbrev pub Lacks : z.Env → Bytes → Type 0
  Lacks e p = (i : ℕ) × (rfind slash p ≡ some i) × (t.has e (take i p) ≡ false)

  pub record NodePost (p : Bytes) (e : z.Env) (ec : ZkErrorCode) (e1 : z.Env) : Type 0 where
    pub grows : Grows e e1
    pub made : ec ≡ zk_succeed → t.has e1 p ≡ true
    pub found : ec ≡ zk_existed → t.has e1 p ≡ true
    pub missing : ec ≡ zk_not_exist → Lacks e p

  pub node-NodePost :
      (p : Bytes) (e : z.Env)
      → NodePost p e (create_persistent_dir_node z p e).0 (create_persistent_dir_node z p e).1
  unfolding create_persistent_dir_node
  node-NodePost p e = record {
    grows = λ q h. ground (arith, t.create_keeps p none dir_flags 0 e q h);
    made = λ h.
        ground (arith, t.create_zok p none dir_flags 0 e, t.create_plain p none dir_flags 0 e refl);
    found = λ h. ground (arith, t.create_znodeexists p none dir_flags 0 e);
    missing = λ h. t.create_znonode p none dir_flags 0 e (ground arith);
  }

  pub record DirPost (p : Bytes) (e : z.Env) (r : Option Bool) (e1 : z.Env) : Type 0 where
    pub grows : Grows e e1
    pub made : r ≡ some true → t.has e1 p ≡ true

  abbrev pub Rec : Type 0
  Rec = Bytes → St z.Env (Option Bool)

  abbrev pub Keeps : Rec → Type 0
  Keeps rec = (p : Bytes) (e : z.Env) → DirPost p e (rec p e).0 (rec p e).1

  child_then-DirPost :
      (rec : Rec) (p : Bytes) (made : Option Bool) (e e1 : z.Env)
      → Keeps rec
      → Grows e e1
      → DirPost p e (child_then z rec p made e1).0 (child_then z rec p made e1).1
  child_then-DirPost rec p none e e1 k g = record { grows = g; made = λ h. cc }
  child_then-DirPost rec p (some true) e e1 k g =
      let d = k p e1 in record { grows = λ q h. d.grows q (g q h); made = d.made }
  child_then-DirPost rec p (some false) e e1 k g = record { grows = g; made = λ h. cc }

  parent_first-DirPost :
      (rec : Rec) (p : Bytes) (o : Option ℕ) (e e1 : z.Env)
      → Keeps rec
      → Grows e e1
      → DirPost p e (parent_first z rec p o e1).0 (parent_first z rec p o e1).1
  parent_first-DirPost rec p none e e1 k g = record { grows = g; made = λ h. cc }
  parent_first-DirPost rec p (some i) e e1 k g =
      let d = k (take i p) e1 in
      child_then-DirPost rec p (rec (take i p) e1).0 e _ k (λ q h. d.grows q (g q h))

  dir_branch-DirPost :
      (rec : Rec) (p : Bytes) (ec : ZkErrorCode) (e e1 : z.Env)
      → Keeps rec
      → NodePost p e ec e1
      → DirPost p e (dir_branch z rec p ec e1).0 (dir_branch z rec p ec e1).1
  dir_branch-DirPost rec p zk_succeed e e1 k n = record { grows = n.grows; made = λ h. n.made refl }
  dir_branch-DirPost rec p zk_existed e e1 k n = record {
    grows = n.grows;
    made = λ h. n.found refl;
  }
  dir_branch-DirPost rec p zk_not_exist e e1 k n =
      parent_first-DirPost rec p (rfind slash p) e e1 k n.grows
  dir_branch-DirPost rec p _ e e1 k n = record { grows = n.grows; made = λ h. cc }

  pub dir-Keeps : (f : ℕ) → Keeps (create_persistent_dir z f)
  unfolding create_persistent_dir
  dir-Keeps zero p e = record { grows = λ q h. h; made = λ h. cc }
  dir-Keeps (suc f) p e =
      dir_branch-DirPost (create_persistent_dir z f) p _ e _ (dir-Keeps f) (node-NodePost p e)

  -- Where the parent is there, one call is enough.
  one_level :
      (f : ℕ) (p : Bytes) (i : ℕ) (e : z.Env)
      → rfind slash p ≡ some i
      → t.has e (take i p) ≡ true
      → (create_persistent_dir z (suc f) p e).0 ≢ none
  unfolding create_persistent_dir
  one_level f p i e h there = ends (create_persistent_dir_node z p e).0 _ (node-NodePost p e)
    where
      ends :
          (ec : ZkErrorCode) (e1 : z.Env)
          → NodePost p e ec e1
          → (dir_branch z (create_persistent_dir z f) p ec e1).0 ≢ none
      ends zk_succeed e1 n = λ x. cc
      ends zk_existed e1 n = λ x. cc
      ends zk_not_exist e1 n = let (j, hj, gone) = n.missing refl in cc (h, hj, there, gone)
      ends _ e1 n = λ x. cc

  child_ends :
      (f : ℕ) (p : Bytes) (i : ℕ) (r : Option Bool) (e : z.Env)
      → rfind slash p ≡ some i
      → 0 < f
      → r ≢ none
      → (r ≡ some true → t.has e (take i p) ≡ true)
      → (child_then z (create_persistent_dir z f) p r e).0 ≢ none
  child_ends f p i none e h pos ne there = absurd (ne refl)
  child_ends zero p i (some true) e h pos ne there = absurd (omega arith)
  child_ends (suc f) p i (some true) e h pos ne there = one_level f p i e h (there refl)
  child_ends f p i (some false) e h pos ne there = λ x. cc

  abbrev pub EndsBelow : ℕ → Type 0
  EndsBelow f =
      (p : Bytes) (e : z.Env) → length p + 1 < f → (create_persistent_dir z f p e).0 ≢ none

  branch_ends :
      (f : ℕ) (p : Bytes) (ec : ZkErrorCode) (o : Option ℕ) (e : z.Env)
      → rfind slash p ≡ o
      → length p < f
      → EndsBelow f
      → (dir_branch z (create_persistent_dir z f) p ec e).0 ≢ none
  branch_ends f p zk_not_exist none e h l ih = rw (h, parent_first) (λ x. cc)
  branch_ends f p zk_not_exist (some i) e h l ih =
      let d = dir-Keeps f (take i p) e in
      let short = rfind-lt-length slash p i h in
      rw (h, parent_first)
        (child_ends f p i _ (create_persistent_dir z f (take i p) e).1 h (omega arith)
          (ih (take i p) e (omega (arith, length-take-le i p))) d.made)
  branch_ends f p _ o e h l ih = λ x. cc

  pub dir_ends : (f : ℕ) → EndsBelow f
  unfolding create_persistent_dir
  dir_ends zero p e h = absurd (omega arith)
  dir_ends (suc f) p e h =
      branch_ends f p (create_persistent_dir_node z p e).0 (rfind slash p) _ refl (omega arith)
        (dir_ends f)

  -- On a tree that no other client writes, createPersistentDir comes to an end, in a depth of calls
  -- bounded by the length of the path, and every node that was there still is.
  create_persistent_dir_ends :
      (f : ℕ) (p q : Bytes) (e : z.Env)
      → length p + 1 < f
      → t.has e q ≡ true
      → ((create_persistent_dir z f p e).0 ≢ none)
        × (t.has (create_persistent_dir z f p e).1 q ≡ true)
  create_persistent_dir_ends f p q e h there = (dir_ends f p e h, (dir-Keeps f p e).grows q there)
