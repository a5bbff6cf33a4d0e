-- ===== src/Sync/CreateLeaf.antt =====
-- createIfNeedCreateParents where the connection holds and no call fails for reasons of its own.
use zookeeper_cpp_client.Common.{
  if◌then◌else◌, ℕ, ◌+◌, ◌<◌, ◌≡◌, refl, ◌⊎◌, inl, inr, Bool, true, false, Option, none, some,
  arith, take, length, length-take-le,
}
use zookeeper_cpp_client.Codes.{Bytes, ZkErrorCode, zk_succeed, zk_not_exist, zk_existed}
use zookeeper_cpp_client.Zoo.{Flags, Zoo, IsTree, IsReliable}
use zookeeper_cpp_client.Zoo.Path.{slash, rfind, rfind-lt-length}
use zookeeper_cpp_client.Sync.{
  create, create_persistent_dir, create_if_need_create_parents, create_branch, parents_after,
  max_path_length,
}
use zookeeper_cpp_client.Sync.CreateDir.{Lacks}
use zookeeper_cpp_client.Sync.CreateParents.{IsAnswer, create_persistent_dir_total}

-- The node is made now, or it was there.
abbrev pub IsDone : ZkErrorCode → Type 0
IsDone ec = (ec ≡ zk_succeed) ⊎ (ec ≡ zk_existed)

module _ (z : Zoo) (t : IsTree z) (rel : IsReliable z) (p v : Bytes)
    (is_temp is_sequence : Bool) where
  abbrev fl : Flags
  fl = record { ephemeral = is_temp; sequence = is_sequence }

  record LeafPost (e : z.Env) (r : ZkErrorCode × Option Bytes) (e1 : z.Env) : Type 0 where
    answer : IsAnswer r.0
    made : is_sequence ≡ false → IsDone r.0 → t.has e1 p ≡ true
    missing : r.0 ≡ zk_not_exist → Lacks z t e p
    parent : (i : ℕ) → r.0 ≡ zk_not_exist → rfind slash p ≡ some i → rel.is_valid (take i p) ≡ true

  create-LeafPost :
      (e : z.Env)
      → rel.is_valid p ≡ true
      → let (r, e1) = create z p v is_temp is_sequence e in LeafPost e r e1
  unfolding create
  create-LeafPost e w =
      let n = max_path_length in
      record {
        answer = ground (arith, rel.connected e, rel.create_rc p (some v) fl n e w);
        made = λ s d. ground (
          arith,
          rel.connected e,
          rel.create_rc p (some v) fl n e w,
          t.create_zok p (some v) fl n e,
          t.create_plain p (some v) fl n e s,
          t.create_znodeexists p (some v) fl n e,
        );
        missing = λ h. t.create_znonode p (some v) fl n e (ground (arith, rel.connected e));
        parent =
            λ i h r. rel.valid_parent p (some v) fl n e i w (ground (arith, rel.connected e)) r;
      }

  -- The result of the whole operation.
  abbrev Good : Option (ZkErrorCode × Option Bytes) → z.Env → Type 0
  Good none e = ⊥
  Good (some r) e = IsDone r.0 × (is_sequence ≡ false → t.has e p ≡ true)

  second_create :
      (i : ℕ) (e : z.Env) (r : ZkErrorCode × Option Bytes) (e1 : z.Env)
      → rfind slash p ≡ some i
      → t.has e (take i p) ≡ true
      → LeafPost e r e1
      → Good (some r) e1
  second_create i e (zk_succeed, ret) e1 h there l = (inl refl, λ s. l.made s (inl refl))
  second_create i e (zk_existed, ret) e1 h there l = (inr refl, λ s. l.made s (inr refl))
  second_create i e (zk_not_exist, ret) e1 h there l =
      let (j, hj, gone) = l.missing refl in cc (h, hj, there, gone)
  second_create i e (_, ret) e1 h there l = absurd l.answer

  parents-Good :
      (f i : ℕ) (e : z.Env)
      → rel.is_valid p ≡ true
      → rel.is_valid (take i p) ≡ true
      → rfind slash p ≡ some i
      → length p + 1 < f
      → let (r, e1) = parents_after z f p v is_temp is_sequence (some i) e in Good r e1
  parents-Good f i e w wi h l =
      let short = rfind-lt-length slash p i h in
      let d =
        create_persistent_dir_total z t rel f (take i p) e wi (omega (arith, length-take-le i p)) in
      rw d.0 (
        second_create i (create_persistent_dir z f (take i p) e).1 _ _ h d.1
          (create-LeafPost (create_persistent_dir z f (take i p) e).1 w))

  branch-Good :
      (f : ℕ) (e : z.Env) (r : ZkErrorCode × Option Bytes) (e1 : z.Env)
      → rel.is_valid p ≡ true
      → length p + 1 < f
      → LeafPost e r e1
      → let (r1, e2) = create_branch z f p v is_temp is_sequence r e1 in Good r1 e2
  branch-Good f e (zk_succeed, ret) e1 w h l = (inl refl, λ s. l.made s (inl refl))
  branch-Good f e (zk_existed, ret) e1 w h l = (inr refl, λ s. l.made s (inr refl))
  branch-Good f e (zk_not_exist, ret) e1 w h l =
      let (i, hi, gone) = l.missing refl in
      rw (hi, parents_after) (parents-Good f i e1 w (l.parent i refl hi) hi h)
  branch-Good f e (_, ret) e1 w h l = absurd l.answer

  create-Good :
      (f : ℕ) (e : z.Env)
      → rel.is_valid p ≡ true
      → length p + 1 < f
      → let (r, e1) = create_if_need_create_parents z f p v is_temp is_sequence e in Good r e1
  unfolding create_if_need_create_parents
  create-Good f e w h =
      branch-Good f e (create z p v is_temp is_sequence e).0 _ w h (create-LeafPost e w)

  -- On a tree that no other client writes, with a connection that holds and calls that do not
  -- fail for other reasons, createIfNeedCreateParents of a valid path comes to an end and
  -- reports success or that the node existed, whichever of the node's parents were missing; and
  -- unless a sequence was asked for, the node is there at the end.
  pub create_if_need_create_parents_total :
      (f : ℕ) (e : z.Env)
      → rel.is_valid p ≡ true
      → length p + 1 < f
      → (r : ZkErrorCode × Option Bytes) × ((create_if_need_create_parents z f p v is_temp
            is_sequence e).0
          ≡ some r)
        × IsDone r.0
        × (let e1 = (create_if_need_create_parents z f p v is_temp is_sequence e).1 in
            (if is_sequence then true else t.has e1 p) ≡ true)
  create_if_need_create_parents_total f e w h =
      open_result (create_if_need_create_parents z f p v is_temp is_sequence e).0 _
        (create-Good f e w h)
    where
      open_result :
          (o : Option (ZkErrorCode × Option Bytes)) (e1 : z.Env)
          → Good o e1
          → (r : ZkErrorCode × Option Bytes) × (o ≡ some r)
            × IsDone r.0
            × ((if is_sequence then true else t.has e1 p) ≡ true)
      open_result none e1 g = absurd g
      open_result (some r) e1 g = (r, refl, g.0, ground (arith, g.1))
