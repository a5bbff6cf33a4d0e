-- ===== src/Sync/DeleteTree.antt =====
-- deleteRecursive on a tree that no other client writes: what it takes away and what it leaves.
use zookeeper_cpp_client.Common.{
  ℕ, zero, suc, ◌≡◌, ◌≢◌, refl, ap, ◌∙◌, sym, subst, ◌⊎◌, inl, inr, Bool, true, false, List, Option,
  none, some, arith, ℤ, negsuc, All, Bool-cases,
}
use zookeeper_cpp_client.Codes.{Bytes, zok, ZkErrorCode, zk_succeed, zk_not_exist}
use zookeeper_cpp_client.Zoo.{Zoo, IsTree}
use zookeeper_cpp_client.Zoo.Path.{IsUnder, child, Any, Any-All}
use zookeeper_cpp_client.Sync.{
  get_children, delete_node, delete_children, branch_after, delete_branch, delete_recursive,
}
use zookeeper_cpp_client.Sync.DeleteLoop.{
  Shrinks, IsClear, TreePost, LoopPost, Clears, absent-Shrinks, Rec, Prunes, LoopResult,
  delete_children-LoopResult,
}

module _ (z : Zoo) (t : IsTree z) where
  pub record NodePost (p : Bytes) (e : z.Env) (ec : ZkErrorCode) (e1 : z.Env) : Type 0 where
    pub tree : TreePost z t p e e1
    pub gone : ec ≡ zk_succeed → t.has e1 p ≡ false
    pub missing : ec ≡ zk_not_exist → t.has e p ≡ false

  pub delete_node-NodePost :
      (p : Bytes) (v : ℤ) (e : z.Env) → NodePost p e (delete_node z p v e).0 (delete_node z p v e).1
  unfolding delete_node
  delete_node-NodePost p v e = record {
    tree = record {
      shrinks = λ q h. ground (arith, t.delete_shrinks p q v e);
      others = λ q ne u. ground (arith, t.delete_others p q v e ne);
    };
    gone = λ h. ground (arith, t.delete_zok p v e);
    missing = λ h. t.delete_znonode p v e (ground (arith, h));
  }

  -- Every node below `p` in `e` is a listed child or below one.
  abbrev pub Lists : Bytes → List Bytes → z.Env → Type 0
  Lists p ns e =
      (q : Bytes)
      → t.has e q ≡ true
      → IsUnder p q
      → Any (λ n. (q ≡ child p n) ⊎ IsUnder (child p n) q) ns

  -- Where every child was cleared, nothing is left below the node.
  pub below-Lists :
      (p : Bytes) (ns : List Bytes) (e e1 : z.Env)
      → Lists p ns e
      → Shrinks z t e e1
      → All (λ n. IsClear z t (child p n) e1) ns
      → (r : Bytes) → t.has e1 (child p r) ≡ false
  below-Lists p ns e e1 l s a r = elim (Bool-cases (t.has e1 (child p r))) [
    | inr x ↦ x
    | inl x ↦
        Any-All (λ n. (child p r ≡ child p n) ⊎ IsUnder (child p n) (child p r))
          (λ n. IsClear z t (child p n) e1) (t.has e1 (child p r) ≡ false) ns
          (l (child p r) (s (child p r) x) (r, refl)) a (λ n w c. seen n w c)
  ]
    where
      seen :
          (n : Bytes)
          → (child p r ≡ child p n) ⊎ IsUnder (child p n) (child p r)
          → IsClear z t (child p n) e1
          → t.has e1 (child p r) ≡ false
      seen n (inl w) c = ap (t.has e1) w ∙ c.0
      seen n (inr (r', w)) c = ap (t.has e1) w ∙ c.1 r'

  TreePost-loop : {p : Bytes} {e e1 : z.Env} → LoopPost z t p e e1 → TreePost z t p e e1
  TreePost-loop l = record { shrinks = l.shrinks; others = λ q ne u. l.others q u }

  TreePost-trans :
      {p : Bytes} {e e1 e2 : z.Env}
      → TreePost z t p e e1
      → TreePost z t p e1 e2
      → TreePost z t p e e2
  TreePost-trans l m = record {
    shrinks = λ q h. l.shrinks q (m.shrinks q h);
    others = λ q ne u. m.others q ne u ∙ l.others q ne u;
  }

  abbrev pub Pruned : Bytes → z.Env → Option ZkErrorCode × z.Env → Type 0
  Pruned p e r = TreePost z t p e r.1 × Clears z t p r.1 r.0

  cleared_code :
      (p : Bytes) (ec : ZkErrorCode) (e1 e2 : z.Env)
      → NodePost p e1 ec e2
      → ((r : Bytes) → t.has e1 (child p r) ≡ false)
      → Clears z t p e2 (some ec)
  cleared_code p zk_succeed e1 e2 n b =
      (n.gone refl, λ r. absent-Shrinks z t (child p r) n.tree.shrinks (b r))
  cleared_code p zk_not_exist e1 e2 n b = (
    absent-Shrinks z t p n.tree.shrinks (n.missing refl),
    λ r. absent-Shrinks z t (child p r) n.tree.shrinks (b r),
  )
  cleared_code p _ e1 e2 n b = tt

  branch_after-Pruned :
      (p : Bytes) (v : ℤ) (ns : List Bytes) (e : z.Env) (o : Option Bool) (e1 : z.Env)
      → Lists p ns e
      → LoopResult z t p ns e (o, e1)
      → Pruned p e (branch_after z p v o e1)
  branch_after-Pruned p v ns e none e1 l k = (TreePost-loop k.0, tt)
  branch_after-Pruned p v ns e (some false) e1 l k = (TreePost-loop k.0, tt)
  branch_after-Pruned p v ns e (some true) e1 l k =
      let n = delete_node-NodePost p v e1 in
      (
        TreePost-trans (TreePost-loop k.0) n.tree,
        cleared_code p (delete_node z p v e1).0 e1 _ n
            (below-Lists p ns e e1 l k.0.shrinks (k.1 refl)),
      )

  pub record ListPost (p : Bytes) (e : z.Env) (r : ZkErrorCode × List Bytes) (e1 : z.Env)
      : Type 0 where
    pub same : (q : Bytes) → t.has e1 q ≡ t.has e q
    pub listed : r.0 ≡ zk_succeed → Lists p r.1 e
    pub present : r.0 ≡ zk_succeed → t.has e p ≡ true
    pub missing : r.0 ≡ zk_not_exist → t.has e p ≡ false

  pub names-get_children :
      (p : Bytes) (e : z.Env)
      → (get_children z p e).0.0 ≡ zk_succeed
      → ((z.zoo_get_children p e).0.0 ≡ zok)
        × ((z.zoo_get_children p e).0.1 ≡ (get_children z p e).0.1)
  unfolding get_children
  names-get_children p e h = ground arith

  pub get_children-ListPost :
      (p : Bytes) (e : z.Env) → let (r, e1) = get_children z p e in ListPost p e r e1
  unfolding get_children
  get_children-ListPost p e = record {
    same = λ q. ground (arith, t.children_same p q e);
    listed = λ h q there under.
        let (ok, same) = names-get_children p e h in
        subst (Any (λ n. (q ≡ child p n) ⊎ IsUnder (child p n) q)) same
          (t.children_complete p q e ok there under);
    present = λ h. t.children_zok p e (ground arith);
    missing = λ h. t.children_znonode p e (ground arith);
  }

  TreePost-same :
      {p : Bytes} {e e1 : z.Env} → ((q : Bytes) → t.has e1 q ≡ t.has e q) → TreePost z t p e e1
  TreePost-same same = record { shrinks = λ q h. sym (same q) ∙ h; others = λ q ne u. same q }

  delete_branch-Pruned :
      (rec : Rec z t) (p : Bytes) (v : ℤ) (r : ZkErrorCode × List Bytes) (e e1 : z.Env)
      → Prunes z t rec
      → ListPost p e r e1
      → Pruned p e (delete_branch z rec p v r e1)
  delete_branch-Pruned rec p v (zk_not_exist, ns) e e1 k l =
      let gone = l.missing refl in
      (TreePost-same l.same, (l.same p ∙ gone, λ r. l.same (child p r) ∙ absent_below e p gone r))
    where
      absent_below :
          (e : z.Env) (p : Bytes) → t.has e p ≡ false → (r : Bytes) → t.has e (child p r) ≡ false
      absent_below e p h r = elim (Bool-cases (t.has e (child p r))) [
        | inl x ↦ cc (t.closed e p r x, h)
        | inr x ↦ x
      ]
  delete_branch-Pruned rec p v (zk_succeed, ns) e e1 k l =
      let d = delete_children-LoopResult z t rec p ns e1 k in
      let listed = λ (q : Bytes) (there : t.has e1 q ≡ true) (under : IsUnder p q).
        l.listed refl q (sym (l.same q) ∙ there) under in
      let b = branch_after-Pruned p v ns e1 _ (delete_children z rec p ns e1).1 listed d in
      (TreePost-trans (TreePost-same l.same) b.0, b.1)
  delete_branch-Pruned rec p v (_, ns) e e1 k l = (TreePost-same l.same, tt)

  pub delete_recursive-Prunes :
      (f : ℕ) (v : ℤ) (p : Bytes) (e : z.Env) → Pruned p e (delete_recursive z f p v e)
  unfolding delete_recursive
  delete_recursive-Prunes zero v p e = (TreePost-same (λ q. refl), tt)
  delete_recursive-Prunes (suc f) v p e =
      delete_branch-Pruned (λ q. delete_recursive z f q (negsuc 0)) p v (get_children z p e).0 e _
        (delete_recursive-Prunes f (negsuc 0)) (get_children-ListPost p e)

  -- On a tree that no other client writes, whatever deleteRecursive returns, a node that is neither the
  -- given one nor below it is there afterwards exactly if it was there before.
  pub delete_recursive_others :
      (f : ℕ) (p q : Bytes) (v : ℤ) (e : z.Env)
      → q ≢ p
      → ¬ IsUnder p q
      → t.has (delete_recursive z f p v e).1 q ≡ t.has e q
  delete_recursive_others f p q v e ne u = (delete_recursive-Prunes f v p e).0.others q ne u

  -- On a tree that no other client writes, where deleteRecursive returns success, or that the node
  -- does not exist, neither the node nor anything below it is left.
  pub delete_recursive_clears :
      (f : ℕ) (p r : Bytes) (v : ℤ) (e : z.Env) (ec : ZkErrorCode)
      → (delete_recursive z f p v e).0 ≡ some ec
      → (ec ≡ zk_succeed) ⊎ (ec ≡ zk_not_exist)
      → let e1 = (delete_recursive z f p v e).1 in
        (t.has e1 p ≡ false) × (t.has e1 (child p r) ≡ false)
  delete_recursive_clears f p r v e ec h k =
      let e1 = (delete_recursive z f p v e).1 in
      let d = subst (Clears z t p e1) h (delete_recursive-Prunes f v p e).1 in
      let clear : IsClear z t p e1 = elim k [
        | inl x ↦ subst (λ c. Clears z t p e1 (some c)) x d
        | inr x ↦ subst (λ c. Clears z t p e1 (some c)) x d
      ] in
      (clear.0, clear.1 r)
