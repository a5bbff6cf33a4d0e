-- ===== src/Sync/DeleteTotal.antt =====
-- deleteRecursive comes to an end on a tree of bounded path length, and it succeeds where the
-- connection holds and no call fails for reasons of its own.
use zookeeper_cpp_client.Common.{
  ℕ, zero, suc, ◌+◌, ◌≤◌, ◌<◌, ◌≡◌, ◌≢◌, refl, ap, ◌∙◌, sym, subst, ◌⊎◌, inl, inr, Bool, true,
  false, List, [], ◌∷◌, Option, none, some, arith, ℤ, negsuc, length, All,
}
use zookeeper_cpp_client.Codes.{Bytes, ZkErrorCode, zk_succeed, zk_not_exist}
use zookeeper_cpp_client.Zoo.{Zoo, IsTree, IsReliable}
use zookeeper_cpp_client.Zoo.Path.{IsUnder, child, length-child}
use zookeeper_cpp_client.Sync.{
  get_children, delete_node, delete_children, next_child, branch_after, delete_branch,
  delete_recursive,
}
use zookeeper_cpp_client.Sync.DeleteLoop.{Shrinks, Rec, Prunes, delete_children-LoopResult}
use zookeeper_cpp_client.Sync.DeleteTree.{
  get_children-ListPost, ListPost, names-get_children, delete_recursive-Prunes,
  delete_recursive_clears, below-Lists,
}

module _ (z : Zoo) (t : IsTree z) (limit : ℕ) where
  -- No path is longer than `limit`.
  abbrev pub IsBounded : z.Env → Type 0
  IsBounded e = (q : Bytes) → t.has e q ≡ true → length q ≤ limit

  pub IsBounded-Shrinks : {e e1 : z.Env} → Shrinks z t e e1 → IsBounded e → IsBounded e1
  IsBounded-Shrinks s b q h = b q (s q h)

  -- Below `p` the calls end.
  abbrev pub ChildrenEnd : Rec z t → Bytes → Type 0
  ChildrenEnd rec p = (n : Bytes) (e : z.Env) → IsBounded e → (rec (child p n) e).0 ≢ none

  pub loop_ends :
      (rec : Rec z t) (p : Bytes) (ns : List Bytes) (e : z.Env)
      → Prunes z t rec
      → ChildrenEnd rec p
      → IsBounded e
      → (delete_children z rec p ns e).0 ≢ none
  unfolding delete_children
  loop_ends rec p [] e k c b = λ x. cc
  loop_ends rec p (n ∷ ns) e k c b = next (rec (child p n) e).0 (c n e b) (
      loop_ends rec p ns (rec (child p n) e).1 k c
        (IsBounded-Shrinks ((k (child p n) e).0.shrinks) b))
    where
      next :
          (o : Option ZkErrorCode)
          → o ≢ none
          → (delete_children z rec p ns (rec (child p n) e).1).0 ≢ none
          → (next_child z o (delete_children z rec p ns) (rec (child p n) e).1).0 ≢ none
      next none h r = absurd (h refl)
      next (some zk_succeed) h r = r
      next (some zk_not_exist) h r = r
      next (some _) h r = λ x. cc

  branch_after_ends :
      (p : Bytes) (v : ℤ) (o : Option Bool) (e : z.Env)
      → o ≢ none
      → (branch_after z p v o e).0 ≢ none
  branch_after_ends p v none e h = absurd (h refl)
  branch_after_ends p v (some true) e h = λ x. cc
  branch_after_ends p v (some false) e h = λ x. cc

  delete_branch_ends :
      (rec : Rec z t) (p : Bytes) (v : ℤ) (r : ZkErrorCode × List Bytes) (e : z.Env)
      → Prunes z t rec
      → (r.0 ≡ zk_succeed → ChildrenEnd rec p)
      → IsBounded e
      → (delete_branch z rec p v r e).0 ≢ none
  delete_branch_ends rec p v (zk_not_exist, ns) e k c b = λ x. cc
  delete_branch_ends rec p v (zk_succeed, ns) e k c b =
      branch_after_ends p v _ (delete_children z rec p ns e).1 (loop_ends rec p ns e k (c refl) b)
  delete_branch_ends rec p v (_, ns) e k c b = λ x. cc

  delete_ends :
      (f : ℕ) (p : Bytes) (v : ℤ) (e : z.Env)
      → IsBounded e
      → 0 < f
      → limit + 1 < length p + f
      → (delete_recursive z f p v e).0 ≢ none
  unfolding delete_recursive
  delete_ends zero p v e b h l = absurd (omega arith)
  delete_ends (suc f) p v e b h l =
      let g = get_children-ListPost z t p e in
      delete_branch_ends (λ q. delete_recursive z f q (negsuc 0)) p v (get_children z p e).0 _
        (delete_recursive-Prunes z t f (negsuc 0))
        (λ ok n e1 b1.
          delete_ends f (child p n) (negsuc 0) e1 b1 (omega (arith, b p (g.present ok)))
            (omega (arith, length-child p n)))
        (IsBounded-Shrinks (λ q x. sym (g.same q) ∙ x) b)

  -- On a tree that no other client writes and whose paths are no longer than a limit, deleteRecursive
  -- comes to an end, in a depth of calls that the limit bounds.
  pub delete_recursive_ends :
      (f : ℕ) (p : Bytes) (v : ℤ) (e : z.Env)
      → IsBounded e
      → limit + 1 < f
      → (delete_recursive z f p v e).0 ≢ none
  delete_recursive_ends f p v e b h = delete_ends f p v e b (omega arith) (omega arith)

  module _ (rel : IsReliable z) where
    abbrev ChildrenSucceed : Rec z t → Bytes → Type 0
    ChildrenSucceed rec p =
        (n : Bytes) (e : z.Env)
        → rel.is_valid (child p n) ≡ true
        → IsBounded e
        → (rec (child p n) e).0 ≡ some zk_succeed

    abbrev ChildrenValid : Bytes → List Bytes → Type 0
    ChildrenValid p ns = All (λ n. rel.is_valid (child p n) ≡ true) ns

    loop_total :
        (rec : Rec z t) (p : Bytes) (ns : List Bytes) (e : z.Env)
        → Prunes z t rec
        → ChildrenSucceed rec p
        → ChildrenValid p ns
        → IsBounded e
        → (delete_children z rec p ns e).0 ≡ some true
    unfolding delete_children
    loop_total rec p [] e k c w b = refl
    loop_total rec p (n ∷ ns) e k c w b = rw (c n e w.0 b) (
        loop_total rec p ns (rec (child p n) e).1 k c w.1
          (IsBounded-Shrinks ((k (child p n) e).0.shrinks) b))

    delete_node_total :
        (p : Bytes) (e : z.Env)
        → rel.is_valid p ≡ true
        → t.has e p ≡ true
        → ((r : Bytes) → t.has e (child p r) ≡ false)
        → (delete_node z p (negsuc 0) e).0 ≡ zk_succeed
    unfolding delete_node
    delete_node_total p e w there none_below = elim (rel.delete_rc p e w) [
      | inl ok ↦ ground (arith, ok, rel.connected e)
      | inr (inl missing) ↦ cc (t.delete_znonode p (negsuc 0) e missing, there)
      | inr (inr full) ↦
          let (r, below) = t.delete_znotempty p (negsuc 0) e full in cc (below, none_below r)
    ]

    not-IsUnder_itself : (p : Bytes) → ¬ IsUnder p p
    not-IsUnder_itself p (r, h) = absurd (omega (arith, length-child p r, ap (length {0}) h))

    branch_total :
        (rec : Rec z t) (p : Bytes) (r : ZkErrorCode × List Bytes) (e e1 : z.Env)
        → Prunes z t rec
        → rel.is_valid p ≡ true
        → (r.0 ≡ zk_succeed → ChildrenValid p r.1)
        → (r.0 ≡ zk_succeed → ChildrenSucceed rec p)
        → IsBounded e1
        → ListPost z t p e r e1
        → (r.0 ≡ zk_succeed) ⊎ (r.0 ≡ zk_not_exist)
        → (delete_branch z rec p (negsuc 0) r e1).0 ≡ some zk_succeed
    branch_total rec p (zk_succeed, ns) e e1 k w v c b l a =
        let done = loop_total rec p ns e1 k (c refl) (v refl) b in
        let d = delete_children-LoopResult z t rec p ns e1 k in
        let e2 = (delete_children z rec p ns e1).1 in
        let there = d.0.others p (not-IsUnder_itself p) ∙ l.same p ∙ l.present refl in
        let listed = λ (q : Bytes) (h : t.has e1 q ≡ true) (under : IsUnder p q).
          l.listed refl q (sym (l.same q) ∙ h) under in
        rw done (
          ap some (
            delete_node_total p e2 w there
              (below-Lists z t p ns e1 e2 listed d.0.shrinks (d.1 done))))
    branch_total rec p (zk_not_exist, ns) e e1 k w v c b l a = refl
    branch_total rec p (_, ns) e e1 k w v c b l a = ground arith

    list_answers :
        (p : Bytes) (e : z.Env)
        → rel.is_valid p ≡ true
        → ((get_children z p e).0.0 ≡ zk_succeed) ⊎ ((get_children z p e).0.0 ≡ zk_not_exist)
    unfolding get_children
    list_answers p e w = ground (arith, rel.connected e, rel.children_rc p e w)

    list_valid :
        (p : Bytes) (e : z.Env)
        → rel.is_valid p ≡ true
        → (get_children z p e).0.0 ≡ zk_succeed
        → ChildrenValid p (get_children z p e).0.1
    list_valid p e w h =
        let (ok, same) = names-get_children z t p e h in
        subst (ChildrenValid p) same (rel.valid_children p e w ok)

    delete_total :
        (f : ℕ) (p : Bytes) (e : z.Env)
        → rel.is_valid p ≡ true
        → IsBounded e
        → 0 < f
        → limit + 1 < length p + f
        → (delete_recursive z f p (negsuc 0) e).0 ≡ some zk_succeed
    unfolding delete_recursive
    delete_total zero p e w b h l = absurd (omega arith)
    delete_total (suc f) p e w b h l =
        let g = get_children-ListPost z t p e in
        branch_total (λ q. delete_recursive z f q (negsuc 0)) p (get_children z p e).0 e _
          (delete_recursive-Prunes z t f (negsuc 0)) w (list_valid p e w)
          (λ ok n e1 wn b1.
            delete_total f (child p n) e1 wn b1 (omega (arith, b p (g.present ok)))
              (omega (arith, length-child p n)))
          (IsBounded-Shrinks (λ q x. sym (g.same q) ∙ x) b) g (list_answers p e w)

    -- On a tree that no other client writes and whose paths are no longer than `limit`, with a
    -- connection that holds and calls that do not fail for other reasons, deleteRecursive with version
    -- -1 of a valid path at which a node is there returns success, and then neither the node nor
    -- anything below it is left.
    pub delete_recursive_total :
        (f : ℕ) (p r : Bytes) (e : z.Env)
        → rel.is_valid p ≡ true
        → t.has e p ≡ true
        → IsBounded e
        → limit + 1 < f
        → let (ec, e1) = delete_recursive z f p (negsuc 0) e in
          (ec ≡ some zk_succeed) × (t.has e1 p ≡ false) × (t.has e1 (child p r) ≡ false)
    delete_recursive_total f p r e w there b h =
        let ok = delete_total f p e w b (omega arith) (omega arith) in
        let d = delete_recursive_clears z t f p r (negsuc 0) e zk_succeed ok (inl refl) in
        (ok, d.0, d.1)

    -- The same call where no node is there returns success too, and not kZKNotExist.
    missing_node_succeeds :
        (f : ℕ) (p : Bytes) (e : z.Env)
        → rel.is_valid p ≡ true
        → t.has e p ≡ false
        → IsBounded e
        → limit + 1 < f
        → ((delete_recursive z f p (negsuc 0) e).0 ≡ some zk_succeed)
          × ((delete_recursive z f p (negsuc 0) e).0 ≢ some zk_not_exist)
    missing_node_succeeds f p e w gone b h =
        let ok = delete_total f p e w b (omega arith) (omega arith) in (ok, λ x. cc)
