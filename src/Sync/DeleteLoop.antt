-- ===== src/Sync/DeleteLoop.antt =====
-- The loop over the children in deleteRecursive, on a tree that no other client writes: what it takes
-- away and what it leaves, given the same of the calls for the children.
use zookeeper_cpp_client.Common.{
  ◌≡◌, ◌≢◌, refl, ◌∙◌, inl, inr, Bool, true, false, List, [], ◌∷◌, Option, some, All, Bool-cases,
}
use zookeeper_cpp_client.Codes.{Bytes, ZkErrorCode, zk_succeed, zk_not_exist}
use zookeeper_cpp_client.Zoo.{St, Zoo, IsTree}
use zookeeper_cpp_client.Zoo.Path.{IsUnder, child, child_of_child}
use zookeeper_cpp_client.Sync.{delete_children, next_child}

module _ (z : Zoo) (t : IsTree z) where
  abbrev pub Shrinks : z.Env → z.Env → Type 0
  Shrinks e e1 = (q : Bytes) → t.has e1 q ≡ true → t.has e q ≡ true

  -- Neither the node nor anything below it is there.
  abbrev pub IsClear : Bytes → z.Env → Type 0
  IsClear p e = (t.has e p ≡ false) × ((r : Bytes) → t.has e (child p r) ≡ false)

  pub record TreePost (p : Bytes) (e e1 : z.Env) : Type 0 where
    pub shrinks : Shrinks e e1
    pub others : (q : Bytes) → q ≢ p → ¬ IsUnder p q → t.has e1 q ≡ t.has e q

  pub record LoopPost (p : Bytes) (e e1 : z.Env) : Type 0 where
    pub shrinks : Shrinks e e1
    pub others : (q : Bytes) → ¬ IsUnder p q → t.has e1 q ≡ t.has e q

  abbrev pub Clears : Bytes → z.Env → Option ZkErrorCode → Type 0
  Clears p e (some zk_succeed) = IsClear p e
  Clears p e (some zk_not_exist) = IsClear p e
  Clears p e _ = Unit

  pub absent-Shrinks :
      {e e1 : z.Env} (q : Bytes) → Shrinks e e1 → t.has e q ≡ false → t.has e1 q ≡ false
  absent-Shrinks {e1 = e1} q s h = elim (Bool-cases (t.has e1 q)) [
    | inl x ↦ cc (s q x, h)
    | inr x ↦ x
  ]

  pub IsClear-Shrinks : {e e1 : z.Env} (p : Bytes) → Shrinks e e1 → IsClear p e → IsClear p e1
  IsClear-Shrinks p s c = (absent-Shrinks p s c.0, λ r. absent-Shrinks (child p r) s (c.1 r))

  LoopPost-refl : (p : Bytes) (e : z.Env) → LoopPost p e e
  LoopPost-refl p e = record { shrinks = λ q h. h; others = λ q u. refl }

  LoopPost-trans :
      {p : Bytes} {e e1 e2 : z.Env} → LoopPost p e e1 → LoopPost p e1 e2 → LoopPost p e e2
  LoopPost-trans l m = record {
    shrinks = λ q h. l.shrinks q (m.shrinks q h);
    others = λ q u. m.others q u ∙ l.others q u;
  }

  -- What happens below a child happens below the node.
  LoopPost-child :
      {p : Bytes} {e e1 : z.Env} (n : Bytes) → TreePost (child p n) e e1 → LoopPost p e e1
  LoopPost-child {p} n b = record {
    shrinks = b.shrinks;
    others = λ q u. b.others q (λ x. u (n, x)) (λ (r, x). u (child n r, x ∙ child_of_child p n r));
  }

  abbrev pub Rec : Type 0
  Rec = Bytes → St z.Env (Option ZkErrorCode)

  abbrev pub Prunes : Rec → Type 0
  Prunes rec = (p : Bytes) (e : z.Env) → TreePost p e (rec p e).1 × Clears p (rec p e).1 (rec p e).0

  abbrev pub LoopResult : Bytes → List Bytes → z.Env → Option Bool × z.Env → Type 0
  LoopResult p ns e r = LoopPost p e r.1 × (r.0 ≡ some true → All (λ n. IsClear (child p n) r.1) ns)

  next_child-LoopResult :
      (p n : Bytes) (ns : List Bytes) (e e1 : z.Env) (o : Option ZkErrorCode)
      (rest : St z.Env (Option Bool))
      → LoopPost p e e1
      → Clears (child p n) e1 o
      → LoopResult p ns e1 (rest e1)
      → LoopResult p (n ∷ ns) e (next_child z o rest e1)
  next_child-LoopResult p n ns e e1 (some zk_succeed) rest l c k =
      (LoopPost-trans l k.0, λ h. (IsClear-Shrinks (child p n) k.0.shrinks c, k.1 h))
  next_child-LoopResult p n ns e e1 (some zk_not_exist) rest l c k =
      (LoopPost-trans l k.0, λ h. (IsClear-Shrinks (child p n) k.0.shrinks c, k.1 h))
  next_child-LoopResult p n ns e e1 _ rest l c k = (l, λ h. cc)

  pub delete_children-LoopResult :
      (rec : Rec) (p : Bytes) (ns : List Bytes) (e : z.Env)
      → Prunes rec
      → LoopResult p ns e (delete_children z rec p ns e)
  unfolding delete_children
  delete_children-LoopResult rec p [] e k = (LoopPost-refl p e, λ h. tt)
  delete_children-LoopResult rec p (n ∷ ns) e k =
      let b = k (child p n) e in
      next_child-LoopResult p n ns e _ (rec (child p n) e).0 (delete_children z rec p ns)
        (LoopPost-child n b.0) b.1 (delete_children-LoopResult rec p ns _ k)
