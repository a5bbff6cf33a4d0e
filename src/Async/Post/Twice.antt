-- ===== src/Async/Post/Twice.antt =====
-- How often the two functors call the user's handler.
use zookeeper_cpp_client.Common.{
  ℕ, ◌+◌, ◌≡◌, ◌≢◌, refl, Bool, true, false, List, [], ◌∷◌, Option, none, some, arith, negsuc,
  length, take, length-take-le, ap, sym, subst, ◌∙◌, ◌<◌,
}
use zookeeper_cpp_client.Sync.CreateDir.{dir_ends}
use zookeeper_cpp_client.Sync.DeleteTree.{
  delete_recursive-Prunes, get_children-ListPost, below-Lists,
}
use zookeeper_cpp_client.Sync.DeleteLoop.{delete_children-LoopResult}
use zookeeper_cpp_client.Sync.DeleteTotal.{
  IsBounded, IsBounded-Shrinks, loop_ends, delete_recursive_ends,
}
use zookeeper_cpp_client.Codes.{Bytes, Rc, ZkErrorCode, zk_succeed, zk_not_exist}
use zookeeper_cpp_client.Zoo.{St, Zoo, IsTree}
use zookeeper_cpp_client.Zoo.Path.{slash, rfind, child, rfind-lt-length}
use zookeeper_cpp_client.Sync.{
  get_children, create_persistent_dir, delete_recursive, delete_children, next_child,
}
use zookeeper_cpp_client.Async.{OperateContext, issue}
use zookeeper_cpp_client.Async.Post.{
  CreateContext, DeleteContext, Posted, delete_failed, create_leaf, create_below,
  post_create_parent_and_node, Deleting, next_child_node, delete_child_nodes, behind_loop,
  delete_listed, post_delete_recursive,
}

-- The calls made and the call that a request still owes.
abbrev pub owed : Option OperateContext → ℕ
owed none = 0
owed (some c) = 1

abbrev pub answers : Posted → ℕ
answers p = length p.told + owed p.request

abbrev Answered : ℕ → Option Posted → Type 0
Answered n none = Unit
Answered n (some p) = answers p ≡ n

module _ (z : Zoo) (fuel : ℕ) (rc : Rc) where
  create_leaf-once :
      (c : CreateContext) (o : Option Bool) (e : z.Env) → Answered 1 (create_leaf z fuel rc c o e).0
  unfolding issue
  create_leaf-once c none e = tt
  create_leaf-once c (some true) e = ground arith
  create_leaf-once c (some false) e = refl

  create_below-once :
      (c : CreateContext) (o : Option ℕ) (e : z.Env) → Answered 1 (create_below z fuel rc c o e).0
  create_below-once c none e = refl
  create_below-once c (some i) e = create_leaf-once c _ _

  create_leaf-ends :
      (c : CreateContext) (o : Option Bool) (e : z.Env)
      → o ≢ none
      → (create_leaf z fuel rc c o e).0 ≢ none
  create_leaf-ends c none e h = absurd (h refl)
  create_leaf-ends c (some true) e h = λ x. cc
  create_leaf-ends c (some false) e h = λ x. cc

  create_below-ends :
      (t : IsTree z) (c : CreateContext) (o : Option ℕ) (e : z.Env)
      → rfind slash c.path ≡ o
      → length c.path + 1 < fuel
      → (create_below z fuel rc c o e).0 ≢ none
  create_below-ends t c none e k h = λ x. cc
  create_below-ends t c (some i) e k h =
      let short = rfind-lt-length slash c.path i k in
      create_leaf-ends c _ (create_persistent_dir z fuel (take i c.path) e).1
        (dir_ends z t fuel (take i c.path) e (omega (arith, length-take-le i c.path)))

  opened :
      (o : Option Posted) → o ≢ none → Answered 1 o → (p : Posted) × (o ≡ some p) × (answers p ≡ 1)
  opened none h a = absurd (h refl)
  opened (some p) h a = (p, refl, a)

  -- On a tree that no other client writes, postCreateParentAndNode comes to its end, and then it has
  -- either called the handler once or left one request with the library, and never both.
  pub post_create_answers_once :
      (t : IsTree z) (c : CreateContext) (e : z.Env)
      → length c.path + 1 < fuel
      → (p : Posted) × ((post_create_parent_and_node z fuel rc c e).0 ≡ some p) × (answers p ≡ 1)
  unfolding post_create_parent_and_node
  post_create_answers_once t c e h =
      opened (create_below z fuel rc c (rfind slash c.path) e).0
        (create_below-ends t c (rfind slash c.path) e refl h)
        (create_below-once c (rfind slash c.path) e)

  abbrev loop : DeleteContext → List Bytes → z.Env → Option Bool × z.Env
  loop c ns e = delete_children z (λ p. delete_recursive z fuel p (negsuc 0)) c.path ns e

  -- What the loop of postDeleteRecursive makes of the result of deleteRecursive's loop.
  abbrev verdict : DeleteContext → Option Bool → Option Deleting
  verdict c none = none
  verdict c (some true) = some (record { told = []; delete_child_failed = false })
  verdict c (some false) = some (record { told = delete_failed c ∷ []; delete_child_failed = true })

  next-verdict :
      (c : DeleteContext) (o : Option ZkErrorCode) (rest : St z.Env (Option Deleting))
      (plain : St z.Env (Option Bool)) (e : z.Env)
      → rest e ≡ (verdict c (plain e).0, (plain e).1)
      → next_child_node z fuel rc c o rest e
        ≡ (verdict c (next_child z o plain e).0, (next_child z o plain e).1)
  next-verdict c none rest plain e h = refl
  next-verdict c (some zk_succeed) rest plain e h = h
  next-verdict c (some zk_not_exist) rest plain e h = h
  next-verdict c (some _) rest plain e h = refl

  loop-verdict :
      (c : DeleteContext) (ns : List Bytes) (e : z.Env)
      → delete_child_nodes z fuel rc c ns e ≡ (verdict c (loop c ns e).0, (loop c ns e).1)
  unfolding delete_child_nodes delete_children
  loop-verdict c [] e = refl
  loop-verdict c (n ∷ ns) e =
      let r = delete_recursive z fuel (child c.path n) (negsuc 0) e in
      next-verdict c r.0 (delete_child_nodes z fuel rc c ns) (loop c ns) r.1 (loop-verdict c ns r.1)

  -- Behind getChildren, from the result of the loop.
  abbrev behind : DeleteContext → ZkErrorCode × List Bytes → z.Env → Option Posted × z.Env
  behind c r e = behind_loop z fuel rc c (verdict c (loop c r.1 e).0) (loop c r.1 e).1

  listed-behind :
      (c : DeleteContext) (r : ZkErrorCode × List Bytes) (e : z.Env)
      → r.0 ≡ zk_succeed
      → delete_listed z fuel rc c r e ≡ behind c r e
  listed-behind c (zk_succeed, ns) e h = rw (loop-verdict c ns e) refl
  listed-behind c (_, ns) e h = cc h

  behind-same :
      (c : DeleteContext) (o : Option Bool) (e : z.Env)
      → (behind_loop z fuel rc c (verdict c o) e).1 ≡ e
  behind-same c none e = refl
  behind-same c (some true) e = refl
  behind-same c (some false) e = refl

  branch-once :
      (c : DeleteContext) (o : Option Bool) (e : z.Env)
      → o ≢ some false
      → Answered 1 (behind_loop z fuel rc c (verdict c o) e).0
  unfolding issue
  branch-once c none e h = tt
  branch-once c (some true) e h = ground arith
  branch-once c (some false) e h = absurd (h refl)

  listed-once :
      (c : DeleteContext) (r : ZkErrorCode × List Bytes) (e : z.Env)
      → (loop c r.1 e).0 ≢ some false
      → Answered 1 (delete_listed z fuel rc c r e).0
  listed-once c (zk_not_exist, ns) e h = refl
  listed-once c (zk_succeed, ns) e h =
      subst (λ x. Answered 1 x.0) (sym (listed-behind c (zk_succeed, ns) e refl))
        (branch-once c (loop c ns e).0 (loop c ns e).1 h)
  listed-once c (_, ns) e h = refl

  -- The loop over the children in postDeleteRecursive.
  abbrev pub loop_of : DeleteContext → z.Env → Option Bool
  loop_of c e =
      let (r, e1) = get_children z c.path e in
      (delete_children z (λ p. delete_recursive z fuel p (negsuc 0)) c.path r.1 e1).0

  abbrev pub listed : DeleteContext → z.Env → ZkErrorCode
  listed c e = (get_children z c.path e).0.0

  branch-ends :
      (c : DeleteContext) (o : Option Bool) (e : z.Env)
      → o ≢ none
      → (behind_loop z fuel rc c (verdict c o) e).0 ≢ none
  branch-ends c none e h = absurd (h refl)
  branch-ends c (some true) e h = λ x. cc
  branch-ends c (some false) e h = λ x. cc

  listed-ends :
      (c : DeleteContext) (r : ZkErrorCode × List Bytes) (e : z.Env)
      → (loop c r.1 e).0 ≢ none
      → (delete_listed z fuel rc c r e).0 ≢ none
  listed-ends c (zk_not_exist, ns) e h = λ x. cc
  listed-ends c (zk_succeed, ns) e h =
      subst (λ x. x.0 ≢ none) (sym (listed-behind c (zk_succeed, ns) e refl))
        (branch-ends c (loop c ns e).0 (loop c ns e).1 h)
  listed-ends c (_, ns) e h = λ x. cc

  loop-ends :
      (t : IsTree z) (limit : ℕ) (c : DeleteContext) (e : z.Env)
      → IsBounded z t limit e
      → limit + 1 < fuel
      → loop_of c e ≢ none
  loop-ends t limit c e b h =
      let (r, e1) = get_children z c.path e in
      loop_ends z t limit (λ p. delete_recursive z fuel p (negsuc 0)) c.path r.1 e1
        (delete_recursive-Prunes z t fuel (negsuc 0))
        (λ n e2 b2. delete_recursive_ends z t limit fuel (child c.path n) (negsuc 0) e2 b2 h)
        (IsBounded-Shrinks z t limit (λ q x. sym ((get_children-ListPost z t c.path e).same q) ∙ x)
          b)

  -- On a tree that no other client writes and whose paths are no longer than `limit`, where no child
  -- fails to be deleted, postDeleteRecursive comes to its end, and then it has either called the
  -- handler once or left one request with the library, and never both.
  pub post_delete_answers_once :
      (t : IsTree z) (limit : ℕ) (c : DeleteContext) (e : z.Env)
      → IsBounded z t limit e
      → limit + 1 < fuel
      → loop_of c e ≢ some false
      → (p : Posted) × ((post_delete_recursive z fuel rc c e).0 ≡ some p) × (answers p ≡ 1)
  unfolding post_delete_recursive
  post_delete_answers_once t limit c e b l h =
      let (r, e1) = get_children z c.path e in
      opened (delete_listed z fuel rc c r e1).0 (listed-ends c r e1 (loop-ends t limit c e b l))
        (listed-once c r e1 h)

  -- The loop that passes all children leaves nothing below the path.
  passed-clears :
      (t : IsTree z) (c : DeleteContext) (e : z.Env) (r : Bytes)
      → listed c e ≡ zk_succeed
      → loop_of c e ≡ some true
      → let (l, e1) = get_children z c.path e in t.has (loop c l.1 e1).1 (child c.path r) ≡ false
  passed-clears t c e r h k =
      let (l, e1) = get_children z c.path e in
      let g = get_children-ListPost z t c.path e in
      let rec = λ (p : Bytes). delete_recursive z fuel p (negsuc 0) in
      let d =
        delete_children-LoopResult z t rec c.path l.1 e1
          (delete_recursive-Prunes z t fuel (negsuc 0)) in
      below-Lists z t c.path l.1 e1 (loop c l.1 e1).1
        (λ q x under. g.listed h q (sym (g.same q) ∙ x) under) d.0.shrinks (d.1 k) r

  end_of :
      (c : DeleteContext) (e : z.Env)
      → listed c e ≡ zk_succeed
      → let (l, e1) = get_children z c.path e in
        (post_delete_recursive z fuel rc c e ≡ behind c l e1)
        × ((post_delete_recursive z fuel rc c e).1 ≡ (loop c l.1 e1).1)
  unfolding post_delete_recursive
  end_of c e h =
      let (l, e1) = get_children z c.path e in
      let same = listed-behind c l e1 h in
      (same, ap (λ x. x.1) same ∙ behind-same c (loop c l.1 e1).0 (loop c l.1 e1).1)

  -- On a tree that no other client writes and whose paths are no longer than `limit`: where
  -- postDeleteRecursive has listed the children and leaves a node below its path, it has called the
  -- handler twice with the same failure, once in the loop and once at the label behind it, and it has
  -- made no request.
  pub post_delete_tells_twice :
      (t : IsTree z) (limit : ℕ) (c : DeleteContext) (e : z.Env) (r : Bytes)
      → IsBounded z t limit e
      → limit + 1 < fuel
      → listed c e ≡ zk_succeed
      → t.has (post_delete_recursive z fuel rc c e).1 (child c.path r) ≡ true
      → (post_delete_recursive z fuel rc c e).0
        ≡ some (record { told = delete_failed c ∷ delete_failed c ∷ []; request = none })
  post_delete_tells_twice t limit c e r b l h left = failed (loop_of c e) refl
    where
      failed :
          (o : Option Bool)
          → loop_of c e ≡ o
          → (post_delete_recursive z fuel rc c e).0
            ≡ some (record { told = delete_failed c ∷ delete_failed c ∷ []; request = none })
      failed none k = absurd (loop-ends t limit c e b l k)
      failed (some true) k = absurd (
          cc (passed-clears t c e r h k, ap (λ x. t.has x (child c.path r)) (end_of c e h).1, left))
      failed (some false) k = ap (λ x. x.0) (end_of c e h).0 ∙ rw k refl
