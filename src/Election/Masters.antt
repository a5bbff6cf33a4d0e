-- ===== src/Election/Masters.antt =====
-- What an election promises, and a list of children that comes late.
use zookeeper_cpp_client.Common.{
  ℕ, ◌≡◌, ◌≢◌, refl, subst, true, false, List, [], some, arith, ◌==◌, if_split, Bool-cases, inl,
  inr,
}
use zookeeper_cpp_client.Common.Std.{contains}
use zookeeper_cpp_client.Common.Steps.{Leads, follow-Leads}
use zookeeper_cpp_client.Codes.{Bytes, zk_existed}
use zookeeper_cpp_client.Sync.{create}
use zookeeper_cpp_client.Servers.{Servers, session, IsOwning}
use zookeeper_cpp_client.Servers.Owning.{create_keeps}
use zookeeper_cpp_client.Election.{
  MasterElection, new_master_election, parent_path, child_path, binding, is_master, retry,
  reg_child_watcher_cb,
}
use zookeeper_cpp_client.Election.World.{World, Action, notified, new_world, with_object, step, run}
use zookeeper_cpp_client.Election.Valid.{
  Owns, IsOwned, IsSafe, step_cases, run-IsOwned, flag_of_master,
}

module _ (s : Servers) (o : IsOwning s) where
  course-IsOwned :
      (e0 : s.Env) (f : ℕ) (acts : List Action) (w : World s)
      → run s f acts (new_world s e0) ≡ some w
      → IsOwned s o w
  unfolding new_master_election
  course-IsOwned e0 f acts w e =
      subst (Leads (IsOwned s o)) e (run-IsOwned s o f acts (new_world s e0) (λ p h. cc h))

  no_other :
      (w : World s) (p q : ℕ)
      → IsOwned s o w
      → (w.object p).is_master_flag ≡ true
      → p ≢ q
      → (w.object q).is_master_flag ≡ false
  no_other w p q v h d = elim (Bool-cases (w.object q).is_master_flag) [
    | inl x ↦ absurd (d (ground (arith, v p h, v q x)))
    | inr x ↦ x
  ]

  -- On servers with `IsOwning`, over every course of steps of any number of objects from their
  -- construction, while no session expires and
  -- only masters are destroyed: when an object is the master, the node belongs to its session, and
  -- no other object is a master. Failing calls, lost answers and callbacks with any list of children
  -- are among the steps.
  pub elects_one :
      (e0 : s.Env) (f : ℕ) (acts : List Action) (w : World s) (p q : ℕ)
      → run s f acts (new_world s e0) ≡ some w
      → is_master (w.object p) ≡ true
      → p ≢ q
      → (o.owner w.env child_path ≡ some p) × (is_master (w.object q) ≡ false)
  elects_one e0 f acts w p q e h d =
      let v = course-IsOwned e0 f acts w e in
      let m = flag_of_master s o (w.object p) h in (v p m, ground (arith, no_other w p q v m d))

  -- The node is the session's, and no object knows itself as the master.
  record IsLeaderless (p : ℕ) (w : World s) : Type 0 where
    owned : Owns s o w.env p
    flags : (q : ℕ) → (w.object q).is_master_flag ≡ false

  safe-IsLeaderless :
      (p q : ℕ) (m : MasterElection) (e : s.Env) (w : World s)
      → IsLeaderless p w
      → IsSafe s o q (w.object q) w.env m e
      → IsLeaderless p (with_object s q m e w)
  safe-IsLeaderless p q m e w v k = record {
    owned = k.keeps p v.owned;
    flags = λ r.
        if_split (λ (x : MasterElection). x.is_master_flag ≡ false) (q == r) m (w.object r)
          (λ x. elim (Bool-cases m.is_master_flag) [
            | inr y ↦ y
            | inl y ↦ elim (k.flag y) [ inl z ↦ cc (z, v.flags q) | inr z ↦ cc (z.0, v.owned) ]
          ])
          (λ x. v.flags r);
  }

  run-IsLeaderless :
      (p f : ℕ) (acts : List Action) (w : World s)
      → IsLeaderless p w
      → Leads (IsLeaderless p) (run s f acts w)
  unfolding run
  run-IsLeaderless p f acts w v =
      follow-Leads (IsLeaderless p) (step s f)
        (λ a x k. step_cases s o (IsLeaderless p) f a x (record {
          safe = λ q m e h. safe-IsLeaderless p q m e x k h;
          destroyed = λ q h. cc (flag_of_master s o (x.object q) h, k.flags q);
          passed =
              λ n. record { owned = o.passes_keeps n x.env child_path p k.owned; flags = k.flags };
        }))
        acts w v

  late_callback :
      (p : ℕ) (names : List Bytes) (m : MasterElection) (e : s.Env)
      → contains binding names ≡ false
      → (create (session s p) child_path [] true false e).0.0 ≡ zk_existed
      → reg_child_watcher_cb s p parent_path names m e
        ≡ some (
          record m { is_master_flag = false },
          (create (session s p) child_path [] true false e).1,
        )
  unfolding reg_child_watcher_cb retry
  late_callback p names m e c x = rw (c, x) refl

  -- On servers with `IsOwning`, when a list of children without "binding" reaches the master, its create is refused because of
  -- its own node, and it takes itself for a slave: over every later course of steps, while no session
  -- expires, the node stays and no object is a master.
  pub late_list_leaves_no_master :
      (e0 : s.Env) (f : ℕ) (before acts : List Action) (w w1 w2 : World s) (p q : ℕ)
      (names : List Bytes)
      → run s f before (new_world s e0) ≡ some w
      → is_master (w.object p) ≡ true
      → contains binding names ≡ false
      → (create (session s p) child_path [] true false w.env).0.0 ≡ zk_existed
      → step s f (notified p parent_path names) w ≡ some w1
      → run s f acts w1 ≡ some w2
      → (o.owner w2.env child_path ≡ some p) × (is_master (w2.object q) ≡ false)
  late_list_leaves_no_master e0 f before acts w w1 w2 p q names e h c x y z =
      let v = course-IsOwned e0 f before w e in
      let m = flag_of_master s o (w.object p) h in
      let e1 = (create (session s p) child_path [] true false w.env).1 in
      let demoted = record (w.object p) { is_master_flag = false } in
      let start : IsLeaderless p (with_object s p demoted e1 w) = record {
        owned = create_keeps s o p child_path [] true false child_path w.env p (v p m);
        flags = λ r.
            if_split (λ (k : MasterElection). k.is_master_flag ≡ false) (p == r) demoted
              (w.object r) (λ b. refl) (λ b. no_other w p r v m (ground (arith, b)));
      } in
      let reached : Leads (IsLeaderless p) (step s f (notified p parent_path names) w) =
        rw (late_callback p names (w.object p) w.env c x) start in
      let v1 = subst (Leads (IsLeaderless p)) y reached in
      let v2 = subst (Leads (IsLeaderless p)) z (run-IsLeaderless p f acts w1 v1) in
      (v2.owned, ground (arith, v2.flags q))
