-- ===== src/Lock/Abandoned.antt =====
-- An unlock that returns true and leaves the node: what it does to the lock.
use zookeeper_cpp_client.Common.{
  ℕ, suc, ◌≡◌, ◌≢◌, refl, subst, ap, ◌∙◌, Bool, true, false, List, [], Option, none, some, arith,
  if_split, ◌==◌, if_cases,
}
use zookeeper_cpp_client.Common.Steps.{Leads, follow-Leads}
use zookeeper_cpp_client.Codes.{Bytes, zk_succeed}
use zookeeper_cpp_client.Zoo.Path.{child}
use zookeeper_cpp_client.Sync.{get_children, delete_recursive, delete_children, delete_node}
use zookeeper_cpp_client.Servers.{Servers, session, IsOwning}
use zookeeper_cpp_client.Servers.Owning.{get_children_owner}
use zookeeper_cpp_client.Lock.{DistriLock, parent_path, unlock, create_child, reg_child_watcher_cb}
use zookeeper_cpp_client.Lock.World.{
  Phase, idle, trying, waiting, holding, Worker, World, Action, locks, creates, waits, notified,
  wakes, unlocks, passes, after_create, locked, notify, told, created, perform, step, with_phase,
  allows, start, run,
}
use zookeeper_cpp_client.Lock.Valid.{
  Owns, create_child_keeps, create_child_own, after_create_holding, notify_holding,
  locked_not_holding, is_holding_phase, excluded,
}
use zookeeper_cpp_client.Lock.Exclusion.{course-IsValid}

module _ (s : Servers) (o : IsOwning s) (name : Bytes) (p : ℕ) where
  -- The node is the session's, and no thread holds the lock.
  record IsStuck (w : World s) : Type 0 where
    named : (q : ℕ) → (w.worker q).lock.child_node_name ≡ name
    owned : Owns s o name w.env p
    outside : (q : ℕ) → (w.worker q).phase ≢ holding

  with_phase-IsStuck :
      (q : ℕ) (f : Phase) (w : World s)
      → ((r : ℕ) → (w.worker r).lock.child_node_name ≡ name)
      → Owns s o name w.env p
      → ((r : ℕ) → q ≢ r → (w.worker r).phase ≢ holding)
      → f ≢ holding
      → IsStuck (with_phase s q f w)
  with_phase-IsStuck q f w n own others d = record {
    named = λ r.
        if_cases (λ (k : Worker). k.lock.child_node_name ≡ name) (q == r)
          (record { lock = (w.worker q).lock; phase = f }) (w.worker r) (n q) (n r);
    owned = own;
    outside = λ r.
        if_split (λ (k : Worker). k.phase ≢ holding) (q == r)
          (record { lock = (w.worker q).lock; phase = f }) (w.worker r) (λ x. d)
          (λ x. others r (ground (arith, x)));
  }

  moved-IsStuck :
      (q : ℕ) (f : Phase) (w : World s) → IsStuck w → f ≢ holding → IsStuck (with_phase s q f w)
  moved-IsStuck q f w v d = with_phase-IsStuck q f w v.named v.owned (λ r x. v.outside r) d

  created-IsStuck : (q : ℕ) (w : World s) → IsStuck w → IsStuck (created s q w)
  created-IsStuck q w v =
      let (ec, e) = create_child s q (w.worker q).lock w.env in
      with_phase-IsStuck q (after_create ec) (record w { env = e }) v.named
        (create_child_keeps s o name q p (w.worker q).lock w.env v.owned) (λ r x. v.outside r)
        (λ h. cc (
          v.owned,
          (create_child_own s o name q (w.worker q).lock w.env (v.named q)
              (after_create_holding ec h)).0,
        ))

  told-IsStuck : (q : ℕ) (b : Option Bool) (w : World s) → IsStuck w → Leads IsStuck (told s q b w)
  told-IsStuck q none w v = tt
  told-IsStuck q (some b) w v =
      moved-IsStuck q (notify b (w.worker q).phase) w v
        (λ h. v.outside q (notify_holding b (w.worker q).phase h))

  perform-IsStuck :
      (f : ℕ) (a : Action) (w : World s)
      → IsStuck w
      → allows a (λ q. (w.worker q).phase) ≡ true
      → Leads IsStuck (perform s f a w)
  perform-IsStuck f (locks q) w v h =
      moved-IsStuck q (locked (w.worker q).lock.is_init) w v
        (locked_not_holding (w.worker q).lock.is_init)
  perform-IsStuck f (creates q) w v h = created-IsStuck q w v
  perform-IsStuck f (waits q) w v h = moved-IsStuck q waiting w v (λ e. cc e)
  perform-IsStuck f (notified q path names) w v h =
      told-IsStuck q (reg_child_watcher_cb path names (w.worker q).lock) w v
  perform-IsStuck f (wakes q) w v h = moved-IsStuck q trying w v (λ e. cc e)
  perform-IsStuck f (unlocks q) w v h = absurd (v.outside q (is_holding_phase (w.worker q).phase h))
  perform-IsStuck f (passes n) w v h = record {
    named = v.named;
    owned = o.passes_keeps n w.env (child parent_path name) p v.owned;
    outside = v.outside;
  }

  run-IsStuck :
      (f : ℕ) (acts : List Action) (w : World s) → IsStuck w → Leads IsStuck (run s f acts w)
  unfolding run
  run-IsStuck f acts w v =
      follow-Leads IsStuck (step s f)
        (λ a x k.
          if_split (Leads IsStuck) (allows a (λ q. (x.worker q).phase)) (perform s f a x) none
            (perform-IsStuck f a x k) (λ y. tt))
        acts w v

  -- deleteRecursive of the node, which has no children, when the connection is lost behind getChildren.
  unlock_lost :
      (f : ℕ) (l : DistriLock) (e : s.Env)
      → l.child_node_name ≡ name
      → (get_children (session s p) (child parent_path name) e).0 ≡ (zk_succeed, [])
      → let e1 = (get_children (session s p) (child parent_path name) e).1 in
        s.is_connected p e1 ≡ false → unlock s p (suc f) l e ≡ (some true, e1)
  unfolding unlock delete_recursive delete_children delete_node
  unlock_lost f l e n g c = rw (n, g, c) refl

module _ (s : Servers) (o : IsOwning s) (name : Bytes) (objects : ℕ → DistriLock) (e0 : s.Env) where
  -- On servers with `IsOwning`, when the connection of a holder is lost between the two calls of deleteRecursive, unlock returns
  -- true although the node stays: over every later course of steps, while no session expires, no
  -- thread holds the lock again.
  pub unlock_abandons :
      (f : ℕ) (before acts : List Action) (w w1 w2 : World s) (p q : ℕ)
      → ((p : ℕ) → (objects p).child_node_name ≡ name)
      → run s (suc f) before (start s e0 objects) ≡ some w
      → (w.worker p).phase ≡ holding
      → (get_children (session s p) (child parent_path name) w.env).0 ≡ (zk_succeed, [])
      → s.is_connected p (get_children (session s p) (child parent_path name) w.env).1 ≡ false
      → step s (suc f) (unlocks p) w ≡ some w1
      → run s (suc f) acts w1 ≡ some w2
      → ((unlock s p (suc f) (w.worker p).lock w.env).0 ≡ some true)
        × ((w2.worker q).phase ≢ holding)
  unlock_abandons f before acts w w1 w2 p q n e h g c x y =
      let v = course-IsValid s o name objects e0 (suc f) before w n e in
      let (_, e1) = get_children (session s p) (child parent_path name) w.env in
      let u = unlock_lost s o name p f (w.worker p).lock w.env (v.named p) g c in
      let own : Owns s o name e1 p =
        get_children_owner s o p (child parent_path name) (child parent_path name) w.env
        ∙ v.owned p h in
      let stuck : IsStuck s o name p (with_phase s p idle (record w { env = e1 })) =
        with_phase-IsStuck s o name p p idle (record w { env = e1 }) v.named own
          (λ r d. excluded s o name w p r v h d) (λ z. cc z) in
      let reached : Leads (IsStuck s o name p) (step s (suc f) (unlocks p) w) = rw (h, u) stuck in
      let v1 = subst (Leads (IsStuck s o name p)) x reached in
      (
        ap (λ r. r.0) u,
        (subst (Leads (IsStuck s o name p)) y (run-IsStuck s o name p (suc f) acts w1 v1)).outside
            q,
      )
