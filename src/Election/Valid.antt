-- ===== src/Election/Valid.antt =====
-- What stays true of the objects of an election and the servers.
use zookeeper_cpp_client.Common.{
  ℕ, ◌≡◌, refl, subst, Bool, true, false, List, [], Option, none, some, arith, ◌==◌, ==_iff,
  if_split, if_cases, ◌⊎◌, inl, inr, not,
}
use zookeeper_cpp_client.Common.Std.{bytes_beq, contains}
use zookeeper_cpp_client.Common.Steps.{Leads, follow-Leads}
use zookeeper_cpp_client.Codes.{Bytes, ZkErrorCode, zk_succeed, zk_existed}
use zookeeper_cpp_client.Sync.{create}
use zookeeper_cpp_client.Servers.{Servers, session, IsOwning}
use zookeeper_cpp_client.Servers.Owning.{create_keeps, create_own}
use zookeeper_cpp_client.Election.{
  MasterElection, parent_path, child_path, binding, parent_made, elected, is_master, init, retry,
  start, reg_child_watcher_cb, destroy,
}
use zookeeper_cpp_client.Election.World.{
  World, Action, inits, starts, notified, destroys, passes, with_object, told, step, run,
}

parent_made_flag :
    (ec : ZkErrorCode) (m : MasterElection) → (parent_made ec m).1.is_master_flag ≡ m.is_master_flag
parent_made_flag zk_succeed m = refl
parent_made_flag zk_existed m = refl
parent_made_flag _ m = refl

elected_flag :
    (ec : ZkErrorCode) (m : MasterElection)
    → (elected ec m).1.is_master_flag ≡ true
    → (m.is_master_flag ≡ true) ⊎ (ec ≡ zk_succeed)
elected_flag zk_succeed m h = inr refl
elected_flag zk_existed m h = cc h
elected_flag _ m h = inl h

module _ (s : Servers) (o : IsOwning s) where
  abbrev pub Owns : s.Env → ℕ → Type 0
  Owns e p = o.owner e child_path ≡ some p

  -- What a call of an object does to the node, and when it makes the object a master.
  pub record IsSafe (p : ℕ) (m : MasterElection) (e : s.Env) (m1 : MasterElection) (e1 : s.Env)
      : Type 0 where
    pub keeps : (r : ℕ) → Owns e r → Owns e1 r
    pub flag :
        m1.is_master_flag ≡ true
        → (m.is_master_flag ≡ true) ⊎ ((o.owner e child_path ≡ none) × Owns e1 p)

  same-IsSafe :
      (p : ℕ) (m m1 : MasterElection) (e : s.Env)
      → m1.is_master_flag ≡ m.is_master_flag
      → IsSafe p m e m1 e
  same-IsSafe p m m1 e h = record { keeps = λ r x. x; flag = λ x. inl (cc (x, h)) }

  retry-IsSafe :
      (p : ℕ) (m : MasterElection) (e : s.Env) → let (r, e1) = retry s p m e in IsSafe p m e r.1 e1
  unfolding retry
  retry-IsSafe p m e = record {
    keeps = λ r h. create_keeps s o p child_path [] true false child_path e r h;
    flag = λ h. elim (elected_flag (create (session s p) child_path [] true false e).0.0 m h) [
      | inl x ↦ inl x
      | inr x ↦ inr (create_own s o p child_path [] e x)
    ];
  }

  init-IsSafe :
      (p : ℕ) (log : Bool) (handle : ℕ) (conn : Bytes) (fun_set : Bool) (m : MasterElection)
      (e : s.Env)
      → let (r, e1) = init s p log handle conn fun_set m e in IsSafe p m e r.1 e1
  unfolding init
  init-IsSafe p log handle conn fun_set m e =
      let m1 = record m { zk_conn_str = conn; has_fun = fun_set } in
      let P : (Bool × MasterElection) × s.Env → Type 0 = λ (r, e1). IsSafe p m e r.1 e1 in
      if_cases P m.is_init _ _ (same-IsSafe p m m e refl) (
        if_cases P (not log) _ _ (same-IsSafe p m m1 e refl) (
          if_cases P (handle == 0) _ _ (same-IsSafe p m m1 e refl) (record {
            keeps = λ r h. create_keeps s o p parent_path [] false false child_path e r h;
            flag = λ h. inl (
                cc
                  (h, parent_made_flag (create (session s p) parent_path [] false false e).0.0 m1));
          })))

  start-IsSafe :
      (p : ℕ) (watched : Bool) (m : MasterElection) (e : s.Env)
      → let (r, e1) = start s p watched m e in IsSafe p m e r.1 e1
  unfolding start
  start-IsSafe p watched m e =
      let P : (Bool × MasterElection) × s.Env → Type 0 = λ (r, e1). IsSafe p m e r.1 e1 in
      if_cases P (not m.is_init) _ _ (same-IsSafe p m m e refl)
        (if_cases P (not watched) _ _ (same-IsSafe p m m e refl) (retry-IsSafe p m e))

  abbrev pub IsSafeResult : ℕ → MasterElection → s.Env → Option (MasterElection × s.Env) → Type 0
  IsSafeResult p m e none = Unit
  IsSafeResult p m e (some (m1, e1)) = IsSafe p m e m1 e1

  reg_child_watcher_cb-IsSafeResult :
      (p : ℕ) (path : Bytes) (names : List Bytes) (m : MasterElection) (e : s.Env)
      → IsSafeResult p m e (reg_child_watcher_cb s p path names m e)
  unfolding reg_child_watcher_cb
  reg_child_watcher_cb-IsSafeResult p path names m e =
      if_cases (IsSafeResult p m e) (not (bytes_beq path parent_path)) none _ tt (
        if_cases (IsSafeResult p m e) (contains binding names) _ _ (same-IsSafe p m m e refl)
          (retry-IsSafe p m e))

  -- Every step but a destruction is safe; a property of the worlds that safe calls keep is kept.
  pub record OfSteps (P : World s → Type 0) (f : ℕ) (w : World s) : Type 0 where
    pub safe :
        (p : ℕ) (m : MasterElection) (e : s.Env)
        → IsSafe p (w.object p) w.env m e
        → P (with_object s p m e w)
    pub destroyed :
        (p : ℕ)
        → is_master (w.object p) ≡ true
        → let (m, e) = destroy s p f (w.object p) w.env in P (with_object s p m e w)
    pub passed : (n : ℕ) → P (record w { env = s.passes n w.env })

  pub step_cases :
      (P : World s → Type 0) (f : ℕ) (a : Action) (w : World s)
      → OfSteps P f w
      → Leads P (step s f a w)
  step_cases P f (inits p log handle conn fun_set) w h =
      h.safe p _ _ (init-IsSafe p log handle conn fun_set (w.object p) w.env)
  step_cases P f (starts p watched) w h = h.safe p _ _ (start-IsSafe p watched (w.object p) w.env)
  step_cases P f (notified p path names) w h =
      told_case (reg_child_watcher_cb s p path names (w.object p) w.env)
        (reg_child_watcher_cb-IsSafeResult p path names (w.object p) w.env)
    where
      told_case :
          (r : Option (MasterElection × s.Env))
          → IsSafeResult p (w.object p) w.env r
          → Leads P (told s p r w)
      told_case none k = tt
      told_case (some (m, e)) k = h.safe p m e k
  step_cases P f (destroys p) w h =
      if_split (Leads P) (is_master (w.object p)) _ none (λ x. h.destroyed p x) (λ x. tt)
  step_cases P f (passes n) w h = h.passed n

  -- A master has the node.
  abbrev pub IsOwned : World s → Type 0
  IsOwned w = (p : ℕ) → (w.object p).is_master_flag ≡ true → Owns w.env p

  pub safe-IsOwned :
      (p : ℕ) (m : MasterElection) (e : s.Env) (w : World s)
      → IsOwned w
      → IsSafe p (w.object p) w.env m e
      → IsOwned (with_object s p m e w)
  safe-IsOwned p m e w v k q =
      if_split (λ (x : MasterElection). x.is_master_flag ≡ true → Owns e q) (p == q) m (w.object q)
        (λ x h.
          subst (Owns e) ((==_iff p q).0 x)
            (elim (k.flag h) [ inl y ↦ k.keeps p (v p y) | inr y ↦ y.1 ]))
        (λ x h. k.keeps q (v q h))

  pub flag_of_master : (m : MasterElection) → is_master m ≡ true → m.is_master_flag ≡ true
  flag_of_master m h = ground arith

  destroyed-IsOwned :
      (p f : ℕ) (w : World s)
      → IsOwned w
      → is_master (w.object p) ≡ true
      → let (m, e) = destroy s p f (w.object p) w.env in IsOwned (with_object s p m e w)
  unfolding destroy
  destroyed-IsOwned p f w v h q =
      let (m, e) = destroy s p f (w.object p) w.env in
      if_split (λ (x : MasterElection). x.is_master_flag ≡ true → Owns e q) (p == q) m (w.object q)
        (λ x y. cc y) (λ x y. ground (arith, x, v p (flag_of_master (w.object p) h), v q y))

  pub run-IsOwned :
      (f : ℕ) (acts : List Action) (w : World s) → IsOwned w → Leads IsOwned (run s f acts w)
  unfolding run
  run-IsOwned f acts w v =
      follow-Leads IsOwned (step s f)
        (λ a x k. step_cases IsOwned f a x (record {
          safe = λ p m e h. safe-IsOwned p m e x k h;
          destroyed = λ p h. destroyed-IsOwned p f x k h;
          passed = λ n p h. o.passes_keeps n x.env child_path p (k p h);
        }))
        acts w v
