-- ===== src/Lock/Valid.antt =====
-- What stays true of the objects of an exclusive lock and the servers.
use zookeeper_cpp_client.Common.{
  ℕ, ◌≡◌, ◌≢◌, refl, ◌∙◌, sym, subst, ap, Bool, true, false, List, [], Option, none, some, arith,
  ◌==◌, ==_iff, if_split,
}
use zookeeper_cpp_client.Common.Steps.{Leads, follow-Leads}
use zookeeper_cpp_client.Codes.{Bytes, ZkErrorCode, zk_succeed, zk_existed}
use zookeeper_cpp_client.Zoo.Path.{child}
use zookeeper_cpp_client.Servers.{Servers, IsOwning}
use zookeeper_cpp_client.Servers.Owning.{create_keeps, create_own}
use zookeeper_cpp_client.Lock.{
  DistriLock, parent_path, child_path, create_child, unlock, reg_child_watcher_cb,
}
use zookeeper_cpp_client.Lock.World.{
  Phase, idle, trying, refused, waiting, holding, Worker, World, Action, locks, creates, waits,
  notified, wakes, unlocks, passes, after_create, locked, notify, with_phase, told, created,
  unlocked, step, perform, allows, is_holding, run,
}

pub after_create_holding : (ec : ZkErrorCode) → after_create ec ≡ holding → ec ≡ zk_succeed
after_create_holding zk_succeed e = refl
after_create_holding zk_existed e = cc e
after_create_holding _ e = cc e

-- notifyAll lets no thread hold the lock.
pub notify_holding : (b : Bool) (f : Phase) → notify b f ≡ holding → f ≡ holding
notify_holding true waiting e = cc e
notify_holding true idle e = e
notify_holding true trying e = e
notify_holding true refused e = e
notify_holding true holding e = e
notify_holding false f e = e

pub is_holding_phase : (f : Phase) → is_holding f ≡ true → f ≡ holding
is_holding_phase holding e = refl
is_holding_phase idle e = cc e
is_holding_phase trying e = cc e
is_holding_phase refused e = cc e
is_holding_phase waiting e = cc e

pub locked_not_holding : (b : Bool) → locked b ≢ holding
locked_not_holding true e = cc e
locked_not_holding false e = cc e

module _ (s : Servers) (o : IsOwning s) (name : Bytes) where
  open o use {owner}

  -- The thread's session has the node of the lock.
  abbrev pub Owns : s.Env → ℕ → Type 0
  Owns e p = owner e (child parent_path name) ≡ some p

  -- Every object has the name of the lock, and a thread that holds the lock has the node.
  pub record IsValid (w : World s) : Type 0 where
    pub named : (p : ℕ) → (w.worker p).lock.child_node_name ≡ name
    pub owned : (p : ℕ) → (w.worker p).phase ≡ holding → Owns w.env p

  -- One thread moves to another phase, and the others that hold the lock keep the node.
  pub with_phase-IsValid :
      (p : ℕ) (f : Phase) (w : World s)
      → ((q : ℕ) → (w.worker q).lock.child_node_name ≡ name)
      → ((q : ℕ) → p ≢ q → (w.worker q).phase ≡ holding → Owns w.env q)
      → (f ≡ holding → Owns w.env p)
      → IsValid (with_phase s p f w)
  with_phase-IsValid p f w n others mine = record {
    named = λ q.
        if_split (λ (k : Worker). k.lock.child_node_name ≡ name) (p == q)
          (record { lock = (w.worker p).lock; phase = f }) (w.worker q) (λ x. n p) (λ x. n q);
    owned = λ q.
        if_split (λ (k : Worker). k.phase ≡ holding → Owns w.env q) (p == q)
          (record { lock = (w.worker p).lock; phase = f }) (w.worker q)
          (λ x h. subst (Owns w.env) ((==_iff p q).0 x) (mine h))
          (λ x h. others q (ground (arith, x)) h);
  }

  -- A step between phases outside the lock.
  moved-IsValid :
      (p : ℕ) (f : Phase) (w : World s) → IsValid w → f ≢ holding → IsValid (with_phase s p f w)
  moved-IsValid p f w v d =
      with_phase-IsValid p f w v.named (λ q x h. v.owned q h) (λ h. absurd (d h))

  -- createChild: what it leaves, and what it takes.
  pub create_child_keeps :
      (p r : ℕ) (l : DistriLock) (e : s.Env) → Owns e r → Owns (create_child s p l e).1 r
  unfolding create_child
  create_child_keeps p r l e h =
      create_keeps s o p (child_path l) [] true false (child parent_path name) e r h

  pub create_child_own :
      (p : ℕ) (l : DistriLock) (e : s.Env)
      → l.child_node_name ≡ name
      → (create_child s p l e).0 ≡ zk_succeed
      → (owner e (child parent_path name) ≡ none) × Owns (create_child s p l e).1 p
  unfolding create_child
  create_child_own p l e n h =
      let (free, own) = create_own s o p (child_path l) [] e h in
      (
        ap (λ x. owner e (child parent_path x)) (sym n) ∙ free,
        ap (λ x. owner (create_child s p l e).1 (child parent_path x)) (sym n) ∙ own,
      )

  created-IsValid : (p : ℕ) (w : World s) → IsValid w → IsValid (created s p w)
  created-IsValid p w v =
      let (ec, e) = create_child s p (w.worker p).lock w.env in
      with_phase-IsValid p (after_create ec) (record w { env = e }) v.named
        (λ q x h. create_child_keeps p q (w.worker p).lock w.env (v.owned q h))
        (λ h.
          (create_child_own p (w.worker p).lock w.env (v.named p) (after_create_holding ec h)).1)

  told-IsValid : (p : ℕ) (o : Option Bool) (w : World s) → IsValid w → Leads IsValid (told s p o w)
  told-IsValid p none w v = tt
  told-IsValid p (some b) w v =
      with_phase-IsValid p (notify b (w.worker p).phase) w v.named (λ q x h. v.owned q h)
        (λ h. v.owned p (notify_holding b (w.worker p).phase h))

  -- When a thread holds the lock, no other one does.
  pub excluded :
      (w : World s) (p q : ℕ)
      → IsValid w
      → (w.worker p).phase ≡ holding
      → p ≢ q
      → (w.worker q).phase ≢ holding
  excluded w p q v h d x = d (ground (arith, v.owned p h, v.owned q x))

  unlocked-IsValid :
      (p : ℕ) (r : Option Bool × s.Env) (w : World s)
      → IsValid w
      → (w.worker p).phase ≡ holding
      → Leads IsValid (unlocked s p r w)
  unlocked-IsValid p (none, e) w v h = tt
  unlocked-IsValid p (some b, e) w v h =
      with_phase-IsValid p idle (record w { env = e }) v.named
        (λ q d x. absurd (excluded w p q v h d x)) (λ x. cc x)

  perform-IsValid :
      (f : ℕ) (a : Action) (w : World s)
      → IsValid w
      → allows a (λ p. (w.worker p).phase) ≡ true
      → Leads IsValid (perform s f a w)
  perform-IsValid f (locks p) w v h =
      moved-IsValid p (locked (w.worker p).lock.is_init) w v
        (locked_not_holding (w.worker p).lock.is_init)
  perform-IsValid f (creates p) w v h = created-IsValid p w v
  perform-IsValid f (waits p) w v h = moved-IsValid p waiting w v (λ e. cc e)
  perform-IsValid f (notified p path names) w v h =
      told-IsValid p (reg_child_watcher_cb path names (w.worker p).lock) w v
  perform-IsValid f (wakes p) w v h = moved-IsValid p trying w v (λ e. cc e)
  perform-IsValid f (unlocks p) w v h =
      unlocked-IsValid p (unlock s p f (w.worker p).lock w.env) w v
        (is_holding_phase (w.worker p).phase h)
  perform-IsValid f (passes n) w v h = record {
    named = v.named;
    owned = λ p x. o.passes_keeps n w.env (child parent_path name) p (v.owned p x);
  }

  pub step-IsValid : (f : ℕ) (a : Action) (w : World s) → IsValid w → Leads IsValid (step s f a w)
  step-IsValid f a w v =
      if_split (Leads IsValid) (allows a (λ p. (w.worker p).phase)) (perform s f a w) none
        (perform-IsValid f a w v) (λ x. tt)

  pub run-IsValid :
      (f : ℕ) (acts : List Action) (w : World s) → IsValid w → Leads IsValid (run s f acts w)
  unfolding run
  run-IsValid f acts w v = follow-Leads IsValid (step s f) (step-IsValid f) acts w v
