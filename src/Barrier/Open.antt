-- ===== src/Barrier/Open.antt =====
-- A barrier opens when enough nodes were made and none is deleted.
use zookeeper_cpp_client.Common.{
  ℕ, suc, ◌++◌, if◌then◌else◌, ◌≤◌, ◌≡◌, ◌∙◌, refl, ap, sym, subst, Bool, true, false, List, [],
  ◌∷◌, Option, none, some, arith, ◌==◌, if_cases, length, All,
}
use zookeeper_cpp_client.Common.Steps.{Leads, follow-Leads_where, follow_first, follow_last}
use zookeeper_cpp_client.Codes.{Bytes, ZkErrorCode, zk_succeed}
use zookeeper_cpp_client.Sync.{get_children}
use zookeeper_cpp_client.Servers.{Servers, session}
use zookeeper_cpp_client.Barrier.{
  DistriBarrier, parent_path, as_size, has_enough, reg_child_watcher_cb, create_child,
}
use zookeeper_cpp_client.Barrier.Growing.{
  IsGrowing, init_grows, get_children_grows, countdown_grows, get_children_all,
}
use zookeeper_cpp_client.Barrier.World.{
  is_success, Phase, Party, looking, asleep, through, World, Action, inits, waits, looks, sleeps,
  notified, wakes, counts, destroys, passes, after_children, notify, new_world, with_party, told,
  allows, perform, step, run,
}

abbrev pub keeps_nodes : Action → Bool
keeps_nodes (destroys p) = false
keeps_nodes _ = true

-- A thread in wait that the callback can wake, or that is about to look.
abbrev pub is_waiting : Phase → Bool
is_waiting looking = true
is_waiting asleep = true
is_waiting _ = false

notify_waiting : (f : Phase) → is_waiting f ≡ true → notify true f ≡ looking
notify_waiting looking h = refl
notify_waiting asleep h = refl
notify_waiting _ h = cc h

enough_names :
    (b : DistriBarrier) (names : List Bytes)
    → as_size b.barr_num ≤ length names
    → has_enough b names ≡ true
unfolding has_enough
enough_names b names h = ground (arith, h)

-- The action is one of the object `p`.
abbrev pub concerns : ℕ → Action → Bool
concerns p (inits q log handle watched value conn num) = q == p
concerns p (waits q) = q == p
concerns p (looks q) = q == p
concerns p (sleeps q) = q == p
concerns p (notified q path names) = q == p
concerns p (wakes q) = q == p
concerns p (counts q) = q == p
concerns p (destroys q) = q == p
concerns p (passes n) = false

after_children_enough :
    (b : DistriBarrier) (r : ZkErrorCode × List Bytes)
    → r.0 ≡ zk_succeed
    → as_size b.barr_num ≤ length r.1
    → after_children b r ≡ through
unfolding has_enough
after_children_enough b (zk_succeed, names) e h = ground (arith, h)
after_children_enough b (_, names) e h = cc e

-- The callback lets a waiting thread look again.
abbrev pub called_back : (s : Servers) → ℕ → World s → World s
called_back s p w = with_party s p (w.party p).barrier looking w

module _ (s : Servers) (c : IsGrowing s) where
  open c use {members}

  abbrev IsGrown : World s → Type 0
  IsGrown w = w.made ≤ members w.env

  told-IsGrown : (p : ℕ) (o : Option Bool) (w : World s) → IsGrown w → Leads IsGrown (told s p o w)
  told-IsGrown p none w h = tt
  told-IsGrown p (some b) w h = h

  perform-IsGrown :
      (f : ℕ) (a : Action) (w : World s)
      → keeps_nodes a ≡ true
      → IsGrown w
      → Leads IsGrown (perform s f a w)
  perform-IsGrown f (inits p log handle watched value conn num) w k h =
      omega (arith, init_grows s c p log handle watched value conn num (w.party p).barrier w.env, h)
  perform-IsGrown f (waits p) w k h = h
  perform-IsGrown f (looks p) w k h = omega (arith, get_children_grows s c p parent_path w.env, h)
  perform-IsGrown f (sleeps p) w k h = h
  perform-IsGrown f (notified p path names) w k h =
      told-IsGrown p (reg_child_watcher_cb path names (w.party p).barrier) w h
  perform-IsGrown f (wakes p) w k h = h
  perform-IsGrown f (counts p) w k h = countdown_grows s c p (w.party p).barrier w.env w.made h
  perform-IsGrown f (destroys p) w k h = cc k
  perform-IsGrown f (passes n) w k h = omega (arith, c.passes_keeps n w.env, h)

  made_are_there :
      (e0 : s.Env) (f : ℕ) (acts : List Action) (w : World s)
      → All (λ a. keeps_nodes a ≡ true) acts
      → run s f acts (new_world s e0) ≡ some w
      → IsGrown w
  unfolding run
  made_are_there e0 f acts w k e = subst (Leads IsGrown) e (
      follow-Leads_where (λ a. keeps_nodes a ≡ true) IsGrown (step s f)
        (λ a y q h.
          if_cases (Leads IsGrown) (allows a (λ r. (y.party r).phase)) (perform s f a y) none
            (perform-IsGrown f a y q h) tt)
        acts (new_world s e0) k (omega arith))

  notified_looks :
      (f : ℕ) (w : World s) (p : ℕ) (names : List Bytes)
      → is_waiting (w.party p).phase ≡ true
      → has_enough (w.party p).barrier names ≡ true
      → step s f (notified p parent_path names) w ≡ some (called_back s p w)
  unfolding reg_child_watcher_cb
  notified_looks f w p names x n = rw (n, notify_waiting (w.party p).phase x) refl

  with_party_self :
      (p : ℕ) (b : DistriBarrier) (f : Phase) (w : World s)
      → (with_party s p b f w).party p ≡ record { barrier = b; phase = f }
  with_party_self p b f w = let own : (p == p) ≡ true = ground arith in rw own refl

  looks_through :
      (f : ℕ) (p : ℕ) (w : World s)
      → (w.party p).phase ≡ looking
      → as_size (w.party p).barrier.barr_num ≤ members w.env
      → (get_children (session s p) parent_path w.env).0.0 ≡ zk_succeed
      → step s f (looks p) w
        ≡ some (
            with_party s p
              (w.party p).barrier
              through
              (record w { env = (get_children (session s p) parent_path w.env).1 }))
  looks_through f p w x n ok =
      let gate : after_children (w.party p).barrier (get_children (session s p) parent_path w.env).0
          ≡ through =
        after_children_enough (w.party p).barrier _ ok
          (omega (arith, n, get_children_all s c p w.env ok)) in
      rw (x, gate) refl

  -- The thread of `p` is awake, and there are enough nodes for it.
  abbrev IsAwake : ℕ → DistriBarrier → World s → Type 0
  IsAwake p b w =
      (w.party p ≡ record { barrier = b; phase = looking }) × (as_size b.barr_num ≤ members w.env)

  others_party : (p q : ℕ) (x y : Party) → (q == p) ≡ false → (if q == p then x else y) ≡ y
  others_party p q x y h = rw h refl

  told-IsAwake :
      (p q : ℕ) (b : DistriBarrier) (o : Option Bool) (w : World s)
      → (q == p) ≡ false
      → IsAwake p b w
      → Leads (IsAwake p b) (told s q o w)
  told-IsAwake p q b none w h k = tt
  told-IsAwake p q b (some t) w h k = (others_party p q _ (w.party p) h ∙ k.0, k.1)

  counted_grows : (n m : ℕ) (t : Bool) → (if t then suc n else n) ≤ m → n ≤ m
  counted_grows n m t h = ground (arith, h)

  perform-IsAwake :
      (f p : ℕ) (b : DistriBarrier) (a : Action) (w : World s)
      → (concerns p a ≡ false) × (keeps_nodes a ≡ true)
      → IsAwake p b w
      → Leads (IsAwake p b) (perform s f a w)
  perform-IsAwake f p b (inits q log handle watched value conn num) w h k = (
    others_party p q _ (w.party p) h.0 ∙ k.0,
    omega
        (arith, init_grows s c q log handle watched value conn num (w.party q).barrier w.env, k.1),
  )
  perform-IsAwake f p b (waits q) w h k = (others_party p q _ (w.party p) h.0 ∙ k.0, k.1)
  perform-IsAwake f p b (looks q) w h k = (
    others_party p q _ (w.party p) h.0 ∙ k.0,
    omega (arith, get_children_grows s c q parent_path w.env, k.1),
  )
  perform-IsAwake f p b (sleeps q) w h k = (others_party p q _ (w.party p) h.0 ∙ k.0, k.1)
  perform-IsAwake f p b (notified q path names) w h k =
      told-IsAwake p q b (reg_child_watcher_cb path names (w.party q).barrier) w h.0 k
  perform-IsAwake f p b (wakes q) w h k = (others_party p q _ (w.party p) h.0 ∙ k.0, k.1)
  perform-IsAwake f p b (counts q) w h k = (
    others_party p q _ (w.party p) h.0 ∙ k.0,
    counted_grows (as_size b.barr_num) _ (is_success (create_child s q w.env).0.0)
        (countdown_grows s c q (w.party q).barrier w.env (as_size b.barr_num) k.1),
  )
  perform-IsAwake f p b (destroys q) w h k = cc h.1
  perform-IsAwake f p b (passes n) w h k = (k.0, omega (arith, c.passes_keeps n w.env, k.1))

  after-IsAwake :
      (f p : ℕ) (b : DistriBarrier) (more : List Action) (w1 w2 : World s)
      → All (λ a. (concerns p a ≡ false) × (keeps_nodes a ≡ true)) more
      → IsAwake p b w1
      → run s f more w1 ≡ some w2
      → IsAwake p b w2
  unfolding run
  after-IsAwake f p b more w1 w2 q h e = subst (Leads (IsAwake p b)) e (
      follow-Leads_where (λ a. (concerns p a ≡ false) × (keeps_nodes a ≡ true)) (IsAwake p b)
        (step s f)
        (λ a y v k.
          if_cases (Leads (IsAwake p b)) (allows a (λ r. (y.party r).phase)) (perform s f a y) none
            (perform-IsAwake f p b a y v k) tt)
        more w1 q h)

  -- On servers with `IsGrowing`, over every course of steps of any number of objects from their
  -- construction in which no object is destroyed: once as many calls of createChild in countdown have
  -- returned kZKSucceed as the number of an object says, the callback of that object, with the path and
  -- no fewer names than there are nodes, wakes a thread that waits on it, asleep or before getChildren;
  -- whatever the other objects and the rest of the world do then, except that they destroy no object,
  -- the thread's getChildren, if it returns kZKSucceed, lets it through. A thread between too short a
  -- list and the condition variable is not covered: the callback does not wake it.
  pub enough_open :
      (e0 : s.Env) (f : ℕ) (acts more : List Action) (w w2 : World s) (p : ℕ) (names : List Bytes)
      → All (λ a. keeps_nodes a ≡ true) acts
      → run s f acts (new_world s e0) ≡ some w
      → is_waiting (w.party p).phase ≡ true
      → as_size (w.party p).barrier.barr_num ≤ w.made
      → members w.env ≤ length names
      → All (λ a. (concerns p a ≡ false) × (keeps_nodes a ≡ true)) more
      → run s f more (called_back s p w) ≡ some w2
      → (get_children (session s p) parent_path w2.env).0.0 ≡ zk_succeed
      → (w3 : World s) × (run s f (notified p parent_path names ∷ more ++ looks p ∷ []) w ≡ some w3)
        × ((w3.party p).phase ≡ through)
  unfolding run
  enough_open e0 f acts more w w2 p names k e x n all q e2 ok =
      let b = (w.party p).barrier in
      let w1 = called_back s p w in
      let enough : as_size b.barr_num ≤ members w.env =
        omega (arith, n, made_are_there e0 f acts w k e) in
      let awake = after-IsAwake f p b more w1 w2 q (with_party_self p b looking w, enough) e2 in
      (
        _,
        follow_first (step s f) (notified p parent_path names) (more ++ looks p ∷ []) w w1 _
            (notified_looks f w p names x (enough_names b names (omega (arith, enough, all))))
            (follow_last (step s f) more (looks p) w1 w2 _
              (looks_through f p w2 (ap (λ y. y.phase) awake.0)
                (subst (λ (y : Party). as_size y.barrier.barr_num ≤ members w2.env) (sym awake.0)
                  awake.1)
                ok)
              e2),
        ap (λ y. y.phase)
            (with_party_self p (w2.party p).barrier through
              (record w2 { env = (get_children (session s p) parent_path w2.env).1 })),
      )
