-- ===== src/Barrier/Through.antt =====
-- Who gets through a barrier.
use zookeeper_cpp_client.Common.{
  ℕ, suc, ◌+◌, ◌≤◌, ◌≡◌, refl, subst, Bool, List, Option, none, some, arith, ◌==◌, if◌then◌else◌,
  if_cases, if_split, length,
}
use zookeeper_cpp_client.Common.Steps.{Leads, follow-Leads}
use zookeeper_cpp_client.Codes.{Bytes, ZkErrorCode, zk_succeed}
use zookeeper_cpp_client.Sync.{get_children}
use zookeeper_cpp_client.Sync.DeleteWithin.{get_children_within}
use zookeeper_cpp_client.Servers.{Servers, session}
use zookeeper_cpp_client.Barrier.{
  DistriBarrier, parent_path, as_size, has_enough, reg_child_watcher_cb,
}
use zookeeper_cpp_client.Barrier.Members.{
  IsCounting, init_members, countdown_members, destroy_members, length-get_children,
}
use zookeeper_cpp_client.Barrier.World.{
  through, Party, World, Action, inits, waits, looks, sleeps, notified, wakes, counts, destroys,
  passes, after_children, new_world, told, allows, perform, step, run,
}

after_children_through :
    (b : DistriBarrier) (r : ZkErrorCode × List Bytes)
    → after_children b r ≡ through
    → (r.0 ≡ zk_succeed) × (as_size b.barr_num ≤ length r.1)
unfolding has_enough
after_children_through b (zk_succeed, names) h = (refl, ground arith)
after_children_through b (_, names) h = cc h

module _ (s : Servers) (c : IsCounting s) where
  open c use {members}

  module _ (start : ℕ) where
    -- The nodes that were there, and those that were made.
    abbrev IsWithin : World s → Type 0
    IsWithin w = members w.env ≤ start + w.sent

    told-IsWithin :
        (p : ℕ) (o : Option Bool) (w : World s) → IsWithin w → Leads IsWithin (told s p o w)
    told-IsWithin p none w h = tt
    told-IsWithin p (some b) w h = h

    counted_within :
        (b : Bool) (n k : ℕ)
        → n ≤ (if b then suc (start + k) else start + k)
        → n ≤ start + (if b then suc k else k)
    counted_within b n k h = ground arith

    perform-IsWithin :
        (f : ℕ) (a : Action) (w : World s) → IsWithin w → Leads IsWithin (perform s f a w)
    perform-IsWithin f (inits p log handle watched value conn num) w h =
        omega
          (arith, init_members s c p log handle watched value conn num (w.party p).barrier w.env, h)
    perform-IsWithin f (waits p) w h = h
    perform-IsWithin f (looks p) w h = omega (
      arith,
      get_children_within (session s p) members (c.children_same p) (c.deletes p) parent_path w.env,
      h,
    )
    perform-IsWithin f (sleeps p) w h = h
    perform-IsWithin f (notified p path names) w h =
        told-IsWithin p (reg_child_watcher_cb path names (w.party p).barrier) w h
    perform-IsWithin f (wakes p) w h = h
    perform-IsWithin f (counts p) w h =
        counted_within (s.is_connected p w.env) _ w.sent
          (countdown_members s c p (w.party p).barrier w.env (start + w.sent) h)
    perform-IsWithin f (destroys p) w h =
        omega (arith, destroy_members s c p f (w.party p).barrier w.env, h)
    perform-IsWithin f (passes n) w h = omega (arith, c.passes_same n w.env, h)

    run-IsWithin :
        (f : ℕ) (acts : List Action) (w : World s) → IsWithin w → Leads IsWithin (run s f acts w)
    unfolding run
    run-IsWithin f acts w h =
        follow-Leads IsWithin (step s f)
          (λ a x k.
            if_split (Leads IsWithin) (allows a (λ p. (x.party p).phase)) (perform s f a x) none
              (λ y. perform-IsWithin f a x k) (λ y. tt))
          acts w h

  abbrev LooksThrough : ℕ → World s → World s → Type 0
  LooksThrough p w w1 =
      (w1.party p).phase ≡ through → as_size (w.party p).barrier.barr_num ≤ members w.env

  looks_through : (p f : ℕ) (w : World s) → Leads (LooksThrough p w) (perform s f (looks p) w)
  looks_through p f w =
      if_split
        (λ (x : Party). x.phase ≡ through → as_size (w.party p).barrier.barr_num ≤ members w.env)
        (p == p) _ (w.party p)
        (λ y h.
          let (r, e) = get_children (session s p) parent_path w.env in
          let (ok, enough) = after_children_through (w.party p).barrier r h in
          omega (arith, enough, length-get_children s c p w.env ok))
        (λ y h. ground (arith, y))

  -- On servers with `IsCounting`, over every course of steps of any number of objects from their
  -- construction: when wait returns
  -- true, the number of the barrier is at most that of the nodes that were there at the start and of
  -- the calls of countdown on connected sessions together. Failing calls, lost answers, deleted nodes,
  -- callbacks with any list of children and spurious wake-ups are among the steps.
  pub through_counts :
      (e0 : s.Env) (f : ℕ) (acts : List Action) (w w1 : World s) (p : ℕ)
      → run s f acts (new_world s e0) ≡ some w
      → step s f (looks p) w ≡ some w1
      → (w1.party p).phase ≡ through
      → as_size (w.party p).barrier.barr_num ≤ members e0 + w.sent
  through_counts e0 f acts w w1 p e x h =
      let within =
        subst (Leads (IsWithin (members e0))) e
          (run-IsWithin (members e0) f acts (new_world s e0) (omega arith)) in
      let looked : Leads (LooksThrough p w) (step s f (looks p) w) =
        if_cases (Leads (LooksThrough p w)) (allows (looks p) (λ q. (w.party q).phase))
          (perform s f (looks p) w) none (looks_through p f w) tt in
      omega (arith, within, subst (Leads (LooksThrough p w)) x looked h)
