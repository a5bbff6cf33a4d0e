-- ===== src/SharedLock/Abandoned.antt =====
-- rlock and wlock that return false behind createChild: what the node that they leave does.
use zookeeper_cpp_client.Common.{
  ℕ, suc, ◌<◌, ◌≡◌, ◌≢◌, refl, ap, sym, subst, Bool, true, false, List, [], ◌∷◌, ◌++◌, Option, none,
  some, arith, ◌==◌, if◌then◌else◌, All, if_cases, if_split,
}
use zookeeper_cpp_client.Codes.{Bytes}
use zookeeper_cpp_client.SharedLock.{blocks, least_node, unlock, child_path}
use zookeeper_cpp_client.SharedLock.Names.{IsPlain, get_seq_no}
use zookeeper_cpp_client.SharedLock.World.{
  idle, entered, holding, Worker, World, Action, max_counter, without, with_worker, with_phase,
  looked, unlocked, created, act, actor, next, run, new_world,
}
use zookeeper_cpp_client.SharedLock.Valid.{claim, has, IsClaim, IsFree, Apart, Apart-sym, IsValid}
use zookeeper_cpp_client.SharedLock.Children.{blocks-path, has-without}
use zookeeper_cpp_client.SharedLock.Steps.{
  idle-IsValid, unlock-IsReleased, claimed_in, IsRecorded-in,
}
use zookeeper_cpp_client.SharedLock.Course.{IsSuffix, run-IsValid, Stays, act-Stays, new-Apart}
use zookeeper_cpp_client.SharedLock.Cases.{step_cases}
use zookeeper_cpp_client.SharedLock.Exclusion.{new_world-IsValid}

-- The node is there, and no thread inside has it.
record IsOrphan (r : Bool) (path : Bytes) (w : World) : Type 0 where
  claimed : IsClaim w.counter w.children (some (r, path))
  apart : (q : ℕ) → Apart (some (r, path)) (claim (w.worker q).phase)

-- A step of a thread that takes another node, or gives its own one up.
kept-IsOrphan :
    (r : Bool) (path : Bytes) (p : ℕ) (k : Worker) (w : World)
    → IsClaim w.counter w.children (some (r, path))
    → ((q : ℕ) → Apart (some (r, path)) (claim (w.worker q).phase))
    → Apart (some (r, path)) (claim k.phase)
    → IsOrphan r path (with_worker p k w)
kept-IsOrphan r path p k w c o a = record {
  claimed = c;
  apart = λ q.
      if_cases (λ x. Apart (some (r, path)) (claim (Worker.phase x))) (p == q) k (w.worker q) a
        (o q);
}

abbrev KeepsOrphan : Bool → Bytes → Option World → Type 0
KeepsOrphan r path none = Unit
KeepsOrphan r path (some w) = IsOrphan r path w

looked-IsOrphan :
    (r : Bool) (path : Bytes) (p : ℕ) (s : Bool) (own : Bytes) (o : Option Bytes) (w : World)
    → IsOrphan r path w
    → (w.worker p).phase ≡ entered s own
    → IsOrphan r path (looked p s own o w)
looked-IsOrphan r path p s own none w h e =
    kept-IsOrphan r path p _ w h.claimed h.apart
      (subst (λ f. Apart (some (r, path)) (claim f)) e (h.apart p))
looked-IsOrphan r path p s own (some c) w h e =
    kept-IsOrphan r path p _ w h.claimed h.apart
      (subst (λ f. Apart (some (r, path)) (claim f)) e (h.apart p))

unlocked-KeepsOrphan :
    (r : Bool) (path : Bytes) (p : ℕ) (deleted s : Bool) (own : Bytes) (w : World)
    → IsValid w
    → IsOrphan r path w
    → (w.worker p).phase ≡ holding s own
    → KeepsOrphan r path (unlocked p deleted (unlock (w.worker p).lock) w)
unlocked-KeepsOrphan r path p deleted s own w v h e =
    let (kind, low, there) = claimed_in (w.worker p) (holding s own) (v.local p) e in
    let (l1, rel) =
      unlock-IsReleased s own w.children (w.worker p).lock
        (IsRecorded-in (w.worker p) (holding s own) (v.local p) e) there in
    let d : get_seq_no path ≢ get_seq_no own =
      subst (λ f. Apart (some (r, path)) (claim f)) e (h.apart p) in
    let (rd, lt, here) = h.claimed in
    subst (λ o. KeepsOrphan r path (unlocked p deleted o w)) (sym rel.runs)
      (kept-IsOrphan r path p (record { lock = l1; phase = idle })
        (record w { children = if deleted then without own w.children else w.children })
        (
          rd,
          lt,
          if_cases (λ cs. has path cs ≡ true) deleted (without own w.children) w.children
              (has-without own path w.children (λ x. d (sym (ap get_seq_no x))) here) here,
        )
        h.apart tt)

module _ (suffix : ℕ → Bytes) (s : IsSuffix suffix) where
  created-IsOrphan :
      (r : Bool) (path : Bytes) (p : ℕ) (k : Bool) (w : World)
      → IsValid w
      → IsOrphan r path w
      → w.counter < max_counter
      → IsOrphan r path (created suffix p k w)
  created-IsOrphan r path p k w v h l =
      let lock = (w.worker p).lock in
      let (rd, lt, here) = h.claimed in
      kept-IsOrphan r path p _ (record w { counter = suc w.counter; children = _ ∷ w.children })
        (rd, omega (arith, lt), ground (arith, here)) h.apart
        (Apart-sym (some (k, child_path k lock ++ suffix w.counter)) (some (r, path)) (
          new-Apart suffix s k lock w.counter w.children (some (r, path)) (v.local p).plain l
            h.claimed))

  act-KeepsOrphan :
      (r : Bool) (path : Bytes) (a : Action) (w : World)
      → IsValid w
      → IsOrphan r path w
      → KeepsOrphan r path (act suffix a w)
  act-KeepsOrphan r path a w v h =
      step_cases suffix (KeepsOrphan r path) a (w.worker (actor a)).phase w
        (record {
          stuck = tt;
          creating = λ p k e l. created-IsOrphan r path p k w v h l;
          looking = λ p k own e. looked-IsOrphan r path p k own (least_node k own w.children) w h e;
          registering = λ p k own e.
              kept-IsOrphan r path p _ w h.claimed h.apart
                (subst (λ f. Apart (some (r, path)) (claim f)) e (h.apart p));
          waking = λ p k own e.
              kept-IsOrphan r path p _ w h.claimed h.apart
                (subst (λ f. Apart (some (r, path)) (claim f)) e (h.apart p));
          unchanged = h;
          leaving = λ p k own e. kept-IsOrphan r path p _ w h.claimed h.apart tt;
          unlocking = λ p d k own e. unlocked-KeepsOrphan r path p d k own w v h e;
        })
        refl

  run-IsOrphan :
      (r : Bool) (path : Bytes) (acts : List Action) (w w1 : World)
      → IsValid w
      → IsOrphan r path w
      → run suffix acts w ≡ some w1
      → IsOrphan r path w1
  unfolding run
  run-IsOrphan r path [] w w1 v h e = subst (KeepsOrphan r path) e h
  run-IsOrphan r path (a ∷ acts) w w1 v h e =
      after (act suffix a w) (act-Stays suffix s a w v) (act-KeepsOrphan r path a w v h) e
        (λ x. run-IsOrphan r path acts x w1)
    where
      after :
          (o : Option World)
          → Stays o
          → KeepsOrphan r path o
          → next o (λ x. run suffix acts x) ≡ some w1
          → ((x : World)
              → IsValid x
              → IsOrphan r path x
              → run suffix acts x ≡ some w1
              → IsOrphan r path w1)
          → IsOrphan r path w1
      after none t k e f = absurd (cc e)
      after (some x) t k e f = f x t k e

  left-IsOrphan :
      (p : ℕ) (r : Bool) (path : Bytes) (w : World)
      → IsValid w
      → (w.worker p).phase ≡ entered r path
      → IsOrphan r path (with_phase p idle w)
  left-IsOrphan p r path w v e = record {
    claimed = claimed_in (w.worker p) (entered r path) (v.local p) e;
    apart = λ q.
        if_split (λ x. Apart (some (r, path)) (claim (Worker.phase x))) (p == q)
          (record { lock = (w.worker p).lock; phase = idle }) (w.worker q) (λ x. tt)
          (λ x.
            subst (λ f. Apart (claim f) (claim (w.worker q).phase)) e
              (v.apart p q (ground (arith, x))));
  }

  module _ (names : ℕ → Bytes) where
    -- When the list of the children cannot be read, rlock and wlock return false and leave their node:
    -- over every later course of steps, while no session expires and before the sequence numbers
    -- overflow, each thread that holds the lock as a writer has created its node before that one.
    -- The names of the objects have no dash.
    pub abandoned_blocks :
        (before acts : List Action) (w w1 : World) (p q : ℕ) (r : Bool) (path own : Bytes)
        → ((p : ℕ) → IsPlain (names p))
        → run suffix before (new_world names) ≡ some w
        → (w.worker p).phase ≡ entered r path
        → run suffix acts (with_phase p idle w) ≡ some w1
        → (w1.worker q).phase ≡ holding false own
        → get_seq_no own < get_seq_no path
    abandoned_blocks before acts w w1 p q r path own h e x e1 y =
        let v = run-IsValid suffix s before (new_world names) w (new_world-IsValid names h) e in
        let v0 = idle-IsValid p w v (IsRecorded-in (w.worker p) (entered r path) (v.local p) x) in
        let v1 = run-IsValid suffix s acts (with_phase p idle w) w1 v0 e1 in
        let o =
          run-IsOrphan r path acts (with_phase p idle w) w1 v0 (left-IsOrphan p r path w v x) e1 in
        earlier w1 own path o.claimed.2
          (subst (λ f. Apart (some (r, path)) (claim f)) y (o.apart q))
          (subst (IsFree w1.children) y (v1.local q).free)
      where
        earlier :
            (u : World) (own path : Bytes)
            → has path u.children ≡ true
            → get_seq_no path ≢ get_seq_no own
            → All (λ c. blocks false own c ≡ false) u.children
            → get_seq_no own < get_seq_no path
        earlier u own path there d f =
            ground (arith, blocks-path false own path u.children there f, d)
