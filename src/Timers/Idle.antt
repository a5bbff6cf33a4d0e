-- ===== src/Timers/Idle.antt =====
-- The timers of ZkTimerQueue that are in no set: expired, with their callback or reset to come.
use zookeeper_cpp_client.Common.{
  ℕ, ◌≡◌, ap, ◌∙◌, Bool, not, ◌&&◌, Option, none, some, arith, ◌==◌, if◌then◌else◌,
}
use zookeeper_cpp_client.Common.Std.{find, find-assign, nat_ord}
use zookeeper_cpp_client.Timers.{Timer, ZkTimerQueue, armed}
use zookeeper_cpp_client.Timers.Pairs.{put, is_in-put}
use zookeeper_cpp_client.Timers.Valid.{is_idle, with_timer}

abbrev pub idle_at : ZkTimerQueue → ℕ → Bool
idle_at q a = is_idle a (find a q.store) q.active_timers

-- A timer that is written and armed.
abbrev pub again : ℕ → Timer → ZkTimerQueue → ZkTimerQueue
again a t q = armed a t (with_timer a t q)

pub idle-again :
    (a b : ℕ) (t : Timer) (q : ZkTimerQueue)
    → idle_at (again a t q) b ≡ (idle_at q b && not (a == b))
idle-again a b t q =
    ap (λ o. is_idle b o (put (a, t.sequence) q.active_timers)) (find-assign a b t q.store)
    ∙ at (find b q.store)
  where
    at :
        (o : Option Timer)
        → is_idle b (if a == b then some t else o) (put (a, t.sequence) q.active_timers)
          ≡ (is_idle b o q.active_timers && not (a == b))
    at none = ground (arith, is_in-put (a, t.sequence) (b, t.sequence) q.active_timers)
    at (some u) = ground (
      arith,
      is_in-put (a, t.sequence) (b, u.sequence) q.active_timers,
      is_in-put (a, t.sequence) (b, t.sequence) q.active_timers,
    )
