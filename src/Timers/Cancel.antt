-- ===== src/Timers/Cancel.antt =====
-- Taking a timer out of the sets of ZkTimerQueue, and cancelInLoop.
use zookeeper_cpp_client.Common.{
  ℕ, ◌≡◌, ap, ◌∙◌, sym, subst, true, false, Option, none, some, arith, ◌==◌, ==_iff, if◌then◌else◌,
  if_cases,
}
use zookeeper_cpp_client.Common.Std.{find, erase, find-erase, nat_ord}
use zookeeper_cpp_client.Timers.{
  Timer, ZkTimerQueue, disarmed, cancel_in_loop, cancel_inactive, noted,
}
use zookeeper_cpp_client.Timers.Pairs.{
  PairSet, eqb, is_in, drop, is_in-drop, length-drop, drop-IsSorted,
}
use zookeeper_cpp_client.Timers.Valid.{is_due, IsValid, IsValid-flags, IsUnarmed, IsUnarmed-timers}

is_due-drop :
    (e a b : ℕ) (t : Timer) (o : Option Timer) (m : PairSet)
    → (a ≡ b → o ≡ some t)
    → is_due e b o (drop (a, t.sequence) m)
      ≡ (if eqb (t.expiration, a) (e, b) then false else if a == b then false else is_due e b o m)
is_due-drop e a b t none m f = ground (arith, f)
is_due-drop e a b t (some u) m f = ground (arith, f, is_in-drop (a, t.sequence) (b, u.sequence) m)

-- What expires, or is cancelled, before its Timer is deleted.
abbrev pub removed : ℕ → Timer → ZkTimerQueue → ZkTimerQueue
removed a t q = record q {
  timers = drop (t.expiration, a) q.timers;
  active_timers = drop (a, t.sequence) q.active_timers;
}

armed-timers :
    (a : ℕ) (t : Timer) (q : ZkTimerQueue)
    → IsValid q
    → find a q.store ≡ some t
    → is_in (a, t.sequence) q.active_timers ≡ true
    → is_in (t.expiration, a) q.timers ≡ true
armed-timers a t q v f i = ground (arith, v.due t.expiration a, f, i)

pub removed-IsValid :
    (a : ℕ) (t : Timer) (q : ZkTimerQueue)
    → IsValid q
    → find a q.store ≡ some t
    → is_in (a, t.sequence) q.active_timers ≡ true
    → IsValid (removed a t q)
removed-IsValid a t q v f i = record {
  placed = v.placed;
  timers_sorted = drop-IsSorted (t.expiration, a) q.timers v.timers_sorted;
  active_sorted = drop-IsSorted (a, t.sequence) q.active_timers v.active_sorted;
  sizes = omega (
    arith,
    v.sizes,
    length-drop (t.expiration, a) q.timers v.timers_sorted (armed-timers a t q v f i),
    length-drop (a, t.sequence) q.active_timers v.active_sorted i,
  );
  due = λ e b. ground (
    arith,
    is_in-drop (t.expiration, a) (e, b) q.timers,
    v.due e b,
    v.due e a,
    f,
    ==_iff a b,
    is_due-drop e a b t (find b q.store) q.active_timers
        (λ x. ap (λ c. find c q.store) (sym x) ∙ f),
  );
  live = λ b s h. ground (arith, is_in-drop (a, t.sequence) (b, s) q.active_timers, v.live b s, h);
}

pub removed-IsUnarmed :
    (a : ℕ) (t : Timer) (q : ZkTimerQueue)
    → IsValid q
    → find a q.store ≡ some t
    → IsUnarmed a (removed a t q)
removed-IsUnarmed a t q v f s =
    ground (arith, is_in-drop (a, t.sequence) (a, s) q.active_timers, v.live a s, f)

-- Deleting a timer that is in no set.
abbrev pub without_timer : ℕ → ZkTimerQueue → ZkTimerQueue
without_timer a q = record q { store = erase a q.store }

pub without_timer-IsValid :
    (a : ℕ) (q : ZkTimerQueue) → IsValid q → IsUnarmed a q → IsValid (without_timer a q)
without_timer-IsValid a q v n = record {
  placed = λ b. ground (arith, find-erase a b q.store, v.placed b);
  timers_sorted = v.timers_sorted;
  active_sorted = v.active_sorted;
  sizes = v.sizes;
  due = λ e b. ground (
    arith,
    find-erase a b q.store,
    v.due e b,
    IsUnarmed-timers e a q v n,
    ==_iff a b,
    IsUnarmed-timers e b q v,
  );
  live = λ b s h. ground (arith, find-erase a b q.store, v.live b s h, n s);
}

same_sequence :
    (a s : ℕ) (t : Timer) (q : ZkTimerQueue)
    → IsValid q
    → find a q.store ≡ some t
    → is_in (a, s) q.active_timers ≡ true
    → s ≡ t.sequence
same_sequence a s t q v f i = ground (arith, v.live a s i, f, ==_iff t.sequence s)

disarmed-IsValid :
    (a : ℕ) (t : Timer) (q : ZkTimerQueue)
    → IsValid q
    → find a q.store ≡ some t
    → is_in (a, t.sequence) q.active_timers ≡ true
    → IsValid (disarmed a t.sequence t q)
disarmed-IsValid a t q v f i =
    without_timer-IsValid a (removed a t q) (removed-IsValid a t q v f i)
      (removed-IsUnarmed a t q v f)

cancel_runs :
    (a : ℕ) (t : Timer) (q : ZkTimerQueue)
    → IsValid q
    → IsValid (disarmed a t.sequence t q)
    → find a q.store ≡ some t
    → is_in (a, t.sequence) q.active_timers ≡ true
    → cancel_in_loop a t.sequence q ≡ some (disarmed a t.sequence t q)
unfolding cancel_in_loop
cancel_runs a t q v w f i = ground (arith, v.sizes, w.sizes, f, i, armed-timers a t q v f i)

-- cancelInLoop of an armed timer takes it away, and no assertion of it fails.
pub cancel_armed :
    (a s : ℕ) (t : Timer) (q : ZkTimerQueue)
    → IsValid q
    → find a q.store ≡ some t
    → is_in (a, s) q.active_timers ≡ true
    → (cancel_in_loop a s q ≡ some (disarmed a s t q)) × IsValid (disarmed a s t q)
cancel_armed a s t q v f i =
    let e = same_sequence a s t q v f i in
    let j = subst (λ n. is_in (a, n) q.active_timers ≡ true) e i in
    let w = disarmed-IsValid a t q v f j in
    subst (λ n. (cancel_in_loop a n q ≡ some (disarmed a n t q)) × IsValid (disarmed a n t q))
      (sym e) (cancel_runs a t q v w f j, w)

-- cancelInLoop of any other timer changes no set but that of the cancellations.
pub cancel_unarmed :
    (a s : ℕ) (q : ZkTimerQueue)
    → IsValid q
    → is_in (a, s) q.active_timers ≡ false
    → cancel_in_loop a s q ≡ some (cancel_inactive a s q)
unfolding cancel_in_loop
cancel_unarmed a s q v i = ground (arith, v.sizes, i)

pub cancel_inactive-IsValid :
    (a s : ℕ) (q : ZkTimerQueue) → IsValid q → IsValid (cancel_inactive a s q)
cancel_inactive-IsValid a s q v =
    if_cases IsValid q.calling_expired_timers _ q
      (IsValid-flags q.calling_expired_timers (noted (a, s) q.canceling_timers) q v) v
