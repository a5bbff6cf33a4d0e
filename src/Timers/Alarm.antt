-- ===== src/Timers/Alarm.antt =====
-- What the timerfd of ZkTimerQueue is set to: no live timer is forgotten.
use zookeeper_cpp_client.Common.{
  ℕ, ◌≤◌, ◌<◌, ◌≡◌, refl, subst, inl, inr, Bool, true, false, ◌&&◌, List, [], ◌∷◌, Option, none,
  some, arith, ltb, leb, Bool-cases,
}
use zookeeper_cpp_client.Common.Std.{find, nat_ord}
use zookeeper_cpp_client.Timers.{Timer, ZkTimerQueue, Op, adds, cancels, is_before}
use zookeeper_cpp_client.Timers.Pairs.{Pair, PairSet, is_in, IsSorted, first_least}
use zookeeper_cpp_client.Timers.Valid.{is_due, IsValid}
use zookeeper_cpp_client.Timers.Reset.{first_time, head_timer}
use zookeeper_cpp_client.Timers.Spec.{Timers, call, calls, timers_of, set_by}
use zookeeper_cpp_client.Timers.Read.{IsSettled, expired_at, wake, kept}

-- The later setting, else the earlier.
abbrev pub or_else : Option ℕ → Option ℕ → Option ℕ
or_else o none = o
or_else o (some n) = some n

-- The timerfd fires no later than the timer is due.
abbrev pub covers : Option ℕ → Option Timer → Bool
covers alarm none = true
covers none (some t) = false
covers (some n) (some t) = leb n t.expiration

abbrev pub IsCovered : Option ℕ → ZkTimerQueue → Type 0
IsCovered alarm q = (b : ℕ) → covers alarm (find b q.store) ≡ true

-- The time is valid().
abbrev pub is_after_epoch : Option Timer → Bool
is_after_epoch none = true
is_after_epoch (some t) = ltb 0 t.expiration

abbrev pub IsPositive : Timers → Type 0
IsPositive m = (b : ℕ) → is_after_epoch (m b) ≡ true

live_in :
    (b : ℕ) (t : Timer) (q : ZkTimerQueue)
    → IsValid q
    → IsSettled q
    → find b q.store ≡ some t
    → is_in (t.expiration, b) q.timers ≡ true
live_in b t q v w f = ground (arith, v.due t.expiration b, w b, f)

nothing_in : {C : Type 0} (k : Pair) → is_in k [] ≡ true → C
unfolding is_in
nothing_in k h = absurd (cc h)

-- The first entry of the set is a live timer's, and none is earlier.
pub first_time-covers :
    (q : ZkTimerQueue)
    → IsValid q
    → IsSettled q
    → IsPositive (timers_of q)
    → IsCovered (first_time q.timers) q
first_time-covers q v w p b =
    at (find b q.store) q.timers (λ t f. live_in b t q v w f) v.timers_sorted v.due
  where
    at :
        (o : Option Timer) (m : PairSet)
        → ((t : Timer) → o ≡ some t → is_in (t.expiration, b) m ≡ true)
        → IsSorted m
        → ((e a : ℕ) → is_in (e, a) m ≡ is_due e a (find a q.store) q.active_timers)
        → covers (first_time m) o ≡ true
    at none m h s d = refl
    at (some t) [] h s d = nothing_in (t.expiration, b) (h t refl)
    at (some t) ((e, a) ∷ m) h s d =
        let (u, f, x) = head_timer e a m (find a q.store) q.active_timers (d e a) in
        ground (arith, first_least (e, a) (t.expiration, b) m s (h t refl), p a, f, x)

-- A time that is before all the entries.
earliest-covers :
    (e : ℕ) (q : ZkTimerQueue)
    → IsValid q
    → IsSettled q
    → is_before e q.timers ≡ true
    → IsCovered (some e) q
earliest-covers e q v w x b =
    at (find b q.store) q.timers (λ t f. live_in b t q v w f) v.timers_sorted x
  where
    at :
        (o : Option Timer) (m : PairSet)
        → ((t : Timer) → o ≡ some t → is_in (t.expiration, b) m ≡ true)
        → IsSorted m
        → is_before e m ≡ true
        → covers (some e) o ≡ true
    at none m h s x = refl
    at (some t) [] h s x = nothing_in (t.expiration, b) (h t refl)
    at (some t) (k ∷ m) h s x = ground (arith, first_least k (t.expiration, b) m s (h t refl), x)

later-covers :
    (alarm : Option ℕ) (u t : Timer)
    → covers alarm (some u) ≡ true
    → u.expiration ≤ t.expiration
    → covers alarm (some t) ≡ true
later-covers none u t h l = cc
later-covers (some n) u t h l = ground arith

-- A timer that is not before all the entries.
not_earliest-covers :
    (alarm : Option ℕ) (t : Timer) (q : ZkTimerQueue)
    → IsValid q
    → IsCovered alarm q
    → is_before t.expiration q.timers ≡ false
    → covers alarm (some t) ≡ true
not_earliest-covers alarm t q v c x = at q.timers v.due x
  where
    at :
        (m : PairSet)
        → ((e a : ℕ) → is_in (e, a) m ≡ is_due e a (find a q.store) q.active_timers)
        → is_before t.expiration m ≡ false
        → covers alarm (some t) ≡ true
    at [] d x = absurd (cc x)
    at ((e, a) ∷ m) d x =
        let (u, f, y) = head_timer e a m (find a q.store) q.active_timers (d e a) in
        later-covers alarm u t (subst (λ o. covers alarm o ≡ true) f (c a)) (ground (arith, x, y))

-- The time of a call is set early enough.
pub call-covers :
    (alarm : Option ℕ) (op : Op) (q q1 : ZkTimerQueue)
    → IsValid q
    → IsSettled q
    → IsCovered alarm q
    → ((b : ℕ) → find b q1.store ≡ call (λ _. false) op (timers_of q) b)
    → IsCovered (or_else alarm (set_by op q)) q1
call-covers alarm (cancels a s) q q1 v w c h b = ground (arith, h b, c b)
call-covers alarm (adds a t) q q1 v w c h b = elim (Bool-cases (is_before t.expiration q.timers)) [
  | inl x ↦ ground (arith, h b, x, earliest-covers t.expiration q v w x b)
  | inr x ↦ ground (arith, h b, x, not_earliest-covers alarm t q v c x, c b)
]

-- The times of the timers that a call adds are valid().
abbrev pub is_positive : Op → Bool
is_positive (adds a t) = ltb 0 t.expiration
is_positive (cancels a s) = true

abbrev pub are_positive : List Op → Bool
are_positive [] = true
are_positive (op ∷ ops) = is_positive op && are_positive ops

pub call-IsPositive :
    (busy : ℕ → Bool) (op : Op) (m : Timers)
    → IsPositive m
    → is_positive op ≡ true
    → IsPositive (call busy op m)
call-IsPositive busy (adds a t) m p h b = ground (arith, p b)
call-IsPositive busy (cancels a s) m p h b = ground (arith, p b)

calls-IsPositive :
    (busy : ℕ → Bool) (ops : List Op) (m : Timers)
    → IsPositive m
    → are_positive ops ≡ true
    → IsPositive (calls busy ops m)
calls-IsPositive busy [] m p h = p
calls-IsPositive busy (op ∷ ops) m p h =
    calls-IsPositive busy ops (call busy op m) (call-IsPositive busy op m p (ground (arith, h)))
      (ground (arith, h))

module _ (restart : ℕ → Timer → Timer)
    (restart_later : (now : ℕ) (t : Timer)
      → t.repeat ≡ true
      → now ≤ (restart now t).expiration) where
  kept-after_epoch :
      (now : ℕ) (ops : List Op) (b : ℕ) (o : Option Timer)
      → 0 < now
      → is_after_epoch (kept restart now ops b o) ≡ true
  kept-after_epoch now ops b none l = refl
  kept-after_epoch now ops b (some t) l = ground (arith, restart_later now t)

  pub wake-IsPositive :
      (now : ℕ) (ops : List Op) (m : Timers)
      → IsPositive m
      → 0 < now
      → are_positive ops ≡ true
      → IsPositive (wake restart now ops m)
  wake-IsPositive now ops m p l h b = ground (
    arith,
    calls-IsPositive (expired_at now m) ops m p h b,
    kept-after_epoch now ops b (calls (expired_at now m) ops m b) l,
  )
