-- ===== src/Timers/Reset.antt =====
-- reset: the expired timers that repeat are armed again, the others are deleted.
use zookeeper_cpp_client.Common.{
  ℕ, ◌<◌, ◌≡◌, refl, ap, ◌∙◌, subst, inl, inr, true, false, not, ◌&&◌, [], ◌∷◌, Option, none, some,
  arith, ltb, ◌==◌, ==_iff, if◌then◌else◌, Bool-cases,
}
use zookeeper_cpp_client.Common.Std.{find, find-assign, find-erase, find-assign_self, nat_ord}
use zookeeper_cpp_client.Timers.{
  Timer, ZkTimerQueue, reset_timer, reset_timers, next_expire, uintptr_max,
}
use zookeeper_cpp_client.Timers.Pairs.{PairSet, is_in}
use zookeeper_cpp_client.Timers.Valid.{
  is_idle, is_due, is_placed, IsValid, IsUnarmed, idle-IsUnarmed, with_timer, with_timer-IsValid,
  armed-IsValid, insert-armed,
}
use zookeeper_cpp_client.Timers.Cancel.{without_timer, without_timer-IsValid}
use zookeeper_cpp_client.Timers.Erase.{holds, Distinct}
use zookeeper_cpp_client.Timers.Idle.{idle_at, again, idle-again}

module _ (restart : ℕ → Timer → Timer) where
  -- What becomes of an expired timer.
  abbrev pub rearm : ℕ → PairSet → ℕ → Option Timer → Option Timer
  rearm now m a none = none
  rearm now m a (some t) =
      if t.repeat && not (is_in (a, t.sequence) m) then some (restart now t) else none

  record ResetOne (now a : ℕ) (q q1 : ZkTimerQueue) : Type 0 where
    valid : IsValid q1
    cancels : q1.canceling_timers ≡ q.canceling_timers
    store :
        (b : ℕ)
        → find b q1.store
          ≡ (if a == b then rearm now q.canceling_timers b (find b q.store) else find b q.store)
    idle : (b : ℕ) → idle_at q1 b ≡ (idle_at q b && not (a == b))

  again-ResetOne :
      (now a : ℕ) (t : Timer) (q : ZkTimerQueue)
      → IsValid q
      → find a q.store ≡ some t
      → IsUnarmed a q
      → a < uintptr_max
      → (t.repeat && not (is_in (a, t.sequence) q.canceling_timers)) ≡ true
      → (reset_timer restart now a t q ≡ some (again a (restart now t) q))
        × ResetOne now a q (again a (restart now t) q)
  again-ResetOne now a t q v f n l h =
      let t1 = restart now t in
      let w = with_timer-IsValid a t1 q v n l in
      (
        ground (arith, h, insert-armed a t1 (with_timer a t1 q) w n),
        record {
          valid = armed-IsValid a t1 (with_timer a t1 q) w (find-assign_self a t1 q.store) n;
          cancels = refl;
          store = λ b. ground (arith, find-assign a b t1 q.store, f, h, ==_iff a b);
          idle = λ b. idle-again a b t1 q;
        },
      )

  deleted-ResetOne :
      (now a : ℕ) (t : Timer) (q : ZkTimerQueue)
      → IsValid q
      → find a q.store ≡ some t
      → IsUnarmed a q
      → (t.repeat && not (is_in (a, t.sequence) q.canceling_timers)) ≡ false
      → (reset_timer restart now a t q ≡ some (without_timer a q))
        × ResetOne now a q (without_timer a q)
  deleted-ResetOne now a t q v f n h = (
    ground (arith, h),
    record {
      valid = without_timer-IsValid a q v n;
      cancels = refl;
      store = λ b. ground (arith, find-erase a b q.store, f, h, ==_iff a b);
      idle = λ b. ground (arith, find-erase a b q.store);
    },
  )

  reset_timer-ResetOne :
      (now a : ℕ) (q : ZkTimerQueue)
      → IsValid q
      → idle_at q a ≡ true
      → (t : Timer) × (q1 : ZkTimerQueue) × (find a q.store ≡ some t)
        × (reset_timer restart now a t q ≡ some q1)
        × ResetOne now a q q1
  reset_timer-ResetOne now a q v i = at (find a q.store) refl i (v.placed a)
    where
      at :
          (o : Option Timer)
          → find a q.store ≡ o
          → is_idle a o q.active_timers ≡ true
          → is_placed a o ≡ true
          → (t : Timer) × (q1 : ZkTimerQueue) × (find a q.store ≡ some t)
            × (reset_timer restart now a t q ≡ some q1)
            × ResetOne now a q q1
      at none f k p = absurd (cc k)
      at (some t) f k p =
          let n = idle-IsUnarmed a q v i in
          elim (Bool-cases (t.repeat && not (is_in (a, t.sequence) q.canceling_timers))) [
            | inl h ↦
                let (run, r) = again-ResetOne now a t q v f n (ground (arith, p)) h in
                (t, again a (restart now t) q, f, run, r)
            | inr h ↦
                let (run, r) = deleted-ResetOne now a t q v f n h in
                (t, without_timer a q, f, run, r)
          ]

  still_idle :
      (now a : ℕ) (es : PairSet) (q q1 : ZkTimerQueue)
      → ResetOne now a q q1
      → holds a es ≡ false
      → ((b : ℕ) → holds b es ≡ true → idle_at q b ≡ true)
      → (b : ℕ) → holds b es ≡ true
      → idle_at q1 b ≡ true
  still_idle now a es q q1 r n i b h = elim (Bool-cases (a == b)) [
    | inl k ↦ absurd (cc (n, h, (==_iff a b).0 k))
    | inr k ↦ ground (arith, r.idle b, i b h, k)
  ]

  -- What resetting all the expired timers leaves behind.
  pub record ResetAll (now : ℕ) (es : PairSet) (q q1 : ZkTimerQueue) : Type 0 where
    pub valid : IsValid q1
    pub store :
        (b : ℕ)
        → find b q1.store
          ≡ (if holds b es then rearm now q.canceling_timers b (find b q.store) else find b q.store)
    pub idle : (b : ℕ) → idle_at q1 b ≡ (idle_at q b && not (holds b es))

  head_then-ResetAll :
      (now e a : ℕ) (es : PairSet) (q q1 q2 : ZkTimerQueue)
      → ResetOne now a q q1
      → ResetAll now es q1 q2
      → holds a es ≡ false
      → ResetAll now ((e, a) ∷ es) q q2
  head_then-ResetAll now e a es q q1 q2 r rs n = record {
    valid = rs.valid;
    store = λ b. elim (Bool-cases (a == b)) [
      | inl h ↦
          let here = subst (λ c. holds c es ≡ false) ((==_iff a b).0 h) n in
          ground (arith, rs.store b, r.store b, h, here)
      | inr h ↦
          let other : find b q1.store ≡ find b q.store = r.store b ∙ ground (arith, h) in
          rs.store b
          ∙ ap (λ x. if holds b es then rearm now x b (find b q1.store) else find b q1.store)
              r.cancels
          ∙ ap (λ x. if holds b es then rearm now q.canceling_timers b x else x) other
          ∙ ground (arith, h)
    ];
    idle = λ b. ground (arith, rs.idle b, r.idle b);
  }

  pub reset_timers-ResetAll :
      (now : ℕ) (es : PairSet) (q : ZkTimerQueue)
      → IsValid q
      → Distinct es
      → ((b : ℕ) → holds b es ≡ true → idle_at q b ≡ true)
      → (q1 : ZkTimerQueue) × (reset_timers restart now es q ≡ some q1) × ResetAll now es q q1
  unfolding reset_timers
  reset_timers-ResetAll now [] q v d i =
      (q, refl, record { valid = v; store = λ b. refl; idle = λ b. ground arith })
  reset_timers-ResetAll now ((e, a) ∷ es) q v (n, d) i =
      let (t, q1, f, one, r) = reset_timer-ResetOne now a q v (i a (ground arith)) in
      let (q2, rest, rs) =
        reset_timers-ResetAll now es q1 r.valid d
          (still_idle now a es q q1 r n (λ b h. i b (ground (arith, h)))) in
      (q2, ground (arith, f, one, rest), head_then-ResetAll now e a es q q1 q2 r rs n)

-- The time of the first entry, when it is later than the epoch.
abbrev pub first_time : PairSet → Option ℕ
first_time [] = none
first_time (k ∷ m) = if ltb 0 k.0 then some k.0 else none

pub head_timer :
    (e a : ℕ) (m : PairSet) (o : Option Timer) (n : PairSet)
    → is_in (e, a) ((e, a) ∷ m) ≡ is_due e a o n
    → (t : Timer) × (o ≡ some t) × (t.expiration ≡ e)
unfolding is_in
head_timer e a m none n h = absurd (ground (arith, h))
head_timer e a m (some t) n h = (t, refl, ground (arith, h, ==_iff t.expiration e))

first_timer :
    (q : ZkTimerQueue) (m : PairSet)
    → ((e a : ℕ) → is_in (e, a) m ≡ is_due e a (find a q.store) q.active_timers)
    → next_expire q m ≡ some (first_time m)
first_timer q [] h = refl
first_timer q ((e, a) ∷ m) h =
    let (t, f, x) = head_timer e a m (find a q.store) q.active_timers (h e a) in
    ground (arith, f, x)

-- No deleted timer is followed to find the next time.
pub next_expire_lem :
    (q : ZkTimerQueue) → IsValid q → next_expire q q.timers ≡ some (first_time q.timers)
next_expire_lem q v = first_timer q q.timers v.due
