-- ===== src/Timers/Read.antt =====
-- handleRead: a wake-up of the timerfd, with the callbacks of the timers that are due.
use zookeeper_cpp_client.Common.{
  ℕ, ◌≡◌, refl, ap, ◌∙◌, sym, subst, inl, inr, Bool, true, false, not, ◌&&◌, List, [], ◌∷◌, Option,
  none, some, arith, leb, ◌==◌, ==_iff, if◌then◌else◌, Bool-cases,
}
use zookeeper_cpp_client.Common.Std.{find, nat_ord}
use zookeeper_cpp_client.Timers.{Timer, ZkTimerQueue, Op, reset, handle_read}
use zookeeper_cpp_client.Timers.Pairs.{PairSet, is_in}
use zookeeper_cpp_client.Timers.Valid.{is_due, is_idle, IsValid, IsValid-flags}
use zookeeper_cpp_client.Timers.Idle.{idle_at}
use zookeeper_cpp_client.Timers.Expiry.{Expired, get_expired-Expired}
use zookeeper_cpp_client.Timers.Erase.{holds}
use zookeeper_cpp_client.Timers.Reset.{
  rearm, first_time, ResetAll, reset_timers-ResetAll, next_expire_lem,
}
use zookeeper_cpp_client.Timers.Calls.{Called, run_ops-Called}
use zookeeper_cpp_client.Timers.Spec.{Timers, calls, cancelled, timers_of, AllFresh}

-- No timer waits for a reset: the queue between two events of its thread.
abbrev pub IsSettled : ZkTimerQueue → Type 0
IsSettled q = (a : ℕ) → idle_at q a ≡ false

abbrev pub is_expired : ℕ → Option Timer → Bool
is_expired now none = false
is_expired now (some t) = leb t.expiration now

-- The timers whose callbacks run at the time.
abbrev pub expired_at : ℕ → Timers → ℕ → Bool
expired_at now m b = is_expired now (m b)

pub holds_in : (e a : ℕ) (es : PairSet) → is_in (e, a) es ≡ true → holds a es ≡ true
unfolding is_in
holds_in e a [] h = absurd (cc h)
holds_in e a ((f, b) ∷ es) h = ground (arith, h, holds_in e a es)

pub in_holds : (a : ℕ) (es : PairSet) → holds a es ≡ true → (e : ℕ) × (is_in (e, a) es ≡ true)
unfolding is_in
in_holds a [] h = absurd (cc h)
in_holds a ((e, b) ∷ es) h = elim (Bool-cases (b == a)) [
  | inl x ↦ (e, ground (arith, x))
  | inr x ↦ let (f, there) = in_holds a es (ground (arith, h, x)) in (f, ground (arith, there))
]

-- The expired entries are those of the timers that are due.
holds-expired_at :
    (now : ℕ) (q : ZkTimerQueue) (es : PairSet)
    → IsValid q
    → IsSettled q
    → ((e a : ℕ) → is_in (e, a) es ≡ (is_in (e, a) q.timers && leb e now))
    → (a : ℕ) → holds a es ≡ expired_at now (timers_of q) a
holds-expired_at now q es v w d a =
    at (find a q.store) (w a) (λ e. d e a ∙ ap (λ x. x && leb e now) (v.due e a))
  where
    at :
        (o : Option Timer)
        → is_idle a o q.active_timers ≡ false
        → ((e : ℕ) → is_in (e, a) es ≡ (is_due e a o q.active_timers && leb e now))
        → holds a es ≡ is_expired now o
    at none k h = elim (Bool-cases (holds a es)) [
      | inl x ↦ let (e, there) = in_holds a es x in absurd (cc (there, h e))
      | inr x ↦ x
    ]
    at (some t) k h = elim (Bool-cases (leb t.expiration now)) [
      | inl y ↦ holds_in t.expiration a es (ground (arith, h t.expiration, k, y)) ∙ sym y
      | inr y ↦ elim (Bool-cases (holds a es)) [
        | inl x ↦
            let (e, there) = in_holds a es x in
            absurd (ground (arith, there, h e, y, ==_iff t.expiration e))
        | inr x ↦ x ∙ sym y
      ]
    ]

-- The queue while the callbacks run.
abbrev reading : ZkTimerQueue → ZkTimerQueue
reading q = record q { calling_expired_timers = true; canceling_timers = [] }

module _ (restart : ℕ → Timer → Timer) where
  -- What becomes of an expired timer, by the calls of the callbacks.
  abbrev pub kept : ℕ → List Op → ℕ → Option Timer → Option Timer
  kept now ops b none = none
  kept now ops b (some t) =
      if t.repeat && not (cancelled b t.sequence ops) then some (restart now t) else none

  -- A wake-up on the map of the live timers.
  abbrev pub wake : ℕ → List Op → Timers → Timers
  wake now ops m b =
      let called = calls (expired_at now m) ops m b in
      if expired_at now m b then kept now ops b called else called

  -- What a wake-up returns and leaves behind.
  pub record Woken (now : ℕ) (ops : List Op) (q : ZkTimerQueue) (es : PairSet) (next : Option ℕ)
      (q1 : ZkTimerQueue) : Type 0 where
    pub valid : IsValid q1
    pub settled : IsSettled q1
    pub timers : (b : ℕ) → find b q1.store ≡ wake now ops (timers_of q) b
    pub expired : (e a : ℕ) → is_in (e, a) es ≡ (is_in (e, a) q.timers && leb e now)
    pub first : next ≡ first_time q1.timers

  rearm-kept :
      (now b : ℕ) (ops : List Op) (m : PairSet) (o : Option Timer)
      → ((n : ℕ) → is_in (b, n) m ≡ cancelled b n ops)
      → rearm restart now m b o ≡ kept now ops b o
  rearm-kept now b ops m none h = refl
  rearm-kept now b ops m (some t) h =
      ap (λ x. if t.repeat && not x then some (restart now t) else none) (h t.sequence)

  woken_timers :
      (now : ℕ) (ops : List Op) (q : ZkTimerQueue) (es : PairSet) (q1 q2 q3 : ZkTimerQueue)
      → Expired now q es q1
      → Called (expired_at now (timers_of q)) ops (reading q1) q2
      → ResetAll restart now es (record q2 { calling_expired_timers = false }) q3
      → ((b : ℕ) → holds b es ≡ expired_at now (timers_of q) b)
      → (b : ℕ) → find b q3.store ≡ wake now ops (timers_of q) b
  unfolding is_in
  woken_timers now ops q es q1 q2 q3 e c r same b =
      let called : find b q2.store ≡ calls (expired_at now (timers_of q)) ops (timers_of q) b =
        c.store b ∙ ap (λ m. calls (expired_at now (timers_of q)) ops (λ a. find a m) b) e.store in
      elim (Bool-cases (expired_at now (timers_of q) b)) [
        | inl h ↦
            r.store b
            ∙ ground (arith, same b, h)
            ∙ rearm-kept now b ops q2.canceling_timers (find b q2.store) (λ n. c.cancels b n refl h)
            ∙ ap (kept now ops b) called
            ∙ ground (arith, h)
        | inr h ↦ ground (arith, r.store b, same b, h, called)
      ]

  woken :
      (now : ℕ) (ops : List Op) (q : ZkTimerQueue) (es : PairSet) (q1 q2 q3 : ZkTimerQueue)
      → IsValid q
      → IsSettled q
      → Expired now q es q1
      → Called (expired_at now (timers_of q)) ops (reading q1) q2
      → ResetAll restart now es (record q2 { calling_expired_timers = false }) q3
      → Woken now ops q es (first_time q3.timers) q3
  woken now ops q es q1 q2 q3 v w e c r =
      let same = holds-expired_at now q es v w e.due in
      record {
        valid = r.valid;
        settled = λ b. ground (arith, r.idle b, c.idle b, same b);
        timers = woken_timers now ops q es q1 q2 q3 e c r same;
        expired = e.due;
        first = refl;
      }

  pub handle_read-Woken :
      (now : ℕ) (ops : List Op) (q : ZkTimerQueue)
      → IsValid q
      → IsSettled q
      → AllFresh (expired_at now (timers_of q)) ops (timers_of q)
      → (es : PairSet) × (next : Option ℕ) × (q1 : ZkTimerQueue) × (handle_read restart now ops q
          ≡ some (es, next, q1))
        × Woken now ops q es next q1
  unfolding handle_read reset
  handle_read-Woken now ops q v w f =
      let busy = expired_at now (timers_of q) in
      let (es, q1, run1, e) = get_expired-Expired now q v in
      let same = holds-expired_at now q es v w e.due in
      let (q2, run2, c) =
        run_ops-Called busy ops (reading q1) (IsValid-flags true [] q1 e.valid)
          (λ b. ground (arith, e.idle b, w b, same b))
          (subst (λ m. AllFresh busy ops (λ a. find a m)) (sym e.store) f) in
      let (q3, run3, r) =
        reset_timers-ResetAll restart now es (record q2 { calling_expired_timers = false })
          (IsValid-flags false q2.canceling_timers q2 c.valid) e.distinct
          (λ b h. ground (arith, c.idle b, same b, h)) in
      (
        es,
        first_time q3.timers,
        q3,
        ground (arith, run1, run2, run3, next_expire_lem q3 r.valid),
        woken now ops q es q1 q2 q3 v w e c r,
      )
