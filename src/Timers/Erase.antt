-- ===== src/Timers/Erase.antt =====
-- The loop of getExpired: taking the expired timers out of the second set.
use zookeeper_cpp_client.Common.{
  ℕ, ◌≡◌, refl, ap, ◌∙◌, sym, subst, inl, inr, Bool, true, false, ◌||◌, [], ◌∷◌, ◌++◌, Option, none,
  some, arith, ◌==◌, ==_iff, Bool-cases,
}
use zookeeper_cpp_client.Common.Std.{find, nat_ord}
use zookeeper_cpp_client.Timers.{Timer, ZkTimerQueue, erase_active}
use zookeeper_cpp_client.Timers.Pairs.{PairSet, is_in, drop, is_in-drop, drop_head}
use zookeeper_cpp_client.Timers.Valid.{is_due, is_idle, IsValid, IsUnarmed, IsUnarmed-timers}
use zookeeper_cpp_client.Timers.Idle.{idle_at}
use zookeeper_cpp_client.Timers.Cancel.{removed-IsValid, removed-IsUnarmed}

-- Some entry is of the address.
abbrev pub holds : ℕ → PairSet → Bool
holds a [] = false
holds a (k ∷ es) = (k.1 == a) || holds a es

-- The entries are of different addresses.
abbrev pub Distinct : PairSet → Type 0
Distinct [] = Unit
Distinct (k ∷ es) = (holds k.1 es ≡ false) × Distinct es

abbrev pub with_timers : PairSet → ZkTimerQueue → ZkTimerQueue
with_timers ts q = record q { timers = ts }

-- What erasing the expired timers from the second set leaves behind.
pub record Erased (es rest : PairSet) (q q1 : ZkTimerQueue) : Type 0 where
  pub valid : IsValid (with_timers rest q1)
  pub store : q1.store ≡ q.store
  pub timers : q1.timers ≡ q.timers
  pub idle : (b : ℕ) → idle_at q1 b ≡ (idle_at q b || holds b es)
  pub distinct : Distinct es

held_in :
    (a : ℕ) (es rest : PairSet) → holds a es ≡ true → (e : ℕ) × (is_in (e, a) (es ++ rest) ≡ true)
unfolding is_in
held_in a [] rest h = absurd (cc h)
held_in a ((e, b) ∷ es) rest h = elim (Bool-cases (b == a)) [
  | inl x ↦ (e, ground (arith, x))
  | inr x ↦ let (f, there) = held_in a es rest (ground (arith, h, x)) in (f, ground (arith, there))
]

head_timer :
    (e a : ℕ) (ts : PairSet) (q : ZkTimerQueue)
    → IsValid (with_timers ((e, a) ∷ ts) q)
    → (t : Timer) × (find a q.store ≡ some t)
      × (t.expiration ≡ e)
      × (is_in (a, t.sequence) q.active_timers ≡ true)
unfolding is_in
head_timer e a ts q v = timer (find a q.store) refl (v.due e a)
  where
    timer :
        (o : Option Timer)
        → find a q.store ≡ o
        → is_in (e, a) ((e, a) ∷ ts) ≡ is_due e a o q.active_timers
        → (t : Timer) × (find a q.store ≡ some t)
          × (t.expiration ≡ e)
          × (is_in (a, t.sequence) q.active_timers ≡ true)
    timer none k h = absurd (ground (arith, h))
    timer (some t) k h = (t, k, ground (arith, h, ==_iff t.expiration e), ground (arith, h))

-- One expired timer.
abbrev pub expire_one : ℕ → Timer → ZkTimerQueue → ZkTimerQueue
expire_one a t q = record q { active_timers = drop (a, t.sequence) q.active_timers }

expire_one-IsValid :
    (e a : ℕ) (t : Timer) (ts : PairSet) (q : ZkTimerQueue)
    → IsValid (with_timers ((e, a) ∷ ts) q)
    → find a q.store ≡ some t
    → t.expiration ≡ e
    → is_in (a, t.sequence) q.active_timers ≡ true
    → IsValid (with_timers ts (expire_one a t q)) × IsUnarmed a (expire_one a t q)
expire_one-IsValid e a t ts q v f x i =
    let w = with_timers ((e, a) ∷ ts) q in
    let gone = ap (λ n. drop (n, a) ((e, a) ∷ ts)) x ∙ drop_head (e, a) ts v.timers_sorted in
    (
      subst (λ us. IsValid (with_timers us (expire_one a t q))) gone (removed-IsValid a t w v f i),
      removed-IsUnarmed a t w v f,
    )

idle-expire_one :
    (a b : ℕ) (t : Timer) (q : ZkTimerQueue)
    → find a q.store ≡ some t
    → is_in (a, t.sequence) q.active_timers ≡ true
    → idle_at (expire_one a t q) b ≡ (idle_at q b || (a == b))
idle-expire_one a b t q f i = at (find b q.store) (λ x. ap (λ c. find c q.store) (sym x) ∙ f)
  where
    at :
        (o : Option Timer)
        → (a ≡ b → o ≡ some t)
        → is_idle b o (drop (a, t.sequence) q.active_timers)
          ≡ (is_idle b o q.active_timers || (a == b))
    at none g = ground (arith, g, ==_iff a b)
    at (some u) g =
        ground (arith, g, is_in-drop (a, t.sequence) (b, u.sequence) q.active_timers, ==_iff a b, i)

pub erase_active-Erased :
    (es rest : PairSet) (q : ZkTimerQueue)
    → IsValid (with_timers (es ++ rest) q)
    → (q1 : ZkTimerQueue) × (erase_active es q ≡ some q1) × Erased es rest q q1
unfolding erase_active
erase_active-Erased [] rest q v = (
  q,
  refl,
  record { valid = v; store = refl; timers = refl; idle = λ b. ground arith; distinct = tt },
)
erase_active-Erased ((e, a) ∷ es) rest q v =
    let (t, f, x, i) = head_timer e a (es ++ rest) q v in
    let (w, n) = expire_one-IsValid e a t (es ++ rest) q v f x i in
    let (q1, run, r) = erase_active-Erased es rest (expire_one a t q) w in
    (
      q1,
      ground (arith, f, i, run),
      record {
        valid = r.valid;
        store = r.store;
        timers = r.timers;
        idle = λ b. r.idle b ∙ ground (arith, idle-expire_one a b t q f i);
        distinct = (fresh (expire_one a t q) n w, r.distinct);
      },
    )
  where
    fresh :
        (q1 : ZkTimerQueue)
        → IsUnarmed a q1
        → IsValid (with_timers (es ++ rest) q1)
        → holds a es ≡ false
    fresh q1 n w = elim (Bool-cases (holds a es)) [
      | inr h ↦ h
      | inl h ↦
          let (e', there) = held_in a es rest h in
          cc (there, IsUnarmed-timers e' a (with_timers (es ++ rest) q1) w n)
    ]
