-- ===== src/Timers/Expiry.antt =====
-- getExpired: which timers it takes out of the sets, and that its assertions hold.
use zookeeper_cpp_client.Common.{
  ℕ, ◌<◌, ◌≡◌, refl, ap, ◌∙◌, sym, subst, inl, inr, true, false, ◌&&◌, ◌||◌, [], ◌∷◌, Option, none,
  some, arith, leb, Bool-cases,
}
use zookeeper_cpp_client.Common.Std.{find, nat_ord}
use zookeeper_cpp_client.Timers.{Timer, ZkTimerQueue, get_expired, uintptr_max, is_before}
use zookeeper_cpp_client.Timers.Pairs.{
  PairSet, is_in, below, from, less, below-from, is_in-below, is_in-from,
}
use zookeeper_cpp_client.Timers.Valid.{is_due, is_placed, IsValid}
use zookeeper_cpp_client.Timers.Idle.{idle_at}
use zookeeper_cpp_client.Timers.Erase.{holds, Distinct, with_timers, erase_active-Erased}

-- What getExpired returns and leaves behind.
pub record Expired (now : ℕ) (q : ZkTimerQueue) (es : PairSet) (q1 : ZkTimerQueue) : Type 0 where
  pub valid : IsValid q1
  pub store : q1.store ≡ q.store
  pub idle : (b : ℕ) → idle_at q1 b ≡ (idle_at q b || holds b es)
  pub distinct : Distinct es
  pub due : (e a : ℕ) → is_in (e, a) es ≡ (is_in (e, a) q.timers && leb e now)

placed_timers :
    (e a : ℕ) (q : ZkTimerQueue) → IsValid q → is_in (e, a) q.timers ≡ true → a < uintptr_max
placed_timers e a q v h = at (find a q.store) (v.due e a) (v.placed a)
  where
    at :
        (o : Option Timer)
        → is_in (e, a) q.timers ≡ is_due e a o q.active_timers
        → is_placed a o ≡ true
        → a < uintptr_max
    at none k l = absurd (ground (arith, h, k))
    at (some t) k l = ground (arith, l)

below_sentry :
    (e a now : ℕ) (q : ZkTimerQueue)
    → IsValid q
    → is_in (e, a) q.timers ≡ true
    → less (e, a) (now, uintptr_max) ≡ leb e now
below_sentry e a now q v h = ground (arith, placed_timers e a q v h)

is_before-from :
    (now : ℕ) (ts : PairSet) (q : ZkTimerQueue)
    → IsValid q
    → ((e a : ℕ)
        → is_in (e, a) ts ≡ true
        → (is_in (e, a) q.timers ≡ true) × (less (e, a) (now, uintptr_max) ≡ false))
    → is_before now ts ≡ true
unfolding is_in
is_before-from now [] q v h = refl
is_before-from now ((e, a) ∷ ts) q v h =
    let (there, late) = h e a (ground arith) in ground (arith, below_sentry e a now q v there, late)

expired_pairs :
    (now e a : ℕ) (q : ZkTimerQueue)
    → IsValid q
    → is_in (e, a) (below (now, uintptr_max) q.timers) ≡ (is_in (e, a) q.timers && leb e now)
expired_pairs now e a q v = elim (Bool-cases (is_in (e, a) q.timers)) [
  | inl h ↦
      is_in-below (now, uintptr_max) (e, a) q.timers v.timers_sorted
      ∙ ap (λ x. is_in (e, a) q.timers && x) (below_sentry e a now q v h)
  | inr h ↦ is_in-below (now, uintptr_max) (e, a) q.timers v.timers_sorted ∙ ground (arith, h)
]

from_late :
    (now e a : ℕ) (q : ZkTimerQueue)
    → IsValid q
    → is_in (e, a) (from (now, uintptr_max) q.timers) ≡ true
    → (is_in (e, a) q.timers ≡ true) × (less (e, a) (now, uintptr_max) ≡ false)
from_late now e a q v h =
    let k = is_in-from (now, uintptr_max) (e, a) q.timers v.timers_sorted in
    (ground (arith, h, k), ground (arith, h, k))

-- No assertion of getExpired fails.
pub get_expired-Expired :
    (now : ℕ) (q : ZkTimerQueue)
    → IsValid q
    → (es : PairSet) × (q1 : ZkTimerQueue) × (get_expired now q ≡ some (es, q1))
      × Expired now q es q1
unfolding get_expired
get_expired-Expired now q v =
    let es = below (now, uintptr_max) q.timers in
    let rest = from (now, uintptr_max) q.timers in
    let whole = below-from (now, uintptr_max) q.timers in
    let (q1, run, r) =
      erase_active-Erased es rest (with_timers rest q)
        (subst (λ ts. IsValid (with_timers ts q)) (sym whole) v) in
    let valid : IsValid q1 = subst (λ ts. IsValid (with_timers ts q1)) (sym r.timers) r.valid in
    let early = is_before-from now rest q v (λ e a h. from_late now e a q v h) in
    (
      es,
      q1,
      ground (arith, v.sizes, early, run, valid.sizes),
      record {
        valid = valid;
        store = r.store;
        idle = r.idle;
        distinct = r.distinct;
        due = λ e a. expired_pairs now e a q v;
      },
    )
