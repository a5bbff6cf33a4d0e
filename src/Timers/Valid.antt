-- ===== src/Timers/Valid.antt =====
-- The invariant of the sets of ZkTimerQueue.
use zookeeper_cpp_client.Common.{
  ℕ, ◌<◌, ◌≡◌, refl, ap, ◌∙◌, sym, inl, inr, Bool, true, false, not, ◌&&◌, ◌||◌, Option, none, some,
  arith, ltb, ◌==◌, ==_iff, length, Bool-cases,
}
use zookeeper_cpp_client.Common.Std.{find, assign, find-assign, nat_ord}
use zookeeper_cpp_client.Timers.{
  Timer, ZkTimerQueue, insert, armed, new_timer_queue, is_before, uintptr_max,
}
use zookeeper_cpp_client.Timers.Pairs.{
  PairSet, eqb, is_in, put, IsSorted, is_in-put, length-put, put-IsSorted,
}

-- The timer is due at the time, and in the second set.
abbrev pub is_due : ℕ → ℕ → Option Timer → PairSet → Bool
is_due e a none m = false
is_due e a (some t) m = (t.expiration == e) && is_in (a, t.sequence) m

abbrev pub has_sequence : ℕ → Option Timer → Bool
has_sequence s none = false
has_sequence s (some t) = t.sequence == s

-- The timer is live and in neither set: it has expired, and its callback or its reset is to come.
abbrev pub is_idle : ℕ → Option Timer → PairSet → Bool
is_idle a none m = false
is_idle a (some t) m = not (is_in (a, t.sequence) m)

-- No live timer has the largest address.
abbrev pub is_placed : ℕ → Option Timer → Bool
is_placed a none = true
is_placed a (some t) = ltb a uintptr_max

-- The two sets have the same live timers.
pub record IsValid (q : ZkTimerQueue) : Type 0 where
  pub timers_sorted : IsSorted q.timers
  pub active_sorted : IsSorted q.active_timers
  pub sizes : length q.timers ≡ length q.active_timers
  pub due : (e a : ℕ) → is_in (e, a) q.timers ≡ is_due e a (find a q.store) q.active_timers
  pub live :
      (a s : ℕ) → is_in (a, s) q.active_timers ≡ true → has_sequence s (find a q.store) ≡ true
  pub placed : (a : ℕ) → is_placed a (find a q.store) ≡ true

pub new-IsValid : IsValid new_timer_queue
unfolding new_timer_queue is_in find
new-IsValid = record {
  timers_sorted = tt;
  active_sorted = tt;
  sizes = refl;
  due = λ e a. refl;
  live = λ a s h. cc;
  placed = λ a. refl;
}

-- The exactly idle timers.
abbrev pub Holds : (ℕ → Bool) → ZkTimerQueue → Type 0
Holds h q = (a : ℕ) → is_idle a (find a q.store) q.active_timers ≡ h a

-- No timer of the address is in the second set.
abbrev pub IsUnarmed : ℕ → ZkTimerQueue → Type 0
IsUnarmed a q = (s : ℕ) → is_in (a, s) q.active_timers ≡ false

pub idle-IsUnarmed :
    (a : ℕ) (q : ZkTimerQueue)
    → IsValid q
    → is_idle a (find a q.store) q.active_timers ≡ true
    → IsUnarmed a q
idle-IsUnarmed a q v i s = elim (Bool-cases (is_in (a, s) q.active_timers)) [
  | inl h ↦ ground (arith, v.live a s h, i, h)
  | inr h ↦ h
]

pub fresh-IsUnarmed : (a : ℕ) (q : ZkTimerQueue) → IsValid q → find a q.store ≡ none → IsUnarmed a q
fresh-IsUnarmed a q v i s = elim (Bool-cases (is_in (a, s) q.active_timers)) [
  | inl h ↦ ground (arith, v.live a s h, i)
  | inr h ↦ h
]

pub IsUnarmed-timers :
    (e a : ℕ) (q : ZkTimerQueue) → IsValid q → IsUnarmed a q → is_in (e, a) q.timers ≡ false
IsUnarmed-timers e a q v n = absent (find a q.store) (v.due e a)
  where
    absent :
        (o : Option Timer)
        → is_in (e, a) q.timers ≡ is_due e a o q.active_timers
        → is_in (e, a) q.timers ≡ false
    absent none h = h
    absent (some t) h = ground (arith, h, n t.sequence)

abbrev pub with_timer : ℕ → Timer → ZkTimerQueue → ZkTimerQueue
with_timer a t q = record q { store = assign a t q.store }

-- Writing a timer that is in no set.
pub with_timer-IsValid :
    (a : ℕ) (t : Timer) (q : ZkTimerQueue)
    → IsValid q
    → IsUnarmed a q
    → a < uintptr_max
    → IsValid (with_timer a t q)
with_timer-IsValid a t q v n l = record {
  placed = λ b. ground (arith, find-assign a b t q.store, v.placed b, ==_iff a b);
  timers_sorted = v.timers_sorted;
  active_sorted = v.active_sorted;
  sizes = v.sizes;
  due = λ e b. ground (
    arith,
    find-assign a b t q.store,
    v.due e b,
    IsUnarmed-timers e b q v,
    n t.sequence,
    ==_iff a b,
    IsUnarmed-timers e a q v n,
  );
  live = λ b s h. ground (arith, find-assign a b t q.store, v.live b s h, n s);
}

is_due-armed :
    (e a b : ℕ) (t : Timer) (o : Option Timer) (m : PairSet)
    → is_in (a, t.sequence) m ≡ false
    → (a ≡ b → o ≡ some t)
    → is_due e b o (put (a, t.sequence) m) ≡ (eqb (t.expiration, a) (e, b) || is_due e b o m)
is_due-armed e a b t none m n f = ground (arith, f)
is_due-armed e a b t (some u) m n f = ground (arith, f, is_in-put (a, t.sequence) (b, u.sequence) m)

pub armed-IsValid :
    (a : ℕ) (t : Timer) (q : ZkTimerQueue)
    → IsValid q
    → find a q.store ≡ some t
    → IsUnarmed a q
    → IsValid (armed a t q)
armed-IsValid a t q v f n = record {
  placed = v.placed;
  timers_sorted =
      put-IsSorted (t.expiration, a) q.timers (IsUnarmed-timers t.expiration a q v n)
        v.timers_sorted;
  active_sorted = put-IsSorted (a, t.sequence) q.active_timers (n t.sequence) v.active_sorted;
  sizes = omega (
    arith,
    v.sizes,
    length-put (t.expiration, a) q.timers,
    length-put (a, t.sequence) q.active_timers,
  );
  due = λ e b.
      is_in-put (t.expiration, a) (e, b) q.timers
      ∙ ap (λ x. eqb (t.expiration, a) (e, b) || x) (v.due e b)
      ∙ sym (
          is_due-armed e a b t (find b q.store) q.active_timers (n t.sequence)
            (λ x. ap (λ c. find c q.store) (sym x) ∙ f));
  live =
      λ b s h. ground (arith, is_in-put (a, t.sequence) (b, s) q.active_timers, v.live b s, f, h);
}

-- No assertion of insert fails for a timer that is in no set.
pub insert-armed :
    (a : ℕ) (t : Timer) (q : ZkTimerQueue)
    → IsValid q
    → IsUnarmed a q
    → insert a t q ≡ some (is_before t.expiration q.timers, armed a t q)
unfolding insert
insert-armed a t q v n = ground (
  arith,
  v.sizes,
  IsUnarmed-timers t.expiration a q v n,
  n t.sequence,
  length-put (t.expiration, a) q.timers,
  length-put (a, t.sequence) q.active_timers,
)

-- The other fields do not matter.
pub IsValid-flags :
    (c : Bool) (m : PairSet) (q : ZkTimerQueue)
    → IsValid q
    → IsValid (record q { calling_expired_timers = c; canceling_timers = m })
IsValid-flags c m q v = record {
  timers_sorted = v.timers_sorted;
  active_sorted = v.active_sorted;
  sizes = v.sizes;
  due = v.due;
  live = v.live;
  placed = v.placed;
}
