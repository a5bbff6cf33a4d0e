-- ===== src/Timers.antt =====
-- ZkTimerQueue of src/ZkTimerQueue.cc: the timers of one thread, which that thread alone touches.
-- `store` holds the live Timer objects by address: `new` and `delete` change it. Timer itself is
-- muduo's, a copy in the repository: its `restart` is a parameter. Times are microseconds since the
-- epoch. `none` is an assertion that fails, or a pointer to a deleted timer that is followed.
-- A timer that is set for the timerfd is a result.
pub mod Pairs
pub mod Valid
pub mod Cancel
pub mod Idle
pub mod Erase
pub mod Expiry
pub mod Reset
pub mod Spec
pub mod Calls
pub mod Read
pub mod Alarm
pub mod History
pub mod Life
pub mod Delay
pub mod Delete
use zookeeper_cpp_client.Common.{
  ℕ, ◌+◌, ◌-◌, ◌*◌, ◌/◌, ◌%◌, ◌^◌, Bool, true, false, not, ◌&&◌, List, [], ◌∷◌, ◌++◌, Option, none,
  some, ltb, leb, ◌==◌, if◌then◌else◌, length,
}
use zookeeper_cpp_client.Common.Std.{StdMap, find, assign, erase, nat_ord}
use Pairs.{Pair, PairSet, is_in, put, drop, below, from}

-- The fields of muduo's Timer that the queue reads, its interval in microseconds.
pub record Timer : Type 0 where
  pub callback : ℕ
  pub expiration : ℕ
  pub interval : ℕ
  pub repeat : Bool
  pub sequence : ℕ

-- `timers_` holds pairs of time and address, the others pairs of address and sequence number.
pub record ZkTimerQueue : Type 0 where
  pub store : StdMap ℕ Timer
  pub timers : PairSet
  pub active_timers : PairSet
  pub calling_expired_timers : Bool
  pub canceling_timers : PairSet

unfoldable pub new_timer_queue : ZkTimerQueue
new_timer_queue = record {
  store = [];
  timers = [];
  active_timers = [];
  calling_expired_timers = false;
  canceling_timers = [];
}

infixl 5 ◌>>=◌ ◌>>◌
abbrev pub ◌>>=◌ {ℓ κ} : {A : Type ℓ} {B : Type κ} → Option A → (A → Option B) → Option B
none >>= f = none
some a >>= f = f a

abbrev pub ◌>>◌ {ℓ} : {B : Type ℓ} → Option (Unit {0}) → Option B → Option B
m >> k = m >>= λ _. k

abbrev pub asserted : Bool → Option (Unit {0})
asserted true = some tt
asserted false = none

-- assert(timers_.size() == activeTimers_.size())
abbrev pub has_same_sizes : ZkTimerQueue → Bool
has_same_sizes q = length q.timers == length q.active_timers

-- it == end() || when < it->first
abbrev pub is_before : ℕ → PairSet → Bool
is_before when [] = true
is_before when (k ∷ m) = ltb when k.0

-- The queue with the timer in both of its sets.
abbrev pub armed : ℕ → Timer → ZkTimerQueue → ZkTimerQueue
armed a t q = record q {
  timers = put (t.expiration, a) q.timers;
  active_timers = put (a, t.sequence) q.active_timers;
}

unfoldable pub insert : ℕ → Timer → ZkTimerQueue → Option (Bool × ZkTimerQueue)
unfolding put is_in
insert a t q = do
  asserted (has_same_sizes q)
  let earliest_changed = is_before t.expiration q.timers
  asserted (not (is_in (t.expiration, a) q.timers))
  asserted (not (is_in (a, t.sequence) q.active_timers))
  asserted (has_same_sizes (armed a t q))
  some (earliest_changed, armed a t q)

-- addTimer: the Timer at its new address, and addTimerInLoop.
unfoldable pub add_timer : ℕ → Timer → ZkTimerQueue → Option (Option ℕ × ZkTimerQueue)
unfolding insert
add_timer a t q = do
  (earliest_changed, q1) ← insert a t (record q { store = assign a t q.store })
  some (if earliest_changed then some t.expiration else none, q1)

-- The largest address.
abbrev pub uintptr_max : ℕ
uintptr_max = 2 ^ 64 - 1

unfoldable pub erase_active : PairSet → ZkTimerQueue → Option ZkTimerQueue
unfolding is_in drop
erase_active [] q = some q
erase_active ((e, a) ∷ es) q = do
  t ← find a q.store
  asserted (is_in (a, t.sequence) q.active_timers)
  erase_active es (record q { active_timers = drop (a, t.sequence) q.active_timers })

unfoldable pub get_expired : ℕ → ZkTimerQueue → Option (PairSet × ZkTimerQueue)
unfolding erase_active below from
get_expired now q = do
  asserted (has_same_sizes q)
  let expired = below (now, uintptr_max) q.timers
  let rest = from (now, uintptr_max) q.timers
  asserted (is_before now rest)
  q1 ← erase_active expired (record q { timers = rest })
  asserted (has_same_sizes q1)
  some (expired, q1)

-- cancelInLoop, for the address and the sequence number of a TimerId.
abbrev pub disarmed : ℕ → ℕ → Timer → ZkTimerQueue → ZkTimerQueue
disarmed a s t q = record q {
  store = erase a q.store;
  timers = drop (t.expiration, a) q.timers;
  active_timers = drop (a, s) q.active_timers;
}

abbrev pub cancel_active : ℕ → ℕ → ZkTimerQueue → Option ZkTimerQueue
cancel_active a s q = do
  t ← find a q.store
  asserted (is_in (t.expiration, a) q.timers)
  some (disarmed a s t q)

abbrev pub noted : Pair → PairSet → PairSet
noted k m = if is_in k m then m else put k m

abbrev pub cancel_inactive : ℕ → ℕ → ZkTimerQueue → ZkTimerQueue
cancel_inactive a s q =
    if q.calling_expired_timers
    then record q { canceling_timers = noted (a, s) q.canceling_timers }
    else q

unfoldable pub cancel_in_loop : ℕ → ℕ → ZkTimerQueue → Option ZkTimerQueue
unfolding is_in drop put
cancel_in_loop a s q = do
  asserted (has_same_sizes q)
  q1 ← if is_in (a, s) q.active_timers then cancel_active a s q else some (cancel_inactive a s q)
  asserted (has_same_sizes q1)
  some q1

-- What the callbacks of the expired timers do to the queue of their own thread, in order.
pub data Op : Type 0 where
  adds : ℕ → Timer → Op
  cancels : ℕ → ℕ → Op

-- One call, with the time that the timerfd is set to.
unfoldable pub call_op : Op → ZkTimerQueue → Option (Option ℕ × ZkTimerQueue)
unfolding add_timer cancel_in_loop
call_op (adds a t) q = add_timer a t q
call_op (cancels a s) q = do q1 ← cancel_in_loop a s q; some (none, q1)

unfoldable pub run_ops : List Op → ZkTimerQueue → Option ZkTimerQueue
unfolding call_op
run_ops [] q = some q
run_ops (op ∷ ops) q = do (_, q1) ← call_op op q; run_ops ops q1

-- nextExpire, and whether it is valid().
abbrev pub next_expire : ZkTimerQueue → PairSet → Option (Option ℕ)
next_expire q [] = some none
next_expire q (k ∷ m) = do
  t ← find k.1 q.store
  some (if ltb 0 t.expiration then some t.expiration else none)

module _ (restart : ℕ → Timer → Timer) where
  abbrev pub reset_timer : ℕ → ℕ → Timer → ZkTimerQueue → Option ZkTimerQueue
  reset_timer now a t q =
      if t.repeat && not (is_in (a, t.sequence) q.canceling_timers)
      then (do
        let t1 = restart now t
        (_, q1) ← insert a t1 (record q { store = assign a t1 q.store })
        some q1)
      else some (record q { store = erase a q.store })

  unfoldable pub reset_timers : ℕ → PairSet → ZkTimerQueue → Option ZkTimerQueue
  unfolding insert
  reset_timers now [] q = some q
  reset_timers now ((e, a) ∷ es) q = do
    t ← find a q.store
    q1 ← reset_timer now a t q
    reset_timers now es q1

  unfoldable pub reset : ℕ → PairSet → ZkTimerQueue → Option (Option ℕ × ZkTimerQueue)
  unfolding reset_timers
  reset now expired q = do
    q1 ← reset_timers now expired q
    next ← next_expire q1 q1.timers
    some (next, q1)

  -- handleRead: the calls it makes, the time that the timerfd is set to, and the queue.
  unfoldable pub handle_read :
      ℕ → List Op → ZkTimerQueue → Option (PairSet × Option ℕ × ZkTimerQueue)
  unfolding get_expired run_ops reset
  handle_read now ops q = do
    (expired, q1) ← get_expired now q
    q2 ← run_ops ops (record q1 { calling_expired_timers = true; canceling_timers = [] })
    (next, q3) ← reset now expired (record q2 { calling_expired_timers = false })
    some (expired, next, q3)
