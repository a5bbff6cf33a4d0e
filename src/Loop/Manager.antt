-- ===== src/Loop/Manager.antt =====
-- ZkTimerManager of src/ZkClientManager.cc: which thread has a timer queue. The queue itself stands
-- with its thread. What a call hands to runInThread is the functor addTimerInLoop, with the new Timer
-- and its address.
use zookeeper_cpp_client.Common.{
  ℕ, ◌+◌, ◌≡◌, ◌≢◌, refl, ap, ◌∙◌, sym, subst, false, List, [], ◌∷◌, ◌++◌, Option, none, some,
  arith, map, ltb,
}
use mathlib.Core.List.{append_assoc}
use zookeeper_cpp_client.Common.Std.{StdMap, find, assign, nat_ord}
use zookeeper_cpp_client.Timers.{Timer, Op, adds}
use zookeeper_cpp_client.Timers.Valid.{IsValid}
use zookeeper_cpp_client.Timers.Spec.{Timers, call, timers_of}
use zookeeper_cpp_client.Timers.Read.{IsSettled}
use zookeeper_cpp_client.Timers.History.{Event, calls, history, IsFreshHistory}
use zookeeper_cpp_client.Functors.{CbFunManager, pending_of, run_in_thread}
use zookeeper_cpp_client.Functors.Pending.{queued_by, pending_of-run_in_thread}
use zookeeper_cpp_client.Loop.{Thread, EpollEvent, loop_once, ops_of_all}
use zookeeper_cpp_client.Loop.Events.{IsReady, wakeups}
use zookeeper_cpp_client.Loop.Once.{turn_events, history-append, loop_once_lem}

-- The timerfd of each thread's queue. The pointer to the map is null once the manager is destroyed.
pub record ZkTimerManager : Type 0 where
  pub timer_queues : Option (StdMap ℕ ℕ)

abbrev pub time_queue_of : ℕ → ZkTimerManager → Option ℕ
time_queue_of id m = elim m.timer_queues [ none ↦ none | some qs ↦ find id qs ]

-- The timerfd of the thread, over the one that a new queue would create; -1 is `none`.
unfoldable pub insert_time_queue : ℕ → ℕ → ZkTimerManager → Option ℕ × ZkTimerManager
insert_time_queue id timerfd m = elim m.timer_queues [
  | none ↦ (none, m)
  | some qs ↦ elim (find id qs) [
    | some fd ↦ (some fd, m)
    | none ↦ (some timerfd, record { timer_queues = some (assign id timerfd qs) })
  ]
]

-- The constructor of Timer.
abbrev pub new_timer : ℕ → ℕ → ℕ → ℕ → Timer
new_timer callback when interval sequence = record {
  callback = callback;
  expiration = when;
  interval = interval;
  repeat = ltb 0 interval;
  sequence = sequence;
}

-- The functor for the thread, if it has a queue.
abbrev pub add_timer_of : Option ℕ → ℕ → Timer → Option Op
add_timer_of none a t = none
add_timer_of (some fd) a t = some (adds a t)

unfoldable pub run_at : ℕ → ℕ → ℕ → ℕ → ℕ → ZkTimerManager → Option Op
run_at id time callback a sequence m =
    add_timer_of (time_queue_of id m) a (new_timer callback time 0 sequence)

unfoldable pub run_after : ℕ → ℕ → ℕ → ℕ → ℕ → ℕ → ZkTimerManager → Option Op
unfolding run_at
run_after id now delay callback a sequence m = run_at id (now + delay) callback a sequence m

unfoldable pub run_every : ℕ → ℕ → ℕ → ℕ → ℕ → ℕ → ZkTimerManager → Option Op
run_every id now interval callback a sequence m =
    add_timer_of (time_queue_of id m) a (new_timer callback (now + interval) interval sequence)

-- A functor of the timers is one call of the queue.
abbrev pub one_op : Op → List Op
one_op op = op ∷ []

module _ (restart : ℕ → Timer → Timer) where
  ops_of_all-last :
      (fs : List Op) (op : Op)
      → ops_of_all restart one_op (fs ++ op ∷ []) ≡ ops_of_all restart one_op fs ++ op ∷ []
  ops_of_all-last [] op = refl
  ops_of_all-last (f ∷ fs) op = ap (λ xs. f ∷ xs) (ops_of_all-last fs op)

  map-last : (ops : List Op) (op : Op) → map calls (ops ++ op ∷ []) ≡ map calls ops ++ calls op ∷ []
  map-last [] op = refl
  map-last (o ∷ ops) op = ap (λ xs. calls o ∷ xs) (map-last ops op)

  -- The last functor of a turn is the last event.
  turn_events-last :
      (es : List EpollEvent) (fs : List Op) (op : Op)
      → turn_events restart one_op es (fs ++ op ∷ [])
        ≡ turn_events restart one_op es fs ++ calls op ∷ []
  turn_events-last es fs op =
      ap (λ ops. wakeups es ++ map calls ops) (ops_of_all-last fs op)
      ∙ ap (λ xs. wakeups es ++ xs) (map-last (ops_of_all restart one_op fs) op)
      ∙ sym (append_assoc (wakeups es) (map calls (ops_of_all restart one_op fs)) (calls op ∷ []))

  history-last :
      (xs : List Event) (op : Op) (m : Timers)
      → history restart (xs ++ calls op ∷ []) m ≡ call (λ _. false) op (history restart xs m)
  history-last xs op m = history-append restart xs (calls op ∷ []) m

  -- A timer that another thread sets by runAfter for a thread that has a timer queue is live behind
  -- that thread's next turn, due at the sum of the times and not repeating, whatever the events of
  -- the turn are and whatever other functors wait before it, when each timer that the turn adds has
  -- an address of no live timer.
  pub run_after_lem :
      (me now delay callback a sequence fd : ℕ) (tm : ZkTimerManager) (es : List EpollEvent)
      (t : Thread) (m : CbFunManager Op)
      → me ≢ t.id
      → time_queue_of t.id tm ≡ some fd
      → IsReady t
      → IsValid t.queue
      → IsSettled t.queue
      → let timer = new_timer callback (now + delay) 0 sequence in
        IsFreshHistory restart
          (turn_events restart one_op es (pending_of t.id m ++ adds a timer ∷ []))
          (timers_of t.queue)
        → (op : Op) × (fs : List Op) × (t1 : Thread) × (m1 : CbFunManager Op) × (run_after t.id now
              delay callback a sequence tm
            ≡ some op)
          × (loop_once restart one_op es (t, (run_in_thread me t.id op m).1) ≡ some (fs, t1, m1))
          × (find a t1.queue.store ≡ some timer)
  unfolding run_after run_at
  run_after_lem me now delay callback a sequence fd tm es t m d q r v w f =
      let timer = new_timer callback (now + delay) 0 sequence in
      let op = adds a timer in
      let ps = pending_of t.id m in
      let m0 = (run_in_thread me t.id op m).1 in
      let last : pending_of t.id m0 ≡ ps ++ op ∷ [] =
        pending_of-run_in_thread me t.id t.id op m ∙ ap (λ xs. ps ++ xs) (other me t.id op d) in
      let turn = λ (x : List Op). turn_events restart one_op es x in
      let (t1, m1, run, b, p) =
        loop_once_lem restart one_op es t m0 r v w
          (subst (λ x. IsFreshHistory restart (turn x) (timers_of t.queue)) (sym last) f) in
      (
        op,
        pending_of t.id m0,
        t1,
        m1,
        ap (λ o. add_timer_of o a timer) q,
        run,
        b.timers a
            ∙ ap (λ x. history restart (turn x) (timers_of t.queue) a) last
            ∙ ap (λ xs. history restart xs (timers_of t.queue) a) (turn_events-last es ps op)
            ∙ ap (λ x. x a) (history-last (turn ps) op (timers_of t.queue))
            ∙ ground arith,
      )
    where
      other : (me id : ℕ) (op : Op) → me ≢ id → queued_by id me id op ≡ op ∷ []
      other me id op d = ground (arith, d)
