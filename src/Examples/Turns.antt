-- ===== src/Examples/Turns.antt =====
-- A thread whose first functor, queued by another thread, sets a timer; then the timerfd fires. The
-- functors are the calls of the timers that they make.
use zookeeper_cpp_client.Common.{ℕ, ◌+◌, ◌≡◌, refl, true, false, List, [], ◌∷◌, ◌++◌, some, arith}
use zookeeper_cpp_client.Common.Std.{find, assign, nat_ord}
use zookeeper_cpp_client.Timers.{Timer, Op, adds, cancels, new_timer_queue}
use zookeeper_cpp_client.Timers.Valid.{IsValid, new-IsValid}
use zookeeper_cpp_client.Timers.Read.{IsSettled}
use zookeeper_cpp_client.Timers.History.{history, IsFreshHistory}
use zookeeper_cpp_client.Timers.Life.{no_timers, new-IsSettled}
use zookeeper_cpp_client.Functors.{CbFunManager, new_cb_fun_manager, pending_of, run_in_thread}
use zookeeper_cpp_client.Loop.{
  Thread, EpollEvent, timer_target, event_target, start_thread, new_net_client, loop_once,
}
use zookeeper_cpp_client.Loop.Events.{IsReady}
use zookeeper_cpp_client.Loop.Manager.{
  ZkTimerManager, insert_time_queue, new_timer, run_after, one_op, run_after_lem,
}
use zookeeper_cpp_client.Loop.Turns.{Turn, all_queued, all_events, run_turns, run_turns_lem}

abbrev restart_after : ℕ → Timer → Timer
restart_after now t = record t { expiration = now + t.interval }

abbrev tick : Timer
tick = record { callback = 1; expiration = 5; interval = 10; repeat = true; sequence = 1 }

abbrev same_ops : List Op → List Op
same_ops ops = ops

abbrev fired : EpollEvent
fired = record {
  target = timer_target;
  readable = true;
  writable = false;
  now = 6;
  ops = cancels 100 1 ∷ [];
}

abbrev woken : EpollEvent
woken = record { target = event_target; readable = true; writable = false; now = 2; ops = [] }

abbrev some_turns : List (Turn (List Op))
some_turns =
    ((1, adds 100 tick ∷ []) ∷ (2, adds 100 tick ∷ []) ∷ [], woken ∷ [])
    ∷ ((3, cancels 100 9 ∷ []) ∷ [], fired ∷ [])
    ∷ []

abbrev no_functors : CbFunManager (List Op)
no_functors = new_cb_fun_manager

some_turns_fresh :
    IsFreshHistory restart_after
      (all_events (List Op) restart_after same_ops (pending_of 2 no_functors) 2 some_turns)
      no_timers
unfolding pending_of new_cb_fun_manager find
some_turns_fresh = ((refl, omega arith), ((tt, tt), (tt, tt)))

run_turns_lem_example :
    (fs : List (List Op)) × (t : Thread) × (m1 : CbFunManager (List Op)) × (run_turns
        (List Op)
        restart_after
        same_ops
        some_turns
        (start_thread 2 8 9 10 no_functors)
      ≡ some (fs, t, m1))
    × (fs ++ pending_of 2 m1 ≡ pending_of 2 no_functors ++ all_queued 2 some_turns)
    × IsValid t.queue
    × IsSettled t.queue
    × ((b : ℕ)
        → find b t.queue.store
          ≡ history restart_after
              (all_events (List Op) restart_after same_ops (pending_of 2 no_functors) 2 some_turns)
              no_timers
              b)
run_turns_lem_example =
    run_turns_lem (List Op) restart_after same_ops 2 8 9 10 some_turns no_functors (omega arith)
      some_turns_fresh

abbrev no_ops : CbFunManager Op
no_ops = new_cb_fun_manager

abbrev fresh_thread : Thread
fresh_thread = (start_thread 2 8 9 10 no_ops).0

fresh_thread-IsReady : IsReady fresh_thread
unfolding start_thread new_net_client
fresh_thread-IsReady = record { event_fd = refl; timer_fd = refl; distinct = λ e. omega (arith, e) }

fresh_thread-IsValid : IsValid fresh_thread.queue
unfolding start_thread
fresh_thread-IsValid = new-IsValid

fresh_thread-IsSettled : IsSettled fresh_thread.queue
unfolding start_thread
fresh_thread-IsSettled = new-IsSettled

abbrev some_queues : ZkTimerManager
some_queues = (insert_time_queue 2 10 (record { timer_queues = some [] })).1

abbrev in_five : Timer
in_five = new_timer 7 (3 + 5) 0 1

run_after_lem_example :
    (op : Op) × (fs : List Op) × (t1 : Thread) × (m1 : CbFunManager Op) × (run_after fresh_thread.id
        3 5 7 100 1 some_queues
      ≡ some op)
    × (loop_once restart_after one_op
          (woken ∷ [])
          (fresh_thread, (run_in_thread 1 fresh_thread.id op no_ops).1)
        ≡ some (fs, t1, m1))
    × (find 100 t1.queue.store ≡ some in_five)
unfolding start_thread insert_time_queue pending_of new_cb_fun_manager new_timer_queue find assign
run_after_lem_example =
    run_after_lem restart_after 1 3 5 7 100 1 10 some_queues (woken ∷ []) fresh_thread no_ops
      (λ e. omega (arith, e)) refl fresh_thread-IsReady fresh_thread-IsValid fresh_thread-IsSettled
      ((refl, omega arith), tt)
