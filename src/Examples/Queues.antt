-- ===== src/Examples/Queues.antt =====
-- A queue with a repeating timer and two that run once; a callback cancels its own timer.
use zookeeper_cpp_client.Common.{
  ℕ, ◌+◌, ◌≡◌, refl, true, false, ◌&&◌, List, [], ◌∷◌, Option, none, some, arith, leb,
}
use zookeeper_cpp_client.Common.Std.{find, find-assign_self, nat_ord}
use zookeeper_cpp_client.Timers.{Timer, ZkTimerQueue, adds, cancels, handle_read, new_timer_queue}
use zookeeper_cpp_client.Timers.Pairs.{PairSet, is_in}
use zookeeper_cpp_client.Timers.Valid.{
  IsValid, IsUnarmed, new-IsValid, with_timer, with_timer-IsValid, armed-IsValid,
}
use zookeeper_cpp_client.Timers.Idle.{again, idle-again}
use zookeeper_cpp_client.Timers.Alarm.{IsCovered}
use zookeeper_cpp_client.Timers.Read.{IsSettled}
use zookeeper_cpp_client.Timers.History.{Event, calls, wakes, run_events, history, IsFreshHistory}
use zookeeper_cpp_client.Timers.Life.{
  no_timers, is_live_at, run_events-history, run_events-covers, handle_read-expired,
}

-- Timer::restart of a timer that repeats.
abbrev restart_after : ℕ → Timer → Timer
restart_after now t = record t { expiration = now + t.interval }

abbrev tick : Timer
tick = record { callback = 1; expiration = 5; interval = 10; repeat = true; sequence = 1 }

abbrev once : Timer
once = record { callback = 2; expiration = 7; interval = 0; repeat = false; sequence = 2 }

abbrev again_once : Timer
again_once = record { callback = 3; expiration = 9; interval = 0; repeat = false; sequence = 3 }

-- The second wake-up deletes the timer at 200, and the last one that of the address 100.
abbrev a_life : List Event
a_life =
    calls (adds 100 tick)
    ∷ calls (adds 200 once)
    ∷ wakes 6 (adds 300 again_once ∷ cancels 300 4 ∷ [])
    ∷ wakes 8 []
    ∷ calls (adds 200 again_once)
    ∷ calls (cancels 200 2)
    ∷ wakes 17 (cancels 100 1 ∷ [])
    ∷ []

a_life_fresh : IsFreshHistory restart_after a_life no_timers
a_life_fresh = (
  (refl, omega arith),
  (
    (refl, omega arith),
    (((refl, omega arith), (tt, tt)), (tt, ((refl, omega arith), (tt, ((tt, tt), tt))))),
  ),
)

run_events-history_example :
    (s : Option ℕ × ZkTimerQueue) × (run_events restart_after a_life (none, new_timer_queue)
      ≡ some s)
    × IsValid s.1
    × IsSettled s.1
    × ((b : ℕ) → find b s.1.store ≡ history restart_after a_life no_timers b)
run_events-history_example = run_events-history restart_after a_life a_life_fresh

run_events-covers_example :
    (alarm : Option ℕ) × (q : ZkTimerQueue) × (run_events restart_after a_life
        (none, new_timer_queue)
      ≡ some (alarm, q))
    × IsCovered alarm q
run_events-covers_example =
    run_events-covers restart_after (λ now t h. omega arith) a_life a_life_fresh refl

-- A queue with the repeating timer.
abbrev ready : ZkTimerQueue
ready = again 100 tick new_timer_queue

no_entry : IsUnarmed 100 new_timer_queue
unfolding new_timer_queue is_in
no_entry s = refl

ready-IsValid : IsValid ready
ready-IsValid =
    let w = with_timer-IsValid 100 tick new_timer_queue new-IsValid no_entry (omega arith) in
    armed-IsValid 100 tick (with_timer 100 tick new_timer_queue) w
      (find-assign_self 100 tick new_timer_queue.store) no_entry

ready-IsSettled : IsSettled ready
unfolding new_timer_queue find
ready-IsSettled b = idle-again 100 b tick new_timer_queue

handle_read-expired_example :
    (es : PairSet) × (next : Option ℕ) × (q1 : ZkTimerQueue) × (handle_read restart_after 6
        (cancels 100 1 ∷ [])
        ready
      ≡ some (es, next, q1))
    × ((e a : ℕ) → is_in (e, a) es ≡ (is_live_at e (find a ready.store) && leb e 6))
    × IsValid q1
    × IsSettled q1
handle_read-expired_example =
    handle_read-expired restart_after 6 (cancels 100 1 ∷ []) ready ready-IsValid ready-IsSettled
      (tt, tt)
