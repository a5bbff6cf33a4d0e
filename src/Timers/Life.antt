-- ===== src/Timers/Life.antt =====
-- What ZkTimerQueue promises its thread, over every life of a queue.
use zookeeper_cpp_client.Common.{
  ℕ, ◌≤◌, ◌≡◌, refl, ap, ◌∙◌, sym, subst, Bool, true, false, ◌&&◌, List, [], ◌∷◌, Option, none,
  some, arith, ltb, leb, ◌==◌,
}
use zookeeper_cpp_client.Common.Std.{find, nat_ord}
use zookeeper_cpp_client.Timers.{Timer, ZkTimerQueue, Op, handle_read, new_timer_queue}
use zookeeper_cpp_client.Timers.Pairs.{PairSet, is_in}
use zookeeper_cpp_client.Timers.Valid.{is_due, is_idle, IsValid, new-IsValid}
use zookeeper_cpp_client.Timers.Spec.{Timers, timers_of, AllFresh}
use zookeeper_cpp_client.Timers.Alarm.{
  IsCovered, IsPositive, is_positive, are_positive, call-IsPositive, wake-IsPositive,
}
use zookeeper_cpp_client.Timers.Read.{IsSettled, expired_at, handle_read-Woken}
use zookeeper_cpp_client.Timers.History.{
  Event, calls, wakes, run_events, event, history, IsFreshHistory, IsPositiveHistory, IsAfter,
  run_events-IsAfter,
}

abbrev pub no_timers : Timers
no_timers a = none

pub new-IsSettled : IsSettled new_timer_queue
unfolding new_timer_queue find
new-IsSettled a = refl

pub new-timers : timers_of new_timer_queue ≡ no_timers
unfolding new_timer_queue find
new-timers = refl

new-IsCovered : IsCovered none new_timer_queue
unfolding new_timer_queue find
new-IsCovered a = refl

-- Every time of an event is valid().
abbrev pub is_positive_event : Event → Bool
is_positive_event (calls op) = is_positive op
is_positive_event (wakes now ops) = ltb 0 now && are_positive ops

abbrev pub are_positive_events : List Event → Bool
are_positive_events [] = true
are_positive_events (e ∷ events) = is_positive_event e && are_positive_events events

-- The timer is live, and due at the time e.
abbrev pub is_live_at : ℕ → Option Timer → Bool
is_live_at e none = false
is_live_at e (some t) = t.expiration == e

live_entries :
    (e a : ℕ) (q : ZkTimerQueue)
    → IsValid q
    → IsSettled q
    → is_in (e, a) q.timers ≡ is_live_at e (find a q.store)
live_entries e a q v w = v.due e a ∙ at (find a q.store) (w a)
  where
    at :
        (o : Option Timer)
        → is_idle a o q.active_timers ≡ false
        → is_due e a o q.active_timers ≡ is_live_at e o
    at none h = refl
    at (some t) h = ground (arith, h)

module _ (restart : ℕ → Timer → Timer) where
  history_lem :
      (events : List Event)
      → IsFreshHistory restart events no_timers
      → (alarm : Option ℕ) × (q : ZkTimerQueue) × (run_events restart events (none, new_timer_queue)
          ≡ some (alarm, q))
        × IsAfter restart (history restart events no_timers) q
        × (IsPositiveHistory restart events no_timers → IsCovered alarm q)
  history_lem events f =
      let (alarm, q, run, r, c) =
        run_events-IsAfter restart events none new_timer_queue new-IsValid new-IsSettled
          (subst (IsFreshHistory restart events) (sym new-timers) f) in
      (
        alarm,
        q,
        run,
        subst (λ m. IsAfter restart (history restart events m) q) new-timers r,
        λ p. c new-IsCovered (subst (IsPositiveHistory restart events) (sym new-timers) p),
      )

  -- Over every history of calls and wake-ups of a queue, in which each new timer has an address that
  -- no live timer has, no assertion of the queue fails, its sets stay consistent, no expired timer is
  -- left out of both sets, and the live timers are those of the same history on a map: adding a
  -- timer writes it, a cancellation removes the timer of its sequence number only, and a wake-up
  -- restarts the due timers that repeat and were not cancelled by a callback, and deletes the others.
  pub run_events-history :
      (events : List Event)
      → IsFreshHistory restart events no_timers
      → (s : Option ℕ × ZkTimerQueue) × (run_events restart events (none, new_timer_queue) ≡ some s)
        × IsValid s.1
        × IsSettled s.1
        × ((b : ℕ) → find b s.1.store ≡ history restart events no_timers b)
  run_events-history events f =
      let (alarm, q, run, r, c) = history_lem events f in
      ((alarm, q), run, r.valid, r.settled, r.timers)

  -- In a consistent queue without timers that wait for a reset, a wake-up fails no assertion and
  -- follows no deleted timer, runs the callbacks of exactly the live timers that are due, and leaves
  -- a consistent queue without timers that wait for a reset, when each timer that the callbacks add
  -- has an address that no live timer has.
  pub handle_read-expired :
      (now : ℕ) (ops : List Op) (q : ZkTimerQueue)
      → IsValid q
      → IsSettled q
      → AllFresh (expired_at now (timers_of q)) ops (timers_of q)
      → (es : PairSet) × (next : Option ℕ) × (q1 : ZkTimerQueue) × (handle_read restart now ops q
          ≡ some (es, next, q1))
        × ((e a : ℕ) → is_in (e, a) es ≡ (is_live_at e (find a q.store) && leb e now))
        × IsValid q1
        × IsSettled q1
  handle_read-expired now ops q v w f =
      let (es, next, q1, run, r) = handle_read-Woken restart now ops q v w f in
      (
        es,
        next,
        q1,
        run,
        λ e a. r.expired e a ∙ ap (λ x. x && leb e now) (live_entries e a q v w),
        r.valid,
        r.settled,
      )

  positive_history :
      (restart_later : (now : ℕ) (t : Timer) → t.repeat ≡ true → now ≤ (restart now t).expiration)
      (events : List Event) (m : Timers)
      → IsPositive m
      → are_positive_events events ≡ true
      → IsPositiveHistory restart events m
  positive_history later [] m p h = p
  positive_history later (calls op ∷ events) m p h = (
    p,
    positive_history later events (event restart (calls op) m)
        (call-IsPositive (λ _. false) op m p (ground (arith, h))) (ground (arith, h)),
  )
  positive_history later (wakes now ops ∷ events) m p h = (
    p,
    positive_history later events (event restart (wakes now ops) m)
        (wake-IsPositive restart later now ops m p (ground (arith, h)) (ground (arith, h)))
        (ground (arith, h)),
  )

  -- After every history of a queue in which each new timer has an address that no live timer has,
  -- all times are valid() and a restarted repeating timer is due no earlier than the restart, the timerfd is
  -- set to a time at or before the expiration of each live timer: none is forgotten.
  pub run_events-covers :
      (restart_later : (now : ℕ) (t : Timer) → t.repeat ≡ true → now ≤ (restart now t).expiration)
      (events : List Event)
      → IsFreshHistory restart events no_timers
      → are_positive_events events ≡ true
      → (alarm : Option ℕ) × (q : ZkTimerQueue) × (run_events restart events (none, new_timer_queue)
          ≡ some (alarm, q))
        × IsCovered alarm q
  run_events-covers later events f h =
      let (alarm, q, run, r, c) = history_lem events f in
      (alarm, q, run, c (positive_history later events no_timers (λ b. refl) h))
