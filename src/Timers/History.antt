-- ===== src/Timers/History.antt =====
-- A life of ZkTimerQueue in its thread: calls between the wake-ups of the timerfd, and the wake-ups.
use zookeeper_cpp_client.Common.{
  ℕ, ◌≡◌, refl, ap, ◌∙◌, sym, subst, false, List, [], ◌∷◌, Option, some,
}
use zookeeper_cpp_client.Common.Std.{find, nat_ord}
use zookeeper_cpp_client.Timers.{Timer, ZkTimerQueue, Op, call_op, handle_read, ◌>>=◌}
use zookeeper_cpp_client.Timers.Valid.{IsValid}
use zookeeper_cpp_client.Timers.Calls.{call-CalledOne}
use zookeeper_cpp_client.Timers.Spec.{Timers, call, timers_of, set_by, IsFresh, AllFresh}
use zookeeper_cpp_client.Timers.Read.{IsSettled, expired_at, wake, handle_read-Woken}
use zookeeper_cpp_client.Timers.Alarm.{
  or_else, IsCovered, IsPositive, first_time-covers, call-covers,
}

pub data Event : Type 0 where
  calls : Op → Event
  wakes : ℕ → List Op → Event

module _ (restart : ℕ → Timer → Timer) where
  -- The queue, and the time that the timerfd is set to. A wake-up uses the setting up, and makes the
  -- next one when a timer is left; when none is left, what its callbacks have set is left out.
  unfoldable pub run_events :
      List Event → Option ℕ × ZkTimerQueue → Option (Option ℕ × ZkTimerQueue)
  unfolding handle_read call_op
  run_events [] s = some s
  run_events (calls op ∷ events) (alarm, q) = do
    (set, q1) ← call_op op q
    run_events events (or_else alarm set, q1)
  run_events (wakes now ops ∷ events) (alarm, q) = do
    (_, next, q1) ← handle_read restart now ops q
    run_events events (next, q1)

  -- The same on the map of the live timers.
  abbrev pub event : Event → Timers → Timers
  event (calls op) m = call (λ _. false) op m
  event (wakes now ops) m = wake restart now ops m

  abbrev pub history : List Event → Timers → Timers
  history [] m = m
  history (e ∷ events) m = history events (event e m)

  -- Each `new` returns an address that no live timer has.
  abbrev pub IsFreshEvent : Event → Timers → Type 0
  IsFreshEvent (calls op) m = IsFresh op m
  IsFreshEvent (wakes now ops) m = AllFresh (expired_at now m) ops m

  abbrev pub IsFreshHistory : List Event → Timers → Type 0
  IsFreshHistory [] m = Unit
  IsFreshHistory (e ∷ events) m = IsFreshEvent e m × IsFreshHistory events (event e m)

  -- At every moment of the history all live timers have valid() times.
  abbrev pub IsPositiveHistory : List Event → Timers → Type 0
  IsPositiveHistory [] m = IsPositive m
  IsPositiveHistory (e ∷ events) m = IsPositive m × IsPositiveHistory events (event e m)

  pub IsPositiveHistory-now :
      (events : List Event) (m : Timers) → IsPositiveHistory events m → IsPositive m
  IsPositiveHistory-now [] m p = p
  IsPositiveHistory-now (e ∷ events) m p = p.0

  pub record IsAfter (m : Timers) (q : ZkTimerQueue) : Type 0 where
    pub valid : IsValid q
    pub settled : IsSettled q
    pub timers : (b : ℕ) → find b q.store ≡ m b

  -- Each event, and the alarm it leaves.
  event-IsAfter :
      (e : Event) (alarm : Option ℕ) (q : ZkTimerQueue)
      → IsValid q
      → IsSettled q
      → IsFreshEvent e (timers_of q)
      → (next : Option ℕ) × (q1 : ZkTimerQueue) × ((events : List Event)
          → run_events (e ∷ events) (alarm, q) ≡ run_events events (next, q1))
        × IsAfter (event e (timers_of q)) q1
        × (IsCovered alarm q → IsPositive (timers_of q1) → IsCovered next q1)
  unfolding run_events
  event-IsAfter (calls op) alarm q v w f =
      let (q1, run, r) = call-CalledOne (λ _. false) op q v w f in
      (
        or_else alarm (set_by op q),
        q1,
        λ events. ap (λ o. o >>= λ p. run_events events (or_else alarm p.0, p.1)) run,
        record { valid = r.valid; settled = r.idle; timers = r.store },
        λ c p. call-covers alarm op q q1 v w c r.store,
      )
  event-IsAfter (wakes now ops) alarm q v w f =
      let (es, next, q1, run, r) = handle_read-Woken restart now ops q v w f in
      (
        next,
        q1,
        λ events. ap (λ o. o >>= λ p. run_events events (p.1, p.2)) run,
        record { valid = r.valid; settled = r.settled; timers = r.timers },
        λ c p. subst (λ n. IsCovered n q1) (sym r.first) (first_time-covers q1 r.valid r.settled p),
      )

  pub run_events-IsAfter :
      (events : List Event) (alarm : Option ℕ) (q : ZkTimerQueue)
      → IsValid q
      → IsSettled q
      → IsFreshHistory events (timers_of q)
      → (next : Option ℕ) × (q1 : ZkTimerQueue) × (run_events events (alarm, q) ≡ some (next, q1))
        × IsAfter (history events (timers_of q)) q1
        × (IsCovered alarm q → IsPositiveHistory events (timers_of q) → IsCovered next q1)
  unfolding run_events
  run_events-IsAfter [] alarm q v w f =
      (alarm, q, refl, record { valid = v; settled = w; timers = λ b. refl }, λ c p. c)
  run_events-IsAfter (e ∷ events) alarm q v w (f, fs) =
      let (next, q1, run, r, c1) = event-IsAfter e alarm q v w f in
      let same : timers_of q1 ≡ event e (timers_of q) = λ k b. r.timers b k in
      let (last, q2, rest, rs, c2) =
        run_events-IsAfter events next q1 r.valid r.settled
          (subst (IsFreshHistory events) (sym same) fs) in
      (
        last,
        q2,
        run events ∙ rest,
        subst (λ m. IsAfter (history events m) q2) same rs,
        λ c p.
            let positive = subst (IsPositiveHistory events) (sym same) p.1 in
            c2 (c1 c (IsPositiveHistory-now events (timers_of q1) positive)) positive,
      )
