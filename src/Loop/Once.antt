-- ===== src/Loop/Once.antt =====
-- One turn of the loop of a thread: the events, and then the functors that wait for it.
use zookeeper_cpp_client.Common.{
  ℕ, ◌≡◌, refl, ap, ◌∙◌, sym, subst, false, List, [], ◌∷◌, ◌++◌, some, ◌==◌, if◌then◌else◌, map,
}
use zookeeper_cpp_client.Common.Std.{nat_ord}
use zookeeper_cpp_client.Timers.{Timer, Op, ◌>>=◌}
use zookeeper_cpp_client.Timers.Valid.{IsValid}
use zookeeper_cpp_client.Timers.Spec.{Timers, timers_of, set_by}
use zookeeper_cpp_client.Timers.Alarm.{or_else}
use zookeeper_cpp_client.Timers.Calls.{call-CalledOne}
use zookeeper_cpp_client.Timers.Read.{IsSettled}
use zookeeper_cpp_client.Timers.History.{Event, calls, history, IsFreshHistory}
use zookeeper_cpp_client.Functors.{CbFunManager, pending_of, take_pending, end_pending}
use zookeeper_cpp_client.Functors.Pending.{
  taken-take_pending, pending_of-take_pending, pending_of-end_pending,
}
use zookeeper_cpp_client.Loop.{
  Thread, EpollEvent, handle_event, handle_events, loop_once, run_calls, ops_of_all,
}
use zookeeper_cpp_client.Loop.Events.{
  IsReady, IsBehind, wakeup, wakeups, unread-IsBehind, handle_event-IsBehind,
}

module _ (restart : ℕ → Timer → Timer) where
  pub history-append :
      (xs ys : List Event) (m : Timers)
      → history restart (xs ++ ys) m ≡ history restart ys (history restart xs m)
  history-append [] ys m = refl
  history-append (x ∷ xs) ys m = history-append xs ys _

  pub IsFreshHistory-append :
      (xs ys : List Event) (m : Timers)
      → IsFreshHistory restart (xs ++ ys) m
      → IsFreshHistory restart xs m × IsFreshHistory restart ys (history restart xs m)
  IsFreshHistory-append [] ys m f = (tt, f)
  IsFreshHistory-append (x ∷ xs) ys m (f, fs) =
      let (g, h) = IsFreshHistory-append xs ys _ fs in ((f, g), h)

  -- Two courses of events behind each other.
  pub IsBehind-trans :
      (xs ys : List Event) (t t1 t2 : Thread)
      → IsBehind (history restart xs (timers_of t.queue)) t t1
      → IsBehind (history restart ys (timers_of t1.queue)) t1 t2
      → IsBehind (history restart (xs ++ ys) (timers_of t.queue)) t t2
  IsBehind-trans xs ys t t1 t2 b c = record {
    ready = c.ready;
    valid = c.valid;
    settled = c.settled;
    timers = λ a.
        c.timers a
        ∙ ap (λ m. history restart ys m a) (λ k d. b.timers d k)
        ∙ ap (λ m. m a) (sym (history-append xs ys (timers_of t.queue)));
    same = c.same ∙ b.same;
  }

  pub handle_events-IsBehind :
      (es : List EpollEvent) (t : Thread)
      → IsReady t
      → IsValid t.queue
      → IsSettled t.queue
      → IsFreshHistory restart (wakeups es) (timers_of t.queue)
      → (t1 : Thread) × (handle_events restart es t ≡ some t1)
        × IsBehind (history restart (wakeups es) (timers_of t.queue)) t t1
  unfolding handle_events
  handle_events-IsBehind [] t r v w f = (t, refl, unread-IsBehind restart t r v w)
  handle_events-IsBehind (e ∷ es) t r v w f =
      let xs = wakeups es in
      let ys = wakeup e.readable e.now e.ops e.target in
      let (fx, fy) = IsFreshHistory-append xs ys (timers_of t.queue) f in
      let (t1, run, b) = handle_events-IsBehind es t r v w fx in
      let same : timers_of t1.queue ≡ history restart xs (timers_of t.queue) =
        λ k a. b.timers a k in
      let (t2, rest, c) =
        handle_event-IsBehind restart e t1 b.ready b.valid b.settled
          (subst (IsFreshHistory restart ys) (sym same) fy) in
      (
        t2,
        ap (λ o. o >>= λ x. handle_event restart e x) run ∙ rest,
        IsBehind-trans xs ys t t1 t2 b c,
      )

  run_calls-IsBehind :
      (ops : List Op) (t : Thread)
      → IsReady t
      → IsValid t.queue
      → IsSettled t.queue
      → IsFreshHistory restart (map calls ops) (timers_of t.queue)
      → (t1 : Thread) × (run_calls ops t ≡ some t1)
        × IsBehind (history restart (map calls ops) (timers_of t.queue)) t t1
  unfolding run_calls
  run_calls-IsBehind [] t r v w f = (t, refl, unread-IsBehind restart t r v w)
  run_calls-IsBehind (op ∷ ops) t r v w (f, fs) =
      let (q1, run, k) = call-CalledOne (λ _. false) op t.queue v w f in
      let t1 : Thread = record t { alarm = or_else t.alarm (set_by op t.queue); queue = q1 } in
      let b : IsBehind (history restart (calls op ∷ []) (timers_of t.queue)) t t1 = record {
        ready = record { event_fd = r.event_fd; timer_fd = r.timer_fd; distinct = r.distinct };
        valid = k.valid;
        settled = k.idle;
        timers = k.store;
        same = refl;
      } in
      let same : timers_of q1 ≡ history restart (calls op ∷ []) (timers_of t.queue) =
        λ i a. k.store a i in
      let (t2, rest, c) =
        run_calls-IsBehind ops t1 b.ready k.valid k.idle
          (subst (IsFreshHistory restart (map calls ops)) (sym same) fs) in
      (
        t2,
        ap (λ o. o >>= λ x. run_calls ops (record t { alarm = or_else t.alarm x.0; queue = x.1 }))
              run
            ∙ rest,
        IsBehind-trans (calls op ∷ []) (map calls ops) t t1 t2 b c,
      )

  module _ {F : Type 0} (ops_of : F → List Op) where
    -- What a turn does to the timers: by its events, and by the functors that it calls.
    abbrev pub turn_events : List EpollEvent → List F → List Event
    turn_events es fs = wakeups es ++ map calls (ops_of_all restart ops_of fs)

    -- One turn of the loop of a thread that is set up, with consistent timers, fails no assertion when
    -- each timer that is added has an address of no live timer. It wakes its timers once for each
    -- event of the timerfd, and then calls the functors that wait for it, in order; it leaves none,
    -- and the functors of other threads alone.
    pub loop_once_lem :
        (es : List EpollEvent) (t : Thread) (m : CbFunManager F)
        → IsReady t
        → IsValid t.queue
        → IsSettled t.queue
        → IsFreshHistory restart (turn_events es (pending_of t.id m)) (timers_of t.queue)
        → (t1 : Thread) × (m1 : CbFunManager F) × (loop_once restart ops_of es (t, m)
            ≡ some (pending_of t.id m, t1, m1))
          × IsBehind (history restart (turn_events es (pending_of t.id m)) (timers_of t.queue)) t t1
          × ((id : ℕ) → pending_of id m1 ≡ (if t.id == id then [] else pending_of id m))
    unfolding loop_once
    loop_once_lem es t m r v w f =
        let fs = pending_of t.id m in
        let ops = ops_of_all restart ops_of fs in
        let (fx, fy) = IsFreshHistory-append (wakeups es) (map calls ops) (timers_of t.queue) f in
        let (t1, run, b) = handle_events-IsBehind es t r v w fx in
        let same : timers_of t1.queue ≡ history restart (wakeups es) (timers_of t.queue) =
          λ k a. b.timers a k in
        let (t2, rest, c) =
          run_calls-IsBehind ops t1 b.ready b.valid b.settled
            (subst (IsFreshHistory restart (map calls ops)) (sym same) fy) in
        let m1 = end_pending t1.id (take_pending t1.id m).1 in
        let taken : (take_pending t1.id m).0 ≡ fs =
          taken-take_pending t1.id m ∙ ap (λ n. pending_of n m) b.same in
        (
          t2,
          m1,
          ap
                (λ o. o >>= λ x.
                  run_calls (ops_of_all restart ops_of (take_pending x.id m).0) x >>= λ y.
                  some ((take_pending x.id m).0, y, end_pending x.id (take_pending x.id m).1))
                run
              ∙ ap (λ gs. run_calls (ops_of_all restart ops_of gs) t1 >>= λ y. some (gs, y, m1))
                  taken
              ∙ ap (λ o. o >>= λ y. some (fs, y, m1)) rest,
          IsBehind-trans (wakeups es) (map calls ops) t t1 t2 b c,
          λ id.
              pending_of-end_pending t1.id id (take_pending t1.id m).1
              ∙ pending_of-take_pending t1.id id m
              ∙ ap (λ n. if n == id then [] else pending_of id m) b.same,
        )
