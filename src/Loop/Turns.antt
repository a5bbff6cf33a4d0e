-- ===== src/Loop/Turns.antt =====
-- The life of a thread: the turns of LoopFun's loop, with what is queued for it between them.
use zookeeper_cpp_client.Common.{
  ℕ, ◌≡◌, ◌≢◌, refl, ap, ◌∙◌, sym, subst, List, [], ◌∷◌, ◌++◌, Option, some, arith, ==_iff,
}
use mathlib.Core.List.{append_assoc, append-nil}
use zookeeper_cpp_client.Common.Std.{find, nat_ord}
use zookeeper_cpp_client.Timers.{Timer, Op, ◌>>=◌}
use zookeeper_cpp_client.Timers.Valid.{IsValid, new-IsValid}
use zookeeper_cpp_client.Timers.Spec.{timers_of}
use zookeeper_cpp_client.Timers.Read.{IsSettled}
use zookeeper_cpp_client.Timers.Life.{no_timers, new-IsSettled, new-timers}
use zookeeper_cpp_client.Timers.History.{Event, history, IsFreshHistory}
use zookeeper_cpp_client.Functors.{
  CbFunManager, pending_of, run_in_thread, insert_or_set_thread_data,
}
use zookeeper_cpp_client.Functors.Pending.{
  queued_by, pending_of-run_in_thread, pending_of-insert_or_set_thread_data,
}
use zookeeper_cpp_client.Loop.{Thread, EpollEvent, loop_once, start_thread, new_net_client}
use zookeeper_cpp_client.Loop.Events.{IsReady, IsBehind, unread-IsBehind}
use zookeeper_cpp_client.Loop.Once.{
  turn_events, IsBehind-trans, IsFreshHistory-append, loop_once_lem,
}

-- Turns of the loop: what is queued before one, and the events that it gets.
abbrev pub Turn : Type 0 → Type 0
Turn F = List (ℕ × F) × List EpollEvent

module _ {F : Type 0} where
  -- The calls of runInThread for one thread, with the thread that makes each.
  abbrev pub queue_all : ℕ → List (ℕ × F) → CbFunManager F → CbFunManager F
  queue_all id [] m = m
  queue_all id ((me, f) ∷ fs) m = queue_all id fs (run_in_thread me id f m).1

  -- The functors that these calls queue: those of another thread.
  abbrev pub queued : ℕ → List (ℕ × F) → List F
  queued id [] = []
  queued id ((me, f) ∷ fs) = queued_by id me id f ++ queued id fs

  pub pending_of-queue_all :
      (id : ℕ) (fs : List (ℕ × F)) (m : CbFunManager F)
      → pending_of id (queue_all id fs m) ≡ pending_of id m ++ queued id fs
  pending_of-queue_all id [] m = sym (append-nil (pending_of id m))
  pending_of-queue_all id ((me, f) ∷ fs) m =
      pending_of-queue_all id fs (run_in_thread me id f m).1
      ∙ ap (λ xs. xs ++ queued id fs) (pending_of-run_in_thread me id id f m)
      ∙ append_assoc (pending_of id m) (queued_by id me id f) (queued id fs)

  abbrev pub all_queued : ℕ → List (Turn F) → List F
  all_queued id [] = []
  all_queued id ((fs, es) ∷ ts) = queued id fs ++ all_queued id ts

module _ (F : Type 0) (restart : ℕ → Timer → Timer) (ops_of : F → List Op) where
  -- What the turns do to the timers, when some functors wait at the start.
  abbrev pub all_events : List F → ℕ → List (Turn F) → List Event
  all_events ps id [] = []
  all_events ps id ((fs, es) ∷ ts) =
      turn_events restart ops_of es (ps ++ queued id fs) ++ all_events [] id ts

  -- The functors that the turns call, in order.
  unfoldable pub run_turns :
      List (Turn F) → Thread × CbFunManager F → Option (List F × Thread × CbFunManager F)
  unfolding loop_once run_in_thread
  run_turns [] (t, m) = some ([], t, m)
  run_turns ((fs, es) ∷ ts) (t, m) = loop_once restart ops_of es (t, queue_all t.id fs m) >>= λ r.
      run_turns ts (r.1, r.2) >>= λ q. some (r.0 ++ q.0, q.1, q.2)

  -- What the turns leave behind, and what they call.
  record IsTurned (id : ℕ) (ps : List F) (ts : List (Turn F)) (t t1 : Thread) (m1 : CbFunManager F)
      (fs : List F) : Type 0 where
    behind : IsBehind (history restart (all_events ps id ts) (timers_of t.queue)) t t1
    called : fs ++ pending_of id m1 ≡ ps ++ all_queued id ts

  all_called : (bs p q r m : List F) → bs ++ m ≡ r → ((p ++ q) ++ bs) ++ m ≡ p ++ (q ++ r)
  all_called bs p q r m f =
      append_assoc (p ++ q) bs m ∙ ap (λ x. (p ++ q) ++ x) f ∙ append_assoc p q r

  -- The state in which the turns begin.
  record IsWaiting (id : ℕ) (ps : List F) (t : Thread) (m : CbFunManager F) : Type 0 where
    ready : IsReady t
    valid : IsValid t.queue
    settled : IsSettled t.queue
    same : t.id ≡ id
    pending : pending_of id m ≡ ps

  -- One turn, with the functors that wait for it written out.
  one_turn :
      (id : ℕ) (ps : List F) (fs : List (ℕ × F)) (es : List EpollEvent) (t : Thread)
      (m : CbFunManager F)
      → IsWaiting id ps t m
      → let ws = ps ++ queued id fs in
        IsFreshHistory restart (turn_events restart ops_of es ws) (timers_of t.queue)
        → (t1 : Thread) × (m1 : CbFunManager F) × (loop_once restart ops_of es
              (t, queue_all t.id fs m)
            ≡ some (ws, t1, m1))
          × IsBehind (history restart (turn_events restart ops_of es ws) (timers_of t.queue)) t t1
          × IsWaiting id [] t1 m1
  one_turn id ps fs es t m s f =
      let m0 = queue_all t.id fs m in
      let waits : pending_of t.id m0 ≡ ps ++ queued id fs =
        ap (λ n. pending_of n (queue_all n fs m)) s.same
        ∙ pending_of-queue_all id fs m
        ∙ ap (λ x. x ++ queued id fs) s.pending in
      let turn = λ (x : List F). turn_events restart ops_of es x in
      let (t1, m1, run, b, p) =
        loop_once_lem restart ops_of es t m0 s.ready s.valid s.settled
          (subst (λ x. IsFreshHistory restart (turn x) (timers_of t.queue)) (sym waits) f) in
      (
        t1,
        m1,
        run ∙ ap (λ x. some (x, t1, m1)) waits,
        subst (λ x. IsBehind (history restart (turn x) (timers_of t.queue)) t t1) waits b,
        record {
          ready = b.ready;
          valid = b.valid;
          settled = b.settled;
          same = b.same ∙ s.same;
          pending = p id ∙ ground (arith, s.same, ==_iff t.id id);
        },
      )

  run_turns-IsTurned :
      (id : ℕ) (ps : List F) (ts : List (Turn F)) (t : Thread) (m : CbFunManager F)
      → IsWaiting id ps t m
      → IsFreshHistory restart (all_events ps id ts) (timers_of t.queue)
      → (fs : List F) × (t1 : Thread) × (m1 : CbFunManager F) × (run_turns ts (t, m)
          ≡ some (fs, t1, m1))
        × IsTurned id ps ts t t1 m1 fs
  unfolding run_turns
  run_turns-IsTurned id ps [] t m s f = (
    [],
    t,
    m,
    refl,
    record {
      behind = unread-IsBehind restart t s.ready s.valid s.settled;
      called = s.pending ∙ sym (append-nil ps);
    },
  )
  run_turns-IsTurned id ps ((fs, es) ∷ ts) t m s f =
      let ws = ps ++ queued id fs in
      let xs = turn_events restart ops_of es ws in
      let ys = all_events [] id ts in
      let (fx, fy) = IsFreshHistory-append restart xs ys (timers_of t.queue) f in
      let (t1, m1, run, b, s1) = one_turn id ps fs es t m s fx in
      let same : timers_of t1.queue ≡ history restart xs (timers_of t.queue) =
        λ k a. b.timers a k in
      let (gs, t2, m2, rest, c) =
        run_turns-IsTurned id [] ts t1 m1 s1 (subst (IsFreshHistory restart ys) (sym same) fy) in
      (
        ws ++ gs,
        t2,
        m2,
        ap (λ o. o >>= λ x. run_turns ts (x.1, x.2) >>= λ y. some (x.0 ++ y.0, y.1, y.2)) run
            ∙ ap (λ o. o >>= λ y. some (ws ++ y.0, y.1, y.2)) rest,
        record {
          behind = IsBehind-trans restart xs ys t t1 t2 b c.behind;
          called = all_called gs ps (queued id fs) (all_queued id ts) (pending_of id m2) c.called;
        },
      )

  -- Over every life of a thread of the manager, from what LoopFun sets up through any number of turns
  -- of its loop, whatever its events are and whatever is queued for it between them: the functors that
  -- other threads queue are called once each, in order, or wait for the next turn; no assertion of its
  -- timers fails, and they are those of the history of the timerfd's events and of the functors, when
  -- each timer that is added has an address of no live timer. The eventfd and the timerfd differ.
  pub run_turns_lem :
      (id epollfd eventfd timerfd : ℕ) (ts : List (Turn F)) (m : CbFunManager F)
      → eventfd ≢ timerfd
      → IsFreshHistory restart (all_events (pending_of id m) id ts) no_timers
      → (fs : List F) × (t : Thread) × (m1 : CbFunManager F) × (run_turns ts
            (start_thread id epollfd eventfd timerfd m)
          ≡ some (fs, t, m1))
        × (fs ++ pending_of id m1 ≡ pending_of id m ++ all_queued id ts)
        × IsValid t.queue
        × IsSettled t.queue
        × ((b : ℕ)
            → find b t.queue.store
              ≡ history restart (all_events (pending_of id m) id ts) no_timers b)
  unfolding start_thread new_net_client
  run_turns_lem id epollfd eventfd timerfd ts m d f =
      let t0 = (start_thread id epollfd eventfd timerfd m).0 in
      let m0 = insert_or_set_thread_data id epollfd eventfd m in
      let events = all_events (pending_of id m) id ts in
      let (fs, t, m1, run, r) =
        run_turns-IsTurned id (pending_of id m) ts t0 m0
          (record {
            ready = record { event_fd = refl; timer_fd = refl; distinct = d };
            valid = new-IsValid;
            settled = new-IsSettled;
            same = refl;
            pending = pending_of-insert_or_set_thread_data id epollfd eventfd id m;
          })
          (subst (IsFreshHistory restart events) (sym new-timers) f) in
      (
        fs,
        t,
        m1,
        run,
        r.called,
        r.behind.valid,
        r.behind.settled,
        λ b. r.behind.timers b ∙ ap (λ x. history restart events x b) new-timers,
      )
