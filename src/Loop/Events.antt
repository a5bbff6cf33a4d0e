-- ===== src/Loop/Events.antt =====
-- One event of a turn of the loop: what it leaves of the thread and its timers.
use zookeeper_cpp_client.Common.{
  ℕ, ◌≡◌, ◌≢◌, refl, ap, ◌∙◌, Bool, true, false, List, [], ◌∷◌, ◌++◌, Option, none, some, arith,
  if◌then◌else◌, if_cases,
}
use zookeeper_cpp_client.Common.Std.{find, nat_ord}
use zookeeper_cpp_client.Timers.{Timer, Op, ◌>>=◌}
use zookeeper_cpp_client.Timers.Valid.{IsValid}
use zookeeper_cpp_client.Timers.Spec.{Timers, timers_of}
use zookeeper_cpp_client.Timers.Read.{IsSettled, handle_read-Woken}
use zookeeper_cpp_client.Timers.History.{Event, wakes, history, IsFreshHistory}
use zookeeper_cpp_client.Loop.{
  ZkConnChannel, ZkNetClient, Reading, read_eventfd, read_timerfd, read_nothing, reading_of, Thread,
  Target, no_client, event_target, timer_target, EpollEvent, client_of, written, read_by,
  handle_event, handle_write,
}

-- The descriptor of a client.
abbrev pub fd_of : ZkNetClient → Option ℕ
fd_of c = elim c.channel [ none ↦ none | some ch ↦ some ch.fd ]

-- What LoopFun sets up stays set up.
pub record IsReady (t : Thread) : Type 0 where
  pub event_fd : fd_of t.event_client ≡ some t.eventfd
  pub timer_fd : fd_of t.timer_client ≡ some t.timerfd
  pub distinct : t.eventfd ≢ t.timerfd

abbrev reading_at : Target → Reading
reading_at no_client = read_nothing
reading_at event_target = read_eventfd
reading_at timer_target = read_timerfd

reading_of-Target :
    (g : Target) (t : Thread)
    → IsReady t
    → reading_of t.eventfd t.timerfd (client_of g t) ≡ reading_at g
reading_of-Target no_client t r = refl
reading_of-Target event_target t r = at t.event_client.channel r.event_fd
  where
    at :
        (o : Option ZkConnChannel)
        → (elim o as (λ x. Option ℕ) [ none ↦ none | some ch ↦ some ch.fd ]) ≡ some t.eventfd
        → reading_of t.eventfd t.timerfd o ≡ read_eventfd
    at none h = absurd (cc h)
    at (some ch) h = ground (arith, h)
reading_of-Target timer_target t r = at t.timer_client.channel r.timer_fd r.distinct
  where
    at :
        (o : Option ZkConnChannel)
        → (elim o as (λ x. Option ℕ) [ none ↦ none | some ch ↦ some ch.fd ]) ≡ some t.timerfd
        → t.eventfd ≢ t.timerfd
        → reading_of t.eventfd t.timerfd o ≡ read_timerfd
    at none h d = absurd (cc h)
    at (some ch) h d = ground (arith, h, d)

fd_of-handle_write : (c : ZkNetClient) → fd_of (handle_write c) ≡ fd_of c
fd_of-handle_write c = at c.channel
  where
    at :
        (o : Option ZkConnChannel)
        → fd_of (handle_write (record { channel = o })) ≡ fd_of (record { channel = o })
    at none = refl
    at (some ch) = refl

written-IsReady : (g : Target) (t : Thread) → IsReady t → IsReady (written g t)
written-IsReady no_client t r = r
written-IsReady event_target t r = record {
  event_fd = fd_of-handle_write t.event_client ∙ r.event_fd;
  timer_fd = r.timer_fd;
  distinct = r.distinct;
}
written-IsReady timer_target t r = record {
  event_fd = r.event_fd;
  timer_fd = fd_of-handle_write t.timer_client ∙ r.timer_fd;
  distinct = r.distinct;
}

-- The wake-ups of the timer queue by an event that may be readable, and by the events of a turn.
abbrev pub wakeup : Bool → ℕ → List Op → Target → List Event
wakeup false now ops g = []
wakeup true now ops no_client = []
wakeup true now ops event_target = []
wakeup true now ops timer_target = wakes now ops ∷ []

abbrev pub wakeups : List EpollEvent → List Event
wakeups [] = []
wakeups (e ∷ es) = wakeups es ++ wakeup e.readable e.now e.ops e.target

-- The thread behind some events, with the live timers that it then has.
pub record IsBehind (m : Timers) (t t1 : Thread) : Type 0 where
  pub ready : IsReady t1
  pub valid : IsValid t1.queue
  pub settled : IsSettled t1.queue
  pub timers : (b : ℕ) → find b t1.queue.store ≡ m b
  pub same : t1.id ≡ t.id

written-IsBehind :
    (m : Timers) (g : Target) (t t1 : Thread) → IsBehind m t t1 → IsBehind m t (written g t1)
written-IsBehind m no_client t t1 b = b
written-IsBehind m event_target t t1 b = record {
  ready = written-IsReady event_target t1 b.ready;
  valid = b.valid;
  settled = b.settled;
  timers = b.timers;
  same = b.same;
}
written-IsBehind m timer_target t t1 b = record {
  ready = written-IsReady timer_target t1 b.ready;
  valid = b.valid;
  settled = b.settled;
  timers = b.timers;
  same = b.same;
}

module _ (restart : ℕ → Timer → Timer) where
  pub unread-IsBehind :
      (t : Thread)
      → IsReady t
      → IsValid t.queue
      → IsSettled t.queue
      → IsBehind (timers_of t.queue) t t
  unread-IsBehind t r v w = record {
    ready = r;
    valid = v;
    settled = w;
    timers = λ b. refl;
    same = refl;
  }

  read-IsBehind :
      (b : Bool) (now : ℕ) (ops : List Op) (g : Target) (t : Thread)
      → IsReady t
      → IsValid t.queue
      → IsSettled t.queue
      → IsFreshHistory restart (wakeup b now ops g) (timers_of t.queue)
      → (t1 : Thread) × ((if b then read_by restart (reading_at g) now ops t else some t) ≡ some t1)
        × IsBehind (history restart (wakeup b now ops g) (timers_of t.queue)) t t1
  read-IsBehind false now ops g t r v w f = (t, refl, unread-IsBehind t r v w)
  read-IsBehind true now ops no_client t r v w f = (t, refl, unread-IsBehind t r v w)
  read-IsBehind true now ops event_target t r v w f = (t, refl, unread-IsBehind t r v w)
  read-IsBehind true now ops timer_target t r v w (f, fs) =
      let (es, next, q1, run, k) = handle_read-Woken restart now ops t.queue v w f in
      (
        record t { alarm = next; queue = q1 },
        ap (λ o. o >>= λ x. some (record t { alarm = x.1; queue = x.2 })) run,
        record {
          ready = record { event_fd = r.event_fd; timer_fd = r.timer_fd; distinct = r.distinct };
          valid = k.valid;
          settled = k.settled;
          timers = k.timers;
          same = refl;
        },
      )

  pub handle_event-IsBehind :
      (e : EpollEvent) (t : Thread)
      → IsReady t
      → IsValid t.queue
      → IsSettled t.queue
      → IsFreshHistory restart (wakeup e.readable e.now e.ops e.target) (timers_of t.queue)
      → (t1 : Thread) × (handle_event restart e t ≡ some t1)
        × IsBehind
            (history restart (wakeup e.readable e.now e.ops e.target) (timers_of t.queue))
            t
            t1
  handle_event-IsBehind e t r v w f =
      let g = e.target in
      let (t1, run, b) = read-IsBehind e.readable e.now e.ops g t r v w f in
      let m = history restart (wakeup e.readable e.now e.ops g) (timers_of t.queue) in
      let turn : Thread → Option Thread = λ x. some (if e.writable then written g x else x) in
      (
        if e.writable then written g t1 else t1,
        ap (λ x. (if e.readable then read_by restart x e.now e.ops t else some t) >>= turn)
              (reading_of-Target g t r)
            ∙ ap (λ o. o >>= turn) run,
        if_cases (IsBehind m t) e.writable (written g t1) t1 (written-IsBehind m g t t1 b) b,
      )
