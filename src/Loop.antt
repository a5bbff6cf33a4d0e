-- ===== src/Loop.antt =====
-- The two threads of src/ZkClientManager.cc: what LoopFun sets up, and loop_once; with ZkNetClient
-- and the masks of ZkUtil in src/ZkClient.cc. What epoll_wait returns is an argument, and so is what
-- the callbacks of the timers do. A mask is the Booleans of the bits that are used; the eventfd that
-- is read changes nothing that is modelled, and Loop/Epoll has the calls of epoll_ctl.
pub mod Events
pub mod Once
pub mod Turns
pub mod Manager
pub mod Epoll
pub mod Deletion
use zookeeper_cpp_client.Common.{
  ℕ, ◌+◌, Bool, true, false, not, ◌&&◌, ◌||◌, List, [], ◌∷◌, ◌++◌, Option, none, some, ◌==◌,
  if◌then◌else◌,
}
use zookeeper_cpp_client.Timers.{
  Timer, ZkTimerQueue, Op, call_op, handle_read, new_timer_queue, ◌>>=◌,
}
use zookeeper_cpp_client.Timers.Alarm.{or_else}
use zookeeper_cpp_client.Functors.{
  CbFunManager, insert_or_set_thread_data, take_pending, end_pending,
}

-- kReadEvent and kWriteEvent in events_
pub record Mask : Type 0 where
  pub reads : Bool
  pub writes : Bool

pub record ZkConnChannel : Type 0 where
  pub fd : ℕ
  pub epollfd : ℕ
  pub events : Mask

-- pConnChannel_, which may be null.
pub record ZkNetClient : Type 0 where
  pub channel : Option ZkConnChannel

unfoldable pub new_net_client : ℕ → ℕ → ZkNetClient
new_net_client epollfd fd = record {
  channel =
      some
        (record { fd = fd; epollfd = epollfd; events = record { reads = false; writes = false } });
}

abbrev pub with_events : (Mask → Mask) → ZkNetClient → ZkNetClient
with_events f c = record {
  channel = elim c.channel [ none ↦ none | some ch ↦ some (record ch { events = f ch.events }) ];
}

abbrev pub enable_reading : ZkNetClient → ZkNetClient
enable_reading c = with_events (λ m. record m { reads = true }) c

abbrev pub enable_writing : ZkNetClient → ZkNetClient
enable_writing c = with_events (λ m. record m { writes = true }) c

abbrev pub disable_writing : ZkNetClient → ZkNetClient
disable_writing c = with_events (λ m. record m { writes = false }) c

abbrev pub disable_all : ZkNetClient → ZkNetClient
disable_all c = with_events (λ m. record { reads = false; writes = false }) c

-- ZkNetClient::handleWrite
abbrev pub handle_write : ZkNetClient → ZkNetClient
handle_write c = disable_writing c

-- What ZkNetClient::handleRead does: read the eventfd, call timerReadCb_, or nothing.
pub data Reading : Type 0 where
  read_eventfd : Reading
  read_timerfd : Reading
  read_nothing : Reading

abbrev pub reading_of : ℕ → ℕ → Option ZkConnChannel → Reading
reading_of eventfd timerfd none = read_nothing
reading_of eventfd timerfd (some ch) =
    if ch.fd == eventfd
    then read_eventfd
    else if ch.fd == timerfd
    then read_timerfd
    else read_nothing

-- One thread: t_eventfd and t_timerfd, its two clients, its timers and what the timerfd is set to.
pub record Thread : Type 0 where
  pub id : ℕ
  pub eventfd : ℕ
  pub timerfd : ℕ
  pub event_client : ZkNetClient
  pub timer_client : ZkNetClient
  pub alarm : Option ℕ
  pub queue : ZkTimerQueue

-- The client of an epoll_event.
pub data Target : Type 0 where
  no_client : Target
  event_target : Target
  timer_target : Target

-- POLLIN, POLLPRI or POLLRDHUP; POLLOUT. And, for a timerfd, the time and the calls of the callbacks.
pub record EpollEvent : Type 0 where
  pub target : Target
  pub readable : Bool
  pub writable : Bool
  pub now : ℕ
  pub ops : List Op

abbrev pub client_of : Target → Thread → Option ZkConnChannel
client_of no_client t = none
client_of event_target t = t.event_client.channel
client_of timer_target t = t.timer_client.channel

-- LoopFun up to its loop, on the manager of the functors.
unfoldable pub start_thread :
    {F : Type 0} → ℕ → ℕ → ℕ → ℕ → CbFunManager F → Thread × CbFunManager F
unfolding new_net_client new_timer_queue insert_or_set_thread_data
start_thread id epollfd eventfd timerfd m = (
  record {
    id = id;
    eventfd = eventfd;
    timerfd = timerfd;
    event_client = enable_reading (new_net_client epollfd eventfd);
    timer_client = enable_reading (new_net_client epollfd timerfd);
    alarm = none;
    queue = new_timer_queue;
  },
  insert_or_set_thread_data id epollfd eventfd m,
)

abbrev pub written : Target → Thread → Thread
written no_client t = t
written event_target t = record t { event_client = handle_write t.event_client }
written timer_target t = record t { timer_client = handle_write t.timer_client }

-- The calls of a functor, each of which may set the timerfd.
unfoldable pub run_calls : List Op → Thread → Option Thread
unfolding call_op
run_calls [] t = some t
run_calls (op ∷ ops) t = call_op op t.queue >>= λ r.
    run_calls ops (record t { alarm = or_else t.alarm r.0; queue = r.1 })

module _ (restart : ℕ → Timer → Timer) where
  abbrev pub read_by : Reading → ℕ → List Op → Thread → Option Thread
  read_by read_eventfd now ops t = some t
  read_by read_nothing now ops t = some t
  read_by read_timerfd now ops t =
      handle_read restart now ops t.queue >>= λ r. some (record t { alarm = r.1; queue = r.2 })

  -- The tests of one event, behind that of its client.
  abbrev pub handle_event : EpollEvent → Thread → Option Thread
  handle_event e t =
      (if e.readable
        then read_by (reading_of t.eventfd t.timerfd (client_of e.target t)) e.now e.ops t
        else some t)
      >>= λ t1. some (if e.writable then written e.target t1 else t1)

  -- The events in the order of the loop, which starts with the last one.
  unfoldable pub handle_events : List EpollEvent → Thread → Option Thread
  unfolding handle_read
  handle_events [] t = some t
  handle_events (e ∷ es) t = handle_events es t >>= λ t1. handle_event e t1

  -- What a functor does to the timers of its thread, as addTimerInLoop and cancelInLoop.
  module _ {F : Type 0} (ops_of : F → List Op) where
    abbrev pub ops_of_all : List F → List Op
    ops_of_all [] = []
    ops_of_all (f ∷ fs) = ops_of f ++ ops_of_all fs

    -- What loop_once calls of the pending functors, and the thread and the manager behind it.
    unfoldable pub loop_once :
        List EpollEvent → Thread × CbFunManager F → Option (List F × Thread × CbFunManager F)
    unfolding handle_events take_pending end_pending run_calls
    loop_once es (t, m) = handle_events es t >>= λ t1.
        let (fs, m1) = take_pending t1.id m in
        run_calls (ops_of_all fs) t1 >>= λ t2. some (fs, t2, end_pending t1.id m1)
