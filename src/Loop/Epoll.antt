-- ===== src/Loop/Epoll.antt =====
-- modifyEpollEvent and its callers in src/ZkClient.cc, and the calls of epoll_ctl that a thread of
-- src/ZkClientManager.cc makes. What epoll_ctl does is stated by `interest`, as its manual has it.
use zookeeper_cpp_client.Common.{
  ℕ, ◌≡◌, ◌⊎◌, refl, ap, ◌∙◌, true, false, ◌&&◌, List, [], ◌∷◌, ◌++◌, Option, none, some, arith,
  ◌==◌, if◌then◌else◌,
}
use zookeeper_cpp_client.Functors.{CbFunManager}
use zookeeper_cpp_client.Loop.{
  Mask, ZkNetClient, Thread, Target, no_client, event_target, timer_target, handle_write,
  new_net_client, start_thread, written,
}

-- EPOLL_CTL_ADD, EPOLL_CTL_MOD, EPOLL_CTL_DEL
pub data Operation : Type 0 where
  epoll_ctl_add epoll_ctl_mod epoll_ctl_del : Operation

pub record EpollCall : Type 0 where
  pub operation : Operation
  pub epollfd : ℕ
  pub fd : ℕ
  pub events : Mask

-- modifyEpollEvent: the call of epoll_ctl, if any.
abbrev pub modify_epoll_event : Operation → ℕ → ZkNetClient → List EpollCall
modify_epoll_event op epollfd c = elim c.channel [
  | none ↦ []
  | some ch ↦ record { operation = op; epollfd = epollfd; fd = ch.fd; events = ch.events } ∷ []
]

abbrev pub add_epoll_fd : ℕ → ZkNetClient → List EpollCall
add_epoll_fd epollfd c = modify_epoll_event epoll_ctl_add epollfd c

abbrev pub mod_epoll_fd : ℕ → ZkNetClient → List EpollCall
mod_epoll_fd epollfd c = modify_epoll_event epoll_ctl_mod epollfd c

abbrev pub del_epoll_fd : ℕ → ZkNetClient → List EpollCall
del_epoll_fd epollfd c = modify_epoll_event epoll_ctl_del epollfd c

-- ZkConnChannel::update of a client's own channel.
abbrev pub update : ZkNetClient → List EpollCall
update c = elim c.channel [ none ↦ [] | some ch ↦ mod_epoll_fd ch.epollfd c ]

-- What LoopFun registers: the client of the eventfd, and in insertTimeQueue that of the timerfd.
unfoldable pub set_up_calls : ℕ → Thread → List EpollCall
set_up_calls epollfd t = add_epoll_fd epollfd t.event_client ++ add_epoll_fd epollfd t.timer_client

-- The calls of handleWrite for the clients that epoll reports as writable, in order.
abbrev client_at : Target → Thread → Option ZkNetClient
client_at no_client t = none
client_at event_target t = some t.event_client
client_at timer_target t = some t.timer_client

abbrev write_call : Option ZkNetClient → List EpollCall
write_call none = []
write_call (some c) = update (handle_write c)

unfoldable pub write_calls : List Target → Thread → List EpollCall
write_calls [] t = []
write_calls (x ∷ xs) t = write_call (client_at x t) ++ write_calls xs (written x t)

abbrev changed : EpollCall → Option Mask
changed call = elim call.operation [
  | epoll_ctl_add ↦ some call.events
  | epoll_ctl_mod ↦ some call.events
  | epoll_ctl_del ↦ none
]

-- The mask under which an epoll instance watches a descriptor, behind what it was.
abbrev pub interest : ℕ → ℕ → Option Mask → List EpollCall → Option Mask
interest epollfd fd known [] = known
interest epollfd fd known (call ∷ calls) =
    interest epollfd fd
      (if (call.epollfd == epollfd) && (call.fd == fd) then changed call else known) calls

interest-append :
    (epollfd fd : ℕ) (xs ys : List EpollCall) (known : Option Mask)
    → interest epollfd fd known (xs ++ ys) ≡ interest epollfd fd (interest epollfd fd known xs) ys
interest-append epollfd fd [] ys known = refl
interest-append epollfd fd (x ∷ xs) ys known =
    interest-append epollfd fd xs ys
      (if (x.epollfd == epollfd) && (x.fd == fd) then changed x else known)

abbrev reading : Mask
reading = record { reads = true; writes = false }

-- The two clients as LoopFun has set them up.
record IsListening (epollfd : ℕ) (t : Thread) : Type 0 where
  event :
      t.event_client.channel ≡ some (record { fd = t.eventfd; epollfd = epollfd; events = reading })
  timer :
      t.timer_client.channel ≡ some (record { fd = t.timerfd; epollfd = epollfd; events = reading })

written-IsListening :
    (epollfd : ℕ) (x : Target) (t : Thread)
    → IsListening epollfd t
    → IsListening epollfd (written x t)
written-IsListening epollfd no_client t v = v
written-IsListening epollfd event_target t v = record { event = rw v.event refl; timer = v.timer }
written-IsListening epollfd timer_target t v = record { event = v.event; timer = rw v.timer refl }

-- A call of handleWrite registers a client for reading alone.
write_call_reads :
    (epollfd fd : ℕ) (x : Target) (t : Thread)
    → IsListening epollfd t
    → interest epollfd fd (some reading) (write_call (client_at x t)) ≡ some reading
write_call_reads epollfd fd no_client t v = refl
write_call_reads epollfd fd event_target t v = rw v.event (ground arith)
write_call_reads epollfd fd timer_target t v = rw v.timer (ground arith)

write_calls_read :
    (epollfd fd : ℕ) (xs : List Target) (t : Thread)
    → IsListening epollfd t
    → interest epollfd fd (some reading) (write_calls xs t) ≡ some reading
unfolding write_calls
write_calls_read epollfd fd [] t v = refl
write_calls_read epollfd fd (x ∷ xs) t v =
    interest-append epollfd fd (write_call (client_at x t)) (write_calls xs (written x t))
      (some reading)
    ∙ ap (λ o. interest epollfd fd o (write_calls xs (written x t)))
        (write_call_reads epollfd fd x t v)
    ∙ write_calls_read epollfd fd xs (written x t) (written-IsListening epollfd x t v)

module _ {F : Type 0} (id epollfd eventfd timerfd : ℕ) (m : CbFunManager F) where
  -- Whatever epoll reports as writable to a thread that LoopFun has set up, in any order: epoll goes on
  -- to watch the thread's eventfd and its timerfd, for reading alone.
  keeps_listening :
      (fd : ℕ) (xs : List Target)
      → (fd ≡ eventfd) ⊎ (fd ≡ timerfd)
      → let t = (start_thread id epollfd eventfd timerfd m).0 in
        interest epollfd fd none (set_up_calls epollfd t ++ write_calls xs t)
        ≡ some (record { reads = true; writes = false })
  unfolding start_thread set_up_calls new_net_client
  keeps_listening fd xs e =
      let t = (start_thread id epollfd eventfd timerfd m).0 in
      let both : interest epollfd fd none (set_up_calls epollfd t) ≡ some reading =
        ground (arith, e) in
      interest-append epollfd fd (set_up_calls epollfd t) (write_calls xs t) none
      ∙ ap (λ o. interest epollfd fd o (write_calls xs t)) both
      ∙ write_calls_read epollfd fd xs t (record { event = refl; timer = refl })
