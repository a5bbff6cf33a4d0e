-- ===== src/Session.antt =====
-- The life of a session: ZkClient::sessionWatcher, checkSessionState, reconnect, retry and init of
-- src/ZkClient.cc, for one client that the manager holds (src/ZkClientManager.cc is `Manager`).
-- What other threads do while a function waits is an argument: `Deliveries`. The handle that
-- `zookeeper_init` returns is an argument too. Handlers of the user leave the client alone.
pub mod Delivery
pub mod Backoff
pub mod Outage
pub mod Start
pub mod Reconnect
pub mod Waits
use zookeeper_cpp_client.Common.{
  ℕ, ◌+◌, ◌*◌, min, Bool, true, false, not, ◌&&◌, ◌||◌, List, [], ◌∷◌, ◌++◌, Option, none, some,
  ltb, if◌then◌else◌,
}
use zookeeper_cpp_client.Codes.{
  Bytes, SessState, expired_session, is_connected_state, is_expired_state, max_retry_delay,
  init_retry_delay,
}
use zookeeper_cpp_client.Client.{
  ZkClient, SessionClientId, is_connected, set_sess_stat, set_sess_timeout, set_sess_disconn,
}
use zookeeper_cpp_client.Client.Passwd.{copy_client_id}
use zookeeper_cpp_client.Task.{
  Action, run_after, expired_call, first_thread, second_thread, check_task, retry_task,
}

-- A ZOO_SESSION_EVENT: the state, `zoo_recv_timeout(zh)` and the time at which it arrives.
pub record SessionEvent : Type 0 where
  pub state : SessState
  pub recv_timeout : ℕ
  pub now : ℕ

-- sessionWatcher under the mutex of the state: what it does to the client, and whether it notifies the
-- thread that waits on stateCondition_.
unfoldable pub state_changes : SessionEvent → (ZkClient → ZkClient) × Bool
state_changes e =
    if is_connected_state e.state
    then (λ c. set_sess_timeout e.recv_timeout (set_sess_stat e.state c), true)
    else if is_expired_state e.state
    then (λ c. set_sess_stat e.state c, true)
    else (λ c. set_sess_disconn e.now (set_sess_stat e.state c), false)

unfoldable pub watch_session : SessionEvent → ZkClient → ZkClient
unfolding state_changes
watch_session e c = (state_changes e).0 c

unfoldable pub notifies : SessionEvent → Bool
unfolding state_changes
notifies e = (state_changes e).1

-- `getCurrentMs() - getSessDisconn() > getSessTimeout()` of signed numbers, none of them negative.
unfoldable pub is_session_expired : ZkClient → ℕ → Bool
is_session_expired c now =
    if is_expired_state c.session_state
    then true
    else if is_connected c
    then false
    else ltb (c.session_timeout + c.session_disconnect_ms) now

-- "call user handler"
unfoldable pub call_expired_handler : ZkClient → ZkClient × List Action
call_expired_handler c = elim c.expired_handler [
  | none ↦ (c, [])
  | some h ↦
      if c.has_call_timeout_fun
      then (c, [])
      else (record c { has_call_timeout_fun = true }, expired_call h c.user_context ∷ [])
]

-- The retry timer and the next delay; timers are in milliseconds.
unfoldable pub schedule_retry : ZkClient → ZkClient × List Action
schedule_retry c = (
  record c { retry_delay = min (c.retry_delay * 2) max_retry_delay; is_retrying = true },
  run_after second_thread (c.retry_delay * 1000) (retry_task c.handle) ∷ [],
)

unfoldable pub start_retry : ZkClient → ZkClient × List Action
unfolding schedule_retry
start_retry c = if not c.is_retrying && c.is_support_reconnect then schedule_retry c else (c, [])

unfoldable pub expire : ZkClient → ZkClient × List Action
unfolding call_expired_handler start_retry
expire c =
    let (c1, called) = call_expired_handler (set_sess_stat expired_session c) in
    let (c2, started) = start_retry c1 in (c2, called ++ started)

-- checkSessionState for a client that getZkClient finds. It sets its own timer again.
unfoldable pub check_session_state : ZkClient → ℕ → ZkClient × List Action
unfolding is_session_expired expire
check_session_state c now =
    let (c1, acts) = if is_session_expired c now then expire c else (c, []) in
    (c1, acts ++ run_after first_thread 10 (check_task c.handle) ∷ [])

-- What another thread does to the client: a session event, or a check of the first thread. A
-- client that is not initialised is not found by the check.
pub data Happening : Type 0 where
  session_event_arrives : SessionEvent → Happening
  check_fires : ℕ → Happening

unfoldable pub happen : Happening → ZkClient → ZkClient × List Action
unfolding watch_session check_session_state
happen (session_event_arrives e) c = (watch_session e c, [])
happen (check_fires now) c = if c.is_initialized then check_session_state c now else (c, [])

unfoldable pub deliver : List Happening → ZkClient → ZkClient × List Action
unfolding happen
deliver [] c = (c, [])
deliver (h ∷ hs) c = let (c1, acts) = happen h c in let (c2, bs) = deliver hs c1 in (c2, acts ++ bs)

-- What happens before the first test of the wait loop, between two tests of it (a batch for each
-- time that the waiting thread runs again: `batches_of`), and between the loop and the test after it.
pub record Deliveries : Type 0 where
  pub early : List Happening
  pub batches : List (List Happening)
  pub late : List Happening

-- What happens while a thread waits on stateCondition_, in order: something occurs, the waiting thread
-- wakes for no reason, or it has the mutex again and tests.
pub data Moment : Type 0 where
  occurs : Happening → Moment
  spurious : Moment
  retests : Moment

abbrev pub wakes : Happening → Bool
unfolding notifies
wakes (session_event_arrives e) = notifies e
wakes (check_fires now) = false

-- The batches between the tests. Only a thread that was notified, or woke for no reason, since it
-- began to wait comes to test again; what happens behind its last test is in no batch.
unfoldable pub batches_of : List Happening → Bool → List Moment → List (List Happening)
unfolding notifies
batches_of hs woken [] = []
batches_of hs woken (occurs h ∷ ms) = batches_of (hs ++ h ∷ []) (woken || wakes h) ms
batches_of hs woken (spurious ∷ ms) = batches_of hs true ms
batches_of hs true (retests ∷ ms) = hs ∷ batches_of [] false ms
batches_of hs false (retests ∷ ms) = batches_of hs false ms

abbrev pub is_settled : ZkClient → Bool
is_settled c = is_connected c || is_expired_state c.session_state

abbrev pub prefixed :
    List Action → Option (ZkClient × List Action) → Option (ZkClient × List Action)
prefixed acts none = none
prefixed acts (some (c, bs)) = some (c, acts ++ bs)

-- The loop on stateCondition_. `none`: nobody wakes it any more, and the caller stays blocked.
unfoldable pub wait_session : List (List Happening) → ZkClient → Option (ZkClient × List Action)
unfolding deliver
wait_session [] c = if is_settled c then some (c, []) else none
wait_session (b ∷ bs) c =
    let (c1, acts) = deliver b c in
    let rest = prefixed acts (wait_session bs c1) in if is_settled c then some (c, []) else rest

unfoldable pub then_deliver :
    List Happening → Option (ZkClient × List Action) → Option (ZkClient × List Action)
unfolding deliver
then_deliver hs none = none
then_deliver hs (some (c, bs)) = let (c1, cs) = deliver hs c in some (c1, bs ++ cs)

unfoldable pub await_session : Deliveries → ZkClient → Option (ZkClient × List Action)
unfolding wait_session then_deliver
await_session d c =
    let (c1, acts) = deliver d.early c in
    prefixed acts (then_deliver d.late (wait_session d.batches c1))

-- The result, the client and the actions; `none` while it is blocked.
abbrev pub Outcome : Type 0
Outcome = Option (Bool × ZkClient × List Action)

abbrev pub succeeded : Option (ZkClient × List Action) → Outcome
succeeded none = none
succeeded (some (c, acts)) = some (not (is_expired_state c.session_state), c, acts)

unfoldable pub reconnect : Option ℕ → Deliveries → ZkClient → Outcome
unfolding await_session
reconnect none d c = some (false, record c { zhandle = none }, [])
reconnect (some z) d c = succeeded (await_session d (record c { zhandle = some z }))

-- Both branches of retry behind `reconnect`.
unfoldable pub after_reconnect : Bool → ZkClient → ZkClient × List Action
unfolding schedule_retry
after_reconnect true c = (
  record c { retry_delay = init_retry_delay; is_retrying = false; has_call_timeout_fun = false },
  [],
)
after_reconnect false c = if c.is_support_reconnect then schedule_retry c else (c, [])

unfoldable pub then_after_reconnect : Outcome → Outcome
unfolding after_reconnect
then_after_reconnect none = none
then_after_reconnect (some (again, c, acts)) =
    let (c1, bs) = after_reconnect again c in some (again, c1, acts ++ bs)

-- retry for a client that getZkClient finds.
unfoldable pub retry : Option ℕ → Deliveries → ZkClient → Outcome
unfolding reconnect then_after_reconnect
retry zh d c = then_after_reconnect (reconnect zh d c)

-- The user's arguments of init.
pub record InitArgs : Type 0 where
  pub host : Bytes
  pub timeout : ℕ
  pub client_id : Option SessionClientId
  pub expired_handler : Option ℕ
  pub context : ℕ

abbrev or_else : Option ℕ → Option ℕ → Option ℕ
or_else none old = old
or_else (some h) old = some h

abbrev copied : Option SessionClientId → Option SessionClientId
copied none = none
copied (some i) = some (copy_client_id i)

unfoldable pub configure : InitArgs → ZkClient → ZkClient
unfolding copy_client_id
configure a c = record c {
  session_timeout = a.timeout;
  expired_handler = or_else a.expired_handler c.expired_handler;
  user_context = a.context;
  host = a.host;
  client_id = copied a.client_id;
}

unfoldable pub finish_init : Option (ZkClient × List Action) → Outcome
finish_init none = none
finish_init (some (c, acts)) =
    if is_expired_state c.session_state
    then some (false, c, acts)
    else some (
      true,
      record c { is_initialized = true; is_retrying = false; has_call_timeout_fun = false },
      acts ++ run_after first_thread 10 (check_task c.handle) ∷ [],
    )

unfoldable pub init : InitArgs → Option ℕ → Deliveries → ZkClient → Outcome
unfolding configure await_session finish_init
init a none d c = some (false, record (configure a c) { zhandle = none }, [])
init a (some z) d c = finish_init (await_session d (record (configure a c) { zhandle = some z }))
