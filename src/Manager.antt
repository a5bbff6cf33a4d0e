-- ===== src/Manager.antt =====
-- src/ZkClientManager.cc: the clients by their handles, and the static functions of ZkClient that
-- find their client through the manager. `createZkClient` blocks in `init`, with no lock held: it
-- is two functions, and what other threads do to the manager lies between them.
pub mod Handles
pub mod Lookup
pub mod Courses
pub mod Threads
use zookeeper_cpp_client.Common.{
  ℕ, ◌+◌, ◌%◌, ◌^◌, Bool, true, false, List, [], ◌∷◌, ◌++◌, Option, none, some, ◌==◌, if◌then◌else◌,
}
use zookeeper_cpp_client.Common.Std.{StdMap, find, assign, erase, nat_ord}
use zookeeper_cpp_client.Codes.{EventType, is_session_event}
use zookeeper_cpp_client.Client.{ZkClient, new_client}
use zookeeper_cpp_client.Task.{Action}
use zookeeper_cpp_client.Session
use zookeeper_cpp_client.Session.{SessionEvent, Deliveries, InitArgs, Outcome, watch_session}

pub record ZkClientManager : Type 0 where
  pub next_handle : ℕ
  pub total_zk_clients : StdMap ℕ ZkClient

unfoldable pub new_manager : ZkClientManager
new_manager = record { next_handle = 1; total_zk_clients = [] }

-- `nextHandle_++` of a uint32_t, twice where it comes to 0.
unfoldable pub bump_handle : ℕ → ℕ
bump_handle n = let n1 = (n + 1) % 2 ^ 32 in if n1 == 0 then (n1 + 1) % 2 ^ 32 else n1

-- __getZkClient
unfoldable pub get_any_client : ℕ → ZkClientManager → Option ZkClient
get_any_client h m = find h m.total_zk_clients

abbrev pub if_initialized : Option ZkClient → Option ZkClient
if_initialized none = none
if_initialized (some c) = if c.is_initialized then some c else none

-- getZkClient
unfoldable pub get_zk_client : ℕ → ZkClientManager → Option ZkClient
get_zk_client h m = if_initialized (find h m.total_zk_clients)

-- destroyClient. The client's destructor runs when the last shared_ptr to it goes.
unfoldable pub destroy_client : ℕ → ZkClientManager → ZkClientManager
destroy_client h m = record m { total_zk_clients = erase h m.total_zk_clients }

-- The shared client has changed: who finds it by its handle sees that.
unfoldable pub update_client : ℕ → ZkClient → ZkClientManager → ZkClientManager
update_client h c m = elim (find h m.total_zk_clients) [
  | none ↦ m
  | some _ ↦ record m { total_zk_clients = assign h c m.total_zk_clients }
]

-- createZkClient up to the call of init: the handle and the new client.
unfoldable pub begin_create : ℕ → ZkClientManager → ℕ × ZkClient × ZkClientManager
unfolding bump_handle
begin_create memory m =
    let h = bump_handle m.next_handle in
    let c = new_client h memory in
    (h, c, record { next_handle = h; total_zk_clients = assign h c m.total_zk_clients })

-- createZkClient behind init, for the client with handle `h`: what it returns is `nextHandle_` as it
-- is then.
unfoldable pub end_create :
    ℕ → Bool × ZkClient × List Action → ZkClientManager → ℕ × ZkClientManager
unfolding update_client
end_create h (succ, c, acts) m =
    let m1 = update_client h c m in (if succ then m1.next_handle else 0, m1)

abbrev pub ended : ℕ → ZkClientManager → Outcome → Option (ℕ × ZkClientManager × List Action)
ended h m none = none
ended h m (some (succ, c, acts)) =
    let (r, m1) = end_create h (succ, c, acts) m in some (r, m1, acts)

-- createZkClient where no other thread creates or destroys a client meanwhile.
unfoldable pub create_zk_client :
    InitArgs
    → Option ℕ
    → Deliveries
    → ℕ
    → ZkClientManager
    → Option (ℕ × ZkClientManager × List Action)
unfolding begin_create
create_zk_client a zh ds memory m =
    let (h, c, m1) = begin_create memory m in ended h m1 (Session.init a zh ds c)

abbrev checked : ℕ → ℕ → ZkClientManager → Option ZkClient → ZkClientManager × List Action
checked h now m none = (m, [])
checked h now m (some c) =
    let (c1, acts) = Session.check_session_state c now in (update_client h c1 m, acts)

-- ZkClient::checkSessionState, the task that the first thread runs.
unfoldable pub check_session_state : ℕ → ℕ → ZkClientManager → ZkClientManager × List Action
unfolding get_zk_client update_client
check_session_state h now m = checked h now m (get_zk_client h m)

abbrev retried : ℕ → ZkClientManager → Outcome → Option (ZkClientManager × List Action)
retried h m none = none
retried h m (some (again, c, acts)) = some (update_client h c m, acts)

abbrev retry_of :
    ℕ
    → Option ℕ
    → Deliveries
    → ZkClientManager
    → Option ZkClient
    → Option (ZkClientManager × List Action)
retry_of h zh ds m none = some (m, [])
retry_of h zh ds m (some c) = retried h m (Session.retry zh ds c)

-- ZkClient::retry, the task that the second thread runs.
unfoldable pub retry :
    ℕ → Option ℕ → Deliveries → ZkClientManager → Option (ZkClientManager × List Action)
unfolding get_zk_client update_client
retry h zh ds m = retry_of h zh ds m (get_zk_client h m)

abbrev watched : ℕ → SessionEvent → ZkClientManager → Option ZkClient → ZkClientManager × Bool
watched h e m none = (m, true)
watched h e m (some c) = (update_client h (watch_session e c) m, false)

-- ZkClient::sessionWatcher with the handle in its context. `none`: the assertion on the handle
-- fails. The flag: the context has been deleted, since no client has the handle any more.
unfoldable pub session_watcher :
    ℕ → EventType → SessionEvent → ZkClientManager → Option (ZkClientManager × Bool)
unfolding get_any_client update_client
session_watcher h type e m =
    if is_session_event type
    then (if h == 0 then none else some (watched h e m (get_any_client h m)))
    else some (m, false)
