-- ===== src/Lib.antt =====
-- zookeeper_cpp_client: a model of ZkCppClient, the C++ client of ZooKeeper in the folder src of the
-- repository, and what holds of it.
--
-- The program. A `ZkClient` (src/ZkClient.h, src/ZkClient.cc) wraps one session of the ZooKeeper C
-- library. It adds to the library: a session that is connected again after it expired, with delays
-- that double; a handler of the user that hears of an expired session; watches that are registered
-- again after each event; and operations that make a node with its parents and delete a node with
-- what lies below it. The `ZkClientManager` (src/ZkClientManager.h, src/ZkClientManager.cc) holds the
-- clients under handles. The library's own thread calls the watchers and the completions of a client;
-- the manager's first thread runs the check of the sessions, its second one the retries, the
-- registrations and the operations that are too long for a callback.
--
-- The files, and the code they are about (functions keep their names, in small letters):
-- - Codes: the enumerations and constants of src/ZkClient.h, and the codes of zookeeper.h as names.
-- - Client, Client/Passwd, Client/Maps: the fields of ZkClient, constructor, accessors, the maps of
--   watches; getClientId and the copy of the password.
-- - Task: what is handed to the threads, and calls of the handler of an expired session, as a list of
--   actions.
-- - Session: sessionWatcher, checkSessionState, reconnect, retry and init, for one client.
--   Session/Delivery, Session/Outage and Session/Start follow its timers and calls over any course of
--   events, Session/Backoff its delays, Session/Reconnect how the check and a retry meet, and
--   Session/Waits the end of the waiting.
-- - Manager: createZkClient, destroyClient, getZkClient, and the functions that begin with a lookup
--   of their handle. Manager/Handles, Manager/Lookup: the handles, and what is found under them.
--   Manager/Courses: all clients of a manager over any course of events; Manager/Courses/Valid,
--   Manager/Courses/Steps, Manager/Courses/Making and Manager/Courses/Always have what stays true.
--   Manager/Threads: the two threads and the destructor.
-- - Zoo, Zoo/Path: the synchronous calls of the C library as a parameter, and paths.
-- - Sync: the operations without a handler. Sync/CreateDir, Sync/CreateParents, Sync/CreateLeaf,
--   Sync/DeleteLoop, Sync/DeleteTree, Sync/DeleteTotal: what they do on a tree of nodes.
-- - Async: the operations with a handler and their completions; Async/Once. Async/Post: the two
--   operations that go on in the second thread; Async/Post/Twice.
-- - Watch, Watch/Node, Watch/Told: registering, the watcher function, the fetch and the registration
--   that follows, for a node. Watch/Child, Watch/Child/Cancelled, Watch/Child/Told: for its children.
--   Watch/All: regAllWatcher, which nothing calls.
-- - Functors, Functors/Pending, Functors/Order: CbFunManager, the queues of functors of each thread.
-- - Timers: ZkTimerQueue (src/ZkTimerQueue.h, src/ZkTimerQueue.cc), the timers of one thread.
--   Timers/Pairs has its sets, Timers/Valid its invariant, Timers/Cancel, Timers/Idle, Timers/Erase,
--   Timers/Expiry, Timers/Reset and Timers/Calls its operations, Timers/Spec the map of the live timers
--   that they refine, Timers/Read the wake-up, Timers/Alarm the timerfd,
--   Timers/History and Timers/Life any course of calls and wake-ups; Timers/Delete is the destructor,
--   Timers/Delay is howMuchTimeFromNow.
-- - Loop: ZkNetClient, LoopFun and loop_once (src/ZkClientManager.cc), which bring Timers and Functors
--   together in one thread; Loop/Events and Loop/Once are a turn of the loop,
--   Loop/Turns the life of a thread,
--   Loop/Manager is ZkTimerManager, Loop/Deletion its destructor, Loop/Epoll the calls of epoll_ctl.
-- - SharedLock: DistriSharedLock of example/distribute_sharedlock.cc. SharedLock/Names has the names of
--   its nodes, SharedLock/Scan the search for the node to wait for, SharedLock/World the objects and the
--   servers step by step, SharedLock/Valid, SharedLock/Children, SharedLock/Cases, SharedLock/Steps and
--   SharedLock/Course what stays true of them, SharedLock/Exclusion, SharedLock/Abandoned and
--   SharedLock/Awaited what follows.
-- - Servers, Servers/Owning: several sessions on the same servers, a parameter like Zoo, for the programs
--   under example that meet there. Lock: DistriLock of example/distribute_lock.cc; Election:
--   MasterElection of example/master_election.cc; Barrier: DistriBarrier of
--   example/distribute_barrier.cc. The World of each has its objects and the servers step by step;
--   Lock/Valid, Lock/Exclusion, Lock/Abandoned, Election/Valid, Election/Masters, Barrier/Members,
--   Barrier/Through, Barrier/Growing and Barrier/Open have what follows. Sync/DeleteWithin has what
--   deleteRecursive keeps, Sync/ReturnCodes what stands behind the codes of the client.
-- - Common, Common/Tests, Common/Lists, Common/Std, Common/Steps: shared names, tests, lists, std::map,
--   and courses of steps.
-- - Examples: the properties at concrete inputs.
--
-- How state and calls are written. A function of the client takes the client's fields and returns
-- them with the actions it has asked for; the manager puts them back under the handle. What other
-- threads do while a function waits for the session is an argument (`Deliveries`): batches of session
-- events and checks, one for each time that the waiting thread tests again. `batches_of` cuts them from
-- what happens, by the notifications of sessionWatcher and spurious wake-ups. A function that stays
-- blocked gives `none`. Return codes of asynchronous calls of the library are arguments, and so are
-- the handle that zookeeper_init returns and the time. The synchronous calls of the library are the
-- record `Zoo` over a state that holds the servers and the connection; `IsTree` states the documented
-- meaning of their codes while no other client writes, and `IsReliable` that they fail for no other
-- reason.
--
-- Bounds and fuel. createPersistentDir calls itself with its own path, and deleteRecursive descends a
-- tree that the servers give: both take fuel, and `none` means that it is used up. The length of the
-- path and one more is enough for the first, the longest path of the tree and one more for the
-- second. Handles are uint32_t and wrap at 2 ^ 32; delays, times and versions do not reach the limits
-- of their types.
--
-- The timers of a thread are a state of their own: the live Timer objects by address, and the sets of
-- pairs. What the callbacks of a wake-up do to their own queue is a list of calls. `Timer::restart` of
-- muduo is a parameter; `none` is an assertion that fails or a deleted timer that is followed.
--
-- A thread of the manager: what epoll_wait returns in a turn is an argument, and so is what is queued
-- for the thread before it; which calls of its timers a functor makes is a parameter. For the functions
-- of the client, a timer is an action that some later step runs, and so is a posted functor.
--
-- The shared lock: each step is one call of an object on the servers, a callback, or the end of a wait;
-- the objects are those whose init has returned true, and the calls of different objects come in any
-- order. The digits that the servers append to a sequence node are a parameter, which reads back as the
-- number while that is below 2 ^ 31.
--
-- The exclusive lock, the election and the barrier call the operations of Sync, each object in the
-- session of its number. `IsOwning` states whose an ephemeral node is, `IsCounting` and `IsGrowing` how
-- many nodes a barrier has at most, and at least. The callback of the barrier is a step with the names
-- that it is given; it wakes only a thread that sleeps. A call of ZkClient is one step, deleteRecursive
-- included; between two steps the rest of the world may pass. The callbacks come at any time with any
-- list of children. A node of the lock and of the election vanishes by no end of a session, and only a
-- holder or a master deletes it, except where a result says so. destroyClient at the end of a destructor
-- is left out.
--
-- Simplifications. One thread uses a lock object, only a holder unlocks, and sessions do not expire
-- under a lock. A timer that another thread adds is allocated and inserted in one step; times are
-- whole microseconds. A watcher function reads the map of watches once, where the code reads it up to
-- three times: a cancellation between two of these reads is not modelled. The user's handlers leave
-- the client alone. Destroying a client ends its use by others only when the last pointer to it goes;
-- the destructor is not modelled, and neither are locks, logging and printClientInfo.
--
-- Not modelled: system calls on sockets and timers, the destructor of ZkClient, setLogConf; the muduo
-- library, copied into the repository; the main functions of the programs under example, and the tests
-- there.
pub mod Common
pub mod Codes
pub mod Client
pub mod Task
pub mod Session
pub mod Manager
pub mod Zoo
pub mod Sync
pub mod Async
pub mod Watch
pub mod Examples
pub mod Functors
pub mod Timers
pub mod SharedLock
pub mod Loop
pub mod Servers
pub mod Lock
pub mod Election
pub mod Barrier
