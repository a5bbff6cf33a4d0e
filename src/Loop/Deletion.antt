-- ===== src/Loop/Deletion.antt =====
-- ~ZkTimerManager of src/ZkClientManager.cc, which deletes the queue of each thread.
use zookeeper_cpp_client.Common.{ℕ, ◌≡◌, refl, List, [], ◌∷◌, Option, none, some, All}
use zookeeper_cpp_client.Common.Std.{StdMap, find, nat_ord}
use zookeeper_cpp_client.Timers.{Timer, ZkTimerQueue, ◌>>=◌}
use zookeeper_cpp_client.Timers.Valid.{IsValid}
use zookeeper_cpp_client.Timers.Read.{IsSettled}
use zookeeper_cpp_client.Timers.Delete.{delete_timers, delete_timers_lem}
use zookeeper_cpp_client.Loop.Manager.{ZkTimerManager, run_at}

-- `none` is a timer that is deleted twice. The live timers that are left stand in a list for each queue.
unfoldable pub delete_queues : List ZkTimerQueue → Option (List (StdMap ℕ Timer))
unfolding delete_timers
delete_queues [] = some []
delete_queues (q ∷ qs) =
    delete_timers q.timers q.store >>= λ left. delete_queues qs >>= λ lefts. some (left ∷ lefts)

-- On the queues of the map, unless the manager is destroyed already.
unfoldable pub destroy :
    List ZkTimerQueue → ZkTimerManager → Option (List (StdMap ℕ Timer) × ZkTimerManager)
unfolding delete_queues
destroy qs m = elim m.timer_queues [
  | none ↦ some ([], m)
  | some fds ↦ delete_queues qs >>= λ lefts. some (lefts, record { timer_queues = none })
]

abbrev IsEmpty : StdMap ℕ Timer → Type 0
IsEmpty left = (b : ℕ) → find b left ≡ none

delete_queues_lem :
    (qs : List ZkTimerQueue)
    → All (λ q. IsValid q × IsSettled q) qs
    → (lefts : List (StdMap ℕ Timer)) × (delete_queues qs ≡ some lefts) × All IsEmpty lefts
unfolding delete_queues
delete_queues_lem [] h = ([], refl, tt)
delete_queues_lem (q ∷ qs) ((v, w), h) =
    let (left, run, gone) = delete_timers_lem q v w in
    let (lefts, runs, all) = delete_queues_lem qs h in
    (left ∷ lefts, rw (run, runs) refl, (gone, all))

-- While no wake-up is under way, the destructor deletes each live timer of each queue once and leaves
-- none, and from then on no thread has a queue that a timer could be added to.
destroy_lem :
    (qs : List ZkTimerQueue) (fds : StdMap ℕ ℕ) (id time callback a sequence : ℕ)
    → All (λ q. IsValid q × IsSettled q) qs
    → (lefts : List (StdMap ℕ Timer)) × (m : ZkTimerManager) × (destroy qs
          (record { timer_queues = some fds })
        ≡ some (lefts, m))
      × All IsEmpty lefts
      × (run_at id time callback a sequence m ≡ none)
unfolding destroy run_at
destroy_lem qs fds id time callback a sequence h =
    let (lefts, runs, all) = delete_queues_lem qs h in
    (lefts, record { timer_queues = none }, rw runs refl, all, refl)
