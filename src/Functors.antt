-- ===== src/Functors.antt =====
-- CbFunManager of src/ZkClientManager.cc: the functors that wait for each thread. A functor is
-- whatever the caller binds, so its type is a parameter; threads and file descriptors are numbers.
-- `pendingFunctors_` is never null while the singleton lives. The eventfd that
-- insertOrSetThreadData creates is an argument, and a write to an eventfd is a result.
pub mod Pending
pub mod Order
use zookeeper_cpp_client.Common.{
  ℕ, Bool, true, false, not, ◌||◌, List, [], ◌∷◌, ◌++◌, Option, none, some, ◌==◌, if◌then◌else◌,
}
use zookeeper_cpp_client.Common.Std.{StdMap, find, assign, nat_ord}

-- CbFunManager::threadData
pub record ThreadData : Type 0 where
  pub epollfd : ℕ
  pub eventfd : ℕ
  pub calling_pending_functors : Bool

pub record CbFunManager (F : Type 0) : Type 0 where
  pub thread_datas : StdMap ℕ ThreadData
  pub pending_functors : StdMap ℕ (List F)

abbrev pub wakes : ℕ → ℕ → Option ThreadData → Option ℕ
wakes me id none = none
wakes me id (some d) = if not (me == id) || d.calling_pending_functors then some d.eventfd else none

module _ {F : Type 0} where
  unfoldable pub new_cb_fun_manager : CbFunManager F
  new_cb_fun_manager = record { thread_datas = []; pending_functors = [] }

  unfoldable pub insert_or_set_thread_data : ℕ → ℕ → ℕ → CbFunManager F → CbFunManager F
  insert_or_set_thread_data id epollfd eventfd m =
      let d : ThreadData = record {
        epollfd = epollfd;
        eventfd = eventfd;
        calling_pending_functors = false;
      } in
      record m { thread_datas = assign id d m.thread_datas }

  -- The functors that wait for a thread, in the order of their calls; a missing key has none.
  abbrev pub or_none : Option (List F) → List F
  or_none none = []
  or_none (some fs) = fs

  unfoldable pub pending_of : ℕ → CbFunManager F → List F
  pending_of id m = or_none (find id m.pending_functors)

  -- The eventfd that is written, called by the thread `me`.
  unfoldable pub wakeup : ℕ → ℕ → CbFunManager F → Option ℕ
  wakeup me id m = wakes me id (find id m.thread_datas)

  -- The first write is that of an empty list under a missing key.
  unfoldable pub queue_in_thread_funs : ℕ → ℕ → F → CbFunManager F → CbFunManager F × Option ℕ
  unfolding pending_of wakeup
  queue_in_thread_funs me id f m =
      let fs = pending_of id m ++ f ∷ [] in
      let m1 : CbFunManager F = record m { pending_functors = assign id fs m.pending_functors } in
      (m1, wakeup me id m1)

  -- What runInThread calls at once, the manager after it, and the eventfd that it writes.
  unfoldable pub run_in_thread : ℕ → ℕ → F → CbFunManager F → List F × CbFunManager F × Option ℕ
  unfolding queue_in_thread_funs
  run_in_thread me id f m =
      if me == id
      then (f ∷ [], m, none)
      else (let (m1, w) = queue_in_thread_funs me id f m in ([], m1, w))

  abbrev pub flagged : Bool → ℕ → Option ThreadData → CbFunManager F → CbFunManager F
  flagged b id none m = m
  flagged b id (some d) m = record m {
    thread_datas = assign id (record d { calling_pending_functors = b }) m.thread_datas;
  }

  abbrev pub swapped : ℕ → Option (List F) → CbFunManager F → CbFunManager F
  swapped id none m = m
  swapped id (some fs) m = record m { pending_functors = assign id [] m.pending_functors }

  -- doPendingFunctors up to the loop that calls the functors, and behind it.
  unfoldable pub take_pending : ℕ → CbFunManager F → List F × CbFunManager F
  unfolding pending_of
  take_pending id m =
      let m1 = flagged true id (find id m.thread_datas) m in
      (pending_of id m1, swapped id (find id m1.pending_functors) m1)

  unfoldable pub end_pending : ℕ → CbFunManager F → CbFunManager F
  end_pending id m = flagged false id (find id m.thread_datas) m
