-- ===== src/Functors/Pending.antt =====
-- What each operation of CbFunManager does to the functors that wait for a thread.
use zookeeper_cpp_client.Common.{
  ℕ, ◌≡◌, ◌≢◌, refl, List, [], ◌∷◌, ◌++◌, some, arith, ◌==◌, ==_iff, if◌then◌else◌,
}
use mathlib.Core.List.{append-nil}
use zookeeper_cpp_client.Common.Std.{find, find-assign, nat_ord}
use zookeeper_cpp_client.Functors.{
  CbFunManager, ThreadData, pending_of, queue_in_thread_funs, run_in_thread, take_pending,
  end_pending, wakeup, insert_or_set_thread_data, swapped,
}

module _ {F : Type 0} where
  -- What each operation does to the functors that wait for a thread.
  pub pending_of-queue_in_thread_funs :
      (me id t : ℕ) (f : F) (m : CbFunManager F)
      → pending_of t (queue_in_thread_funs me id f m).0
        ≡ (if id == t then pending_of t m ++ f ∷ [] else pending_of t m)
  unfolding pending_of queue_in_thread_funs
  pending_of-queue_in_thread_funs me id t f m =
      ground (arith, find-assign id t (pending_of id m ++ f ∷ []) m.pending_functors, ==_iff id t)

  pending_of-swapped :
      (id t : ℕ) (m : CbFunManager F)
      → pending_of t (swapped id (find id m.pending_functors) m)
        ≡ (if id == t then [] else pending_of t m)
  unfolding pending_of
  pending_of-swapped id t m = ground (arith, find-assign id t [] m.pending_functors, ==_iff id t)

  -- A registered thread that is not the caller is woken by each functor that is queued for it.
  queued_wakes :
      (me id : ℕ) (f : F) (m : CbFunManager F) (d : ThreadData)
      → find id m.thread_datas ≡ some d
      → me ≢ id
      → (run_in_thread me id f m).2 ≡ some d.eventfd
  unfolding run_in_thread queue_in_thread_funs wakeup
  queued_wakes me id f m d h ne = ground (arith, h, ne, ==_iff me id)

  pub taken-take_pending : (t : ℕ) (m : CbFunManager F) → (take_pending t m).0 ≡ pending_of t m
  unfolding take_pending pending_of
  taken-take_pending t m = ground arith

  pub pending_of-take_pending :
      (id t : ℕ) (m : CbFunManager F)
      → pending_of t (take_pending id m).1 ≡ (if id == t then [] else pending_of t m)
  unfolding take_pending pending_of
  pending_of-take_pending id t m = ground (arith, pending_of-swapped id t m)

  pub pending_of-end_pending :
      (id t : ℕ) (m : CbFunManager F) → pending_of t (end_pending id m) ≡ pending_of t m
  unfolding end_pending pending_of
  pending_of-end_pending id t m = ground arith

  pub pending_of-insert_or_set_thread_data :
      (id epollfd eventfd t : ℕ) (m : CbFunManager F)
      → pending_of t (insert_or_set_thread_data id epollfd eventfd m) ≡ pending_of t m
  unfolding insert_or_set_thread_data pending_of
  pending_of-insert_or_set_thread_data id epollfd eventfd t m = refl

  -- The functors that are queued for a thread by one call of runInThread.
  abbrev pub queued_by : ℕ → ℕ → ℕ → F → List F
  queued_by t me id f = if me == id then [] else if id == t then f ∷ [] else []

  pub pending_of-run_in_thread :
      (me id t : ℕ) (f : F) (m : CbFunManager F)
      → pending_of t (run_in_thread me id f m).1 ≡ pending_of t m ++ queued_by t me id f
  unfolding run_in_thread
  pending_of-run_in_thread me id t f m =
      ground (arith, pending_of-queue_in_thread_funs me id t f m, append-nil (pending_of t m))
