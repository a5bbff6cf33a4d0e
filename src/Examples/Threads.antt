-- ===== src/Examples/Threads.antt =====
-- Functors that two threads queue for a third one; the functors are numbers.
use zookeeper_cpp_client.Common.{ℕ, ◌≡◌, refl, [], ◌∷◌, ◌++◌}
use zookeeper_cpp_client.Common.Std.{find, assign}
use zookeeper_cpp_client.Functors.{
  CbFunManager, new_cb_fun_manager, insert_or_set_thread_data, run_in_thread, pending_of,
  take_pending,
}
use zookeeper_cpp_client.Functors.Pending.{queued_by}
use zookeeper_cpp_client.Functors.Order.{
  Run, runs, takes, calls, at_start, after_step, functors_in_order,
}

abbrev ready : CbFunManager ℕ
ready = insert_or_set_thread_data 2 8 9 new_cb_fun_manager

-- Thread 2, after threads 1 and 3 have queued a functor each.
abbrev queued_run : Run ℕ
queued_run = record {
  manager = (run_in_thread 3 2 71 (run_in_thread 1 2 70 new_cb_fun_manager).1).1;
  queued = ([] ++ queued_by 2 1 2 70) ++ queued_by 2 3 2 71;
  taken = [];
  called = [];
}

abbrev taken_run : Run ℕ
taken_run = record queued_run {
  manager = (take_pending 2 queued_run.manager).1;
  taken = (take_pending 2 queued_run.manager).0;
}

abbrev called_run : Run ℕ
called_run = record taken_run { taken = 71 ∷ []; called = [] ++ 70 ∷ [] }

functors_in_order_example :
    called_run.called ++ (called_run.taken ++ pending_of 2 called_run.manager) ≡ called_run.queued
unfolding new_cb_fun_manager run_in_thread take_pending find assign
functors_in_order_example = functors_in_order ℕ 2 called_run (
    after_step
      (after_step (after_step (after_step at_start (runs 1 2 70)) (runs 3 2 71)) (takes refl))
      (calls 70 (71 ∷ []) refl))
