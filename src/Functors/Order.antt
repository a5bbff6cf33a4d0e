-- ===== src/Functors/Order.antt =====
-- The order of the functors of one thread, while every thread queues functors and calls its own.
use zookeeper_cpp_client.Common.{ℕ, ◌≡◌, ◌≢◌, refl, ap, ◌∙◌, sym, List, [], ◌∷◌, ◌++◌, arith}
use mathlib.Core.List.{append_assoc, append-nil}
use zookeeper_cpp_client.Common.Std.{find}
use zookeeper_cpp_client.Functors.{
  CbFunManager, pending_of, run_in_thread, take_pending, end_pending, new_cb_fun_manager,
  insert_or_set_thread_data,
}
use zookeeper_cpp_client.Functors.Pending.{
  queued_by, pending_of-run_in_thread, taken-take_pending, pending_of-take_pending,
  pending_of-end_pending, pending_of-insert_or_set_thread_data,
}

module _ (F : Type 0) where
  -- The manager, and for one thread: the functors queued for it so far, those that it has taken and
  -- not called, and those that it has called from its queue.
  pub record Run : Type 0 where
    pub manager : CbFunManager F
    pub queued : List F
    pub taken : List F
    pub called : List F

  abbrev pub start : Run
  start = record { manager = new_cb_fun_manager; queued = []; taken = []; called = [] }

  pub data Step (t : ℕ) (s : Run) : Run → Type 0 where
    registers :
        (id epollfd eventfd : ℕ)
        → Step t s (record s { manager = insert_or_set_thread_data id epollfd eventfd s.manager })
    runs :
        (me id : ℕ) (f : F)
        → Step t s (record s {
          manager = (run_in_thread me id f s.manager).1;
          queued = s.queued ++ queued_by t me id f;
        })
    another_takes :
        (id : ℕ) → id ≢ t → Step t s (record s { manager = (take_pending id s.manager).1 })
    takes :
        s.taken ≡ []
        → Step t s (record s {
          manager = (take_pending t s.manager).1;
          taken = (take_pending t s.manager).0;
        })
    calls :
        (f : F) (fs : List F)
        → s.taken ≡ f ∷ fs
        → Step t s (record s { taken = fs; called = s.called ++ f ∷ [] })
    ends : (id : ℕ) → Step t s (record s { manager = end_pending id s.manager })

  pub data Reach (t : ℕ) : Run → Type 0 where
    at_start : Reach t start
    after_step : {s u : Run} → Reach t s → Step t s u → Reach t u

  abbrev InOrder : ℕ → Run → Type 0
  InOrder t s = s.called ++ (s.taken ++ pending_of t s.manager) ≡ s.queued

  -- The same functors with a further one at the end.
  append_last : (ws xs ys zs : List F) → ws ++ (xs ++ (ys ++ zs)) ≡ (ws ++ (xs ++ ys)) ++ zs
  append_last ws xs ys zs =
      ap (λ r. ws ++ r) (sym (append_assoc xs ys zs)) ∙ sym (append_assoc ws (xs ++ ys) zs)

  Step-InOrder : (t : ℕ) (s u : Run) → Step t s u → InOrder t s → InOrder t u
  Step-InOrder t s _ (registers id epollfd eventfd) h =
      ap (λ xs. s.called ++ (s.taken ++ xs))
        (pending_of-insert_or_set_thread_data id epollfd eventfd t s.manager)
      ∙ h
  Step-InOrder t s _ (runs me id f) h =
      ap (λ xs. s.called ++ (s.taken ++ xs)) (pending_of-run_in_thread me id t f s.manager)
      ∙ append_last s.called s.taken (pending_of t s.manager) (queued_by t me id f)
      ∙ ap (λ xs. xs ++ queued_by t me id f) h
  Step-InOrder t s _ (another_takes id ne) h =
      ap (λ xs. s.called ++ (s.taken ++ xs)) (untouched id ne) ∙ h
    where
      untouched :
          (id : ℕ) → id ≢ t → pending_of t (take_pending id s.manager).1 ≡ pending_of t s.manager
      untouched id ne = ground (arith, pending_of-take_pending id t s.manager, ne)
  Step-InOrder t s _ (takes e) h =
      ap (λ xs. s.called ++ xs) (all_taken ∙ sym (ap (λ xs. xs ++ pending_of t s.manager) e)) ∙ h
    where
      all_taken :
          (take_pending t s.manager).0 ++ pending_of t (take_pending t s.manager).1
          ≡ pending_of t s.manager
      all_taken = ground (
        arith,
        taken-take_pending t s.manager,
        pending_of-take_pending t t s.manager,
        append-nil (pending_of t s.manager),
      )
  Step-InOrder t s _ (calls f fs e) h =
      append_assoc s.called (f ∷ []) (fs ++ pending_of t s.manager)
      ∙ ap (λ xs. s.called ++ (xs ++ pending_of t s.manager)) (sym e)
      ∙ h
  Step-InOrder t s _ (ends id) h =
      ap (λ xs. s.called ++ (s.taken ++ xs)) (pending_of-end_pending id t s.manager) ∙ h

  Reach-InOrder : (t : ℕ) (s : Run) → Reach t s → InOrder t s
  unfolding new_cb_fun_manager pending_of find
  Reach-InOrder t _ at_start = refl
  Reach-InOrder t u (after_step {s} r k) = Step-InOrder t s u k (Reach-InOrder t s r)

  -- However threads queue functors for each other and take their own, the functors that a thread has
  -- called from its queue, those that it has taken and those that wait for it are, in this order,
  -- all the functors that were queued for it, in the order in which they were: none is lost, none is
  -- called twice, and none overtakes another.
  pub functors_in_order :
      (t : ℕ) (s : Run) → Reach t s → s.called ++ (s.taken ++ pending_of t s.manager) ≡ s.queued
  functors_in_order t s r = Reach-InOrder t s r
