-- ===== src/Manager/Threads.antt =====
-- The threads of ZkClientManager in src/ZkClientManager.h and src/ZkClientManager.cc: init, the lookups
-- of their ids, and the destructor. The thread ids are arguments, and so is whether a Thread object is
-- there.
use zookeeper_cpp_client.Common.{ℕ, ◌≡◌, refl, Bool, true, false, List, [], ◌∷◌, Option, none, some}
use zookeeper_cpp_client.Common.Std.{find, nat_ord}
use zookeeper_cpp_client.Manager.{ZkClientManager, new_manager, get_any_client}

-- zkThreads_, with the id of each thread that runs; isExit_; and the clients.
pub record Threads : Type 0 where
  pub zk_threads : List (Option ℕ)
  pub is_exit : Bool
  pub clients : ZkClientManager

-- The loop of init over the new Thread objects: a null one is left out.
abbrev pub pushed : List (Option ℕ) → List (Option ℕ)
pushed [] = []
pushed (none ∷ ts) = pushed ts
pushed (some id ∷ ts) = some id ∷ pushed ts

-- The constructor, whose init makes two threads and starts them.
unfoldable pub new_threads : Option ℕ → Option ℕ → Threads
new_threads first second = record {
  zk_threads = pushed (first ∷ second ∷ []);
  is_exit = false;
  clients = new_manager;
}

abbrev pub tid : Option ℕ → ℕ
tid none = 0
tid (some id) = id

-- getFirstThreadId and getSecondThreadId
abbrev pub first_of : List (Option ℕ) → ℕ
first_of [] = 0
first_of (t ∷ ts) = tid t

abbrev pub second_of : List (Option ℕ) → ℕ
second_of [] = 0
second_of (t ∷ ts) = first_of ts

abbrev pub get_first_thread_id : Threads → ℕ
get_first_thread_id m = first_of m.zk_threads

abbrev pub get_second_thread_id : Threads → ℕ
get_second_thread_id m = second_of m.zk_threads

-- The destructor: each thread is joined, and their ids come with the rest.
abbrev pub joined : List (Option ℕ) → List ℕ
joined [] = []
joined (none ∷ ts) = joined ts
joined (some id ∷ ts) = id ∷ joined ts

unfoldable pub destroy : Threads → List ℕ × Threads
destroy m = (
  joined m.zk_threads,
  record { zk_threads = []; is_exit = true; clients = record m.clients { total_zk_clients = [] } },
)

-- The checks run in the first thread and the retries in the second one; behind the destructor both have
-- ended, no thread is found, and no client.
threads_lem :
    (first second h : ℕ)
    → let m = new_threads (some first) (some second) in
      let (ended, gone) = destroy m in
      (get_first_thread_id m ≡ first)
      × (get_second_thread_id m ≡ second)
      × (ended ≡ first ∷ second ∷ [])
      × (get_second_thread_id gone ≡ 0)
      × (get_any_client h gone.clients ≡ none)
unfolding new_threads destroy get_any_client find new_manager
threads_lem first second h = (refl, refl, refl, refl, refl)

-- When one of the two Thread objects is missing, the other one is the first thread, whichever it is,
-- and no second one is found.
one_thread_lem :
    (id : ℕ)
    → (get_first_thread_id (new_threads none (some id)) ≡ id)
      × (get_second_thread_id (new_threads none (some id)) ≡ 0)
      × (get_second_thread_id (new_threads (some id) none) ≡ 0)
unfolding new_threads
one_thread_lem id = (refl, refl, refl)
