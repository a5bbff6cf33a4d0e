-- ===== src/Task.antt =====
-- What the client hands to its surroundings, in the order in which it does: timers and functors of
-- the manager's two threads (ZkTimerManager::runAfter, CbFunManager::runInThread) and the call of
-- the user's handler for an expired session. The client that a functor binds is its handle.
use zookeeper_cpp_client.Common.{ℕ, ◌+◌, ◌≤◌, Bool, true, false, List, [], ◌∷◌, ◌++◌, arith, ◌≡◌}
use zookeeper_cpp_client.Codes.{Bytes}

-- getFirstThreadId, getSecondThreadId
pub data Thread : Type 0 where
  first_thread second_thread : Thread

pub data Task : Type 0 where
  check_task retry_task : ℕ → Task
  auto_reg_node_task auto_reg_child_task : ℕ → Bytes → Task

pub data Action : Type 0 where
  run_after : Thread → ℕ → Task → Action
  run_in_thread : Thread → Task → Action
  expired_call : ℕ → ℕ → Action

-- How often the retry timer is set in a list of actions, and the check timer, and how often the
-- user hears of an expired session.
abbrev pub is_retry : Action → Bool
is_retry (run_after t n (retry_task h)) = true
is_retry _ = false

abbrev pub is_check : Action → Bool
is_check (run_after t n (check_task h)) = true
is_check _ = false

abbrev pub is_expired_call : Action → Bool
is_expired_call (expired_call f x) = true
is_expired_call _ = false

abbrev pub one : Bool → ℕ
one true = 1
one false = 0

abbrev pub count : (Action → Bool) → List Action → ℕ
count p [] = 0
count p (a ∷ acts) = one (p a) + count p acts

pub count-append :
    (p : Action → Bool) (acts bs : List Action) → count p (acts ++ bs) ≡ count p acts + count p bs
count-append p [] bs = omega arith
count-append p (a ∷ acts) bs = omega (arith, count-append p acts bs)

pub one-le : (b : Bool) → one b ≤ 1
one-le true = omega arith
one-le false = omega arith
