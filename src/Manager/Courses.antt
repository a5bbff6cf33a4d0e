-- ===== src/Manager/Courses.antt =====
-- All clients of the manager, over any course of events: clients are made and destroyed, checks and
-- retries of each fire, session events reach each. A retry of one client lies in one step, while
-- checks and session events of its own come in between. Before the handles wrap around.
pub mod Valid
pub mod Steps
pub mod Making
pub mod Always
use zookeeper_cpp_client.Common.{
  ℕ, zero, suc, ◌+◌, ◌^◌, Bool, true, false, List, [], Option, none, some, ltb, ◌==◌, if◌then◌else◌,
}
use zookeeper_cpp_client.Common.Steps.{follow}
use zookeeper_cpp_client.Codes.{EventType}
use zookeeper_cpp_client.Client.{ZkClient, set_is_support_reconnect}
use zookeeper_cpp_client.Task.{Action, count, one, is_retry, is_expired_call}
use zookeeper_cpp_client.Session
use zookeeper_cpp_client.Session.{SessionEvent, Deliveries, InitArgs, Outcome}
use zookeeper_cpp_client.Session.Outage.{Course}
use zookeeper_cpp_client.Manager.{
  ZkClientManager, new_manager, bump_handle, get_any_client, get_zk_client, destroy_client,
  update_client, create_zk_client, check_session_state, retry, session_watcher,
}

-- For one handle: the retry timers that are set and have not fired, the calls of the user's handler for
-- an expired session, and the retries that have succeeded.
pub record Counter : Type 0 where
  pub pending : ℕ
  pub calls : ℕ
  pub reconnects : ℕ

pub record World : Type 0 where
  pub manager : ZkClientManager
  pub counter : ℕ → Counter

pub data Event : Type 0 where
  creates : InitArgs → Option ℕ → Deliveries → ℕ → Event
  destroys : ℕ → Event
  checks : ℕ → ℕ → Event
  retries : ℕ → Option ℕ → Deliveries → Event
  watches : ℕ → EventType → SessionEvent → Event
  -- the user switches reconnecting on or off
  sets : ℕ → Bool → Event

abbrev pub no_count : Counter
no_count = record { pending = 0; calls = 0; reconnects = 0 }

abbrev pub new_world : World
new_world = record { manager = new_manager; counter = λ h. no_count }

abbrev pub course_of : Counter → ZkClient → Course
course_of k c = record {
  client = c;
  pending = k.pending;
  calls = k.calls;
  reconnects = k.reconnects;
}

-- The counts behind the actions of a client, with the retries that are left and one that succeeded.
abbrev pub counted : ℕ → ℕ → List Action → Counter → Counter
counted left again acts k = record {
  pending = left + count is_retry acts;
  calls = k.calls + count is_expired_call acts;
  reconnects = k.reconnects + again;
}

abbrev pub acted : ℕ → Counter → ZkClientManager → World → World
acted h k m w = record { manager = m; counter = λ j. if h == j then k else w.counter j }

abbrev pub created : ℕ → Option (ℕ × ZkClientManager × List Action) → World → Option World
created h none w = none
created h (some (r, m, acts)) w =
    some (acted h (counted (w.counter h).pending 0 acts (w.counter h)) m w)

-- Whether the session of a client is there again behind a retry.
abbrev pub again_of : Outcome → Bool
again_of none = false
again_of (some (again, c, acts)) = again

abbrev pub succeeds : Option ℕ → Deliveries → Option ZkClient → Bool
succeeds zh ds none = false
succeeds zh ds (some c) = again_of (Session.retry zh ds c)

abbrev pub retried_in : ℕ → ℕ → ℕ → Option (ZkClientManager × List Action) → World → Option World
retried_in h left again none w = none
retried_in h left again (some (m, acts)) w =
    some (acted h (counted left again acts (w.counter h)) m w)

abbrev pub fired : ℕ → ℕ → Option ℕ → Deliveries → World → Option World
fired h zero zh ds w = none
fired h (suc left) zh ds w =
    retried_in h left (one (succeeds zh ds (get_zk_client h w.manager))) (retry h zh ds w.manager) w

abbrev pub watched_in : Option (ZkClientManager × Bool) → World → Option World
watched_in none w = none
watched_in (some (m, gone)) w = some (record w { manager = m })

abbrev pub set_in : ℕ → Bool → Option ZkClient → World → World
set_in h on none w = w
set_in h on (some c) w = record w {
  manager = update_client h (set_is_support_reconnect on c) w.manager;
}

-- `none`: an assertion fails, a function stays blocked, no retry is pending, or the handles would wrap.
abbrev pub step : Event → World → Option World
step (creates a zh ds memory) w =
    if ltb (w.manager.next_handle + 1) (2 ^ 32)
    then created (bump_handle w.manager.next_handle) (create_zk_client a zh ds memory w.manager) w
    else none
step (destroys h) w = some (record w { manager = destroy_client h w.manager })
step (checks h now) w =
    let (m, acts) = check_session_state h now w.manager in
    some (acted h (counted (w.counter h).pending 0 acts (w.counter h)) m w)
step (retries h zh ds) w = fired h (w.counter h).pending zh ds w
step (watches h type e) w = watched_in (session_watcher h type e w.manager) w
step (sets h on) w = some (set_in h on (get_zk_client h w.manager) w)

unfoldable pub run : List Event → World → Option World
unfolding follow create_zk_client destroy_client check_session_state retry session_watcher
    get_zk_client update_client bump_handle new_manager
run events w = follow step events w
