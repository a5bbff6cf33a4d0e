-- ===== src/Examples/Crowd.antt =====
-- Two clients of one manager, of which one loses its connection and expires.
use zookeeper_cpp_client.Common.{◌+◌, ◌≤◌, refl, List, [], ◌∷◌, Option, none, some}
use zookeeper_cpp_client.Common.Std.{nat_ord, find, assign}
use zookeeper_cpp_client.Common.Steps.{follow}
use zookeeper_cpp_client.Codes.{session_event}
use zookeeper_cpp_client.Client.{ZkClient, new_client}
use zookeeper_cpp_client.Session
use zookeeper_cpp_client.Manager.{
  new_manager, bump_handle, get_zk_client, update_client, create_zk_client, begin_create,
  end_create, check_session_state, retry, session_watcher,
}
use zookeeper_cpp_client.Manager.Courses.{
  World, Event, creates, checks, retries, watches, new_world, run,
}
use zookeeper_cpp_client.Manager.Courses.Always.{manager_course}
use zookeeper_cpp_client.Examples.Sessions.{args, answer, connects, loses}

abbrev some_events : List Event
some_events =
    creates args (some 3) (answer connects) 0
    ∷ creates args (some 4) (answer connects) 0
    ∷ watches 2 session_event loses
    ∷ checks 2 90000
    ∷ retries 2 none (answer connects)
    ∷ checks 3 90100
    ∷ []

abbrev or_new : Option World → World
or_new none = new_world
or_new (some w) = w

abbrev troubled : World
troubled = or_new (run some_events new_world)

abbrev or_empty : Option ZkClient → ZkClient
or_empty none = new_client 0 0
or_empty (some c) = c

abbrev retrying : ZkClient
retrying = or_empty (get_zk_client 2 troubled.manager)

manager_course_example :
    ((troubled.counter 2).pending ≤ 1)
    × ((troubled.counter 2).calls ≤ (troubled.counter 2).reconnects + 1)
    × (5 ≤ retrying.retry_delay)
    × (retrying.retry_delay ≤ 600)
unfolding run follow new_manager bump_handle get_zk_client update_client create_zk_client
    begin_create end_create check_session_state retry session_watcher new_client find assign
    Session.init Session.retry Session.check_session_state Session.watch_session
manager_course_example = manager_course some_events troubled 2 retrying refl refl
