-- ===== src/Manager/Courses/Always.antt =====
-- What holds of every client over any course of events.
use zookeeper_cpp_client.Common.{
  ℕ, ◌+◌, ◌≤◌, ◌^◌, ◌≡◌, refl, subst, List, none, some, arith, ltb, ◌==◌, if_split,
}
use zookeeper_cpp_client.Common.Std.{nat_ord, find}
use zookeeper_cpp_client.Common.Steps.{Leads, follow-Leads}
use zookeeper_cpp_client.Codes.{is_session_event}
use zookeeper_cpp_client.Client.{ZkClient, new_client}
use zookeeper_cpp_client.Task.{one-le}
use zookeeper_cpp_client.Session
use zookeeper_cpp_client.Session.{
  SessionEvent, session_event_arrives, check_fires, Happening, Deliveries, InitArgs, Outcome,
  happen, watch_session,
}
use zookeeper_cpp_client.Manager.{
  new_manager, bump_handle, get_any_client, get_zk_client, begin_create, create_zk_client,
  check_session_state, session_watcher,
}
use zookeeper_cpp_client.Manager.Courses.{
  World, Event, creates, destroys, checks, retries, watches, sets, new_world, watched_in, step, run,
}
use zookeeper_cpp_client.Manager.Courses.Valid.{IsValid, get_zk_client-some}
use zookeeper_cpp_client.Manager.Courses.Steps.{
  checked-IsValid, fired-Leads, set_in-IsValid, watched-IsValid, destroyed-IsValid,
}
use zookeeper_cpp_client.Manager.Courses.Making.{ended-Leads}

step-Leads : (e : Event) (w : World) → IsValid w → Leads IsValid (step e w)
unfolding create_zk_client begin_create check_session_state session_watcher
step-Leads (creates a zh ds memory) w v =
    if_split (Leads IsValid) (ltb (w.manager.next_handle + 1) (2 ^ 32)) _ none
      (λ x.
        ended-Leads memory w v (ground (arith, x)) a zh ds
          (Session.init a zh ds (new_client (bump_handle w.manager.next_handle) memory)) refl)
      (λ x. tt)
step-Leads (destroys h) w v = destroyed-IsValid h w v
step-Leads (checks h now) w v = checked-IsValid h now (get_zk_client h w.manager) w v refl
step-Leads (retries h zh ds) w v =
    fired-Leads h (w.counter h).pending zh ds (get_zk_client h w.manager) w v refl refl
step-Leads (watches h type e) w v =
    if_split (λ o. Leads IsValid (watched_in o w)) (is_session_event type) _ _
      (λ x.
        if_split (λ o. Leads IsValid (watched_in o w)) (h == 0) none _ (λ y. tt)
          (λ y. watched-IsValid h e (get_any_client h w.manager) w v refl))
      (λ x. v)
step-Leads (sets h on) w v = set_in-IsValid h on (get_zk_client h w.manager) w v refl

new_world-IsValid : IsValid new_world
unfolding new_manager get_any_client find
new_world-IsValid = record { live = λ h c x i. cc x; bounded = λ h c x. cc x; fresh = λ h l. refl }

run-Leads : (events : List Event) → Leads IsValid (run events new_world)
unfolding run
run-Leads events = follow-Leads IsValid step step-Leads events new_world new_world-IsValid

-- Over every course of events of a new manager, with any number of clients that are made, fail to
-- connect, expire, retry and are destroyed in any order, before the handles wrap around: of each
-- client that getZkClient finds, at most one retry timer is pending, the user's handler for an expired
-- session has been called at most once more than a retry has succeeded, and the next delay is between
-- 5 and 600 seconds.
pub manager_course :
    (events : List Event) (w : World) (h : ℕ) (c : ZkClient)
    → run events new_world ≡ some w
    → get_zk_client h w.manager ≡ some c
    → ((w.counter h).pending ≤ 1)
      × ((w.counter h).calls ≤ (w.counter h).reconnects + 1)
      × (5 ≤ c.retry_delay)
      × (c.retry_delay ≤ 600)
manager_course events w h c e f =
    let v = subst (Leads IsValid) e (run-Leads events) in
    let (found, i) = get_zk_client-some h w.manager c f in
    let k = v.live h c found i in
    (
      omega (arith, k.one_pending, one-le c.is_retrying),
      omega (arith, k.one_call, one-le c.has_call_timeout_fun),
      k.paced.0,
      k.paced.1,
    )
