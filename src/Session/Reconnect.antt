-- ===== src/Session/Reconnect.antt =====
-- How a retry that the check started meets the session state that the check has written.
use zookeeper_cpp_client.Common.{
  ℕ, ◌+◌, ◌≡◌, refl, true, false, List, [], ◌∷◌, Option, none, some, arith, ltb, if◌then◌else◌,
}
use zookeeper_cpp_client.Codes.{expired_session, is_connected_state, is_expired_state}
use zookeeper_cpp_client.Client.{ZkClient}
use zookeeper_cpp_client.Task.{
  Action, run_after, first_thread, check_task, count, count-append, is_check,
}
use zookeeper_cpp_client.Session.{
  SessionEvent, Happening, Deliveries, watch_session, is_session_expired, call_expired_handler,
  start_retry, expire, check_session_state, wait_session, await_session, reconnect,
}

-- Nothing happens before the first test of the loop, nor behind the loop.
abbrev pub undisturbed : List (List Happening) → Deliveries
undisturbed bs = record { early = []; batches = bs; late = [] }

wait_session_stale :
    (bs : List (List Happening)) (c : ZkClient)
    → c.session_state ≡ expired_session
    → wait_session bs c ≡ some (c, [])
unfolding wait_session
wait_session_stale [] c e = ground arith
wait_session_stale (b ∷ bs) c e = ground arith

reconnect_stale :
    (zh : Option ℕ) (bs : List (List Happening)) (c : ZkClient)
    → c.session_state ≡ expired_session
    → reconnect zh (undisturbed bs) c ≡ some (false, record c { zhandle = zh }, [])
unfolding reconnect await_session
reconnect_stale none bs c e = refl
reconnect_stale (some z) bs c e =
    ground (arith, wait_session_stale bs (record c { zhandle = some z }) e)

session_state-call_expired_handler :
    (c : ZkClient) → (call_expired_handler c).0.session_state ≡ c.session_state
unfolding call_expired_handler
session_state-call_expired_handler c = ground arith

session_state-start_retry : (c : ZkClient) → (start_retry c).0.session_state ≡ c.session_state
unfolding start_retry
session_state-start_retry c = ground arith

session_state-expire : (c : ZkClient) → (expire c).0.session_state ≡ expired_session
unfolding expire
session_state-expire c =
    let c1 = record c { session_state = expired_session } in
    ground (
      arith,
      session_state-call_expired_handler c1,
      session_state-start_retry (call_expired_handler c1).0,
    )

session_state-check :
    (c : ZkClient) (now : ℕ)
    → (check_session_state c now).0.session_state
      ≡ (if is_session_expired c now then expired_session else c.session_state)
unfolding check_session_state
session_state-check c now = ground (arith, session_state-expire c)

-- When a check has found the session expired, a retry that starts before any session event has
-- arrived returns false at once, whatever the events are that would come later and even if
-- zookeeper_init has given it a session handle: the wait loop is left by the expired state that the
-- check itself has written. The handle stays in the client.
pub reconnect-check_stale :
    (c : ZkClient) (now z : ℕ) (bs : List (List Happening))
    → is_session_expired c now ≡ true
    → reconnect (some z) (undisturbed bs) (check_session_state c now).0
      ≡ some (false, record (check_session_state c now).0 { zhandle = some z }, [])
reconnect-check_stale c now z bs e =
    reconnect_stale (some z) bs (check_session_state c now).0
      (ground (arith, session_state-check c now))

checks-expire : (c : ZkClient) → count is_check (expire c).1 ≡ 0
unfolding expire
checks-expire c = ground arith

checks-check : (c : ZkClient) (now : ℕ) → count is_check (check_session_state c now).1 ≡ 1
unfolding check_session_state
checks-check c now = ground (arith, checks-expire c, count-append is_check (expire c).1 (again c))
  where
    again : ZkClient → List Action
    again c = run_after first_thread 10 (check_task c.handle) ∷ []

is_session_expired-watch_session :
    (e : SessionEvent) (c : ZkClient) (now : ℕ)
    → is_connected_state e.state ≡ false
    → is_expired_state e.state ≡ false
    → (is_session_expired (watch_session e c) now ≡ ltb (c.session_timeout + e.now) now)
      × ((watch_session e c).session_state ≡ e.state)
unfolding is_session_expired watch_session
is_session_expired-watch_session e c now h k = ground arith

-- After a session event that is neither a connection nor an expiry, a check finds the session
-- expired exactly when more time than the session timeout has passed since that event, the last
-- one, and leaves the state of the event otherwise. Either way the check's timer is set again once.
check-watch_session :
    (e : SessionEvent) (c : ZkClient) (now : ℕ)
    → is_connected_state e.state ≡ false
    → is_expired_state e.state ≡ false
    → ((check_session_state (watch_session e c) now).0.session_state
        ≡ (if ltb (c.session_timeout + e.now) now then expired_session else e.state))
      × (count is_check (check_session_state (watch_session e c) now).1 ≡ 1)
check-watch_session e c now h k =
    let c1 = watch_session e c in
    (
      ground (arith, session_state-check c1 now, is_session_expired-watch_session e c now h k),
      checks-check c1 now,
    )
