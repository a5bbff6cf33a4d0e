-- ===== src/Examples/Sessions.antt =====
-- The life of one client: its start, an outage, and retries.
use zookeeper_cpp_client.Common.{
  ◌+◌, ◌*◌, ◌^◌, min, ◌≤◌, ◌≡◌, ◌≢◌, inl, refl, true, false, List, [], ◌∷◌, ◌++◌, none, some, arith,
}
use zookeeper_cpp_client.Codes.{connected, connecting, expired_session, max_retry_delay}
use zookeeper_cpp_client.Client.{ZkClient, new_client, SessionClientId}
use zookeeper_cpp_client.Client.Passwd.{get_client_id, get_client_id_truncates}
use zookeeper_cpp_client.Task.{run_after, first_thread, check_task}
use zookeeper_cpp_client.Session.{
  SessionEvent, Deliveries, session_event_arrives, check_fires, InitArgs, happen, Moment, occurs,
  retests, retry, reconnect, check_session_state, init,
}
use zookeeper_cpp_client.Session.Outage.{Course, after, happens, here, next}
use zookeeper_cpp_client.Session.Start.{begun, session_course}
use zookeeper_cpp_client.Session.Waits.{around, waiting, waits_end}
use zookeeper_cpp_client.Session.Backoff.{none_yet, one_more, next_retry, retry_delay-Failures}
use zookeeper_cpp_client.Session.Reconnect.{undisturbed, reconnect-check_stale}

abbrev pub args : InitArgs
args = record {
  host = [];
  timeout = 30000;
  client_id = none;
  expired_handler = some 7;
  context = 0;
}

abbrev pub answer : SessionEvent → Deliveries
answer e = record { early = []; batches = (session_event_arrives e ∷ []) ∷ []; late = [] }

abbrev pub connects : SessionEvent
connects = record { state = connected; recv_timeout = 20000; now = 100 }

abbrev pub loses : SessionEvent
loses = record { state = connecting; recv_timeout = 20000; now = 5000 }

unfoldable pub up_client : ZkClient
unfolding new_client
up_client = record (new_client 2 0) {
  is_initialized = true;
  session_timeout = 20000;
  expired_handler = some 7;
  zhandle = some 3;
  session_state = connected;
}

-- The connection is lost, and the client expires.
abbrev lost : Course
lost =
    let (c, acts) = happen (session_event_arrives loses) up_client in
    after (begun up_client) 0 0 c acts

abbrev expired : Course
expired = let (c, acts) = happen (check_fires 90000) lost.client in after lost lost.pending 0 c acts

session_course_example :
    (expired.pending ≤ 1)
    × (expired.calls ≤ expired.reconnects + 1)
    × (5 ≤ expired.client.retry_delay)
    × (expired.client.retry_delay ≤ 600)
unfolding init up_client
session_course_example =
    session_course args (some 3) (answer connects) 2 0 {c = up_client}
      {acts = run_after first_thread 10 (check_task 2) ∷ []} {t = expired} refl
      (next (next here (happens (session_event_arrives loses))) (happens (check_fires 90000)))

unfoldable waiting_client : ZkClient
unfolding up_client
waiting_client = record up_client {
  session_state = expired_session;
  is_retrying = true;
  retry_delay = 10;
}

unfoldable failed_client : ZkClient
unfolding waiting_client
failed_client = record waiting_client { zhandle = none; retry_delay = 20 }

retry_delay-Failures_example :
    failed_client.retry_delay ≡ min (waiting_client.retry_delay * 2 ^ 1) max_retry_delay
unfolding retry failed_client
retry_delay-Failures_example =
    retry_delay-Failures {c = waiting_client} {d = failed_client} {n = 1} (refl, refl) (omega arith)
      (one_more none (answer loses) failed_client (next_retry waiting_client ∷ []) none_yet refl)

reconnect-check_stale_example :
    reconnect
      (some 4)
      (undisturbed ((session_event_arrives connects ∷ []) ∷ []))
      (check_session_state waiting_client 90000).0
    ≡ some (false, record (check_session_state waiting_client 90000).0 { zhandle = some 4 }, [])
unfolding waiting_client check_session_state
reconnect-check_stale_example =
    reconnect-check_stale waiting_client 90000 4 ((session_event_arrives connects ∷ []) ∷ []) refl

abbrev id : SessionClientId
id = record {
  client_id = 9;
  passwd = 5 ∷ 0 ∷ 6 ∷ 7 ∷ 8 ∷ 1 ∷ 1 ∷ 1 ∷ 1 ∷ 1 ∷ 1 ∷ 1 ∷ 1 ∷ 1 ∷ 1 ∷ 1 ∷ [];
}

get_client_id_truncates_example :
    get_client_id up_client (some id)
    ≡ some (record id {
      passwd = (5 ∷ []) ++ 0 ∷ 0 ∷ 0 ∷ 0 ∷ 0 ∷ 0 ∷ 0 ∷ 0 ∷ 0 ∷ 0 ∷ 0 ∷ 0 ∷ 0 ∷ 0 ∷ 0 ∷ [];
    })
unfolding up_client get_client_id
get_client_id_truncates_example =
    get_client_id_truncates up_client id (5 ∷ [])
      (6 ∷ 7 ∷ 8 ∷ 1 ∷ 1 ∷ 1 ∷ 1 ∷ 1 ∷ 1 ∷ 1 ∷ 1 ∷ 1 ∷ 1 ∷ 1 ∷ []) refl refl refl (λ h. cc, tt)

-- A loss that wakes nobody, the event that does, a check, and the test.
abbrev loses_then_connects : List Moment
loses_then_connects =
    around (occurs (session_event_arrives loses) ∷ retests ∷ []) connects
      (occurs (check_fires 5) ∷ []) []

waits_end_example :
    (init args (some 3) (waiting [] loses_then_connects []) up_client ≢ none)
    × (retry (some 3) (waiting [] loses_then_connects []) up_client ≢ none)
waits_end_example =
    waits_end [] [] (occurs (session_event_arrives loses) ∷ retests ∷ [])
      (occurs (check_fires 5) ∷ []) [] connects args (some 3) up_client (inl refl) (refl, tt)
