-- ===== src/Session/Outage.antt =====
-- The session of one initialised client over any course of events: checks of the first thread,
-- retries of the second one, session events of the C library, and a user who switches reconnecting
-- on and off.
use zookeeper_cpp_client.Common.{
  ℕ, suc, ◌+◌, ◌≤◌, ◌≡◌, ap, ◌∙◌, Bool, true, List, ◌++◌, subst, Option, none, some, arith,
}
use zookeeper_cpp_client.Client.{ZkClient, set_is_support_reconnect}
use zookeeper_cpp_client.Task.{Action, count, count-append, one, one-le, is_retry, is_expired_call}
use zookeeper_cpp_client.Session.{
  Happening, Deliveries, Outcome, happen, reconnect, after_reconnect, retry, succeeded,
  then_after_reconnect,
}
use zookeeper_cpp_client.Session.Delivery.{
  IsPaced, Balance, Balanced, happen-Balance, await_session-Balanced,
}

-- A client, the retry timers that are set and have not fired, the calls of the user's expired
-- handler so far and the retries that have succeeded.
pub record Course : Type 0 where
  pub client : ZkClient
  pub pending : ℕ
  pub calls : ℕ
  pub reconnects : ℕ

abbrev pub after : Course → ℕ → ℕ → ZkClient → List Action → Course
after s left again c acts = record {
  client = c;
  pending = left + count is_retry acts;
  calls = s.calls + count is_expired_call acts;
  reconnects = s.reconnects + again;
}

pub data Step (s : Course) : Course → Type 0 where
  happens :
      (h : Happening) → Step s (after s s.pending 0 (happen h s.client).0 (happen h s.client).1)
  retry_fires :
      (left : ℕ) (zh : Option ℕ) (d : Deliveries) (again : Bool) (c : ZkClient) (acts : List Action)
      → s.pending ≡ suc left
      → retry zh d s.client ≡ some (again, c, acts)
      → Step s (after s left (one again) c acts)
  user_sets : (on : Bool) → Step s (record s { client = set_is_support_reconnect on s.client })

pub data Reach (s : Course) : Course → Type 0 where
  here : Reach s s
  next : {t u : Course} → Reach s t → Step t u → Reach s u

pub record Inv (s : Course) : Type 0 where
  pub one_pending : s.pending ≤ one s.client.is_retrying
  pub one_call : s.calls ≤ s.reconnects + one s.client.has_call_timeout_fun
  pub paced : IsPaced s.client
  pub initialized : s.client.is_initialized ≡ true

-- What a retry does, in the same numbers: the flag covers the timer that is set, if any, and a
-- success forgets that the user's handler was called.
record Retried (c d : ZkClient) (again : Bool) (acts : List Action) : Type 0 where
  timers : c.is_retrying ≡ true → count is_retry acts ≤ one d.is_retrying
  calls :
      count is_expired_call acts + one c.has_call_timeout_fun
      ≤ one again + one d.has_call_timeout_fun
  paced : IsPaced c → IsPaced d
  initialized : d.is_initialized ≡ c.is_initialized

abbrev Retries : ZkClient → Outcome → Type 0
Retries c none = Unit
Retries c (some (again, d, acts)) = Retried c d again acts

after_reconnect-Retried :
    (again : Bool) (c d : ZkClient) (acts : List Action)
    → Balance c d acts
    → Retried c (after_reconnect again d).0 again (acts ++ (after_reconnect again d).1)
unfolding after_reconnect
after_reconnect-Retried again c d acts b =
    let more = (after_reconnect again d).1 in
    ground (
      arith,
      one-le d.is_retrying,
      one-le d.has_call_timeout_fun,
      count-append is_retry acts more,
      count-append is_expired_call acts more,
      b.paced,
    )

abbrev pub Reconnects : ZkClient → Outcome → Type 0
Reconnects c none = Unit
Reconnects c (some (again, d, acts)) = Balance c d acts

set_zhandle-Balance :
    {c d : ZkClient} {acts : List Action} (z : Option ℕ)
    → Balance (record c { zhandle = z }) d acts
    → Balance c d acts
set_zhandle-Balance z b = record {
  retries = b.retries;
  calls = b.calls;
  paced = b.paced;
  initialized = b.initialized;
  handle = b.handle;
  support = b.support;
  held = b.held;
}

succeeded-Reconnects :
    (c : ZkClient) (z : Option ℕ) (r : Option (ZkClient × List Action))
    → Balanced (record c { zhandle = z }) r
    → Reconnects c (succeeded r)
succeeded-Reconnects c z none b = tt
succeeded-Reconnects c z (some (d, acts)) b = set_zhandle-Balance z b

pub reconnect-Reconnects :
    (zh : Option ℕ) (d : Deliveries) (c : ZkClient) → Reconnects c (reconnect zh d c)
unfolding reconnect
reconnect-Reconnects none d c = ground arith
reconnect-Reconnects (some z) d c =
    succeeded-Reconnects c (some z) _ (await_session-Balanced d (record c { zhandle = some z }))

then_after_reconnect-Retries :
    (c : ZkClient) (r : Outcome) → Reconnects c r → Retries c (then_after_reconnect r)
unfolding then_after_reconnect
then_after_reconnect-Retries c none b = tt
then_after_reconnect-Retries c (some (again, d, acts)) b = after_reconnect-Retried again c d acts b

retry-Retries : (zh : Option ℕ) (d : Deliveries) (c : ZkClient) → Retries c (retry zh d c)
unfolding retry
retry-Retries zh d c =
    then_after_reconnect-Retries c (reconnect zh d c) (reconnect-Reconnects zh d c)

Step-Inv : {s t : Course} → Inv s → Step s t → Inv t
Step-Inv {s} v (happens h) =
    let b = happen-Balance h s.client in
    record {
      one_pending = omega (arith, b.retries);
      one_call = omega (arith, b.calls);
      paced = b.paced v.paced;
      initialized = b.initialized ∙ v.initialized;
    }
Step-Inv {s} v (retry_fires left zh d again c acts e r) =
    let b : Retried s.client c again acts =
      subst (Retries s.client) r (retry-Retries zh d s.client) in
    let flag : s.client.is_retrying ≡ true = ground arith in
    record {
      one_pending = omega (arith, b.timers flag, ap one flag);
      one_call = omega (arith, b.calls);
      paced = b.paced v.paced;
      initialized = b.initialized ∙ v.initialized;
    }
Step-Inv v (user_sets on) = ground arith

-- However checks, retries, session events and the user's switch follow one another, at most one
-- retry timer is pending, the user's handler has been called at most once more than a retry has
-- succeeded, and the next delay stays between 5 and 600 seconds.
pub Reach-Inv : {s t : Course} → Inv s → Reach s t → Inv t
Reach-Inv v here = v
Reach-Inv v (next r st) = Step-Inv (Reach-Inv v r) st
