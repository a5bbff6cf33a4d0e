-- ===== src/Session/Delivery.antt =====
-- What a step of the first thread or of the C library's thread does to a client, in numbers: the
-- flags count the retries that are set and the calls of the user's handler.
use zookeeper_cpp_client.Common.{
  ℕ, ◌+◌, ◌≤◌, ◌≡◌, true, List, [], ◌∷◌, ◌++◌, Option, none, some, arith, if_cases, ◌∙◌, Bool-cases,
  inl, inr,
}
use zookeeper_cpp_client.Codes.{expired_session, max_retry_delay, init_retry_delay}
use zookeeper_cpp_client.Client.{ZkClient, set_sess_stat}
use zookeeper_cpp_client.Task.{
  Action, run_after, first_thread, check_task, count, count-append, one, is_retry, is_expired_call,
}
use zookeeper_cpp_client.Session.{
  SessionEvent, Happening, session_event_arrives, check_fires, Deliveries, watch_session,
  call_expired_handler, start_retry, expire, check_session_state, happen, deliver, wait_session,
  await_session, is_session_expired, prefixed, is_settled, then_deliver,
}

abbrev pub IsPaced : ZkClient → Type 0
IsPaced c = (init_retry_delay ≤ c.retry_delay) × (c.retry_delay ≤ max_retry_delay)

pub record Balance (c d : ZkClient) (acts : List Action) : Type 0 where
  pub retries : count is_retry acts + one c.is_retrying ≡ one d.is_retrying
  pub calls : count is_expired_call acts + one c.has_call_timeout_fun ≡ one d.has_call_timeout_fun
  pub paced : IsPaced c → IsPaced d
  pub initialized : d.is_initialized ≡ c.is_initialized
  pub handle : d.handle ≡ c.handle
  pub support : d.is_support_reconnect ≡ c.is_support_reconnect
  pub held : c.is_retrying ≡ true → d.retry_delay ≡ c.retry_delay

Balance-nothing : (c : ZkClient) → Balance c c []
Balance-nothing c = ground arith

-- A pending retry stays pending.
pub Balance-retrying :
    {c d : ZkClient} {acts : List Action}
    → Balance c d acts
    → c.is_retrying ≡ true
    → d.is_retrying ≡ true
Balance-retrying b e = ground (arith, b.retries)

pub Balance-append :
    {c d e : ZkClient} (xs ys : List Action)
    → Balance c d xs
    → Balance d e ys
    → Balance c e (xs ++ ys)
Balance-append xs ys b b' = record {
  retries = omega (arith, b.retries, b'.retries, count-append is_retry xs ys);
  calls = omega (arith, b.calls, b'.calls, count-append is_expired_call xs ys);
  paced = λ p. b'.paced (b.paced p);
  initialized = cc (b.initialized, b'.initialized);
  handle = cc (b.handle, b'.handle);
  support = cc (b.support, b'.support);
  held = λ e. b'.held (Balance-retrying b e) ∙ b.held e;
}

watch_session-Balance : (e : SessionEvent) (c : ZkClient) → Balance c (watch_session e c) []
unfolding watch_session
watch_session-Balance e c = ground arith

call_expired_handler-Balance :
    (c : ZkClient) → Balance c (call_expired_handler c).0 (call_expired_handler c).1
unfolding call_expired_handler
call_expired_handler-Balance c = ground arith

start_retry-Balance : (c : ZkClient) → Balance c (start_retry c).0 (start_retry c).1
unfolding start_retry
start_retry-Balance c = ground arith

expire-Balance : (c : ZkClient) → Balance c (expire c).0 (expire c).1
unfolding expire
expire-Balance c =
    let c1 = set_sess_stat expired_session c in
    let rest =
      Balance-append (call_expired_handler c1).1 _ (call_expired_handler-Balance c1)
        (start_retry-Balance (call_expired_handler c1).0) in
    record {
      retries = rest.retries;
      calls = rest.calls;
      paced = rest.paced;
      initialized = rest.initialized;
      handle = rest.handle;
      support = rest.support;
      held = rest.held;
    }

-- The timer of the check itself changes neither number.
again-Balance :
    (c d : ZkClient) (acts : List Action) (h : ℕ)
    → Balance c d acts
    → Balance c d (acts ++ run_after first_thread 10 (check_task h) ∷ [])
again-Balance c d acts h b = Balance-append acts _ b (ground arith)

check_session_state-Balance :
    (c : ZkClient) (now : ℕ) → Balance c (check_session_state c now).0 (check_session_state c now).1
unfolding check_session_state
check_session_state-Balance c now = elim (Bool-cases (is_session_expired c now)) [
  | inl e ↦ rw e (again-Balance c _ _ c.handle (expire-Balance c))
  | inr e ↦ rw e (again-Balance c c [] c.handle (Balance-nothing c))
]

pub happen-Balance : (h : Happening) (c : ZkClient) → Balance c (happen h c).0 (happen h c).1
unfolding happen
happen-Balance (session_event_arrives e) c = watch_session-Balance e c
happen-Balance (check_fires now) c =
    if_cases (λ r. Balance c r.0 r.1) c.is_initialized (check_session_state c now) (c, [])
      (check_session_state-Balance c now) (Balance-nothing c)

pub deliver-Balance :
    (hs : List Happening) (c : ZkClient) → Balance c (deliver hs c).0 (deliver hs c).1
unfolding deliver
deliver-Balance [] c = Balance-nothing c
deliver-Balance (h ∷ hs) c =
    Balance-append (happen h c).1 _ (happen-Balance h c) (deliver-Balance hs (happen h c).0)

abbrev pub Balanced : ZkClient → Option (ZkClient × List Action) → Type 0
Balanced c none = Unit
Balanced c (some (d, acts)) = Balance c d acts

prefixed-Balanced :
    {c d : ZkClient} (acts : List Action) (r : Option (ZkClient × List Action))
    → Balance c d acts
    → Balanced d r
    → Balanced c (prefixed acts r)
prefixed-Balanced acts none b br = tt
prefixed-Balanced acts (some (e, bs)) b br = Balance-append acts bs b br

wait_session-Balanced : (bs : List (List Happening)) (c : ZkClient) → Balanced c (wait_session bs c)
unfolding wait_session
wait_session-Balanced [] c = if_cases (Balanced c) (is_settled c) _ _ (Balance-nothing c) tt
wait_session-Balanced (b ∷ bs) c = if_cases (Balanced c) (is_settled c) _ _ (Balance-nothing c) (
    prefixed-Balanced (deliver b c).1 _ (deliver-Balance b c)
      (wait_session-Balanced bs (deliver b c).0))

then_deliver-Balanced :
    (c : ZkClient) (hs : List Happening) (r : Option (ZkClient × List Action))
    → Balanced c r
    → Balanced c (then_deliver hs r)
unfolding then_deliver
then_deliver-Balanced c hs none b = tt
then_deliver-Balanced c hs (some (d, bs)) b = Balance-append bs _ b (deliver-Balance hs d)

pub await_session-Balanced : (d : Deliveries) (c : ZkClient) → Balanced c (await_session d c)
unfolding await_session
await_session-Balanced d c =
    prefixed-Balanced (deliver d.early c).1 _ (deliver-Balance d.early c)
      (then_deliver-Balanced _ d.late _ (wait_session-Balanced d.batches (deliver d.early c).0))
