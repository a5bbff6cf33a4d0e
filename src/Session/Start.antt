-- ===== src/Session/Start.antt =====
-- From `ZkClient::init` of a new client to the invariant of its session.
use zookeeper_cpp_client.Common.{
  ℕ, ◌+◌, ◌≤◌, ◌≡◌, refl, subst, true, false, List, [], ◌∷◌, ◌++◌, Option, none, some, arith,
  if_cases, if_split,
}
use zookeeper_cpp_client.Codes.{is_expired_state}
use zookeeper_cpp_client.Client.{ZkClient, new_client}
use zookeeper_cpp_client.Task.{Action, run_after, first_thread, check_task, one-le}
use zookeeper_cpp_client.Session.{
  SessionEvent, session_event_arrives, check_fires, Happening, Deliveries, InitArgs, Outcome,
  watch_session, happen, deliver, prefixed, is_settled, wait_session, then_deliver, await_session,
  configure, finish_init, init,
}
use zookeeper_cpp_client.Session.Outage.{Course, Inv, Reach, Reach-Inv}

-- What a client that is not initialised keeps while others act, and that they do nothing for it.
record Quiet (c d : ZkClient) (acts : List Action) : Type 0 where
  silent : acts ≡ []
  uninitialized : d.is_initialized ≡ false
  delay : d.retry_delay ≡ c.retry_delay
  handle : d.handle ≡ c.handle

abbrev Quietly : ZkClient → Option (ZkClient × List Action) → Type 0
Quietly c none = Unit
Quietly c (some (d, acts)) = Quiet c d acts

watch_session-Quiet :
    (e : SessionEvent) (c : ZkClient) → c.is_initialized ≡ false → Quiet c (watch_session e c) []
unfolding watch_session
watch_session-Quiet e c h = ground arith

happen-Quiet :
    (x : Happening) (c : ZkClient)
    → c.is_initialized ≡ false
    → Quiet c (happen x c).0 (happen x c).1
unfolding happen
happen-Quiet (session_event_arrives e) c h = watch_session-Quiet e c h
happen-Quiet (check_fires now) c h = ground arith

Quiet-append :
    {c d e : ZkClient} {xs ys : List Action} → Quiet c d xs → Quiet d e ys → Quiet c e (xs ++ ys)
Quiet-append q r = ground arith

deliver-Quiet :
    (xs : List Happening) (c : ZkClient)
    → c.is_initialized ≡ false
    → Quiet c (deliver xs c).0 (deliver xs c).1
unfolding deliver
deliver-Quiet [] c h = ground arith
deliver-Quiet (x ∷ xs) c h =
    let q = happen-Quiet x c h in Quiet-append q (deliver-Quiet xs (happen x c).0 q.uninitialized)

prefixed-Quietly :
    (c d : ZkClient) (xs : List Action) (r : Option (ZkClient × List Action))
    → Quiet c d xs
    → Quietly d r
    → Quietly c (prefixed xs r)
prefixed-Quietly c d xs none q qr = tt
prefixed-Quietly c d xs (some (e, ys)) q qr = Quiet-append q qr

wait_session-Quietly :
    (bs : List (List Happening)) (c : ZkClient)
    → c.is_initialized ≡ false
    → Quietly c (wait_session bs c)
unfolding wait_session
wait_session-Quietly [] c h = if_cases (Quietly c) (is_settled c) _ _ (ground arith) tt
wait_session-Quietly (b ∷ bs) c h =
    let q = deliver-Quiet b c h in
    if_cases (Quietly c) (is_settled c) _ _ (ground arith)
      (prefixed-Quietly c _ _ _ q (wait_session-Quietly bs (deliver b c).0 q.uninitialized))

then_deliver-Quietly :
    (c : ZkClient) (xs : List Happening) (r : Option (ZkClient × List Action))
    → Quietly c r
    → Quietly c (then_deliver xs r)
unfolding then_deliver
then_deliver-Quietly c xs none q = tt
then_deliver-Quietly c xs (some (d, ys)) q = Quiet-append q (deliver-Quiet xs d q.uninitialized)

await_session-Quietly :
    (d : Deliveries) (c : ZkClient) → c.is_initialized ≡ false → Quietly c (await_session d c)
unfolding await_session
await_session-Quietly d c h =
    let q = deliver-Quiet d.early c h in
    prefixed-Quietly c _ _ _ q (
      then_deliver-Quietly _ d.late _
        (wait_session-Quietly d.batches (deliver d.early c).0 q.uninitialized))

-- The client that init leaves behind a success, and all that it has asked for.
record Started (c d : ZkClient) (acts : List Action) : Type 0 where
  live : is_expired_state d.session_state ≡ false
  idle : d.is_retrying ≡ false
  told : d.has_call_timeout_fun ≡ false
  initialized : d.is_initialized ≡ true
  delay : d.retry_delay ≡ c.retry_delay
  timer : acts ≡ run_after first_thread 10 (check_task c.handle) ∷ []

abbrev Starts : ZkClient → Outcome → Type 0
Starts c none = Unit
Starts c (some (true, d, acts)) = Started c d acts
Starts c (some (false, d, acts)) = (acts ≡ []) × (d.is_initialized ≡ false)

finish_init-Starts :
    (c : ZkClient) (r : Option (ZkClient × List Action)) → Quietly c r → Starts c (finish_init r)
unfolding finish_init
finish_init-Starts c none q = tt
finish_init-Starts c (some (d, acts)) q =
    if_split (Starts c) (is_expired_state d.session_state) _ _ (λ e. (q.silent, q.uninitialized))
      (λ e. record {
        live = e;
        idle = refl;
        told = refl;
        initialized = refl;
        delay = q.delay;
        timer = ground (arith, q.silent, q.handle);
      })

init-Starts :
    (a : InitArgs) (zh : Option ℕ) (ds : Deliveries) (handle memory : ℕ)
    → Starts (new_client handle memory) (init a zh ds (new_client handle memory))
unfolding init configure new_client
init-Starts a none ds handle memory = (refl, refl)
init-Starts a (some z) ds handle memory =
    let c = record (configure a (new_client handle memory)) { zhandle = some z } in
    moved (finish_init (await_session ds c))
      (finish_init-Starts c _ (await_session-Quietly ds c refl))
  where
    moved :
        (r : Outcome)
        → Starts (record (configure a (new_client handle memory)) { zhandle = some z }) r
        → Starts (new_client handle memory) r
    moved none s = tt
    moved (some (true, d, acts)) s = record {
      live = s.live;
      idle = s.idle;
      told = s.told;
      initialized = s.initialized;
      delay = s.delay;
      timer = s.timer;
    }
    moved (some (false, d, acts)) s = s

-- A new client whose init returns true is initialised, has no expired session, and has asked for
-- nothing but one check of its session by the first thread after 10 ms.
pub init_starts_checking :
    (a : InitArgs) (zh : Option ℕ) (ds : Deliveries) (handle memory : ℕ) {c : ZkClient}
    {acts : List Action}
    → init a zh ds (new_client handle memory) ≡ some (true, c, acts)
    → (c.is_initialized ≡ true)
      × (is_expired_state c.session_state ≡ false)
      × (acts ≡ run_after first_thread 10 (check_task handle) ∷ [])
unfolding new_client
init_starts_checking a zh ds handle memory e =
    let s = subst (Starts (new_client handle memory)) e (init-Starts a zh ds handle memory) in
    (s.initialized, s.live, s.timer)

-- When init of a new client returns false, nothing has been asked of the threads or the user, and
-- the client is not initialised.
pub init_fails_silently :
    (a : InitArgs) (zh : Option ℕ) (ds : Deliveries) (handle memory : ℕ) {c : ZkClient}
    {acts : List Action}
    → init a zh ds (new_client handle memory) ≡ some (false, c, acts)
    → (acts ≡ []) × (c.is_initialized ≡ false)
init_fails_silently a zh ds handle memory e =
    subst (Starts (new_client handle memory)) e (init-Starts a zh ds handle memory)

-- The course of a session that init has just begun.
abbrev pub begun : ZkClient → Course
begun c = record { client = c; pending = 0; calls = 0; reconnects = 0 }

-- A successful init of a new client begins the course of its session.
pub begun-Inv :
    (a : InitArgs) (zh : Option ℕ) (ds : Deliveries) (handle memory : ℕ) {c : ZkClient}
    {acts : List Action}
    → init a zh ds (new_client handle memory) ≡ some (true, c, acts)
    → Inv (begun c)
unfolding new_client
begun-Inv a zh ds handle memory {c = c} e =
    let s = subst (Starts (new_client handle memory)) e (init-Starts a zh ds handle memory) in
    fresh c s.idle s.told s.initialized s.delay
  where
    fresh :
        (c : ZkClient)
        → c.is_retrying ≡ false
        → c.has_call_timeout_fun ≡ false
        → c.is_initialized ≡ true
        → c.retry_delay ≡ 5
        → Inv (begun c)
    fresh c i k n h = ground arith

-- From a successful init of a new client on, however checks, retries, session events and the
-- user's switch follow one another: at most one retry timer is pending, the user's handler for an
-- expired session has been called at most once more than retries have succeeded, and the next delay
-- is between 5 and 600 seconds.
pub session_course :
    (a : InitArgs) (zh : Option ℕ) (ds : Deliveries) (handle memory : ℕ) {c : ZkClient}
    {acts : List Action} {t : Course}
    → init a zh ds (new_client handle memory) ≡ some (true, c, acts)
    → Reach (begun c) t
    → (t.pending ≤ 1)
      × (t.calls ≤ t.reconnects + 1)
      × (5 ≤ t.client.retry_delay)
      × (t.client.retry_delay ≤ 600)
session_course a zh ds handle memory {t = t} e r =
    let v = Reach-Inv (begun-Inv a zh ds handle memory e) r in
    (
      omega (arith, v.one_pending, one-le t.client.is_retrying),
      omega (arith, v.one_call, one-le t.client.has_call_timeout_fun),
      v.paced.0,
      v.paced.1,
    )
