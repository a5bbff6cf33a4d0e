-- ===== src/Manager/Courses/Steps.antt =====
-- Checks, retries, session events and the user's switch keep what holds of every client.
use zookeeper_cpp_client.Common.{
  ℕ, zero, suc, ◌≡◌, refl, ap, ◌∙◌, sym, subst, Bool, true, List, [], Option, none, some, arith,
}
use zookeeper_cpp_client.Common.Std.{nat_ord}
use zookeeper_cpp_client.Common.Steps.{Leads}
use zookeeper_cpp_client.Client.{ZkClient, set_is_support_reconnect}
use zookeeper_cpp_client.Task.{Action, one}
use zookeeper_cpp_client.Session
use zookeeper_cpp_client.Session.{
  SessionEvent, session_event_arrives, check_fires, Happening, Deliveries, InitArgs, Outcome,
  happen, watch_session,
}
use zookeeper_cpp_client.Session.Outage.{
  happens, retry_fires, user_sets, here, next, Inv, Reach-Inv,
}
use zookeeper_cpp_client.Manager.{
  get_any_client, get_zk_client, destroy_client, checked, retry, retried, watched,
}
use zookeeper_cpp_client.Manager.Lookup.{get_zk_client-destroy_client}
use zookeeper_cpp_client.Manager.Courses.{
  Counter, World, course_of, counted, acted, again_of, retried_in, fired, watched_in, set_in,
}
use zookeeper_cpp_client.Manager.Courses.Valid.{
  IsValid, get_zk_client-some, acted-IsValid, idle-IsValid, set-IsValid,
}

happened-Inv :
    (x : Happening) (c : ZkClient) (k : Counter)
    → Inv (course_of k c)
    → Inv (course_of (counted k.pending 0 (happen x c).1 k) (happen x c).0)
happened-Inv x c k v = Reach-Inv v (next here (happens x))

check_fires-happen :
    (c : ZkClient) (now : ℕ)
    → c.is_initialized ≡ true
    → happen (check_fires now) c ≡ Session.check_session_state c now
unfolding happen
check_fires-happen c now i = rw i refl

pub checked-IsValid :
    (h now : ℕ) (o : Option ZkClient) (w : World)
    → IsValid w
    → get_zk_client h w.manager ≡ o
    → let (m, acts) = checked h now w.manager o in
      IsValid (acted h (counted (w.counter h).pending 0 acts (w.counter h)) m w)
checked-IsValid h now none w v e =
    idle-IsValid h _ w v e (λ z. ap (λ k. counted k.pending 0 [] k) z)
checked-IsValid h now (some c) w v e =
    let (f, i) = get_zk_client-some h w.manager c e in
    let (c1, acts) = Session.check_session_state c now in
    acted-IsValid h c c1 (counted (w.counter h).pending 0 acts (w.counter h)) w v f (λ n.
      subst
        (λ (r : ZkClient × List Action).
          Inv (course_of (counted (w.counter h).pending 0 r.1 (w.counter h)) r.0))
        (check_fires-happen c now i)
        (happened-Inv (check_fires now) c (w.counter h) (v.live h c f i)))

retried-Leads :
    (h left : ℕ) (zh : Option ℕ) (ds : Deliveries) (c : ZkClient) (o : Outcome) (w : World)
    → IsValid w
    → get_any_client h w.manager ≡ some c
    → c.is_initialized ≡ true
    → (w.counter h).pending ≡ suc left
    → Session.retry zh ds c ≡ o
    → Leads IsValid (retried_in h left (one (again_of o)) (retried h w.manager o) w)
retried-Leads h left zh ds c none w v f i p e = tt
retried-Leads h left zh ds c (some (again, c1, acts)) w v f i p e =
    acted-IsValid h c c1 _ w v f
      (λ n. Reach-Inv (v.live h c f i) (next here (retry_fires left zh ds again c1 acts p e)))

pub fired-Leads :
    (h p : ℕ) (zh : Option ℕ) (ds : Deliveries) (o : Option ZkClient) (w : World)
    → IsValid w
    → (w.counter h).pending ≡ p
    → get_zk_client h w.manager ≡ o
    → Leads IsValid (fired h p zh ds w)
unfolding retry
fired-Leads h zero zh ds o w v p e = tt
fired-Leads h (suc left) zh ds none w v p e = rw e (idle-IsValid h _ w v e (λ z. cc (z, p)))
fired-Leads h (suc left) zh ds (some c) w v p e =
    let (f, i) = get_zk_client-some h w.manager c e in
    rw e (retried-Leads h left zh ds c (Session.retry zh ds c) w v f i p refl)

pub set_in-IsValid :
    (h : ℕ) (on : Bool) (o : Option ZkClient) (w : World)
    → IsValid w
    → get_zk_client h w.manager ≡ o
    → IsValid (set_in h on o w)
set_in-IsValid h on none w v e = v
set_in-IsValid h on (some c) w v e =
    let (f, i) = get_zk_client-some h w.manager c e in
    set-IsValid h c (set_is_support_reconnect on c) w v f
      (λ n. Reach-Inv (v.live h c f i) (next here (user_sets on)))

watch_session_initialized :
    (e : SessionEvent) (c : ZkClient) → (watch_session e c).is_initialized ≡ c.is_initialized
unfolding watch_session
watch_session_initialized e c = ground arith

watch_session-Inv :
    (e : SessionEvent) (c : ZkClient) (k : Counter)
    → Inv (course_of k c)
    → Inv (course_of k (watch_session e c))
unfolding happen
watch_session-Inv e c k v =
    let i = happened-Inv (session_event_arrives e) c k v in
    record {
      one_pending = omega (arith, i.one_pending);
      one_call = omega (arith, i.one_call);
      paced = i.paced;
      initialized = i.initialized;
    }

pub watched-IsValid :
    (h : ℕ) (e : SessionEvent) (o : Option ZkClient) (w : World)
    → IsValid w
    → get_any_client h w.manager ≡ o
    → Leads IsValid (watched_in (some (watched h e w.manager o)) w)
watched-IsValid h e none w v f = v
watched-IsValid h e (some c) w v f = set-IsValid h c (watch_session e c) w v f (λ n.
    watch_session-Inv e c (w.counter h) (v.live h c f (sym (watch_session_initialized e c) ∙ n)))

pub destroyed-IsValid :
    (h : ℕ) (w : World) → IsValid w → IsValid (record w { manager = destroy_client h w.manager })
unfolding destroy_client
destroyed-IsValid h w v =
    let found = λ (j : ℕ). (get_zk_client-destroy_client h j w.manager).1 in
    record {
      live = λ j c x i. v.live j c (ground (arith, x, found j)) i;
      bounded = λ j c x. v.bounded j c (ground (arith, x, found j));
      fresh = v.fresh;
    }
