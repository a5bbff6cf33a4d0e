-- ===== src/Session/Waits.antt =====
-- The wait for the session in `ZkClient::init` and `ZkClient::reconnect`, whose thread tests again when
-- sessionWatcher has notified it or it woke for no reason.
use zookeeper_cpp_client.Common.{
  ℕ, ◌≡◌, ◌≢◌, refl, sym, subst, ◌⊎◌, Bool, true, false, List, [], ◌∷◌, ◌++◌, Option, none, some,
  arith, ◌||◌, All,
}
use zookeeper_cpp_client.Codes.{is_connected_state, is_expired_state, SessState}
use zookeeper_cpp_client.Client.{ZkClient}
use zookeeper_cpp_client.Task.{Action}
use zookeeper_cpp_client.Session.{
  SessionEvent, notifies, Happening, session_event_arrives, check_fires, happen, deliver,
  Deliveries, Moment, occurs, spurious, retests, wakes, batches_of, is_settled, prefixed,
  wait_session, then_deliver, await_session, succeeded, reconnect, retry, then_after_reconnect,
  InitArgs, finish_init, init,
}

abbrev settles : SessState → Bool
settles s = is_connected_state s || is_expired_state s

-- What leaves a settled session settled.
abbrev pub keeps_settled : Moment → Bool
keeps_settled (occurs (session_event_arrives e)) = settles e.state
keeps_settled _ = true

deliver_append :
    (hs : List Happening) (h : Happening) (c : ZkClient)
    → (deliver (hs ++ h ∷ []) c).0 ≡ (happen h (deliver hs c).0).0
unfolding deliver happen
deliver_append [] h c = refl
deliver_append (x ∷ hs) h c = deliver_append hs h (happen x c).0

settled-event :
    (hs : List Happening) (e : SessionEvent) (c : ZkClient)
    → settles e.state ≡ true
    → is_settled (deliver (hs ++ session_event_arrives e ∷ []) c).0 ≡ true
unfolding happen
settled-event hs e c h = rw (deliver_append hs (session_event_arrives e) c) (ground (arith, h))

settled-happen :
    (h : Happening) (c : ZkClient)
    → keeps_settled (occurs h) ≡ true
    → is_settled c ≡ true
    → is_settled (happen h c).0 ≡ true
unfolding happen
settled-happen (session_event_arrives e) c k s = ground (arith, k)
settled-happen (check_fires now) c k s = ground (arith, s)

settled-deliver :
    (hs : List Happening) (h : Happening) (c : ZkClient)
    → keeps_settled (occurs h) ≡ true
    → is_settled (deliver hs c).0 ≡ true
    → is_settled (deliver (hs ++ h ∷ []) c).0 ≡ true
settled-deliver hs h c k s = rw (deliver_append hs h c) (settled-happen h (deliver hs c).0 k s)

prefixed-some :
    (acts : List Action) (o : Option (ZkClient × List Action)) → o ≢ none → prefixed acts o ≢ none
prefixed-some acts none h = absurd (h refl)
prefixed-some acts (some r) h = λ x. cc

settled_returns :
    (bs : List (List Happening)) (c : ZkClient) → is_settled c ≡ true → wait_session bs c ≢ none
unfolding wait_session
settled_returns [] c h = ground (arith, h)
settled_returns (b ∷ bs) c h = ground (arith, h)

next_batch :
    (b : List Happening) (bs : List (List Happening)) (c : ZkClient)
    → wait_session bs (deliver b c).0 ≢ none
    → wait_session (b ∷ bs) c ≢ none
unfolding wait_session
next_batch b bs c h =
    ground (arith, prefixed-some (deliver b c).1 (wait_session bs (deliver b c).0) h)

-- A thread that was woken tests again with the session still settled.
woken_returns :
    (quiet rest : List Moment) (hs : List Happening) (c : ZkClient)
    → All (λ m. keeps_settled m ≡ true) quiet
    → is_settled (deliver hs c).0 ≡ true
    → wait_session (batches_of hs true (quiet ++ retests ∷ rest)) c ≢ none
unfolding batches_of
woken_returns [] rest hs c k s = next_batch hs _ c (settled_returns _ (deliver hs c).0 s)
woken_returns (occurs h ∷ ms) rest hs c k s =
    woken_returns ms rest (hs ++ h ∷ []) c k.1 (settled-deliver hs h c k.0 s)
woken_returns (spurious ∷ ms) rest hs c k s = woken_returns ms rest hs c k.1 s
woken_returns (retests ∷ ms) rest hs c k s =
    next_batch hs _ c (settled_returns _ (deliver hs c).0 s)

settling_wakes : (e : SessionEvent) → settles e.state ≡ true → notifies e ≡ true
unfolding notifies
settling_wakes e h = ground (arith, h)

or_true : (b d : Bool) → d ≡ true → (b || d) ≡ true
or_true b d h = ground arith

-- What happens while the thread waits: anything, an event, what leaves the session settled, and then
-- the thread has the mutex.
abbrev pub around : List Moment → SessionEvent → List Moment → List Moment → List Moment
around before e quiet rest = before ++ occurs (session_event_arrives e) ∷ quiet ++ retests ∷ rest

wait_session_ends :
    (before : List Moment) (e : SessionEvent) (quiet rest : List Moment) (hs : List Happening)
    (woken : Bool) (c : ZkClient)
    → settles e.state ≡ true
    → All (λ m. keeps_settled m ≡ true) quiet
    → wait_session (batches_of hs woken (around before e quiet rest)) c ≢ none
unfolding batches_of
wait_session_ends [] e quiet rest hs woken c h k =
    subst
      (λ b.
        wait_session (batches_of (hs ++ session_event_arrives e ∷ []) b (quiet ++ retests ∷ rest)) c
        ≢ none)
      (sym (or_true woken _ (settling_wakes e h)))
      (woken_returns quiet rest (hs ++ session_event_arrives e ∷ []) c k (settled-event hs e c h))
wait_session_ends (occurs x ∷ ms) e quiet rest hs woken c h k =
    wait_session_ends ms e quiet rest (hs ++ x ∷ []) (woken || wakes x) c h k
wait_session_ends (spurious ∷ ms) e quiet rest hs woken c h k =
    wait_session_ends ms e quiet rest hs true c h k
wait_session_ends (retests ∷ ms) e quiet rest hs true c h k =
    next_batch hs _ c (wait_session_ends ms e quiet rest [] false (deliver hs c).0 h k)
wait_session_ends (retests ∷ ms) e quiet rest hs false c h k =
    wait_session_ends ms e quiet rest hs false c h k

then_deliver-some :
    (hs : List Happening) (o : Option (ZkClient × List Action))
    → o ≢ none
    → then_deliver hs o ≢ none
unfolding then_deliver
then_deliver-some hs none h = absurd (h refl)
then_deliver-some hs (some r) h = λ x. cc

-- What happens before the first test, while the thread waits, and behind the loop.
abbrev pub waiting : List Happening → List Moment → List Happening → Deliveries
waiting early ms late = record { early = early; batches = batches_of [] false ms; late = late }

module _ (early late : List Happening) (before quiet rest : List Moment) (e : SessionEvent) where
  await_session_ends :
      (c : ZkClient)
      → settles e.state ≡ true
      → All (λ m. keeps_settled m ≡ true) quiet
      → await_session (waiting early (around before e quiet rest) late) c ≢ none
  unfolding await_session
  await_session_ends c h k = prefixed-some (deliver early c).1 _ (
      then_deliver-some late _
        (wait_session_ends before e quiet rest [] false (deliver early c).0 h k))

  finish_init-some : (o : Option (ZkClient × List Action)) → o ≢ none → finish_init o ≢ none
  unfolding finish_init
  finish_init-some none h = absurd (h refl)
  finish_init-some (some (c, acts)) h = ground arith

  retried-some :
      (o : Option (ZkClient × List Action)) → o ≢ none → then_after_reconnect (succeeded o) ≢ none
  unfolding then_after_reconnect
  retried-some none h = absurd (h refl)
  retried-some (some (c, acts)) h = λ x. cc

  -- Neither init nor retry stays blocked where, while its thread waits, a session event connects or
  -- expires the session, whatever came before it, and the thread gets the mutex again at a time before
  -- which no further event takes the session to another kind of state: each of them returns. The event
  -- notifies the thread, which tests again only when it was notified or woke for no reason.
  pub waits_end :
      (a : InitArgs) (zh : Option ℕ) (c : ZkClient)
      → (is_connected_state e.state ≡ true) ⊎ (is_expired_state e.state ≡ true)
      → All (λ m. keeps_settled m ≡ true) quiet
      → (init a zh (waiting early (around before e quiet rest) late) c ≢ none)
        × (retry zh (waiting early (around before e quiet rest) late) c ≢ none)
  unfolding init retry reconnect then_after_reconnect
  waits_end a none c x k = (λ x. cc, λ x. cc)
  waits_end a (some z) c x k =
      let h : settles e.state ≡ true = ground (arith, x) in
      (
        finish_init-some _ (await_session_ends _ h k),
        retried-some _ (await_session_ends (record c { zhandle = some z }) h k),
      )
