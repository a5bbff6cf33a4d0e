-- ===== src/Session/Backoff.antt =====
-- The delays of retries that fail one after another.
use zookeeper_cpp_client.Common.{
  ℕ, zero, suc, ◌*◌, ◌^◌, ◌≤◌, min, ◌≡◌, ap, ◌∙◌, subst, true, false, List, [], ◌∷◌, ◌++◌, Option,
  none, some, arith,
}
use native.Mathlib.Nat.{pow-suc}
use zookeeper_cpp_client.Codes.{max_retry_delay}
use zookeeper_cpp_client.Client.{ZkClient}
use zookeeper_cpp_client.Task.{Action, run_after, second_thread, retry_task}
use zookeeper_cpp_client.Session.{
  Deliveries, Outcome, schedule_retry, after_reconnect, then_after_reconnect, reconnect, retry,
}
use zookeeper_cpp_client.Session.Delivery.{Balance-retrying}
use zookeeper_cpp_client.Session.Outage.{Reconnects, reconnect-Reconnects}

-- `n` retries in a row that fail, whatever the C library does during each of them.
pub data Failures (c : ZkClient) : ℕ → ZkClient → Type 0 where
  none_yet : Failures c zero c
  one_more :
      {n : ℕ} {d : ZkClient} (zh : Option ℕ) (ds : Deliveries) (e : ZkClient) (acts : List Action)
      → Failures c n d
      → retry zh ds d ≡ some (false, e, acts)
      → Failures c (suc n) e

-- A retry is under way or pending, and the client means to reconnect.
abbrev pub IsReconnecting : ZkClient → Type 0
IsReconnecting c = (c.is_retrying ≡ true) × (c.is_support_reconnect ≡ true)

-- The timer of the next retry, in milliseconds.
abbrev pub next_retry : ZkClient → Action
next_retry c = run_after second_thread (c.retry_delay * 1000) (retry_task c.handle)

abbrev Failed : ZkClient → Outcome → Type 0
Failed c none = Unit
Failed c (some (true, d, acts)) = Unit
Failed c (some (false, d, acts)) =
    IsReconnecting d
    × (d.retry_delay ≡ min (c.retry_delay * 2) max_retry_delay)
    × ((before : List Action) × (acts ≡ before ++ next_retry c ∷ []))

then_after_reconnect-Failed :
    (c : ZkClient) (r : Outcome)
    → IsReconnecting c
    → Reconnects c r
    → Failed c (then_after_reconnect r)
unfolding then_after_reconnect after_reconnect schedule_retry
then_after_reconnect-Failed c none i b = tt
then_after_reconnect-Failed c (some (true, d, acts)) i b = tt
then_after_reconnect-Failed c (some (false, d, acts)) i b =
    let retrying = Balance-retrying b i.0 in
    let delay = b.held i.0 in
    (
      ground (arith, b.support),
      ground (arith, b.support, delay),
      (acts, ground (arith, b.support, delay, b.handle)),
    )

retry-Failed :
    (zh : Option ℕ) (ds : Deliveries) (c : ZkClient) → IsReconnecting c → Failed c (retry zh ds c)
unfolding retry
retry-Failed zh ds c i =
    then_after_reconnect-Failed c (reconnect zh ds c) i (reconnect-Reconnects zh ds c)

double : (x n : ℕ) → min (min (x * 2 ^ n) 600 * 2) 600 ≡ min (x * 2 ^ suc n) 600
double x n = grind (arith, pow-suc)

Failures-IsReconnecting :
    {c d : ZkClient} {n : ℕ} → IsReconnecting c → Failures c n d → IsReconnecting d
Failures-IsReconnecting i none_yet = i
Failures-IsReconnecting {c} i (one_more {d = d} zh ds e acts f r) =
    (subst (Failed d) r (retry-Failed zh ds d (Failures-IsReconnecting i f))).0

-- After n retries that failed in a row, of a client that goes on reconnecting and whose delay was
-- at most 600 seconds, the delay before the next but one is the delay at the start times 2 ^ n,
-- and 600 seconds at most.
pub retry_delay-Failures :
    {c d : ZkClient} {n : ℕ}
    → IsReconnecting c
    → c.retry_delay ≤ max_retry_delay
    → Failures c n d
    → d.retry_delay ≡ min (c.retry_delay * 2 ^ n) max_retry_delay
retry_delay-Failures i h none_yet = omega arith
retry_delay-Failures {c} i h (one_more {n = n} {d = d} zh ds e acts f r) =
    (subst (Failed d) r (retry-Failed zh ds d (Failures-IsReconnecting i f))).1
    ∙ ap (λ x. min (x * 2) max_retry_delay) (retry_delay-Failures i h f)
    ∙ double c.retry_delay n

-- A failed retry of a client that goes on reconnecting ends by setting the timer of the next one,
-- after the delay that the client had, and doubles that delay, up to 600 seconds.
retry_sets_timer :
    (zh : Option ℕ) (ds : Deliveries) (c : ZkClient) {d : ZkClient} {acts : List Action}
    → IsReconnecting c
    → retry zh ds c ≡ some (false, d, acts)
    → (d.retry_delay ≡ min (c.retry_delay * 2) max_retry_delay)
      × ((before : List Action) × (acts ≡ before ++ next_retry c ∷ []))
retry_sets_timer zh ds c i r = let f = subst (Failed c) r (retry-Failed zh ds c i) in (f.1, f.2)
