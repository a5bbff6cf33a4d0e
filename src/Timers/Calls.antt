-- ===== src/Timers/Calls.antt =====
-- The callbacks of the expired timers: what their calls of the queue do to it.
use zookeeper_cpp_client.Common.{
  ℕ, ◌≡◌, refl, ap, ◌∙◌, sym, subst, inl, inr, Bool, true, false, not, ◌&&◌, ◌||◌, List, [], ◌∷◌,
  Option, none, some, arith, ◌==◌, ==_iff, if◌then◌else◌, Bool-cases,
}
use zookeeper_cpp_client.Common.Std.{find, find-assign, find-erase, find-assign_self, nat_ord}
use zookeeper_cpp_client.Timers.{
  Timer, ZkTimerQueue, Op, adds, cancels, add_timer, call_op, disarmed, cancel_in_loop,
  cancel_inactive, run_ops,
}
use zookeeper_cpp_client.Timers.Pairs.{is_in, drop, is_in-put, is_in-drop}
use zookeeper_cpp_client.Timers.Valid.{
  is_idle, has_sequence, IsValid, fresh-IsUnarmed, with_timer, with_timer-IsValid, armed-IsValid,
  insert-armed,
}
use zookeeper_cpp_client.Timers.Cancel.{cancel_armed, cancel_unarmed, cancel_inactive-IsValid}
use zookeeper_cpp_client.Timers.Idle.{idle_at, again, idle-again}
use zookeeper_cpp_client.Timers.Spec.{
  call, calls, IsFresh, AllFresh, is_cancel, cancelled, timers_of, set_by,
}

-- What one call leaves behind.
pub record CalledOne (busy : ℕ → Bool) (op : Op) (q q1 : ZkTimerQueue) : Type 0 where
  pub valid : IsValid q1
  pub calling : q1.calling_expired_timers ≡ q.calling_expired_timers
  pub store : (b : ℕ) → find b q1.store ≡ call busy op (timers_of q) b
  pub idle : (b : ℕ) → idle_at q1 b ≡ busy b
  pub cancels :
      (b n : ℕ)
      → q.calling_expired_timers ≡ true
      → busy b ≡ true
      → is_in (b, n) q1.canceling_timers ≡ (is_in (b, n) q.canceling_timers || is_cancel b n op)

add_timer-CalledOne :
    (busy : ℕ → Bool) (a : ℕ) (t : Timer) (q : ZkTimerQueue)
    → IsValid q
    → ((b : ℕ) → idle_at q b ≡ busy b)
    → IsFresh (adds a t) (timers_of q)
    → (add_timer a t q ≡ some (set_by (adds a t) q, again a t q))
      × CalledOne busy (adds a t) q (again a t q)
unfolding add_timer
add_timer-CalledOne busy a t q v i (f, l) =
    let n = fresh-IsUnarmed a q v f in
    let w = with_timer-IsValid a t q v n l in
    (
      ground (arith, insert-armed a t (with_timer a t q) w n),
      record {
        valid = armed-IsValid a t (with_timer a t q) w (find-assign_self a t q.store) n;
        calling = refl;
        store = λ b. find-assign a b t q.store;
        idle = λ b. idle-again a b t q ∙ ground (arith, i b, i a, f, ==_iff a b);
        cancels = λ b k c h. ground arith;
      },
    )

idle-disarmed :
    (a b s : ℕ) (t : Timer) (q : ZkTimerQueue)
    → idle_at q a ≡ false
    → idle_at (disarmed a s t q) b ≡ idle_at q b
idle-disarmed a b s t q n =
    ap (λ o. is_idle b o (drop (a, s) q.active_timers)) (find-erase a b q.store)
    ∙ at (find b q.store) (λ x. ap (idle_at q) (sym x) ∙ n)
  where
    at :
        (o : Option Timer)
        → (a ≡ b → is_idle b o q.active_timers ≡ false)
        → is_idle b (if a == b then none else o) (drop (a, s) q.active_timers)
          ≡ is_idle b o q.active_timers
    at none h = ground arith
    at (some u) h = ground (arith, h, ==_iff a b, is_in-drop (a, s) (b, u.sequence) q.active_timers)

-- What an entry of the second set says of its timer.
live_timer :
    (a s : ℕ) (q : ZkTimerQueue)
    → IsValid q
    → is_in (a, s) q.active_timers ≡ true
    → (t : Timer) × (find a q.store ≡ some t) × (t.sequence ≡ s) × (idle_at q a ≡ false)
live_timer a s q v i = at (find a q.store) refl (v.live a s i)
  where
    at :
        (o : Option Timer)
        → find a q.store ≡ o
        → has_sequence s o ≡ true
        → (t : Timer) × (find a q.store ≡ some t) × (t.sequence ≡ s) × (idle_at q a ≡ false)
    at none f h = absurd (cc h)
    at (some t) f h =
        let x : t.sequence ≡ s = (==_iff t.sequence s).0 h in
        (
          t,
          f,
          x,
          ap (λ o. is_idle a o q.active_timers) f
              ∙ ap (λ n. not (is_in (a, n) q.active_timers)) x
              ∙ ap not i,
        )

cancel_armed-CalledOne :
    (busy : ℕ → Bool) (a s : ℕ) (q : ZkTimerQueue)
    → IsValid q
    → ((b : ℕ) → idle_at q b ≡ busy b)
    → is_in (a, s) q.active_timers ≡ true
    → (q1 : ZkTimerQueue) × (cancel_in_loop a s q ≡ some q1) × CalledOne busy (cancels a s) q q1
cancel_armed-CalledOne busy a s q v i h =
    let (t, f, x, n) = live_timer a s q v h in
    let (run, w) = cancel_armed a s t q v f h in
    (
      disarmed a s t q,
      run,
      record {
        valid = w;
        calling = refl;
        store = λ b. find-erase a b q.store ∙ ground (arith, f, x, n, i a, ==_iff t.sequence s);
        idle = λ b. idle-disarmed a b s t q n ∙ i b;
        cancels = λ b m c k. ground (arith, k, n, i a, ==_iff a b);
      },
    )

unarmed_idle :
    (a s : ℕ) (q : ZkTimerQueue)
    → is_in (a, s) q.active_timers ≡ false
    → (not (idle_at q a) && has_sequence s (find a q.store)) ≡ false
unarmed_idle a s q h = at (find a q.store)
  where
    at : (o : Option Timer) → (not (is_idle a o q.active_timers) && has_sequence s o) ≡ false
    at none = refl
    at (some t) = ground (arith, h, ==_iff t.sequence s)

cancel_unarmed-CalledOne :
    (busy : ℕ → Bool) (a s : ℕ) (q : ZkTimerQueue)
    → IsValid q
    → ((b : ℕ) → idle_at q b ≡ busy b)
    → is_in (a, s) q.active_timers ≡ false
    → (q1 : ZkTimerQueue) × (cancel_in_loop a s q ≡ some q1) × CalledOne busy (cancels a s) q q1
cancel_unarmed-CalledOne busy a s q v i h = (
  cancel_inactive a s q,
  cancel_unarmed a s q v h,
  record {
    valid = cancel_inactive-IsValid a s q v;
    calling = ground arith;
    store = λ b. ground (arith, unarmed_idle a s q h, i a);
    idle = λ b. ground (arith, i b);
    cancels = λ b n c k.
        ground (arith, c, is_in-put (a, s) (b, n) q.canceling_timers, ==_iff a b, ==_iff s n);
  },
)

-- No assertion fails in a call.
pub call-CalledOne :
    (busy : ℕ → Bool) (op : Op) (q : ZkTimerQueue)
    → IsValid q
    → ((b : ℕ) → idle_at q b ≡ busy b)
    → IsFresh op (timers_of q)
    → (q1 : ZkTimerQueue) × (call_op op q ≡ some (set_by op q, q1)) × CalledOne busy op q q1
unfolding call_op
call-CalledOne busy (adds a t) q v i f =
    let (run, r) = add_timer-CalledOne busy a t q v i f in (again a t q, run, r)
call-CalledOne busy (cancels a s) q v i f = elim (Bool-cases (is_in (a, s) q.active_timers)) [
  | inl h ↦
      let (q1, run, r) = cancel_armed-CalledOne busy a s q v i h in (q1, ground (arith, run), r)
  | inr h ↦
      let (q1, run, r) = cancel_unarmed-CalledOne busy a s q v i h in (q1, ground (arith, run), r)
]

-- What the calls leave behind.
pub record Called (busy : ℕ → Bool) (ops : List Op) (q q1 : ZkTimerQueue) : Type 0 where
  pub valid : IsValid q1
  pub store : (b : ℕ) → find b q1.store ≡ calls busy ops (timers_of q) b
  pub idle : (b : ℕ) → idle_at q1 b ≡ busy b
  pub cancels :
      (b n : ℕ)
      → q.calling_expired_timers ≡ true
      → busy b ≡ true
      → is_in (b, n) q1.canceling_timers ≡ (is_in (b, n) q.canceling_timers || cancelled b n ops)

call_then-Called :
    (busy : ℕ → Bool) (op : Op) (ops : List Op) (q q1 q2 : ZkTimerQueue)
    → CalledOne busy op q q1
    → Called busy ops q1 q2
    → Called busy (op ∷ ops) q q2
call_then-Called busy op ops q q1 q2 r rs = record {
  valid = rs.valid;
  store = λ b. rs.store b ∙ ap (λ m. calls busy ops m b) (λ k c. r.store c k);
  idle = rs.idle;
  cancels = λ b n c h. ground (arith, rs.cancels b n (r.calling ∙ c) h, r.cancels b n c h);
}

-- No assertion fails in the calls.
pub run_ops-Called :
    (busy : ℕ → Bool) (ops : List Op) (q : ZkTimerQueue)
    → IsValid q
    → ((b : ℕ) → idle_at q b ≡ busy b)
    → AllFresh busy ops (timers_of q)
    → (q1 : ZkTimerQueue) × (run_ops ops q ≡ some q1) × Called busy ops q q1
unfolding run_ops
run_ops-Called busy [] q v i f =
    (q, refl, record { valid = v; store = λ b. refl; idle = i; cancels = λ b n c h. ground arith })
run_ops-Called busy (op ∷ ops) q v i (f, fs) =
    let (q1, run, r) = call-CalledOne busy op q v i f in
    let (q2, rest, rs) =
      run_ops-Called busy ops q1 r.valid r.idle
        (subst (AllFresh busy ops) (λ k b. sym (r.store b) k) fs) in
    (q2, ground (arith, run, rest), call_then-Called busy op ops q q1 q2 r rs)
