-- ===== src/Manager/Courses/Making.antt =====
-- createZkClient keeps what holds of every client.
use zookeeper_cpp_client.Common.{
  ℕ, ◌+◌, ◌<◌, ◌^◌, ◌≡◌, ap, ◌∙◌, sym, subst, Bool, true, false, List, Option, none, some, arith,
  ◌==◌, ==_iff, if◌then◌else◌, if_split, Bool-cases, inl, inr,
}
use zookeeper_cpp_client.Common.Std.{nat_ord}
use zookeeper_cpp_client.Common.Steps.{Leads}
use zookeeper_cpp_client.Client.{ZkClient, new_client}
use zookeeper_cpp_client.Task.{Action}
use zookeeper_cpp_client.Session
use zookeeper_cpp_client.Session.{
  SessionEvent, session_event_arrives, check_fires, Happening, Deliveries, InitArgs, Outcome,
  happen, watch_session,
}
use zookeeper_cpp_client.Session.Outage.{Inv}
use zookeeper_cpp_client.Session.Start.{begun-Inv, init_starts_checking, init_fails_silently}
use zookeeper_cpp_client.Manager.{bump_handle, begin_create, end_create, ended}
use zookeeper_cpp_client.Manager.Handles.{next_handle-update_client}
use zookeeper_cpp_client.Manager.Lookup.{done, get_any_client-end_create}
use zookeeper_cpp_client.Manager.Courses.{World, no_count, course_of, counted, acted, created}
use zookeeper_cpp_client.Manager.Courses.Valid.{IsValid}

bump_handle_suc : (n : ℕ) → n + 1 < 2 ^ 32 → bump_handle n ≡ n + 1
unfolding bump_handle
bump_handle_suc n l = ground (arith, l)

-- createZkClient behind init.
module _ (memory : ℕ) (w : World) (v : IsValid w) (l : w.manager.next_handle + 1 < 2 ^ 32) where
  abbrev new_handle : ℕ
  new_handle = bump_handle w.manager.next_handle

  next_handle-done :
      (succ : Bool) (c : ZkClient) (acts : List Action)
      → (done memory w.manager succ c acts).1.next_handle ≡ new_handle
  unfolding end_create begin_create
  next_handle-done succ c acts =
      next_handle-update_client new_handle c (begin_create memory w.manager).2

  made-IsValid :
      (succ : Bool) (c : ZkClient) (acts : List Action)
      → (c.is_initialized ≡ true → Inv (course_of (counted 0 0 acts no_count) c))
      → IsValid (
          acted new_handle
            (counted (w.counter new_handle).pending 0 acts (w.counter new_handle))
            (done memory w.manager succ c acts).1
            w)
  unfolding begin_create
  made-IsValid succ c acts i =
      let n = bump_handle_suc w.manager.next_handle l in
      let zero_count = v.fresh new_handle (omega (arith, n)) in
      let next = next_handle-done succ c acts in
      let found = get_any_client-end_create memory w.manager succ c acts in
      let k = counted (w.counter new_handle).pending 0 acts (w.counter new_handle) in
      record {
        live = λ j d x y. elim (Bool-cases (new_handle == j)) [
          | inl z ↦
              let one : some c ≡ some d = ground (arith, x, z, found j) in
              let eq : c ≡ d = ground (arith, one) in
              subst (λ b. Inv (course_of (if b then k else w.counter j) d)) (sym z)
                (subst (λ q. Inv (course_of (counted q.pending 0 acts q) d)) (sym zero_count)
                  (subst (λ q. Inv (course_of (counted 0 0 acts no_count) q)) eq
                    (i (ap (λ q. q.is_initialized) eq ∙ y))))
          | inr z ↦
              subst (λ b. Inv (course_of (if b then k else w.counter j) d)) (sym z)
                (v.live j d (ground (arith, x, z, found j)) y)
        ];
        bounded = λ j d x. elim (Bool-cases (new_handle == j)) [
          | inl z ↦ omega (arith, next, (==_iff new_handle j).0 z)
          | inr z ↦ omega (arith, next, n, v.bounded j d (ground (arith, x, z, found j)))
        ];
        fresh = λ j y.
            if_split (λ q. q ≡ no_count) (new_handle == j) k (w.counter j)
              (λ z. absurd (omega (arith, y, next, (==_iff new_handle j).0 z)))
              (λ z. v.fresh j (omega (arith, y, next, n)));
      }

  pub ended-Leads :
      (a : InitArgs) (zh : Option ℕ) (ds : Deliveries) (o : Outcome)
      → Session.init a zh ds (new_client new_handle memory) ≡ o
      → Leads IsValid (created new_handle (ended new_handle (begin_create memory w.manager).2 o) w)
  unfolding begin_create
  ended-Leads a zh ds none e = tt
  ended-Leads a zh ds (some (true, c, acts)) e =
      let started = init_starts_checking a zh ds new_handle memory e in
      made-IsValid true c acts (λ n.
        subst (λ x. Inv (course_of (counted 0 0 x no_count) c)) (sym started.2)
          (begun-Inv a zh ds new_handle memory e))
  ended-Leads a zh ds (some (false, c, acts)) e =
      let failed = init_fails_silently a zh ds new_handle memory e in
      made-IsValid false c acts (λ n. cc (n, failed.1))
