-- ===== src/Manager/Courses/Valid.antt =====
-- What holds of every client of the manager over any course of events.
use zookeeper_cpp_client.Common.{
  ℕ, ◌≤◌, ◌<◌, ◌≡◌, refl, ap, ◌∙◌, sym, subst, true, false, Option, none, some, arith, ◌==◌, ==_iff,
  if◌then◌else◌, if_split, Bool-cases, inl, inr,
}
use zookeeper_cpp_client.Common.Std.{nat_ord}
use zookeeper_cpp_client.Client.{ZkClient}
use zookeeper_cpp_client.Session.Outage.{Inv}
use zookeeper_cpp_client.Manager.{
  ZkClientManager, get_any_client, get_zk_client, update_client, if_initialized,
}
use zookeeper_cpp_client.Manager.Handles.{next_handle-update_client}
use zookeeper_cpp_client.Manager.Lookup.{get_any_client-update_client}
use zookeeper_cpp_client.Manager.Courses.{Counter, World, no_count, course_of, acted}

pub record IsValid (w : World) : Type 0 where
  pub live :
      (h : ℕ) (c : ZkClient)
      → get_any_client h w.manager ≡ some c
      → c.is_initialized ≡ true
      → Inv (course_of (w.counter h) c)
  pub bounded :
      (h : ℕ) (c : ZkClient) → get_any_client h w.manager ≡ some c → h ≤ w.manager.next_handle
  pub fresh : (h : ℕ) → w.manager.next_handle < h → w.counter h ≡ no_count

-- What getZkClient finds, and what it does not.
initialized_some :
    (o : Option ZkClient) (c : ZkClient)
    → if_initialized o ≡ some c
    → (o ≡ some c) × (c.is_initialized ≡ true)
initialized_some none c e = cc e
initialized_some (some d) c e = ground arith

pub get_zk_client-some :
    (h : ℕ) (m : ZkClientManager) (c : ZkClient)
    → get_zk_client h m ≡ some c
    → (get_any_client h m ≡ some c) × (c.is_initialized ≡ true)
unfolding get_zk_client get_any_client
get_zk_client-some h m c e = initialized_some (get_any_client h m) c e

pub get_zk_client-none :
    (h : ℕ) (m : ZkClientManager) (c : ZkClient)
    → get_zk_client h m ≡ none
    → get_any_client h m ≡ some c
    → c.is_initialized ≡ false
unfolding get_zk_client get_any_client
get_zk_client-none h m c e f =
    let g : if_initialized (some c) ≡ none = ap if_initialized (sym f) ∙ e in ground arith

-- One client has changed, and its counts.
pub acted-IsValid :
    (h : ℕ) (c c1 : ZkClient) (k : Counter) (w : World)
    → IsValid w
    → get_any_client h w.manager ≡ some c
    → (c1.is_initialized ≡ true → Inv (course_of k c1))
    → IsValid (acted h k (update_client h c1 w.manager) w)
acted-IsValid h c c1 k w v e i =
    let m = w.manager in
    let same = next_handle-update_client h c1 m in
    let found = λ (j : ℕ). get_any_client-update_client h j c1 c m e in
    record {
      live = λ j d x n. elim (Bool-cases (h == j)) [
        | inl y ↦
            let one : some c1 ≡ some d = ground (arith, x, y, found j) in
            let eq : c1 ≡ d = ground (arith, one) in
            subst (λ b. Inv (course_of (if b then k else w.counter j) d)) (sym y)
              (subst (λ z. Inv (course_of k z)) eq (i (ap (λ z. z.is_initialized) eq ∙ n)))
        | inr y ↦
            subst (λ b. Inv (course_of (if b then k else w.counter j) d)) (sym y)
              (v.live j d (ground (arith, x, y, found j)) n)
      ];
      bounded = λ j d x. elim (Bool-cases (h == j)) [
        | inl y ↦ omega (arith, same, v.bounded h c e, (==_iff h j).0 y)
        | inr y ↦ omega (arith, same, v.bounded j d (ground (arith, x, y, found j)))
      ];
      fresh = λ j l.
          if_split (λ z. z ≡ no_count) (h == j) k (w.counter j)
            (λ y. absurd (omega (arith, l, same, v.bounded h c e, (==_iff h j).0 y)))
            (λ y. v.fresh j (omega (arith, l, same)));
    }

-- Nothing has been found, and the clients are as they were.
pub idle-IsValid :
    (h : ℕ) (k : Counter) (w : World)
    → IsValid w
    → get_zk_client h w.manager ≡ none
    → (w.counter h ≡ no_count → k ≡ no_count)
    → IsValid (acted h k w.manager w)
idle-IsValid h k w v e z = record {
  live = λ j d x n.
      if_split (λ y. Inv (course_of y d)) (h == j) k (w.counter j)
        (λ y.
          let f =
            get_zk_client-none h w.manager d e
              (subst (λ i. get_any_client i w.manager ≡ some d) (sym ((==_iff h j).0 y)) x) in
          cc (n, f))
        (λ y. v.live j d x n);
  bounded = v.bounded;
  fresh = λ j l.
      if_split (λ y. y ≡ no_count) (h == j) k (w.counter j)
        (λ y. z (v.fresh h (omega (arith, l, (==_iff h j).0 y)))) (λ y. v.fresh j l);
}

-- A write that leaves the counts alone.
pub set-IsValid :
    (h : ℕ) (c c1 : ZkClient) (w : World)
    → IsValid w
    → get_any_client h w.manager ≡ some c
    → (c1.is_initialized ≡ true → Inv (course_of (w.counter h) c1))
    → IsValid (record w { manager = update_client h c1 w.manager })
set-IsValid h c c1 w v e i =
    let u = acted-IsValid h c c1 (w.counter h) w v e i in
    let same : (λ (j : ℕ). if h == j then w.counter h else w.counter j) ≡ w.counter =
      λ t j. unchanged j t in
    subst (λ k. IsValid (record { manager = update_client h c1 w.manager; counter = k })) same u
  where
    unchanged : (j : ℕ) → (if h == j then w.counter h else w.counter j) ≡ w.counter j
    unchanged j =
        if_split (λ k. k ≡ w.counter j) (h == j) (w.counter h) (w.counter j)
          (λ x. ap w.counter ((==_iff h j).0 x)) (λ x. refl)
