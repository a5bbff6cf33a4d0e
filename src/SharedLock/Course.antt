-- ===== src/SharedLock/Course.antt =====
-- What stays true of the lock objects over every course of steps.
use zookeeper_cpp_client.Common.{
  ℕ, suc, ◌<◌, ◌≡◌, refl, ap, ◌∙◌, sym, subst, Bool, true, false, List, [], ◌∷◌, ◌++◌, Option, none,
  some, arith, if◌then◌else◌, All-impl, ◌⊎◌, inl, inr,
}
use mathlib.Core.List.{append_assoc}
use zookeeper_cpp_client.Common.Std.{bytes_beq_iff}
use zookeeper_cpp_client.Codes.{Bytes}
use zookeeper_cpp_client.Zoo.Path.{slash, child}
use zookeeper_cpp_client.SharedLock.{DistriSharedLock, parent_path, unlock, child_path}
use zookeeper_cpp_client.SharedLock.Names.{
  IsPlain, mark, node_name, strtouq, is_read_type_lock, get_seq_no, is_read_type_lock-node_name,
  get_seq_no-node_name,
}
use zookeeper_cpp_client.SharedLock.World.{
  idle, entered, blocked, holding, Worker, World, Action, max_counter, without, with_worker,
  unlocked, new_name, created, act, actor,
}
use zookeeper_cpp_client.SharedLock.Valid.{
  claim, IsClaim, IsRecorded, Apart, IsValid, with_worker-IsValid,
}
use zookeeper_cpp_client.SharedLock.Children.{
  get_seq_no-child, is_read_type_lock-child, All-without, IsLocal-without, IsLocal-new,
}
use zookeeper_cpp_client.SharedLock.World.{run, next}
use zookeeper_cpp_client.SharedLock.Cases.{step_cases}
use zookeeper_cpp_client.SharedLock.Steps.{
  Apart-none, left-IsValid, registers-IsValid, wakes-IsValid, idle-IsValid, looks-IsValid,
  unlock-IsReleased, claimed_in, IsRecorded-in,
}

unlocks-IsValid :
    (p : ℕ) (r deleted : Bool) (path : Bytes) (w : World)
    → IsValid w
    → (w.worker p).phase ≡ holding r path
    → (w1 : World) × (unlocked p deleted (unlock (w.worker p).lock) w ≡ some w1) × IsValid w1
unlocks-IsValid p r deleted path w v e =
    let l = (w.worker p).lock in
    let (rd, lt, there) = claimed_in (w.worker p) (holding r path) (v.local p) e in
    let (l1, rel) =
      unlock-IsReleased r path w.children l
        (IsRecorded-in (w.worker p) (holding r path) (v.local p) e) there in
    let k : Worker = record { lock = l1; phase = idle } in
    let plain = subst IsPlain (sym rel.name) (v.local p).plain in
    (
      _,
      ap (λ o. unlocked p deleted o w) rel.runs,
      freed deleted k
          (left-IsValid p k w v
            (record { claimed = tt; free = tt; recorded = rel.recorded; plain = plain }) refl)
          (with_worker-IsValid p k (record w { children = without path w.children })
            (All-without (λ c. get_seq_no c < w.counter) path w.children v.bounded) v.limited
            (record { claimed = tt; free = tt; recorded = rel.recorded; plain = plain })
            (λ q d.
              IsLocal-without w.counter w.children r path (w.worker q) (v.local q)
                (subst (λ f. Apart (claim f) (claim (w.worker q).phase)) e (v.apart p q d)))
            (λ q d. Apart-none (claim (w.worker q).phase)) v.apart),
    )
  where
    freed :
        (d : Bool) (k : Worker)
        → IsValid (with_worker p k w)
        → IsValid (with_worker p k (record w { children = without path w.children }))
        → IsValid (
            with_worker p k
              (record w { children = if d then without path w.children else w.children }))
    freed true k kept gone = gone
    freed false k kept gone = kept

-- A step that the phase allows fails no assertion, and keeps what is true.
abbrev pub Stays : Option World → Type 0
Stays none = Unit
Stays (some w) = IsValid w

-- The numbers of the servers in digits: they are read back as they were, and have no dash.
pub record IsSuffix (suffix : ℕ → Bytes) : Type 0 where
  pub plain : (n : ℕ) → IsPlain (suffix n)
  pub number : (n : ℕ) → n < max_counter → strtouq (suffix n) ≡ n

module _ (suffix : ℕ → Bytes) (s : IsSuffix suffix) where
  new_name-node_name :
      (r : Bool) (l : DistriSharedLock) (n : ℕ)
      → new_name suffix r l n ≡ node_name l.child_node_name r (suffix n)
  new_name-node_name r l n = append_assoc l.child_node_name (mark r) (suffix n)

  get_seq_no-new_name :
      (r : Bool) (l : DistriSharedLock) (n : ℕ)
      → IsPlain l.child_node_name
      → n < max_counter
      → get_seq_no (new_name suffix r l n) ≡ n
  get_seq_no-new_name r l n p h =
      ap get_seq_no (new_name-node_name r l n)
      ∙ get_seq_no-node_name l.child_node_name r (suffix n) p (s.plain n)
      ∙ s.number n h

  is_read_type_lock-new_name :
      (r : Bool) (l : DistriSharedLock) (n : ℕ)
      → IsPlain l.child_node_name
      → is_read_type_lock (new_name suffix r l n) ≡ r
  is_read_type_lock-new_name r l n p =
      ap is_read_type_lock (new_name-node_name r l n)
      ∙ is_read_type_lock-node_name l.child_node_name r (suffix n) p (s.plain n)

  -- The path that the servers return is that of the new child.
  new_path :
      (r : Bool) (l : DistriSharedLock) (n : ℕ)
      → child_path r l ++ suffix n ≡ child parent_path (new_name suffix r l n)
  new_path r l n = append_assoc parent_path (slash ∷ (l.child_node_name ++ mark r)) (suffix n)

  -- A lock object whose name has no dash reads the kind and the sequence number of its node back
  -- from the path that the servers return, while the numbers do not overflow.
  pub child_path_reads :
      (r : Bool) (l : DistriSharedLock) (n : ℕ)
      → IsPlain l.child_node_name
      → n < max_counter
      → (is_read_type_lock (child_path r l ++ suffix n) ≡ r)
        × (get_seq_no (child_path r l ++ suffix n) ≡ n)
  child_path_reads r l n p h =
      let name = new_name suffix r l n in
      (
        ap is_read_type_lock (new_path r l n)
            ∙ is_read_type_lock-child name
            ∙ is_read_type_lock-new_name r l n p,
        ap get_seq_no (new_path r l n) ∙ get_seq_no-child name ∙ get_seq_no-new_name r l n p h,
      )

  new-IsClaim :
      (r : Bool) (l : DistriSharedLock) (n : ℕ) (cs : List Bytes)
      → IsPlain l.child_node_name
      → n < max_counter
      → IsClaim (suc n) (new_name suffix r l n ∷ cs) (some (r, child_path r l ++ suffix n))
  new-IsClaim r l n cs p h =
      let path = child_path r l ++ suffix n in
      let (kind, seq) = child_path_reads r l n p h in
      let here =
        (bytes_beq_iff (child parent_path (new_name suffix r l n)) path).1 (sym (new_path r l n)) in
      (kind, omega (arith, seq), ground (arith, here))

  pub new-Apart :
      (r : Bool) (l : DistriSharedLock) (n : ℕ) (cs : List Bytes) (o : Option (Bool × Bytes))
      → IsPlain l.child_node_name
      → n < max_counter
      → IsClaim n cs o
      → Apart (some (r, child_path r l ++ suffix n)) o
  new-Apart r l n cs none p h c = tt
  new-Apart r l n cs (some (s, other)) p h (a, b, c) =
      λ e. omega (arith, (child_path_reads r l n p h).1, e, b)

  creates-IsValid :
      (p : ℕ) (r : Bool) (w : World)
      → IsValid w
      → (w.worker p).phase ≡ idle
      → w.counter < max_counter
      → IsValid (created suffix p r w)
  creates-IsValid p r w v e h =
      let l = (w.worker p).lock in
      let n = w.counter in
      let name = new_name suffix r l n in
      let plain = (v.local p).plain in
      let seq = get_seq_no-new_name r l n plain h in
      with_worker-IsValid p (record { lock = l; phase = entered r (child_path r l ++ suffix n) })
        (record w { counter = suc n; children = name ∷ w.children })
        (
          omega (arith, seq),
          All-impl (λ c. get_seq_no c < n) (λ c. get_seq_no c < suc n) w.children
              (λ c x. omega (arith, x)) v.bounded,
        )
        (omega (arith, h))
        (record {
          claimed = new-IsClaim r l n w.children plain h;
          free = tt;
          recorded = IsRecorded-in (w.worker p) idle (v.local p) e;
          plain = plain;
        })
        (λ q d. IsLocal-new n w.children name (w.worker q) seq (v.local q))
        (λ q d. new-Apart r l n w.children (claim (w.worker q).phase) plain h (v.local q).claimed)
        v.apart

  pub act-Stays : (a : Action) (w : World) → IsValid w → Stays (act suffix a w)
  act-Stays a w v =
      step_cases suffix Stays a (w.worker (actor a)).phase w
        (record {
          stuck = tt;
          creating = λ p r e h. creates-IsValid p r w v e h;
          looking = λ p r path e. looks-IsValid p r path w v e;
          registering = λ p r path e. registers-IsValid p r path w v e;
          waking = λ p r path e. wakes-IsValid p r path w v e;
          unchanged = v;
          leaving = λ p r path e. idle-IsValid p w v (outside p r path e);
          unlocking = λ p d r path e.
              let (w1, run, v1) = unlocks-IsValid p r d path w v e in subst Stays (sym run) v1;
        })
        refl
    where
      outside :
          (p : ℕ) (r : Bool) (path : Bytes)
          → ((w.worker p).phase ≡ entered r path) ⊎ ((w.worker p).phase ≡ blocked r path)
          → IsRecorded (w.worker p).lock idle
      outside p r path (inl e) = IsRecorded-in (w.worker p) (entered r path) (v.local p) e
      outside p r path (inr e) = IsRecorded-in (w.worker p) (blocked r path) (v.local p) e

  -- What is true of the objects stays true over every course of steps.
  pub run-IsValid :
      (acts : List Action) (w w1 : World) → IsValid w → run suffix acts w ≡ some w1 → IsValid w1
  unfolding run
  run-IsValid [] w w1 v h = subst Stays h v
  run-IsValid (a ∷ acts) w w1 v h =
      after (act suffix a w) (act-Stays a w v) h (λ x. run-IsValid acts x w1)
    where
      after :
          (o : Option World)
          → Stays o
          → next o (λ x. run suffix acts x) ≡ some w1
          → ((x : World) → IsValid x → run suffix acts x ≡ some w1 → IsValid w1)
          → IsValid w1
      after none t h f = absurd (cc h)
      after (some x) t h f = f x t h
