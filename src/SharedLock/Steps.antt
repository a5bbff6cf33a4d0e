-- ===== src/SharedLock/Steps.antt =====
-- Every step of the lock objects keeps what is true of them.
use zookeeper_cpp_client.Common.{
  ℕ, ◌≡◌, refl, ap, sym, subst, Bool, true, false, List, [], ◌∷◌, ◌++◌, Option, none, some, arith,
  Bool-cases, inl, inr,
}
use zookeeper_cpp_client.Common.Std.{bytes_beq, bytes_beq_iff}
use zookeeper_cpp_client.Codes.{Bytes}
use zookeeper_cpp_client.Zoo.Path.{child}
use zookeeper_cpp_client.SharedLock.{
  rw_locker_none, DistriSharedLock, parent_path, least_node, got, waits_for, unlock,
}
use zookeeper_cpp_client.SharedLock.Names.{IsPlain}
use zookeeper_cpp_client.SharedLock.Scan.{least_node_lem}
use zookeeper_cpp_client.SharedLock.World.{
  Phase, idle, entered, blocked, waiting, holding, Worker, World, with_worker, with_phase, looked,
}
use zookeeper_cpp_client.SharedLock.Valid.{
  claim, has, IsClaim, IsRecorded, Apart, IsLocal, IsValid, with_worker-IsValid,
}

pub Apart-none : (o : Option (Bool × Bytes)) → Apart none o
Apart-none none = tt
Apart-none (some b) = tt

-- A step that touches neither the servers nor what a thread claims.
pub moved-IsValid :
    (p : ℕ) (k : Worker) (w : World)
    → IsValid w
    → IsLocal w.counter w.children k
    → claim k.phase ≡ claim (w.worker p).phase
    → IsValid (with_worker p k w)
moved-IsValid p k w v l e =
    with_worker-IsValid p k w v.bounded v.limited l (λ q d. v.local q)
      (λ q d. subst (λ o. Apart o (claim (w.worker q).phase)) (sym e) (v.apart p q d)) v.apart

-- A thread that leaves without its node.
pub left-IsValid :
    (p : ℕ) (k : Worker) (w : World)
    → IsValid w
    → IsLocal w.counter w.children k
    → claim k.phase ≡ none
    → IsValid (with_worker p k w)
left-IsValid p k w v l e =
    with_worker-IsValid p k w v.bounded v.limited l (λ q d. v.local q)
      (λ q d.
        subst (λ o. Apart o (claim (w.worker q).phase)) (sym e)
          (Apart-none (claim (w.worker q).phase)))
      v.apart

-- The same object in another phase.
abbrev in_phase : Worker → Phase → Worker
in_phase k f = record { lock = k.lock; phase = f }

module _ {n : ℕ} {cs : List Bytes} where
  pub claimed_in : (k : Worker) (f : Phase) → IsLocal n cs k → k.phase ≡ f → IsClaim n cs (claim f)
  claimed_in k f v e = subst (λ x. IsClaim n cs (claim x)) e v.claimed

  pub IsRecorded-in : (k : Worker) (f : Phase) → IsLocal n cs k → k.phase ≡ f → IsRecorded k.lock f
  IsRecorded-in k f v e = subst (λ x. IsRecorded k.lock x) e v.recorded

pub registers-IsValid :
    (p : ℕ) (r : Bool) (path : Bytes) (w : World)
    → IsValid w
    → (w.worker p).phase ≡ blocked r path
    → IsValid (with_phase p (waiting r path) w)
registers-IsValid p r path w v e =
    moved-IsValid p (in_phase (w.worker p) (waiting r path)) w v
      (record {
        claimed = claimed_in (w.worker p) (blocked r path) (v.local p) e;
        free = tt;
        recorded = IsRecorded-in (w.worker p) (blocked r path) (v.local p) e;
        plain = (v.local p).plain;
      })
      (sym (ap claim e))

pub wakes-IsValid :
    (p : ℕ) (r : Bool) (path : Bytes) (w : World)
    → IsValid w
    → (w.worker p).phase ≡ waiting r path
    → IsValid (with_phase p (entered r path) w)
wakes-IsValid p r path w v e =
    moved-IsValid p (in_phase (w.worker p) (entered r path)) w v
      (record {
        claimed = claimed_in (w.worker p) (waiting r path) (v.local p) e;
        free = tt;
        recorded = IsRecorded-in (w.worker p) (waiting r path) (v.local p) e;
        plain = (v.local p).plain;
      })
      (sym (ap claim e))

pub idle-IsValid :
    (p : ℕ) (w : World)
    → IsValid w
    → IsRecorded (w.worker p).lock idle
    → IsValid (with_phase p idle w)
idle-IsValid p w v r =
    left-IsValid p (in_phase (w.worker p) idle) w v
      (record { claimed = tt; free = tt; recorded = r; plain = (v.local p).plain }) refl

got-IsRecorded :
    (r : Bool) (path : Bytes) (l : DistriSharedLock)
    → IsRecorded l idle
    → IsRecorded (got r path l) (holding r path)
got-IsRecorded true path l (m, e) = (refl, ap (λ ps. ps ++ path ∷ []) e)
got-IsRecorded false path l (m, e) = (refl, e, refl)

waits_for-IsRecorded :
    (r : Bool) (path c : Bytes) (l : DistriSharedLock)
    → IsRecorded l idle
    → IsRecorded (waits_for r c l) (blocked r path)
waits_for-IsRecorded true path c l h = h
waits_for-IsRecorded false path c l h = h

got_name :
    (r : Bool) (path : Bytes) (l : DistriSharedLock)
    → (got r path l).child_node_name ≡ l.child_node_name
got_name true path l = refl
got_name false path l = refl

waits_for_name :
    (r : Bool) (c : Bytes) (l : DistriSharedLock)
    → (waits_for r c l).child_node_name ≡ l.child_node_name
waits_for_name true c l = refl
waits_for_name false c l = refl

-- The branches of rlock and wlock behind the loop over the children.
pub looks-IsValid :
    (p : ℕ) (r : Bool) (path : Bytes) (w : World)
    → IsValid w
    → (w.worker p).phase ≡ entered r path
    → IsValid (looked p r path (least_node r path w.children) w)
looks-IsValid p r path w v e =
    let l = (w.worker p).lock in
    let c = claimed_in (w.worker p) (entered r path) (v.local p) e in
    let known = IsRecorded-in (w.worker p) (entered r path) (v.local p) e in
    elim (least_node_lem r path w.children) [
      | inl (run, a) ↦
          subst (λ o. IsValid (looked p r path o w)) (sym run)
            (moved-IsValid p (record { lock = got r path l; phase = holding r path }) w v
              (record {
                claimed = c;
                free = a;
                recorded = got-IsRecorded r path l known;
                plain = subst IsPlain (sym (got_name r path l)) (v.local p).plain;
              })
              (sym (ap claim e)))
      | inr (d, run, b, m) ↦
          subst (λ o. IsValid (looked p r path o w)) (sym run)
            (moved-IsValid p (record { lock = waits_for r d l; phase = blocked r path }) w v
              (record {
                claimed = c;
                free = tt;
                recorded = waits_for-IsRecorded r path d l known;
                plain = subst IsPlain (sym (waits_for_name r d l)) (v.local p).plain;
              })
              (sym (ap claim e)))
    ]

-- What unlock of a holder does to its object, and the path that it deletes.
pub record IsReleased (path : Bytes) (l l1 : DistriSharedLock) : Type 0 where
  pub runs : unlock l ≡ some (some path, l1)
  pub recorded : IsRecorded l1 idle
  pub name : l1.child_node_name ≡ l.child_node_name

-- A path of a child is not empty.
child_not_nil :
    (path : Bytes) (cs : List Bytes) → has path cs ≡ true → (b : ℕ) × (s : Bytes) × (path ≡ b ∷ s)
child_not_nil path [] h = absurd (cc h)
child_not_nil path (c ∷ cs) h = elim (Bool-cases (bytes_beq (child parent_path c) path)) [
  | inl e ↦ (_, _, sym ((bytes_beq_iff (child parent_path c) path).0 e))
  | inr e ↦ child_not_nil path cs (ground (arith, h, e))
]

pub unlock-IsReleased :
    (r : Bool) (path : Bytes) (cs : List Bytes) (l : DistriSharedLock)
    → IsRecorded l (holding r path)
    → has path cs ≡ true
    → (l1 : DistriSharedLock) × IsReleased path l l1
unfolding unlock
unlock-IsReleased true path cs l (m, e) h = (
  record l { reader_child_paths = []; cur_lock_mode = rw_locker_none },
  record { runs = rw (m, e) refl; recorded = (refl, refl); name = refl },
)
unlock-IsReleased false path cs l (m, e, x) h = (
  record l { writer_child_path = []; cur_lock_mode = rw_locker_none },
  record {
    runs = let (b, s, y) = child_not_nil path cs h in rw (m, x, y) refl;
    recorded = (refl, e);
    name = refl;
  },
)
