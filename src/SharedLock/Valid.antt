-- ===== src/SharedLock/Valid.antt =====
-- What stays true of the lock objects and the servers.
use zookeeper_cpp_client.Common.{
  ℕ, ◌≤◌, ◌<◌, ◌≡◌, ◌≢◌, refl, ◌∙◌, sym, subst, Bool, true, false, ◌||◌, List, [], ◌∷◌, Option,
  none, some, arith, ◌==◌, ==_iff, if◌then◌else◌, All, Bool-cases, inl, inr,
}
use zookeeper_cpp_client.Common.Std.{bytes_beq}
use zookeeper_cpp_client.Codes.{Bytes}
use zookeeper_cpp_client.Zoo.Path.{child}
use zookeeper_cpp_client.SharedLock.{
  rw_locker_none, rw_locker_rd, rw_locker_wr, DistriSharedLock, parent_path, blocks,
}
use zookeeper_cpp_client.SharedLock.Names.{IsPlain, is_read_type_lock, get_seq_no}
use zookeeper_cpp_client.SharedLock.World.{
  Phase, idle, entered, blocked, waiting, holding, Worker, World, max_counter, with_worker,
}

-- The kind and the node of a thread that is inside.
abbrev pub claim : Phase → Option (Bool × Bytes)
claim idle = none
claim (entered r path) = some (r, path)
claim (blocked r path) = some (r, path)
claim (waiting r path) = some (r, path)
claim (holding r path) = some (r, path)

-- The children have the node of the path.
abbrev pub has : Bytes → List Bytes → Bool
has path [] = false
has path (c ∷ cs) = bytes_beq (child parent_path c) path || has path cs

abbrev pub IsClaim : ℕ → List Bytes → Option (Bool × Bytes) → Type 0
IsClaim n cs none = Unit
IsClaim n cs (some (r, path)) =
    (is_read_type_lock path ≡ r) × (get_seq_no path < n) × (has path cs ≡ true)

-- Nothing that is there keeps a holder from the lock.
abbrev pub IsFree : List Bytes → Phase → Type 0
IsFree cs (holding r path) = All (λ c. blocks r path c ≡ false) cs
IsFree cs _ = Unit

-- The object knows the node that its thread holds.
abbrev pub IsRecorded : DistriSharedLock → Phase → Type 0
IsRecorded l (holding true path) =
    (l.cur_lock_mode ≡ rw_locker_rd) × (l.reader_child_paths ≡ path ∷ [])
IsRecorded l (holding false path) =
    (l.cur_lock_mode ≡ rw_locker_wr) × (l.reader_child_paths ≡ []) × (l.writer_child_path ≡ path)
IsRecorded l _ = (l.cur_lock_mode ≡ rw_locker_none) × (l.reader_child_paths ≡ [])

abbrev pub Apart : Option (Bool × Bytes) → Option (Bool × Bytes) → Type 0
Apart (some a) (some b) = get_seq_no a.1 ≢ get_seq_no b.1
Apart _ _ = Unit

-- One object and its thread, under the number of the next node and the children.
pub record IsLocal (n : ℕ) (cs : List Bytes) (k : Worker) : Type 0 where
  pub claimed : IsClaim n cs (claim k.phase)
  pub free : IsFree cs k.phase
  pub recorded : IsRecorded k.lock k.phase
  pub plain : IsPlain k.lock.child_node_name

pub record IsValid (w : World) : Type 0 where
  pub bounded : All (λ c. get_seq_no c < w.counter) w.children
  pub limited : w.counter ≤ max_counter
  pub local : (p : ℕ) → IsLocal w.counter w.children (w.worker p)
  pub apart : (p q : ℕ) → p ≢ q → Apart (claim (w.worker p).phase) (claim (w.worker q).phase)

pub Apart-sym : (a b : Option (Bool × Bytes)) → Apart a b → Apart b a
Apart-sym none none h = tt
Apart-sym none (some b) h = tt
Apart-sym (some a) none h = tt
Apart-sym (some a) (some b) h = λ e. h (sym e)

-- A step of one thread.
pub with_worker-IsValid :
    (p : ℕ) (k : Worker) (w : World)
    → All (λ c. get_seq_no c < w.counter) w.children
    → w.counter ≤ max_counter
    → IsLocal w.counter w.children k
    → ((q : ℕ) → p ≢ q → IsLocal w.counter w.children (w.worker q))
    → ((q : ℕ) → p ≢ q → Apart (claim k.phase) (claim (w.worker q).phase))
    → ((q s : ℕ) → q ≢ s → Apart (claim (w.worker q).phase) (claim (w.worker s).phase))
    → IsValid (with_worker p k w)
with_worker-IsValid p k w b m mine others new old = record {
  bounded = b;
  limited = m;
  local = λ q. elim (Bool-cases (p == q)) [
    | inl e ↦ subst (λ x. IsLocal w.counter w.children (if x then k else w.worker q)) (sym e) mine
    | inr e ↦
        subst (λ x. IsLocal w.counter w.children (if x then k else w.worker q)) (sym e)
          (others q (ground (arith, e)))
  ];
  apart = λ q s d.
      at q s (p == q) (p == s) ((==_iff p q).0) ((==_iff p s).0) (λ e. ground (arith, e))
        (λ e. ground (arith, e)) d;
}
  where
    at :
        (q s : ℕ) (x y : Bool)
        → (x ≡ true → p ≡ q)
        → (y ≡ true → p ≡ s)
        → (x ≡ false → p ≢ q)
        → (y ≡ false → p ≢ s)
        → q ≢ s
        → Apart
            (claim (if x then k else w.worker q).phase)
            (claim (if y then k else w.worker s).phase)
    at q s true true ex ey nx ny d = absurd (d (sym (ex refl) ∙ ey refl))
    at q s true false ex ey nx ny d = new s (ny refl)
    at q s false true ex ey nx ny d =
        Apart-sym (claim k.phase) (claim (w.worker q).phase) (new q (nx refl))
    at q s false false ex ey nx ny d = old q s d
