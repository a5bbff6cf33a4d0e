-- ===== src/SharedLock/Children.antt =====
-- The children of the lock's node: their names, and what new and deleted ones change.
use zookeeper_cpp_client.Common.{
  ℕ, suc, ◌<◌, ◌≡◌, ◌≢◌, refl, ap, ◌∙◌, sym, subst, Bool, true, false, List, [], ◌∷◌, ◌++◌, Option,
  none, some, arith, if◌then◌else◌, All, if_cases, Bool-cases, inl, inr,
}
use zookeeper_cpp_client.Common.Std.{bytes_beq, bytes_beq_iff}
use zookeeper_cpp_client.Codes.{Bytes}
use zookeeper_cpp_client.Zoo.Path.{slash, child}
use zookeeper_cpp_client.SharedLock.{parent_path, blocks}
use zookeeper_cpp_client.SharedLock.Names.{
  IsPlain, is_read_type_lock, get_seq_no, is_read_type_lock-append, get_seq_no-append,
}
use zookeeper_cpp_client.SharedLock.World.{
  Phase, idle, entered, blocked, waiting, holding, Worker, without,
}
use zookeeper_cpp_client.SharedLock.Valid.{claim, has, IsClaim, IsFree, Apart, IsLocal}

-- What the lock reads from a name, and from the path of the node.
abbrev front : Bytes
front = parent_path ++ slash ∷ []

front-IsPlain : IsPlain front
front-IsPlain = (
  refl,
  (
    refl,
    (refl, (refl, (refl, (refl, (refl, (refl, (refl, (refl, (refl, (refl, (refl, tt))))))))))),
  ),
)

pub get_seq_no-child : (c : Bytes) → get_seq_no (child parent_path c) ≡ get_seq_no c
get_seq_no-child c = get_seq_no-append front c front-IsPlain

pub is_read_type_lock-child :
    (c : Bytes) → is_read_type_lock (child parent_path c) ≡ is_read_type_lock c
is_read_type_lock-child c = is_read_type_lock-append front c front-IsPlain

-- What all the names have, a path that the children have has.
pub has-All :
    (P : Bytes → Type 0) (path : Bytes) (cs : List Bytes)
    → ((c : Bytes) → P c → P (child parent_path c))
    → has path cs ≡ true
    → All P cs
    → P path
has-All P path [] f h a = absurd (cc h)
has-All P path (c ∷ cs) f h a = elim (Bool-cases (bytes_beq (child parent_path c) path)) [
  | inl e ↦ subst P ((bytes_beq_iff (child parent_path c) path).0 e) (f c a.0)
  | inr e ↦ has-All P path cs f (ground (arith, h, e)) a.1
]

pub blocks-path :
    (r : Bool) (own path : Bytes) (cs : List Bytes)
    → has path cs ≡ true
    → All (λ c. blocks r own c ≡ false) cs
    → blocks r own path ≡ false
blocks-path r own path cs h a =
    has-All (λ c. blocks r own c ≡ false) path cs (λ c x. same r c x) h a
  where
    same :
        (r : Bool) (c : Bytes) → blocks r own c ≡ false → blocks r own (child parent_path c) ≡ false
    same true c x = ground (arith, x, get_seq_no-child c, is_read_type_lock-child c)
    same false c x = ground (arith, x, get_seq_no-child c)

pub All-without :
    (P : Bytes → Type 0) (path : Bytes) (cs : List Bytes) → All P cs → All P (without path cs)
All-without P path [] a = tt
All-without P path (c ∷ cs) a =
    if_cases (All P) (bytes_beq (child parent_path c) path) _ _ (All-without P path cs a.1)
      (a.0, All-without P path cs a.1)

pub has-without :
    (path other : Bytes) (cs : List Bytes)
    → path ≢ other
    → has other cs ≡ true
    → has other (without path cs) ≡ true
has-without path other [] d h = h
has-without path other (c ∷ cs) d h = elim (Bool-cases (bytes_beq (child parent_path c) path)) [
  | inl e ↦ elim (Bool-cases (bytes_beq (child parent_path c) other)) [
    | inl x ↦ absurd (
        d (
          sym ((bytes_beq_iff (child parent_path c) path).0 e)
          ∙ (bytes_beq_iff (child parent_path c) other).0 x))
    | inr x ↦
        ap (λ b. has other (if b then without path cs else c ∷ without path cs)) e
        ∙ has-without path other cs d (ground (arith, h, x))
  ]
  | inr e ↦
      ap (λ b. has other (if b then without path cs else c ∷ without path cs)) e
      ∙ ground (arith, h, has-without path other cs d)
]

-- Deleting the node of another thread.
pub IsLocal-without :
    (n : ℕ) (cs : List Bytes) (r : Bool) (path : Bytes) (k : Worker)
    → IsLocal n cs k
    → Apart (some (r, path)) (claim k.phase)
    → IsLocal n (without path cs) k
IsLocal-without n cs r path k v d = record {
  claimed = claimed (claim k.phase) v.claimed d;
  free = free k.phase v.free;
  recorded = v.recorded;
  plain = v.plain;
}
  where
    claimed :
        (o : Option (Bool × Bytes))
        → IsClaim n cs o
        → Apart (some (r, path)) o
        → IsClaim n (without path cs) o
    claimed none h d = tt
    claimed (some (s, other)) (a, b, c) d =
        (a, b, has-without path other cs (λ e. d (ap get_seq_no e)) c)

    free : (f : Phase) → IsFree cs f → IsFree (without path cs) f
    free idle h = tt
    free (entered s other) h = tt
    free (blocked s other) h = tt
    free (waiting s other) h = tt
    free (holding s other) h = All-without (λ c. blocks s other c ≡ false) path cs h

-- A new node has a larger number than all the others.
pub IsLocal-new :
    (n : ℕ) (cs : List Bytes) (name : Bytes) (k : Worker)
    → get_seq_no name ≡ n
    → IsLocal n cs k
    → IsLocal (suc n) (name ∷ cs) k
IsLocal-new n cs name k e v = record {
  claimed = claimed (claim k.phase) v.claimed;
  free = free k.phase v.claimed v.free;
  recorded = v.recorded;
  plain = v.plain;
}
  where
    claimed : (o : Option (Bool × Bytes)) → IsClaim n cs o → IsClaim (suc n) (name ∷ cs) o
    claimed none h = tt
    claimed (some (s, other)) (a, b, c) = (a, omega (arith, b), ground (arith, c))

    later : (s : Bool) (other : Bytes) → get_seq_no other < n → blocks s other name ≡ false
    later true other l = ground (arith, e, l)
    later false other l = ground (arith, e, l)

    free : (f : Phase) → IsClaim n cs (claim f) → IsFree cs f → IsFree (name ∷ cs) f
    free idle c h = tt
    free (entered s other) c h = tt
    free (blocked s other) c h = tt
    free (waiting s other) c h = tt
    free (holding s other) (a, b, c) h = (later s other b, h)
