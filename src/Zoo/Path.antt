-- ===== src/Zoo/Path.antt =====
-- Node paths as byte strings.
use zookeeper_cpp_client.Common.{
  ℕ, zero, suc, ◌<◌, ◌≡◌, ◌⊎◌, Bool, List, [], ◌∷◌, ◌++◌, Option, none, some, arith, inl, inr, All,
  length, length-append, ◌==◌, if◌then◌else◌,
}
use mathlib.Core.List.{append_assoc}
use zookeeper_cpp_client.Codes.{Bytes}

abbrev pub slash : ℕ
slash = b'/'

abbrev pub after_first : Bool → Option ℕ → Option ℕ
after_first here none = if here then some 0 else none
after_first here (some i) = some (suc i)

-- std::string::rfind: the last place of a byte.
unfoldable pub rfind : ℕ → Bytes → Option ℕ
rfind c [] = none
rfind c (x ∷ xs) = after_first (x == c) (rfind c xs)

pub rfind-lt-length : (c : ℕ) (xs : Bytes) (i : ℕ) → rfind c xs ≡ some i → i < length xs
unfolding rfind
rfind-lt-length c [] i h = cc
rfind-lt-length c (x ∷ xs) zero h = omega arith
rfind-lt-length c (x ∷ xs) (suc i) h = ground (arith, rfind-lt-length c xs i)

-- `path + "/" + name`
abbrev pub child : Bytes → Bytes → Bytes
child path name = path ++ slash ∷ name

abbrev pub IsUnder : Bytes → Bytes → Type 0
IsUnder p q = (r : Bytes) × (q ≡ child p r)

-- Some element has the property.
abbrev pub Any {ℓ} : {A : Type ℓ} → (A → Type 0) → List A → Type 0
Any P [] = ⊥
Any P (x ∷ xs) = P x ⊎ Any P xs

pub Any-All {ℓ} :
    {A : Type ℓ} (P Q : A → Type 0) (C : Type 0) (xs : List A)
    → Any P xs
    → All Q xs
    → ((x : A) → P x → Q x → C)
    → C
Any-All P Q C [] a b f = elim a [ ]
Any-All P Q C (x ∷ xs) (inl p) b f = f x p b.0
Any-All P Q C (x ∷ xs) (inr a) b f = Any-All P Q C xs a b.1 f

pub length-child : (p n : Bytes) → length p < length (child p n)
length-child p n = omega (arith, length-append p (slash ∷ n))

pub child_of_child : (p n r : Bytes) → child (child p n) r ≡ child p (child n r)
child_of_child p n r = append_assoc p (slash ∷ n) (slash ∷ r)
