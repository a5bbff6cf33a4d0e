-- ===== src/Common/Std.antt =====
-- `std::map` and `std::set`, as lists in the order of the keys, over an order of the keys.
-- A scan by equality finds what a search of the tree finds, since a key stands once.
use Prim.Native.Nat.{ℕ}
use mathlib.Core.Path.{◌≡◌, refl}
use mathlib.Core.Logic.{◌↔◌}
use mathlib.Core.Bool.{Bool, true, false, ◌&&◌, ◌||◌}
use mathlib.Core.Option.{Option, none, some}
use mathlib.Core.List.{List, [], ◌∷◌}
use native.Mathlib.Omega.{arith}
use zookeeper_cpp_client.Common.Tests.{ltb, ◌==◌ as nat_beq, ==_iff, if◌then◌else◌}

-- The tests that a key type offers.
pub record Ord {ℓ} (K : Type ℓ) : Type ℓ where
  pub beq : K → K → Bool
  pub less : K → K → Bool
  pub beq_iff : (a b : K) → (beq a b ≡ true) ↔ (a ≡ b)

instance abbrev pub nat_ord : Ord ℕ
nat_ord = record { beq = nat_beq; less = ltb; beq_iff = ==_iff }

-- Lexicographic order of byte strings, as `std::string` has it.
abbrev pub bytes_beq : List ℕ → List ℕ → Bool
bytes_beq [] [] = true
bytes_beq [] (y ∷ ys) = false
bytes_beq (x ∷ xs) [] = false
bytes_beq (x ∷ xs) (y ∷ ys) = nat_beq x y && bytes_beq xs ys

abbrev pub bytes_less : List ℕ → List ℕ → Bool
bytes_less xs [] = false
bytes_less [] (y ∷ ys) = true
bytes_less (x ∷ xs) (y ∷ ys) = ltb x y || (nat_beq x y && bytes_less xs ys)

pub bytes_beq_iff : (xs ys : List ℕ) → (bytes_beq xs ys ≡ true) ↔ (xs ≡ ys)
bytes_beq_iff [] [] = (λ _. refl, λ _. refl)
bytes_beq_iff [] (y ∷ ys) = (λ h. cc, λ h. cc)
bytes_beq_iff (x ∷ xs) [] = (λ h. cc, λ h. cc)
bytes_beq_iff (x ∷ xs) (y ∷ ys) = ground (arith, bytes_beq_iff xs ys)

-- std::find over strings: whether it is found.
abbrev pub contains : List ℕ → List (List ℕ) → Bool
contains name [] = false
contains name (c ∷ cs) = bytes_beq c name || contains name cs

instance abbrev pub bytes_ord : Ord (List ℕ)
bytes_ord = record { beq = bytes_beq; less = bytes_less; beq_iff = bytes_beq_iff }

abbrev pub StdMap {ℓ κ} : Type ℓ → Type κ → Type (ℓ ⊔ κ)
StdMap K V = List (K × V)

module _ {ℓ κ} {K : Type ℓ} {V : Type κ} ⦃o : Ord K⦄ where
  -- m.find(k)
  unfoldable pub find : K → StdMap K V → Option V
  find k [] = none
  find k ((j, v) ∷ m) = if o.beq j k then some v else find k m

  -- m[k] = v
  unfoldable pub assign : K → V → StdMap K V → StdMap K V
  assign k v [] = (k, v) ∷ []
  assign k v ((j, w) ∷ m) =
      let rest = assign k v m in
      if o.beq j k then (k, v) ∷ m else if o.less k j then (k, v) ∷ (j, w) ∷ m else (j, w) ∷ rest

  -- m.erase(k)
  unfoldable pub erase : K → StdMap K V → StdMap K V
  erase k [] = []
  erase k ((j, w) ∷ m) = let rest = erase k m in if o.beq j k then rest else (j, w) ∷ rest

  pub find-assign :
      (k j : K) (v : V) (m : StdMap K V)
      → find j (assign k v m) ≡ (if o.beq k j then some v else find j m)
  unfolding find assign
  find-assign k j v [] = refl
  find-assign k j v ((i, w) ∷ m) =
      ground (arith, o.beq_iff k j, o.beq_iff i k, o.beq_iff i j, find-assign k j v m)

  pub find-erase :
      (k j : K) (m : StdMap K V) → find j (erase k m) ≡ (if o.beq k j then none else find j m)
  unfolding find erase
  find-erase k j [] = ground arith
  find-erase k j ((i, w) ∷ m) =
      ground (arith, o.beq_iff k j, o.beq_iff i k, o.beq_iff i j, find-erase k j m)

  pub find-assign_self : (k : K) (v : V) (m : StdMap K V) → find k (assign k v m) ≡ some v
  find-assign_self k v m = ground (arith, find-assign k k v m, o.beq_iff k k)

  pub find-erase_self : (k : K) (m : StdMap K V) → find k (erase k m) ≡ none
  find-erase_self k m = ground (arith, find-erase k k m, o.beq_iff k k)
