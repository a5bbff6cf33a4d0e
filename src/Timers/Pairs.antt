-- ===== src/Timers/Pairs.antt =====
-- `std::set` of pairs of numbers, as lists in lexicographic order: the sets of ZkTimerQueue.
use zookeeper_cpp_client.Common.{
  ℕ, suc, ◌≤◌, ◌≡◌, refl, inl, inr, Bool, true, false, not, ◌&&◌, ◌||◌, List, [], ◌∷◌, ◌++◌, arith,
  ltb, ◌==◌, if◌then◌else◌, length, All, Bool-cases, if_cases, subst,
}

abbrev pub Pair : Type 0
Pair = ℕ × ℕ

abbrev pub eqb : Pair → Pair → Bool
eqb k j = (k.0 == j.0) && (k.1 == j.1)

-- operator< of std::pair
abbrev pub less : Pair → Pair → Bool
less k j = ltb k.0 j.0 || ((k.0 == j.0) && ltb k.1 j.1)

abbrev pub PairSet : Type 0
PairSet = List Pair

unfoldable pub is_in : Pair → PairSet → Bool
is_in k [] = false
is_in k (j ∷ m) = eqb j k || is_in k m

-- s.insert(k), of a key that is not there yet
unfoldable pub put : Pair → PairSet → PairSet
put k [] = k ∷ []
put k (j ∷ m) = let rest = put k m in if less k j then k ∷ j ∷ m else j ∷ rest

-- s.erase(k)
unfoldable pub drop : Pair → PairSet → PairSet
drop k [] = []
drop k (j ∷ m) = let rest = drop k m in if eqb j k then rest else j ∷ rest

-- [s.begin(), s.lower_bound(k)), and [s.lower_bound(k), s.end())
unfoldable pub below : Pair → PairSet → PairSet
below k [] = []
below k (j ∷ m) = let rest = below k m in if less j k then j ∷ rest else []

unfoldable pub from : Pair → PairSet → PairSet
from k [] = []
from k (j ∷ m) = let rest = from k m in if less j k then rest else j ∷ m

abbrev pub IsSorted : PairSet → Type 0
IsSorted [] = Unit
IsSorted (k ∷ m) = All (λ j. less k j ≡ true) m × IsSorted m

pub eqb_iff : (k j : Pair) → eqb k j ≡ true → k ≡ j
eqb_iff (a, b) (c, d) h = ground arith

pub is_in-put : (k j : Pair) (m : PairSet) → is_in j (put k m) ≡ (eqb k j || is_in j m)
unfolding is_in put
is_in-put k j [] = refl
is_in-put k j (i ∷ m) = ground (arith, is_in-put k j m)

pub is_in-drop :
    (k j : Pair) (m : PairSet) → is_in j (drop k m) ≡ (if eqb k j then false else is_in j m)
unfolding is_in drop
is_in-drop k j [] = ground arith
is_in-drop k j (i ∷ m) = ground (arith, is_in-drop k j m)

pub length-put : (k : Pair) (m : PairSet) → length (put k m) ≡ suc (length m)
unfolding put
length-put k [] = refl
length-put k (i ∷ m) = ground (arith, length-put k m)

-- A smaller key than all is not there.
absent_below : (k : Pair) (m : PairSet) → All (λ j. less k j ≡ true) m → is_in k m ≡ false
unfolding is_in
absent_below k [] a = refl
absent_below k (i ∷ m) a = ground (arith, absent_below k m a.1)

drop_absent : (k : Pair) (m : PairSet) → is_in k m ≡ false → drop k m ≡ m
unfolding is_in drop
drop_absent k [] h = refl
drop_absent k (i ∷ m) h = ground (arith, drop_absent k m)

pub length-drop :
    (k : Pair) (m : PairSet) → IsSorted m → is_in k m ≡ true → suc (length (drop k m)) ≡ length m
unfolding is_in drop
length-drop k [] s h = cc
length-drop k (i ∷ m) s h = elim (Bool-cases (eqb i k)) [
  | inl e ↦
      let gone =
        drop_absent k m
          (absent_below k m (subst (λ j. All (λ l. less j l ≡ true) m) (eqb_iff i k e) s.0)) in
      ground (arith, gone)
  | inr e ↦ ground (arith, length-drop k m s.1)
]

less_trans : (i j k : Pair) → less i j ≡ true → less j k ≡ true → less i k ≡ true
less_trans (a, b) (c, d) (e, f) h g = ground arith

-- What is below a key is below all that the key is below.
All-less :
    (i j : Pair) (m : PairSet)
    → less i j ≡ true
    → All (λ l. less j l ≡ true) m
    → All (λ l. less i l ≡ true) m
All-less i j [] h a = tt
All-less i j (k ∷ m) h a = (less_trans i j k h a.0, All-less i j m h a.1)

All-drop :
    (i k : Pair) (m : PairSet)
    → All (λ j. less i j ≡ true) m
    → All (λ j. less i j ≡ true) (drop k m)
unfolding drop
All-drop i k [] a = tt
All-drop i k (j ∷ m) a =
    if_cases (λ ys. All (λ l. less i l ≡ true) ys) (eqb j k) _ _ (All-drop i k m a.1)
      (a.0, All-drop i k m a.1)

All-put :
    (i k : Pair) (m : PairSet)
    → less i k ≡ true
    → All (λ j. less i j ≡ true) m
    → All (λ j. less i j ≡ true) (put k m)
unfolding put
All-put i k [] h a = (h, tt)
All-put i k (j ∷ m) h a =
    if_cases (λ ys. All (λ l. less i l ≡ true) ys) (less k j) _ _ (h, a) (a.0, All-put i k m h a.1)

pub put-IsSorted : (k : Pair) (m : PairSet) → is_in k m ≡ false → IsSorted m → IsSorted (put k m)
unfolding put is_in
put-IsSorted k [] h s = (tt, tt)
put-IsSorted k (j ∷ m) h s = elim (Bool-cases (less k j)) [
  | inl e ↦ rw e ((e, All-less k j m e s.0), s)
  | inr e ↦
      rw e (All-put j k m (ground (arith, h, e)) s.0, put-IsSorted k m (ground (arith, h)) s.1)
]

pub drop-IsSorted : (k : Pair) (m : PairSet) → IsSorted m → IsSorted (drop k m)
unfolding drop
drop-IsSorted k [] s = tt
drop-IsSorted k (j ∷ m) s =
    if_cases IsSorted (eqb j k) _ _ (drop-IsSorted k m s.1)
      (All-drop j k m s.0, drop-IsSorted k m s.1)

-- lower_bound cuts a set in two, and what is before it is below the key.
pub below-from : (k : Pair) (m : PairSet) → below k m ++ from k m ≡ m
unfolding below from
below-from k [] = refl
below-from k (j ∷ m) = ground (arith, below-from k m)

pub All-below : (k : Pair) (m : PairSet) → All (λ j. less j k ≡ true) (below k m)
unfolding below
All-below k [] = tt
All-below k (j ∷ m) = elim (Bool-cases (less j k)) [
  | inl e ↦ rw e (e, All-below k m)
  | inr e ↦ rw e tt
]

-- A key of a set that another is below.
member_above :
    (i j : Pair) (m : PairSet) → All (λ l. less i l ≡ true) m → is_in j m ≡ true → less i j ≡ true
unfolding is_in
member_above i j [] a h = cc
member_above i j (l ∷ m) a h = ground (arith, member_above i j m a.1)

-- In a set in order, nothing below the key is behind it.
pub is_in-from :
    (k j : Pair) (m : PairSet) → IsSorted m → is_in j (from k m) ≡ (is_in j m && not (less j k))
unfolding from is_in
is_in-from k j [] s = refl
is_in-from k j (i ∷ m) s = ground (arith, is_in-from k j m s.1, member_above i j m s.0)

pub is_in-below :
    (k j : Pair) (m : PairSet) → IsSorted m → is_in j (below k m) ≡ (is_in j m && less j k)
unfolding below is_in
is_in-below k j [] s = refl
is_in-below k j (i ∷ m) s = ground (arith, is_in-below k j m s.1, member_above i j m s.0)

pub from-IsSorted : (k : Pair) (m : PairSet) → IsSorted m → IsSorted (from k m)
unfolding from
from-IsSorted k [] s = tt
from-IsSorted k (j ∷ m) s = if_cases IsSorted (less j k) _ _ (from-IsSorted k m s.1) s

pub drop_head : (k : Pair) (m : PairSet) → IsSorted (k ∷ m) → drop k (k ∷ m) ≡ m
unfolding drop
drop_head k m s = ground (arith, drop_absent k m (absent_below k m s.0))

-- The first entry of a set is the earliest.
pub first_least : (k j : Pair) (m : PairSet) → IsSorted (k ∷ m) → is_in j (k ∷ m) ≡ true → k.0 ≤ j.0
unfolding is_in
first_least k j m s h = ground (arith, h, member_above k j m s.0)
