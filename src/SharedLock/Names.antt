-- ===== src/SharedLock/Names.antt =====
-- The names of the nodes of a shared lock, in example/distribute_sharedlock.cc: the name of the lock,
-- "-R-" or "-W-", and the sequence number that the servers append.
use zookeeper_cpp_client.Common.{
  ℕ, ◌+◌, ◌-◌, ◌*◌, ◌^◌, min, ◌≡◌, refl, ap, ◌∙◌, Bool, true, false, not, ◌&&◌, [], ◌∷◌, ◌++◌,
  Option, none, some, arith, ltb, leb, ◌==◌, if◌then◌else◌, All,
}
use zookeeper_cpp_client.Codes.{Bytes}

-- What is left of a string behind the other one at its front.
abbrev pub strip : Bytes → Bytes → Option Bytes
strip [] s = some s
strip (c ∷ pattern) [] = none
strip (c ∷ pattern) (b ∷ s) = if b == c then strip pattern s else none

abbrev pub or_later : Option Bytes → Option Bytes → Option Bytes
or_later none o = o
or_later (some s) o = some s

-- `s.substr(s.find(pattern) + 3)`, or `none` for npos.
unfoldable pub after : Bytes → Bytes → Option Bytes
after pattern [] = none
after pattern (b ∷ s) = or_later (strip pattern (b ∷ s)) (after pattern s)

-- "-R-" and "-W-"
abbrev pub mark : Bool → Bytes
mark true = b'-' ∷ b'R' ∷ b'-' ∷ []
mark false = b'-' ∷ b'W' ∷ b'-' ∷ []

abbrev pub is_some : Option Bytes → Bool
is_some none = false
is_some (some s) = true

unfoldable pub is_read_type_lock : Bytes → Bool
unfolding after
is_read_type_lock name = is_some (after (mark true) name)

abbrev pub is_digit : ℕ → Bool
is_digit b = leb b'0' b && leb b b'9'

-- The decimal number at the front of a string, behind the digits that were read.
unfoldable pub digits : ℕ → Bytes → ℕ
digits n [] = n
digits n (b ∷ s) = let more = digits (n * 10 + (b - b'0')) s in if is_digit b then more else n

-- strtouq of a string without blanks and signs at its front, which saturates.
unfoldable pub strtouq : Bytes → ℕ
unfolding digits
strtouq s = min (digits 0 s) (2 ^ 64 - 1)

abbrev pub seq_behind : Option Bytes → Option Bytes → ℕ
seq_behind (some s) o = strtouq s
seq_behind none (some s) = strtouq s
seq_behind none none = 0

unfoldable pub get_seq_no : Bytes → ℕ
unfolding after strtouq
get_seq_no name = seq_behind (after (mark true) name) (after (mark false) name)

unfoldable pub data_less : Bytes → Bytes → Bool
unfolding get_seq_no
data_less a b = ltb (get_seq_no a) (get_seq_no b)

-- No byte of the string is a dash.
abbrev pub IsPlain : Bytes → Type 0
IsPlain s = All (λ b. (b == b'-') ≡ false) s

after-plain : (r : Bool) (s : Bytes) → IsPlain s → after (mark r) s ≡ none
unfolding after
after-plain r [] p = refl
after-plain true (b ∷ s) p = ground (arith, p.0, after-plain true s p.1)
after-plain false (b ∷ s) p = ground (arith, p.0, after-plain false s p.1)

-- A string without a dash may stand in front.
pub after-append : (r : Bool) (u s : Bytes) → IsPlain u → after (mark r) (u ++ s) ≡ after (mark r) s
unfolding after
after-append r [] s p = refl
after-append true (b ∷ u) s p = ground (arith, p.0, after-append true u s p.1)
after-append false (b ∷ u) s p = ground (arith, p.0, after-append false u s p.1)

after-mark : (r : Bool) (s : Bytes) → after (mark r) (mark r ++ s) ≡ some s
unfolding after
after-mark true s = refl
after-mark false s = refl

after_other_mark : (r : Bool) (s : Bytes) → IsPlain s → after (mark r) (mark (not r) ++ s) ≡ none
unfolding after
after_other_mark true [] p = refl
after_other_mark false [] p = refl
after_other_mark true (b ∷ []) p = ground (arith, p.0)
after_other_mark false (b ∷ []) p = ground (arith, p.0)
after_other_mark true (b ∷ c ∷ s) p = ground (arith, p, after-plain true (b ∷ c ∷ s) p)
after_other_mark false (b ∷ c ∷ s) p = ground (arith, p, after-plain false (b ∷ c ∷ s) p)

-- What stands in front of a name without a dash changes nothing that the lock reads from it.
pub is_read_type_lock-append :
    (u s : Bytes) → IsPlain u → is_read_type_lock (u ++ s) ≡ is_read_type_lock s
unfolding is_read_type_lock
is_read_type_lock-append u s p = ap is_some (after-append true u s p)

pub get_seq_no-append : (u s : Bytes) → IsPlain u → get_seq_no (u ++ s) ≡ get_seq_no s
unfolding get_seq_no
get_seq_no-append u s p =
    ap (λ o. seq_behind o (after (mark false) (u ++ s))) (after-append true u s p)
    ∙ ap (seq_behind (after (mark true) s)) (after-append false u s p)

-- The name of a lock without a dash, the kind of the lock and the number.
abbrev pub node_name : Bytes → Bool → Bytes → Bytes
node_name name r number = name ++ (mark r ++ number)

pub is_read_type_lock-node_name :
    (name : Bytes) (r : Bool) (number : Bytes)
    → IsPlain name
    → IsPlain number
    → is_read_type_lock (node_name name r number) ≡ r
unfolding is_read_type_lock
is_read_type_lock-node_name name true number p n =
    ap is_some (after-append true name (mark true ++ number) p ∙ after-mark true number)
is_read_type_lock-node_name name false number p n =
    ap is_some (after-append true name (mark false ++ number) p ∙ after_other_mark true number n)

pub get_seq_no-node_name :
    (name : Bytes) (r : Bool) (number : Bytes)
    → IsPlain name
    → IsPlain number
    → get_seq_no (node_name name r number) ≡ strtouq number
unfolding get_seq_no
get_seq_no-node_name name true number p n =
    ap (λ o. seq_behind o (after (mark false) (node_name name true number)))
      (after-append true name (mark true ++ number) p ∙ after-mark true number)
get_seq_no-node_name name false number p n =
    ap (λ o. seq_behind o (after (mark false) (node_name name false number)))
      (after-append true name (mark false ++ number) p ∙ after_other_mark true number n)
    ∙ ap (seq_behind none)
        (after-append false name (mark false ++ number) p ∙ after-mark false number)
