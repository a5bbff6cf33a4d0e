-- ===== src/Timers/Spec.antt =====
-- A timer queue as the map of its live timers: what the calls of a queue do to the map.
use zookeeper_cpp_client.Common.{
  ℕ, ◌<◌, ◌≡◌, Bool, false, not, ◌&&◌, ◌||◌, List, [], ◌∷◌, Option, none, some, ◌==◌, if◌then◌else◌,
}
use zookeeper_cpp_client.Common.Std.{find, nat_ord}
use zookeeper_cpp_client.Timers.{Timer, ZkTimerQueue, Op, adds, cancels, is_before, uintptr_max}
use zookeeper_cpp_client.Timers.Valid.{has_sequence}

-- A queue as the map of its live timers.
abbrev pub Timers : Type 0
Timers = ℕ → Option Timer

-- One call on the map. A timer whose callback runs stays; a cancellation of any other removes it
-- when the sequence number is its own.
abbrev pub call : (ℕ → Bool) → Op → Timers → Timers
call busy (adds a t) m = λ b. if a == b then some t else m b
call busy (cancels a s) m =
    λ b. if (a == b) && (not (busy a) && has_sequence s (m a)) then none else m b

abbrev pub calls : (ℕ → Bool) → List Op → Timers → Timers
calls busy [] m = m
calls busy (op ∷ ops) m = calls busy ops (call busy op m)

-- `new` returns an address that no live timer has, and never the largest.
abbrev pub IsFresh : Op → Timers → Type 0
IsFresh (adds a t) m = (m a ≡ none) × (a < uintptr_max)
IsFresh (cancels a s) m = Unit

abbrev pub AllFresh : (ℕ → Bool) → List Op → Timers → Type 0
AllFresh busy [] m = Unit
AllFresh busy (op ∷ ops) m = IsFresh op m × AllFresh busy ops (call busy op m)

-- Some call cancels the timer of the address and the sequence number.
abbrev pub is_cancel : ℕ → ℕ → Op → Bool
is_cancel b n (adds a t) = false
is_cancel b n (cancels a s) = (a == b) && (s == n)

abbrev pub cancelled : ℕ → ℕ → List Op → Bool
cancelled b n [] = false
cancelled b n (op ∷ ops) = is_cancel b n op || cancelled b n ops

abbrev pub timers_of : ZkTimerQueue → Timers
timers_of q a = find a q.store

-- The time that a call sets the timerfd to.
abbrev pub set_by : Op → ZkTimerQueue → Option ℕ
set_by (adds a t) q = if is_before t.expiration q.timers then some t.expiration else none
set_by (cancels a s) q = none
