-- ===== src/Timers/Delete.antt =====
-- ~ZkTimerQueue: the timers of the first set are deleted.
use zookeeper_cpp_client.Common.{
  ℕ, ◌≡◌, refl, ap, ◌∙◌, sym, subst, inl, inr, Bool, true, false, [], ◌∷◌, Option, none, some,
  arith, ◌==◌, ==_iff, if◌then◌else◌, Bool-cases,
}
use mathlib.Core.List.{append-nil}
use zookeeper_cpp_client.Common.Std.{find, nat_ord}
use zookeeper_cpp_client.Common.Std.{StdMap, erase, find-erase}
use zookeeper_cpp_client.Timers.{Timer, ZkTimerQueue, ◌>>=◌}
use zookeeper_cpp_client.Timers.Pairs.{PairSet, is_in}
use zookeeper_cpp_client.Timers.Valid.{is_due, is_idle, IsValid}
use zookeeper_cpp_client.Timers.Erase.{holds, Distinct, erase_active-Erased}
use zookeeper_cpp_client.Timers.Read.{IsSettled, holds_in, in_holds}

-- `none` is a timer that is deleted twice.
unfoldable pub delete_timers : PairSet → StdMap ℕ Timer → Option (StdMap ℕ Timer)
delete_timers [] store = some store
delete_timers ((e, a) ∷ es) store = do _ ← find a store; delete_timers es (erase a store)

abbrev is_live : Option Timer → Bool
is_live none = false
is_live (some t) = true

live_some : (o : Option Timer) → is_live o ≡ true → (t : Timer) × (o ≡ some t)
live_some none h = absurd (cc h)
live_some (some t) h = (t, refl)

-- Timers of different addresses are deleted once each.
delete_each :
    (es : PairSet) (store : StdMap ℕ Timer)
    → Distinct es
    → ((b : ℕ) → holds b es ≡ true → is_live (find b store) ≡ true)
    → (left : StdMap ℕ Timer) × (delete_timers es store ≡ some left)
      × ((b : ℕ) → find b left ≡ (if holds b es then none else find b store))
unfolding delete_timers
delete_each [] store d l = (store, refl, λ b. refl)
delete_each ((e, a) ∷ es) store (n, d) l =
    let (t, f) = live_some (find a store) (l a (ground arith)) in
    let (left, run, r) = delete_each es (erase a store) d (still_live n l) in
    (
      left,
      ap (λ o. o >>= λ x. delete_timers es (erase a store)) f ∙ run,
      λ b. r b ∙ ground (arith, find-erase a b store),
    )
  where
    still_live :
        holds a es ≡ false
        → ((b : ℕ) → holds b ((e, a) ∷ es) ≡ true → is_live (find b store) ≡ true)
        → (b : ℕ) → holds b es ≡ true
        → is_live (find b (erase a store)) ≡ true
    still_live n l b h = elim (Bool-cases (a == b)) [
      | inl x ↦ absurd (cc (n, h, (==_iff a b).0 x))
      | inr x ↦ ap is_live (find-erase a b store) ∙ ground (arith, x, l b, h)
    ]

live_held :
    (q : ZkTimerQueue)
    → IsValid q
    → IsSettled q
    → (b : ℕ) → holds b q.timers ≡ is_live (find b q.store)
live_held q v w b = at (find b q.store) (w b) (λ e. v.due e b)
  where
    at :
        (o : Option Timer)
        → is_idle b o q.active_timers ≡ false
        → ((e : ℕ) → is_in (e, b) q.timers ≡ is_due e b o q.active_timers)
        → holds b q.timers ≡ is_live o
    at (some t) i d = holds_in t.expiration b q.timers (ground (arith, d t.expiration, i))
    at none i d = elim (Bool-cases (holds b q.timers)) [
      | inr x ↦ x
      | inl x ↦ let (e, there) = in_holds b q.timers x in absurd (cc (there, d e))
    ]

-- The destructor deletes each live timer of a settled queue once, and none is left.
pub delete_timers_lem :
    (q : ZkTimerQueue)
    → IsValid q
    → IsSettled q
    → (left : StdMap ℕ Timer) × (delete_timers q.timers q.store ≡ some left)
      × ((b : ℕ) → find b left ≡ none)
delete_timers_lem q v w =
    let (q1, run, r) =
      erase_active-Erased q.timers [] q
        (subst (λ ts. IsValid (record q { timers = ts })) (sym (append-nil q.timers)) v) in
    let (left, ran, s) =
      delete_each q.timers q.store r.distinct (λ b h. sym (live_held q v w b) ∙ h) in
    (left, ran, λ b. s b ∙ gone (find b q.store) (holds b q.timers) (live_held q v w b))
  where
    gone : (o : Option Timer) (h : Bool) → h ≡ is_live o → (if h then none else o) ≡ none
    gone none h e = ground arith
    gone (some t) h e = ground (arith, e)
