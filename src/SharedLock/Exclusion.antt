-- ===== src/SharedLock/Exclusion.antt =====
-- What the shared lock promises.
use zookeeper_cpp_client.Common.{
  ℕ, ◌≡◌, ◌≢◌, refl, subst, Bool, true, false, List, some, arith, All,
}
use zookeeper_cpp_client.Codes.{Bytes}
use zookeeper_cpp_client.SharedLock.{blocks, ready_lock, new_shared_lock}
use zookeeper_cpp_client.SharedLock.Names.{IsPlain, get_seq_no}
use zookeeper_cpp_client.SharedLock.World.{
  Phase, idle, entered, blocked, waiting, holding, World, Action, run, new_world,
}
use zookeeper_cpp_client.SharedLock.Valid.{claim, IsClaim, IsFree, Apart, IsValid}
use zookeeper_cpp_client.SharedLock.Children.{blocks-path}
use zookeeper_cpp_client.SharedLock.Course.{IsSuffix, run-IsValid}

pub new_world-IsValid :
    (names : ℕ → Bytes) → ((p : ℕ) → IsPlain (names p)) → IsValid (new_world names)
unfolding new_world ready_lock new_shared_lock
new_world-IsValid names h = record {
  bounded = tt;
  limited = omega arith;
  local = λ p. record { claimed = tt; free = tt; recorded = (refl, refl); plain = h p };
  apart = λ p q d. tt;
}

abbrev pub is_holding : Phase → Bool
is_holding (holding r path) = true
is_holding _ = false

-- Two holders of which one writes.
no_two_holders :
    (n : ℕ) (cs : List Bytes) (r : Bool) (a b : Bytes)
    → IsClaim n cs (some (false, a))
    → IsClaim n cs (some (r, b))
    → All (λ c. blocks false a c ≡ false) cs
    → All (λ c. blocks r b c ≡ false) cs
    → get_seq_no a ≡ get_seq_no b
no_two_holders n cs true a b (ra, la, ha) (rb, lb, hb) fa fb =
    ground (arith, blocks-path false a b cs hb fa, blocks-path true b a cs ha fb, ra)
no_two_holders n cs false a b (ra, la, ha) (rb, lb, hb) fa fb =
    ground (arith, blocks-path false a b cs hb fa, blocks-path false b a cs ha fb)

alone :
    (n : ℕ) (cs : List Bytes) (a : Bytes) (f : Phase)
    → IsClaim n cs (some (false, a))
    → All (λ c. blocks false a c ≡ false) cs
    → IsClaim n cs (claim f)
    → IsFree cs f
    → Apart (some (false, a)) (claim f)
    → is_holding f ≡ false
alone n cs a idle ca fa c h d = refl
alone n cs a (entered r b) ca fa c h d = refl
alone n cs a (blocked r b) ca fa c h d = refl
alone n cs a (waiting r b) ca fa c h d = refl
alone n cs a (holding r b) ca fa c h d = absurd (d (no_two_holders n cs r a b ca c fa h))

module _ (suffix : ℕ → Bytes) (s : IsSuffix suffix) (names : ℕ → Bytes) where
  -- Over every course of steps of any number of lock objects whose names have no dash, while no
  -- session expires and before the sequence numbers overflow: when a thread holds the lock as a
  -- writer, no thread of another object holds it, as a reader or as a writer. Failing calls and
  -- spurious wake-ups are among the steps.
  pub writer_excludes :
      (acts : List Action) (w : World) (p q : ℕ) (path : Bytes)
      → ((p : ℕ) → IsPlain (names p))
      → run suffix acts (new_world names) ≡ some w
      → (w.worker p).phase ≡ holding false path
      → p ≢ q
      → is_holding (w.worker q).phase ≡ false
  writer_excludes acts w p q path h e x d =
      let v = run-IsValid suffix s acts (new_world names) w (new_world-IsValid names h) e in
      alone w.counter w.children path (w.worker q).phase
        (subst (λ f. IsClaim w.counter w.children (claim f)) x (v.local p).claimed)
        (subst (IsFree w.children) x (v.local p).free) (v.local q).claimed (v.local q).free
        (subst (λ f. Apart (claim f) (claim (w.worker q).phase)) x (v.apart p q d))
