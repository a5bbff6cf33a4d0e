-- ===== src/SharedLock/Cases.antt =====
-- The steps that the phases of the lock objects allow, as one case lemma.
use zookeeper_cpp_client.Common.{
  ℕ, ◌<◌, ◌≡◌, Bool, Option, none, some, arith, ltb, if_split, if_cases, ◌&&◌, ◌⊎◌, inl, inr,
}
use zookeeper_cpp_client.Codes.{Bytes}
use zookeeper_cpp_client.SharedLock.{least_node, unlock, reg_watcher_cb}
use zookeeper_cpp_client.SharedLock.World.{
  Phase, idle, entered, blocked, waiting, holding, World, Action, creates, looks, registers,
  notified, wakes, gives_up, unlocks, max_counter, with_phase, looked, unlocked, created, step,
  actor, same_kind,
}

-- A property of every step that is possible, and of the impossible ones.
pub record OfSteps (suffix : ℕ → Bytes) (P : Option World → Type 0) (w : World) : Type 0 where
  pub stuck : P none
  pub creating :
      (p : ℕ) (r : Bool)
      → (w.worker p).phase ≡ idle
      → w.counter < max_counter
      → P (some (created suffix p r w))
  pub looking :
      (p : ℕ) (r : Bool) (path : Bytes)
      → (w.worker p).phase ≡ entered r path
      → P (some (looked p r path (least_node r path w.children) w))
  pub registering :
      (p : ℕ) (r : Bool) (path : Bytes)
      → (w.worker p).phase ≡ blocked r path
      → P (some (with_phase p (waiting r path) w))
  pub waking :
      (p : ℕ) (r : Bool) (path : Bytes)
      → (w.worker p).phase ≡ waiting r path
      → P (some (with_phase p (entered r path) w))
  pub unchanged : P (some w)
  pub leaving :
      (p : ℕ) (r : Bool) (path : Bytes)
      → ((w.worker p).phase ≡ entered r path) ⊎ ((w.worker p).phase ≡ blocked r path)
      → P (some (with_phase p idle w))
  pub unlocking :
      (p : ℕ) (deleted r : Bool) (path : Bytes)
      → (w.worker p).phase ≡ holding r path
      → P (unlocked p deleted (unlock (w.worker p).lock) w)

pub step_cases :
    (suffix : ℕ → Bytes) (P : Option World → Type 0) (a : Action) (f : Phase) (w : World)
    → OfSteps suffix P w
    → (w.worker (actor a)).phase ≡ f
    → P (step suffix a f w)
step_cases suffix P (creates p r) idle w h e =
    if_split P (ltb w.counter max_counter) (some (created suffix p r w)) none
      (λ l. h.creating p r e (ground (arith, l))) (λ l. h.stuck)
step_cases suffix P (creates p r) (entered s path) w h e = h.stuck
step_cases suffix P (creates p r) (blocked s path) w h e = h.stuck
step_cases suffix P (creates p r) (waiting s path) w h e = h.stuck
step_cases suffix P (creates p r) (holding s path) w h e = h.stuck
step_cases suffix P (looks p) idle w h e = h.stuck
step_cases suffix P (looks p) (entered r path) w h e = h.looking p r path e
step_cases suffix P (looks p) (blocked r path) w h e = h.stuck
step_cases suffix P (looks p) (waiting r path) w h e = h.stuck
step_cases suffix P (looks p) (holding r path) w h e = h.stuck
step_cases suffix P (registers p) idle w h e = h.stuck
step_cases suffix P (registers p) (entered r path) w h e = h.stuck
step_cases suffix P (registers p) (blocked r path) w h e = h.registering p r path e
step_cases suffix P (registers p) (waiting r path) w h e = h.stuck
step_cases suffix P (registers p) (holding r path) w h e = h.stuck
step_cases suffix P (notified p k type deleted) idle w h e = h.unchanged
step_cases suffix P (notified p k type deleted) (entered s path) w h e = h.unchanged
step_cases suffix P (notified p k type deleted) (blocked s path) w h e = h.unchanged
step_cases suffix P (notified p k type deleted) (waiting r path) w h e =
    if_cases (λ x. P (some x)) (same_kind k r && reg_watcher_cb k type deleted (w.worker p).lock) _
      w (h.waking p r path e) h.unchanged
step_cases suffix P (notified p k type deleted) (holding s path) w h e = h.unchanged
step_cases suffix P (wakes p) idle w h e = h.stuck
step_cases suffix P (wakes p) (entered r path) w h e = h.stuck
step_cases suffix P (wakes p) (blocked r path) w h e = h.stuck
step_cases suffix P (wakes p) (waiting r path) w h e = h.waking p r path e
step_cases suffix P (wakes p) (holding r path) w h e = h.stuck
step_cases suffix P (gives_up p) idle w h e = h.stuck
step_cases suffix P (gives_up p) (entered r path) w h e = h.leaving p r path (inl e)
step_cases suffix P (gives_up p) (blocked r path) w h e = h.leaving p r path (inr e)
step_cases suffix P (gives_up p) (waiting r path) w h e = h.stuck
step_cases suffix P (gives_up p) (holding r path) w h e = h.stuck
step_cases suffix P (unlocks p d) idle w h e = h.stuck
step_cases suffix P (unlocks p d) (entered r path) w h e = h.stuck
step_cases suffix P (unlocks p d) (blocked r path) w h e = h.stuck
step_cases suffix P (unlocks p d) (waiting r path) w h e = h.stuck
step_cases suffix P (unlocks p d) (holding r path) w h e = h.unlocking p d r path e
