-- ===== src/Common/Steps.antt =====
-- Courses of steps, of which some may be impossible.
use mathlib.Core.Path.{◌≡◌, refl}
use mathlib.Core.Option.{Option, none, some}
use mathlib.Core.List.{List, [], ◌∷◌, ◌++◌}
use zookeeper_cpp_client.Common.Lists.{All}

module _ {ℓ} {W : Type ℓ} where
  -- What a step leads to has the property, where it is possible.
  abbrev pub Leads : (W → Type 0) → Option W → Type 0
  Leads P none = Unit
  Leads P (some w) = P w

  abbrev pub then_step : Option W → (W → Option W) → Option W
  then_step none f = none
  then_step (some w) f = f w

  then_step-Leads :
      (P : W → Type 0) (o : Option W) (f : W → Option W)
      → Leads P o
      → ((w : W) → P w → Leads P (f w))
      → Leads P (then_step o f)
  then_step-Leads P none f h k = h
  then_step-Leads P (some w) f h k = k w h

  then_last :
      (o : Option W) (f g : W → Option W) (w1 w2 : W)
      → ((x : W) → f x ≡ some w1 → g x ≡ some w2)
      → then_step o f ≡ some w1
      → then_step o g ≡ some w2
  then_last none f g w1 w2 c h = cc h
  then_last (some x) f g w1 w2 c h = c x h

module _ {ℓ κ} {A : Type ℓ} {W : Type κ} where
  unfoldable pub follow : (A → W → Option W) → List A → W → Option W
  follow step [] w = some w
  follow step (a ∷ acts) w = then_step (step a w) (λ x. follow step acts x)

  -- The induction over a course, done once.
  pub follow-Leads :
      (P : W → Type 0) (step : A → W → Option W)
      → ((a : A) (w : W) → P w → Leads P (step a w))
      → (acts : List A) (w : W) → P w
      → Leads P (follow step acts w)
  unfolding follow
  follow-Leads P step keep [] w h = h
  follow-Leads P step keep (a ∷ acts) w h =
      then_step-Leads P (step a w) (λ x. follow step acts x) (keep a w h)
        (λ x k. follow-Leads P step keep acts x k)

  -- The same where the steps of the course have a property.
  pub follow-Leads_where :
      (Q : A → Type 0) (P : W → Type 0) (step : A → W → Option W)
      → ((a : A) (w : W) → Q a → P w → Leads P (step a w))
      → (acts : List A) (w : W) → All Q acts
      → P w
      → Leads P (follow step acts w)
  unfolding follow
  follow-Leads_where Q P step keep [] w q h = h
  follow-Leads_where Q P step keep (a ∷ acts) w q h =
      then_step-Leads P (step a w) (λ x. follow step acts x) (keep a w q.0 h)
        (λ x k. follow-Leads_where Q P step keep acts x q.1 k)

  pub follow_first :
      (step : A → W → Option W) (a : A) (acts : List A) (w w1 w2 : W)
      → step a w ≡ some w1
      → follow step acts w1 ≡ some w2
      → follow step (a ∷ acts) w ≡ some w2
  unfolding follow
  follow_first step a acts w w1 w2 h k = rw h k

  pub follow_last :
      (step : A → W → Option W) (acts : List A) (b : A) (w w1 w2 : W)
      → step b w1 ≡ some w2
      → follow step acts w ≡ some w1
      → follow step (acts ++ b ∷ []) w ≡ some w2
  unfolding follow
  follow_last step [] b w w1 w2 k h = let same : w ≡ w1 = cc h in rw (same, k) refl
  follow_last step (a ∷ acts) b w w1 w2 k h =
      then_last (step a w) (λ x. follow step acts x) (λ x. follow step (acts ++ b ∷ []) x) w1 w2
        (λ x. follow_last step acts b x w1 w2 k) h
