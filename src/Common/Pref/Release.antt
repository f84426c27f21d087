-- ===== src/Common/Pref/Release.antt =====
-- `pref_release` among threads that take and give back references.
use livezure.Prelude.{ℕ, zero, suc, ◌≡◌, refl, ◌⊎◌, inl, inr}
use livezure.Common.Pref.{Releaser, testing, found, asleep, released, Step, get, put, signal}

pub data Steps : ℕ × Releaser → ℕ × Releaser → Type 0 where
  stop : {s : ℕ × Releaser} → Steps s s
  step : {s t u : ℕ × Releaser} → Step s t → Steps t u → Steps s u

-- A released object has no reference.
Unused : ℕ × Releaser → Type 0
Unused (n, r) = r ≡ released → n ≡ 0

step-Unused : {s t : ℕ × Releaser} → Step s t → Unused s → Unused t
unfolding Unused signal
step-Unused (Step.getting h) u = λ e. absurd (h e)
step-Unused (Step.putting {r = testing} h e) u = λ q. cc
step-Unused (Step.putting {r = found} h e) u = λ q. cc
step-Unused (Step.putting {r = asleep} h e) u = λ q. cc
step-Unused (Step.putting {r = released} h e) u = absurd (h refl)
step-Unused Step.tests_some u = λ q. cc
step-Unused Step.tests_none u = λ q. refl
step-Unused Step.waits u = λ q. cc
step-Unused Step.wakes u = λ q. cc

Steps-Unused : {s t : ℕ × Releaser} → Steps s t → Unused s → Unused t
Steps-Unused Steps.stop u = u
Steps-Unused (Steps.step a more) u = Steps-Unused more (step-Unused a u)

-- Whatever the threads do between its steps, `pref_release` ends only when no reference is left.
pub release_unused : {n m : ℕ} → Steps (n, testing) (m, released) → m ≡ 0
unfolding Unused
release_unused steps = Steps-Unused steps (λ q. cc) refl

puts : (n : ℕ) → Steps (n, found) (0, found)
unfolding put signal
puts zero = Steps.stop
puts (suc n) = Steps.step (Step.putting (λ q. cc) refl) (puts n)

append-Steps : {s t u : ℕ × Releaser} → Steps s t → Step t u → Steps s u
append-Steps Steps.stop last = Steps.step last Steps.stop
append-Steps (Steps.step a more) last = Steps.step a (append-Steps more last)

asleep_only : {s : ℕ × Releaser} → Step (0, asleep) s → (s ≡ (1, asleep)) ⊎ (s ≡ (0, testing))
unfolding get put
asleep_only (Step.getting h) = inl refl
asleep_only (Step.putting h e) = cc
asleep_only Step.wakes = inr refl

-- The wake-up is lost if all references are given back between the test, which does not take the
-- mutex, and the wait: the thread then sleeps with no reference left, and nothing can follow but
-- that another reference is taken or that the wait returns without a signal.
pub release_lost :
    (n : ℕ)
    → Steps (suc n, testing) (0, asleep)
      × ((s : ℕ × Releaser) → Step (0, asleep) s → (s ≡ (1, asleep)) ⊎ (s ≡ (0, testing)))
release_lost n = (
  Steps.step Step.tests_some (append-Steps (puts (suc n)) Step.waits),
  λ s last. asleep_only last,
)
