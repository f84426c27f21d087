-- ===== src/Common/Pref/Tests.antt =====
-- Runs of threads that share an object with a count.
use livezure.Prelude.{ℕ, ◌≡◌, ◌⊎◌}
use livezure.Common.Pref.{Releaser, testing, asleep, Step}
use livezure.Common.Pref.Release.{Steps, release_lost}

release_lost_example :
    Steps (3, testing) (0, asleep)
    × ((s : ℕ × Releaser) → Step (0, asleep) s → (s ≡ (1, asleep)) ⊎ (s ≡ (0, testing)))
release_lost_example = release_lost 2
