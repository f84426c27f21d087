-- ===== src/Common/Pref.antt =====
-- common/pref.c: a count of references, whose owner waits until none is left. An object is its
-- count, and every call that takes the mutex is one step.
pub mod Release
mod Tests
use livezure.Prelude.{
  ◌≡◌, ◌≢◌, ℕ, zero, suc, ◌+◌, Bool, true, false, Option, none, some, Run, ok, fault, failed_assert,
}

unfoldable pub init : ℕ
init = 0

-- The count is also what `pref_get`, `pref_put` and `pref_count` return.
unfoldable pub get : ℕ → ℕ
get refcount = refcount + 1

unfoldable pub put : ℕ → Run ℕ
put zero = fault failed_assert
put (suc refcount) = ok refcount

unfoldable pub count : ℕ → ℕ
count refcount = refcount

-- Whether it released the object, and what is left of it.
pub try_release : Option ℕ → Run (Bool × Option ℕ)
try_release none = fault failed_assert
try_release (some zero) = ok (true, none)
try_release (some (suc refcount)) = ok (false, some (suc refcount))

-- Where the thread that calls `pref_release` stands: before its test of the count, which it makes
-- without the mutex; behind a test that found references; in `pthread_cond_wait`; at the end.
pub data Releaser : Type 0 where
  testing found asleep released : Releaser

-- What `pthread_cond_signal` does to it.
pub signal : Releaser → Releaser
signal asleep = testing
signal testing = testing
signal found = found
signal released = released

-- The steps of the threads. `pthread_cond_wait` may also return without a signal.
pub data Step : ℕ × Releaser → ℕ × Releaser → Type 0 where
  getting : {n : ℕ} {r : Releaser} → r ≢ released → Step (n, r) (get n, r)
  putting : {n m : ℕ} {r : Releaser} → r ≢ released → put n ≡ ok m → Step (n, r) (m, signal r)
  tests_some : {n : ℕ} → Step (suc n, testing) (suc n, found)
  tests_none : Step (zero, testing) (zero, released)
  waits : {n : ℕ} → Step (n, found) (n, asleep)
  wakes : {n : ℕ} → Step (n, asleep) (n, testing)
