-- ===== src/Common/Timer/Tests.antt =====
-- Runs of the timers, and their theorems at concrete timers.
use livezure.Prelude.{ℕ, List, ◌++◌, true, ◌≡◌, refl, Bool, false, [], ◌∷◌, arith, ok}
use livezure.Common.Timer.{Timer, create, step}
use livezure.Common.Timer.Schedule.{calls_of, steps, steps-once}

-- The timer of the sessions.
abbrev heartbeat : Timer
heartbeat = record {
  timer_cb = 1;
  userdata = 0;
  milliseconds = 30000;
  remaining = 30000;
  b_auto_delete = false;
  b_sign_as_deleted = false;
  address = 64;
}

never : Timer → Bool
never t = false

created : create 1 0 30000 false 64 [] ≡ heartbeat ∷ []
unfolding create
created = refl

-- A timer that comes before.
abbrev quick : Timer
quick = record heartbeat { milliseconds = 10000; remaining = 500; address = 32 }

steps-once_example :
    (early : List ℕ) × (waiting : List Timer) × (called : List ℕ) × (before' : List Timer)
    × (after' : List Timer) × (steps never (15000 ∷ 14000 ∷ []) (quick ∷ heartbeat ∷ [])
        ≡ ok (early, waiting))
    × (calls_of 64 early ≡ 0)
    × (step never false 1500 waiting ≡ ok (true, (called, before' ++ (heartbeat ∷ after'))))
    × (calls_of 64 called ≡ 1)
unfolding never
steps-once_example =
    steps-once never (15000 ∷ 14000 ∷ []) 1500 (quick ∷ []) [] heartbeat ((λ e. omega arith), tt) tt
      refl refl refl (omega arith) (omega arith)
