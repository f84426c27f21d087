-- ===== src/Common/Timer/Clock.antt =====
-- The difference of two times.
use livezure.Prelude.{ℕ, ◌+◌, ◌-◌, ◌*◌, ◌/◌, ◌≤◌, ◌<◌, ◌≡◌, arith}
use livezure.Common.Timer.{Timeval, my_timer_sub}

-- A time in microseconds.
abbrev pub usec : Timeval → ℕ
usec t = t.tv_sec * 1000000 + t.tv_usec

-- `my_timer_sub` of a time and one that is not later is the whole number of milliseconds between.
pub my_timer_sub_lem :
    (now last : Timeval)
    → now.tv_usec < 1000000
    → last.tv_usec < 1000000
    → usec last ≤ usec now
    → my_timer_sub now last ≡ (usec now - usec last) / 1000
unfolding my_timer_sub
my_timer_sub_lem now last n l h = ground arith
