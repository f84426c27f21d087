-- ===== src/Service/DayHours/Tests.antt =====
-- Runs of the sets of hours, and the theorems at concrete sets.
use livezure.Prelude.{refl, true, arith, zeros}
use livezure.Service.DayHours.Hours.{Sets, set-Sets}

set-Sets_example : Sets (zeros 168) 7 24 true
set-Sets_example =
    set-Sets (zeros 168) 7 24 true refl (omega arith, omega arith, omega arith, omega arith)
