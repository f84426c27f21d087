-- ===== src/Service/DayHours.antt =====
-- service/record/day_hours_set.c: a byte for each of the 24 hours of 7 days, `1` or `0`. The days
-- and the hours count from 1.
pub mod Hours
mod Tests
use livezure.Prelude.{
  ℕ, zero, suc, true, false, ◌||◌, fault, ◌+◌, ◌-◌, ◌*◌, ◌==◌, ltb, leb, if◌then◌else◌, Bool, List,
  [], ◌∷◌, Option, none, some, Run, ok, ◌>>=◌, ◌>>◌, guard, out_of_range, load, store, ℤ, pos,
}

-- `sizeof(dh->weekday)`
abbrev pub hours : ℕ
hours = 168

pub fill_with : ℕ → ℕ → List ℕ
fill_with x zero = []
fill_with x (suc n) = x ∷ fill_with x n

-- `b_set ? '1' : '0'`
pub flag : Bool → ℕ
flag b_set = if b_set then b'1' else b'0'

pub new : Bool → List ℕ
new b_set_all = fill_with (flag b_set_all) hours

-- The argument is the memory behind `szdh`.
pub from : List ℕ → Run (List ℕ)
from szdh = load szdh 0 hours

-- What both `day_hours_set` and `day_hours_get` refuse. The last test is on the day again.
pub refused : ℤ → ℤ → Bool
refused (pos weekday) (pos hour) = ltb 7 weekday || ltb 24 weekday
refused _ _ = true

-- The index `(weekday - 1) * 24 + hour - 1`, below 0 a fault.
pub index : ℤ → ℤ → Run ℕ
index (pos weekday) (pos hour) = do
  guard (leb 25 (weekday * 24 + hour)) out_of_range
  ok (weekday * 24 + hour - 25)
index _ _ = fault out_of_range

set_at : List ℕ → Bool → ℕ → Run (ℕ × Option (List ℕ))
set_at dh b_set at = do dh' ← store dh at (flag b_set ∷ []); ok (1, some dh')

-- What it returns, and the set.
pub set : Option (List ℕ) → ℤ → ℤ → Bool → Run (ℕ × Option (List ℕ))
set none weekday hour b_set = ok (0, none)
set (some dh) weekday hour b_set =
    if refused weekday hour then ok (0, some dh) else (index weekday hour >>= set_at dh b_set)

-- `== '1'` on the byte that is read.
is_one : List ℕ → Bool
is_one (x ∷ _) = x == b'1'
is_one [] = false

get_at : List ℕ → ℕ → Run (ℕ × Option Bool)
get_at dh at = do byte ← load dh at 1; ok (1, some (is_one byte))

-- What it returns, and what it stores in `*b_set`.
pub get : Option (List ℕ) → ℤ → ℤ → Run (ℕ × Option Bool)
get none weekday hour = ok (0, none)
get (some dh) weekday hour =
    if refused weekday hour then ok (0, none) else (index weekday hour >>= get_at dh)

-- What it returns, and the memory behind `szdh` after it.
pub dump : Option (List ℕ) → List ℕ → Run (ℕ × List ℕ)
dump none szdh = ok (0, szdh)
dump (some dh) szdh = do bytes ← load dh 0 hours; szdh' ← store szdh 0 bytes; ok (1, szdh')
