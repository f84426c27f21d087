-- ===== src/Common/Timer.antt =====
-- common/timer.c: timers that a thread counts down. The clock does not go back, and a callback
-- leaves the list of timers alone; `abort` is what it stores through its second argument. A timer
-- is its entry of the list with an address, which `timer_del` compares.
pub mod Clock
pub mod Due
pub mod Schedule
mod Tests
use livezure.Prelude.{
  ℕ, ◌+◌, ◌-◌, ◌*◌, ◌/◌, ◌==◌, ltb, if◌then◌else◌, Bool, true, false, not, ◌||◌, List, [], ◌∷◌,
  ◌++◌, Run, ok, fault, failed_assert, ◌>>=◌, ◌>>◌, guard,
}

-- `struct st_timer`
pub record Timer : Type 0 where
  pub timer_cb : ℕ
  pub userdata : ℕ
  pub milliseconds : ℕ
  pub remaining : ℕ
  pub b_auto_delete : Bool
  pub b_sign_as_deleted : Bool
  pub address : ℕ

-- `struct timeval`
pub record Timeval : Type 0 where
  pub tv_sec : ℕ
  pub tv_usec : ℕ

-- `my_timer_sub` of a later time and an earlier one. Where the microseconds would fall below 0, a
-- second is taken for them.
pub my_timer_sub : Timeval → Timeval → ℕ
my_timer_sub now last =
    if ltb now.tv_usec last.tv_usec
    then (now.tv_sec - 1 - last.tv_sec) * 1000 + (now.tv_usec + 1000000 - last.tv_usec) / 1000
    else (now.tv_sec - last.tv_sec) * 1000 + (now.tv_usec - last.tv_usec) / 1000

-- Below 0 the time that remains is set to 0.
pub count_down : ℕ → Timer → Timer
count_down elapsed t =
    if t.remaining == 0 then t else record t { remaining = t.remaining - elapsed }

-- The loop of `timer_synchronize`.
pub synchronize : Bool → ℕ → List Timer → List Timer
synchronize stop elapsed [] = []
synchronize stop elapsed (t ∷ rest) =
    let rest' = synchronize stop elapsed rest in
    if t.b_sign_as_deleted || stop then rest' else count_down elapsed t ∷ rest'

pub triggered : (Timer → Bool) → Timer → Timer
triggered abort t =
    if abort t
    then record t { b_sign_as_deleted = true }
    else record t { remaining = t.milliseconds }

-- The loop of `timer_step`: the timers whose callbacks it calls, and the list.
pub trigger_all : (Timer → Bool) → List Timer → List ℕ × List Timer
trigger_all abort [] = ([], [])
trigger_all abort (t ∷ rest) =
    let (called, rest') = trigger_all abort rest in
    if t.remaining == 0
    then (t.address ∷ called, triggered abort t ∷ rest')
    else (called, t ∷ rest')

is_empty : List Timer → Bool
is_empty [] = true
is_empty (t ∷ rest) = false

-- `timer_step`, which gives up if the clock is to stop: whether it goes on, the timers that it
-- calls, and the list.
pub step : (Timer → Bool) → Bool → ℕ → List Timer → Run (Bool × (List ℕ × List Timer))
step abort stop elapsed table =
    let table' = synchronize stop elapsed table in
    if stop
    then (guard (is_empty table') failed_assert >> ok (false, ([], table')))
    else ok (true, trigger_all abort table')

pub create : ℕ → ℕ → ℕ → Bool → ℕ → List Timer → List Timer
create time_cb userdata milliseconds b_auto_delete address table =
    table
    ++ (record {
      timer_cb = time_cb;
      userdata = userdata;
      milliseconds = milliseconds;
      remaining = milliseconds;
      b_auto_delete = b_auto_delete;
      b_sign_as_deleted = false;
      address = address;
    }
        ∷ [])

-- `timer_del` of a timer that is not NULL: whether it found the timer, and the list.
pub del : ℕ → List Timer → Bool × List Timer
del address [] = (false, [])
del address (t ∷ rest) =
    let (found, rest') = del address rest in
    if t.address == address
    then (true, record t { b_sign_as_deleted = true } ∷ rest)
    else (found, t ∷ rest')
