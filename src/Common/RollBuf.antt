-- ===== src/Common/RollBuf.antt =====
-- common/rollbuf_pool.c: a buffer that one thread fills and another empties. What a push tests is read
-- without the mutex, so the test and the copy are two steps; the rounds of a get hold the mutex but
-- for their wait. The callbacks are left out.
pub mod Bytes
pub mod Fifo
mod Tests
use livezure.Prelude.{
  ℕ, zero, suc, ◌+◌, ◌-◌, ◌*◌, ltb, leb, ◌%◌, ◌^◌, if◌then◌else◌, Bool, true, false, not, ◌||◌,
  List, [], ◌∷◌, length, Run, ok, ◌>>=◌, load, store, int_ltb,
}

-- `rollbuf_pool_state`
pub record Pool : Type 0 where
  pub buffer_pool : List ℕ
  pub buffer_size : ℕ
  pub pool_size : ℕ
  pub finish_singal : Bool
  pub stop_signal : Bool

abbrev pub max_buf_def_size : ℕ
max_buf_def_size = 5 * 1024 * 1024

-- A size is an `int`, by its bit pattern.
unfoldable pub create : (ℕ → List ℕ) → ℕ → Pool
create malloc pool_size =
    let size = if int_ltb 0 pool_size then pool_size else max_buf_def_size in
    record {
      buffer_pool = malloc size;
      buffer_size = 0;
      pool_size = size;
      finish_singal = false;
      stop_signal = false;
    }

-- Whether a push of so many bytes need not wait. The sum is an `int`.
unfoldable pub has_room : Pool → ℕ → Bool
has_room pool size = int_ltb ((pool.buffer_size + size) % 2 ^ 32) pool.pool_size

-- The copy, under the mutex.
unfoldable pub put : List ℕ → Pool → Run Pool
put input pool = do
  buffer_pool ← store pool.buffer_pool pool.buffer_size input
  ok (record pool { buffer_pool = buffer_pool; buffer_size = pool.buffer_size + length input })

-- The loop of a push with so many sleeps left, 100 of 500 for each; `others` is what the other
-- threads make of the pool meanwhile.
unfoldable pub push_rounds : (Pool → Pool) → ℕ → List ℕ → Pool → Run (Bool × Pool)
push_rounds others zero input pool =
    let copied = put input (others pool) >>= λ pool'. ok (true, pool') in
    if has_room pool (length input) then copied else ok (false, pool)
push_rounds others (suc sleeps) input pool =
    let copied = put input (others pool) >>= λ pool'. ok (true, pool') in
    let later = push_rounds others sleeps input (others pool) in
    if has_room pool (length input) then copied else later

unfoldable pub push : (Pool → Pool) → List ℕ → Pool → Run (Bool × Pool)
push others input pool =
    let pushed = push_rounds others 5 input pool in
    if pool.stop_signal then ok (false, pool) else pushed

-- What a round of a get comes to: -1; 0 with what was left; 1 with what was asked for; or a wait.
pub data Got : Type 0 where
  stopped : Got
  finished whole : List ℕ → Got
  waits : Got

-- Where the pool holds less than is asked for.
unfoldable pub get_short : Pool → Run (Got × Pool)
get_short pool =
    let all = (do
      result ← load pool.buffer_pool 0 pool.buffer_size
      ok (finished result, record pool { buffer_size = 0 })) in
    if pool.stop_signal
    then ok (stopped, pool)
    else (if pool.finish_singal then all else ok (waits, pool))

unfoldable pub get_whole : ℕ → Pool → Run (Got × Pool)
get_whole need_size pool =
    let bytes = (do
      result ← load pool.buffer_pool 0 need_size
      rest ← load pool.buffer_pool need_size (pool.buffer_size - need_size)
      buffer_pool ← store pool.buffer_pool 0 rest
      ok (
        whole result,
        record pool { buffer_pool = buffer_pool; buffer_size = pool.buffer_size - need_size },
      )) in
    if pool.stop_signal then ok (stopped, pool) else bytes

unfoldable pub get_round : ℕ → Pool → Run (Got × Pool)
get_round need_size pool =
    let short = get_short pool in
    let enough = get_whole need_size pool in
    if ltb pool.buffer_size need_size then short else enough

unfoldable pub behind_round : (Pool → Run (Got × Pool)) → Got × Pool → Run (Got × Pool)
behind_round again (waits, pool) = again pool
behind_round again (got, pool) = ok (got, pool)

-- A get, with what the other threads make of the pool at each of its waits; it still waits where
-- these are used up.
unfoldable pub get : ℕ → List (Pool → Pool) → Pool → Run (Got × Pool)
get need_size [] pool = get_round need_size pool
get need_size (others ∷ rest) pool =
    get_round need_size pool >>= behind_round (λ pool'. get need_size rest (others pool'))

unfoldable pub finish : Pool → Pool
finish pool = record pool { finish_singal = true }

unfoldable pub stop : Pool → Pool
stop pool = record pool { stop_signal = true }
