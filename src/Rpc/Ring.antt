-- ===== src/Rpc/Ring.antt =====
-- rpc_ringbuffer.c: the byte ring in which rpc_io.c collects what it receives.
-- A pointer into the buffer is its offset. `int` arithmetic is exact: capacities below 2^31.
pub mod Flat
pub mod Grow
pub mod Inv
pub mod Place
pub mod Read
mod Tests
pub mod Write
use livezure.Prelude.{
  ℕ, zero, suc, ◌+◌, ◌-◌, ◌==◌, ltb, leb, min, if◌then◌else◌, List, [], length, take, drop, Run, ok,
  fault, ◌>>=◌, ◌>>◌, guard, wild_store, failed_assert, out_of_fuel, load, store,
}

-- `struct rpc_rb`; `ret_buffer_size` is the size that `ret_buffer` was allocated with.
pub record Ring : Type 0 where
  pub buffer : List ℕ
  pub head : ℕ
  pub tail : ℕ
  pub capacity : ℕ
  pub expand : ℕ
  pub ret_buffer : List ℕ
  pub ret_buffer_size : ℕ

pub can_read : Ring → ℕ
can_read r =
    if r.head == r.tail
    then 0
    else (if ltb r.head r.tail then r.tail - r.head else r.capacity - (r.head - r.tail))

pub can_write : Ring → ℕ
can_write r = r.capacity - can_read r

read_linear : Ring → ℕ → Run (List ℕ × Ring)
read_linear r count = do
  let size = min count (can_read r)
  bytes ← load r.buffer r.head size
  ok (bytes, record r { head = r.head + size })

-- The last branch reads the second piece by `rpc_rb_read(rb, &rb->ret_buffer + size, ...)`, which
-- stores its pointer `size` pointers past the field `ret_buffer`. (`size` is 0 only if the head
-- stands at the end of the buffer, where no operation leaves it.)
read_copied : Ring → ℕ → Run (List ℕ × Ring)
read_copied r count =
    if ltb count (r.capacity - r.head)
    then (do
      bytes ← load r.buffer r.head count
      ret ← store r.ret_buffer 0 bytes
      bytes' ← load ret 0 count
      ok (bytes', record r { ret_buffer = ret; head = r.head + count }))
    else (do
      bytes ← load r.buffer r.head (r.capacity - r.head)
      ret ← store r.ret_buffer 0 bytes
      fault wild_store)

-- Where the bytes go, `again` being the call of the function by itself.
pub place : (Ring → List ℕ → Run (ℕ × Ring)) → Ring → List ℕ → Run (ℕ × Ring)
place again r bytes =
    let count = length bytes in
    let tail_size = r.capacity - r.tail in
    if leb r.head r.tail
    then (if leb count tail_size
        then (do
          buffer ← store r.buffer r.tail bytes
          let tail = r.tail + count
          ok (count, record r { buffer = buffer; tail = if tail == r.capacity then 0 else tail }))
        else (do
          buffer ← store r.buffer r.tail (take tail_size bytes)
          (n, r') ← again (record r { buffer = buffer; tail = 0 }) (drop tail_size bytes)
          ok (tail_size + n, r')))
    else (do
      buffer ← store r.buffer r.tail bytes
      ok (count, record r { buffer = buffer; tail = r.tail + count }))

-- What a `malloc` of n bytes returns, uninitialised; the code takes it to succeed.
module _ (malloc : ℕ → List ℕ) where
  pub new : ℕ → ℕ → Run Ring
  new capacity expand = do
    guard (ltb 0 capacity) failed_assert
    guard (ltb 0 expand) failed_assert
    ok (record {
      buffer = malloc capacity;
      head = 0;
      tail = 0;
      capacity = capacity;
      expand = expand;
      ret_buffer = [];
      ret_buffer_size = 0;
    })

  -- The buffer that a read which is not in one piece copies to.
  reserve : Ring → ℕ → Ring
  reserve r count =
      if ltb r.ret_buffer_size count
      then record r { ret_buffer = malloc count; ret_buffer_size = count }
      else r

  -- The bytes behind `*data`, and the ring; the size returned is their number.
  pub read : Ring → ℕ → Run (List ℕ × Ring)
  read r count =
      if ltb r.head r.tail then read_linear r count else read_copied (reserve r count) count

  -- The first part of a write: a larger buffer, with the bytes that can be read at its start.
  pub grow : Ring → ℕ → Run Ring
  grow r count =
      if leb (can_write r) count
      then (do
        let capacity_new = can_read r + count + r.expand
        let nreads = can_read r
        (readbuf, r') ← read r nreads
        guard (length readbuf == nreads) failed_assert
        buffer_new ← store (malloc capacity_new) 0 readbuf
        ok (record r' {
          buffer = buffer_new;
          head = 0;
          tail = length readbuf;
          capacity = capacity_new;
        }))
      else ok r

  pub write_fuel : ℕ → Ring → List ℕ → Run (ℕ × Ring)
  write_fuel zero r bytes = fault out_of_fuel
  write_fuel (suc f) r bytes = do r' ← grow r (length bytes); place (write_fuel f) r' bytes

  -- The function calls itself once at most (`write_lem`), so two levels are enough.
  pub write : Ring → List ℕ → Run (ℕ × Ring)
  write = write_fuel 2
