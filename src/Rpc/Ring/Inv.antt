-- ===== src/Rpc/Ring/Inv.antt =====
-- The representation invariant of `rpc_rb_t`, and the bytes that it holds, oldest first.
use livezure.Prelude.{
  ℕ, ◌+◌, ◌-◌, ◌<◌, ◌≡◌, leb, if◌then◌else◌, List, [], ◌++◌, length, take, drop, arith, ok,
  length-append, length-take, length-drop,
}
use livezure.Rpc.Ring.{Ring, can_read, can_write, new}

pub record IsValid (r : Ring) : Type 0 where
  pub allocated : length r.buffer ≡ r.capacity
  pub head_in : r.head < r.capacity
  pub tail_in : r.tail < r.capacity
  pub grows : 0 < r.expand
  pub ret_allocated : length r.ret_buffer ≡ r.ret_buffer_size

-- The bytes between the head and the tail, going round at the end of the buffer.
abbrev pub contents : Ring → List ℕ
contents r =
    if leb r.head r.tail
    then take (r.tail - r.head) (drop r.head r.buffer)
    else drop r.head r.buffer ++ take r.tail r.buffer

-- `rpc_rb_can_read` is the number of bytes held, and with `rpc_rb_can_write` it makes up the
-- capacity, of which one byte at least stays free.
pub length-contents :
    {r : Ring}
    → IsValid r
    → (can_read r ≡ length (contents r))
      × (can_read r + can_write r ≡ r.capacity)
      × (can_read r < r.capacity)
unfolding can_read can_write
length-contents {r} v = ground (
  arith,
  length-append (drop r.head r.buffer) (take r.tail r.buffer),
  length-take (r.tail - r.head) (drop r.head r.buffer),
  length-take r.tail r.buffer,
  length-drop r.head r.buffer,
)

module _ (malloc : ℕ → List ℕ) (malloc_length : (n : ℕ) → length (malloc n) ≡ n) where
  -- A new ring, its capacity and its expand above 0, is valid and empty.
  pub new-IsValid :
      (capacity expand : ℕ)
      → 0 < capacity
      → 0 < expand
      → (r : Ring) × (new malloc capacity expand ≡ ok r) × IsValid r × (contents r ≡ [])
  unfolding new
  new-IsValid capacity expand h k = (
    record {
      buffer = malloc capacity;
      head = 0;
      tail = 0;
      capacity = capacity;
      expand = expand;
      ret_buffer = [];
      ret_buffer_size = 0;
    },
    ground arith,
    ground (arith, malloc_length capacity),
    ground arith,
  )
