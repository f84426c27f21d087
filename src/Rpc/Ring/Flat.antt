-- ===== src/Rpc/Ring/Flat.antt =====
-- Rings whose bytes lie in one piece with room behind them: what is written and read then.
use livezure.Prelude.{ℕ, ◌+◌, ◌-◌, ◌≤◌, ◌<◌, ◌≡◌, List, length, take, drop, arith, ok, patch}
use livezure.Rpc.Ring.{Ring, can_read, can_write, grow, place, write_fuel, write, read_linear, read}

pub can_read_flat : (r : Ring) → r.head ≤ r.tail → can_read r ≡ r.tail - r.head
unfolding can_read
can_read_flat r h = ground arith

module _ (malloc : ℕ → List ℕ) where
  pub write_flat :
      (r : Ring) (d : List ℕ)
      → length r.buffer ≡ r.capacity
      → r.head ≡ r.tail
      → r.tail + length d < r.capacity
      → write malloc r d
        ≡ ok (length d, record r { buffer = patch r.buffer r.tail d; tail = r.tail + length d })
  unfolding write write_fuel grow place can_write can_read
  write_flat r d allocated e room = ground arith

  pub read_flat :
      (r : Ring) (n : ℕ)
      → r.tail ≤ length r.buffer
      → r.head < r.tail
      → n ≤ r.tail - r.head
      → read malloc r n ≡ ok (take n (drop r.head r.buffer), record r { head = r.head + n })
  unfolding read read_linear can_read
  read_flat r n allocated lt h = ground arith
