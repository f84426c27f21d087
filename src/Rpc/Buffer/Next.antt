-- ===== src/Rpc/Buffer/Next.antt =====
-- What `rpc_buffer_next` reads from a stream.
use livezure.Prelude.{
  ℕ, ◌+◌, ◌-◌, ◌^◌, ◌≤◌, ◌<◌, ◌≡◌, List, ◌++◌, length, drop, take, arith, none, some, ok, ◌>>◌,
  guard, out_of_range, leb, int_bytes, int_of_bytes,
}
use livezure.Rpc.Buffer.{Buffer, next}

-- The stream at the position, with whatever stands in memory behind it.
abbrev pub remaining : Buffer → List ℕ
remaining b = drop b.parse_position b.chunk

pub int_of_bytes-int_bytes :
    (n : ℕ) (xs : List ℕ) → n < 2 ^ 32 → int_of_bytes (int_bytes n ++ xs) ≡ n
int_of_bytes-int_bytes n xs h = omega arith

next_size :
    (b : Buffer) (n : ℕ) (behind : List ℕ)
    → b.parse_position + 4 ≤ length b.chunk
    → remaining b ≡ int_bytes n ++ behind
    → (guard (leb (b.parse_position + 4) (length b.chunk)) out_of_range
        >> ok (take 4 (remaining b)))
      ≡ ok (int_bytes n)
next_size b n behind h e = rw e (ground arith)

module _ (b : Buffer) (n : ℕ) (behind : List ℕ) (at : remaining b ≡ int_bytes n ++ behind)
    (in_chunk : b.chunk_used ≤ length b.chunk) (small : b.chunk_used < 2 ^ 31) where
  -- An entry of `n` bytes that lies in the stream is returned, and the position moves behind it.
  pub next_entry :
      0 < n
      → b.parse_position + 4 + n ≤ b.chunk_used
      → next b
        ≡ ok
            (some (b.parse_position + 4, n), record b { parse_position = b.parse_position + 4 + n })
  unfolding next
  next_entry pos fits = ground (arith, next_size b n behind (omega arith) at)

-- At the end of the stream there is no entry.
pub next_end :
    (b : Buffer)
    → b.chunk_used ≤ b.parse_position
    → b.parse_position < 2 ^ 30
    → next b ≡ ok (none, b)
unfolding next
next_end b h small = ground arith

-- A size field of -4 at the position, in a buffer below the bounds: the code takes it for an entry,
-- and the buffer, its position included, is as before.
pub next_stuck :
    (b : Buffer) (behind : List ℕ)
    → remaining b ≡ int_bytes (2 ^ 32 - 4) ++ behind
    → b.chunk_used ≤ length b.chunk
    → b.chunk_used < 2 ^ 31
    → b.parse_position + 4 ≤ b.chunk_used
    → next b ≡ ok (some (b.parse_position + 4, 2 ^ 32 - 4), b)
unfolding next
next_stuck b behind at in_chunk small fits =
    ground (arith, next_size b (2 ^ 32 - 4) behind (omega arith) at)
