-- ===== src/Rpc/Buffer.antt =====
-- rpc_buffer.c: the byte stream of sized entries that a request travels in. Sizes and positions of
-- the buffer itself are below 2^31; the size that is read from a stream is any `int`.
pub mod Append
pub mod New
pub mod Next
use livezure.Prelude.{
  ℕ, zero, suc, ◌+◌, ◌-◌, ◌^◌, ◌==◌, ltb, if◌then◌else◌, not, List, [], ◌∷◌, Option, none, some,
  Run, ok, fault, ◌>>=◌, ◌>>◌, guard, failed_assert, load, store, strlen, int, int_ltb, int_bytes,
  int_of_bytes,
}

-- `struct rpc_buffer`
pub record Buffer : Type 0 where
  pub chunk : List ℕ
  pub chunk_size : ℕ
  pub chunk_used : ℕ
  pub parse_position : ℕ

-- An argument of type `rpc_size_t`: a negative number, or what it says.
pub data Size : Type 0 where
  negative : Size
  given : ℕ → Size

abbrev pub def_grow_size : ℕ
def_grow_size = 64

-- `if (size <= 0) size = strlen(in)`
unfoldable pub size_or_strlen : List ℕ → Size → Run ℕ
size_or_strlen bytes negative = strlen bytes
size_or_strlen bytes (given zero) = strlen bytes
size_or_strlen bytes (given (suc n)) = ok (suc n)

unfoldable pub rewind : Buffer → Buffer
rewind b = record b { parse_position = 0 }

unfoldable pub get_size : Buffer → Run ℕ
get_size b = do guard (ltb 0 b.chunk_used) failed_assert; ok b.chunk_used

-- The entry returned is its offset and its size.
unfoldable pub next : Buffer → Run (Option (ℕ × ℕ) × Buffer)
next b = if not (int_ltb (int (b.parse_position + 2)) b.chunk_used) then ok (none, b) else (do
  bytes ← load b.chunk b.parse_position 4
  let bufsize = int_of_bytes bytes
  let left = int (b.chunk_used + 2 ^ 32 - b.parse_position)
  let start = int (b.parse_position + 4)
  if bufsize == 0
      then ok (none, b)
      else (guard (not (int_ltb left bufsize)) failed_assert
          >> ok (some (start, bufsize), record b { parse_position = int (start + bufsize) })))

-- The size and the bytes go behind what is used.
unfoldable pub put_entry : Buffer → List ℕ → ℕ → Run Buffer
put_entry b bytes size = do
  chunk ← store b.chunk b.chunk_used (int_bytes size)
  let used = b.chunk_used + 4
  taken ← load bytes 0 size
  chunk' ← store chunk used taken
  ok (record b { chunk = chunk'; chunk_used = used + size })

module _ (malloc : ℕ → List ℕ) where
  -- The copy of `size` bytes; a size of 0 is refused.
  unfoldable pub new_sized : List ℕ → ℕ → Run Buffer
  new_sized bytes size = do
    let chunk_size = size + 1 + def_grow_size
    taken ← load bytes 0 size
    chunk ← store (malloc chunk_size) 0 taken
    chunk' ← store chunk size (0 ∷ [])
    ok (record { chunk = chunk'; chunk_size = chunk_size; chunk_used = size; parse_position = 0 })

  unfoldable pub new : List ℕ → Size → Run Buffer
  new bytes negative = do size ← strlen bytes; new_sized bytes size
  new bytes (given zero) = fault failed_assert
  new bytes (given (suc n)) = new_sized bytes (suc n)

  unfoldable pub clone : Buffer → Run Buffer
  clone b = do size ← get_size b; new b.chunk (given size)

  -- The buffer that a first entry is appended to.
  unfoldable pub empty : ℕ → Buffer
  empty size = record {
    chunk = malloc (def_grow_size + size);
    chunk_size = def_grow_size + size;
    chunk_used = 0;
    parse_position = 0;
  }

  -- A larger chunk, if the entry without its size would not fit.
  unfoldable pub enlarge : Buffer → ℕ → Run Buffer
  enlarge b size =
      if ltb b.chunk_size (b.chunk_used + size)
      then (do
        let chunk_size = b.chunk_used + size + def_grow_size
        old ← load b.chunk 0 b.chunk_used
        chunk ← store (malloc chunk_size) 0 old
        ok (record b { chunk = chunk; chunk_size = chunk_size }))
      else ok b

  unfoldable pub append_sized : Buffer → List ℕ → ℕ → Run Buffer
  append_sized b bytes size = do b' ← enlarge b size; put_entry b' bytes size

  unfoldable pub append : Option Buffer → List ℕ → Size → Run Buffer
  append none bytes size = do n ← size_or_strlen bytes size; append_sized (empty n) bytes n
  append (some b) bytes size = do n ← size_or_strlen bytes size; append_sized b bytes n
