-- ===== src/Rpc/Crypt/Copies.antt =====
-- Copies as rpc_buffer_new makes them, and the lengths of what AES works on.
use livezure.Prelude.{
  ap, take-take, ℕ, zero, suc, ◌+◌, ◌%◌, ◌≤◌, ◌<◌, ◌≡◌, ◌∙◌, List, [], ◌∷◌, length, take, arith, ok,
  patch, take-patch, length-patch, length-take, take-patch_before,
}
use livezure.Rpc.Buffer.{Buffer, given, get_size, clone, new, new_sized}
use livezure.Rpc.Buffer.Append.{payload}
use livezure.Rpc.Crypt.{aes_length}

-- A buffer with this stream, and with room behind it as `rpc_buffer_new` leaves it.
pub record IsCopy (stream : List ℕ) (b : Buffer) : Type 0 where
  pub streams : payload b ≡ stream
  pub used : b.chunk_used ≡ length stream
  pub room : b.chunk_size ≡ length stream + 65
  pub allocated : length b.chunk ≡ b.chunk_size

pub aes_length_lem :
    (n : ℕ) → (aes_length n % 16 ≡ 0) × (n < aes_length n) × (aes_length n ≤ n + 16)
unfolding aes_length
aes_length_lem n = ground arith

pub aes_length-blocks : (n : ℕ) → n % 16 ≡ 0 → aes_length n ≡ n + 16
unfolding aes_length
aes_length-blocks n h = ground arith

module _ (malloc : ℕ → List ℕ) where
  unfoldable pub copied : List ℕ → ℕ → Buffer
  copied mem n = record {
    chunk = patch (patch (malloc (n + 1 + 64)) 0 (take n mem)) n (0 ∷ []);
    chunk_size = n + 1 + 64;
    chunk_used = n;
    parse_position = 0;
  }

module _ (malloc : ℕ → List ℕ) where
  -- The copy of the bytes alone is that of the whole memory.
  pub copied-payload :
      (mem : List ℕ) (n : ℕ)
      → n ≤ length mem
      → copied malloc (take n mem) (length (take n mem)) ≡ copied malloc mem n
  unfolding copied
  copied-payload mem n h =
      ap (copied malloc (take n mem)) (omega (arith, length-take n mem))
      ∙ ap
          (λ t. record {
            chunk = patch (patch (malloc (n + 1 + 64)) 0 t) n (0 ∷ []);
            chunk_size = n + 1 + 64;
            chunk_used = n;
            parse_position = 0;
          })
          (take-take n n mem (omega arith))

module _ (malloc : ℕ → List ℕ) (malloc_length : (n : ℕ) → length (malloc n) ≡ n) where
  pub new-copied :
      (mem : List ℕ) (n : ℕ)
      → 0 < n
      → n ≤ length mem
      → new malloc mem (given n) ≡ ok (copied malloc mem n)
  unfolding new new_sized copied
  new-copied mem zero pos h = absurd (omega arith)
  new-copied mem (suc n) pos h = ground (
    arith,
    malloc_length (suc n + 1 + 64),
    length-take (suc n) mem,
    length-patch (malloc (suc n + 1 + 64)) 0 (take (suc n) mem),
  )

  pub copied-IsCopy :
      (mem : List ℕ) (n : ℕ) → n ≤ length mem → IsCopy (take n mem) (copied malloc mem n)
  unfolding copied
  copied-IsCopy mem n h =
      let bytes = take n mem in
      let first = patch (malloc (n + 1 + 64)) 0 bytes in
      let l0 = malloc_length (n + 1 + 64) in
      let l1 = length-take n mem in
      let l2 = length-patch (malloc (n + 1 + 64)) 0 bytes in
      record {
        streams =
            take-patch_before first n (0 ∷ []) n (omega arith)
            ∙ take-patch (malloc (n + 1 + 64)) 0 bytes n (omega arith) (omega arith);
        used = omega arith;
        room = omega arith;
        allocated = length-patch first n (0 ∷ []) ∙ (omega arith);
      }

  pub clone-copied :
      (b : Buffer)
      → 0 < b.chunk_used
      → b.chunk_used ≤ length b.chunk
      → clone malloc b ≡ ok (copied malloc b.chunk b.chunk_used)
  unfolding clone get_size
  clone-copied b pos h = ground (arith, new-copied b.chunk b.chunk_used pos h)
