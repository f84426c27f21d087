-- ===== src/Rpc/Crypt.antt =====
-- rpc_crypt.c, and rpc_buffer_encrypt and rpc_buffer_decrypt of rpc_buffer.c. AES in CBC mode and TEA
-- are parameters. Sizes are below 2^31.
pub mod Copies
pub mod Encrypted
pub mod RoundTrip
pub mod Tests
use livezure.Prelude.{
  ℕ, zero, suc, ◌+◌, ◌-◌, ◌*◌, ◌/◌, ◌%◌, ◌==◌, ltb, Bool, true, false, if◌then◌else◌, List, length,
  drop, Run, ok, fault, ◌>>=◌, failed_assert, load, store, int_bytes, int_of_bytes,
}
use livezure.Rpc.Buffer.{Buffer}

-- `AES_cbc_encrypt` with the key of the program, to encrypt or to decrypt, and `crypt` of tea.h.
pub record Ciphers : Type 0 where
  pub cbc : Bool → List ℕ → List ℕ
  pub tea : Bool → List ℕ → List ℕ

-- The bytes that `rpc_aes_crypt` works on: whole blocks, and more than `inlen` bytes.
unfoldable pub aes_length : ℕ → ℕ
aes_length inlen = if (inlen + 1) % 16 == 0 then inlen + 1 else ((inlen + 1) / 16 + 1) * 16

-- `in` is the memory from the pointer on.
unfoldable pub aes_crypt : Ciphers → List ℕ → ℕ → Bool → Run (List ℕ)
aes_crypt ciphers mem inlen enc = do
  blocks ← load mem 0 (aes_length inlen)
  ok (ciphers.cbc enc blocks)

unfoldable pub tea_crypt : Ciphers → List ℕ → ℕ → Bool → Run (List ℕ)
tea_crypt ciphers mem inlen enc = do bytes ← load mem 0 inlen; ok (ciphers.tea enc bytes)

-- The `switch` over `rpc_crypt_type`, whose 0 does not come here.
unfoldable pub crypt : Ciphers → ℕ → List ℕ → ℕ → Bool → Run (List ℕ)
crypt ciphers (suc zero) mem inlen enc = aes_crypt ciphers mem inlen enc
crypt ciphers (suc (suc zero)) mem inlen enc = tea_crypt ciphers mem inlen enc
crypt ciphers _ mem inlen enc = fault failed_assert

module _ (malloc : ℕ → List ℕ) where
  -- The chunk is replaced where it is too small for `needed` bytes behind a size; a chunk has more
  -- than four bytes.
  unfoldable pub resized : Buffer → ℕ → ℕ → Buffer
  resized b needed size =
      if ltb (b.chunk_size - 4) needed
      then record b { chunk = malloc size; chunk_size = size }
      else b

  unfoldable pub put_encrypted : Buffer → List ℕ → Run Buffer
  put_encrypted b enc = do
    let b' = resized b (length enc) (length enc + 4 + 1)
    sized ← store b'.chunk 0 (int_bytes b.chunk_used)
    chunk ← store sized 4 enc
    ok (record b' { chunk = chunk; chunk_used = length enc + 4 })

  unfoldable pub encrypt : Ciphers → Buffer → ℕ → Run Buffer
  encrypt ciphers b zero = ok b
  encrypt ciphers b (suc kind) =
      crypt ciphers (suc kind) b.chunk b.chunk_used true >>= put_encrypted b

  -- The size is read from the chunk, which may have been replaced.
  unfoldable pub put_decrypted : Buffer → List ℕ → Run Buffer
  put_decrypted b dec = do
    let b' = resized b (length dec) (length dec - 4 + 1)
    sized ← load b'.chunk 0 4
    bytes ← load dec 0 (int_of_bytes sized)
    chunk ← store b'.chunk 0 bytes
    ok (record b' { chunk = chunk; chunk_used = int_of_bytes sized })

  unfoldable pub decrypt : Ciphers → Buffer → ℕ → Run Buffer
  decrypt ciphers b zero = ok b
  decrypt ciphers b (suc kind) =
      crypt ciphers (suc kind) (drop 4 b.chunk) (b.chunk_used - 4) false >>= put_decrypted b
