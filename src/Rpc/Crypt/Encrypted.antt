-- ===== src/Rpc/Crypt/Encrypted.antt =====
-- What rpc_buffer_encrypt leaves in a copy.
use livezure.Prelude.{
  ℕ, ◌+◌, ◌≤◌, ◌<◌, ◌≡◌, ap, ◌∙◌, Bool, true, List, ◌++◌, length, take, arith, ok, patch,
  take-patch, length-patch, length-take, int_bytes,
}
use livezure.Rpc.Buffer.{Buffer}
use livezure.Rpc.Buffer.Append.{payload}
use livezure.Rpc.Crypt.{Ciphers, aes_length, aes_crypt, crypt, resized, put_encrypted, encrypt}
use livezure.Rpc.Crypt.Copies.{IsCopy, aes_length_lem}

module _ (ciphers : Ciphers) where
  unfoldable pub cipher_text : Buffer → List ℕ
  cipher_text c = ciphers.cbc true (take (aes_length c.chunk_used) c.chunk)

  unfoldable pub encrypted : Buffer → Buffer
  encrypted c = record c {
    chunk = patch (patch c.chunk 0 (int_bytes c.chunk_used)) 4 (cipher_text c);
    chunk_used = length (cipher_text c) + 4;
  }

module _ (ciphers : Ciphers)
    (length-cbc : (enc : Bool) (xs : List ℕ) → length (ciphers.cbc enc xs) ≡ length xs) where
  pub length-cipher_text :
      (c : Buffer) {s : List ℕ}
      → IsCopy s c
      → length (cipher_text ciphers c) ≡ aes_length c.chunk_used
  unfolding cipher_text
  length-cipher_text c k = omega (
    arith,
    k.used,
    k.room,
    k.allocated,
    aes_length_lem c.chunk_used,
    length-take (aes_length c.chunk_used) c.chunk,
    length-cbc true (take (aes_length c.chunk_used) c.chunk),
  )

  pub used-encrypted :
      (c : Buffer) {s : List ℕ}
      → IsCopy s c
      → (0 < (encrypted ciphers c).chunk_used)
        × ((encrypted ciphers c).chunk_used ≤ length (encrypted ciphers c).chunk)
        × ((encrypted ciphers c).chunk_used ≤ c.chunk_used + 20)
  unfolding encrypted
  used-encrypted c k = omega (
    arith,
    k.used,
    k.room,
    k.allocated,
    aes_length_lem c.chunk_used,
    length-cipher_text c k,
    length-patch (patch c.chunk 0 (int_bytes c.chunk_used)) 4 (cipher_text ciphers c),
    length-patch c.chunk 0 (int_bytes c.chunk_used),
  )

  pub payload-encrypted :
      (c : Buffer) {s : List ℕ}
      → IsCopy s c
      → payload (encrypted ciphers c) ≡ int_bytes c.chunk_used ++ cipher_text ciphers c
  unfolding encrypted
  payload-encrypted c k =
      let first = patch c.chunk 0 (int_bytes c.chunk_used) in
      let l0 = k.used in
      let l1 = k.room in
      let l2 = k.allocated in
      let l3 = aes_length_lem c.chunk_used in
      let l4 = length-cipher_text c k in
      let l5 = length-patch c.chunk 0 (int_bytes c.chunk_used) in
      take-patch first 4 (cipher_text ciphers c) (length (cipher_text ciphers c) + 4) (omega arith)
        (omega arith)
      ∙ ap (λ t. t ++ cipher_text ciphers c)
          (take-patch c.chunk 0 (int_bytes c.chunk_used) 4 (omega arith) (omega arith))

  module _ (malloc : ℕ → List ℕ) where
    pub encrypt-encrypted :
        (c : Buffer) {s : List ℕ}
        → IsCopy s c
        → encrypt malloc ciphers c 1 ≡ ok (encrypted ciphers c)
    unfolding encrypt crypt aes_crypt put_encrypted resized encrypted cipher_text
    encrypt-encrypted c k = ground (
      arith,
      k.used,
      k.room,
      k.allocated,
      aes_length_lem c.chunk_used,
      length-cipher_text c k,
      length-patch c.chunk 0 (int_bytes c.chunk_used),
    )
