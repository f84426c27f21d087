-- ===== src/Rpc/Crypt/RoundTrip.antt =====
-- What is encrypted with AES, copied and decrypted is the stream that was there before.
use livezure.Prelude.{
  ℕ, ◌+◌, ◌-◌, ◌%◌, ◌^◌, ◌≤◌, ◌<◌, ◌≡◌, ap, ◌∙◌, sym, Bool, true, false, List, [], ◌++◌, length,
  drop, take, arith, ok, Run, ◌>>=◌, append_assoc, patch, take-patch, length-take, take-append,
  drop-append, take-append-drop, take-take, take-take-drop, int_bytes, int_of_bytes, load_lem, load,
  length-append, length-drop,
}
use mathlib.Core.Path.{subst}
use livezure.Rpc.Buffer.{Buffer, given, new}
use livezure.Rpc.Buffer.Append.{payload}
use livezure.Rpc.Buffer.Next.{int_of_bytes-int_bytes}
use livezure.Rpc.Crypt.{Ciphers, aes_length, aes_crypt, crypt, resized, put_decrypted, decrypt}
use livezure.Rpc.Crypt.Copies.{
  IsCopy, aes_length_lem, aes_length-blocks, copied, new-copied, copied-IsCopy,
}
use livezure.Rpc.Crypt.Encrypted.{
  cipher_text, encrypted, length-cipher_text, used-encrypted, payload-encrypted,
}

-- The result is a buffer with this stream.
pub record Streams (stream : List ℕ) (out : Run Buffer) : Type 0 where
  pub after : Buffer
  pub returns : out ≡ ok after
  pub streams : payload after ≡ stream
  pub used : after.chunk_used ≡ length stream

module _ (malloc : ℕ → List ℕ) (malloc_length : (n : ℕ) → length (malloc n) ≡ n) where
  module _ (ciphers : Ciphers)
      (length-cbc : (enc : Bool) (xs : List ℕ) → length (ciphers.cbc enc xs) ≡ length xs)
      (cbc_inverse : (xs ys : List ℕ)
        → length xs % 16 ≡ 0
        → take (length xs) (ciphers.cbc false (ciphers.cbc true xs ++ ys)) ≡ xs) where
    -- What the cipher makes of the text and of the sixteen bytes that stand behind it.
    clear_text : List ℕ → List ℕ → List ℕ
    clear_text text rest = ciphers.cbc false (text ++ take 16 rest)

    module _ (r : Buffer) (n : ℕ) (text : List ℕ) (small : n < 2 ^ 32)
        (blocks : length text % 16 ≡ 0) (fits : n ≤ length text)
        (k : IsCopy (int_bytes n ++ text) r) where
      rest : List ℕ
      rest = drop r.chunk_used r.chunk

      chunk-parts : r.chunk ≡ int_bytes n ++ (text ++ rest)
      unfolding rest
      chunk-parts =
          sym (take-append-drop r.chunk_used r.chunk)
          ∙ ap (λ t. t ++ drop r.chunk_used r.chunk) k.streams
          ∙ append_assoc (int_bytes n) text (drop r.chunk_used r.chunk)

      length-rest : length rest ≡ 65
      unfolding rest
      length-rest = omega (
        arith,
        k.used,
        k.room,
        k.allocated,
        length-drop r.chunk_used r.chunk,
        length-append (int_bytes n) text,
      )

      take_text : take (length text + 16) (drop 4 r.chunk) ≡ text ++ take 16 rest
      take_text =
          ap (λ t. take (length text + 16) (drop 4 t)) chunk-parts
          ∙ take-take-drop (length text) 16 (text ++ rest)
          ∙ ap (λ t. t ++ take 16 (drop (length text) (text ++ rest)))
              (take-append text rest (length text) (omega arith))
          ∙ ap (λ t. text ++ take 16 t) (drop-append text rest (length text) (omega arith))

      take_size : int_of_bytes (take 4 r.chunk) ≡ n
      take_size = ap (λ t. int_of_bytes (take 4 t)) chunk-parts ∙ int_of_bytes-int_bytes n [] small

      length-clear_text : length (clear_text text rest) ≡ length text + 16
      unfolding clear_text
      length-clear_text = omega (
        arith,
        length-cbc false (text ++ take 16 rest),
        length-append text (take 16 rest),
        length-take 16 rest,
        length-rest,
      )

      decrypted : Buffer
      decrypted = record r {
        chunk = patch r.chunk 0 (take n (clear_text text rest));
        chunk_used = n;
      }

      aes_crypt-text :
          aes_crypt ciphers (drop 4 r.chunk) (r.chunk_used - 4) false ≡ ok (clear_text text rest)
      unfolding aes_crypt clear_text
      aes_crypt-text =
          let size : aes_length (r.chunk_used - 4) ≡ length text + 16 =
            ap aes_length (omega (arith, k.used, length-append (int_bytes n) text))
            ∙ aes_length-blocks (length text) blocks in
          let enough : 0 + (length text + 16) ≤ length (drop 4 r.chunk) = omega (
            arith,
            k.used,
            k.room,
            k.allocated,
            length-drop 4 r.chunk,
            length-append (int_bytes n) text,
          ) in
          ap (λ m. load (drop 4 r.chunk) 0 m >>= λ t. ok (ciphers.cbc false t)) size
          ∙ ap (λ t. t >>= λ u. ok (ciphers.cbc false u))
              (load_lem (drop 4 r.chunk) 0 (length text + 16) enough)
          ∙ ap (λ t. ok (ciphers.cbc false t)) take_text

      put_decrypted-text : put_decrypted malloc r (clear_text text rest) ≡ ok decrypted
      unfolding put_decrypted resized decrypted
      put_decrypted-text = ground (
        arith,
        k.used,
        k.room,
        k.allocated,
        length-append (int_bytes n) text,
        length-clear_text,
        take_size,
        length-take n (clear_text text rest),
      )

      decrypt-decrypted : decrypt malloc ciphers r 1 ≡ ok decrypted
      unfolding decrypt crypt
      decrypt-decrypted = ap (λ t. t >>= put_decrypted malloc r) aes_crypt-text ∙ put_decrypted-text

      payload-decrypted : payload decrypted ≡ take n (clear_text text rest)
      unfolding decrypted
      payload-decrypted =
          let l0 = k.used in
          let l1 = k.room in
          let l2 = k.allocated in
          let l3 = length-append (int_bytes n) text in
          let l4 = length-clear_text in
          let l5 = length-take n (clear_text text rest) in
          take-patch r.chunk 0 (take n (clear_text text rest)) n (omega arith) (omega arith)

    -- The first bytes of a cipher text's clear text.
    take-clear_text :
        (c : Buffer) {s : List ℕ} (rest : List ℕ)
        → IsCopy s c
        → take c.chunk_used (clear_text (cipher_text ciphers c) rest) ≡ s
    unfolding clear_text cipher_text
    take-clear_text c {s} rest k =
        let mem = take (aes_length c.chunk_used) c.chunk in
        let bounds = aes_length_lem c.chunk_used in
        let size : length mem ≡ aes_length c.chunk_used =
          omega
            (arith, k.used, k.room, k.allocated, length-take (aes_length c.chunk_used) c.chunk) in
        sym (
          take-take c.chunk_used (length mem) (clear_text (cipher_text ciphers c) rest)
            (omega arith))
        ∙ ap (take c.chunk_used) (cbc_inverse mem (take 16 rest) (ap (λ t. t % 16) size ∙ bounds.0))
        ∙ take-take c.chunk_used (aes_length c.chunk_used) c.chunk (omega arith)
        ∙ k.streams

    encrypted-IsCopy :
        (c : Buffer) {s : List ℕ}
        → IsCopy s c
        → IsCopy
            (int_bytes c.chunk_used ++ cipher_text ciphers c)
            (copied malloc (encrypted ciphers c).chunk (encrypted ciphers c).chunk_used)
    encrypted-IsCopy c k =
        subst
          (λ t.
            IsCopy t (copied malloc (encrypted ciphers c).chunk (encrypted ciphers c).chunk_used))
          (payload-encrypted ciphers length-cbc c k)
          (copied-IsCopy malloc malloc_length (encrypted ciphers c).chunk
            (encrypted ciphers c).chunk_used (used-encrypted ciphers length-cbc c k).1)

    -- A cipher text that is copied where it is received opens to the stream.
    pub received :
        (c : Buffer) {s : List ℕ}
        → IsCopy s c
        → c.chunk_used < 2 ^ 31
        → Streams s (
            new malloc (encrypted ciphers c).chunk (given (encrypted ciphers c).chunk_used)
            >>= (λ r. decrypt malloc ciphers r 1))
    unfolding decrypted copied
    received c k small =
        let text = cipher_text ciphers c in
        let r = copied malloc (encrypted ciphers c).chunk (encrypted ciphers c).chunk_used in
        let bounds = aes_length_lem c.chunk_used in
        let size = length-cipher_text ciphers length-cbc c k in
        let blocks : length text % 16 ≡ 0 = ap (λ t. t % 16) size ∙ bounds.0 in
        let fits : c.chunk_used ≤ length text = omega arith in
        let small' : c.chunk_used < 2 ^ 32 = omega arith in
        let copy = encrypted-IsCopy c k in
        record {
          after = decrypted r c.chunk_used text small' blocks fits copy;
          returns =
              ap (λ t. t >>= λ u. decrypt malloc ciphers u 1)
                (new-copied malloc malloc_length (encrypted ciphers c).chunk
                  (encrypted ciphers c).chunk_used (used-encrypted ciphers length-cbc c k).0
                  (used-encrypted ciphers length-cbc c k).1)
              ∙ decrypt-decrypted r c.chunk_used text small' blocks fits copy;
          streams =
              payload-decrypted r c.chunk_used text small' blocks fits copy
              ∙ take-clear_text c (rest r c.chunk_used text small' blocks fits copy) k;
          used = k.used;
        }
