-- ===== src/Rpc/Shell/Sealed.antt =====
-- Bodies that are sent as they are or encrypted with AES: they open to what was sent.
use livezure.Prelude.{
  ℕ, suc, ◌+◌, ◌%◌, ◌^◌, ◌≤◌, ◌<◌, ◌≡◌, refl, ap, ◌∙◌, sym, Bool, true, false, List, [], ◌∷◌, ◌++◌,
  length, take, arith, some, ok, ◌>>=◌, length-take, length-append, ◌⊎◌, inl, inr,
}
use livezure.Rpc.Buffer.{Buffer, get_size}
use livezure.Rpc.Buffer.Append.{payload}
use livezure.Rpc.Crypt.{Ciphers, encrypt, decrypt}
use livezure.Rpc.Crypt.Copies.{copied, new-copied, copied-IsCopy, clone-copied, copied-payload}
use livezure.Rpc.Crypt.Encrypted.{encrypted, encrypt-encrypted, used-encrypted}
use livezure.Rpc.Crypt.RoundTrip.{received}
use livezure.Rpc.Io.{Io}
use livezure.Rpc.Shell.{Shell, Layout, shell_body, make_shell, enqueue_found}
use livezure.Rpc.Shell.Header.{IsHeader}
use livezure.Rpc.Shell.Received.{Ready, Dispatches, opened}
use livezure.Rpc.Shell.Made.{enqueue-make_shell}

module _ (malloc : ℕ → List ℕ) (malloc_length : (n : ℕ) → length (malloc n) ≡ n) (layout : Layout)
    (ciphers : Ciphers) where
  -- How a buffer is sent and what it opens to.
  pub record Sealed (crypt : ℕ) (b : Buffer) : Type 0 where
    pub body : List ℕ
    pub input : Buffer
    pub packed : shell_body malloc layout ciphers crypt (some b) ≡ ok body
    pub opens : opened malloc ciphers crypt body ≡ ok (some input)
    pub same_stream : payload input ≡ payload b
    pub short : length body ≤ b.chunk_used + 20

  -- A body opens as the copy of the whole memory does.
  opened_lem :
      (crypt : ℕ) (body : List ℕ) (d : Buffer)
      → 0 < length body
      → decrypt malloc ciphers (copied malloc body (length body)) crypt ≡ ok d
      → opened malloc ciphers crypt body ≡ ok (some d)
  unfolding opened
  opened_lem crypt [] d pos h = absurd (omega arith)
  opened_lem crypt (x ∷ xs) d pos h =
      rw (new-copied malloc malloc_length (x ∷ xs) (suc (length xs)) pos (omega arith)) (rw h refl)

  pub shell_body_lem :
      (crypt : ℕ) (b e : Buffer)
      → 0 < b.chunk_used
      → b.chunk_used ≤ length b.chunk
      → encrypt malloc ciphers (copied malloc b.chunk b.chunk_used) crypt ≡ ok e
      → 0 < e.chunk_used
      → e.chunk_used ≤ length e.chunk
      → shell_body malloc layout ciphers crypt (some b) ≡ ok (payload e)
  unfolding shell_body get_size
  shell_body_lem crypt b e pos h enc some_used inside =
      rw (clone-copied malloc malloc_length b pos h) (rw enc (ground arith))

  -- What is encrypted to `e`, and decrypted from a copy of it to `d`.
  sealed_lem :
      (crypt : ℕ) (b e d : Buffer)
      → 0 < b.chunk_used
      → b.chunk_used ≤ length b.chunk
      → encrypt malloc ciphers (copied malloc b.chunk b.chunk_used) crypt ≡ ok e
      → 0 < e.chunk_used
      → e.chunk_used ≤ length e.chunk
      → decrypt malloc ciphers (copied malloc e.chunk e.chunk_used) crypt ≡ ok d
      → payload d ≡ payload b
      → e.chunk_used ≤ b.chunk_used + 20
      → Sealed crypt b
  sealed_lem crypt b e d pos h enc some_used inside dec same few = record {
    body = payload e;
    input = d;
    packed = shell_body_lem crypt b e pos h enc some_used inside;
    opens = opened_lem crypt (payload e) d (omega (arith, length-take e.chunk_used e.chunk)) (
        ap (λ t. decrypt malloc ciphers t crypt) (copied-payload malloc e.chunk e.chunk_used inside)
        ∙ dec);
    same_stream = same;
    short = omega (arith, length-take e.chunk_used e.chunk);
  }

  module _ (b : Buffer) (pos : 0 < b.chunk_used) (h : b.chunk_used ≤ length b.chunk) where
    plain-Sealed : Sealed 0 b
    unfolding encrypt decrypt copied
    plain-Sealed =
        let c = copied malloc b.chunk b.chunk_used in
        let k = copied-IsCopy malloc malloc_length b.chunk b.chunk_used h in
        let l1 = k.used in
        let l2 = k.room in
        let l3 = k.allocated in
        let inside : c.chunk_used ≤ length c.chunk = omega arith in
        sealed_lem 0 b c (copied malloc c.chunk c.chunk_used) pos h refl pos inside refl
          ((copied-IsCopy malloc malloc_length c.chunk c.chunk_used inside).streams ∙ k.streams)
          (omega arith)

    module _ (length-cbc : (enc : Bool) (xs : List ℕ) → length (ciphers.cbc enc xs) ≡ length xs)
        (cbc_inverse : (xs ys : List ℕ)
          → length xs % 16 ≡ 0
          → take (length xs) (ciphers.cbc false (ciphers.cbc true xs ++ ys)) ≡ xs)
        (small : b.chunk_used < 2 ^ 31) where
      aes-Sealed : Sealed 1 b
      unfolding copied
      aes-Sealed =
          let c = copied malloc b.chunk b.chunk_used in
          let k = copied-IsCopy malloc malloc_length b.chunk b.chunk_used h in
          let e = encrypted ciphers c in
          let bounds = used-encrypted ciphers length-cbc c k in
          let r = received malloc malloc_length ciphers length-cbc cbc_inverse c k small in
          sealed_lem 1 b e r.after pos h (encrypt-encrypted ciphers length-cbc malloc c k) bounds.0
            bounds.1
            (ap (λ t. t >>= λ u. decrypt malloc ciphers u 1)
                (sym (new-copied malloc malloc_length e.chunk e.chunk_used bounds.0 bounds.1))
              ∙ r.returns)
            r.streams bounds.2

      either-Sealed : (kind : ℕ) → (kind ≡ 0) ⊎ (kind ≡ 1) → Sealed kind b
      either-Sealed kind (inl plain) = rw plain plain-Sealed
      either-Sealed kind (inr aes) = rw aes aes-Sealed

    -- A stream that is sent with rpc_io_make_shell, as it is or encrypted with AES, and that arrives
    -- whole on a connection with nothing left before it, is dispatched with a buffer of the same
    -- stream, and with its header. The stream is not empty and shorter than 2^31, there is room for
    -- it, the header is laid out so that it can be read back, and the cipher keeps lengths and
    -- inverts whole blocks whatever stands behind them.
    pub enqueue-request :
        (length-cbc : (enc : Bool) (xs : List ℕ) → length (ciphers.cbc enc xs) ≡ length xs)
        → (cbc_inverse : (xs ys : List ℕ)
            → length xs % 16 ≡ 0
            → take (length xs) (ciphers.cbc false (ciphers.cbc true xs ++ ys)) ≡ xs)
        → (shell : Shell) (io : Io) (f : ℕ) → b.chunk_used < 2 ^ 31
        → (shell.crypt ≡ 0) ⊎ (shell.crypt ≡ 1)
        → ((n : ℕ) → n ≤ b.chunk_used + 20 → IsHeader layout (record shell { body_size = n }))
        → io.shell_cached ≡ false
        → length io.recv.buffer ≡ io.recv.capacity
        → io.recv.head ≡ io.recv.tail
        → io.recv.tail + layout.size + b.chunk_used + 20 < io.recv.capacity
        → (shell' : Shell) × (sent received : Buffer) × (make_shell malloc layout ciphers shell
              (some b)
            ≡ ok (shell', sent))
          × Dispatches layout shell'
              (some received)
              io
              (enqueue_found malloc layout ciphers (suc (suc f)) (payload sent) io)
          × (payload received ≡ payload b)
    enqueue-request length-cbc cbc_inverse shell io f small kind headers fresh allocated empty
          room =
        let s = either-Sealed length-cbc cbc_inverse small shell.crypt kind in
        let shell' = record shell { body_size = length s.body } in
        let ih = headers (length s.body) s.short in
        let ready : Ready (layout.encode shell' ++ s.body) io = record {
          not_cached = fresh;
          allocated = allocated;
          empty = empty;
          room =
              omega (arith, s.short, ih.length-encode, length-append (layout.encode shell') s.body);
        } in
        let sends =
          enqueue-make_shell malloc malloc_length layout ciphers shell (some b) s.body s.packed ih f
            io (some s.input) ready s.opens in
        (shell', sends.0, s.input, sends.1, sends.2, s.same_stream)
