-- ===== src/Rpc/Shell/Header.antt =====
-- The header of a request at the front of a ring.
use livezure.Prelude.{
  ℕ, suc, ◌+◌, ◌-◌, ◌≤◌, ◌<◌, ◌≡◌, refl, ap, ◌∙◌, sym, true, false, List, length, take, drop, arith,
  Run, ok, fault, Fault, ◌>>=◌, out_of_range, patch, take-patch, drop-patch, length-drop, take-take,
  drop-take, drop-drop, load_lem,
}
use livezure.Rpc.Ring
use livezure.Rpc.Ring.{Ring, can_read}
use livezure.Rpc.Ring.Flat.{can_read_flat, read_flat}
use livezure.Rpc.Crypt.{Ciphers}
use livezure.Rpc.Io.{Io}
use livezure.Rpc.Shell.{
  Shell, Layout, in_buffer, magic_number, version_sign, shell_at, points, take_shell, finish_round,
  read_round, enqueue_round, enqueue_rounds, enqueue_found,
}

-- Bytes of what was written.
pub patch_part :
    (buf : List ℕ) (off : ℕ) (d : List ℕ) (j k : ℕ)
    → off + length d ≤ length buf
    → j + k ≤ length d
    → take k (drop (off + j) (patch buf off d)) ≡ take k (drop j d)
patch_part buf off d j k fits h =
    let whole : take (length d) (drop off (patch buf off d)) ≡ d =
      ap (take (length d)) (drop-patch buf off d off (omega arith))
      ∙ ap (λ m. take (length d) (patch (drop off buf) m d)) (omega arith)
      ∙ take-patch (drop off buf) 0 d (length d) (omega (arith, length-drop off buf))
          (omega arith) in
    sym (
      ap (λ t. take k (drop j t)) (sym whole)
      ∙ ap (take k) (drop-take j (length d) (drop off (patch buf off d)))
      ∙ take-take k (length d - j) (drop j (drop off (patch buf off d))) (omega arith)
      ∙ ap (take k) (drop-drop j off (patch buf off d)))

-- Where what follows a run faults, the whole faults.
faults-then :
    {A B : Type 0} (first : Run A) (next : A → Run B)
    → ((result : A) → next result ≡ fault out_of_range)
    → (why : Fault) × (first >>= next ≡ fault why)
faults-then (ok result) next h = (out_of_range, h result)
faults-then (fault why) next h = (why, refl)

-- The header of this shell is the next in the ring, which holds its bytes in one piece.
pub record HasHeader (layout : Layout) (shell : Shell) (r : Ring) : Type 0 where
  pub in_use : r.head < r.tail
  pub in_memory : r.tail ≤ length r.buffer
  pub enough : layout.size ≤ r.tail - r.head
  pub next : take layout.size (drop r.head r.buffer) ≡ layout.encode shell

-- What `rpc_io_enqueue` accepts as a header.
pub record IsHeader (layout : Layout) (shell : Shell) : Type 0 where
  pub positive : 0 < layout.size
  pub length-encode : length (layout.encode shell) ≡ layout.size
  pub decode-encode : layout.decode (layout.encode shell) ≡ shell
  pub same_magic : shell.magic ≡ magic_number
  pub same_version : shell.version ≡ version_sign

module _ (malloc : ℕ → List ℕ) (layout : Layout) (ciphers : Ciphers) (shell : Shell)
    (ih : IsHeader layout shell) where
  pub shell_at_header :
      (r : Ring) (off : ℕ)
      → off + layout.size ≤ length r.buffer
      → take layout.size (drop off r.buffer) ≡ layout.encode shell
      → shell_at layout r (in_buffer off) ≡ ok shell
  unfolding shell_at
  shell_at_header r off h e =
      ap (λ t. t >>= λ bytes. ok (layout.decode bytes)) (load_lem r.buffer off layout.size h)
      ∙ ap (λ t. ok (layout.decode t)) e
      ∙ ap ok ih.decode-encode

  take_shell-header :
      (io : Io)
      → io.shell_cached ≡ false
      → HasHeader layout shell io.recv
      → take_shell malloc layout ciphers io
        ≡ ok (in_buffer io.recv.head, record io.recv { head = io.recv.head + layout.size })
  unfolding take_shell points
  take_shell-header io fresh h = rw fresh (
      rw (read_flat malloc io.recv layout.size h.in_memory h.in_use h.enough)
        (ground (arith, h.in_use)))

  read_round-header :
      (io : Io)
      → io.shell_cached ≡ false
      → HasHeader layout shell io.recv
      → read_round malloc layout ciphers io
        ≡ finish_round malloc layout ciphers io
            (record io.recv { head = io.recv.head + layout.size })
            (in_buffer io.recv.head)
            shell
  unfolding read_round
  read_round-header io fresh h =
      let r' = record io.recv { head = io.recv.head + layout.size } in
      rw (take_shell-header io fresh h) (
        rw (shell_at_header r' io.recv.head (omega (arith, h.in_use, h.in_memory, h.enough)) h.next)
          refl)

  pub enqueue_round-header :
      (io : Io)
      → io.shell_cached ≡ false
      → HasHeader layout shell io.recv
      → enqueue_round malloc layout ciphers io
        ≡ finish_round malloc layout ciphers io
            (record io.recv { head = io.recv.head + layout.size })
            (in_buffer io.recv.head)
            shell
  unfolding enqueue_round
  enqueue_round-header io fresh h =
      rw (read_round-header io fresh h)
        (ground (arith, fresh, h.in_use, h.enough, can_read_flat io.recv (omega (arith, h.in_use))))

  pub cached_faults :
      (f : ℕ) (more : List ℕ) (io : Io)
      → io.shell_cached ≡ true
      → (why : Fault) × (enqueue_found malloc layout ciphers (suc f) more io ≡ fault why)
  unfolding enqueue_found enqueue_rounds enqueue_round read_round take_shell
  cached_faults f more io cached =
      faults-then (Ring.write malloc io.recv more)
        (λ t. enqueue_rounds malloc layout ciphers (suc f) (record io { recv = t.1 }))
        (λ t. rw cached refl)
