-- ===== src/Rpc/Shell/Received.antt =====
-- A request that is received whole, and one of which a part is missing.
use livezure.Prelude.{
  ℕ, suc, ◌+◌, ◌<◌, ◌≡◌, refl, ap, ◌∙◌, sym, true, false, List, [], ◌∷◌, ◌++◌, length, take, drop,
  arith, Option, take-all, >>=-eq-ok, none, some, Run, ok, fault, Fault, ◌>>=◌, patch, length-patch,
  length-append, take-append, drop-append,
}
use livezure.Rpc.Ring
use livezure.Rpc.Ring.{Ring, can_read}
use livezure.Rpc.Ring.Flat.{can_read_flat, write_flat, read_flat}
use livezure.Rpc.Buffer
use livezure.Rpc.Buffer.{Buffer, given}
use livezure.Rpc.Crypt.{Ciphers, decrypt}
use livezure.Rpc.Io.{Io}
use livezure.Rpc.Shell.{
  Shell, Layout, Pointer, in_buffer, Task, dispatched, shell_at, take_body, finish_round,
  enqueue_round, after_round, enqueue_rounds, enqueue_found,
}
use livezure.Rpc.Shell.Header.{
  patch_part, HasHeader, IsHeader, shell_at_header, enqueue_round-header, cached_faults,
}

-- A connection with no shell kept and an empty ring that has room for these bytes.
pub record Ready (d : List ℕ) (io : Io) : Type 0 where
  pub not_cached : io.shell_cached ≡ false
  pub allocated : length io.recv.buffer ≡ io.recv.capacity
  pub empty : io.recv.head ≡ io.recv.tail
  pub room : io.recv.tail + length d < io.recv.capacity

-- The ring with the bytes, from the position on.
abbrev filled : Ring → List ℕ → ℕ → Ring
filled r d head = record r {
  buffer = patch r.buffer r.tail d;
  tail = r.tail + length d;
  head = head;
}

-- One request was cut off, with this shell and this body, and the ring is empty again.
pub record Dispatches (layout : Layout) (shell : Shell) (input : Option Buffer) (io : Io)
    (out : Run (ℕ × Io × List Task)) : Type 0 where
  pub after : Io
  pub pointer : Pointer
  pub returns : out ≡ ok (0, after, record { fd = io.fd; shell = pointer; input = input } ∷ [])
  pub shell_there : shell_at layout after.recv pointer ≡ ok shell
  pub not_cached : after.shell_cached ≡ false
  pub emptied : after.recv.head ≡ after.recv.tail
  pub same_send : after.send ≡ io.send
  pub same_fd : after.fd ≡ io.fd

module _ (malloc : ℕ → List ℕ) (ciphers : Ciphers) where
  -- The buffer of a body that is received whole.
  unfoldable pub opened : ℕ → List ℕ → Run (Option Buffer)
  opened crypt [] = ok none
  opened crypt (x ∷ xs) = do
    body ← Buffer.new malloc (x ∷ xs) (given (suc (length xs)))
    body' ← decrypt malloc ciphers body crypt
    ok (some body')

module _ (malloc : ℕ → List ℕ) (layout : Layout) (ciphers : Ciphers) (shell : Shell)
    (ih : IsHeader layout shell) where
  module _ (io : Io) (body : List ℕ) (ready : Ready (layout.encode shell ++ body) io) where
    abbrev inbuf : List ℕ
    inbuf = layout.encode shell ++ body

    length-inbuf : length inbuf ≡ layout.size + length body
    length-inbuf =
        length-append (layout.encode shell) body ∙ ap (λ n. n + length body) ih.length-encode

    abbrev arrived : Io
    arrived = record io { recv = filled io.recv inbuf io.recv.head }

    arrived-HasHeader : HasHeader layout shell arrived.recv
    arrived-HasHeader =
        let l1 = ready.empty in
        let l2 = ready.room in
        let l3 = ready.allocated in
        let l4 = ih.positive in
        let l5 = length-patch io.recv.buffer io.recv.tail inbuf in
        let l6 = length-inbuf in
        record {
          in_use = omega arith;
          in_memory = omega arith;
          enough = omega arith;
          next =
              ap (λ m. take layout.size (drop m (patch io.recv.buffer io.recv.tail inbuf)))
                (omega arith)
              ∙ patch_part io.recv.buffer io.recv.tail inbuf 0 layout.size (omega arith)
                  (omega arith)
              ∙ take-append (layout.encode shell) body layout.size (sym ih.length-encode);
        }

    enqueue_found-header :
        (f : ℕ)
        → enqueue_found malloc layout ciphers (suc f) inbuf io
          ≡ finish_round malloc layout ciphers arrived
              (filled io.recv inbuf (io.recv.head + layout.size))
              (in_buffer io.recv.head)
              shell
            >>= after_round malloc layout ciphers (enqueue_rounds malloc layout ciphers f)
    unfolding enqueue_found enqueue_rounds
    enqueue_found-header f =
        rw (write_flat malloc io.recv inbuf ready.allocated ready.empty ready.room) (
          rw
            (enqueue_round-header malloc layout ciphers shell ih arrived ready.not_cached
              arrived-HasHeader)
            refl)

    can_read_body : can_read (filled io.recv inbuf (io.recv.head + layout.size)) ≡ length body
    can_read_body =
        let recv = filled io.recv inbuf (io.recv.head + layout.size) in
        let l1 = ready.empty in
        let l2 = length-inbuf in can_read_flat recv (omega arith) ∙ (omega arith)

    -- A request of whose body a part is missing when its header arrives, on a connection with
    -- nothing before it and room for the bytes, is kept: nothing is dispatched. The next bytes on the
    -- connection, whatever they are, end in a fault.
    pub enqueue_part :
        (f g : ℕ) (more : List ℕ)
        → length body < shell.body_size
        → (io' : Io) × (why : Fault) × (enqueue_found malloc layout ciphers (suc f) inbuf io
            ≡ ok (1, io', []))
          × (enqueue_found malloc layout ciphers (suc g) more io' ≡ fault why)
    unfolding finish_round after_round
    enqueue_part f g more short =
        let recv = filled io.recv inbuf (io.recv.head + layout.size) in
        let kept = record io { recv = recv; shell_cached = true } in
        let next = cached_faults malloc layout ciphers shell ih g more kept refl in
        let left : can_read recv < shell.body_size = omega (arith, can_read_body) in
        (
          kept,
          next.0,
          rw (enqueue_found-header f) (ground (arith, ih.same_magic, ih.same_version, left)),
          next.1,
        )

    take_body-opened :
        (bytes : List ℕ) (input : Option Buffer)
        → bytes ≡ body
        → opened malloc ciphers shell.crypt bytes ≡ ok input
        → take_body malloc layout ciphers
            (filled io.recv inbuf (io.recv.head + layout.size))
            (in_buffer io.recv.head)
            (length bytes)
          ≡ ok (input, filled io.recv inbuf (io.recv.head + layout.size + length bytes))
    unfolding opened take_body
    take_body-opened [] input e h =
        let head = io.recv.head + layout.size in
        ap {B = Run (Option Buffer × Ring)} (λ n. ok (none, filled io.recv inbuf n)) (omega arith)
        ∙ ap (λ t. t >>= λ u. ok (u, filled io.recv inbuf (head + 0))) h
    take_body-opened (x ∷ xs) input e h =
        let recv = filled io.recv inbuf (io.recv.head + layout.size) in
        let recv' = filled io.recv inbuf (io.recv.head + layout.size + suc (length xs)) in
        let l1 = ready.empty in
        let l2 = ready.room in
        let l3 = ready.allocated in
        let l4 = length-inbuf in
        let l5 : length body ≡ suc (length xs) = ap length (sym e) in
        let l6 = length-patch io.recv.buffer io.recv.tail inbuf in
        let got : take (suc (length xs)) (drop (io.recv.head + layout.size) recv.buffer) ≡ x ∷ xs =
          ap (λ n. take (suc (length xs)) (drop (n + layout.size) recv.buffer)) ready.empty
          ∙ patch_part io.recv.buffer io.recv.tail inbuf layout.size (suc (length xs)) (omega arith)
              (omega arith)
          ∙ ap (take (suc (length xs)))
              (drop-append (layout.encode shell) body layout.size (sym ih.length-encode) ∙ sym e)
          ∙ take-all (suc (length xs)) (x ∷ xs) (omega arith) in
        let shell' : shell_at layout recv' (in_buffer io.recv.head) ≡ ok shell =
          shell_at_header malloc layout ciphers shell ih recv' io.recv.head (omega arith)
            arrived-HasHeader.next in
        let red : Ring.read malloc recv (suc (length xs)) ≡ ok (x ∷ xs, recv') =
          read_flat malloc recv (suc (length xs)) (omega arith) (omega arith) (omega arith)
          ∙ ap (λ t. ok (t, recv')) got in
        let parts = >>=-eq-ok (Buffer.new malloc (x ∷ xs) (given (suc (length xs)))) _ h in
        let parts' = >>=-eq-ok (decrypt malloc ciphers parts.0 shell.crypt) _ parts.2 in
        rw red (rw parts.1 (rw shell' (rw parts'.1 (ap (λ t. t >>= λ u. ok (u, recv')) parts'.2))))

    finish_round-opened :
        (input : Option Buffer)
        → length body ≡ shell.body_size
        → opened malloc ciphers shell.crypt body ≡ ok input
        → finish_round malloc layout ciphers arrived
            (filled io.recv inbuf (io.recv.head + layout.size))
            (in_buffer io.recv.head)
            shell
          ≡ ok (
              dispatched
                (record arrived {
                  recv = filled io.recv inbuf (io.recv.head + layout.size + length body);
                  shell_cached = false;
                })
                (record { fd = io.fd; shell = in_buffer io.recv.head; input = input }))
    unfolding finish_round
    finish_round-opened input e h =
        let recv = filled io.recv inbuf (io.recv.head + layout.size) in
        let taken : take_body malloc layout ciphers recv (in_buffer io.recv.head) shell.body_size
            ≡ ok (input, filled io.recv inbuf (io.recv.head + layout.size + length body)) =
          ap (take_body malloc layout ciphers recv (in_buffer io.recv.head)) (sym e)
          ∙ take_body-opened body input refl h in
        rw taken (ground (arith, ih.same_magic, ih.same_version, can_read_body, e))

    -- A request that arrives whole on a connection with nothing left before it, where there is room
    -- for it, is dispatched with the buffer that its body opens to and with its header; the rest of
    -- the connection is ready for the next.
    pub enqueue_whole :
        (f : ℕ) (input : Option Buffer)
        → length body ≡ shell.body_size
        → opened malloc ciphers shell.crypt body ≡ ok input
        → Dispatches layout shell input io
            (enqueue_found malloc layout ciphers (suc (suc f)) inbuf io)
    unfolding after_round enqueue_rounds enqueue_round
    enqueue_whole f input e h =
        let recv = filled io.recv inbuf (io.recv.head + layout.size + length body) in
        let done = record arrived { recv = recv; shell_cached = false } in
        let l1 = ready.empty in
        let l2 = ready.room in
        let l3 = ready.allocated in
        let l4 = length-inbuf in
        let l5 = length-patch io.recv.buffer io.recv.tail inbuf in
        let l6 = ih.positive in
        let none_left : can_read recv ≡ 0 = can_read_flat recv (omega arith) ∙ (omega arith) in
        record {
          after = done;
          pointer = in_buffer io.recv.head;
          returns =
              rw (enqueue_found-header (suc f))
                (rw (finish_round-opened input e h) (ground (arith, none_left)));
          shell_there =
              shell_at_header malloc layout ciphers shell ih recv io.recv.head (omega arith)
                arrived-HasHeader.next;
          not_cached = refl;
          emptied = omega arith;
          same_send = refl;
          same_fd = refl;
        }
