-- ===== src/Rpc/Shell.antt =====
-- rpc_shell.h, and rpc_io_make_shell and rpc_io_enqueue of rpc_io.c: the header before each request,
-- and how the bytes received on a connection are cut into requests. Body sizes are below 2^31.
pub mod Header
pub mod Made
pub mod Received
pub mod Sealed
pub mod Tests
use livezure.Prelude.{
  ℕ, zero, suc, ◌+◌, ◌*◌, ◌==◌, ltb, Bool, true, false, if◌then◌else◌, List, [], ◌∷◌, ◌++◌, length,
  Option, none, some, Run, ok, fault, ◌>>=◌, ◌>>◌, guard, failed_assert, out_of_range, out_of_fuel,
  load, store, not,
}
use livezure.Rpc.Ring
use livezure.Rpc.Ring.{Ring, can_read}
use livezure.Rpc.Buffer
use livezure.Rpc.Buffer.{Buffer, given, get_size}
use livezure.Rpc.Crypt.{Ciphers, encrypt, decrypt}
use livezure.Rpc.Io.{Io}

-- `rpc_shell_t`
pub record Shell : Type 0 where
  pub magic : ℕ
  pub version : ℕ
  pub category : ℕ
  pub sub_category : ℕ
  pub req : ℕ
  pub crypt : ℕ
  pub body_size : ℕ
  pub reserved : ℕ

-- How the compiler lays `rpc_shell_t` out, which differs between the platforms.
pub record Layout : Type 0 where
  pub size : ℕ
  pub encode : Shell → List ℕ
  pub decode : List ℕ → Shell

abbrev pub magic_number : ℕ
magic_number = 7811905206869127781

abbrev pub version_sign : ℕ
version_sign = 87

-- What a `shell` that was read from a ring points to: an offset in its buffer, or its `ret_buffer`
-- of this size, which the ring frees when it needs a larger one.
pub data Pointer : Type 0 where
  in_buffer : ℕ → Pointer
  in_ret : ℕ → Pointer

-- `rpc_io_task_t`
pub record Task : Type 0 where
  pub fd : ℕ
  pub shell : Pointer
  pub input : Option Buffer

-- The end of a round of the loop.
pub data Round : Type 0 where
  returned : ℕ → Io → Round
  dispatched : Io → Task → Round

unfoldable pub shell_at : Layout → Ring → Pointer → Run Shell
shell_at layout r (in_buffer off) = do
  bytes ← load r.buffer off layout.size
  ok (layout.decode bytes)
shell_at layout r (in_ret size) = do
  guard (r.ret_buffer_size == size) out_of_range
  bytes ← load r.ret_buffer 0 layout.size
  ok (layout.decode bytes)

-- What `*data` points to after a read.
unfoldable pub points : Ring → Ring → Pointer
points before after =
    if ltb before.head before.tail then in_buffer before.head else in_ret after.ret_buffer_size

module _ (malloc : ℕ → List ℕ) (layout : Layout) (ciphers : Ciphers) where
  -- The body, encrypted.
  unfoldable pub shell_body : ℕ → Option Buffer → Run (List ℕ)
  shell_body crypt none = ok []
  shell_body crypt (some b) = do
    body ← Buffer.clone malloc b
    body' ← encrypt malloc ciphers body crypt
    n ← get_size body'
    load body'.chunk 0 n

  -- The shell is the caller's, with the size of the body.
  unfoldable pub make_shell : Shell → Option Buffer → Run (Shell × Buffer)
  make_shell shell input = do
    body ← shell_body shell.crypt input
    let sized = record shell { body_size = length body }
    out_buf ← store (malloc (layout.size + length body + 1)) 0 (layout.encode sized)
    out_buf' ← store out_buf layout.size body
    out ← Buffer.new malloc out_buf' (given (layout.size + length body))
    ok (sized, out)

  -- The pointer is read uninitialised where the shell was kept from an earlier call, since
  -- `child->shell` is never read.
  unfoldable pub take_shell : Io → Run (Pointer × Ring)
  take_shell io =
      if io.shell_cached
      then fault out_of_range
      else (do (bytes, recv) ← Ring.read malloc io.recv layout.size; ok (points io.recv recv, recv))

  -- The body, decrypted as the shell says after the body has been read.
  unfoldable pub take_body : Ring → Pointer → ℕ → Run (Option Buffer × Ring)
  take_body recv shell zero = ok (none, recv)
  take_body recv shell (suc n) = do
    (bytes, recv') ← Ring.read malloc recv (suc n)
    body ← Buffer.new malloc bytes (given (suc n))
    now ← shell_at layout recv' shell
    body' ← decrypt malloc ciphers body now.crypt
    ok (some body', recv')

  unfoldable pub finish_round : Io → Ring → Pointer → Shell → Run Round
  finish_round io recv pointer shell = do
    guard (shell.magic == magic_number) failed_assert
    guard (shell.version == version_sign) failed_assert
    if ltb (can_read recv) shell.body_size
        then ok (returned 1 (record io { recv = recv; shell_cached = true }))
        else (do
          (input, recv') ← take_body recv pointer shell.body_size
          let io' = record io { recv = recv'; shell_cached = false }
          ok (dispatched io' (record { fd = io.fd; shell = pointer; input = input })))

  unfoldable pub read_round : Io → Run Round
  read_round io = do
    (pointer, recv) ← take_shell io
    shell ← shell_at layout recv pointer
    finish_round io recv pointer shell

  unfoldable pub enqueue_round : Io → Run Round
  enqueue_round io =
      if io.shell_cached
      then read_round io
      else (if ltb (can_read io.recv) layout.size then ok (returned 0 io) else read_round io)

  -- What follows a round, the loop going on after a request, with the tasks that are registered.
  unfoldable pub after_round : (Io → Run (ℕ × Io × List Task)) → Round → Run (ℕ × Io × List Task)
  after_round next (returned r io) = ok (r, io, [])
  after_round next (dispatched io task) = do (r, io', tasks) ← next io; ok (r, io', task ∷ tasks)

  unfoldable pub enqueue_rounds : ℕ → Io → Run (ℕ × Io × List Task)
  enqueue_rounds zero io = fault out_of_fuel
  enqueue_rounds (suc f) io = enqueue_round io >>= after_round (enqueue_rounds f)

  -- The connection that `rpc_io_find` returns.
  unfoldable pub enqueue_found : ℕ → List ℕ → Io → Run (ℕ × Io × List Task)
  enqueue_found f inbuf io = do
    (n, recv) ← Ring.write malloc io.recv inbuf
    enqueue_rounds f (record io { recv = recv })

  unfoldable pub enqueue_at : ℕ → ℕ → List ℕ → List Io → Run (ℕ × List Io × List Task)
  enqueue_at f fd inbuf [] = fault failed_assert
  enqueue_at f fd inbuf (io ∷ rest) = do
    if io.fd == fd
        then (do (r, io', tasks) ← enqueue_found f inbuf io; ok (r, io' ∷ rest, tasks))
        else (do (r, rest', tasks) ← enqueue_at f fd inbuf rest; ok (r, io ∷ rest', tasks))

  unfoldable pub enqueue : ℕ → ℕ → List ℕ → List Io → Run (ℕ × List Io × List Task)
  enqueue f fd inbuf table = do
    guard (ltb 0 (length inbuf)) failed_assert
    enqueue_at f fd inbuf table
