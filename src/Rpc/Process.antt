-- ===== src/Rpc/Process.antt =====
-- rpc_io_processor of rpc_io.c: a worker parses the body of a request, has it dispatched, and queues
-- the reply. The header is read, and written, where it lies in the ring of the connection, which may
-- have changed meanwhile: what the dispatcher calls gets the connection and gives it back.
pub mod Replied
use livezure.Prelude.{
  ℕ, ◌==◌, if◌then◌else◌, List, [], ◌∷◌, ◌++◌, Option, none, some, Run, ok, ◌>>=◌, ◌>>◌, guard,
  out_of_range, store,
}
use livezure.Rpc.Ring.{Ring}
use livezure.Rpc.Buffer.{Buffer}
use livezure.Rpc.Crypt.{Ciphers}
use livezure.Rpc.Parser
use livezure.Rpc.Parser.{Item}
use livezure.Rpc.Queue
use livezure.Rpc.Io.{Io}
use livezure.Rpc.Shell.{Shell, Layout, Pointer, in_buffer, in_ret, Task, shell_at, make_shell}

-- `rpc_req_type`
abbrev pub req_type_get : ℕ
req_type_get = 0

abbrev pub req_type_post : ℕ
req_type_post = 1

-- `rpc_dispatch_processor` with the callbacks of the program, whose state is any type.
abbrev pub Dispatch : Type 0 → Type 0
Dispatch W = ℕ → ℕ → ℕ → Option (List Item) → W × Io → Run (Option Buffer × W × Io)

-- What is written through a pointer to a header.
unfoldable pub put_shell : Layout → Ring → Pointer → Shell → Run Ring
put_shell layout r (in_buffer off) shell = do
  buffer ← store r.buffer off (layout.encode shell)
  ok (record r { buffer = buffer })
put_shell layout r (in_ret size) shell = do
  guard (r.ret_buffer_size == size) out_of_range
  ret_buffer ← store r.ret_buffer 0 (layout.encode shell)
  ok (record r { ret_buffer = ret_buffer })

unfoldable pub request_of : ℕ → Option Buffer → Run (Option (List Item))
request_of f none = ok none
request_of f (some b) = do req ← Parser.new f (some b); ok (some req)

module _ (malloc : ℕ → List ℕ) (layout : Layout) (ciphers : Ciphers) where
  unfoldable pub reply_to : Pointer → Shell → Option Buffer → Io → Run Io
  reply_to pointer shell res_rpc child = do
    (shell', body) ← make_shell malloc layout ciphers (record shell { req = req_type_post }) res_rpc
    recv ← put_shell layout child.recv pointer shell'
    ok (record child { recv = recv; send = Queue.push child.send body })

  -- A request that is a reply itself is not answered.
  unfoldable pub answer : Pointer → Option Buffer → Io → Run Io
  answer pointer res_rpc child = do
    shell ← shell_at layout child.recv pointer
    if shell.req == req_type_post then ok child else reply_to pointer shell res_rpc child

  -- The last are the signals to the thread that sends.
  unfoldable pub processor :
      {W : Type 0}
      → ℕ
      → Dispatch W
      → Task
      → W × Io
      → List (Option ℕ)
      → Run (W × Io × List (Option ℕ))
  processor f dispatch task (w, child) signals = do
    req ← request_of f task.input
    shell ← shell_at layout child.recv task.shell
    (res_rpc, w', child') ← dispatch shell.category shell.sub_category task.fd req (w, child)
    child'' ← answer task.shell res_rpc child'
    ok (w', child'', signals ++ (some child''.fd ∷ []))
