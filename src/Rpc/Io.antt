-- ===== src/Rpc/Io.antt =====
-- rpc_io.c: the connections of a service, what is queued to be sent on them, and the queue of
-- signals to the thread that sends. A pointer to a connection is its descriptor: none is added
-- again while a signal to an earlier one of the same number is queued.
pub mod Notify
pub mod Unsent
mod Tests
use livezure.Prelude.{
  ℕ, zero, suc, ◌+◌, ◌*◌, ◌==◌, if◌then◌else◌, Bool, true, false, not, List, [], ◌∷◌, ◌++◌, Option,
  none, some, Run, ok, fault, failed_assert, out_of_range, ◌>>=◌, ◌>>◌, guard,
}
use livezure.Rpc.Ring
use livezure.Rpc.Ring.{Ring}
use livezure.Rpc.Buffer
use livezure.Rpc.Buffer.{Buffer}
use livezure.Rpc.Queue
use livezure.Rpc.Queue.{Queue, drain}

abbrev pub def_grow_size : ℕ
def_grow_size = 4 * 1024

-- `rpc_io_t`, without the shell of a request that is not all there.
pub record Io : Type 0 where
  pub send : Queue Buffer
  pub recv : Ring
  pub shell_cached : Bool
  pub fd : ℕ
  pub extra : ℕ

pub find : ℕ → List Io → Option Io
find fd [] = none
find fd (io ∷ rest) = if io.fd == fd then some io else find fd rest

-- The pointer that `rpc_io_find` returns.
pub found : ℕ → List Io → Option ℕ
found fd [] = none
found fd (io ∷ rest) = if io.fd == fd then some io.fd else found fd rest

-- `tmp->fd` against `notify_type`: 0 for all, 1 for `curfd` alone, 2 for all others.
pub wanted : ℕ → ℕ → ℕ → Run Bool
wanted curfd zero fd = ok true
wanted curfd (suc zero) fd = ok (fd == curfd)
wanted curfd (suc (suc zero)) fd = ok (not (fd == curfd))
wanted curfd (suc (suc (suc n))) fd = fault failed_assert

-- What the thread that sends does with the pointer it takes from its queue: the bodies that it
-- passes to the callback, and the connections.
pub serve_at : ℕ → ℕ → List Io → Run (List Buffer × List Io)
serve_at f fd [] = ok ([], [])
serve_at f fd (io ∷ rest) = do
  if io.fd == fd
      then (do
        (bodies, send) ← drain f (λ rq. (false, rq)) io.send
        ok (bodies, record io { send = send } ∷ rest))
      else (do (bodies, rest') ← serve_at f fd rest; ok (bodies, io ∷ rest'))

-- A round of `rpc_io_routine` for a signal: it reads `io->fd`.
pub serve : ℕ → Option ℕ → List Io → Run (List Buffer × List Io)
serve f none table = fault out_of_range
serve f (some fd) table = serve_at f fd table

-- The rounds for all signals that are queued.
pub serve_all : ℕ → List (Option ℕ) → List Io → Run (List Io)
serve_all f [] table = ok table
serve_all f (signal ∷ signals) table = do
  (bodies, table') ← serve f signal table
  serve_all f signals table'

-- `rpc_io_stop`
pub stop : ℕ → List Io → List Io
stop fd [] = []
stop fd (io ∷ rest) =
    if io.fd == fd then record io { send = Queue.stop io.send } ∷ rest else io ∷ stop fd rest

-- `rpc_io_del`, with fuel to empty the queue; it asserts that no other connection has the number.
pub del_first : ℕ → ℕ → List Io → Run (List Io)
del_first f fd [] = ok []
del_first f fd (io ∷ rest) = do
  if io.fd == fd
      then (do
        (bodies, send) ← drain f (λ rq. (false, rq)) (Queue.stop io.send)
        Queue.destroy send >> ok rest)
      else (do rest' ← del_first f fd rest; ok (io ∷ rest'))

is_none : Option Io → Bool
is_none none = true
is_none (some io) = false

pub del : ℕ → ℕ → List Io → Run (List Io)
del f fd table = do
  table' ← del_first f fd table
  guard (is_none (find fd table')) failed_assert
  ok table'

-- `rpc_io_all`: the descriptors and the extras.
pub all : List Io → List (ℕ × ℕ)
all [] = []
all (io ∷ rest) = (io.fd, io.extra) ∷ all rest

module _ (malloc : ℕ → List ℕ) where
  -- The connection that `rpc_io_add` makes.
  add_new : ℕ → ℕ → List Io → Option Io → Run (ℕ × List Io)
  add_new fd extra table (some io) = ok (0, table)
  add_new fd extra table none = do
    recv ← Ring.new malloc def_grow_size def_grow_size
    ok (
      1,
      table
          ++ (record { send = Queue.new; recv = recv; shell_cached = false; fd = fd; extra = extra }
              ∷ []),
    )

  pub add : ℕ → ℕ → List Io → Run (ℕ × List Io)
  add fd extra table = add_new fd extra table (find fd table)

  -- A round of the loop of `rpc_io_nodify_fd`: the connection with its copy, and the signals; the
  -- pointer is that of `curfd`.
  pub post : Bool → Option ℕ → Buffer → Io → List (Option ℕ) → Run (ℕ × Io × List (Option ℕ))
  post false cur input io signals = ok (0, io, signals)
  post true cur input io signals = do
    copy ← Buffer.clone malloc input
    ok (1, record io { send = Queue.push io.send copy }, signals ++ (cur ∷ []))

  -- The loop, over the connections and the queue of signals.
  pub post_all :
      ℕ → ℕ → Option ℕ → Buffer → List Io → List (Option ℕ) → Run (ℕ × List Io × List (Option ℕ))
  post_all curfd notify_type cur input [] signals = ok (0, [], signals)
  post_all curfd notify_type cur input (io ∷ rest) signals = do
    w ← wanted curfd notify_type io.fd
    (n, io', signals') ← post w cur input io signals
    (cnt, rest', signals'') ← post_all curfd notify_type cur input rest signals'
    ok (n + cnt, io' ∷ rest', signals'')

  -- `rpc_io_nodify_fd`
  pub nodify_fd : ℕ → ℕ → Buffer → List Io → List (Option ℕ) → Run (ℕ × List Io × List (Option ℕ))
  nodify_fd curfd notify_type input table signals =
      post_all curfd notify_type (found curfd table) input table signals
