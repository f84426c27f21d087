-- ===== src/Rpc/Io/Tests.antt =====
-- Runs of the connections, and their theorems at concrete lists.
use livezure.Prelude.{ℕ, ◌≡◌, refl, ◌>>=◌, false, List, [], ◌∷◌, some, ok, arith, zeros, patch}
use livezure.Rpc.Ring.{Ring}
use livezure.Rpc.Buffer
use livezure.Rpc.Buffer.{Buffer}
use livezure.Rpc.Queue
use livezure.Rpc.Queue.{Queue}
use livezure.Rpc.Io.{Io, find, found, serve_all, nodify_fd}
use livezure.Rpc.Io.Notify.{posted_all, nodify_fd_lem}
use livezure.Rpc.Io.Unsent.{nodify_unsent}

abbrev no_bytes : Ring
no_bytes = record {
  buffer = [];
  head = 0;
  tail = 0;
  capacity = 4096;
  expand = 4096;
  ret_buffer = [];
  ret_buffer_size = 0;
}

abbrev connection : ℕ → Io
connection fd = record {
  send = record { rpc_queue = []; rpc_queue_stop_sign = false };
  recv = no_bytes;
  shell_cached = false;
  fd = fd;
  extra = 0;
}

abbrev two : List Io
two = connection 3 ∷ connection 4 ∷ []

-- A message of one byte, and its copy.
abbrev message : Buffer
message = record { chunk = 7 ∷ []; chunk_size = 1; chunk_used = 1; parse_position = 0 }

abbrev copy : Buffer
copy = record { chunk = 7 ∷ zeros 65; chunk_size = 66; chunk_used = 1; parse_position = 0 }

clones : Buffer.clone zeros message ≡ ok copy
unfolding Buffer.clone Buffer.get_size Buffer.new Buffer.new_sized patch
clones = refl

nodify_fd_lem_example :
    nodify_fd zeros 3 2 message two [] ≡ ok (1, posted_all 3 2 copy two, some 3 ∷ [])
unfolding found
nodify_fd_lem_example = nodify_fd_lem zeros message copy clones 3 2 two [] (omega arith)

nodify_unsent_example :
    (after : List Io) × ((nodify_fd zeros 3 2 message two [] >>= λ (n, table', signals).
    serve_all 2 signals table')
      ≡ ok after)
    × (find 4 after ≡ some (record (connection 4) { send = Queue.push (connection 4).send copy }))
unfolding found find Queue.push
nodify_unsent_example =
    nodify_unsent zeros message copy 3 2 4 2 two (connection 4) clones (omega arith) (omega arith)
      refl refl refl (omega arith, (omega arith, tt))
