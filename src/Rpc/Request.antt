-- ===== src/Rpc/Request.antt =====
-- rpc_request.c: the requests of a client that wait for a reply. A handle is known by its address;
-- `rpc_default_dispatcher` is the one callback of the dispatcher, and its `opaque` is a handle.
pub mod Reach
pub mod Late
pub mod Race
mod Tests
use livezure.Prelude.{
  ℕ, ◌==◌, if◌then◌else◌, Bool, true, false, not, List, [], ◌∷◌, ◌++◌, Option, none, some, Run, ok,
  fault, ◌>>=◌, ◌>>◌, guard, failed_assert, out_of_range,
}
use livezure.Rpc.Buffer.{Buffer}
use livezure.Rpc.Crypt.{Ciphers}
use livezure.Rpc.Parser.{Item}
use livezure.Rpc.Dispatch as Dispatch
use livezure.Rpc.Dispatch.{Dispatcher}
use livezure.Rpc.Io.{Io, nodify_fd}
use livezure.Rpc.Process.{req_type_get}
use livezure.Rpc.Shell.{Shell, Layout, magic_number, version_sign, make_shell}

-- `struct rpc_handle`, with its address.
pub record Handle : Type 0 where
  pub address : ℕ
  pub req : Option (List Item)
  pub category : ℕ
  pub sub_category : ℕ

-- The callbacks, and the handles that are allocated.
pub record Pending : Type 0 where
  pub table : List Dispatcher
  pub handles : List Handle

-- The address of `rpc_default_dispatcher`.
abbrev pub default_dispatcher : ℕ
default_dispatcher = 1

unfoldable pub handle_at : ℕ → List Handle → Run Handle
handle_at a [] = fault out_of_range
handle_at a (h ∷ rest) = if h.address == a then ok h else handle_at a rest

unfoldable pub put_req : ℕ → Option (List Item) → List Handle → Run (List Handle)
put_req a req [] = fault out_of_range
put_req a req (h ∷ rest) =
    let later = put_req a req rest >>= λ rest'. ok (h ∷ rest') in
    if h.address == a then ok (record h { req = req } ∷ rest) else later

unfoldable pub free : ℕ → List Handle → List Handle
free a [] = []
free a (h ∷ rest) = if h.address == a then rest else h ∷ free a rest

-- `rpc_default_dispatcher`, which keeps the request and answers nothing; the reply to it has none
-- where it has no body.
unfoldable pub rpc_default_dispatcher : ℕ → ℕ → Option (List Item) → Pending → Run Pending
rpc_default_dispatcher opaque fd req s = do
  handles ← put_req opaque req s.handles
  guard (not (fd == 0)) failed_assert
  ok (record s { handles = handles })

-- The handle of the callback that `rpc_dispatch_processor` finds.
unfoldable pub opaque_for : ℕ → ℕ → List Dispatcher → Option ℕ
opaque_for category sub_category [] = none
opaque_for category sub_category (d ∷ rest) =
    if Dispatch.handles category sub_category d
    then some d.opaque
    else opaque_for category sub_category rest

unfoldable pub deliver_to : Option ℕ → ℕ → Option (List Item) → Pending → Run Pending
deliver_to none fd req s = ok s
deliver_to (some opaque) fd req s = rpc_default_dispatcher opaque fd req s

-- A reply that arrives.
unfoldable pub deliver : ℕ → ℕ → ℕ → Option (List Item) → Pending → Run Pending
deliver category sub_category fd req s =
    deliver_to (opaque_for category sub_category s.table) fd req s

-- A new handle with its callback; the address is that of the memory allocated.
unfoldable pub register : ℕ → ℕ → ℕ → Pending → Pending
register a category sub_category s = record {
  table = Dispatch.add_cb category sub_category default_dispatcher a s.table;
  handles =
      s.handles
      ++ (record { address = a; req = none; category = category; sub_category = sub_category }
          ∷ []);
}

unfoldable pub rpc_request_destroy : ℕ → Pending → Run Pending
rpc_request_destroy a s = do
  h ← handle_at a s.handles
  table ← Dispatch.del_cb h.category h.sub_category default_dispatcher a s.table
  ok (record { table = table; handles = free a s.handles })

abbrev pub request_shell : ℕ → ℕ → ℕ → Shell
request_shell category sub_category enc_type = record {
  magic = magic_number;
  version = version_sign;
  category = category;
  sub_category = sub_category;
  req = req_type_get;
  crypt = enc_type;
  body_size = 0;
  reserved = 0;
}

-- The handle, or none where there is no connection with the descriptor.
unfoldable pub notified : ℕ → Pending → ℕ → Run (Option ℕ × Pending)
notified a s n =
    let dropped = rpc_request_destroy a s >>= λ s'. ok (none, s') in
    if n == 0 then dropped else ok (some a, s)

module _ (malloc : ℕ → List ℕ) (layout : Layout) (ciphers : Ciphers) (rc_client_fd : ℕ) where
  unfoldable pub rpc_request_new :
      ℕ
      → ℕ
      → ℕ
      → ℕ
      → Option Buffer
      → Pending
      → List Io
      → List (Option ℕ)
      → Run (Option ℕ × Pending × List Io × List (Option ℕ))
  rpc_request_new a category sub_category enc_type input s ios signals = do
    (shell, shellbuf) ←
        make_shell malloc layout ciphers (request_shell category sub_category enc_type) input
    (n, ios', signals') ← nodify_fd malloc rc_client_fd 1 shellbuf ios signals
    (handle, s') ← notified a (register a category sub_category s) n
    ok (handle, s', ios', signals')

-- `wait` is what a `pthread_cond_wait` or `pthread_cond_timedwait` does: whether it returns
-- ETIMEDOUT, and what the other threads leave.
unfoldable pub waited : (Pending → Bool × Pending) → Option (List Item) → Pending → ℕ × Pending
waited wait (some req) s = (1, s)
waited wait none s = let (timed_out, s') = wait s in (if timed_out then 0 else 1, s')

unfoldable pub rpc_request_wait : (Pending → Bool × Pending) → ℕ → Pending → Run (ℕ × Pending)
rpc_request_wait wait a s = do h ← handle_at a s.handles; ok (waited wait h.req s)

unfoldable pub rpc_request_ok : ℕ → Pending → Run (Option (List Item))
rpc_request_ok a s = do h ← handle_at a s.handles; ok h.req
