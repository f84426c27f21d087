-- ===== src/Rpc/Process/Replied.antt =====
-- A request is answered by a frame of the same category, and a reply by none.
use livezure.Prelude.{
  ℕ, ◌≡◌, refl, ◌==◌, List, [], ◌∷◌, ◌++◌, length, arith, Option, some, ok, guard, load, store,
  patch, out_of_range, >>=-eq-ok,
}
use livezure.Rpc.Ring.{Ring}
use livezure.Rpc.Buffer.{Buffer}
use livezure.Rpc.Crypt.{Ciphers}
use livezure.Rpc.Parser.{Item}
use livezure.Rpc.Queue
use livezure.Rpc.Io.{Io}
use livezure.Rpc.Shell.{Shell, Layout, Pointer, in_buffer, in_ret, Task, shell_at, make_shell}
use livezure.Rpc.Process.{
  Dispatch, req_type_get, req_type_post, put_shell, request_of, reply_to, answer, processor,
}

-- Where a header can be read, one of its size can be written.
store-load :
    (mem bytes : List ℕ) (off n : ℕ) (d : List ℕ)
    → load mem off n ≡ ok bytes
    → length d ≡ n
    → store mem off d ≡ ok (patch mem off d)
store-load mem bytes off n d h e = ground arith

pub put_shell_lem :
    (layout : Layout) (r : Ring) (pointer : Pointer) (there shell : Shell)
    → shell_at layout r pointer ≡ ok there
    → length (layout.encode shell) ≡ layout.size
    → (r' : Ring) × (put_shell layout r pointer shell ≡ ok r')
unfolding shell_at put_shell
put_shell_lem layout r (in_buffer off) there shell h e =
    let read = >>=-eq-ok (load r.buffer off layout.size) _ h in
    (
      record r { buffer = patch r.buffer off (layout.encode shell) },
      rw (store-load r.buffer read.0 off layout.size (layout.encode shell) read.1 e) refl,
    )
put_shell_lem layout r (in_ret size) there shell h e =
    let same = >>=-eq-ok (guard (r.ret_buffer_size == size) out_of_range) _ h in
    let read = >>=-eq-ok (load r.ret_buffer 0 layout.size) _ same.2 in
    (
      record r { ret_buffer = patch r.ret_buffer 0 (layout.encode shell) },
      rw same.1
          (rw (store-load r.ret_buffer read.0 0 layout.size (layout.encode shell) read.1 e) refl),
    )

module _ (malloc : ℕ → List ℕ) (layout : Layout) (ciphers : Ciphers) {W : Type 0} (f : ℕ)
    (dispatch : Dispatch W) (task : Task) (w w' : W) (child child' : Io) (req : Option (List Item))
    (res_rpc : Option Buffer) (shell there : Shell) (signals : List (Option ℕ)) where
  -- The reply to a request: it is queued behind what is on the connection, and signalled.
  pub processor-get :
      (shell' : Shell) (body : Buffer)
      → request_of f task.input ≡ ok req
      → shell_at layout child.recv task.shell ≡ ok shell
      → dispatch shell.category shell.sub_category task.fd req (w, child) ≡ ok (res_rpc, w', child')
      → shell_at layout child'.recv task.shell ≡ ok there
      → there.req ≡ req_type_get
      → make_shell malloc layout ciphers (record there { req = req_type_post }) res_rpc
        ≡ ok (shell', body)
      → length (layout.encode shell') ≡ layout.size
      → (child'' : Io) × (processor malloc layout ciphers f dispatch task (w, child) signals
          ≡ ok (w', child'', signals ++ (some child''.fd ∷ [])))
        × (child''.send ≡ Queue.push child'.send body)
        × (child''.fd ≡ child'.fd)
  unfolding processor answer reply_to
  processor-get shell' body parsed at called at' get made size =
      let put = put_shell_lem layout child'.recv task.shell there shell' at' size in
      (
        record child' { recv = put.0; send = Queue.push child'.send body },
        rw parsed (rw at (rw called (rw at' (rw get (rw made (rw put.1 refl)))))),
        refl,
        refl,
      )
