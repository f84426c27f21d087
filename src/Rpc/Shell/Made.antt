-- ===== src/Rpc/Shell/Made.antt =====
-- What rpc_io_make_shell makes, and that it is received as it was.
use livezure.Prelude.{
  ℕ, suc, ◌+◌, ◌≡◌, refl, ap, ◌∙◌, List, ◌++◌, length, arith, Option, ok, patch, take-patch,
  length-patch, store_lem,
}
use livezure.Rpc.Buffer.{Buffer}
use livezure.Rpc.Buffer.Append.{payload}
use livezure.Rpc.Crypt.{Ciphers}
use livezure.Rpc.Crypt.Copies.{copied, new-copied, copied-IsCopy}
use livezure.Rpc.Io.{Io}
use livezure.Rpc.Shell.{Shell, Layout, shell_body, make_shell, enqueue_found}
use livezure.Rpc.Shell.Header.{IsHeader}
use livezure.Rpc.Shell.Received.{Ready, Dispatches, opened, enqueue_whole}

module _ (malloc : ℕ → List ℕ) (malloc_length : (n : ℕ) → length (malloc n) ≡ n) (layout : Layout)
    (ciphers : Ciphers) (shell : Shell) (input : Option Buffer) (body : List ℕ)
    (packed : shell_body malloc layout ciphers shell.crypt input ≡ ok body) where
  abbrev pub sized : Shell
  sized = record shell { body_size = length body }

  module _ (ih : IsHeader layout sized) where
    out_buf : List ℕ
    out_buf =
        patch (patch (malloc (layout.size + length body + 1)) 0 (layout.encode sized)) layout.size
          body

    made : Buffer
    made = copied malloc out_buf (layout.size + length body)

    length-out_buf : length out_buf ≡ layout.size + length body + 1
    unfolding out_buf
    length-out_buf =
        length-patch (patch (malloc (layout.size + length body + 1)) 0 (layout.encode sized))
          layout.size body
        ∙ length-patch (malloc (layout.size + length body + 1)) 0 (layout.encode sized)
        ∙ malloc_length (layout.size + length body + 1)

    make_shell-made : make_shell malloc layout ciphers shell input ≡ ok (sized, made)
    unfolding make_shell out_buf made
    make_shell-made =
        let raw = malloc (layout.size + length body + 1) in
        let l0 = malloc_length (layout.size + length body + 1) in
        let l1 = ih.length-encode in
        let l2 = length-patch raw 0 (layout.encode sized) in
        let l3 = length-out_buf in
        let l4 = ih.positive in
        rw packed (
          rw (store_lem raw 0 (layout.encode sized) (omega arith)) (
            rw (store_lem (patch raw 0 (layout.encode sized)) layout.size body (omega arith)) (
              rw
                (new-copied malloc malloc_length out_buf (layout.size + length body) (omega arith)
                  (omega arith))
                refl)))

    payload-made : payload made ≡ layout.encode sized ++ body
    unfolding out_buf made
    payload-made =
        let raw = malloc (layout.size + length body + 1) in
        let l0 = malloc_length (layout.size + length body + 1) in
        let l1 = ih.length-encode in
        let l2 = length-patch raw 0 (layout.encode sized) in
        let l3 = length-out_buf in
        (copied-IsCopy malloc malloc_length out_buf (layout.size + length body)
          (omega arith)).streams
        ∙ take-patch (patch raw 0 (layout.encode sized)) layout.size body
            (layout.size + length body) (omega arith) (omega arith)
        ∙ ap (λ t. t ++ body)
            (take-patch raw 0 (layout.encode sized) layout.size (omega arith) (omega arith))

    -- A request with this body is received as it was made, with what its body opens to.
    pub enqueue-make_shell :
        (f : ℕ) (io : Io) (received : Option Buffer)
        → Ready (layout.encode sized ++ body) io
        → opened malloc ciphers shell.crypt body ≡ ok received
        → (b : Buffer) × (make_shell malloc layout ciphers shell input ≡ ok (sized, b))
          × Dispatches layout sized received io
              (enqueue_found malloc layout ciphers (suc (suc f)) (payload b) io)
    enqueue-make_shell f io received ready h = (
      made,
      make_shell-made,
      rw payload-made
          (enqueue_whole malloc layout ciphers sized ih io body ready f received refl h),
    )
