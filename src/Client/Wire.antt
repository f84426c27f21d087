-- ===== src/Client/Wire.antt =====
-- A request and its reply over a connection of the client and one of the service, with the body as
-- it is: `rpc_id_encrypt` is `crypt_type_none`.
use livezure.Prelude.{
  ℕ, suc, ◌+◌, ◌≤◌, ◌<◌, ◌≡◌, refl, ap, ◌∙◌, false, List, [], ◌∷◌, length, arith, none, some, Run,
  ok, ◌>>=◌, length-take, length-append,
}
use livezure.Rpc.Buffer
use livezure.Rpc.Buffer.{Buffer, given, get_size}
use livezure.Rpc.Buffer.Append.{IsValid, payload}
use livezure.Rpc.Crypt.{Ciphers, encrypt, decrypt}
use livezure.Rpc.Crypt.Copies.{copied, copied-IsCopy}
use livezure.Rpc.Io.{Io}
use livezure.Rpc.Parser
use livezure.Rpc.Parser.{Item}
use livezure.Rpc.Parser.Pack.{pack}
use livezure.Rpc.Parser.Stream.{Pair, stream}
use livezure.Rpc.Parser.RoundTrip.{items}
use livezure.Rpc.Process.{Dispatch, req_type_get, req_type_post, request_of, processor}
use livezure.Rpc.Process.Replied.{processor-get}
use livezure.Rpc.Queue
use livezure.Rpc.Shell.{Shell, Layout, shell_body, make_shell, enqueue_found}
use livezure.Rpc.Shell.Header.{IsHeader}
use livezure.Rpc.Shell.Made.{enqueue-make_shell}
use livezure.Rpc.Shell.Sealed.{shell_body_lem}
use livezure.Rpc.Shell.Received.{Dispatches, opened}
use livezure.Service.Handlers.{Request, Reply}
use livezure.Client.Service.{Sendable, copy-items, packs}

-- A connection on which nothing is left, with room for a header and so many bytes.
pub record Idle (layout : Layout) (n : ℕ) (io : Io) : Type 0 where
  pub not_cached : io.shell_cached ≡ false
  pub allocated : length io.recv.buffer ≡ io.recv.capacity
  pub empty : io.recv.head ≡ io.recv.tail
  pub room : io.recv.tail + layout.size + n < io.recv.capacity

-- The shell of a request with these pairs.
abbrev pub with_body : Shell → List Pair → Shell
with_body shell ps = record shell { body_size = length (stream ps) }

-- The header of the reply to a request.
abbrev pub reply_shell : Shell → List Pair → Shell
reply_shell shell ps = record (with_body shell ps) { req = req_type_post }

-- The handler that a callback is, with its reply packed.
unfoldable pub dispatched_by :
    (ℕ → List ℕ) → {W : Type 0} → (ℕ → ℕ → ℕ → Request → W → Run (Reply × W)) → Dispatch W
dispatched_by malloc handler category sub_category fd req (w, child) = do
  (reply, w') ← handler category sub_category fd req w
  out ← pack malloc none reply
  ok (out, w', child)

module _ (malloc : ℕ → List ℕ) (layout : Layout) (ciphers : Ciphers) (f : ℕ) where
  -- Pairs that are packed, framed, received and parsed.
  pub record Arrives (shell : Shell) (ps : List Pair) (io : Io) : Type 0 where
    pub body : Buffer
    pub frame : Buffer
    pub input : Buffer
    pub rest : List ℕ
    pub packed : pack malloc none ps ≡ ok (some body)
    pub made : make_shell malloc layout ciphers shell (some body) ≡ ok (with_body shell ps, frame)
    pub dispatches :
        Dispatches layout
          (with_body shell ps)
          (some input)
          io
          (enqueue_found malloc layout ciphers 2 (payload frame) io)
    pub parsed : Parser.new f (some input) ≡ ok (items ps rest)

  module _ (malloc_length : (n : ℕ) → length (malloc n) ≡ n) where
    opened-new :
        (bytes : List ℕ) (n : ℕ) (b : Buffer)
        → length bytes ≡ suc n
        → Buffer.new malloc bytes (given (suc n)) ≡ ok b
        → opened malloc ciphers 0 bytes ≡ ok (some b)
    unfolding opened decrypt
    opened-new [] n b e h = absurd (omega arith)
    opened-new (x ∷ xs) n b e h =
        ap (λ t. Buffer.new malloc (x ∷ xs) (given t) >>= λ c. ok (some c)) e ∙ rw h refl

    shell_body_plain :
        (b : Buffer)
        → IsValid b
        → 0 < b.chunk_used
        → shell_body malloc layout ciphers 0 (some b) ≡ ok (payload b)
    unfolding encrypt
    shell_body_plain b v pos =
        let inside : b.chunk_used ≤ length b.chunk = omega (arith, v.used_in, v.allocated) in
        let k = copied-IsCopy malloc malloc_length b.chunk b.chunk_used inside in
        let size = length-take b.chunk_used b.chunk in
        shell_body_lem malloc malloc_length layout ciphers 0 b (copied malloc b.chunk b.chunk_used)
          pos inside refl (omega (arith, k.used)) (omega (arith, k.used, k.room, k.allocated))
        ∙ ap ok k.streams

    pub arrives :
        (shell : Shell) (p : Pair) (ps : List Pair) (io : Io)
        → Sendable f p ps
        → shell.crypt ≡ 0
        → IsHeader layout (with_body shell (p ∷ ps))
        → Idle layout (length (stream (p ∷ ps))) io
        → Arrives shell (p ∷ ps) io
    arrives shell p ps io s plain ih idle =
        let b = packs malloc malloc_length f p ps s in
        let c = copy-items malloc malloc_length f p ps s in
        let packed_body : shell_body malloc layout ciphers shell.crypt (some b.0)
            ≡ ok (stream (p ∷ ps)) =
          ap (λ kind. shell_body malloc layout ciphers kind (some b.0)) plain
          ∙ shell_body_plain b.0 b.2
              (omega (arith, c.1, ap length b.3, length-take b.0.chunk_used b.0.chunk))
          ∙ ap ok b.3 in
        let opens : opened malloc ciphers shell.crypt (stream (p ∷ ps)) ≡ ok (some c.2) =
          ap (λ kind. opened malloc ciphers kind (stream (p ∷ ps))) plain
          ∙ opened-new (stream (p ∷ ps)) c.0 c.2 c.1 c.4 in
        let sent =
          enqueue-make_shell malloc malloc_length layout ciphers shell (some b.0) (stream (p ∷ ps))
            packed_body ih 0 io (some c.2)
            (record {
              not_cached = idle.not_cached;
              allocated = idle.allocated;
              empty = idle.empty;
              room = omega (
                arith,
                idle.room,
                ih.length-encode,
                length-append (layout.encode (with_body shell (p ∷ ps))) (stream (p ∷ ps)),
              );
            })
            opens in
        record {
          body = b.0;
          frame = sent.0;
          input = c.2;
          rest = c.3;
          packed = b.1;
          made = sent.1;
          dispatches = sent.2;
          parsed = c.5;
        }

    module _ {W : Type 0} (handler : ℕ → ℕ → ℕ → Request → W → Run (Reply × W)) where
      -- A request of pairs that come through, packed, framed and sent without encryption, is
      -- dispatched at an idle connection of the service with those pairs. Where the handler of its
      -- category answers pairs that come through, the worker queues one frame behind what is on
      -- the connection, and a signal for it; and this frame is dispatched at an idle connection of
      -- the client with the pairs of the answer, in the same category, as a post. Meanwhile
      -- nothing else happens on the connections; they have room for the frames, and the headers
      -- are laid out so that they can be read back.
      pub exchange :
          (shell : Shell) (p r : Pair) (ps rs : List Pair) (io client : Io) (w w' : W)
          → Sendable f p ps
          → Sendable f r rs
          → shell.crypt ≡ 0
          → shell.req ≡ req_type_get
          → IsHeader layout (with_body shell (p ∷ ps))
          → IsHeader layout (with_body (reply_shell shell (p ∷ ps)) (r ∷ rs))
          → Idle layout (length (stream (p ∷ ps))) io
          → Idle layout (length (stream (r ∷ rs))) client
          → ((rest : List ℕ)
              → handler shell.category shell.sub_category io.fd (some (items (p ∷ ps) rest)) w
                ≡ ok (r ∷ rs, w'))
          → (there : Arrives shell (p ∷ ps) io) × (back : Arrives
              (reply_shell shell (p ∷ ps))
              (r ∷ rs)
              client)
            × (after : Io) × (processor malloc layout ciphers f
                  (dispatched_by malloc handler)
                  (record {
                    fd = io.fd;
                    shell = there.dispatches.pointer;
                    input = some there.input;
                  })
                  (w, there.dispatches.after)
                  []
                ≡ ok (w', after, some io.fd ∷ []))
            × (after.send ≡ Queue.push io.send back.frame)
      unfolding dispatched_by request_of
      exchange shell p r ps rs io client w w' s t plain get ih jh idle idle' handled =
          let there = arrives shell p ps io s plain ih idle in
          let back = arrives (reply_shell shell (p ∷ ps)) r rs client t plain jh idle' in
          let done =
            processor-get malloc layout ciphers f (dispatched_by malloc handler)
              (record { fd = io.fd; shell = there.dispatches.pointer; input = some there.input }) w
              w' there.dispatches.after there.dispatches.after (some (items (p ∷ ps) there.rest))
              (some back.body) (with_body shell (p ∷ ps)) (with_body shell (p ∷ ps)) []
              (with_body (reply_shell shell (p ∷ ps)) (r ∷ rs)) back.frame (rw there.parsed refl)
              there.dispatches.shell_there (rw (handled there.rest) (rw back.packed refl))
              there.dispatches.shell_there get back.made jh.length-encode in
          (
            there,
            back,
            done.0,
            done.1 ∙ ap (λ n. ok (w', done.0, some n ∷ [])) (done.3 ∙ there.dispatches.same_fd),
            done.2 ∙ ap (λ rq. Queue.push rq back.frame) there.dispatches.same_send,
          )
