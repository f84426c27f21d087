-- ===== src/Rpc/Io/Notify.antt =====
-- Whom `rpc_io_nodify_fd` reaches.
use livezure.Prelude.{
  ℕ, zero, suc, ◌+◌, ◌≤◌, ◌≡◌, refl, sym, ap, ◌∙◌, ◌==◌, if◌then◌else◌, Bool, true, false, not,
  List, [], ◌∷◌, ◌++◌, append_assoc, append-nil, Option, ok, arith,
}
use livezure.Rpc.Buffer
use livezure.Rpc.Buffer.{Buffer}
use livezure.Rpc.Queue
use livezure.Rpc.Queue.{Queue, drain}
use livezure.Rpc.Io.{Io, found, wanted, post, post_all, nodify_fd}

-- Whether a connection is one of those to notify: all, `curfd` alone, or all others.
abbrev pub target : ℕ → ℕ → ℕ → Bool
target curfd zero fd = true
target curfd (suc zero) fd = fd == curfd
target curfd (suc (suc n)) fd = not (fd == curfd)

abbrev pub hits : ℕ → ℕ → List Io → ℕ
hits curfd notify_type [] = 0
hits curfd notify_type (io ∷ rest) =
    (if target curfd notify_type io.fd then 1 else 0) + hits curfd notify_type rest

abbrev pub posted : Bool → Buffer → Io → Io
posted true copy io = record io { send = Queue.push io.send copy }
posted false copy io = io

abbrev pub posted_all : ℕ → ℕ → Buffer → List Io → List Io
posted_all curfd notify_type copy [] = []
posted_all curfd notify_type copy (io ∷ rest) =
    posted (target curfd notify_type io.fd) copy io ∷ posted_all curfd notify_type copy rest

abbrev pub repeat : ℕ → Option ℕ → List (Option ℕ)
repeat zero p = []
repeat (suc n) p = p ∷ repeat n p

wanted-target :
    (curfd notify_type fd : ℕ)
    → notify_type ≤ 2
    → wanted curfd notify_type fd ≡ ok (target curfd notify_type fd)
unfolding wanted
wanted-target curfd zero fd h = refl
wanted-target curfd (suc zero) fd h = refl
wanted-target curfd (suc (suc zero)) fd h = refl
wanted-target curfd (suc (suc (suc n))) fd h = absurd (omega arith)

module _ (malloc : ℕ → List ℕ) (input copy : Buffer)
    (clones : Buffer.clone malloc input ≡ ok copy) where
  post_lem :
      (w : Bool) (cur : Option ℕ) (io : Io) (signals : List (Option ℕ))
      → post malloc w cur input io signals
        ≡ ok ((if w then 1 else 0), posted w copy io, signals ++ repeat (if w then 1 else 0) cur)
  unfolding post
  post_lem true cur io signals = rw clones refl
  post_lem false cur io signals = ap (λ q. ok (0, io, q)) (sym (append-nil signals))

  repeat-append :
      (m n : ℕ) (cur : Option ℕ) (signals : List (Option ℕ))
      → (signals ++ repeat m cur) ++ repeat n cur ≡ signals ++ repeat (m + n) cur
  repeat-append m n cur signals =
      append_assoc signals (repeat m cur) (repeat n cur) ∙ ap (λ q. signals ++ q) (both m)
    where
      both : (k : ℕ) → repeat k cur ++ repeat n cur ≡ repeat (k + n) cur
      both zero = let e : n ≡ 0 + n = omega arith in ap (λ j. repeat j cur) e
      both (suc k) =
          let e : suc (k + n) ≡ suc k + n = omega arith in
          ap (λ q. cur ∷ q) (both k) ∙ ap (λ j. repeat j cur) e

  post_all_lem :
      (curfd notify_type : ℕ) (cur : Option ℕ) (table : List Io) (signals : List (Option ℕ))
      → notify_type ≤ 2
      → post_all malloc curfd notify_type cur input table signals
        ≡ ok (
          hits curfd notify_type table,
          posted_all curfd notify_type copy table,
          signals ++ repeat (hits curfd notify_type table) cur,
        )
  unfolding post_all
  post_all_lem curfd notify_type cur [] signals h =
      ap (λ q. ok (0, [], q)) (sym (append-nil signals))
  post_all_lem curfd notify_type cur (io ∷ rest) signals h =
      let w = target curfd notify_type io.fd in
      let k : ℕ = if w then 1 else 0 in
      rw
        (
          wanted-target curfd notify_type io.fd h,
          post_lem w cur io signals,
          post_all_lem curfd notify_type cur rest (signals ++ repeat k cur) h,
          repeat-append k (hits curfd notify_type rest) cur signals,
        )
        refl

  -- `rpc_io_nodify_fd` of a buffer that can be copied puts a copy behind what is queued for each
  -- connection that it is to notify, and returns their number. It queues as many signals, all with
  -- the pointer to `curfd`.
  pub nodify_fd_lem :
      (curfd notify_type : ℕ) (table : List Io) (signals : List (Option ℕ))
      → notify_type ≤ 2
      → nodify_fd malloc curfd notify_type input table signals
        ≡ ok (
          hits curfd notify_type table,
          posted_all curfd notify_type copy table,
          signals ++ repeat (hits curfd notify_type table) (found curfd table),
        )
  unfolding nodify_fd
  nodify_fd_lem curfd notify_type table signals h =
      post_all_lem curfd notify_type (found curfd table) table signals h
