-- ===== src/Rpc/Io/Unsent.antt =====
-- What the thread that sends makes of the signals of `rpc_io_nodify_fd`.
use livezure.Prelude.{
  ℕ, zero, suc, ◌≤◌, ◌<◌, ◌≡◌, ◌≢◌, refl, ap, ◌∙◌, ◌==◌, if◌then◌else◌, Bool, true, false,
  Bool-cases, inl, inr, List, [], ◌∷◌, length, Option, some, ok, ◌>>=◌, arith,
}
use livezure.Rpc.Buffer
use livezure.Rpc.Buffer.{Buffer}
use livezure.Rpc.Queue
use livezure.Rpc.Queue.{Queue, drain}
use livezure.Rpc.Queue.Order.{drain_lem}
use livezure.Rpc.Io.{Io, find, found, serve_at, serve, serve_all, nodify_fd}
use livezure.Rpc.Io.Notify.{target, hits, posted, posted_all, repeat, nodify_fd_lem}

-- Fuel for every queue.
abbrev pub Enough : ℕ → List Io → Type 0
Enough f [] = Unit
Enough f (io ∷ rest) = (length io.send.rpc_queue < f) × Enough f rest

abbrev emptied_queue : Queue Buffer → Queue Buffer
emptied_queue rq = record rq { rpc_queue = [] }

-- The connections once the queue of one is emptied.
emptied : ℕ → List Io → List Io
emptied cur [] = []
emptied cur (io ∷ rest) =
    if io.fd == cur
    then record io { send = emptied_queue io.send } ∷ rest
    else io ∷ emptied cur rest

sent : ℕ → List Io → List Buffer
sent cur [] = []
sent cur (io ∷ rest) = if io.fd == cur then io.send.rpc_queue else sent cur rest

serve_at-emptied :
    (f cur : ℕ) (table : List Io)
    → Enough f table
    → serve_at f cur table ≡ ok (sent cur table, emptied cur table)
unfolding serve_at sent emptied
serve_at-emptied f cur [] h = refl
serve_at-emptied f cur (io ∷ rest) h = elim (Bool-cases (io.fd == cur)) [
  | inl e ↦
      let d = drain_lem (λ rq. (false, rq)) f io.send.rpc_queue io.send.rpc_queue_stop_sign h.0 in
      rw (e, d) refl
  | inr e ↦ rw (e, serve_at-emptied f cur rest h.1) refl
]

emptied-Enough : (f cur : ℕ) (table : List Io) → Enough f table → Enough f (emptied cur table)
unfolding emptied
emptied-Enough f cur [] h = tt
emptied-Enough f cur (io ∷ rest) h = elim (Bool-cases (io.fd == cur)) [
  | inl e ↦ rw e (omega (arith, h.0), h.1)
  | inr e ↦ rw e (h.0, emptied-Enough f cur rest h.1)
]

find-emptied :
    (fd cur : ℕ) (table : List Io) → fd ≢ cur → find fd (emptied cur table) ≡ find fd table
unfolding find emptied
find-emptied fd cur [] other = refl
find-emptied fd cur (io ∷ rest) other = elim (Bool-cases (io.fd == cur)) [
  | inl e ↦ let apart : (io.fd == fd) ≡ false = ground arith in rw (e, apart) refl
  | inr e ↦ rw (e, find-emptied fd cur rest other) refl
]

-- What is found of another connection once the signals are served.
Serves : ℕ → ℕ → List (Option ℕ) → List Io → Type 0
Serves f fd signals table =
    (table' : List Io) × (serve_all f signals table ≡ ok table') × (find fd table' ≡ find fd table)

serve_all-repeat :
    (f fd cur n : ℕ) (table : List Io)
    → fd ≢ cur
    → Enough f table
    → Serves f fd (repeat n (some cur)) table
unfolding Serves serve_all serve
serve_all-repeat f fd cur zero table other h = (table, refl, refl)
serve_all-repeat f fd cur (suc n) table other h =
    let (table', runs, kept) =
      serve_all-repeat f fd cur n (emptied cur table) other (emptied-Enough f cur table h) in
    (table', rw (serve_at-emptied f cur table h) runs, kept ∙ find-emptied fd cur table other)

posted-fd : (w : Bool) (copy : Buffer) (io : Io) → (posted w copy io).fd ≡ io.fd
posted-fd true copy io = refl
posted-fd false copy io = refl

find-posted :
    (curfd notify_type fd : ℕ) (copy : Buffer) (table : List Io) (io : Io)
    → find fd table ≡ some io
    → target curfd notify_type fd ≡ true
    → find fd (posted_all curfd notify_type copy table)
      ≡ some (record io { send = Queue.push io.send copy })
unfolding find
find-posted curfd notify_type fd copy [] io there t = cc
find-posted curfd notify_type fd copy (x ∷ rest) io there t = elim (Bool-cases (x.fd == fd)) [
  | inl e ↦
      let number : x.fd ≡ fd = ground arith in
      let wanted : target curfd notify_type x.fd ≡ true = rw number t in
      let same : x ≡ io = ground arith in
      rw (wanted, e) (ap {A = Io} (λ y. some (record y { send = Queue.push y.send copy })) same)
  | inr e ↦
      let later : find fd rest ≡ some io = ground arith in
      rw (posted-fd (target curfd notify_type x.fd) copy x, e)
        (find-posted curfd notify_type fd copy rest io later t)
]

-- Where `curfd` is connected and the buffer can be copied, another connection that is to be notified
-- keeps the copy in its queue: the signals are all for `curfd`, so the thread that sends, with fuel
-- for every queue, has not sent it once it has served them.
pub nodify_unsent :
    (malloc : ℕ → List ℕ) (input copy : Buffer) (curfd notify_type fd f : ℕ) (table : List Io)
    (io : Io)
    → Buffer.clone malloc input ≡ ok copy
    → notify_type ≤ 2
    → fd ≢ curfd
    → target curfd notify_type fd ≡ true
    → found curfd table ≡ some curfd
    → find fd table ≡ some io
    → Enough f (posted_all curfd notify_type copy table)
    → (after : List Io) × ((nodify_fd malloc curfd notify_type input table []
          >>= λ (n, table', signals). serve_all f signals table')
        ≡ ok after)
      × (find fd after ≡ some (record io { send = Queue.push io.send copy }))
unfolding Serves
nodify_unsent malloc input copy curfd notify_type fd f table io clones known other t cur there
      room =
    let (after, runs, kept) =
      serve_all-repeat f fd curfd (hits curfd notify_type table)
        (posted_all curfd notify_type copy table) other room in
    (
      after,
      rw (nodify_fd_lem malloc input copy clones curfd notify_type table [] known, cur) runs,
      kept ∙ find-posted curfd notify_type fd copy table io there t,
    )
