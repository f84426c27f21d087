-- ===== src/Rpc/ThreadPool/Runs.antt =====
-- Which workers the threads run.
use livezure.Prelude.{
  arith, ℕ, ◌≡◌, refl, sym, ap, ◌∙◌, Bool, true, false, List, [], ◌∷◌, ◌++◌, append_assoc,
  append-nil,
}
use livezure.Rpc.ThreadPool.{
  Thread, idle, busy, exited, Pool, create, Event, tests, registers, starts, completes, destroys,
  drains, exits, tp_kill_immediate, tp_kill_wait, Step, Trace,
}

-- The workers registered, and those that threads have begun with, in order.
abbrev pub registered : List Event → List ℕ
registered [] = []
registered (tests w ∷ es) = registered es
registered (registers w ∷ es) = w ∷ registered es
registered (starts w ∷ es) = registered es
registered (completes w ∷ es) = registered es
registered (destroys k ∷ es) = registered es
registered (drains ∷ es) = registered es
registered (exits ∷ es) = registered es

abbrev pub started : List Event → List ℕ
started [] = []
started (tests w ∷ es) = started es
started (registers w ∷ es) = started es
started (starts w ∷ es) = w ∷ started es
started (completes w ∷ es) = started es
started (destroys k ∷ es) = started es
started (drains ∷ es) = started es
started (exits ∷ es) = started es

registered-append : (es fs : List Event) → registered (es ++ fs) ≡ registered es ++ registered fs
registered-append [] fs = refl
registered-append (tests w ∷ es) fs = registered-append es fs
registered-append (registers w ∷ es) fs = ap (λ q. w ∷ q) (registered-append es fs)
registered-append (starts w ∷ es) fs = registered-append es fs
registered-append (completes w ∷ es) fs = registered-append es fs
registered-append (destroys k ∷ es) fs = registered-append es fs
registered-append (drains ∷ es) fs = registered-append es fs
registered-append (exits ∷ es) fs = registered-append es fs

started-append : (es fs : List Event) → started (es ++ fs) ≡ started es ++ started fs
started-append [] fs = refl
started-append (tests w ∷ es) fs = started-append es fs
started-append (registers w ∷ es) fs = started-append es fs
started-append (starts w ∷ es) fs = ap (λ q. w ∷ q) (started-append es fs)
started-append (completes w ∷ es) fs = started-append es fs
started-append (destroys k ∷ es) fs = started-append es fs
started-append (drains ∷ es) fs = started-append es fs
started-append (exits ∷ es) fs = started-append es fs

-- No thread is left in `rpc_tp_routine`.
abbrev pub all_exited : List Thread → Bool
all_exited [] = true
all_exited (idle ∷ ts) = false
all_exited (busy w ∷ ts) = false
all_exited (exited ∷ ts) = all_exited ts

idle_left : (before after : List Thread) → all_exited (before ++ (idle ∷ after)) ≡ false
idle_left [] after = refl
idle_left (idle ∷ before) after = refl
idle_left (busy w ∷ before) after = refl
idle_left (exited ∷ before) after = idle_left before after

-- An event that neither registers nor starts a worker keeps the order.
other_event :
    (e : Event) (es : List Event) (queue : List ℕ)
    → started (e ∷ []) ≡ []
    → registered (e ∷ []) ≡ []
    → started es ++ queue ≡ registered es
    → started (es ++ (e ∷ [])) ++ queue ≡ registered (es ++ (e ∷ []))
other_event e es queue s r i =
    rw
      (
        started-append es (e ∷ []),
        registered-append es (e ∷ []),
        s,
        r,
        append-nil (started es),
        append-nil (registered es),
      )
      i

in_order-step :
    (es : List Event) {e : Event} {p q : Pool}
    → started es ++ p.worker_queue ≡ registered es
    → Step p e q
    → started (es ++ (e ∷ [])) ++ q.worker_queue ≡ registered (es ++ (e ∷ []))
in_order-step es {e} {p} i (Step.test w on) = other_event (tests w) es p.worker_queue refl refl i
in_order-step es {e} {p} i (Step.register w before after tested) =
    rw
      (
        started-append es (registers w ∷ []),
        registered-append es (registers w ∷ []),
        append-nil (started es),
      )
      (sym (append_assoc (started es) p.worker_queue (w ∷ [])) ∙ ap (λ l. l ++ (w ∷ [])) i)
in_order-step es {e} {p} i (Step.start w queue before after taken free) =
    rw
      (
        started-append es (starts w ∷ []),
        registered-append es (starts w ∷ []),
        append-nil (registered es),
      )
      (append_assoc (started es) (w ∷ []) queue ∙ ap (λ l. started es ++ l) (sym taken) ∙ i)
in_order-step es {e} {p} i (Step.complete w before after at) =
    other_event (completes w) es p.worker_queue refl refl i
in_order-step es {e} {p} i Step.destroy_immediate =
    other_event (destroys tp_kill_immediate) es p.worker_queue refl refl i
in_order-step es {e} {p} i (Step.drain none) = other_event drains es p.worker_queue refl refl i
in_order-step es {e} {p} i (Step.destroy_wait seen) =
    other_event (destroys tp_kill_wait) es p.worker_queue refl refl i
in_order-step es {e} {p} i (Step.exit before after none aborts free) =
    other_event exits es p.worker_queue refl refl i

Trace-in_order :
    {n : ℕ} {es : List Event} {p : Pool}
    → Trace n es p
    → started es ++ p.worker_queue ≡ registered es
unfolding create
Trace-in_order {n} (Trace.created e) = ground (arith, e)
Trace-in_order (Trace.then {es} t s) = in_order-step es (Trace-in_order t) s

exits_empty : {p q : Pool} → Step p exits q → p.worker_queue ≡ []
exits_empty (Step.exit before after none aborts free) = none

busy_left : (w : ℕ) (before after : List Thread) → all_exited (before ++ (busy w ∷ after)) ≡ false
busy_left w [] after = refl
busy_left w (idle ∷ before) after = refl
busy_left w (busy v ∷ before) after = refl
busy_left w (exited ∷ before) after = busy_left w before after

other_than_start :
    (e : Event) (es : List Event) → started (e ∷ []) ≡ [] → started (es ++ (e ∷ [])) ≡ started es
other_than_start e es s = started-append es (e ∷ []) ∙ rw (s, append-nil (started es)) refl

-- A step of a pool whose threads have all left begins no worker, and no thread comes back.
deserted-step :
    (es : List Event) {e : Event} {p q : Pool}
    → all_exited p.thread ≡ true
    → Step p e q
    → (started (es ++ (e ∷ [])) ≡ started es) × (all_exited q.thread ≡ true)
deserted-step es all (Step.test w on) = (other_than_start (tests w) es refl, all)
deserted-step es all (Step.register w before after tested) =
    (other_than_start (registers w) es refl, all)
deserted-step es all (Step.start w queue before after taken free) =
    let c = idle_left before after in absurd cc
deserted-step es all (Step.complete w before after at) =
    let c = busy_left w before after in absurd cc
deserted-step es all Step.destroy_immediate =
    (other_than_start (destroys tp_kill_immediate) es refl, all)
deserted-step es all (Step.drain none) = (other_than_start drains es refl, all)
deserted-step es all (Step.destroy_wait seen) =
    (other_than_start (destroys tp_kill_wait) es refl, all)
deserted-step es all (Step.exit before after none aborts free) =
    let c = idle_left before after in absurd cc

-- Whatever the threads do in whatever order, those workers have been begun that were put into the
-- queue, in their order, but for those in it. When a thread leaves, all that were put there until
-- then have been begun, also where the pool was destroyed with tp_kill_immediate. Where all threads
-- have left, no step begins a worker, those that are still put there included, and all stay away.
pub Trace-started :
    {n : ℕ} {es : List Event} {p : Pool}
    → Trace n es p
    → (started es ++ p.worker_queue ≡ registered es)
      × ((q : Pool) → Step p exits q → started es ≡ registered es)
      × (all_exited p.thread ≡ true
          → (e : Event) (q : Pool) → Step p e q
          → (started (es ++ (e ∷ [])) ≡ started es) × (all_exited q.thread ≡ true))
Trace-started {n} {es} {p} t =
    let i = Trace-in_order t in
    (
      i,
      λ q last.
          sym (append-nil (started es)) ∙ ap (λ l. started es ++ l) (sym (exits_empty last)) ∙ i,
      λ all e q last. deserted-step es all last,
    )
