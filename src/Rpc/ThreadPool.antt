-- ===== src/Rpc/ThreadPool.antt =====
-- rpc_threadpool.c: threads that work on a queue of workers. What a thread does with the mutex held
-- is one step, and so is what it does between; a worker is a number.
pub mod Runs
mod Tests
use livezure.Prelude.{
  Run, ok, ◌>>◌, guard, failed_assert, not, ◌==◌, ℕ, zero, suc, ◌≡◌, Bool, true, false, List, [],
  ◌∷◌, ◌++◌,
}

-- A thread waits for a worker, or works on one, or has left `rpc_tp_routine`.
pub data Thread : Type 0 where
  idle : Thread
  busy : ℕ → Thread
  exited : Thread

-- `struct rpc_tp`, with the workers of the calls of `rpc_tp_worker_register` that have tested `abort`
-- and have not yet locked the mutex, and whether `rpc_tp_destroy` has seen the queue empty.
pub record Pool : Type 0 where
  pub worker_queue : List ℕ
  pub thread : List Thread
  pub abort : Bool
  pub tested : List ℕ
  pub seen_empty : Bool

pub idle_threads : ℕ → List Thread
idle_threads zero = []
idle_threads (suc n) = idle ∷ idle_threads n

-- `rpc_tp_create`
pub create : ℕ → Run Pool
create nthreads = do
  guard (not (nthreads == 0)) failed_assert
  ok (record {
    worker_queue = [];
    thread = idle_threads nthreads;
    abort = false;
    tested = [];
    seen_empty = false;
  })

-- `rpc_tp_kill`
pub data Kill : Type 0 where
  tp_kill_immediate tp_kill_wait : Kill

pub data Event : Type 0 where
  tests registers starts completes : ℕ → Event
  destroys : Kill → Event
  drains exits : Event

-- `rpc_tp_worker_register` tests `abort` without the mutex, and locks it to put the worker into the
-- queue, whatever has become of the pool. A thread takes the first worker, and comes back from its
-- callbacks; it leaves where it finds no worker and the pool is to stop. One thread destroys the
-- pool, and with `tp_kill_wait` it has seen the queue empty, without the mutex, at some time before
-- it sets `abort`. The pool is not freed.
pub data Step : Pool → Event → Pool → Type 0 where
  test :
      {p : Pool} (w : ℕ) → p.abort ≡ false → Step p (tests w) (record p { tested = w ∷ p.tested })
  register :
      {p : Pool} (w : ℕ) (before after : List ℕ)
      → p.tested ≡ before ++ (w ∷ after)
      → Step p
          (registers w)
          (record p { worker_queue = p.worker_queue ++ (w ∷ []); tested = before ++ after })
  start :
      {p : Pool} (w : ℕ) (queue : List ℕ) (before after : List Thread)
      → p.worker_queue ≡ w ∷ queue
      → p.thread ≡ before ++ (idle ∷ after)
      → Step p (starts w) (record p { worker_queue = queue; thread = before ++ (busy w ∷ after) })
  complete :
      {p : Pool} (w : ℕ) (before after : List Thread)
      → p.thread ≡ before ++ (busy w ∷ after)
      → Step p (completes w) (record p { thread = before ++ (idle ∷ after) })
  destroy_immediate : {p : Pool} → Step p (destroys tp_kill_immediate) (record p { abort = true })
  drain : {p : Pool} → p.worker_queue ≡ [] → Step p drains (record p { seen_empty = true })
  destroy_wait :
      {p : Pool} → p.seen_empty ≡ true → Step p (destroys tp_kill_wait) (record p { abort = true })
  exit :
      {p : Pool} (before after : List Thread)
      → p.worker_queue ≡ []
      → p.abort ≡ true
      → p.thread ≡ before ++ (idle ∷ after)
      → Step p exits (record p { thread = before ++ (exited ∷ after) })

-- What has happened to a pool of so many threads since it was made.
pub data Trace (nthreads : ℕ) : List Event → Pool → Type 0 where
  created : {p : Pool} → create nthreads ≡ ok p → Trace nthreads [] p
  then :
      {es : List Event} {e : Event} {p q : Pool}
      → Trace nthreads es p
      → Step p e q
      → Trace nthreads (es ++ (e ∷ [])) q
