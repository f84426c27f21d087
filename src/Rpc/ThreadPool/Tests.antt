-- ===== src/Rpc/ThreadPool/Tests.antt =====
-- A run of a pool, and the theorem at it.
use livezure.Prelude.{false, ◌≡◌, refl, true, List, [], ◌∷◌, ◌++◌}
use livezure.Rpc.ThreadPool.{
  idle, exited, Pool, idle_threads, create, Event, tests, registers, starts, completes, destroys,
  exits, tp_kill_immediate, Step, Trace,
}
use livezure.Rpc.ThreadPool.Runs.{registered, started, all_exited, Trace-started}

-- A worker is registered, another is tested, and the pool of one thread is destroyed at once.
abbrev events : List Event
events = tests 7 ∷ registers 7 ∷ tests 8 ∷ destroys tp_kill_immediate ∷ starts 7 ∷ completes 7 ∷ []

abbrev stopping : Pool
stopping = record {
  worker_queue = [];
  thread = idle ∷ [];
  abort = true;
  tested = 8 ∷ [];
  seen_empty = false;
}

run : Trace 1 events stopping
unfolding create idle_threads
run =
    Trace.then
      (Trace.then
        (Trace.then
          (Trace.then
            (Trace.then (Trace.then (Trace.created refl) (Step.test 7 refl))
              (Step.register 7 [] [] refl))
            (Step.test 8 refl))
          Step.destroy_immediate)
        (Step.start 7 [] [] [] refl refl))
      (Step.complete 7 [] [] refl)

-- The thread leaves, and the other worker comes into the queue.
late_run :
    Trace 1
      (events ++ (exits ∷ registers 8 ∷ []))
      (record stopping { worker_queue = 8 ∷ []; thread = exited ∷ []; tested = [] })
late_run = Trace.then (Trace.then run (Step.exit [] [] refl refl refl)) (Step.register 8 [] [] refl)

Trace-started_example :
    (started events ++ stopping.worker_queue ≡ registered events)
    × ((q : Pool) → Step stopping exits q → started events ≡ registered events)
    × (all_exited stopping.thread ≡ true
        → (e : Event) (q : Pool) → Step stopping e q
        → (started (events ++ (e ∷ [])) ≡ started events) × (all_exited q.thread ≡ true))
Trace-started_example = Trace-started run
