-- ===== src/Rpc/Queue/Tests.antt =====
-- Runs of the queue, and its theorems at concrete queues.
use livezure.Prelude.{ℕ, ◌≡◌, Bool, false, [], ◌∷◌, arith, ok}
use livezure.Rpc.Queue.{Queue, stop, drain, destroy}
use livezure.Rpc.Queue.Order.{push_all, drain-push_all}

-- A wait that comes back with nothing.
abbrev idle : Queue ℕ → Bool × Queue ℕ
idle rq = (false, rq)

abbrev one : Queue ℕ
one = record { rpc_queue = 7 ∷ []; rpc_queue_stop_sign = false }

drain-push_all_example :
    (rq' : Queue ℕ) × (drain 4 idle (stop (push_all one (8 ∷ 9 ∷ []))) ≡ ok (7 ∷ 8 ∷ 9 ∷ [], rq'))
    × (destroy rq' ≡ ok tt)
drain-push_all_example = drain-push_all idle 4 one (8 ∷ 9 ∷ []) (omega arith)
