-- ===== src/Rpc/Queue.antt =====
-- rpc_queue.c: a queue between threads. Each call holds the mutex but for its wait, so it is one
-- function; `wait` is what a `pthread_cond_wait` or `pthread_cond_timedwait` does: whether it
-- returns ETIMEDOUT, and the queue as the other threads leave it.
pub mod Order
mod Tests
use livezure.Prelude.{
  ℕ, zero, suc, if◌then◌else◌, Bool, true, false, List, [], ◌∷◌, ◌++◌, Option, none, some, Run, ok,
  fault, failed_assert, out_of_fuel, ◌>>=◌, ◌>>◌, guard, ℤ, pos, negsuc,
}

-- `struct rpc_queue`
pub record Queue {ℓ} (A : Type ℓ) : Type ℓ where
  pub rpc_queue : List A
  pub rpc_queue_stop_sign : Bool

-- What `rpc_queue_get` returns: 1, 0 and -1, the first with a body.
pub data Got {ℓ} (A : Type ℓ) : Type ℓ where
  got : A → Got A
  no_more : Got A
  aborted : Got A

module _ {ℓ} {A : Type ℓ} where
  pub new : Queue A
  new = record { rpc_queue = []; rpc_queue_stop_sign = false }

  unfoldable pub push : Queue A → A → Queue A
  push rq body = record rq { rpc_queue = rq.rpc_queue ++ (body ∷ []) }

  pub stop : Queue A → Queue A
  stop rq = record rq { rpc_queue_stop_sign = true }

  -- Behind a wait without the stop sign: the first body, if there is one.
  pub waked : Bool → List A → Bool → Got A × Queue A
  waked timed_out [] sign = (
    if timed_out then no_more else aborted,
    record { rpc_queue = []; rpc_queue_stop_sign = sign },
  )
  waked timed_out (body ∷ bodies) sign =
      (got body, record { rpc_queue = bodies; rpc_queue_stop_sign = sign })

  pub waited : Bool × Queue A → Got A × Queue A
  waited (timed_out, rq) =
      if rq.rpc_queue_stop_sign
      then (aborted, rq)
      else waked timed_out rq.rpc_queue rq.rpc_queue_stop_sign

  -- `timeout == 0` does not wait.
  pub get_empty : (Queue A → Bool × Queue A) → ℤ → Queue A → Got A × Queue A
  get_empty wait (pos zero) rq = (no_more, rq)
  get_empty wait (pos (suc n)) rq = waited (wait rq)
  get_empty wait (negsuc n) rq = waited (wait rq)

  -- The body at the front, or the first round of the loop, which is the last one: behind a wait
  -- it is left in every case.
  pub get_from : (Queue A → Bool × Queue A) → ℤ → List A → Queue A → Got A × Queue A
  get_from wait timeout [] rq =
      if rq.rpc_queue_stop_sign then (no_more, rq) else get_empty wait timeout rq
  get_from wait timeout (body ∷ bodies) rq = (got body, record rq { rpc_queue = bodies })

  pub get : (Queue A → Bool × Queue A) → ℤ → Queue A → Got A × Queue A
  get wait timeout rq = get_from wait timeout rq.rpc_queue rq

  -- `while (rpc_queue_get(rq, &body, 0) == 1)`, the bodies collected.
  pub drain : ℕ → (Queue A → Bool × Queue A) → Queue A → Run (List A × Queue A)
  drain zero wait rq = fault out_of_fuel
  drain (suc f) wait rq =
      let (g, rq') = get wait (pos 0) rq in
      elim g [
        | got body ↦ (do (bodies, rq'') ← drain f wait rq'; ok (body ∷ bodies, rq''))
        | no_more ↦ ok ([], rq')
        | aborted ↦ ok ([], rq')
      ]

  is_empty : List A → Bool
  is_empty [] = true
  is_empty (x ∷ xs) = false

  -- `rpc_queue_destroy` asserts that the queue is empty.
  pub destroy : Queue A → Run (Unit {0})
  destroy rq = guard (is_empty (stop rq).rpc_queue) failed_assert
