-- ===== src/Rpc/Queue/Order.antt =====
-- What `rpc_queue_get` takes out, and when.
use livezure.Prelude.{
  ℕ, zero, suc, ◌+◌, ◌<◌, ◌≡◌, ◌≢◌, refl, sym, ap, ◌∙◌, Bool, true, false, List, [], ◌∷◌, ◌++◌,
  append_assoc, append-nil, length, arith, ok, ℤ, negsuc, length-append,
}
use livezure.Rpc.Queue.{
  Queue, aborted, push, stop, waked, waited, get_empty, get_from, get, drain, destroy, is_empty,
  new,
}

-- The bodies pushed one after another.
abbrev pub push_all {ℓ} : {A : Type ℓ} → Queue A → List A → Queue A
push_all rq [] = rq
push_all rq (body ∷ bodies) = push_all (push rq body) bodies

module _ {ℓ} {A : Type ℓ} (wait : Queue A → Bool × Queue A) where
  -- Emptying a queue, with fuel for one call more than it holds bodies.
  pub drain_lem :
      (f : ℕ) (bodies : List A) (sign : Bool)
      → length bodies < f
      → drain f wait (record { rpc_queue = bodies; rpc_queue_stop_sign = sign })
        ≡ ok (bodies, record { rpc_queue = []; rpc_queue_stop_sign = sign })
  unfolding drain get get_from get_empty
  drain_lem zero bodies sign h = absurd (omega arith)
  drain_lem (suc f) [] true h = refl
  drain_lem (suc f) [] false h = refl
  drain_lem (suc f) (body ∷ bodies) sign h = rw (drain_lem f bodies sign (omega arith)) refl

  push_all_lem :
      (rq : Queue A) (bodies : List A)
      → push_all rq bodies ≡ record rq { rpc_queue = rq.rpc_queue ++ bodies }
  unfolding push
  push_all_lem rq [] = ap (λ q. record rq { rpc_queue = q }) (sym (append-nil rq.rpc_queue))
  push_all_lem rq (body ∷ bodies) =
      push_all_lem (push rq body) bodies
      ∙ ap (λ q. record rq { rpc_queue = q }) (append_assoc rq.rpc_queue (body ∷ []) bodies)

  -- The tear-down of a queue, with fuel for one call more than it holds bodies: the bodies come out
  -- in the order in which they were pushed, and the assertion of `rpc_queue_destroy` holds.
  pub drain-push_all :
      (f : ℕ) (rq : Queue A) (bodies : List A)
      → length rq.rpc_queue + length bodies < f
      → (rq' : Queue A) × (drain f wait (stop (push_all rq bodies))
          ≡ ok (rq.rpc_queue ++ bodies, rq'))
        × (destroy rq' ≡ ok tt)
  unfolding stop destroy is_empty
  drain-push_all f rq bodies h = (
    record { rpc_queue = []; rpc_queue_stop_sign = true },
    rw (push_all_lem rq bodies) (
        drain_lem f (rq.rpc_queue ++ bodies) true
          (omega (arith, length-append rq.rpc_queue bodies))),
    refl,
  )

  stopped_lem :
      (wait' : Queue A → Bool × Queue A) (timeout timeout' : ℤ) (bodies : List A) (rq : Queue A)
      → rq.rpc_queue_stop_sign ≡ true
      → (get_from wait timeout bodies rq ≡ get_from wait' timeout' bodies rq)
        × ((get_from wait timeout bodies rq).0 ≢ aborted)
  unfolding get_from
  stopped_lem wait' timeout timeout' [] rq sign = rw sign (refl, λ e. cc)
  stopped_lem wait' timeout timeout' (body ∷ bodies) rq sign = (refl, λ e. cc)

  -- A queue that is stopped does not wait: what it gives depends neither on the timeout nor on what
  -- a wait would do, and it is never -1.
  pub get-stop :
      (wait' : Queue A → Bool × Queue A) (timeout timeout' : ℤ) (rq : Queue A)
      → (get wait timeout (stop rq) ≡ get wait' timeout' (stop rq))
        × ((get wait timeout (stop rq)).0 ≢ aborted)
  unfolding get stop
  get-stop wait' timeout timeout' rq =
      stopped_lem wait' timeout timeout' rq.rpc_queue (stop rq) refl

  -- A wait on an empty queue that ends with nothing pushed, no stop sign and no timeout, as it may,
  -- is taken for an abort.
  pub get_spurious : (n : ℕ) → wait new ≡ (false, new) → get wait (negsuc n) new ≡ (aborted, new)
  unfolding get get_from get_empty waited waked new
  get_spurious n woke = rw woke refl
