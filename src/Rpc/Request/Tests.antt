-- ===== src/Rpc/Request/Tests.antt =====
-- Requests of one category, at concrete addresses.
use livezure.Prelude.{ℕ, ◌≢◌, fault, out_of_range, ◌≡◌, refl, ◌>>=◌, [], ◌∷◌, none, some, ok, arith}
use livezure.Rpc.Parser.{Item}
use livezure.Rpc.Dispatch as Dispatch
use livezure.Rpc.Request.{
  free, opaque_for, deliver_to, Handle, Pending, handle_at, register, deliver, rpc_request_destroy,
  rpc_request_ok,
}
use livezure.Rpc.Request.Reach.{Reach, none_yet, one_more, makes, calls_return}
use livezure.Rpc.Request.Race.{destroyed_between}
use livezure.Rpc.Request.Late.{late_reply}

abbrev item : Item
item = record { key = b'k' ∷ 0 ∷ []; keysize = 1; value = none; valuesize = 0 }

abbrev nothing : Pending
nothing = record { table = []; handles = [] }

-- A request of another category waits.
abbrev waiting : Pending
waiting = register 7 2 4 nothing

abbrev handle : Handle
handle = record { address = 7; req = none; category = 2; sub_category = 4 }

one_waits : Reach waiting
unfolding handle_at
one_waits = one_more none_yet (makes 7 2 4 refl)

calls_return_example :
    ((s' : Pending) × (deliver 2 4 5 (some (item ∷ [])) waiting ≡ ok s'))
    × ((s' : Pending) × (rpc_request_destroy 7 waiting ≡ ok s'))
calls_return_example =
    calls_return waiting 2 4 5 7 (some (item ∷ [])) handle one_waits (omega arith)
      (unfold handle_at register in refl)

destroyed_between_example :
    deliver_to (opaque_for 2 4 waiting.table) 5 none nothing ≡ fault out_of_range
unfolding register opaque_for Dispatch.handles Dispatch.add_cb rpc_request_destroy handle_at free
    Dispatch.del_cb
destroyed_between_example = destroyed_between waiting nothing 2 4 5 7 none one_waits refl refl

no_other : opaque_for 2 5 waiting.table ≡ none
unfolding register opaque_for Dispatch.handles Dispatch.add_cb
no_other = refl

free_at : (a : ℕ) → a ≢ 7 → handle_at a waiting.handles ≡ fault out_of_range
unfolding register handle_at
free_at a other = ground (arith, other)

late_reply_example :
    (rpc_request_destroy 8 (register 8 2 5 waiting) >>= λ s.
    deliver 2 5 5 (some (item ∷ [])) (register 9 2 5 s) >>= λ s'. rpc_request_ok 9 s')
    ≡ ok (some (item ∷ []))
late_reply_example =
    late_reply waiting 8 9 2 5 5 (some (item ∷ [])) no_other (free_at 8 (λ e. omega arith))
      (free_at 9 (λ e. omega arith)) (omega arith)
