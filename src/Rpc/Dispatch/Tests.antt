-- ===== src/Rpc/Dispatch/Tests.antt =====
-- Runs of the dispatcher, and its theorems at a concrete list.
use livezure.Prelude.{ℕ, ◌≡◌, false, [], ◌∷◌, some}
use livezure.Rpc.Dispatch.{Dispatcher, handles, add_cb, Answer, processor}
use livezure.Rpc.Dispatch.First.{processor-add_cb}

abbrev login : Dispatcher
login = record { cb = 11; opaque = 0; category = 1; sub_category = 1 }

abbrev logout : Dispatcher
logout = record { cb = 12; opaque = 0; category = 1; sub_category = 2 }

-- Callbacks that answer with their number.
abbrev call : ℕ → ℕ → ℕ → ℕ → Answer ℕ
call cb opaque fd req = record { response = some cb; b_req_reclaim = false }

processor-add_cb_example :
    processor call 1 2 5 0 (add_cb 1 2 12 0 (login ∷ []))
    ≡ record { response = some 12; b_req_reclaim = false }
unfolding handles
processor-add_cb_example = processor-add_cb call 1 2 5 0 logout (login ∷ [])
