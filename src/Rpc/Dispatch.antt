-- ===== src/Rpc/Dispatch.antt =====
-- rpc_dispatch.c: the callbacks for the categories of requests. A callback and its `opaque` are
-- numbers, which stand for the pointers; `call` is what a call does.
pub mod First
mod Tests
use livezure.Prelude.{
  ℕ, ◌==◌, if◌then◌else◌, Bool, true, false, ◌&&◌, List, [], ◌∷◌, ◌++◌, Option, none, some, Run, ok,
  fault, failed_assert, ◌>>=◌,
}

-- `rpc_dispatch_t`
pub record Dispatcher : Type 0 where
  pub cb : ℕ
  pub opaque : ℕ
  pub category : ℕ
  pub sub_category : ℕ

unfoldable pub handles : ℕ → ℕ → Dispatcher → Bool
handles category sub_category d = d.category == category && d.sub_category == sub_category

unfoldable pub add_cb : ℕ → ℕ → ℕ → ℕ → List Dispatcher → List Dispatcher
add_cb category sub_category rpc_cb opaque table =
    table
    ++ (record { cb = rpc_cb; opaque = opaque; category = category; sub_category = sub_category }
        ∷ [])

-- `rpc_dispatch_del_cb`, whose assertion fails if there is no such dispatcher.
unfoldable pub del_cb : ℕ → ℕ → ℕ → ℕ → List Dispatcher → Run (List Dispatcher)
del_cb category sub_category rpc_cb opaque [] = fault failed_assert
del_cb category sub_category rpc_cb opaque (d ∷ rest) =
    let later = del_cb category sub_category rpc_cb opaque rest >>= λ rest'. ok (d ∷ rest') in
    if handles category sub_category d && d.cb == rpc_cb && d.opaque == opaque
    then ok rest
    else later

-- What a callback answers, and whether the request is still to be freed.
pub record Answer {ℓ} (Response : Type ℓ) : Type ℓ where
  pub response : Option Response
  pub b_req_reclaim : Bool

-- `rpc_dispatch_processor`: it frees the request where the answer says so, and where there is no
-- dispatcher.
unfoldable pub processor {ℓ κ} :
    {Req : Type ℓ} {Response : Type κ}
    → (ℕ → ℕ → ℕ → Req → Answer Response)
    → ℕ
    → ℕ
    → ℕ
    → Req
    → List Dispatcher
    → Answer Response
processor call category sub_category fd req [] = record { response = none; b_req_reclaim = true }
processor call category sub_category fd req (d ∷ rest) =
    let later = processor call category sub_category fd req rest in
    if handles category sub_category d then call d.cb d.opaque fd req else later
