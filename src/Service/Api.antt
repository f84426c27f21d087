-- ===== src/Service/Api.antt =====
-- service_api.c: which handler is registered for which category of requests, with the numbers of
-- rpc_declare.h. A handler stands for the pointer to its function by a number.
use livezure.Prelude.{ℕ, ◌≡◌, refl, List, [], ◌∷◌}
use livezure.Rpc.Dispatch.{Dispatcher, add_cb, Answer, processor, handles}

pub data Handler : Type 0 where
  version_check heartbeat account_login account_logout account_create account_modify : Handler
  account_delete account_list device_create device_delete device_list : Handler
  play_device play_stop play_touch : Handler

-- The addresses of the functions; they differ.
unfoldable pub address : Handler → ℕ
address version_check = 1
address heartbeat = 2
address account_login = 3
address account_logout = 4
address account_create = 5
address account_modify = 6
address account_delete = 7
address account_list = 8
address device_create = 9
address device_delete = 10
address device_list = 11
address play_device = 12
address play_stop = 13
address play_touch = 14

-- `rpc_id_platform`, `rpc_id_account`, `rpc_id_device` and `rpc_id_play`
unfoldable pub category : Handler → ℕ
category version_check = 0
category heartbeat = 0
category account_login = 2
category account_logout = 2
category account_create = 2
category account_modify = 2
category account_delete = 2
category account_list = 2
category device_create = 3
category device_delete = 3
category device_list = 3
category play_device = 5
category play_stop = 5
category play_touch = 5

unfoldable pub sub_category : Handler → ℕ
sub_category version_check = 0
sub_category heartbeat = 1
sub_category account_login = 0
sub_category account_logout = 1
sub_category account_create = 2
sub_category account_modify = 3
sub_category account_delete = 4
sub_category account_list = 5
sub_category device_create = 0
sub_category device_delete = 2
sub_category device_list = 3
sub_category play_device = 0
sub_category play_stop = 1
sub_category play_touch = 2

-- `rpc_service_register` with NULL for `opaque`.
unfoldable pub register : Handler → List Dispatcher → List Dispatcher
register h table = add_cb (category h) (sub_category h) (address h) 0 table

unfoldable pub register_each : List Handler → List Dispatcher → List Dispatcher
register_each [] table = table
register_each (h ∷ rest) table = register_each rest (register h table)

-- `register_all_reqeust_handler`
unfoldable pub register_all : List Dispatcher → List Dispatcher
register_all = register_each (
    version_check ∷ heartbeat ∷ account_login ∷ account_logout ∷ account_create ∷ account_modify
    ∷ account_delete ∷ account_list ∷ device_create ∷ device_delete ∷ device_list ∷ play_device
    ∷ play_stop ∷ play_touch ∷ [])

-- Once all handlers are registered, a request of the category and sub-category of a handler comes
-- to that handler.
pub register_all-processor {ℓ κ} :
    {Req : Type ℓ} {Response : Type κ} (call : ℕ → ℕ → ℕ → Req → Answer Response) (h : Handler)
    (fd : ℕ) (req : Req)
    → processor call (category h) (sub_category h) fd req (register_all [])
      ≡ call (address h) 0 fd req
unfolding register_all register_each register category sub_category address add_cb processor handles
register_all-processor call version_check fd req = refl
register_all-processor call heartbeat fd req = refl
register_all-processor call account_login fd req = refl
register_all-processor call account_logout fd req = refl
register_all-processor call account_create fd req = refl
register_all-processor call account_modify fd req = refl
register_all-processor call account_delete fd req = refl
register_all-processor call account_list fd req = refl
register_all-processor call device_create fd req = refl
register_all-processor call device_delete fd req = refl
register_all-processor call device_list fd req = refl
register_all-processor call play_device fd req = refl
register_all-processor call play_stop fd req = refl
register_all-processor call play_touch fd req = refl
