-- ===== src/Client.antt =====
-- The folder client: the calls that a program makes to the service. What is shared by them: the
-- pairs of a request, the answer, and the status that is made of it.
--
-- What becomes of a request on its way is a `Link`: from rpc_request_new to rpc_request_ok, with the
-- network and the service behind it, whose state is any type. It gives the request that answers, or
-- none where the connection is not there or nothing has come in time.
pub mod Account
pub mod Devices
pub mod Lists
pub mod Nulls
pub mod Platform
pub mod Play
pub mod Service
pub mod Transparent
pub mod Welcome
pub mod Wire
mod Tests
use livezure.Prelude.{
  ℕ, ◌-◌, ◌^◌, ◌==◌, if◌then◌else◌, Bool, true, false, not, List, [], ◌∷◌, ◌++◌, Option, none, some,
  Run, ok, fault, ◌>>=◌, ◌>>◌, guard, failed_assert, Text, bytes, atoi,
}
use livezure.Rpc.Buffer.{Buffer}
use livezure.Rpc.Parser.{Item}
use livezure.Service.Handlers.{arg}

-- `mc_status`
pub data Status : Type 0 where
  mc_ok server_not_response syntax_error internal_error no_permission session_expired : Status
  invalid_uuid_or_pwd old_pwd_not_correct uuid_exist delete_cannot_be_owner : Status
  uuid_not_exist workfolder_exist : Status

-- `mc_session_t`; `auto_heartbeat` is the address of its timer.
pub record Session : Type 0 where
  pub uuid : Text
  pub b_is_admin : Bool
  pub ref_admin_uuid : Text
  pub auto_heartbeat : ℕ

abbrev pub Link : Type 0 → Type 0
Link S = ℕ → ℕ → Option Buffer → S → Run (Option (List Item) × S)

-- `assert(status != mc_syntax_error && status != mc_internal_error)`
unfoldable pub is_fault : Status → Bool
is_fault syntax_error = true
is_fault internal_error = true
is_fault _ = false

unfoldable pub finish : Status → Run Status
finish status = guard (not (is_fault status)) failed_assert >> ok status

-- The number -n, as an `int`.
abbrev pub minus : ℕ → ℕ
minus n = 2 ^ 32 - n

-- `check_rid`
unfoldable pub check_number : Option Text → Run ℕ
check_number none = fault failed_assert
check_number (some text) = atoi text

unfoldable pub check_rid : List Item → Text → Run ℕ
check_rid req id = check_number (arg (some req) id)

-- The cases of a `switch`, with what is in its default.
unfoldable pub switch : ℕ → List (ℕ × Status) → Status → Status
switch rid [] default = default
switch rid ((label, status) ∷ cases) default =
    if rid == label then status else switch rid cases default

-- The status of a call that only reads `rid`.
unfoldable pub rid_status : List (ℕ × Status) → Status → Option (List Item) → Run Status
rid_status cases default none = ok server_not_response
rid_status cases default (some req) = do
  rid ← check_rid req (bytes "rid")
  ok (switch rid cases default)

module _ {S : Type 0} (link : Link S) where
  -- A request with what is made of its answer; `read` gives `mc_server_not_response` where there is
  -- none.
  unfoldable pub request :
      {A : Type 0}
      → ℕ
      → ℕ
      → Option Buffer
      → (Option (List Item) → Run (Status × A))
      → S
      → Run (Status × A × S)
  request category sub_category input read s = do
    (reply, s') ← link category sub_category input s
    (status, result) ← read reply
    status' ← finish status
    ok (status', result, s')

  unfoldable pub request_status :
      ℕ → ℕ → Option Buffer → List (ℕ × Status) → Status → S → Run (Status × S)
  request_status category sub_category input cases default s = do
    (reply, s') ← link category sub_category input s
    status ← rid_status cases default reply
    status' ← finish status
    ok (status', s')
