-- ===== src/Service/Handlers/Platform.antt =====
-- service_req_platform.c, and the login of service_req_account.c: the handlers for a client that
-- has no session yet. service_req_record.c and service_req_storage.c hold the version check again.
use livezure.Prelude.{
  ℕ, ◌==◌, Bool, true, false, ◌||◌, ◌&&◌, if◌then◌else◌, List, [], ◌∷◌, ◌++◌, Option, none, some,
  Run, ok, fault, ◌>>=◌, ◌>>◌, guard, failed_assert, out_of_range, Text, bytes, atoi, decimal,
}
use livezure.Service.Session.{Node, Outcome}
use livezure.Service.Session.Accounts.{Accounts, Login, invalid, accepted, login_as}
use livezure.Service.Database.{Provider}
use livezure.Service.Database.Accounts.{queries}
use livezure.Service.Handlers.{Request, arg, Reply, pair, rid, World, valid_name}

unfoldable pub valid_platform : ℕ → Bool
valid_platform pid = (pid == 100) || (pid == 200) || (pid == 201) || (pid == 300) || (pid == 301)

-- The version that every client is told of.
unfoldable pub no_update : Reply
no_update =
    pair (bytes "rid") (bytes "0")
    ∷ pair (bytes "new_ver") (bytes "1.0.0.0")
    ∷ pair (bytes "update_log") (bytes "no need update current.")
    ∷ pair (bytes "force_update") (bytes "0")
    ∷ []

unfoldable pub version_fields : Option Text → Option Text → Run Reply
version_fields pid none = fault failed_assert
version_fields none (some ver) = fault out_of_range
version_fields (some pid) (some ver) = do
  number ← atoi pid
  guard (valid_platform number) failed_assert
  ok no_update

-- `atoi` is given the platform also where the request has none.
unfoldable pub req_version_check : Request → Run Reply
req_version_check req = version_fields (arg req (bytes "pid")) (arg req (bytes "ver"))

-- The reply of a login, and what `online_session_add` comes to where the login is accepted.
pub data Logged : Type 0 where
  refused : Reply → Logged
  welcome : Reply → Outcome → Logged

unfoldable pub admin_pairs : Bool → Text → Reply
admin_pairs true ref_admin_uuid = []
admin_pairs false ref_admin_uuid = pair (bytes "ref_admin_uuid") ref_admin_uuid ∷ []

unfoldable pub login_reply : Bool → Text → Reply
unfolding admin_pairs
login_reply b_is_admin ref_admin_uuid =
    rid (bytes "0")
    ++ (pair (bytes "is_admin") (decimal (if b_is_admin then 1 else 0))
        ∷ admin_pairs b_is_admin ref_admin_uuid)

unfoldable pub logged : Reply → Login → Logged
logged reply invalid = refused (rid (bytes "-1"))
logged reply (accepted outcome) = welcome reply outcome

unfoldable pub reply_to : Option (Bool × Text) → Reply
reply_to none = []
reply_to (some (b_is_admin, ref_admin_uuid)) = login_reply b_is_admin ref_admin_uuid

-- The peer of the socket, as `rpc_util_ip` gives it, and the address of the node that is allocated.
pub record Peer : Type 0 where
  pub fd : ℕ
  pub ip : Text
  pub port : ℕ
  pub address : ℕ

unfoldable pub login : Accounts → Peer → List Node → Text → Text → Run Logged
unfolding reply_to
login db peer table uuid pwd = do
  user ← db.check_user_is_ok uuid pwd
  result ← login_as db uuid peer.fd peer.ip peer.port peer.address table user
  ok (logged (reply_to user) result)

unfoldable pub login_fields :
    Accounts → Peer → List Node → Option Text → Option Text → Option Text → Run Logged
login_fields db peer table (some pid) (some uuid) (some pwd) = do
  number ← atoi pid
  guard (valid_platform number && valid_name uuid && valid_name pwd) failed_assert
  login db peer table uuid pwd
login_fields db peer table _ _ _ = fault failed_assert

unfoldable pub login_request : {D : Type 0} → Provider D → Peer → Request → World D → Run Logged
login_request db peer req w =
    login_fields (queries db w.database) peer w.table (arg req (bytes "pid"))
      (arg req (bytes "uuid")) (arg req (bytes "pwd"))
