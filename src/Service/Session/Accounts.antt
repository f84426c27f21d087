-- ===== src/Service/Session/Accounts.antt =====
-- The accounts in the database, where `req_account_login` of service_req_account.c makes a session,
-- and online_session_try_get_admin and online_session_try_get_child of service_session.c look for
-- one that is not online.
use livezure.Prelude.{
  ℕ, if◌then◌else◌, Bool, true, false, not, ◌&&◌, List, [], ◌∷◌, take, Option, none, some, Run, ok,
  fault, ◌>>=◌, failed_assert, text_eq,
}
use livezure.Service.Session.{Basic, Session, Node, Outcome, add}

-- The queries of db_account.c: db_account_check_user_is_ok, with whether the user is an admin and
-- the name of its admin, db_account_list_admin_get and db_account_list_child_get.
pub record Accounts : Type 0 where
  pub check_user_is_ok : List ℕ → List ℕ → Run (Option (Bool × List ℕ))
  pub list_admin_get : List ℕ → Run (Option (List Basic))
  pub list_child_get : List ℕ → List ℕ → Run (Option (List Basic))

-- `assert(r && count == 1)`
unfoldable pub only_account : Option (List Basic) → Run Basic
only_account (some (basic ∷ [])) = ok basic
only_account _ = fault failed_assert

-- The session of a login: the name of an admin's own admin stays empty. `strncpy` of 17 bytes is a
-- text where the name has 16 bytes at most; `db_account_check_user_is_ok` copies no more.
unfoldable pub session_of : Bool → List ℕ → ℕ → List ℕ → ℕ → Basic → Session
session_of b_is_admin ref_admin_uuid fd ip port basic = record {
  basic = basic;
  ref_admin_uuid = if b_is_admin then [] else take 17 ref_admin_uuid;
  is_admin = b_is_admin;
  is_online = true;
  fd = fd;
  ip = ip;
  port = port;
  is_heartbeated = true;
}

-- What `req_account_login` does with the answer of the database: -1, or the list with the session.
pub data Login : Type 0 where
  invalid : Login
  accepted : Outcome → Login

unfoldable pub login_as :
    Accounts → List ℕ → ℕ → List ℕ → ℕ → ℕ → List Node → Option (Bool × List ℕ) → Run Login
login_as db uuid fd ip port address table none = ok invalid
login_as db uuid fd ip port address table (some (b_is_admin, ref_admin_uuid)) = do
  account ← if b_is_admin then db.list_admin_get uuid else db.list_child_get ref_admin_uuid uuid
  basic ← only_account account
  ok (accepted (add (session_of b_is_admin ref_admin_uuid fd ip port basic) address table))

-- `req_account_login` of a request whose fields have passed the tests of their syntax, with the
-- address of the peer and that of the node that is allocated.
unfoldable pub req_account_login :
    Accounts → List ℕ → List ℕ → ℕ → List ℕ → ℕ → ℕ → List Node → Run Login
req_account_login db uuid pwd fd ip port address table =
    db.check_user_is_ok uuid pwd >>= login_as db uuid fd ip port address table

-- The session of an account that is not found online; what is not set is zero.
unfoldable pub offline : Bool → List ℕ → Basic → Session
offline is_admin ref_admin_uuid basic = record {
  basic = basic;
  ref_admin_uuid = ref_admin_uuid;
  is_admin = is_admin;
  is_online = false;
  fd = 0;
  ip = [];
  port = 0;
  is_heartbeated = false;
}

unfoldable pub admin_from : Option (List Basic) → Run (Option Session)
admin_from none = ok none
admin_from (some account) = do
  basic ← only_account (some account)
  ok (some (offline true basic.uuid basic))

unfoldable pub child_from : List ℕ → Option (List Basic) → Run (Option Session)
child_from ref_admin_uuid none = ok none
child_from ref_admin_uuid (some account) = do
  basic ← only_account (some account)
  ok (some (offline false ref_admin_uuid basic))

-- `online_session_try_get_admin`: a copy of the session, or the account.
unfoldable pub try_get_admin : Accounts → List ℕ → List Node → Run (Option Session)
try_get_admin db ref_admin_uuid [] = db.list_admin_get ref_admin_uuid >>= admin_from
try_get_admin db ref_admin_uuid (node ∷ rest) =
    let later = try_get_admin db ref_admin_uuid rest in
    if node.session.is_admin && text_eq node.session.ref_admin_uuid ref_admin_uuid
    then ok (some node.session)
    else later

-- `online_session_try_get_child`
unfoldable pub try_get_child : Accounts → List ℕ → List ℕ → List Node → Run (Option Session)
try_get_child db ref_admin_uuid uuid [] =
    db.list_child_get ref_admin_uuid uuid >>= child_from ref_admin_uuid
try_get_child db ref_admin_uuid uuid (node ∷ rest) =
    let later = try_get_child db ref_admin_uuid uuid rest in
    if not node.session.is_admin
      && text_eq node.session.ref_admin_uuid ref_admin_uuid
      && text_eq node.session.basic.uuid uuid
    then ok (some node.session)
    else later
