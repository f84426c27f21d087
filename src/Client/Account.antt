-- ===== src/Client/Account.antt =====
-- media_api_account.c but for the list of accounts. Pointers that may be NULL are options; the
-- fields of an account are arrays, which are never NULL. A timer calls `heartbeart_timer_clock` with
-- the session every five seconds.
use livezure.Prelude.{
  ◌>>◌, guard, out_of_range, ltb, length, ℕ, ◌==◌, if◌then◌else◌, Bool, true, false, ◌&&◌, List, [],
  ◌∷◌, Option, none, some, Run, ok, fault, ◌>>=◌, failed_assert, Text, bytes, atoi, decimal,
  sprintf, text_eq,
}
use livezure.Rpc.Parser.{Item}
use livezure.Rpc.Parser.Stream.{Pair}
use livezure.Common.Timer
use livezure.Common.Timer.{Timer}
use livezure.Service.Session.{Basic}
use livezure.Service.Database.{to_lower}
use livezure.Service.Handlers.{arg, pair, valid_name, valid_optional}
use livezure.Rpc.Parser.Pack.{pack}
use livezure.Client.{
  Status, mc_ok, server_not_response, syntax_error, internal_error, no_permission, session_expired,
  invalid_uuid_or_pwd, old_pwd_not_correct, uuid_exist, delete_cannot_be_owner, uuid_not_exist,
  Session, Link, minus, switch, check_rid, request, request_status,
}

-- The cases of each call, `rid` of the reply to the status.
abbrev pub heartbeat_cases : List (ℕ × Status)
heartbeat_cases = (0, mc_ok) ∷ (minus 300, session_expired) ∷ []

abbrev pub logout_cases : List (ℕ × Status)
logout_cases = (0, mc_ok) ∷ (minus 300, session_expired) ∷ []

abbrev pub create_cases : List (ℕ × Status)
create_cases =
    (0, mc_ok)
    ∷ (minus 1, no_permission)
    ∷ (minus 2, uuid_exist)
    ∷ (minus 255, syntax_error)
    ∷ (minus 300, session_expired)
    ∷ (minus 256, internal_error)
    ∷ []

abbrev pub modify_cases : List (ℕ × Status)
modify_cases =
    (0, mc_ok)
    ∷ (minus 1, old_pwd_not_correct)
    ∷ (minus 255, syntax_error)
    ∷ (minus 300, session_expired)
    ∷ (minus 256, internal_error)
    ∷ []

abbrev pub delete_cases : List (ℕ × Status)
delete_cases =
    (0, mc_ok)
    ∷ (minus 1, no_permission)
    ∷ (minus 2, old_pwd_not_correct)
    ∷ (minus 3, delete_cannot_be_owner)
    ∷ (minus 4, uuid_not_exist)
    ∷ (minus 255, syntax_error)
    ∷ (minus 300, session_expired)
    ∷ (minus 256, internal_error)
    ∷ []

-- `stricmp(a, b) == 0`
unfoldable pub same_name : Text → Text → Bool
same_name a b = text_eq (to_lower a) (to_lower b)

abbrev pub login_cases : List (ℕ × Status)
login_cases =
    (minus 1, invalid_uuid_or_pwd)
    ∷ (minus 255, syntax_error)
    ∷ (minus 300, session_expired)
    ∷ (minus 256, internal_error)
    ∷ []

-- `ref_admin_uuid` of the reply, without which the reply is not accepted.
unfoldable pub child_of : Option Text → Option (Bool × Text)
child_of none = none
child_of (some ref_admin_uuid) = some (false, ref_admin_uuid)

-- What `mc_account_login` reads from a reply whose `rid` is 0: `is_admin` and `ref_admin_uuid`.
unfoldable pub login_admin : List Item → Option Text → Run (Option (Bool × Text))
login_admin req none = ok none
login_admin req (some c_is_admin) = do
  is_admin ← atoi c_is_admin
  ok (if is_admin == 0 then child_of (arg (some req) (bytes "ref_admin_uuid")) else some (true, []))

unfoldable pub welcomed : Option (Bool × Text) → Status × Option (Bool × Text)
welcomed none = (internal_error, none)
welcomed (some admin) = (mc_ok, some admin)

unfoldable pub read_login : Option (List Item) → Run (Status × Option (Bool × Text))
read_login none = ok (server_not_response, none)
read_login (some req) = do
  rid ← check_rid req (bytes "rid")
  if rid == 0
      then (do admin ← login_admin req (arg (some req) (bytes "is_admin")); ok (welcomed admin))
      else ok (switch rid login_cases internal_error, none)

-- The pairs behind the first of a request.
unfoldable pub create_pairs : Basic → List Pair
create_pairs child =
    pair (bytes "pwd") child.pwd
    ∷ pair (bytes "nickname") child.nickname
    ∷ pair (bytes "comment") child.comment
    ∷ []

unfoldable pub modify_pairs : Basic → List Pair
modify_pairs basic =
    pair (bytes "new_pwd") basic.pwd
    ∷ pair (bytes "nickname") basic.nickname
    ∷ pair (bytes "comment") basic.comment
    ∷ []

-- The address of `heartbeart_timer_clock`.
abbrev pub heartbeat_clock : ℕ
heartbeat_clock = 1

-- The session of an accepted login, and its timer; the addresses are those of the two. `strncpy` of
-- 17 bytes of a longer name than 16 leaves its array without a terminator: what is then in it is no
-- text, and whoever reads it leaves the array, which is a fault here already.
unfoldable pub new_session :
    Text → ℕ → ℕ → List Timer → Option (Bool × Text) → Run (Option Session × List Timer)
new_session uuid sess timer clocks none = ok (none, clocks)
new_session uuid sess timer clocks (some (b_is_admin, ref_admin_uuid)) = do
  guard (ltb (length uuid) 17 && ltb (length ref_admin_uuid) 17) out_of_range
  ok (
    some (record {
      uuid = uuid;
      b_is_admin = b_is_admin;
      ref_admin_uuid = ref_admin_uuid;
      auto_heartbeat = timer;
    }),
    Timer.create heartbeat_clock sess 5000 false timer clocks,
  )

module _ (malloc : ℕ → List ℕ) {S : Type 0} (link : Link S) where
  -- The session is not looked at.
  unfoldable pub mc_heartbeat : S → Run (Status × S)
  mc_heartbeat s = request_status link 0 1 none heartbeat_cases session_expired s

  unfoldable pub mc_account_login :
      Option Text
      → Option Text
      → ℕ
      → ℕ
      → ℕ
      → List Timer
      → S
      → Run (Status × (Option Session × List Timer) × S)
  mc_account_login (some uuid) (some pwd) pid sess timer clocks s = do
    c_pid ← sprintf 8 (decimal pid)
    input ←
        pack malloc none
          (pair (bytes "uuid") uuid ∷ pair (bytes "pwd") pwd ∷ pair (bytes "pid") c_pid ∷ [])
    (status, admin, s') ← request link 2 0 input read_login s
    session ← new_session uuid sess timer clocks admin
    ok (status, session, s')
  mc_account_login _ _ pid sess timer clocks s = fault failed_assert

  unfoldable pub mc_login_check_power : Option Session → Status × Option Bool
  mc_login_check_power none = (syntax_error, none)
  mc_login_check_power (some session) = (mc_ok, some session.b_is_admin)

  -- The session is freed whatever the service answers.
  unfoldable pub mc_account_logout :
      Option Session → List Timer → S → Run (Status × (Option Session × List Timer) × S)
  mc_account_logout none clocks s = ok (session_expired, (none, clocks), s)
  mc_account_logout (some session) clocks s = do
    let (found, clocks') = Timer.del session.auto_heartbeat clocks
    (status, s') ← request_status link 2 1 none logout_cases session_expired s
    ok (status, (none, clocks'), s')

  -- What `heartbeart_timer_clock` does with the status: whether it aborts its timer.
  unfoldable pub after_heartbeat :
      Option Session → List Timer → Status × S → Run (Bool × List Timer × S)
  after_heartbeat session clocks (mc_ok, s) = ok (false, clocks, s)
  after_heartbeat session clocks (status, s) = do
    (status', (session', clocks'), s') ← mc_account_logout session clocks s
    ok (true, clocks', s')

  unfoldable pub heartbeart_timer_clock :
      Option Session → List Timer → S → Run (Bool × List Timer × S)
  heartbeart_timer_clock session clocks s = mc_heartbeat s >>= after_heartbeat session clocks

  unfoldable pub mc_account_create : Option Session → Option Basic → S → Run (Status × S)
  mc_account_create (some session) (some child) s =
      let create = (do
        input ← pack malloc none (pair (bytes "uuid") child.uuid ∷ create_pairs child)
        request_status link 2 2 input create_cases internal_error s) in
      if valid_name child.uuid
        && valid_name child.pwd
        && valid_optional 64 (some child.nickname)
        && valid_optional 256 (some child.comment)
      then create
      else ok (syntax_error, s)
  mc_account_create _ _ s = ok (syntax_error, s)

  unfoldable pub mc_account_modify :
      Option Session → Option Text → Option Basic → S → Run (Status × S)
  mc_account_modify (some session) (some old_pwd) (some basic) s =
      let modify = (do
        input ← pack malloc none (pair (bytes "old_pwd") old_pwd ∷ modify_pairs basic)
        request_status link 2 3 input modify_cases internal_error s) in
      if same_name session.uuid basic.uuid then modify else ok (syntax_error, s)
  mc_account_modify _ _ _ s = ok (syntax_error, s)

  unfoldable pub mc_account_delete :
      Option Session → Option Text → Option Text → S → Run (Status × S)
  mc_account_delete (some session) (some old_pwd) (some del_uuid) s =
      let delete = (do
        input ←
            pack malloc none
              (pair (bytes "check_pwd") old_pwd ∷ pair (bytes "del_uuid") del_uuid ∷ [])
        request_status link 2 4 input delete_cases internal_error s) in
      if session.b_is_admin then delete else ok (no_permission, s)
  mc_account_delete _ _ _ s = ok (syntax_error, s)
