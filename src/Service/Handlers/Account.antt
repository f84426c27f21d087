-- ===== src/Service/Handlers/Account.antt =====
-- service_req_account.c: the handlers that create, change and delete accounts. Each takes a
-- reference to its session, and gives it back on every way out.
use livezure.Prelude.{
  ℕ, ◌==◌, Bool, true, false, not, ◌&&◌, if◌then◌else◌, [], take, Option, none, some, Run, ok,
  fault, ◌>>=◌, failed_assert, Text, bytes, text_eq,
}
use livezure.Service.Session.{Basic, Session, ref, session_at}
use livezure.Service.Database.{Provider, to_lower}
use livezure.Service.Database.Users.{
  User, existence, admin, check_user_exist, check_user_is_ok, is_user,
}
use livezure.Service.Database.Accounts.{child_add, child_del, update, list_child_count}
use livezure.Service.Handlers.{
  Request, arg, Reply, rid, World, leave, valid_name, valid_optional, or_empty,
}

-- The account that `req_account_create` fills in.
unfoldable pub new_account : Text → Text → Option Text → Option Text → Basic
new_account uuid pwd nickname comment = record {
  uuid = take 16 uuid;
  pwd = take 32 pwd;
  nickname = take 64 (or_empty nickname);
  comment = take 256 (or_empty comment);
  created_time = [];
}

-- `*b_is_admin`, which is false where there is no user.
unfoldable pub admin_of : Option User → Bool
admin_of none = false
admin_of (some user) = user.is_admin

unfoldable pub is_one : Option ℕ → Bool
is_one none = false
is_one (some count) = count == 1

-- What follows a change of the database, with its result.
unfoldable pub changed : {D : Type 0} → ℕ → World D → Bool × D → Run (Reply × World D)
changed a w (false, d) = fault failed_assert
changed a w (true, d) = leave a (rid (bytes "0")) (record w { database = d })

module _ {D : Type 0} (db : Provider D) where
  unfoldable pub create_under : ℕ → Basic → World D → Session → Run (Reply × World D)
  create_under a account w session =
      let add = child_add db w.database session.basic.uuid account >>= changed a w in
      if not session.is_admin then leave a (rid (bytes "-1")) w else add

  unfoldable pub create_as : Basic → World D → Option ℕ → Run (Reply × World D)
  create_as account w none = ok (rid (bytes "-300"), w)
  create_as account w (some a) = session_at a w.table >>= create_under a account w

  unfoldable pub create_if : ℕ → Basic → World D → Bool → Run (Reply × World D)
  create_if fd account w true = ok (rid (bytes "-2"), w)
  create_if fd account w false =
      let (r, table) = ref fd w.table in create_as account (record w { table = table }) r

  unfoldable pub create_account : ℕ → World D → Text → Basic → Run (Reply × World D)
  create_account fd w uuid account = do
    user ← check_user_exist db w.database uuid existence
    create_if fd account w (is_user user)

  unfoldable pub create_fields :
      ℕ → World D → Option Text → Option Text → Option Text → Option Text → Run (Reply × World D)
  create_fields fd w (some uuid) (some pwd) nickname comment =
      let create = create_account fd w uuid (new_account uuid pwd nickname comment) in
      if valid_name uuid
        && valid_name pwd
        && valid_optional 64 nickname
        && valid_optional 256 comment
      then create
      else fault failed_assert
  create_fields fd w _ _ _ _ = fault failed_assert

  unfoldable pub req_account_create : ℕ → Request → World D → Run (Reply × World D)
  req_account_create fd req w =
      create_fields fd w (arg req (bytes "uuid")) (arg req (bytes "pwd"))
        (arg req (bytes "nickname")) (arg req (bytes "comment"))

  unfoldable pub modify_if : ℕ → Text → World D → Session → Option User → Run (Reply × World D)
  modify_if a new_pwd w session none = leave a (rid (bytes "-1")) w
  modify_if a new_pwd w session (some user) =
      update db w.database session.basic.uuid (record session.basic { pwd = take 32 new_pwd })
      >>= changed a w

  unfoldable pub modify_of : ℕ → Text → Text → World D → Session → Run (Reply × World D)
  modify_of a old_pwd new_pwd w session =
      check_user_is_ok db w.database session.basic.uuid old_pwd existence
      >>= modify_if a new_pwd w session

  unfoldable pub modify_as : Text → Text → World D → Option ℕ → Run (Reply × World D)
  modify_as old_pwd new_pwd w none = ok (rid (bytes "-300"), w)
  modify_as old_pwd new_pwd w (some a) = session_at a w.table >>= modify_of a old_pwd new_pwd w

  unfoldable pub modify_account : ℕ → World D → Text → Text → Run (Reply × World D)
  modify_account fd w old_pwd new_pwd =
      let (r, table) = ref fd w.table in modify_as old_pwd new_pwd (record w { table = table }) r

  unfoldable pub modify_fields :
      ℕ → World D → Option Text → Option Text → Option Text → Option Text → Run (Reply × World D)
  modify_fields fd w (some old_pwd) (some new_pwd) nickname comment =
      let modify = modify_account fd w old_pwd new_pwd in
      if valid_name old_pwd
        && valid_name new_pwd
        && valid_optional 64 nickname
        && valid_optional 256 comment
      then modify
      else fault failed_assert
  modify_fields fd w _ _ _ _ = fault failed_assert

  -- The nickname and the comment of the request are tested, and not used.
  unfoldable pub req_account_modify : ℕ → Request → World D → Run (Reply × World D)
  req_account_modify fd req w =
      modify_fields fd w (arg req (bytes "old_pwd")) (arg req (bytes "new_pwd"))
        (arg req (bytes "nickname")) (arg req (bytes "comment"))

  unfoldable pub delete_unless : ℕ → Text → World D → Session → Bool → Run (Reply × World D)
  delete_unless a del_uuid w session true = fault failed_assert
  delete_unless a del_uuid w session false =
      child_del db w.database session.basic.uuid (some del_uuid) >>= λ d. changed a w (true, d)

  unfoldable pub delete_child : ℕ → Text → World D → Session → Bool → Run (Reply × World D)
  delete_child a del_uuid w session false = leave a (rid (bytes "-4")) w
  delete_child a del_uuid w session true = do
    user ← check_user_exist db w.database del_uuid admin
    delete_unless a del_uuid w session (admin_of user)

  -- `stricmp`, and whether the account is one of the session's.
  unfoldable pub delete_other : ℕ → Text → World D → Session → Run (Reply × World D)
  unfolding is_one
  delete_other a del_uuid w session =
      let other = list_child_count db w.database session.basic.uuid (some del_uuid) >>= λ count.
      delete_child a del_uuid w session (is_one count) in
      if text_eq (to_lower del_uuid) (to_lower session.basic.uuid)
      then leave a (rid (bytes "-3")) w
      else other

  unfoldable pub delete_if : ℕ → Text → World D → Session → Option User → Run (Reply × World D)
  delete_if a del_uuid w session none = leave a (rid (bytes "-2")) w
  delete_if a del_uuid w session (some user) =
      let other = delete_other a del_uuid w session in
      if not user.is_admin then leave a (rid (bytes "-1")) w else other

  unfoldable pub delete_of : ℕ → Text → Text → World D → Session → Run (Reply × World D)
  delete_of a check_pwd del_uuid w session =
      check_user_is_ok db w.database session.basic.uuid check_pwd admin
      >>= delete_if a del_uuid w session

  unfoldable pub delete_as : Text → Text → World D → Option ℕ → Run (Reply × World D)
  delete_as check_pwd del_uuid w none = ok (rid (bytes "-300"), w)
  delete_as check_pwd del_uuid w (some a) =
      session_at a w.table >>= delete_of a check_pwd del_uuid w

  unfoldable pub delete_account : ℕ → World D → Text → Text → Run (Reply × World D)
  delete_account fd w check_pwd del_uuid =
      let (r, table) = ref fd w.table in delete_as check_pwd del_uuid (record w { table = table }) r

  unfoldable pub delete_fields : ℕ → World D → Option Text → Option Text → Run (Reply × World D)
  delete_fields fd w (some check_pwd) (some del_uuid) =
      let delete = delete_account fd w check_pwd del_uuid in
      if valid_name del_uuid && valid_name check_pwd then delete else fault failed_assert
  delete_fields fd w _ _ = fault failed_assert

  unfoldable pub req_account_delete : ℕ → Request → World D → Run (Reply × World D)
  req_account_delete fd req w =
      delete_fields fd w (arg req (bytes "check_pwd")) (arg req (bytes "del_uuid"))
