-- ===== src/Service/Database/Accounts.antt =====
-- db_account.c: the lists of accounts, and how accounts come, change and go.
use livezure.Prelude.{
  ℕ, Bool, false, if◌then◌else◌, List, [], ◌∷◌, ◌++◌, length, take, Option, none, some, Run, ok,
  fault, ◌>>=◌, ◌>>◌, guard, failed_assert, out_of_range, text_eq, Text, bytes,
}
use livezure.Service.Session.{Basic}
use livezure.Service.Session.Accounts.{Accounts as Queries}
use livezure.Service.Database.{Provider, fetch, run, must, quoted, each, lower_name}
use livezure.Service.Database.Users.{
  User, existence, check_user_is_ok, admin_and_ref, check_user_exist,
}

unfoldable pub basic_of : List Text → Run Basic
basic_of (uuid ∷ pwd ∷ nickname ∷ comment ∷ created_time ∷ _) = ok (record {
  uuid = take 16 uuid;
  pwd = take 32 pwd;
  nickname = take 64 nickname;
  comment = take 256 comment;
  created_time = take 64 created_time;
})
basic_of _ = fault out_of_range

unfoldable pub listed : Option (List (List Text)) → Run (Option (List Basic))
listed none = ok none
listed (some []) = ok none
listed (some (r ∷ rows)) = each basic_of (r ∷ rows) >>= λ accounts. ok (some accounts)

-- What a caller learns that asks for the number alone.
unfoldable pub counted : Option (List (List Text)) → Option ℕ
counted none = none
counted (some []) = none
counted (some (r ∷ rows)) = some (length (r ∷ rows))

unfoldable pub sql_admins : Option Text → Text
sql_admins none =
    bytes "SELECT * FROM t_account_basic WHERE uuid IN (SELECT uuid FROM t_account_admin)"
sql_admins (some uuid) =
    bytes
      "SELECT * FROM t_account_basic WHERE uuid IN (SELECT uuid FROM t_account_admin WHERE uuid="
    ++ (quoted uuid ++ bytes ")")

sql_children_of : Text → Text → Text
sql_children_of ref_admin_uuid rest =
    bytes
      "SELECT * FROM t_account_basic WHERE uuid IN (SELECT uuid FROM t_account_child WHERE ref_admin_uuid="
    ++ (quoted ref_admin_uuid ++ rest)

unfoldable pub sql_children : Text → Option Text → Text
unfolding sql_children_of
sql_children ref_admin_uuid none = sql_children_of ref_admin_uuid (bytes ")")
sql_children ref_admin_uuid (some uuid) =
    sql_children_of ref_admin_uuid (bytes " AND uuid=" ++ (quoted uuid ++ bytes ")"))

unfoldable pub sql_basic_add : Text → Text → Text → Text → Text
sql_basic_add uuid hashpwd nickname comment =
    bytes "INSERT INTO t_account_basic (uuid,pwd,nickname,comment) VALUES ("
    ++ (quoted uuid
        ++ (bytes ","
            ++ (quoted hashpwd
                ++ (bytes ","
                    ++ (quoted nickname ++ (bytes "," ++ (quoted comment ++ bytes ")")))))))

unfoldable pub sql_child_add : Text → Text → Text
sql_child_add uuid ref_admin_uuid =
    bytes "INSERT INTO t_account_child (uuid,ref_admin_uuid) VALUES ("
    ++ (quoted uuid ++ (bytes "," ++ (quoted ref_admin_uuid ++ bytes ")")))

unfoldable pub sql_update : Text → Basic → Text → Text
sql_update uuid account hashpwd =
    bytes "UPDATE t_account_basic SET pwd="
    ++ (quoted hashpwd
        ++ (bytes ",nickname="
            ++ (quoted account.nickname
                ++ (bytes ",comment="
                    ++ (quoted account.comment ++ (bytes " WHERE uuid=" ++ quoted uuid))))))

unfoldable pub sql_basic_del : Text → Text
sql_basic_del uuid = bytes "DELETE FROM t_account_basic WHERE uuid=" ++ quoted uuid

-- The two statements of `db_account_child_del`.
unfoldable pub sql_child_del : Text → Option Text → Text
sql_child_del ref_admin_uuid none =
    bytes "DELETE FROM t_account_child WHERE ref_admin_uuid=" ++ quoted ref_admin_uuid
sql_child_del ref_admin_uuid (some uuid) =
    bytes "DELETE FROM t_account_child WHERE ref_admin_uuid="
    ++ (quoted ref_admin_uuid ++ (bytes " AND uuid=" ++ quoted uuid))

unfoldable pub sql_child_basic_del : Text → Option Text → Text
sql_child_basic_del ref_admin_uuid none =
    bytes "DELETE FROM t_account_basic WHERE uuid IN (SELECT uuid FROM t_account_admin WHERE uuid="
    ++ (quoted ref_admin_uuid ++ bytes ")")
sql_child_basic_del ref_admin_uuid (some uuid) = sql_basic_del uuid

unfoldable pub names_of : Option User → Option (Bool × Text)
names_of none = none
names_of (some user) = some (user.is_admin, user.ref_admin_uuid)

module _ {D : Type 0} (db : Provider D) where
  unfoldable pub list_admin_get : D → Option Text → Run (Option (List Basic))
  list_admin_get d specified_uuid = fetch db 4096 d (sql_admins specified_uuid) >>= listed

  unfoldable pub list_child_get : D → Text → Option Text → Run (Option (List Basic))
  list_child_get d ref_admin_uuid specified_uuid =
      fetch db 4096 d (sql_children ref_admin_uuid specified_uuid) >>= listed

  unfoldable pub list_child_count : D → Text → Option Text → Run (Option ℕ)
  list_child_count d ref_admin_uuid specified_uuid =
      fetch db 4096 d (sql_children ref_admin_uuid specified_uuid) >>= λ rows. ok (counted rows)

  unfoldable pub add_both : D → Text → Text → Text → Basic → Run (Bool × D)
  add_both d uuid ref_admin_uuid hashpwd account = do
    (r, d') ← run db d (sql_basic_add uuid hashpwd account.nickname account.comment)
    let second = run db d' (sql_child_add uuid ref_admin_uuid)
    if r then second else ok (false, d')

  unfoldable pub add_under : D → Text → Basic → Option User → Run (Bool × D)
  add_under d ref_admin_uuid account none = ok (false, d)
  add_under d ref_admin_uuid account (some user) = do
    uuid ← lower_name account.uuid
    hashpwd ← db.gen_hash_key account.pwd
    add_both d uuid ref_admin_uuid hashpwd account

  -- `db_account_child_add`
  unfoldable pub child_add : D → Text → Basic → Run (Bool × D)
  child_add d ref_admin_uuid account = do
    lower_ref ← lower_name ref_admin_uuid
    user ← check_user_exist db d lower_ref existence
    add_under d lower_ref account user

  -- `db_account_child_del`: it returns true, or an assertion fails.
  unfoldable pub child_del : D → Text → Option Text → Run D
  child_del d ref_admin_uuid specified_uuid = do
    d' ← must db d (sql_child_del ref_admin_uuid specified_uuid)
    must db d' (sql_child_basic_del ref_admin_uuid specified_uuid)

  -- The account as it is before the update; the caller asserts that the query succeeds.
  unfoldable pub old_accounts : D → Text → User → Run (Option (List Basic))
  old_accounts d uuid user =
      if user.is_admin
      then list_admin_get d (some uuid)
      else list_child_get d user.ref_admin_uuid (some uuid)

  unfoldable pub update_one : D → Text → Basic → Option (List Basic) → Run (Bool × D)
  update_one d uuid account none = fault failed_assert
  update_one d uuid account (some (old ∷ [])) = do
    hashpwd ← db.gen_hash_key account.pwd
    run db d (sql_update uuid account hashpwd)
  update_one d uuid account (some _) = ok (false, d)

  unfoldable pub update_as : D → Text → Basic → Option User → Run (Bool × D)
  update_as d uuid account none = fault out_of_range
  update_as d uuid account (some user) = old_accounts d uuid user >>= update_one d uuid account

  -- `db_account_update` with NULL for `err`, through which it writes where there is no such user.
  unfoldable pub update : D → Text → Basic → Run (Bool × D)
  update d uuid account = do
    guard (text_eq uuid account.uuid) failed_assert
    user ← check_user_exist db d uuid admin_and_ref
    update_as d uuid account user

  -- The queries of a login and of the lookups of sessions.
  unfoldable pub queries : D → Queries
  queries d = record {
    check_user_is_ok =
        λ uuid pwd. check_user_is_ok db d uuid pwd admin_and_ref >>= λ user. ok (names_of user);
    list_admin_get = λ uuid. list_admin_get d (some uuid);
    list_child_get = λ ref_admin_uuid uuid. list_child_get d ref_admin_uuid (some uuid);
  }
