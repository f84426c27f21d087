-- ===== src/Service/Database/Users.antt =====
-- db_account.c: the licences of the admins, and who is a user.
use livezure.Prelude.{
  ℕ, Bool, true, false, List, [], ◌∷◌, ◌++◌, length, take, Option, none, some, Run, ok, fault,
  ◌>>=◌, ◌>>◌, guard, failed_assert, out_of_range, ltb, Text, bytes, atoi, decimal,
}
use livezure.Service.Database.{Provider, exists_row, fetch, must, quoted}

-- `db_account_license_t`
pub record License : Type 0 where
  pub license_type : ℕ
  pub licensed_time : Text
  pub expired_time : Text

-- The first row, of five columns.
unfoldable pub license_of : Option (List (List Text)) → Run (Option License)
license_of none = ok none
license_of (some ((_ ∷ kind ∷ licensed ∷ expired ∷ _ ∷ []) ∷ _)) = do
  license_type ← atoi kind
  ok (
      some record {
        license_type = license_type;
        licensed_time = take 64 licensed;
        expired_time = take 64 expired;
      })
license_of (some _) = fault failed_assert

unfoldable pub sql_license : Text → Text
sql_license uuid = bytes "SELECT * FROM t_account_admin WHERE uuid=" ++ quoted uuid

unfoldable pub sql_basic : Text → Text
sql_basic uuid = bytes "SELECT * FROM t_account_basic WHERE uuid=" ++ quoted uuid

unfoldable pub sql_child : Text → Text
sql_child uuid = bytes "SELECT * FROM t_account_child WHERE uuid=" ++ quoted uuid

unfoldable pub sql_login : Text → Text → Text
sql_login uuid hash = sql_basic uuid ++ (bytes " AND pwd=" ++ quoted hash)

-- What `db_account_check_user_exist` writes where it succeeds; what is not asked for stays false
-- or empty.
pub record User : Type 0 where
  pub is_admin : Bool
  pub ref_admin_uuid : Text

-- The results that a caller has a place for.
pub data Wanted : Type 0 where
  existence admin admin_and_ref : Wanted

-- `strncpy` of 16 bytes: what a caller finds behind a longer name was never written.
unfoldable pub copied_name : Text → Run Text
copied_name name = guard (ltb (length name) 16) out_of_range >> ok name

-- The admin of a child, from a row of three columns.
unfoldable pub parent_of : Option (List (List Text)) → Run User
parent_of none = ok (record { is_admin = false; ref_admin_uuid = [] })
parent_of (some ((_ ∷ name ∷ _ ∷ []) ∷ _)) = do
  ref_admin_uuid ← copied_name name
  ok (record { is_admin = false; ref_admin_uuid = ref_admin_uuid })
parent_of (some _) = fault failed_assert

unfoldable pub no_user_data : Bool → User
no_user_data is_admin = record { is_admin = is_admin; ref_admin_uuid = [] }

unfoldable pub must_exist : Option User → Run (Option User)
must_exist none = fault failed_assert
must_exist (some user) = ok (some user)

unfoldable pub is_user : Option User → Bool
is_user none = false
is_user (some user) = true

unfoldable pub sql_license_del : Text → Text
sql_license_del uuid = bytes "DELETE FROM t_account_admin WHERE uuid=" ++ quoted uuid

unfoldable pub sql_license_set : Text → License → Text
sql_license_set uuid license =
    bytes "INSERT INTO t_account_admin (uuid,license_type,licensed_time,expired_time) VALUES ("
    ++ (quoted uuid
        ++ (bytes ","
            ++ (decimal license.license_type
                ++ (bytes ","
                    ++ (quoted license.licensed_time
                        ++ (bytes "," ++ (quoted license.expired_time ++ bytes ")")))))))

module _ {D : Type 0} (db : Provider D) where
  unfoldable pub license_get : D → Text → Run (Option License)
  license_get d uuid = fetch db 4096 d (sql_license uuid) >>= license_of

  unfoldable pub user_of : D → Text → Wanted → Option License → Run User
  user_of d uuid admin_and_ref none = fetch db 4096 d (sql_child uuid) >>= parent_of
  user_of d uuid _ none = ok (no_user_data false)
  user_of d uuid _ (some license) = ok (no_user_data true)

  unfoldable pub found_user : D → Text → Wanted → Bool → Run (Option User)
  found_user d uuid wanted false = ok none
  found_user d uuid existence true = ok (some (no_user_data false))
  found_user d uuid wanted true = do
    license ← license_get d uuid
    user ← user_of d uuid wanted license
    ok (some user)

  -- `db_account_check_user_exist`
  unfoldable pub check_user_exist : D → Text → Wanted → Run (Option User)
  check_user_exist d uuid wanted = exists_row db d (sql_basic uuid) >>= found_user d uuid wanted

  unfoldable pub known_user : D → Text → Wanted → Bool → Run (Option User)
  known_user d uuid wanted false = ok none
  known_user d uuid wanted true = check_user_exist d uuid wanted >>= must_exist

  -- `db_account_check_user_is_ok`
  unfoldable pub check_user_is_ok : D → Text → Text → Wanted → Run (Option User)
  check_user_is_ok d uuid pwd wanted = do
    hashpwd ← db.gen_hash_key pwd
    r ← exists_row db d (sql_login uuid hashpwd)
    known_user d uuid wanted r

  unfoldable pub license_del : D → Text → Run D
  license_del d uuid = do
    user ← check_user_exist d uuid existence
    guard (is_user user) failed_assert
    must db d (sql_license_del uuid)

  unfoldable pub cleared : D → Text → Option License → Run D
  cleared d uuid none = ok d
  cleared d uuid (some old) = license_del d uuid

  unfoldable pub license_set : D → Text → License → Run D
  license_set d uuid license = do
    old ← license_get d uuid
    d' ← cleared d uuid old
    must db d' (sql_license_set uuid license)
