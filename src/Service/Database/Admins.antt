-- ===== src/Service/Database/Admins.antt =====
-- db_account.c: how an admin comes and goes.
use livezure.Prelude.{
  Bool, true, false, [], Option, none, some, Run, ok, fault, ◌>>=◌, failed_assert, Text,
}
use livezure.Service.Session.{Basic}
use livezure.Service.Database.{Provider, must, lower_name}
use livezure.Service.Database.Users.{
  License, license_get, license_set, license_del, sql_license_del,
}
use livezure.Service.Database.Accounts.{sql_basic_add, sql_basic_del, child_del}
use livezure.Service.Database.Devices.{device_del}

-- `e_license_checking`
unfoldable pub checking : License
checking = record { license_type = 0; licensed_time = []; expired_time = [] }

module _ {D : Type 0} (db : Provider D) where
  unfoldable pub add_unlicensed : D → Basic → Option License → Run (Bool × D)
  add_unlicensed d account (some license) = ok (false, d)
  add_unlicensed d account none = do
    hashpwd ← db.gen_hash_key account.pwd
    uuid ← lower_name account.uuid
    d' ← must db d (sql_basic_add uuid hashpwd account.nickname account.comment)
    d'' ← license_set db d' uuid checking
    ok (true, d'')

  -- `db_account_admin_add`
  unfoldable pub admin_add : D → Basic → Run (Bool × D)
  admin_add d account = do license ← license_get db d account.uuid; add_unlicensed d account license

  -- `db_account_admin_del`, which ends in `assert(0)`.
  unfoldable pub admin_del : D → Text → Run (Bool × D)
  admin_del d uuid = do
    d1 ← must db d (sql_basic_del uuid)
    d2 ← must db d1 (sql_license_del uuid)
    d3 ← license_del db d2 uuid
    d4 ← child_del db d3 uuid none
    d5 ← device_del db d4 uuid none
    fault failed_assert
