-- ===== src/Service/Database/Schema.antt =====
-- db_account.c: the tables, made and dropped.
use livezure.Prelude.{List, [], ◌∷◌, ◌++◌, Run, ok, ◌>>=◌, Text, bytes}
use livezure.Service.Database.{Provider, must}

unfoldable pub drop_table : Text → Text
drop_table name = bytes "DROP TABLE IF EXISTS " ++ name

unfoldable pub create_table : Text → Text → Text
create_table name columns =
    bytes "CREATE TABLE IF NOT EXISTS " ++ (name ++ (bytes " (" ++ (columns ++ bytes ")")))

-- The time of a row, which the engine fills in.
unfoldable pub stamp : Text
stamp = bytes " TIMESTAMPE NOT NULL DEFAULT (datetime('now','localtime'))"

unfoldable pub license_row : Text → Text
license_row values =
    bytes "INSERT INTO t_account_license (license_type,comment) VALUES (" ++ (values ++ bytes ")")

unfoldable pub license_statements : List Text
license_statements =
    drop_table (bytes "t_account_license")
    ∷ create_table (bytes "t_account_license")
        (bytes "license_type INTEGER PRIMARY KEY,comment TEXT")
    ∷ license_row (bytes "0,'this license is now must be checking by service root.'")
    ∷ license_row (bytes "1,'this license have expired time limited.'")
    ∷ license_row (bytes "2,'this license is for ever for use'")
    ∷ []

unfoldable pub account_statements : List Text
account_statements =
    create_table (bytes "t_account_basic")
      (bytes "uuid TEXT PRIMARY KEY,pwd TEXT,nickname TEXT,comment TEXT,createtime" ++ stamp)
    ∷ create_table (bytes "t_account_admin") (
        bytes
          "uuid TEXT PRIMARY KEY,license_type INTEGER,licensed_time TEXT,expired_time TEXT,create_time"
        ++ stamp)
    ∷ create_table (bytes "t_account_child")
        (bytes "uuid TEXT PRIMARY KEY,ref_admin_uuid,create_time" ++ stamp)
    ∷ create_table (bytes "t_account_child_permission") (
        bytes "child_uuid TEXT PRIMARY KEY,can_view_ba INTEGER,can_view_record INTEGER,"
        ++ bytes "can_ptz_ba INTEGER,can_task_record INTEGER")
    ∷ []

unfoldable pub device_statements : List Text
device_statements =
    create_table (bytes "t_device_basic") (
      bytes "uuid TEXT PRIMARY KEY,plugin_name TEXT,ip TEXT,port INTEGER,user TEXT,pwd TEXT,"
      ++ (bytes
            "channel INTEGER,seg_folder TEXT,seg_in_count INTEGER,seg_per_sec INTEGER,create_time"
          ++ stamp))
    ∷ create_table (bytes "t_account_device") (
        bytes "uuid TEXT PRIMARY KEY,ref_admin_uuid TEXT,nickname TEXT,comment TEXT,"
        ++ (bytes "is_top_level INTEGER,ref_parent_uuid TEXT,createtime" ++ stamp))
    ∷ []

-- The statements of `db_account_ensure_table_exist`.
unfoldable pub table_statements : List Text
table_statements = license_statements ++ (account_statements ++ device_statements)

-- Those of `db_account_reset`: the second is commented as the one for t_account_basic.
unfoldable pub reset_statements : List Text
reset_statements =
    drop_table (bytes "t_account_license")
    ∷ drop_table (bytes "t_account_admin")
    ∷ drop_table (bytes "t_account_admin")
    ∷ drop_table (bytes "t_account_child")
    ∷ drop_table (bytes "t_account_child_permission")
    ∷ drop_table (bytes "t_device_basic")
    ∷ drop_table (bytes "t_account_device")
    ∷ []

module _ {D : Type 0} (db : Provider D) where
  -- Each statement is asserted to be done.
  unfoldable pub all_done : D → List Text → Run D
  all_done d [] = ok d
  all_done d (sql ∷ statements) = must db d sql >>= λ d'. all_done d' statements

  unfoldable pub ensure_table_exist : D → Run D
  ensure_table_exist d = all_done d table_statements

  unfoldable pub reset : D → Run D
  reset d = all_done d reset_statements
