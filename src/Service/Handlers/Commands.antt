-- ===== src/Service/Handlers/Commands.antt =====
-- The handlers that work for a session and give its reference back, and what becomes of the table
-- of the sessions.
use livezure.Prelude.{
  ℕ, ◌≡◌, refl, sym, ◌∙◌, if◌then◌else◌, Bool, true, false, ◌&&◌, Option, none, some, Run, ok,
  fault, failed_assert, Holds, fault-Holds, ok-Holds, if-Holds, bind-Holds, Text, bytes,
}
use livezure.Service.Session.{Session, Node}
use livezure.Service.Session.Unique.{IsUnique}
use livezure.Service.Session.Keep.{node_of}
use livezure.Service.Database.{Provider}
use livezure.Service.Database.Users.{existence, check_user_exist, is_user}
use livezure.Service.Handlers.{Request, arg, Reply, rid, World, valid_name, valid_optional}
use livezure.Service.Handlers.Account.{
  new_account, create_if, create_account, create_fields, req_account_create, modify_account,
  modify_fields, req_account_modify, delete_account, delete_fields, req_account_delete,
}
use livezure.Service.Handlers.Devices.{
  create, delete, delete_uuid, req_device_create, req_device_delete,
}
use livezure.Service.Handlers.Lists.{account_query, device_query, req_account_list, req_device_list}
use livezure.Service.Handlers.Keeps.{answered, answered-table}
use livezure.Service.Handlers.Policies.{
  create_policy, create_if-answered, modify_policy, modify_account-answered, delete_policy,
  delete_account-answered,
}
use livezure.Service.Handlers.AdminPolicies.{
  admin_policy, as_admin-answered, list_policy, list_for-answered, account_query-IsBlind,
  device_query-IsBlind,
}

pub data Command : Type 0 where
  account_create account_modify account_delete account_list : Command
  device_create device_delete device_list : Command

module _ {D : Type 0} (db : Provider D) where
  unfoldable pub handle : Command → ℕ → Request → World D → Run (Reply × World D)
  handle account_create fd req w = req_account_create db fd req w
  handle account_modify fd req w = req_account_modify db fd req w
  handle account_delete fd req w = req_account_delete db fd req w
  handle account_list fd req w = req_account_list db fd w
  handle device_create fd req w = req_device_create db fd req w
  handle device_delete fd req w = req_device_delete db fd req w
  handle device_list fd req w = req_device_list db fd w

  abbrev pub SameTable : World D → Reply × World D → Type 0
  SameTable w (reply, w') = w'.table ≡ w.table

  -- That a run which answers ends with the table that it began with.
  abbrev pub Keeps : World D → Run (Reply × World D) → Type 0
  Keeps w = Holds (SameTable w)

  answered-Keeps :
      (w : World D) (result : Run (Reply × World D)) (o : Option Node)
      (policy : Session → D → Run (Reply × D))
      → result ≡ answered o w policy
      → Keeps w result
  answered-Keeps w result o policy same (reply, w') e =
      answered-table o w w' policy reply (sym same ∙ e)

  fault-Keeps : (w : World D) → Keeps w (fault failed_assert)
  fault-Keeps w = fault-Holds (SameTable w) failed_assert

  if-Keeps :
      (w : World D) (b : Bool) (first second : Run (Reply × World D))
      → Keeps w first
      → Keeps w second
      → Keeps w (if b then first else second)
  if-Keeps w b first second h k = if-Holds (SameTable w) b first second (λ e. h) (λ e. k)

  module _ (fd : ℕ) (w : World D) (u : IsUnique w.table) where
    create_if-Keeps : (account : _) (taken : Bool) → Keeps w (create_if db fd account w taken)
    create_if-Keeps account true =
        unfold create_if in ok-Holds (SameTable w) (rid (bytes "-2"), w) refl
    create_if-Keeps account false =
        answered-Keeps w (create_if db fd account w false) (node_of fd w.table)
          (create_policy db account) (create_if-answered db fd account w u)

    create-Keeps :
        (uuid pwd nickname comment : Option Text)
        → Keeps w (create_fields db fd w uuid pwd nickname comment)
    unfolding create_fields create_account
    create-Keeps (some uuid) (some pwd) nickname comment =
        if-Keeps w
          (valid_name uuid
            && valid_name pwd
            && valid_optional 64 nickname
            && valid_optional 256 comment)
          (create_account db fd w uuid (new_account uuid pwd nickname comment))
          (fault failed_assert)
          (bind-Holds (SameTable w) (check_user_exist db w.database uuid existence)
            (λ user. create_if db fd (new_account uuid pwd nickname comment) w (is_user user))
            (λ user e. create_if-Keeps (new_account uuid pwd nickname comment) (is_user user)))
          (fault-Keeps w)
    create-Keeps none _ nickname comment = fault-Keeps w
    create-Keeps (some uuid) none nickname comment = fault-Keeps w

    modify-Keeps :
        (old_pwd new_pwd nickname comment : Option Text)
        → Keeps w (modify_fields db fd w old_pwd new_pwd nickname comment)
    unfolding modify_fields
    modify-Keeps (some old_pwd) (some new_pwd) nickname comment =
        if-Keeps w
          (valid_name old_pwd
            && valid_name new_pwd
            && valid_optional 64 nickname
            && valid_optional 256 comment)
          (modify_account db fd w old_pwd new_pwd) (fault failed_assert)
          (answered-Keeps w (modify_account db fd w old_pwd new_pwd) (node_of fd w.table)
            (modify_policy db old_pwd new_pwd) (modify_account-answered db fd w old_pwd new_pwd u))
          (fault-Keeps w)
    modify-Keeps none _ nickname comment = fault-Keeps w
    modify-Keeps (some old_pwd) none nickname comment = fault-Keeps w

    delete-Keeps :
        (check_pwd del_uuid : Option Text) → Keeps w (delete_fields db fd w check_pwd del_uuid)
    unfolding delete_fields
    delete-Keeps (some check_pwd) (some del_uuid) =
        if-Keeps w (valid_name del_uuid && valid_name check_pwd)
          (delete_account db fd w check_pwd del_uuid) (fault failed_assert)
          (answered-Keeps w (delete_account db fd w check_pwd del_uuid) (node_of fd w.table)
            (delete_policy db check_pwd del_uuid)
            (delete_account-answered db fd w check_pwd del_uuid u))
          (fault-Keeps w)
    delete-Keeps none _ = fault-Keeps w
    delete-Keeps (some check_pwd) none = fault-Keeps w

    delete_device-Keeps : (del_uuid : Option Text) → Keeps w (delete_uuid db fd w del_uuid)
    unfolding delete_uuid
    delete_device-Keeps none = fault-Keeps w
    delete_device-Keeps (some uuid) =
        answered-Keeps w _ (node_of fd w.table) (admin_policy db (delete db uuid))
          (as_admin-answered db (delete db uuid) fd w u)

    handle-Keeps : (command : Command) (req : Request) → Keeps w (handle command fd req w)
    unfolding handle req_account_create req_account_modify req_account_delete req_account_list
        req_device_create req_device_delete req_device_list
    handle-Keeps account_create req =
        create-Keeps (arg req (bytes "uuid")) (arg req (bytes "pwd")) (arg req (bytes "nickname"))
          (arg req (bytes "comment"))
    handle-Keeps account_modify req =
        modify-Keeps (arg req (bytes "old_pwd")) (arg req (bytes "new_pwd"))
          (arg req (bytes "nickname")) (arg req (bytes "comment"))
    handle-Keeps account_delete req =
        delete-Keeps (arg req (bytes "check_pwd")) (arg req (bytes "del_uuid"))
    handle-Keeps account_list req =
        answered-Keeps w _ (node_of fd w.table) (list_policy db (account_query db) w.table)
          (list_for-answered db (account_query db) (account_query-IsBlind db) fd w u)
    handle-Keeps device_create req =
        answered-Keeps w _ (node_of fd w.table) (admin_policy db (create db req))
          (as_admin-answered db (create db req) fd w u)
    handle-Keeps device_delete req = delete_device-Keeps (arg req (bytes "uuid"))
    handle-Keeps device_list req =
        answered-Keeps w _ (node_of fd w.table) (list_policy db (device_query db) w.table)
          (list_for-answered db (device_query db) (device_query-IsBlind db) fd w u)

  -- Where no two sessions conflict or share an address, a handler of accounts or devices that
  -- answers leaves the table of the sessions as it was, with all counts of references.
  pub handle-table :
      (command : Command) (fd : ℕ) (req : Request) (w w' : World D) (reply : Reply)
      → IsUnique w.table
      → handle command fd req w ≡ ok (reply, w')
      → w'.table ≡ w.table
  handle-table command fd req w w' reply u e = handle-Keeps fd w u command req (reply, w') e
