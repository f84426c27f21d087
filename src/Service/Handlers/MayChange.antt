-- ===== src/Service/Handlers/MayChange.antt =====
-- Which session may change the database through a handler of accounts or devices.
use livezure.Prelude.{
  ℕ, ◌≡◌, refl, ◌⊎◌, inl, Bool, true, false, ◌&&◌, List, Option, none, some, Run, ok, fault,
  failed_assert, Holds, fault-Holds, ok-Holds, if-Holds, bind-Holds, same-Holds, Text, bytes,
}
use livezure.Service.Session.{Basic, Node}
use livezure.Service.Session.Unique.{IsUnique}
use livezure.Service.Session.Keep.{node_of}
use livezure.Service.Database.{Provider}
use livezure.Service.Database.Users.{existence, check_user_exist, is_user}
use livezure.Service.Handlers.{Request, arg, Reply, rid, World, valid_name, valid_optional}
use livezure.Service.Handlers.Account.{
  new_account, create_if, create_account, create_fields, req_account_create, modify_account,
  modify_fields, req_account_modify, delete_account, delete_fields, req_account_delete,
}
use livezure.Service.Handlers.Devices.{
  Action, as_admin, create, delete, delete_uuid, req_device_create, req_device_delete,
}
use livezure.Service.Handlers.Lists.{
  list_for, account_query, device_query, req_account_list, req_device_list,
}
use livezure.Service.Handlers.Keeps.{answered}
use livezure.Service.Handlers.Policies.{
  create_policy, create_if-answered, modify_policy, modify_account-answered, delete_policy,
  delete_account-answered,
}
use livezure.Service.Handlers.AdminPolicies.{
  admin_policy, as_admin-answered, list_policy, list_for-answered, IsBlind, account_query-IsBlind,
  device_query-IsBlind,
}
use livezure.Service.Handlers.Commands.{
  Command, account_create, account_modify, account_delete, account_list, device_create,
  device_delete, device_list, handle,
}
use livezure.Service.Handlers.Permission.{
  ForNode, UnlessIn, weaken, answered-Unless, Knows, Licensed, create_policy-Unless,
  modify_policy-Unless, delete_policy-Unless, admin_policy-Unless, list_policy-Unless,
}

-- Which session may change the database by a request.
module _ {D : Type 0} (db : Provider D) (fd : ℕ) (w : World D) where
  abbrev pub MayCreate : Type 0
  MayCreate = ForNode (node_of fd w.table) (λ s. s.is_admin ≡ true)

  abbrev pub MayModify : Option Text → Type 0
  MayModify old_pwd =
      (pwd : Text) × (old_pwd ≡ some pwd)
      × ForNode (node_of fd w.table) (λ s. Knows db s w.database pwd)

  abbrev pub MayDelete : Option Text → Type 0
  MayDelete check_pwd =
      (pwd : Text) × (check_pwd ≡ some pwd)
      × ForNode (node_of fd w.table) (λ s. Knows db s w.database pwd × Licensed db s w.database)

  abbrev pub MayAdminister : Type 0
  MayAdminister = ForNode (node_of fd w.table) (λ s. Licensed db s w.database)

  -- The lists change nothing.
  abbrev pub May : Command → Request → Type 0
  May account_create req = MayCreate
  May account_modify req = MayModify (arg req (bytes "old_pwd"))
  May account_delete req = MayDelete (arg req (bytes "check_pwd"))
  May device_create req = MayAdminister
  May device_delete req = MayAdminister
  May account_list req = ⊥
  May device_list req = ⊥

module _ {D : Type 0} (db : Provider D) (fd : ℕ) (w : World D) (u : IsUnique w.table) where
  create_if-Unless :
      (account : Basic) (taken : Bool)
      → Holds (UnlessIn (MayCreate db fd w) w) (create_if db fd account w taken)
  create_if-Unless account true =
      unfold create_if in ok-Holds (UnlessIn (MayCreate db fd w) w) (rid (bytes "-2"), w) (inl refl)
  create_if-Unless account false =
      same-Holds (UnlessIn (MayCreate db fd w) w) (create_if db fd account w false)
        (answered (node_of fd w.table) w (create_policy db account))
        (create_if-answered db fd account w u)
        (answered-Unless (λ s. s.is_admin ≡ true) w (node_of fd w.table) (create_policy db account)
          (λ s. create_policy-Unless db s w.database account))

  create-Unless :
      (uuid pwd nickname comment : Option Text)
      → Holds (UnlessIn (MayCreate db fd w) w) (create_fields db fd w uuid pwd nickname comment)
  unfolding create_fields create_account
  create-Unless (some uuid) (some pwd) nickname comment =
      if-Holds (UnlessIn (MayCreate db fd w) w)
        (valid_name uuid
          && valid_name pwd
          && valid_optional 64 nickname
          && valid_optional 256 comment)
        (create_account db fd w uuid (new_account uuid pwd nickname comment)) (fault failed_assert)
        (λ e.
          bind-Holds (UnlessIn (MayCreate db fd w) w)
            (check_user_exist db w.database uuid existence)
            (λ user. create_if db fd (new_account uuid pwd nickname comment) w (is_user user))
            (λ user e. create_if-Unless (new_account uuid pwd nickname comment) (is_user user)))
        (λ e. fault-Holds (UnlessIn (MayCreate db fd w) w) failed_assert)
  create-Unless none _ nickname comment = fault-Holds (UnlessIn (MayCreate db fd w) w) failed_assert
  create-Unless (some uuid) none nickname comment =
      fault-Holds (UnlessIn (MayCreate db fd w) w) failed_assert

  modify-Unless :
      (old_pwd new_pwd nickname comment : Option Text)
      → Holds
          (UnlessIn (MayModify db fd w old_pwd) w)
          (modify_fields db fd w old_pwd new_pwd nickname comment)
  unfolding modify_fields
  modify-Unless (some old_pwd) (some new_pwd) nickname comment =
      if-Holds (UnlessIn (MayModify db fd w (some old_pwd)) w)
        (valid_name old_pwd
          && valid_name new_pwd
          && valid_optional 64 nickname
          && valid_optional 256 comment)
        (modify_account db fd w old_pwd new_pwd) (fault failed_assert)
        (λ e.
          same-Holds (UnlessIn (MayModify db fd w (some old_pwd)) w)
            (modify_account db fd w old_pwd new_pwd)
            (answered (node_of fd w.table) w (modify_policy db old_pwd new_pwd))
            (modify_account-answered db fd w old_pwd new_pwd u)
            (weaken (ForNode (node_of fd w.table) (λ s. Knows db s w.database old_pwd))
              (MayModify db fd w (some old_pwd)) w
              (answered (node_of fd w.table) w (modify_policy db old_pwd new_pwd))
              (λ may. (old_pwd, refl, may))
              (answered-Unless (λ s. Knows db s w.database old_pwd) w (node_of fd w.table)
                (modify_policy db old_pwd new_pwd)
                (λ s. modify_policy-Unless db s w.database old_pwd new_pwd))))
        (λ e. fault-Holds (UnlessIn (MayModify db fd w (some old_pwd)) w) failed_assert)
  modify-Unless none _ nickname comment =
      fault-Holds (UnlessIn (MayModify db fd w none) w) failed_assert
  modify-Unless (some old_pwd) none nickname comment =
      fault-Holds (UnlessIn (MayModify db fd w (some old_pwd)) w) failed_assert

  delete-Unless :
      (check_pwd del_uuid : Option Text)
      → Holds (UnlessIn (MayDelete db fd w check_pwd) w) (delete_fields db fd w check_pwd del_uuid)
  unfolding delete_fields
  delete-Unless (some check_pwd) (some del_uuid) =
      if-Holds (UnlessIn (MayDelete db fd w (some check_pwd)) w)
        (valid_name del_uuid && valid_name check_pwd) (delete_account db fd w check_pwd del_uuid)
        (fault failed_assert)
        (λ e.
          same-Holds (UnlessIn (MayDelete db fd w (some check_pwd)) w)
            (delete_account db fd w check_pwd del_uuid)
            (answered (node_of fd w.table) w (delete_policy db check_pwd del_uuid))
            (delete_account-answered db fd w check_pwd del_uuid u)
            (weaken
              (ForNode (node_of fd w.table)
                (λ s. Knows db s w.database check_pwd × Licensed db s w.database))
              (MayDelete db fd w (some check_pwd)) w
              (answered (node_of fd w.table) w (delete_policy db check_pwd del_uuid))
              (λ may. (check_pwd, refl, may))
              (answered-Unless (λ s. Knows db s w.database check_pwd × Licensed db s w.database) w
                (node_of fd w.table) (delete_policy db check_pwd del_uuid)
                (λ s. delete_policy-Unless db s w.database check_pwd del_uuid))))
        (λ e. fault-Holds (UnlessIn (MayDelete db fd w (some check_pwd)) w) failed_assert)
  delete-Unless none _ = fault-Holds (UnlessIn (MayDelete db fd w none) w) failed_assert
  delete-Unless (some check_pwd) none =
      fault-Holds (UnlessIn (MayDelete db fd w (some check_pwd)) w) failed_assert

  list-Unless :
      (query : List Node → D → Text → Run Reply)
      → IsBlind db query
      → Holds (UnlessIn ⊥ w) (list_for db query fd w)
  list-Unless query blind =
      same-Holds (UnlessIn ⊥ w) (list_for db query fd w)
        (answered (node_of fd w.table) w (list_policy db query w.table))
        (list_for-answered db query blind fd w u)
        (weaken (ForNode (node_of fd w.table) (λ s. ⊥)) ⊥ w
          (answered (node_of fd w.table) w (list_policy db query w.table)) (λ may. may.2)
          (answered-Unless (λ s. ⊥) w (node_of fd w.table) (list_policy db query w.table)
            (λ s. list_policy-Unless db query w.table s w.database)))

  administer-Unless :
      (action : Action D) → Holds (UnlessIn (MayAdminister db fd w) w) (as_admin db action fd w)
  administer-Unless action =
      same-Holds (UnlessIn (MayAdminister db fd w) w) (as_admin db action fd w)
        (answered (node_of fd w.table) w (admin_policy db action))
        (as_admin-answered db action fd w u)
        (answered-Unless (λ s. Licensed db s w.database) w (node_of fd w.table)
          (admin_policy db action) (λ s. admin_policy-Unless db s w.database action))

  delete_device-Unless :
      (del_uuid : Option Text)
      → Holds (UnlessIn (MayAdminister db fd w) w) (delete_uuid db fd w del_uuid)
  unfolding delete_uuid
  delete_device-Unless none = fault-Holds (UnlessIn (MayAdminister db fd w) w) failed_assert
  delete_device-Unless (some uuid) = administer-Unless (delete db uuid)

  handle-Unless :
      (command : Command) (req : Request)
      → Holds (UnlessIn (May db fd w command req) w) (handle db command fd req w)
  unfolding handle req_account_create req_account_modify req_account_delete req_account_list
      req_device_create req_device_delete req_device_list
  handle-Unless account_create req =
      create-Unless (arg req (bytes "uuid")) (arg req (bytes "pwd")) (arg req (bytes "nickname"))
        (arg req (bytes "comment"))
  handle-Unless account_modify req =
      modify-Unless (arg req (bytes "old_pwd")) (arg req (bytes "new_pwd"))
        (arg req (bytes "nickname")) (arg req (bytes "comment"))
  handle-Unless account_delete req =
      delete-Unless (arg req (bytes "check_pwd")) (arg req (bytes "del_uuid"))
  handle-Unless account_list req = list-Unless (account_query db) (account_query-IsBlind db)
  handle-Unless device_create req = administer-Unless (create db req)
  handle-Unless device_delete req = delete_device-Unless (arg req (bytes "uuid"))
  handle-Unless device_list req = list-Unless (device_query db) (device_query-IsBlind db)

-- Where no two sessions conflict or share an address, a handler of accounts or devices that
-- answers has left the database as it was, or there is a session of the socket that may change it:
-- for a new account one that is an admin; for a change one for which the database has a row of the
-- query with the name of the session and the hash of the old password in the request; for a
-- deletion such a one, with the password to check, that has a licence in the database; for devices
-- one that has a licence there. The lists change nothing.
pub handle-May :
    {D : Type 0} (db : Provider D) (command : Command) (fd : ℕ) (req : Request) (w w' : World D)
    (reply : Reply)
    → IsUnique w.table
    → handle db command fd req w ≡ ok (reply, w')
    → (w'.database ≡ w.database) ⊎ May db fd w command req
handle-May db command fd req w w' reply u e = handle-Unless db fd w u command req (reply, w') e
