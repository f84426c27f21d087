-- ===== src/Service/Handlers/Lists.antt =====
-- The lists of accounts and of devices: `req_account_list` of service_req_account.c and
-- `req_device_list` of service_req_device.c.
use livezure.Prelude.{
  ℕ, ◌==◌, Bool, not, if◌then◌else◌, List, [], ◌∷◌, ◌++◌, length, Option, none, some, Run, ok,
  fault, ◌>>=◌, failed_assert, Text, bytes, decimal,
}
use livezure.Service.Session.{Basic, Session, Node, ref, session_at}
use livezure.Service.Session.Accounts.{try_get_child}
use livezure.Service.Database.{Provider, each}
use livezure.Service.Database.Users.{User, admin, check_user_exist}
use livezure.Service.Database.Accounts.{list_child_get, queries}
use livezure.Service.Database.Devices.{Device, device_get}
use livezure.Service.Handlers.{Reply, pair, rid, World, leave}

-- The number of entries in front of a list.
unfoldable pub listing : List Reply → Reply
listing entries =
    rid (bytes "0") ++ (pair (bytes "count") (decimal (length entries)) ∷ flat entries)
  where
    flat : List Reply → Reply
    flat [] = []
    flat (entry ∷ rest) = entry ++ flat rest

flag : Bool → Text
flag b = if b then bytes "1" else bytes "0"

unfoldable pub account_pairs : Session → Reply
unfolding flag
account_pairs online =
    pair (bytes "uuid") online.basic.uuid
    ∷ pair (bytes "nickname") online.basic.nickname
    ∷ pair (bytes "comment") online.basic.comment
    ∷ pair (bytes "created_time") online.basic.created_time
    ∷ pair (bytes "is_online") (flag online.is_online)
    ∷ pair (bytes "ip") (if length online.ip == 0 then bytes "0.0.0.0" else online.ip)
    ∷ pair (bytes "port") (decimal online.port)
    ∷ []

-- The pair for the port holds the ip.
unfoldable pub device_pairs : Device → Reply
unfolding flag
device_pairs device =
    pair (bytes "uuid") device.uuid
    ∷ pair (bytes "plugin_name") device.plugin_name
    ∷ pair (bytes "ip") device.ip
    ∷ pair (bytes "port") device.ip
    ∷ pair (bytes "user") device.user
    ∷ pair (bytes "pwd") device.pwd
    ∷ pair (bytes "channel") (decimal device.channel)
    ∷ pair (bytes "seg_folder") device.seg_folder
    ∷ pair (bytes "seg_in_count") (decimal device.seg_in_count)
    ∷ pair (bytes "seg_per_sec") (decimal device.seg_per_sec)
    ∷ pair (bytes "created_time") device.created_time
    ∷ pair (bytes "nickname") device.nickname
    ∷ pair (bytes "comment") device.comment
    ∷ pair (bytes "is_top_level") (flag device.is_top_level)
    ∷ pair (bytes "ref_parent_uuid") device.ref_parent_uuid
    ∷ []

-- `assert(r)` on what `online_session_try_get_child` returns.
unfoldable pub child_pairs : Option Session → Run Reply
child_pairs none = fault failed_assert
child_pairs (some online) = ok (account_pairs online)

module _ {D : Type 0} (db : Provider D) where
  -- The two handlers up to their queries.
  module _ (query : List Node → D → Text → Run Reply) where
    unfoldable pub list_if : ℕ → World D → Session → Option User → Run (Reply × World D)
    list_if a w session none = fault failed_assert
    list_if a w session (some user) =
        let answer = query w.table w.database session.basic.uuid >>= λ reply. leave a reply w in
        if not user.is_admin then leave a (rid (bytes "-1")) w else answer

    unfoldable pub list_of : ℕ → World D → Session → Run (Reply × World D)
    list_of a w session =
        check_user_exist db w.database session.basic.uuid admin >>= list_if a w session

    unfoldable pub list_as : World D → Option ℕ → Run (Reply × World D)
    list_as w none = ok (rid (bytes "-300"), w)
    list_as w (some a) = session_at a w.table >>= list_of a w

    unfoldable pub list_for : ℕ → World D → Run (Reply × World D)
    list_for fd w = let (r, table) = ref fd w.table in list_as (record w { table = table }) r

  unfoldable pub account_entry : List Node → D → Text → Basic → Run Reply
  account_entry table d uuid basic =
      try_get_child (queries db d) uuid basic.uuid table >>= child_pairs

  unfoldable pub account_entries : List Node → D → Text → Option (List Basic) → Run Reply
  account_entries table d uuid none = fault failed_assert
  account_entries table d uuid (some accounts) =
      each (account_entry table d uuid) accounts >>= λ entries. ok (listing entries)

  unfoldable pub account_query : List Node → D → Text → Run Reply
  account_query table d uuid = list_child_get db d uuid none >>= account_entries table d uuid

  unfoldable pub req_account_list : ℕ → World D → Run (Reply × World D)
  req_account_list fd w = list_for account_query fd w

  device_entries : Option (List Device) → Run Reply
  device_entries none = ok (listing [])
  device_entries (some devices) =
      each (λ device. ok (device_pairs device)) devices >>= λ entries. ok (listing entries)

  unfoldable pub device_query : List Node → D → Text → Run Reply
  unfolding device_entries
  device_query table d uuid = device_get db d uuid none >>= device_entries

  unfoldable pub req_device_list : ℕ → World D → Run (Reply × World D)
  req_device_list fd w = list_for device_query fd w
