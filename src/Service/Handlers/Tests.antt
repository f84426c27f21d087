-- ===== src/Service/Handlers/Tests.antt =====
-- Requests of an admin to the handlers, over a database that counts its statements.
use livezure.Prelude.{
  ℕ, ◌+◌, ◌≡◌, refl, ◌∙◌, ◌⊎◌, true, false, if◌then◌else◌, List, [], ◌∷◌, ◌++◌, some, ok, Text,
  bytes, starts_with, text_eq, sprintf, decimal, digits, atoi, tolower, read_digits, positive,
}
use livezure.Rpc.Parser.{Item, find, get}
use livezure.Rpc.Parser.Stream.{until_nul}
use livezure.Service.Session as Session
use livezure.Service.Session.{
  Basic, Session, Node, fresh_node, ref, dref, put, session_at, need_delete, check_all,
  req_account_logout,
}
use livezure.Common.Pref
use livezure.Service.Session.Leak.{held, Waits}
use livezure.Service.Device.{ref_work}
use livezure.Service.Database.Devices.{sql_devices, columns, device_count}
use livezure.Service.Database.{
  Answer, row, done, Provider, exists_row, fetch, run, must, quoted, is_row, is_done, rows_of,
  to_lower,
}
use livezure.Service.Database.Users.{
  sql_license, sql_basic, sql_login, license_get, license_of, user_of, found_user, check_user_exist,
  known_user, check_user_is_ok, must_exist, no_user_data,
}
use livezure.Service.Database.Accounts.{
  sql_children, counted, list_child_count, child_del, sql_child_del, sql_child_basic_del,
  sql_basic_del,
}
use livezure.Service.Handlers.{Request, arg, rid, World, leave, release, valid_name}
use livezure.Service.Handlers.Account.{
  admin_of, is_one, changed, delete_unless, delete_child, delete_other, delete_if, delete_of,
  delete_as, delete_account, delete_fields, req_account_delete,
}
use livezure.Service.Handlers.Commands.{account_delete, handle, handle-table}
use livezure.Service.Handlers.Play.{
  Player, play, play_uuid, play_as, play_of, play_if, admin_uuid, one_or_none, start,
}
use livezure.Service.Handlers.PlayLeak.{play_logout-Waits}
use livezure.Service.Handlers.MayChange.{May, handle-May}

abbrev named : Text → Basic
named uuid = record { uuid = uuid; pwd = []; nickname = []; comment = []; created_time = [] }

abbrev root : Session
root = record {
  basic = named (bytes "r");
  ref_admin_uuid = [];
  is_admin = true;
  is_online = true;
  fd = 3;
  ip = [];
  port = 0;
  is_heartbeated = true;
}

abbrev table : List Node
table = fresh_node root 100 ∷ []

-- One row for every query but for the licence of another user than the admin.
abbrev select : ℕ → Text → Answer
select d sql =
    if starts_with sql (bytes "SELECT * FROM t_account_admin")
    then (if starts_with sql (sql_license (bytes "r"))
        then row ((bytes "r" ∷ bytes "0" ∷ [] ∷ [] ∷ [] ∷ []) ∷ [])
        else done)
    else row ((bytes "x" ∷ [] ∷ [] ∷ [] ∷ [] ∷ []) ∷ [])

abbrev pub engine : Provider ℕ
engine = record { select = select; exec = λ d sql. (done, d + 1); gen_hash_key = λ pwd. ok pwd }

abbrev item : Text → Text → Item
item key value = record {
  key = key ++ (0 ∷ []);
  keysize = 0;
  value = some (value ++ (0 ∷ []));
  valuesize = 0;
}

abbrev request : Request
request = some (item (bytes "check_pwd") (bytes "p") ∷ item (bytes "del_uuid") (bytes "x") ∷ [])

abbrev pub before : World ℕ
before = record { table = table; database = 0 }

abbrev pub after : World ℕ
after = record { table = table; database = 2 }

pub deletes : delete_account engine 3 before (bytes "p") (bytes "x") ≡ ok (rid (bytes "0"), after)
unfolding delete_account delete_as delete_of delete_if delete_other delete_child delete_unless
    changed admin_of is_one check_user_is_ok known_user must_exist check_user_exist found_user
    user_of license_get license_of no_user_data exists_row fetch run must is_row is_done rows_of
    sprintf sql_license sql_basic sql_login sql_children counted list_child_count child_del
    sql_child_del sql_child_basic_del sql_basic_del quoted to_lower tolower bytes starts_with
    text_eq leave release ref dref put session_at fresh_node rid atoi read_digits positive
deletes = refl

fields :
    req_account_delete engine 3 request before
    ≡ delete_account engine 3 before (bytes "p") (bytes "x")
unfolding req_account_delete delete_fields arg get find until_nul bytes starts_with valid_name
fields = refl

handle-May_example : (after.database ≡ before.database) ⊎ May engine 3 before account_delete request
handle-May_example =
    handle-May engine account_delete 3 request before after (rid (bytes "0")) (tt, tt)
      (unfold handle in fields ∙ deletes)

handle-table_example : after.table ≡ before.table
handle-table_example =
    handle-table engine account_delete 3 request before after (rid (bytes "0")) (tt, tt)
      (unfold handle in fields ∙ deletes)

abbrev idle : Player ℕ
idle = record { world = before; devices = [] }

abbrev playing : Player ℕ
playing = record {
  world = record { table = held (fresh_node root 100) ∷ []; database = 0 };
  devices = record { device_uuid = bytes "x"; refcount = 1 } ∷ [];
}

plays : play_uuid engine start 3 idle (some (bytes "x")) ≡ ok (rid (bytes "1"), playing)
unfolding play_uuid play_as play_of play_if admin_uuid one_or_none start ref_work device_count
    counted sql_devices columns fetch rows_of sprintf quoted bytes starts_with ref session_at
    fresh_node held Pref.get Pref.init Pref.count decimal digits rid sql_license
plays = refl

play_logout-Waits_example :
    (t : List Node) × (req_account_logout 3 playing.world.table ≡ ok (Session.Reply.accepted, t))
    × Waits (check_all false t)
play_logout-Waits_example =
    play_logout-Waits engine start 3 (some (item (bytes "uuid") (bytes "x") ∷ [])) idle playing
      (rid (bytes "1")) (fresh_node root 100)
      (unfold play arg get find until_nul bytes starts_with in plays) (unfold fresh_node in refl)
      (tt, tt) (unfold need_delete fresh_node in refl, tt)
