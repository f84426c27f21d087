-- ===== src/Client/Tests.antt =====
-- Calls of the client: to the handlers over a database that counts its statements, and to links
-- that answer at once.
use livezure.Prelude.{
  Run, ℕ, ◌≡◌, refl, true, false, List, [], ◌∷◌, Option, none, some, ok, arith, bytes, starts_with,
  text_eq, sprintf, tolower, decimal, digits, zeros, length-zeros,
}
use livezure.Rpc.Buffer.{Buffer}
use livezure.Rpc.Parser.Stream.{Pair, body, size}
use livezure.Rpc.Parser.RoundTrip.{items}
use livezure.Rpc.Parser.Pack.{pack, all_fit, AllTexts, pack_lem}
use livezure.Common.Timer.{create}
use livezure.Service.Session.{Basic}
use livezure.Service.Database.{exists_row, run, must, fetch, rows_of, is_row, quoted, to_lower}
use livezure.Service.Database.Users.{
  is_user, check_user_exist, sql_license, sql_basic, sql_child, license_get, license_of, user_of,
  found_user, no_user_data, parent_of, copied_name,
}
use livezure.Service.Handlers.{Request, World, Reply, pair, rid, valid_name, valid_optional}
use livezure.Service.Handlers.Args.{arg-items, unless_empty}
use livezure.Service.Handlers.Account.{
  req_account_delete, delete_fields, create_fields, create_account, create_if,
}
use livezure.Service.Handlers.Lists.{listing}
use livezure.Service.Handlers.Platform.{login_reply}
use livezure.Service.Handlers.Tests.{engine, before, after, deletes}
use livezure.Client.{mc_ok, internal_error, Session, Link}
use livezure.Client.Account.{
  create_cases, delete_cases, create_pairs, heartbeat_clock, mc_account_create, mc_account_delete,
  mc_account_login,
}
use livezure.Client.Lists.{nulls, mc_account_list}
use livezure.Client.Service.{serve}
use livezure.Client.Transparent.{answered_by, mc_account_delete-served, mc_account_create-served}
use livezure.Rpc.Crypt.Tests.{shifts}
use livezure.Rpc.Queue
use livezure.Rpc.Io.{Io}
use livezure.Rpc.Process.{processor}
use livezure.Rpc.Shell.{Shell, magic_number, version_sign}
use livezure.Rpc.Shell.Header.{IsHeader}
use livezure.Rpc.Shell.Tests.{fields, eight, aes_request, idle}
use livezure.Client.Wire.{Arrives, reply_shell, dispatched_by, exchange}
use livezure.Client.Nulls.{mc_account_list-nulls}
use livezure.Client.Welcome.{login_pairs, mc_account_login-welcome}

abbrev admin_session : Session
admin_session = record {
  uuid = bytes "r";
  b_is_admin = true;
  ref_admin_uuid = [];
  auto_heartbeat = 9;
}

mc_account_delete-served_example :
    mc_account_delete zeros
      (serve zeros 3 engine 3)
      (some admin_session)
      (some (bytes "p"))
      (some (bytes "x"))
      before
    ≡ answered_by delete_cases internal_error (bytes "0") after
unfolding bytes size body all_fit delete_fields valid_name
mc_account_delete-served_example =
    mc_account_delete-served zeros length-zeros 3 (omega arith) engine 3 admin_session (bytes "p")
      (bytes "x") (bytes "0") before after refl
      (record { texts = omega arith; fits = refl; few = omega arith; short = omega arith })
      (omega arith) (omega arith)
      (record { text = omega arith; written = omega arith; brief = omega arith }) deletes

abbrev child : Basic
child = record {
  uuid = bytes "x";
  pwd = bytes "p";
  nickname = [];
  comment = bytes "c";
  created_time = [];
}

-- The account exists.
creates :
    create_fields engine 3 before
      (some child.uuid)
      (some child.pwd)
      (unless_empty child.nickname)
      (unless_empty child.comment)
    ≡ ok (rid (bytes "-2"), before)
unfolding create_fields create_account create_if valid_name valid_optional check_user_exist
    found_user user_of license_get license_of no_user_data parent_of copied_name is_user exists_row
    fetch run must is_row rows_of sprintf sql_license sql_basic sql_child quoted to_lower tolower
    bytes starts_with text_eq rid
creates = refl

mc_account_create-served_example :
    mc_account_create zeros (serve zeros 5 engine 3) (some admin_session) (some child) before
    ≡ answered_by create_cases internal_error (bytes "-2") before
unfolding bytes size body all_fit create_pairs valid_name valid_optional
mc_account_create-served_example =
    mc_account_create-served zeros length-zeros 5 (omega arith) engine 3 admin_session child
      (bytes "-2") before before refl
      (record { texts = omega arith; fits = refl; few = omega arith; short = omega arith })
      (omega arith) (omega arith)
      (record { text = omega arith; written = omega arith; brief = omega arith }) creates

-- A list of one entry.
abbrev entries : List Reply
entries = (pair (bytes "uuid") (bytes "x") ∷ pair (bytes "ip") (bytes "h") ∷ []) ∷ []

abbrev lists : Link ℕ
lists category sub_category input s = ok (some (items (listing entries) []), s)

listing_texts : AllTexts (listing entries)
unfolding listing rid bytes decimal digits
listing_texts = omega arith

mc_account_list-nulls_example :
    mc_account_list lists (some admin_session) 0 ≡ ok (mc_ok, some (nulls 1), 0)
mc_account_list-nulls_example =
    mc_account_list-nulls lists admin_session entries [] 0 0 listing_texts (omega arith)
      (omega arith) (unfold listing rid in omega arith) refl

abbrev welcomes : Link ℕ
welcomes category sub_category input s = ok (some (items (login_reply false (bytes "r")) []), s)

packed :
    (input : Option Buffer) × (pack zeros none (login_pairs (bytes "x") (bytes "p") 7) ≡ ok input)
unfolding bytes decimal digits all_fit size
packed =
    let made =
      pack_lem zeros length-zeros (pair (bytes "uuid") (bytes "x"))
        (pair (bytes "pwd") (bytes "p") ∷ pair (bytes "pid") (decimal 7) ∷ []) (omega arith) in
    (some made.0, made.1)

mc_account_login-welcome_example :
    mc_account_login zeros welcomes (some (bytes "x")) (some (bytes "p")) 7 4 9 [] 0
    ≡ ok (
      mc_ok,
      (
        some (record {
          uuid = bytes "x";
          b_is_admin = false;
          ref_admin_uuid = bytes "r";
          auto_heartbeat = 9;
        }),
        create heartbeat_clock 4 5000 false 9 [],
      ),
      0,
    )
mc_account_login-welcome_example =
    mc_account_login-welcome zeros welcomes false (bytes "x") (bytes "p") (bytes "r") 7 4 9 []
      packed.0 [] 0 0 (unfold bytes in omega arith) (unfold bytes in omega arith)
      (unfold bytes in omega arith) (unfold bytes in omega arith)
      (unfold decimal digits in omega arith) packed.1 refl

-- The header of a deletion, and a connection for the session of the admin.
abbrev delete_shell : Shell
delete_shell = record aes_request { category = 2; sub_category = 4; crypt = 0 }

abbrev check_pair : Pair
check_pair = pair (bytes "check_pwd") (bytes "p")

abbrev del_pair : Pair
del_pair = pair (bytes "del_uuid") (bytes "x")

abbrev service_io : Io
service_io = record idle { fd = 3 }

abbrev deleting : ℕ → ℕ → ℕ → Request → World ℕ → Run (Reply × World ℕ)
deleting category sub_category = req_account_delete engine

eight-IsHeader :
    (shell : Shell)
    → shell.magic ≡ magic_number
    → shell.version ≡ version_sign
    → IsHeader eight shell
unfolding fields
eight-IsHeader shell m v = record {
  positive = omega arith;
  length-encode = refl;
  decode-encode = refl;
  same_magic = m;
  same_version = v;
}

deleted :
    (rest : List ℕ)
    → req_account_delete engine 3 (some (items (check_pair ∷ del_pair ∷ []) rest)) before
      ≡ ok (rid (bytes "0"), after)
unfolding req_account_delete delete_fields bytes starts_with valid_name
deleted rest =
    let t : AllTexts (check_pair ∷ del_pair ∷ []) = omega arith in
    rw
      (
        arg-items (check_pair ∷ del_pair ∷ []) rest (bytes "check_pwd") t (omega arith),
        arg-items (check_pair ∷ del_pair ∷ []) rest (bytes "del_uuid") t (omega arith),
      )
      deletes

exchange_example :
    (there : Arrives zeros eight shifts 3 delete_shell (check_pair ∷ del_pair ∷ []) service_io)
    × (back : Arrives zeros eight shifts 3
        (reply_shell delete_shell (check_pair ∷ del_pair ∷ []))
        (rid (bytes "0"))
        idle)
    × (io' : Io) × (processor zeros eight shifts 3
          (dispatched_by zeros deleting)
          (record { fd = 3; shell = there.dispatches.pointer; input = some there.input })
          (before, there.dispatches.after)
          []
        ≡ ok (after, io', some 3 ∷ []))
    × (io'.send ≡ Queue.push service_io.send back.frame)
unfolding bytes size body all_fit rid
exchange_example =
    exchange zeros eight shifts 3 length-zeros deleting delete_shell check_pair
      (pair (bytes "rid") (bytes "0")) (del_pair ∷ []) [] service_io idle before after
      (record { texts = omega arith; fits = refl; few = omega arith; short = omega arith })
      (record { texts = omega arith; fits = refl; few = omega arith; short = omega arith }) refl
      refl (eight-IsHeader _ refl refl) (eight-IsHeader _ refl refl)
      (record { not_cached = refl; allocated = refl; empty = refl; room = omega arith })
      (record { not_cached = refl; allocated = refl; empty = refl; room = omega arith }) deleted
