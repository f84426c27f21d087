-- ===== src/Service/Database/Devices.antt =====
-- db_account.c: the devices of the admins.
use livezure.Prelude.{
  ℕ, ◌==◌, Bool, true, false, not, if◌then◌else◌, List, [], ◌∷◌, ◌++◌, take, Option, none, some,
  Run, ok, fault, ◌>>=◌, out_of_range, Text, bytes, decimal, atoi,
}
use livezure.Service.Database.{Provider, exists_row, fetch, run, must, quoted, each}
use livezure.Service.Database.Users.{User, admin, check_user_exist}
use livezure.Service.Database.Accounts.{counted}

-- `db_account_device_t`, with the fields of its `basic`; a number is its bit pattern.
pub record Device : Type 0 where
  pub uuid : Text
  pub plugin_name : Text
  pub ip : Text
  pub port : ℕ
  pub user : Text
  pub pwd : Text
  pub channel : ℕ
  pub seg_folder : Text
  pub seg_in_count : ℕ
  pub seg_per_sec : ℕ
  pub created_time : Text
  pub nickname : Text
  pub comment : Text
  pub is_top_level : Bool
  pub ref_parent_uuid : Text

-- The last columns of a row, behind the basic part.
tail_of : Device → List Text → Run Device
tail_of device (created ∷ nickname ∷ comment ∷ top ∷ parent ∷ _) = do
  is_top_level ← atoi top
  ok (record device {
    created_time = take 63 created;
    nickname = take 64 nickname;
    comment = take 256 comment;
    is_top_level = not (is_top_level == 0);
    ref_parent_uuid = take 16 parent;
  })
tail_of device _ = fault out_of_range

unfoldable pub device_of : List Text → Run Device
unfolding tail_of
device_of (uuid ∷ plugin ∷ ip ∷ port ∷ user ∷ pwd ∷ channel ∷ folder ∷ count ∷ sec ∷ rest) = do
  port' ← atoi port
  channel' ← atoi channel
  seg_in_count ← atoi count
  seg_per_sec ← atoi sec
  tail_of
      (record {
        uuid = take 38 uuid;
        plugin_name = take 16 plugin;
        ip = take 16 ip;
        port = port';
        user = take 32 user;
        pwd = take 32 pwd;
        channel = channel';
        seg_folder = take 32 folder;
        seg_in_count = seg_in_count;
        seg_per_sec = seg_per_sec;
        created_time = [];
        nickname = [];
        comment = [];
        is_top_level = false;
        ref_parent_uuid = [];
      })
      rest
device_of _ = fault out_of_range

unfoldable pub devices_of : Option (List (List Text)) → Run (Option (List Device))
devices_of none = ok none
devices_of (some []) = ok none
devices_of (some (r ∷ rows)) = each device_of (r ∷ rows) >>= λ devices. ok (some devices)

-- `%s` and `%d` in a list of values, a comma behind each.
text_and : Text → Text → Text
text_and value rest = quoted value ++ (bytes "," ++ rest)

number_and : ℕ → Text → Text
number_and value rest = decimal value ++ (bytes "," ++ rest)

unfoldable pub sql_device_add : Device → Text
unfolding text_and number_and
sql_device_add device =
    bytes
      "INSERT INTO t_device_basic (uuid,plugin_name,ip,port,user,pwd,channel,seg_folder,seg_in_count,seg_per_sec) VALUES ("
    ++ text_and device.uuid (
        text_and device.plugin_name (
          text_and device.ip (
            number_and device.port (
              text_and device.user (
                text_and device.pwd (
                  number_and device.channel (
                    text_and device.seg_folder (
                      number_and device.seg_in_count
                        (decimal device.seg_per_sec ++ bytes ")")))))))))

unfoldable pub sql_device_ref : Text → Device → Text
unfolding text_and number_and
sql_device_ref ref_admin_uuid device =
    bytes
      "INSERT INTO t_account_device (uuid,ref_admin_uuid,nickname,comment,is_top_level,ref_parent_uuid) VALUES ("
    ++ text_and device.uuid (
        text_and ref_admin_uuid (
          text_and device.nickname (
            text_and device.comment (
              number_and (if device.is_top_level then 1 else 0)
                (quoted device.ref_parent_uuid ++ bytes ")")))))

-- Which rows of t_account_device the two statements of `db_account_device_del` are about.
device_rows : Text → Option Text → Text
device_rows ref_admin_uuid none = bytes " WHERE ref_admin_uuid=" ++ quoted ref_admin_uuid
device_rows ref_admin_uuid (some uuid) =
    bytes " WHERE uuid=" ++ (quoted uuid ++ (bytes " AND ref_admin_uuid=" ++ quoted ref_admin_uuid))

unfoldable pub sql_device_basic_del : Text → Option Text → Text
unfolding device_rows
sql_device_basic_del ref_admin_uuid specified_uuid =
    bytes "DELETE FROM t_device_basic WHERE uuid IN (SELECT uuid FROM t_account_device"
    ++ (device_rows ref_admin_uuid specified_uuid ++ bytes ")")

unfoldable pub sql_device_ref_del : Text → Option Text → Text
unfolding device_rows
sql_device_ref_del ref_admin_uuid specified_uuid =
    bytes "DELETE FROM t_account_device" ++ device_rows ref_admin_uuid specified_uuid

unfoldable pub sql_device_exist : Text → Text → ℕ → ℕ → Text
sql_device_exist ref_admin_uuid ip port channel =
    bytes "SELECT * FROM t_device_basic WHERE ip="
    ++ (quoted ip
        ++ (bytes " AND port="
            ++ (decimal port
                ++ (bytes " AND channel="
                    ++ (decimal channel
                        ++ (bytes
                              " AND uuid IN (SELECT uuid FROM t_account_device WHERE ref_admin_uuid="
                            ++ (quoted ref_admin_uuid ++ bytes ")")))))))

unfoldable pub sql_workpath : Text → Text
sql_workpath workpath = bytes "SELECT * FROM t_device_basic WHERE seg_folder=" ++ quoted workpath

-- The columns of `db_account_device_get`, which reads them by their places.
unfoldable pub columns : Text
columns =
    bytes
      "SELECT t_device_basic.uuid,t_device_basic.plugin_name,t_device_basic.ip,t_device_basic.port,"
    ++ (bytes
          "t_device_basic.user,t_device_basic.pwd,t_device_basic.channel,t_device_basic.seg_folder,"
        ++ (bytes
              "t_device_basic.seg_in_count,t_device_basic.seg_per_sec,t_device_basic.create_time,"
            ++ (bytes
                  "t_account_device.nickname,t_account_device.comment,t_account_device.is_top_level,"
                ++ (bytes
                      "t_account_device.ref_parent_uuid FROM t_device_basic JOIN t_account_device"
                    ++ bytes " ON t_account_device.uuid==t_device_basic.uuid"))))

unfoldable pub sql_devices : Text → Option Text → Text
sql_devices ref_admin_uuid none =
    columns ++ (bytes " WHERE t_account_device.ref_admin_uuid=" ++ quoted ref_admin_uuid)
sql_devices ref_admin_uuid (some uuid) =
    columns
    ++ (bytes " WHERE t_account_device.ref_admin_uuid="
        ++ (quoted ref_admin_uuid ++ (bytes " AND t_account_device.uuid=" ++ quoted uuid)))

unfoldable pub is_admin_user : Option User → Bool
is_admin_user none = false
is_admin_user (some user) = user.is_admin

module _ {D : Type 0} (db : Provider D) where
  unfoldable pub device_check_exist : D → Text → Text → ℕ → ℕ → Run Bool
  device_check_exist d ref_admin_uuid ip port channel =
      exists_row db d (sql_device_exist ref_admin_uuid ip port channel)

  unfoldable pub device_workpath_valid : D → Text → Run Bool
  device_workpath_valid d workpath = exists_row db d (sql_workpath workpath)

  -- `db_account_device_get`, whose buffer has 1024 bytes, for the devices and for their number.
  unfoldable pub device_get : D → Text → Option Text → Run (Option (List Device))
  device_get d ref_admin_uuid specified_uuid =
      fetch db 1024 d (sql_devices ref_admin_uuid specified_uuid) >>= devices_of

  unfoldable pub device_count : D → Text → Option Text → Run (Option ℕ)
  device_count d ref_admin_uuid specified_uuid =
      fetch db 1024 d (sql_devices ref_admin_uuid specified_uuid) >>= λ rows. ok (counted rows)

  unfoldable pub insert_device : D → Text → Device → Run (Bool × D)
  insert_device d ref_admin_uuid device = do
    (r, d') ← run db d (sql_device_add device)
    let second = must db d' (sql_device_ref ref_admin_uuid device) >>= λ d''. ok (true, d'')
    if r then second else ok (false, d')

  unfoldable pub add_to : D → Text → Device → Bool → Run (Bool × D)
  add_to d ref_admin_uuid device false = ok (false, d)
  add_to d ref_admin_uuid device true = do
    exist ← device_check_exist d ref_admin_uuid device.ip device.port device.port
    let insert = insert_device d ref_admin_uuid device
    if exist then ok (false, d) else insert

  -- `db_account_device_add`
  unfoldable pub device_add : D → Text → Device → Run (Bool × D)
  device_add d ref_admin_uuid device = do
    user ← check_user_exist db d ref_admin_uuid admin
    add_to d ref_admin_uuid device (is_admin_user user)

  -- `db_account_device_del`: it returns true, or an assertion fails.
  unfoldable pub device_del : D → Text → Option Text → Run D
  device_del d ref_admin_uuid specified_uuid = do
    d' ← must db d (sql_device_basic_del ref_admin_uuid specified_uuid)
    must db d' (sql_device_ref_del ref_admin_uuid specified_uuid)
