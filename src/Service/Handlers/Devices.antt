-- ===== src/Service/Handlers/Devices.antt =====
-- service_req_device.c: the handlers that create and delete a device. Both give the reference to
-- the session back before they read its name.
use livezure.Prelude.{
  ℕ, ◌==◌, Bool, true, false, not, if◌then◌else◌, [], take, Option, none, some, Run, ok, fault,
  ◌>>=◌, failed_assert, Text, bytes, atoi,
}
use livezure.Service.Session.{Session, ref, session_at}
use livezure.Service.Database.{Provider}
use livezure.Service.Database.Users.{User, admin, check_user_exist}
use livezure.Service.Database.Devices.{
  Device, device_check_exist, device_workpath_valid, device_count, device_add, device_del,
}
use livezure.Service.Handlers.{Request, arg, Reply, rid, World, leave, release, or_empty}
use livezure.Service.Handlers.Account.{admin_of}

-- What a handler does once its session is known to be an admin's: the name of the admin, and the
-- database.
abbrev pub Action : Type 0 → Type 0
Action D = Text → D → Run (Reply × D)

module _ {D : Type 0} (db : Provider D) (action : Action D) where
  unfoldable pub act : Text → World D → Run (Reply × World D)
  act uuid w = action uuid w.database >>= λ (reply, d). ok (reply, record w { database = d })

  unfoldable pub if_admin : ℕ → World D → Session → Option User → Run (Reply × World D)
  if_admin a w session user =
      let go = release a w >>= act session.basic.uuid in
      if not (admin_of user) then leave a (rid (bytes "-1")) w else go

  unfoldable pub for_session : ℕ → World D → Session → Run (Reply × World D)
  for_session a w session =
      check_user_exist db w.database session.basic.uuid admin >>= if_admin a w session

  unfoldable pub admin_as : World D → Option ℕ → Run (Reply × World D)
  admin_as w none = ok (rid (bytes "-300"), w)
  admin_as w (some a) = session_at a w.table >>= for_session a w

  unfoldable pub as_admin : ℕ → World D → Run (Reply × World D)
  as_admin fd w = let (r, table) = ref fd w.table in admin_as (record w { table = table }) r

-- `req_device_basic_copy` and `req_device_basic_set`: a field that the request must have.
unfoldable pub need : Option Text → Run Text
need none = fault failed_assert
need (some text) = ok text

unfoldable pub need_number : Option Text → Run ℕ
need_number field = need field >>= atoi

-- The fields that are read before the first query.
unfoldable pub where_is : Request → Run Device
where_is req = do
  uuid ← need (arg req (bytes "uuid"))
  plugin_name ← need (arg req (bytes "plugin_name"))
  ip ← need (arg req (bytes "ip"))
  port ← need_number (arg req (bytes "port"))
  user ← need (arg req (bytes "user"))
  pwd ← need (arg req (bytes "pwd"))
  channel ← need_number (arg req (bytes "channel"))
  ok (record {
    uuid = take 38 uuid;
    plugin_name = take 16 plugin_name;
    ip = take 16 ip;
    port = port;
    user = take 32 user;
    pwd = take 32 pwd;
    channel = channel;
    seg_folder = [];
    seg_in_count = 0;
    seg_per_sec = 0;
    created_time = [];
    nickname = [];
    comment = [];
    is_top_level = false;
    ref_parent_uuid = [];
  })

unfoldable pub segments : Request → Device → Run Device
segments req device = do
  seg_folder ← need (arg req (bytes "seg_folder"))
  seg_in_count ← need_number (arg req (bytes "seg_in_count"))
  seg_per_sec ← need_number (arg req (bytes "seg_per_sec"))
  ok (record device {
    seg_folder = take 32 seg_folder;
    seg_in_count = seg_in_count;
    seg_per_sec = seg_per_sec;
  })

parent : Request → Device → Run Device
parent req device = do
  uuid ← need (arg req (bytes "ref_parent_uuid"))
  ok (record device { ref_parent_uuid = take 16 uuid })

unfoldable pub described : Request → Device → Run Device
unfolding parent
described req device = do
  top ← need_number (arg req (bytes "is_top_level"))
  let named = record device {
    nickname = take 64 (or_empty (arg req (bytes "nickname")));
    comment = take 256 (or_empty (arg req (bytes "comment")));
    is_top_level = not (top == 0);
  }
  if not (top == 0) then ok named else parent req named

-- `assert(0)` where the database fails.
unfoldable pub added : {D : Type 0} → Bool × D → Run (Reply × D)
added (false, d) = fault failed_assert
added (true, d) = ok (rid (bytes "0"), d)

unfoldable pub known : Option ℕ → Bool
known none = false
known (some count) = true

module _ {D : Type 0} (db : Provider D) where
  unfoldable pub add_unless : Request → Text → D → Device → Bool → Run (Reply × D)
  add_unless req cur_uuid d device true = ok (rid (bytes "-3"), d)
  add_unless req cur_uuid d device false = do
    described' ← described req device
    result ← device_add db d cur_uuid described'
    added result

  unfoldable pub add_new : Request → Text → D → Device → Bool → Run (Reply × D)
  add_new req cur_uuid d device true = ok (rid (bytes "-2"), d)
  add_new req cur_uuid d device false = do
    segmented ← segments req device
    used ← device_workpath_valid db d segmented.seg_folder
    add_unless req cur_uuid d segmented used

  unfoldable pub add_at : Request → Text → D → Device → Bool → Run (Reply × D)
  add_at req cur_uuid d device true = ok (rid (bytes "-2"), d)
  add_at req cur_uuid d device false = do
    count ← device_count db d cur_uuid (some device.uuid)
    add_new req cur_uuid d device (known count)

  unfoldable pub create : Request → Action D
  create req cur_uuid d = do
    device ← where_is req
    exist ← device_check_exist db d cur_uuid device.ip device.port device.channel
    add_at req cur_uuid d device exist

  unfoldable pub req_device_create : ℕ → Request → World D → Run (Reply × World D)
  req_device_create fd req w = as_admin db (create req) fd w

  unfoldable pub delete_if : Text → Text → D → Bool → Run (Reply × D)
  delete_if cur_uuid del_uuid d false = ok (rid (bytes "-2"), d)
  delete_if cur_uuid del_uuid d true =
      device_del db d cur_uuid (some del_uuid) >>= λ d'. ok (rid (bytes "0"), d')

  unfoldable pub delete : Text → Action D
  delete del_uuid cur_uuid d = do
    count ← device_count db d cur_uuid (some del_uuid)
    delete_if cur_uuid del_uuid d (known count)

  unfoldable pub delete_uuid : ℕ → World D → Option Text → Run (Reply × World D)
  delete_uuid fd w none = fault failed_assert
  delete_uuid fd w (some del_uuid) = as_admin db (delete del_uuid) fd w

  unfoldable pub req_device_delete : ℕ → Request → World D → Run (Reply × World D)
  req_device_delete fd req w = delete_uuid fd w (arg req (bytes "uuid"))
