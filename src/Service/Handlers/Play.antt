-- ===== src/Service/Handlers/Play.antt =====
-- service_req_play.c: the handlers that start, stop and look at a device. They take a reference to
-- the session, and do not give it back.
use livezure.Prelude.{
  ℕ, ◌==◌, Bool, true, false, not, if◌then◌else◌, List, [], ◌∷◌, ◌++◌, length, Option, none, some,
  Run, ok, fault, ◌>>=◌, ◌>>◌, guard, failed_assert, Text, bytes, decimal, int_ltb,
}
use livezure.Service.Session.{Session, ref, session_at}
use livezure.Service.Device
use livezure.Service.Device.{Device, ref_work, dref, touch}
use livezure.Service.Database.{Provider}
use livezure.Service.Database.Devices.{device_count}
use livezure.Service.Handlers.{Request, arg, Reply, pair, rid, World}

-- The sessions and the database, and the devices that work.
pub record Player (D : Type 0) : Type 0 where
  pub world : World D
  pub devices : List Device

-- `session->is_admin ? session->basic.uuid : session->ref_admin_uuid`
unfoldable pub admin_uuid : Session → Text
admin_uuid session = if session.is_admin then session.basic.uuid else session.ref_admin_uuid

-- What a handler does with the device, once it is known to belong to the admin.
abbrev pub Action : Type 0
Action = Text → List Device → Run (Reply × List Device)

-- `assert(!r || (r && count == 1))`
unfoldable pub one_or_none : Option ℕ → Run Bool
one_or_none none = ok false
one_or_none (some count) = guard (count == 1) failed_assert >> ok true

module _ {D : Type 0} (db : Provider D) (action : Action) where
  unfoldable pub play_if : Text → Player D → Bool → Run (Reply × Player D)
  play_if uuid p false = ok (rid (bytes "-1"), p)
  play_if uuid p true =
      action uuid p.devices >>= λ (reply, devices). ok (reply, record p { devices = devices })

  unfoldable pub play_of : Text → Player D → Session → Run (Reply × Player D)
  play_of uuid p session = do
    guard (not (length (admin_uuid session) == 0)) failed_assert
    count ← device_count db p.world.database (admin_uuid session) (some uuid)
    found ← one_or_none count
    play_if uuid p found

  unfoldable pub play_as : Text → Player D → Option ℕ → Run (Reply × Player D)
  play_as uuid p none = ok (rid (bytes "-300"), p)
  play_as uuid p (some a) = session_at a p.world.table >>= play_of uuid p

  unfoldable pub play_uuid : ℕ → Player D → Option Text → Run (Reply × Player D)
  play_uuid fd p none = fault failed_assert
  play_uuid fd p (some uuid) =
      let (r, table) = ref fd p.world.table in
      play_as uuid (record p { world = record p.world { table = table } }) r

  -- What the three handlers have in common.
  unfoldable pub play : ℕ → Request → Player D → Run (Reply × Player D)
  play fd req p = play_uuid fd p (arg req (bytes "uuid"))

-- The test `r < 0` is on the result of the query, and never holds.
unfoldable pub start : Action
start uuid devices =
    let (work_r, devices') = ref_work uuid devices in ok (rid (decimal work_r), devices')

-- The reply is `r - 1` for the result of the query, in place of the number of users.
unfoldable pub stop : Action
stop uuid devices = do (work_r, devices') ← dref uuid devices; ok (rid (decimal 0), devices')

-- `status` stays zero.
unfoldable pub touched : ℕ → Reply
touched work_r =
    let status = pair (bytes "path") [] ∷ pair (bytes "elapsed") (decimal 0) ∷ [] in
    rid (decimal work_r) ++ (if int_ltb 0 work_r then status else [])

unfoldable pub look : Device.Database → Action
look queries uuid devices = do work_r ← touch queries uuid devices; ok (touched work_r, devices)

unfoldable pub req_play_device :
    {D : Type 0} → Provider D → ℕ → Request → Player D → Run (Reply × Player D)
req_play_device db = play db start

unfoldable pub req_play_stop :
    {D : Type 0} → Provider D → ℕ → Request → Player D → Run (Reply × Player D)
req_play_stop db = play db stop

-- The queries are those of `session_device_touch`.
unfoldable pub req_play_touch :
    {D : Type 0} → Provider D → Device.Database → ℕ → Request → Player D → Run (Reply × Player D)
req_play_touch db queries = play db (look queries)
