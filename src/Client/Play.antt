-- ===== src/Client/Play.antt =====
-- media_api_play.c: a device is started, stopped and looked at.
use livezure.Prelude.{
  ℕ, if◌then◌else◌, int_ltb, [], ◌∷◌, take, List, Option, none, some, Run, ok, fault, failed_assert,
  ◌>>=◌, Text, bytes, atoi,
}
use livezure.Rpc.Parser.{Item}
use livezure.Service.Handlers.{arg, or_empty, pair}
use livezure.Rpc.Parser.Pack.{pack}
use livezure.Client.{Status, mc_ok, server_not_response, Session, Link, minus, check_rid, request}

-- `device_status_t`
pub record DeviceStatus : Type 0 where
  pub fullpath : Text
  pub elapsed : ℕ

abbrev pub no_status : DeviceStatus
no_status = record { fullpath = []; elapsed = 0 }

-- `*rid`, which is -5 where there is no answer.
unfoldable pub read_rid : Option (List Item) → Run (Status × ℕ)
read_rid none = ok (server_not_response, minus 5)
read_rid (some req) = do rid ← check_rid req (bytes "rid"); ok (mc_ok, rid)

unfoldable pub number_or_zero : Option Text → Run ℕ
number_or_zero none = atoi (bytes "0")
number_or_zero (some text) = atoi text

unfoldable pub status_of : List Item → Run DeviceStatus
status_of req = do
  elapse ← number_or_zero (arg (some req) (bytes "elapse"))
  ok (record { fullpath = take 259 (or_empty (arg (some req) (bytes "path"))); elapsed = elapse })

unfoldable pub read_status : Option (List Item) → Run (Status × (ℕ × DeviceStatus))
read_status none = ok (server_not_response, (minus 5, no_status))
read_status (some req) = do
  rid ← check_rid req (bytes "rid")
  device ← (if int_ltb 0 rid then status_of req else ok no_status)
  ok (mc_ok, (rid, device))

module _ (malloc : ℕ → List ℕ) {S : Type 0} (link : Link S) where
  -- What the three calls have in common.
  unfoldable pub play_call :
      {A : Type 0} → ℕ → (Option (List Item) → Run (Status × A)) → Text → S → Run (Status × A × S)
  play_call sub_category read uuid s = do
    input ← pack malloc none (pair (bytes "uuid") uuid ∷ [])
    request link 5 sub_category input read s

  unfoldable pub mc_play_device : Option Session → Option Text → S → Run (Status × ℕ × S)
  mc_play_device (some session) (some uuid) s = play_call 0 read_rid uuid s
  mc_play_device _ _ s = fault failed_assert

  unfoldable pub mc_play_stop : Option Session → Option Text → S → Run (Status × ℕ × S)
  mc_play_stop (some session) (some uuid) s = play_call 1 read_rid uuid s
  mc_play_stop _ _ s = fault failed_assert

  unfoldable pub mc_play_touch :
      Option Session → Option Text → S → Run (Status × (ℕ × DeviceStatus) × S)
  mc_play_touch (some session) (some uuid) s = play_call 2 read_status uuid s
  mc_play_touch _ _ s = fault failed_assert
