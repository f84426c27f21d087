-- ===== src/Client/Devices.antt =====
-- media_api_device.c but for the list of devices: one is added, one is deleted. `guid_generate` is a
-- parameter; it gives 38 characters.
use livezure.Prelude.{
  ℕ, ◌==◌, if◌then◌else◌, int_ltb, Bool, true, false, not, ◌&&◌, ◌||◌, List, [], ◌∷◌, ◌++◌, Option,
  none, some, Run, ok, fault, failed_assert, ◌>>=◌, Text, bytes, decimal,
}
use livezure.Rpc.Parser.{Item}
use livezure.Rpc.Parser.Stream.{Pair}
use livezure.Service.Database.Devices.{Device}
use livezure.Service.Handlers.{pair}
use livezure.Rpc.Parser.Pack.{pack}
use livezure.Client.{
  Status, mc_ok, syntax_error, internal_error, no_permission, session_expired, uuid_exist,
  uuid_not_exist, workfolder_exist, server_not_response, Session, Link, minus, switch, check_rid,
  request, request_status,
}

abbrev pub add_cases : List (ℕ × Status)
add_cases =
    (0, mc_ok)
    ∷ (minus 1, no_permission)
    ∷ (minus 2, uuid_exist)
    ∷ (minus 3, workfolder_exist)
    ∷ (minus 300, session_expired)
    ∷ []

abbrev pub del_cases : List (ℕ × Status)
del_cases =
    (0, mc_ok)
    ∷ (minus 1, no_permission)
    ∷ (minus 2, uuid_not_exist)
    ∷ (minus 300, session_expired)
    ∷ []

unfoldable pub is_empty : Text → Bool
is_empty [] = true
is_empty (c ∷ text) = false

-- What `mc_device_add` asks of a device.
unfoldable pub complete : Device → Bool
unfolding is_empty
complete device =
    not (is_empty device.plugin_name)
    && not (is_empty device.ip)
    && int_ltb 0 device.port
    && not (is_empty device.user)
    && not (is_empty device.pwd)
    && not (int_ltb device.channel 0)
    && not (is_empty device.seg_folder)
    && not (int_ltb device.seg_in_count 0)
    && not (int_ltb device.seg_per_sec 0)
    && (device.is_top_level || not (is_empty device.ref_parent_uuid))

-- A pair for a text that is not empty.
unfoldable pub unless_empty : Text → Text → List Pair
unless_empty key [] = []
unless_empty key (c ∷ text) = pair key (c ∷ text) ∷ []

unfoldable pub parent_pairs : Device → List Pair
parent_pairs device =
    if device.is_top_level
    then pair (bytes "is_top_level") (bytes "1") ∷ []
    else pair (bytes "is_top_level") (bytes "0")
      ∷ pair (bytes "ref_parent_uuid") device.ref_parent_uuid
      ∷ []

-- The pairs of the request, in their order.
unfoldable pub device_request : Text → Device → List Pair
unfolding unless_empty parent_pairs
device_request guid device =
    pair (bytes "uuid") guid
      ∷ pair (bytes "plugin_name") device.plugin_name
      ∷ pair (bytes "ip") device.ip
      ∷ pair (bytes "port") (decimal device.port)
      ∷ pair (bytes "user") device.user
      ∷ pair (bytes "pwd") device.pwd
      ∷ pair (bytes "channel") (decimal device.channel)
      ∷ pair (bytes "seg_folder") device.seg_folder
      ∷ pair (bytes "seg_in_count") (decimal device.seg_in_count)
      ∷ pair (bytes "seg_per_sec") (decimal device.seg_per_sec)
      ∷ unless_empty (bytes "nickname") device.nickname
    ++ (unless_empty (bytes "comment") device.comment ++ parent_pairs device)

-- `*uuid` where the service has added the device.
unfoldable pub read_added : Text → Option (List Item) → Run (Status × Text)
read_added guid none = ok (server_not_response, [])
read_added guid (some req) = do
  rid ← check_rid req (bytes "rid")
  ok (switch rid add_cases internal_error, if rid == 0 then guid else [])

module _ (malloc : ℕ → List ℕ) {S : Type 0} (link : Link S) where
  unfoldable pub mc_device_add : Text → Option Session → Option Device → S → Run (Status × Text × S)
  mc_device_add guid (some session) (some device) s =
      let add = (do
        input ← pack malloc none (device_request guid device)
        request link 3 0 input (read_added guid) s) in
      if complete device then add else fault failed_assert
  mc_device_add guid _ _ s = fault failed_assert

  unfoldable pub mc_device_del : Option Session → Option Text → S → Run (Status × S)
  mc_device_del (some session) (some (c ∷ uuid)) s = do
    input ← pack malloc none (pair (bytes "uuid") (c ∷ uuid) ∷ [])
    request_status link 3 2 input del_cases internal_error s
  mc_device_del _ _ s = ok (syntax_error, s)
