-- ===== src/Client/Lists.antt =====
-- The lists of accounts and of devices: `mc_account_list` of media_api_account.c and
-- `mc_device_list` of media_api_device.c. The array of pointers has as many places as the reply's
-- `count` says; a count below 0 leaves none.
use livezure.Prelude.{
  ℕ, zero, suc, ◌-◌, ◌^◌, ◌==◌, ltb, leb, if◌then◌else◌, false, not, ◌||◌, List, [], ◌∷◌, ◌++◌,
  length, take, Option, none, some, Run, ok, fault, ◌>>=◌, ◌>>◌, guard, failed_assert, out_of_range,
  Text, bytes, atoi, text_eq, int_ltb,
}
use mathlib.Core.List.{map}
use livezure.Rpc.Parser
use livezure.Rpc.Parser.{Item}
use livezure.Rpc.Parser.Stream.{until_nul}
use livezure.Service.Session as Online
use livezure.Service.Database.Devices.{Device}
use livezure.Service.Handlers.{or_empty}
use livezure.Client.{
  Status, mc_ok, syntax_error, internal_error, no_permission, session_expired, server_not_response,
  Session, Link, minus, switch, check_rid, request,
}

-- What a key sets, from the value behind the pointer, which is NULL where the value is empty.
abbrev pub Setter : Type 0 → Type 0
Setter X = Option Text → X → Run X

unfoldable pub given_text : Option Text → Run Text
given_text none = fault out_of_range
given_text (some text) = ok text

-- `strncpy` into a field of `size` bytes and one more.
unfoldable pub set_text : {X : Type 0} → ℕ → (Text → X → X) → Setter X
set_text size put value x = do text ← given_text value; ok (put (take size text) x)

unfoldable pub set_number : {X : Type 0} → (ℕ → X → X) → Setter X
set_number put value x = do text ← given_text value; n ← atoi text; ok (put n x)

-- The value of an item, as a text.
unfoldable pub item_value : Option (List ℕ) → Option Text
item_value none = none
item_value (some mem) = some (until_nul mem)

-- `sess[sess_index - 1]`
unfoldable pub update_last : {X : Type 0} → (X → Run X) → List X → Run (List X)
update_last f [] = fault out_of_range
update_last f (x ∷ []) = do x' ← f x; ok (x' ∷ [])
update_last f (x ∷ y ∷ rest) = do rest' ← update_last f (y ∷ rest); ok (x ∷ rest')

-- The places behind the entries stay NULL.
unfoldable pub nulls : {X : Type 0} → ℕ → List (Option X)
nulls zero = []
nulls (suc n) = none ∷ nulls n

unfoldable pub room : ℕ → ℕ
room count = if ltb count (2 ^ 31) then count else 0

abbrev pub list_cases : List (ℕ × Status)
list_cases =
    (minus 1, no_permission)
    ∷ (minus 255, syntax_error)
    ∷ (minus 300, session_expired)
    ∷ (minus 256, internal_error)
    ∷ []

module _ {X : Type 0} (zeroed : X) (uuid : Setter X) (fields : List (Text × Setter X)) where
  -- The first of the keys that is equal.
  unfoldable pub set_field : List (Text × Setter X) → Text → Option Text → List X → Run (List X)
  set_field [] key value entries = ok entries
  set_field ((name, set) ∷ rest) key value entries =
      if text_eq key name then update_last (set value) entries else set_field rest key value entries

  -- A round of the loop.
  unfoldable pub read_item : ℕ → Item → List X → Run (List X)
  read_item count item entries =
      let key = until_nul item.key in
      let value = item_value item.value in
      let new = (do
        guard (ltb (length entries) count) out_of_range
        x ← uuid value zeroed
        ok (entries ++ (x ∷ []))) in
      if text_eq key (bytes "rid") || text_eq key (bytes "count")
      then ok entries
      else (if text_eq key (bytes "uuid") then new else set_field fields key value entries)

  unfoldable pub read_items : ℕ → List Item → List X → Run (List X)
  read_items count [] entries = ok entries
  read_items count (item ∷ req) entries = read_item count item entries >>= read_items count req

  unfoldable pub read_entries : ℕ → List Item → Run (List (Option X))
  read_entries count req = do
    guard (ltb 2 (Parser.count req)) failed_assert
    entries ← read_items (room count) req []
    ok (map some entries ++ nulls (room count - length entries))

  -- The array, or NULL where there is none.
  unfoldable pub read_listed : List Item → Run (Status × Option (List (Option X)))
  read_listed req = do
    count ← check_rid req (bytes "count")
    let entries = (do entries ← read_entries count req; ok (some entries))
    array ← (if count == 0 then ok none else entries)
    ok (mc_ok, array)

  unfoldable pub read_list : Option (List Item) → Run (Status × Option (List (Option X)))
  read_list none = ok (server_not_response, none)
  read_list (some req) = do
    rid ← check_rid req (bytes "rid")
    if rid == 0 then read_listed req else ok (switch rid list_cases internal_error, none)

-- Entries of the list of accounts.
abbrev pub zeroed_account : Online.Session
zeroed_account = record {
  basic = record { uuid = []; pwd = []; nickname = []; comment = []; created_time = [] };
  ref_admin_uuid = [];
  is_admin = false;
  is_online = false;
  fd = 0;
  ip = [];
  port = 0;
  is_heartbeated = false;
}

abbrev pub basic_text : ℕ → (Text → Online.Basic → Online.Basic) → Setter Online.Session
basic_text size put = set_text size (λ text one. record one { basic = put text one.basic })

-- The name of the account, with that of the session for its admin.
abbrev pub account_uuid : Session → Setter Online.Session
account_uuid session = set_text 16 (λ text one. record one {
  basic = record one.basic { uuid = text };
  ref_admin_uuid = take 16 session.uuid;
  is_admin = false;
})

abbrev pub account_fields : List (Text × Setter Online.Session)
account_fields =
    (bytes "nickname", basic_text 64 (λ text basic. record basic { nickname = text }))
    ∷ (bytes "comment", basic_text 256 (λ text basic. record basic { comment = text }))
    ∷ (bytes "created_time", basic_text 64 (λ text basic. record basic { created_time = text }))
    ∷ (bytes "is_online", set_number (λ n one. record one { is_online = not (n == 0) }))
    ∷ (bytes "ip", set_text 16 (λ text one. record one { ip = text }))
    ∷ (bytes "port", set_number (λ n one. record one { port = n }))
    ∷ []

-- Entries of the list of devices.
abbrev pub zeroed_device : Device
zeroed_device = record {
  uuid = [];
  plugin_name = [];
  ip = [];
  port = 0;
  user = [];
  pwd = [];
  channel = 0;
  seg_folder = [];
  seg_in_count = 0;
  seg_per_sec = 0;
  created_time = [];
  nickname = [];
  comment = [];
  is_top_level = false;
  ref_parent_uuid = [];
}

-- `is_top_level, atoi(value)` reads the number and sets nothing; the parent alone may be empty.
abbrev pub device_fields : List (Text × Setter Device)
device_fields =
    (bytes "plugin_name", set_text 16 (λ text one. record one { plugin_name = text }))
    ∷ (bytes "ip", set_text 16 (λ text one. record one { ip = text }))
    ∷ (bytes "port", set_number (λ n one. record one { port = n }))
    ∷ (bytes "user", set_text 32 (λ text one. record one { user = text }))
    ∷ (bytes "pwd", set_text 32 (λ text one. record one { pwd = text }))
    ∷ (bytes "channel", set_number (λ n one. record one { channel = n }))
    ∷ (bytes "seg_folder", set_text 32 (λ text one. record one { seg_folder = text }))
    ∷ (bytes "seg_in_count", set_number (λ n one. record one { seg_in_count = n }))
    ∷ (bytes "seg_per_sec", set_number (λ n one. record one { seg_per_sec = n }))
    ∷ (bytes "created_time", set_text 63 (λ text one. record one { created_time = text }))
    ∷ (bytes "nickname", set_text 64 (λ text one. record one { nickname = text }))
    ∷ (bytes "comment", set_text 256 (λ text one. record one { comment = text }))
    ∷ (bytes "is_top_level", set_number (λ n one. one))
    ∷ (
      bytes "ref_parent_uuid",
      λ value one. ok (record one { ref_parent_uuid = take 16 (or_empty value) }),
    )
    ∷ []

module _ {S : Type 0} (link : Link S) where
  unfoldable pub mc_account_list :
      Option Session → S → Run (Status × Option (List (Option Online.Session)) × S)
  mc_account_list none s = ok (syntax_error, none, s)
  mc_account_list (some session) s =
      request link 2 5 none (read_list zeroed_account (account_uuid session) account_fields) s

  unfoldable pub mc_device_list :
      Option Session → S → Run (Status × Option (List (Option Device)) × S)
  mc_device_list none s = ok (syntax_error, none, s)
  mc_device_list (some session) s =
      request link 3 3 none
        (read_list zeroed_device (set_text 38 (λ text one. record one { uuid = text }))
          device_fields)
        s

-- `mc_account_list_free` and `mc_device_list_free`: nothing is freed where the first place is NULL.
unfoldable pub list_free : {X : Type 0} → Option (List (Option X)) → ℕ → Run Status
list_free none count = ok syntax_error
list_free (some []) count = fault out_of_range
list_free (some (none ∷ rest)) count = ok syntax_error
list_free (some (some x ∷ rest)) count =
    let free = guard (leb count (suc (length rest))) out_of_range >> ok mc_ok in
    if int_ltb 0 count then free else ok syntax_error
