-- ===== src/Service/Device.antt =====
-- service_device.c: the devices that work, with their numbers of users. Texts are lists of bytes
-- with no 0. The database is the record of the two queries that `session_device_touch` makes.
pub mod Counts
pub mod Names
pub mod Touch
mod Tests
use livezure.Prelude.{
  ℕ, zero, suc, ◌==◌, ltb, if◌then◌else◌, List, [], ◌∷◌, length, take, Option, none, some, Run, ok,
  fault, ◌>>=◌, ◌>>◌, guard, failed_assert, text_eq, Bool, false, ◌||◌,
}
use livezure.Common.Pref

-- `device_list_t`, and the count of its `pref_t`.
pub record Device : Type 0 where
  pub device_uuid : List ℕ
  pub refcount : ℕ

-- `sizeof(tmp->device_uuid) - 1`
abbrev pub uuid_size : ℕ
uuid_size = 38

-- `session_device_ref_work`: what it returns, and the list. A device that does not work yet is put
-- last, its name cut by `strncpy`.
unfoldable pub ref_work : List ℕ → List Device → ℕ × List Device
ref_work uuid [] =
    (1, record { device_uuid = take uuid_size uuid; refcount = Pref.get Pref.init } ∷ [])
ref_work uuid (d ∷ rest) =
    let (r, rest') = ref_work uuid rest in
    if text_eq d.device_uuid uuid
    then (Pref.count (Pref.get d.refcount), record d { refcount = Pref.get d.refcount } ∷ rest)
    else (r, d ∷ rest')

-- The device is removed with its last user.
pub drop_unused : Device → List Device → ℕ → ℕ × List Device
drop_unused d rest zero = (0, rest)
drop_unused d rest (suc n) = (suc n, record d { refcount = suc n } ∷ rest)

-- `session_device_dref`
pub dref : List ℕ → List Device → Run (ℕ × List Device)
dref uuid [] = fault failed_assert
dref uuid (d ∷ rest) =
    let later = dref uuid rest >>= λ (r, rest'). ok (r, d ∷ rest') in
    if text_eq d.device_uuid uuid
    then (Pref.put d.refcount >>= λ c_ref. ok (drop_unused d rest c_ref))
    else later

pub working : List ℕ → List Device → Option ℕ
working uuid [] = none
working uuid (d ∷ rest) =
    if text_eq d.device_uuid uuid then some (Pref.count d.refcount) else working uuid rest

-- `db_account_list_admin_get(NULL, ...)` and `db_account_device_get(uuid, NULL, ...)`: the names of
-- all admins, and of the devices of an admin; none where the query fails.
pub record Database : Type 0 where
  pub list_admin_get : Option (List (List ℕ))
  pub device_get : List ℕ → Option (List (List ℕ))

-- The rounds of the loop over the devices of an admin: each looks at the first device.
scan : List ℕ → List ℕ → List (List ℕ) → Bool
scan uuid first [] = false
scan uuid first (_ ∷ rounds) = text_eq first uuid || scan uuid first rounds

pub found_in : List ℕ → List (List ℕ) → Bool
found_in uuid [] = false
found_in uuid (first ∷ devices) = scan uuid first (first ∷ devices)

-- A round of the loop over the admins, `later` being the rounds that follow.
pub search_admin : List ℕ → Option (List (List ℕ)) → Run ℕ → Run ℕ
search_admin uuid none later = fault failed_assert
search_admin uuid (some devices) later = if found_in uuid devices then ok 0 else later

-- The loop over the admins, and the assertion behind it.
pub search_admins : Database → List ℕ → List (List ℕ) → Run ℕ
search_admins db uuid [] = fault failed_assert
search_admins db uuid (admin ∷ admins) =
    search_admin uuid (db.device_get admin) (search_admins db uuid admins)

pub search : Database → List ℕ → Option (List (List ℕ)) → Run ℕ
search db uuid none = fault failed_assert
search db uuid (some admins) =
    guard (ltb 1 (length admins)) failed_assert >> search_admins db uuid admins

pub status : Database → List ℕ → Option ℕ → Run ℕ
status db uuid none = search db uuid db.list_admin_get
status db uuid (some refcount) = ok refcount

-- `session_device_touch`, which leaves its `status` zero.
pub touch : Database → List ℕ → List Device → Run ℕ
touch db uuid table = status db uuid (working uuid table)

pub count : List Device → ℕ
count table = length table
