-- ===== src/Service/Device/Touch.antt =====
-- `session_device_touch` and what it finds in the database.
use livezure.Prelude.{
  ℕ, ◌<◌, ◌≡◌, refl, Bool, false, ◌||◌, if◌then◌else◌, Bool-cases, inl, inr, List, [], ◌∷◌, length,
  Option, none, some, arith, ok, fault, failed_assert, text_eq,
}
use livezure.Service.Device.{
  Device, Database, working, scan, found_in, search_admin, search_admins, search, status, touch,
}

-- Whether the device is the first of these.
abbrev pub leads : List ℕ → Option (List (List ℕ)) → Bool
leads uuid (some (device ∷ _)) = text_eq device uuid
leads uuid _ = false

abbrev pub leads_any : Database → List ℕ → List (List ℕ) → Bool
leads_any db uuid [] = false
leads_any db uuid (admin ∷ admins) = leads uuid (db.device_get admin) || leads_any db uuid admins

-- The query for the devices of an admin succeeds.
abbrev pub Answers : Database → List (List ℕ) → Type 0
Answers db [] = Unit
Answers db (admin ∷ admins) =
    ((devices : List (List ℕ)) × (db.device_get admin ≡ some devices)) × Answers db admins

scan_lem :
    (uuid first : List ℕ) (rounds : List (List ℕ))
    → text_eq first uuid ≡ false
    → scan uuid first rounds ≡ false
unfolding scan
scan_lem uuid first [] h = refl
scan_lem uuid first (x ∷ rounds) h = rw (h, scan_lem uuid first rounds h) refl

found_in-leads :
    (uuid : List ℕ) (devices : List (List ℕ)) → found_in uuid devices ≡ leads uuid (some devices)
unfolding found_in scan
found_in-leads uuid [] = refl
found_in-leads uuid (first ∷ devices) = elim (Bool-cases (text_eq first uuid)) [
  | inl e ↦ rw e refl
  | inr e ↦ rw (e, scan_lem uuid first devices e) refl
]

search_admins_lem :
    (db : Database) (uuid : List ℕ) (admins : List (List ℕ))
    → Answers db admins
    → search_admins db uuid admins
      ≡ (if leads_any db uuid admins then ok 0 else fault failed_assert)
unfolding search_admins search_admin
search_admins_lem db uuid [] h = refl
search_admins_lem db uuid (admin ∷ admins) ((devices, e), h) =
    rw (e, found_in-leads uuid devices, search_admins_lem db uuid admins h)
      (elim (Bool-cases (leads uuid (some devices))) [ inl l ↦ rw l refl | inr l ↦ rw l refl ])

-- A device that does not work, where the database has two admins at least and answers: it is found
-- only if it is the first device of an admin. Every other device runs into the assertion.
pub touch_lem :
    (db : Database) (uuid : List ℕ) (t : List Device) (admins : List (List ℕ))
    → working uuid t ≡ none
    → db.list_admin_get ≡ some admins
    → 1 < length admins
    → Answers db admins
    → touch db uuid t ≡ (if leads_any db uuid admins then ok 0 else fault failed_assert)
unfolding touch search status search_admins
touch_lem db uuid t admins off listed many h =
    rw (off, listed, search_admins_lem db uuid admins h) (ground arith)
