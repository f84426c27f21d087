-- ===== src/Service/Device/Names.antt =====
-- Names that do not fit the 38 bytes of an entry.
use livezure.Prelude.{
  ℕ, ◌≤◌, ◌<◌, ◌≡◌, refl, false, Bool-cases, inl, inr, List, [], ◌∷◌, ◌++◌, length, take, arith,
  fault, failed_assert, text_eq, text_eq-eq, ap, length-take,
}
use livezure.Common.Pref
use livezure.Service.Device.{Device, ref_work, dref}

-- The names of all entries fit, as in every list that `ref_work` makes.
abbrev pub IsShort : List Device → Type 0
IsShort [] = Unit
IsShort (d ∷ rest) = (length d.device_uuid ≤ 38) × IsShort rest

differs :
    (d : Device) (uuid : List ℕ)
    → length d.device_uuid ≤ 38
    → 38 < length uuid
    → text_eq d.device_uuid uuid ≡ false
differs d uuid short long = elim (Bool-cases (text_eq d.device_uuid uuid)) [
  | inl e ↦
      let same : length d.device_uuid ≡ length uuid = ap length (text_eq-eq d.device_uuid uuid e) in
      absurd (omega arith)
  | inr e ↦ e
]

dref_long :
    (uuid : List ℕ) (t : List Device)
    → 38 < length uuid
    → IsShort t
    → dref uuid t ≡ fault failed_assert
unfolding dref
dref_long uuid [] long short = refl
dref_long uuid (d ∷ rest) long short =
    rw (differs d uuid short.0 long, dref_long uuid rest long short.1) refl

ref_work_entry :
    (uuid : List ℕ) (t : List Device)
    → 38 < length uuid
    → IsShort t
    → ref_work uuid t ≡ (1, t ++ (record { device_uuid = take 38 uuid; refcount = 1 } ∷ []))
unfolding ref_work Pref.get Pref.init
ref_work_entry uuid [] long short = refl
ref_work_entry uuid (d ∷ rest) long short =
    rw (differs d uuid short.0 long, ref_work_entry uuid rest long short.1) refl

IsShort-append :
    (uuid : List ℕ) (t : List Device)
    → IsShort t
    → IsShort (t ++ (record { device_uuid = take 38 uuid; refcount = 1 } ∷ []))
IsShort-append uuid [] short = (omega (arith, length-take 38 uuid), tt)
IsShort-append uuid (d ∷ rest) short = (short.0, IsShort-append uuid rest short.1)

-- A device with a longer name, in a list whose names fit, gets a new entry with every user, and its
-- user cannot leave after that: the device is not found.
pub ref_work_long :
    (uuid : List ℕ) (t : List Device)
    → 38 < length uuid
    → IsShort t
    → (ref_work uuid t ≡ (1, t ++ (record { device_uuid = take 38 uuid; refcount = 1 } ∷ [])))
      × (dref uuid (ref_work uuid t).1 ≡ fault failed_assert)
ref_work_long uuid t long short =
    let made = ref_work_entry uuid t long short in
    rw made (refl, dref_long uuid _ long (IsShort-append uuid t short))
