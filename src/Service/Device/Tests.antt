-- ===== src/Service/Device/Tests.antt =====
-- Runs of the list of devices, and its theorems at concrete lists.
use livezure.Prelude.{◌≡◌, refl, List, [], ◌∷◌, ℕ, some, arith, text_eq, Option}
use livezure.Service.Device.{Device, ref_work}
use livezure.Service.Device.Counts.{Counts, Leaves, ref_work-Counts, dref-Leaves}

abbrev two : List Device
two =
    record { device_uuid = b'a' ∷ []; refcount = 1 }
    ∷ record { device_uuid = b'b' ∷ []; refcount = 2 }
    ∷ []

ref_work-Counts_example :
    ((ref_work (b'b' ∷ []) two).0 ≡ 3) × Counts (b'b' ∷ []) 3 two (ref_work (b'b' ∷ []) two).1
unfolding text_eq
ref_work-Counts_example =
    ref_work-Counts (b'b' ∷ []) two (omega arith) (omega arith, refl, (omega arith, refl, tt))

dref-Leaves_example : Leaves (b'a' ∷ []) 0 two
unfolding text_eq
dref-Leaves_example =
    dref-Leaves (b'a' ∷ []) two 0 (omega arith, refl, (omega arith, refl, tt)) refl

-- Two admins, the second of which has two devices.
abbrev devices : List ℕ → Option (List (List ℕ))
devices (x ∷ []) = some []
devices _ = some ((b'c' ∷ []) ∷ (b'd' ∷ []) ∷ [])
