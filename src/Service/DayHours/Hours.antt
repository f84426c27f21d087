-- ===== src/Service/DayHours/Hours.antt =====
-- What `day_hours_set` sets, and which hours it takes for others.
use livezure.Prelude.{
  ℕ, ◌+◌, ◌-◌, ◌*◌, ◌≤◌, ◌<◌, ◌≡◌, ◌≢◌, refl, sym, ◌∙◌, ◌⊎◌, inl, inr, Bool, true, false, List, [],
  ◌∷◌, length, take, drop, arith, some, ok, fault, out_of_range, pos, patch, take-patch, drop-patch,
  drop-patch_past, take-patch_before, length-patch, length-drop, load_lem, store_lem, take-all,
}
use livezure.Service.DayHours
use livezure.Service.DayHours.{flag, is_one, refused, index, set_at, get_at}

-- A day and an hour of it.
abbrev pub IsHour : ℕ → ℕ → Type 0
IsHour w h = (1 ≤ w) × (w ≤ 7) × (1 ≤ h) × (h ≤ 24)

-- What is stored at an index is read there, and nowhere else.
read_same : (dh : List ℕ) (i x : ℕ) → i < length dh → take 1 (drop i (patch dh i (x ∷ []))) ≡ x ∷ []
read_same dh i x h =
    let zero_left : i - i ≡ 0 = omega arith in
    rw (drop-patch dh i (x ∷ []) i (omega arith), zero_left)
      (take-patch (drop i dh) 0 (x ∷ []) 1 (omega (arith, length-drop i dh)) refl)

read_other :
    (dh : List ℕ) (i j x : ℕ)
    → (i < j) ⊎ (j < i)
    → take 1 (drop j (patch dh i (x ∷ []))) ≡ take 1 (drop j dh)
read_other dh i j x (inl h) = rw (drop-patch_past dh i (x ∷ []) j (omega arith)) refl
read_other dh i j x (inr h) =
    rw (drop-patch dh i (x ∷ []) j (omega arith))
      (take-patch_before (drop j dh) (i - j) (x ∷ []) 1 (omega arith))

module _ (dh : List ℕ) (size : length dh ≡ 168) where
  set_hour :
      (w h : ℕ) (b : Bool)
      → IsHour w h
      → DayHours.set (some dh) (pos w) (pos h) b
        ≡ ok (1, some (patch dh (w * 24 + h - 25) (flag b ∷ [])))
  unfolding DayHours.set refused index set_at
  set_hour w h b v = ground arith

  get_hour :
      (w h : ℕ)
      → IsHour w h
      → DayHours.get (some dh) (pos w) (pos h)
        ≡ ok (1, some (is_one (take 1 (drop (w * 24 + h - 25) dh))))
  unfolding DayHours.get refused index get_at
  get_hour w h v = ground arith

is_one-flag : (b : Bool) → is_one (flag b ∷ []) ≡ b
unfolding is_one flag
is_one-flag true = refl
is_one-flag false = refl

-- The hour of the day is `b` in the set that `day_hours_set` leaves, and all others are as before.
pub record Sets (dh : List ℕ) (w h : ℕ) (b : Bool) : Type 0 where
  pub after : List ℕ
  pub returns : DayHours.set (some dh) (pos w) (pos h) b ≡ ok (1, some after)
  pub size : length after ≡ 168
  pub at : DayHours.get (some after) (pos w) (pos h) ≡ ok (1, some b)
  pub others :
      (w' h' : ℕ)
      → IsHour w' h'
      → (w ≢ w') ⊎ (h ≢ h')
      → DayHours.get (some after) (pos w') (pos h') ≡ DayHours.get (some dh) (pos w') (pos h')

-- Two hours of one index are the same.
index_other :
    (w h w' h' : ℕ)
    → IsHour w h
    → IsHour w' h'
    → (w ≢ w') ⊎ (h ≢ h')
    → (w * 24 + h - 25 < w' * 24 + h' - 25) ⊎ (w' * 24 + h' - 25 < w * 24 + h - 25)
index_other w h w' h' v v' d = ground arith

-- Setting an hour of a day is read back there, and changes no other hour of any day.
pub set-Sets : (dh : List ℕ) (w h : ℕ) (b : Bool) → length dh ≡ 168 → IsHour w h → Sets dh w h b
set-Sets dh w h b size v =
    let after = patch dh (w * 24 + h - 25) (flag b ∷ []) in
    let size' : length after ≡ 168 = length-patch dh (w * 24 + h - 25) (flag b ∷ []) ∙ size in
    record {
      after = after;
      returns = set_hour dh size w h b v;
      size = size';
      at =
          get_hour after size' w h v
          ∙ rw (read_same dh (w * 24 + h - 25) (flag b) (omega arith), is_one-flag b) refl;
      others = λ w' h' v' d.
          get_hour after size' w' h' v'
          ∙ rw
              (read_other dh (w * 24 + h - 25) (w' * 24 + h' - 25) (flag b)
                (index_other w h w' h' v v' d))
              (sym (get_hour dh size w' h' v'));
    }

-- An hour past 24, which the code does not refuse, is an hour of the next day.
pub set_next_day :
    (dh : List ℕ) (w h : ℕ) (b : Bool)
    → w < 7
    → 24 < h
    → DayHours.set (some dh) (pos w) (pos h) b
      ≡ DayHours.set (some dh) (pos (w + 1)) (pos (h - 24)) b
unfolding DayHours.set refused index
set_next_day dh w h b early late =
    let same : w * 24 + h - 25 ≡ (w + 1) * 24 + (h - 24) - 25 = omega arith in ground arith

-- The day 0, which the code does not refuse either, lies before the start of the set, and an hour
-- past 24 of the day 7 behind its end.
pub set_outside :
    (dh : List ℕ) (w h : ℕ) (b : Bool)
    → length dh ≡ 168
    → ((w ≡ 0) × (h ≤ 24)) ⊎ ((w ≡ 7) × (24 < h))
    → DayHours.set (some dh) (pos w) (pos h) b ≡ fault out_of_range
unfolding DayHours.set refused index set_at
set_outside dh w h b size (inl z) = ground arith
set_outside dh w h b size (inr z) = ground arith

dumped :
    (dh szdh : List ℕ)
    → length dh ≡ 168
    → 168 ≤ length szdh
    → take 168 dh ≡ dh
    → DayHours.dump (some dh) szdh ≡ ok (1, patch szdh 0 dh)
unfolding DayHours.dump
dumped dh szdh size room whole =
    rw (load_lem dh 0 168 (omega arith), whole, store_lem szdh 0 dh (omega arith)) refl

loaded : (out dh : List ℕ) → 168 ≤ length out → take 168 out ≡ dh → DayHours.from out ≡ ok dh
unfolding DayHours.from
loaded out dh room read = rw (load_lem out 0 168 room, read) refl

-- What `day_hours_dump` writes is read back by `day_hours_from`.
pub from-dump :
    (dh szdh : List ℕ)
    → length dh ≡ 168
    → 168 ≤ length szdh
    → (out : List ℕ) × (DayHours.dump (some dh) szdh ≡ ok (1, out)) × (DayHours.from out ≡ ok dh)
from-dump dh szdh size room =
    let whole : take 168 dh ≡ dh = take-all 168 dh (omega arith) in
    let out = patch szdh 0 dh in
    let read : take 168 out ≡ dh = take-patch szdh 0 dh 168 (omega arith) (omega arith) in
    let long : length out ≡ length szdh = length-patch szdh 0 dh in
    (out, dumped dh szdh size room whole, loaded out dh (omega arith) read)
