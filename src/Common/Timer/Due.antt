-- ===== src/Common/Timer/Due.antt =====
-- Which timers a step of the clock calls.
use livezure.Prelude.{
  ℕ, ◌-◌, ◌≤◌, ◌<◌, ◌≡◌, refl, leb, ◌==◌, if◌then◌else◌, Bool, true, false, not, ◌&&◌, List, [],
  ◌∷◌, ◌++◌, arith, ok, Bool-cases, inl, inr,
}
use livezure.Common.Timer.{
  Timer, count_down, synchronize, triggered, trigger_all, step, is_empty, del,
}

-- The timers that are due after so many milliseconds: not deleted, with no more time remaining.
abbrev pub due : ℕ → List Timer → List ℕ
due elapsed [] = []
due elapsed (t ∷ rest) =
    if not t.b_sign_as_deleted && leb t.remaining elapsed
    then t.address ∷ due elapsed rest
    else due elapsed rest

-- A timer that is due starts again, or is marked; another has less time remaining.
abbrev pub renewed : (Timer → Bool) → ℕ → Timer → Timer
renewed abort elapsed t =
    if leb t.remaining elapsed
    then (if abort (record t { remaining = 0 })
        then record t { remaining = 0; b_sign_as_deleted = true }
        else record t { remaining = t.milliseconds })
    else record t { remaining = t.remaining - elapsed }

abbrev pub renewed_all : (Timer → Bool) → ℕ → List Timer → List Timer
renewed_all abort elapsed [] = []
renewed_all abort elapsed (t ∷ rest) =
    if t.b_sign_as_deleted
    then renewed_all abort elapsed rest
    else renewed abort elapsed t ∷ renewed_all abort elapsed rest

counted_due :
    (elapsed : ℕ) (t : Timer)
    → t.remaining ≤ elapsed
    → count_down elapsed t ≡ record t { remaining = 0 }
unfolding count_down
counted_due elapsed t h = ground arith

counted_not_due :
    (elapsed : ℕ) (t : Timer)
    → elapsed < t.remaining
    → count_down elapsed t ≡ record t { remaining = t.remaining - elapsed }
unfolding count_down
counted_not_due elapsed t h = ground arith

trigger_synchronized :
    (abort : Timer → Bool) (elapsed : ℕ) (table : List Timer)
    → trigger_all abort (synchronize false elapsed table)
      ≡ (due elapsed table, renewed_all abort elapsed table)
unfolding synchronize trigger_all triggered
trigger_synchronized abort elapsed [] = refl
trigger_synchronized abort elapsed (t ∷ rest) = elim (Bool-cases t.b_sign_as_deleted) [
  | inl gone ↦ rw gone (trigger_synchronized abort elapsed rest)
  | inr live ↦ elim (Bool-cases (leb t.remaining elapsed)) [
    | inl now ↦
        let z : count_down elapsed t ≡ record t { remaining = 0 } =
          counted_due elapsed t (ground arith) in
        rw (z, now, live, trigger_synchronized abort elapsed rest) refl
    | inr later ↦
        let less : elapsed < t.remaining = ground arith in
        let z = counted_not_due elapsed t less in
        let left : (t.remaining - elapsed == 0) ≡ false = ground arith in
        rw (z, later, live, left, trigger_synchronized abort elapsed rest) refl
  ]
]

-- A step of the clock that goes on calls the timers that are due, in the order of the list, and
-- renews all that are not deleted.
pub step_lem :
    (abort : Timer → Bool) (elapsed : ℕ) (table : List Timer)
    → step abort false elapsed table
      ≡ ok (true, (due elapsed table, renewed_all abort elapsed table))
unfolding step
step_lem abort elapsed table = rw (trigger_synchronized abort elapsed table) refl

stopped : (elapsed : ℕ) (table : List Timer) → synchronize true elapsed table ≡ []
unfolding synchronize
stopped elapsed [] = refl
stopped elapsed (t ∷ rest) = elim (Bool-cases t.b_sign_as_deleted) [
  | inl gone ↦ rw gone (stopped elapsed rest)
  | inr live ↦ rw live (stopped elapsed rest)
]

-- A clock that is to stop calls no timer and frees them all; its assertion holds.
pub step_stop :
    (abort : Timer → Bool) (elapsed : ℕ) (table : List Timer)
    → step abort true elapsed table ≡ ok (false, ([], []))
unfolding step is_empty
step_stop abort elapsed table = rw (stopped elapsed table) refl

pub due-append :
    (elapsed : ℕ) (before after : List Timer)
    → due elapsed (before ++ after) ≡ due elapsed before ++ due elapsed after
due-append elapsed [] after = refl
due-append elapsed (t ∷ before) after =
    elim (Bool-cases (not t.b_sign_as_deleted && leb t.remaining elapsed)) [
      | inl e ↦ rw (e, due-append elapsed before after) refl
      | inr e ↦ rw (e, due-append elapsed before after) refl
    ]

del_absent :
    (address : ℕ) (before after : List Timer) (t : Timer)
    → (del address before).0 ≡ false
    → t.address ≡ address
    → del address (before ++ (t ∷ after))
      ≡ (true, before ++ (record t { b_sign_as_deleted = true } ∷ after))
unfolding del
del_absent address [] after t absent here =
    let e : (t.address == address) ≡ true = ground arith in rw e refl
del_absent address (x ∷ before) after t absent here = elim (Bool-cases (x.address == address)) [
  | inl e ↦ absurd (ground arith)
  | inr e ↦
      let deeper : (del address before).0 ≡ false = ground arith in
      rw (e, del_absent address before after t deeper here) refl
]

-- `timer_del` of a timer, which stands first at its address, returns 0, and the timer is not due
-- at the next step, however long; the others are due as before.
pub del-due :
    (address elapsed : ℕ) (before after : List Timer) (t : Timer)
    → (del address before).0 ≡ false
    → t.address ≡ address
    → ((del address (before ++ (t ∷ after))).0 ≡ true)
      × (due elapsed (del address (before ++ (t ∷ after))).1
          ≡ due elapsed before ++ due elapsed after)
del-due address elapsed before after t absent here =
    rw (del_absent address before after t absent here)
      (refl, due-append elapsed before (record t { b_sign_as_deleted = true } ∷ after))
