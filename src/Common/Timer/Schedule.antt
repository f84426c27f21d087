-- ===== src/Common/Timer/Schedule.antt =====
-- When a timer calls its callback.
use livezure.Prelude.{
  sym, suc, ◌≢◌, ◌∙◌, ℕ, ◌+◌, ◌-◌, ◌≤◌, ◌<◌, ◌≡◌, refl, leb, ◌==◌, if◌then◌else◌, Bool, true, false,
  not, ◌&&◌, List, [], ◌∷◌, ◌++◌, arith, Run, ok, Bool-cases, inl, inr, ◌>>=◌,
}
use livezure.Common.Timer.{Timer, step}
use mathlib.Core.Path.{subst}
use livezure.Common.Timer.Due.{due, renewed, renewed_all, step_lem, due-append}

-- The steps of a clock that goes on, with the milliseconds that each of them takes.
pub steps : (Timer → Bool) → List ℕ → List Timer → Run (List ℕ × List Timer)
steps abort [] table = ok ([], table)
steps abort (elapsed ∷ more) table = do
  (goes_on, (called, table')) ← step abort false elapsed table
  (called', table'') ← steps abort more table'
  ok (called ++ called', table'')

abbrev pub total : List ℕ → ℕ
total [] = 0
total (elapsed ∷ more) = elapsed + total more

-- The others of a list have another address.
abbrev pub Absent : ℕ → List Timer → Type 0
Absent address [] = Unit
Absent address (t ∷ rest) = (t.address ≢ address) × Absent address rest

-- How often a timer is called.
abbrev pub calls_of : ℕ → List ℕ → ℕ
calls_of address [] = 0
calls_of address (a ∷ rest) =
    if a == address then suc (calls_of address rest) else calls_of address rest

calls_of-append :
    (address : ℕ) (xs ys : List ℕ)
    → calls_of address (xs ++ ys) ≡ calls_of address xs + calls_of address ys
calls_of-append address [] ys = omega arith
calls_of-append address (x ∷ xs) ys = elim (Bool-cases (x == address)) [
  | inl e ↦ rw (e, calls_of-append address xs ys) (omega arith)
  | inr e ↦ rw (e, calls_of-append address xs ys) refl
]

Absent-due :
    (address elapsed : ℕ) (table : List Timer)
    → Absent address table
    → calls_of address (due elapsed table) ≡ 0
Absent-due address elapsed [] apart = refl
Absent-due address elapsed (t ∷ rest) (other, apart) =
    let e : (t.address == address) ≡ false = ground (arith, other) in
    elim (Bool-cases (not t.b_sign_as_deleted && leb t.remaining elapsed)) [
      | inl now ↦ rw (now, e) (Absent-due address elapsed rest apart)
      | inr later ↦ rw later (Absent-due address elapsed rest apart)
    ]

renewed-address :
    (abort : Timer → Bool) (elapsed : ℕ) (t : Timer) → (renewed abort elapsed t).address ≡ t.address
renewed-address abort elapsed t = ground arith

Absent-renewed :
    (abort : Timer → Bool) (address elapsed : ℕ) (table : List Timer)
    → Absent address table
    → Absent address (renewed_all abort elapsed table)
Absent-renewed abort address elapsed [] apart = tt
Absent-renewed abort address elapsed (t ∷ rest) (other, apart) =
    let rest' = renewed_all abort elapsed rest in
    let apart' = Absent-renewed abort address elapsed rest apart in
    elim t.b_sign_as_deleted
      as (λ gone. Absent address (if gone then rest' else renewed abort elapsed t ∷ rest')) [
        | true ↦ apart'
        | false ↦ (subst (λ n. n ≢ address) (sym (renewed-address abort elapsed t)) other, apart')
      ]

renewed_all-append :
    (abort : Timer → Bool) (elapsed : ℕ) (before after : List Timer)
    → renewed_all abort elapsed (before ++ after)
      ≡ renewed_all abort elapsed before ++ renewed_all abort elapsed after
renewed_all-append abort elapsed [] after = refl
renewed_all-append abort elapsed (t ∷ before) after = elim (Bool-cases t.b_sign_as_deleted) [
  | inl gone ↦ rw (gone, renewed_all-append abort elapsed before after) refl
  | inr live ↦ rw (live, renewed_all-append abort elapsed before after) refl
]

calls-due :
    (elapsed : ℕ) (before after : List Timer) (t : Timer)
    → Absent t.address before
    → Absent t.address after
    → calls_of t.address (due elapsed (before ++ (t ∷ after)))
      ≡ calls_of t.address (due elapsed (t ∷ []))
calls-due elapsed before after t nb na =
    rw
      (
        due-append elapsed before (t ∷ after),
        calls_of-append t.address (due elapsed before) (due elapsed (t ∷ after)),
        Absent-due t.address elapsed before nb,
        due-append elapsed (t ∷ []) after,
        calls_of-append t.address (due elapsed (t ∷ [])) (due elapsed after),
        Absent-due t.address elapsed after na,
      )
      (omega arith)

renewed-between :
    (abort : Timer → Bool) (elapsed : ℕ) (before after : List Timer) (t : Timer)
    → t.b_sign_as_deleted ≡ false
    → renewed_all abort elapsed (before ++ (t ∷ after))
      ≡ renewed_all abort elapsed before
        ++ (renewed abort elapsed t ∷ renewed_all abort elapsed after)
renewed-between abort elapsed before after t live =
    rw (renewed_all-append abort elapsed before (t ∷ after), live) refl

-- The steps so far, after which a timer still waits.
record Waits (abort : Timer → Bool) (es : List ℕ) (table : List Timer) (t : Timer) : Type 0 where
  called : List ℕ
  before : List Timer
  after : List Timer
  result : steps abort es table ≡ ok (called, before ++ (t ∷ after))
  quiet : calls_of t.address called ≡ 0
  none_before : Absent t.address before
  none_after : Absent t.address after

steps-Waits :
    (abort : Timer → Bool) (es : List ℕ) (before after : List Timer) (t : Timer)
    → Absent t.address before
    → Absent t.address after
    → t.b_sign_as_deleted ≡ false
    → total es < t.remaining
    → Waits abort es (before ++ (t ∷ after)) (record t { remaining = t.remaining - total es })
unfolding steps
steps-Waits abort [] before after t nb na live few = record {
  called = [];
  before = before;
  after = after;
  result = let e : t.remaining - 0 ≡ t.remaining = omega arith in rw e refl;
  quiet = refl;
  none_before = nb;
  none_after = na;
}
steps-Waits abort (e ∷ es) before after t nb na live few =
    let later : leb t.remaining e ≡ false = ground arith in
    let t' : Timer = record t { remaining = t.remaining - e } in
    let before' = renewed_all abort e before in
    let after' = renewed_all abort e after in
    let w =
      steps-Waits abort es before' after' t' (Absent-renewed abort t.address e before nb)
        (Absent-renewed abort t.address e after na) live (omega arith) in
    let left : t.remaining - e - total es ≡ t.remaining - (e + total es) = omega arith in
    let now : calls_of t.address (due e (before ++ (t ∷ after))) ≡ 0 =
      calls-due e before after t nb na ∙ rw (later, live) refl in
    record {
      called = due e (before ++ (t ∷ after)) ++ w.called;
      before = w.before;
      after = w.after;
      result =
          rw
            (
              step_lem abort e (before ++ (t ∷ after)),
              renewed-between abort e before after t live,
              later,
              w.result,
              left,
            )
            refl;
      quiet =
          calls_of-append t.address (due e (before ++ (t ∷ after))) w.called
          ∙ rw (now, w.quiet) refl;
      none_before = w.none_before;
      none_after = w.none_after;
    }

-- A timer that has not been deleted and is not of those to be deleted when triggered, whose
-- callback does not abort it, stands anywhere in the list, the others having other addresses. The
-- steps of the clock do not call it while less than its time has passed, however the clock divides
-- it; the step after which it has passed calls it once, and it starts again with its whole time.
pub steps-once :
    (abort : Timer → Bool) (es : List ℕ) (last : ℕ) (before after : List Timer) (t : Timer)
    → Absent t.address before
    → Absent t.address after
    → t.b_sign_as_deleted ≡ false
    → t.b_auto_delete ≡ false
    → abort (record t { remaining = 0 }) ≡ false
    → total es < t.remaining
    → t.remaining ≤ total es + last
    → (early : List ℕ) × (waiting : List Timer) × (called : List ℕ) × (before' : List Timer)
      × (after' : List Timer) × (steps abort es (before ++ (t ∷ after)) ≡ ok (early, waiting))
      × (calls_of t.address early ≡ 0)
      × (step abort false last waiting
          ≡ ok (true, (called, before' ++ (record t { remaining = t.milliseconds } ∷ after'))))
      × (calls_of t.address called ≡ 1)
steps-once abort es last before after t nb na live kept keep few due_now =
    let w = steps-Waits abort es before after t nb na live few in
    let t' : Timer = record t { remaining = t.remaining - total es } in
    let now : leb (t.remaining - total es) last ≡ true = ground arith in
    (
      w.called,
      w.before ++ (t' ∷ w.after),
      due last (w.before ++ (t' ∷ w.after)),
      renewed_all abort last w.before,
      renewed_all abort last w.after,
      w.result,
      w.quiet,
      rw
          (
            step_lem abort last (w.before ++ (t' ∷ w.after)),
            renewed-between abort last w.before w.after t' live,
            now,
            keep,
          )
          refl,
      calls-due last w.before w.after t' w.none_before w.none_after ∙ rw (now, live) (ground arith),
    )
