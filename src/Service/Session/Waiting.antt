-- ===== src/Service/Session/Waiting.antt =====
-- A login or a tick that waits for the references of a session that it has taken off the list: the
-- list it leaves has no session that was not there.
use livezure.Prelude.{Bool, ℕ, ◌≡◌, refl, true, false, ◌==◌, if◌then◌else◌, List, [], ◌∷◌}
use mathlib.Core.Path.{subst}
use livezure.Service.Session.{
  Session, Node, Outcome, done, waits, ahead, remove, clear_heartbeat, check_all, need_delete,
  conflicts, drop_conflicts, fresh_node, link_last, add,
}
use livezure.Service.Session.Unique.{SameUser, SameUser-refl, Kept, keep, gone, Kept-refl}

-- A wait in `pref_release` leaves a list of those that stood in another.
abbrev WaitKept : List Node → Outcome → Type 0
WaitKept t (done after) = Unit
WaitKept t (waits node after) = Kept t after

remove-WaitKept :
    (n : Node) (t : List Node) (after : Outcome)
    → WaitKept t after
    → WaitKept (n ∷ t) (remove n t after)
unfolding remove
remove-WaitKept n t after k =
    elim (n.refcount == 0) as (λ b. WaitKept (n ∷ t) (if b then after else waits n t)) [
      | true ↦ without n t after k
      | false ↦ gone (Kept-refl t)
    ]
  where
    without :
        (n : Node) (t : List Node) (after : Outcome) → WaitKept t after → WaitKept (n ∷ t) after
    without n t (done r) k = tt
    without n t (waits g r) k = gone k

ahead-WaitKept :
    (n m : Node) (t : List Node) (later : Outcome)
    → SameUser n m
    → WaitKept t later
    → WaitKept (n ∷ t) (ahead m later)
unfolding ahead
ahead-WaitKept n m t (done r) same k = tt
ahead-WaitKept n m t (waits g r) same k = keep same k

drop_conflicts-WaitKept : (s : Session) (t : List Node) → WaitKept t (drop_conflicts s t)
unfolding drop_conflicts
drop_conflicts-WaitKept s [] = tt
drop_conflicts-WaitKept s (n ∷ rest) =
    let k = drop_conflicts-WaitKept s rest in
    let later = drop_conflicts s rest in
    elim (conflicts s n.session)
      as (λ b. WaitKept (n ∷ rest) (if b then remove n rest later else ahead n later)) [
        | true ↦ remove-WaitKept n rest later k
        | false ↦ ahead-WaitKept n n rest later (SameUser-refl n) k
      ]

link_last-WaitKept :
    (n : Node) (t : List Node) (o : Outcome) → WaitKept t o → WaitKept t (link_last n o)
unfolding link_last
link_last-WaitKept n t (done r) k = tt
link_last-WaitKept n t (waits g r) k = k

cleared : (n : Node) → SameUser n (clear_heartbeat n)
unfolding clear_heartbeat
cleared n = record { heartbeat = false; session = refl; address = refl }

check_all-WaitKept : (stop : Bool) (t : List Node) → WaitKept t (check_all stop t)
unfolding check_all
check_all-WaitKept stop [] = tt
check_all-WaitKept true (n ∷ rest) = tt
check_all-WaitKept false (n ∷ rest) =
    let k = check_all-WaitKept false rest in
    let later = ahead (clear_heartbeat n) (check_all false rest) in
    elim (need_delete n)
      as (λ b. WaitKept (n ∷ rest) (if b then remove n rest (done rest) else later)) [
        | true ↦ remove-WaitKept n rest (done rest) tt
        | false ↦ ahead-WaitKept n (clear_heartbeat n) rest (check_all false rest) (cleared n) k
      ]

pub add-waits :
    (s : Session) (a : ℕ) (t t' : List Node) (g : Node) → add s a t ≡ waits g t' → Kept t t'
unfolding add
add-waits s a t t' g e =
    subst (WaitKept t) e
      (link_last-WaitKept (fresh_node s a) t (drop_conflicts s t) (drop_conflicts-WaitKept s t))

pub check_all-waits :
    (stop : Bool) (t t' : List Node) (g : Node) → check_all stop t ≡ waits g t' → Kept t t'
check_all-waits stop t t' g e = subst (WaitKept t) e (check_all-WaitKept stop t)
