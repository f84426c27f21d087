-- ===== src/Service/Session/Reach.antt =====
-- The tables that the service can come to where no call runs while another one does, but for those
-- that wait in `pref_release`: logins, heartbeats, logouts, ticks of the timer, and references that
-- are taken and given back, in any order. A login that waits is not followed when it wakes.
use livezure.Prelude.{
  ℕ, ◌+◌, ◌-◌, ◌≡◌, refl, ap, sym, ◌∙◌, Bool, true, false, ◌==◌, List, [], ◌∷◌, ◌++◌, Option, none,
  some, arith, Bool-cases, inl, inr, ◌⊎◌, ok, ◌>>◌, guard, failed_assert, >>=-eq-ok,
}
use livezure.Service.Session.{
  Session, Node, Outcome, done, waits, ahead, remove, clear_heartbeat, check_all, need_delete,
  conflicts, drop_conflicts, fresh_node, link_last, add, ref, dref, put, del, set_heartbeat, Reply,
  req_heartbeat, heartbeat_of, req_account_logout, logout_of,
}
use livezure.Service.Session.Unique.{
  IsUnique, Absent, SameUser, SameUser-refl, Kept, keep, gone, Kept-refl, Kept-trans, Kept-IsUnique,
}
use livezure.Service.Session.Waiting.{add-waits, check_all-waits}
use livezure.Service.Session.Login.{kept, kept-IsUnique}

same_but :
    (n m : Node) (b : Bool)
    → m.session ≡ record n.session { is_heartbeated = b }
    → m.address ≡ n.address
    → SameUser n m
same_but n m b e a = record { heartbeat = b; session = e; address = a }

pub ref-Kept : (fd : ℕ) (t : List Node) → Kept t (ref fd t).1
unfolding ref
ref-Kept fd [] = Kept-refl []
ref-Kept fd (n ∷ rest) = elim (Bool-cases (n.session.fd == fd)) [
  | inl e ↦ rw e (
      keep (same_but n (record n { refcount = n.refcount + 1 }) n.session.is_heartbeated refl refl)
        (Kept-refl rest))
  | inr e ↦ rw e (keep (SameUser-refl n) (ref-Kept fd rest))
]

del-Kept : (fd : ℕ) (t : List Node) → Kept t (del fd t).1
unfolding del
del-Kept fd [] = Kept-refl []
del-Kept fd (n ∷ rest) = elim (Bool-cases (n.session.fd == fd)) [
  | inl e ↦ rw e (
      keep (same_but n (record n { b_mark_deleted = true }) n.session.is_heartbeated refl refl)
        (Kept-refl rest))
  | inr e ↦ rw e (keep (SameUser-refl n) (del-Kept fd rest))
]

set_heartbeat-Kept : (a : ℕ) (t : List Node) → Kept t (set_heartbeat a t)
unfolding set_heartbeat
set_heartbeat-Kept a [] = Kept-refl []
set_heartbeat-Kept a (n ∷ rest) = elim (Bool-cases (n.address == a)) [
  | inl e ↦ rw e (
      keep
        (same_but n (record n { session = record n.session { is_heartbeated = true } }) true refl
          refl)
        (Kept-refl rest))
  | inr e ↦ rw e (keep (SameUser-refl n) (set_heartbeat-Kept a rest))
]

pub dref-cases :
    (a : ℕ) (n : Node) (rest t' : List Node)
    → dref a (n ∷ rest) ≡ ok t'
    → (t' ≡ record n { refcount = n.refcount - 1 } ∷ rest)
      ⊎ ((r : List Node) × (dref a rest ≡ ok r) × (t' ≡ n ∷ r))
unfolding dref put
dref-cases a n rest t' e = elim (Bool-cases (n.address == a)) [
  | inl here ↦ inl (ground arith)
  | inr there ↦
      (let q = >>=-eq-ok (dref a rest) (λ rest'. ok (n ∷ rest')) {t = t'} (ground arith) in
        inr (q.0, q.1, ground (arith, q.2)))
]

dref-Kept : (a : ℕ) (t t' : List Node) → dref a t ≡ ok t' → Kept t t'
dref-Kept a [] t' e = absurd (unfold dref in ground arith)
dref-Kept a (n ∷ rest) t' e = elim (dref-cases a n rest t' e) [
  | inl here ↦ rw here (
      keep (same_but n (record n { refcount = n.refcount - 1 }) n.session.is_heartbeated refl refl)
        (Kept-refl rest))
  | inr (r, e', at) ↦ rw at (keep (SameUser-refl n) (dref-Kept a rest r e'))
]

heartbeat_of-Kept :
    (r : Option ℕ) (t : List Node) (reply : Reply) (t' : List Node)
    → heartbeat_of r t ≡ ok (reply, t')
    → Kept t t'
unfolding heartbeat_of
heartbeat_of-Kept none t reply t' e = let same : t ≡ t' = ground arith in rw (← same) (Kept-refl t)
heartbeat_of-Kept (some a) t reply t' e =
    let q = >>=-eq-ok (dref a t) (λ table'. ok (Reply.accepted, set_heartbeat a table')) e in
    let same : set_heartbeat a q.0 ≡ t' = ground (arith, q.2) in
    rw (← same) (Kept-trans (dref-Kept a t q.0 q.1) (set_heartbeat-Kept a q.0))

logout_of-Kept :
    (fd : ℕ) (r : Option ℕ) (t : List Node) (reply : Reply) (t' : List Node)
    → logout_of fd r t ≡ ok (reply, t')
    → Kept t t'
unfolding logout_of
logout_of-Kept fd none t reply t' e = let same : t ≡ t' = ground arith in rw (← same) (Kept-refl t)
logout_of-Kept fd (some a) t reply t' e =
    let q =
      >>=-eq-ok (dref a t)
        (λ table'.
          let (r, table'') = del fd table' in guard r failed_assert >> ok (Reply.accepted, table''))
        e in
    let same : (del fd q.0).1 ≡ t' = ground (arith, q.2) in
    rw (← same) (Kept-trans (dref-Kept a t q.0 q.1) (del-Kept fd q.0))

ahead-done :
    (n : Node) (o : Outcome) (t' : List Node)
    → ahead n o ≡ done t'
    → (r : List Node) × (o ≡ done r) × (t' ≡ n ∷ r)
unfolding ahead
ahead-done n (done t) t' e = (t, refl, ground arith)
ahead-done n (waits g t) t' e = cc

check_all-cases :
    (n : Node) (rest t' : List Node)
    → check_all false (n ∷ rest) ≡ done t'
    → (t' ≡ rest)
      ⊎ ((r : List Node) × (check_all false rest ≡ done r) × (t' ≡ clear_heartbeat n ∷ r))
unfolding check_all remove
check_all-cases n rest t' e = elim (Bool-cases (need_delete n)) [
  | inl d ↦ inl (ground arith)
  | inr d ↦ inr (ahead-done (clear_heartbeat n) (check_all false rest) t' (ground arith))
]

check_all-Kept : (stop : Bool) (t t' : List Node) → check_all stop t ≡ done t' → Kept t t'
check_all-Kept stop [] t' e =
    let same : [] ≡ t' = unfold check_all in ground arith in rw (← same) (Kept-refl [])
check_all-Kept true (n ∷ rest) t' e =
    let same : n ∷ rest ≡ t' = unfold check_all in ground arith in
    rw (← same) (Kept-refl (n ∷ rest))
check_all-Kept false (n ∷ rest) t' e = elim (check_all-cases n rest t' e) [
  | inl same ↦ rw same (gone (Kept-refl rest))
  | inr (r, e', at) ↦ rw at (
      keep
        (same_but n (clear_heartbeat n) false (unfold clear_heartbeat in refl)
          (unfold clear_heartbeat in refl))
        (check_all-Kept false rest r e'))
]

drop_conflicts-done :
    (s : Session) (t t' : List Node) → drop_conflicts s t ≡ done t' → t' ≡ kept s t
unfolding drop_conflicts remove
drop_conflicts-done s [] t' e = ground arith
drop_conflicts-done s (n ∷ rest) t' e = elim (Bool-cases (conflicts s n.session)) [
  | inl c ↦ rw c (drop_conflicts-done s rest t' (ground arith))
  | inr c ↦ rw c (
      let q = ahead-done n (drop_conflicts s rest) t' (ground arith) in
      q.2 ∙ ap (λ r. n ∷ r) (drop_conflicts-done s rest q.0 q.1))
]

add-done :
    (s : Session) (a : ℕ) (t t' : List Node)
    → add s a t ≡ done t'
    → t' ≡ kept s t ++ (fresh_node s a ∷ [])
unfolding add
add-done s a t t' e = link_done (drop_conflicts s t) (drop_conflicts-done s t) e
  where
    link_done :
        (o : Outcome)
        → ((r : List Node) → o ≡ done r → r ≡ kept s t)
        → link_last (fresh_node s a) o ≡ done t'
        → t' ≡ kept s t ++ (fresh_node s a ∷ [])
    link_done (done r) h e' =
        let same : r ++ (fresh_node s a ∷ []) ≡ t' = unfold link_last in ground arith in
        sym same ∙ ap (λ l. l ++ (fresh_node s a ∷ [])) (h r refl)
    link_done (waits g r) h e' = unfold link_last in ground arith

-- A step of the service. A login allocates its node where none of the list stands.
pub data Step : List Node → List Node → Type 0 where
  login : (s : Session) (a : ℕ) {t t' : List Node} → Absent a t → add s a t ≡ done t' → Step t t'
  login_waits :
      (s : Session) (a : ℕ) (g : Node) {t t' : List Node} → add s a t ≡ waits g t' → Step t t'
  heartbeat : (fd : ℕ) (r : Reply) {t t' : List Node} → req_heartbeat fd t ≡ ok (r, t') → Step t t'
  logout :
      (fd : ℕ) (r : Reply) {t t' : List Node} → req_account_logout fd t ≡ ok (r, t') → Step t t'
  tick : (stop : Bool) {t t' : List Node} → check_all stop t ≡ done t' → Step t t'
  tick_waits :
      (stop : Bool) (g : Node) {t t' : List Node} → check_all stop t ≡ waits g t' → Step t t'
  take : (fd : ℕ) {t t' : List Node} → (ref fd t).1 ≡ t' → Step t t'
  give : (a : ℕ) {t t' : List Node} → dref a t ≡ ok t' → Step t t'

pub data Reach : List Node → Type 0 where
  start : Reach []
  next : {t t' : List Node} → Reach t → Step t t' → Reach t'

Step-IsUnique : {t t' : List Node} → Step t t' → IsUnique t → IsUnique t'
Step-IsUnique (login s a {t} {t'} h e) u = rw (add-done s a t t' e) (kept-IsUnique s a t u h)
Step-IsUnique (login_waits s a g {t} {t'} e) u = Kept-IsUnique (add-waits s a t t' g e) u
Step-IsUnique (heartbeat fd r {t} {t'} e) u =
    Kept-IsUnique
      (Kept-trans (ref-Kept fd t)
        (heartbeat_of-Kept (ref fd t).0 (ref fd t).1 r t' (unfold req_heartbeat in e)))
      u
Step-IsUnique (logout fd r {t} {t'} e) u =
    Kept-IsUnique
      (Kept-trans (ref-Kept fd t)
        (logout_of-Kept fd (ref fd t).0 (ref fd t).1 r t' (unfold req_account_logout in e)))
      u
Step-IsUnique (tick stop {t} {t'} e) u = Kept-IsUnique (check_all-Kept stop t t' e) u
Step-IsUnique (tick_waits stop g {t} {t'} e) u = Kept-IsUnique (check_all-waits stop t t' g e) u
Step-IsUnique (take fd {t} {t'} e) u = rw (← e) (Kept-IsUnique (ref-Kept fd t) u)
Step-IsUnique (give a {t} {t'} e) u = Kept-IsUnique (dref-Kept a t t' e) u

pub Reach-IsUnique : {t : List Node} → Reach t → IsUnique t
Reach-IsUnique start = tt
Reach-IsUnique (next r s) = Step-IsUnique s (Reach-IsUnique r)
