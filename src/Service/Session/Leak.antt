-- ===== src/Service/Session/Leak.antt =====
-- A reference that is not given back: what a logout and a tick come to after it.
use livezure.Prelude.{
  ℕ, ◌+◌, ◌==◌, ◌≡◌, refl, true, false, Bool-cases, inl, inr, List, [], ◌∷◌, some, ok, arith,
}
use livezure.Service.Session.{
  Node, Outcome, waits, ahead, remove, need_delete, clear_heartbeat, check_all, ref, del, Reply,
  req_account_logout, logout_of,
}
use livezure.Service.Session.Unique.{IsUnique, Kept-IsUnique}
use livezure.Service.Session.Keep.{node_of}
use livezure.Service.Session.Tick.{check_pass}
use livezure.Service.Session.Reach.{ref-Kept}
use livezure.Service.Session.Borrow.{ref-node_of, dref-ref}

-- Every session has shown up since the last tick, and none has logged out.
abbrev pub AllFresh : List Node → Type 0
AllFresh [] = Unit
AllFresh (n ∷ rest) = (need_delete n ≡ false) × AllFresh rest

abbrev pub Waits : Outcome → Type 0
Waits o = (n : Node) × (rest : List Node) × (o ≡ waits n rest)

unfoldable pub held : Node → Node
held n = record n { refcount = n.refcount + 1 }

pub node_of-ref :
    (fd : ℕ) (t : List Node) (n : Node)
    → node_of fd t ≡ some n
    → node_of fd (ref fd t).1 ≡ some (held n)
unfolding ref held
node_of-ref fd [] n e = cc
node_of-ref fd (m ∷ rest) n e = ground (arith, node_of-ref fd rest n)

ahead-Waits : (n : Node) (o : Outcome) → Waits o → Waits (ahead n o)
unfolding ahead
ahead-Waits n o (m, rest, e) = (m, n ∷ rest, rw e refl)

marked-Waits :
    (m : Node) (rest : List Node)
    → Waits (check_all false (record (held m) { b_mark_deleted = true } ∷ rest))
unfolding check_all remove need_delete held
marked-Waits m rest = (record (held m) { b_mark_deleted = true }, rest, ground arith)

-- The session of the socket is marked, with a reference too many.
pub leaked-Waits :
    (fd : ℕ) (t : List Node) (n : Node)
    → AllFresh t
    → node_of fd t ≡ some n
    → Waits (check_all false (del fd (ref fd t).1).1)
unfolding ref del
leaked-Waits fd [] n f e = cc
leaked-Waits fd (m ∷ rest) n f e = elim (Bool-cases (m.session.fd == fd)) [
  | inl here ↦ rw (here, here) (unfold held in marked-Waits m rest)
  | inr there ↦
      rw (there, there, check_pass m (del fd (ref fd rest).1).1 f.0)
        (ahead-Waits (clear_heartbeat m) (check_all false (del fd (ref fd rest).1).1)
          (leaked-Waits fd rest n f.1 (ground arith)))
]

del_found : (fd : ℕ) (t : List Node) (n : Node) → node_of fd t ≡ some n → (del fd t).0 ≡ true
unfolding del
del_found fd [] n e = cc
del_found fd (m ∷ rest) n e = ground (arith, del_found fd rest n)

-- A logout takes its own reference and gives it back.
pub logout-marks :
    (fd : ℕ) (t : List Node) (n : Node)
    → IsUnique t
    → node_of fd t ≡ some n
    → req_account_logout fd t ≡ ok (Reply.accepted, (del fd t).1)
unfolding req_account_logout logout_of
logout-marks fd t n u e = rw (ref-node_of fd t n e, dref-ref fd t n u e, del_found fd t n e) refl

pub ref-IsUnique : (fd : ℕ) (t : List Node) → IsUnique t → IsUnique (ref fd t).1
ref-IsUnique fd t u = Kept-IsUnique (ref-Kept fd t) u
