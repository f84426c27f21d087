-- ===== src/Service/Session/Borrow.antt =====
-- A reference that a handler takes: which session it reads, and how the reference is given back.
use livezure.Prelude.{
  ℕ, ◌==◌, ◌≡◌, ◌≢◌, refl, Bool-cases, inl, inr, List, [], ◌∷◌, none, some, ok, arith,
}
use livezure.Service.Session.{Node, ref, dref, put, session_at}
use livezure.Service.Session.Unique.{IsUnique, Absent, LaterClear-Absent}
use livezure.Service.Session.Keep.{node_of}
use livezure.Service.Session.Reach.{dref-cases}
use livezure.Service.Session.Accounts.{Accounts, try_get_child}

node_of-Absent :
    (fd a : ℕ) (t : List Node) (n : Node) → Absent a t → node_of fd t ≡ some n → n.address ≢ a
node_of-Absent fd a [] n b e = cc
node_of-Absent fd a (m ∷ rest) n b e = elim (Bool-cases (m.session.fd == fd)) [
  | inl here ↦ (let same : m ≡ n = ground arith in rw (← same) b.0)
  | inr there ↦ node_of-Absent fd a rest n b.1 (ground arith)
]

-- `online_session_ref` finds the first node of the socket, or leaves the table alone.
pub ref-node_of :
    (fd : ℕ) (t : List Node) (n : Node) → node_of fd t ≡ some n → (ref fd t).0 ≡ some n.address
unfolding ref
ref-node_of fd [] n e = cc
ref-node_of fd (m ∷ rest) n e = ground (arith, ref-node_of fd rest n)

pub ref_missing : (fd : ℕ) (t : List Node) → node_of fd t ≡ none → ref fd t ≡ (none, t)
unfolding ref
ref_missing fd [] e = refl
ref_missing fd (m ∷ rest) e = ground (arith, ref_missing fd rest)

pub session_at-ref :
    (fd : ℕ) (t : List Node) (n : Node)
    → IsUnique t
    → node_of fd t ≡ some n
    → session_at n.address (ref fd t).1 ≡ ok n.session
unfolding session_at ref
session_at-ref fd [] n u e = cc
session_at-ref fd (m ∷ rest) n u e = elim (Bool-cases (m.session.fd == fd)) [
  | inl here ↦ ground arith
  | inr there ↦
      (let apart =
          node_of-Absent fd m.address rest n (LaterClear-Absent m rest u.0) (ground arith) in
        let later = session_at-ref fd rest n u.1 (ground arith) in ground arith)
]

-- `online_session_dref` undoes it.
pub dref-ref :
    (fd : ℕ) (t : List Node) (n : Node)
    → IsUnique t
    → node_of fd t ≡ some n
    → dref n.address (ref fd t).1 ≡ ok t
unfolding dref ref put
dref-ref fd [] n u e = cc
dref-ref fd (m ∷ rest) n u e = elim (Bool-cases (m.session.fd == fd)) [
  | inl here ↦ ground arith
  | inr there ↦
      (let apart =
          node_of-Absent fd m.address rest n (LaterClear-Absent m rest u.0) (ground arith) in
        let later = dref-ref fd rest n u.1 (ground arith) in ground arith)
]

-- What a lookup of a session finds does not depend on the references.
pub try_get_child-dref :
    (db : Accounts) (ref_admin_uuid uuid : List ℕ) (a : ℕ) (t t' : List Node)
    → dref a t ≡ ok t'
    → try_get_child db ref_admin_uuid uuid t ≡ try_get_child db ref_admin_uuid uuid t'
unfolding try_get_child
try_get_child-dref db ref_admin_uuid uuid a [] t' e = absurd (unfold dref in ground arith)
try_get_child-dref db ref_admin_uuid uuid a (n ∷ rest) t' e = elim (dref-cases a n rest t' e) [
  | inl here ↦ rw here refl
  | inr (r, e', at) ↦ rw (at, try_get_child-dref db ref_admin_uuid uuid a rest r e') refl
]
