-- ===== src/Service/Session/Login.antt =====
-- `online_session_add`: who stays online when a session logs in.
use livezure.Prelude.{
  ℕ, ◌≡◌, ◌≢◌, refl, false, ◌==◌, if◌then◌else◌, List, [], ◌∷◌, ◌++◌, some, arith, Bool-cases, inl,
  inr,
}
use livezure.Service.Session.{
  Session, Node, done, ahead, remove, conflicts, drop_conflicts, fresh_node, link_last, add, ref,
}
use livezure.Service.Session.Unique.{LaterClear, IsUnique, AllFree, Absent}

-- The nodes that the session does not put out.
abbrev pub kept : Session → List Node → List Node
kept s [] = []
kept s (n ∷ rest) = if conflicts s n.session then kept s rest else n ∷ kept s rest

pub drop_conflicts-kept :
    (s : Session) (t : List Node) → AllFree t → drop_conflicts s t ≡ done (kept s t)
unfolding drop_conflicts remove ahead
drop_conflicts-kept s [] f = refl
drop_conflicts-kept s (n ∷ rest) f = ground (arith, drop_conflicts-kept s rest f.1)

pub kept-AllFree : (s : Session) (t : List Node) → AllFree t → AllFree (kept s t)
kept-AllFree s [] f = tt
kept-AllFree s (n ∷ rest) f = elim (Bool-cases (conflicts s n.session)) [
  | inl e ↦ rw e (kept-AllFree s rest f.1)
  | inr e ↦ rw e (f.0, kept-AllFree s rest f.1)
]

-- A login with no reference held returns: it keeps those that do not conflict, in order, and puts
-- the new session last.
pub add-kept :
    (s : Session) (address : ℕ) (t : List Node)
    → AllFree t
    → add s address t ≡ done (kept s t ++ (fresh_node s address ∷ []))
unfolding add link_last
add-kept s address t f = rw (drop_conflicts-kept s t f)

LaterClear-kept :
    (s : Session) (n : Node) (t : List Node) → LaterClear n t → LaterClear n (kept s t)
LaterClear-kept s n [] c = tt
LaterClear-kept s n (m ∷ rest) c = elim (Bool-cases (conflicts s m.session)) [
  | inl e ↦ rw e (LaterClear-kept s n rest c.2)
  | inr e ↦ rw e (c.0, c.1, LaterClear-kept s n rest c.2)
]

LaterClear-snoc :
    (n m : Node) (t : List Node)
    → LaterClear n t
    → conflicts m.session n.session ≡ false
    → n.address ≢ m.address
    → LaterClear n (t ++ (m ∷ []))
LaterClear-snoc n m [] c h a = (h, a, tt)
LaterClear-snoc n m (x ∷ rest) c h a = (c.0, c.1, LaterClear-snoc n m rest c.2 h a)

pub kept-IsUnique :
    (s : Session) (address : ℕ) (t : List Node)
    → IsUnique t
    → Absent address t
    → IsUnique (kept s t ++ (fresh_node s address ∷ []))
unfolding fresh_node
kept-IsUnique s address [] u a = (tt, tt)
kept-IsUnique s address (n ∷ rest) u a = elim (Bool-cases (conflicts s n.session)) [
  | inl e ↦ rw e (kept-IsUnique s address rest u.1 a.1)
  | inr e ↦ rw e (
    LaterClear-snoc n (fresh_node s address) (kept s rest) (LaterClear-kept s n rest u.0) e a.0,
    kept-IsUnique s address rest u.1 a.1,
  )
]

conflicts-fd : (s o : Session) → conflicts s o ≡ false → (o.fd == s.fd) ≡ false
unfolding conflicts
conflicts-fd s o h = ground arith

pub ref-kept :
    (s : Session) (address : ℕ) (t : List Node)
    → (ref s.fd (kept s t ++ (fresh_node s address ∷ []))).0 ≡ some address
unfolding ref fresh_node
ref-kept s address [] = ground arith
ref-kept s address (n ∷ rest) = elim (Bool-cases (conflicts s n.session)) [
  | inl e ↦ rw e (ref-kept s address rest)
  | inr e ↦ rw (e, conflicts-fd s n.session e) (ref-kept s address rest)
]

-- A login with no reference held returns. Those sessions stay, in order, that it does not put out,
-- the new one stands last, and its socket leads to it.
pub add_lem :
    (s : Session) (address : ℕ) (t : List Node)
    → AllFree t
    → (t' : List Node) × (add s address t ≡ done t')
      × (t' ≡ kept s t ++ (fresh_node s address ∷ []))
      × ((ref s.fd t').0 ≡ some address)
add_lem s address t f =
    (kept s t ++ (fresh_node s address ∷ []), add-kept s address t f, refl, ref-kept s address t)
