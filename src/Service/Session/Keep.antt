-- ===== src/Service/Session/Keep.antt =====
-- Which sessions a tick of the heartbeat timer leaves, and what becomes of references to others.
use livezure.Prelude.{
  ℕ, ◌≡◌, ◌≢◌, refl, ap, sym, ◌∙◌, Bool, true, false, ◌==◌, if◌then◌else◌, List, [], ◌∷◌, Option,
  none, some, arith, Bool-cases, inl, inr, ◌⊎◌, fault, failed_assert,
}
use livezure.Service.Session.{
  Node, Outcome, done, waits, ahead, remove, need_delete, clear_heartbeat, check_all, dref,
}
use livezure.Service.Session.Unique.{IsUnique, AllFree, Absent, LaterClear-Absent}
use livezure.Service.Session.Tick.{Ticks, check_all-Ticks, check_delete, check_pass, clear_lem}

-- The first node of a socket.
abbrev pub node_of : ℕ → List Node → Option Node
node_of fd [] = none
node_of fd (n ∷ rest) = if n.session.fd == fd then some n else node_of fd rest

-- What is left of the node of a socket after a tick: the same session, still not marked.
pub record Stays (fd : ℕ) (n : Node) (out : Outcome) : Type 0 where
  pub after : List Node
  pub node : Node
  pub returns : out ≡ done after
  pub found : node_of fd after ≡ some node
  pub same_address : node.address ≡ n.address
  pub same_mark : node.b_mark_deleted ≡ n.b_mark_deleted

first_Stays :
    (fd : ℕ) (m : Node) (rest : List Node) (n : Node)
    → need_delete m ≡ false
    → (m.session.fd == fd) ≡ true
    → Ticks rest
    → m ≡ n
    → Stays fd n (check_all false (m ∷ rest))
unfolding ahead
first_Stays fd m rest n d here q same = record {
  after = clear_heartbeat m ∷ q.after;
  node = clear_heartbeat m;
  returns = rw (check_pass m rest d, q.returns);
  found = rw ((clear_lem m).4, here);
  same_address = (clear_lem m).2 ∙ ap (λ (k : Node). k.address) same;
  same_mark = (clear_lem m).3 ∙ ap (λ (k : Node). k.b_mark_deleted) same;
}

later_Stays :
    (fd : ℕ) (m : Node) (rest : List Node) (n : Node)
    → need_delete m ≡ false
    → (m.session.fd == fd) ≡ false
    → Stays fd n (check_all false rest)
    → Stays fd n (check_all false (m ∷ rest))
unfolding ahead
later_Stays fd m rest n d there q = record {
  after = clear_heartbeat m ∷ q.after;
  node = q.node;
  returns = rw (check_pass m rest d, q.returns);
  found = rw ((clear_lem m).4, there) q.found;
  same_address = q.same_address;
  same_mark = q.same_mark;
}

-- A session that has shown up since the last tick, and has not logged out, stays online over a tick
-- at which no reference to a session is held.
pub check_all-Stays :
    (fd : ℕ) (t : List Node) (n : Node)
    → AllFree t
    → node_of fd t ≡ some n
    → need_delete n ≡ false
    → Stays fd n (check_all false t)
check_all-Stays fd [] n f e h = cc
check_all-Stays fd (m ∷ rest) n f e h = elim (Bool-cases (need_delete m)) [
  | inl d ↦ record {
    after = rest;
    node = n;
    returns = check_delete m rest d f.0;
    found = ground arith;
    same_address = refl;
    same_mark = refl;
  }
  | inr d ↦ elim (Bool-cases (m.session.fd == fd)) [
    | inl here ↦ first_Stays fd m rest n d here (check_all-Ticks rest f.1) (ground arith)
    | inr there ↦ later_Stays fd m rest n d there (check_all-Stays fd rest n f.1 (ground arith) h)
  ]
]

ahead-waits :
    (m n : Node) (o : Outcome) (rest : List Node)
    → ahead m o ≡ waits n rest
    → (r : List Node) × (o ≡ waits n r) × (rest ≡ m ∷ r)
unfolding ahead
ahead-waits m n (done t) rest e = cc
ahead-waits m n (waits g t) rest e = (t, ground arith, ground arith)

dref-Absent : (a : ℕ) (t : List Node) → Absent a t → dref a t ≡ fault failed_assert
unfolding dref
dref-Absent a [] b = refl
dref-Absent a (n ∷ rest) b = ground (arith, dref-Absent a rest b.1)

dref_behind :
    (m n : Node) (rest : List Node)
    → m.address ≢ n.address
    → dref n.address rest ≡ fault failed_assert
    → dref n.address (m ∷ rest) ≡ fault failed_assert
unfolding dref
dref_behind m n rest ne e = ground arith

-- The ways in which a check of a list waits: at its first node, or behind it.
check_all-waits :
    (stop : Bool) (m n : Node) (t rest : List Node)
    → check_all stop (m ∷ t) ≡ waits n rest
    → ((m ≡ n) × (t ≡ rest))
      ⊎ ((r : List Node) × (check_all stop t ≡ waits n r) × (rest ≡ clear_heartbeat m ∷ r))
unfolding check_all remove
check_all-waits true m n t rest e = cc
check_all-waits false m n t rest e = elim (Bool-cases (need_delete m)) [
  | inl d ↦ inl (ground arith, ground arith)
  | inr d ↦ inr (ahead-waits (clear_heartbeat m) n (check_all false t) rest (ground arith))
]

waits-Absent :
    (stop : Bool) (a : ℕ) (t rest : List Node) (n : Node)
    → Absent a t
    → check_all stop t ≡ waits n rest
    → n.address ≢ a
waits-Absent stop a [] rest n b e = absurd (unfold check_all in ground arith)
waits-Absent stop a (m ∷ t) rest n b e = elim (check_all-waits stop m n t rest e) [
  | inl same ↦ rw (← same.0) b.0
  | inr (r, e', _) ↦ waits-Absent stop a t r n b.1 e'
]

-- A tick that has to wait for a reference, where no two sessions conflict or share an address, has
-- its node off the list: `online_session_dref` of the session, which would give the reference back,
-- runs into its assertion.
pub dref_off_list :
    (t rest : List Node) (n : Node) (stop : Bool)
    → IsUnique t
    → check_all stop t ≡ waits n rest
    → dref n.address rest ≡ fault failed_assert
dref_off_list [] rest n stop u e = absurd (unfold check_all in ground arith)
dref_off_list (m ∷ t) rest n stop u e = elim (check_all-waits stop m n t rest e) [
  | inl same ↦ rw (← same.0, ← same.1) (dref-Absent m.address t (LaterClear-Absent m t u.0))
  | inr (r, e', at) ↦ rw at (
      dref_behind (clear_heartbeat m) n r
        (rw (clear_lem m).2
          (λ p. waits-Absent stop m.address t r n (LaterClear-Absent m t u.0) e' (sym p)))
        (dref_off_list t r n stop u.1 e'))
]
