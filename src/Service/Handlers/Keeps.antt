-- ===== src/Service/Handlers/Keeps.antt =====
-- A handler that gives its reference back: what it comes to, described without references.
use livezure.Prelude.{
  ℕ, ◌≡◌, refl, ◌∙◌, List, Option, none, some, Run, ok, fault, ◌>>=◌, >>=-eq-ok, arith, bytes,
}
use livezure.Service.Session.{Session, Node, ref, dref, session_at}
use livezure.Service.Session.Unique.{IsUnique}
use livezure.Service.Session.Borrow.{ref-node_of, ref_missing, session_at-ref, dref-ref}
use livezure.Service.Session.Keep.{node_of}
use livezure.Service.Handlers.{Reply, rid, World, leave, release}

-- What a handler decides from its session and the database alone.
abbrev pub Policy : Type 0 → Type 0
Policy D = Session → D → Run (Reply × D)

module _ {D : Type 0} where
  abbrev pub with_table : List Node → Reply × D → Run (Reply × World D)
  with_table t (reply, d) = ok (reply, record { table = t; database = d })

  -- The policy for the session of a socket; the table is not changed.
  unfoldable pub answered : Option Node → World D → Policy D → Run (Reply × World D)
  answered none w policy = ok (rid (bytes "-300"), w)
  answered (some n) w policy = policy n.session w.database >>= with_table w.table

  pub >>=-back {ℓ} :
      {A : Type ℓ} (m : Run A) (f : A → Run (Reply × World D)) (g : A → Run (Reply × D))
      (k : Reply × D → Run (Reply × World D))
      → ((x : A) → f x ≡ g x >>= k)
      → m >>= f ≡ (m >>= g) >>= k
  >>=-back (fault why) f g k h = refl
  >>=-back (ok x) f g k h = h x

  pub leave_lem :
      (a : ℕ) (reply : Reply) (w : World D) (t : List Node)
      → dref a w.table ≡ ok t
      → leave a reply w ≡ with_table t (reply, w.database)
  unfolding leave release
  leave_lem a reply w t e = rw e

  -- The part of a handler that has the session: where the reference can be given back, it does what
  -- the policy says, and gives the reference back.
  abbrev pub Follows :
      (ℕ → World D → Session → Run (Reply × World D)) → (List Node → Policy D) → Type 0
  Follows body policy =
      (a : ℕ) (w : World D) (s : Session) (t : List Node)
      → dref a w.table ≡ ok t
      → body a w s ≡ policy t s w.database >>= with_table t

  module _ (enter : World D → Option ℕ → Run (Reply × World D))
      (body : ℕ → World D → Session → Run (Reply × World D)) (policy : List Node → Policy D)
      (expired : (w : World D) → enter w none ≡ ok (rid (bytes "-300"), w))
      (goes : (w : World D) (a : ℕ) → enter w (some a) ≡ session_at a w.table >>= body a w)
      (follows : Follows body policy) (fd : ℕ) (w : World D) where
    for_node :
        (o : Option Node)
        → IsUnique w.table
        → node_of fd w.table ≡ o
        → enter (record w { table = (ref fd w.table).1 }) (ref fd w.table).0
          ≡ answered o w (policy w.table)
    unfolding answered
    for_node none u e = rw (ref_missing fd w.table e) (expired w)
    for_node (some n) u e = rw (ref-node_of fd w.table n e) (
        goes (record w { table = (ref fd w.table).1 }) n.address
        ∙ rw (session_at-ref fd w.table n u e) (
            follows n.address (record w { table = (ref fd w.table).1 }) n.session w.table
              (dref-ref fd w.table n u e)))

    pub answered_lem :
        IsUnique w.table
        → enter (record w { table = (ref fd w.table).1 }) (ref fd w.table).0
          ≡ answered (node_of fd w.table) w (policy w.table)
    answered_lem u = for_node (node_of fd w.table) u refl

  -- A policy that is answered leaves the table as it is.
  pub answered-table :
      (o : Option Node) (w w' : World D) (policy : Policy D) (reply : Reply)
      → answered o w policy ≡ ok (reply, w')
      → w'.table ≡ w.table
  unfolding answered
  answered-table none w w' policy reply e = ground arith
  answered-table (some n) w w' policy reply e =
      let q = >>=-eq-ok (policy n.session w.database) (with_table w.table) {t = (reply, w')} e in
      ground (arith, q.2)
