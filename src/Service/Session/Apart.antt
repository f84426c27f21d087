-- ===== src/Service/Session/Apart.antt =====
-- Which two sessions are never online together.
use livezure.Prelude.{ℕ, ◌≡◌, ◌≢◌, true, false, List, [], ◌∷◌, text_eq, text_eq_refl, arith}
use livezure.Service.Session.{Session, Node, conflicts}
use livezure.Service.Session.Unique.{LaterClear, IsUnique}
use livezure.Service.Session.Reach.{Reach, Reach-IsUnique}

-- Two sessions, the second of which logged in later: they have different sockets; if the later one
-- is an admin, they have different names; if it is a user, they are not one user of one admin.
pub record Apart (earlier later : Session) : Type 0 where
  pub sockets : earlier.fd ≢ later.fd
  pub admins : later.is_admin ≡ true → earlier.basic.uuid ≢ later.basic.uuid
  pub users :
      later.is_admin ≡ false
      → earlier.ref_admin_uuid ≡ later.ref_admin_uuid
      → earlier.basic.uuid ≢ later.basic.uuid

-- A session and all that logged in after it, and their addresses.
abbrev pub ApartFrom : Node → List Node → Type 0
ApartFrom n [] = Unit
ApartFrom n (m ∷ rest) = Apart n.session m.session × (n.address ≢ m.address) × ApartFrom n rest

abbrev pub AllApart : List Node → Type 0
AllApart [] = Unit
AllApart (n ∷ rest) = ApartFrom n rest × AllApart rest

equal_text : (a b : List ℕ) → a ≡ b → text_eq a b ≡ true
equal_text a b e = rw e (text_eq_refl b)

conflicts-Apart : (later earlier : Session) → conflicts later earlier ≡ false → Apart earlier later
unfolding conflicts
conflicts-Apart later earlier h = record {
  sockets = λ e. ground arith;
  admins = λ admin e. let same = equal_text earlier.basic.uuid later.basic.uuid e in ground arith;
  users = λ user ref e.
      let refs = equal_text earlier.ref_admin_uuid later.ref_admin_uuid ref in
      let same = equal_text earlier.basic.uuid later.basic.uuid e in ground arith;
}

LaterClear-Apart : (n : Node) (rest : List Node) → LaterClear n rest → ApartFrom n rest
LaterClear-Apart n [] c = tt
LaterClear-Apart n (m ∷ rest) c =
    (conflicts-Apart m.session n.session c.0, c.1, LaterClear-Apart n rest c.2)

IsUnique-Apart : (t : List Node) → IsUnique t → AllApart t
IsUnique-Apart [] u = tt
IsUnique-Apart (n ∷ rest) u = (LaterClear-Apart n rest u.0, IsUnique-Apart rest u.1)

-- In no table that the service comes to, by logins, heartbeats, logouts, ticks of the timer, and
-- references taken and given back, do two sessions have one socket, nor is one online with the
-- name of an admin that logged in after it, nor are two one user of one admin. Nor do two entries
-- stand at one address. Each of these calls ends, or waits in pref_release, before the next begins,
-- and a login that waits is not followed when it wakes.
pub Reach-Apart : {t : List Node} → Reach t → AllApart t
Reach-Apart {t} r = IsUnique-Apart t (Reach-IsUnique r)
