-- ===== src/Service/Session/Unique.antt =====
-- No two sessions that are online conflict, and no two nodes stand at one address.
use livezure.Prelude.{ℕ, ◌≡◌, ◌≢◌, refl, Bool, false, List, [], ◌∷◌, sym}
use livezure.Service.Session.{Node, conflicts}

-- The session of a later node would not have put out this one.
abbrev pub LaterClear : Node → List Node → Type 0
LaterClear n [] = Unit
LaterClear n (m ∷ rest) =
    (conflicts m.session n.session ≡ false) × (n.address ≢ m.address) × LaterClear n rest

abbrev pub IsUnique : List Node → Type 0
IsUnique [] = Unit
IsUnique (n ∷ rest) = LaterClear n rest × IsUnique rest

-- The same session at the same address, with another heartbeat, mark or count.
pub record SameUser (n m : Node) : Type 0 where
  pub heartbeat : Bool
  pub session : m.session ≡ record n.session { is_heartbeated = heartbeat }
  pub address : m.address ≡ n.address

-- A table from which nodes are gone, the others being the same users in the same order.
pub data Kept : List Node → List Node → Type 0 where
  nil : Kept [] []
  keep : {n m : Node} {ns ms : List Node} → SameUser n m → Kept ns ms → Kept (n ∷ ns) (m ∷ ms)
  gone : {n : Node} {ns ms : List Node} → Kept ns ms → Kept (n ∷ ns) ms

conflicts-same :
    {n m n' m' : Node}
    → SameUser n m
    → SameUser n' m'
    → conflicts n'.session n.session ≡ false
    → conflicts m'.session m.session ≡ false
unfolding conflicts
conflicts-same s s' h = rw (s.session, s'.session) h

Kept-LaterClear :
    {n m : Node} {ns ms : List Node} → SameUser n m → Kept ns ms → LaterClear n ns → LaterClear m ms
Kept-LaterClear s nil c = tt
Kept-LaterClear s (keep s' k) c =
    (conflicts-same s s' c.0, rw (s.address, s'.address) c.1, Kept-LaterClear s k c.2)
Kept-LaterClear s (gone k) c = Kept-LaterClear s k c.2

pub Kept-IsUnique : {ns ms : List Node} → Kept ns ms → IsUnique ns → IsUnique ms
Kept-IsUnique nil u = tt
Kept-IsUnique (keep s k) u = (Kept-LaterClear s k u.0, Kept-IsUnique k u.1)
Kept-IsUnique (gone k) u = Kept-IsUnique k u.1

pub SameUser-refl : (n : Node) → SameUser n n
SameUser-refl n = record { heartbeat = n.session.is_heartbeated; session = refl; address = refl }

pub Kept-refl : (ns : List Node) → Kept ns ns
Kept-refl [] = nil
Kept-refl (n ∷ ns) = keep (SameUser-refl n) (Kept-refl ns)

SameUser-trans : {l m n : Node} → SameUser l m → SameUser m n → SameUser l n
SameUser-trans s t = record {
  heartbeat = t.heartbeat;
  session = rw (t.session, s.session);
  address = rw (t.address, s.address);
}

pub Kept-trans : {ls ms ns : List Node} → Kept ls ms → Kept ms ns → Kept ls ns
Kept-trans nil nil = nil
Kept-trans (keep s k) (keep s' k') = keep (SameUser-trans s s') (Kept-trans k k')
Kept-trans (keep s k) (gone k') = gone (Kept-trans k k')
Kept-trans (gone k) k' = gone (Kept-trans k k')

-- No reference to a session is held.
abbrev pub AllFree : List Node → Type 0
AllFree [] = Unit
AllFree (n ∷ rest) = (n.refcount ≡ 0) × AllFree rest

-- No node stands at the address.
abbrev pub Absent : ℕ → List Node → Type 0
Absent a [] = Unit
Absent a (n ∷ rest) = (n.address ≢ a) × Absent a rest

pub LaterClear-Absent : (n : Node) (rest : List Node) → LaterClear n rest → Absent n.address rest
LaterClear-Absent n [] c = tt
LaterClear-Absent n (m ∷ rest) c = (λ e. c.1 (sym e), LaterClear-Absent n rest c.2)
