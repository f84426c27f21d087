-- ===== src/Service/Session/Unseen.antt =====
-- Whom online_session_try_get_admin and online_session_try_get_child find after `req_account_login`.
use livezure.Prelude.{
  ℕ, ◌≤◌, ◌≡◌, refl, ◌∙◌, true, false, not, ◌&&◌, Bool-cases, inl, inr, List, [], ◌∷◌, ◌++◌, length,
  take, take-all, some, ok, ◌>>=◌, text_eq, text_eq_refl, arith,
}
use mathlib.Core.Path.{subst}
use livezure.Service.Session.{Basic, Session, Node, done, conflicts, fresh_node}
use livezure.Service.Session.Unique.{AllFree}
use livezure.Service.Session.Login.{kept, add-kept}
use livezure.Service.Session.Accounts.{
  Accounts, only_account, session_of, accepted, login_as, req_account_login, offline, admin_from,
  try_get_admin, try_get_child,
}

-- No admin that is online has the name of an admin of its own.
abbrev pub AllPlain : List Node → Type 0
AllPlain [] = Unit
AllPlain (n ∷ rest) = (n.session.is_admin ≡ true → n.session.ref_admin_uuid ≡ []) × AllPlain rest

AllPlain-kept : (s : Session) (t : List Node) → AllPlain t → AllPlain (kept s t)
AllPlain-kept s [] p = tt
AllPlain-kept s (n ∷ rest) p = elim (Bool-cases (conflicts s n.session)) [
  | inl e ↦ rw e (AllPlain-kept s rest p.1)
  | inr e ↦ rw e (p.0, AllPlain-kept s rest p.1)
]

AllPlain-append :
    (n : Node) (t : List Node)
    → AllPlain t
    → (n.session.is_admin ≡ true → n.session.ref_admin_uuid ≡ [])
    → AllPlain (t ++ (n ∷ []))
AllPlain-append n [] p h = (h, tt)
AllPlain-append n (m ∷ rest) p h = (p.0, AllPlain-append n rest p.1 h)

try_get_admin-AllPlain :
    (db : Accounts) (x : ℕ) (xs : List ℕ) (t : List Node)
    → AllPlain t
    → try_get_admin db (x ∷ xs) t ≡ (db.list_admin_get (x ∷ xs) >>= admin_from)
unfolding try_get_admin
try_get_admin-AllPlain db x xs [] p = refl
try_get_admin-AllPlain db x xs (n ∷ rest) p = elim (Bool-cases n.session.is_admin) [
  | inl e ↦
      let plain = p.0 e in
      rw (plain, e, try_get_admin-AllPlain db x xs rest p.1) (unfold text_eq in refl)
  | inr e ↦ rw (e, try_get_admin-AllPlain db x xs rest p.1) refl
]

-- An admin that logs in, where no reference is held and no admin that is online has the name of an
-- admin of its own, leaves a list of which that is still true; but looked for by its name it is
-- not found there, and is given as it is in the database, not online.
pub login_admin_unseen :
    (db : Accounts) (x : ℕ) (xs pwd ref ip : List ℕ) (fd port address : ℕ) (basic : Basic)
    (t : List Node)
    → db.check_user_is_ok (x ∷ xs) pwd ≡ ok (some (true, ref))
    → db.list_admin_get (x ∷ xs) ≡ ok (some (basic ∷ []))
    → AllFree t
    → AllPlain t
    → (t' : List Node) × (req_account_login db (x ∷ xs) pwd fd ip port address t
        ≡ ok (accepted (done t')))
      × AllPlain t'
      × (try_get_admin db (x ∷ xs) t' ≡ ok (some (offline true basic.uuid basic)))
unfolding req_account_login login_as only_account admin_from
login_admin_unseen db x xs pwd ref ip fd port address basic t checks account free plain =
    let s = session_of true ref fd ip port basic in
    let t' = kept s t ++ (fresh_node s address ∷ []) in
    let plain' : AllPlain t' =
      AllPlain-append (fresh_node s address) (kept s t) (AllPlain-kept s t plain)
        (unfold session_of fresh_node in λ h. refl) in
    (
      t',
      rw (checks, account, add-kept s address t free) refl,
      plain',
      try_get_admin-AllPlain db x xs t' plain' ∙ rw account refl,
    )

no_match :
    (s o : Session)
    → conflicts s o ≡ false
    → s.is_admin ≡ false
    → (not o.is_admin
        && text_eq o.ref_admin_uuid s.ref_admin_uuid
        && text_eq o.basic.uuid s.basic.uuid)
      ≡ false
unfolding conflicts
no_match s o h user = ground arith

try_get_child-kept :
    (db : Accounts) (s : Session) (address : ℕ) (t : List Node)
    → s.is_admin ≡ false
    → try_get_child db s.ref_admin_uuid s.basic.uuid (kept s t ++ (fresh_node s address ∷ []))
      ≡ ok (some s)
unfolding try_get_child fresh_node
try_get_child-kept db s address [] user =
    rw (user, text_eq_refl s.ref_admin_uuid, text_eq_refl s.basic.uuid) refl
try_get_child-kept db s address (n ∷ rest) user = elim (Bool-cases (conflicts s n.session)) [
  | inl e ↦ rw e (try_get_child-kept db s address rest user)
  | inr e ↦ rw (e, no_match s n.session e user, try_get_child-kept db s address rest user) refl
]

found_as :
    (db : Accounts) (s : Session) (address : ℕ) (t : List Node) (ref uuid : List ℕ)
    → s.is_admin ≡ false
    → s.ref_admin_uuid ≡ ref
    → s.basic.uuid ≡ uuid
    → try_get_child db ref uuid (kept s t ++ (fresh_node s address ∷ [])) ≡ ok (some s)
found_as db s address t ref uuid user r u =
    subst (λ k. try_get_child db k uuid (kept s t ++ (fresh_node s address ∷ [])) ≡ ok (some s)) r
      (subst
        (λ k.
          try_get_child db s.ref_admin_uuid k (kept s t ++ (fresh_node s address ∷ []))
          ≡ ok (some s))
        u (try_get_child-kept db s address t user))

-- A user of an admin whose name fits, and that logs in where no reference is held, is found online
-- with the session that it has got.
pub login_user_found :
    (db : Accounts) (uuid pwd ref ip : List ℕ) (fd port address : ℕ) (basic : Basic) (t : List Node)
    → db.check_user_is_ok uuid pwd ≡ ok (some (false, ref))
    → db.list_child_get ref uuid ≡ ok (some (basic ∷ []))
    → basic.uuid ≡ uuid
    → length ref ≤ 16
    → AllFree t
    → (t' : List Node) × (req_account_login db uuid pwd fd ip port address t
        ≡ ok (accepted (done t')))
      × (try_get_child db ref uuid t' ≡ ok (some (session_of false ref fd ip port basic)))
unfolding req_account_login login_as only_account
login_user_found db uuid pwd ref ip fd port address basic t checks account named fits free =
    let s = session_of false ref fd ip port basic in
    let whole : take 17 ref ≡ ref = take-all 17 ref (omega arith) in
    (
      kept s t ++ (fresh_node s address ∷ []),
      rw (checks, account, add-kept s address t free) refl,
      found_as db s address t ref uuid (unfold session_of in refl) (unfold session_of in whole)
          (unfold session_of in named),
    )
