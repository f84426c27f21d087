-- ===== src/Service/Handlers/Permission.antt =====
-- When the policies of the handlers of accounts and devices may change the database.
use livezure.Prelude.{
  ap, ◌∙◌, >>=-eq-ok, Bool, false, ◌≡◌, refl, ◌⊎◌, inl, inr, true, not, Bool-cases, List, Option,
  none, some, Run, ok, ◌>>=◌, Holds, ok-Holds, if-Holds, bind-Holds, Text, bytes, arith,
}
use livezure.Service.Session.{Basic, Session, Node}
use livezure.Service.Database.{Provider, exists_row}
use livezure.Service.Database.Users.{
  User, License, Wanted, existence, admin, sql_login, sql_basic, license_get, user_of, no_user_data,
  found_user, must_exist, known_user, check_user_exist, check_user_is_ok,
}
use livezure.Service.Handlers.{Reply, rid, World}
use livezure.Service.Handlers.Account.{admin_of}
use livezure.Service.Handlers.Devices.{Action}
use livezure.Service.Handlers.Keeps.{Policy, answered, with_table}
use livezure.Service.Handlers.Policies.{
  create_policy, modify_policy, modify_policy_if, delete_policy, delete_policy_if,
}
use livezure.Service.Handlers.AdminPolicies.{
  admin_policy, admin_policy_if, list_policy, list_policy_if,
}

-- What allows a change, said of the session of a socket.
abbrev pub ForNode : Option Node → (Session → Type 0) → Type 0
ForNode o P = (n : Node) × (o ≡ some n) × P n.session

module _ {D : Type 0} where
  -- The database is as it was, or there was leave to change it.
  abbrev pub Unless : Type 0 → D → Reply × D → Type 0
  Unless P d (reply, d') = (d' ≡ d) ⊎ P

  abbrev pub UnlessIn : Type 0 → World D → Reply × World D → Type 0
  UnlessIn P w (reply, w') = (w'.database ≡ w.database) ⊎ P

  pub weaken :
      (P Q : Type 0) (w : World D) (result : Run (Reply × World D))
      → (P → Q)
      → Holds (UnlessIn P w) result
      → Holds (UnlessIn Q w) result
  weaken P Q w result f h (reply, w') e = elim (h (reply, w') e) [
    | inl same ↦ inl same
    | inr p ↦ inr (f p)
  ]

  pub answered-Unless :
      (P : Session → Type 0) (w : World D) (o : Option Node) (policy : Policy D)
      → ((s : Session) → Holds (Unless (P s) w.database) (policy s w.database))
      → Holds (UnlessIn (ForNode o P) w) (answered o w policy)
  unfolding answered
  answered-Unless P w none policy h =
      ok-Holds (UnlessIn (ForNode none P) w) (rid (bytes "-300"), w) (inl refl)
  answered-Unless P w (some n) policy h =
      bind-Holds (UnlessIn (ForNode (some n) P) w) (policy n.session w.database)
        (with_table w.table) keep
    where
      allow : (d : D) → (d ≡ w.database) ⊎ P n.session → (d ≡ w.database) ⊎ ForNode (some n) P
      allow d (inl same) = inl same
      allow d (inr p) = inr (n, refl, p)

      keep :
          (r : Reply × D)
          → policy n.session w.database ≡ ok r
          → Holds (UnlessIn (ForNode (some n) P) w) (with_table w.table r)
      keep (reply, d) e =
          ok-Holds (UnlessIn (ForNode (some n) P) w)
            (reply, record { table = w.table; database = d }) (allow d (h n.session (reply, d) e))

module _ {D : Type 0} (db : Provider D) (s : Session) (d : D) where
  pub create_policy-Unless :
      (account : Basic) → Holds (Unless (s.is_admin ≡ true) d) (create_policy db account s d)
  unfolding create_policy
  create_policy-Unless account (reply, d') e = elim (Bool-cases s.is_admin) [
    | inl admin' ↦ inr admin'
    | inr plain ↦ inl (ground arith)
  ]

  -- There is a row for the query with the session's name and the hash of a password.
  abbrev pub Knows : Text → Type 0
  Knows pwd =
      (hash : Text) × (db.gen_hash_key pwd ≡ ok hash)
      × (exists_row db d (sql_login s.basic.uuid hash) ≡ ok true)

  -- There is a row of a licence for the session's name.
  abbrev pub Licensed : Type 0
  Licensed = (license : License) × (license_get db d s.basic.uuid ≡ ok (some license))

  found_exists :
      (user : User) (found : Option User) → must_exist found ≡ ok (some user) → found ≡ some user
  unfolding must_exist
  found_exists user none e = cc
  found_exists user (some u) e = cc

  known_exists :
      (uuid : Text) (wanted : Wanted) (user : User) (r : Bool)
      → known_user db d uuid wanted r ≡ ok (some user)
      → (r ≡ true) × (check_user_exist db d uuid wanted ≡ ok (some user))
  unfolding known_user
  known_exists uuid wanted user false e = cc
  known_exists uuid wanted user true e =
      let found = >>=-eq-ok (check_user_exist db d uuid wanted) must_exist e in
      (refl, found.1 ∙ ap ok (found_exists user found.0 found.2))

  known-Knows :
      (pwd : Text) (wanted : Wanted) (user : User)
      → check_user_is_ok db d s.basic.uuid pwd wanted ≡ ok (some user)
      → Knows pwd × (check_user_exist db d s.basic.uuid wanted ≡ ok (some user))
  unfolding check_user_is_ok
  known-Knows pwd wanted user e =
      let hashed = >>=-eq-ok (db.gen_hash_key pwd) _ e in
      let row = >>=-eq-ok (exists_row db d (sql_login s.basic.uuid hashed.0)) _ hashed.2 in
      let known = known_exists s.basic.uuid wanted user row.0 row.2 in
      ((hashed.0, hashed.1, row.1 ∙ ap ok known.0), known.1)

  licensed_user :
      (user : User) (license : Option License)
      → (user_of db d s.basic.uuid admin license >>= λ u. ok (some u)) ≡ ok (some user)
      → user.is_admin ≡ true
      → (l : License) × (license ≡ some l)
  unfolding user_of no_user_data
  licensed_user user none e is = cc
  licensed_user user (some l) e is = (l, refl)

  found_licensed :
      (user : User) (r : Bool)
      → found_user db d s.basic.uuid admin r ≡ ok (some user)
      → user.is_admin ≡ true
      → Licensed
  unfolding found_user
  found_licensed user false e is = cc
  found_licensed user true e is =
      let read = >>=-eq-ok (license_get db d s.basic.uuid) _ e in
      let l = licensed_user user read.0 read.2 is in (l.0, read.1 ∙ ap ok l.1)

  admin-Licensed :
      (user : User)
      → check_user_exist db d s.basic.uuid admin ≡ ok (some user)
      → user.is_admin ≡ true
      → Licensed
  unfolding check_user_exist
  admin-Licensed user e is =
      let row = >>=-eq-ok (exists_row db d (sql_basic s.basic.uuid)) _ e in
      found_licensed user row.0 row.2 is

  pub modify_policy-Unless :
      (old_pwd new_pwd : Text)
      → Holds (Unless (Knows old_pwd) d) (modify_policy db old_pwd new_pwd s d)
  unfolding modify_policy
  modify_policy-Unless old_pwd new_pwd =
      bind-Holds (Unless (Knows old_pwd) d) (check_user_is_ok db d s.basic.uuid old_pwd existence)
        (modify_policy_if db new_pwd s d) cases
    where
      cases :
          (user : Option User)
          → check_user_is_ok db d s.basic.uuid old_pwd existence ≡ ok user
          → Holds (Unless (Knows old_pwd) d) (modify_policy_if db new_pwd s d user)
      cases none e result e' = inl (unfold modify_policy_if in ground arith)
      cases (some user) e result e' = inr (known-Knows old_pwd existence user e).0

  pub delete_policy-Unless :
      (pwd del_uuid : Text)
      → Holds (Unless (Knows pwd × Licensed) d) (delete_policy db pwd del_uuid s d)
  unfolding delete_policy
  delete_policy-Unless pwd del_uuid =
      bind-Holds (Unless (Knows pwd × Licensed) d) (check_user_is_ok db d s.basic.uuid pwd admin)
        (delete_policy_if db del_uuid s d) cases
    where
      cases :
          (user : Option User)
          → check_user_is_ok db d s.basic.uuid pwd admin ≡ ok user
          → Holds (Unless (Knows pwd × Licensed) d) (delete_policy_if db del_uuid s d user)
      cases none e result e' = inl (unfold delete_policy_if in ground arith)
      cases (some user) e result e' = elim (Bool-cases user.is_admin) [
        | inl admin' ↦
            let k = known-Knows pwd admin user e in inr (k.0, admin-Licensed user k.1 admin')
        | inr plain ↦ inl (unfold delete_policy_if in ground arith)
      ]

  pub admin_policy-Unless :
      (action : Action D) → Holds (Unless Licensed d) (admin_policy db action s d)
  unfolding admin_policy
  admin_policy-Unless action =
      bind-Holds (Unless Licensed d) (check_user_exist db d s.basic.uuid admin)
        (admin_policy_if db action s d) cases
    where
      cases :
          (user : Option User)
          → check_user_exist db d s.basic.uuid admin ≡ ok user
          → Holds (Unless Licensed d) (admin_policy_if db action s d user)
      cases none e result e' = inl (unfold admin_policy_if admin_of in ground arith)
      cases (some user) e result e' = elim (Bool-cases user.is_admin) [
        | inl admin' ↦ inr (admin-Licensed user e admin')
        | inr plain ↦ inl (unfold admin_policy_if admin_of in ground arith)
      ]

module _ {D : Type 0} (db : Provider D) (query : List Node → D → Text → Run Reply) where
  pub list_policy-Unless :
      (t : List Node) (s : Session) (d : D) → Holds (Unless ⊥ d) (list_policy db query t s d)
  unfolding list_policy list_policy_if
  list_policy-Unless t s d =
      bind-Holds (Unless ⊥ d) (check_user_exist db d s.basic.uuid admin)
        (list_policy_if db query t s d) cases
    where
      cases :
          (user : Option User)
          → check_user_exist db d s.basic.uuid admin ≡ ok user
          → Holds (Unless ⊥ d) (list_policy_if db query t s d user)
      cases none e result e' = cc
      cases (some user) e result e' =
          if-Holds (Unless ⊥ d) (not user.is_admin) (ok (rid (bytes "-1"), d))
            (query t d s.basic.uuid >>= λ reply. ok (reply, d))
            (λ plain. ok-Holds (Unless ⊥ d) (rid (bytes "-1"), d) (inl refl))
            (λ admin'.
              bind-Holds (Unless ⊥ d) (query t d s.basic.uuid) (λ reply. ok (reply, d))
                (λ reply e''. ok-Holds (Unless ⊥ d) (reply, d) (inl refl)))
            result e'
