-- ===== src/Service/Database/Failures.antt =====
-- Where db_account.c runs into an assertion or out of a buffer, and what it leaves undone.
use livezure.Prelude.{
  if◌then◌else◌, Bool-cases, inl, inr, ◌+◌, ◌<◌, ◌≡◌, ◌≢◌, refl, ap, ◌∙◌, Bool, true, false, List,
  [], ◌∷◌, ◌++◌, length, length-append, none, some, Run, ok, fault, Fault, failed_assert,
  out_of_range, ◌>>=◌, >>=-eq-ok, arith, ltb, leb, Text, bytes, sprintf, Holds, fault-Holds,
  ok-Holds, bind-Holds, guard, ◌>>◌,
}
use mathlib.Core.Path.{subst}
use livezure.Service.Session.{Basic}
use livezure.Service.Database.{
  Provider, fetch, must, run, is_done, rows_of, quoted, to_lower, lower_name,
}
use livezure.Service.Database.Users.{
  User, existence, check_user_exist, license_del, sql_license_del,
}
use livezure.Service.Database.Accounts.{child_add, add_under, child_del, sql_basic_del}
use livezure.Service.Database.Devices.{device_get, device_del, devices_of, sql_devices, columns}
use livezure.Service.Database.Admins.{admin_del}
use livezure.Service.Database.Schema.{drop_table, reset_statements, all_done, reset}

never {ℓ} : {A : Type ℓ} (m : Run A) → Holds (λ x. ⊥) m → (why : Fault) × (m ≡ fault why)
never (ok x) h = absurd (h x refl)
never (fault why) h = (why, refl)

length-quoted : (t : Text) → length (quoted t) ≡ length t + 2
unfolding quoted bytes
length-quoted t = omega (arith, length-append t (39 ∷ []))

length-columns : length columns ≡ 463
unfolding columns bytes
length-columns = refl

length-sql :
    (admin uuid : Text) → length (sql_devices admin (some uuid)) ≡ 533 + length admin + length uuid
unfolding sql_devices bytes
length-sql admin uuid =
    length-append columns (bytes " WHERE t_account_device.ref_admin_uuid=" ++ rest)
    ∙ omega (
      arith,
      length-columns,
      length-append (quoted admin) (bytes " AND t_account_device.uuid=" ++ quoted uuid),
      length-quoted admin,
      length-quoted uuid,
    )
  where
    rest : Text
    rest = quoted admin ++ (bytes " AND t_account_device.uuid=" ++ quoted uuid)

dropped : List Text → List Text
dropped [] = []
dropped (name ∷ names) = drop_table name ∷ dropped names

abbrev Others : List Text → Type 0
Others [] = Unit
Others (name ∷ names) = (name ≢ bytes "t_account_basic") × Others names

-- The tables of `db_account_reset`.
tables : List Text
tables =
    bytes "t_account_license"
    ∷ bytes "t_account_admin"
    ∷ bytes "t_account_admin"
    ∷ bytes "t_account_child"
    ∷ bytes "t_account_child_permission"
    ∷ bytes "t_device_basic"
    ∷ bytes "t_account_device"
    ∷ []

others : Others tables
unfolding tables bytes
others = (
  λ p. ground arith,
  (
    λ p. ground arith,
    (
      λ p. ground arith,
      (λ p. ground arith, (λ p. ground arith, (λ p. ground arith, (λ p. ground arith, tt)))),
    ),
  ),
)

module _ {D : Type 0} (db : Provider D) where
  -- An admin cannot be deleted: `db_account_admin_del` fails on every database.
  pub admin_del_fails : (d : D) (uuid : Text) → (why : Fault) × (admin_del db d uuid ≡ fault why)
  unfolding admin_del
  admin_del_fails d uuid = never (admin_del db d uuid) (
      bind-Holds (λ x. ⊥) (must db d (sql_basic_del uuid)) _
        (λ d1 e1.
          bind-Holds (λ x. ⊥) (must db d1 (sql_license_del uuid)) _
            (λ d2 e2.
              bind-Holds (λ x. ⊥) (license_del db d2 uuid) _
                (λ d3 e3.
                  bind-Holds (λ x. ⊥) (child_del db d3 uuid none) _
                    (λ d4 e4.
                      bind-Holds (λ x. ⊥) (device_del db d4 uuid none) _
                        (λ d5 e5. fault-Holds (λ x. ⊥) failed_assert))))))

  -- A child with a name of 16 bytes, which `valid_uuid` allows, is read beyond its end where the
  -- admin exists and has a shorter name.
  pub child_add_overruns :
      (d : D) (admin : Text) (account : Basic) (user : User)
      → length account.uuid ≡ 16
      → length admin < 16
      → check_user_exist db d (to_lower admin) existence ≡ ok (some user)
      → child_add db d admin account ≡ fault out_of_range
  unfolding child_add add_under lower_name
  child_add_overruns d admin account user long short exists =
      let fits : leb (length admin) 16 ≡ true = ground arith in
      let below : ltb (length admin) 16 ≡ true = ground arith in rw (fits, below, exists, long) refl

  -- The query for a device fits into its buffer for names of 490 bytes together, and no more: then
  -- its rows are what the engine answers, and otherwise the text is written beyond the buffer.
  pub device_get-fits :
      (d : D) (admin uuid : Text)
      → device_get db d admin (some uuid) ≡ (
          if leb (length admin + length uuid) 490
          then rows_of (db.select d (sql_devices admin (some uuid))) >>= devices_of
          else fault out_of_range)
  unfolding device_get fetch sprintf
  device_get-fits d admin uuid = elim (Bool-cases (leb (length admin + length uuid) 490)) [
    | inl short ↦
        (let fits : ltb (length (sql_devices admin (some uuid))) 1024 ≡ true =
            rw (length-sql admin uuid) (ground arith) in
          rw (short, fits) refl)
    | inr long ↦
        (let over : ltb (length (sql_devices admin (some uuid))) 1024 ≡ false =
            rw (length-sql admin uuid) (ground arith) in
          rw (long, over) refl)
  ]

  printed : (sql query : Text) → sprintf 4096 sql ≡ ok query → sql ≡ query
  unfolding sprintf
  printed sql query e = ground arith

  run-exec : (d : D) (sql : Text) (r : Bool × D) → run db d sql ≡ ok r → (db.exec d sql).1 ≡ r.1
  unfolding run
  run-exec d sql =
      bind-Holds (λ r. (db.exec d sql).1 ≡ r.1) (sprintf 4096 sql) _
        (λ query e.
          bind-Holds (λ r. (db.exec d sql).1 ≡ r.1) (is_done (db.exec d query).0)
            (λ r. ok (r, (db.exec d query).1))
            (λ r e'.
              ok-Holds (λ q. (db.exec d sql).1 ≡ q.1) (r, (db.exec d query).1)
                (ap (λ t. (db.exec d t).1) (printed sql query e))))

  must-exec : (d d' : D) (sql : Text) → must db d sql ≡ ok d' → (db.exec d sql).1 ≡ d'
  unfolding must run
  must-exec d d' sql =
      bind-Holds (λ x. (db.exec d sql).1 ≡ x) (run db d sql)
        (λ (r, d1). guard r failed_assert >> ok d1)
        (λ (r, d1) e'.
          bind-Holds (λ x. (db.exec d sql).1 ≡ x) (guard r failed_assert) (λ _. ok d1)
            (λ _ e''. ok-Holds (λ x. (db.exec d sql).1 ≡ x) d1 (run-exec d sql (r, d1) e')))
        d'

  all_done-keeps :
      (K : D → Type 0)
      → ((d : D) (name : Text)
          → name ≢ bytes "t_account_basic"
          → K d
          → K (db.exec d (drop_table name)).1)
      → (names : List Text) → Others names
      → (d d' : D) → all_done db d (dropped names) ≡ ok d'
      → K d
      → K d'
  unfolding all_done dropped
  all_done-keeps K keep [] o d d' e k = let same : d ≡ d' = ground arith in subst K same k
  all_done-keeps K keep (name ∷ names) o d d' e k =
      let q =
        >>=-eq-ok (must db d (drop_table name)) (λ d1. all_done db d1 (dropped names)) {t = d'} e in
      all_done-keeps K keep names o.1 q.0 d' q.2
        (subst K (must-exec d q.0 (drop_table name) q.1) (keep d name o.0 k))

  -- A condition that no other table's removal ends is still true after `db_account_reset`, which
  -- never removes t_account_basic.
  pub reset-keeps :
      (K : D → Type 0)
      → ((d : D) (name : Text)
          → name ≢ bytes "t_account_basic"
          → K d
          → K (db.exec d (drop_table name)).1)
      → (d d' : D) → reset db d ≡ ok d'
      → K d
      → K d'
  unfolding reset
  reset-keeps K keep d d' e k =
      all_done-keeps K keep tables others d d' (unfold reset_statements dropped tables in e) k
