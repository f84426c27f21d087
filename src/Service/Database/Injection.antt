-- ===== src/Service/Database/Injection.antt =====
-- Names that end a statement: the texts of db_account.c hold the names of the requests as they are.
use livezure.Prelude.{
  ℕ, ◌+◌, ◌≤◌, ◌<◌, ◌==◌, ◌≡◌, refl, sym, ap, ◌∙◌, Bool, true, false, not, ◌&&◌, ◌||◌, [], ◌∷◌,
  ◌++◌, length, length-append, append-nil, append_assoc, Option, none, some, ok, ◌>>=◌, >>=-eq-ok,
  arith, Text, bytes, sprintf,
}
use mathlib.Core.Path.{fun_ext}
use livezure.Service.Database.{Provider, exists_row, fetch, quoted}
use livezure.Service.Database.Users.{
  License, User, Wanted, existence, admin, admin_and_ref, sql_basic, sql_license, sql_child,
  sql_login, license_get, license_of, user_of, parent_of, found_user, check_user_exist,
  check_user_is_ok, known_user, must_exist,
}

-- The bytes that begin a quote or a comment, or end a line.
special : ℕ → Bool
special c = (c == 39) || (c == 34) || (c == 96) || (c == 91) || (c == 45) || (c == 47) || (c == 10)

unfoldable pub is_plain : Text → Bool
unfolding special
is_plain [] = true
is_plain (c ∷ text) = not (special c) && is_plain text

unfoldable pub one_line : Text → Bool
one_line [] = true
one_line (c ∷ text) = not (c == 10) && one_line text

one_line-append : (s t : Text) → one_line s ≡ true → one_line t ≡ true → one_line (s ++ t) ≡ true
unfolding one_line
one_line-append [] t h k = k
one_line-append (c ∷ s) t h k = ground (arith, one_line-append s t)

-- The engine reads no further than to a comment, `--`, that follows a name in quotes.
abbrev pub IgnoresComments : {D : Type 0} → Provider D → Type 0
IgnoresComments {D} db =
    (d : D) (stem name rest : Text)
    → is_plain stem ≡ true
    → is_plain name ≡ true
    → one_line rest ≡ true
    → db.select d (stem ++ (quoted name ++ (bytes "--" ++ rest)))
      ≡ db.select d (stem ++ quoted name)

-- A name with a quote and a comment behind it.
unfoldable pub commented : Text → Text
commented name = name ++ bytes "'--"

quoted-commented :
    (stem name rest : Text)
    → (stem ++ quoted (commented name)) ++ rest
      ≡ stem ++ (quoted name ++ (bytes "--" ++ (bytes "'" ++ rest)))
unfolding quoted commented bytes
quoted-commented stem name rest =
    append_assoc stem (39 ∷ ((name ++ (39 ∷ 45 ∷ 45 ∷ [])) ++ (39 ∷ []))) rest
    ∙ ap (λ t. stem ++ (39 ∷ t)) (simp append_assoc)

length-quoted : (t : Text) → length (quoted t) ≡ length t + 2
unfolding quoted bytes
length-quoted t = omega (arith, length-append t (39 ∷ []))

-- What a statement comes to whose text fits.
sprintf_fits : (size : ℕ) (t : Text) → length t < size → sprintf size t ≡ ok t
unfolding sprintf
sprintf_fits size t h = ground arith

-- The names that a request may bring, and the stems of the statements.
module _ {D : Type 0} (db : Provider D) (ignores : IgnoresComments db) (d : D) (name : Text)
    (plain : is_plain name ≡ true) (short : length name ≤ 13) where
  same_answer :
      (stem rest : Text)
      → is_plain stem ≡ true
      → one_line rest ≡ true
      → db.select d ((stem ++ quoted (commented name)) ++ rest) ≡ db.select d (stem ++ quoted name)
  same_answer stem rest p line =
      ap (db.select d) (quoted-commented stem name rest)
      ∙ ignores d stem name (bytes "'" ++ rest) p plain (unfold one_line bytes in line)

  length-commented : length (commented name) ≤ 16
  unfolding commented bytes
  length-commented = omega (arith, length-append name (39 ∷ 45 ∷ 45 ∷ []))

  length-text :
      (stem rest : Text)
      → length stem + length rest ≤ 4000
      → length ((stem ++ quoted (commented name)) ++ rest) < 4096
  length-text stem rest h = omega (
    arith,
    length-append (stem ++ quoted (commented name)) rest,
    length-append stem (quoted (commented name)),
    length-quoted (commented name),
    length-commented,
  )

  length-plain : (stem : Text) → length stem ≤ 4000 → length (stem ++ quoted name) < 4096
  length-plain stem h = omega (arith, length-append stem (quoted name), length-quoted name)

  exists_row-commented :
      (stem rest : Text)
      → is_plain stem ≡ true
      → one_line rest ≡ true
      → length stem + length rest ≤ 4000
      → exists_row db d ((stem ++ quoted (commented name)) ++ rest)
        ≡ exists_row db d (stem ++ quoted name)
  unfolding exists_row
  exists_row-commented stem rest p line fits =
      rw
        (
          sprintf_fits 4096 ((stem ++ quoted (commented name)) ++ rest)
              (length-text stem rest fits),
          sprintf_fits 4096 (stem ++ quoted name) (length-plain stem (omega arith)),
          same_answer stem rest p line,
        )
        refl

  fetch-commented :
      (stem : Text)
      → is_plain stem ≡ true
      → length stem ≤ 4000
      → fetch db 4096 d (stem ++ quoted (commented name)) ≡ fetch db 4096 d (stem ++ quoted name)
  unfolding fetch
  fetch-commented stem p fits =
      rw
        (
          ← append-nil (stem ++ quoted (commented name)),
          sprintf_fits 4096 ((stem ++ quoted (commented name)) ++ [])
              (length-text stem [] (omega arith)),
          sprintf_fits 4096 (stem ++ quoted name) (length-plain stem fits),
          same_answer stem [] p (unfold one_line in refl),
        )
        refl

  license_get-commented : license_get db d (commented name) ≡ license_get db d name
  unfolding license_get sql_license
  license_get-commented =
      ap (λ m. m >>= license_of)
        (fetch-commented (bytes "SELECT * FROM t_account_admin WHERE uuid=")
          (unfold is_plain bytes in refl) (unfold bytes in omega arith))

  user_of-commented :
      (wanted : Wanted) (license : Option License)
      → user_of db d (commented name) wanted license ≡ user_of db d name wanted license
  unfolding user_of sql_child
  user_of-commented admin_and_ref none =
      ap (λ m. m >>= parent_of)
        (fetch-commented (bytes "SELECT * FROM t_account_child WHERE uuid=")
          (unfold is_plain bytes in refl) (unfold bytes in omega arith))
  user_of-commented admin none = refl
  user_of-commented existence none = refl
  user_of-commented admin_and_ref (some license) = refl
  user_of-commented admin (some license) = refl
  user_of-commented existence (some license) = refl

  found_user-commented :
      (wanted : Wanted) (r : Bool)
      → found_user db d (commented name) wanted r ≡ found_user db d name wanted r
  unfolding found_user
  found_user-commented wanted false = refl
  found_user-commented existence true = refl
  found_user-commented admin true = simp (license_get-commented, user_of-commented)
  found_user-commented admin_and_ref true = simp (license_get-commented, user_of-commented)

  exists-commented : exists_row db d (sql_basic (commented name)) ≡ exists_row db d (sql_basic name)
  unfolding sql_basic
  exists-commented =
      ap (exists_row db d) (
        sym (
          append-nil
            (bytes "SELECT * FROM t_account_basic WHERE uuid=" ++ quoted (commented name))))
      ∙ exists_row-commented (bytes "SELECT * FROM t_account_basic WHERE uuid=") []
          (unfold is_plain bytes in refl) (unfold one_line in refl) (unfold bytes in omega arith)

  check_user_exist-commented :
      (wanted : Wanted)
      → check_user_exist db d (commented name) wanted ≡ check_user_exist db d name wanted
  unfolding check_user_exist
  check_user_exist-commented wanted = rw exists-commented (
      ap (λ next. exists_row db d (sql_basic name) >>= next)
        (fun_ext (found_user-commented wanted)))

  login_row-commented :
      (hash : Text)
      → one_line hash ≡ true
      → length hash ≤ 33
      → exists_row db d (sql_login (commented name) hash) ≡ exists_row db d (sql_basic name)
  unfolding sql_login sql_basic
  login_row-commented hash line fits =
      exists_row-commented (bytes "SELECT * FROM t_account_basic WHERE uuid=")
        (bytes " AND pwd=" ++ quoted hash) (unfold is_plain bytes in refl)
        (unfold bytes quoted one_line in one_line-append hash (39 ∷ []) line refl)
        (unfold bytes in omega (arith, length-quoted hash))

  -- A user exists, and its row is there.
  found_row :
      (wanted : Wanted) (user : User) (r : Bool)
      → found_user db d name wanted r ≡ ok (some user)
      → r ≡ true
  found_row wanted user true e = refl
  found_row wanted user false e = absurd (unfold found_user in ground arith)

  -- The name of a user that exists, of at most 13 bytes of which none begins a quote or a comment,
  -- with `'--` behind it is still a name that a request may bring, and passes the check of the
  -- password with any password: where the engine ignores comments behind quoted names, and the
  -- password has a hash of one line and at most 33 bytes.
  pub any_password :
      (pwd hash : Text) (wanted : Wanted) (user : User)
      → db.gen_hash_key pwd ≡ ok hash
      → one_line hash ≡ true
      → length hash ≤ 33
      → check_user_exist db d name wanted ≡ ok (some user)
      → (length (commented name) ≤ 16)
        × (check_user_is_ok db d (commented name) pwd wanted ≡ ok (some user))
  unfolding check_user_is_ok known_user
  any_password pwd hash wanted user hashed line fits exists =
      let q =
        >>=-eq-ok (exists_row db d (sql_basic name)) (found_user db d name wanted) {t = some user}
          (unfold check_user_exist in exists) in
      let there : exists_row db d (sql_basic name) ≡ ok true =
        q.1 ∙ ap ok (found_row wanted user q.0 q.2) in
      (
        length-commented,
        rw
            (
              hashed,
              login_row-commented hash line fits,
              there,
              check_user_exist-commented wanted,
              exists,
            )
            (unfold must_exist in refl),
      )
