-- ===== src/Service/Handlers/Policies.antt =====
-- What the handlers of accounts come to: the same without references to sessions.
use livezure.Prelude.{
  ℕ, ◌≡◌, refl, Bool, true, false, not, Bool-cases, inl, inr, if◌then◌else◌, List, take, Option,
  none, some, Run, ok, fault, ◌>>=◌, failed_assert, Text, bytes, text_eq,
}
use livezure.Service.Session.{Basic, Session, Node, dref}
use livezure.Service.Session.Unique.{IsUnique}
use livezure.Service.Session.Keep.{node_of}
use livezure.Service.Database.{Provider, to_lower}
use livezure.Service.Database.Users.{User, existence, admin, check_user_exist, check_user_is_ok}
use livezure.Service.Database.Accounts.{child_add, child_del, update, list_child_count}
use livezure.Service.Handlers.{Reply, rid, World}
use livezure.Service.Handlers.Account.{
  admin_of, is_one, changed, create_under, create_as, create_if, modify_if, modify_of, modify_as,
  modify_account, delete_unless, delete_child, delete_other, delete_if, delete_of, delete_as,
  delete_account,
}
use livezure.Service.Handlers.Keeps.{
  Policy, with_table, answered, >>=-back, leave_lem, Follows, answered_lem,
}

module _ {D : Type 0} where
  unfoldable pub stored : Bool × D → Run (Reply × D)
  stored (false, d) = fault failed_assert
  stored (true, d) = ok (rid (bytes "0"), d)

  changed-stored :
      (a : ℕ) (w : World D) (t : List Node)
      → dref a w.table ≡ ok t
      → (r : Bool × D) → changed a w r ≡ stored r >>= with_table t
  unfolding changed stored
  changed-stored a w t e (false, d) = refl
  changed-stored a w t e (true, d) = leave_lem a (rid (bytes "0")) (record w { database = d }) t e

module _ {D : Type 0} (db : Provider D) where
  unfoldable pub create_policy : Basic → Policy D
  create_policy account s d =
      let add = child_add db d s.basic.uuid account >>= stored in
      if not s.is_admin then ok (rid (bytes "-1"), d) else add

  create-Follows :
      (account : Basic)
      → Follows (λ a w s. create_under db a account w s) (λ t. create_policy account)
  unfolding create_under create_policy
  create-Follows account a w s t e = elim (Bool-cases s.is_admin) [
    | inl plain ↦ rw plain (
        >>=-back (child_add db w.database s.basic.uuid account) (changed a w) stored (with_table t)
          (changed-stored a w t e))
    | inr admin' ↦ rw admin' (leave_lem a (rid (bytes "-1")) w t e)
  ]

  -- `req_account_create` of a name that is not taken: only an admin comes to the database.
  pub create_if-answered :
      (fd : ℕ) (account : Basic) (w : World D)
      → IsUnique w.table
      → create_if db fd account w false ≡ answered (node_of fd w.table) w (create_policy account)
  unfolding create_if
  create_if-answered fd account w u =
      answered_lem (create_as db account) (λ a w' s. create_under db a account w' s)
        (λ t. create_policy account) (unfold create_as in λ w'. refl)
        (unfold create_as in λ w' a. refl) (create-Follows account) fd w u

  unfoldable pub modify_policy_if : Text → Session → D → Option User → Run (Reply × D)
  modify_policy_if new_pwd s d none = ok (rid (bytes "-1"), d)
  modify_policy_if new_pwd s d (some user) =
      update db d s.basic.uuid (record s.basic { pwd = take 32 new_pwd }) >>= stored

  unfoldable pub modify_policy : Text → Text → Policy D
  modify_policy old_pwd new_pwd s d =
      check_user_is_ok db d s.basic.uuid old_pwd existence >>= modify_policy_if new_pwd s d

  modify_if-back :
      (a : ℕ) (new_pwd : Text) (w : World D) (s : Session) (t : List Node)
      → dref a w.table ≡ ok t
      → (user : Option User)
      → modify_if db a new_pwd w s user
        ≡ modify_policy_if new_pwd s w.database user >>= with_table t
  unfolding modify_if modify_policy_if
  modify_if-back a new_pwd w s t e none = leave_lem a (rid (bytes "-1")) w t e
  modify_if-back a new_pwd w s t e (some user) =
      >>=-back (update db w.database s.basic.uuid (record s.basic { pwd = take 32 new_pwd }))
        (changed a w) stored (with_table t) (changed-stored a w t e)

  pub modify_account-answered :
      (fd : ℕ) (w : World D) (old_pwd new_pwd : Text)
      → IsUnique w.table
      → modify_account db fd w old_pwd new_pwd
        ≡ answered (node_of fd w.table) w (modify_policy old_pwd new_pwd)
  unfolding modify_account
  modify_account-answered fd w old_pwd new_pwd u =
      answered_lem (modify_as db old_pwd new_pwd) (λ a w' s. modify_of db a old_pwd new_pwd w' s)
        (λ t. modify_policy old_pwd new_pwd) (unfold modify_as in λ w'. refl)
        (unfold modify_as in λ w' a. refl)
        (unfold modify_of modify_policy in
          λ a w' s t e.
            >>=-back (check_user_is_ok db w'.database s.basic.uuid old_pwd existence)
              (modify_if db a new_pwd w' s) (modify_policy_if new_pwd s w'.database) (with_table t)
              (modify_if-back a new_pwd w' s t e))
        fd w u

  unfoldable pub delete_unless_admin : Text → Session → D → Bool → Run (Reply × D)
  delete_unless_admin del_uuid s d true = fault failed_assert
  delete_unless_admin del_uuid s d false =
      child_del db d s.basic.uuid (some del_uuid) >>= λ d'. stored (true, d')

  unfoldable pub delete_own : Text → Session → D → Bool → Run (Reply × D)
  delete_own del_uuid s d false = ok (rid (bytes "-4"), d)
  delete_own del_uuid s d true = check_user_exist db d del_uuid admin >>= λ user.
      delete_unless_admin del_uuid s d (admin_of user)

  unfoldable pub delete_not_self : Text → Session → D → Run (Reply × D)
  delete_not_self del_uuid s d =
      let other = list_child_count db d s.basic.uuid (some del_uuid) >>= λ count.
      delete_own del_uuid s d (is_one count) in
      if text_eq (to_lower del_uuid) (to_lower s.basic.uuid)
      then ok (rid (bytes "-3"), d)
      else other

  unfoldable pub delete_policy_if : Text → Session → D → Option User → Run (Reply × D)
  delete_policy_if del_uuid s d none = ok (rid (bytes "-2"), d)
  delete_policy_if del_uuid s d (some user) =
      let other = delete_not_self del_uuid s d in
      if not user.is_admin then ok (rid (bytes "-1"), d) else other

  unfoldable pub delete_policy : Text → Text → Policy D
  delete_policy check_pwd del_uuid s d =
      check_user_is_ok db d s.basic.uuid check_pwd admin >>= delete_policy_if del_uuid s d

  module _ (a : ℕ) (del_uuid : Text) (w : World D) (s : Session) (t : List Node)
      (e : dref a w.table ≡ ok t) where
    delete_unless-back :
        (b : Bool)
        → delete_unless db a del_uuid w s b
          ≡ delete_unless_admin del_uuid s w.database b >>= with_table t
    unfolding delete_unless delete_unless_admin
    delete_unless-back true = refl
    delete_unless-back false =
        >>=-back (child_del db w.database s.basic.uuid (some del_uuid)) (λ d. changed a w (true, d))
          (λ d. stored (true, d)) (with_table t) (λ d. changed-stored a w t e (true, d))

    delete_child-back :
        (b : Bool)
        → delete_child db a del_uuid w s b ≡ delete_own del_uuid s w.database b >>= with_table t
    unfolding delete_child delete_own
    delete_child-back false = leave_lem a (rid (bytes "-4")) w t e
    delete_child-back true =
        >>=-back (check_user_exist db w.database del_uuid admin)
          (λ user. delete_unless db a del_uuid w s (admin_of user))
          (λ user. delete_unless_admin del_uuid s w.database (admin_of user)) (with_table t)
          (λ user. delete_unless-back (admin_of user))

    delete_other-back :
        delete_other db a del_uuid w s ≡ delete_not_self del_uuid s w.database >>= with_table t
    unfolding delete_other delete_not_self
    delete_other-back = elim (Bool-cases (text_eq (to_lower del_uuid) (to_lower s.basic.uuid))) [
      | inl self ↦ rw self (leave_lem a (rid (bytes "-3")) w t e)
      | inr other ↦ rw other (
          >>=-back (list_child_count db w.database s.basic.uuid (some del_uuid))
            (λ count. delete_child db a del_uuid w s (is_one count))
            (λ count. delete_own del_uuid s w.database (is_one count)) (with_table t)
            (λ count. delete_child-back (is_one count)))
    ]

    delete_if-back :
        (user : Option User)
        → delete_if db a del_uuid w s user
          ≡ delete_policy_if del_uuid s w.database user >>= with_table t
    unfolding delete_if delete_policy_if
    delete_if-back none = leave_lem a (rid (bytes "-2")) w t e
    delete_if-back (some user) = elim (Bool-cases user.is_admin) [
      | inl admin' ↦ rw admin' delete_other-back
      | inr plain ↦ rw plain (leave_lem a (rid (bytes "-1")) w t e)
    ]

  pub delete_account-answered :
      (fd : ℕ) (w : World D) (check_pwd del_uuid : Text)
      → IsUnique w.table
      → delete_account db fd w check_pwd del_uuid
        ≡ answered (node_of fd w.table) w (delete_policy check_pwd del_uuid)
  unfolding delete_account
  delete_account-answered fd w check_pwd del_uuid u =
      answered_lem (delete_as db check_pwd del_uuid)
        (λ a w' s. delete_of db a check_pwd del_uuid w' s) (λ t. delete_policy check_pwd del_uuid)
        (unfold delete_as in λ w'. refl) (unfold delete_as in λ w' a. refl)
        (unfold delete_of delete_policy in
          λ a w' s t e.
            >>=-back (check_user_is_ok db w'.database s.basic.uuid check_pwd admin)
              (delete_if db a del_uuid w' s) (delete_policy_if del_uuid s w'.database)
              (with_table t) (delete_if-back a del_uuid w' s t e))
        fd w u
