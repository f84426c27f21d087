-- ===== src/Service/Handlers/AdminPolicies.antt =====
-- What the handlers of devices and of the lists come to: the same without references to sessions.
use livezure.Prelude.{
  ℕ, ◌≡◌, refl, ap, not, Bool-cases, inl, inr, if◌then◌else◌, List, [], ◌∷◌, Option, none, some,
  Run, ok, fault, ◌>>=◌, failed_assert, Text, bytes,
}
use mathlib.Core.Path.{fun_ext}
use livezure.Service.Session.{Basic, Session, Node, dref}
use livezure.Service.Session.Unique.{IsUnique}
use livezure.Service.Session.Keep.{node_of}
use livezure.Service.Session.Borrow.{try_get_child-dref}
use livezure.Service.Database.{Provider, each}
use livezure.Service.Database.Users.{User, admin, check_user_exist}
use livezure.Service.Database.Accounts.{list_child_get, queries}
use livezure.Service.Handlers.{Reply, rid, World, leave, release}
use livezure.Service.Handlers.Account.{admin_of}
use livezure.Service.Handlers.Devices.{Action, act, if_admin, for_session, admin_as, as_admin}
use livezure.Service.Handlers.Lists.{
  list_if, list_of, list_as, list_for, account_query, account_entries, account_entry, device_query,
  child_pairs,
}
use livezure.Service.Handlers.Keeps.{
  Policy, with_table, answered, >>=-back, leave_lem, answered_lem,
}

each_same {ℓ κ} :
    {A : Type ℓ} {B : Type κ} (f g : A → Run B)
    → ((x : A) → f x ≡ g x)
    → (xs : List A) → each f xs ≡ each g xs
unfolding each
each_same f g h [] = refl
each_same f g h (x ∷ xs) = rw (h x, each_same f g h xs) refl

module _ {D : Type 0} (db : Provider D) where
  unfoldable pub admin_policy_if : Action D → Session → D → Option User → Run (Reply × D)
  admin_policy_if action s d user =
      let go = action s.basic.uuid d in if not (admin_of user) then ok (rid (bytes "-1"), d) else go

  -- An action on devices, for admins alone.
  unfoldable pub admin_policy : Action D → Policy D
  admin_policy action s d = check_user_exist db d s.basic.uuid admin >>= admin_policy_if action s d

  if_admin-back :
      (action : Action D) (a : ℕ) (w : World D) (s : Session) (t : List Node)
      → dref a w.table ≡ ok t
      → (user : Option User)
      → if_admin db action a w s user ≡ admin_policy_if action s w.database user >>= with_table t
  unfolding if_admin admin_policy_if
  if_admin-back action a w s t e user = elim (Bool-cases (admin_of user)) [
    | inl admin' ↦ rw (admin') (unfold release act in rw e refl)
    | inr plain ↦ rw plain (leave_lem a (rid (bytes "-1")) w t e)
  ]

  pub as_admin-answered :
      (action : Action D) (fd : ℕ) (w : World D)
      → IsUnique w.table
      → as_admin db action fd w ≡ answered (node_of fd w.table) w (admin_policy action)
  unfolding as_admin
  as_admin-answered action fd w u =
      answered_lem (admin_as db action) (λ a w' s. for_session db action a w' s)
        (λ t. admin_policy action) (unfold admin_as in λ w'. refl) (unfold admin_as in λ w' a. refl)
        (unfold for_session admin_policy in
          λ a w' s t e.
            >>=-back (check_user_exist db w'.database s.basic.uuid admin)
              (if_admin db action a w' s) (admin_policy_if action s w'.database) (with_table t)
              (if_admin-back action a w' s t e))
        fd w u

  module _ (query : List Node → D → Text → Run Reply) where
    unfoldable pub list_policy_if : List Node → Session → D → Option User → Run (Reply × D)
    list_policy_if t s d none = fault failed_assert
    list_policy_if t s d (some user) =
        let answer = query t d s.basic.uuid >>= λ reply. ok (reply, d) in
        if not user.is_admin then ok (rid (bytes "-1"), d) else answer

    -- A list, for admins alone.
    unfoldable pub list_policy : List Node → Policy D
    list_policy t s d = check_user_exist db d s.basic.uuid admin >>= list_policy_if t s d

    -- References do not change the answer.
    abbrev pub IsBlind : Type 0
    IsBlind =
        (a : ℕ) (t t' : List Node) (d : D) (uuid : Text)
        → dref a t ≡ ok t'
        → query t d uuid ≡ query t' d uuid

    module _ (blind : IsBlind) where
      list_if-back :
          (a : ℕ) (w : World D) (s : Session) (t : List Node)
          → dref a w.table ≡ ok t
          → (user : Option User)
          → list_if db query a w s user ≡ list_policy_if t s w.database user >>= with_table t
      unfolding list_if list_policy_if
      list_if-back a w s t e none = refl
      list_if-back a w s t e (some user) = elim (Bool-cases user.is_admin) [
        | inl admin' ↦
            rw (admin', blind a w.table t w.database s.basic.uuid e)
              (>>=-back (query t w.database s.basic.uuid) (λ reply. leave a reply w)
                (λ reply. ok (reply, w.database)) (with_table t) (λ reply. leave_lem a reply w t e))
        | inr plain ↦ rw plain (leave_lem a (rid (bytes "-1")) w t e)
      ]

      pub list_for-answered :
          (fd : ℕ) (w : World D)
          → IsUnique w.table
          → list_for db query fd w ≡ answered (node_of fd w.table) w (list_policy w.table)
      unfolding list_for
      list_for-answered fd w u =
          answered_lem (list_as db query) (λ a w' s. list_of db query a w' s) (λ t. list_policy t)
            (unfold list_as in λ w'. refl) (unfold list_as in λ w' a. refl)
            (unfold list_of list_policy in
              λ a w' s t e.
                >>=-back (check_user_exist db w'.database s.basic.uuid admin)
                  (list_if db query a w' s) (list_policy_if t s w'.database) (with_table t)
                  (list_if-back a w' s t e))
            fd w u

  pub account_query-IsBlind : IsBlind (account_query db)
  unfolding account_query account_entries account_entry
  account_query-IsBlind a t t' d uuid e =
      ap (λ next. list_child_get db d uuid none >>= next) (fun_ext same)
    where
      same_entry :
          (basic : Basic) → account_entry db t d uuid basic ≡ account_entry db t' d uuid basic
      same_entry basic =
          ap (λ found. found >>= child_pairs)
            (try_get_child-dref (queries db d) uuid basic.uuid a t t' e)

      same :
          (accounts : Option (List Basic))
          → account_entries db t d uuid accounts ≡ account_entries db t' d uuid accounts
      same none = refl
      same (some accounts) =
          rw
            (each_same (account_entry db t d uuid) (account_entry db t' d uuid) same_entry accounts)
            refl

  pub device_query-IsBlind : IsBlind (device_query db)
  unfolding device_query
  device_query-IsBlind a t t' d uuid e = refl
