-- ===== src/Service/Session/Tests.antt =====
-- Runs of the session list, and its theorems at concrete tables.
use livezure.Prelude.{ℕ, ◌≡◌, refl, true, false, List, [], ◌∷◌, ◌++◌, some, arith, ok, text_eq}
use livezure.Service.Session.{
  Basic, Session, Node, done, ahead, remove, need_delete, check_all, conflicts, drop_conflicts,
  fresh_node, link_last, add, ref, dref, put, del, set_heartbeat, Reply, req_heartbeat,
  heartbeat_of, req_account_logout, logout_of,
}
use livezure.Service.Session.Login.{kept, add_lem}
use livezure.Service.Session.Tick.{ticks, ticks-done}
use livezure.Service.Session.Keep.{Stays, check_all-Stays}
use livezure.Service.Session.Reach.{Step, Reach}
use livezure.Service.Session.Apart.{AllApart, Reach-Apart}
use livezure.Service.Session.Accounts.{
  Accounts, accepted, offline, req_account_login, try_get_admin,
}
use livezure.Service.Session.Unseen.{AllPlain, login_admin_unseen}

abbrev named : List ℕ → Basic
named uuid = record { uuid = uuid; pwd = []; nickname = []; comment = []; created_time = [] }

-- An admin, and two users of it.
abbrev admin : ℕ → Session
admin fd = record {
  basic = named (b'r' ∷ []);
  ref_admin_uuid = [];
  is_admin = true;
  is_online = true;
  fd = fd;
  ip = [];
  port = 0;
  is_heartbeated = true;
}

abbrev user : ℕ → ℕ → Session
user name fd = record (admin fd) {
  basic = named (name ∷ []);
  ref_admin_uuid = b'r' ∷ [];
  is_admin = false;
}

abbrev two : List Node
two = fresh_node (admin 3) 100 ∷ fresh_node (user 1 4) 101 ∷ []

-- The user logs in again over another socket.
relogin : add (user 1 5) 102 two ≡ done (fresh_node (admin 3) 100 ∷ fresh_node (user 1 5) 102 ∷ [])
unfolding add link_last drop_conflicts ahead remove conflicts fresh_node text_eq
relogin = refl

add_lem_example :
    (t' : List Node) × (add (user 1 5) 102 two ≡ done t')
    × (t' ≡ kept (user 1 5) two ++ (fresh_node (user 1 5) 102 ∷ []))
    × ((ref 5 t').0 ≡ some 102)
unfolding fresh_node
add_lem_example = add_lem (user 1 5) 102 two (omega arith)

Reach-Apart_example : AllApart two
unfolding add link_last drop_conflicts ahead remove conflicts fresh_node text_eq
Reach-Apart_example = Reach-Apart (
    Reach.next (Reach.next Reach.start (Step.login (admin 3) 100 tt refl))
      (Step.login (user 1 4) 101 (omega arith, tt) refl))

ticks-done_example : ticks 3 two ≡ done []
unfolding fresh_node
ticks-done_example = ticks-done 3 two (omega arith) (omega arith)

check_all-Stays_example : Stays 4 (fresh_node (user 1 4) 101) (check_all false two)
unfolding fresh_node need_delete
check_all-Stays_example = check_all-Stays 4 two (fresh_node (user 1 4) 101) (omega arith) refl refl

beats : req_heartbeat 4 two ≡ ok (Reply.accepted, two)
unfolding req_heartbeat heartbeat_of ref dref put set_heartbeat fresh_node
beats = refl

logs_out :
    req_account_logout 4 two
    ≡ ok (
      Reply.accepted,
      fresh_node (admin 3) 100 ∷ record (fresh_node (user 1 4) 101) { b_mark_deleted = true } ∷ [],
    )
unfolding req_account_logout logout_of ref dref put del fresh_node
logs_out = refl

-- A database of the admin `r` and its user 1.
abbrev accounts : Accounts
accounts = record {
  check_user_is_ok = λ uuid pwd. ok (some (text_eq uuid (b'r' ∷ []), b'r' ∷ []));
  list_admin_get = λ uuid. ok (some (named (b'r' ∷ []) ∷ []));
  list_child_get = λ ref uuid. ok (some (named (1 ∷ []) ∷ []));
}

login_admin_unseen_example :
    (t' : List Node) × (req_account_login accounts (b'r' ∷ []) [] 7 [] 0 103 two
      ≡ ok (accepted (done t')))
    × AllPlain t'
    × (try_get_admin accounts (b'r' ∷ []) t'
        ≡ ok (some (offline true (b'r' ∷ []) (named (b'r' ∷ [])))))
unfolding fresh_node text_eq
login_admin_unseen_example =
    login_admin_unseen accounts b'r' [] [] (b'r' ∷ []) [] 7 0 103 (named (b'r' ∷ [])) two refl refl
      (omega arith) ((λ h. refl), ((λ h. cc), tt))
