-- ===== src/Service/Session.antt =====
-- service_session.c: the sessions that are online, and the handlers of service_req_platform.c and
-- service_req_account.c that act on them alone. A session is its entry of the list with an
-- address, which `online_session_dref` compares. Texts are lists of bytes with no 0.
pub mod Unique
pub mod Login
pub mod Tick
pub mod Keep
pub mod Waiting
pub mod Reach
pub mod TwoLogins
pub mod Apart
pub mod Accounts
pub mod Unseen
pub mod Fds
pub mod Borrow
pub mod Leak
mod Tests
use livezure.Prelude.{
  ℕ, ◌+◌, ◌-◌, ◌*◌, ◌==◌, leb, Bool, true, false, not, ◌&&◌, ◌||◌, if◌then◌else◌, List, [], ◌∷◌,
  ◌++◌, length, Option, none, some, Run, ok, fault, ◌>>=◌, ◌>>◌, guard, failed_assert, out_of_range,
  text_eq,
}

-- `db_account_basic_t`
pub record Basic : Type 0 where
  pub uuid : List ℕ
  pub pwd : List ℕ
  pub nickname : List ℕ
  pub comment : List ℕ
  pub created_time : List ℕ

-- `online_session_t`, with the fields of its `net`.
pub record Session : Type 0 where
  pub basic : Basic
  pub ref_admin_uuid : List ℕ
  pub is_admin : Bool
  pub is_online : Bool
  pub fd : ℕ
  pub ip : List ℕ
  pub port : ℕ
  pub is_heartbeated : Bool

-- `session_list_t`; `refcount` is that of its `pref_t`.
pub record Node : Type 0 where
  pub session : Session
  pub refcount : ℕ
  pub b_mark_deleted : Bool
  pub address : ℕ

-- `pref_release` returns once no reference is left; until then the thread waits in it, the node
-- being off the list already.
pub data Outcome : Type 0 where
  done : List Node → Outcome
  waits : Node → List Node → Outcome

-- The nodes that the loop has passed stay in front.
pub ahead : Node → Outcome → Outcome
ahead node (done rest) = done (node ∷ rest)
ahead node (waits gone rest) = waits gone (node ∷ rest)

-- `list_del`, `pref_release` and `xfree`, and what the thread goes on with.
pub remove : Node → List Node → Outcome → Outcome
remove node rest after = if node.refcount == 0 then after else waits node rest

unfoldable pub need_delete : Node → Bool
need_delete node = not node.session.is_heartbeated || node.b_mark_deleted

pub clear_heartbeat : Node → Node
clear_heartbeat node = record node { session = record node.session { is_heartbeated = false } }

-- `online_session_check_all_hearbeat`: it returns at the first node that it deletes.
unfoldable pub check_all : Bool → List Node → Outcome
check_all stop [] = done []
check_all stop (node ∷ rest) =
    let later = ahead (clear_heartbeat node) (check_all stop rest) in
    if stop
    then done (node ∷ rest)
    else (if need_delete node then remove node rest (done rest) else later)

-- Whether a session that logs in puts out one that is online.
unfoldable pub conflicts : Session → Session → Bool
conflicts new old =
    if new.is_admin && text_eq old.basic.uuid new.basic.uuid
    then true
    else (if not new.is_admin
          && text_eq old.ref_admin_uuid new.ref_admin_uuid
          && text_eq old.basic.uuid new.basic.uuid
        then true
        else new.fd == old.fd)

-- The loop of `online_session_add`; the event that it pushes is an empty function.
pub drop_conflicts : Session → List Node → Outcome
drop_conflicts new [] = done []
drop_conflicts new (node ∷ rest) =
    let later = drop_conflicts new rest in
    if conflicts new node.session then remove node rest later else ahead node later

unfoldable pub fresh_node : Session → ℕ → Node
fresh_node session address = record {
  session = session;
  refcount = 0;
  b_mark_deleted = false;
  address = address;
}

pub link_last : Node → Outcome → Outcome
link_last node (done rest) = done (rest ++ (node ∷ []))
link_last node (waits gone rest) = waits gone rest

-- `online_session_add`, with the address of the node that it allocates.
pub add : Session → ℕ → List Node → Outcome
add session address table = link_last (fresh_node session address) (drop_conflicts session table)

-- `online_session_del` only marks the session.
unfoldable pub del : ℕ → List Node → Bool × List Node
del fd [] = (false, [])
del fd (node ∷ rest) =
    let (r, rest') = del fd rest in
    if node.session.fd == fd
    then (true, record node { b_mark_deleted = true } ∷ rest)
    else (r, node ∷ rest')

-- `online_session_ref`: the address of the session, and the table.
unfoldable pub ref : ℕ → List Node → Option ℕ × List Node
ref fd [] = (none, [])
ref fd (node ∷ rest) =
    let (r, rest') = ref fd rest in
    if node.session.fd == fd
    then (some node.address, record node { refcount = node.refcount + 1 } ∷ rest)
    else (r, node ∷ rest')

-- `pref_put` asserts that the count does not fall below 0.
unfoldable pub put : Node → Run Node
put node = do
  guard (not (node.refcount == 0)) failed_assert
  ok (record node { refcount = node.refcount - 1 })

-- `online_session_dref` looks for the session in the list, and asserts that it is there.
unfoldable pub dref : ℕ → List Node → Run (List Node)
dref address [] = fault failed_assert
dref address (node ∷ rest) =
    let later = dref address rest >>= λ rest'. ok (node ∷ rest') in
    if node.address == address then (put node >>= λ node'. ok (node' ∷ rest)) else later

-- A read through the pointer to a session.
unfoldable pub session_at : ℕ → List Node → Run Session
session_at address [] = fault out_of_range
session_at address (node ∷ rest) =
    if node.address == address then ok node.session else session_at address rest

-- A write through the pointer to a session.
set_heartbeat : ℕ → List Node → List Node
set_heartbeat address [] = []
set_heartbeat address (node ∷ rest) =
    if node.address == address
    then record node { session = record node.session { is_heartbeated = true } } ∷ rest
    else node ∷ set_heartbeat address rest

-- The `rid` of a reply: "0" or "-300".
pub data Reply : Type 0 where
  accepted session_expired : Reply

heartbeat_of : Option ℕ → List Node → Run (Reply × List Node)
heartbeat_of none table = ok (session_expired, table)
heartbeat_of (some address) table = do
  table' ← dref address table
  ok (accepted, set_heartbeat address table')

pub req_heartbeat : ℕ → List Node → Run (Reply × List Node)
req_heartbeat fd table = let (r, table') = ref fd table in heartbeat_of r table'

unfoldable pub logout_of : ℕ → Option ℕ → List Node → Run (Reply × List Node)
logout_of fd none table = ok (session_expired, table)
logout_of fd (some address) table = do
  table' ← dref address table
  let (r, table'') = del fd table'
  guard r failed_assert
  ok (accepted, table'')

unfoldable pub req_account_logout : ℕ → List Node → Run (Reply × List Node)
req_account_logout fd table = let (r, table') = ref fd table in logout_of fd r table'

pub count : List Node → ℕ
count table = length table

-- The numbers that `online_session_get_all` writes, four bytes each, into `size` bytes.
fill : ℕ → ℕ → List Node → Run (List ℕ)
fill size cnt [] = ok []
fill size cnt (node ∷ rest) = do
  guard (leb (cnt * 4 + 4) size) out_of_range
  fds ← fill size (cnt + 1) rest
  ok (node.session.fd ∷ fds)

-- It allocates `cnt + 1` bytes.
pub get_all : List Node → Run (List ℕ)
get_all table = if count table == 0 then ok [] else fill (count table + 1) 0 table
