-- ===== src/Service/Database.antt =====
-- db_account.c and db_util.c: how the functions on accounts and devices ask the database. The
-- engine behind db_provider.c is a parameter: what it answers to a text, and the database after
-- it. A text that begins with SELECT leaves the database as it is, also where it is asked twice.
pub mod Users
pub mod Accounts
pub mod Devices
pub mod Admins
pub mod Schema
pub mod Injection
pub mod Failures
mod Tests
use livezure.Prelude.{
  ℕ, Bool, true, false, List, [], ◌∷◌, ◌++◌, length, Option, none, some, Run, ok, fault, ◌>>=◌,
  ◌>>◌, guard, failed_assert, out_of_range, leb, ltb, Text, bytes, sprintf, tolower,
}

-- `e_sql_query_result`, with the rows that `sql_fetch_row` gives; `closed` where `sql_create_new`
-- finds no connection.
pub data Answer : Type 0 where
  closed error done : Answer
  row : List (List Text) → Answer

-- The engine, and `account_gen_hash_key`, which the build chooses.
pub record Provider (D : Type 0) : Type 0 where
  pub select : D → Text → Answer
  pub exec : D → Text → Answer × D
  pub gen_hash_key : Text → Run Text

-- `query_r == e_query_row` and `query_r == e_query_done`
unfoldable pub is_row : Answer → Run Bool
is_row closed = fault failed_assert
is_row (row rows) = ok true
is_row error = ok false
is_row done = ok false

unfoldable pub is_done : Answer → Run Bool
is_done closed = fault failed_assert
is_done done = ok true
is_done error = ok false
is_done (row rows) = ok false

-- What follows `sql_query`: an error runs into the assertion.
unfoldable pub rows_of : Answer → Run (Option (List (List Text)))
rows_of closed = fault failed_assert
rows_of error = fault failed_assert
rows_of done = ok none
rows_of (row rows) = ok (some rows)

module _ {D : Type 0} (db : Provider D) where
  -- `db_exec` of a query, printed into a buffer of 4096 bytes.
  unfoldable pub exists_row : D → Text → Run Bool
  exists_row d sql = sprintf 4096 sql >>= λ query. is_row (db.select d query)

  -- `sql_query` and `sql_fetch_row`, with the size of the buffer.
  unfoldable pub fetch : ℕ → D → Text → Run (Option (List (List Text)))
  fetch size d sql = sprintf size sql >>= λ query. rows_of (db.select d query)

  -- `db_exec` of a statement.
  unfoldable pub run : D → Text → Run (Bool × D)
  run d sql = do
    query ← sprintf 4096 sql
    r ← is_done (db.exec d query).0
    ok (r, (db.exec d query).1)

  -- The same, and `assert(r)`.
  unfoldable pub must : D → Text → Run D
  must d sql = do (r, d') ← run d sql; guard r failed_assert; ok d'

-- `strncpy` of a name into 17 bytes that hold nothing yet, of which the last is not written, and
-- `world_tolower`: it runs past a name of 16 bytes.
unfoldable pub to_lower : Text → Text
to_lower [] = []
to_lower (c ∷ text) = tolower c ∷ to_lower text

unfoldable pub lower_name : Text → Run Text
lower_name uuid = do
  guard (leb (length uuid) 16) failed_assert
  guard (ltb (length uuid) 16) out_of_range
  ok (to_lower uuid)

-- A text in quotes, as every statement takes it.
unfoldable pub quoted : Text → Text
quoted text = bytes "'" ++ (text ++ bytes "'")

unfoldable pub each {ℓ κ} : {A : Type ℓ} {B : Type κ} → (A → Run B) → List A → Run (List B)
each f [] = ok []
each f (x ∷ xs) = do y ← f x; ys ← each f xs; ok (y ∷ ys)
