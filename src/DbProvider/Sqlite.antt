-- ===== src/DbProvider/Sqlite.antt =====
-- dbprovider/db_provider_sqlite.c: a query and the rows that are fetched of it. The library SQLite is a
-- parameter; a fetch has a place for its row. Opening the database, its mutex and error texts are left
-- out.
pub mod Rows
mod Tests
use livezure.Prelude.{
  ℕ, zero, suc, ◌==◌, if◌then◌else◌, Bool, true, false, not, List, [], ◌∷◌, length, Option, none,
  some, Run, ok, fault, ◌>>=◌, ◌>>◌, guard, failed_assert, out_of_fuel, Text,
}
use livezure.Service.Database.{Answer, row, error, done}

-- What sqlite3_step returns: SQLITE_ROW, SQLITE_DONE, or another number.
pub data Stepped : Type 0 where
  stepped_row stepped_done stepped_error : Stepped

-- sqlite3_prepare, sqlite3_step, and what sqlite3_column_text gives for the columns of the row that a
-- statement stands at, whose number is sqlite3_data_count.
pub record Sqlite (Stmt D : Type 0) : Type 0 where
  pub prepare : D → Text → Stmt
  pub step : Stmt → D → Stepped × Stmt × D
  pub columns : Stmt → List (Option Text)

-- `sqlite_param_t`
pub record Param (Stmt : Type 0) : Type 0 where
  pub stmt : Stmt
  pub fields : ℕ
  pub row : Stepped

unfoldable pub read_columns : ℕ → List (Option Text) → Run (List Text)
read_columns zero columns = ok []
read_columns (suc fields) [] = fault failed_assert
read_columns (suc fields) (none ∷ columns) = fault failed_assert
read_columns (suc fields) (some text ∷ columns) = do
  texts ← read_columns fields columns
  ok (text ∷ texts)

module _ {Stmt D : Type 0} (sqlite : Sqlite Stmt D) where
  unfoldable pub sql_query_sqlite : Text → D → Param Stmt × D
  sql_query_sqlite query_sql d =
      let (r, stmt, d') = sqlite.step (sqlite.prepare d query_sql) d in
      (record { stmt = stmt; fields = length (sqlite.columns stmt); row = r }, d')

  -- The row that `param` stands at, which is not looked at again, and the next.
  unfoldable pub fetch_at : Param Stmt → D → Run (List Text × Param Stmt × D)
  fetch_at param d = do
    guard (not (param.fields == 0)) failed_assert
    texts ← read_columns param.fields (sqlite.columns param.stmt)
    let (r, stmt, d') = sqlite.step param.stmt d
    ok (texts, record param { stmt = stmt; row = r }, d')

  unfoldable pub fetch_stepped :
      Stepped → Param Stmt → D → Run (Option (List Text) × Param Stmt × D)
  fetch_stepped stepped_row param d = do
    (texts, param', d') ← fetch_at param d
    ok (some texts, param', d')
  fetch_stepped stepped_done param d = ok (none, param, d)
  fetch_stepped stepped_error param d = ok (none, param, d)

  unfoldable pub sql_fetch_row_sqlite : Param Stmt → D → Run (Option (List Text) × Param Stmt × D)
  sql_fetch_row_sqlite param d = fetch_stepped param.row param d

  unfoldable pub fetch_more :
      Option (List Text) → Run (List (List Text) × D) → D → Run (List (List Text) × D)
  fetch_more none later d = ok ([], d)
  fetch_more (some texts) later d = do (rows, d') ← later; ok (texts ∷ rows, d')

  -- `while (sql_fetch_row(sql, &row))`
  unfoldable pub fetch_rows : ℕ → Param Stmt → D → Run (List (List Text) × D)
  fetch_rows zero param d = fault out_of_fuel
  fetch_rows (suc f) param d = do
    (fetched, param', d') ← sql_fetch_row_sqlite param d
    fetch_more fetched (fetch_rows f param' d') d'

  -- The result of `sql_query`, with the rows where there are any.
  unfoldable pub answer_of : ℕ → Stepped → Param Stmt → D → Run (Answer × D)
  answer_of f stepped_done param d = ok (done, d)
  answer_of f stepped_error param d = ok (error, d)
  answer_of f stepped_row param d = do (rows, d') ← fetch_rows f param d; ok (row rows, d')

  unfoldable pub query_rows : ℕ → Text → D → Run (Answer × D)
  query_rows f query_sql d =
      let (param, d') = sql_query_sqlite query_sql d in answer_of f param.row param d'
