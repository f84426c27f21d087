-- ===== src/DbProvider/Sqlite/Tests.antt =====
-- A statement that is the list of its rows, and the row it stands at.
use livezure.Prelude.{ℕ, ◌≡◌, refl, List, [], ◌∷◌, some, ok, arith, Text, bytes}
use mathlib.Core.List.{map}
use livezure.Service.Database.{row}
use livezure.DbProvider.Sqlite.{Stepped, stepped_row, stepped_done, Sqlite, query_rows}
use livezure.DbProvider.Sqlite.Rows.{ends, steps, query_rows-answered}

abbrev Stmt : Type 0
Stmt = List (List Text) × List Text

abbrev step : Stmt → ℕ → Stepped × Stmt × ℕ
step ([], at) d = (stepped_done, ([], at), d)
step (texts ∷ rows, at) d = (stepped_row, (rows, texts), d)

abbrev table : List (List Text)
table = (bytes "a" ∷ bytes "1" ∷ []) ∷ (bytes "b" ∷ bytes "2" ∷ []) ∷ []

abbrev listed : Sqlite Stmt ℕ
listed = record {
  prepare = λ d query_sql. (table, []);
  step = step;
  columns = λ stmt. map some stmt.1;
}

query_rows-answered_example : query_rows listed 3 (bytes "SELECT") 0 ≡ ok (row table, 0)
query_rows-answered_example =
    query_rows-answered listed 2 (omega arith) 3 (bytes "SELECT") 0 0 table
      (steps refl refl refl (steps refl refl refl (ends refl))) (omega arith)
