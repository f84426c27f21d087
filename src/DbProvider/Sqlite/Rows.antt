-- ===== src/DbProvider/Sqlite/Rows.antt =====
-- The rows of a statement are fetched in their order, each once.
use livezure.Prelude.{
  ℕ, zero, suc, ◌<◌, ◌≡◌, refl, ap, ◌∙◌, sym, ◌==◌, not, true, List, [], ◌∷◌, length, arith, Option,
  some, ok, Text,
}
use mathlib.Core.List.{map}
use livezure.Service.Database.{Answer, row, done}
use livezure.DbProvider.Sqlite.{
  stepped_row, stepped_done, Sqlite, read_columns, sql_query_sqlite, fetch_at, fetch_stepped,
  sql_fetch_row_sqlite, fetch_more, fetch_rows, answer_of, query_rows,
}

-- A statement that steps through these rows of texts, and ends.
pub data Yields {Stmt D : Type 0} (sqlite : Sqlite Stmt D) (width : ℕ)
    : Stmt → D → List (List Text) → D → Type 0 where
  ends :
      {stmt stmt' : Stmt} {d d' : D}
      → sqlite.step stmt d ≡ (stepped_done, stmt', d')
      → Yields sqlite width stmt d [] d'
  steps :
      {stmt stmt' : Stmt} {d d' d'' : D} {texts : List Text} {rows : List (List Text)}
      → sqlite.step stmt d ≡ (stepped_row, stmt', d')
      → sqlite.columns stmt' ≡ map some texts
      → length texts ≡ width
      → Yields sqlite width stmt' d' rows d''
      → Yields sqlite width stmt d (texts ∷ rows) d''

-- What a query answers with these rows.
abbrev pub answered : List (List Text) → Answer
answered [] = done
answered (texts ∷ rows) = row (texts ∷ rows)

read_columns-some : (texts : List Text) → read_columns (length texts) (map some texts) ≡ ok texts
unfolding read_columns
read_columns-some [] = refl
read_columns-some (text ∷ texts) = rw (read_columns-some texts) refl

length-map : (texts : List Text) → length (map some texts) ≡ length texts
length-map [] = refl
length-map (text ∷ texts) = ap suc (length-map texts)

read_wide :
    {width : ℕ} (texts : List Text) (columns : List (Option Text))
    → columns ≡ map some texts
    → length texts ≡ width
    → read_columns width columns ≡ ok texts
read_wide texts columns e wide =
    ap (λ n. read_columns n columns) (sym wide)
    ∙ ap (read_columns (length texts)) e
    ∙ read_columns-some texts

module _ {Stmt D : Type 0} (sqlite : Sqlite Stmt D) (width : ℕ) (some_width : 0 < width) where
  fetch_rows-Yields :
      (f : ℕ) (stmt : Stmt) (d d'' : D) (texts : List Text) (rows : List (List Text))
      → sqlite.columns stmt ≡ map some texts
      → length texts ≡ width
      → Yields sqlite width stmt d rows d''
      → suc (length rows) < f
      → fetch_rows sqlite f (record { stmt = stmt; fields = width; row = stepped_row }) d
        ≡ ok (texts ∷ rows, d'')
  unfolding fetch_rows fetch_more sql_fetch_row_sqlite fetch_stepped fetch_at
  fetch_rows-Yields zero stmt d d'' texts rows cols wide y h = absurd (omega arith)
  fetch_rows-Yields (suc zero) stmt d d'' texts rows cols wide y h = absurd (omega arith)
  fetch_rows-Yields (suc (suc f)) stmt d d'' texts [] cols wide (ends e) h =
      let columns = read_wide texts (sqlite.columns stmt) cols wide in
      let some_fields : not (width == 0) ≡ true = ground arith in rw (some_fields, columns, e) refl
  fetch_rows-Yields (suc (suc f)) stmt d d'' texts (next ∷ rows) cols wide
        (steps {stmt' = stmt'} {d' = d'} e cols' wide' y) h =
      let columns = read_wide texts (sqlite.columns stmt) cols wide in
      let some_fields : not (width == 0) ≡ true = ground arith in
      let later = fetch_rows-Yields (suc f) stmt' d' d'' next rows cols' wide' y (omega arith) in
      rw (some_fields, columns, e, later) refl

  -- A query whose statement steps through rows of texts, all of the same width and not empty,
  -- and ends, answers these rows in their order, or that it is done where there are none; with
  -- fuel for a round more than there are rows.
  pub query_rows-answered :
      (f : ℕ) (query_sql : Text) (d d' : D) (rows : List (List Text))
      → Yields sqlite width (sqlite.prepare d query_sql) d rows d'
      → length rows < f
      → query_rows sqlite f query_sql d ≡ ok (answered rows, d')
  unfolding query_rows sql_query_sqlite answer_of
  query_rows-answered f query_sql d d' [] (ends e) h = rw e refl
  query_rows-answered f query_sql d d' (texts ∷ rows)
        (steps {stmt' = stmt'} {d' = d1} e cols wide y) h =
      let fetched = fetch_rows-Yields f stmt' d1 d' texts rows cols wide y (omega arith) in
      let fields : length (sqlite.columns stmt') ≡ width =
        ap length cols ∙ length-map texts ∙ wide in
      rw (e, fields, fetched) refl
