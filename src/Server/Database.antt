-- ===== src/Server/Database.antt =====
-- NET_DISK_TASK/SERVER/src/database_api.c. The MySQL server is a parameter: from its state and the
-- text of a statement it gives its next state and the rows of the result, `none` if the statement
-- fails. A cell is a text, or `none` for an SQL NULL.
use linux_os_coding.Base.{
  ℕ, Run, ok, fault, ◌>>=◌, Option, none, some, List, [], ◌∷◌, ◌++◌, get_elem?,
}
use linux_os_coding.Base.Int.{ℤ, pos, negsuc}
use linux_os_coding.Base.Text.{Text, codes, fill}

abbrev pub Row : Type 0
Row = List (Option Text)

abbrev pub Rows : Type 0
Rows = Option (List Row)

abbrev pub Query : Type 0 → Type 0
Query Db = Db → Text → Db × Rows

-- `check_mysql_error(0, ret_num, …)`
abbrev pub status : Rows → ℤ
status none = negsuc 0
status (some rows) = pos 1

module _ {Db : Type 0} (query : Query Db) where
  -- The statement is built in 500 bytes; the result is what `mysql_use_result` finds afterwards.
  pub run_statement : Db → Text → Run (ℤ × Db × Rows)
  run_statement db text = do
    statement ← fill 500 text
    let (db', rows) = query db statement
    ok (status rows, db', rows)

  unfoldable pub database_select : Db → (items table : Text) → Option Text → Run (ℤ × Db × Rows)
  unfolding run_statement
  database_select db items table none =
      run_statement db (codes "SELECT " ++ items ++ codes " FROM " ++ table)
  database_select db items table (some cond) =
      run_statement db
        (codes "SELECT " ++ items ++ codes " FROM " ++ table ++ codes " WHERE " ++ cond)

  unfoldable pub database_add : Db → (table items values : Text) → Run (ℤ × Db × Rows)
  unfolding run_statement
  database_add db table items values = run_statement db (
      codes "INSERT INTO "
      ++ table
      ++ codes " ("
      ++ items
      ++ codes ") values("
      ++ values
      ++ codes ")")

  unfoldable pub database_delete : Db → (table cond : Text) → Run (ℤ × Db × Rows)
  unfolding run_statement
  database_delete db table cond =
      run_statement db (codes "DELETE FROM " ++ table ++ codes " WHERE " ++ cond)

  unfoldable pub database_update : Db → (table assignment cond : Text) → Run (ℤ × Db × Rows)
  unfolding run_statement
  database_update db table assignment cond =
      run_statement db
        (codes "UPDATE " ++ table ++ codes " SET " ++ assignment ++ codes " WHERE " ++ cond)

-- `mysql_use_result` and the first `mysql_fetch_row`: NULL at the end of the rows. After a statement
-- that failed the result is NULL itself, and the fetch reads through it.
abbrev pub fetch : Rows → Run (Option Row)
fetch none = fault
fetch (some []) = ok none
fetch (some (r ∷ rs)) = ok (some r)

-- `row[i]` where the code needs a string.
abbrev pub cell : Row → ℕ → Run Text
cell r i = elim (get_elem? r i) [ none ↦ fault | some c ↦ elim c [ none ↦ fault | some t ↦ ok t ] ]
