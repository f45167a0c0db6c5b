-- ===== src/Server/Path.antt =====
-- The walk along a path that `do_task_cd`, `do_task_ls`, `do_task_remove`, `do_task_gets` and
-- `do_task_puts` of server.c share, one query for each directory.
pub mod Components
use linux_os_coding.Base.{
  ℕ, zero, suc, ◌<◌, ◌≡◌, Bool, true, false, ◌||◌, ◌&&◌, Run, ok, fault, ◌>>=◌, Option, none, some,
  List, [], ◌∷◌, ◌++◌, length, is_empty, ltb, ◌==◌, if◌then◌else◌, drop,
}
use linux_os_coding.Base.Int.{ℤ, pos}
use linux_os_coding.Base.Text.{Text, codes, fill, atoi, print_int, at}
use linux_os_coding.Server.Table.{ClientFd, find}
use linux_os_coding.Server.Database.{Query, Rows, database_select, fetch, cell}

abbrev pub slash : ℕ
slash = b'/'

-- The three ways to read the option: nothing (or a line feed) is the client's directory, a relative
-- path goes on from it, an absolute path stands alone. The result is the index at which the search
-- for the client stopped, its name, and the path, in 1000 bytes. A client that is not in the table
-- leaves the name empty, and the path too unless it is absolute.
unfoldable pub locate : List ClientFd → ℤ → Text → Run (ℕ × Text × Text)
locate clients fd option =
    let (j, slot) = find clients fd in
    if at option 0 == 0 || at option 0 == b'\n'
    then elim slot [ none ↦ ok (j, [], []) | some c ↦ ok (j, c.name, c.path) ]
    else if at option 0 == slash
    then (do path ← fill 1000 option; ok (j, elim slot [ none ↦ [] | some c ↦ c.name ], path))
    else elim slot [
      | none ↦ ok (j, [], [])
      | some c ↦ do path ← fill 1000 (c.path ++ slash ∷ option); ok (j, c.name, path)
    ]

-- The same in `do_task_gets` and `do_task_puts`, where nothing is a relative path and the buffer
-- has 512 bytes.
unfoldable pub locate_file : List ClientFd → ℤ → Text → Run (ℕ × Text × Text)
locate_file clients fd option =
    let (j, slot) = find clients fd in
    if at option 0 == slash
    then (do path ← fill 512 option; ok (j, elim slot [ none ↦ [] | some c ↦ c.name ], path))
    else elim slot [
      | none ↦ ok (j, [], [])
      | some c ↦ do path ← fill 512 (c.path ++ slash ∷ option); ok (j, c.name, path)
    ]

-- `dir_name[j++] = path[i]`
abbrev pub push : Text → ℕ → Run Text
push dir_name c = if ltb (length dir_name) 256 then ok (dir_name ++ c ∷ []) else fault

-- The condition of a query for the directory `dir_name` in the directory `pre_dir_id`.
abbrev pub dir_cond : Text → ℤ → Text → Run Text
dir_cond dir_name pre_dir_id end = do
  name ← fill 256 dir_name
  fill 500 (
      codes "file_name='"
      ++ name
      ++ codes "' and pre_dir_id="
      ++ print_int pre_dir_id
      ++ codes " and file_type = 'd'"
      ++ end)

-- On with the directory that was found; without one the loop breaks off.
abbrev pub if_found :
    {Db R : Type 0} → (Db → ℤ → Run (Db × Option R)) → Db × Option ℤ → Run (Db × Option R)
if_found next (db, none) = ok (db, none)
if_found next (db, some id) = next db id

module _ {Db : Type 0} (query : Query Db) where
  -- The query at a slash: the id of the directory, `none` if there is no such directory.
  unfoldable pub enter_dir : Db → Text → ℤ → Run (Db × Option ℤ)
  enter_dir db dir_name pre_dir_id = do
    cond ← dir_cond dir_name pre_dir_id (codes " ")
    (_, db', result) ←
        database_select query db (codes "file_name,dir_id") (codes "FILE") (some cond)
    row ← fetch result
    elim row [
      | none ↦ ok (db', none)
      | some r ↦ do text ← cell r 1; id ← atoi text; ok (db', some id)
    ]

  -- The loop of `do_task_cd` and `do_task_ls` on the rest of the path, which stops at the end or at
  -- a slash that ends the path. `none`: the loop broke off at a directory that does not exist.
  unfoldable pub walk_dir :
      Db → (rest dir_name : Text) (pre_dir_id : ℤ) → Run (Db × Option (Text × ℤ))
  walk_dir db [] dir_name pre_dir_id = ok (db, some (dir_name, pre_dir_id))
  walk_dir db (c ∷ rest) dir_name pre_dir_id = elim (c == slash) [
    | true ↦ elim (is_empty rest) [
      | true ↦ ok (db, some (dir_name, pre_dir_id))
      | false ↦ enter_dir db dir_name pre_dir_id >>= if_found (λ db' id. walk_dir db' rest [] id)
    ]
    | false ↦ push dir_name c >>= λ longer. walk_dir db rest longer pre_dir_id
  ]

  -- The loop of `do_task_remove`, `do_task_gets` and `do_task_puts`, which stops at the end only.
  unfoldable pub walk_file :
      Db → (rest dir_name : Text) (pre_dir_id : ℤ) → Run (Db × Option (Text × ℤ))
  walk_file db [] dir_name pre_dir_id = ok (db, some (dir_name, pre_dir_id))
  walk_file db (c ∷ rest) dir_name pre_dir_id = elim (c == slash) [
    | true ↦ enter_dir db dir_name pre_dir_id >>= if_found (λ db' id. walk_file db' rest [] id)
    | false ↦ push dir_name c >>= λ longer. walk_file db rest longer pre_dir_id
  ]
