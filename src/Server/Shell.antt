-- ===== src/Server/Shell.antt =====
-- The directory commands of server.c: `do_task_cd`, `do_task_ls`, `do_task_remove`, `do_task_pwd`.
-- `now` is the time that the log line gets. The result sets that the code frees are not modelled.
pub mod Commands
use linux_os_coding.Base.{
  ℕ, zero, suc, ◌-◌, Run, ok, fault, ◌>>=◌, Option, none, some, List, [], ◌∷◌, ◌++◌, length,
  is_empty, replicate, drop, ◌==◌, if◌then◌else◌, true, false,
}
use linux_os_coding.Base.Int.{ℤ, pos}
use linux_os_coding.Base.Text.{Text, codes, fill, atoi, print_int}
use linux_os_coding.Queue.Store.{Task}
use linux_os_coding.Server.{Message, World}
use linux_os_coding.Server.Log.{Tm, log_entry}
use linux_os_coding.Server.Table.{ClientFd, find, update_slot}
use linux_os_coding.Server.Database.{
  Query, Row, Rows, database_select, database_delete, fetch, cell,
}
use linux_os_coding.Server.Path.{slash, locate, dir_cond, walk_dir, walk_file}

-- `sprintf` or `strcpy` into the 1000 bytes of the message.
unfoldable pub say : Message → Text → Run Message
say message text = do t ← fill 1000 text; ok (record message { buffer = t })

-- `do_task_cd` looks at the last byte of the path, which has to be there, and cuts one slash off.
unfoldable pub cut_slash : Text → Run Text
cut_slash [] = fault
cut_slash (c ∷ []) = ok (if c == slash then [] else c ∷ [])
cut_slash (c ∷ d ∷ rest) = do tail ← cut_slash (d ∷ rest); ok (c ∷ tail)

-- `%-20s`
pad : Text → Text
pad t = t ++ replicate (20 - length t) b' '

-- The loop of `do_task_ls` over the rows: each line is built in 500 bytes and `strcat` adds it to
-- the message.
unfoldable pub list_rows : List Row → Text → Run Text
unfolding pad
list_rows [] buffer = ok buffer
list_rows (r ∷ rs) buffer = do
  kind ← cell r 0
  name ← cell r 1
  size ← cell r 2
  line ← fill 500 (kind ++ b' ' ∷ pad name ++ b' ' ∷ pad size ++ b'\n' ∷ [])
  longer ← fill 1000 (buffer ++ line)
  list_rows rs longer

-- The rows of a result that is not NULL.
abbrev rows_of : Rows → Run (List Row)
rows_of none = fault
rows_of (some rs) = ok rs

-- The condition of the query for a user's file.
abbrev pub file_cond : (name dir_name : Text) → ℤ → Run Text
file_cond name dir_name pre_dir_id = do
  file ← fill 256 dir_name
  fill 500 (
      codes "name='"
      ++ name
      ++ codes "' and file_name='"
      ++ file
      ++ codes "' and pre_dir_id="
      ++ print_int pre_dir_id
      ++ codes " and file_type != 'd'")

module _ {Db : Type 0} (query : Query Db) where
  -- The query for the last directory of a path: its row, if there is one.
  unfoldable pub last_dir : Db → Text → ℤ → Run (Db × Option Row)
  last_dir db dir_name pre_dir_id = do
    cond ← dir_cond dir_name pre_dir_id []
    (_, db', result) ← database_select query db (codes "dir_id") (codes "FILE") (some cond)
    row ← fetch result
    ok (db', row)

  unfoldable pub do_task_cd : Tm → World Db → Task → Message → Run (World Db × Message)
  do_task_cd now w task message = do
    (k, name, path) ← locate w.clients task.fd task.option
    log ← log_entry now (codes "user:" ++ name ++ codes " cd " ++ task.option) w.log
    (db, target) ← walk_dir query w.db (drop 1 path) [] (pos 0)
    elim target [
      | none ↦ do m ← say message (codes "Invalid path"); ok (record w { db = db; log = log }, m)
      | some (dir_name, pre_dir_id) ↦ do
        (db', row) ← last_dir db dir_name pre_dir_id
        elim row [
          | none ↦ do
            m ← say message (codes "Invalid path")
            ok (record w { db = db'; log = log }, m)
          | some _ ↦ do
            short ← cut_slash path
            stored ← fill 512 short
            clients ← update_slot w.clients k (λ c. record c { path = stored })
            m ← say message (codes "go to " ++ task.option)
            ok (record { db = db'; clients = clients; log = log }, m)
        ]
    ]

  unfoldable pub do_task_ls : Tm → World Db → Task → Message → Run (World Db × Message)
  do_task_ls now w task message = do
    (_, name, path) ← locate w.clients task.fd task.option
    log ← log_entry now (codes "user:" ++ name ++ codes " ls " ++ task.option) w.log
    (db, target) ← walk_dir query w.db (drop 1 path) [] (pos 0)
    elim target [
      | none ↦ do m ← say message (codes "Invalid path"); ok (record w { db = db; log = log }, m)
      | some (dir_name, pre_dir_id) ↦ do
        (db', row) ← last_dir db dir_name pre_dir_id
        elim row [
          | none ↦ do
            m ← say message (codes "Invalid path")
            ok (record w { db = db'; log = log }, m)
          | some r ↦ do
            text ← cell r 0
            id ← atoi text
            cond ← fill 500 (codes "pre_dir_id=" ++ print_int id)
            (_, db'', result) ←
                database_select query db' (codes "file_type,file_name,file_size") (codes "FILE")
                  (some cond)
            rows ← rows_of result
            listing ← list_rows rows message.buffer
            ok (record w { db = db''; log = log }, record message { buffer = listing })
        ]
    ]

  -- What `do_task_remove` does with a row of the user's file: it deletes by the row's id.
  unfoldable pub remove_row : Db → Row → Message → Run (Db × Message)
  remove_row db r message = do
    text ← cell r 0
    id ← atoi text
    cond ← fill 500 (codes "dir_id=" ++ print_int id)
    (_, db', _) ← database_delete query db (codes "FILE") cond
    m ← say message (codes "remove success")
    ok (db', m)

  unfoldable pub do_task_remove : Tm → World Db → Task → Message → Run (World Db × Message)
  do_task_remove now w task message = do
    (_, name, path) ← locate w.clients task.fd task.option
    log ← log_entry now (codes "user:" ++ name ++ codes " remove " ++ task.option) w.log
    (db, target) ← walk_file query w.db (drop 1 path) [] (pos 0)
    elim target [
      | none ↦ do
        m ← say message (codes "Path not points to a file")
        ok (record w { db = db; log = log }, m)
      | some (dir_name, pre_dir_id) ↦ elim (is_empty dir_name) [
        | true ↦ do
          m ← say message (codes "Path not points to a file")
          ok (record w { db = db; log = log }, m)
        | false ↦ do
          cond ← file_cond name dir_name pre_dir_id
          (_, db', result) ← database_select query db (codes "dir_id") (codes "FILE") (some cond)
          row ← fetch result
          elim row [
            | none ↦ do
              m ← say message (codes "File not exist, remove failure")
              ok (record w { db = db'; log = log }, m)
            | some r ↦ do
              (db'', m) ← remove_row db' r message
              ok (record w { db = db''; log = log }, m)
          ]
      ]
    ]

unfoldable pub do_task_pwd :
    {Db : Type 0} → Tm → World Db → Task → Message → Run (World Db × Message)
do_task_pwd now w task message = elim ((find w.clients task.fd).1) [
  | none ↦ ok (w, message)
  | some c ↦ do
    log ← log_entry now (codes "user:" ++ c.name ++ codes " pwd") w.log
    m ← say message c.path
    ok (record w { log = log }, m)
]
