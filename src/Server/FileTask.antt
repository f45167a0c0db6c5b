-- ===== src/Server/FileTask.antt =====
-- `do_task_gets` and `do_task_puts` of NET_DISK_TASK/SERVER/src/server.c. A file is stored under its
-- MD5 code; the rows of the table FILE say who has it under which name.
pub mod Clients
use linux_os_coding.Base.{
  ℕ, ◌+◌, Run, ok, fault, ◌>>=◌, Option, none, some, List, [], ◌∷◌, ◌++◌, length, is_empty, drop,
  take, if◌then◌else◌, true, false,
}
use linux_os_coding.Base.Int.{ℤ, pos, negsuc, ◌+ℤ◌, eqb_ℤ, leb_ℤ}
use linux_os_coding.Base.Text.{Text, codes, fill, print_int}
use linux_os_coding.Queue.Store.{Task}
use linux_os_coding.Server.{Message, World}
use linux_os_coding.Server.Log.{Tm, log_entry}
use linux_os_coding.Server.Database.{Query, Row, database_select, database_add, fetch, cell}
use linux_os_coding.Server.Path.{locate_file, walk_file}
use linux_os_coding.Server.Shell.{say, file_cond}
use linux_os_coding.Server.Account.{split_dollar}
use linux_os_coding.Server.Worker.{release}
use linux_os_coding.Server.Transfer.{send_file, recv_file}
use linux_os_coding.Wire.{Link, Files, send_message}

abbrev pub user_file_dir : Text
user_file_dir = codes "../../USER_FILES"

-- What the query behind the walk finds: no path to a file, no row, or a row of the user's file.
pub data Found : Type 0 where
  bad_path : Found
  missing : (dir_name : Text) (pre_dir_id : ℤ) → Found
  present : (dir_name : Text) → Row → Found

module _ {Db : Type 0} (query : Query Db) where
  -- The walk and the query that `do_task_gets` and `do_task_puts` share.
  unfoldable pub find_file : Db → (name path : Text) → Run (Db × Found)
  find_file db name path = do
    (db', target) ← walk_file query db (drop 1 path) [] (pos 0)
    elim target [
      | none ↦ ok (db', bad_path)
      | some (dir_name, pre_dir_id) ↦ elim (is_empty dir_name) [
        | true ↦ ok (db', bad_path)
        | false ↦ do
          cond ← file_cond name dir_name pre_dir_id
          (_, db'', result) ← database_select query db' (codes "md5") (codes "FILE") (some cond)
          row ← fetch result
          ok (db'', elim row [ none ↦ missing dir_name pre_dir_id | some r ↦ present dir_name r ])
      ]
    ]

  -- A refusal: the message goes out with the order that came in.
  abbrev refuse : World Db → Message → Text → Link → Run (ℤ × World Db × Link)
  refuse w message text l = do
    m ← say message text
    let (r, l') = send_message (record m { len = pos (length text) }) l
    ok ((if leb_ℤ r (pos 0) then negsuc 0 else pos 1), w, l')

  unfoldable pub do_task_gets :
      Tm → Files → World Db → Task → Message → Link → Run (ℤ × World Db × Link)
  do_task_gets now fs w task message l = do
    (_, name, path) ← locate_file w.clients task.fd task.option
    log ← log_entry now (codes "user:" ++ name ++ codes " gets " ++ task.option) w.log
    (db, target) ← find_file w.db name path
    elim target [
      | bad_path ↦
          refuse (record w { db = db; log = log }) message (codes "Path not points to a file") l
      | missing _ _ ↦
          refuse (record w { db = db; log = log }) message (codes "File not exist, gets failure") l
      | present dir_name r ↦ do
        text ← cell r 0
        md5 ← fill 500 text
        m ← say message dir_name
        stored ← fill 512 (user_file_dir ++ b'/' ∷ md5)
        let (r', _, l') =
            send_file fs stored
              (record m { order = message.order +ℤ pos 1; len = pos (length dir_name) }) l
        ok ((if leb_ℤ r' (pos 0) then negsuc 0 else pos 1), record w { db = db; log = log }, l')
    ]

  -- The row that `do_task_puts` adds, whatever `recv_file` returned.
  unfoldable pub add_row : Db → (name dir_name : Text) → ℤ → (md5 : Text) → ℤ → Run Db
  add_row db name dir_name pre_dir_id md5 file_size = do
    values ← fill 500 (
        codes "'"
        ++ name
        ++ codes "','"
        ++ dir_name
        ++ codes "','f',"
        ++ print_int pre_dir_id
        ++ codes ",'"
        ++ md5
        ++ codes "',"
        ++ print_int file_size)
    (_, db', _) ←
        database_add query db (codes "FILE")
          (codes "name,file_name,file_type,pre_dir_id,md5,file_size") values
    ok db'

  -- `none` inside: the fuel of `recv_file` ran out.
  unfoldable pub do_task_puts :
      (fuel : ℕ)
      → Tm
      → Files
      → World Db
      → Task
      → Message
      → Link
      → Run (Option (ℤ × Files × World Db × Link))
  do_task_puts fuel now fs w task message l = do
    (option, rest) ← split_dollar task.option
    let md5 = take 32 rest
    (_, name, path) ← locate_file w.clients task.fd option
    log ← log_entry now (codes "user:" ++ name ++ codes " gets " ++ option) w.log
    (db, target) ← find_file w.db name path
    elim target [
      | bad_path ↦ do
        (r, w', l') ←
            refuse (record w { db = db; log = log }) message (codes "Path not points to a file") l
        ok (some (r, fs, w', l'))
      | present _ _ ↦ do
        (r, w', l') ←
            refuse (record w { db = db; log = log }) message (codes "File exist, no need to puts") l
        ok (some (r, fs, w', l'))
      | missing dir_name pre_dir_id ↦ do
        m ← say message dir_name
        stored ← fill 512 (user_file_dir ++ b'/' ∷ md5)
        elim (recv_file fuel fs stored
            (record m { order = message.order +ℤ pos 1; len = pos (length dir_name) }) l) [
              | none ↦ ok none
              | some (_, fs', m', l') ↦ do
                db' ← add_row db name dir_name pre_dir_id md5 m'.file_size
                ok (some (pos 1, fs', record w { db = db'; log = log }, l'))
            ]
    ]

  -- One task of `thread_file_IO`, on the message that the thread prepares: `len` and `file_size` are
  -- whatever the stack holds. The result of the handlers is printed only.
  unfoldable pub io_task :
      (fuel : ℕ)
      → Tm
      → Files
      → World Db
      → Task
      → (len file_size : ℤ) → Link
      → Run (Option (Files × World Db × Link))
  io_task fuel now fs w task len file_size l =
      let message : Message = record {
        len = len;
        order = task.work_id;
        file_size = file_size;
        buffer = [];
      } in
      if eqb_ℤ task.work_id (pos 4)
      then (do
        (_, w', l') ← do_task_gets now fs w task message l
        ok (some (fs, record w' { clients = release w'.clients task.fd }, l')))
      else if eqb_ℤ task.work_id (pos 5)
      then (do
        done ← do_task_puts fuel now fs w task message l
        ok (elim done [
          | none ↦ none
          | some (_, fs', w', l') ↦
              some (fs', record w' { clients = release w'.clients task.fd }, l')
        ]))
      else ok (some (fs, record w { clients = release w.clients task.fd }, l))
