-- ===== src/Server/Start.antt =====
-- The start of NET_DISK_TASK/SERVER: the configuration file that src/main.c reads, and `server_init` of
-- src/server.c. Stack arrays have no slack here; `room` is what the allocator gives for 8 bytes.
pub mod Config
mod Tests
use linux_os_coding.Base.{
  ℕ, zero, suc, ◌+◌, ◌-◌, Bool, true, false, Run, ok, fault, ◌>>=◌, Option, none, some, List, [],
  ◌∷◌, ◌++◌, length, replicate, leb, ltb, if◌then◌else◌,
}
use linux_os_coding.Base.Int.{ℤ, pos, negsuc, ◌+ℤ◌, leb_ℤ}
use linux_os_coding.Base.Text.{Text, codes, ends_line, c_string, atoi}
use linux_os_coding.Queue.Store.{Task}
use linux_os_coding.Server.{Message}
use linux_os_coding.Server.Connection.{Handle, database_init, database_login}
use linux_os_coding.Server.Table.{ClientFd, free_slot, tcp_capacity}
use linux_os_coding.Server.Exit.{server_start}
use linux_os_coding.Wire.{Link, send_message}

-- The bytes up to the end of the line or of the file, and the file behind it.
unfoldable pub split_line : Text → Text × Text
split_line [] = ([], [])
split_line (c ∷ file) = elim (ends_line c) [
  | true ↦ ([], file)
  | false ↦ let (line, rest) = split_line file in (c ∷ line, rest)
]

-- `readline` into a zeroed array of `cap` bytes: it writes no NUL and does not look at the capacity.
unfoldable pub readline : (cap : ℕ) → Text → Run (Text × Text)
readline cap file =
    let (line, rest) = split_line file in
    if leb (length line) cap then ok (line ++ replicate (cap - length line) 0, rest) else fault

-- What `server_init` sets up. `new_log` says that `open` has created the log file; a file that was there
-- is opened for appending.
pub record Started : Type 0 where
  pub clients : List ClientFd
  pub database : Handle
  pub log_append : Bool

-- `client_fd` after the loop that clears it.
unfoldable pub client_table : List ClientFd
client_table = replicate tcp_capacity free_slot

-- The result of `database_login` is not looked at.
unfoldable pub server_init :
    (room : ℕ) → (connects : Text → Text → Text → Bool) → (knows_utf8 new_log : Bool) → Run Started
server_init room connects knows_utf8 new_log = do
  db ← database_init room (codes "root") (codes "loveistrue") (codes "net_disk_project")
  (ret_num, db') ← database_login connects knows_utf8 db
  ok (record {
    clients = client_table;
    database = db';
    log_append = (if new_log then false else true);
  })

-- What `main` has before it opens the socket: the state, the numbers of shell and of file workers, and
-- the strings that `TCP_server_link` reads as address and port. The first log line is left out.
pub record Booted : Type 0 where
  pub started : Started
  pub workers : ℕ × ℕ
  pub address : Text
  pub port : ℤ

-- `th_num / 4` is rounded towards 0, so from -4 on downwards no thread is started; a number that is not
-- positive leaves no memory for the identifiers.
abbrev pub start_threads : ℤ → Run (ℕ × ℕ)
start_threads (pos n) = server_start n
start_threads (negsuc n) = if ltb n 3 then fault else ok (0, 0)

unfoldable pub boot :
    (room : ℕ)
    → (connects : Text → Text → Text → Bool) → (knows_utf8 new_log : Bool) → (file : Text)
    → Run Booted
boot room connects knows_utf8 new_log file = do
  (ip_conf, file1) ← readline 15 file
  (port_conf, file2) ← readline 4 file1
  (thread_num_conf, file3) ← readline 4 file2
  num ← c_string thread_num_conf
  thread_num ← atoi num
  server ← server_init room connects knows_utf8 new_log
  workers ← start_threads thread_num
  address ← c_string ip_conf
  port ← c_string port_conf
  port_num ← atoi port
  ok (record { started = server; workers = workers; address = address; port = port_num })

-- Called nowhere. `len` is that of the text that the message holds.
unfoldable pub make_request : Message → Task → (flag : ℤ) → Link → ℤ × Message × Link
make_request m task flag l =
    let m' : Message = record m {
      order = task.work_id +ℤ flag;
      file_size = pos 0;
      len = pos (length m.buffer);
    } in
    let (ret_num, l') = send_message m' l in
    ((if leb_ℤ ret_num (pos 0) then negsuc 0 else pos 1), m', l')
