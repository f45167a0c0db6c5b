-- ===== src/Server/Tests.antt =====
-- The theorems on one client and a database of one user.
use linux_os_coding.Base.{
  ℕ, ◌≡◌, refl, map, drop, length, ◌++◌, ◌==◌, ◌||◌, inr, ok, ◌>>=◌, true, ok, some, none, Option,
  [], ◌∷◌, arith, Post, if◌then◌else◌, replicate,
}
use linux_os_coding.Base.Int.{pos}
use linux_os_coding.Base.Text.{Text, codes, str_eq, fill, print_int}
use linux_os_coding.Queue.Store.{Task}
use linux_os_coding.Socket.{chunk}
use linux_os_coding.Wire.{Link, Files}
use linux_os_coding.Server.{Message, World}
use linux_os_coding.Server.Log.{Tm, log_entry, log_input, log_line, print_wide}
use linux_os_coding.Server.Table.{ClientFd, free_slot, find}
use linux_os_coding.Server.Database.{Query, database_select}
use linux_os_coding.Server.Path.{walk_file}
use linux_os_coding.Server.Path.Components.{components, descend, walk_file-descend}
use linux_os_coding.Server.Account.{do_task_login, credentials, split_dollar}
use linux_os_coding.Server.Account.{matches, sign_in}
use linux_os_coding.Server.Shell.{say}
use linux_os_coding.Server.Account.Users.{
  User, Plain, row_of, with_name, Selects, Answered, login-Answered,
}
use linux_os_coding.Server.Transfer.{recv_loop}
use linux_os_coding.Server.Transfer.Resume.{all, piece, recv_loop-resumes}
use linux_os_coding.Server.FileTask.{io_task}
use linux_os_coding.Server.FileTask.Clients.{Freed, io_task-Freed}

abbrev now : Tm
now = record { year = 118; mon = 6; mday = 19; hour = 1; min = 2; sec = 3 }

-- One user, bob, with a directory `doc` of the id 7.
abbrev query : Query ℕ
query db text = (
  db,
  if str_eq text (codes "SELECT code,salt_code,path FROM USER WHERE name='bob'")
      then some ((some (codes "hpw") ∷ some (codes "$6$s") ∷ some (codes "/root/bob") ∷ []) ∷ [])
      else if str_eq text (codes "SELECT name FROM USER WHERE name = 'bob'")
      then some ((some (codes "bob") ∷ []) ∷ [])
      else some [],
)

abbrev crypt : Text → Text → Option Text
crypt code salt = some (b'h' ∷ code)

abbrev bob_slot : ClientFd
bob_slot = record { fd = pos 5; work_flag = true; name = []; path = [] }

abbrev world : World ℕ
world = record { db = 0; clients = bob_slot ∷ free_slot ∷ []; log = [] }

abbrev login_task : Task
login_task = record { fd = pos 5; work_id = pos 100; option = codes "bob$pw" }

abbrev gets_task : Task
gets_task = record { fd = pos 5; work_id = pos 4; option = codes "doc/a" }

abbrev message : Message
message = record { len = pos 0; order = pos 100; file_size = pos 0; buffer = [] }

-- A database that selects by the bytes up to the next quote.
abbrev until_quote : Text → Text
until_quote [] = []
until_quote (c ∷ t) = if c == b'\'' || c == 92 then [] else c ∷ until_quote t

until_quote-append : (name : Text) → Plain name → until_quote (name ++ codes "'") ≡ name
until_quote-append [] h = refl
until_quote-append (c ∷ name) (plain, h) = rw (plain, until_quote-append name h) refl

abbrev bob : User
bob = record {
  name = codes "bob";
  code = codes "hpw";
  salt_code = codes "$6$s";
  path = codes "/root/bob";
}

abbrev select_users : Query ℕ
select_users db text = (
  db,
  some (
      map row_of (
        with_name str_eq
          (until_quote
            (drop (length (codes "SELECT code,salt_code,path FROM USER WHERE name='")) text))
          (bob ∷ []))),
)

selects : Selects str_eq select_users 0 (bob ∷ [])
selects name plain = (
  0,
  some (map row_of (with_name str_eq name (bob ∷ []))),
  rw (until_quote-append name plain) refl,
  inr refl,
)

login-Answered_example :
    Post
      (Answered str_eq world true)
      (do_task_login select_users crypt now world login_task message)
unfolding credentials split_dollar fill str_eq
login-Answered_example =
    login-Answered str_eq select_users crypt now world login_task message (bob ∷ []) (codes "bob")
      (codes "pw") selects refl (refl, (refl, (refl, tt)))

abbrev all_rows : Query ℕ
all_rows db text = (
  db,
  if str_eq text (codes "SELECT code,salt_code,path FROM USER WHERE name='' or '1'='1'")
      then some (row_of bob ∷ [])
      else some [],
)

abbrev attack : Task
attack = record { fd = pos 5; work_id = pos 100; option = codes "' or '1'='1$pw" }

-- A name that closes the string is another condition: the code then gets in without a user of that name.
injected :
    (do_task_login all_rows crypt now world attack message >>= λ (w', m'). ok m'.buffer)
    ≡ ok (codes "success")
unfolding do_task_login credentials split_dollar fill str_eq database_select matches say sign_in
    log_entry find log_input log_line print_wide print_int
injected = refl

walk_file-descend_example :
    walk_file query 0 (codes "root/bob/a") [] (pos 0)
    ≡ descend query 0 (codes "root") (codes "bob" ∷ codes "a" ∷ []) (pos 0)
unfolding components
walk_file-descend_example =
    walk_file-descend query 0 (codes "root/bob/a") (pos 0) (omega arith)
      (omega arith, (omega arith, tt))

abbrev long_task : Task
long_task = record { fd = pos 5; work_id = pos 0; option = replicate 200 b'a' }

abbrev files : Files
files = record {
  content = λ p. if str_eq p (codes "f") then some (codes "ab") else none;
  writable = λ p. true;
}

abbrev link : Link
link = record {
  sent = [];
  send_results = λ n. pos 1;
  replies = λ n. (pos 1, message);
  chunks = λ n. chunk (codes "cd");
  sendfile_results = λ n. none;
}

recv_loop-resumes_example :
    (fs' : Files) × (l' : Link) × (recv_loop 2 true (codes "f") 2 (pos 4) files link
      ≡ some (pos 1, fs', l'))
    × (fs'.content (codes "f") ≡ some (codes "abcd"))
    × ((p : Text)
        → fs'.content p ≡ (if str_eq p (codes "f") then some (codes "abcd") else files.content p))
unfolding str_eq
recv_loop-resumes_example =
    recv_loop-resumes 1 2 (codes "f") files link (codes "abcd") refl (omega arith)
      (piece (codes "cd") [] refl (omega arith) (omega arith) refl all)

io_task-Freed_example :
    Post
      (Freed query now files world gets_task)
      (io_task query 3 now files world gets_task (pos 0) (pos 0) link)
io_task-Freed_example = io_task-Freed query now files world gets_task 3 (pos 0) (pos 0) link
