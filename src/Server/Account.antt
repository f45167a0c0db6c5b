-- ===== src/Server/Account.antt =====
-- `do_task_login`, `do_task_regist` and `get_rand_str` of server.c. `crypt` of the C library is a
-- parameter, `none` where it returns NULL, and so are the numbers that `rand` returns.
pub mod Login
pub mod Users
pub mod Register
use linux_os_coding.Base.{
  ℕ, zero, suc, ◌+◌, ◌%◌, Bool, true, false, Run, ok, fault, ◌>>=◌, ◌>>◌, Option, none, some, List,
  [], ◌∷◌, ◌++◌, ◌==◌, length, require, leb, if◌then◌else◌,
}
use linux_os_coding.Base.Int.{ℤ}
use linux_os_coding.Base.Text.{Text, codes, fill, str_eq, at}
use linux_os_coding.Queue.Store.{Task}
use linux_os_coding.Server.{Message, World}
use linux_os_coding.Server.Log.{Tm, log_entry}
use linux_os_coding.Server.Table.{ClientFd, find, change}
use linux_os_coding.Server.Database.{Query, Row, Rows, database_select, database_add, fetch, cell}
use linux_os_coding.Server.Shell.{say}

-- The first loop on the option: the bytes before `$` and those behind it. Without a `$` it runs past
-- the end of the option.
unfoldable pub split_dollar : Text → Run (Text × Text)
split_dollar [] = fault
split_dollar (c ∷ rest) = elim (c == b'$') [
  | true ↦ ok ([], rest)
  | false ↦ split_dollar rest >>= λ (name, code). ok (c ∷ name, code)
]

-- Name and password go to 20 bytes each.
unfoldable pub credentials : Text → Run (Text × Text)
credentials option = do
  (n, c) ← split_dollar option
  name ← fill 20 n
  code ← fill 20 c
  ok (name, code)

-- The loop that stores name and path in the client's slot, and its log line.
unfoldable pub sign_in :
    {Db : Type 0} → Tm → World Db → ℤ → (name : Text) → Run Text → (what : Text) → Run (World Db)
sign_in now w fd name path what = elim ((find w.clients fd).1) [
  | none ↦ ok w
  | some _ ↦ do
    p ← path
    stored ← fill 512 p
    log ← log_entry now (codes "user:" ++ name ++ what) w.log
    ok (record w {
      clients = change w.clients fd (λ c. record c { name = name; path = stored });
      log = log;
    })
]

abbrev pub alphabet : Text
alphabet = codes "0123456789ABCDEFGHIJKLMNOPQRSTUVWXYZabcdefghijklmnopqrstuvwxyz,./;\"'<>?"

-- `rand` gives the numbers in turn.
unfoldable pub get_rand_str : (rand : ℕ → ℕ) → (num : ℕ) → Text
get_rand_str rand zero = []
get_rand_str rand (suc n) =
    at alphabet (rand 0 % length alphabet) ∷ get_rand_str (λ i. rand (suc i)) n

-- `rand_str` and `salt_code` are one byte short each: their NUL stands behind them. `slack` says
-- how many bytes the compiler leaves unused, and zero, behind each of them.
unfoldable pub make_salt : (slack : ℕ) → (rand : ℕ → ℕ) → Run Text
make_salt slack rand = do
  rand_str ← fill (8 + slack) (get_rand_str rand 8)
  fill (11 + slack) (codes "$6$" ++ rand_str)

module _ {Db : Type 0} (query : Query Db) (crypt : Text → Text → Option Text) where
  -- `!strcmp(row[0], crypt(code, row[1]))`
  unfoldable pub matches : Text → Row → Run Bool
  matches code r = do
    stored ← cell r 0
    salt ← cell r 1
    elim (crypt code salt) [ none ↦ fault | some hashed ↦ ok (str_eq stored hashed) ]

  unfoldable pub do_task_login : Tm → World Db → Task → Message → Run (World Db × Message)
  do_task_login now w task message = do
    (name, code) ← credentials task.option
    cond ← fill 200 (codes "name='" ++ name ++ codes "'")
    (_, db, result) ←
        database_select query w.db (codes "code,salt_code,path") (codes "USER") (some cond)
    row ← fetch result
    elim row [
      | none ↦ do m ← say message (codes "login failure"); ok (record w { db = db }, m)
      | some r ↦ matches code r >>= λ same. elim same [
        | true ↦ do
          m ← say message (codes "success")
          w' ← sign_in now (record w { db = db }) task.fd name (cell r 2) (codes " login")
          ok (w', m)
        | false ↦ do m ← say message (codes "login failure"); ok (record w { db = db }, m)
      ]
    ]

  unfoldable pub do_task_regist :
      (slack : ℕ) (rand : ℕ → ℕ) → Tm → World Db → Task → Message → Run (World Db × Message)
  do_task_regist slack rand now w task message = do
    (name, code) ← credentials task.option
    cond ← fill 500 (codes "name = '" ++ name ++ codes "'")
    (_, db, result) ← database_select query w.db (codes "name") (codes "USER") (some cond)
    row ← fetch result
    elim row [
      | some _ ↦ do m ← say message (codes "regist failure"); ok (record w { db = db }, m)
      | none ↦ do
        m ← say message (codes "success")
        path ← fill 30 (codes "/root/" ++ name)
        salt ← make_salt slack rand
        hashed ← elim (crypt code salt) [ none ↦ fault | some h ↦ ok h ]
        user ← fill 500 (
            codes "'"
            ++ name
            ++ codes "','"
            ++ salt
            ++ codes "','"
            ++ hashed
            ++ codes "','"
            ++ path
            ++ codes "'")
        (_, db', _) ← database_add query db (codes "USER") (codes "name,salt_code,code,path") user
        dir ← fill 500 (codes "0,'" ++ name ++ codes "','" ++ name ++ codes "','d'")
        (_, db'', _) ←
            database_add query db' (codes "FILE") (codes "pre_dir_id,name,file_name,file_type") dir
        w' ← sign_in now (record w { db = db'' }) task.fd name (ok path) (codes " regist")
        ok (w', m)
    ]
