-- ===== src/Server/Account/Register.antt =====
-- Who may register: `do_task_regist` of server.c.
use linux_os_coding.Base.{
  ℕ, ◌<◌, ◌≡◌, ok, fault, Option, some, List, [], ◌∷◌, ◌++◌, length, length-append, arith,
}
use linux_os_coding.Base.Int.{ℤ}
use linux_os_coding.Base.Text.{Text, codes, fill, fill-ok}
use linux_os_coding.Queue.Store.{Task}
use linux_os_coding.Server.{Message, World}
use linux_os_coding.Server.Log.{Tm}
use linux_os_coding.Server.Database.{Query, Row, database_select}
use linux_os_coding.Server.Shell.{say}
use linux_os_coding.Server.Account.{credentials, do_task_regist}
use linux_os_coding.Server.Account.Login.{salt_overrun}

say_ok : (m : Message) (t : Text) → length t < 1000 → say m t ≡ ok (record m { buffer = t })
unfolding say
say_ok m t h = rw (fill-ok 1000 t h)

name_cond :
    (name : Text)
    → length name < 20
    → fill 500 (codes "name = '" ++ name ++ codes "'") ≡ ok (codes "name = '" ++ name ++ codes "'")
name_cond name h = fill-ok 500 _ (omega (arith, length-append name (codes "'")))

home :
    (name : Text)
    → length name < 20
    → fill 30 (codes "/root/" ++ name) ≡ ok (codes "/root/" ++ name)
home name h = fill-ok 30 _ (omega arith)

module _ {Db : Type 0} (query : Query Db) (crypt : Text → Text → Option Text) (slack : ℕ)
    (rand : ℕ → ℕ) (now : Tm) where
  module _ (w : World Db) (task : Task) (m : Message) (name code : Text) (s : ℤ) (db : Db)
      (given : credentials task.option ≡ ok (name, code)) (short : length name < 20) where
    -- Where name and code are read from the option and the SELECT for the name brings a row, the name
    -- is refused: the answer is "regist failure", and of the state only the SELECT has touched
    -- anything. No row is added.
    pub regist-used :
        (r : Row) (rs : List Row)
        → database_select query w.db
            (codes "name")
            (codes "USER")
            (some (codes "name = '" ++ name ++ codes "'"))
          ≡ ok (s, db, some (r ∷ rs))
        → do_task_regist query crypt slack rand now w task m
          ≡ ok (record w { db = db }, record m { buffer = codes "regist failure" })
    unfolding do_task_regist
    regist-used r rs es =
        rw (given, name_cond name short, es, say_ok m (codes "regist failure") (omega arith))

    -- Where name and code are read from the option and the SELECT for the name brings no row, the code
    -- goes on to the salt. On a stack with no slack behind `rand_str` its missing NUL is undefined
    -- behaviour, before any row is added.
    pub regist_overrun :
        slack ≡ 0
        → database_select query w.db
            (codes "name")
            (codes "USER")
            (some (codes "name = '" ++ name ++ codes "'"))
          ≡ ok (s, db, some [])
        → do_task_regist query crypt slack rand now w task m ≡ fault
    unfolding do_task_regist
    regist_overrun tight es = rw (
      given,
      name_cond name short,
      es,
      say_ok m (codes "success") (omega arith),
      home name short,
      tight,
      salt_overrun rand,
    )
