-- ===== src/Server/Worker.antt =====
-- The bodies of the worker loops `thread_shell` and `thread_file_IO` of server.c.
use linux_os_coding.Base.{ℕ, Run, ok, ◌>>=◌, Option, false, List, [], length, if◌then◌else◌}
use linux_os_coding.Base.Int.{ℤ, pos, eqb_ℤ}
use linux_os_coding.Base.Text.{Text}
use linux_os_coding.Queue.Store.{Task}
use linux_os_coding.Server.{Message, World}
use linux_os_coding.Server.Log.{Tm}
use linux_os_coding.Server.Table.{ClientFd, change}
use linux_os_coding.Server.Database.{Query}
use linux_os_coding.Server.Shell.{do_task_cd, do_task_ls, do_task_remove, do_task_pwd}
use linux_os_coding.Server.Account.{do_task_login, do_task_regist}

abbrev pub command_login : ℤ
command_login = pos 100

abbrev pub command_register : ℤ
command_register = pos 101

-- The loop over the table after a task: the client of `fd` may send its next command.
abbrev pub release : List ClientFd → ℤ → List ClientFd
release clients fd = change clients fd (λ c. record c { work_flag = false })

-- The message as `thread_shell` prepares it.
abbrev pub prepared : Task → Message
prepared task = record { len = pos 0; order = task.work_id; file_size = pos 0; buffer = [] }

module _ {Db : Type 0} (query : Query Db) (crypt : Text → Text → Option Text) (slack : ℕ)
    (rand : ℕ → ℕ) (now : Tm) where
  -- The `switch` on the command.
  unfoldable pub dispatch : World Db → Task → Message → Run (World Db × Message)
  dispatch w task message =
      if eqb_ℤ task.work_id (pos 0)
      then do_task_cd query now w task message
      else if eqb_ℤ task.work_id (pos 1)
      then do_task_ls query now w task message
      else if eqb_ℤ task.work_id (pos 2)
      then do_task_remove query now w task message
      else if eqb_ℤ task.work_id (pos 3)
      then do_task_pwd now w task message
      else if eqb_ℤ task.work_id command_login
      then do_task_login query crypt now w task message
      else if eqb_ℤ task.work_id command_register
      then do_task_regist query crypt slack rand now w task message
      else ok (w, message)

  -- One task of `thread_shell`: the state it leaves and the message that it sends. What `send_n`
  -- returns is printed only.
  unfoldable pub shell_task : World Db → Task → Run (World Db × Message)
  unfolding dispatch
  shell_task w task = do
    (w', message) ← dispatch w task (prepared task)
    ok (
      record w' { clients = release w'.clients task.fd },
      record message { len = pos (length message.buffer) },
    )
