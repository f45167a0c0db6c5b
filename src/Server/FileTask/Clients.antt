-- ===== src/Server/FileTask/Clients.antt =====
-- A client's mark while the thread for files runs its task.
use linux_os_coding.Base.{ℕ, ◌≡◌, Option, none, some, [], Post, arith}
use linux_os_coding.Base.Int.{ℤ}
use linux_os_coding.Queue.Store.{Task}
use linux_os_coding.Server.{Message, World}
use linux_os_coding.Server.Log.{Tm}
use linux_os_coding.Server.Database.{Query}
use linux_os_coding.Server.Worker.{release}
use linux_os_coding.Server.FileTask.{do_task_gets, do_task_puts, io_task}
use linux_os_coding.Wire.{Link, Files}

module _ {Db : Type 0} (query : Query Db) (now : Tm) (fs : Files) (w : World Db) (task : Task) where
  Kept : ℤ × World Db × Link → Type 0
  Kept (r, w', l') = w'.clients ≡ w.clients

  gets-Kept : (m : Message) (l : Link) → Post Kept (do_task_gets query now fs w task m l)
  unfolding do_task_gets Kept
  gets-Kept m l = ground arith

  PutKept : Option (ℤ × Files × World Db × Link) → Type 0
  PutKept none = Unit
  PutKept (some (r, fs', w', l')) = w'.clients ≡ w.clients

  puts-Kept :
      (fuel : ℕ) (m : Message) (l : Link) → Post PutKept (do_task_puts query fuel now fs w task m l)
  unfolding do_task_puts PutKept
  puts-Kept fuel m l = ground arith

  unfoldable pub Freed : Option (Files × World Db × Link) → Type 0
  Freed none = Unit
  Freed (some (fs', w', l')) = w'.clients ≡ release w.clients task.fd

  -- Whatever becomes of its task, a transfer, a refusal, a broken connection or a work id that it
  -- does not know: where it ends without undefined behaviour, the thread for files leaves the table
  -- of clients as it was but for the mark of the task's client, which it takes away.
  pub io_task-Freed :
      (fuel : ℕ) (len file_size : ℤ) (l : Link)
      → Post Freed (io_task query fuel now fs w task len file_size l)
  unfolding io_task Freed Kept PutKept
  io_task-Freed fuel len file_size l =
      let message : Message = record {
        len = len;
        order = task.work_id;
        file_size = file_size;
        buffer = [];
      } in
      ground (arith, gets-Kept message l, puts-Kept fuel message l)
