-- ===== src/Server/Loop.antt =====
-- The event loop of NET_DISK_TASK/SERVER/src/main.c and the workers that it feeds. The queues are
-- lists here, which Queue/Fifo justifies; a worker holds the task that it has popped. What a handler
-- does besides clearing the work flag is left out: it is in Shell, Account and FileTask.
pub mod Pending
pub mod InFlight
pub mod Wedge
mod Tests
use linux_os_coding.Base.{
  ℕ, ◌≡◌, ◌≢◌, Bool, true, false, ◌||◌, Run, ok, fault, ◌>>=◌, Option, none, some, List, [], ◌∷◌,
  ◌++◌, length, ltb, if◌then◌else◌,
}
use linux_os_coding.Base.Int.{ℤ, pos, negsuc, eqb_ℤ}
use linux_os_coding.Base.Text.{Text, codes, fill}
use linux_os_coding.Queue.{queue_capacity}
use linux_os_coding.Queue.Store.{Task}
use linux_os_coding.Server.{Message}
use linux_os_coding.Server.Log.{Tm, log_entry}
use linux_os_coding.Server.Table.{ClientFd, free_slot, find, is_client_work, change}
use linux_os_coding.Server.Worker.{release}

pub record State : Type 0 where
  pub clients : List ClientFd
  pub io : List Task  -- `child_IO_queue`
  pub shell : List Task  -- `child_shell_queue`
  pub busy : List Task  -- popped by a worker and not finished
  pub log : List Text

-- `queue_insert`, whose result the loop does not look at: a full queue drops the task.
abbrev pub enqueue : List Task → Task → List Task
enqueue q t = if ltb (length q) queue_capacity then q ++ t ∷ [] else q

-- The orders 4 and 5 go to the queue of the file workers. `option` has 512 bytes.
unfoldable pub give_child_task : ℤ → State → Message → Run State
give_child_task fd s message = do
  option ← fill 512 message.buffer
  let task : Task = record { fd = fd; work_id = message.order; option = option }
  ok (
      if eqb_ℤ message.order (pos 4) || eqb_ℤ message.order (pos 5)
      then record s { io = enqueue s.io task }
      else record s { shell = enqueue s.shell task })

-- The first free slot is the new client's.
abbrev pub claim : List ClientFd → ℤ → List ClientFd
claim clients fd = change clients (negsuc 0) (λ c. record c { fd = fd; work_flag = true })

-- A connection, with the client's first message, `none` where `recv_n` does not return 1.
unfoldable pub on_accept : Tm → (ip : Text) → ℤ → Option Message → State → Run State
on_accept now ip fd message s = do
  log ← log_entry now (codes "ip:" ++ ip ++ codes " connect") s.log
  elim message [
    | none ↦ ok (record s { log = log })
    | some m ↦ give_child_task fd (record s { clients = claim s.clients fd; log = log }) m
  ]

-- A client's descriptor is readable: nothing while a task of its is at work, else its next command,
-- or its end.
unfoldable pub on_readable : Tm → ℤ → Option Message → State → Run State
on_readable now fd message s =
    if eqb_ℤ (is_client_work s.clients fd) (pos 1) then ok s else elim message [
      | none ↦ elim ((find s.clients fd).1) [
        | none ↦ ok s
        | some c ↦ do
          log ← log_entry now (codes "user:" ++ c.name ++ codes " disconnect") s.log
          ok (record s { clients = change s.clients fd (λ _. free_slot); log = log })
      ]
      | some m ↦
          give_child_task fd
            (record s { clients = change s.clients fd (λ c. record c { work_flag = true }) }) m
    ]

-- A worker that pops a task with the id -1 ends; any other task it works on.
unfoldable pub popped : Task → List Task → List Task
popped t busy = if eqb_ℤ t.work_id (negsuc 0) then busy else t ∷ busy

-- One step of the server. The kernel hands out a descriptor that no client has; a step that a client
-- or a worker makes is for one that there is.
pub data Step (s : State) : State → Type 0 where
  accept :
      {s' : State} (now : Tm) (ip : Text) (fd : ℤ) (message : Option Message)
      → fd ≢ negsuc 0
      → (find s.clients fd).1 ≡ none
      → (c : ClientFd) → (find s.clients (negsuc 0)).1 ≡ some c
      → on_accept now ip fd message s ≡ ok s'
      → Step s s'
  readable :
      {s' : State} (now : Tm) (fd : ℤ) (message : Option Message)
      → fd ≢ negsuc 0
      → (c : ClientFd) → (find s.clients fd).1 ≡ some c
      → on_readable now fd message s ≡ ok s'
      → Step s s'
  take_io :
      (t : Task) (q : List Task)
      → s.io ≡ t ∷ q
      → Step s (record s { io = q; busy = popped t s.busy })
  take_shell :
      (t : Task) (q : List Task)
      → s.shell ≡ t ∷ q
      → Step s (record s { shell = q; busy = popped t s.busy })
  finish :
      (before : List Task) (t : Task) (after : List Task)
      → s.busy ≡ before ++ t ∷ after
      → Step s (record s { busy = before ++ after; clients = release s.clients t.fd })

pub data Reach (s : State) : State → Type 0 where
  here : Reach s s
  next : {t u : State} → Reach s t → Step t u → Reach s u
