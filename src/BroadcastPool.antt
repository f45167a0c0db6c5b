-- ===== src/BroadcastPool.antt =====
-- The pool of thread_poll_task/SERVER_SENDFILE_QUIT_WAIT/src/main.c, whose workers wait under `if` and whose
-- exit wakes them by a broadcast. A queue is a list of pointers to tasks, a task in memory is its
-- descriptor. A turn of a thread ends where it takes or leaves the lock, waits, or has sent a file. A wait
-- ends by a signal or the broadcast only, and a signal wakes the first that waits.
pub mod Counts
pub mod Stale
pub mod Exiting
pub mod Ends
mod Tests
use linux_os_coding.Base.{
  ℕ, zero, suc, Bool, true, false, ◌||◌, Run, ok, fault, ◌>>=◌, Option, none, some, List, [], ◌∷◌,
  ◌++◌, length, map, ◌==◌, if◌then◌else◌,
}
use linux_os_coding.Base.Int.{ℤ}
use linux_os_coding.Memory.{Ptr, null, Memory, write, load, free}

-- Where a worker is, with its `current_task`, `none` before that is set: before the lock at the top of its
-- loop, behind the test that found nothing to do, in `pthread_cond_wait`, woken there and before the lock,
-- behind the lock with `current_task` at hand, or past `pthread_exit`.
pub data Thread : Type 0 where
  at_top : Option Ptr → Thread
  tested : Option Ptr → Thread
  waiting : Option Ptr → Thread
  woken : Option Ptr → Thread
  working : Option Ptr → Thread
  over : Thread

-- What the threads share besides the flag: the queue, the tasks in memory, the descriptors that were sent a
-- file, and the identifiers of threads in the pipe.
pub record Shared : Type 0 where
  pub task_q : List Ptr
  pub heap : Memory ℤ
  pub served : List ℤ
  pub in_pipe : ℕ

-- Where the main thread is: in `epoll_wait`, before the signal for a new task, between the flag and the
-- broadcast, in the exit loop with so many joins left, or past its `return`.
pub data Main : Type 0 where
  listening : Main
  inserted : Main
  ordered : Main
  joining : ℕ → Main
  returned : Main

pub record Pool : Type 0 where
  pub shared : Shared
  pub threads : List Thread
  pub work_flag : Bool
  pub main : Main

abbrev pub holds_lock : Thread → Bool
holds_lock (at_top t) = false
holds_lock (tested t) = true
holds_lock (waiting t) = false
holds_lock (woken t) = false
holds_lock (working t) = false
holds_lock over = false

abbrev pub locked : List Thread → Bool
locked [] = false
locked (w ∷ ws) = holds_lock w || locked ws

-- Under the lock and behind the wait: `queue_pop` of an empty queue leaves `current_task` as it is.
unfoldable pub go_on : (work_flag : Bool) → Option Ptr → Shared → Thread × Shared
go_on false t s = (over, record s { in_pipe = suc s.in_pipe })
go_on true t s = elim s.task_q [
  | [] ↦ (working t, s)
  | p ∷ q ↦ (working (some p), record s { task_q = q })
]

-- The test before the wait.
unfoldable pub test : (work_flag : Bool) → Option Ptr → Shared → Thread × Shared
test false t s = go_on false t s
test true t s = elim s.task_q [ [] ↦ (tested t, s) | p ∷ q ↦ go_on true t s ]

-- `tran_file` and `free` of the task.
unfoldable pub serve : Option Ptr → Shared → Run (Thread × Shared)
serve none s = fault
serve (some p) s = if p == null then ok (at_top (some p), s) else do
  fd ← load s.heap p
  h ← free s.heap p
  ok (at_top (some p), record s { heap = h; served = s.served ++ fd ∷ [] })

-- The next turn of a worker, if it can make one; `busy` says that another one holds the lock.
unfoldable pub download_file :
    (busy : Bool) → (work_flag : Bool) → Thread → Shared → Option (Run (Thread × Shared))
download_file busy flag (at_top t) s = if busy then none else some (ok (test flag t s))
download_file busy flag (woken t) s = if busy then none else some (ok (go_on flag t s))
download_file busy flag (tested t) s = some (ok (waiting t, s))
download_file busy flag (working t) s = some (serve t s)
download_file busy flag (waiting t) s = none
download_file busy flag over s = none

-- A turn of the worker with the number `i`.
unfoldable pub turn_of :
    (i : ℕ) → (busy flag : Bool) → List Thread → Shared → Option (Run (List Thread × Shared))
turn_of i busy flag [] s = none
turn_of zero busy flag (w ∷ ws) s = elim (download_file busy flag w s) [
  | none ↦ none
  | some run ↦ some (run >>= λ (v, s'). ok (v ∷ ws, s'))
]
turn_of (suc i) busy flag (w ∷ ws) s = elim (turn_of i busy flag ws s) [
  | none ↦ none
  | some run ↦ some (run >>= λ (vs, s'). ok (w ∷ vs, s'))
]

-- `pthread_cond_signal`
unfoldable pub signal : List Thread → List Thread
signal [] = []
signal (waiting t ∷ ws) = woken t ∷ ws
signal (at_top t ∷ ws) = at_top t ∷ signal ws
signal (tested t ∷ ws) = tested t ∷ signal ws
signal (woken t ∷ ws) = woken t ∷ signal ws
signal (working t ∷ ws) = working t ∷ signal ws
signal (over ∷ ws) = over ∷ signal ws

abbrev pub wake : Thread → Thread
wake (waiting t) = woken t
wake (at_top t) = at_top t
wake (tested t) = tested t
wake (woken t) = woken t
wake (working t) = working t
wake over = over

-- `pthread_cond_broadcast`
unfoldable pub broadcast : List Thread → List Thread
broadcast ws = map wake ws

-- `queue_delete`
unfoldable pub delete : List Ptr → Memory ℤ → Run (Memory ℤ)
delete [] h = ok h
delete (p ∷ q) h = do h' ← free h p; delete q h'

-- A connection with its descriptor and what `calloc` returns, the order to exit, the next turn of the main
-- thread outside `epoll_wait`, or a turn of a worker.
pub data Who : Type 0 where
  connection : (fd : ℤ) (task : Ptr) → Who
  order : Who
  main_thread : Who
  by_worker : ℕ → Who

unfoldable pub accept : (fd : ℤ) → (task : Ptr) → Main → Pool → Option (Run Pool)
accept fd task listening p =
    if task == null
    then some fault
    else if locked p.threads
    then none
    else some (
        ok (record p {
          shared = record (p.shared) {
            task_q = p.shared.task_q ++ task ∷ [];
            heap = write p.shared.heap task (some fd);
          };
          main = inserted;
        }))
accept fd task inserted p = none
accept fd task ordered p = none
accept fd task (joining k) p = none
accept fd task returned p = none

unfoldable pub order_exit : Main → Pool → Option (Run Pool)
order_exit listening p = some (ok (record p { work_flag = false; main = ordered }))
order_exit inserted p = none
order_exit ordered p = none
order_exit (joining k) p = none
order_exit returned p = none

-- A read of the pipe with the join behind it; the read waits where the pipe is empty.
abbrev pub join_next : (k in_pipe : ℕ) → Pool → Option (Run Pool)
join_next k zero p = none
join_next k (suc n) p =
    some (ok (record p { shared = record (p.shared) { in_pipe = n }; main = joining k }))

unfoldable pub main_turn : Main → Pool → Option (Run Pool)
main_turn listening p = none
main_turn inserted p = some (ok (record p { threads = signal p.threads; main = listening }))
main_turn ordered p =
    some (ok (record p { threads = broadcast p.threads; main = joining (length p.threads) }))
main_turn (joining zero) p = some (
    delete p.shared.task_q p.shared.heap >>= λ h.
    ok (record p { shared = record (p.shared) { task_q = []; heap = h }; main = returned }))
main_turn (joining (suc k)) p = join_next k p.shared.in_pipe p
main_turn returned p = none

unfoldable pub step : Who → Pool → Option (Run Pool)
step (connection fd task) p = accept fd task p.main p
step order p = order_exit p.main p
step main_thread p = main_turn p.main p
step (by_worker i) p = elim (turn_of i (locked p.threads) p.work_flag p.threads p.shared) [
  | none ↦ none
  | some run ↦ some (run >>= λ (ws, s). ok (record p { threads = ws; shared = s }))
]

-- The turns that a scheduler chooses, one after the other; undefined behaviour ends them.
unfoldable pub steps : List Who → Pool → Option (Run Pool)
steps [] p = some (ok p)
steps (w ∷ ws) p = elim (step w p) [
  | none ↦ none
  | some fault ↦ some fault
  | some (ok p') ↦ steps ws p'
]
