-- ===== src/Server/Exit.antt =====
-- The ends of the worker threads of NET_DISK_TASK/SERVER: the head of the loops `thread_shell` and
-- `thread_file_IO` in src/server.c, the start of the threads, and the exit branch of src/main.c. A queue
-- is a list here, which Queue/Fifo justifies. Its lock is held from one wait or pop to the next, so a
-- worker makes one turn at a time. A wait ends by a signal only, and a signal wakes the first that waits.
-- The main thread signals right after it has let go of the lock; here that is one step.
pub mod Ends
pub mod Hang
mod Tests
use linux_os_coding.Base.{
  ℕ, zero, suc, ◌-◌, ◌/◌, Bool, true, false, Run, ok, fault, Option, none, some, List, [], ◌∷◌,
  ◌++◌, map, replicate, ◌==◌, if◌then◌else◌,
}
use linux_os_coding.Base.Int.{ℤ, negsuc, eqb_ℤ}
use linux_os_coding.Queue.{exit_task}
use linux_os_coding.Queue.Store.{Task}

-- Where a worker is: before the test of the queue's size, in `pthread_cond_wait`, woken in it, at work
-- on a task, or past `pthread_exit`.
pub data Thread : Type 0 where
  at_top : Thread
  waiting : Thread
  woken : Thread
  working : Task → Thread
  over : Thread

pub record Pool : Type 0 where
  pub queue : List Task
  pub threads : List Thread

-- `server_start`: the numbers of shell and of file workers. The array for the threads has `th_num` places.
unfoldable pub server_start : (th_num : ℕ) → Run (ℕ × ℕ)
server_start th_num =
    let cut = if th_num / 4 == 0 then 1 else th_num / 4 in
    if th_num == 0 then fault else ok (cut, th_num - cut)

-- What a worker does with the task that it has popped.
unfoldable pub received : Task → Thread
received t = if eqb_ℤ t.work_id (negsuc 0) then over else working t

-- `queue_pop` behind the test and the wait, which are not repeated: an empty queue gives NULL.
unfoldable pub pop_task : List Task → Thread × List Task
unfolding received
pop_task [] = (over, [])
pop_task (t ∷ q) = (received t, q)

-- The next turn of a worker, if it can make one.
unfoldable pub worker : Thread → List Task → Option (Thread × List Task)
worker at_top [] = some (waiting, [])
worker at_top (t ∷ q) = some (pop_task (t ∷ q))
worker waiting q = none
worker woken q = some (pop_task q)
worker (working t) q = some (at_top, q)
worker over q = none

-- `pthread_cond_signal` and `pthread_cond_broadcast`.
abbrev pub signal : List Thread → List Thread
signal [] = []
signal (waiting ∷ ws) = woken ∷ ws
signal (at_top ∷ ws) = at_top ∷ signal ws
signal (woken ∷ ws) = woken ∷ signal ws
signal (working t ∷ ws) = working t ∷ signal ws
signal (over ∷ ws) = over ∷ signal ws

abbrev pub wake : Thread → Thread
wake at_top = at_top
wake waiting = woken
wake woken = woken
wake (working t) = working t
wake over = over

-- A task for the workers; the queue has room for it.
unfoldable pub add_task : Task → Pool → Pool
add_task t p = record { queue = p.queue ++ t ∷ []; threads = signal p.threads }

-- The exit branch for one of the two queues: the marker in front, and everyone that waits is woken.
unfoldable pub order_exit : Pool → Pool
order_exit p = record { queue = exit_task ∷ p.queue; threads = map wake p.threads }

-- One turn of the worker with the number `i`.
unfoldable pub turn_of : (i : ℕ) → List Thread → List Task → Option (List Thread × List Task)
turn_of i [] q = none
turn_of zero (w ∷ ws) q = elim (worker w q) [ none ↦ none | some r ↦ some (r.0 ∷ ws, r.1) ]
turn_of (suc i) (w ∷ ws) q = elim (turn_of i ws q) [ none ↦ none | some r ↦ some (w ∷ r.0, r.1) ]

-- The turns that a scheduler chooses, one after the other.
unfoldable pub turns : List ℕ → List Thread → List Task → Option (List Thread × List Task)
turns [] ws q = some (ws, q)
turns (i ∷ is) ws q = elim (turn_of i ws q) [ none ↦ none | some r ↦ turns is r.0 r.1 ]
