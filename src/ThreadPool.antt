-- ===== src/ThreadPool.antt =====
-- The pool of thread_poll_task/SERVER_QUIT_WAIT_TASK/src: factory.c and the exit in main.c. A queue is a
-- list of descriptors. The main thread sets the flag and signals without the lock, so the test of an idle
-- worker and its wait are two turns here; between them it holds the lock. A wait ends by a signal only,
-- and a signal wakes the first that waits. Sending a file is one turn.
pub mod Counts
pub mod Joins
mod Tests
use linux_os_coding.Base.{
  ℕ, zero, suc, ◌+◌, Bool, true, false, ◌||◌, Option, none, some, List, [], ◌∷◌, ◌++◌, length,
  replicate, if◌then◌else◌,
}
use linux_os_coding.Base.Int.{ℤ}

-- Where a worker is: before the lock at the top of its loop, behind the test that found nothing to do, in
-- `pthread_cond_wait`, woken there and before the lock, at work for a client, or past `pthread_exit`.
pub data Thread : Type 0 where
  at_top : Thread
  tested : Thread
  waiting : Thread
  woken : Thread
  working : ℤ → Thread
  over : Thread

-- `factory_t`, the identifiers of threads in the pipe, and the exit loop of the main thread: how many
-- joins are left, and whether the signal before the next one has been sent.
pub record Factory : Type 0 where
  pub task_q : List ℤ
  pub threads : List Thread
  pub work_flag : Bool
  pub in_pipe : ℕ
  pub joins : ℕ
  pub signalled : Bool

abbrev pub holds_lock : Thread → Bool
holds_lock at_top = false
holds_lock tested = true
holds_lock waiting = false
holds_lock woken = false
holds_lock (working fd) = false
holds_lock over = false

abbrev pub locked : List Thread → Bool
locked [] = false
locked (w ∷ ws) = holds_lock w || locked ws

-- The loop's test under the lock, with what follows it: the worker, the queue, and how many identifiers
-- it writes.
unfoldable pub test : (work_flag : Bool) → List ℤ → Thread × List ℤ × ℕ
test false q = (over, q, 1)
test true [] = (tested, [], 0)
test true (fd ∷ q) = (working fd, q, 0)

-- The next turn of a worker, if it can make one; `busy` says that another one holds the lock.
unfoldable pub download_file :
    (busy : Bool) → (work_flag : Bool) → Thread → List ℤ → Option (Thread × List ℤ × ℕ)
download_file busy flag at_top q = if busy then none else some (test flag q)
download_file busy flag woken q = if busy then none else some (test flag q)
download_file busy flag tested q = some (waiting, q, 0)
download_file busy flag (working fd) q = some (at_top, q, 0)
download_file busy flag waiting q = none
download_file busy flag over q = none

-- `pthread_cond_signal`
unfoldable pub signal : List Thread → List Thread
signal [] = []
signal (waiting ∷ ws) = woken ∷ ws
signal (at_top ∷ ws) = at_top ∷ signal ws
signal (tested ∷ ws) = tested ∷ signal ws
signal (woken ∷ ws) = woken ∷ signal ws
signal (working fd ∷ ws) = working fd ∷ signal ws
signal (over ∷ ws) = over ∷ signal ws

-- A turn of the worker with the number `i`.
unfoldable pub turn_of :
    (i : ℕ) → (busy flag : Bool) → List Thread → List ℤ → Option (List Thread × List ℤ × ℕ)
turn_of i busy flag [] q = none
turn_of zero busy flag (w ∷ ws) q = elim (download_file busy flag w q) [
  | none ↦ none
  | some r ↦ some (r.0 ∷ ws, r.1, r.2)
]
turn_of (suc i) busy flag (w ∷ ws) q = elim (turn_of i busy flag ws q) [
  | none ↦ none
  | some r ↦ some (w ∷ r.0, r.1, r.2)
]

-- A turn of the main thread in its exit loop: a signal, or a read of the pipe with the join behind it.
-- The read waits where the pipe is empty.
abbrev pub main_joins : (joins : ℕ) → (signalled : Bool) → (in_pipe : ℕ) → Factory → Option Factory
main_joins zero signalled in_pipe f = none
main_joins (suc k) false in_pipe f =
    some (record f { threads = signal f.threads; signalled = true })
main_joins (suc k) true zero f = none
main_joins (suc k) true (suc n) f = some (record f { in_pipe = n; joins = k; signalled = false })

pub data Who : Type 0 where
  main : Who
  thread : ℕ → Who

unfoldable pub step : Who → Factory → Option Factory
step main f = main_joins f.joins f.signalled f.in_pipe f
step (thread i) f = elim (turn_of i (locked f.threads) f.work_flag f.threads f.task_q) [
  | none ↦ none
  | some r ↦ some (record f { threads = r.0; task_q = r.1; in_pipe = r.2 + f.in_pipe })
]

-- The turns that a scheduler chooses, one after the other.
unfoldable pub steps : List Who → Factory → Option Factory
steps [] f = some f
steps (w ∷ ws) f = elim (step w f) [ none ↦ none | some f' ↦ steps ws f' ]

-- `factory_init` and the creation of the threads in `factory_start`: the flag is still down.
unfoldable pub factory_start : (th_num : ℕ) → Factory
factory_start th_num = record {
  task_q = [];
  threads = replicate th_num at_top;
  work_flag = false;
  in_pipe = 0;
  joins = 0;
  signalled = false;
}

-- The last line of `factory_start`; threads may have made turns before it.
unfoldable pub raise_flag : Factory → Factory
raise_flag f = record f { work_flag = true }

-- A connection: the task and the signal.
unfoldable pub add_task : ℤ → Factory → Factory
add_task fd f = record f { task_q = f.task_q ++ fd ∷ []; threads = signal f.threads }

-- The order to exit: the flag, and a join for each thread.
unfoldable pub order_exit : Factory → Factory
order_exit f = record f { work_flag = false; joins = length f.threads; signalled = false }
