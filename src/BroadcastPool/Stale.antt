-- ===== src/BroadcastPool/Stale.antt =====
-- A task that is served twice.
use linux_os_coding.Base.{
  ◌≡◌, ◌≢◌, refl, ◌∙◌, true, false, ok, fault, Option, none, some, List, [], ◌∷◌, ◌++◌, ◌==◌,
  ==_iff, arith,
}
use linux_os_coding.Base.Int.{ℤ}
use linux_os_coding.Memory.{Ptr, null, Memory, write, load-ok, free-ok, load_freed}
use linux_os_coding.BroadcastPool.{
  Thread, at_top, tested, waiting, woken, working, Shared, Pool, Main, listening, inserted, locked,
  Who, connection, main_thread, by_worker, go_on, test, serve, download_file, turn_of, signal,
  accept, main_turn, step, steps,
}

-- An idle pool whose first worker is at the top of its loop.
abbrev pub idle : Option Ptr → List Thread → Shared → Pool
idle t ws s = record {
  shared = record s { task_q = [] };
  threads = at_top t ∷ ws;
  work_flag = true;
  main = listening;
}

-- One whose first worker waits.
abbrev pub asleep : Option Ptr → List Thread → Shared → Pool
asleep t ws s = record {
  shared = record s { task_q = [] };
  threads = waiting t ∷ ws;
  work_flag = true;
  main = listening;
}

-- A task has been made, served and freed.
abbrev after_serving : (fd : ℤ) (task : Ptr) → Shared → Shared
after_serving fd task s = record {
  task_q = [];
  heap = write (write s.heap task (some fd)) task none;
  served = s.served ++ fd ∷ [];
  in_pipe = s.in_pipe;
}

-- The first worker is signalled for the connection and serves it.
abbrev pub one_served : (fd : ℤ) (task : Ptr) → List Who
one_served fd task = connection fd task ∷ main_thread ∷ by_worker 0 ∷ by_worker 0 ∷ []

-- The first worker serves the connection before the signal for it, waits, and is woken by that signal.
abbrev pub late_signal : (fd : ℤ) (task : Ptr) → List Who
late_signal fd task =
    connection fd task
    ∷ by_worker 0
    ∷ by_worker 0
    ∷ by_worker 0
    ∷ by_worker 0
    ∷ main_thread
    ∷ by_worker 0
    ∷ by_worker 0
    ∷ []

written : (h : Memory ℤ) (p : Ptr) (c : Option ℤ) → write h p c p ≡ c
unfolding write
written h p c = ground (arith, (==_iff p p).1 refl)

module _ (fd : ℤ) (task : Ptr) (t : Option Ptr) (ws : List Thread) (s : Shared) (ne : task ≢ null)
    (unlocked : locked ws ≡ false) where
  abbrev stored : Memory ℤ
  stored = write s.heap task (some fd)

  -- The pool with the first worker and the main thread at these points.
  abbrev pool : Thread → List Ptr → Memory ℤ → List ℤ → Main → Pool
  pool w q h served m = record {
    shared = record { task_q = q; heap = h; served = served; in_pipe = s.in_pipe };
    threads = w ∷ ws;
    work_flag = true;
    main = m;
  }

  accepted :
      step (connection fd task) (idle t ws s)
      ≡ some (ok (pool (at_top t) (task ∷ []) stored s.served inserted))
  unfolding step accept
  accepted = let no_null : (task == null) ≡ false = ground arith in rw (no_null, unlocked) refl

  abbrev sent_once : Memory ℤ
  sent_once = write stored task none

  taken :
      step (by_worker 0) (pool (at_top t) (task ∷ []) stored s.served inserted)
      ≡ some (ok (pool (working (some task)) [] stored s.served inserted))
  unfolding step turn_of download_file test go_on
  taken = rw (unlocked, step, turn_of, download_file) refl

  served_once :
      step (by_worker 0) (pool (working (some task)) [] stored s.served inserted)
      ≡ some (ok (pool (at_top (some task)) [] sent_once (s.served ++ fd ∷ []) inserted))
  unfolding step turn_of download_file serve
  served_once =
      let no_null : (task == null) ≡ false = ground arith in
      rw
        (
          no_null,
          load-ok stored task ne (written s.heap task (some fd)),
          free-ok stored task ne (written s.heap task (some fd)),
        )
        refl

  served_twice :
      step (by_worker 0) (pool (working (some task)) [] sent_once (s.served ++ fd ∷ []) listening)
      ≡ some fault
  unfolding step turn_of download_file serve
  served_twice =
      let no_null : (task == null) ≡ false = ground arith in
      rw (no_null, load_freed sent_once task (written stored task none)) refl

  found_nothing :
      step (by_worker 0) (pool (at_top (some task)) [] sent_once (s.served ++ fd ∷ []) inserted)
      ≡ some (ok (pool (tested (some task)) [] sent_once (s.served ++ fd ∷ []) inserted))
  unfolding step turn_of download_file test
  found_nothing = rw (unlocked, step, turn_of, download_file) refl

  waits :
      step (by_worker 0) (pool (tested (some task)) [] sent_once (s.served ++ fd ∷ []) inserted)
      ≡ some (ok (pool (waiting (some task)) [] sent_once (s.served ++ fd ∷ []) inserted))
  unfolding step turn_of download_file
  waits = refl

  signalled :
      step main_thread (pool (waiting (some task)) [] sent_once (s.served ++ fd ∷ []) inserted)
      ≡ some (ok (pool (woken (some task)) [] sent_once (s.served ++ fd ∷ []) listening))
  unfolding step main_turn signal
  signalled = refl

  popped_nothing :
      step (by_worker 0) (pool (woken (some task)) [] sent_once (s.served ++ fd ∷ []) listening)
      ≡ some (ok (pool (working (some task)) [] sent_once (s.served ++ fd ∷ []) listening))
  unfolding step turn_of download_file go_on
  popped_nothing = rw (unlocked, step, turn_of, download_file) refl

  -- The first worker is at the top of its loop.
  late_signal-fault : steps (late_signal fd task) (idle t ws s) ≡ some fault
  unfolding steps
  late_signal-fault =
      rw
        (
          accepted, steps, taken, served_once, found_nothing, waits, signalled, popped_nothing,
          served_twice,
        )
        refl

  -- The first worker waits, is woken for the task, serves it, and comes to the top of its loop.
  accepted_asleep :
      step (connection fd task) (asleep t ws s)
      ≡ some (ok (pool (waiting t) (task ∷ []) stored s.served inserted))
  unfolding step accept
  accepted_asleep =
      let no_null : (task == null) ≡ false = ground arith in rw (no_null, unlocked) refl

  roused :
      step main_thread (pool (waiting t) (task ∷ []) stored s.served inserted)
      ≡ some (ok (pool (woken t) (task ∷ []) stored s.served listening))
  unfolding step main_turn signal
  roused = refl

  taken_woken :
      step (by_worker 0) (pool (woken t) (task ∷ []) stored s.served listening)
      ≡ some (ok (pool (working (some task)) [] stored s.served listening))
  unfolding step turn_of download_file go_on
  taken_woken = rw (unlocked, step, turn_of, download_file) refl

  served_woken :
      step (by_worker 0) (pool (working (some task)) [] stored s.served listening)
      ≡ some (ok (pool (at_top (some task)) [] sent_once (s.served ++ fd ∷ []) listening))
  unfolding step turn_of download_file serve
  served_woken =
      let no_null : (task == null) ≡ false = ground arith in
      rw
        (
          no_null,
          load-ok stored task ne (written s.heap task (some fd)),
          free-ok stored task ne (written s.heap task (some fd)),
        )
        refl

  after_one :
      (rest : List Who)
      → steps (one_served fd task ++ rest) (asleep t ws s)
        ≡ steps rest (idle (some task) ws (after_serving fd task s))
  unfolding steps
  after_one rest = rw (accepted_asleep, steps, roused, taken_woken, served_woken) refl

-- In a pool with the flag up, an empty queue and a lock that no other worker holds, and where `calloc` does
-- not fail, there is a schedule of connections and of turns of the first worker and the main thread alone
-- after which that worker reads a task that it has freed: of one connection where that worker is at the
-- top of its loop, and of two where it waits, as in the pool in which all do.
pub late_signal-faults :
    (fd fd' : ℤ) (task task' : Ptr) (t : Option Ptr) (ws : List Thread) (s : Shared)
    → task ≢ null
    → task' ≢ null
    → locked ws ≡ false
    → (steps (late_signal fd task) (idle t ws s) ≡ some fault)
      × (steps (one_served fd' task' ++ late_signal fd task) (asleep t ws s) ≡ some fault)
late_signal-faults fd fd' task task' t ws s ne ne' unlocked = (
  late_signal-fault fd task t ws s ne unlocked,
  after_one fd' task' t ws s ne' unlocked (late_signal fd task)
      ∙ late_signal-fault fd task (some task') ws (after_serving fd' task' s) ne unlocked,
)
