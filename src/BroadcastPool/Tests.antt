-- ===== src/BroadcastPool/Tests.antt =====
-- Pools of one and two workers.
use linux_os_coding.Base.{
  ℕ, suc, ◌≡◌, ◌≤◌, ◌+◌, ◌⊎◌, refl, ◌++◌, false, Run, ok, fault, none, some, List, [], ◌∷◌, arith,
}
use linux_os_coding.Base.Int.{ℤ, pos}
use linux_os_coding.Memory.{Ptr, null, write}
use linux_os_coding.BroadcastPool.{
  Thread, tested, waiting, working, over, Shared, Pool, ordered, joining, returned, go_on, test,
  serve, download_file, turn_of, signal, broadcast, delete, Who, connection, order, main_thread,
  by_worker, accept, order_exit, main_turn, step, steps,
}
use linux_os_coding.BroadcastPool.Counts.{sum_of, ended, weight}
use linux_os_coding.BroadcastPool.Stale.{idle, asleep, one_served, late_signal, late_signal-faults}
use linux_os_coding.BroadcastPool.Ends.{broadcast-ends}

abbrev empty : Shared
empty = record { task_q = []; heap = λ p. none; served = []; in_pipe = 0 }

late_signal-faults_example :
    (steps (late_signal (pos 9) 4096) (idle none (waiting none ∷ []) empty) ≡ some fault)
    × (steps
          (one_served (pos 8) 4096 ++ late_signal (pos 9) 4096)
          (asleep none (waiting none ∷ []) empty)
        ≡ some fault)
late_signal-faults_example =
    late_signal-faults (pos 9) (pos 8) 4096 4096 none (waiting none ∷ []) empty
      (λ e. omega (arith, e)) (λ e. omega (arith, e)) refl

-- One worker waits, one has a task; both are woken, end and are joined.
abbrev one_at_work : List Thread
one_at_work = waiting none ∷ working (some null) ∷ []

abbrev schedule : List Who
schedule = by_worker 0 ∷ by_worker 1 ∷ main_thread ∷ by_worker 1 ∷ main_thread ∷ main_thread ∷ []

abbrev at_end : Pool
at_end = record { shared = empty; threads = over ∷ over ∷ []; work_flag = false; main = returned }

broadcast-ends_example :
    (6 ≤ sum_of weight one_at_work + 3)
    × (((at_end.main ≡ returned) × (sum_of ended at_end.threads ≡ 2))
        ⊎ ((w : Who) × (r : Run Pool) × (step w at_end ≡ some r)))
broadcast-ends_example =
    broadcast-ends one_at_work empty schedule at_end refl refl
      (unfold steps step turn_of download_file test go_on serve broadcast delete main_turn in refl)

-- The broadcast comes between the test of the one worker and its wait: then nobody can make a turn.
abbrev stuck : Pool
stuck = record { shared = empty; threads = waiting none ∷ []; work_flag = false; main = joining 1 }

broadcast_lost :
    (steps
        (main_thread ∷ by_worker 0 ∷ [])
        (record { shared = empty; threads = tested none ∷ []; work_flag = false; main = ordered })
      ≡ some (ok stuck))
    × (step main_thread stuck ≡ none)
    × (step order stuck ≡ none)
    × ((fd : ℤ) (task : Ptr) → step (connection fd task) stuck ≡ none)
    × (step (by_worker 0) stuck ≡ none)
    × ((i : ℕ) → step (by_worker (suc i)) stuck ≡ none)
unfolding steps step turn_of download_file broadcast accept order_exit main_turn
broadcast_lost = (refl, refl, refl, λ fd task. refl, refl, λ i. refl)

-- A connection and the order to exit before the worker takes the task: the task is left in the queue.
left_waiting :
    steps
      (connection (pos 9) 4096 ∷ main_thread ∷ order ∷ by_worker 0 ∷ main_thread ∷ main_thread ∷ [])
      (idle none [] empty)
    ≡ some (
        ok (record {
          shared = record {
            task_q = 4096 ∷ [];
            heap = write (λ p. none) 4096 (some (pos 9));
            served = [];
            in_pipe = 0;
          };
          threads = over ∷ [];
          work_flag = false;
          main = joining 0;
        }))
unfolding steps step turn_of download_file test go_on signal broadcast accept order_exit main_turn
left_waiting = refl
