-- ===== src/ThreadPool/Tests.antt =====
-- Exits of small pools.
use linux_os_coding.Base.{ℕ, suc, ◌≤◌, ◌≡◌, refl, true, false, none, some, [], ◌∷◌, length, ◌⊎◌}
use linux_os_coding.Base.Int.{pos}
use linux_os_coding.ThreadPool.{
  at_top, tested, waiting, woken, working, over, Factory, test, download_file, signal, turn_of, Who,
  main, thread, step, steps, factory_start, raise_flag, add_task, order_exit,
}
use linux_os_coding.ThreadPool.Counts.{sum_of, ended}
use linux_os_coding.ThreadPool.Joins.{total, order_exit-joins}

-- Two threads go to wait.
started :
    steps (thread 0 ∷ thread 0 ∷ thread 1 ∷ thread 1 ∷ []) (raise_flag (factory_start 2))
    ≡ some (record {
      task_q = [];
      threads = waiting ∷ waiting ∷ [];
      work_flag = true;
      in_pipe = 0;
      joins = 0;
      signalled = false;
    })
unfolding steps step turn_of download_file test factory_start raise_flag
started = refl

-- A thread that runs before the flag is raised ends at once.
ended_early :
    steps (thread 0 ∷ []) (factory_start 2)
    ≡ some (record {
      task_q = [];
      threads = over ∷ at_top ∷ [];
      work_flag = false;
      in_pipe = 1;
      joins = 0;
      signalled = false;
    })
unfolding steps step turn_of download_file test factory_start
ended_early = refl

task_given :
    (add_task
      (pos 9)
      (record (raise_flag (factory_start 0)) { threads = at_top ∷ waiting ∷ waiting ∷ [] })).threads
    ≡ at_top ∷ woken ∷ waiting ∷ []
unfolding add_task signal raise_flag factory_start
task_given = refl

abbrev one_at_work : Factory
one_at_work = record {
  task_q = pos 9 ∷ [];
  threads = working (pos 8) ∷ waiting ∷ [];
  work_flag = true;
  in_pipe = 0;
  joins = 0;
  signalled = false;
}

abbrev after_signal : Factory
after_signal = record {
  task_q = pos 9 ∷ [];
  threads = at_top ∷ over ∷ [];
  work_flag = false;
  in_pipe = 1;
  joins = 2;
  signalled = true;
}

order_exit-joins_example :
    (3 ≤ total (order_exit one_at_work))
    × (((after_signal.joins ≡ 0)
          × (sum_of ended after_signal.threads ≡ length after_signal.threads))
        ⊎ ((w : Who) × (g' : Factory) × (step w after_signal ≡ some g')))
order_exit-joins_example =
    order_exit-joins one_at_work (main ∷ thread 0 ∷ thread 1 ∷ []) after_signal refl refl refl
      (unfold steps step turn_of download_file test signal order_exit in refl)

-- The signal comes between the test of the one worker and its wait: then nobody can make a turn.
abbrev before_wait : Factory
before_wait = record {
  task_q = [];
  threads = tested ∷ [];
  work_flag = true;
  in_pipe = 0;
  joins = 0;
  signalled = false;
}

abbrev stuck : Factory
stuck = record {
  task_q = [];
  threads = waiting ∷ [];
  work_flag = false;
  in_pipe = 0;
  joins = 1;
  signalled = true;
}

signal_lost :
    (steps (main ∷ thread 0 ∷ []) (order_exit before_wait) ≡ some stuck)
    × (step main stuck ≡ none)
    × (step (thread 0) stuck ≡ none)
    × ((i : ℕ) → step (thread (suc i)) stuck ≡ none)
unfolding steps step turn_of download_file signal order_exit
signal_lost = (refl, refl, refl, λ i. refl)
