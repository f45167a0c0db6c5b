-- ===== src/Server/Exit/Tests.antt =====
-- Exits of small pools.
use linux_os_coding.Base.{ℕ, ◌+◌, ◌≡◌, refl, ok, fault, none, some, List, [], ◌∷◌, ◌⊎◌}
use linux_os_coding.Base.Int.{pos}
use linux_os_coding.Queue.Store.{Task}
use linux_os_coding.Server.Exit.{
  Thread, at_top, waiting, woken, working, over, server_start, received, pop_task, worker,
  order_exit, turn_of, turns, add_task,
}
use linux_os_coding.Server.Exit.Ends.{alive, order_exit-ends}
use linux_os_coding.Server.Exit.Hang.{order_exit-hangs}

abbrev a_task : Task
a_task = record { fd = pos 6; work_id = pos 1; option = [] }

started : (server_start 8 ≡ ok (2, 6)) × (server_start 1 ≡ ok (1, 0)) × (server_start 0 ≡ fault)
unfolding server_start
started = (refl, refl, refl)

-- A worker that comes back before the woken one takes its task, and the woken one ends.
task_taken :
    (let p = add_task a_task (record { queue = []; threads = at_top ∷ waiting ∷ [] }) in
      turns (0 ∷ 1 ∷ []) p.threads p.queue)
    ≡ some (working a_task ∷ over ∷ [], [])
unfolding add_task turns turn_of worker pop_task received
task_taken = refl

order_exit-ends_example :
    (1 + alive (woken ∷ over ∷ []) ≡ 2)
    × ((alive (woken ∷ over ∷ []) ≡ 0)
        ⊎ ((i : ℕ) × (r' : List Thread × List Task) × (turn_of i (woken ∷ over ∷ []) [] ≡ some r')))
order_exit-ends_example =
    order_exit-ends (waiting ∷ waiting ∷ []) (1 ∷ []) (woken ∷ over ∷ [], []) (refl, (refl, tt))
      (unfold order_exit turns turn_of worker pop_task received in refl)

order_exit-hangs_example :
    (is : List ℕ) × ((let p =
          order_exit (record { queue = []; threads = working a_task ∷ waiting ∷ [] }) in
        turns is p.threads p.queue)
      ≡ some (waiting ∷ over ∷ [], []))
    × ((i : ℕ) → turn_of i (waiting ∷ over ∷ []) [] ≡ none)
order_exit-hangs_example = order_exit-hangs a_task 0
