-- ===== src/Queue/Tests.antt =====
-- The queue's theorems on a queue of one task.
use linux_os_coding.Base.{◌≡◌, refl, ok, some, none, [], ◌∷◌, ◌==◌, ◌||◌, if◌then◌else◌, arith}
use linux_os_coding.Base.Int.{pos}
use linux_os_coding.Base.Text.{codes}
use linux_os_coding.Queue.{Queue, exit_task, queue_pop, queue_head_insert_exit, queue_delete}
use linux_os_coding.Queue.Store.{Ptr, null, Task, node, blank, Heap}
use linux_os_coding.Queue.Chain.{Cells}
use linux_os_coding.Queue.Fifo.{Live, IsQueue, Loose, Inserted, insert-append, pop-IsQueue}
use linux_os_coding.Queue.Marker.{exit-first}
use linux_os_coding.Queue.Delete.{has, delete-frees}

abbrev ls_task : Task
ls_task = record { fd = pos 5; work_id = pos 1; option = [] }

abbrev cd_task : Task
cd_task = record { fd = pos 6; work_id = pos 0; option = codes "a" }

-- The head node at 1, a waiting task at 2, a task at 3 that is in no queue.
abbrev memory : Heap
memory a =
    if a == 1
    then some (node blank 2)
    else if a == 2
    then some (node ls_task null)
    else if a == 3
    then some (node cd_task null)
    else none

abbrev queue : Queue
queue = record { head = 1; tail = 2; size = 1 }

abbrev waiting : Cells
waiting = (2, ls_task) ∷ []

queue-Live : Live memory queue waiting
queue-Live = record {
  head_ne = omega arith;
  head_cell = refl;
  apart = (omega arith, tt);
  chain = (omega arith, refl, tt, tt);
  count = refl;
}

spare-Loose : Loose memory queue waiting 3 cd_task
spare-Loose = record {
  ne = omega arith;
  cell = refl;
  out = (omega arith, tt);
  off_head = omega arith;
}

insert-append_example : Inserted memory queue waiting 3 cd_task
insert-append_example =
    insert-append memory queue waiting 3 cd_task (record { live = queue-Live; ends = refl })
      (omega arith) spare-Loose

pop-IsQueue_example :
    (q' : Queue) × (h' : Heap) × (queue_pop queue memory ≡ ok (pos 1, 2, q', h'))
    × IsQueue h' q' []
    × (h' 2 ≡ some (node ls_task null))
pop-IsQueue_example =
    pop-IsQueue memory queue 2 ls_task [] (record { live = queue-Live; ends = refl })

exit-first_example :
    (q' : Queue) × (h' : Heap) × (queue_head_insert_exit 4 queue memory ≡ ok (q', h'))
    × Live h' q' ((4, exit_task) ∷ waiting)
    × (q'.tail ≡ 2)
exit-first_example =
    exit-first memory queue waiting 4 queue-Live
      (record { ne = omega arith; out = (omega arith, tt); off_head = omega arith })

abbrev new_memory : Heap
new_memory a =
    if a == 1 then some (node blank null) else if a == 3 then some (node cd_task null) else none

abbrev new_queue : Queue
new_queue = record { head = 1; tail = 1; size = 0 }

new-Live : Live new_memory new_queue []
new-Live = record { head_ne = omega arith; head_cell = refl; apart = tt; chain = tt; count = refl }

delete-frees_example :
    (h' : Heap) × (queue_delete 2 queue memory ≡ ok (record queue { size = 0 }, h'))
    × ((a : Ptr) → h' a ≡ (if (a == 1) || has a waiting then none else memory a))
delete-frees_example = delete-frees 2 memory queue waiting queue-Live (omega arith)
