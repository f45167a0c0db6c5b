-- ===== src/Queue.antt =====
-- NET_DISK_TASK/SERVER/src/work_queue.c: the linked work queue between the listening thread and
-- the workers, over an explicit heap. The caller holds the queue's lock, so each function is one
-- step.
pub mod Store
pub mod Chain
pub mod Fifo
pub mod Marker
pub mod Delete
mod Tests
use linux_os_coding.Base.{
  ℕ, zero, suc, ◌+◌, ◌-◌, some, Run, ok, fault, ◌>>=◌, [], ◌==◌, if◌then◌else◌,
}
use linux_os_coding.Base.Int.{ℤ, pos, negsuc}
use Store.{Ptr, null, Task, Node, node, blank, Heap, write, load, set_next, free}

-- `queue_t`, less its lock and its condition variable.
pub record Queue : Type 0 where
  pub head : Ptr
  pub tail : Ptr
  pub size : ℕ

abbrev pub queue_capacity : ℕ
queue_capacity = 1000

-- `fresh` is what `calloc` returns; the code does not test it.
unfoldable pub queue_init : (fresh : Ptr) → Heap → Run (Queue × Heap)
queue_init fresh h =
    if fresh == null
    then fault
    else ok
        (record { head = fresh; tail = fresh; size = 0 }, write h fresh (some (node blank null)))

unfoldable pub queue_insert : Queue → Ptr → Heap → Run (ℤ × Queue × Heap)
queue_insert q ptr h =
    if q.size == queue_capacity
    then ok (negsuc 0, q, h)
    else if q.size == 0
    then (do h' ← set_next h q.head ptr; ok (pos 1, record q { tail = ptr; size = q.size + 1 }, h'))
    else do h' ← set_next h q.tail ptr; ok (pos 1, record q { tail = ptr; size = q.size + 1 }, h')

-- `0 == q->size--` tests the size before it is lowered.
unfoldable pub queue_pop : Queue → Heap → Run (ℤ × Ptr × Queue × Heap)
queue_pop q h = if q.size == 0 then ok (negsuc 0, null, q, h) else do
  front ← load h q.head
  if q.size == 0
      then (do
        h' ← set_next h q.head null
        ok (pos 1, front.next, record q { tail = q.head; size = q.size - 1 }, h'))
      else do
        n ← load h front.next
        h' ← set_next h q.head n.next
        ok (pos 1, front.next, record q { size = q.size - 1 }, h')

abbrev pub exit_task : Task
exit_task = record { fd = negsuc 0; work_id = negsuc 0; option = [] }

unfoldable pub queue_head_insert_exit : (fresh : Ptr) → Queue → Heap → Run (Queue × Heap)
queue_head_insert_exit fresh q h = if fresh == null then fault else do
  front ← load h q.head
  h' ← set_next (write h fresh (some (node exit_task front.next))) q.head fresh
  ok (record q { size = q.size + 1 }, h')

-- The loop of `queue_delete`, one node a round; `fault` also when the fuel runs out.
delete_loop : ℕ → (head : Ptr) → Heap → Run Heap
delete_loop zero head h = fault
delete_loop (suc k) head h = do
  front ← load h head
  if front.next == null then ok h else do
    n ← load h front.next
    h' ← set_next h head n.next
    h'' ← free h' front.next
    delete_loop k head h''

unfoldable pub queue_delete : ℕ → Queue → Heap → Run (Queue × Heap)
unfolding delete_loop
queue_delete fuel q h = do
  h' ← delete_loop fuel q.head h
  h'' ← free h' q.head
  ok (record q { size = 0 }, h'')
