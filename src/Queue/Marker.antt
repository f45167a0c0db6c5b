-- ===== src/Queue/Marker.antt =====
-- `queue_head_insert_exit` of work_queue.c: the exit marker that jumps the queue.
use linux_os_coding.Base.{◌+◌, ◌-◌, ◌≡◌, ◌≢◌, refl, ok, fault, some, [], ◌∷◌, arith}
use linux_os_coding.Base.Int.{pos}
use linux_os_coding.Queue.{Queue, queue_insert, queue_pop, queue_head_insert_exit, exit_task}
use linux_os_coding.Queue.Store.{
  Ptr, null, Task, node, blank, Heap, write, load, load-ok, set_next-ok,
}
use linux_os_coding.Queue.Chain.{Cells, first, Out, frame}
use linux_os_coding.Queue.Fifo.{Live, Loose, write_elsewhere, insert-run, pop-run, eqb_no}

-- What `calloc` may return for the marker: memory that is not in use.
pub record FreshFor (q : Queue) (xs : Cells) (e : Ptr) : Type 0 where
  pub ne : e ≢ null
  pub out : Out e xs
  pub off_head : q.head ≢ e

exit-run :
    (h : Heap) (q : Queue) (e r : Ptr)
    → e ≢ null
    → q.head ≢ e
    → q.head ≢ null
    → h q.head ≡ some (node blank r)
    → queue_head_insert_exit e q h
      ≡ ok (
        record q { size = q.size + 1 },
        write (write h e (some (node exit_task r))) q.head (some (node blank e)),
      )
unfolding queue_head_insert_exit
exit-run h q e r ne off hn he = rw (
  eqb_no _ _ ne,
  load-ok h q.head hn he,
  set_next-ok (write h e (some (node exit_task r))) q.head hn (write_elsewhere h q.head e _ he off)
      e,
)

-- With memory for it that is not in use, `queue_head_insert_exit` puts the marker before every waiting
-- task, whatever the size; no task is lost and `tail` does not move.
pub exit-first :
    (h : Heap) (q : Queue) (xs : Cells) (e : Ptr)
    → Live h q xs
    → FreshFor q xs e
    → (q' : Queue) × (h' : Heap) × (queue_head_insert_exit e q h ≡ ok (q', h'))
      × Live h' q' ((e, exit_task) ∷ xs)
      × (q'.tail ≡ q.tail)
unfolding write
exit-first h q xs e l f = (
  record q { size = q.size + 1 },
  write (write h e (some (node exit_task (first xs)))) q.head (some (node blank e)),
  exit-run h q e (first xs) f.ne f.off_head l.head_ne l.head_cell,
  record {
    head_ne = l.head_ne;
    head_cell = ground arith;
    apart = (f.off_head, l.apart);
    chain = (
      f.ne,
      ground (arith, f.off_head),
      f.out,
      frame (write h e (some (node exit_task (first xs)))) q.head _ xs
          (frame h e _ xs l.chain f.out) l.apart,
    );
    count = omega (arith, l.count);
  },
  refl,
)

-- In an empty queue whose `tail` is the head node, as `queue_init` leaves it, and with two nodes that
-- are not in use: `queue_head_insert_exit` and then `queue_insert` of a task succeed. The next
-- `queue_pop` hands out the task, not the marker, and the one after it is undefined behaviour.
pub exit_then_insert :
    (h : Heap) (q : Queue) (e p : Ptr) (t : Task)
    → Live h q []
    → q.tail ≡ q.head
    → FreshFor q [] e
    → Loose h q [] p t
    → p ≢ e
    → (q' q'' q3 : Queue) × (h' h'' h3 : Heap) × (queue_head_insert_exit e q h ≡ ok (q', h'))
      × (queue_insert q' p h' ≡ ok (pos 1, q'', h''))
      × (queue_pop q'' h'' ≡ ok (pos 1, p, q3, h3))
      × (queue_pop q3 h3 ≡ fault)
unfolding queue_pop load write
exit_then_insert h q e p t l same f o ne = (
  record q { size = q.size + 1 },
  record q { tail = p; size = q.size + 1 + 1 },
  record q { tail = p; size = q.size + 1 + 1 - 1 },
  h1,
  h2,
  h3,
  exit-run h q e null f.ne f.off_head l.head_ne l.head_cell,
  insert-run h1 (record q { size = q.size + 1 }) p q.head e blank (omega (arith, l.count))
      (omega arith) same l.head_ne (ground arith),
  pop-run h2 (record q { tail = p; size = q.size + 1 + 1 }) p t null (omega arith) l.head_ne
      (ground arith) o.ne (ground (arith, o.cell, o.off_head, ne)),
  ground (arith, l.head_ne),
)
  where
    h1 : Heap
    h1 = write (write h e (some (node exit_task null))) q.head (some (node blank e))

    h2 : Heap
    h2 = write h1 q.head (some (node blank p))

    h3 : Heap
    h3 = write h2 q.head (some (node blank null))
