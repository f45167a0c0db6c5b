-- ===== src/Queue/Delete.antt =====
-- `queue_delete` of work_queue.c gives back exactly the memory of the queue.
use linux_os_coding.Base.{
  ℕ, zero, suc, ◌<◌, ◌≡◌, ◌≢◌, ok, some, none, Bool, false, ◌||◌, [], ◌∷◌, arith, ◌==◌, length, sym,
  ◌∙◌, if◌then◌else◌,
}
use linux_os_coding.Queue.{Queue, delete_loop, queue_delete}
use linux_os_coding.Queue.Store.{Ptr, null, node, blank, Heap, write, load-ok, set_next-ok, free-ok}
use linux_os_coding.Queue.Chain.{Cells, first, Out, Chain, frame}
use linux_os_coding.Queue.Fifo.{Live, write_elsewhere, eqb_no}

abbrev pub has : Ptr → Cells → Bool
has a [] = false
has a ((b, t) ∷ xs) = (a == b) || has a xs

-- The heap after one round: the node at `a` is unlinked from `p` and freed.
abbrev unlinked : Heap → Ptr → Ptr → Ptr → Heap
unlinked h p a r = write (write h p (some (node blank r))) a none

front_lem : (h : Heap) (p a r : Ptr) → p ≢ a → unlinked h p a r p ≡ some (node blank r)
unfolding write
front_lem h p a r ne = ground arith

unlinked_lem :
    (h : Heap) (p a r b : Ptr) (c : Bool)
    → b ≢ p
    → (if c then none else unlinked h p a r b) ≡ (if (b == a) || c then none else h b)
unfolding write
unlinked_lem h p a r b c off = ground arith

loop_lem :
    (k : ℕ) (h : Heap) (p : Ptr) (xs : Cells)
    → p ≢ null
    → h p ≡ some (node blank (first xs))
    → Out p xs
    → Chain h xs
    → length xs < k
    → (h' : Heap) × (delete_loop k p h ≡ ok h')
      × (h' p ≡ some (node blank null))
      × ((a : Ptr) → a ≢ p → h' a ≡ (if has a xs then none else h a))
unfolding delete_loop
loop_lem zero h p xs ne e out ch fuel = absurd (omega arith)
loop_lem (suc k) h p [] ne e out ch fuel = (h, rw (load-ok h p ne e), e, λ a _. ground arith)
loop_lem (suc k) h p ((a, t) ∷ xs) ne e out ch fuel =
    let (h', run, front, gone) =
      loop_lem k (unlinked h p a (first xs)) p xs ne (front_lem h p a (first xs) out.0) out.1
        (frame _ a none xs (frame h p _ xs ch.3 out.1) ch.2) (omega arith) in
    (
      h',
      rw
          (
            load-ok h p ne e,
            eqb_no a null ch.0,
            load-ok h a ch.0 ch.1,
            set_next-ok h p ne e (first xs),
            free-ok _ a ch.0 (write_elsewhere h a p _ ch.1 (λ q. out.0 (sym q))),
          )
          run,
      front,
      λ b off. gone b off ∙ unlinked_lem h p a (first xs) b (has b xs) off,
    )

-- `queue_delete` frees the head node and every node of the queue, and touches no other memory. One
-- round more than the queue has nodes is enough.
pub delete-frees :
    (k : ℕ) (h : Heap) (q : Queue) (xs : Cells)
    → Live h q xs
    → length xs < k
    → (h' : Heap) × (queue_delete k q h ≡ ok (record q { size = 0 }, h'))
      × ((a : Ptr) → h' a ≡ (if (a == q.head) || has a xs then none else h a))
unfolding queue_delete write
delete-frees k h q xs l fuel =
    let (h', run, front, gone) =
      loop_lem k h q.head xs l.head_ne l.head_cell l.apart l.chain fuel in
    (write h' q.head none, rw (run, free-ok h' q.head l.head_ne front), λ a. ground (arith, gone a))
