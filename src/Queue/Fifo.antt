-- ===== src/Queue/Fifo.antt =====
-- `queue_init`, `queue_insert` and `queue_pop` of work_queue.c against a list.
use linux_os_coding.Base.{
  ℕ, ◌+◌, ◌-◌, ◌∙◌, ◌<◌, ap, false, ◌≡◌, ◌≢◌, refl, ok, some, Option, [], ◌∷◌, ◌++◌, length,
  length-append, arith, ◌==◌, sym,
}
use linux_os_coding.Base.Int.{pos, negsuc}
use linux_os_coding.Queue.{Queue, queue_capacity, queue_init, queue_insert, queue_pop}
use linux_os_coding.Queue.Store.{
  Ptr, null, Task, Node, node, blank, Heap, write, load-ok, set_next-ok,
}
use linux_os_coding.Queue.Chain.{
  Cells, first, last, Out, Chain, Out-last, frame, last-holds, Chain-append, Out-append,
}

-- The nodes of `xs` hang in order from the head node of `q`, and `size` counts them.
pub record Live (h : Heap) (q : Queue) (xs : Cells) : Type 0 where
  pub head_ne : q.head ≢ null
  pub head_cell : h q.head ≡ some (node blank (first xs))
  pub apart : Out q.head xs
  pub chain : Chain h xs
  pub count : q.size ≡ length xs

-- `tail` is the last node. It says nothing of an empty queue: `queue_pop` leaves it dangling.
abbrev pub TailOk : Queue → Cells → Type 0
TailOk q [] = Unit
TailOk q (x ∷ xs) = q.tail ≡ (last x xs).0

pub record IsQueue (h : Heap) (q : Queue) (xs : Cells) : Type 0 where
  pub live : Live h q xs
  pub ends : TailOk q xs

-- A node that `queue_insert` may be given: allocated, not linked, and in no queue.
pub record Loose (h : Heap) (q : Queue) (xs : Cells) (p : Ptr) (t : Task) : Type 0 where
  pub ne : p ≢ null
  pub cell : h p ≡ some (node t null)
  pub out : Out p xs
  pub off_head : q.head ≢ p

-- After an insert: success, and a queue with the node behind the others.
abbrev pub Inserted : Heap → Queue → Cells → Ptr → Task → Type 0
Inserted h q xs p t =
    (q' : Queue) × (h' : Heap) × (queue_insert q p h ≡ ok (pos 1, q', h'))
    × IsQueue h' q' (xs ++ (p, t) ∷ [])

insert-empty :
    (h : Heap) (q : Queue) (p : Ptr) (t : Task)
    → Live h q []
    → Loose h q [] p t
    → Inserted h q [] p t
unfolding queue_insert write
insert-empty h q p t l o = (
  record q { tail = p; size = q.size + 1 },
  write h q.head (some (node blank p)),
  ground (arith, set_next-ok h q.head l.head_ne l.head_cell p),
  record {
    live = record {
      head_ne = l.head_ne;
      head_cell = ground arith;
      apart = (o.off_head, tt);
      chain = (o.ne, ground (arith, o.cell, o.off_head), tt, tt);
      count = omega (arith, l.count);
    };
    ends = refl;
  },
)

pub eqb_no : (a b : ℕ) → a ≢ b → (a == b) ≡ false
eqb_no a b ne = ground arith

pub write_elsewhere :
    (h : Heap) (a b : Ptr) (c : Option Node) {d : Option Node} → h a ≡ d → a ≢ b → write h b c a ≡ d
unfolding write
write_elsewhere h a b c e ne = ground arith

pub insert-run :
    (h : Heap) (q : Queue) (p z r : Ptr) (t : Task)
    → q.size ≢ queue_capacity
    → q.size ≢ 0
    → q.tail ≡ z
    → z ≢ null
    → h z ≡ some (node t r)
    → queue_insert q p h
      ≡ ok (pos 1, record q { tail = p; size = q.size + 1 }, write h z (some (node t p)))
unfolding queue_insert
insert-run h q p z r t not_full not_empty at_z ne e =
    rw (eqb_no _ _ not_full, eqb_no _ _ not_empty, at_z, set_next-ok h z ne e p)

last-append : (x : Ptr × Task) (xs : Cells) (y : Ptr × Task) → last x (xs ++ y ∷ []) ≡ y
last-append x [] y = refl
last-append x (z ∷ xs) y = last-append z xs y

insert-cons :
    (h : Heap) (q : Queue) (x : Ptr × Task) (xs : Cells) (p : Ptr) (t : Task)
    → IsQueue h q (x ∷ xs)
    → length (x ∷ xs) < queue_capacity
    → Loose h q (x ∷ xs) p t
    → Inserted h q (x ∷ xs) p t
unfolding queue_insert
insert-cons h q (a, s) xs p t is room o = (
  record q { tail = p; size = q.size + 1 },
  write h (last (a, s) xs).0 (some (node (last (a, s) xs).1 p)),
  insert-run h q p (last (a, s) xs).0 null (last (a, s) xs).1 (omega (arith, is.live.count))
      (omega (arith, is.live.count)) is.ends ends.0 ends.1,
  record {
    live = record {
      head_ne = is.live.head_ne;
      head_cell =
          write_elsewhere h q.head _ _ is.live.head_cell (Out-last q.head (a, s) xs is.live.apart);
      apart = Out-append q.head ((a, s) ∷ xs) p t is.live.apart o.off_head;
      chain = Chain-append h (a, s) xs p t is.live.chain o.ne o.cell o.out;
      count = omega (arith, is.live.count, length-append ((a, s) ∷ xs) ((p, t) ∷ []));
    };
    ends = ap (λ (x : Ptr × Task). x.0) (sym (last-append (a, s) xs (p, t)));
  },
)
  where
    ends :
        ((last (a, s) xs).0 ≢ null) × (h (last (a, s) xs).0 ≡ some (node (last (a, s) xs).1 null))
    ends = last-holds h (a, s) xs is.live.chain

-- Below the capacity, and for an allocated node that is in no queue, `queue_insert` succeeds and puts
-- the node behind those of the queue, also where `tail` dangles because the queue was emptied before.
pub insert-append :
    (h : Heap) (q : Queue) (xs : Cells) (p : Ptr) (t : Task)
    → IsQueue h q xs
    → length xs < queue_capacity
    → Loose h q xs p t
    → Inserted h q xs p t
insert-append h q [] p t is room o = insert-empty h q p t is.live o
insert-append h q (x ∷ xs) p t is room o = insert-cons h q x xs p t is room o

-- At its capacity the queue refuses the node and nothing changes.
pub insert-full :
    (h : Heap) (q : Queue) (xs : Cells) (p : Ptr)
    → Live h q xs
    → length xs ≡ queue_capacity
    → queue_insert q p h ≡ ok (negsuc 0, q, h)
unfolding queue_insert
insert-full h q xs p l full = ground (arith, l.count)

pub pop-run :
    (h : Heap) (q : Queue) (a : Ptr) (t : Task) (r : Ptr)
    → q.size ≢ 0
    → q.head ≢ null
    → h q.head ≡ some (node blank a)
    → a ≢ null
    → h a ≡ some (node t r)
    → queue_pop q h
      ≡ ok (pos 1, a, record q { size = q.size - 1 }, write h q.head (some (node blank r)))
unfolding queue_pop
pop-run h q a t r not_empty hn he an ae =
    rw (
      eqb_no _ _ not_empty,
      load-ok h q.head hn he,
      load-ok h a an ae,
      set_next-ok h q.head hn he r,
    )

-- `queue_pop` of a queue with nodes hands out the first, which keeps its task, and leaves a queue of
-- the others. A `tail` that named the last node still does, if a node is left.
pub pop-first :
    (h : Heap) (q : Queue) (a : Ptr) (t : Task) (xs : Cells)
    → Live h q ((a, t) ∷ xs)
    → (q' : Queue) × (h' : Heap) × (queue_pop q h ≡ ok (pos 1, a, q', h'))
      × Live h' q' xs
      × (h' a ≡ some (node t (first xs)))
      × (q'.tail ≡ q.tail)
unfolding queue_pop write
pop-first h q a t xs l = (
  record q { size = q.size - 1 },
  write h q.head (some (node blank (first xs))),
  pop-run h q a t (first xs) (omega (arith, l.count)) l.head_ne l.head_cell l.chain.0 l.chain.1,
  record {
    head_ne = l.head_ne;
    head_cell = ground arith;
    apart = l.apart.1;
    chain = frame h q.head _ xs l.chain.3 l.apart.1;
    count = omega (arith, l.count);
  },
  write_elsewhere h a q.head _ l.chain.1 (λ e. l.apart.0 (sym e)),
  refl,
)

-- `queue_pop` of an empty queue hands out NULL and changes nothing.
pub pop-empty : (h : Heap) (q : Queue) → Live h q [] → queue_pop q h ≡ ok (negsuc 0, null, q, h)
unfolding queue_pop
pop-empty h q l = ground (arith, l.count)

-- `queue_init` with memory that is not NULL gives an empty queue whose `tail` is the head node.
pub init-IsQueue :
    (fresh : Ptr) (h : Heap)
    → fresh ≢ null
    → (q : Queue) × (h' : Heap) × (queue_init fresh h ≡ ok (q, h'))
      × IsQueue h' q []
      × (q.tail ≡ q.head)
unfolding queue_init write
init-IsQueue fresh h ne = (
  record { head = fresh; tail = fresh; size = 0 },
  write h fresh (some (node blank null)),
  ground arith,
  record {
    live = record { head_ne = ne; head_cell = ground arith; apart = tt; chain = tt; count = refl };
    ends = tt;
  },
  refl,
)

-- `queue_pop` of a queue with nodes succeeds with the first node, which keeps its task, and leaves a
-- queue of the others in their order.
pub pop-IsQueue :
    (h : Heap) (q : Queue) (a : Ptr) (t : Task) (xs : Cells)
    → IsQueue h q ((a, t) ∷ xs)
    → (q' : Queue) × (h' : Heap) × (queue_pop q h ≡ ok (pos 1, a, q', h'))
      × IsQueue h' q' xs
      × (h' a ≡ some (node t (first xs)))
pop-IsQueue h q a t xs is =
    let (q', h', run, l, kept, same) = pop-first h q a t xs is.live in
    (q', h', run, record { live = l; ends = tail_of xs q' same is.ends }, kept)
  where
    tail_of : (ys : Cells) (q' : Queue) → q'.tail ≡ q.tail → TailOk q ((a, t) ∷ ys) → TailOk q' ys
    tail_of [] q' same e = tt
    tail_of (y ∷ ys) q' same e = same ∙ e
