-- ===== src/Queue/Store.antt =====
-- The nodes of the work queue, `node_t`.
use linux_os_coding.Base.{Run, ok, [], some, ◌≡◌, ◌≢◌}
use linux_os_coding.Base.Int.{ℤ, pos}
use linux_os_coding.Base.Text.{Text}
unfoldable pub use linux_os_coding.Memory.{write, load, free}
pub use linux_os_coding.Memory.{Ptr, null, load-ok, free-ok}
use linux_os_coding.Memory.{Memory, update, update-ok}

-- `node_t`, less its link.
pub record Task : Type 0 where
  pub fd : ℤ
  pub work_id : ℤ
  pub option : Text

pub record Node : Type 0 where
  pub task : Task
  pub next : Ptr

abbrev pub node : Task → Ptr → Node
node t q = record { task = t; next = q }

-- What `calloc` leaves in a node.
abbrev pub blank : Task
blank = record { fd = pos 0; work_id = pos 0; option = [] }

abbrev pub Heap : Type 0
Heap = Memory Node

-- `p->next = q`
unfoldable pub set_next : Heap → Ptr → Ptr → Run Heap
unfolding update
set_next h p q = update h p (λ n. record n { next = q })

pub set_next-ok :
    (h : Heap) (p : Ptr) {t : Task} {q : Ptr}
    → p ≢ null
    → h p ≡ some (node t q)
    → (r : Ptr) → set_next h p r ≡ ok (write h p (some (node t r)))
unfolding set_next
set_next-ok h p ne e r = update-ok h p ne e (λ n. record n { next = r })
