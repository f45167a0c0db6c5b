-- ===== src/LinkList.antt =====
-- The list template of wangdao/20180704/group_chat_task/LinkList.c, over any type of data. The list
-- of wangdao/20180621/ls_task/LinkList.c is the same code less the two searches. `fresh` is what
-- `malloc` returns. A walk runs on fuel, one node a round, and faults where it runs out.
pub mod Shape
pub mod Place
pub mod Sorting
pub mod Insert
pub mod Delete
pub mod Clear
pub mod Count
mod Tests
use linux_os_coding.Base.{
  ℕ, zero, suc, ◌-◌, Bool, true, false, Run, ok, fault, ◌>>=◌, Option, none, some, ◌==◌,
  if◌then◌else◌,
}
use linux_os_coding.Base.Int.{ℤ, pos, negsuc, eqb_ℤ, ◌+ℤ◌}
use linux_os_coding.Memory.{Ptr, null, Memory, write, load, update, free}

-- `node`; `none` is the head's data, which is never set.
pub record Node (D : Type 0) : Type 0 where
  pub item : Option D
  pub next : Ptr

-- The two pointers of the caller that every function is given.
pub record Ends : Type 0 where
  pub head : Ptr
  pub rear : Ptr

module _ {D : Type 0} where
  abbrev pub cell : Option D → Ptr → Node D
  cell o q = record { item = o; next = q }

  -- `p->data` where it has been set.
  abbrev pub item_of : Node D → Run D
  item_of n = elim n.item [ none ↦ fault | some d ↦ ok d ]

  -- `p->next = q`
  unfoldable pub set_next : Memory (Node D) → Ptr → Ptr → Run (Memory (Node D))
  unfolding update
  set_next h p q = update h p (λ n. record n { next = q })

  -- The node that `rear` gets at first is lost. `exit(1)` where there is no memory.
  unfoldable pub init_list :
      (fresh lost : Ptr) → Memory (Node D) → Run (Option (Ends × Memory (Node D)))
  init_list fresh lost h =
      if fresh == null
      then ok none
      else ok (some (record { head = fresh; rear = fresh }, write h fresh (some (cell none null))))

  unfoldable pub list_head_insert :
      (fresh : Ptr) → Ends → D → Memory (Node D) → Run (Ends × Memory (Node D))
  list_head_insert fresh e i h = if fresh == null then ok (e, h) else do
    first ← load h e.head
    h' ← set_next (write h fresh (some (cell (some i) first.next))) e.head fresh
    ok (record e { rear = (if e.head == e.rear then fresh else e.rear) }, h')

  -- In an empty list the code writes the same link twice.
  unfoldable pub list_tail_insert :
      (fresh : Ptr) → Ends → D → Memory (Node D) → Run (Ends × Memory (Node D))
  list_tail_insert fresh e i h = if fresh == null then ok (e, h) else do
    h' ← set_next (write h fresh (some (cell (some i) null))) e.rear fresh
    ok (record e { rear = fresh }, h')

  -- The loop of `listSortInsert` at `q`: the node at `fresh` goes in front of the first node that
  -- `compare` puts behind it. `none`: there is none, and `q` is the last node.
  unfoldable pub insert_loop :
      (compare : D → D → Bool)
      → ℕ
      → (fresh q : Ptr) → D
      → Memory (Node D)
      → Run (Ptr × Option (Memory (Node D)))
  insert_loop compare zero fresh q i h = fault
  insert_loop compare (suc k) fresh q i h = load h q >>= λ n. elim (n.next == null) [
    | true ↦ ok (q, none)
    | false ↦ load h n.next >>= λ m. item_of m >>= λ d. elim (compare i d) [
      | true ↦ do h' ← set_next h fresh n.next; h'' ← set_next h' q fresh; ok (q, some h'')
      | false ↦ insert_loop compare k fresh n.next i h
    ]
  ]

  -- The link of the new node is not set before its place is known; NULL stands for it here.
  unfoldable pub list_sort_insert :
      (compare : D → D → Bool)
      → (fuel : ℕ) → (fresh : Ptr) → Ends
      → D
      → Memory (Node D)
      → Run (Ends × Memory (Node D))
  list_sort_insert compare fuel fresh e i h =
      let h1 = write h fresh (some (cell (some i) null)) in
      let walk = insert_loop compare fuel fresh e.head i h1 in
      if fresh == null
      then ok (e, h)
      else if e.head == e.rear
      then (do h2 ← set_next h1 e.head fresh; ok (record e { rear = fresh }, h2))
      else walk >>= λ (q, done). elim done [
        | some h2 ↦ ok (e, h2)
        | none ↦ elim (q == e.rear) [
          | true ↦ do h2 ← set_next h1 q fresh; ok (record e { rear = fresh }, h2)
          | false ↦ ok (e, h1)
        ]
      ]

  unfoldable pub delete_node : Ptr → Memory (Node D) → Run (Memory (Node D))
  delete_node p h = load h p >>= λ n. elim (n.next == null) [
    | true ↦ ok h
    | false ↦ do m ← load h n.next; h' ← set_next h p m.next; free h' n.next
  ]

  -- The loop of `listDeleteByKey` at `p`.
  unfoldable pub list_delete_by_key :
      (equal : D → D → Bool)
      → ℕ
      → (p : Ptr) → Ends
      → (key : D) → Memory (Node D)
      → Run (Ends × Memory (Node D))
  list_delete_by_key equal zero p e key h = fault
  list_delete_by_key equal (suc k) p e key h = load h p >>= λ n. elim (n.next == null) [
    | true ↦ ok (e, h)
    | false ↦ load h n.next >>= λ m. item_of m >>= λ d. elim (equal key d) [
      | true ↦ do
        h' ← delete_node p h
        last ← load h' p
        ok (record e { rear = (if last.next == null then p else e.rear) }, h')
      | false ↦ list_delete_by_key equal k n.next e key h
    ]
  ]

  -- The loop of `listDeleteByNum`: what is left of `num`.
  unfoldable pub delete_loop :
      ℕ → (head : Ptr) → (num : ℤ) → Memory (Node D) → Run (ℤ × Memory (Node D))
  delete_loop zero p num h = fault
  delete_loop (suc k) p num h = elim (eqb_ℤ num (pos 0)) [
    | true ↦ ok (num, h)
    | false ↦ load h p >>= λ n. elim (n.next == null) [
      | true ↦ ok (num, h)
      | false ↦ delete_node p h >>= λ h'. delete_loop k p (num +ℤ negsuc 0) h'
    ]
  ]

  unfoldable pub list_delete_by_num :
      (fuel : ℕ) → Ends → (num : ℤ) → Memory (Node D) → Run (Ends × Memory (Node D))
  list_delete_by_num fuel e num h = do
    (left, h') ← delete_loop fuel e.head num h
    ok (record e { rear = (if eqb_ℤ left (pos 0) then e.rear else e.head) }, h')

  -- The loop of `findNodeByKey` at `p`: the node, or NULL.
  unfoldable pub find_node_by_key :
      (equal : D → D → Bool) → ℕ → (p : Ptr) → (key : D) → Memory (Node D) → Run Ptr
  find_node_by_key equal zero p key h = fault
  find_node_by_key equal (suc k) p key h = load h p >>= λ n. elim (n.next == null) [
    | true ↦ ok null
    | false ↦ load h n.next >>= λ m. item_of m >>= λ d. elim (equal d key) [
      | true ↦ ok n.next
      | false ↦ find_node_by_key equal k n.next key h
    ]
  ]

  -- The loop of `findNodeByNum` at `p`: where it stops, and what is left of `num`.
  unfoldable pub count_loop : ℕ → (p : Ptr) → (num : ℤ) → Memory (Node D) → Run (Ptr × ℤ)
  count_loop zero p num h = fault
  count_loop (suc k) p num h = elim (eqb_ℤ num (pos 0)) [
    | true ↦ ok (p, num)
    | false ↦ load h p >>= λ n. elim (n.next == null) [
      | true ↦ ok (p, num)
      | false ↦ count_loop k n.next (num +ℤ negsuc 0) h
    ]
  ]

  unfoldable pub find_node_by_num :
      (fuel : ℕ) → (head : Ptr) → (num : ℤ) → Memory (Node D) → Run Ptr
  find_node_by_num fuel head num h = count_loop fuel head num h >>= λ (p, left).
      elim (eqb_ℤ left (pos 0)) [ true ↦ ok p | false ↦ load h p >>= λ n. ok n.next ]

  -- The loop of `clearList`.
  unfoldable pub clear_loop : ℕ → (head : Ptr) → Memory (Node D) → Run (Memory (Node D))
  clear_loop zero p h = fault
  clear_loop (suc k) p h = load h p >>= λ n. elim (n.next == null) [
    | true ↦ ok h
    | false ↦ delete_node p h >>= λ h'. clear_loop k p h'
  ]

  unfoldable pub clear_list : (fuel : ℕ) → Ends → Memory (Node D) → Run (Ends × Memory (Node D))
  clear_list fuel e h = do h' ← clear_loop fuel e.head h; ok (record e { rear = e.head }, h')

  unfoldable pub delete_list : (fuel : ℕ) → Ends → Memory (Node D) → Run (Memory (Node D))
  delete_list fuel e h = do (e', h') ← clear_list fuel e h; free h' e'.head
