-- ===== src/LinkList/Tests.antt =====
-- The functions of the list on small lists of numbers.
use linux_os_coding.Base.{
  ℕ, ◌≡◌, refl, Run, ok, fault, ◌>>=◌, Option, none, some, [], ◌∷◌, arith, ◌==◌, ltb,
}
use linux_os_coding.Base.Int.{pos, ◌+ℤ◌}
use linux_os_coding.Memory.{Ptr, Memory, write, load}
use linux_os_coding.LinkList.{
  Node, Ends, cell, init_list, list_head_insert, list_tail_insert, list_sort_insert, insert_loop,
  set_next, list_delete_by_key, find_node_by_key, find_node_by_num, count_loop,
}
use linux_os_coding.LinkList.Shape.{IsList}
use linux_os_coding.LinkList.Delete.{erase, Freed, list_delete_by_key-erase}

-- A head at 1 and the nodes 5 at 2 and 8 at 3.
abbrev two_nodes : Memory (Node ℕ)
two_nodes =
    write (write (write (λ a. none) 1 (some (cell none 2))) 2 (some (cell (some 5) 3))) 3
      (some (cell (some 8) 0))

abbrev two_ends : Ends
two_ends = record { head = 1; rear = 3 }

two_nodes-IsList : IsList two_nodes two_ends ((2, 5) ∷ (3, 8) ∷ [])
unfolding write
two_nodes-IsList = record {
  linked = (
    ground arith,
    refl,
    (ground arith, (ground arith, tt)),
    (ground arith, refl, (ground arith, tt), (ground arith, refl)),
  );
  rear_end = refl;
}

abbrev Cell : Type 0
Cell = Option (Node ℕ)

abbrev built : Run ((Ptr × Cell) × (Cell × Cell) × (Cell × Cell))
built = init_list {D = ℕ} 1 9 (λ a. none) >>= λ start. elim start [
  | none ↦ fault
  | some (e0, h0) ↦ list_sort_insert ltb 9 2 e0 8 h0 >>= λ (e1, h1).
      list_sort_insert ltb 9 3 e1 5 h1 >>= λ (e2, h2). list_head_insert 4 e2 7 h2 >>= λ (e3, h3).
      list_tail_insert 5 e3 1 h3 >>= λ (e4, h4). ok ((e4.rear, h4 1), (h4 4, h4 3), (h4 2, h4 5))
]

inserted_in_order :
    built
    ≡ ok (
      (5, some (cell none 4)),
      (some (cell (some 7) 3), some (cell (some 5) 2)),
      (some (cell (some 8) 5), some (cell (some 1) 0)),
    )
unfolding init_list list_sort_insert list_head_insert list_tail_insert write insert_loop set_next
inserted_in_order = refl

found_at_key :
    (find_node_by_key ◌==◌ 9 1 8 two_nodes ≡ ok 3) × (find_node_by_key ◌==◌ 9 1 6 two_nodes ≡ ok 0)
unfolding find_node_by_key write load
found_at_key = (refl, refl)

list_delete_by_key-erase_example :
    (e' : Ends) × (h' : Memory (Node ℕ)) × (list_delete_by_key ◌==◌ 3 1 two_ends 8 two_nodes
      ≡ ok (e', h'))
    × IsList h' e' (erase ◌==◌ 8 ((2, 5) ∷ (3, 8) ∷ []))
    × Freed ◌==◌ 8 ((2, 5) ∷ (3, 8) ∷ []) h'
list_delete_by_key-erase_example =
    list_delete_by_key-erase ◌==◌ 8 3 two_nodes two_ends ((2, 5) ∷ (3, 8) ∷ []) two_nodes-IsList
      (omega arith)

found_at_place :
    (find_node_by_num 9 1 (pos 2) two_nodes ≡ ok 3)
    × (find_node_by_num 9 1 (pos 3) two_nodes ≡ ok 0)
unfolding find_node_by_num count_loop write load ◌+ℤ◌
found_at_place = (refl, refl)
