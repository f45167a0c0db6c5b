-- ===== src/LinkList/Clear.antt =====
-- `clearList` and `deleteList`: every node is given back.
use linux_os_coding.Base.{
  ℕ, zero, suc, ◌<◌, ◌≡◌, ◌≢◌, refl, sym, ◌∙◌, ok, Option, none, some, [], ◌∷◌, length, arith,
}
use linux_os_coding.Memory.{Ptr, null, Memory, write, free, load-ok, free-ok}
use linux_os_coding.LinkList.{Node, Ends, cell, clear_loop, clear_list, delete_list}
use linux_os_coding.LinkList.Shape.{Cells, Apart, Linked, IsList}
use linux_os_coding.LinkList.Place.{eqb_no, write_elsewhere, written}
use linux_os_coding.LinkList.Delete.{
  unlinked, unlinked-Linked, unlinked-same, unlinked-free, delete_node-ok, first, next_cell,
  Linked-Apart,
}

module _ {D : Type 0} where
  -- The memory of every node behind the head is free.
  abbrev pub AllFree : Cells D → Memory (Node D) → Type 0
  AllFree [] h = Unit
  AllFree ((q, d) ∷ xs) h = (h q ≡ none) × AllFree xs h

  module _ (k : ℕ) (h : Memory (Node D)) (p q r : Ptr) (o : Option D) (d : D) (np : p ≢ null)
      (hp : h p ≡ some (cell o q)) where
    clears :
        q ≢ null
        → h q ≡ some (cell (some d) r)
        → p ≢ q
        → clear_loop (suc k) p h ≡ clear_loop k p (unlinked h p q o r)
    unfolding clear_loop
    clears nq hq ne =
        ground
          (arith, load-ok h p np hp, eqb_no q null nq, delete_node-ok h p q r o d np hp nq hq ne)

  clear_loop-AllFree :
      (k : ℕ) (h : Memory (Node D)) (p : Ptr) (o : Option D) (xs : Cells D)
      → Linked h p o xs
      → length xs < k
      → (h' : Memory (Node D)) × (clear_loop k p h ≡ ok h')
        × (h' p ≡ some (cell o null))
        × AllFree xs h'
        × ((a : Ptr) → a ≢ p → Apart a xs → h' a ≡ h a)
  clear_loop-AllFree zero h p o xs l enough = absurd (omega arith)
  clear_loop-AllFree (suc k) h p o [] (np, hp) enough =
      (h, unfold clear_loop in rw (load-ok h p np hp, clear_loop), hp, tt, λ a na out. refl)
  clear_loop-AllFree (suc k) h p o ((q, d) ∷ xs) (np, hp, (ne, off), more) enough =
      let (nq, hq) = next_cell h q (some d) xs more in
      let (h', run, at, free, same) =
        clear_loop-AllFree k (unlinked h p q o (first xs)) p o xs
          (unlinked-Linked h p q o d xs (np, hp, (ne, off), more)) (omega arith) in
      (
        h',
        clears k h p q (first xs) o d np hp nq hq ne ∙ run,
        at,
        (
          same q (λ x. ne (sym x)) (Linked-Apart h q (some d) xs more)
              ∙ unlinked-free h p q o (first xs),
          free,
        ),
        λ a na out. same a na out.1 ∙ unlinked-same h p q a o (first xs) na out.0,
      )

  pub AllFree-write :
      (h : Memory (Node D)) (a : Ptr) (xs : Cells D) → AllFree xs h → AllFree xs (write h a none)
  unfolding write
  AllFree-write h a [] free = tt
  AllFree-write h a ((q, d) ∷ xs) free = (ground (arith, free.0), AllFree-write h a xs free.1)

  gives_back :
      (fuel : ℕ) (h h' : Memory (Node D)) (e : Ends)
      → clear_loop fuel e.head h ≡ ok h'
      → e.head ≢ null
      → h' e.head ≡ some (cell none null)
      → delete_list fuel e h ≡ ok (write h' e.head none)
  unfolding delete_list clear_list
  gives_back fuel h h' e run np at = rw (run) (free-ok h' e.head np at)

  -- `deleteList` of a list with more fuel than it has nodes: it succeeds, the memory of the head and of
  -- every node is free, and no other memory has changed.
  pub delete_list-AllFree :
      (fuel : ℕ) (h : Memory (Node D)) (e : Ends) (xs : Cells D)
      → IsList h e xs
      → length xs < fuel
      → (h' : Memory (Node D)) × (delete_list fuel e h ≡ ok h')
        × (h' e.head ≡ none)
        × AllFree xs h'
        × ((a : Ptr) → a ≢ e.head → Apart a xs → h' a ≡ h a)
  delete_list-AllFree fuel h e xs is enough =
      let (h', run, at, free, same) = clear_loop-AllFree fuel h e.head none xs is.linked enough in
      let (np, hp) = next_cell h e.head none xs is.linked in
      (
        write h' e.head none,
        gives_back fuel h h' e run np at,
        written h' e.head none,
        AllFree-write h' e.head xs free,
        λ a na out. write_elsewhere h' e.head a none (same a na out) (λ x. na (sym x)),
      )
