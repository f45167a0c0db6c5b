-- ===== src/LinkList/Count.antt =====
-- `listDeleteByNum`: the first nodes are given back.
use linux_os_coding.Base.{
  ℕ, zero, suc, ◌-◌, ◌<◌, ◌≡◌, ◌≢◌, refl, sym, ap, ◌∙◌, ok, fault, Option, none, some, [], ◌∷◌,
  length, take, drop, take-all, arith,
}
use linux_os_coding.Base.Int.{pos, negsuc, ◌+ℤ◌}
use linux_os_coding.Memory.{Ptr, null, Memory, write, update, load-ok, load_freed}
use linux_os_coding.LinkList.{
  Node, Ends, cell, delete_loop, list_delete_by_num, list_tail_insert, set_next,
}
use linux_os_coding.LinkList.Shape.{Cells, Apart, Linked, end, IsList}
use linux_os_coding.LinkList.Place.{eqb_no, write_elsewhere}
use linux_os_coding.LinkList.Delete.{
  unlinked, unlinked-Linked, unlinked-same, unlinked-free, delete_node-ok, first, next_cell,
  Linked-Apart,
}
use linux_os_coding.LinkList.Clear.{AllFree}

none_less : (n : ℕ) → 0 - n ≡ 0
none_less n = omega arith

less_zero : (n : ℕ) → n ≡ n - 0
less_zero n = omega arith

less_both : (n m : ℕ) → n - m ≡ suc n - suc m
less_both n m = omega arith

less_one : (n : ℕ) → pos (suc n) +ℤ negsuc 0 ≡ pos n
unfolding ◌+ℤ◌
less_one n = ground arith

module _ {D : Type 0} where
  module _ (k n : ℕ) (h : Memory (Node D)) (p q r : Ptr) (o : Option D) (d : D) (np : p ≢ null)
      (hp : h p ≡ some (cell o q)) where
    takes :
        q ≢ null
        → h q ≡ some (cell (some d) r)
        → p ≢ q
        → delete_loop (suc k) p (pos (suc n)) h ≡ delete_loop k p (pos n) (unlinked h p q o r)
    unfolding delete_loop
    takes nq hq ne = ground (
      arith,
      load-ok h p np hp,
      eqb_no q null nq,
      delete_node-ok h p q r o d np hp nq hq ne,
      less_one n,
    )

  none_left :
      (k n : ℕ) (h : Memory (Node D)) (p : Ptr) (o : Option D)
      → p ≢ null
      → h p ≡ some (cell o null)
      → delete_loop (suc k) p (pos (suc n)) h ≡ ok (pos (suc n), h)
  unfolding delete_loop
  none_left k n h p o np hp = ground (arith, load-ok h p np hp)

  stops : (k : ℕ) (p : Ptr) (h : Memory (Node D)) → delete_loop (suc k) p (pos 0) h ≡ ok (pos 0, h)
  unfolding delete_loop
  stops k p h = refl

  delete_loop-drop :
      (k n : ℕ) (h : Memory (Node D)) (p : Ptr) (o : Option D) (xs : Cells D)
      → Linked h p o xs
      → length xs < k
      → (h' : Memory (Node D)) × (delete_loop k p (pos n) h ≡ ok (pos (n - length xs), h'))
        × Linked h' p o (drop n xs)
        × AllFree (take n xs) h'
        × ((a : Ptr) → a ≢ p → Apart a xs → h' a ≡ h a)
  delete_loop-drop zero n h p o xs l enough = absurd (omega arith)
  delete_loop-drop (suc k) zero h p o xs l enough = (
    h,
    stops k p h ∙ ap (λ n. ok (pos n, h)) (sym (none_less (length xs))),
    l,
    tt,
    λ a na out. refl,
  )
  delete_loop-drop (suc k) (suc n) h p o [] (np, hp) enough = (
    h,
    none_left k n h p o np hp ∙ ap (λ m. ok (pos m, h)) (less_zero (suc n)),
    (np, hp),
    tt,
    λ a na out. refl,
  )
  delete_loop-drop (suc k) (suc n) h p o ((q, d) ∷ xs) (np, hp, (ne, off), more) enough =
      let (nq, hq) = next_cell h q (some d) xs more in
      let (h', run, l, free, same) =
        delete_loop-drop k n (unlinked h p q o (first xs)) p o xs
          (unlinked-Linked h p q o d xs (np, hp, (ne, off), more)) (omega arith) in
      (
        h',
        takes k n h p q (first xs) o d np hp nq hq ne
            ∙ run
            ∙ ap (λ m. ok (pos m, h')) (less_both n (length xs)),
        l,
        (
          same q (λ x. ne (sym x)) (Linked-Apart h q (some d) xs more)
              ∙ unlinked-free h p q o (first xs),
          free,
        ),
        λ a na out. same a na out.1 ∙ unlinked-same h p q a o (first xs) na out.0,
      )

  -- The last node is among those that are given back.
  end-free :
      (h : Memory (Node D)) (q : Ptr) (d : D) (xs : Cells D)
      → AllFree ((q, d) ∷ xs) h
      → h (end q xs) ≡ none
  end-free h q d [] free = free.0
  end-free h q d ((r, c) ∷ xs) free = end-free h r c xs free.1

  end_anywhere :
      (n : ℕ) (p q : Ptr) (xs : Cells D) → n < length xs → end p (drop n xs) ≡ end q (drop n xs)
  end_anywhere n p q [] less = absurd (omega arith)
  end_anywhere zero p q (x ∷ xs) less = refl
  end_anywhere (suc n) p q (x ∷ xs) less = end_anywhere n p q xs (omega arith)

  end-drop : (n : ℕ) (p : Ptr) (xs : Cells D) → n < length xs → end p (drop n xs) ≡ end p xs
  end-drop zero p xs less = refl
  end-drop (suc n) p [] less = absurd (omega arith)
  end-drop (suc n) p ((q, d) ∷ []) less = absurd (omega arith)
  end-drop (suc n) p ((q, d) ∷ x ∷ xs) less =
      end_anywhere n p q (x ∷ xs) (omega arith) ∙ end-drop n q (x ∷ xs) (omega arith)

  tail_fault :
      (fresh : Ptr) (e : Ends) (i : D) (h : Memory (Node D))
      → fresh ≢ null
      → fresh ≢ e.rear
      → h e.rear ≡ none
      → list_tail_insert fresh e i h ≡ fault
  unfolding list_tail_insert set_next update
  tail_fault fresh e i h nf apart gone =
      let c = some (cell (some i) null) in
      rw
        (
          eqb_no fresh null nf,
          load_freed (write h fresh c) e.rear (write_elsewhere h fresh e.rear c gone apart),
        )
        refl

  by_num :
      (fuel n left : ℕ) (e : Ends) (h h' : Memory (Node D))
      → delete_loop fuel e.head (pos n) h ≡ ok (pos left, h')
      → left ≡ 0
      → list_delete_by_num fuel e (pos n) h ≡ ok (e, h')
  unfolding list_delete_by_num
  by_num fuel n left e h h' run e0 = rw (run, e0) refl

  module _ (fuel : ℕ) (h : Memory (Node D)) (e : Ends) (xs : Cells D) (is : IsList h e xs)
      (enough : length xs < fuel) where
    -- `listDeleteByNum` of fewer nodes than the list has: it succeeds, the first `n` nodes are out of the
    -- list and their memory is free.
    pub list_delete_by_num-drop :
        (n : ℕ)
        → n < length xs
        → (h' : Memory (Node D)) × (list_delete_by_num fuel e (pos n) h ≡ ok (e, h'))
          × IsList h' e (drop n xs)
          × AllFree (take n xs) h'
    list_delete_by_num-drop n less =
        let (h', run, l, free, same) = delete_loop-drop fuel n h e.head none xs is.linked enough in
        (
          h',
          by_num fuel n (n - length xs) e h h' run (omega arith),
          record { linked = l; rear_end = is.rear_end ∙ sym (end-drop n e.head xs less) },
          free,
        )

    rear_free :
        (h' : Memory (Node D)) (ys : Cells D)
        → 0 < length ys
        → AllFree ys h'
        → h' (end e.head ys) ≡ none
    rear_free h' [] some_node free = absurd (omega arith)
    rear_free h' ((q, d) ∷ ys) some_node free = end-free h' q d ys free

    -- `listDeleteByNum` of as many nodes as a list has that is not empty: it succeeds and frees them all,
    -- but `rear` still points to the last, and `listTailInsert` of further memory then goes through it.
    pub list_delete_by_num-all :
        (fresh : Ptr) (i : D)
        → 0 < length xs
        → fresh ≢ null
        → fresh ≢ e.rear
        → (h' : Memory (Node D)) × (list_delete_by_num fuel e (pos (length xs)) h ≡ ok (e, h'))
          × (h' e.rear ≡ none)
          × (list_tail_insert fresh e i h' ≡ fault)
    list_delete_by_num-all fresh i some_node nf apart =
        let (h', run, l, free, same) =
          delete_loop-drop fuel (length xs) h e.head none xs is.linked enough in
        let gone =
          ap h' is.rear_end
          ∙ rear_free h' xs some_node (rw (take-all (length xs) xs (omega arith)) at free) in
        (
          h',
          by_num fuel (length xs) _ e h h' run (omega arith),
          gone,
          tail_fault fresh e i h' nf apart gone,
        )
