-- ===== src/LinkList/Insert.antt =====
-- `listTailInsert` and `listSortInsert` against the list of the nodes.
use linux_os_coding.Base.{
  ℕ, ◌<◌, ◌≡◌, ◌≢◌, refl, sym, ap, ◌∙◌, Bool, false, ok, Option, none, some, [], ◌∷◌, ◌++◌, length,
  arith, ◌==◌, ==_iff, inl, inr,
}
use linux_os_coding.Memory.{Ptr, null, Memory, write}
use linux_os_coding.LinkList.{
  Node, Ends, cell, set_next, insert_loop, list_tail_insert, list_sort_insert,
}
use linux_os_coding.LinkList.Shape.{Cells, Apart, Linked, end, IsList, Fresh, frame}
use linux_os_coding.LinkList.Place.{
  eqb_no, place, set_next-ok, write_elsewhere, written, Apart-append, Apart-end, insert_loop-Walked,
}

module _ {D : Type 0} (fresh : Ptr) (i : D) where
  pub append_lem :
      (h : Memory (Node D)) (p : Ptr) (o : Option D) (xs : Cells D)
      → Linked h p o xs
      → Fresh fresh p xs
      → h fresh ≡ some (cell (some i) null)
      → (h' : Memory (Node D)) × (set_next h (end p xs) fresh ≡ ok h')
        × Linked h' p o (xs ++ (fresh, i) ∷ [])
        × (end p (xs ++ (fresh, i) ∷ []) ≡ fresh)
        × ((a : Ptr) → a ≢ p → Apart a xs → h' a ≡ h a)
  append_lem h p o [] (np, hp) (nf, fp, tt) at = (
    write h p (some (cell o fresh)),
    set_next-ok h p np hp fresh,
    (
      np,
      written h p (some (cell o fresh)),
      ((λ x. fp (sym x)), tt),
      (nf, write_elsewhere h p fresh _ at (λ x. fp (sym x))),
    ),
    refl,
    λ a na out. write_elsewhere h p a (some (cell o fresh)) refl (λ x. na (sym x)),
  )
  append_lem h p o ((q, d) ∷ xs) (np, hp, off, more) (nf, fp, (fq, fx)) at =
      let (h', run, l, ends, same) = append_lem h q (some d) xs more (nf, fq, fx) at in
      (
        h',
        run,
        (
          np,
          same p off.0 off.1 ∙ hp,
          (off.0, Apart-append p (fresh, i) xs (λ x. fp (sym x)) off.1),
          l,
        ),
        ends,
        λ a na out. same a out.0 out.1,
      )

  -- `listTailInsert` of memory that is in no node: it succeeds, and the new node is the last.
  pub list_tail_insert-IsList :
      (e : Ends) (h : Memory (Node D)) (xs : Cells D)
      → IsList h e xs
      → Fresh fresh e.head xs
      → (e' : Ends) × (h' : Memory (Node D)) × (list_tail_insert fresh e i h ≡ ok (e', h'))
        × IsList h' e' (xs ++ (fresh, i) ∷ [])
  unfolding list_tail_insert
  list_tail_insert-IsList e h xs is f =
      let h1 = write h fresh (some (cell (some i) null)) in
      let (h', run, l, ends, same) =
        append_lem h1 e.head none xs (frame h fresh _ e.head none xs f.1 f.2 is.linked) f
          (written h fresh (some (cell (some i) null))) in
      (
        record e { rear = fresh },
        h',
        rw (eqb_no fresh null f.0, is.rear_end, run),
        record { linked = l; rear_end = sym ends },
      )

module _ {D : Type 0} (compare : D → D → Bool) (fresh : Ptr) (i : D) where
  -- The two ways in which the walk along a list that is not empty may end.
  module _ (fuel : ℕ) (e : Ends) (h : Memory (Node D)) (nf : fresh ≢ null)
      (more : (e.head == e.rear) ≡ false) where
    ends_at_rear :
        (h' : Memory (Node D))
        → insert_loop compare fuel fresh e.head i (write h fresh (some (cell (some i) null)))
          ≡ ok (e.rear, none)
        → set_next (write h fresh (some (cell (some i) null))) e.rear fresh ≡ ok h'
        → list_sort_insert compare fuel fresh e i h ≡ ok (record e { rear = fresh }, h')
    unfolding list_sort_insert
    ends_at_rear h' walk linked = ground (arith, nf, more, walk, linked)

    ends_before :
        (q : Ptr) (h' : Memory (Node D))
        → insert_loop compare fuel fresh e.head i (write h fresh (some (cell (some i) null)))
          ≡ ok (q, some h')
        → list_sort_insert compare fuel fresh e i h ≡ ok (e, h')
    unfolding list_sort_insert
    ends_before q h' walk = rw (eqb_no fresh null nf, more, walk)

  -- `listSortInsert` of memory that is in no node, with more fuel than the list has nodes: it succeeds,
  -- and the new node stands in front of the first one that `compare` puts behind it, or is the last.
  pub list_sort_insert-place :
      (fuel : ℕ) (e : Ends) (h : Memory (Node D)) (xs : Cells D)
      → IsList h e xs
      → Fresh fresh e.head xs
      → length xs < fuel
      → (e' : Ends) × (h' : Memory (Node D)) × (list_sort_insert compare fuel fresh e i h
          ≡ ok (e', h'))
        × (e'.head ≡ e.head)
        × IsList h' e' (place compare (fresh, i) xs)
  unfolding list_sort_insert place
  list_sort_insert-place fuel e h [] is f enough =
      let h1 = write h fresh (some (cell (some i) null)) in
      let (h', run, l, ends, same) =
        append_lem fresh i h1 e.head none [] (frame h fresh _ e.head none [] f.1 f.2 is.linked) f
          (written h fresh (some (cell (some i) null))) in
      (
        record e { rear = fresh },
        h',
        rw (eqb_no fresh null f.0, is.rear_end, (==_iff e.head e.head).1 refl, run),
        refl,
        record { linked = l; rear_end = sym ends },
      )
  list_sort_insert-place fuel e h ((q, d) ∷ xs) is f enough =
      let h1 = write h fresh (some (cell (some i) null)) in
      let l1 =
        frame h fresh (some (cell (some i) null)) e.head none ((q, d) ∷ xs) f.1 f.2 is.linked in
      let new = written h fresh (some (cell (some i) null)) in
      let apart : (e.head == e.rear) ≡ false =
        eqb_no e.head e.rear
          (λ x. Apart-end e.head q xs is.linked.2.0 is.linked.2.1 (x ∙ is.rear_end)) in
      let ((p, done), run, cases) =
        insert_loop-Walked compare fresh i fuel h1 e.head none ((q, d) ∷ xs) l1 f new enough in
      elim cases [
        | inl (none_there, last, all) ↦
            let (h', run', l, ends, same) =
              append_lem fresh i h1 e.head none ((q, d) ∷ xs) l1 f new in
            let at_rear = last ∙ sym is.rear_end in
            (
              record e { rear = fresh },
              h',
              ends_at_rear fuel e h f.0 apart h' (run ∙ λ j. ok (at_rear j, none_there j))
                  (ap (λ a. set_next h1 a fresh) is.rear_end ∙ run'),
              refl,
              rw all (record { linked = l; rear_end = sym ends }),
            )
        | inr (h', there, l, ends, same) ↦ (
          e,
          h',
          ends_before fuel e h f.0 apart p h' (run ∙ λ j. ok (p, there j)),
          refl,
          record { linked = l; rear_end = is.rear_end ∙ sym ends },
        )
      ]
