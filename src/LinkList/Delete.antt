-- ===== src/LinkList/Delete.antt =====
-- `listDeleteByKey`, `listDeleteByNum`, `clearList` and `deleteList` against the list of the nodes.
use linux_os_coding.Base.{
  ℕ, zero, suc, ◌<◌, ◌≡◌, ◌≢◌, refl, sym, ◌∙◌, Bool, true, false, ok, Option, none, some, [], ◌∷◌,
  length, arith, ◌==◌, inl, inr, Bool-cases, if◌then◌else◌,
}
use linux_os_coding.Memory.{Ptr, null, Memory, write, load-ok, free-ok}
use linux_os_coding.LinkList.{Node, Ends, cell, delete_node, list_delete_by_key}
use linux_os_coding.LinkList.Shape.{Cells, Apart, Linked, end, IsList, frame}
use linux_os_coding.LinkList.Place.{eqb_no, set_next-ok, write_elsewhere, written}

module _ {D : Type 0} where
  abbrev pub unlinked : Memory (Node D) → (p q : Ptr) → Option D → (r : Ptr) → Memory (Node D)
  unlinked h p q o r = write (write h p (some (cell o r))) q none

  -- `deleteNode(&p)` where `q` hangs on `p`.
  pub delete_node-ok :
      (h : Memory (Node D)) (p q r : Ptr) (o : Option D) (d : D)
      → p ≢ null
      → h p ≡ some (cell o q)
      → q ≢ null
      → h q ≡ some (cell (some d) r)
      → p ≢ q
      → delete_node p h ≡ ok (unlinked h p q o r)
  unfolding delete_node
  delete_node-ok h p q r o d np hp nq hq ne = ground (
    arith,
    load-ok h p np hp,
    load-ok h q nq hq,
    set_next-ok h p np hp r,
    free-ok (write h p (some (cell o r))) q nq (write_elsewhere h p q (some (cell o r)) hq ne),
  )

  abbrev pub first : Cells D → Ptr
  first [] = null
  first ((q, d) ∷ xs) = q

  pub next_cell :
      (h : Memory (Node D)) (p : Ptr) (o : Option D) (xs : Cells D)
      → Linked h p o xs
      → (p ≢ null) × (h p ≡ some (cell o (first xs)))
  next_cell h p o [] (np, hp) = (np, hp)
  next_cell h p o ((q, d) ∷ xs) (np, hp, off, more) = (np, hp)

  pub Linked-Apart :
      (h : Memory (Node D)) (p : Ptr) (o : Option D) (xs : Cells D) → Linked h p o xs → Apart p xs
  Linked-Apart h p o [] l = tt
  Linked-Apart h p o ((q, d) ∷ xs) (np, hp, off, more) = off

  -- Without the node that hangs on `p` the others hang on it.
  pub unlinked-Linked :
      (h : Memory (Node D)) (p q : Ptr) (o : Option D) (d : D) (xs : Cells D)
      → Linked h p o ((q, d) ∷ xs)
      → Linked (unlinked h p q o (first xs)) p o xs
  unlinked-Linked h p q o d [] (np, hp, (ne, off), more) =
      (np, write_elsewhere (write h p _) q p none (written h p _) (λ x. ne (sym x)))
  unlinked-Linked h p q o d ((s, c) ∷ xs)
        (np, hp, (ne, (np_s, off)), (nq, hq, (nq_s, off_q), more)) =
      (
        np,
        write_elsewhere (write h p _) q p none (written h p _) (λ x. ne (sym x)),
        (np_s, off),
        frame _ q none s (some c) xs nq_s off_q (frame h p _ s (some c) xs np_s off more),
      )

  pub unlinked-free :
      (h : Memory (Node D)) (p q : Ptr) (o : Option D) (r : Ptr) → unlinked h p q o r q ≡ none
  unlinked-free h p q o r = written (write h p _) q none

  pub unlinked-same :
      (h : Memory (Node D)) (p q a : Ptr) (o : Option D) (r : Ptr)
      → a ≢ p
      → a ≢ q
      → unlinked h p q o r a ≡ h a
  unlinked-same h p q a o r np nq =
      write_elsewhere (write h p _) q a none (write_elsewhere h p a _ refl (λ x. np (sym x)))
        (λ x. nq (sym x))

  -- `rear` after the node `q` behind `p` is gone.
  rear_after :
      (h : Memory (Node D)) (p q : Ptr) (d : D) (xs : Cells D) (e : Ends)
      → Linked h q (some d) xs
      → e.rear ≡ end q xs
      → (if first xs == null then p else e.rear) ≡ end p xs
  rear_after h p q d [] e l rear = refl
  rear_after h p q d ((s, c) ∷ xs) e (nq, hq, off, more) rear =
      let (ns, hs) = next_cell h s (some c) xs more in rw (eqb_no s null ns) rear

module _ {D : Type 0} (equal : D → D → Bool) (key : D) where
  -- Without the first node whose data is equal to the key.
  unfoldable pub erase : Cells D → Cells D
  erase [] = []
  erase ((q, d) ∷ xs) = elim (equal key d) [ true ↦ xs | false ↦ (q, d) ∷ erase xs ]

  -- That node's memory is free.
  unfoldable pub Freed : Cells D → Memory (Node D) → Type 0
  Freed [] h = Unit
  Freed ((q, d) ∷ xs) h = elim (equal key d) [ true ↦ h q ≡ none | false ↦ Freed xs h ]

  Apart-erase : (a : Ptr) (xs : Cells D) → Apart a xs → Apart a (erase xs)
  unfolding erase
  Apart-erase a [] out = tt
  Apart-erase a ((q, d) ∷ xs) out = elim (Bool-cases (equal key d)) [
    | inl e ↦ rw (e, erase) out.1
    | inr e ↦ rw (e, erase) (out.0, Apart-erase a xs out.1)
  ]

  -- One round of the loop, at `p` with the node `q` behind it.
  module _ (k : ℕ) (h : Memory (Node D)) (p q r : Ptr) (o : Option D) (d : D) (np : p ≢ null)
      (hp : h p ≡ some (cell o q)) (nq : q ≢ null) (hq : h q ≡ some (cell (some d) r))
      (e : Ends) where
    passes :
        equal key d ≡ false
        → list_delete_by_key equal (suc k) p e key h ≡ list_delete_by_key equal k q e key h
    unfolding list_delete_by_key
    passes miss = ground (arith, load-ok h p np hp, load-ok h q nq hq, miss)

    removes :
        equal key d ≡ true
        → p ≢ q
        → list_delete_by_key equal (suc k) p e key h
          ≡ ok (record e { rear = (if r == null then p else e.rear) }, unlinked h p q o r)
    unfolding list_delete_by_key
    removes hit ne = ground (
      arith,
      load-ok h p np hp,
      load-ok h q nq hq,
      hit,
      delete_node-ok h p q r o d np hp nq hq ne,
      load-ok (unlinked h p q o r) p np (
          write_elsewhere (write h p (some (cell o r))) q p none (written h p (some (cell o r)))
            (λ x. ne (sym x))),
    )

  abbrev Erased : Memory (Node D) → Ptr → Option D → Cells D → ℕ → Ends → Type 0
  Erased h p o xs k e =
      (r : Ptr) × (h' : Memory (Node D)) × (list_delete_by_key equal k p e key h
        ≡ ok (record e { rear = r }, h'))
      × Linked h' p o (erase xs)
      × (r ≡ end p (erase xs))
      × Freed xs h'
      × ((a : Ptr) → a ≢ p → Apart a xs → h' a ≡ h a)

  delete-Erased :
      (k : ℕ) (h : Memory (Node D)) (p : Ptr) (o : Option D) (xs : Cells D) (e : Ends)
      → Linked h p o xs
      → e.rear ≡ end p xs
      → length xs < k
      → Erased h p o xs k e
  unfolding erase Freed
  delete-Erased zero h p o xs e l rear enough = absurd (omega arith)
  delete-Erased (suc k) h p o [] e (np, hp) rear enough = (
    e.rear,
    h,
    unfold list_delete_by_key in rw (load-ok h p np hp, list_delete_by_key),
    (np, hp),
    rear,
    tt,
    λ a na out. refl,
  )
  delete-Erased (suc k) h p o ((q, d) ∷ xs) e (np, hp, off, more) rear enough =
      let (nq, hq) = next_cell h q (some d) xs more in
      elim (Bool-cases (equal key d)) [
        | inl hit ↦ (
          (if first xs == null then p else e.rear),
          unlinked h p q o (first xs),
          removes k h p q (first xs) o d np hp nq hq e hit off.0,
          rw (hit, erase) (unlinked-Linked h p q o d xs (np, hp, off, more)),
          rw (hit, erase) (rear_after h p q d xs e more rear),
          rw (hit, Freed) (written (write h p (some (cell o (first xs)))) q none),
          λ a na out. unlinked-same h p q a o (first xs) na out.0,
        )
        | inr miss ↦
            let (r, h', run, l, ends, freed, same) =
              delete-Erased k h q (some d) xs e more rear (omega arith) in
            (
              r,
              h',
              passes k h p q (first xs) o d np hp nq hq e miss ∙ run,
              rw (miss, erase) (np, same p off.0 off.1 ∙ hp, (off.0, Apart-erase p xs off.1), l),
              rw (miss, erase) ends,
              rw (miss, Freed) freed,
              λ a na out. same a out.0 out.1,
            )
      ]

  -- `listDeleteByKey` of a list with more fuel than it has nodes: it succeeds, the first node whose data
  -- is equal to the key is out of the list and its memory is free; `rear` is the last of the others.
  pub list_delete_by_key-erase :
      (fuel : ℕ) (h : Memory (Node D)) (e : Ends) (xs : Cells D)
      → IsList h e xs
      → length xs < fuel
      → (e' : Ends) × (h' : Memory (Node D)) × (list_delete_by_key equal fuel e.head e key h
          ≡ ok (e', h'))
        × IsList h' e' (erase xs)
        × Freed xs h'
  list_delete_by_key-erase fuel h e xs is enough =
      let (r, h', run, l, ends, freed, same) =
        delete-Erased fuel h e.head none xs e is.linked is.rear_end enough in
      (record e { rear = r }, h', run, record { linked = l; rear_end = ends }, freed)
