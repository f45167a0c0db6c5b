-- ===== src/LinkList/Place.antt =====
-- The walk of `listSortInsert` to the place of the new node.
use linux_os_coding.Base.{
  ℕ, zero, suc, ◌<◌, ◌≡◌, ◌≢◌, refl, sym, ◌∙◌, Bool, true, false, ok, Option, none, some, [], ◌∷◌,
  ◌++◌, length, arith, ◌==◌, ==_iff, inl, inr, Bool-cases, ◌⊎◌,
}
use linux_os_coding.Memory.{Ptr, null, Memory, write, load-ok, update-ok}
use linux_os_coding.LinkList.{Node, cell, set_next, insert_loop}
use linux_os_coding.LinkList.Shape.{Cells, Apart, Linked, end, Fresh, frame, first_cell}

pub eqb_no : (a b : Ptr) → a ≢ b → (a == b) ≡ false
eqb_no a b ne = ground (arith, ==_iff a b)

module _ {D : Type 0} where
  -- The node in front of the first one that `compare` puts behind it, or at the end.
  unfoldable pub place : (compare : D → D → Bool) → Ptr × D → Cells D → Cells D
  place compare n [] = n ∷ []
  place compare n (x ∷ xs) = elim (compare n.1 x.1) [
    | true ↦ n ∷ x ∷ xs
    | false ↦ x ∷ place compare n xs
  ]

  pub set_next-ok :
      (h : Memory (Node D)) (p : Ptr) {o : Option D} {q : Ptr}
      → p ≢ null
      → h p ≡ some (cell o q)
      → (r : Ptr) → set_next h p r ≡ ok (write h p (some (cell o r)))
  unfolding set_next
  set_next-ok h p ne e r = update-ok h p ne e (λ n. record n { next = r })

  pub Apart-place :
      (compare : D → D → Bool) (a : Ptr) (n : Ptr × D) (xs : Cells D)
      → a ≢ n.0
      → Apart a xs
      → Apart a (place compare n xs)
  unfolding place
  Apart-place compare a n [] ne out = (ne, tt)
  Apart-place compare a n (x ∷ xs) ne out = elim (Bool-cases (compare n.1 x.1)) [
    | inl e ↦ rw (e, place) (ne, out)
    | inr e ↦ rw (e, place) (out.0, Apart-place compare a n xs ne out.1)
  ]

  pub write_elsewhere :
      (h : Memory (Node D)) (a p : Ptr) (c : Option (Node D)) {n : Option (Node D)}
      → h p ≡ n
      → a ≢ p
      → write h a c p ≡ n
  unfolding write
  write_elsewhere h a p c e ne = ground (arith, ne, e)

  -- A node that is linked in behind `p`.
  joined :
      (h : Memory (Node D)) (fresh p q : Ptr) (i d : D) (o : Option D) (xs : Cells D)
      → p ≢ null
      → Fresh fresh p ((q, d) ∷ xs)
      → Apart p ((q, d) ∷ xs)
      → Linked h q (some d) xs
      → Linked
          (write (write h fresh (some (cell (some i) q))) p (some (cell o fresh)))
          p
          o
          ((fresh, i) ∷ (q, d) ∷ xs)
  unfolding write
  joined h fresh p q i d o xs np (nf, fp, fx) off more = (
    np,
    ground arith,
    ((λ e. fp (sym e)), off),
    (
      nf,
      ground (arith, fp),
      fx,
      frame _ p _ q (some d) xs off.0 off.1 (frame h fresh _ q (some d) xs fx.0 fx.1 more),
    ),
  )

  pub written : (h : Memory (Node D)) (a : Ptr) (c : Option (Node D)) → write h a c a ≡ c
  unfolding write
  written h a c = ground (arith, (==_iff a a).1 refl)

  pub Apart-append :
      (a : Ptr) (n : Ptr × D) (xs : Cells D) → a ≢ n.0 → Apart a xs → Apart a (xs ++ n ∷ [])
  Apart-append a n [] ne out = (ne, tt)
  Apart-append a n (x ∷ xs) ne out = (out.0, Apart-append a n xs ne out.1)

  pub Apart-end : (a q : Ptr) (xs : Cells D) → a ≢ q → Apart a xs → a ≢ end q xs
  Apart-end a q [] ne out = ne
  Apart-end a q ((r, d) ∷ xs) ne out = Apart-end a r xs out.0 out.1

module _ {D : Type 0} (compare : D → D → Bool) (fresh : Ptr) (i : D) where
  -- Behind the last node nothing has been written; else the node is linked at its place.
  abbrev pub AtEnd : Ptr → Cells D → Ptr × Option (Memory (Node D)) → Type 0
  AtEnd p xs (q, done) =
      (done ≡ none) × (q ≡ end p xs) × (place compare (fresh, i) xs ≡ xs ++ (fresh, i) ∷ [])

  abbrev pub Placed :
      Memory (Node D) → Ptr → Option D → Cells D → Ptr × Option (Memory (Node D)) → Type 0
  Placed h p o xs (q, done) =
      (h' : Memory (Node D)) × (done ≡ some h')
      × Linked h' p o (place compare (fresh, i) xs)
      × (end p (place compare (fresh, i) xs) ≡ end p xs)
      × ((a : Ptr) → a ≢ fresh → a ≢ p → Apart a xs → h' a ≡ h a)

  abbrev pub Walked : Memory (Node D) → Ptr → Option D → Cells D → ℕ → Type 0
  Walked h p o xs k =
      (r : Ptr × Option (Memory (Node D))) × (insert_loop compare k fresh p i h ≡ ok r)
      × (AtEnd p xs r ⊎ Placed h p o xs r)

  -- One round of the walk, at `p` with the node `q` behind it.
  module _ (k : ℕ) (h : Memory (Node D)) (p q r : Ptr) (o : Option D) (d : D) (np : p ≢ null)
      (hp : h p ≡ some (cell o q)) (nq : q ≢ null) (hq : h q ≡ some (cell (some d) r)) where
    walk_on :
        compare i d ≡ false
        → insert_loop compare (suc k) fresh p i h ≡ insert_loop compare k fresh q i h
    unfolding insert_loop
    walk_on e = ground (arith, load-ok h p np hp, load-ok h q nq hq, e)

    walk_stops :
        compare i d ≡ true
        → fresh ≢ null
        → fresh ≢ p
        → h fresh ≡ some (cell (some i) null)
        → insert_loop compare (suc k) fresh p i h
          ≡ ok (p, some (write (write h fresh (some (cell (some i) q))) p (some (cell o fresh))))
    unfolding insert_loop
    walk_stops e nf fp at =
        let h' = write h fresh (some (cell (some i) q)) in
        ground (
          arith,
          load-ok h p np hp,
          load-ok h q nq hq,
          e,
          set_next-ok h fresh nf at q,
          set_next-ok h' p np (write_elsewhere h fresh p (some (cell (some i) q)) hp fp) fresh,
        )

  two_writes :
      (h : Memory (Node D)) (p a : Ptr) (c c' : Option (Node D))
      → a ≢ fresh
      → a ≢ p
      → write (write h fresh c) p c' a ≡ h a
  unfolding write
  two_writes h p a c c' nf np = ground arith

  pub insert_loop-Walked :
      (k : ℕ) (h : Memory (Node D)) (p : Ptr) (o : Option D) (xs : Cells D)
      → Linked h p o xs
      → Fresh fresh p xs
      → h fresh ≡ some (cell (some i) null)
      → length xs < k
      → Walked h p o xs k
  unfolding insert_loop place
  insert_loop-Walked zero h p o xs l f at fuel = absurd (omega arith)
  insert_loop-Walked (suc k) h p o [] (np, hp) f at fuel =
      ((p, none), rw (load-ok h p np hp, insert_loop), inl (refl, refl, refl))
  insert_loop-Walked (suc k) h p o ((q, d) ∷ xs) (np, hp, off, more) (nf, fp, (fq, fx)) at fuel =
      let (r, nq, hq) = first_cell h q (some d) xs more in
      elim (Bool-cases (compare i d)) [
        | inl e ↦ (
          (p, some (write (write h fresh (some (cell (some i) q))) p (some (cell o fresh)))),
          walk_stops k h p q r o d np hp nq hq e nf fp at,
          inr (
            write (write h fresh (some (cell (some i) q))) p (some (cell o fresh)),
            refl,
            rw (e, place) (joined h fresh p q i d o xs np (nf, fp, (fq, fx)) off more),
            rw (e, place),
            λ a nf' np' out. two_writes h p a _ _ nf' np',
          ),
        )
        | inr e ↦
            let (res, run, cases) =
              insert_loop-Walked k h q (some d) xs more (nf, fq, fx) at (omega arith) in
            (
              res,
              walk_on k h p q r o d np hp nq hq e ∙ run,
              elim cases [
                | inl (none_there, last, all) ↦ inl (none_there, last, rw (e, place, all))
                | inr (h'', done, l, ends, same) ↦ inr (
                  h'',
                  done,
                  rw (e, place)
                      (
                        np,
                        same p (λ x. fp (sym x)) off.0 off.1 ∙ hp,
                        (off.0, Apart-place compare p (fresh, i) xs (λ x. fp (sym x)) off.1),
                        l,
                      ),
                  rw (e, place) ends,
                  λ a nf' np' out. same a nf' out.0 out.1,
                )
              ],
            )
      ]
