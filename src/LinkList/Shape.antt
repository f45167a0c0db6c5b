-- ===== src/LinkList/Shape.antt =====
-- What a list in memory stands for: the nodes behind the head, each with its address and its data.
use linux_os_coding.Base.{◌≡◌, ◌≢◌, Option, none, some, List, [], ◌∷◌, arith}
use linux_os_coding.Memory.{Ptr, null, Memory, write}
use linux_os_coding.LinkList.{Node, Ends, cell}

abbrev pub Cells : Type 0 → Type 0
Cells D = List (Ptr × D)

module _ {D : Type 0} where
  abbrev pub Apart : Ptr → Cells D → Type 0
  Apart a [] = Unit
  Apart a ((b, d) ∷ xs) = (a ≢ b) × Apart a xs

  -- The node at `p` holds `o`, and behind it hang the nodes of `xs`, all of them distinct.
  abbrev pub Linked : Memory (Node D) → Ptr → Option D → Cells D → Type 0
  Linked h p o [] = (p ≢ null) × (h p ≡ some (cell o null))
  Linked h p o ((q, d) ∷ xs) =
      (p ≢ null) × (h p ≡ some (cell o q)) × Apart p ((q, d) ∷ xs) × Linked h q (some d) xs

  -- The address of the last node.
  abbrev pub end : Ptr → Cells D → Ptr
  end p [] = p
  end p ((q, d) ∷ xs) = end q xs

  pub record IsList (h : Memory (Node D)) (e : Ends) (xs : Cells D) : Type 0 where
    pub linked : Linked h e.head none xs
    pub rear_end : e.rear ≡ end e.head xs

  -- An address outside the list.
  abbrev pub Fresh : Ptr → Ptr → Cells D → Type 0
  Fresh a p xs = (a ≢ null) × (a ≢ p) × Apart a xs

  -- A write elsewhere leaves the list alone.
  pub frame :
      (h : Memory (Node D)) (a : Ptr) (c : Option (Node D)) (p : Ptr) (o : Option D) (xs : Cells D)
      → a ≢ p
      → Apart a xs
      → Linked h p o xs
      → Linked (write h a c) p o xs
  unfolding write
  frame h a c p o [] ne out (np, at) = (np, ground arith)
  frame h a c p o ((q, d) ∷ xs) ne out (np, at, off, more) =
      (np, ground arith, off, frame h a c q (some d) xs out.0 out.1 more)

  -- The data of a node may be read together with what it hangs on.
  pub first_cell :
      (h : Memory (Node D)) (p : Ptr) (o : Option D) (xs : Cells D)
      → Linked h p o xs
      → (q : Ptr) × (p ≢ null) × (h p ≡ some (cell o q))
  first_cell h p o [] (np, at) = (null, np, at)
  first_cell h p o ((q, d) ∷ xs) (np, at, off, more) = (q, np, at)
