-- ===== src/LinkList/Sorting.antt =====
-- A list that is built by `listSortInsert` is sorted.
use linux_os_coding.Base.{
  suc, ◌≡◌, refl, ap, Bool, true, false, List, [], ◌∷◌, length, inl, inr, Bool-cases,
}
use mathlib.Core.List.{Perm}
use mathlib.Core.List.Perm
use linux_os_coding.Memory.{Ptr}
use linux_os_coding.LinkList.Shape.{Cells}
use linux_os_coding.LinkList.Place.{place}

module _ {D : Type 0} where
  abbrev pub data_of : Cells D → List D
  data_of [] = []
  data_of ((q, d) ∷ xs) = d ∷ data_of xs

module _ {D : Type 0} (compare : D → D → Bool) where
  -- Of two neighbours the second does not belong in front of the first.
  abbrev pub IsSorted : List D → Type 0
  IsSorted [] = Unit
  IsSorted (d ∷ []) = Unit
  IsSorted (d ∷ c ∷ ds) = (compare c d ≡ false) × IsSorted (c ∷ ds)

  pub place-perm : (n : Ptr × D) (xs : Cells D) → Perm (place compare n xs) (n ∷ xs)
  unfolding place
  place-perm n [] = Perm.refl _
  place-perm n (x ∷ xs) = elim (Bool-cases (compare n.1 x.1)) [
    | inl e ↦ rw (e, place) (Perm.refl _)
    | inr e ↦ rw (e, place) (Perm.trans (Perm.cons x (place-perm n xs)) (Perm.swap n x xs))
  ]

  pub length-place : (n : Ptr × D) (xs : Cells D) → length (place compare n xs) ≡ suc (length xs)
  unfolding place
  length-place n [] = refl
  length-place n (x ∷ xs) = elim (Bool-cases (compare n.1 x.1)) [
    | inl e ↦ rw (e, place) refl
    | inr e ↦ rw (e, place) (ap suc (length-place n xs))
  ]

  module _ (asym : (d c : D) → compare d c ≡ true → compare c d ≡ false) where
    -- Below the head, `place` puts its node behind the head or keeps the neighbour.
    below :
        (n : Ptr × D) (d : D) (xs : Cells D)
        → compare n.1 d ≡ false
        → IsSorted (d ∷ data_of xs)
        → IsSorted (d ∷ data_of (place compare n xs))
    unfolding place
    below n d [] e s = (e, tt)
    below n d ((r, c) ∷ xs) e s = elim (Bool-cases (compare n.1 c)) [
      | inl e' ↦ rw (e', place) (e, (asym n.1 c e', s.1))
      | inr e' ↦ rw (e', place) (s.0, below n c xs e' s.1)
    ]

    pub place-IsSorted :
        (n : Ptr × D) (xs : Cells D)
        → IsSorted (data_of xs)
        → IsSorted (data_of (place compare n xs))
    unfolding place
    place-IsSorted n [] s = tt
    place-IsSorted n ((q, d) ∷ xs) s = elim (Bool-cases (compare n.1 d)) [
      | inl e ↦ rw (e, place) (asym n.1 d e, s)
      | inr e ↦ rw (e, place) (below n d xs e s)
    ]
