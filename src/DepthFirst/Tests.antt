-- ===== src/DepthFirst/Tests.antt =====
-- Tests of the module DepthFirst: a directory `d` with the file `a` beside the file `b`.
use linux_os_coding.Base.{
  inl, inr, Option, none, some, ◌≡◌, ◌≢◌, refl, ltb, ok, fault, List, [], ◌∷◌, map, length,
  if◌then◌else◌, arith,
}
use linux_os_coding.Base.Int.{ℤ, pos}
use linux_os_coding.Base.Text.{Text, codes, str_eq, str_eq_iff, fill}
use linux_os_coding.DepthFirst.{
  Dir, closed, opened, end, file, dir, printdir, print_entries, print_file, search_entries,
  find_main,
}
use linux_os_coding.DepthFirst.Listing.{preorder, longest, row_line, printdir-preorder}
use linux_os_coding.DepthFirst.Search.{
  Holds, Answered, find_main-Answered, listed, print_file-misses,
}

abbrev below_d : Dir
below_d = opened (file (codes ".") (file (codes "a") end))

abbrev tree : Dir
tree = opened (dir (codes "..") closed (dir (codes "d") below_d (file (codes "b") end)))

tree_printed :
    printdir (codes "t") 4 tree ≡ ok (codes "    d\n" ∷ codes "        a\n" ∷ codes "    b\n" ∷ [])
unfolding printdir print_entries fill str_eq
tree_printed = refl

-- The file `b` behind the directory is not found.
missed : find_main (codes "t") (codes "b") tree ≡ ok (codes "Not found!\n" ∷ [])
unfolding find_main print_file search_entries fill str_eq
missed = refl

printdir-preorder_example : printdir (codes "t") 4 tree ≡ (
    if ltb (longest (length (codes "t")) tree) 512
    then ok (map row_line (preorder 0 tree))
    else fault)
printdir-preorder_example = printdir-preorder (codes "t") 0 tree

find_main-Answered_example :
    (out : List Text) × (find_main (codes "t") (codes "a") tree ≡ ok out)
    × Answered (Holds (codes "t") tree (codes "a")) out
unfolding str_eq
find_main-Answered_example = find_main-Answered (codes "t") (codes "a") tree (omega arith)

absent : (p : Text) → ¬ Holds (codes "t/d") below_d (codes "b") p
unfolding str_eq
absent p (inl (no_dot, same, at_path)) = absurd (ground (arith, no_dot))
absent p (inr (inl (no_dot, same, at_path))) =
    absurd (ground (arith, (str_eq_iff (codes "a") (codes "b")).1 same))
absent p (inr (inr nothing)) = nothing

-- `.`, `..` and a file.
abbrev before : List (Text × Option Dir)
before = (codes ".", some below_d) ∷ (codes "..", some closed) ∷ (codes "c", none) ∷ []

print_file-misses_example :
    (r : ℤ) × (out : List Text) × (print_file
        (codes "t")
        (codes "b")
        (opened (listed before (dir (codes "d") below_d (file (codes "b") end))))
      ≡ ok (r, out))
    × (r ≢ pos 1)
unfolding str_eq
print_file-misses_example =
    print_file-misses (codes "t") (codes "b") (codes "d") before below_d (file (codes "b") end)
      (inl refl, (inl refl, (inr (refl, refl), tt))) refl refl absent (omega arith)
