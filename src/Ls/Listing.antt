-- ===== src/Ls/Listing.antt =====
-- `ls` of a directory: the files, sorted by name.
use linux_os_coding.Base.{ℕ, ◌<◌, ◌≡◌, true, Run, ok, some, List, [], ◌∷◌, ◌++◌, length}
use mathlib.Core.List.{Perm}
use mathlib.Core.List.Perm
use linux_os_coding.Base.Text.{Text}
use linux_os_coding.Memory.{Ptr, Memory}
use linux_os_coding.LinkList.{Node}
use linux_os_coding.LinkList.Shape.{Cells, IsList, Fresh}
use linux_os_coding.LinkList.Sorting.{IsSorted, data_of}
use linux_os_coding.Ls.{FileData, Entry, compare, Found, larger, read_loop}

-- The entries of files whose state is found.
abbrev pub entries : Cells FileData → List Entry
entries [] = []
entries ((q, d) ∷ xs) = record { d_name = d.name; found = some d.state; fresh = q } ∷ entries xs

-- Every name has room in its array, and so has the path to it.
abbrev pub NamesFit : Text → Cells FileData → Type 0
NamesFit path [] = Unit
NamesFit path ((q, d) ∷ xs) =
    (length (path ++ b'/' ∷ d.name) < 512) × (length d.name < 256) × NamesFit path xs

-- Memory that is in no node of the list `ys` behind `p`, nor twice in `xs`.
abbrev pub Unused : Ptr → Cells FileData → Cells FileData → Type 0
Unused p ys [] = Unit
Unused p ys ((q, d) ∷ xs) = Fresh q p ys × Unused p ((q, d) ∷ ys) xs

abbrev pub largest : ℕ → Cells FileData → ℕ
largest size [] = size
largest size ((q, d) ∷ xs) = largest (larger d.state.st_size size) xs

abbrev Listed : ℕ → Text → Cells FileData → Found → Cells FileData → Type 0
Listed fuel path xs s ys =
    (s' : Found) × (zs : Cells FileData) × (read_loop fuel path (entries xs) s ≡ ok (true, s'))
    × IsList s'.heap s'.ends zs
    × (s'.ends.head ≡ s.ends.head)
    × IsSorted compare (data_of zs)
    × Perm zs (xs ++ ys)
    × (length zs < fuel)
    × (s'.size_file ≡ largest s.size_file xs)

abbrev shows : Text → Memory (Node FileData) → Run (Text × Memory (Node FileData))
shows out h = ok (out, h)
