-- ===== src/Bfs/Level.antt =====
-- The tree is printed level by level.
use linux_os_coding.Base.{ℕ, zero, suc, ◌+◌, ◌<◌, ◌≡◌, Run, ok, Option, List, [], ◌∷◌, ◌++◌, length}
use linux_os_coding.Base.Text.{Text}
use linux_os_coding.Memory.{Ptr, Memory}
use linux_os_coding.LinkList.{Node}
use linux_os_coding.LinkList.Shape.{Cells}
use linux_os_coding.Bfs.{File, Dirent, State, print, bfs_loop}
use linux_os_coding.Bfs.Queue.{Allocates, data_of, Holds}
use linux_os_coding.Bfs.Round.{kids, Opens}

abbrev pub root : Text → File
root path = record { name = path; type = 4; pwd = path; height = 0 }

module _ (opendir : Text → Option (List Dirent)) where
  abbrev pub lines : List File → Text
  lines [] = []
  lines (d ∷ ds) = print d ++ lines ds

  -- The children of all files of a level.
  abbrev pub next_level : List File → List File
  next_level [] = []
  next_level (d ∷ ds) = kids opendir d ++ next_level ds

  -- The lines of `n` levels, one level after the other.
  abbrev pub levels : ℕ → List File → Text
  levels zero ds = []
  levels (suc n) ds = lines ds ++ levels n (next_level ds)

  abbrev pub count : ℕ → List File → ℕ
  count zero ds = 0
  count (suc n) ds = length ds + count n (next_level ds)

  abbrev pub AllOpen : List File → Type 0
  AllOpen [] = Unit
  AllOpen (d ∷ ds) = Opens opendir d × AllOpen ds

  -- There are at most `n` levels, each directory in them can be opened, and all texts fit.
  abbrev pub Tame : ℕ → List File → Type 0
  Tame zero ds = ds ≡ []
  Tame (suc n) ds = AllOpen ds × Tame n (next_level ds)

  abbrev pub Prints : Text → Run (Text × Memory (Node File)) → Type 0
  Prints out run = (h : Memory (Node File)) × (run ≡ ok (out, h))

  module _ (malloc : ℕ → Ptr) (al : Allocates malloc) where
    -- The loop with the levels `ds` in the queue.
    abbrev Walks : (n : ℕ) → Type 0
    Walks n =
        (ds : List File) (fuel : ℕ) (s : State) (cs : Cells File)
        → Holds malloc al s cs
        → data_of cs ≡ ds
        → Tame n ds
        → count n ds < fuel
        → Prints (levels n ds) (bfs_loop malloc opendir fuel s)

    abbrev first_or : File → List File → File
    first_or d [] = d
    first_or d (x ∷ xs) = x

    abbrev rest_of : List File → List File
    rest_of [] = []
    rest_of (x ∷ xs) = xs
