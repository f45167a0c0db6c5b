-- ===== src/Bfs/Tests.antt =====
-- A directory with a file and a directory.
use linux_os_coding.Base.{ℕ, suc, Option, none, some, List, [], ◌∷◌, ◌++◌, if◌then◌else◌}
use linux_os_coding.Base.Text.{Text, codes, str_eq}
use linux_os_coding.Memory.{Ptr}
use linux_os_coding.Bfs.{Dirent}

abbrev dots : List Dirent
dots = (codes ".", 4) ∷ (codes "..", 4) ∷ []

abbrev tree : Text → Option (List Dirent)
tree path =
    if str_eq path (codes "d")
    then some (dots ++ (codes "a", 8) ∷ (codes "s", 4) ∷ [])
    else if str_eq path (codes "d/s")
    then some (dots ++ (codes "b", 8) ∷ [])
    else none

abbrev next_address : ℕ → Ptr
next_address k = suc k
