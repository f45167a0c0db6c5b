-- ===== src/DepthFirst.antt =====
-- wangdao/20180621/finddir.c and printFile.c: the listing of a directory tree in depth, and the search for
-- a name in one. The tree is what `opendir` and `readdir` give, directory by directory.
pub mod Listing
pub mod Search
mod Tests
use linux_os_coding.Base.{
  ℕ, ◌+◌, ◌-◌, Bool, true, false, ◌||◌, Run, ok, fault, ◌>>=◌, List, [], ◌∷◌, ◌++◌, replicate, ◌==◌,
  if◌then◌else◌,
}
use linux_os_coding.Base.Int.{ℤ, pos, negsuc, eqb_ℤ}
use linux_os_coding.Base.Text.{Text, codes, str_eq, fill}

-- A directory that `opendir` refuses, or the entries in the order of `readdir`. `dir` is an entry with
-- `d_type` 4, `file` any other.
mutual
  pub data Dir : Type 0 where
    closed : Dir
    opened : Entries → Dir

  pub data Entries : Type 0 where
    end : Entries
    file : (d_name : Text) → Entries → Entries
    dir : (d_name : Text) → Dir → Entries → Entries

abbrev pub is_dot : Text → Bool
is_dot d_name = str_eq d_name (codes ".") || str_eq d_name (codes "..")

-- `"%*s%s\n"` with a blank
abbrev pub line : (width : ℕ) → Text → Text
line width d_name = replicate (width - 1) b' ' ++ b' ' ∷ d_name ++ b'\n' ∷ []

-- The lines that are printed. `buff` has 512 bytes.
unfoldable mutual
  pub printdir : (path : Text) → (width : ℕ) → Dir → Run (List Text)
  printdir path width closed = ok []
  printdir path width (opened es) = print_entries path width es

  pub print_entries : (path : Text) → (width : ℕ) → Entries → Run (List Text)
  print_entries path width end = ok []
  print_entries path width (file d_name more) = do
    rest ← print_entries path width more
    ok (if is_dot d_name then rest else line width d_name ∷ rest)
  print_entries path width (dir d_name d more) =
      let rest = print_entries path width more in
      if is_dot d_name then rest else do
        buff ← fill 512 (path ++ b'/' ∷ d_name)
        below ← printdir buff (width + 4) d
        behind ← rest
        ok (line width d_name ∷ below ++ behind)

-- What is returned, and the lines that are printed. `buf` has 512 bytes.
unfoldable mutual
  pub print_file : (path file_name : Text) → Dir → Run (ℤ × List Text)
  print_file path file_name closed = ok (negsuc 0, [])
  print_file path file_name (opened es) = search_entries path file_name es

  pub search_entries : (path file_name : Text) → Entries → Run (ℤ × List Text)
  search_entries path file_name end = ok (pos 0, [])
  search_entries path file_name (file d_name more) =
      let rest = search_entries path file_name more in
      if is_dot d_name
      then rest
      else if str_eq d_name file_name
      then ok (pos 1, (path ++ b'\n' ∷ []) ∷ [])
      else rest
  search_entries path file_name (dir d_name d more) =
      let rest = search_entries path file_name more in
      let below = fill 512 (path ++ b'/' ∷ d_name) >>= λ buf. print_file buf file_name d in
      if is_dot d_name
      then rest
      else if str_eq d_name file_name
      then ok (pos 1, (path ++ b'\n' ∷ []) ∷ [])
      else below

-- `main` of printFile.c
unfoldable pub find_main : (path file_name : Text) → Dir → Run (List Text)
find_main path file_name d = do
  (r, out) ← print_file path file_name d
  ok (if eqb_ℤ r (pos 0) then out ++ codes "Not found!\n" ∷ [] else out)
