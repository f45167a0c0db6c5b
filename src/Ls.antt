-- ===== src/Ls.antt =====
-- wangdao/20180621/ls_task/ls.c: the list of the files of a directory, sorted by name. The directory
-- is the sequence of what `readdir` gives, with the answer of `stat` for each name. What `perror` prints
-- is left out.
pub mod Names
pub mod Mode
pub mod Lines
pub mod Listing
mod Tests
use linux_os_coding.Base.{
  ℕ, zero, suc, ◌+◌, ◌-◌, ◌*◌, ◌/◌, ◌%◌, ◌^◌, Bool, true, false, Run, ok, fault, ◌>>=◌, Option,
  none, some, ◌==◌, if◌then◌else◌, ltb, List, [], ◌∷◌, ◌++◌, length, drop, replicate,
}
use linux_os_coding.Base.Text.{Text, codes, fill, at, print_int}
use linux_os_coding.Base.Int.{ℤ, pos, negsuc}
use linux_os_coding.Memory.{Ptr, null, Memory, load}
use linux_os_coding.LinkList.{Node, Ends, item_of, init_list, list_sort_insert, delete_list}

-- The fields of `struct stat` that are printed. A size is not negative.
pub record Stat : Type 0 where
  pub st_mode : ℕ
  pub st_nlink : ℕ
  pub st_uid : ℕ
  pub st_gid : ℕ
  pub st_size : ℕ
  pub st_mtime : ℤ

-- `dataType`
pub record FileData : Type 0 where
  pub name : Text
  pub state : Stat

-- `ctime`, and the names that `getpwuid` and `getgrgid` find, if any.
pub record Env : Type 0 where
  pub ctime : ℤ → Text
  pub user_name : ℕ → Option Text
  pub group_name : ℕ → Option Text

-- A turn of the loop over the directory: the name that `readdir` gives, what `stat` finds under it, and
-- what `malloc` returns for the node.
pub record Entry : Type 0 where
  pub d_name : Text
  pub found : Option Stat
  pub fresh : Ptr

-- `strcmp(s, t) < 0`
unfoldable pub text_less : Text → Text → Bool
text_less [] [] = false
text_less [] (d ∷ t) = true
text_less (c ∷ s) [] = false
text_less (c ∷ s) (d ∷ t) =
    let rest = text_less s t in if ltb c d then true else if c == d then rest else false

abbrev pub compare : FileData → FileData → Bool
compare new old = text_less new.name old.name

-- The loop of `getFileName`: the last index with a slash, or 0.
unfoldable pub last_slash : Text → ℕ → ℕ
last_slash path zero = 0
last_slash path (suc i) = if at path (suc i) == b'/' then suc i else last_slash path i

-- Of an empty path the code reads the byte in front of it.
unfoldable pub get_file_name : (cap : ℕ) → Text → Run Text
get_file_name cap [] = fault
get_file_name cap (c ∷ s) =
    let i = last_slash (c ∷ s) (length s) in fill cap (drop (if i == 0 then 0 else i + 1) (c ∷ s))

-- `root & st_mode` is not 0, for a power of two.
abbrev pub mode_bit : (root : ℕ) → ℕ → ℕ → ℕ
mode_bit root letter st_mode = if st_mode / root % 2 == 1 then letter else b'-'

-- The loop of `getMode` with its rounds left.
unfoldable pub mode_loop : (rounds : ℕ) → (root : ℕ) → ℕ → Text
mode_loop zero root st_mode = []
mode_loop (suc rounds) root st_mode =
    mode_bit (root / 2) b'r' st_mode
    ∷ mode_bit (root / 2 / 2) b'w' st_mode
    ∷ mode_bit (root / 2 / 2 / 2) b'x' st_mode
    ∷ mode_loop rounds (root / 2 / 2 / 2) st_mode

abbrev pub type_letter : ℕ → ℕ
type_letter type = if type == 4 then b'-' else if type == 2 then b'd' else b'K'

unfoldable pub get_mode : ℕ → Text
get_mode st_mode = type_letter (st_mode / 2 ^ 13 % 8) ∷ mode_loop 3 (2 ^ 9) st_mode

-- `while (n != 0) { count++; n /= 10; }`. A number of `f` digits at most needs fuel `f`; 20 are enough
-- for 64 bits.
unfoldable pub digits : ℕ → ℕ → ℕ
digits zero n = 0
digits (suc f) n = let rest = digits f (n / 10) in if n == 0 then 0 else suc rest

-- `%*s` of the empty string: a negative width is taken without its sign.
abbrev pub pad : ℕ → ℕ → Text
pad width used = replicate ((width - used) + (used - width)) b' '

-- What follows the position in `str`, of fixed length.
abbrev pub bytes : Text → (from count : ℕ) → Text
bytes str from zero = []
bytes str from (suc count) = at str from ∷ bytes str (suc from) count

-- `getpwuid(uid)->pw_name`
abbrev pub known : Option Text → Run Text
known none = fault
known (some name) = ok name

unfoldable pub print_file_state : Env → Text → Stat → (size_print : ℕ) → Run Text
unfolding get_mode mode_loop digits
print_file_state env name s size_print = do
  str ← fill 50 (env.ctime s.st_mtime)
  user ← known (env.user_name s.st_uid)
  group ← known (env.group_name s.st_gid)
  ok (
      get_mode s.st_mode
      ++ b' ' ∷ print_int (pos s.st_nlink)
      ++ b' ' ∷ user
      ++ b' ' ∷ group
      ++ b' '
        ∷ (pad size_print (digits 20 s.st_size)
            ++ print_int (pos s.st_size)
            ++ b' ' ∷ bytes str 4 3
            ++ b' ' ∷ (bytes str 8 2 ++ b' ' ∷ bytes str 11 5 ++ b' ' ∷ name ++ b'\n' ∷ [])))

-- The loop of `printFileList` at `p`: what is printed, behind `out`.
unfoldable pub print_file_list :
    Env → ℕ → (p : Ptr) → (size_print : ℕ) → Memory (Node FileData) → (out : Text) → Run Text
print_file_list env zero p size_print h out = fault
print_file_list env (suc k) p size_print h out = load h p >>= λ n. elim (n.next == null) [
  | true ↦ ok out
  | false ↦ load h n.next >>= λ m. item_of m >>= λ d.
      print_file_state env d.name d.state size_print >>= λ line.
      print_file_list env k n.next size_print h (out ++ line)
]

-- What the loop over the directory keeps.
pub record Found : Type 0 where
  pub ends : Ends
  pub heap : Memory (Node FileData)
  pub size_file : ℕ

abbrev pub larger : ℕ → ℕ → ℕ
larger size size_file = if ltb size_file size then size else size_file

-- `false`: a file without a state ends the listing. `fuel` is that of the walk along the list.
unfoldable pub read_loop : (fuel : ℕ) → (path : Text) → List Entry → Found → Run (Bool × Found)
read_loop fuel path [] s = ok (true, s)
read_loop fuel path (x ∷ xs) s = fill 512 (path ++ b'/' ∷ x.d_name) >>= λ file_path. elim x.found [
  | none ↦ ok (false, s)
  | some state ↦ fill 256 x.d_name >>= λ name.
      list_sort_insert compare fuel x.fresh s.ends (record { name = name; state = state }) s.heap
      >>= λ (ends, heap).
          read_loop fuel path xs
            (record { ends = ends; heap = heap; size_file = larger state.st_size s.size_file })
]

-- What `opendir` and `stat` find under the path.
pub data Target : Type 0 where
  directory : List Entry → Target
  file : Stat → Target
  missing : Target

-- What is printed, and the memory. `fresh` and `lost` are the two nodes of `InitList`.
unfoldable pub ls :
    Env
    → Text
    → Target
    → (fresh lost : Ptr) → Memory (Node FileData)
    → Run (Text × Memory (Node FileData))
ls env path (file state) fresh lost h = do
  name ← get_file_name 512 path
  out ← print_file_state env name state 0
  ok (out, h)
ls env path missing fresh lost h = ok ([], h)
ls env path (directory xs) fresh lost h =
    let fuel = length xs + 1 in
    init_list fresh lost h >>= λ start. elim start [
      | none ↦ ok ([], h)
      | some (ends, heap) ↦
          read_loop fuel path xs (record { ends = ends; heap = heap; size_file = 0 })
          >>= λ (all, s). elim all [
            | false ↦ ok ([], s.heap)
            | true ↦ do
              out ← print_file_list env fuel s.ends.head (digits 20 s.size_file) s.heap []
              h' ← delete_list fuel s.ends s.heap
              ok (out, h')
          ]
    ]
