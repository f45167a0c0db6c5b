-- ===== src/Bfs.antt =====
-- wangdao/20180624/BFS_File.c: a directory tree, printed level by level with a queue of nodes in memory.
-- The nodes are LinkList's. `malloc k` is what the call with the number `k` returns; `opendir` gives names
-- and types of the entries, or fails. The walk runs on fuel, one node a round, and faults where it runs
-- out.
pub mod Queue
pub mod Insert
pub mod Round
pub mod Level
mod Tests
use linux_os_coding.Base.{
  ℕ, zero, suc, ◌+◌, ◌*◌, Bool, true, false, not, ◌&&◌, Run, ok, fault, ◌>>=◌, Option, none, some,
  List, [], ◌∷◌, ◌++◌, replicate, ◌==◌, if◌then◌else◌,
}
use linux_os_coding.Base.Text.{Text, codes, str_eq, fill}
use linux_os_coding.Memory.{Ptr, null, Memory, write, load, free}
use linux_os_coding.LinkList.{Node, Ends, cell, item_of, set_next}

-- The data of a node. `type` 4 is `DT_DIR`.
pub record File : Type 0 where
  pub name : Text
  pub type : ℕ
  pub pwd : Text
  pub height : ℕ

-- `d_name` and `d_type`
abbrev pub Dirent : Type 0
Dirent = Text × ℕ

-- The two pointers, the memory, and the number of the next call of `malloc`.
pub record State : Type 0 where
  pub ends : Ends
  pub heap : Memory (Node File)
  pub calls : ℕ

-- A directory other than `.` and `..`
abbrev pub is_parent : File → Bool
is_parent d = (d.type == 4) && not (str_eq d.name (codes ".")) && not (str_eq d.name (codes ".."))

-- The line of a node.
unfoldable pub print : File → Text
print d = replicate (d.height * 4) b' ' ++ d.name ++ b'\n' ∷ []

-- The node behind the head leaves the queue.
unfoldable pub dequeue : Ptr → Node File → State → Run State
dequeue ptr n s = do
  h ← set_next s.heap s.ends.head n.next
  ok (record s {
    ends = record (s.ends) { rear = (if n.next == null then s.ends.head else s.ends.rear) };
    heap = h;
  })

module _ (malloc : ℕ → Ptr) where
  -- A node that there is no memory for is left out. The two arrays hold 256 and 512 bytes.
  unfoldable pub list_tail_insert : File → State → Run State
  list_tail_insert file s =
      let n = malloc s.calls in
      if n == null then ok (record s { calls = suc s.calls }) else do
        name ← fill 256 file.name
        pwd ← fill 512 file.pwd
        let h = write s.heap n (some (cell (some (record file { name = name; pwd = pwd })) null))
        h1 ← (if s.ends.head == s.ends.rear then set_next h s.ends.head n else ok h)
        h2 ← set_next h1 s.ends.rear n
        ok (record { ends = record (s.ends) { rear = n }; heap = h2; calls = suc s.calls })

  -- `filePath` has 512 bytes.
  unfoldable pub read_dir : File → List Dirent → State → Run State
  read_dir d [] s = ok s
  read_dir d (p ∷ entries) s = do
    file_path ← fill 512 (d.pwd ++ b'/' ∷ p.0)
    s' ←
        list_tail_insert (record { name = p.0; type = p.1; pwd = file_path; height = suc d.height })
          s
    read_dir d entries s'

  -- The children of a directory are put into the queue; `none` where it cannot be opened.
  unfoldable pub expand :
      (opendir : Text → Option (List Dirent)) → File → State → Run (Option State)
  expand opendir d s =
      if is_parent d
      then elim (opendir d.pwd) [
        | none ↦ ok none
        | some entries ↦ (read_dir d entries s >>= λ s'. ok (some s'))
      ]
      else ok (some s)

  -- What is printed, and what is left of the memory. A directory that cannot be opened ends the walk.
  unfoldable pub bfs_loop :
      (opendir : Text → Option (List Dirent)) → ℕ → State → Run (Text × Memory (Node File))
  bfs_loop opendir zero s = fault
  bfs_loop opendir (suc fuel) s = load s.heap s.ends.head >>= λ first. elim (first.next == null) [
    | true ↦ (free s.heap s.ends.head >>= λ h. ok ([], h))
    | false ↦ do
      n ← load s.heap first.next
      d ← item_of n
      s1 ← dequeue first.next n s
      expanded ← expand opendir d s1
      elim expanded [
        | none ↦ ok (print d, s1.heap)
        | some s2 ↦ do
          h ← free s2.heap first.next
          (out, h') ← bfs_loop opendir fuel (record s2 { heap = h })
          ok (print d ++ out, h')
      ]
  ]

  unfoldable pub bfs_file :
      (opendir : Text → Option (List Dirent))
      → (fuel : ℕ) → (path : Text) → Memory (Node File)
      → Run (Text × Memory (Node File))
  bfs_file opendir fuel path h =
      let head = malloc 0 in
      if head == null then ok ([], h) else do
        s ←
            list_tail_insert (record { name = path; type = 4; pwd = path; height = 0 })
              (record {
                ends = record { head = head; rear = head };
                heap = write h head (some (cell none null));
                calls = 1;
              })
        bfs_loop opendir fuel s
