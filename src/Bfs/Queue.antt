-- ===== src/Bfs/Queue.antt =====
-- The queue of BFS_File.c against the list of its files.
use linux_os_coding.Base.{
  ℕ, suc, ◌<◌, ◌≡◌, ◌≢◌, refl, sym, ap, ◌∙◌, Bool, false, ok, ◌>>=◌, none, some, List, [], ◌∷◌,
  ◌++◌, length, arith, ◌==◌, ==_iff, if◌then◌else◌,
}
use linux_os_coding.Memory.{Ptr, null, Memory, write}
use linux_os_coding.LinkList.{Node, cell, set_next}
use linux_os_coding.LinkList.Shape.{Cells, Apart, Linked, end, IsList, frame}
use linux_os_coding.LinkList.Place.{eqb_no, set_next-ok, write_elsewhere, written, Apart-end}
use linux_os_coding.LinkList.Insert.{append_lem}
use linux_os_coding.Bfs.{File, Dirent, State}

-- `malloc` never fails and never gives an address twice.
pub record Allocates (malloc : ℕ → Ptr) : Type 0 where
  pub given : (k : ℕ) → malloc k ≢ null
  pub distinct : (i j : ℕ) → malloc i ≡ malloc j → i ≡ j

abbrev pub data_of : Cells File → List File
data_of [] = []
data_of ((q, d) ∷ cs) = d ∷ data_of cs

pub data_of-append : (cs ds : Cells File) → data_of (cs ++ ds) ≡ data_of cs ++ data_of ds
data_of-append [] ds = refl
data_of-append ((q, d) ∷ cs) ds = ap (λ (xs : List File). d ∷ xs) (data_of-append cs ds)

-- Name and path of the entries fit into their arrays.
abbrev pub EntriesFit : File → List Dirent → Type 0
EntriesFit d [] = Unit
EntriesFit d (p ∷ entries) =
    (length p.0 < 256) × (length (d.pwd ++ b'/' ∷ p.0) < 512) × EntriesFit d entries

abbrev pub child : File → Dirent → File
child d p = record { name = p.0; type = p.1; pwd = d.pwd ++ b'/' ∷ p.0; height = suc d.height }

module _ (malloc : ℕ → Ptr) (al : Allocates malloc) where
  -- An address that `malloc` has given before the call `k`, and not in its first.
  abbrev pub Older : (k : ℕ) → Ptr → Type 0
  Older k a = (j : ℕ) × (0 < j) × (j < k) × (a ≡ malloc j)

  abbrev pub AllOlder : (k : ℕ) → Cells File → Type 0
  AllOlder k [] = Unit
  AllOlder k ((q, d) ∷ cs) = Older k q × AllOlder k cs

  -- The queue in memory holds these nodes.
  pub record Holds (s : State) (cs : Cells File) : Type 0 where
    pub is : IsList s.heap s.ends cs
    pub older : AllOlder s.calls cs
    pub first_call : s.ends.head ≡ malloc 0
    pub begun : 0 < s.calls

  pub Older-fresh : (k : ℕ) (a : Ptr) → Older k a → malloc k ≢ a
  Older-fresh k a (j, some_call, before, e) x =
      let same : k ≡ j = al.distinct k j (x ∙ e) in absurd (omega (arith, same))

  pub Older-head : (k : ℕ) (a : Ptr) → Older k a → a ≢ malloc 0
  Older-head k a (j, some_call, before, e) x =
      let same : j ≡ 0 = al.distinct j 0 (sym e ∙ x) in absurd (omega (arith, same))

  AllOlder-Apart : (k : ℕ) (cs : Cells File) → AllOlder k cs → Apart (malloc k) cs
  AllOlder-Apart k [] o = tt
  AllOlder-Apart k ((q, d) ∷ cs) (o, os) = (Older-fresh k q o, AllOlder-Apart k cs os)

  pub AllOlder-suc : (k : ℕ) (cs : Cells File) → AllOlder k cs → AllOlder (suc k) cs
  AllOlder-suc k [] o = tt
  AllOlder-suc k ((q, d) ∷ cs) ((j, some_call, before, e), os) =
      ((j, some_call, omega arith, e), AllOlder-suc k cs os)

  pub AllOlder-append :
      (k : ℕ) (cs : Cells File) (x : Ptr × File)
      → AllOlder k cs
      → Older k x.0
      → AllOlder k (cs ++ x ∷ [])
  AllOlder-append k [] x os o = (o, tt)
  AllOlder-append k ((q, d) ∷ cs) x (o', os) o = (o', AllOlder-append k cs x os o)

  -- A node outside the queue, which the queue's growth leaves alone.
  abbrev pub Outside : State → Cells File → Ptr → Type 0
  Outside s cs a = Older s.calls a × Apart a cs

  -- `s'` holds one node more, and has changed nothing outside.
  abbrev pub Grown : (a : Ptr) → State → Cells File → State → Cells File → Type 0
  Grown a s cs s' cs' = Holds s' cs' × Outside s' cs' a × (s'.heap a ≡ s.heap a)

  module _ (a : Ptr) (s : State) (file : File) (name_fits : length file.name < 256)
      (pwd_fits : length file.pwd < 512) where
    abbrev pub n : Ptr
    n = malloc s.calls

    abbrev pub h1 : Memory (Node File)
    h1 = write s.heap n (some (cell (some file) null))

    -- The memory behind the insertion, with the queue in it.
    abbrev pub Linking : Cells File → (set_head : Bool) → Type 0
    Linking cs set_head =
        (h3 : Memory (Node File)) × (((if set_head then set_next h1 s.ends.head n else ok h1)
            >>= λ h2. set_next h2 s.ends.rear n)
          ≡ ok h3)
        × Linked h3 s.ends.head none (cs ++ (n, file) ∷ [])
        × (end s.ends.head (cs ++ (n, file) ∷ []) ≡ n)
        × (h3 a ≡ h1 a)

    pub link :
        (cs : Cells File)
        → Holds s cs
        → a ≢ malloc 0
        → Apart a cs
        → Linking cs (s.ends.head == s.ends.rear)
    link [] hd na out =
        let p = s.ends.head in
        let (np, hp) = hd.is.linked in
        let end_is : s.ends.rear ≡ p = hd.is.rear_end in
        let not_head : n ≢ p = λ x. older_fresh_head x in
        let c = some (cell none n) in
        let at : h1 p ≡ some (cell none null) = write_elsewhere s.heap n p _ hp not_head in
        let first_write : set_next h1 p n ≡ ok (write h1 p c) = set_next-ok h1 p np at n in
        let again : set_next (write h1 p c) p n ≡ ok (write (write h1 p c) p c) =
          set_next-ok (write h1 p c) p np (written h1 p c) n in
        let apart_a : p ≢ a = λ x. na (sym x ∙ hd.first_call) in
        rw (end_is, (==_iff p p).1 refl)
          (
            write (write h1 p c) p c,
            rw first_write again,
            (
              np,
              written (write h1 p c) p c,
              ((λ x. not_head (sym x)), tt),
              (
                al.given s.calls,
                write_elsewhere (write h1 p c) p n c
                    (write_elsewhere h1 p n c (written s.heap n _) (λ x. not_head (sym x)))
                    (λ x. not_head (sym x)),
              ),
            ),
            refl,
            write_elsewhere (write h1 p c) p a c (write_elsewhere h1 p a c refl apart_a) apart_a,
          )
      where
        older_fresh_head : n ≢ s.ends.head
        older_fresh_head x =
            let same : s.calls ≡ 0 = al.distinct s.calls 0 (x ∙ hd.first_call) in
            absurd (omega (arith, same, hd.begun))
    link ((q, d) ∷ cs) hd na out =
        let p = s.ends.head in
        let l = hd.is.linked in
        let off = l.2 in
        let not_head : n ≢ p = fresh_head in
        let apart : Apart n ((q, d) ∷ cs) = AllOlder-Apart s.calls ((q, d) ∷ cs) hd.older in
        let (h3, run, l3, ends, same) =
          append_lem n file h1 p none ((q, d) ∷ cs)
            (frame s.heap n _ p none ((q, d) ∷ cs) not_head apart l)
            (al.given s.calls, not_head, apart) (written s.heap n _) in
        let not_end : (p == s.ends.rear) ≡ false =
          ap (λ (e : Ptr). p == e) hd.is.rear_end
          ∙ eqb_no p (end q cs) (Apart-end p q cs off.0 off.1) in
        rw (not_end, hd.is.rear_end) (h3, run, l3, ends, same a (λ x. na (x ∙ hd.first_call)) out)
      where
        fresh_head : n ≢ s.ends.head
        fresh_head x =
            let same : s.calls ≡ 0 = al.distinct s.calls 0 (x ∙ hd.first_call) in
            absurd (omega (arith, same, hd.begun))
