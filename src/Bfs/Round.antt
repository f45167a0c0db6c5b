-- ===== src/Bfs/Round.antt =====
-- One round of the loop: the first node leaves the queue, its children come in.
use linux_os_coding.Base.{
  ℕ, suc, ◌≡◌, ◌≢◌, refl, ap, ◌∙◌, Bool, true, false, ok, ◌>>=◌, Option, none, some, List, [], ◌∷◌,
  ◌++◌, map, append-nil, arith, ◌==◌, if◌then◌else◌,
}
use linux_os_coding.Base.Text.{Text}
use linux_os_coding.Memory.{Ptr, null, Memory, write, load-ok, free-ok}
use linux_os_coding.LinkList.{Node, cell}
use linux_os_coding.LinkList.Shape.{Cells, Apart, Linked, end, frame, first_cell}
use linux_os_coding.LinkList.Place.{eqb_no, set_next-ok, write_elsewhere, written}
use linux_os_coding.LinkList.Delete.{first}
use linux_os_coding.Bfs.{File, Dirent, State, read_dir, dequeue, expand, print, is_parent, bfs_loop}
use linux_os_coding.Bfs.Queue.{
  Allocates, data_of, EntriesFit, child, Holds, Older-head, Outside, Grown,
}
use linux_os_coding.Bfs.Insert.{fill_lem}

-- Without its first node the list hangs on the head.
unlink :
    (h : Memory (Node File)) (p q : Ptr) (d : File) (cs : Cells File)
    → Linked h p none ((q, d) ∷ cs)
    → (h q ≡ some (cell (some d) (first cs)))
      × (q ≢ null)
      × Apart q cs
      × Linked (write h p (some (cell none (first cs)))) p none cs
unlink h p q d [] (np, hp, off, (nq, hq)) = (hq, nq, tt, (np, written h p _))
unlink h p q d ((r, c) ∷ cs) (np, hp, off, (nq, hq, off_q, more)) =
    (hq, nq, off_q, (np, written h p _, off.1, frame h p _ r (some c) cs off.1.0 off.1.1 more))

head_of :
    (h : Memory (Node File)) (p q : Ptr) (d : File) (cs : Cells File)
    → Linked h p none ((q, d) ∷ cs)
    → (p ≢ null) × (h p ≡ some (cell none q)) × (p ≢ q)
head_of h p q d cs (np, hp, off, more) = (np, hp, off.0)

new_rear :
    (h : Memory (Node File)) (p q : Ptr) (d : File) (cs : Cells File)
    → Linked h p none ((q, d) ∷ cs)
    → (if first cs == null then p else end q cs) ≡ end p cs
new_rear h p q d [] l = refl
new_rear h p q d ((r, c) ∷ cs) (np, hp, off, (nq, hq, off_q, more)) =
    rw (eqb_no r null (first_cell h r (some c) cs more).1) refl

-- The children of a file, in the order of its directory.
abbrev pub kids_as : Bool → Option (List Dirent) → File → List File
kids_as false entries d = []
kids_as true none d = []
kids_as true (some entries) d = map (child d) entries

-- A directory that is to be opened can be, and the texts of its entries fit.
abbrev pub OpensAs : Bool → Option (List Dirent) → File → Type 0
OpensAs false entries d = Unit
OpensAs true none d = ⊥
OpensAs true (some entries) d = EntriesFit d entries

module _ (opendir : Text → Option (List Dirent)) where
  abbrev pub kids : File → List File
  kids d = kids_as (is_parent d) (opendir d.pwd) d

  abbrev pub Opens : File → Type 0
  Opens d = OpensAs (is_parent d) (opendir d.pwd) d

module _ (malloc : ℕ → Ptr) (al : Allocates malloc) (opendir : Text → Option (List Dirent)) where
  abbrev Expanded : Ptr → File → State → Cells File → Type 0
  Expanded a d s cs =
      (s' : State) × (new : Cells File) × (expand malloc opendir d s ≡ ok (some s'))
      × (data_of new ≡ kids opendir d)
      × Grown malloc al a s cs s' (cs ++ new)

  expand_lem :
      (a : Ptr) (d : File) (s : State) (cs : Cells File)
      → Opens opendir d
      → Holds malloc al s cs
      → Outside malloc al s cs a
      → Expanded a d s cs
  unfolding expand
  expand_lem a d s cs opens hd o = go (is_parent d) (opendir d.pwd) opens
    where
      go :
          (b : Bool) (entries : Option (List Dirent))
          → OpensAs b entries d
          → (s' : State) × (new : Cells File) × ((if b
                then elim entries [
                  | none ↦ ok none
                  | some es ↦ (read_dir malloc d es s >>= λ s'. ok (some s'))
                ]
                else ok (some s))
              ≡ ok (some s'))
            × (data_of new ≡ kids_as b entries d)
            × Grown malloc al a s cs s' (cs ++ new)
      go false entries h = (s, [], refl, refl, rw (append-nil cs) (hd, o, refl))
      go true none h = absurd h
      go true (some entries) h =
          let (s', new, run, e, g) = fill_lem malloc al a d entries s cs h hd o in
          (s', new, rw run refl, e, g)

  -- A round of the loop at a queue that is not empty.
  abbrev pub Round : ℕ → State → File → Cells File → Type 0
  Round fuel s d cs =
      (s' : State) × (new : Cells File) × (data_of new ≡ kids opendir d)
      × Holds malloc al s' (cs ++ new)
      × (bfs_loop malloc opendir (suc fuel) s
          ≡ (bfs_loop malloc opendir fuel s' >>= λ r. ok (print d ++ r.0, r.1)))

  pub round_lem :
      (fuel : ℕ) (s : State) (q : Ptr) (d : File) (cs : Cells File)
      → Opens opendir d
      → Holds malloc al s ((q, d) ∷ cs)
      → Round fuel s d cs
  unfolding bfs_loop dequeue
  round_lem fuel s q d cs opens hd =
      let p = s.ends.head in
      let l = hd.is.linked in
      let (np, hp, pq) = head_of s.heap p q d cs l in
      let (hq, nq, off, l1) = unlink s.heap p q d cs l in
      let h1 = write s.heap p (some (cell none (first cs))) in
      let rear = if first cs == null then p else s.ends.rear in
      let s1 : State = record {
        ends = record { head = p; rear = rear };
        heap = h1;
        calls = s.calls;
      } in
      let hq1 : h1 q ≡ some (cell (some d) (first cs)) = write_elsewhere s.heap p q _ hq pq in
      let hd1 : Holds malloc al s1 cs = record {
        is = record {
          linked = l1;
          rear_end =
              ap (λ (r : Ptr). if first cs == null then p else r) hd.is.rear_end
              ∙ new_rear s.heap p q d cs l;
        };
        older = hd.older.1;
        first_call = hd.first_call;
        begun = hd.begun;
      } in
      let (s2, new, run, e, (hd2, o2, same)) = expand_lem q d s1 cs opens hd1 (hd.older.0, off) in
      let not_head : q ≢ s2.ends.head =
        λ x. Older-head malloc al s2.calls q o2.0 (x ∙ hd2.first_call) in
      (
        record s2 { heap = write s2.heap q none },
        new,
        e,
        (record {
          is = record {
            linked = frame s2.heap q none s2.ends.head none (cs ++ new) not_head o2.1 hd2.is.linked;
            rear_end = hd2.is.rear_end;
          };
          older = hd2.older;
          first_call = hd2.first_call;
          begun = hd2.begun;
        }),
        ground (
          arith,
          load-ok s.heap p np hp,
          nq,
          load-ok s.heap q nq hq,
          set_next-ok s.heap p np hp (first cs),
          run,
          free-ok s2.heap q nq (same ∙ hq1),
        ),
      )
