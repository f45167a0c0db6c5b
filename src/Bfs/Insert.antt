-- ===== src/Bfs/Insert.antt =====
-- Files come into the queue.
use linux_os_coding.Base.{
  ℕ, suc, ◌<◌, ◌≡◌, ◌≢◌, refl, sym, ap, ◌∙◌, Run, ok, fault, ◌>>=◌, List, [], ◌∷◌, ◌++◌, map,
  length, append_assoc, append-nil, arith, ◌==◌, if◌then◌else◌,
}
use linux_os_coding.Base.Text.{fill-ok}
use linux_os_coding.Memory.{Ptr, null, write}
use linux_os_coding.LinkList.{set_next}
use linux_os_coding.LinkList.Shape.{Cells, Apart}
use linux_os_coding.LinkList.Place.{eqb_no, write_elsewhere, Apart-append}
use linux_os_coding.Bfs.{File, Dirent, State, list_tail_insert, read_dir}
use linux_os_coding.Bfs.Queue.{
  Allocates, data_of, EntriesFit, child, Holds, Older-fresh, Older-head, AllOlder-suc,
  AllOlder-append, Outside, Grown, link,
}

-- A sequence of three whose first two parts are known together.
join :
    {A B C : Type 0} (m : Run A) (f : A → Run B) (g : B → Run C) {b : B} {c : C}
    → (m >>= f) ≡ ok b
    → g b ≡ ok c
    → (m >>= λ a. f a >>= g) ≡ ok c
join (ok a) f g e k = rw e k
join fault f g e k = cc

module _ (malloc : ℕ → Ptr) (al : Allocates malloc) where
  -- `listTailInsert` of a file whose texts fit puts it behind the others. The memory at `a` stays.
  abbrev pub Inserted : Ptr → State → Cells File → File → Type 0
  Inserted a s cs file =
      (s' : State) × (list_tail_insert malloc file s ≡ ok s')
      × (s'.calls ≡ suc s.calls)
      × Holds malloc al s' (cs ++ (malloc s.calls, file) ∷ [])
      × (s'.heap a ≡ s.heap a)

  pub insert_lem :
      (a : Ptr) (s : State) (cs : Cells File) (file : File)
      → length file.name < 256
      → length file.pwd < 512
      → Holds malloc al s cs
      → malloc s.calls ≢ a
      → a ≢ malloc 0
      → Apart a cs
      → Inserted a s cs file
  unfolding list_tail_insert
  insert_lem a s cs file name_fits pwd_fits hd not_a na out =
      let n = malloc s.calls in
      let (h3, run, l, ends, same) = link malloc al a s file name_fits pwd_fits cs hd na out in
      (
        record { ends = record (s.ends) { rear = n }; heap = h3; calls = suc s.calls },
        rw
            (
              eqb_no n null (al.given s.calls),
              fill-ok 256 file.name name_fits,
              fill-ok 512 file.pwd pwd_fits,
            )
            (join
              (if s.ends.head == s.ends.rear
                then set_next (write s.heap n _) s.ends.head n
                else ok (write s.heap n _))
              (λ h2. set_next h2 s.ends.rear n)
              (λ h2.
                ok (record { ends = record (s.ends) { rear = n }; heap = h2; calls = suc s.calls }))
              run refl),
        refl,
        (record {
          is = record { linked = l; rear_end = sym ends };
          older =
              AllOlder-append malloc al (suc s.calls) cs (n, file)
                (AllOlder-suc malloc al s.calls cs hd.older) (s.calls, hd.begun, omega arith, refl);
          first_call = hd.first_call;
          begun = omega arith;
        }),
        same ∙ write_elsewhere s.heap n a _ refl not_a,
      )

  -- The same of a node that has left the queue.
  grow_lem :
      (a : Ptr) (s : State) (cs : Cells File) (file : File)
      → length file.name < 256
      → length file.pwd < 512
      → Holds malloc al s cs
      → Outside malloc al s cs a
      → (s' : State) × (list_tail_insert malloc file s ≡ ok s')
        × Grown malloc al a s cs s' (cs ++ (malloc s.calls, file) ∷ [])
  grow_lem a s cs file name_fits pwd_fits hd (o, out) =
      let n = malloc s.calls in
      let not_a : n ≢ a = Older-fresh malloc al s.calls a o in
      let (s', run, count, hd', same) =
        insert_lem a s cs file name_fits pwd_fits hd not_a (Older-head malloc al s.calls a o) out in
      let (j, some_call, before, e) = o in
      (
        s',
        run,
        (
          hd',
          (
            (j, some_call, omega (arith, count), e),
            Apart-append a (n, file) cs (λ x. not_a (sym x)) out,
          ),
          same,
        ),
      )

  -- The children of `d` come in, in the order of the directory.
  abbrev pub Filled : Ptr → File → List Dirent → State → Cells File → Type 0
  Filled a d entries s cs =
      (s' : State) × (new : Cells File) × (read_dir malloc d entries s ≡ ok s')
      × (data_of new ≡ map (child d) entries)
      × Grown malloc al a s cs s' (cs ++ new)

  pub fill_lem :
      (a : Ptr) (d : File) (entries : List Dirent) (s : State) (cs : Cells File)
      → EntriesFit d entries
      → Holds malloc al s cs
      → Outside malloc al s cs a
      → Filled a d entries s cs
  unfolding read_dir
  fill_lem a d [] s cs fits hd o = (s, [], refl, refl, rw (append-nil cs) (hd, o, refl))
  fill_lem a d (p ∷ entries) s cs (name_fits, path_fits, fits) hd o =
      let x = child d p in
      let (s1, run1, (hd1, o1, same1)) = grow_lem a s cs x name_fits path_fits hd o in
      let (s2, new, run2, e, (hd2, o2, same2)) =
        fill_lem a d entries s1 (cs ++ (malloc s.calls, x) ∷ []) fits hd1 o1 in
      let shift : (cs ++ (malloc s.calls, x) ∷ []) ++ new ≡ cs ++ (malloc s.calls, x) ∷ new =
        append_assoc cs ((malloc s.calls, x) ∷ []) new in
      (
        s2,
        (malloc s.calls, x) ∷ new,
        rw (fill-ok 512 (d.pwd ++ b'/' ∷ p.0) path_fits, run1) run2,
        ap (λ (xs : List File). x ∷ xs) e,
        (rw shift at hd2, (o2.0, rw shift at o2.1), same2 ∙ same1),
      )
