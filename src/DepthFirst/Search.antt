-- ===== src/DepthFirst/Search.antt =====
-- What the search finds, and what it passes by.
use linux_os_coding.Base.{
  ◌≡◌, ◌≢◌, ◌<◌, ◌⊎◌, refl, Bool, Bool-cases, inl, inr, true, false, Run, ok, Option, none, some,
  ◌>>=◌, List, [], ◌∷◌, ◌++◌, length, if◌then◌else◌, arith,
}
use linux_os_coding.Base.Int.{ℤ, pos, negsuc, eqb_ℤ}
use linux_os_coding.Base.Text.{Text, codes, str_eq, str_eq_iff, fill, fill-ok}
use linux_os_coding.DepthFirst.{
  Dir, closed, opened, Entries, end, file, dir, is_dot, print_file, search_entries, find_main,
}
use linux_os_coding.DepthFirst.Listing.{longest, longest_of, length-path}

-- An entry `name` other than `.` and `..` stands in the directory with the path `p`.
abbrev mutual
  pub Holds : (path : Text) → Dir → (name p : Text) → Type 0
  Holds path closed name p = ⊥
  Holds path (opened es) name p = Lists path es name p

  pub Lists : (path : Text) → Entries → (name p : Text) → Type 0
  Lists path end name p = ⊥
  Lists path (file d_name more) name p =
      ((is_dot d_name ≡ false) × (d_name ≡ name) × (p ≡ path)) ⊎ Lists path more name p
  Lists path (dir d_name d more) name p =
      ((is_dot d_name ≡ false)
        × (((d_name ≡ name) × (p ≡ path)) ⊎ Holds (path ++ b'/' ∷ d_name) d name p))
      ⊎ Lists path more name p

-- 1 comes with the path of a directory that has such an entry; else nothing is printed.
abbrev pub Found : (Text → Type 0) → ℤ × List Text → Type 0
Found P (r, out) =
    ((r ≡ pos 1) × (p : Text) × (out ≡ (p ++ b'\n' ∷ []) ∷ []) × P p)
    ⊎ (((r ≡ pos 0) ⊎ (r ≡ negsuc 0)) × (out ≡ []))

-- The run returns, and what it returns is right.
abbrev pub Answers : (Text → Type 0) → Run (ℤ × List Text) → Type 0
Answers P run = (out : ℤ × List Text) × (run ≡ ok out) × Found P out

widen :
    (P Q : Text → Type 0) (run : Run (ℤ × List Text))
    → ((p : Text) → P p → Q p)
    → Answers P run
    → Answers Q run
widen P Q run f (out, e, inl (one, p, printed, h)) = (out, e, inl (one, p, printed, f p h))
widen P Q run f (out, e, inr nothing) = (out, e, inr nothing)

-- The tests of an entry: `.` or `..`, or the name.
tests_lem :
    (P : Text → Type 0) (dot same : Bool) (path : Text) (rest below : Run (ℤ × List Text))
    → (dot ≡ false → same ≡ true → P path)
    → (dot ≡ true → Answers P rest)
    → (dot ≡ false → Answers P below)
    → Answers P
        (if dot then rest else if same then ok (pos 1, (path ++ b'\n' ∷ []) ∷ []) else below)
tests_lem P true same path rest below here on under = on refl
tests_lem P false true path rest below here on under =
    ((pos 1, (path ++ b'\n' ∷ []) ∷ []), refl, inl (refl, path, refl, here refl refl))
tests_lem P false false path rest below here on under = under refl

mutual
  unfolding print_file search_entries

  dir_lem :
      (path name : Text) (d : Dir)
      → longest (length path) d < 512
      → Answers (Holds path d name) (print_file path name d)
  dir_lem path name closed le = ((negsuc 0, []), refl, inr (inr refl, refl))
  dir_lem path name (opened es) le = entries_lem path name es le

  entries_lem :
      (path name : Text) (es : Entries)
      → longest_of (length path) es < 512
      → Answers (Lists path es name) (search_entries path name es)
  entries_lem path name end le = ((pos 0, []), refl, inr (inl refl, refl))
  entries_lem path name (file d_name more) le =
      let run = search_entries path name more in
      let rest =
        widen (Lists path more name) (Lists path (file d_name more) name) run (λ p h. inr h)
          (entries_lem path name more le) in
      tests_lem (Lists path (file d_name more) name) (is_dot d_name) (str_eq d_name name) path run
        run (λ no_dot same. inl (no_dot, (str_eq_iff d_name name).0 same, refl)) (λ dot. rest)
        (λ no_dot. rest)
  entries_lem path name (dir d_name d more) le =
      let run = search_entries path name more in
      let buf = path ++ b'/' ∷ d_name in
      let below = fill 512 buf >>= λ t. print_file t name d in
      tests_lem (Lists path (dir d_name d more) name) (is_dot d_name) (str_eq d_name name) path run
        below (λ no_dot same. inl (no_dot, inl ((str_eq_iff d_name name).0 same, refl)))
        (λ dot.
          widen (Lists path more name) (Lists path (dir d_name d more) name) run (λ p h. inr h)
            (entries_lem path name more (rw dot at le)))
        (λ no_dot.
          let le' = rw no_dot at le in
          let short : length buf < 512 = omega (arith, length-path path d_name) in
          let deep : longest (length buf) d < 512 = rw (length-path path d_name) (omega arith) in
          widen (Holds buf d name) (Lists path (dir d_name d more) name) below
            (λ p h. inl (no_dot, inr h)) (rw (fill-ok 512 buf short) (dir_lem buf name d deep)))

-- The lines of printFile.c: the path of a directory with the entry, "Not found!", or nothing.
abbrev pub Answered : (Text → Type 0) → List Text → Type 0
Answered P out =
    ((p : Text) × (out ≡ (p ++ b'\n' ∷ []) ∷ []) × P p)
    ⊎ ((out ≡ codes "Not found!\n" ∷ []) ⊎ (out ≡ []))

answered_lem :
    (P : Text → Type 0) (r : ℤ) (out : List Text)
    → Found P (r, out)
    → Answered P (if eqb_ℤ r (pos 0) then out ++ codes "Not found!\n" ∷ [] else out)
answered_lem P r out (inl (one, p, printed, h)) = inl (p, rw one printed, h)
answered_lem P r out (inr (inl zero_returned, nothing)) =
    inr (inl (rw (zero_returned, nothing) refl))
answered_lem P r out (inr (inr minus, nothing)) = inr (inr (rw (minus, nothing) refl))

-- Where every path to a directory below fits into `buf`, the program returns and prints the path of a
-- directory of the tree that has an entry with the name, or "Not found!", or nothing.
pub find_main-Answered :
    (path name : Text) (d : Dir)
    → longest (length path) d < 512
    → (out : List Text) × (find_main path name d ≡ ok out) × Answered (Holds path d name) out
unfolding find_main
find_main-Answered path name d le =
    let ((r, out), e, found) = dir_lem path name d le in
    (
      if eqb_ℤ r (pos 0) then out ++ codes "Not found!\n" ∷ [] else out,
      rw e refl,
      answered_lem (Holds path d name) r out found,
    )

-- Entries before others, each with what is below it if it has `d_type` 4.
abbrev pub listed : List (Text × Option Dir) → Entries → Entries
listed [] more = more
listed ((d_name, none) ∷ ns) more = file d_name (listed ns more)
listed ((d_name, some d) ∷ ns) more = dir d_name d (listed ns more)

-- None of them has the name and none is a subdirectory: each is `.` or `..`, or has another name and another type.
abbrev pub PassedBy : (name : Text) → List (Text × Option Dir) → Type 0
PassedBy name [] = Unit
PassedBy name ((d_name, kind) ∷ ns) =
    ((is_dot d_name ≡ true) ⊎ ((kind ≡ none) × (str_eq d_name name ≡ false))) × PassedBy name ns

skip_listed :
    (path name : Text) (ns : List (Text × Option Dir)) (more : Entries)
    → PassedBy name ns
    → search_entries path name (listed ns more) ≡ search_entries path name more
unfolding search_entries
skip_listed path name [] more h = refl
skip_listed path name ((d_name, none) ∷ ns) more (inl dot, h) =
    rw dot (skip_listed path name ns more h)
skip_listed path name ((d_name, some d) ∷ ns) more (inl dot, h) =
    rw dot (skip_listed path name ns more h)
skip_listed path name ((d_name, none) ∷ ns) more (inr (kind, other), h) =
    elim (Bool-cases (is_dot d_name)) [
      | inl dot ↦ rw dot (skip_listed path name ns more h)
      | inr no_dot ↦ rw (no_dot, other) (skip_listed path name ns more h)
    ]
skip_listed path name ((d_name, some d) ∷ ns) more (inr (kind, other), h) = absurd (cc kind)

not_found :
    (P : Text → Type 0) (r : ℤ) (out : List Text)
    → ((p : Text) → ¬ P p)
    → Found P (r, out)
    → r ≢ pos 1
not_found P r out none_there (inl (one, p, printed, h)) = absurd (none_there p h)
not_found P r out none_there (inr (inl a, nothing)) = λ e. ground (arith, a, e)
not_found P r out none_there (inr (inr a, nothing)) = λ e. ground (arith, a, e)

-- printFile searches a directory up to its first subdirectory only, `.` and `..` not counted: where no
-- entry before that has the name, nor it itself and none below it, and the paths to it and below it fit
-- into `buf`, it returns, and not 1, whatever entries come behind that subdirectory.
pub print_file-misses :
    (path name first : Text) (ns : List (Text × Option Dir)) (d : Dir) (more : Entries)
    → PassedBy name ns
    → is_dot first ≡ false
    → str_eq first name ≡ false
    → ((p : Text) → ¬ Holds (path ++ b'/' ∷ first) d name p)
    → longest (length path) (opened (dir first d end)) < 512
    → (r : ℤ) × (out : List Text) × (print_file path name (opened (listed ns (dir first d more)))
        ≡ ok (r, out))
      × (r ≢ pos 1)
unfolding print_file search_entries
print_file-misses path name first ns d more h no_dot other none_there le =
    let buf = path ++ b'/' ∷ first in
    let le' = rw no_dot at le in
    let short : length buf < 512 = omega (arith, length-path path first) in
    let deep : longest (length buf) d < 512 = rw (length-path path first) (omega arith) in
    let ((r, out), e, found) = dir_lem buf name d deep in
    (
      r,
      out,
      rw
          (
            skip_listed path name ns (dir first d more) h,
            search_entries,
            no_dot,
            other,
            fill-ok 512 buf short,
          )
          e,
      not_found (Holds buf d name) r out none_there found,
    )
