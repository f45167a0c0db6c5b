-- ===== src/DepthFirst/Listing.antt =====
-- The listing is the tree in pre-order.
use Prim.Native.Nat.{max}
use linux_os_coding.Base.{
  ℕ, suc, ◌+◌, ◌*◌, ◌≡◌, refl, ap, ◌∙◌, Bool, Bool-cases, inl, inr, true, false, ltb, Run, ok,
  fault, ◌>>=◌, List, [], ◌∷◌, ◌++◌, map, length, length-append, if◌then◌else◌, arith,
}
use linux_os_coding.Base.Text.{Text, fill}
use linux_os_coding.DepthFirst.{
  Dir, closed, opened, Entries, end, file, dir, is_dot, line, printdir, print_entries,
}

-- The names below a directory in pre-order, each with its depth.
abbrev mutual
  pub preorder : (depth : ℕ) → Dir → List (ℕ × Text)
  preorder depth closed = []
  preorder depth (opened es) = rows depth es

  pub rows : (depth : ℕ) → Entries → List (ℕ × Text)
  rows depth end = []
  rows depth (file d_name more) =
      if is_dot d_name then rows depth more else (depth, d_name) ∷ rows depth more
  rows depth (dir d_name d more) =
      if is_dot d_name
      then rows depth more
      else (depth, d_name) ∷ preorder (suc depth) d ++ rows depth more

-- The length of the longest path to a directory below one whose path has `n` bytes.
abbrev mutual
  pub longest : (n : ℕ) → Dir → ℕ
  longest n closed = 0
  longest n (opened es) = longest_of n es

  pub longest_of : (n : ℕ) → Entries → ℕ
  longest_of n end = 0
  longest_of n (file d_name more) = longest_of n more
  longest_of n (dir d_name d more) =
      if is_dot d_name
      then longest_of n more
      else max (max (n + suc (length d_name)) (longest (n + suc (length d_name)) d))
          (longest_of n more)

-- A name on its line, four blanks for each level.
abbrev pub row_line : ℕ × Text → Text
row_line (depth, d_name) = line (4 * suc depth) d_name

abbrev pub Prints : (bytes : ℕ) → List (ℕ × Text) → Run (List Text)
Prints bytes rs = if ltb bytes 512 then ok (map row_line rs) else fault

map-append :
    (f : ℕ × Text → Text) (xs ys : List (ℕ × Text)) → map f (xs ++ ys) ≡ map f xs ++ map f ys
map-append f [] ys = refl
map-append f (x ∷ xs) ys = ap (λ (t : List Text). f x ∷ t) (map-append f xs ys)

-- A directory on its line, what is below it, and what follows.
join :
    (a b c depth : ℕ) (buff d_name : Text) (below rest : List (ℕ × Text))
    (inner : Text → Run (List Text))
    → length buff ≡ a
    → inner buff ≡ Prints b below
    → (fill 512 buff >>= λ t.
        inner t >>= λ xs. Prints c rest >>= λ ys. ok (row_line (depth, d_name) ∷ xs ++ ys))
      ≡ Prints (max (max a b) c) ((depth, d_name) ∷ below ++ rest)
unfolding fill
join a b c depth buff d_name below rest inner e i = elim (Bool-cases (ltb (length buff) 512)) [
  | inr no_path ↦
      let long : ltb (max (max a b) c) 512 ≡ false = ground arith in rw (long, fill, no_path) refl
  | inl path ↦ elim (Bool-cases (ltb b 512)) [
    | inr deep ↦
        let long : ltb (max (max a b) c) 512 ≡ false = ground arith in
        rw (long, fill, path, i, deep) refl
    | inl shallow ↦ elim (Bool-cases (ltb c 512)) [
      | inr wide ↦
          let long : ltb (max (max a b) c) 512 ≡ false = ground arith in
          rw (long, fill, path, i, shallow, wide) refl
      | inl narrow ↦
          let fits : ltb (max (max a b) c) 512 ≡ true = ground arith in
          rw (fits, fill, path, i, shallow, narrow, map-append row_line below rest) refl
    ]
  ]
]

pub length-path :
    (path d_name : Text) → length (path ++ b'/' ∷ d_name) ≡ length path + suc (length d_name)
length-path path d_name = length-append path (b'/' ∷ d_name)

-- An entry that is no directory.
single :
    (n depth : ℕ) (dot : Bool) (d_name : Text) (rs : List (ℕ × Text))
    → (Prints n rs >>= λ rest. ok (if dot then rest else row_line (depth, d_name) ∷ rest))
      ≡ Prints n (if dot then rs else (depth, d_name) ∷ rs)
single n depth dot d_name rs = elim (Bool-cases (ltb n 512)) [
  | inr long ↦ rw long refl
  | inl short ↦ elim (Bool-cases dot) [
    | inl yes_dot ↦ rw (short, yes_dot) refl
    | inr no_dot ↦ rw (short, no_dot) refl
  ]
]

mutual
  unfolding printdir print_entries

  dir_lem :
      (depth : ℕ) (path : Text) (d : Dir)
      → printdir path (4 * suc depth) d ≡ Prints (longest (length path) d) (preorder depth d)
  dir_lem depth path closed = refl
  dir_lem depth path (opened es) = entries_lem depth path es

  entries_lem :
      (depth : ℕ) (path : Text) (es : Entries)
      → print_entries path (4 * suc depth) es ≡ Prints (longest_of (length path) es) (rows depth es)
  entries_lem depth path end = refl
  entries_lem depth path (file d_name more) =
      ap
        (λ (r : Run (List Text)).
          r >>= λ rest. ok (if is_dot d_name then rest else row_line (depth, d_name) ∷ rest))
        (entries_lem depth path more)
      ∙ single (longest_of (length path) more) depth (is_dot d_name) d_name (rows depth more)
  entries_lem depth path (dir d_name d more) = elim (Bool-cases (is_dot d_name)) [
    | inl dot ↦ rw (dot, entries_lem depth path more) refl
    | inr name ↦
        let buff = path ++ b'/' ∷ d_name in
        let n = length path + suc (length d_name) in
        let deeper : printdir buff (4 * suc depth + 4) d
            ≡ Prints (longest n d) (preorder (suc depth) d) =
          ap (λ (w : ℕ). printdir buff w d) (omega arith)
          ∙ dir_lem (suc depth) buff d
          ∙ ap (λ (m : ℕ). Prints (longest m d) (preorder (suc depth) d))
              (length-path path d_name) in
        rw (name, entries_lem depth path more)
          (join n (longest n d) (longest_of (length path) more) depth buff d_name
            (preorder (suc depth) d) (rows depth more) (λ t. printdir t (4 * suc depth + 4) d)
            (length-path path d_name) deeper)
  ]

-- printdir prints the names below the directory in preorder, `.` and `..` left out, each behind four
-- blanks for every level, a directory that cannot be opened without what is below it; and this is so
-- exactly where every path to a directory below fits with its NUL into the 512 bytes of `buff`: where one
-- does not, printdir writes past `buff`.
pub printdir-preorder :
    (path : Text) (depth : ℕ) (d : Dir)
    → printdir path (4 * suc depth) d
      ≡ (if ltb (longest (length path) d) 512 then ok (map row_line (preorder depth d)) else fault)
printdir-preorder path depth d = dir_lem depth path d
