-- ===== src/Ls/Names.antt =====
-- The order of the names, and the name in a path.
use linux_os_coding.Base.{
  ℕ, zero, suc, ◌+◌, ◌<◌, ◌≤◌, ◌≡◌, ◌≢◌, refl, true, false, ok, [], ◌∷◌, ◌++◌, length, drop, arith,
  ◌==◌, ltb, if◌then◌else◌, Bool-cases, inl, inr, length-append, is_empty,
}
use linux_os_coding.Base.Text.{Text, at, fill, fill-ok}
use linux_os_coding.Ls.{text_less, last_slash, get_file_name}

pub text_less-asym : (s t : Text) → text_less s t ≡ true → text_less t s ≡ false
unfolding text_less
text_less-asym [] [] e = ground arith
text_less-asym [] (d ∷ t) e = refl
text_less-asym (c ∷ s) [] e = ground arith
text_less-asym (c ∷ s) (d ∷ t) e = ground (arith, text_less-asym s t)

-- A path's byte at the slash, and those of the name behind it.
abbrev pub NoSlash : Text → Type 0
NoSlash [] = Unit
NoSlash (c ∷ s) = (c ≢ b'/') × NoSlash s

at_slash : (dir name : Text) → at (dir ++ b'/' ∷ name) (length dir) ≡ b'/'
at_slash [] name = refl
at_slash (c ∷ dir) name = at_slash dir name

at-NoSlash : (name : Text) (k : ℕ) → NoSlash name → at name k ≢ b'/'
at-NoSlash [] k n = ground arith
at-NoSlash (c ∷ name) zero n = n.0
at-NoSlash (c ∷ name) (suc k) n = at-NoSlash name k n.1

behind_slash :
    (dir name : Text) (k : ℕ) → NoSlash name → length dir < k → at (dir ++ b'/' ∷ name) k ≢ b'/'
behind_slash dir name zero n h = absurd (omega arith)
behind_slash [] name (suc k) n h = at-NoSlash name k n
behind_slash (c ∷ dir) name (suc k) n h = behind_slash dir name k n (omega arith)

last_slash-found :
    (path : Text) (j i : ℕ)
    → at path j ≡ b'/'
    → ((k : ℕ) → j < k → at path k ≢ b'/')
    → j ≤ i
    → last_slash path i ≡ j
unfolding last_slash
last_slash-found path j zero e none_behind h = omega arith
last_slash-found path j (suc i) e none_behind h = elim (Bool-cases (ltb j (suc i))) [
  | inl lt ↦ ground (arith, none_behind (suc i), last_slash-found path j i e none_behind)
  | inr ge ↦ ground arith
]

drop-length : (dir name : Text) (c : ℕ) → drop (suc (length dir)) (dir ++ c ∷ name) ≡ name
drop-length [] name c = refl
drop-length (d ∷ dir) name c = drop-length dir name c

behind_index : (j : ℕ) → (if suc j == 0 then 0 else suc j + 1) ≡ suc (suc j)
behind_index j = ground arith

named :
    (size : ℕ) (path name : Text) (j : ℕ) {i : ℕ}
    → i ≡ suc j
    → drop (suc (suc j)) path ≡ name
    → length name < size
    → fill size (drop (if i == 0 then 0 else i + 1) path) ≡ ok name
named size path name j e rest room = rw (e, behind_index j, rest) (fill-ok size name room)

-- Of a path whose last slash is not its first byte, `getFileName` gives what follows that slash, if the
-- array has room for it. Of a path whose only slash is its first byte it gives the whole path.
pub get_file_name-base :
    (size : ℕ) (dir name : Text)
    → NoSlash name
    → length name + 1 < size
    → get_file_name size (dir ++ b'/' ∷ name) ≡ ok (if is_empty dir then b'/' ∷ name else name)
unfolding get_file_name
get_file_name-base size [] name n room =
    rw
      (last_slash-found (b'/' ∷ name) 0 (length name) refl (λ k. behind_slash [] name k n)
        (omega arith))
      (fill-ok size (b'/' ∷ name) (omega arith))
get_file_name-base size (c ∷ dir) name n room =
    let found =
      last_slash-found (c ∷ dir ++ b'/' ∷ name) (suc (length dir)) (length (dir ++ b'/' ∷ name))
        (at_slash (c ∷ dir) name) (λ k. behind_slash (c ∷ dir) name k n)
        (omega (arith, length-append dir (b'/' ∷ name))) in
    named size (c ∷ dir ++ b'/' ∷ name) name (length dir) found (drop-length (c ∷ dir) name b'/')
      (omega arith)
